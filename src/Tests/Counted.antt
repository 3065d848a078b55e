-- ===== src/Tests/Counted.antt =====
-- PE 0 of the tests' job makes a counting put to PE 1, which reads its counter.
use oshmpi.Prelude.{
  ◌+◌, ◌*◌, ◌%◌, ◌^◌, ◌≡◌, ◌⊎◌, inl, inr, refl, some, [], arith, ltb, ◌==◌, if◌then◌else◌,
}
use oshmpi.Mpi.{mpi_long}
use oshmpi.Mpi.Memory.{Apart, Memory, span, gather}
use oshmpi.Mpi.Library.{eager, run}
use oshmpi.Mpi.Network.{Net, Steps}
use oshmpi.Mpi.Network.Runs.{completes}
use oshmpi.Mpi.Network.Message.{at_rest}
use oshmpi.Globals.{Globals}
use oshmpi.Window.Lookup.{InSheap, InEtext}
use oshmpi.Rma.Places.{memory_after, remote_address}
use oshmpi.Rma.Pending.{performed}
use oshmpi.Atomic.Paths.{load}
use oshmpi.Atomic.Values.{number}
use oshmpi.Sync.{shmemx_ct_get, shmemx_putmem_ct}
use oshmpi.Sync.Counted.{putmem_ct_counts}
use oshmpi.Tests.Setting.{cluster, cluster-Shared}

-- The job as PE 1 sees it.
abbrev receiver : Globals
receiver = record cluster {
  shmem_world_rank = 1;
  shmem_sheap_base_ptr = 0x110000;
  shmem_etext_base_ptr = 0x810000;
}

found : InSheap cluster 0x100010 ⊎ InEtext cluster 0x100010
found = inl (omega arith, omega arith)

found_ct : InSheap cluster 0x100040 ⊎ InEtext cluster 0x100040
found_ct = inl (omega arith, omega arith)

apart :
    Apart (remote_address eager cluster 0x100010 1) 8 (remote_address eager cluster 0x100040 1) 8
unfolding remote_address
apart = inl (omega arith)

one_apart : Apart 0x300000 8 (remote_address eager cluster 0x100010 1) 8
unfolding remote_address
one_apart = inr (omega arith)

own_counter : 0x110040 ≡ remote_address eager cluster 0x100040 1
unfolding remote_address
own_counter = refl

-- PE 0's memory, with the constant 1 in the parameter of shmem_long_add.
abbrev started : Memory
started a = if a == 0x300000 then 1 else if ltb a 0x300000 then a % 256 else 0

abbrev count_run :
    (n : Net) × Steps eager
      (performed (shmemx_putmem_ct eager cluster 0x100040 0x100010 0x200000 8 1 0x300000))
      (at_rest eager started)
      []
      n
    × (n.pending ≡ [])
count_run =
    completes eager
      (performed (shmemx_putmem_ct eager cluster 0x100040 0x100010 0x200000 8 1 0x300000)) _

one_there : number (load eager mpi_long started 0x300000) ≡ 1
unfolding number gather span
one_there = refl

putmem_ct_counts_example :
    ((n' : Net) × Steps eager
        (performed (shmemx_putmem_ct eager cluster 0x100040 0x100010 0x200000 8 1 0x300000))
        (at_rest eager started)
        []
        n'
      × (n'.pending ≡ []))
    × ((m' : Memory) × (memory_after eager
            (shmemx_putmem_ct eager cluster 0x100040 0x100010 0x200000 8 1 0x300000)
            started
          ≡ some m')
        × (count_run.0.memory ≡ m'))
    × (gather count_run.0.memory (remote_address eager cluster 0x100010 1) (span 0 (8 * 1))
        ≡ gather started 0x200000 (span 0 (8 * 1)))
    × (number (
          load eager mpi_long
            (run eager (shmemx_ct_get receiver 0x110040 0x400000 0x500000) count_run.0.memory)
            0x400000)
        ≡ (number (load eager mpi_long started (remote_address eager cluster 0x100040 1)) + 1)
          % 256 ^ 8)
putmem_ct_counts_example =
    putmem_ct_counts eager cluster 0x100040 0x100010 0x200000 8 1 0x300000 refl
      (record { shared = cluster-Shared; chunks = omega arith; bytes = omega arith }) found found_ct
      apart one_apart receiver 0x110040 0x400000 0x500000 refl refl (omega arith, omega arith)
      own_counter started one_there count_run.0 count_run.1 count_run.2
