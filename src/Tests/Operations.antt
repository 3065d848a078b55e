-- ===== src/Tests/Operations.antt =====
-- Atomic operations, public calls and counting puts of the tests' job.
use oshmpi.Prelude.{
  ℕ, ◌+◌, ◌%◌, ◌^◌, ◌≤◌, ◌<◌, ◌≡◌, ◌⊎◌, refl, some, arith, inl, inr, if◌then◌else◌,
}
use oshmpi.Mpi.{mpi_int, mpi_long}
use oshmpi.Mpi.Memory.{Memory}
use oshmpi.Mpi.Library.{eager, bytes_eq}
use oshmpi.Window.Lookup.{InSheap, InEtext}
use oshmpi.Rma.Places.{memory_after, remote_address, remote_address-sheap}
use oshmpi.Atomic.{oshmpi_cswap, oshmpi_fadd}
use oshmpi.Atomic.Paths.{load, store, cswap_effect}
use oshmpi.Atomic.Values.{number, fadd_wraps}
use oshmpi.Api.Point.{Elem, elem_type}
use oshmpi.Tests.Setting.{node, cluster, memory, node-Shared, cluster-Shared}

heap : InSheap node 0x100010 ⊎ InEtext node 0x100010
heap = inl (omega arith, omega arith)

cluster_heap : InSheap cluster 0x100010 ⊎ InEtext cluster 0x100010
cluster_heap = inl (omega arith, omega arith)

abbrev there : ℕ
there = remote_address eager node 0x100010 2

abbrev there' : ℕ
there' = remote_address eager cluster 0x100010 2

behind : 0x200000 + 8 ≤ there ⊎ there + 8 ≤ 0x200000
behind =
    inr (rw (remote_address-sheap eager node 0x100010 2 (omega arith, omega arith)) (omega arith))

fadd_wraps_example :
    (m' : Memory) × (memory_after eager
        (oshmpi_fadd node mpi_long 0x200000 0x100010 0x300000 2)
        memory
      ≡ some m')
    × (load eager mpi_long m' 0x200000 ≡ load eager mpi_long memory there)
    × (number (load eager mpi_long m' there)
        ≡ (number (load eager mpi_long memory there) + number (load eager mpi_long memory 0x300000))
          % 256 ^ 8)
fadd_wraps_example =
    fadd_wraps {pe = 2} node-Shared mpi_long refl 0x100010 heap memory 0x200000 0x300000 behind

cswap_effect_example :
    memory_after eager (oshmpi_cswap cluster mpi_int 0x200000 0x100010 0x300000 0x300020 2) memory
    ≡ some (
        store eager mpi_int
          (if bytes_eq (load eager mpi_int memory there') (load eager mpi_int memory 0x300020)
            then store eager mpi_int memory there' (load eager mpi_int memory 0x300000)
            else memory)
          0x200000
          (load eager mpi_int memory there'))
cswap_effect_example =
    cswap_effect {pe = 2} cluster-Shared mpi_int refl 0x100010 cluster_heap memory 0x200000 0x300000
      0x300020

four : eager.type_size (elem_type Elem.float) < 2 ^ 63
unfolding elem_type
four = omega arith
