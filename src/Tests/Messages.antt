-- ===== src/Tests/Messages.antt =====
-- PE 0 of the tests' job makes a counting put across nodes, and PE 1 waits on the counter.
use oshmpi.Prelude.{
  ℕ, zero, suc, ◌+◌, ◌*◌, ◌<◌, ◌≡◌, ◌≢◌, ◌⊎◌, inl, inr, refl, sym, ap, ◌∙◌, [], arith,
}
use oshmpi.Prelude.Int.{ℤ, pos}
use oshmpi.Mpi.{mpi_byte, mpi_long}
use oshmpi.Mpi.Memory.{Memory, span, gather, scatter, tile, Apart}
use oshmpi.Mpi.Library.{eager, run, add_bytes}
use oshmpi.Mpi.Network.{Net, Steps, here}
use oshmpi.Mpi.Network.Runs.{completes}
use oshmpi.Mpi.Network.Message.{at_rest}
use oshmpi.Globals.{Globals}
use oshmpi.Contiguous.{type_contiguous_x}
use oshmpi.Window.{window_offset}
use oshmpi.Rma.{counted, release_type, through_mpi, put_call, oshmpi_put}
use oshmpi.Rma.Places.{Fits, remote_address}
use oshmpi.Rma.Pending.{performed}
use oshmpi.Atomic.{oshmpi_add}
use oshmpi.Atomic.Paths.{load}
use oshmpi.Atomic.Values.{number}
use oshmpi.Sync.{oshmpi_remote_sync_pe, shmemx_ct_get, shmemx_putmem_ct}
use oshmpi.Sync.Message.{putmem_ct-delivered, putmem_ct_separates}
use oshmpi.Window.Lookup.{InSheap, InEtext}
use oshmpi.Wait.{released, shmemx_ct_wait}
use oshmpi.Api.Waits.{signed}
use oshmpi.Api.Waits.Message.{ct_value, IsOnTheWay, ct_wait_sees_object}
use oshmpi.Tests.Setting.{cluster, cluster-Shared, memory}

abbrev receiver : Globals
receiver = record cluster {
  shmem_world_rank = 1;
  shmem_sheap_base_ptr = 0x110000;
  shmem_etext_base_ptr = 0x810000;
}

abbrev message_run :
    (n : Net) × Steps eager
      (performed (shmemx_putmem_ct eager cluster 0x100040 0x100010 0x200000 8 1 0x300001))
      (at_rest eager memory)
      []
      n
    × (n.pending ≡ [])
message_run =
    completes eager
      (performed (shmemx_putmem_ct eager cluster 0x100040 0x100010 0x200000 8 1 0x300001)) _

abbrev seen : ℕ → Memory
seen zero = memory
seen (suc i) = message_run.0.memory

seen_way :
    (i : ℕ) → IsOnTheWay eager cluster 0x100040 0x100010 0x200000 8 1 0x300001 memory (seen i)
seen_way zero = (_, _, here, refl)
seen_way (suc i) = (_, _, message_run.1, refl)

abbrev message_fits : Fits eager cluster 1 mpi_byte 8
message_fits = record { shared = cluster-Shared; chunks = omega arith; bytes = omega arith }

abbrev found : InSheap cluster 0x100010 ⊎ InEtext cluster 0x100010
found = inl (omega arith, omega arith)

abbrev found_ct : InSheap cluster 0x100040 ⊎ InEtext cluster 0x100040
found_ct = inl (omega arith, omega arith)

object_counter :
    Apart
      (remote_address eager cluster 0x100010 1)
      (8 * 1)
      (remote_address eager cluster 0x100040 1)
      8
unfolding remote_address
object_counter = inl (omega arith)

one_object : Apart 0x300001 8 (remote_address eager cluster 0x100010 1) (8 * 1)
unfolding remote_address
one_object = inr (omega arith)

own_counter : 0x110040 ≡ remote_address eager cluster 0x100040 1
unfolding remote_address
own_counter = refl

delivered_memory :
    message_run.0.memory
    ≡ run eager
        (performed (shmemx_putmem_ct eager cluster 0x100040 0x100010 0x200000 8 1 0x300001))
        memory
delivered_memory =
    putmem_ct-delivered eager cluster 0x100040 0x100010 0x200000 8 1 0x300001 refl message_fits
      found found_ct object_counter one_object memory message_run.1 message_run.2

value_first : signed (load eager mpi_long memory 0x110040) ≡ pos 0x4746454443424140
unfolding signed number gather span
value_first = refl

value_last :
    ct_value eager receiver 0x110040 0x400000 0x500000 (
      run eager
        (performed (shmemx_putmem_ct eager cluster 0x100040 0x100010 0x200000 8 1 0x300001))
        memory)
    ≡ pos 0x4f4d4b4947454341
unfolding signed number gather scatter span tile add_bytes run type_contiguous_x window_offset
    counted release_type through_mpi put_call oshmpi_put oshmpi_add shmemx_ct_get shmemx_putmem_ct
    oshmpi_remote_sync_pe
value_last = refl

abbrev awaited : ℤ
awaited = pos 0x4f4d4b4947454341

pos-other : (a b : ℕ) → a ≢ b → pos a ≢ pos b
pos-other a b other e = let same : a ≡ b = cc in other same

first_last : pos 0x4746454443424140 ≢ awaited
first_last = pos-other 0x4746454443424140 0x4f4d4b4947454341 (λ e. omega (arith, e))

first_read : ct_value eager receiver 0x110040 0x400000 0x500000 memory ≡ pos 0x4746454443424140
unfolding signed number gather scatter span tile add_bytes run shmemx_ct_get
first_read = refl

first_other : ct_value eager receiver 0x110040 0x400000 0x500000 memory ≢ awaited
first_other e = first_last (sym first_read ∙ e)

none_before :
    (i : ℕ) → i < 1 → ct_value eager receiver 0x110040 0x400000 0x500000 (seen i) ≢ awaited
none_before zero less = first_other
none_before (suc i) less = absurd (omega arith)

not_at_first : signed (load eager mpi_long memory 0x110040) ≢ awaited
not_at_first e = first_last (sym value_first ∙ e)

seen_value : ct_value eager receiver 0x110040 0x400000 0x500000 (seen 1) ≡ awaited
seen_value = ap (ct_value eager receiver 0x110040 0x400000 0x500000) delivered_memory ∙ value_last

ct_wait_sees_object_example :
    (shmemx_ct_wait (λ i. ct_value eager receiver 0x110040 0x400000 0x500000 (seen i)) awaited 5
      ≡ released (1 + 1) awaited)
    × (gather (seen 1) (remote_address eager cluster 0x100010 1) (span 0 (8 * 1))
        ≡ gather memory 0x200000 (span 0 (8 * 1)))
ct_wait_sees_object_example =
    ct_wait_sees_object eager cluster 0x100040 0x100010 0x200000 8 1 0x300001 memory refl
      message_fits found found_ct object_counter receiver 0x110040 0x400000 0x500000 refl refl
      (omega arith, omega arith) own_counter seen seen_way awaited not_at_first 1 none_before
      seen_value 5 (omega arith)

-- At the end of the put.
putmem_ct_separates_example :
    (gather message_run.0.memory (remote_address eager cluster 0x100040 1) (span 0 8)
      ≡ gather memory (remote_address eager cluster 0x100040 1) (span 0 8))
    ⊎ (gather message_run.0.memory (remote_address eager cluster 0x100010 1) (span 0 (8 * 1))
        ≡ gather memory 0x200000 (span 0 (8 * 1)))
putmem_ct_separates_example =
    putmem_ct_separates eager cluster 0x100040 0x100010 0x200000 8 1 0x300001 refl message_fits
      found found_ct object_counter memory message_run.1
