-- ===== src/Sync.antt =====
-- The completion of transfers: oshmpi_remote_sync, oshmpi_remote_sync_pe and oshmpi_local_sync of
-- src/shmem-internals.c, shmem_quiet and shmem_fence of src/shmem.c, and the counting puts of
-- src/shmemx-counting-put.c.
pub mod Completion
pub mod Counted
pub mod Puts
pub mod Delivery
pub mod RoundTrip
pub mod Fence
pub mod Overtaken
pub mod Message
use oshmpi.Prelude.{ℕ, Bool, true, false, ◌&&◌, List, [], ◌∷◌, ◌++◌, if◌then◌else◌}
use oshmpi.Prelude.Int.{ℤ, sub_ℕ}
use oshmpi.Mpi.{
  mpi_byte, mpi_long, mpi_replace, mpi_no_op, sheap_win, etext_win, Action, sync_swap,
  sync_fetch_add, fetch_and_op, win_flush, win_flush_local, win_flush_all, win_sync,
  sync_synchronize, Outcome, finished, aborted, assert_failed,
}
use oshmpi.Mpi.Library.{Mpi}
use oshmpi.Globals.{Globals}
use oshmpi.Rma.{oshmpi_put}
use oshmpi.Atomic.{oshmpi_add}

unfoldable pub oshmpi_remote_sync : List Action
oshmpi_remote_sync = win_flush_all sheap_win ∷ win_flush_all etext_win ∷ []

unfoldable pub oshmpi_remote_sync_pe : (pe : ℕ) → List Action
oshmpi_remote_sync_pe pe = win_flush pe sheap_win ∷ win_flush pe etext_win ∷ []

unfoldable pub oshmpi_local_sync : Globals → List Action
oshmpi_local_sync g =
    (if g.smp_optimizations then sync_synchronize ∷ [] else [])
    ++ win_sync sheap_win ∷ win_sync etext_win ∷ []

unfoldable pub shmem_quiet : Globals → List Action
shmem_quiet g = oshmpi_remote_sync ++ oshmpi_local_sync g

unfoldable pub shmem_fence : Globals → List Action
shmem_fence g = (if g.rma_ordering then [] else oshmpi_remote_sync) ++ oshmpi_local_sync g

-- A second call behind one that returns.
abbrev pub before_call : List Action → Outcome → Outcome
before_call done (finished more) = finished (done ++ more)
before_call done (aborted code more) = aborted code (done ++ more)
before_call done (assert_failed more) = assert_failed (done ++ more)

abbrev pub and_then : Outcome → Outcome → Outcome
and_then (finished done) next = before_call done next
and_then (aborted code done) next = aborted code done
and_then (assert_failed done) next = assert_failed done

module _ (g : Globals) where
  -- `output` is the address of the result; on the fast path the value added is the constant 0, at
  -- `nothing`.
  unfoldable pub shmemx_ct_get : (ct output nothing : ℕ) → List Action
  shmemx_ct_get ct output nothing =
      if g.smp_optimizations && g.shmem_world_is_smp
      then sync_fetch_add mpi_long output ct nothing ∷ []
      else fetch_and_op 0 output mpi_long g.shmem_world_rank (sub_ℕ ct g.shmem_sheap_base_ptr)
          mpi_no_op sheap_win
        ∷ win_flush_local g.shmem_world_rank sheap_win
        ∷ []

  -- `value` is the address of the parameter; `dropped` takes the old value of the builtin.
  unfoldable pub shmemx_ct_set : (ct value dropped : ℕ) → List Action
  shmemx_ct_set ct value dropped =
      if g.smp_optimizations && g.shmem_world_is_smp
      then sync_swap mpi_long dropped ct value ∷ []
      else fetch_and_op value 0 mpi_long g.shmem_world_rank (sub_ℕ ct g.shmem_sheap_base_ptr)
          mpi_replace sheap_win
        ∷ win_flush g.shmem_world_rank sheap_win
        ∷ []

-- `one` is the address of the parameter of shmem_long_add that is given the constant 1.
unfoldable pub shmemx_putmem_ct : Mpi → Globals → (ct target source len pe one : ℕ) → Outcome
shmemx_putmem_ct mpi g ct target source len pe one =
    and_then (oshmpi_put mpi g mpi_byte target source len pe)
      (before_call (oshmpi_remote_sync_pe pe) (oshmpi_add g mpi_long ct one pe))
