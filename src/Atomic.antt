-- ===== src/Atomic.antt =====
-- The atomic operations of src/shmem-internals.c: oshmpi_swap, oshmpi_cswap, oshmpi_add and
-- oshmpi_fadd. On an SMP world an operation on the symmetric heap is a builtin of the compiler at
-- the peer's shared segment; any other is an MPI call.
pub mod Paths
pub mod Values
pub mod Refusals
pub mod Pending
pub mod Sums
pub mod Concurrent
use oshmpi.Prelude.{ℕ, Bool, true, false, ◌&&◌, List, [], ◌∷◌, ◌==◌, if◌then◌else◌}
use oshmpi.Prelude.Int.{pos}
use oshmpi.Mpi.{
  Basic, mpi_int, mpi_long, mpi_long_long, basic, mpi_sum, mpi_replace, Action, sync_swap,
  sync_cswap, sync_fetch_add, sync_add, fetch_and_op, compare_and_swap, accumulate, win_flush,
  win_flush_local, Outcome, finished, aborted,
}
use oshmpi.Globals.{Globals}
use oshmpi.Window.{window_offset, window_of}
use oshmpi.Rma.{peer_ptr, bypasses}

-- `mpi_type==MPI_LONG || mpi_type==MPI_INT || mpi_type==MPI_LONG_LONG`
abbrev pub is_integer : Basic → Bool
is_integer mpi_long = true
is_integer mpi_int = true
is_integer mpi_long_long = true
is_integer _ = false

module _ (g : Globals) (mpi_type : Basic) where
  unfoldable pub oshmpi_swap : (output remote input pe : ℕ) → Outcome
  oshmpi_swap output remote input pe =
      let l = window_offset g remote pe in
      if l.rc == 0
      then if bypasses g l && is_integer mpi_type
        then finished (sync_swap mpi_type output (peer_ptr g remote pe) input ∷ [])
        else finished (
            fetch_and_op input output mpi_type pe l.win_offset mpi_replace (window_of l.win_id)
            ∷ win_flush pe (window_of l.win_id)
            ∷ [])
      else aborted (pos pe) []

  unfoldable pub oshmpi_cswap : (output remote input compare pe : ℕ) → Outcome
  oshmpi_cswap output remote input compare pe =
      let l = window_offset g remote pe in
      if l.rc == 0
      then if bypasses g l
        then if is_integer mpi_type
          then finished (sync_cswap mpi_type output (peer_ptr g remote pe) input compare ∷ [])
          else aborted (pos pe) []
        else finished (
            compare_and_swap input compare output mpi_type pe l.win_offset (window_of l.win_id)
            ∷ win_flush pe (window_of l.win_id)
            ∷ [])
      else aborted (pos pe) []

  unfoldable pub oshmpi_add : (remote input pe : ℕ) → Outcome
  oshmpi_add remote input pe =
      let l = window_offset g remote pe in
      if l.rc == 0
      then if bypasses g l
        then if is_integer mpi_type
          then finished (sync_add mpi_type (peer_ptr g remote pe) input ∷ [])
          else aborted (pos pe) []
        else finished (
            accumulate input 1 (basic mpi_type) pe l.win_offset 1 (basic mpi_type) mpi_sum
              (window_of l.win_id)
            ∷ win_flush_local pe (window_of l.win_id)
            ∷ [])
      else aborted (pos pe) []

  unfoldable pub oshmpi_fadd : (output remote input pe : ℕ) → Outcome
  oshmpi_fadd output remote input pe =
      let l = window_offset g remote pe in
      if l.rc == 0
      then if bypasses g l
        then if is_integer mpi_type
          then finished (sync_fetch_add mpi_type output (peer_ptr g remote pe) input ∷ [])
          else aborted (pos pe) []
        else finished (
            fetch_and_op input output mpi_type pe l.win_offset mpi_sum (window_of l.win_id)
            ∷ win_flush pe (window_of l.win_id)
            ∷ [])
      else aborted (pos pe) []
