-- ===== src/Api/Waits.antt =====
-- The waits of src/shmem.c: shmem_short_wait and so on, which are the macros SHMEM_WAIT and
-- SHMEM_WAIT_UNTIL of src/shmem-wait.h at an MPI type. Other PEs change memory at any time, so a
-- wait runs over the memories that its turns find, `moments`.
pub mod Seen
pub mod Message
pub mod Fenced
use oshmpi.Prelude.{ℕ, ◌*◌, ◌^◌, Option, none, some, List, [], ◌∷◌, length, ltb, if◌then◌else◌}
use oshmpi.Prelude.Int.{ℤ, pos, sub_ℕ}
use oshmpi.Mpi.{
  Basic, mpi_short, mpi_int, mpi_long, mpi_long_long, Win, mpi_no_op, Action, fetch_and_op,
  win_flush_local,
}
use oshmpi.Mpi.Memory.{Memory}
use oshmpi.Mpi.Library.{Mpi, run}
use oshmpi.Globals.{Globals}
use oshmpi.Window.{window_offset}
use oshmpi.Atomic.Paths.{load}
use oshmpi.Atomic.Values.{number}
use oshmpi.Wait.{Cmp, WaitResult, wait_window, shmem_wait, shmem_wait_until}

-- The suffixes of the waits; `plain` is shmem_wait and shmem_wait_until.
pub data Waitable : Type 0 where
  short int long longlong plain : Waitable

unfoldable pub wait_type : Waitable → Basic
wait_type Waitable.short = mpi_short
wait_type Waitable.int = mpi_int
wait_type Waitable.long = mpi_long
wait_type Waitable.longlong = mpi_long_long
wait_type Waitable.plain = mpi_long

-- The value of a C integer of some bytes, in two's complement.
unfoldable pub signed : List ℕ → ℤ
signed bytes =
    if ltb (2 * number bytes) (256 ^ length bytes)
    then pos (number bytes)
    else sub_ℕ (number bytes) (256 ^ length bytes)

-- `temp` is the address of the local variable. The input of the reads is NULL, address 0.
module _ (mpi : Mpi) (g : Globals) (u : Waitable) (var temp : ℕ) where
  -- The calls of one turn of a loop.
  unfoldable pub wait_read : Win → List Action
  wait_read win =
      let offset = (window_offset g var g.shmem_world_rank).win_offset in
      fetch_and_op 0 temp (wait_type u) g.shmem_world_rank offset mpi_no_op win
      ∷ win_flush_local g.shmem_world_rank win
      ∷ []

  -- The value of `temp` behind the turn that finds `m`.
  unfoldable pub read_value : Win → Memory → ℤ
  read_value win m = signed (load mpi (wait_type u) (run mpi (wait_read win) m) temp)

  module _ (moments : ℕ → Memory) where
    -- `none` where the window is not set.
    unfoldable pub shmem_type_wait : (v : ℤ) (fuel : ℕ) → Option WaitResult
    shmem_type_wait v fuel = elim (wait_window g var) [
      | none ↦ none
      | some win ↦ some (shmem_wait (λ i. read_value win (moments i)) v fuel)
    ]

    unfoldable pub shmem_type_wait_until : (c : Cmp) (v : ℤ) (fuel : ℕ) → Option WaitResult
    shmem_type_wait_until c v fuel = elim (wait_window g var) [
      | none ↦ none
      | some win ↦ some (shmem_wait_until (λ i. read_value win (moments i)) v c fuel)
    ]
