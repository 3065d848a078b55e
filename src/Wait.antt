-- ===== src/Wait.antt =====
-- The waits on a symmetric variable: COMP, SHMEM_WAIT and SHMEM_WAIT_UNTIL of src/shmem-wait.h,
-- and shmemx_ct_wait of src/shmemx-counting-put.c.
-- Another PE may change the variable at any time, so what the atomic reads return is a sequence of
-- values, `observe`, and a wait is a run over it, on fuel.
pub mod Loop
use oshmpi.Prelude.{ℕ, zero, suc, ◌+◌, Bool, true, false, not, Option, none, some, if◌then◌else◌}
use oshmpi.Prelude.Int.{ℤ, leb_ℤ, ltb_ℤ, eqb_ℤ}
use oshmpi.Mpi.{Win, sheap_win, etext_win}
use oshmpi.Globals.{Globals}
use oshmpi.Window.{WindowId, sheap_window, etext_window, invalid_window, window_offset}

-- SHMEM_CMP_EQ and so on; any other int is refused.
pub data Cmp : Type 0 where
  cmp_eq cmp_ne cmp_gt cmp_ge cmp_lt cmp_le : Cmp
  cmp_other : ℤ → Cmp

-- `none` where the comparison aborts.
unfoldable pub comp : Cmp → (a b : ℤ) → Option Bool
comp cmp_eq a b = some (eqb_ℤ a b)
comp cmp_ne a b = some (not (eqb_ℤ a b))
comp cmp_gt a b = some (ltb_ℤ b a)
comp cmp_ge a b = some (leb_ℤ b a)
comp cmp_lt a b = some (ltb_ℤ a b)
comp cmp_le a b = some (leb_ℤ a b)
comp (cmp_other n) a b = none

-- The window that the reads are made on. `win` is not assigned for any other address.
unfoldable pub wait_window : Globals → (address : ℕ) → Option Win
wait_window g address = elim ((window_offset g address g.shmem_world_rank).win_id) [
  | sheap_window ↦ some sheap_win
  | etext_window ↦ some etext_win
  | invalid_window ↦ none
]

-- A wait returns behind a number of reads, with the last value read; or it aborts; or the reads
-- that it is given do not end it.
pub data WaitResult : Type 0 where
  released : (reads : ℕ) → (temp : ℤ) → WaitResult
  wait_aborted : (reads : ℕ) → WaitResult
  still_waiting : WaitResult

-- The two loops, with `i` reads made before. The test of the first is on `temp`, which is
-- `value` at first.
module _ (observe : ℕ → ℤ) (value : ℤ) where
  unfoldable pub wait_from : (fuel i : ℕ) → (temp : ℤ) → WaitResult
  wait_from zero i temp = if eqb_ℤ temp value then still_waiting else released i temp
  wait_from (suc fuel) i temp =
      let again = wait_from fuel (i + 1) (observe i) in
      if eqb_ℤ temp value then again else released i temp

  unfoldable pub shmem_wait : (fuel : ℕ) → WaitResult
  unfolding wait_from
  shmem_wait fuel = wait_from fuel 0 value

  unfoldable pub until_from : Cmp → (fuel i : ℕ) → WaitResult
  until_from cond zero i = still_waiting
  until_from cond (suc fuel) i =
      let again = until_from cond fuel (i + 1) in
      elim (comp cond (observe i) value) [
        | none ↦ wait_aborted (i + 1)
        | some true ↦ released (i + 1) (observe i)
        | some false ↦ again
      ]

  unfoldable pub shmem_wait_until : Cmp → (fuel : ℕ) → WaitResult
  unfolding until_from
  shmem_wait_until cond fuel = until_from cond fuel 0

  -- shmemx_ct_wait: `value` is compared to each value that shmemx_ct_get returns.
  unfoldable pub ct_from : (fuel i : ℕ) → WaitResult
  ct_from zero i = still_waiting
  ct_from (suc fuel) i =
      let again = ct_from fuel (i + 1) in
      if eqb_ℤ value (observe i) then released (i + 1) (observe i) else again

  unfoldable pub shmemx_ct_wait : (fuel : ℕ) → WaitResult
  unfolding ct_from
  shmemx_ct_wait fuel = ct_from fuel 0
