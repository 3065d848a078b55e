-- ===== src/Strided/Refusals.antt =====
-- The strided transfers of src/shmem-internals.c: when they return, when they abort and when their
-- assert fails.
use oshmpi.Prelude.{
  ℕ, ◌+◌, ◌↔◌, ◌%◌, ◌≤◌, ◌<◌, ◌≡◌, inl, inr, refl, true, List, [], ◌&&◌, Bool-cases, ltb, ltb→lt,
  if◌then◌else◌, ◌==◌, arith,
}
use oshmpi.Prelude.Int.{ℤ, pos, negsuc}
use oshmpi.Mpi.{Basic, Action, Outcome, finished, aborted, assert_failed, has_returned}
use oshmpi.Contiguous.{int_max}
use oshmpi.Globals.{Globals}
use oshmpi.Window.{window_offset}
use oshmpi.Window.Lookup.{IsSymmetric, window_offset-rc}
use oshmpi.Strided.{is_int_stride, oshmpi_put_strided, oshmpi_get_strided}

-- Strictly between INT32_MIN and INT32_MAX.
abbrev pub IsNarrow : ℤ → Type 0
IsNarrow (pos n) = n < 2147483647
-- negsuc n is -(n + 1)
IsNarrow (negsuc n) = n + 1 < 2147483648

IsNarrow-iff : (d : ℤ) → (is_int_stride d ≡ true) ↔ IsNarrow d
IsNarrow-iff (pos n) = (λ h. ground arith, λ h. ground arith)
IsNarrow-iff (negsuc n) = (λ h. ground arith, λ h. ground arith)

-- The four outcomes of a strided transfer, in the order of its tests.
pub data StridedOutcome (g : Globals) (remote : ℕ) (d e : ℤ) (len pe : ℕ) (o : Outcome)
    : Type 0 where
  -- An abort with the count, cut to an int, as the code.
  too_long :
      2147483647 ≤ len
      → o ≡ aborted (pos (len % 2147483647)) []
      → StridedOutcome g remote d e len pe o
  not_found :
      len < 2147483647
      → ¬ IsSymmetric g remote
      → o ≡ aborted (pos pe) []
      → StridedOutcome g remote d e len pe o
  wide_stride :
      len < 2147483647
      → IsSymmetric g remote
      → ¬ (IsNarrow d × IsNarrow e)
      → o ≡ assert_failed []
      → StridedOutcome g remote d e len pe o
  transferred :
      len < 2147483647
      → IsSymmetric g remote
      → IsNarrow d × IsNarrow e
      → has_returned o ≡ true
      → StridedOutcome g remote d e len pe o

module _ (g : Globals) (d e : ℤ) (len pe : ℕ) where
  outcome_cases :
      (remote : ℕ) (actions : List Action)
      → StridedOutcome g remote d e len pe (
          if ltb len int_max
          then if (window_offset g remote pe).rc == 0
            then if is_int_stride d && is_int_stride e then finished actions else assert_failed []
            else aborted (pos pe) []
          else aborted (pos (len % int_max)) [])
  outcome_cases remote actions = elim (Bool-cases (ltb len int_max)) [
    | inr long ↦ too_long (ground arith) (rw long refl)
    | inl short ↦ elim (window_offset-rc g remote pe) [
      | inr (lost, rc) ↦ not_found (ltb→lt _ _ short) lost (simp (short, rc) refl)
      | inl (found, rc) ↦ elim (Bool-cases (is_int_stride d && is_int_stride e)) [
        | inl fits ↦
            transferred (ltb→lt _ _ short) found
              ((IsNarrow-iff d).0 (ground arith), (IsNarrow-iff e).0 (ground arith))
              (simp (short, rc, fits) refl)
        | inr wide ↦
            wide_stride (ltb→lt _ _ short) found
              (λ narrow. ground (arith, (IsNarrow-iff d).1 narrow.0, (IsNarrow-iff e).1 narrow.1))
              (simp (short, rc, wide) refl)
      ]
    ]
  ]

  -- A strided transfer of at least INT32_MAX items aborts; a shorter one aborts if the remote address
  -- is not found, fails its assert if a stride is not strictly between INT32_MIN and INT32_MAX, and
  -- returns otherwise. What does not return has done nothing.
  pub strided_outcomes :
      (b : Basic) (target source : ℕ)
      → StridedOutcome g target d e len pe (oshmpi_put_strided g b target source d e len pe)
        × StridedOutcome g source d e len pe (oshmpi_get_strided g b target source d e len pe)
  unfolding oshmpi_put_strided oshmpi_get_strided
  strided_outcomes b target source = (outcome_cases target _, outcome_cases source _)
