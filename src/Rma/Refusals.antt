-- ===== src/Rma/Refusals.antt =====
-- oshmpi_put and oshmpi_get of src/shmem-internals.c: when they return and when they abort.
use oshmpi.Prelude.{ℕ, ◌≡◌, ◌↔◌, inl, inr, refl, true, [], Bool-cases}
use oshmpi.Prelude.Int.{ℤ, pos}
use oshmpi.Mpi.{Basic, Outcome, aborted, has_returned}
use oshmpi.Mpi.Library.{Mpi}
use oshmpi.Globals.{Globals}
use oshmpi.Window.{window_offset}
use oshmpi.Window.Lookup.{IsSymmetric, window_offset-rc}
use oshmpi.Rma.{bypasses, oshmpi_put, oshmpi_get}

-- A call that returns if `Ok` holds, and otherwise aborts with the code and has done nothing.
pub record ReturnsIff (Ok : Type 0) (code : ℤ) (o : Outcome) : Type 0 where
  pub returns : (has_returned o ≡ true) ↔ Ok
  pub refuses : (o ≡ aborted code []) ↔ (¬ Ok)

pub returned-ReturnsIff :
    {Ok : Type 0} {code : ℤ} {o : Outcome} → Ok → has_returned o ≡ true → ReturnsIff Ok code o
returned-ReturnsIff ok e = record {
  returns = (λ _. ok, λ _. e);
  refuses = (λ e'. absurd (cc), λ refused. absurd (refused ok));
}

pub refused-ReturnsIff :
    {Ok : Type 0} {code : ℤ} {o : Outcome} → (¬ Ok) → o ≡ aborted code [] → ReturnsIff Ok code o
refused-ReturnsIff refused e = record {
  returns = (λ e'. absurd (cc), λ ok. absurd (refused ok));
  refuses = (λ _. refused, λ _. e);
}

module _ (mpi : Mpi) (g : Globals) (b : Basic) (target source len pe : ℕ) where
  pub put_refusals :
      ReturnsIff (IsSymmetric g target) (pos pe) (oshmpi_put mpi g b target source len pe)
  unfolding oshmpi_put
  put_refusals = elim (window_offset-rc g target pe) [
    | inr (lost, e) ↦ refused-ReturnsIff lost (rw e refl)
    | inl (found, e) ↦ elim (Bool-cases (bypasses g (window_offset g target pe))) [
      | inl fast ↦ returned-ReturnsIff found (simp (e, fast) refl)
      | inr slow ↦ returned-ReturnsIff found (simp (e, slow) refl)
    ]
  ]

  pub get_refusals :
      ReturnsIff (IsSymmetric g source) (pos pe) (oshmpi_get mpi g b target source len pe)
  unfolding oshmpi_get
  get_refusals = elim (window_offset-rc g source pe) [
    | inr (lost, e) ↦ refused-ReturnsIff lost (rw e refl)
    | inl (found, e) ↦ elim (Bool-cases (bypasses g (window_offset g source pe))) [
      | inl fast ↦ returned-ReturnsIff found (simp (e, fast) refl)
      | inr slow ↦ returned-ReturnsIff found (simp (e, slow) refl)
    ]
  ]
