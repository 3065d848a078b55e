-- ===== src/Atomic/Refusals.antt =====
-- The atomic operations of src/shmem-internals.c: when they return and when they abort.
use oshmpi.Prelude.{
  ℕ, ◌≡◌, inl, inr, refl, Bool, true, List, [], ◌&&◌, Bool-cases, if◌then◌else◌, ◌==◌,
}
use oshmpi.Prelude.Int.{pos}
use oshmpi.Mpi.{Basic, Action, finished, aborted}
use oshmpi.Mpi.Library.{Mpi}
use oshmpi.Globals.{Globals}
use oshmpi.Window.{window_offset}
use oshmpi.Window.Lookup.{IsSymmetric, window_offset-rc}
use oshmpi.Rma.{bypasses, oshmpi_put, oshmpi_get}
use oshmpi.Rma.Refusals.{
  put_refusals, get_refusals, ReturnsIff, returned-ReturnsIff, refused-ReturnsIff,
}
use oshmpi.Atomic.{is_integer, oshmpi_swap, oshmpi_cswap, oshmpi_add, oshmpi_fadd}

module _ (g : Globals) (b : Basic) (remote pe : ℕ) where
  -- Whether the operation is a builtin.
  abbrev fast : Bool
  fast = bypasses g (window_offset g remote pe)

  -- The address is found, and a builtin is asked for an integer type only.
  abbrev pub Servable : Type 0
  Servable =
      IsSymmetric g remote × (bypasses g (window_offset g remote pe) ≡ true → is_integer b ≡ true)

  -- The test that oshmpi_cswap, oshmpi_add and oshmpi_fadd share.
  tested_refusals :
      (builtin call : List Action)
      → ReturnsIff Servable (pos pe) (
          if (window_offset g remote pe).rc == 0
          then if fast
            then if is_integer b then finished builtin else aborted (pos pe) []
            else finished call
          else aborted (pos pe) [])
  tested_refusals builtin call = elim (window_offset-rc g remote pe) [
    | inr (lost, e) ↦ refused-ReturnsIff (λ ok. lost ok.0) (rw e refl)
    | inl (found, e) ↦ elim (Bool-cases fast) [
      | inr slow ↦ returned-ReturnsIff (found, λ quick. absurd (cc)) (simp (e, slow) refl)
      | inl quick ↦ elim (Bool-cases (is_integer b)) [
        | inl integer ↦ returned-ReturnsIff (found, λ _. integer) (simp (e, quick, integer) refl)
        | inr other ↦
            refused-ReturnsIff (λ ok. let integer : is_integer b ≡ true = ok.1 quick in absurd (cc))
              (simp (e, quick, other) refl)
      ]
    ]
  ]

  swap_refusals :
      (output input : ℕ)
      → ReturnsIff (IsSymmetric g remote) (pos pe) (oshmpi_swap g b output remote input pe)
  unfolding oshmpi_swap
  swap_refusals output input = elim (window_offset-rc g remote pe) [
    | inr (lost, e) ↦ refused-ReturnsIff lost (rw e refl)
    | inl (found, e) ↦ elim (Bool-cases (fast && is_integer b)) [
      | inl quick ↦ returned-ReturnsIff found (simp (e, quick) refl)
      | inr slow ↦ returned-ReturnsIff found (simp (e, slow) refl)
    ]
  ]

  -- A put, a get and a swap return if and only if the remote address is found in the heap or in the
  -- static data. A compare-and-swap, an add and a fetch-and-add return if and only if it is found and,
  -- where they bypass MPI, the type is an int, a long or a long long. Otherwise they abort with the
  -- PE's number as the code and have done nothing.
  pub one_sided_refused :
      (mpi : Mpi) (local other compare len : ℕ)
      → ReturnsIff (IsSymmetric g remote) (pos pe) (oshmpi_put mpi g b remote local len pe)
        × ReturnsIff (IsSymmetric g remote) (pos pe) (oshmpi_get mpi g b local remote len pe)
        × ReturnsIff (IsSymmetric g remote) (pos pe) (oshmpi_swap g b local remote other pe)
        × ReturnsIff Servable (pos pe) (oshmpi_cswap g b local remote other compare pe)
        × ReturnsIff Servable (pos pe) (oshmpi_add g b remote other pe)
        × ReturnsIff Servable (pos pe) (oshmpi_fadd g b local remote other pe)
  unfolding oshmpi_cswap oshmpi_add oshmpi_fadd
  one_sided_refused mpi local other compare len = (
    put_refusals mpi g b remote local len pe,
    get_refusals mpi g b local remote len pe,
    swap_refusals local other,
    tested_refusals _ _,
    tested_refusals _ _,
    tested_refusals _ _,
  )
