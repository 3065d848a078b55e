-- ===== src/Rma/Pending.antt =====
-- oshmpi_put of src/shmem-internals.c on its way: what it asks of the network when it does not bypass
-- MPI.
use mathlib.Core.Option.{some-injective}
use oshmpi.Prelude.{
  ℕ, ◌+◌, ◌-◌, ◌*◌, ◌≡◌, ◌⊎◌, inl, inr, refl, sym, ap, ◌∙◌, true, false, some, List, [], ◌∷◌, ◌++◌,
  arith, Bool-cases, ltb, ◌&&◌, if◌then◌else◌,
}
use oshmpi.Prelude.Int.{pos}
use oshmpi.Mpi.{
  Basic, Datatype, basic, Win, Action, win_flush_local, Outcome, finished, aborted, assert_failed,
}
use oshmpi.Mpi.Memory.{Memory, span}
use oshmpi.Mpi.Library.{Mpi, run}
use oshmpi.Mpi.Network.{Request, request_of, requests, deliver, All}
use oshmpi.Mpi.Network.Runs.{All-append}
use oshmpi.Mpi.Network.Local.{IsQuick}
use oshmpi.Mpi.Network.Single.{IsSingle, call-IsSingle}
use oshmpi.Contiguous.{int_max, type_contiguous_x}
use oshmpi.Globals.{Globals}
use oshmpi.Window.{sheap_window, etext_window, WindowId, Located, window_of}
use oshmpi.Window.Lookup.{InSheap, InEtext, Sheap-cases, window_offset-sheap, window_offset-etext}
use oshmpi.Rma.{counted, release_type, bypasses, through_mpi, put_call, oshmpi_put}
use oshmpi.Rma.Places.{
  Fits, memory_after, located, remote_address, remote_address-sheap, remote_address-etext,
}
use oshmpi.Rma.Transfer.{counted_bytes, put_call-run}

-- The actions of a run.
abbrev pub performed : Outcome → List Action
performed (finished actions) = actions
performed (aborted code actions) = actions
performed (assert_failed actions) = actions

pub run-performed :
    (mpi : Mpi) (o : Outcome) (m m' : Memory)
    → memory_after mpi o m ≡ some m'
    → run mpi (performed o) m ≡ m'
run-performed mpi (finished s) m m' returns = some-injective _ _ returns
run-performed mpi (aborted c s) m m' returns = absurd (cc)
run-performed mpi (assert_failed s) m m' returns = absurd (cc)

module _ (mpi : Mpi) where
  pub flush_local-IsQuick : (pe : ℕ) (w : Win) → IsQuick mpi (win_flush_local pe w)
  unfolding request_of run
  flush_local-IsQuick pe w = ((refl, λ m. mpi.effect-flush_local pe w m), λ us. tt)

  made-IsQuick : (len : ℕ) (t : Datatype) → All (IsQuick mpi) (counted mpi.extent len t).made
  unfolding request_of run counted type_contiguous_x
  made-IsQuick len t = elim (Bool-cases (ltb len int_max)) [
    | inl few ↦ rw few tt
    | inr many ↦
        rw (many, if◌then◌else◌)
          (
            ((refl, λ m. mpi.effect-create _ m), λ us. tt),
            (
              ((refl, λ m. mpi.effect-create _ m), λ us. tt),
              (
                ((refl, λ m. mpi.effect-create _ m), λ us. tt),
                (
                  ((refl, λ m. mpi.effect-free _ m), λ us. tt),
                  (
                    ((refl, λ m. mpi.effect-free _ m), λ us. tt),
                    (((refl, λ m. mpi.effect-commit _ m), λ us. tt), tt),
                  ),
                ),
              ),
            ),
          )
  ]

  release-IsQuick : (len : ℕ) (t : Datatype) → All (IsQuick mpi) (release_type len t)
  unfolding request_of run release_type
  release-IsQuick len t = elim (Bool-cases (ltb int_max len)) [
    | inl many ↦ rw many (((refl, λ m. mpi.effect-free t m), λ us. tt), tt)
    | inr few ↦ rw few tt
  ]

module _ (mpi : Mpi) (g : Globals) (b : Basic) (target source len pe : ℕ) where
  abbrev request_to : Win → ℕ → Request
  request_to w place = record {
    pe = pe;
    win = w;
    ordered = g.rma_ordering;
    adds = false;
    origin = source;
    places = span 0 (len * mpi.type_size b);
    target = place;
    there = span 0 (len * mpi.type_size b);
  }

  -- What a put asks for: its bytes at the target's place at the PE.
  abbrev pub put_request : Win → Request
  put_request w = request_to w (remote_address mpi g target pe)

  -- A list of actions that starts that write, on one of the two windows.
  pub record AsksFor (l : List Action) : Type 0 where
    pub win : WindowId
    pub known : (win ≡ sheap_window) ⊎ (win ≡ etext_window)
    pub single : IsSingle mpi (put_request (window_of win)) l

module _ {mpi : Mpi} {g : Globals} {b : Basic} {len pe : ℕ} (fits : Fits mpi g pe b len)
    (target source : ℕ) where
  call_asks :
      (l : Located) (d : ℕ)
      → l.win_offset ≡ pos d
      → request_of mpi (put_call mpi g (counted mpi.extent len (basic b)) source pe l)
        ≡ some (
            request_to mpi g b target source len pe
              (window_of l.win_id)
              (mpi.base (window_of l.win_id) pe + d))
  unfolding request_of put_call
  call_asks l d e = elim (Bool-cases g.rma_ordering) [
    | inl ordered ↦ rw (ordered, e, counted_bytes fits) refl
    | inr free ↦ rw (free, e, counted_bytes fits) refl
  ]

  module _ (l : Located) (d : ℕ) (e : l.win_offset ≡ pos d)
      (place : mpi.base (window_of l.win_id) pe + d ≡ remote_address mpi g target pe) where
    asks_there :
        request_of mpi (put_call mpi g (counted mpi.extent len (basic b)) source pe l)
        ≡ some (put_request mpi g b target source len pe (window_of l.win_id))
    asks_there =
        call_asks l d e
        ∙ ap (λ t. some (request_to mpi g b target source len pe (window_of l.win_id) t)) place

    through_mpi-IsSingle :
        IsSingle mpi
          (put_request mpi g b target source len pe (window_of l.win_id))
          (through_mpi mpi g b len pe l (λ c. put_call mpi g c source pe l))
    unfolding through_mpi deliver
    through_mpi-IsSingle =
        let c = counted mpi.extent len (basic b) in
        call-IsSingle mpi c.made (put_call mpi g c source pe l)
          (release_type len c.tmp_type ++ win_flush_local pe (window_of l.win_id) ∷ [])
          (put_request mpi g b target source len pe (window_of l.win_id))
          (made-IsQuick mpi len (basic b))
          (All-append (IsQuick mpi) (release_type len c.tmp_type) _
            (release-IsQuick mpi len c.tmp_type)
            (flush_local-IsQuick mpi pe (window_of l.win_id), tt))
          asks_there (λ m. put_call-run fits source d l m e ∙ rw place refl)

  -- A put to static data asks for one write.
  static_asks :
      (¬ InSheap g target)
      → InSheap g target ⊎ InEtext g target
      → AsksFor mpi g b target source len pe (performed (oshmpi_put mpi g b target source len pe))
  unfolding oshmpi_put
  static_asks outside found =
      let l = window_offset-etext g target pe outside (ground arith) in
      let through : bypasses g (located etext_window (target - g.shmem_etext_base_ptr)) ≡ false =
        ground arith in
      let single =
        through_mpi-IsSingle (located etext_window (target - g.shmem_etext_base_ptr)) _ refl
          (sym (remote_address-etext mpi g target pe outside)) in
      record { win = etext_window; known = inr refl; single = rw (l, through) single }

  -- And so does a put to the heap that does not bypass MPI.
  heap_asks :
      (g.smp_optimizations && g.shmem_world_is_smp) ≡ false
      → InSheap g target
      → AsksFor mpi g b target source len pe (performed (oshmpi_put mpi g b target source len pe))
  unfolding oshmpi_put
  heap_asks across heap =
      let l = window_offset-sheap g target pe heap in
      let through : bypasses g (located sheap_window (target - g.shmem_sheap_base_ptr)) ≡ false =
        ground arith in
      let single =
        through_mpi-IsSingle (located sheap_window (target - g.shmem_sheap_base_ptr)) _ refl
          (sym (remote_address-sheap mpi g target pe heap)) in
      record { win = sheap_window; known = inl refl; single = rw (l, through) single }

  -- A put that bypasses MPI asks for nothing.
  bypass_asks :
      (g.smp_optimizations && g.shmem_world_is_smp) ≡ true
      → InSheap g target
      → requests mpi (performed (oshmpi_put mpi g b target source len pe)) ≡ []
  unfolding oshmpi_put requests request_of
  bypass_asks near heap =
      let l = window_offset-sheap g target pe heap in
      let past : bypasses g (located sheap_window (target - g.shmem_sheap_base_ptr)) ≡ true =
        ground arith in
      rw (l, past) refl

  pub put_cases :
      InSheap g target ⊎ InEtext g target
      → AsksFor mpi g b target source len pe (performed (oshmpi_put mpi g b target source len pe))
        ⊎ (requests mpi (performed (oshmpi_put mpi g b target source len pe)) ≡ [])
  put_cases found = elim (Sheap-cases g target) [
    | inr outside ↦ inl (static_asks outside found)
    | inl heap ↦ elim (Bool-cases (g.smp_optimizations && g.shmem_world_is_smp)) [
      | inl near ↦ inr (bypass_asks near heap)
      | inr across ↦ inl (heap_asks across heap)
    ]
  ]

module _ {mpi : Mpi} {g : Globals} {b : Basic} {len pe : ℕ} (fits : Fits mpi g pe b len)
    (across : (g.smp_optimizations && g.shmem_world_is_smp) ≡ false) (target source : ℕ) where
  -- A put across nodes that is found asks for one write.
  pub put_asks :
      InSheap g target ⊎ InEtext g target
      → AsksFor mpi g b target source len pe (performed (oshmpi_put mpi g b target source len pe))
  put_asks found = elim (Sheap-cases g target) [
    | inl heap ↦ heap_asks fits target source across heap
    | inr outside ↦ static_asks fits target source outside found
  ]
