-- ===== src/Sync/Puts.antt =====
-- Puts of src/shmem.c one behind the other: what they ask of the network.
use oshmpi.Prelude.{
  ℕ, ◌*◌, ◌≡◌, ◌⊎◌, inl, inr, refl, sym, ap, ◌∙◌, true, false, List, [], ◌∷◌, ◌++◌, ◌&&◌,
  append_assoc,
}
use mathlib.Core.Path.{subst}
use oshmpi.Mpi.{Basic, Win, sheap_win, etext_win, Action}
use oshmpi.Mpi.Memory.{Apart, Apart-Misses}
use oshmpi.Mpi.Library.{Mpi}
use oshmpi.Mpi.Network.{Request, requests, All}
use oshmpi.Mpi.Network.Runs.{All-append, requests-append}
use oshmpi.Mpi.Network.Order.{IsPlain, Keeps, AllPairs}
use oshmpi.Globals.{Globals}
use oshmpi.Window.{WindowId, sheap_window, etext_window, window_of}
use oshmpi.Window.Lookup.{InSheap, InEtext}
use oshmpi.Rma.{oshmpi_put}
use oshmpi.Rma.Places.{Fits, remote_address}
use oshmpi.Rma.Pending.{performed, put_request, put_asks, AsksFor}

-- A write to the heap or to the static data.
abbrev pub IsKnown : Request → Type 0
IsKnown r = (r.win ≡ sheap_win) ⊎ (r.win ≡ etext_win)

-- The arguments of a put.
pub record PutCall : Type 0 where
  pub type : Basic
  pub target : ℕ
  pub source : ℕ
  pub len : ℕ
  pub pe : ℕ

module _ (mpi : Mpi) (g : Globals) where
  abbrev pub size_of : PutCall → ℕ
  size_of c = c.len * mpi.type_size c.type

  abbrev pub place_of : PutCall → ℕ
  place_of c = remote_address mpi g c.target c.pe

  -- The actions of puts that are made one behind the other.
  unfoldable pub put_all : List PutCall → List Action
  put_all [] = []
  put_all (c ∷ cs) = performed (oshmpi_put mpi g c.type c.target c.source c.len c.pe) ++ put_all cs

  pub put_all-append : (cs ds : List PutCall) → put_all (cs ++ ds) ≡ put_all cs ++ put_all ds
  unfolding put_all
  put_all-append [] ds = refl
  put_all-append (c ∷ cs) ds =
      let own = performed (oshmpi_put mpi g c.type c.target c.source c.len c.pe) in
      ap (λ l. own ++ l) (put_all-append cs ds) ∙ sym (append_assoc own (put_all cs) (put_all ds))

  abbrev pub IsReady : PutCall → Type 0
  IsReady c = Fits mpi g c.pe c.type c.len × (InSheap g c.target ⊎ InEtext g c.target)

  -- The later put `d` does not read what `c` writes, and unless transfers are ordered does not write
  -- there.
  abbrev pub DoNotMeet : PutCall → PutCall → Type 0
  DoNotMeet c d =
      ((g.rma_ordering ≡ true) ⊎ Apart (place_of c) (size_of c) (place_of d) (size_of d))
      × Apart d.source (size_of d) (place_of c) (size_of c)

  abbrev asked_by : PutCall → Win → Request
  asked_by c w = put_request mpi g c.type c.target c.source c.len c.pe w

  apart_asks : (c d : PutCall) (v w : Win) → DoNotMeet c d → Keeps (asked_by c v) (asked_by d w)
  apart_asks c d v w (where_to, from) = (
    elim where_to [
      | inl ordered ↦ inl (ordered, ordered)
      | inr apart ↦
          inr (λ b. Apart-Misses (place_of c) (size_of c) (place_of d) (size_of d) b apart)
    ],
    λ b. Apart-Misses d.source (size_of d) (place_of c) (size_of c) b from,
  )

module _ (mpi : Mpi) (g : Globals)
    (across : (g.smp_optimizations && g.shmem_world_is_smp) ≡ false) where
  pub asks_of :
      (c : PutCall)
      → IsReady mpi g c
      → AsksFor mpi g c.type c.target c.source c.len c.pe
          (performed (oshmpi_put mpi g c.type c.target c.source c.len c.pe))
  asks_of c ready = put_asks ready.0 across c.target c.source ready.1

  -- What holds of the request of each put, whatever its window, holds of what all ask for.
  pub asks-All :
      (Q : PutCall → Type 0) (P : Request → Type 0)
      → ((d : PutCall) (w : WindowId)
          → (w ≡ sheap_window) ⊎ (w ≡ etext_window)
          → Q d
          → P (asked_by mpi g d (window_of w)))
      → (cs : List PutCall) → All (IsReady mpi g) cs
      → All Q cs
      → All P (requests mpi (put_all mpi g cs))
  unfolding put_all requests
  asks-All Q P f [] ready h = tt
  asks-All Q P f (c ∷ cs) ready h =
      let a = asks_of c ready.0 in
      subst (All P)
        (sym (
          requests-append mpi _ (put_all mpi g cs)
          ∙ ap (λ l. l ++ requests mpi (put_all mpi g cs)) a.single.asks))
        (f c a.win a.known h.0, asks-All Q P f cs ready.1 h.1)

  pub asks-AllPairs :
      (cs : List PutCall)
      → All (IsReady mpi g) cs
      → AllPairs (DoNotMeet mpi g) cs
      → AllPairs Keeps (requests mpi (put_all mpi g cs))
  unfolding put_all requests
  asks-AllPairs [] ready pairs = tt
  asks-AllPairs (c ∷ cs) ready pairs =
      let a = asks_of c ready.0 in
      subst (AllPairs Keeps)
        (sym (
          requests-append mpi _ (put_all mpi g cs)
          ∙ ap (λ l. l ++ requests mpi (put_all mpi g cs)) a.single.asks))
        (
          asks-All (DoNotMeet mpi g c) (Keeps (asked_by mpi g c (window_of a.win)))
              (λ d w known. apart_asks mpi g c d (window_of a.win) (window_of w)) cs ready.1
              pairs.0,
          asks-AllPairs cs ready.1 pairs.1,
        )

  pub put_all-IsPlain :
      (cs : List PutCall) → All (IsReady mpi g) cs → All (IsPlain mpi) (put_all mpi g cs)
  unfolding put_all
  put_all-IsPlain [] ready = tt
  put_all-IsPlain (c ∷ cs) ready =
      All-append (IsPlain mpi) _ _ (asks_of c ready.0).single.plain (put_all-IsPlain cs ready.1)

  pub asks-IsKnown :
      (cs : List PutCall) → All (IsReady mpi g) cs → All IsKnown (requests mpi (put_all mpi g cs))
  asks-IsKnown cs ready =
      asks-All (IsReady mpi g) IsKnown
        (λ d w known is_ready. elim known [
          | inl e ↦ inl (ap window_of e)
          | inr e ↦ inr (ap window_of e)
        ])
        cs ready ready
