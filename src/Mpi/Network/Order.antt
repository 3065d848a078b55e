-- ===== src/Mpi/Network/Order.antt =====
-- Runs whose pending writes do not interfere: memory, once all is delivered, does not depend on the
-- order of the deliveries.
use mathlib.Core.Option.{some-injective}
use mathlib.Core.Path.{subst}
use oshmpi.Prelude.{
  ℕ, ◌≡◌, ◌⊎◌, inl, inr, refl, sym, ap, ◌∙◌, true, none, some, List, [], ◌∷◌, ◌++◌, map,
}
use oshmpi.Mpi.{Action}
use oshmpi.Mpi.Memory.{Memory, Misses}
use oshmpi.Mpi.Library.{Mpi, run}
use oshmpi.Mpi.Network.{
  Request, request_of, requests, Write, started, deliver, deliver_all, AreApart, Passes, Net, All,
  starts, acts, delivers, Steps, here, performs, arrives,
}
use oshmpi.Mpi.Network.Runs.{All-right, All-remove, All-map, requests-none, requests-some}
use oshmpi.Mpi.Network.Apart.{deliver_first, source_kept, deliver_all-append}

-- The later `r` does not read what `s` writes, and does not write there unless both are ordered.
abbrev pub Keeps : Request → Request → Type 0
Keeps s r =
    (((s.ordered ≡ true) × (r.ordered ≡ true)) ⊎ AreApart s r)
    × ((b : ℕ) → Misses r.origin b r.places ⊎ Misses s.target b s.there)

abbrev pub AllPairs {ℓ κ} : {A : Type ℓ} → (A → A → Type κ) → List A → Type κ
AllPairs R [] = Unit
AllPairs R (x ∷ xs) = All (R x) xs × AllPairs R xs

-- An action that asks for nothing changes no byte, and one that asks for a write has, when it is
-- completed at once, the effect of its delivery.
abbrev pub IsPlain : Mpi → Action → Type 0
IsPlain mpi a =
    ((request_of mpi a ≡ none) × ((m : Memory) → run mpi (a ∷ []) m ≡ m))
    ⊎ ((r : Request) × (request_of mpi a ≡ some r)
        × ((m : Memory) → run mpi (a ∷ []) m ≡ deliver (started r m) m))

abbrev pub asked : List Write → List Request
asked us = map (λ u. u.request) us

-- What the pairs of a list with one element in it say of it, and of the rest.
module _ (R : Request → Request → Type 0) where
  pairs_before :
      (us : List Write) (r : Request) (l : List Request)
      → AllPairs R (asked us ++ r ∷ l)
      → All (λ s. R s.request r) us
  pairs_before [] r l h = tt
  pairs_before (u ∷ us) r l h =
      ((All-right (R u.request) (asked us) (r ∷ l) h.0).0, pairs_before us r l h.1)

  pairs_remove :
      (us : List Write) (r : Request) (l : List Request)
      → AllPairs R (asked us ++ r ∷ l)
      → AllPairs R (asked us ++ l)
  pairs_remove [] r l h = h.1
  pairs_remove (u ∷ us) r l h =
      (All-remove (R u.request) (asked us) r l h.0, pairs_remove us r l h.1)

asked-insert :
    (us : List Write) (u : Write) (vs : List Write) (l : List Request)
    → asked (us ++ u ∷ vs) ++ l ≡ asked us ++ u.request ∷ (asked vs ++ l)
asked-insert [] u vs l = refl
asked-insert (v ∷ us) u vs l = ap (λ k. v.request ∷ k) (asked-insert us u vs l)

asked-append :
    (us vs : List Write) (l : List Request) → asked (us ++ vs) ++ l ≡ asked us ++ (asked vs ++ l)
asked-append [] vs l = refl
asked-append (v ∷ us) vs l = ap (λ k. v.request ∷ k) (asked-append us vs l)

-- An earlier write that `u` passes is apart from it.
passed_apart :
    (u : Write) (us : List Write)
    → All (λ s. Keeps s.request u.request) us
    → All (λ s. Passes u.request s.request) us
    → All (λ s. AreApart s.request u.request) us
passed_apart u [] h k = tt
passed_apart u (s ∷ us) h k = (
  elim h.0.0 [
    | inl (first, second) ↦ elim k.0 as (λ _. AreApart s.request u.request) [
      | inl free ↦ absurd (cc)
      | inr (inl free) ↦ absurd (cc)
      | inr (inr apart) ↦ apart
    ]
    | inr apart ↦ apart
  ],
  passed_apart u us h.1 k.1,
)

module _ (mpi : Mpi) where
  run-first :
      (a : Action) (rest : List Action) (m : Memory)
      → run mpi (a ∷ rest) m ≡ run mpi rest (run mpi (a ∷ []) m)
  unfolding run
  run-first a rest m = refl

  -- A step changes nothing of what memory is when all that is pending is delivered and the rest is
  -- completed at once.
  pub Steps-run :
      {q p : List Action} {n n' : Net}
      → Steps mpi q n p n'
      → All (IsPlain mpi) q
      → AllPairs Keeps (asked n.pending ++ requests mpi q)
      → run mpi q (deliver_all n.pending n.memory) ≡ run mpi p (deliver_all n'.pending n'.memory)
  Steps-run here plain pairs = refl
  Steps-run (performs {a} {rest} {p} {n} (starts {r} e) more) plain pairs =
      let now : AllPairs Keeps (asked n.pending ++ r ∷ requests mpi rest) =
        subst (λ l. AllPairs Keeps (asked n.pending ++ l)) (requests-some mpi a rest r e) pairs in
      let u = started r n.memory in
      let same : started r (deliver_all n.pending n.memory) ≡ u =
        ap (λ bytes. record { request = r; bytes = bytes })
          (source_kept n.pending r n.memory (
            All-map (λ s k. k.1) n.pending
              (pairs_before Keeps n.pending r (requests mpi rest) now))) in
      let effect : run mpi (a ∷ []) (deliver_all n.pending n.memory)
          ≡ deliver_all (n.pending ++ u ∷ []) n.memory =
        elim plain.0 [
          | inl (other, keeps) ↦ absurd (cc)
          | inr (r', e', does) ↦
              let one : r' ≡ r = some-injective _ _ (sym e' ∙ e) in
              does (deliver_all n.pending n.memory)
              ∙ rw (one, same) (sym (deliver_all-append n.pending (u ∷ []) n.memory))
        ] in
      run-first a rest (deliver_all n.pending n.memory)
      ∙ ap (run mpi rest) effect
      ∙ Steps-run more plain.1
          (subst (AllPairs Keeps) (sym (asked-append n.pending (u ∷ []) (requests mpi rest))) now)
  Steps-run (performs {a} {rest} {p} {n} (acts e done) more) plain pairs =
      let now : AllPairs Keeps (asked n.pending ++ requests mpi rest) =
        subst (λ l. AllPairs Keeps (asked n.pending ++ l)) (requests-none mpi a rest e) pairs in
      elim plain.0 [
        | inr (r', e', does) ↦ absurd (cc)
        | inl (other, keeps) ↦
            run-first a rest (deliver_all n.pending n.memory)
            ∙ ap (run mpi rest) (keeps (deliver_all n.pending n.memory))
            ∙ ap (λ m. run mpi rest (deliver_all n.pending m)) (sym (keeps n.memory))
            ∙ Steps-run more plain.1 now
      ]
  Steps-run (arrives {q} {p} {n} (delivers earlier u later is passes) more) plain pairs =
      let now : AllPairs Keeps (asked earlier ++ u.request ∷ (asked later ++ requests mpi q)) =
        subst (AllPairs Keeps)
          (ap (λ l. asked l ++ requests mpi q) is ∙ asked-insert earlier u later (requests mpi q))
          pairs in
      let apart =
        passed_apart u earlier
          (pairs_before Keeps earlier u.request (asked later ++ requests mpi q) now) passes in
      let moved : deliver_all n.pending n.memory
          ≡ deliver_all (earlier ++ later) (deliver u n.memory) =
        ap (λ l. deliver_all l n.memory) is
        ∙ deliver_all-append earlier (u ∷ later) n.memory
        ∙ ap (deliver_all later) (deliver_first earlier u n.memory apart)
        ∙ sym (deliver_all-append earlier later (deliver u n.memory)) in
      ap (run mpi q) moved
      ∙ Steps-run more plain (
          subst (AllPairs Keeps) (sym (asked-append earlier later (requests mpi q)))
            (pairs_remove Keeps earlier u.request (asked later ++ requests mpi q) now))
