-- ===== src/Mpi/Network/Frame.antt =====
-- Runs of a process and its network: the bytes that they leave alone, and what a flush waits for.
use mathlib.Core.Path.{subst}
use oshmpi.Prelude.{ℕ, ◌≡◌, inl, inr, refl, sym, ap, ◌∙◌, none, List, [], ◌∷◌, ◌++◌}
use oshmpi.Mpi.{Action}
use oshmpi.Mpi.Memory.{Misses}
use oshmpi.Mpi.Library.{Mpi}
use oshmpi.Mpi.Network.{
  Request, request_of, requests, Write, Net, All, Completed, starts, acts, delivers, Steps, here,
  performs, arrives,
}
use oshmpi.Mpi.Network.Runs.{
  All-append, All-remove, All-right, requests-none, requests-some, Steps-All,
}
use oshmpi.Mpi.Network.Apart.{deliver_outside}
use oshmpi.Mpi.Network.Order.{IsPlain}

module _ (mpi : Mpi) (b : ℕ) where
  abbrev pub IsMissed : Request → Type 0
  IsMissed r = Misses r.target b r.there

  -- No state of a run has another byte where nothing is written.
  pub Steps-outside :
      {q p : List Action} {n n' : Net}
      → Steps mpi q n p n'
      → All (IsPlain mpi) q
      → All IsMissed (requests mpi q)
      → All (λ u. IsMissed u.request) n.pending
      → n'.memory b ≡ n.memory b
  Steps-outside here plain asks waits = refl
  Steps-outside (performs {a} {rest} {p} {n} (starts {r} e) more) plain asks waits =
      let now : All IsMissed (r ∷ requests mpi rest) =
        subst (All IsMissed) (requests-some mpi a rest r e) asks in
      Steps-outside more plain.1 now.1
        (All-append (λ u. IsMissed u.request) n.pending _ waits (now.0, tt))
  Steps-outside (performs {a} {rest} {p} {n} (acts e done) more) plain asks waits = elim plain.0 [
    | inr (r', e', does) ↦ absurd (cc)
    | inl (other, keeps) ↦
        Steps-outside more plain.1 (subst (All IsMissed) (requests-none mpi a rest e) asks) waits
        ∙ ap (λ m. m b) (keeps n.memory)
  ]
  Steps-outside (arrives {q} {p} {n} (delivers earlier u later is passes) more) plain asks waits =
      let all : All (λ u. IsMissed u.request) (earlier ++ u ∷ later) =
        subst (All (λ u. IsMissed u.request)) is waits in
      Steps-outside more plain asks (All-remove (λ u. IsMissed u.request) earlier u later all)
      ∙ deliver_outside u n.memory b (All-right (λ u. IsMissed u.request) earlier (u ∷ later) all).0

module _ (mpi : Mpi) (Q : Request → Type 0) where
  -- Behind an action that waits until all pending writes are as `Q` says, they are.
  pub waits_for :
      (a : Action) (rest : List Action) {q p : List Action} {n n' : Net}
      → Steps mpi q n p n'
      → q ≡ a ∷ rest
      → p ≡ []
      → request_of mpi a ≡ none
      → ((us : List Write) → Completed a us → All (λ u. Q u.request) us)
      → All Q (requests mpi rest)
      → All (λ u. Q u.request) n'.pending
  waits_for a rest here same none_left asks_none completed asks = absurd (cc)
  waits_for a rest (performs {a = c} {rest = l} {n = n} (starts {r} e) more) same none_left
        asks_none completed asks =
      let is : c ≡ a = cc in
      let asks_none' : request_of mpi c ≡ none = rw is asks_none in absurd (cc)
  waits_for a rest (performs {a = c} {rest = l} {n = n} (acts e done) more) same none_left asks_none
        completed asks =
      let is : c ≡ a = cc in
      let then_on : l ≡ rest = cc in
      (Steps-All mpi Q more (subst (λ k. All Q (requests mpi k)) (sym then_on) asks)
        (completed n.pending (subst (λ k. Completed k n.pending) is done))).1
  waits_for a rest (arrives one more) same none_left asks_none completed asks =
      waits_for a rest more same none_left asks_none completed asks
