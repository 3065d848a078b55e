-- ===== src/Mpi/Network/Runs.antt =====
-- Runs of a process and its network: their parts, what holds of all pending writes, and that a run can
-- always be completed.
use mathlib.Core.Path.{subst}
use oshmpi.Prelude.{
  ◌≡◌, ◌⊎◌, inl, inr, refl, sym, ap, ◌∙◌, none, some, List, [], ◌∷◌, ◌++◌, append-nil, Option-cases,
}
use oshmpi.Mpi.{Action, win_flush, win_flush_all}
use oshmpi.Mpi.Memory.{Memory}
use oshmpi.Mpi.Library.{Mpi}
use oshmpi.Mpi.Network.{
  Request, request_of, requests, Write, deliver, deliver_all, Net, All, Completed, Perform, starts,
  acts, Deliver, delivers, Steps, here, performs, arrives,
}

module _ {ℓ κ} {A : Type ℓ} (P : A → Type κ) where
  pub All-append : (xs ys : List A) → All P xs → All P ys → All P (xs ++ ys)
  All-append [] ys h k = k
  All-append (x ∷ xs) ys h k = (h.0, All-append xs ys h.1 k)

  pub All-remove : (xs : List A) (u : A) (ys : List A) → All P (xs ++ u ∷ ys) → All P (xs ++ ys)
  All-remove [] u ys h = h.1
  All-remove (x ∷ xs) u ys h = (h.0, All-remove xs u ys h.1)

  pub All-left : (xs ys : List A) → All P (xs ++ ys) → All P xs
  All-left [] ys h = tt
  All-left (x ∷ xs) ys h = (h.0, All-left xs ys h.1)

  pub All-right : (xs ys : List A) → All P (xs ++ ys) → All P ys
  All-right [] ys h = h
  All-right (x ∷ xs) ys h = All-right xs ys h.1

pub All-map {ℓ κ μ} :
    {A : Type ℓ} {P : A → Type κ} {Q : A → Type μ}
    → ((a : A) → P a → Q a)
    → (xs : List A) → All P xs
    → All Q xs
All-map f [] h = tt
All-map f (x ∷ xs) h = (f x h.0, All-map f xs h.1)

module _ (mpi : Mpi) where
  pub requests-none :
      (a : Action) (rest : List Action)
      → request_of mpi a ≡ none
      → requests mpi (a ∷ rest) ≡ requests mpi rest
  unfolding requests
  requests-none a rest e = rw (requests, e) refl

  pub requests-some :
      (a : Action) (rest : List Action) (r : Request)
      → request_of mpi a ≡ some r
      → requests mpi (a ∷ rest) ≡ r ∷ requests mpi rest
  unfolding requests
  requests-some a rest r e = rw (requests, e) refl

  pub requests-append :
      (xs ys : List Action) → requests mpi (xs ++ ys) ≡ requests mpi xs ++ requests mpi ys
  unfolding requests
  requests-append [] ys = refl
  requests-append (a ∷ xs) ys = elim (Option-cases (request_of mpi a)) [
    | inl e ↦ rw (requests, e) (requests-append xs ys)
    | inr (r, e) ↦ rw (requests, e) (ap (λ l. r ∷ l) (requests-append xs ys))
  ]

  -- A run of two lists of actions is in the first, or has done the first and is in the second.
  pub Steps-split :
      (xs ys : List Action) {q p : List Action} {n n' : Net}
      → Steps mpi q n p n'
      → q ≡ xs ++ ys
      → ((xs' : List Action) × (p ≡ xs' ++ ys) × Steps mpi xs n xs' n')
        ⊎ ((mid : Net) × Steps mpi xs n [] mid × Steps mpi ys mid p n')
  Steps-split xs ys here e = inl (xs, e, here)
  Steps-split [] ys {p = p} {n = n} {n' = n'} (performs does more) e =
      inr (n, here, subst (λ l. Steps mpi l n p n') e (performs does more))
  Steps-split (x ∷ xs) ys (performs {a} {rest} {p} {n} {n'} does more) e =
      let same : a ≡ x = cc in
      let then_on : rest ≡ xs ++ ys = cc in
      let does' : Perform mpi x n n' = subst (λ b. Perform mpi b n n') same does in
      elim (Steps-split xs ys more then_on) [
        | inl (xs', left, ran) ↦ inl (xs', left, performs does' ran)
        | inr (mid, first, second) ↦ inr (mid, performs does' first, second)
      ]
  Steps-split xs ys (arrives one more) e = elim (Steps-split xs ys more e) [
    | inl (xs', left, ran) ↦ inl (xs', left, arrives one ran)
    | inr (mid, first, second) ↦ inr (mid, arrives one first, second)
  ]

  -- A run, and then another from where it ends.
  pub Steps-then :
      {xs q ys p : List Action} {n mid n' : Net}
      → Steps mpi xs n q mid
      → q ≡ []
      → Steps mpi ys mid p n'
      → Steps mpi (xs ++ ys) n p n'
  Steps-then {ys = ys} {p = p} {n' = n'} (here {n = n}) done more =
      subst (λ l. Steps mpi (l ++ ys) n p n') (sym done) more
  Steps-then (performs does rest) done more = performs does (Steps-then rest done more)
  Steps-then (arrives one rest) done more = arrives one (Steps-then rest done more)

  -- A run, and then a delivery.
  pub Steps-last :
      {q p : List Action} {n mid n' : Net}
      → Steps mpi q n p mid
      → Deliver mid n'
      → Steps mpi q n p n'
  Steps-last here one = arrives one here
  Steps-last (performs does rest) one = performs does (Steps-last rest one)
  Steps-last (arrives first rest) one = arrives first (Steps-last rest one)

  nothing_left : (xs ys : List Action) → ◌≡◌ {A = List Action} [] (xs ++ ys) → ys ≡ []
  nothing_left [] ys e = sym e
  nothing_left (x ∷ xs) ys e = absurd (cc)

  -- A run that does two lists of actions does the first and then the second.
  pub Steps-parts :
      (xs ys : List Action) {n n' : Net}
      → Steps mpi (xs ++ ys) n [] n'
      → (mid : Net) × Steps mpi xs n [] mid × Steps mpi ys mid [] n'
  Steps-parts xs ys {n} {n'} ran = elim (Steps-split xs ys ran refl) [
    | inl (xs', left, first) ↦
        let none_of_ys : ys ≡ [] = nothing_left xs' ys left in
        let none_of_xs : xs' ≡ [] =
          sym (append-nil xs') ∙ ap (λ l. xs' ++ l) (sym none_of_ys) ∙ sym left in
        (
          n',
          subst (λ l. Steps mpi xs n l n') none_of_xs first,
          subst (λ l. Steps mpi l n' [] n') (sym none_of_ys) here,
        )
    | inr both ↦ both
  ]

  -- What holds of every request of a list and of every pending write holds on.
  module _ {κ} (P : Request → Type κ) where
    pub Steps-All :
        {q p : List Action} {n n' : Net}
        → Steps mpi q n p n'
        → All P (requests mpi q)
        → All (λ u. P u.request) n.pending
        → All P (requests mpi p) × All (λ u. P u.request) n'.pending
    Steps-All here asks waits = (asks, waits)
    Steps-All (performs {a} {rest} {p} {n} (starts {r} e) more) asks waits =
        let now : All P (r ∷ requests mpi rest) = subst (All P) (requests-some a rest r e) asks in
        Steps-All more now.1 (All-append (λ u. P u.request) n.pending _ waits (now.0, tt))
    Steps-All (performs {a} {rest} (acts e done) more) asks waits =
        Steps-All more (subst (All P) (requests-none a rest e) asks) waits
    Steps-All (arrives (delivers earlier u later is passes) more) asks waits =
        Steps-All more asks
          (All-remove (λ u. P u.request) earlier u later (subst (All (λ u. P u.request)) is waits))

  pub drains :
      (us : List Write) (m : Memory) {q p : List Action} {n' : Net}
      → Steps mpi q (record { memory = deliver_all us m; pending = [] }) p n'
      → Steps mpi q (record { memory = m; pending = us }) p n'
  drains [] m run = run
  drains (u ∷ us) m run = arrives (delivers [] u us refl tt) (drains us (deliver u m) run)

  Completed-nil : (a : Action) → Completed a []
  Completed-nil (win_flush pe w) = tt
  Completed-nil (win_flush_all w) = tt
  Completed-nil _ = tt

  -- From every state a run can be completed, with every write delivered.
  pub completes : (q : List Action) (n : Net) → (n' : Net) × Steps mpi q n [] n' × (n'.pending ≡ [])
  completes [] n = (_, drains n.pending n.memory here, refl)
  completes (a ∷ rest) n = elim (Option-cases (request_of mpi a)) [
    | inr (r, e) ↦
        let (n', ran, none_left) = completes rest _ in (n', performs (starts e) ran, none_left)
    | inl e ↦
        let (n', ran, none_left) = completes rest _ in
        (n', drains n.pending n.memory (performs (acts e (Completed-nil a)) ran), none_left)
  ]
