-- ===== src/Mpi/Network/Local.antt =====
-- Actions that neither start a write nor change a byte, and runs that end with nothing pending.
use mathlib.Core.Path.{subst}
use oshmpi.Prelude.{◌≡◌, inl, refl, sym, ap, ◌∙◌, none, List, [], ◌∷◌, ◌++◌, append-nil}
use oshmpi.Mpi.{Action}
use oshmpi.Mpi.Memory.{Memory}
use oshmpi.Mpi.Library.{Mpi, run}
use oshmpi.Mpi.Network.{
  request_of, requests, Write, deliver_all, Net, All, Completed, starts, acts, delivers, Steps,
  here, performs, arrives,
}
use oshmpi.Mpi.Network.Runs.{All-append, requests-append, requests-none, requests-some}
use oshmpi.Mpi.Network.Order.{IsPlain, Keeps, AllPairs, Steps-run}

pub run-append :
    (mpi : Mpi) (xs ys : List Action) (m : Memory)
    → run mpi (xs ++ ys) m ≡ run mpi ys (run mpi xs m)
unfolding run
run-append mpi [] ys m = refl
run-append mpi (x ∷ xs) ys m = run-append mpi xs ys (run mpi (x ∷ []) m)

module _ (mpi : Mpi) where
  -- Actions that ask for no write and change no byte.
  abbrev pub IsLocal : Action → Type 0
  IsLocal a = (request_of mpi a ≡ none) × ((m : Memory) → run mpi (a ∷ []) m ≡ m)

  pub locals-IsPlain : (l : List Action) → All IsLocal l → All (IsPlain mpi) l
  locals-IsPlain [] h = tt
  locals-IsPlain (a ∷ l) h = (inl h.0, locals-IsPlain l h.1)

  pub requests-locals : (l : List Action) → All IsLocal l → requests mpi l ≡ []
  unfolding requests
  requests-locals [] h = refl
  requests-locals (a ∷ l) h = rw (requests, h.0.0) (requests-locals l h.1)

  -- A local action that waits for nothing.
  abbrev pub IsQuick : Action → Type 0
  IsQuick a = IsLocal a × ((us : List Write) → Completed a us)

  pub quick_steps : (l : List Action) (n : Net) → All IsQuick l → Steps mpi l n [] n
  quick_steps [] n h = here
  quick_steps (a ∷ l) n h =
      let same : record n { memory = run mpi (a ∷ []) n.memory } ≡ n =
        ap (λ m. record n { memory = m }) (h.0.0.1 n.memory) in
      subst (λ k. Steps mpi (a ∷ l) n [] k) same
        (performs (acts h.0.0.0 (h.0.1 n.pending)) (quick_steps l _ h.1))

  pub run-locals : (l : List Action) → All IsLocal l → (m : Memory) → run mpi l m ≡ m
  unfolding run
  run-locals [] h m = refl
  run-locals (a ∷ l) h m = ap (run mpi l) (h.0.1 m) ∙ run-locals l h.1 m

  -- A run of plain actions whose writes do not interfere, with nothing pending at its end: memory
  -- is as if each write had been delivered when it was started.
  pub completed :
      {q : List Action} {m : Memory} {n : Net}
      → Steps mpi q (record { memory = m; pending = [] }) [] n
      → All (IsPlain mpi) q
      → AllPairs Keeps (requests mpi q)
      → n.pending ≡ []
      → n.memory ≡ run mpi q m
  unfolding run
  completed {n = n} ran plain pairs empty =
      ap (λ l. deliver_all l n.memory) (sym empty) ∙ sym (Steps-run mpi ran plain pairs)

  -- The same where local actions follow.
  pub delivered :
      (xs ys : List Action)
      → All (IsPlain mpi) xs
      → All IsLocal ys
      → AllPairs Keeps (requests mpi xs)
      → (m : Memory) (n : Net) → Steps mpi (xs ++ ys) (record { memory = m; pending = [] }) [] n
      → n.pending ≡ []
      → n.memory ≡ run mpi xs m
  delivered xs ys plain locals pairs m n ran empty =
      let same : requests mpi (xs ++ ys) ≡ requests mpi xs =
        requests-append mpi xs ys
        ∙ ap (λ l. requests mpi xs ++ l) (requests-locals ys locals)
        ∙ append-nil (requests mpi xs) in
      completed ran (All-append (IsPlain mpi) xs ys plain (locals-IsPlain ys locals))
        (subst (AllPairs Keeps) (sym same) pairs) empty
      ∙ run-append mpi xs ys m
      ∙ run-locals ys locals (run mpi xs m)

  -- A run of actions that ask for nothing.
  pub asks_nothing :
      {q p : List Action} {n n' : Net}
      → Steps mpi q n p n'
      → p ≡ []
      → requests mpi q ≡ []
      → n.pending ≡ []
      → (n'.pending ≡ []) × (n'.memory ≡ run mpi q n.memory)
  unfolding run
  asks_nothing here done nothing empty = (empty, rw (done, run) refl)
  asks_nothing (performs {a} {rest} (starts {r} e) more) done nothing empty =
      let asks : r ∷ requests mpi rest ≡ [] = sym (requests-some mpi a rest r e) ∙ nothing in
      absurd (cc)
  asks_nothing (performs {a} {rest} (acts e waits) more) done nothing empty =
      asks_nothing more done (sym (requests-none mpi a rest e) ∙ nothing) empty
  asks_nothing (arrives (delivers [] u later is passes) more) done nothing empty = absurd (cc)
  asks_nothing (arrives (delivers (x ∷ earlier) u later is passes) more) done nothing empty =
      absurd (cc)
