-- ===== src/Mpi/Fabric/Project.antt =====
-- Processes that do not touch what others write: what each does is a run of its own.
use mathlib.Core.Path.{subst}
use oshmpi.Prelude.{
  ℕ, zero, suc, ◌+◌, ◌≤◌, ◌<◌, ◌≡◌, ◌≢◌, ◌⊎◌, inl, inr, refl, sym, ◌∙◌, List, [], ◌∷◌, ◌==◌,
  Bool-cases, arith,
}
use oshmpi.Mpi.{Action}
use oshmpi.Mpi.Memory.{Memory, Misses}
use oshmpi.Mpi.Library.{Mpi}
use oshmpi.Mpi.Network.{Request, requests, Net, All, AreApart, Steps, here, performs, arrives}
use oshmpi.Mpi.Network.Runs.{All-map, Steps-All, completes}
use oshmpi.Mpi.Network.Order.{IsPlain}
use oshmpi.Mpi.Network.Frame.{IsMissed, Steps-outside}
use oshmpi.Mpi.Network.Message.{at_rest}
use oshmpi.Mpi.Fabric.{Fabric, seen_by, begin, Turn, turn, Turns, start, then_turn, AllDone}
use oshmpi.Mpi.Fabric.Alone.{Stays, Agree, follows}

-- A list all of whose elements are as each of some predicates says.
All-each {ℓ κ μ} :
    {A : Type ℓ} {X : Type κ} (P : X → A → Type μ) (xs : List A)
    → ((x : X) → All (P x) xs)
    → All (λ a. (x : X) → P x a) xs
All-each P [] h = tt
All-each P (a ∷ xs) h = (λ x. (h x).0, All-each P xs (λ x. (h x).1))

Misses-cases : (a b : ℕ) (os : List ℕ) → Misses a b os ⊎ (¬ Misses a b os)
Misses-cases a b [] = inl tt
Misses-cases a b (o ∷ os) = elim (Bool-cases (a + o == b)) [
  | inl same ↦ inr (λ miss. miss.0 (ground arith))
  | inr other ↦ elim (Misses-cases a b os) [
    | inl miss ↦ inl ((λ e. ground arith), miss)
    | inr hit ↦ inr (λ miss. hit miss.1)
  ]
]

-- `s` writes nothing that `r` reads or writes.
abbrev pub Clear : Request → Request → Type 0
Clear r s = AreApart r s × ((b : ℕ) → Misses r.origin b r.places ⊎ Misses s.target b s.there)

module _ (mpi : Mpi) where
  pub Steps-after :
      {q q' q'' : List Action} {n n' n'' : Net}
      → Steps mpi q n q' n'
      → Steps mpi q' n' q'' n''
      → Steps mpi q n q'' n''
  Steps-after here more = more
  Steps-after (performs does rest) more = performs does (Steps-after rest more)
  Steps-after (arrives one rest) more = arrives one (Steps-after rest more)

  Steps-actions {κ} :
      (P : Action → Type κ) {q p : List Action} {n n' : Net}
      → Steps mpi q n p n'
      → All P q
      → All P p
  Steps-actions P here h = h
  Steps-actions P (performs does rest) h = Steps-actions P rest h.1
  Steps-actions P (arrives one rest) h = Steps-actions P rest h

module _ (mpi : Mpi) (size : ℕ) (programs : ℕ → List Action) where
  -- No other process writes the byte.
  abbrev pub IsFree : ℕ → ℕ → Type 0
  IsFree i b = (j : ℕ) → j < size → j ≢ i → All (IsMissed mpi b) (requests mpi (programs j))

  -- The process reads and writes free bytes only.
  pub Clear-Stays :
      (i : ℕ)
      → ((j : ℕ)
          → j < size
          → j ≢ i
          → All (λ r. All (Clear r) (requests mpi (programs j))) (requests mpi (programs i)))
      → All (Stays (IsFree i)) (requests mpi (programs i))
  Clear-Stays i clear =
      All-map
        (λ r h b. (
          elim (Misses-cases r.origin b r.places) [
            | inl miss ↦ inl miss
            | inr hit ↦ inr (λ j less other.
                All-map (λ s c. elim (c.1 b) [ inl miss ↦ absurd (hit miss) | inr miss ↦ miss ])
                  (requests mpi (programs j)) (h (j, less, other)))
          ],
          elim (Misses-cases r.target b r.there) [
            | inl miss ↦ inl miss
            | inr hit ↦ inr (λ j less other.
                All-map (λ s c. elim (c.0 b) [ inl miss ↦ absurd (hit miss) | inr miss ↦ miss ])
                  (requests mpi (programs j)) (h (j, less, other)))
          ],
        ))
        (requests mpi (programs i))
        (All-each {X = (j : ℕ) × (j < size) × (j ≢ i)}
          (λ x r. All (Clear r) (requests mpi (programs x.0))) (requests mpi (programs i))
          (λ x. clear x.0 x.1 x.2))

  module _ (m : Memory) where
    -- A run of the process alone that has come as far, to a memory that agrees on the free bytes.
    abbrev pub RunsAlone : ℕ → Fabric → Type 0
    RunsAlone i s =
        (k : Memory) × Steps mpi (programs i) (at_rest mpi m) (s.todo i)
          (record { memory = k; pending = s.pending i })
        × Agree (IsFree i) k s.memory

    module _ (plain : (i : ℕ) → i < size → All (IsPlain mpi) (programs i))
        (stays : (i : ℕ) → i < size → All (Stays (IsFree i)) (requests mpi (programs i))) where
      Turn-RunsAlone :
          {s t : Fabric}
          → Turn mpi size s t
          → ((i : ℕ) → i < size → RunsAlone i s)
          → (i : ℕ) → i < size
          → RunsAlone i t
      Turn-RunsAlone {s} (turn j {q} {n} less ran) alone i is_pe = elim (Bool-cases (j == i)) [
        | inl same ↦
            let e : j ≡ i = ground arith in
            let (k, before, agree) = alone i is_pe in
            let (asks, waits) = Steps-All mpi (Stays (IsFree i)) before (stays i is_pe) tt in
            let ran' : Steps mpi (s.todo i) (seen_by s i) q n =
              subst (λ x. Steps mpi (s.todo x) (seen_by s x) q n) e ran in
            let (k', then_on, agree') =
              follows (IsFree i) ran' (Steps-actions mpi (IsPlain mpi) before (plain i is_pe)) asks
                waits k agree in
            rw same (k', Steps-after mpi before then_on, agree')
        | inr other ↦
            let apart : j ≢ i = λ e. ground arith in
            let (k, before, agree) = alone i is_pe in
            let (l, theirs, agrees) = alone j less in
            rw other (
              k,
              before,
              λ b free.
                  let (asks, waits) =
                    Steps-All mpi (IsMissed mpi b) theirs (free j less apart) tt in
                  agree b free
                  ∙ sym (
                      Steps-outside mpi b ran
                        (Steps-actions mpi (IsPlain mpi) theirs (plain j less)) asks waits),
            )
      ]

      pub Turns-RunsAlone :
          {s : Fabric} → Turns mpi size (begin programs m) s → (i : ℕ) → i < size → RunsAlone i s
      Turns-RunsAlone start i is_pe = (m, here, λ b free. refl)
      Turns-RunsAlone (then_turn before one) i is_pe =
          Turn-RunsAlone one (Turns-RunsAlone before) i is_pe

module _ (mpi : Mpi) (size : ℕ) where
  finish_upto :
      (n : ℕ)
      → n ≤ size
      → (s : Fabric) → (t : Fabric) × Turns mpi size s t × ((i : ℕ) → i < n → t.todo i ≡ [])
  finish_upto zero le s = (s, start, λ i less. absurd (omega arith))
  finish_upto (suc n) le s =
      let (t, before, done) = finish_upto n (omega arith) s in
      let (k, steps, empty) = completes mpi (t.todo n) (seen_by t n) in
      (
        _,
        then_turn before (turn n (omega arith) steps),
        λ i less. elim (Bool-cases (n == i)) [
          | inl same ↦ rw same refl
          | inr other ↦ rw other (done i (ground arith))
        ],
      )

  -- From every state all processes can finish.
  pub can_finish : (s : Fabric) → (t : Fabric) × Turns mpi size s t × AllDone size t
  can_finish s = finish_upto size (omega arith) s
