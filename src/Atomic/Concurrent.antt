-- ===== src/Atomic/Concurrent.antt =====
-- Additions of several processes to one object, on their way: src/shmem-internals.c.
use oshmpi.Prelude.{
  ℕ, zero, suc, ◌+◌, ◌%◌, ◌^◌, ◌<◌, ◌≡◌, ◌≢◌, inl, inr, refl, sym, ap, ◌∙◌, true, false, ◌==◌,
  Bool-cases, update, arith,
}
use oshmpi.Mpi.Memory.{Memory}
use oshmpi.Mpi.Library.{Mpi}
use oshmpi.Mpi.Fabric.{Fabric, seen_by, Turn, turn, Turns, start, then_turn}
use oshmpi.Atomic.Sums.{value, to_add, IsKept, AddsOnly, steps_sum}

unfoldable pub sum_upto : ℕ → (ℕ → ℕ) → ℕ
sum_upto zero f = 0
sum_upto (suc n) f = sum_upto n f + f n

pub sum_same : (n : ℕ) (f h : ℕ → ℕ) → ((i : ℕ) → i < n → f i ≡ h i) → sum_upto n f ≡ sum_upto n h
unfolding sum_upto
sum_same zero f h same = refl
sum_same (suc n) f h same =
    omega (arith, sum_same n f h (λ i less. same i (omega arith)), same n (omega arith))

-- Sums that differ in one summand.
sum_split :
    (n : ℕ) (f h : ℕ → ℕ) (j : ℕ)
    → j < n
    → ((i : ℕ) → i < n → j ≢ i → f i ≡ h i)
    → (rest : ℕ) × (sum_upto n f ≡ f j + rest) × (sum_upto n h ≡ h j + rest)
unfolding sum_upto
sum_split zero f h j less same = absurd (omega arith)
sum_split (suc n) f h j less same = elim (Bool-cases (j == n)) [
  | inl last ↦
      let e : j ≡ n = ground arith in
      let others = sum_same n f h (λ i before. same i (omega arith) (λ is. omega (arith, is, e))) in
      (sum_upto n f, rw e (omega arith), rw e (omega (arith, others)))
  | inr earlier ↦
      let apart : j ≢ n = λ e. ground arith in
      let (rest, first, second) =
        sum_split n f h j (omega (arith, apart)) (λ i before. same i (omega arith)) in
      (rest + f n, omega (arith, first), omega (arith, second, same n (omega arith) apart))
]

module _ (mpi : Mpi) (jobs size cell : ℕ) (m : Memory) where
  -- What all processes have still to add.
  abbrev pub left : Fabric → ℕ
  left s = sum_upto jobs (λ i. to_add size cell m mpi (s.todo i) (s.pending i))

  pub record AllAdd (s : Fabric) : Type 0 where
    pub only : (i : ℕ) → i < jobs → AddsOnly size cell m mpi (s.todo i) (seen_by s i)
    pub kept : IsKept size cell m s.memory

  Turn-AllAdd :
      {s t : Fabric}
      → Turn mpi jobs s t
      → AllAdd s
      → AllAdd t
        × ((value size cell m s.memory + left s) % 256 ^ size
            ≡ (value size cell m t.memory + left t) % 256 ^ size)
  Turn-AllAdd {s} (turn j {q} {n} less ran) all =
      let (only', kept', sum) = steps_sum size cell m ran (all.only j less) all.kept in
      let todo = update s.todo j q in
      let pending = update s.pending j n.pending in
      let mine : (j == j) ≡ true = ground arith in
      let (rest, before, behind) =
        sum_split jobs (λ i. to_add size cell m mpi (s.todo i) (s.pending i))
          (λ i. to_add size cell m mpi (todo i) (pending i)) j less
          (λ i is_pe other. let e : (j == i) ≡ false = ground arith in rw e refl) in
      let now : to_add size cell m mpi (todo j) (pending j) ≡ to_add size cell m mpi q n.pending =
        rw mine refl in
      (
        record {
          only = λ i is_pe. elim (Bool-cases (j == i)) [
            | inl is ↦ rw is record {
              plain = only'.plain;
              asks = only'.asks;
              waits = only'.waits;
              loaded = only'.loaded;
            }
            | inr other ↦
                let one = all.only i is_pe in
                rw other record {
                  plain = one.plain;
                  asks = one.asks;
                  waits = one.waits;
                  loaded = one.loaded;
                }
          ];
          kept = kept';
        },
        ap (λ x. (value size cell m s.memory + x) % 256 ^ size) before
            ∙ sum rest
            ∙ ap (λ x. (value size cell m n.memory + x) % 256 ^ size)
                (ap (λ x. x + rest) (sym now) ∙ sym behind),
      )

  -- The object with what has still to be added to it is the same, modulo its size, in all states.
  pub Turns-AllAdd :
      {s t : Fabric}
      → Turns mpi jobs s t
      → AllAdd s
      → AllAdd t
        × ((value size cell m s.memory + left s) % 256 ^ size
            ≡ (value size cell m t.memory + left t) % 256 ^ size)
  Turns-AllAdd start all = (all, refl)
  Turns-AllAdd (then_turn before one) all =
      let (mid, first) = Turns-AllAdd before all in
      let (last, second) = Turn-AllAdd one mid in (last, first ∙ second)
