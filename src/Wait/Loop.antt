-- ===== src/Wait/Loop.antt =====
-- The loops of src/shmem-wait.h and shmemx_ct_wait: when a wait returns, and with what.
use mathlib.Core.Path.{subst}
use oshmpi.Prelude.{
  ℕ, zero, suc, ◌+◌, ◌≤◌, ◌<◌, ◌≡◌, ◌⊎◌, inl, inr, refl, sym, ap, ◌==◌, Bool, true, false, Option,
  none, some, arith, Bool-cases,
}
use oshmpi.Prelude.Int.{ℤ, pos, negsuc, eqb_ℤ}
use oshmpi.Wait.{
  Cmp, cmp_ne, cmp_eq, ct_from, shmemx_ct_wait, comp, released, wait_aborted, wait_from, shmem_wait,
  until_from, shmem_wait_until,
}

comp-cases : (r : Option Bool) → (r ≡ none) ⊎ (r ≡ some true) ⊎ (r ≡ some false)
comp-cases none = inl refl
comp-cases (some true) = inr (inl refl)
comp-cases (some false) = inr (inr refl)

pub eqb_ℤ_refl : (a : ℤ) → eqb_ℤ a a ≡ true
eqb_ℤ_refl (pos n) = ground arith
eqb_ℤ_refl (negsuc n) = ground arith

pub eqb_ℤ_eq : (a b : ℤ) → eqb_ℤ a b ≡ true → a ≡ b
eqb_ℤ_eq (pos a) (pos b) h = ap pos (ground arith)
eqb_ℤ_eq (pos a) (negsuc b) h = absurd (ground arith)
eqb_ℤ_eq (negsuc a) (pos b) h = absurd (ground arith)
eqb_ℤ_eq (negsuc a) (negsuc b) h = ap negsuc (ground arith)

module _ (observe : ℕ → ℤ) (value : ℤ) (cond : Cmp) where
  until_later :
      (n fuel i : ℕ)
      → ((j : ℕ) → i ≤ j → j < i + n → comp cond (observe j) value ≡ some false)
      → comp cond (observe (i + n)) value ≡ some true
      → n < fuel
      → until_from observe value cond fuel i ≡ released (i + n + 1) (observe (i + n))
  unfolding until_from
  until_later n zero i not_before at_last enough = absurd (omega arith)
  until_later zero (suc fuel) i not_before at_last enough =
      let here : i + 0 ≡ i = omega arith in
      let now : comp cond (observe i) value ≡ some true = rw here at at_last in
      rw (here, now, until_from) refl
  until_later (suc n) (suc fuel) i not_before at_last enough =
      let now : comp cond (observe i) value ≡ some false =
        not_before i (omega arith) (omega arith) in
      let next : i + suc n ≡ i + 1 + n = omega arith in
      let last : comp cond (observe (i + 1 + n)) value ≡ some true = rw next at at_last in
      rw (now, next, until_from)
        (until_later n fuel (i + 1) (λ j p q. not_before j (omega arith) (omega arith)) last
          (omega arith))

  until_sound :
      (fuel i reads : ℕ) (temp : ℤ)
      → until_from observe value cond fuel i ≡ released reads temp
      → (n : ℕ) × (reads ≡ i + n + 1)
        × (temp ≡ observe (i + n))
        × (comp cond temp value ≡ some true)
        × ((j : ℕ) → i ≤ j → j < i + n → comp cond (observe j) value ≡ some false)
  unfolding until_from
  until_sound zero i reads temp is = absurd (cc)
  until_sound (suc fuel) i reads temp is = elim (comp-cases (comp cond (observe i) value)) [
    | inl bad ↦
        let no : wait_aborted (i + 1) ≡ released reads temp = rw (bad, until_from) at is in
        absurd (cc)
    | inr (inl now) ↦
        let done : released (i + 1) (observe i) ≡ released reads temp =
          rw (now, until_from) at is in
        let count : i + 1 ≡ reads = cc in
        let read : observe i ≡ temp = cc in
        let here : i + 0 ≡ i = omega arith in
        (
          0,
          omega (arith, count),
          rw here (sym read),
          subst (λ t. comp cond t value ≡ some true) read now,
          λ j p q. absurd (omega arith),
        )
    | inr (inr later) ↦
        let rest : until_from observe value cond fuel (i + 1) ≡ released reads temp =
          rw (later, until_from) at is in
        let (n, count, read, holds, before) = until_sound fuel (i + 1) reads temp rest in
        let next : i + suc n ≡ i + 1 + n = omega arith in
        (
          suc n,
          omega (arith, count),
          rw next read,
          holds,
          λ j p q. elim (Bool-cases (j == i)) [
            | inl same ↦ let here : j ≡ i = ground arith in rw here later
            | inr other ↦ before j (ground arith) (omega arith)
          ],
        )
  ]

  -- A wait whose comparison holds for the first time at read number `n`, counted from 0, returns
  -- that value behind n + 1 reads, given that many or more.
  pub wait_until_returns :
      (n fuel : ℕ)
      → ((j : ℕ) → j < n → comp cond (observe j) value ≡ some false)
      → comp cond (observe n) value ≡ some true
      → n < fuel
      → shmem_wait_until observe value cond fuel ≡ released (n + 1) (observe n)
  unfolding shmem_wait_until
  wait_until_returns n fuel not_before at_last enough =
      let none_before : (j : ℕ) → 0 ≤ j → j < 0 + n → comp cond (observe j) value ≡ some false =
        λ j p q. not_before j (omega arith) in
      let same : 0 + n ≡ n = omega arith in
      let last : comp cond (observe (0 + n)) value ≡ some true = rw same at_last in
      rw same at (until_later n fuel 0 none_before last enough)

  -- A wait returns only a value that it read, for which the comparison holds, and no read before
  -- satisfied the comparison.
  pub wait_until_sound :
      (fuel reads : ℕ) (temp : ℤ)
      → shmem_wait_until observe value cond fuel ≡ released reads temp
      → (n : ℕ) × (reads ≡ n + 1)
        × (temp ≡ observe n)
        × (comp cond temp value ≡ some true)
        × ((j : ℕ) → j < n → comp cond (observe j) value ≡ some false)
  unfolding shmem_wait_until
  wait_until_sound fuel reads temp is =
      let (n, count, read, holds, before) = until_sound fuel 0 reads temp is in
      let same : 0 + n ≡ n = omega arith in
      (n, omega (arith, count), rw same at read, holds, λ j q. before j (omega arith) (omega arith))

module _ (observe : ℕ → ℤ) (value : ℤ) where
  wait_released :
      (fuel i : ℕ) (temp : ℤ)
      → eqb_ℤ temp value ≡ false
      → wait_from observe value fuel i temp ≡ released i temp
  unfolding wait_from
  wait_released zero i temp h = rw h refl
  wait_released (suc fuel) i temp h = rw h refl

  same_loops :
      (fuel i : ℕ) → wait_from observe value fuel i value ≡ until_from observe value cmp_ne fuel i
  unfolding wait_from until_from comp
  same_loops zero i = rw (eqb_ℤ_refl value) refl
  same_loops (suc fuel) i = elim (Bool-cases (eqb_ℤ (observe i) value)) [
    | inl same ↦
        let back = eqb_ℤ_eq (observe i) value same in
        rw (eqb_ℤ_refl value, same, back, until_from) (same_loops fuel (i + 1))
    | inr other ↦
        rw (eqb_ℤ_refl value, other, until_from) (wait_released fuel (i + 1) (observe i) other)
  ]

  -- A wait for a change is a wait until the variable is not equal to the value: with as many reads
  -- both return the same, or neither returns.
  pub wait-wait_until :
      (fuel : ℕ) → shmem_wait observe value fuel ≡ shmem_wait_until observe value cmp_ne fuel
  unfolding shmem_wait shmem_wait_until
  wait-wait_until fuel = same_loops fuel 0

eqb_ℤ_sym : (a b : ℤ) → eqb_ℤ a b ≡ eqb_ℤ b a
eqb_ℤ_sym (pos a) (pos b) = ground arith
eqb_ℤ_sym (pos a) (negsuc b) = ground arith
eqb_ℤ_sym (negsuc a) (pos b) = ground arith
eqb_ℤ_sym (negsuc a) (negsuc b) = ground arith

module _ (observe : ℕ → ℤ) (value : ℤ) where
  same_counts : (fuel i : ℕ) → ct_from observe value fuel i ≡ until_from observe value cmp_eq fuel i
  unfolding ct_from until_from comp
  same_counts zero i = refl
  same_counts (suc fuel) i = elim (Bool-cases (eqb_ℤ (observe i) value)) [
    | inl same ↦ rw (eqb_ℤ_sym value (observe i), same, ct_from, until_from, comp) refl
    | inr other ↦
        rw (eqb_ℤ_sym value (observe i), other, ct_from, until_from, comp)
          (same_counts fuel (i + 1))
  ]

  -- A wait for a counter is a wait until the counter is equal to the value.
  pub ct_wait-wait_until :
      (fuel : ℕ) → shmemx_ct_wait observe value fuel ≡ shmem_wait_until observe value cmp_eq fuel
  unfolding shmemx_ct_wait shmem_wait_until
  ct_wait-wait_until fuel = same_counts fuel 0
