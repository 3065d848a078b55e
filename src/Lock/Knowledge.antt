-- ===== src/Lock/Knowledge.antt =====
-- The order in which PEs came to the lock of src/oshmpi-mcs-lock.c: what the PEs know of it when one of
-- them moves.
use oshmpi.Prelude.{ℕ, ◌≡◌, ◌≢◌, inl, inr, arith, ◌==◌, ==_iff, Bool-cases}
use mathlib.Core.Path.{subst}
use oshmpi.Lock.{update, Pc, idle, checking, replacing}
use oshmpi.Lock.Order.{Knows}

-- A PE that moves keeps what the others know.
pub Knows-update :
    (place : ℕ → ℕ) (pc : ℕ → Pc) (i : ℕ) (p : Pc)
    → Knows place i p
    → ((j : ℕ) → Knows place j (pc j))
    → (j : ℕ) → Knows place j (update pc i p j)
Knows-update place pc i p mine knows j = elim (Bool-cases (i == j)) [
  | inl same ↦ rw same (subst (λ k. Knows place k p) ((==_iff i j).0 same) mine)
  | inr other ↦ rw other (knows j)
]

-- A PE that takes a new place keeps what the others know.
pub Knows-place :
    (place : ℕ → ℕ) (i n j : ℕ) (q : Pc)
    → place i ≡ 0
    → i ≢ j
    → Knows place j q
    → Knows (update place i n) j q
Knows-place place i n j idle e ne k = ground arith
Knows-place place i n j (checking prev) e ne k = k
Knows-place place i n j replacing e ne k = k
Knows-place place i n j q e ne k = ground arith

pub Knows-come :
    (place : ℕ → ℕ) (pc : ℕ → Pc) (i n : ℕ) (p : Pc)
    → place i ≡ 0
    → Knows (update place i n) i p
    → ((j : ℕ) → Knows place j (pc j))
    → (j : ℕ) → Knows (update place i n) j (update pc i p j)
Knows-come place pc i n p e mine knows j = elim (Bool-cases (i == j)) [
  | inl same ↦ rw same (subst (λ k. Knows (update place i n) k p) ((==_iff i j).0 same) mine)
  | inr other ↦ rw other (Knows-place place i n j (pc j) e (ground arith) (knows j))
]
