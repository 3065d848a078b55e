-- ===== src/Lock/Order.antt =====
-- The order in which PEs came to the lock of src/oshmpi-mcs-lock.c when each comes once: the k-th to
-- swap the tail has place k, and 0 is the place of a PE that has not come.
use oshmpi.Prelude.{ℕ, ◌+◌, ◌≤◌, ◌<◌, ◌≡◌, refl, Bool, true, false, none, some, arith}
use oshmpi.Lock.{
  Windows, allock, Pc, idle, linking, probing, entering, holding, notifying, releasing, released,
  checking, replacing,
}

-- A PE that has got the lock, whether or not it has passed it on.
abbrev pub has_entered : Pc → Bool
has_entered entering = true
has_entered holding = true
has_entered (notifying _) = true
has_entered releasing = true
has_entered released = true
has_entered _ = false

-- A PE that has passed the lock on, or found nobody to pass it to.
abbrev pub is_done : Pc → Bool
is_done releasing = true
is_done released = true
is_done _ = false

-- What the local of a PE says of the order.
abbrev pub Knows : (ℕ → ℕ) → ℕ → Pc → Type 0
Knows place i idle = place i ≡ 0
Knows place i (linking prev) = (place i ≡ place prev + 1) × (0 < place prev)
Knows place i (probing prev) = (place i ≡ place prev + 1) × (0 < place prev)
Knows place i (notifying next) = (place next ≡ place i + 1) × (0 < place i)
Knows place i (checking prev) = ⊥
Knows place i replacing = ⊥
Knows place i _ = 0 < place i

pub record Inv (arrived : ℕ) (place : ℕ → ℕ) (m : Windows) (pc : ℕ → Pc) : Type 0 where
  pub bounded : (i : ℕ) → place i ≤ arrived
  pub unique : (i j : ℕ) → 0 < place i → place i ≡ place j → i ≡ j
  pub tail_none : m.tail ≡ none → arrived ≡ 0
  pub tail_some : (t : ℕ) → m.tail ≡ some t → (place t ≡ arrived) × (0 < arrived)
  pub knows : (i : ℕ) → Knows place i (pc i)
  pub linked : (i j : ℕ) → m.next i ≡ some j → (place j ≡ place i + 1) × (0 < place i)
  pub told :
      (i j : ℕ) → 0 < m.sent i j → (place j ≡ place i + 1) × (0 < place i) × (is_done (pc i) ≡ true)
  pub served :
      (i j : ℕ)
      → has_entered (pc i) ≡ true
      → 0 < place j
      → place j < place i
      → is_done (pc j) ≡ true

pub Inv-start : Inv 0 (λ _. 0) allock (λ _. idle)
Inv-start = record {
  bounded = λ i. omega arith;
  unique = λ i j p e. absurd (omega arith);
  tail_none = λ e. refl;
  tail_some = λ t e. cc;
  knows = λ i. refl;
  linked = λ i j e. cc;
  told = λ i j p. absurd (omega arith);
  served = λ i j e p q. absurd (omega arith);
}
