-- ===== src/Lock/Fifo/Sim.antt =====
-- How a state of the lock of src/oshmpi-mcs-lock.c stands for a queue in order of arrival, when each PE
-- locks at most once.
use oshmpi.Prelude.{ℕ, ◌≤◌, ◌<◌, ◌≡◌, inl, inr, refl, true, false, none, some, arith, Option-cases}
use oshmpi.Lock.{Windows, Pc, idle, linking, probing, checking, replacing, System, critical}
use oshmpi.Lock.Order.{has_entered, is_done, Knows, Inv}
use oshmpi.Lock.Exclusion.{exclusive}
use oshmpi.Lock.Fifo.{Fifo, is_waiting, Matches}
use oshmpi.Lock.Fifo.Line.{Lined, Lined-behind, Lined_has}

-- The PEs of the first `entered` places have got the lock, and the others are the queue.
pub record Sim (m : Windows) (pc : ℕ → Pc) (a : Fifo) : Type 0 where
  pub arrived : ℕ
  pub place : ℕ → ℕ
  pub entered : ℕ
  pub inv : Inv arrived place m pc
  pub line : Lined place entered arrived a.queue
  pub front : (i : ℕ) → 0 < place i → place i ≤ entered → has_entered (pc i) ≡ true
  pub behind : (i : ℕ) → has_entered (pc i) ≡ true → place i ≤ entered
  pub owner_none : a.owner ≡ none → (i : ℕ) → critical (pc i) ≡ false
  pub owner_some : (i : ℕ) → a.owner ≡ some i → critical (pc i) ≡ true

waiting_place :
    (place : ℕ → ℕ) (i : ℕ) (p : Pc)
    → Knows place i p
    → is_waiting p ≡ true
    → (0 < place i) × (has_entered p ≡ false)
waiting_place place i (linking prev) k w = (omega arith, refl)
waiting_place place i (probing prev) k w = (omega arith, refl)
waiting_place place i p k w = absurd (cc)

placed_waiting :
    (place : ℕ → ℕ) (i : ℕ) (p : Pc)
    → Knows place i p
    → 0 < place i
    → has_entered p ≡ false
    → is_waiting p ≡ true
placed_waiting place i idle k lt e = absurd (omega arith)
placed_waiting place i (checking prev) k lt e = absurd k
placed_waiting place i replacing k lt e = absurd k
placed_waiting place i p k lt e = ground arith

pub done-entered : (p : Pc) → is_done p ≡ true → has_entered p ≡ true
done-entered p d = ground arith

-- What the relation says is seen from outside.
pub Sim-Matches : {s : System} {a : Fifo} → Sim s.windows s.pc a → Matches s a
Sim-Matches {s} {a} r = record {
  owns = λ i. (
    r.owner_some i,
    λ c. elim (Option-cases a.owner) [
      | inl e ↦ absurd (ground (arith, r.owner_none e i))
      | inr (o, e) ↦ let same : o ≡ i = exclusive r.inv o i (r.owner_some o e) c in cc
    ],
  );
  waits = λ i. (
    λ m. ground (
      arith,
      Lined-behind r.place r.inv.unique i r.entered r.arrived a.queue r.line m,
      placed_waiting r.place i (s.pc i) (r.inv.knows i),
      r.behind i,
    ),
    λ w.
        let (lt, e) = waiting_place r.place i (s.pc i) (r.inv.knows i) w in
        Lined_has r.place r.inv.unique i r.entered r.arrived a.queue r.line
          (ground (arith, r.front i)) (r.inv.bounded i),
  );
}
