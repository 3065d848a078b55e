-- ===== src/Lock/Exclusion.antt =====
-- oshmpi_lock and oshmpi_unlock of src/oshmpi-mcs-lock.c: who holds the lock when each PE locks at most
-- once.
use oshmpi.Prelude.{ℕ, ◌<◌, ◌≡◌, refl, true, false, arith}
use oshmpi.Lock.{
  update, Windows, Pc, probing, entering, holding, notifying, Move, probe, System, Step, by, Reach,
  begin, next_step, critical,
}
use oshmpi.Lock.Order.{has_entered, is_done, Knows, Inv, Inv-start}
use oshmpi.Lock.Moves.{Move-Inv}

pub Reach-Inv :
    {s : System}
    → Reach false s
    → (arrived : ℕ) × (place : ℕ → ℕ) × Inv arrived place s.windows s.pc
Reach-Inv begin = (_, _, Inv-start)
Reach-Inv (next_step r (by i move)) = let (a, place, inv) = Reach-Inv r in Move-Inv inv i move refl

pub entered_place :
    (place : ℕ → ℕ) (i : ℕ) (p : Pc) → critical p ≡ true → Knows place i p → 0 < place i
entered_place place i entering c k = k
entered_place place i holding c k = k
entered_place place i (notifying next) c k = k.1
entered_place place i p c k = absurd (cc)

pub critical-entered : (p : Pc) → critical p ≡ true → (has_entered p ≡ true) × (is_done p ≡ false)
critical-entered p c = ground arith

-- Two PEs that are both in the critical part are one.
pub exclusive :
    {a : ℕ} {place : ℕ → ℕ} {s : System}
    → Inv a place s.windows s.pc
    → (i j : ℕ) → critical (s.pc i) ≡ true
    → critical (s.pc j) ≡ true
    → i ≡ j
exclusive {place} {s} inv i j p q = ground (
  arith,
  critical-entered (s.pc i) p,
  critical-entered (s.pc j) q,
  entered_place place i (s.pc i) p (inv.knows i),
  entered_place place j (s.pc j) q (inv.knows j),
  inv.served i j,
  inv.served j i,
  inv.unique i j,
)

-- In every state that PEs reach which each call oshmpi_lock at most once and never
-- oshmpi_trylock, at most one PE stands between getting the lock and passing it on.
pub mutual_exclusion :
    {s : System}
    → Reach false s
    → (i j : ℕ) → critical (s.pc i) ≡ true
    → critical (s.pc j) ≡ true
    → i ≡ j
mutual_exclusion r = let (a, place, inv) = Reach-Inv r in exclusive inv

handoff_step :
    {a : ℕ} {place : ℕ → ℕ} (pc : ℕ → Pc) (k i prev : ℕ) {m m' : Windows} {p p' : Pc}
    → Inv a place m pc
    → Move false k m p m' p'
    → pc k ≡ p
    → pc i ≡ probing prev
    → critical (update pc k p' i) ≡ true
    → is_done (update pc k p' prev) ≡ true
handoff_step pc k i prev inv (probe {prev = q} e) at waits c = ground (arith, inv.told q k)
handoff_step pc k i prev inv mv at waits c = ground arith

pub done-critical : (p : Pc) → is_done p ≡ true → critical p ≡ false
done-critical p d = ground arith

-- When each PE locks at most once, a PE that waits behind `prev` gets the lock only when `prev` has
-- passed it on, and so is out of the critical part.
pub handoff :
    {s t : System}
    → Reach false s
    → Step false s t
    → (i prev : ℕ) → s.pc i ≡ probing prev
    → critical (t.pc i) ≡ true
    → (is_done (t.pc prev) ≡ true) × (critical (t.pc prev) ≡ false)
handoff r (by k move) i prev at c =
    let (a, place, inv) = Reach-Inv r in
    let d = handoff_step _ k i prev inv move refl at c in (d, done-critical _ d)
