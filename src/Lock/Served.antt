-- ===== src/Lock/Served.antt =====
-- The lock of src/oshmpi-mcs-lock.c, when each PE locks at most once: a PE that has written its rank before
-- the PE in front calls oshmpi_unlock is not missed.
use oshmpi.Prelude.{
  ℕ, ◌<◌, ◌≡◌, ◌⊎◌, inl, inr, refl, ap, ◌∙◌, Bool, true, false, some, arith, ◌==◌, ==_iff,
  Bool-cases,
}
use oshmpi.Lock.{
  update, Windows, Pc, probing, holding, notifying, Move, link, probe, read_none, read_some, notify,
  System, Step, by, Reach, begin, next_step,
}
use oshmpi.Lock.Order.{Knows, Inv, is_done}
use oshmpi.Lock.Exclusion.{Reach-Inv}

-- A PE that waits has its rank in the window of the PE in front.
HasLinked : Windows → (ℕ → Pc) → Type 0
HasLinked m pc = (i prev : ℕ) → pc i ≡ probing prev → m.next prev ≡ some i

Move-HasLinked :
    {a : ℕ} {place : ℕ → ℕ} (m : Windows) (pc : ℕ → Pc) (k : ℕ) {m' : Windows} {p p' : Pc}
    → Inv a place m pc
    → HasLinked m pc
    → Move false k m p m' p'
    → pc k ≡ p
    → HasLinked m' (update pc k p')
unfolding HasLinked
Move-HasLinked {place} m pc k inv h (link {prev = q}) at i prev e =
    let here : Knows place k (Pc.linking q) = rw at at (inv.knows k) in
    let there : pc i ≡ probing prev → Knows place i (probing prev) = λ w. rw w at (inv.knows i) in
    ground (arith, h i prev, there, inv.unique i k)
Move-HasLinked m pc k inv h mv at i prev e = ground (arith, h i prev)

Reach-HasLinked : {s : System} → Reach false s → HasLinked s.windows s.pc
unfolding HasLinked
Reach-HasLinked begin = λ i prev e. absurd (cc)
Reach-HasLinked (next_step r (by k move)) =
    let (a, place, inv) = Reach-Inv r in Move-HasLinked _ _ k inv (Reach-HasLinked r) move refl

pub data Steps (reuse : Bool) (s : System) : System → Type 0 where
  no_step : Steps reuse s s
  step_more : {t u : System} → Steps reuse s t → Step reuse t u → Steps reuse s u

pub Reach-Steps : {reuse : Bool} {s t : System} → Reach reuse s → Steps reuse s t → Reach reuse t
Reach-Steps r no_step = r
Reach-Steps r (step_more ss st) = next_step (Reach-Steps r ss) st

-- How far the PE in front is: it holds the lock, it is about to send the message, or it has sent it.
Passing : Windows → (ℕ → Pc) → (i prev : ℕ) → Type 0
Passing m pc i prev =
    ((pc prev ≡ holding) × (pc i ≡ probing prev)) ⊎ ((pc prev ≡ notifying i) ⊎ (0 < m.sent prev i))

Move-Passing :
    {a : ℕ} {place : ℕ → ℕ} (m : Windows) (pc : ℕ → Pc) (k i prev : ℕ) {m' : Windows} {p p' : Pc}
    → Inv a place m pc
    → HasLinked m pc
    → Move false k m p m' p'
    → pc k ≡ p
    → Passing m pc i prev
    → Passing m' (update pc k p') i prev
unfolding HasLinked Passing
Move-Passing m pc k i prev inv h (probe {prev = q} e) at (inl (holds, waits)) =
    ground (arith, h i prev waits, inv.told q k)
Move-Passing m pc k i prev inv h (read_none e) at (inl (holds, waits)) =
    elim (Bool-cases (k == prev)) [
      | inl same ↦
          let front : k ≡ prev = (==_iff k prev).0 same in
          let linked : m.next k ≡ some i = ap m.next front ∙ h i prev waits in absurd (cc)
      | inr other ↦ ground arith
    ]
Move-Passing m pc k i prev inv h (read_some e) at (inl (holds, waits)) =
    elim (Bool-cases (k == prev)) [
      | inl same ↦
          let front : k ≡ prev = (==_iff k prev).0 same in
          let linked : m.next k ≡ some i = ap m.next front ∙ h i prev waits in ground arith
      | inr other ↦ ground arith
    ]
Move-Passing m pc k i prev inv h mv at (inl (holds, waits)) = ground arith
Move-Passing m pc k i prev inv h (notify {next}) at (inr q) = ground arith
Move-Passing m pc k i prev inv h mv at (inr q) = ground arith

Steps-Passing :
    {s t : System} (i prev : ℕ)
    → Reach false s
    → Passing s.windows s.pc i prev
    → Steps false s t
    → Passing t.windows t.pc i prev
Steps-Passing i prev r p no_step = p
Steps-Passing i prev r p (step_more ss (by k move)) =
    let r' = Reach-Steps r ss in
    let (a, place, inv) = Reach-Inv r' in
    Move-Passing _ _ k i prev inv (Reach-HasLinked r') move refl (Steps-Passing i prev r p ss)

-- When each PE locks at most once and a PE waits behind one that holds the lock and has not yet called
-- oshmpi_unlock, then in every later state in which that one has passed the lock on, its message to the
-- waiting PE is there, so the wait is over.
pub linked_served :
    {s t : System} (i prev : ℕ)
    → Reach false s
    → s.pc i ≡ probing prev
    → s.pc prev ≡ holding
    → Steps false s t
    → is_done (t.pc prev) ≡ true
    → 0 < t.windows.sent prev i
unfolding Passing
linked_served i prev r waits holds ss done = elim (Steps-Passing i prev r (inl (holds, waits)) ss) [
  | inl (e, _) ↦ absurd (cc)
  | inr (inl e) ↦ absurd (cc)
  | inr (inr sent) ↦ sent
]
