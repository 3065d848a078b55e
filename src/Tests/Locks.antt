-- ===== src/Tests/Locks.antt =====
-- Runs of the lock by two PEs.
use oshmpi.Prelude.{
  ℕ, ◌<◌, ◌≡◌, ◌≢◌, refl, true, false, Option, none, some, arith, List, [], ◌∷◌, ◌++◌, ◌↔◌,
}
use oshmpi.Prelude.Int.{pos, negsuc}
use oshmpi.Lock.{
  idle, probing, holding, released, swap_free, swap_behind, link, enter, read_none, read_some,
  notify, release, try_busy, try_fails, System, by, Reach, begin, next_step, critical,
}
use oshmpi.Lock.Order.{is_done}
use oshmpi.Lock.Exclusion.{mutual_exclusion}
use oshmpi.Lock.Served.{Steps, no_step, step_more, Reach-Steps, linked_served}
use oshmpi.Lock.Fifo.{Logged, begins, moves, is_waiting}
use oshmpi.Lock.Fifo.Refines.{served_in_order}
use mathlib.Core.List.{Memᴰ}
use oshmpi.Lock.Reuse.{both_critical}
use oshmpi.Lock.Stuck.{stay, missed, lost_handoff, trylock_fails}

apart : ◌≢◌ {A = ℕ} 0 1
apart e = omega (arith, e)

-- PE 3 holds the lock.
abbrev one_holds : (s : System) × Reach false s × (s.pc 3 ≡ holding)
one_holds = (_, next_step (next_step begin (by 3 (swap_free refl))) (by 3 enter), refl)

mutual_exclusion_example : ◌≡◌ {A = ℕ} 3 3
mutual_exclusion_example = mutual_exclusion one_holds.1 3 3 refl refl

-- PE 2 gets the lock, and PE 5 and PE 4 come behind it.
abbrev logged : (s : System) × Logged s (2 ∷ 5 ∷ 4 ∷ []) (2 ∷ [])
logged = (
  _,
  moves (moves (moves (moves begins 2 (swap_free refl)) 5 (swap_behind refl)) 2 enter) 4
      (swap_behind refl),
)

served_in_order_example :
    (waiting : List ℕ) × (2 ∷ 5 ∷ 4 ∷ [] ≡ 2 ∷ [] ++ waiting)
    × ((i : ℕ) → Memᴰ i waiting ↔ (is_waiting (logged.0.pc i) ≡ true))
    × ((i j : ℕ) → critical (logged.0.pc i) ≡ true → critical (logged.0.pc j) ≡ true → i ≡ j)
served_in_order_example = served_in_order logged.1

-- PE 0 holds the lock, and PE 1 queues behind it.
abbrev queued : (s : System) × Reach false s × (s.pc 1 ≡ probing 0) × (s.pc 0 ≡ holding)
queued = (
  _,
  next_step
      (next_step (next_step (next_step begin (by 0 (swap_free refl))) (by 0 enter))
        (by 1 (swap_behind refl)))
      (by 1 link),
  refl,
  refl,
)

-- Then PE 0 passes the lock on.
abbrev passed_on :
    (t : System) × Steps false queued.0 t
    × (is_done (t.pc 0) ≡ true)
    × (t.pc 1 ≡ probing 0)
    × (0 < t.windows.sent 0 1)
passed_on = (
  _,
  step_more (step_more no_step (by 0 (read_some refl))) (by 0 notify),
  refl,
  refl,
  omega arith,
)

linked_served_example : 0 < passed_on.0.windows.sent 0 1
linked_served_example = linked_served 1 0 queued.1 queued.2 queued.3 passed_on.1 passed_on.2

abbrev passed : (s : System) × Reach false s × (s.pc 1 ≡ probing 0) × (0 < s.windows.sent 0 1)
passed = (passed_on.0, Reach-Steps queued.1 passed_on.1, passed_on.3, passed_on.4)

both_critical_example :
    (s : System) × Reach true s × (critical (s.pc 0) ≡ true) × (critical (s.pc 1) ≡ true)
both_critical_example = both_critical 0 1 apart

lost_handoff_example :
    Reach false (missed 0 1) × ((missed 0 1).pc 0 ≡ released) × ((missed 0 1).pc 1 ≡ probing 0)
lost_handoff_example = lost_handoff 0 1 apart stay

-- PE 0 has released the lock, and PE 1 tries.
abbrev tried :
    (s : System) × Reach true s × (s.windows.tail ≡ some 0) × (s.windows.lock 0 ≡ negsuc 0)
tried = (
  _,
  next_step
      (next_step
        (next_step (next_step (next_step begin (by 0 (swap_free refl))) (by 0 enter))
          (by 0 (read_none refl)))
        (by 0 release))
      (by 1 (try_busy refl refl)),
  refl,
  refl,
)

some_tail : ◌≢◌ {A = Option ℕ} (some 0) none
some_tail e = cc

not_zero : negsuc 0 ≢ pos 0
not_zero e = cc

trylock_fails_example :
    (tried.0.windows.tail ≢ none) × (idle ≡ idle) × (tried.0.windows ≡ tried.0.windows)
trylock_fails_example = trylock_fails tried.1 some_tail stay 1 0 (try_fails {prev = 0} not_zero)
