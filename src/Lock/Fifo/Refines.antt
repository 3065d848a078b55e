-- ===== src/Lock/Fifo/Refines.antt =====
-- The lock of src/oshmpi-mcs-lock.c refines a queue in order of arrival, when each PE locks at most once.
use oshmpi.Prelude.{
  ℕ, ◌+◌, ◌≤◌, ◌<◌, ◌≡◌, inl, inr, refl, true, false, none, some, [], ◌∷◌, ◌++◌, arith,
  Option-cases, ◌↔◌, List, sym, ap, ◌∙◌, append-nil, append_assoc,
}
use mathlib.Core.List.{Memᴰ}
use oshmpi.Lock.{
  update, allock, Windows, Pc, idle, linking, probing, entering, holding, notifying, releasing,
  released, Move, swap_free, swap_behind, link, probe, enter, read_none, read_some, notify, release,
  again, try_free, try_busy, try_fails, try_passes, try_takes, System, critical,
}
use oshmpi.Lock.Order.{has_entered, Inv, Inv-start}
use oshmpi.Lock.Moves.{
  swap_free-Inv, swap_behind-Inv, link-Inv, probe-Inv, enter-Inv, read_none-Inv, read_some-Inv,
  notify-Inv, release-Inv,
}
use oshmpi.Lock.Exclusion.{entered_place, critical-entered, exclusive}
use oshmpi.Lock.Fifo.{Fifo, nobody, comes, gets, noted, Logged, begins, moves, is_waiting}
use oshmpi.Lock.Fifo.Line.{Lined-le, Lined-snoc, Lined-first}
use oshmpi.Lock.Fifo.Sim.{Sim, done-entered, Sim-Matches}

module _ {m : Windows} {pc : ℕ → Pc} {a : Fifo} (r : Sim m pc a) (i : ℕ) where
  open r use {arrived, place, entered, inv, line, front, behind, owner_none, owner_some}

  -- The PEs that get the lock in a move are the first of the queue with those that come.
  abbrev Served : (from to : Pc) → Fifo → Type 0
  Served from to b = noted (gets from to) i ++ b.queue ≡ a.queue ++ noted (comes from to) i

  -- A PE moves, and neither gets the lock nor passes it on.
  Sim-stay :
      {m' : Windows} (p : Pc)
      → Inv arrived place m' (update pc i p)
      → has_entered p ≡ has_entered (pc i)
      → critical p ≡ critical (pc i)
      → Sim m' (update pc i p) a
  Sim-stay p inv' e c = record {
    arrived = arrived;
    place = place;
    entered = entered;
    inv = inv';
    line = line;
    front = λ j lt le. ground (arith, front j);
    behind = λ j h. ground (arith, behind j);
    owner_none = λ o j. ground (arith, owner_none o j);
    owner_some = λ j o. ground (arith, owner_some j o);
  }

  -- The PE in the critical part passes the lock on.
  Sim-leave :
      {m' : Windows} (p : Pc)
      → Served p releasing (record a { owner = none })
      → Inv arrived place m' (update pc i releasing)
      → critical (pc i) ≡ true
      → (b : Fifo) × Served p releasing b × Sim m' (update pc i releasing) b
  Sim-leave p queue inv' c = (
    record a { owner = none },
    queue,
    record {
      arrived = arrived;
      place = place;
      entered = entered;
      inv = inv';
      line = line;
      front = λ j lt le. ground (arith, front j);
      behind = λ j h. ground (arith, behind j, critical-entered (pc i) c);
      owner_none = λ o j. ground (arith, exclusive inv i j c);
      owner_some = λ j o. cc;
    },
  )

  Sim-behind :
      {prev : ℕ}
      → m.tail ≡ some prev
      → pc i ≡ idle
      → (b : Fifo) × Served idle (linking prev) b
        × Sim (record m { tail = some i }) (update pc i (linking prev)) b
  Sim-behind {prev} e at =
      let new : place i ≡ 0 = rw at at (inv.knows i) in
      let le = Lined-le place entered arrived a.queue line in
      (
        record a { queue = a.queue ++ i ∷ [] },
        refl,
        record {
          arrived = arrived + 1;
          place = update place i (arrived + 1);
          entered = entered;
          inv = swap_behind-Inv inv i e at;
          line = Lined-snoc place i entered arrived a.queue new line;
          front = λ j lt le'. ground (arith, front j);
          behind = λ j h. ground (arith, behind j);
          owner_none = λ o j. ground (arith, owner_none o j);
          owner_some = λ j o. ground (arith, owner_some j o);
        },
      )

  -- The first PE of all comes and gets the lock at once.
  Sim-free :
      m.tail ≡ none
      → pc i ≡ idle
      → (b : Fifo) × Served idle entering b
        × Sim (record m { tail = some i }) (update pc i entering) b
  Sim-free e at =
      let none_came : arrived ≡ 0 = inv.tail_none e in
      let new : place i ≡ 0 = rw at at (inv.knows i) in
      let le = Lined-le place entered arrived a.queue line in
      let alone = Lined-snoc place i entered arrived a.queue new line in
      let nobody_owns : a.owner ≡ none = elim (Option-cases a.owner) [
        | inl free ↦ free
        | inr (o, owned) ↦ absurd (
            ground (
              arith,
              entered_place place o (pc o) (owner_some o owned) (inv.knows o),
              inv.bounded o,
            ))
      ] in
      let (rest, e', l') =
        Lined-first (update place i (arrived + 1)) (swap_free-Inv inv i e at).unique i entered
          (arrived + 1) (a.queue ++ i ∷ []) (ground arith) (ground arith) alone in
      (
        record { owner = some i; queue = rest },
        sym e',
        record {
          arrived = arrived + 1;
          place = update place i (arrived + 1);
          entered = entered + 1;
          inv = swap_free-Inv inv i e at;
          line = l';
          front = λ j lt le'. ground (arith, inv.bounded j);
          behind = λ j h. ground (arith, behind j);
          owner_none = λ o j. absurd (cc);
          owner_some = λ j o. ground arith;
        },
      )

  -- A PE gets the message: it is the first of the queue, and nobody owns the lock.
  Sim-probe :
      {prev : ℕ}
      → 0 < m.sent prev i
      → pc i ≡ probing prev
      → (b : Fifo) × Served (probing prev) entering b × Sim m (update pc i entering) b
  Sim-probe {prev} e at =
      let told = inv.told prev i e in
      let near : place prev ≤ entered = behind prev (done-entered (pc prev) told.2) in
      let far : entered < place i = ground (arith, front i) in
      let nobody_owns : a.owner ≡ none = elim (Option-cases a.owner) [
        | inl free ↦ free
        | inr (o, owned) ↦ absurd (
            ground (
              arith,
              critical-entered (pc o) (owner_some o owned),
              done-entered (pc prev),
              inv.served prev o,
              inv.unique o prev,
              behind o,
              entered_place place o (pc o) (owner_some o owned) (inv.knows o),
            ))
      ] in
      let (rest, e', l') =
        Lined-first place inv.unique i entered arrived a.queue (omega arith) (inv.bounded i) line in
      (
        record { owner = some i; queue = rest },
        sym e' ∙ sym (append-nil a.queue),
        record {
          arrived = arrived;
          place = place;
          entered = entered + 1;
          inv = probe-Inv inv i e at;
          line = l';
          front = λ j lt le. ground (arith, front j, inv.unique j i);
          behind = λ j h. ground (arith, behind j);
          owner_none = λ o j. absurd (cc);
          owner_some = λ j o. ground arith;
        },
      )

  none_moved : a.queue ≡ a.queue ++ []
  none_moved = sym (append-nil a.queue)

  Move-Sim :
      {m' : Windows} {p p' : Pc}
      → Move false i m p m' p'
      → pc i ≡ p
      → (b : Fifo) × Served p p' b × Sim m' (update pc i p') b
  Move-Sim (swap_free e) at = Sim-free e at
  Move-Sim (swap_behind e) at = Sim-behind e at
  Move-Sim (link {prev}) at = (a, none_moved, Sim-stay (probing prev) (link-Inv inv i at) (cc) (cc))
  Move-Sim (probe e) at = Sim-probe e at
  Move-Sim enter at = (a, none_moved, Sim-stay holding (enter-Inv inv i at) (cc) (cc))
  Move-Sim (read_none e) at = Sim-leave holding none_moved (read_none-Inv inv i at) (cc)
  Move-Sim (read_some {next} e) at =
      (a, none_moved, Sim-stay (notifying next) (read_some-Inv inv i e at) (cc) (cc))
  Move-Sim (notify {next}) at = Sim-leave (notifying next) none_moved (notify-Inv inv i at) (cc)
  Move-Sim release at = (a, none_moved, Sim-stay released (release-Inv inv i at) (cc) (cc))
  Move-Sim (again e) at = absurd (cc)
  Move-Sim (try_free e _) at = absurd (cc)
  Move-Sim (try_busy e _) at = absurd (cc)
  Move-Sim (try_fails e) at = absurd (rw at at (inv.knows i))
  Move-Sim (try_passes e) at = absurd (rw at at (inv.knows i))
  Move-Sim try_takes at = absurd (rw at at (inv.knows i))

pub Sim-start : Sim allock (λ _. idle) nobody
Sim-start = record {
  arrived = 0;
  place = λ _. 0;
  entered = 0;
  inv = Inv-start;
  line = refl;
  front = λ i lt le. absurd (omega arith);
  behind = λ i h. absurd (cc);
  owner_none = λ o i. refl;
  owner_some = λ i o. absurd (cc);
}

abbrev Stands : System → (came got : List ℕ) → Type 0
Stands s came got = (a : Fifo) × (came ≡ got ++ a.queue) × Sim s.windows s.pc a

stands : {s : System} {came got : List ℕ} → Logged s came got → Stands s came got
stands begins = (nobody, refl, Sim-start)
stands (moves {s} {came} {got} {m} {to} before i move) =
    let (a, order, sim) = stands before in
    let (b, served, sim') = Move-Sim sim i move refl in
    let arrived = noted (comes (s.pc i) to) i in
    let granted = noted (gets (s.pc i) to) i in
    (
      b,
      ap (λ l. l ++ arrived) order
          ∙ append_assoc got a.queue arrived
          ∙ ap (λ l. got ++ l) (sym served)
          ∙ sym (append_assoc got granted b.queue),
      sim',
    )

-- When each PE calls oshmpi_lock at most once and none oshmpi_trylock, the PEs get the lock in the order
-- in which they swapped the tail, whatever the interleaving: those that have got it and those that
-- wait, in this order, are those that have come. At most one PE is in the critical part, and the PEs
-- that wait are the rest of the order.
pub served_in_order :
    {s : System} {came got : List ℕ}
    → Logged s came got
    → (waiting : List ℕ) × (came ≡ got ++ waiting)
      × ((i : ℕ) → Memᴰ i waiting ↔ (is_waiting (s.pc i) ≡ true))
      × ((i j : ℕ) → critical (s.pc i) ≡ true → critical (s.pc j) ≡ true → i ≡ j)
served_in_order run =
    let (a, order, sim) = stands run in
    let seen = Sim-Matches sim in (a.queue, order, seen.waits, λ i j c d. exclusive sim.inv i j c d)
