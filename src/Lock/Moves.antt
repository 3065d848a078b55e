-- ===== src/Lock/Moves.antt =====
-- The moves of src/oshmpi-mcs-lock.c and the order of the PEs, when each PE locks at most once.
use oshmpi.Prelude.{ℕ, ◌+◌, ◌<◌, ◌≡◌, false, none, some, arith}
use oshmpi.Prelude.Int.{pos, negsuc}
use oshmpi.Lock.{
  update, Windows, Pc, idle, linking, probing, entering, holding, notifying, releasing, released,
  Move, swap_free, swap_behind, link, probe, enter, read_none, read_some, notify, release, again,
  try_free, try_busy, try_fails, try_passes, try_takes,
}
use oshmpi.Lock.Order.{Knows, Inv}
use oshmpi.Lock.Knowledge.{Knows-update, Knows-come}

module _ {a : ℕ} {place : ℕ → ℕ} {m : Windows} {pc : ℕ → Pc} (inv : Inv a place m pc) (i : ℕ) where
  open inv use {bounded, unique, tail_none, tail_some, knows, linked, told, served}

  -- A PE that swaps the tail takes the next place.
  abbrev place' : ℕ → ℕ
  place' = update place i (a + 1)

  pub swap_free-Inv :
      m.tail ≡ none
      → pc i ≡ idle
      → Inv (a + 1) place' (record m { tail = some i }) (update pc i entering)
  swap_free-Inv free at =
      let new : place i ≡ 0 = rw at at (knows i) in
      record {
        bounded = λ j. ground (arith, bounded j);
        unique = λ j k p e. ground (arith, bounded j, bounded k, unique j k);
        tail_none = λ e. cc;
        tail_some = λ t e. ground (arith);
        knows = Knows-come place pc i (a + 1) entering new (ground arith) knows;
        linked = λ j k e. ground (arith, linked j k, bounded j, bounded k, knows i);
        told = λ j k p. ground (arith, told j k, bounded j, bounded k, knows i);
        served = λ j k e p q. ground (arith, tail_none free, bounded j, bounded k, served j k);
      }

  pub link-Inv :
      {prev : ℕ}
      → pc i ≡ linking prev
      → Inv a place (record m { next = update m.next prev (some i) }) (update pc i (probing prev))
  link-Inv {prev} at =
      let here : Knows place i (probing prev) = rw at at (knows i) in
      record {
        bounded = bounded;
        unique = unique;
        tail_none = tail_none;
        tail_some = tail_some;
        knows = Knows-update place pc i (probing prev) here knows;
        linked = λ j k e. ground (arith, linked j k, knows i);
        told = λ j k p. ground (arith, told j k);
        served = λ j k e p q. ground (arith, served j k);
      }

  pub swap_behind-Inv :
      {prev : ℕ}
      → m.tail ≡ some prev
      → pc i ≡ idle
      → Inv (a + 1) place' (record m { tail = some i }) (update pc i (linking prev))
  swap_behind-Inv {prev} behind at =
      let new : place i ≡ 0 = rw at at (knows i) in
      let last = tail_some prev behind in
      record {
        bounded = λ j. ground (arith, bounded j);
        unique = λ j k p e. ground (arith, bounded j, bounded k, unique j k);
        tail_none = λ e. cc;
        tail_some = λ t e. ground arith;
        knows = Knows-come place pc i (a + 1) (linking prev) new (ground arith) knows;
        linked = λ j k e. ground (arith, linked j k, bounded j, bounded k);
        told = λ j k p. ground (arith, told j k, bounded j, bounded k);
        served = λ j k e p q. ground (arith, bounded j, bounded k, served j k);
      }

  -- The PE in front is done, and so are all that came before it.
  pub probe-Inv :
      {prev : ℕ} → 0 < m.sent prev i → pc i ≡ probing prev → Inv a place m (update pc i entering)
  probe-Inv {prev} message at =
      let here : Knows place i (probing prev) = rw at at (knows i) in
      record {
        bounded = bounded;
        unique = unique;
        tail_none = tail_none;
        tail_some = tail_some;
        knows = Knows-update place pc i entering (omega arith) knows;
        linked = linked;
        told = λ j k p. ground (arith, told j k);
        served = λ j k e p q. ground (arith, told prev i, served j k, served prev k, unique k prev);
      }

  pub enter-Inv :
      pc i ≡ entering
      → Inv a place (record m { lock = update m.lock i (pos 1) }) (update pc i holding)
  enter-Inv at =
      let here : 0 < place i = rw at at (knows i) in
      record {
        bounded = bounded;
        unique = unique;
        tail_none = tail_none;
        tail_some = tail_some;
        knows = Knows-update place pc i holding here knows;
        linked = linked;
        told = λ j k p. ground (arith, told j k);
        served = λ j k e p q. ground (arith, served j k);
      }

  pub read_none-Inv : pc i ≡ holding → Inv a place m (update pc i releasing)
  read_none-Inv at =
      let here : 0 < place i = rw at at (knows i) in
      record {
        bounded = bounded;
        unique = unique;
        tail_none = tail_none;
        tail_some = tail_some;
        knows = Knows-update place pc i releasing here knows;
        linked = linked;
        told = λ j k p. ground (arith, told j k);
        served = λ j k e p q. ground (arith, served j k);
      }

  pub read_some-Inv :
      {next : ℕ}
      → m.next i ≡ some next
      → pc i ≡ holding
      → Inv a place m (update pc i (notifying next))
  read_some-Inv {next} e at = record {
    bounded = bounded;
    unique = unique;
    tail_none = tail_none;
    tail_some = tail_some;
    knows = Knows-update place pc i (notifying next) (linked i next e) knows;
    linked = linked;
    told = λ j k p. ground (arith, told j k);
    served = λ j k e p q. ground (arith, served j k);
  }

  pub notify-Inv :
      {next : ℕ}
      → pc i ≡ notifying next
      → Inv a place
          (record m { sent = update m.sent i (update (m.sent i) next (m.sent i next + 1)) })
          (update pc i releasing)
  notify-Inv {next} at =
      let here : Knows place i (notifying next) = rw at at (knows i) in
      record {
        bounded = bounded;
        unique = unique;
        tail_none = tail_none;
        tail_some = tail_some;
        knows = Knows-update place pc i releasing (omega arith) knows;
        linked = linked;
        told = λ j k p. ground (arith, told j k);
        served = λ j k e p q. ground (arith, served j k);
      }

  pub release-Inv :
      pc i ≡ releasing
      → Inv a place (record m { lock = update m.lock i (negsuc 0) }) (update pc i released)
  release-Inv at =
      let here : 0 < place i = rw at at (knows i) in
      record {
        bounded = bounded;
        unique = unique;
        tail_none = tail_none;
        tail_some = tail_some;
        knows = Knows-update place pc i released here knows;
        linked = linked;
        told = λ j k p. ground (arith, told j k);
        served = λ j k e p q. ground (arith, served j k);
      }

  -- Some order fits the state behind a move.
  pub Move-Inv :
      {m' : Windows} {p p' : Pc}
      → Move false i m p m' p'
      → pc i ≡ p
      → (arrived : ℕ) × (order : ℕ → ℕ) × Inv arrived order m' (update pc i p')
  Move-Inv (swap_free e) at = (_, _, swap_free-Inv e at)
  Move-Inv (swap_behind e) at = (_, _, swap_behind-Inv e at)
  Move-Inv link at = (_, _, link-Inv at)
  Move-Inv (probe e) at = (_, _, probe-Inv e at)
  Move-Inv enter at = (_, _, enter-Inv at)
  Move-Inv (read_none e) at = (_, _, read_none-Inv at)
  Move-Inv (read_some e) at = (_, _, read_some-Inv e at)
  Move-Inv notify at = (_, _, notify-Inv at)
  Move-Inv release at = (_, _, release-Inv at)
  Move-Inv (again e) at = absurd (cc)
  Move-Inv (try_free e _) at = absurd (cc)
  Move-Inv (try_busy e _) at = absurd (cc)
  Move-Inv (try_fails e) at = absurd (rw at at (knows i))
  Move-Inv (try_passes e) at = absurd (rw at at (knows i))
  Move-Inv try_takes at = absurd (rw at at (knows i))
