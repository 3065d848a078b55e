-- ===== src/Lock/Reuse.antt =====
-- Runs of src/oshmpi-mcs-lock.c in which PEs use the lock more than once.
use mathlib.Core.Path.{subst, fun_ext}
use oshmpi.Prelude.{sym, ap, ◌∙◌, ℕ, ◌<◌, ◌≡◌, ◌≢◌, refl, Bool, true, some, arith}
use oshmpi.Lock.{
  Windows, Pc, idle, probing, holding, swap_free, swap_behind, link, probe, enter, read_some,
  notify, release, again, System, Reach, critical,
}
use oshmpi.Lock.Pair.{pair, both_idle, first, second}

-- `i` holds the lock and `j` waits behind it.
record Queued (i j : ℕ) (w : Windows) : Type 0 where
  reach : Reach true (pair i j w holding (probing i))
  behind : w.next i ≡ some j
  last : w.tail ≡ some j

-- `j` holds the lock, which `i` has passed on, and `i` is in no call.
record Passed (i j : ℕ) (w : Windows) : Type 0 where
  reach : Reach true (pair i j w idle holding)
  last : w.tail ≡ some j
  message : 0 < w.sent i j

pair_swap :
    {reuse : Bool} (i j : ℕ) (apart : i ≢ j) {w : Windows} (p q : Pc)
    → Reach reuse (pair i j w p q)
    → Reach reuse (pair j i w q p)
pair_swap {reuse} i j apart {w} p q r =
    subst (λ f. Reach reuse (record { windows = w; pc = f })) (fun_ext (λ k. ground arith)) r

module _ (i j : ℕ) (apart : i ≢ j) where
  queue_up : (w : Windows) × Queued i j w
  queue_up = (
    _,
    record {
      reach =
          first i j apart _ _
            (second i j apart _ _
              (second i j apart _ _ (first i j apart _ _ (both_idle i j apart) (swap_free refl))
                (swap_behind refl))
              link)
            enter;
      behind = ground arith;
      last = refl;
    },
  )

  pass_on :
      {w : Windows} → Queued i j w → (w' : Windows) × Passed i j w' × (w'.sent j i ≡ w.sent j i)
  pass_on {w} queued = (
    _,
    record {
      reach =
          second i j apart _ _
            (second i j apart _ _
              (first i j apart _ _
                (first i j apart _ _
                  (first i j apart _ _ (first i j apart _ _ queued.reach (read_some queued.behind))
                    notify)
                  release)
                (again refl))
              (probe (ground arith)))
            enter;
      last = queued.last;
      message = ground arith;
    },
    ground arith,
  )

  -- `i` comes again, and waits behind `j`.
  come_again :
      {w : Windows}
      → Passed i j w
      → (w' : Windows) × Reach true (pair i j w' (probing j) holding)
        × (w'.next j ≡ some i)
        × (w'.tail ≡ some i)
        × (0 < w'.sent i j)
        × (w'.sent ≡ w.sent)
  come_again {w} passed = (
    _,
    first i j apart _ _ (first i j apart _ _ passed.reach (swap_behind passed.last)) link,
    ground arith,
    refl,
    passed.message,
    refl,
  )

-- PEs that lock again can both hold the lock: of any two PEs there is a state that they reach in
-- which both are between getting the lock and passing it on, since a message that was probed is
-- never received and lets a later probe through.
pub both_critical :
    (i j : ℕ)
    → i ≢ j
    → (s : System) × Reach true s × (critical (s.pc i) ≡ true) × (critical (s.pc j) ≡ true)
both_critical i j apart =
    let (w, queued) = queue_up i j apart in
    let (x, passed, _) = pass_on i j apart queued in
    let (y, reach, behind, last, message, _) = come_again i j apart passed in
    let back : j ≢ i = λ e. apart (sym e) in
    let turned : Queued j i y = record {
      reach = pair_swap i j apart _ _ reach;
      behind = behind;
      last = last;
    } in
    let (z, returned, kept) = pass_on j i back turned in
    let (u, waiting, _, _, _, same) = come_again j i back returned in
    (
      _,
      first j i back _ _ waiting
          (probe (subst (λ n. 0 < n) (sym (ap (λ f. f i j) same ∙ kept)) message)),
      ground arith,
      ground arith,
    )
