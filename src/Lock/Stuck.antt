-- ===== src/Lock/Stuck.antt =====
-- Runs of src/oshmpi-mcs-lock.c behind a missed successor, and oshmpi_trylock behind a first use.
use oshmpi.Prelude.{ℕ, ◌≡◌, ◌≢◌, refl, Bool, false, none, some, arith}
use oshmpi.Prelude.Int.{pos, negsuc}
use oshmpi.Lock.Pair.{pair, both_idle, first, second}
use oshmpi.Lock.{
  update, Windows, Pc, idle, probing, released, checking, Move, swap_free, swap_behind, link, probe,
  enter, read_none, release, again, try_free, try_busy, try_fails, try_passes, System, Step, by,
  Reach, begin, next_step,
}

-- Any number of steps.
pub data Steps (reuse : Bool) (s : System) : System → Type 0 where
  stay : Steps reuse s s
  more : {t u : System} → Steps reuse s t → Step reuse t u → Steps reuse s u

-- PE `j` waits for a message that PE `i`, which is through, has not sent.
pub record Waits (i j : ℕ) (s : System) : Type 0 where
  pub waiting : s.pc j ≡ probing i
  pub silent : s.windows.sent i j ≡ 0
  pub through : s.pc i ≡ released

Move-Waits :
    {i j k : ℕ} {m m' : Windows} {p p' : Pc} (pc : ℕ → Pc)
    → Move false k m p m' p'
    → pc k ≡ p
    → Waits i j (record { windows = m; pc = pc })
    → Waits i j (record { windows = m'; pc = update pc k p' })
Move-Waits pc (again e) at w = absurd (cc)
Move-Waits pc (try_free e _) at w = absurd (cc)
Move-Waits pc (try_busy e _) at w = absurd (cc)
Move-Waits pc (probe e) at w = ground arith
Move-Waits pc mv at w = ground arith

Steps-Waits : {i j : ℕ} {s t : System} → Waits i j s → Steps false s t → Waits i j t
Steps-Waits w stay = w
Steps-Waits w (more r (by k move)) = Move-Waits _ move refl (Steps-Waits w r)

module _ (i j : ℕ) where
  -- The windows when `i` has unlocked between the two writes of `j`.
  abbrev missed_windows : Windows
  missed_windows = record {
    tail = some j;
    next = update (λ _. none) i (some j);
    lock = update (update (λ _. negsuc 0) i (pos 1)) i (negsuc 0);
    sent = λ _ _. 0;
  }

  abbrev pub missed : System
  missed = pair i j missed_windows released (probing i)

  missed-Reach : i ≢ j → Reach false missed
  missed-Reach apart =
      second i j apart _ _
        (first i j apart _ _
          (first i j apart _ _
            (second i j apart _ _
              (first i j apart _ _ (first i j apart _ _ (both_idle i j apart) (swap_free refl))
                enter)
              (swap_behind refl))
            (read_none refl))
          release)
        link

  missed-Waits : i ≢ j → Waits i j missed
  missed-Waits apart = record { waiting = ground arith; silent = refl; through = ground arith }

  -- Of any two PEs that each lock once, the second can be left waiting for ever: they reach a state
  -- in which the first has unlocked and, since it looked for a successor before the second had
  -- written its rank there, has told nobody, and after any further steps the second still waits.
  pub lost_handoff :
      i ≢ j
      → {t : System} → Steps false missed t
      → Reach false missed × (t.pc i ≡ released) × (t.pc j ≡ probing i)
  lost_handoff apart steps =
      let w = Steps-Waits (missed-Waits apart) steps in (missed-Reach apart, w.through, w.waiting)

-- The tail is never reset.
Step-tail :
    {reuse : Bool} {i : ℕ} {m m' : Windows} {p p' : Pc}
    → Move reuse i m p m' p'
    → m.tail ≢ none
    → m'.tail ≢ none
Step-tail (swap_free e) h = λ q. cc
Step-tail mv h = ground arith

Steps-tail :
    {reuse : Bool} {s t : System} → Steps reuse s t → s.windows.tail ≢ none → t.windows.tail ≢ none
Steps-tail stay h = h
Steps-tail (more r (by i move)) h = Step-tail move (Steps-tail r h)

-- LOCK_DISP is -1 or 1, and never 0.
Move-lock :
    {reuse : Bool} {i : ℕ} {m m' : Windows} {p p' : Pc}
    → Move reuse i m p m' p'
    → (k : ℕ) → m.lock k ≢ pos 0
    → m'.lock k ≢ pos 0
Move-lock (swap_free e) k h = h
Move-lock mv k h = ground arith

Reach-lock : {reuse : Bool} {s : System} → Reach reuse s → (k : ℕ) → s.windows.lock k ≢ pos 0
Reach-lock begin k = λ e. cc
Reach-lock (next_step r (by i move)) k = Move-lock move k (Reach-lock r k)

Reach-Steps : {reuse : Bool} {s t : System} → Reach reuse s → Steps reuse s t → Reach reuse t
Reach-Steps r stay = r
Reach-Steps r (more st step) = next_step (Reach-Steps r st) step

check_fails :
    {reuse : Bool} {i : ℕ} {m : Windows} (prev : ℕ) {m' : Windows} {p : Pc}
    → m.lock prev ≢ pos 0
    → Move reuse i m (checking prev) m' p
    → (p ≡ idle) × (m' ≡ m)
check_fails prev h (try_fails e) = (refl, refl)
check_fails prev h (try_passes e) = absurd (h e)

-- Once any PE has come to the lock, the tail is set for ever, and from then on oshmpi_trylock can
-- only fail, also when nobody holds the lock: its test of LOCK_DISP takes both -1 and 1 for held.
pub trylock_fails :
    {reuse : Bool} {s t : System}
    → Reach reuse s
    → s.windows.tail ≢ none
    → Steps reuse s t
    → (i prev : ℕ) {m : Windows} {p : Pc} → Move reuse i t.windows (checking prev) m p
    → (t.windows.tail ≢ none) × (p ≡ idle) × (m ≡ t.windows)
trylock_fails r set steps i prev mv =
    let (fails, same) = check_fails prev (Reach-lock (Reach-Steps r steps) prev) mv in
    (Steps-tail steps set, fails, same)
