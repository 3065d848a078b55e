-- ===== src/Lock/Pair.antt =====
-- Schedules of two PEs at the lock of src/oshmpi-mcs-lock.c, step by step, for any two ranks.
use mathlib.Core.Path.{subst, fun_ext}
use oshmpi.Prelude.{ℕ, ◌≡◌, ◌≢◌, sym, Bool, arith}
use oshmpi.Lock.{update, Windows, allock, Pc, idle, Move, System, by, Reach, begin, next_step}

-- PEs `i` and `j` stand at `p` and `q`, the others are idle.
abbrev pub pair : (i j : ℕ) → Windows → (p q : Pc) → System
pair i j w p q = record { windows = w; pc = update (update (λ _. idle) j q) i p }

-- A step of a PE whose position is known.
pub move_at :
    {reuse : Bool} {s : System} (k : ℕ) {p p' : Pc} {w : Windows}
    → Reach reuse s
    → s.pc k ≡ p
    → Move reuse k s.windows p w p'
    → Reach reuse (record { windows = w; pc = update s.pc k p' })
move_at {reuse} {s} k {p' = p'} {w = w} r at mv =
    next_step r (by k (subst (λ q. Move reuse k s.windows q w p') (sym at) mv))

module _ {reuse : Bool} (i j : ℕ) (apart : i ≢ j) where
  pub both_idle : Reach reuse (pair i j allock idle idle)
  both_idle =
      subst (λ f. Reach reuse (record { windows = allock; pc = f })) (fun_ext (λ k. ground arith))
        begin

  module _ {w w' : Windows} (p q : Pc) where
    pub first :
        {p' : Pc}
        → Reach reuse (pair i j w p q)
        → Move reuse i w p w' p'
        → Reach reuse (pair i j w' p' q)
    first {p'} r mv =
        subst (λ f. Reach reuse (record { windows = w'; pc = f })) (fun_ext (λ k. ground arith))
          (move_at i r (ground arith) mv)

    pub second :
        {q' : Pc}
        → Reach reuse (pair i j w p q)
        → Move reuse j w q w' q'
        → Reach reuse (pair i j w' p q')
    second {q'} r mv =
        subst (λ f. Reach reuse (record { windows = w'; pc = f })) (fun_ext (λ k. ground arith))
          (move_at j r (ground arith) mv)
