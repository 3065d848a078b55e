-- ===== src/Lock/Fifo.antt =====
-- What the lock of src/oshmpi-mcs-lock.c promises: an owner, and the PEs that wait, in the order in
-- which they came.
pub mod Line
pub mod Sim
pub mod Refines
use oshmpi.Prelude.{
  ℕ, ◌≡◌, ◌↔◌, Bool, true, false, not, ◌&&◌, Option, none, some, List, [], ◌∷◌, ◌++◌, if◌then◌else◌,
}
use oshmpi.Lock.{
  update, Windows, Pc, idle, linking, probing, entering, Move, start, System, critical,
}
use mathlib.Core.List.{Memᴰ}

pub record Fifo : Type 0 where
  pub owner : Option ℕ
  pub queue : List ℕ

abbrev pub nobody : Fifo
nobody = record { owner = none; queue = [] }

-- A PE swaps the tail.
abbrev pub comes : (from to : Pc) → Bool
comes idle (linking _) = true
comes idle entering = true
comes _ _ = false

-- A PE gets the lock.
abbrev pub gets : (from to : Pc) → Bool
gets from to = not (critical from) && critical to

abbrev pub noted : Bool → ℕ → List ℕ
noted b i = if b then i ∷ [] else []

-- A run of PEs that each lock at most once, with the PEs that have come and those that have got the lock,
-- in order.
pub data Logged : System → (came got : List ℕ) → Type 0 where
  begins : Logged start [] []
  moves :
      {s : System} {came got : List ℕ} {m : Windows} {to : Pc}
      → Logged s came got
      → (i : ℕ) → Move false i s.windows (s.pc i) m to
      → Logged
          (record { windows = m; pc = update s.pc i to })
          (came ++ noted (comes (s.pc i) to) i)
          (got ++ noted (gets (s.pc i) to) i)

-- A PE that has come and has not got the lock.
abbrev pub is_waiting : Pc → Bool
is_waiting (linking _) = true
is_waiting (probing _) = true
is_waiting _ = false

-- The PE in the critical part is the owner, and the PEs that wait are the queue.
pub record Matches (s : System) (a : Fifo) : Type 0 where
  pub owns : (i : ℕ) → (a.owner ≡ some i) ↔ (critical (s.pc i) ≡ true)
  pub waits : (i : ℕ) → Memᴰ i a.queue ↔ (is_waiting (s.pc i) ≡ true)
