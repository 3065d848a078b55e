-- ===== src/Lock.antt =====
-- The lock of src/oshmpi-mcs-lock.c: a queue in the manner of MCS, in a window of four ints at
-- each PE. Each access to a window, each message and each probe is a step of its own, and the PEs'
-- steps interleave in any order. The value -1 of a rank is `none`.
pub mod Order
pub mod Knowledge
pub mod Moves
pub mod Exclusion
pub mod Pair
pub mod Reuse
pub mod Stuck
pub mod Served
pub mod Fifo
use oshmpi.Prelude.{
  ℕ, ◌+◌, ◌<◌, ◌≡◌, ◌≢◌, Bool, true, false, Option, none, some, ◌==◌, if◌then◌else◌,
}
use oshmpi.Prelude.Int.{ℤ, pos, negsuc}
pub use oshmpi.Prelude.{update}

-- The windows of all PEs, and the messages sent. Only the TAIL_DISP of PE 0 is used, and PREV_DISP
-- is not.
pub record Windows : Type 0 where
  -- TAIL_DISP of PE 0
  pub tail : Option ℕ
  -- NEXT_DISP
  pub next : ℕ → Option ℕ
  -- LOCK_DISP
  pub lock : ℕ → ℤ
  -- How many messages the first PE has sent to the second; none is ever received.
  pub sent : ℕ → ℕ → ℕ

-- oshmpi_allock
abbrev pub allock : Windows
allock = record { tail = none; next = λ _. none; lock = λ _. negsuc 0; sent = λ _ _. 0 }

-- Where a PE stands in oshmpi_lock, oshmpi_unlock or oshmpi_trylock, with the local that is live.
pub data Pc : Type 0 where
  -- in no call, and not holding the lock
  idle : Pc
  -- oshmpi_lock, behind the fetch of the tail, before the write of the next of `prev`
  linking : (prev : ℕ) → Pc
  -- before MPI_Probe returns
  probing : (prev : ℕ) → Pc
  -- before LOCK_DISP is set, in oshmpi_lock and in oshmpi_trylock
  entering : Pc
  -- the caller holds the lock
  holding : Pc
  -- oshmpi_unlock, before MPI_Send
  notifying : (next : ℕ) → Pc
  -- before LOCK_DISP is reset
  releasing : Pc
  -- oshmpi_unlock has returned
  released : Pc
  -- oshmpi_trylock, before the read of LOCK_DISP of `prev`
  checking : (prev : ℕ) → Pc
  -- before the second write of the tail
  replacing : Pc

-- One step of PE `i`. With `reuse` a PE may call again after it has released the lock, and may call
-- oshmpi_trylock; without, each PE calls oshmpi_lock at most once.
pub data Move (reuse : Bool) (i : ℕ) (m : Windows) : Pc → Windows → Pc → Type 0 where
  swap_free : m.tail ≡ none → Move reuse i m idle (record m { tail = some i }) entering
  swap_behind :
      {prev : ℕ}
      → m.tail ≡ some prev
      → Move reuse i m idle (record m { tail = some i }) (linking prev)
  link :
      {prev : ℕ}
      → Move reuse i m
          (linking prev)
          (record m { next = update m.next prev (some i) })
          (probing prev)
  probe : {prev : ℕ} → 0 < m.sent prev i → Move reuse i m (probing prev) m entering
  enter : Move reuse i m entering (record m { lock = update m.lock i (pos 1) }) holding
  read_none : m.next i ≡ none → Move reuse i m holding m releasing
  read_some : {next : ℕ} → m.next i ≡ some next → Move reuse i m holding m (notifying next)
  notify :
      {next : ℕ}
      → Move reuse i m
          (notifying next)
          (record m { sent = update m.sent i (update (m.sent i) next (m.sent i next + 1)) })
          releasing
  release : Move reuse i m releasing (record m { lock = update m.lock i (negsuc 0) }) released
  again : reuse ≡ true → Move reuse i m released m idle
  -- MPI_Compare_and_swap of -1 with the rank
  try_free :
      reuse ≡ true → m.tail ≡ none → Move reuse i m idle (record m { tail = some i }) replacing
  try_busy : {prev : ℕ} → reuse ≡ true → m.tail ≡ some prev → Move reuse i m idle m (checking prev)
  -- `if (is_locked) return 0;`
  try_fails : {prev : ℕ} → m.lock prev ≢ pos 0 → Move reuse i m (checking prev) m idle
  try_passes : {prev : ℕ} → m.lock prev ≡ pos 0 → Move reuse i m (checking prev) m replacing
  try_takes : Move reuse i m replacing (record m { tail = some i }) entering

pub record System : Type 0 where
  pub windows : Windows
  pub pc : ℕ → Pc

abbrev pub start : System
start = record { windows = allock; pc = λ _. idle }

pub data Step (reuse : Bool) (s : System) : System → Type 0 where
  by :
      (i : ℕ) {m : Windows} {p : Pc}
      → Move reuse i s.windows (s.pc i) m p
      → Step reuse s (record { windows = m; pc = update s.pc i p })

pub data Reach (reuse : Bool) : System → Type 0 where
  begin : Reach reuse start
  next_step : {s t : System} → Reach reuse s → Step reuse s t → Reach reuse t

-- From the point where a PE may hold the lock until it passes the lock on.
abbrev pub critical : Pc → Bool
critical entering = true
critical holding = true
critical (notifying _) = true
critical _ = false
