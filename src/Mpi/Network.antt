-- ===== src/Mpi/Network.antt =====
-- MPI's one-sided operations on their way, as chapter 11 of the MPI-3 standard documents them: a write
-- that a process has started is pending until the library delivers it, at any later time. Pending
-- writes are delivered in any order, but accumulates to the same place are delivered in the order in
-- which they were started. A flush waits until no write to its PE and window is pending.
pub mod Runs
pub mod Apart
pub mod Order
pub mod Local
pub mod Single
pub mod Frame
pub mod Message
use oshmpi.Prelude.{
  ℕ, ◌+◌, ◌≡◌, ◌≢◌, ◌⊎◌, Bool, true, false, Option, none, some, List, [], ◌∷◌, ◌++◌, if◌then◌else◌,
}
use oshmpi.Prelude.Int.{pos}
use oshmpi.Mpi.{Win, mpi_sum, mpi_replace, Action, put, accumulate, win_flush, win_flush_all}
use oshmpi.Mpi.Memory.{Memory, gather, scatter, tile, Misses}
use oshmpi.Mpi.Library.{Mpi, run, add_bytes}

-- What a put or an accumulate asks for: the bytes of the caller at `places` from `origin` on replace
-- the bytes at `there` from `target` on, or with `adds` are added to them.
pub record Request : Type 0 where
  pub pe : ℕ
  pub win : Win
  -- An accumulate.
  pub ordered : Bool
  pub adds : Bool
  pub origin : ℕ
  pub places : List ℕ
  pub target : ℕ
  pub there : List ℕ

-- The code accumulates by MPI_REPLACE and MPI_SUM, and no displacement of it is negative.
unfoldable pub request_of : Mpi → Action → Option Request
request_of mpi (put a n t pe (pos d) n' t' w) = some record {
  pe = pe;
  win = w;
  ordered = false;
  adds = false;
  origin = a;
  places = tile n (mpi.extent t) (mpi.typemap t);
  target = mpi.base w pe + d;
  there = tile n' (mpi.extent t') (mpi.typemap t');
}
request_of mpi (accumulate a n t pe (pos d) n' t' mpi_replace w) = some record {
  pe = pe;
  win = w;
  ordered = true;
  adds = false;
  origin = a;
  places = tile n (mpi.extent t) (mpi.typemap t);
  target = mpi.base w pe + d;
  there = tile n' (mpi.extent t') (mpi.typemap t');
}
request_of mpi (accumulate a n t pe (pos d) n' t' mpi_sum w) = some record {
  pe = pe;
  win = w;
  ordered = true;
  adds = true;
  origin = a;
  places = tile n (mpi.extent t) (mpi.typemap t);
  target = mpi.base w pe + d;
  there = tile n' (mpi.extent t') (mpi.typemap t');
}
request_of mpi _ = none

-- What a list of actions asks for, in order.
unfoldable pub requests : Mpi → List Action → List Request
requests mpi [] = []
requests mpi (a ∷ rest) = elim (request_of mpi a) [
  | none ↦ requests mpi rest
  | some r ↦ r ∷ requests mpi rest
]

-- The bytes are read when the write is started: each function of the library completes it at the
-- origin before it returns.
pub record Write : Type 0 where
  pub request : Request
  pub bytes : List ℕ

abbrev pub started : Request → Memory → Write
started r m = record { request = r; bytes = gather m r.origin r.places }

unfoldable pub deliver : Write → Memory → Memory
deliver u m =
    let r = u.request in
    scatter m r.target r.there
      (if r.adds then add_bytes 0 (gather m r.target r.there) u.bytes else u.bytes)

-- The writes of a list, delivered in order.
abbrev pub deliver_all : List Write → Memory → Memory
deliver_all [] m = m
deliver_all (u ∷ us) m = deliver_all us (deliver u m)

-- No byte is a target of both.
abbrev pub AreApart : Request → Request → Type 0
AreApart r s = (b : ℕ) → Misses r.target b r.there ⊎ Misses s.target b s.there

-- Whether `r` may be delivered before `s`, which was started earlier.
abbrev pub Passes : Request → Request → Type 0
Passes r s = (r.ordered ≡ false) ⊎ (s.ordered ≡ false) ⊎ AreApart s r

pub record Net : Type 0 where
  pub memory : Memory
  pub pending : List Write

abbrev pub All {ℓ κ} : {A : Type ℓ} → (A → Type κ) → List A → Type κ
All P [] = Unit
All P (x ∷ xs) = P x × All P xs

-- What an action waits for.
abbrev pub Completed : Action → List Write → Type 0
Completed (win_flush pe w) pending = All (λ u. (u.request.pe ≢ pe) ⊎ (u.request.win ≢ w)) pending
Completed (win_flush_all w) pending = All (λ u. u.request.win ≢ w) pending
Completed _ pending = Unit {0}

-- The calling process performs an action.
pub data Perform (mpi : Mpi) (a : Action) (n : Net) : Net → Type 0 where
  starts :
      {r : Request}
      → request_of mpi a ≡ some r
      → Perform mpi a n (record n { pending = n.pending ++ started r n.memory ∷ [] })
  acts :
      request_of mpi a ≡ none
      → Completed a n.pending
      → Perform mpi a n (record n { memory = run mpi (a ∷ []) n.memory })

-- The library delivers one of the pending writes.
pub data Deliver (n : Net) : Net → Type 0 where
  delivers :
      (earlier : List Write) (u : Write) (later : List Write)
      → n.pending ≡ earlier ++ u ∷ later
      → All (λ s. Passes u.request s.request) earlier
      → Deliver n (record { memory = deliver u n.memory; pending = earlier ++ later })

-- From a list of actions to do and a state to those that the process and the library reach.
pub data Steps (mpi : Mpi) : List Action → Net → List Action → Net → Type 0 where
  here : {p : List Action} {n : Net} → Steps mpi p n p n
  performs :
      {a : Action} {rest p : List Action} {n n' n'' : Net}
      → Perform mpi a n n'
      → Steps mpi rest n' p n''
      → Steps mpi (a ∷ rest) n p n''
  arrives :
      {q p : List Action} {n n' n'' : Net}
      → Deliver n n'
      → Steps mpi q n' p n''
      → Steps mpi q n p n''
