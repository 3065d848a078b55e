-- ===== src/Mpi/Fabric.antt =====
-- The processes of a job and their one-sided operations: each takes the steps of Mpi/Network, with its
-- own pending writes, on the memory of all, and their steps interleave in any order.
pub mod Alone
pub mod Project
pub mod Shadow
use oshmpi.Prelude.{ℕ, ◌<◌, ◌≡◌, List, [], update}
use oshmpi.Mpi.{Action}
use oshmpi.Mpi.Memory.{Memory}
use oshmpi.Mpi.Library.{Mpi}
use oshmpi.Mpi.Network.{Write, Net, Steps}

pub record Fabric : Type 0 where
  pub memory : Memory
  -- What each process has still to do.
  pub todo : ℕ → List Action
  pub pending : ℕ → List Write

abbrev pub seen_by : Fabric → ℕ → Net
seen_by s i = record { memory = s.memory; pending = s.pending i }

-- No process has done anything.
abbrev pub begin : (ℕ → List Action) → Memory → Fabric
begin programs m = record { memory = m; todo = programs; pending = λ i. [] }

-- One of the `size` processes, and the library for it, take some steps.
pub data Turn (mpi : Mpi) (size : ℕ) (s : Fabric) : Fabric → Type 0 where
  turn :
      (i : ℕ) {q : List Action} {n : Net}
      → i < size
      → Steps mpi (s.todo i) (seen_by s i) q n
      → Turn mpi size s (record {
        memory = n.memory;
        todo = update s.todo i q;
        pending = update s.pending i n.pending;
      })

pub data Turns (mpi : Mpi) (size : ℕ) (s : Fabric) : Fabric → Type 0 where
  start : Turns mpi size s s
  then_turn : {t u : Fabric} → Turns mpi size s t → Turn mpi size t u → Turns mpi size s u

abbrev pub AllDone : ℕ → Fabric → Type 0
AllDone size s = (i : ℕ) → i < size → s.todo i ≡ []
