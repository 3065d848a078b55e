-- ===== src/Coll.antt =====
-- oshmpi_coll of src/shmem-internals.c: the collective calls, on the communicator of their PEs.
pub mod Layout
pub mod Calls
pub mod Effect
use oshmpi.Prelude.{
  ℕ, zero, suc, ◌+◌, ◌%◌, ◌^◌, Bool, true, false, Option, none, some, List, [], ◌∷◌, ◌++◌, ltb,
  ◌==◌, if◌then◌else◌,
}
use oshmpi.Prelude.Int.{ℤ, pos, eqb_ℤ}
use oshmpi.Mpi.{Basic, Datatype, basic, Op, Action, type_commit, type_free}
use oshmpi.Contiguous.{int_max}
use oshmpi.Globals.{Globals}
use oshmpi.Comm.{Comm, Comms, Acquired, acquire_comm, release_comm}
use oshmpi.Rma.{Counted, counted, release_type}

-- enum shmem_coll_type_e; any other value is refused.
pub data CollType : Type 0 where
  shmem_barrier shmem_broadcast shmem_allreduce shmem_fcollect shmem_collect : CollType
  other : ℤ → CollType

-- The MPI calls of the collectives. An address is one of this PE; MPI_IN_PLACE is a flag.
pub data Collective : Type 0 where
  mpi_barrier : Option Comm → Collective
  mpi_bcast : (buffer count : ℕ) → Datatype → (root : ℤ) → Option Comm → Collective
  mpi_allgather : (source count : ℕ) → Datatype → (target : ℕ) → Option Comm → Collective
  -- MPI_Allgather of one C int, this PE's count of items.
  mpi_allgather_counts : (count : ℕ) → Option Comm → Collective
  mpi_allgatherv :
      (source count : ℕ)
      → Datatype
      → (target : ℕ) → (rcounts rdispls : List ℕ) → Option Comm
      → Collective
  mpi_allreduce :
      (in_place : Bool) → (source target count : ℕ) → Datatype → Op → Option Comm → Collective

-- The loop over `rdispls`: each is the one before plus the count before, as C ints.
unfoldable pub displacements_from : ℕ → List ℕ → List ℕ
displacements_from d [] = []
displacements_from d (c ∷ rest) = d ∷ displacements_from ((d + c) % 2 ^ 32) rest

-- `rdispls[0] = 0`
unfoldable pub displacements : List ℕ → List ℕ
unfolding displacements_from
displacements rcounts = displacements_from 0 rcounts

-- The types made and freed around the calls, the call that gathers the counts if there is one, the
-- call that moves the items, and the communicators behind them. A collective that is refused aborts.
pub data CollOutcome : Type 0 where
  called :
      (made : List Action)
      → (first : Option Collective) → Collective
      → (freed : List Action) → Comms
      → CollOutcome
  coll_aborted : (code : ℤ) → CollOutcome

-- `rcounts` is what MPI_Allgather of the counts returns, which depends on the counts of all PEs.
module _ (translate_ranks : List ℕ → ℤ → ℤ) (extent : Datatype → ℕ) (g : Globals) (s : Comms) where
  -- The MPI_Allgather of the counts, which only SHMEM_COLLECT makes.
  unfoldable pub counts_call : CollType → Counted → Acquired → Option Collective
  counts_call shmem_collect c a = some (mpi_allgather_counts c.count a.comm)
  counts_call coll c a = none

  -- The `switch`, with the call that moves the items; `none` is its default.
  unfoldable pub coll_call :
      CollType
      → Counted
      → Op
      → (target source : ℕ) → ℤ
      → (rcounts : List ℕ) → Acquired
      → Option Collective
  coll_call shmem_barrier c reduce_op target source pe_root rcounts a = some (mpi_barrier a.comm)
  coll_call shmem_broadcast c reduce_op target source pe_root rcounts a = some (
      mpi_bcast (if eqb_ℤ (pos g.shmem_world_rank) pe_root then source else target) c.count
        c.tmp_type a.broot a.comm)
  coll_call shmem_fcollect c reduce_op target source pe_root rcounts a =
      some (mpi_allgather source c.count c.tmp_type target a.comm)
  coll_call shmem_collect c reduce_op target source pe_root rcounts a =
      some (mpi_allgatherv source c.count c.tmp_type target rcounts (displacements rcounts) a.comm)
  coll_call shmem_allreduce c reduce_op target source pe_root rcounts a =
      some (mpi_allreduce (source == target) source target c.count c.tmp_type reduce_op a.comm)
  coll_call (other n) c reduce_op target source pe_root rcounts a = none

  -- The value of the enumerator, which is the code of the abort.
  abbrev pub coll_code : CollType → ℤ
  coll_code shmem_barrier = pos 0
  coll_code shmem_broadcast = pos 1
  coll_code shmem_allreduce = pos 2
  coll_code shmem_fcollect = pos 4
  coll_code shmem_collect = pos 8
  coll_code (other n) = n

  unfoldable pub oshmpi_coll :
      CollType
      → Basic
      → Op
      → (target source len : ℕ) → ℤ
      → (pe_start pe_logs pe_size : ℕ) → (rcounts : List ℕ) → CollOutcome
  oshmpi_coll coll mpi_type reduce_op target source len pe_root pe_start pe_logs pe_size rcounts =
      let a = acquire_comm translate_ranks g s pe_start pe_logs pe_size pe_root in
      let c = counted extent len (basic mpi_type) in
      elim (coll_call coll c reduce_op target source pe_root rcounts a) [
        | none ↦ coll_aborted (coll_code coll)
        | some call ↦
            called c.made (counts_call coll c a) call (release_type len c.tmp_type)
              (release_comm g a.comms pe_start pe_logs pe_size a.comm)
      ]
