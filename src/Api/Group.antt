-- ===== src/Api/Group.antt =====
-- The collectives of src/shmem.c, and oshmpi_set_psync of src/shmem-internals.h. The source passes
-- the count to each and its own constants for the type, the operator and the root.
use oshmpi.Prelude.{ℕ, zero, suc, some, List, [], ◌∷◌, ◌++◌}
use oshmpi.Prelude.Int.{ℤ, pos, negsuc}
use oshmpi.Mpi.{
  Basic, Datatype, mpi_short, mpi_int, mpi_long, mpi_long_long, mpi_float, mpi_double,
  mpi_long_double, mpi_int32_t, mpi_int64_t, mpi_datatype_null, Op, mpi_land, mpi_bor, mpi_bxor,
  mpi_min, mpi_max, mpi_sum, mpi_prod, mpi_op_null, Action,
}
use oshmpi.Globals.{Globals}
use oshmpi.Comm.{Comms, comm_world}
use oshmpi.Coll.{
  Collective, mpi_barrier, shmem_barrier, shmem_broadcast, shmem_allreduce, shmem_fcollect,
  shmem_collect, CollOutcome, oshmpi_coll,
}
use oshmpi.Sync.{oshmpi_remote_sync, oshmpi_local_sync}

-- The loop that sets the first `count` elements of the array pSync, which has that many.
unfoldable pub oshmpi_set_psync : (count : ℕ) → (value : ℤ) → List ℤ → List ℤ
oshmpi_set_psync zero value psync = psync
oshmpi_set_psync (suc count) value [] = []
oshmpi_set_psync (suc count) value (_ ∷ rest) = value ∷ oshmpi_set_psync count value rest

-- The suffixes of broadcast and collect.
pub data Width : Type 0 where
  w32 w64 : Width

unfoldable pub width_type : Width → Basic
width_type w32 = mpi_int32_t
width_type w64 = mpi_int64_t

-- The types of the bitwise reductions, and those of the others.
pub data Whole : Type 0 where
  short int long longlong : Whole

pub data Number : Type 0 where
  float double longdouble short int long longlong : Number

unfoldable pub whole_type : Whole → Basic
whole_type Whole.short = mpi_short
whole_type Whole.int = mpi_int
whole_type Whole.long = mpi_long
whole_type Whole.longlong = mpi_long_long

unfoldable pub number_type : Number → Basic
number_type Number.float = mpi_float
number_type Number.double = mpi_double
number_type Number.longdouble = mpi_long_double
number_type Number.short = mpi_short
number_type Number.int = mpi_int
number_type Number.long = mpi_long
number_type Number.longlong = mpi_long_long

-- A collective first does its synchronizing actions and sets pSync.
pub record Call : Type 0 where
  pub before : List Action
  pub psync : List ℤ
  pub outcome : CollOutcome

module _ (translate_ranks : List ℕ → ℤ → ℤ) (extent : Datatype → ℕ) (g : Globals) (s : Comms)
    (pe_start pe_logs pe_size : ℕ) (psync : List ℤ) where
  unfoldable pub barrier : Call
  barrier = record {
    before = oshmpi_remote_sync ++ oshmpi_local_sync g;
    psync = oshmpi_set_psync 1 (pos 0) psync;
    outcome =
        oshmpi_coll translate_ranks extent g s shmem_barrier mpi_datatype_null mpi_op_null 0 0 0
          (negsuc 0) pe_start pe_logs pe_size [];
  }

  -- shmem_broadcast32 and shmem_broadcast64
  unfoldable pub broadcast : Width → (target source nlong : ℕ) → (pe_root : ℤ) → Call
  broadcast w target source nlong pe_root = record {
    before = [];
    psync = oshmpi_set_psync 1 (pos 0) psync;
    outcome =
        oshmpi_coll translate_ranks extent g s shmem_broadcast (width_type w) mpi_op_null target
          source nlong pe_root pe_start pe_logs pe_size [];
  }

  -- shmem_collect32 and shmem_collect64; `rcounts` is what the PEs pass as `nlong`.
  unfoldable pub collect : Width → (target source nlong : ℕ) → (rcounts : List ℕ) → Call
  collect w target source nlong rcounts = record {
    before = [];
    psync = oshmpi_set_psync 2 (pos 0) psync;
    outcome =
        oshmpi_coll translate_ranks extent g s shmem_collect (width_type w) mpi_op_null target
          source nlong (negsuc 0) pe_start pe_logs pe_size rcounts;
  }

  unfoldable pub fcollect : Width → (target source nlong : ℕ) → Call
  fcollect w target source nlong = record {
    before = [];
    psync = oshmpi_set_psync 2 (pos 0) psync;
    outcome =
        oshmpi_coll translate_ranks extent g s shmem_fcollect (width_type w) mpi_op_null target
          source nlong (negsuc 0) pe_start pe_logs pe_size [];
  }

  -- The body that the reductions share.
  abbrev pub to_all : Basic → Op → (target source nreduce : ℕ) → Call
  to_all mpi_type op target source nreduce = record {
    before = [];
    psync = oshmpi_set_psync 1 (pos 0) psync;
    outcome =
        oshmpi_coll translate_ranks extent g s shmem_allreduce mpi_type op target source nreduce
          (negsuc 0) pe_start pe_logs pe_size [];
  }

  unfoldable pub and_to_all : Whole → (target source nreduce : ℕ) → Call
  and_to_all t target source nreduce = to_all (whole_type t) mpi_land target source nreduce

  unfoldable pub or_to_all : Whole → (target source nreduce : ℕ) → Call
  or_to_all t target source nreduce = to_all (whole_type t) mpi_bor target source nreduce

  unfoldable pub xor_to_all : Whole → (target source nreduce : ℕ) → Call
  xor_to_all t target source nreduce = to_all (whole_type t) mpi_bxor target source nreduce

  unfoldable pub min_to_all : Number → (target source nreduce : ℕ) → Call
  min_to_all t target source nreduce = to_all (number_type t) mpi_min target source nreduce

  unfoldable pub max_to_all : Number → (target source nreduce : ℕ) → Call
  max_to_all t target source nreduce = to_all (number_type t) mpi_max target source nreduce

  unfoldable pub sum_to_all : Number → (target source nreduce : ℕ) → Call
  sum_to_all t target source nreduce = to_all (number_type t) mpi_sum target source nreduce

  unfoldable pub prod_to_all : Number → (target source nreduce : ℕ) → Call
  prod_to_all t target source nreduce = to_all (number_type t) mpi_prod target source nreduce

-- shmem_barrier_all: MPI_Barrier on the communicator of the world.
unfoldable pub barrier_all : Globals → List Action × Collective
barrier_all g = (oshmpi_remote_sync ++ oshmpi_local_sync g, mpi_barrier (some comm_world))
