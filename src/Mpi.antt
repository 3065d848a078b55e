-- ===== src/Mpi.antt =====
-- The vocabulary of the calls that the code makes of the MPI library: datatype handles, windows,
-- operators, and the actions that a function performs, in order. MPI itself is third-party code:
-- its effect is the parameter `Mpi` of the child Library. A handle of a derived type is written as
-- the call that made it.
pub mod Memory
pub mod Library
pub mod Network
pub mod Fabric
use oshmpi.Prelude.{ℕ, zero, suc, ◌+◌, Bool, true, false, List, [], ◌∷◌}
use oshmpi.Prelude.Int.{ℤ}

-- The predefined datatypes that the code names.
pub data Basic : Type 0 where
  mpi_byte mpi_char mpi_short mpi_int mpi_long mpi_long_long : Basic
  mpi_float mpi_double mpi_long_double : Basic
  mpi_int32_t mpi_int64_t mpi_complex mpi_double_complex mpi_c_double_complex : Basic
  mpi_datatype_null : Basic

-- Counts and strides are C ints and displacements are MPI_Aint, so both are signed.
pub data Datatype : Type 0 where
  basic : Basic → Datatype
  type_contiguous : (count : ℤ) → Datatype → Datatype
  type_vector : (count blocklength stride : ℤ) → Datatype → Datatype
  -- Two blocks of length 1.
  type_struct : (disp₀ disp₁ : ℤ) → (type₀ type₁ : Datatype) → Datatype

-- `enum shmem_window_id_e` names the first two of these windows.
pub data Win : Type 0 where
  sheap_win etext_win lock_win appnum_win : Win

pub data Op : Type 0 where
  mpi_sum mpi_replace mpi_no_op mpi_min mpi_max mpi_prod : Op
  mpi_land mpi_bor mpi_bxor mpi_op_null : Op

-- What a function does to memory or asks of MPI. Addresses are those of the calling process.
pub data Action : Type 0 where
  memcpy : (to from size : ℕ) → Action
  -- __sync_lock_test_and_set, __sync_val_compare_and_swap and __sync_fetch_and_add at a pointer to
  -- a value of the type; the old value is stored at `output`.
  sync_swap : Basic → (output ptr input : ℕ) → Action
  sync_cswap : Basic → (output ptr input compare : ℕ) → Action
  sync_fetch_add : Basic → (output ptr input : ℕ) → Action
  sync_add : Basic → (ptr input : ℕ) → Action
  type_create type_commit type_free : Datatype → Action
  put get :
      (local count : ℕ) → Datatype → (pe : ℕ) → (disp : ℤ) → (count' : ℕ) → Datatype → Win → Action
  accumulate :
      (local count : ℕ)
      → Datatype
      → (pe : ℕ) → (disp : ℤ) → (count' : ℕ) → Datatype
      → Op
      → Win
      → Action
  get_accumulate :
      (local count : ℕ)
      → Datatype
      → (pe : ℕ) → (disp : ℤ) → (count' : ℕ) → Datatype
      → Op
      → Win
      → Action
  fetch_and_op : (input output : ℕ) → Basic → (pe : ℕ) → (disp : ℤ) → Op → Win → Action
  compare_and_swap : (input compare output : ℕ) → Basic → (pe : ℕ) → (disp : ℤ) → Win → Action
  win_flush win_flush_local : (pe : ℕ) → Win → Action
  win_flush_all win_sync : Win → Action
  sync_synchronize : Action

-- A run performs its actions and returns, or MPI_Abort ends the process with a code, or an assert
-- fails.
pub data Outcome : Type 0 where
  finished : List Action → Outcome
  aborted : (code : ℤ) → List Action → Outcome
  assert_failed : List Action → Outcome

-- Whether the function returns.
abbrev pub has_returned : Outcome → Bool
has_returned (finished _) = true
has_returned _ = false
