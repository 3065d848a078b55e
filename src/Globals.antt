-- ===== src/Globals.antt =====
-- The global state of a PE, from src/shmem-internals.h: what initialization sets and the other
-- functions read. The build options that guard code by #ifdef are fields as well, so both variants
-- are modelled. An address is a number, below 2^63 so that its value as an intptr_t is the same.
use oshmpi.Prelude.{ℕ, Bool}

pub record Globals : Type 0 where
  -- ENABLE_SMP_OPTIMIZATIONS, ENABLE_RMA_ORDERING, ENABLE_COMM_CACHING, ENABLE_MPMD_SUPPORT
  pub smp_optimizations : Bool
  pub rma_ordering : Bool
  pub comm_caching : Bool
  pub mpmd_support : Bool
  pub shmem_world_size : ℕ
  pub shmem_world_rank : ℕ
  pub shmem_world_is_smp : Bool
  -- an array over the ranks
  pub shmem_smp_sheap_ptrs : ℕ → ℕ
  pub shmem_sheap_base_ptr : ℕ
  pub shmem_sheap_size : ℕ
  pub shmem_etext_base_ptr : ℕ
  pub shmem_etext_size : ℕ
  pub shmem_running_mpmd : Bool
  pub shmem_mpmd_my_appnum : ℕ
