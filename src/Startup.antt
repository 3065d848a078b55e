-- ===== src/Startup.antt =====
-- oshmpi_initialize and oshmpi_finalize of src/shmem-internals.c: what they acquire and release, in
-- order, and the flags that guard them. An allocation that fails is left out: the library's error
-- handler ends the process, and so does the assert behind each malloc.
pub mod Heap
pub mod Ledger
pub mod Balance
pub mod RoundTrip
pub mod Setup
pub mod Refusals
pub mod Calls
pub mod Cached
use oshmpi.Prelude.{
  ℕ, suc, Bool, true, false, not, ◌&&◌, Option, none, some, List, [], ◌∷◌, ◌++◌, ltb, ◌==◌,
  if◌then◌else◌,
}
use oshmpi.Prelude.Int.{ℤ, pos}
use oshmpi.Mpi.{Win, sheap_win, etext_win, lock_win, appnum_win}
use oshmpi.Contiguous.{int_max}
use oshmpi.Comm.{CacheEntry}

-- What is held between a call that makes it and one that gives it back: handles of MPI, windows and
-- the epochs of MPI_Win_lock_all on them, and blocks of malloc.
pub data Resource : Type 0 where
  comm_world comm_node comm_temp group_world group_node : Resource
  info_sheap info_etext info_lock : Resource
  window epoch : Win → Resource
  rank_list temp_rank_list sheap_ptrs cache_array : Resource
  -- of the n-th entry of the cache
  cached_comm cached_group : ℕ → Resource

-- `uses` is a call on something that has to be held.
pub data Event : Type 0 where
  acquire release uses : Resource → Event

-- The options of the build.
pub record Build : Type 0 where
  pub smp_optimizations : Bool
  pub comm_caching : Bool
  pub mpmd_support : Bool

-- What the calls of initialization find out: the thread level provided, this PE's MPI_APPNUM, the
-- lowest and highest of all PEs, whether all PEs share a node, whether the size of the heap is left
-- to be found by default, and the size of the static data.
pub record Found : Type 0 where
  pub provided : ℕ
  pub appnum : Option ℕ
  pub any_appnum : Bool
  pub appmin : ℕ
  pub appmax : ℕ
  pub is_smp : Bool
  pub default_heap : Bool
  -- The size of the static data.
  pub long_etext_size : ℕ

-- The flags of a process. `running_mpmd` and `world_is_smp` are set by initialization.
pub record Phase : Type 0 where
  pub mpi_initialized : Bool
  pub mpi_finalized : Bool
  pub shmem_is_initialized : Bool
  pub shmem_is_finalized : Bool
  pub running_mpmd : Bool
  pub world_is_smp : Bool

pub data StartOutcome : Type 0 where
  started : Phase → List Event → StartOutcome
  start_aborted : (code : ℕ) → StartOutcome
  start_assert_failed : StartOutcome
  -- MPI_Query_thread behind MPI_Finalize, which MPI does not allow.
  mpi_misused : StartOutcome

abbrev pub when : Bool → List Event → List Event
when c events = if c then events else []

-- oshmpi_allock and oshmpi_deallock
unfoldable pub allock_events : List Event
allock_events =
    acquire info_lock
    ∷ uses comm_world
    ∷ acquire (window lock_win)
    ∷ acquire (epoch lock_win)
    ∷ release info_lock
    ∷ []

unfoldable pub deallock_events : List Event
deallock_events = release (epoch lock_win) ∷ release (window lock_win) ∷ []

-- The MPMD check under ENABLE_MPMD_SUPPORT: whether the PEs run different programs.
abbrev pub runs_mpmd : Build → Found → Bool
runs_mpmd b f = b.mpmd_support && f.any_appnum && not (f.appmin == f.appmax)

unfoldable pub mpmd_events : (running_mpmd : Bool) → List Event
mpmd_events running_mpmd = when running_mpmd (
    uses comm_world
    ∷ acquire (window appnum_win)
    ∷ acquire (epoch appnum_win)
    ∷ uses (epoch appnum_win)
    ∷ [])

-- The size of the heap is sent to all; by default the PEs of the node are counted first.
unfoldable pub heap_events : (default_heap : Bool) → List Event
heap_events default_heap =
    uses comm_world
    ∷ when default_heap
        (acquire comm_temp ∷ uses comm_temp ∷ release comm_temp ∷ uses comm_world ∷ [])

unfoldable pub window_events : (smp_optimizations is_smp : Bool) → List Event
window_events smp_optimizations is_smp =
    acquire info_sheap
    ∷ acquire info_etext
    ∷ (when smp_optimizations (
          acquire comm_node
          ∷ acquire group_node
          ∷ uses comm_world
          ∷ uses comm_node
          ∷ acquire rank_list
          ∷ acquire temp_rank_list
          ∷ uses group_node
          ∷ uses group_world
          ∷ release temp_rank_list
          ∷ [])
        ++ uses info_sheap
          ∷ uses comm_world
          ∷ acquire (window sheap_win)
          ∷ (when (smp_optimizations && is_smp) (acquire sheap_ptrs ∷ uses (window sheap_win) ∷ [])
              ++ acquire (epoch sheap_win)
                ∷ uses info_etext
                ∷ uses comm_world
                ∷ acquire (window etext_win)
                ∷ acquire (epoch etext_win)
                ∷ release info_etext
                ∷ release info_sheap
                ∷ []))

-- The body under `if (!shmem_is_initialized)`.
unfoldable pub start_events :
    (smp_optimizations comm_caching running_mpmd is_smp default_heap : Bool) → List Event
start_events smp_optimizations comm_caching running_mpmd is_smp default_heap =
    acquire comm_world
    ∷ acquire group_world
    ∷ (mpmd_events running_mpmd
        ++ (heap_events default_heap
            ++ (window_events smp_optimizations is_smp
                ++ (allock_events
                    ++ (when comm_caching (acquire cache_array ∷ []) ++ uses comm_world ∷ [])))))

-- The two checks that abort: `threading<provided`, and an MPI_APPNUM other than 0 in a build without
-- MPMD support. In a process that has finalized MPI, MPI_Initialized still holds.
unfoldable pub oshmpi_initialize : Build → Found → (threading : ℕ) → Phase → StartOutcome
oshmpi_initialize b f threading p =
    if p.mpi_finalized
    then mpi_misused
    else if ltb threading f.provided
    then start_aborted f.provided
    else if p.shmem_is_initialized
    then started (record p { mpi_initialized = true }) []
    else let comes_up : StartOutcome =
        started
          (record p {
            mpi_initialized = true;
            shmem_is_initialized = true;
            running_mpmd = runs_mpmd b f;
            world_is_smp = b.smp_optimizations && f.is_smp;
          })
          (start_events b.smp_optimizations b.comm_caching (runs_mpmd b f) f.is_smp
            f.default_heap) in
      let go : StartOutcome =
        if ltb f.long_etext_size int_max then comes_up else start_assert_failed in
      if b.mpmd_support
      then go
      else (elim (f.appnum) [ none ↦ go | some n ↦ if n == 0 then go else start_aborted n ])

-- The loop over the cache: the communicator and the group of each entry that has a communicator.
unfoldable pub free_cached : (i : ℕ) → List CacheEntry → List Event
free_cached i [] = []
free_cached i (e ∷ rest) =
    (elim (e.comm) [ none ↦ [] | some _ ↦ release (cached_comm i) ∷ release (cached_group i) ∷ [] ])
    ++ free_cached (suc i) rest

unfoldable pub after_cache : (smp_optimizations running_mpmd world_is_smp : Bool) → List Event
after_cache smp_optimizations running_mpmd world_is_smp =
    uses comm_world
    ∷ (when running_mpmd (release (epoch appnum_win) ∷ release (window appnum_win) ∷ [])
        ++ release (epoch etext_win)
          ∷ release (window etext_win)
          ∷ release (epoch sheap_win)
          ∷ release (window sheap_win)
          ∷ (when smp_optimizations (
                when world_is_smp (release sheap_ptrs ∷ [])
                ++ release rank_list ∷ release group_node ∷ release comm_node ∷ [])
              ++ release group_world ∷ release comm_world ∷ []))

-- The body under `if (shmem_is_initialized && !shmem_is_finalized)`.
unfoldable pub stop_events :
    (smp_optimizations comm_caching running_mpmd world_is_smp : Bool) → List CacheEntry → List Event
stop_events smp_optimizations comm_caching running_mpmd world_is_smp cache =
    deallock_events
    ++ ((if comm_caching then free_cached 0 cache ++ release cache_array ∷ [] else [])
        ++ after_cache smp_optimizations running_mpmd world_is_smp)

-- The new flags, and what is released.
unfoldable pub oshmpi_finalize : Build → List CacheEntry → Phase → Phase × List Event
oshmpi_finalize b cache p =
    if p.mpi_finalized
    then (p, [])
    else if p.shmem_is_initialized && not p.shmem_is_finalized
    then (
      record p { shmem_is_finalized = true; mpi_finalized = true },
      stop_events b.smp_optimizations b.comm_caching (b.mpmd_support && p.running_mpmd)
          p.world_is_smp cache,
    )
    else (record p { mpi_finalized = true }, [])
