-- ===== src/Tests/Process.antt =====
-- Start and stop of a process, and the size of its heap.
use oshmpi.Prelude.{
  inl, inr, ◌*◌, ◌^◌, ◌<◌, ◌≡◌, inl, refl, true, false, some, none, List, [], ◌∷◌, ◌++◌, arith,
}
use oshmpi.Prelude.Int.{pos}
use oshmpi.Comm.{initial_comms}
use oshmpi.Startup.{
  Resource, Build, Found, Phase, started, start_events, stop_events, oshmpi_initialize,
  oshmpi_finalize,
}
use oshmpi.Startup.Ledger.{ledger, cached_held}
use oshmpi.Startup.Balance.{lifecycle_balanced}
use oshmpi.Comm.Bound.{Request, serve_all}
use oshmpi.Startup.Cached.{freed_comms, finalize_frees_open}
use oshmpi.Startup.Refusals.{IsSingleProgram, phase_up}
use oshmpi.Startup.Calls.{
  start_pes, shmem_init, shmem_finalize, process_run, phase_down, fresh_phase, calls_once,
}
use oshmpi.Tests.Setting.{node, position}
use oshmpi.Startup.Heap.{env_size, env_size-digits, decimal, Has, mega}

abbrev pub build : Build
build = record { smp_optimizations = true; comm_caching = true; mpmd_support = false }

abbrev pub answers : Found
answers = record {
  provided = 0;
  appnum = none;
  any_appnum = false;
  appmin = 0;
  appmax = 0;
  is_smp = true;
  default_heap = true;
  long_etext_size = 0x1000;
}

abbrev pub fresh : Phase
fresh = record {
  mpi_initialized = false;
  mpi_finalized = false;
  shmem_is_initialized = false;
  shmem_is_finalized = false;
  running_mpmd = false;
  world_is_smp = false;
}

abbrev pub running : Phase
running = record fresh { mpi_initialized = true; shmem_is_initialized = true; world_is_smp = true }

starts :
    oshmpi_initialize build answers 0 fresh
    ≡ started running (start_events true true false true true)
unfolding oshmpi_initialize
starts = refl

lifecycle_balanced_example :
    (held : List Resource) × (ledger (start_events true true false true true) [] ≡ some held)
    × (ledger
          (oshmpi_finalize build initial_comms.comm_cache running).1
          (cached_held 0 initial_comms.comm_cache ++ held)
        ≡ some [])
    × (oshmpi_finalize build initial_comms.comm_cache
          (oshmpi_finalize build initial_comms.comm_cache running).0
        ≡ ((oshmpi_finalize build initial_comms.comm_cache running).0, []))
lifecycle_balanced_example =
    lifecycle_balanced build answers 0 fresh running (start_events true true false true true)
      initial_comms.comm_cache refl refl refl starts (inl refl)

single_program : build.mpmd_support ≡ false → IsSingleProgram answers
single_program plain n e = cc

-- A process that initializes twice and finalizes twice before its exit.
calls_once_example :
    process_run build answers []
      (start_pes ∷ shmem_init ∷ shmem_finalize ∷ shmem_finalize ∷ [])
      fresh_phase
    ≡ some (
      phase_down (phase_up build answers fresh_phase),
      start_events true true false true true ++ stop_events true true false true [],
    )
calls_once_example =
    calls_once build answers [] refl (omega arith) single_program start_pes (inl refl)
      (shmem_init ∷ shmem_finalize ∷ shmem_finalize ∷ []) (refl, tt)

abbrev requests : List Request
requests = record { pe_start = 0; pe_logs = 1; pe_size = 2; pe_root = pos 2 } ∷ []

finalize_frees_open_example :
    freed_comms
      (oshmpi_finalize build (serve_all position node initial_comms requests).comm_cache running).1
    ≡ (serve_all position node initial_comms requests).open_comms
finalize_frees_open_example =
    finalize_frees_open position node build running requests refl refl refl refl

megabytes : 1000000 * decimal 0 (49 ∷ 50 ∷ 56 ∷ []) < 2 ^ 63
unfolding decimal
megabytes = omega arith

no_g : ¬ Has 71 (77 ∷ 66 ∷ [])
no_g h = elim h [
  | inl e ↦ omega (arith, e)
  | inr later ↦ elim later [ inl e ↦ omega (arith, e) | inr none_left ↦ none_left ]
]

-- "128MB"
env_size-digits_example : env_size (49 ∷ 50 ∷ 56 ∷ 77 ∷ 66 ∷ []) ≡ pos 128000000
unfolding decimal
env_size-digits_example =
    env_size-digits (49 ∷ 50 ∷ 56 ∷ []) (77 ∷ 66 ∷ []) 1000000 (refl, (refl, (refl, tt))) refl
      (mega no_g (inl refl)) megabytes
