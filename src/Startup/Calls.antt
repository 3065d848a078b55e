-- ===== src/Startup/Calls.antt =====
-- start_pes, shmem_init, shmem_finalize and shmem_global_exit of src/shmem.c: what a process calls from
-- its start to its exit, where the handlers that `atexit` was given run. A finalization frees what the
-- cache holds when it takes place.
use oshmpi.Prelude.{
  ℕ, zero, suc, ◌<◌, ltb, lt→ltb, ◌≡◌, ◌⊎◌, inl, inr, refl, ap, ◌∙◌, true, false, ◌&&◌, Option,
  none, some, List, [], ◌∷◌, ◌++◌, append-nil, Bool-cases, Option-cases,
}
use oshmpi.Prelude.Int.{ℤ}
use oshmpi.Contiguous.{int_max}
use oshmpi.Comm.{CacheEntry}
use oshmpi.Startup.{
  Event, Build, Found, Phase, StartOutcome, started, start_events, runs_mpmd, stop_events,
  oshmpi_initialize, oshmpi_finalize,
}
use oshmpi.Startup.Refusals.{IsSingleProgram, phase_up}

pub data ProcessCall : Type 0 where
  start_pes shmem_init shmem_finalize : ProcessCall
  shmem_global_exit : (status : ℤ) → ProcessCall

-- A process that runs, with the number of times that oshmpi_finalize was given to `atexit`, or one that
-- has aborted.
pub data Process : Type 0 where
  runs : Phase → (at_exit : ℕ) → Process
  stopped : Process

-- start_pes and shmem_init: oshmpi_initialize(MPI_THREAD_SINGLE), and atexit(oshmpi_finalize).
abbrev pub initialize_once : StartOutcome → (at_exit : ℕ) → Process × List Event
initialize_once (started p events) at_exit = (runs p (suc at_exit), events)
initialize_once _ at_exit = (stopped, [])

module _ (b : Build) (f : Found) (cache : List CacheEntry) where
  unfoldable pub process_call : ProcessCall → Process → Process × List Event
  process_call c stopped = (stopped, [])
  process_call start_pes (runs p n) = initialize_once (oshmpi_initialize b f 0 p) n
  process_call shmem_init (runs p n) = initialize_once (oshmpi_initialize b f 0 p) n
  process_call shmem_finalize (runs p n) =
      let (p', events) = oshmpi_finalize b cache p in (runs p' n, events)
  process_call (shmem_global_exit status) (runs p n) = (stopped, [])

  unfoldable pub process_calls : List ProcessCall → Process → Process × List Event
  process_calls [] s = (s, [])
  process_calls (c ∷ rest) s =
      let (s', events) = process_call c s in
      let (t, later) = process_calls rest s' in (t, events ++ later)

  -- The handlers at exit.
  unfoldable pub exit_handlers : (at_exit : ℕ) → Phase → Phase × List Event
  exit_handlers zero p = (p, [])
  exit_handlers (suc n) p =
      let (p', events) = oshmpi_finalize b cache p in
      let (q, later) = exit_handlers n p' in (q, events ++ later)

  -- The exit of a process, and all that it has acquired and released; `none` if it has aborted.
  abbrev pub finish : Process × List Event → Option (Phase × List Event)
  finish (stopped, events) = none
  finish (runs p n, events) = let (q, later) = exit_handlers n p in some (q, events ++ later)

  -- A process from its start to its exit.
  unfoldable pub process_run : List ProcessCall → Phase → Option (Phase × List Event)
  process_run calls p = finish (process_calls calls (runs p 0))

  call_first :
      (c : ProcessCall) (rest : List ProcessCall) (s : Process) {s' t : Process}
      {events later : List Event}
      → process_call c s ≡ (s', events)
      → process_calls rest s' ≡ (t, later)
      → process_calls (c ∷ rest) s ≡ (t, events ++ later)
  unfolding process_calls
  call_first c rest s e e' = rw (e, e') refl

  run_exit :
      (calls : List ProcessCall) (p : Phase) {q r : Phase} {n : ℕ} {events later : List Event}
      → process_calls calls (runs p 0) ≡ (runs q n, events)
      → exit_handlers n q ≡ (r, later)
      → process_run calls p ≡ some (r, events ++ later)
  unfolding process_run
  run_exit calls p {events} e e' = ap finish e ∙ ap (λ r. some (r.0, events ++ r.1)) e'

-- The flags behind finalization.
abbrev pub phase_down : Phase → Phase
phase_down p = record p { shmem_is_finalized = true; mpi_finalized = true }

-- A process at its start.
abbrev pub fresh_phase : Phase
fresh_phase = record {
  mpi_initialized = false;
  mpi_finalized = false;
  shmem_is_initialized = false;
  shmem_is_finalized = false;
  running_mpmd = false;
  world_is_smp = false;
}

abbrev pub AllFinalize : List ProcessCall → Type 0
AllFinalize [] = Unit {0}
AllFinalize (c ∷ rest) = (c ≡ shmem_finalize) × AllFinalize rest

-- No call ends the process by force, and behind a shmem_finalize only others come.
abbrev pub AllStay : List ProcessCall → Type 0
AllStay [] = Unit {0}
AllStay (start_pes ∷ rest) = AllStay rest
AllStay (shmem_init ∷ rest) = AllStay rest
AllStay (shmem_finalize ∷ rest) = AllFinalize rest
AllStay (shmem_global_exit status ∷ rest) = ⊥

module _ (b : Build) (f : Found) (cache : List CacheEntry) (single : f.provided ≡ 0)
    (small : f.long_etext_size < int_max)
    (programs : b.mpmd_support ≡ false → IsSingleProgram f) where
  abbrev up : Phase
  up = phase_up b f fresh_phase

  abbrev down : Phase
  down = phase_down up

  abbrev starting : List Event
  starting = start_events b.smp_optimizations b.comm_caching (runs_mpmd b f) f.is_smp f.default_heap

  abbrev stopping : List Event
  stopping =
      stop_events b.smp_optimizations b.comm_caching (b.mpmd_support && runs_mpmd b f)
        (b.smp_optimizations && f.is_smp) cache

  from_fresh : oshmpi_initialize b f 0 fresh_phase ≡ started up starting
  unfolding oshmpi_initialize
  from_fresh =
      let fits : ltb f.long_etext_size int_max ≡ true = lt→ltb _ _ small in
      rw single (elim (Bool-cases b.mpmd_support) [
        | inl mpmd ↦ simp (mpmd, fits) refl
        | inr plain ↦ elim (Option-cases f.appnum) [
          | inl unset ↦ simp (plain, unset, fits) refl
          | inr (n, is) ↦
              let zeroth : f.appnum ≡ some 0 = is ∙ ap some (programs plain n is) in
              simp (plain, zeroth, fits) refl
        ]
      ])

  from_up : oshmpi_initialize b f 0 up ≡ started up []
  unfolding oshmpi_initialize
  from_up = rw single refl

  up-down : oshmpi_finalize b cache up ≡ (down, stopping)
  unfolding oshmpi_finalize
  up-down = refl

  down-down : oshmpi_finalize b cache down ≡ (down, [])
  unfolding oshmpi_finalize
  down-down = refl

  down_calls :
      (rest : List ProcessCall) (n : ℕ)
      → AllFinalize rest
      → process_calls b f cache rest (runs down n) ≡ (runs down n, [])
  unfolding process_call process_calls
  down_calls [] n h = refl
  down_calls (c ∷ rest) n h = rw (h.0, down-down, down_calls rest n h.1) refl

  up_calls :
      (rest : List ProcessCall) (n : ℕ)
      → AllStay rest
      → (k : ℕ) × ((process_calls b f cache rest (runs up (suc n)) ≡ (runs up (suc k), []))
          ⊎ (process_calls b f cache rest (runs up (suc n)) ≡ (runs down k, stopping)))
  unfolding process_call process_calls
  up_calls [] n h = (n, inl refl)
  up_calls (start_pes ∷ rest) n h = let (k, e) = up_calls rest (suc n) h in (k, rw from_up e)
  up_calls (shmem_init ∷ rest) n h = let (k, e) = up_calls rest (suc n) h in (k, rw from_up e)
  up_calls (shmem_finalize ∷ rest) n h = (
    suc n,
    inr (
        rw (up-down, down_calls rest (suc n) h)
          (ap (λ l. (runs down (suc n), l)) (append-nil stopping))),
  )
  up_calls (shmem_global_exit _ ∷ rest) n h = absurd h

  exit_down : (n : ℕ) → exit_handlers b f cache n down ≡ (down, [])
  unfolding exit_handlers
  exit_down zero = refl
  exit_down (suc n) = rw (down-down, exit_down n) refl

  exit_up : (n : ℕ) → exit_handlers b f cache (suc n) up ≡ (down, stopping)
  unfolding exit_handlers
  exit_up n = rw (up-down, exit_down n) (ap (λ l. (down, l)) (append-nil stopping))

  -- However a process calls start_pes, shmem_init and shmem_finalize, beginning with one of the first
  -- two, with only shmem_finalize behind a shmem_finalize and with no shmem_global_exit, it
  -- initializes once, it finalizes once, with or without a call of shmem_finalize, and at its exit
  -- MPI is finalized. That holds where MPI provides no more than MPI_THREAD_SINGLE, the static data
  -- are smaller than INT32_MAX bytes and, in a build without MPMD support, the PE's application
  -- number is 0.
  pub calls_once :
      (c : ProcessCall)
      → (c ≡ start_pes) ⊎ (c ≡ shmem_init)
      → (rest : List ProcessCall) → AllStay rest
      → process_run b f cache (c ∷ rest) fresh_phase ≡ some (down, starting ++ stopping)
  unfolding process_call
  calls_once c first rest h =
      let begins : process_call b f cache c (runs fresh_phase 0) ≡ (runs up 1, starting) =
        elim first [ inl e ↦ rw (e, from_fresh) refl | inr e ↦ rw (e, from_fresh) refl ] in
      let (k, later) = up_calls rest 0 h in
      elim later [
        | inl e ↦
            run_exit b f cache (c ∷ rest) fresh_phase
              (call_first b f cache c rest (runs fresh_phase 0) begins e) (exit_up k)
            ∙ ap (λ l. some (down, l ++ stopping)) (append-nil starting)
        | inr e ↦
            run_exit b f cache (c ∷ rest) fresh_phase
              (call_first b f cache c rest (runs fresh_phase 0) begins e) (exit_down k)
            ∙ ap (λ l. some (down, l)) (append-nil (starting ++ stopping))
      ]
