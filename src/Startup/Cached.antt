-- ===== src/Startup/Cached.antt =====
-- A process that initializes, calls collectives and finalizes, by oshmpi_initialize and oshmpi_finalize
-- and the communicator cache of src/shmem-internals.c: what finalization frees of the cache.
use oshmpi.Prelude.{
  ℕ, suc, ◌+◌, ◌≡◌, inl, inr, refl, sym, ap, ◌∙◌, Bool, true, false, List, [], ◌∷◌, ◌++◌, arith,
  Bool-cases, Option-cases,
}
use oshmpi.Prelude.Int.{ℤ}
use oshmpi.Globals.{Globals}
use oshmpi.Comm.{CacheEntry, Comms, initial_comms, create_comm}
use oshmpi.Comm.Cache.{filled}
use oshmpi.Comm.Members.{Inv, initial-Inv, acquire_cases, acquire-release-Inv}
use oshmpi.Comm.Bound.{Request, release-cache, serve, serve_all}
use oshmpi.Startup.{
  Event, release, cached_comm, Build, Phase, free_cached, deallock_events, after_cache, stop_events,
  oshmpi_finalize,
}

-- How many communicators of the cache a list of calls frees.
pub freed_comms : List Event → ℕ
freed_comms [] = 0
freed_comms (release (cached_comm i) ∷ rest) = suc (freed_comms rest)
freed_comms (e ∷ rest) = freed_comms rest

freed_comms-append : (xs ys : List Event) → freed_comms (xs ++ ys) ≡ freed_comms xs + freed_comms ys
unfolding freed_comms
freed_comms-append [] ys = omega arith
freed_comms-append (release (cached_comm i) ∷ rest) ys = omega (arith, freed_comms-append rest ys)
freed_comms-append (e ∷ rest) ys = freed_comms-append rest ys

freed_comms-free_cached :
    (i : ℕ) (cache : List CacheEntry) → freed_comms (free_cached i cache) ≡ filled cache
unfolding freed_comms free_cached filled
freed_comms-free_cached i [] = refl
freed_comms-free_cached i (e ∷ rest) = elim (Option-cases e.comm) [
  | inl free ↦ simp free (omega (arith, freed_comms-free_cached (suc i) rest))
  | inr (c, taken) ↦ simp taken (omega (arith, freed_comms-free_cached (suc i) rest))
]

freed_comms-deallock : freed_comms deallock_events ≡ 0
unfolding freed_comms deallock_events
freed_comms-deallock = refl

freed_comms-after_cache :
    (smp_optimizations running_mpmd world_is_smp : Bool)
    → freed_comms (after_cache smp_optimizations running_mpmd world_is_smp) ≡ 0
unfolding freed_comms after_cache
freed_comms-after_cache false false false = refl
freed_comms-after_cache false false true = refl
freed_comms-after_cache false true false = refl
freed_comms-after_cache false true true = refl
freed_comms-after_cache true false false = refl
freed_comms-after_cache true false true = refl
freed_comms-after_cache true true false = refl
freed_comms-after_cache true true true = refl

-- What a finalization frees of the cache, where caching is on.
freed_comms-stop_events :
    (smp_optimizations running_mpmd world_is_smp : Bool) (cache : List CacheEntry)
    → freed_comms (stop_events smp_optimizations true running_mpmd world_is_smp cache)
      ≡ filled cache
unfolding stop_events freed_comms
freed_comms-stop_events smp mpmd node cache =
    rw
      (
        freed_comms-append, freed_comms-deallock, freed_comms-append, freed_comms-append,
        freed_comms-free_cached, freed_comms-after_cache,
      )
      (omega arith)

freed_comms-plain :
    (smp_optimizations running_mpmd world_is_smp : Bool) (cache : List CacheEntry)
    → freed_comms (stop_events smp_optimizations false running_mpmd world_is_smp cache) ≡ 0
unfolding stop_events freed_comms
freed_comms-plain smp mpmd node cache =
    rw (freed_comms-append, freed_comms-deallock, freed_comms-after_cache) (omega arith)

module _ (translate_ranks : List ℕ → ℤ → ℤ) (g : Globals) where
  serve_all-Inv : (rs : List Request) (s : Comms) → Inv s → Inv (serve_all translate_ranks g s rs)
  unfolding serve_all serve
  serve_all-Inv [] s inv = inv
  serve_all-Inv (r ∷ rest) s inv =
      serve_all-Inv rest _
        (acquire-release-Inv translate_ranks g s inv r.pe_start r.pe_logs r.pe_size r.pe_root)

  -- Without caching nothing is entered.
  serve-plain :
      g.comm_caching ≡ false
      → (r : Request) (s : Comms) → Inv s
      → (serve translate_ranks g s r).comm_cache ≡ s.comm_cache
  unfolding serve create_comm
  serve-plain plain r s inv =
      release-cache g _ r.pe_start r.pe_logs r.pe_size _
      ∙ elim (acquire_cases translate_ranks g s inv r.pe_start r.pe_logs r.pe_size r.pe_root) [
        | inl (world, is) ↦ ap (λ a. a.comms.comm_cache) is
        | inr (inl (part, caching, rest)) ↦ absurd (cc)
        | inr (inr (part, is)) ↦ ap (λ a. a.comms.comm_cache) is ∙ simp plain refl
      ]

  serve_all-plain :
      g.comm_caching ≡ false
      → (rs : List Request) (s : Comms) → Inv s
      → (serve_all translate_ranks g s rs).comm_cache ≡ s.comm_cache
  unfolding serve_all serve
  serve_all-plain plain [] s inv = refl
  serve_all-plain plain (r ∷ rest) s inv =
      serve_all-plain plain rest _
        (acquire-release-Inv translate_ranks g s inv r.pe_start r.pe_logs r.pe_size r.pe_root)
      ∙ serve-plain plain r s inv

  -- A process that has initialized and then called any collectives frees at finalization as many
  -- communicators as those left open, whether it caches communicators or not; none stays behind.
  pub finalize_frees_open :
      (b : Build) (p : Phase) (rs : List Request)
      → b.comm_caching ≡ g.comm_caching
      → p.mpi_finalized ≡ false
      → p.shmem_is_initialized ≡ true
      → p.shmem_is_finalized ≡ false
      → freed_comms
          (oshmpi_finalize b (serve_all translate_ranks g initial_comms rs).comm_cache p).1
        ≡ (serve_all translate_ranks g initial_comms rs).open_comms
  unfolding oshmpi_finalize
  finalize_frees_open b p rs same mpi up running =
      let inv = serve_all-Inv rs initial_comms initial-Inv in
      elim (Bool-cases g.comm_caching) [
        | inl caching ↦
            let on : b.comm_caching ≡ true = same ∙ caching in
            simp (mpi, up, running, on) (freed_comms-stop_events _ _ _ _ ∙ sym inv.comms_kept)
        | inr plain ↦
            let off : b.comm_caching ≡ false = same ∙ plain in
            simp (mpi, up, running, off)
              (freed_comms-plain _ _ _ _
                ∙ sym (
                    inv.comms_kept
                    ∙ ap filled (serve_all-plain plain rs initial_comms initial-Inv)
                    ∙ sym initial-Inv.comms_kept))
      ]
