-- ===== src/Startup/Balance.antt =====
-- oshmpi_initialize and oshmpi_finalize of src/shmem-internals.c: what a process holds from start to
-- stop.
use mathlib.Core.Path.{subst}
use oshmpi.Prelude.{
  ℕ, ◌≡◌, ◌⊎◌, inl, inr, refl, sym, ◌∙◌, Bool, true, false, not, ◌&&◌, Option, none, some, List, [],
  ◌∷◌, ◌++◌, arith, ◌==◌, append_assoc, if◌then◌else◌,
}
use oshmpi.Comm.{CacheEntry}
use oshmpi.Startup.{
  Resource, cache_array, Event, release, Build, Found, Phase, started, runs_mpmd, allock_events,
  deallock_events, mpmd_events, heap_events, window_events, start_events, after_cache,
  oshmpi_initialize, free_cached, stop_events, oshmpi_finalize,
}
use oshmpi.Startup.Ledger.{ledger, cached_held, past_cache, ledger_split}

abbrev is_empty : Option (List Resource) → Bool
is_empty (some []) = true
is_empty _ = false

is_empty-some : (o : Option (List Resource)) → is_empty o ≡ true → o ≡ some []
is_empty-some none h = absurd (cc)
is_empty-some (some []) h = refl
is_empty-some (some (x ∷ rest)) h = absurd (cc)

abbrev both : (Bool → Bool) → Bool
both f = f true && f false

both-true : (f : Bool → Bool) → both f ≡ true → (b : Bool) → f b ≡ true
both-true f h true = ground arith
both-true f h false = ground arith

-- Start and stop with nothing cached.
abbrev cycle : (smp caching mpmd node heap : Bool) → List Event
cycle smp caching mpmd node heap =
    start_events smp caching mpmd node heap
    ++ (deallock_events
        ++ ((if caching then release cache_array ∷ [] else [])
            ++ after_cache smp mpmd (smp && node)))

cycle_test :
    both
      (λ a. both (λ b. both (λ c. both (λ d. both (λ e. is_empty (ledger (cycle a b c d e) []))))))
    ≡ true
unfolding ledger start_events mpmd_events heap_events window_events allock_events deallock_events
    after_cache
cycle_test = refl

cycle_empty : (a b c d e : Bool) → ledger (cycle a b c d e) [] ≡ some []
cycle_empty a b c d e =
    let test : Bool → Bool → Bool → Bool → Bool → Bool =
      λ x y z u v. is_empty (ledger (cycle x y z u v) []) in
    let for_a =
      both-true (λ x. both (λ y. both (λ z. both (λ u. both (test x y z u))))) cycle_test a in
    let for_b = both-true (λ y. both (λ z. both (λ u. both (test a y z u)))) for_a b in
    let for_c = both-true (λ z. both (λ u. both (test a b z u))) for_b c in
    let for_d = both-true (λ u. both (test a b c u)) for_c d in
    is_empty-some _ (both-true (test a b c d) for_d e)

-- What a process holds behind initialization and any number of cached communicators, it gives back.
stop_empties :
    (smp mpmd node heap : Bool) (caching : Bool) (cache : List CacheEntry)
    → (caching ≡ true) ⊎ (cache ≡ [])
    → (held : List Resource) × (ledger (start_events smp caching mpmd node heap) [] ≡ some held)
      × (ledger (stop_events smp caching mpmd (smp && node) cache) (cached_held 0 cache ++ held)
          ≡ some [])
unfolding stop_events
stop_empties smp mpmd node heap true cache h =
    let rest = release cache_array ∷ after_cache smp mpmd (smp && node) in
    let (held, start, stop) =
      ledger_split (start_events smp true mpmd node heap) (deallock_events ++ rest) [] []
        (cycle_empty smp true mpmd node heap) in
    (
      held,
      start,
      rw
          (append_assoc (free_cached 0 cache) (release cache_array ∷ [])
            (after_cache smp mpmd (smp && node)))
          (past_cache cache rest held ∙ stop),
    )
stop_empties smp mpmd node heap false cache h =
    let none_cached : cache ≡ [] = elim h [ inl impossible ↦ absurd (cc) | inr is ↦ is ] in
    let (held, start, stop) =
      ledger_split (start_events smp false mpmd node heap)
        (deallock_events ++ after_cache smp mpmd (smp && node)) [] []
        (cycle_empty smp false mpmd node heap) in
    (held, start, rw none_cached stop)

-- How initialization goes if it does not abort.
initialized :
    (b : Build) (f : Found) (threading : ℕ) (p p' : Phase) (events : List Event)
    → p.shmem_is_initialized ≡ false
    → oshmpi_initialize b f threading p ≡ started p' events
    → (events
        ≡ start_events b.smp_optimizations b.comm_caching (runs_mpmd b f) f.is_smp f.default_heap)
      × (p' ≡ record p {
        mpi_initialized = true;
        shmem_is_initialized = true;
        running_mpmd = runs_mpmd b f;
        world_is_smp = b.smp_optimizations && f.is_smp;
      })
unfolding oshmpi_initialize
initialized b f threading p p' events fresh is = ground arith

twice_anded : (a b c : Bool) → (a && (a && b && c)) ≡ (a && b && c)
twice_anded true b c = refl
twice_anded false b c = refl

-- A process that initializes once without an abort acquires in an order in which each call finds
-- what it uses. Finalization gives back all that it holds then, with the communicators and the
-- groups that were cached meanwhile, each once and each window behind its epoch, and a second
-- finalization does nothing.
pub lifecycle_balanced :
    (b : Build) (f : Found) (threading : ℕ) (p p' : Phase) (events : List Event)
    (cache : List CacheEntry)
    → p.shmem_is_initialized ≡ false
    → p.shmem_is_finalized ≡ false
    → p.mpi_finalized ≡ false
    → oshmpi_initialize b f threading p ≡ started p' events
    → (b.comm_caching ≡ true) ⊎ (cache ≡ [])
    → (held : List Resource) × (ledger events [] ≡ some held)
      × (ledger (oshmpi_finalize b cache p').1 (cached_held 0 cache ++ held) ≡ some [])
      × (oshmpi_finalize b cache (oshmpi_finalize b cache p').0
          ≡ ((oshmpi_finalize b cache p').0, []))
unfolding oshmpi_finalize
lifecycle_balanced b f threading p p' events cache fresh running mpi is cached =
    let (done, phase) = initialized b f threading p p' events fresh is in
    let (held, start, stop) =
      stop_empties b.smp_optimizations (runs_mpmd b f) f.is_smp f.default_heap b.comm_caching cache
        cached in
    (
      held,
      rw done start,
      simp (phase, running, mpi)
          (subst
            (λ m.
              ledger
                (stop_events b.smp_optimizations b.comm_caching m (b.smp_optimizations && f.is_smp)
                  cache)
                (cached_held 0 cache ++ held)
              ≡ some [])
            (sym (twice_anded b.mpmd_support f.any_appnum (not (f.appmin == f.appmax)))) stop),
      simp (phase, running, mpi) refl,
    )
