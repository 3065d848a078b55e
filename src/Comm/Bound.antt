-- ===== src/Comm/Bound.antt =====
-- oshmpi_acquire_comm and oshmpi_release_comm of src/shmem-internals.c over a run of collectives: how
-- many communicators are open.
use oshmpi.Prelude.{
  ℕ, suc, ◌≤◌, ◌≡◌, inl, inr, refl, sym, ap, ◌∙◌, Option, none, some, List, [], ◌∷◌, arith, length,
  Bool-cases, Option-cases,
}
use oshmpi.Prelude.Int.{ℤ}
use oshmpi.Globals.{Globals}
use oshmpi.Comm.{
  Comm, CacheEntry, Comms, initial_comms, shmem_comm_cache_size, insert_comm, acquire_comm,
  release_comm, create_comm,
}
use oshmpi.Comm.Cache.{entry_of, filled}
use oshmpi.Comm.Members.{Inv, initial-Inv, acquire_cases, acquire-release-Inv}

-- The active set and the root of a collective.
pub record Request : Type 0 where
  pub pe_start : ℕ
  pub pe_logs : ℕ
  pub pe_size : ℕ
  pub pe_root : ℤ

pub filled-length : (l : List CacheEntry) → filled l ≤ length l
unfolding filled
filled-length [] = omega arith
filled-length (e ∷ rest) = let ih = filled-length rest in ground (arith, ih)

insert-length :
    (new : CacheEntry) (l l' : List CacheEntry) → insert_comm new l ≡ some l' → length l' ≡ length l
unfolding insert_comm
insert-length new [] l' e = absurd (cc)
insert-length new (x ∷ rest) l' e = elim (Option-cases x.comm) [
  | inl free ↦
      let put : some (new ∷ rest) ≡ some l' = rw (free, insert_comm) at e in
      let same : new ∷ rest ≡ l' = cc in ap length (sym same)
  | inr (c, taken) ↦ elim (Option-cases (insert_comm new rest)) [
    | inl full ↦ let no : none ≡ some l' = rw (taken, full, insert_comm) at e in absurd (cc)
    | inr (f, later) ↦
        let put : some (x ∷ f) ≡ some l' = rw (taken, later, insert_comm) at e in
        let same : x ∷ f ≡ l' = cc in ap length (sym same) ∙ ap suc (insert-length new rest f later)
  ]
]

pub release-cache :
    (g : Globals) (s : Comms) (pe_start pe_logs pe_size : ℕ) (c : Option Comm)
    → (release_comm g s pe_start pe_logs pe_size c).comm_cache ≡ s.comm_cache
unfolding release_comm
release-cache g s pe_start pe_logs pe_size c = ground arith

module _ (translate_ranks : List ℕ → ℤ → ℤ) (g : Globals) where
  -- A collective's part in the cache: the communicator acquired and released.
  unfoldable pub serve : Comms → Request → Comms
  serve s r =
      let a = acquire_comm translate_ranks g s r.pe_start r.pe_logs r.pe_size r.pe_root in
      release_comm g a.comms r.pe_start r.pe_logs r.pe_size a.comm

  unfoldable pub serve_all : Comms → List Request → Comms
  unfolding serve
  serve_all s [] = s
  serve_all s (r ∷ rest) = serve_all (serve s r) rest

  created-length :
      (s : Comms) (pe_start pe_logs pe_size : ℕ) (pe_root : ℤ)
      → length (create_comm translate_ranks g s pe_start pe_logs pe_size pe_root).comms.comm_cache
        ≡ length s.comm_cache
  unfolding create_comm
  created-length s pe_start pe_logs pe_size pe_root = elim (Bool-cases g.comm_caching) [
    | inr plain ↦ simp plain refl
    | inl caching ↦
        elim (Option-cases
          (insert_comm (entry_of pe_start pe_logs pe_size s.serial) s.comm_cache)) [
            | inl full ↦ simp (caching, full) refl
            | inr (l, put) ↦ simp (caching, put) (insert-length _ s.comm_cache l put)
          ]
  ]

  serve-length :
      (s : Comms) (r : Request) → Inv s → length (serve s r).comm_cache ≡ length s.comm_cache
  unfolding serve
  serve-length s r inv =
      ap length (release-cache g _ r.pe_start r.pe_logs r.pe_size _)
      ∙ elim (acquire_cases translate_ranks g s inv r.pe_start r.pe_logs r.pe_size r.pe_root) [
        | inl (world, is) ↦ ap (λ a. length a.comms.comm_cache) is
        | inr (inl (part, caching, (e, hit, comm, same))) ↦ ap (λ c. length c.comm_cache) same
        | inr (inr (part, is)) ↦
            ap (λ a. length a.comms.comm_cache) is
            ∙ created-length s r.pe_start r.pe_logs r.pe_size r.pe_root
      ]

  bounded_from :
      (rs : List Request) (s : Comms) → Inv s → (serve_all s rs).open_comms ≤ length s.comm_cache
  unfolding serve_all
  bounded_from [] s inv = omega (arith, filled-length s.comm_cache, inv.comms_kept)
  bounded_from (r ∷ rest) s inv =
      let inv' : Inv (serve s r) =
        acquire-release-Inv translate_ranks g s inv r.pe_start r.pe_logs r.pe_size r.pe_root in
      let later = bounded_from rest (serve s r) inv' in omega (arith, later, serve-length s r inv)

  -- However many collectives a PE calls from its start on, and on whatever active sets, at most 16
  -- communicators are open behind the last, the number of entries of the cache.
  pub open_comms_bounded :
      (rs : List Request) → (serve_all initial_comms rs).open_comms ≤ shmem_comm_cache_size
  open_comms_bounded rs = bounded_from rs initial_comms initial-Inv
