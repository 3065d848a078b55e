-- ===== src/Comm/Disagree.antt =====
-- The caches of communicators of two PEs of one active set, in oshmpi_acquire_comm and
-- oshmpi_release_comm of src/shmem-internals.c.
use oshmpi.Prelude.{
  ℕ, suc, ◌+◌, ◌<◌, ◌≡◌, inl, inr, refl, sym, ap, ◌∙◌, true, false, Option, none, some, List, [],
  ◌∷◌, arith, length, Bool-cases, Option-cases,
}
use oshmpi.Prelude.Int.{ℤ}
use oshmpi.Globals.{Globals}
use oshmpi.Comm.{
  Comm, CacheEntry, Comms, matches, lookup_comm, insert_comm, is_world, acquire_comm, release_comm,
  create_comm,
}
use oshmpi.Comm.Cache.{entry_of, filled}
use oshmpi.Comm.Bound.{Request, serve, release-cache, filled-length}

insert_full :
    (new : CacheEntry) (l : List CacheEntry) → filled l ≡ length l → insert_comm new l ≡ none
unfolding insert_comm filled
insert_full new [] full = refl
insert_full new (e ∷ rest) full = elim (Option-cases e.comm) [
  | inl free ↦
      let left : 0 + filled rest ≡ suc (length rest) = rw free at full in
      absurd (omega (arith, left, filled-length rest))
  | inr (c, taken) ↦
      let left : 1 + filled rest ≡ suc (length rest) = rw taken at full in
      rw (taken, insert_full new rest (omega (arith, left))) refl
]

insert_behind :
    (new x : CacheEntry) (rest l : List CacheEntry) (c : Comm)
    → x.comm ≡ some c
    → insert_comm new rest ≡ some l
    → insert_comm new (x ∷ rest) ≡ some (x ∷ l)
unfolding insert_comm
insert_behind new x rest l c taken put = simp (taken, put) refl

-- A cache with an empty entry takes a new one, and then finds it.
module _ (start logs size serial : ℕ) where
  abbrev new : CacheEntry
  new = entry_of start logs size serial

  new-matches : matches start logs size new ≡ true
  new-matches = ground arith

  insert-found :
      (l : List CacheEntry)
      → filled l < length l
      → lookup_comm start logs size l ≡ none
      → (l' : List CacheEntry) × (insert_comm new l ≡ some l')
        × (lookup_comm start logs size l' ≡ some new)
  unfolding insert_comm lookup_comm filled
  insert-found [] less miss = absurd (omega arith)
  insert-found (e ∷ rest) less miss = elim (Bool-cases (matches start logs size e)) [
    | inl hit ↦ let no : some e ≡ none = rw (hit, lookup_comm) at miss in absurd (cc)
    | inr other ↦
        let behind : lookup_comm start logs size rest ≡ none = rw (other, lookup_comm) at miss in
        elim (Option-cases e.comm) [
          | inl free ↦ (new ∷ rest, rw free refl, rw new-matches refl)
          | inr (c, taken) ↦
              let left : 1 + filled rest < suc (length rest) = rw taken at less in
              let (l', put, found) = insert-found rest (omega (arith, left)) behind in
              (e ∷ l', insert_behind new e rest l' c taken put, rw other found)
        ]
  ]

release-serial :
    (g : Globals) (s : Comms) (pe_start pe_logs pe_size : ℕ) (c : Option Comm)
    → (release_comm g s pe_start pe_logs pe_size c).serial ≡ s.serial
unfolding release_comm
release-serial g s pe_start pe_logs pe_size c = ground arith

module _ (translate_ranks : List ℕ → ℤ → ℤ) (g : Globals) (r : Request)
    (caching : g.comm_caching ≡ true)
    (part : is_world g r.pe_start r.pe_logs r.pe_size ≡ false) where
  -- How many communicators a PE has made so far, and how many it makes for the request.
  abbrev pub makes : Comms → ℕ
  makes s = (acquire_comm translate_ranks g s r.pe_start r.pe_logs r.pe_size r.pe_root).comms.serial

  abbrev lookup : Comms → Option CacheEntry
  lookup s = lookup_comm r.pe_start r.pe_logs r.pe_size s.comm_cache

  hit-comms :
      (s : Comms) (e : CacheEntry)
      → lookup s ≡ some e
      → (acquire_comm translate_ranks g s r.pe_start r.pe_logs r.pe_size r.pe_root).comms ≡ s
  unfolding acquire_comm
  hit-comms s e hit = simp (part, caching, hit) refl

  miss-creates :
      (s : Comms)
      → lookup s ≡ none
      → acquire_comm translate_ranks g s r.pe_start r.pe_logs r.pe_size r.pe_root
        ≡ create_comm translate_ranks g s r.pe_start r.pe_logs r.pe_size r.pe_root
  unfolding acquire_comm
  miss-creates s miss = simp (part, caching, miss) refl

  created-full :
      (s : Comms)
      → filled s.comm_cache ≡ length s.comm_cache
      → let c = create_comm translate_ranks g s r.pe_start r.pe_logs r.pe_size r.pe_root in
        (c.comms.comm_cache ≡ s.comm_cache) × (c.comms.serial ≡ s.serial + 1)
  unfolding create_comm
  created-full s full =
      let none_free =
        insert_full (entry_of r.pe_start r.pe_logs r.pe_size s.serial) s.comm_cache full in
      (simp (caching, none_free) refl, simp (caching, none_free) refl)

  served-full :
      (s : Comms)
      → filled s.comm_cache ≡ length s.comm_cache
      → lookup s ≡ none
      → (serve translate_ranks g s r).comm_cache ≡ s.comm_cache
  unfolding serve
  served-full s full miss =
      release-cache g _ r.pe_start r.pe_logs r.pe_size _
      ∙ ap (λ a. a.comms.comm_cache) (miss-creates s miss)
      ∙ (created-full s full).0

  hit-keeps : (s : Comms) (e : CacheEntry) → lookup s ≡ some e → makes s ≡ s.serial
  hit-keeps s e hit = ap (λ c. c.serial) (hit-comms s e hit)

  served-found :
      (s : Comms)
      → filled s.comm_cache < length s.comm_cache
      → lookup s ≡ none
      → lookup (serve translate_ranks g s r)
        ≡ some (entry_of r.pe_start r.pe_logs r.pe_size s.serial)
  unfolding serve create_comm
  served-found s less miss =
      let (l, put, found) =
        insert-found r.pe_start r.pe_logs r.pe_size s.serial s.comm_cache less miss in
      ap (lookup_comm r.pe_start r.pe_logs r.pe_size) (
        release-cache g _ r.pe_start r.pe_logs r.pe_size _
        ∙ ap (λ a. a.comms.comm_cache) (miss-creates s miss)
        ∙ simp (caching, put) refl)
      ∙ found

  -- Two PEs that cache communicators make the first collective of an active set other than the world:
  -- one has no free entry, the other has one. Then at the next collective of the set the first makes a
  -- communicator again, with a call that all PEs of the set have to join, and the second does not.
  pub caches_disagree :
      (s t : Comms)
      → filled s.comm_cache ≡ length s.comm_cache
      → filled t.comm_cache < length t.comm_cache
      → lookup_comm r.pe_start r.pe_logs r.pe_size s.comm_cache ≡ none
      → lookup_comm r.pe_start r.pe_logs r.pe_size t.comm_cache ≡ none
      → (makes (serve translate_ranks g s r) ≡ (serve translate_ranks g s r).serial + 1)
        × (makes (serve translate_ranks g t r) ≡ (serve translate_ranks g t r).serial)
  caches_disagree s t full less miss miss' =
      let same = served-full s full miss in
      let again : lookup (serve translate_ranks g s r) ≡ none =
        ap (lookup_comm r.pe_start r.pe_logs r.pe_size) same ∙ miss in
      let full' : filled (serve translate_ranks g s r).comm_cache
          ≡ length (serve translate_ranks g s r).comm_cache =
        ap filled same ∙ full ∙ ap length (sym same) in
      (
        ap (λ a. a.comms.serial) (miss-creates (serve translate_ranks g s r) again)
            ∙ (created-full (serve translate_ranks g s r) full').1,
        hit-keeps (serve translate_ranks g t r) _ (served-found t less miss'),
      )
