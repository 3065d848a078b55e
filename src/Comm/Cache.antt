-- ===== src/Comm/Cache.antt =====
-- The cache of communicators of src/shmem-internals.c: what its entries say, and how many are filled.
use mathlib.Core.Path.{subst}
use oshmpi.Prelude.{
  ℕ, ◌+◌, ◌^◌, ◌<◌, ◌≡◌, ◌⊎◌, ◌∙◌, inl, inr, refl, Bool, true, false, Option, none, some, List, [],
  ◌∷◌, arith, ◌==◌, Bool-cases, if◌then◌else◌,
}
use oshmpi.Prelude.Int.{pos}
use oshmpi.Comm.{
  Comm, comm_world, comm_created, CacheEntry, empty_entry, pe_list, matches, lookup_comm,
  insert_comm, same_comm, is_cached,
}

-- An entry that holds the communicator of a call with these arguments.
abbrev pub entry_of : (start logs size serial : ℕ) → CacheEntry
entry_of start logs size serial = record {
  start = pos start;
  logs = pos logs;
  size = pos size;
  comm = some (comm_created serial (pe_list start (2 ^ logs) 0 size));
  group = some (pe_list start (2 ^ logs) 0 size);
}

-- An entry is empty, or holds the communicator of its arguments, made before `serial`.
pub data Sound (serial : ℕ) (e : CacheEntry) : Type 0 where
  vacant : e ≡ empty_entry → Sound serial e
  held : (start logs size n : ℕ) → n < serial → e ≡ entry_of start logs size n → Sound serial e

abbrev pub AllSound : ℕ → List CacheEntry → Type 0
AllSound serial [] = Unit {0}
AllSound serial (e ∷ rest) = Sound serial e × AllSound serial rest

abbrev pub is_some {ℓ} : {A : Type ℓ} → Option A → Bool
is_some none = false
is_some (some _) = true

-- How many entries hold a communicator.
unfoldable pub filled : List CacheEntry → ℕ
filled [] = 0
filled (e ∷ rest) = (if is_some e.comm then 1 else 0) + filled rest

pub Sound-later : {e : CacheEntry} (serial : ℕ) → Sound serial e → Sound (serial + 1) e
Sound-later serial (vacant v) = vacant v
Sound-later serial (held a b c n lt v) = held a b c n (omega arith) v

pub AllSound-later :
    (l : List CacheEntry) (serial : ℕ) → AllSound serial l → AllSound (serial + 1) l
AllSound-later [] serial h = tt
AllSound-later (e ∷ rest) serial h = (Sound-later serial h.0, AllSound-later rest serial h.1)

same_comm_refl : (c : Comm) → same_comm (some c) (some c) ≡ true
same_comm_refl comm_world = refl
same_comm_refl (comm_created n pes) = ground arith

found_later :
    (e : CacheEntry) (rest : List CacheEntry) (c : Comm)
    → is_cached (some c) rest ≡ true
    → is_cached (some c) (e ∷ rest) ≡ true
unfolding is_cached
found_later e rest c h = ground arith

module _ (start logs size : ℕ) where
  -- An entry that matches holds the communicator of the call.
  match-held :
      {serial : ℕ} (e : CacheEntry)
      → Sound serial e
      → matches start logs size e ≡ true
      → (n : ℕ) × (e ≡ entry_of start logs size n)
  match-held e (vacant v) h =
      let k : matches start logs size empty_entry ≡ true = rw v at h in absurd (ground arith)
  match-held e (held a b c n lt v) h =
      let k : matches start logs size (entry_of a b c n) ≡ true = rw v at h in
      let starts : a ≡ start = ground arith in
      let log : b ≡ logs = ground arith in
      let sizes : c ≡ size = ground arith in (n, v ∙ rw (starts, log, sizes))

  pub lookup-held :
      (serial : ℕ) (l : List CacheEntry) (e : CacheEntry)
      → AllSound serial l
      → lookup_comm start logs size l ≡ some e
      → (n : ℕ) × (e ≡ entry_of start logs size n)
  unfolding lookup_comm
  lookup-held serial [] e h found = absurd (cc)
  lookup-held serial (x ∷ rest) e h found = elim (Bool-cases (matches start logs size x)) [
    | inl same ↦
        let hit : some x ≡ some e = rw same at found in
        let here : x ≡ e = cc in
        subst (λ y. (n : ℕ) × (y ≡ entry_of start logs size n)) here (match-held x h.0 same)
    | inr other ↦ lookup-held serial rest e h.1 (rw other at found)
  ]

  pub lookup-cached :
      (l : List CacheEntry) (e : CacheEntry) (c : Comm)
      → lookup_comm start logs size l ≡ some e
      → e.comm ≡ some c
      → is_cached (some c) l ≡ true
  unfolding lookup_comm is_cached
  lookup-cached [] e c found has = absurd (cc)
  lookup-cached (x ∷ rest) e c found has = elim (Bool-cases (matches start logs size x)) [
    | inl same ↦
        let hit : some x ≡ some e = rw same at found in
        let here : x ≡ e = cc in rw (here, has, same_comm_refl c)
    | inr other ↦ found_later x rest c (lookup-cached rest e c (rw other at found) has)
  ]

fresh_entry :
    (e : CacheEntry) (rest : List CacheEntry) (serial : ℕ) (pes : List ℕ)
    → Sound serial e
    → is_cached (some (comm_created serial pes)) rest ≡ false
    → is_cached (some (comm_created serial pes)) (e ∷ rest) ≡ false
unfolding is_cached
fresh_entry e rest serial pes (vacant v) k = rw v k
fresh_entry e rest serial pes (held a b c n lt v) k =
    let other : (n == serial) ≡ false = ground arith in rw (v, other) k

-- A communicator that is not made yet is in no entry.
pub fresh-cached :
    (l : List CacheEntry) (serial : ℕ) (pes : List ℕ)
    → AllSound serial l
    → is_cached (some (comm_created serial pes)) l ≡ false
unfolding is_cached
fresh-cached [] serial pes h = refl
fresh-cached (e ∷ rest) serial pes h =
    fresh_entry e rest serial pes h.0 (fresh-cached rest serial pes h.1)

module _ (start logs size serial : ℕ) where
  abbrev new : CacheEntry
  new = entry_of start logs size serial

  insert_cases :
      (x : CacheEntry) (rest l' : List CacheEntry)
      → insert_comm new (x ∷ rest) ≡ some l'
      → ((x.comm ≡ none) × (l' ≡ new ∷ rest))
        ⊎ ((f : List CacheEntry) × (insert_comm new rest ≡ some f) × (l' ≡ x ∷ f))
  unfolding insert_comm
  insert_cases x rest l' e = ground arith

  pub insert-Sound :
      (l l' : List CacheEntry)
      → AllSound (serial + 1) l
      → insert_comm new l ≡ some l'
      → AllSound (serial + 1) l'
  unfolding insert_comm
  insert-Sound [] l' h e = absurd (cc)
  insert-Sound (x ∷ rest) l' h e = elim (insert_cases x rest l' e) [
    | inl (free, same) ↦ rw same (held start logs size serial (omega arith) refl, h.1)
    | inr (f, later, same) ↦ rw same (h.0, insert-Sound rest f h.1 later)
  ]

  pub insert-filled :
      (l l' : List CacheEntry) → insert_comm new l ≡ some l' → filled l' ≡ filled l + 1
  unfolding insert_comm filled
  insert-filled [] l' e = absurd (cc)
  insert-filled (x ∷ rest) l' e = elim (insert_cases x rest l' e) [
    | inl (free, same) ↦ rw (same, free) (omega arith)
    | inr (f, later, same) ↦ rw same (omega (arith, insert-filled rest f later))
  ]

  pub insert-cached :
      (l l' : List CacheEntry) → insert_comm new l ≡ some l' → is_cached new.comm l' ≡ true
  unfolding insert_comm is_cached
  insert-cached [] l' e = absurd (cc)
  insert-cached (x ∷ rest) l' e = elim (insert_cases x rest l' e) [
    | inl (free, same) ↦
        rw (same, same_comm_refl (comm_created serial (pe_list start (2 ^ logs) 0 size)))
    | inr (f, later, same) ↦ rw same (found_later x f _ (insert-cached rest f later))
  ]
