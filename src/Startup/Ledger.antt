-- ===== src/Startup/Ledger.antt =====
-- The ledger of what oshmpi_initialize and oshmpi_finalize of src/shmem-internals.c hold, and the cached
-- communicators in it.
use oshmpi.Prelude.{
  ℕ, suc, ◌+◌, ◌*◌, ◌<◌, ◌≡◌, inl, inr, refl, ap, Bool, true, false, not, ◌&&◌, Option, none, some,
  List, [], ◌∷◌, ◌++◌, arith, ◌==◌, Bool-cases, Option-cases, if◌then◌else◌,
}
use oshmpi.Mpi.{Win, sheap_win, etext_win, lock_win, appnum_win}
use oshmpi.Comm.{CacheEntry}
use oshmpi.Startup.{
  Resource, comm_node, comm_temp, group_world, group_node, info_sheap, info_etext, info_lock,
  window, epoch, rank_list, temp_rank_list, sheap_ptrs, cache_array, cached_comm, cached_group,
  Event, acquire, release, uses, deallock_events, free_cached,
}

win_code : Win → ℕ
win_code sheap_win = 0
win_code etext_win = 1
win_code lock_win = 2
win_code appnum_win = 3

pub code : Resource → ℕ
unfolding win_code
code Resource.comm_world = 0
code comm_node = 1
code comm_temp = 2
code group_world = 3
code group_node = 4
code info_sheap = 5
code info_etext = 6
code info_lock = 7
code rank_list = 8
code temp_rank_list = 9
code sheap_ptrs = 10
code cache_array = 11
code (window w) = 20 + win_code w
code (epoch w) = 30 + win_code w
code (cached_comm i) = 40 + 2 * i
code (cached_group i) = 41 + 2 * i

unfoldable pub holds : Resource → List Resource → Bool
unfolding code
holds r [] = false
holds r (x ∷ rest) = if code r == code x then true else holds r rest

unfoldable pub drop : Resource → List Resource → List Resource
unfolding code
drop r [] = []
drop r (x ∷ rest) = let kept = drop r rest in if code r == code x then rest else x ∷ kept

-- Whether a resource may be given back: it is held, and a window is in no epoch.
unfoldable pub may_release : Resource → List Resource → Bool
unfolding holds
may_release (window w) held = holds (window w) held && not (holds (epoch w) held)
may_release r held = holds r held

-- What is held behind the events; `none` if one uses or releases what is not held.
unfoldable pub ledger : List Event → List Resource → Option (List Resource)
unfolding holds drop may_release
ledger [] held = some held
ledger (acquire r ∷ rest) held = ledger rest (r ∷ held)
ledger (uses r ∷ rest) held = let more = ledger rest held in if holds r held then more else none
ledger (release r ∷ rest) held =
    let more = ledger rest (drop r held) in if may_release r held then more else none

-- The communicators and groups in the cache.
abbrev pub cached_held : ℕ → List CacheEntry → List Resource
cached_held i [] = []
cached_held i (e ∷ rest) = elim (e.comm) [
  | none ↦ cached_held (suc i) rest
  | some _ ↦ cached_comm i ∷ cached_group i ∷ cached_held (suc i) rest
]

-- The cached entries stand before all else that is held.
holds-cached :
    (i : ℕ) (cache : List CacheEntry) (r : Resource) (held : List Resource)
    → code r < 40
    → holds r (cached_held i cache ++ held) ≡ holds r held
unfolding holds code
holds-cached i [] r held low = refl
holds-cached i (e ∷ rest) r held low = elim (Option-cases e.comm) [
  | inl none_here ↦ rw none_here (holds-cached (suc i) rest r held low)
  | inr (c, some_here) ↦
      let a : (code r == 40 + 2 * i) ≡ false = ground arith in
      let b : (code r == 41 + 2 * i) ≡ false = ground arith in
      rw (some_here, holds, a, b) (holds-cached (suc i) rest r held low)
]

drop-cached :
    (i : ℕ) (cache : List CacheEntry) (r : Resource) (held : List Resource)
    → code r < 40
    → drop r (cached_held i cache ++ held) ≡ cached_held i cache ++ drop r held
unfolding drop code
drop-cached i [] r held low = refl
drop-cached i (e ∷ rest) r held low = elim (Option-cases e.comm) [
  | inl none_here ↦ rw none_here (drop-cached (suc i) rest r held low)
  | inr (c, some_here) ↦
      let a : (code r == 40 + 2 * i) ≡ false = ground arith in
      let b : (code r == 41 + 2 * i) ≡ false = ground arith in
      rw (some_here, drop, a, b)
        (ap (λ l. cached_comm i ∷ cached_group i ∷ l) (drop-cached (suc i) rest r held low))
]

own_code : (n : ℕ) → (n == n) ≡ true
own_code n = ground arith

-- The loop over the cache releases what is cached, and nothing else.
free_cached-ledger :
    (i : ℕ) (cache : List CacheEntry) (ys : List Event) (held : List Resource)
    → ledger (free_cached i cache ++ ys) (cached_held i cache ++ held) ≡ ledger ys held
unfolding ledger free_cached holds drop may_release code
free_cached-ledger i [] ys held = refl
free_cached-ledger i (e ∷ rest) ys held = elim (Option-cases e.comm) [
  | inl none_here ↦ rw none_here (free_cached-ledger (suc i) rest ys held)
  | inr (c, some_here) ↦
      rw (some_here, own_code (40 + 2 * i), own_code (41 + 2 * i))
        (free_cached-ledger (suc i) rest ys held)
]

pub past_cache :
    (cache : List CacheEntry) (ys : List Event) (held : List Resource)
    → ledger (deallock_events ++ (free_cached 0 cache ++ ys)) (cached_held 0 cache ++ held)
      ≡ ledger (deallock_events ++ ys) held
unfolding ledger deallock_events may_release code win_code
past_cache cache ys held =
    let low_epoch : code (epoch lock_win) < 40 = omega arith in
    let low_window : code (window lock_win) < 40 = omega arith in
    let dropped = drop (epoch lock_win) held in
    rw
      (
        holds-cached 0 cache (epoch lock_win) held low_epoch,
        drop-cached 0 cache (epoch lock_win) held low_epoch,
        holds-cached 0 cache (window lock_win) dropped low_window,
        holds-cached 0 cache (epoch lock_win) dropped low_epoch,
        drop-cached 0 cache (window lock_win) dropped low_window,
        free_cached-ledger 0 cache ys (drop (window lock_win) dropped),
      )
      refl

pub ledger_split :
    (xs ys : List Event) (held out : List Resource)
    → ledger (xs ++ ys) held ≡ some out
    → (mid : List Resource) × (ledger xs held ≡ some mid) × (ledger ys mid ≡ some out)
unfolding ledger
ledger_split [] ys held out h = (held, refl, h)
ledger_split (acquire r ∷ xs) ys held out h = ledger_split xs ys (r ∷ held) out h
ledger_split (uses r ∷ xs) ys held out h = elim (Bool-cases (holds r held)) [
  | inl has ↦
      let (mid, first, next) = ledger_split xs ys held out (rw (has, ledger) at h) in
      (mid, rw (has, ledger) first, next)
  | inr lacks ↦ let no : none ≡ some out = rw (lacks, ledger) at h in absurd (cc)
]
ledger_split (release r ∷ xs) ys held out h = elim (Bool-cases (may_release r held)) [
  | inl may ↦
      let (mid, first, next) = ledger_split xs ys (drop r held) out (rw (may, ledger) at h) in
      (mid, rw (may, ledger) first, next)
  | inr not_held ↦ let no : none ≡ some out = rw (not_held, ledger) at h in absurd (cc)
]
