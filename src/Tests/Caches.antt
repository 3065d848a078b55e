-- ===== src/Tests/Caches.antt =====
-- Two PEs whose caches of communicators disagree: one has called collectives of sixteen other sets.
use oshmpi.Prelude.{ℕ, zero, suc, ◌+◌, ◌<◌, ◌≡◌, refl, none, List, [], ◌∷◌, length, arith}
use oshmpi.Prelude.Int.{negsuc}
use oshmpi.Globals.{Globals}
use oshmpi.Comm.{
  Comms, initial_comms, lookup_comm, insert_comm, acquire_comm, release_comm, create_comm,
  is_cached, pe_list, translated_root,
}
use oshmpi.Comm.Cache.{filled}
use oshmpi.Comm.Bound.{Request, serve, serve_all}
use oshmpi.Comm.Disagree.{makes, caches_disagree}
use oshmpi.Tests.Setting.{node, position}

abbrev many : Globals
many = record node { shmem_world_size = 64 }

abbrev pair : ℕ → Request
pair n = record { pe_start = 5; pe_logs = n; pe_size = 2; pe_root = negsuc 0 }

abbrev others : ℕ → List Request
others zero = []
others (suc n) = record { pe_start = n; pe_logs = 0; pe_size = 3; pe_root = negsuc 0 } ∷ others n

abbrev busy : Comms
busy = serve_all position many initial_comms (others 16)

is_full : filled busy.comm_cache ≡ length busy.comm_cache
unfolding serve_all serve acquire_comm create_comm lookup_comm insert_comm release_comm is_cached
    pe_list translated_root filled
is_full = refl

busy_misses : lookup_comm 5 1 2 busy.comm_cache ≡ none
unfolding serve_all serve acquire_comm create_comm lookup_comm insert_comm release_comm is_cached
    pe_list translated_root
busy_misses = refl

free_misses : lookup_comm 5 1 2 initial_comms.comm_cache ≡ none
unfolding lookup_comm
free_misses = refl

has_room : filled initial_comms.comm_cache < length initial_comms.comm_cache
unfolding filled
has_room = omega arith

caches_disagree_example :
    (makes position many (pair 1) refl refl (serve position many busy (pair 1))
      ≡ (serve position many busy (pair 1)).serial + 1)
    × (makes position many (pair 1) refl refl (serve position many initial_comms (pair 1))
        ≡ (serve position many initial_comms (pair 1)).serial)
caches_disagree_example =
    caches_disagree position many (pair 1) refl refl busy initial_comms is_full has_room busy_misses
      free_misses
