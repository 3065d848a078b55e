-- ===== src/Comm.antt =====
-- The communicators of the collectives: oshmpi_acquire_comm, oshmpi_release_comm and
-- oshmpi_translate_root of src/shmem-internals.c, with the cache of `shmem_comm_t`. A communicator
-- is written as the call that made it, with a serial number that tells two such calls apart.
pub mod Cache
pub mod Members
pub mod Bound
pub mod Disagree
use oshmpi.Prelude.{
  ℕ, zero, suc, ◌+◌, ◌-◌, ◌*◌, ◌^◌, Bool, true, false, ◌&&◌, Option, none, some, List, [], ◌∷◌,
  ◌==◌, if◌then◌else◌, replicate,
}
use oshmpi.Prelude.Int.{ℤ, pos, negsuc, leb_ℤ, eqb_ℤ}
use oshmpi.Globals.{Globals}

pub data Comm : Type 0 where
  comm_world : Comm
  comm_created : (serial : ℕ) → (pes : List ℕ) → Comm

-- shmem_comm_t; MPI_COMM_NULL and MPI_GROUP_NULL are `none`. A group is the list of its PEs.
pub record CacheEntry : Type 0 where
  pub start : ℤ
  pub logs : ℤ
  pub size : ℤ
  pub comm : Option Comm
  pub group : Option (List ℕ)

-- The cache, and what has been made and not yet freed.
pub record Comms : Type 0 where
  pub comm_cache : List CacheEntry
  pub serial : ℕ
  pub open_comms : ℕ
  pub open_groups : ℕ
  pub open_lists : ℕ

-- The entries as oshmpi_initialize sets them.
abbrev pub empty_entry : CacheEntry
empty_entry = record {
  start = negsuc 0;
  logs = negsuc 0;
  size = negsuc 0;
  comm = none;
  group = none;
}

abbrev pub shmem_comm_cache_size : ℕ
shmem_comm_cache_size = 16

abbrev pub initial_comms : Comms
initial_comms = record {
  comm_cache = replicate shmem_comm_cache_size empty_entry;
  serial = 0;
  open_comms = 0;
  open_groups = 0;
  open_lists = 0;
}

-- The loop that fills `pe_list`: pe_start + i*pe_stride for i from `i` on, `n` times. These are C ints,
-- and so is the stride, 1<<pe_logs; for PEs of a job of fewer than 2^31 none of them overflows.
unfoldable pub pe_list : (pe_start pe_stride i n : ℕ) → List ℕ
pe_list pe_start pe_stride i zero = []
pe_list pe_start pe_stride i (suc n) =
    (pe_start + i * pe_stride) ∷ pe_list pe_start pe_stride (i + 1) n

-- Whether an entry is for the PEs of the call.
abbrev pub matches : (pe_start pe_logs pe_size : ℕ) → CacheEntry → Bool
matches pe_start pe_logs pe_size e =
    eqb_ℤ (pos pe_start) e.start && eqb_ℤ (pos pe_logs) e.logs && eqb_ℤ (pos pe_size) e.size

unfoldable pub lookup_comm : (pe_start pe_logs pe_size : ℕ) → List CacheEntry → Option CacheEntry
lookup_comm pe_start pe_logs pe_size [] = none
lookup_comm pe_start pe_logs pe_size (e ∷ rest) =
    if matches pe_start pe_logs pe_size e then some e else lookup_comm pe_start pe_logs pe_size rest

-- The first entry without a communicator is filled; `none` if there is none.
unfoldable pub insert_comm : CacheEntry → List CacheEntry → Option (List CacheEntry)
insert_comm new [] = none
insert_comm new (e ∷ rest) =
    let later = insert_comm new rest in
    elim (e.comm) [
      | none ↦ some (new ∷ rest)
      | some _ ↦ elim later [ none ↦ none | some filled ↦ some (e ∷ filled) ]
    ]

abbrev pub is_world : Globals → (pe_start pe_logs pe_size : ℕ) → Bool
is_world g pe_start pe_logs pe_size =
    (pe_start == 0) && (pe_logs == 0) && (pe_size == g.shmem_world_size)

pub record Acquired : Type 0 where
  pub comm : Option Comm
  pub broot : ℤ
  pub comms : Comms

-- MPI_Group_translate_ranks from the world is a parameter: the rank in a group of a rank of the
-- world.
module _ (translate_ranks : List ℕ → ℤ → ℤ) where
  -- oshmpi_translate_root, under `if (pe_root>=0)`; `broot` keeps its initial 0 otherwise.
  unfoldable pub translated_root : List ℕ → ℤ → ℤ
  translated_root group pe_root =
      if leb_ℤ (pos 0) pe_root then translate_ranks group pe_root else pos 0

  -- The part behind the cache lookup: the communicator is made, and cached if an entry is free.
  -- The list of PEs is freed only where the cache is full or not in use.
  unfoldable pub create_comm : Globals → Comms → (pe_start pe_logs pe_size : ℕ) → ℤ → Acquired
  create_comm g s pe_start pe_logs pe_size pe_root =
      let pes = pe_list pe_start (2 ^ pe_logs) 0 pe_size in
      let comm = comm_created s.serial pes in
      let new : CacheEntry = record {
        start = pos pe_start;
        logs = pos pe_logs;
        size = pos pe_size;
        comm = some comm;
        group = some pes;
      } in
      let opened : Comms = record s { serial = s.serial + 1; open_comms = s.open_comms + 1 } in
      record {
        comm = some comm;
        broot = translated_root pes pe_root;
        comms =
            if g.comm_caching
            then (elim (insert_comm new s.comm_cache) [
              | none ↦ opened
              | some filled ↦ record opened {
                comm_cache = filled;
                open_groups = s.open_groups + 1;
                open_lists = s.open_lists + 1;
              }
            ])
            else opened;
      }

  unfoldable pub acquire_comm : Globals → Comms → (pe_start pe_logs pe_size : ℕ) → ℤ → Acquired
  acquire_comm g s pe_start pe_logs pe_size pe_root =
      if is_world g pe_start pe_logs pe_size
      then record { comm = some comm_world; broot = pe_root; comms = s }
      else if g.comm_caching
      then (elim (lookup_comm pe_start pe_logs pe_size s.comm_cache) [
        | none ↦ create_comm g s pe_start pe_logs pe_size pe_root
        | some e ↦ record {
          comm = e.comm;
          broot = (elim (e.group) [ none ↦ pos 0 | some group ↦ translated_root group pe_root ]);
          comms = s;
        }
      ])
      else create_comm g s pe_start pe_logs pe_size pe_root

-- `comm_cache[i].comm == *comm`: two handles are the same communicator.
abbrev pub same_comm : Option Comm → Option Comm → Bool
same_comm none none = true
same_comm (some comm_world) (some comm_world) = true
same_comm (some (comm_created a _)) (some (comm_created b _)) = a == b
same_comm _ _ = false

unfoldable pub is_cached : Option Comm → List CacheEntry → Bool
is_cached comm [] = false
is_cached comm (e ∷ rest) = if same_comm e.comm comm then true else is_cached comm rest

unfoldable pub release_comm : Globals → Comms → (pe_start pe_logs pe_size : ℕ) → Option Comm → Comms
release_comm g s pe_start pe_logs pe_size comm =
    if is_world g pe_start pe_logs pe_size
    then s
    else if g.comm_caching && is_cached comm s.comm_cache
    then s
    else record s { open_comms = s.open_comms - 1 }
