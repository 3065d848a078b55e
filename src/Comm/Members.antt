-- ===== src/Comm/Members.antt =====
-- oshmpi_acquire_comm and oshmpi_release_comm of src/shmem-internals.c: whom a communicator joins, and
-- what is open between two collectives.
use oshmpi.Prelude.{
  ℕ, zero, suc, ◌+◌, ◌-◌, ◌^◌, ◌≡◌, ◌⊎◌, inl, inr, refl, ap, ◌∙◌, true, false, ◌&&◌, some, List,
  arith, Bool-cases, Option-cases, replicate,
}
use oshmpi.Prelude.Int.{ℤ}
use oshmpi.Globals.{Globals}
use oshmpi.Comm.{
  Comm, initial_comms, empty_entry, shmem_comm_cache_size, comm_world, comm_created, CacheEntry,
  Comms, pe_list, lookup_comm, insert_comm, is_cached, is_world, Acquired, create_comm,
  acquire_comm, release_comm,
}
use oshmpi.Comm.Cache.{
  entry_of, vacant, AllSound, AllSound-later, filled, lookup-held, lookup-cached, fresh-cached,
  insert-Sound, insert-filled, insert-cached,
}

-- The PEs of a communicator, by rank in it.
abbrev pub members : Globals → Comm → List ℕ
members g comm_world = pe_list 0 1 0 g.shmem_world_size
members g (comm_created serial pes) = pes

-- Between two collectives the entries say what is so, and every open communicator is in the cache.
-- The groups of the cached ones are open too, and so is the list of PEs of each: that one is
-- never freed.
pub record Inv (s : Comms) : Type 0 where
  pub sound : AllSound s.serial s.comm_cache
  pub comms_kept : s.open_comms ≡ filled s.comm_cache
  pub groups_kept : s.open_groups ≡ filled s.comm_cache
  pub lists_kept : s.open_lists ≡ filled s.comm_cache

-- Nothing is open at first, and the cache has sixteen empty entries.
pub initial-Inv : Inv initial_comms
unfolding filled
initial-Inv = record {
  sound = all_vacant shmem_comm_cache_size;
  comms_kept = refl;
  groups_kept = refl;
  lists_kept = refl;
}
  where
    all_vacant : (n : ℕ) → AllSound 0 (replicate n empty_entry)
    all_vacant zero = tt
    all_vacant (suc n) = (vacant refl, all_vacant n)

module _ (translate_ranks : List ℕ → ℤ → ℤ) (g : Globals) (s : Comms) (inv : Inv s)
    (pe_start pe_logs pe_size : ℕ) (pe_root : ℤ) where
  abbrev acquired : Acquired
  acquired = acquire_comm translate_ranks g s pe_start pe_logs pe_size pe_root

  abbrev created : Acquired
  created = create_comm translate_ranks g s pe_start pe_logs pe_size pe_root

  abbrev released : Comms
  released = release_comm g acquired.comms pe_start pe_logs pe_size acquired.comm

  -- The three ways to a communicator.
  pub acquire_cases :
      ((is_world g pe_start pe_logs pe_size ≡ true)
        × (acquired ≡ record { comm = some comm_world; broot = pe_root; comms = s }))
      ⊎ ((is_world g pe_start pe_logs pe_size ≡ false)
          × (g.comm_caching ≡ true)
          × ((e : CacheEntry) × (lookup_comm pe_start pe_logs pe_size s.comm_cache ≡ some e)
              × (acquired.comm ≡ e.comm)
              × (acquired.comms ≡ s)))
      ⊎ ((is_world g pe_start pe_logs pe_size ≡ false) × (acquired ≡ created))
  unfolding acquire_comm
  acquire_cases = elim (Bool-cases (is_world g pe_start pe_logs pe_size)) [
    | inl world ↦ inl (world, rw world)
    | inr part ↦ inr (elim (Bool-cases g.comm_caching) [
      | inl caching ↦ elim (Option-cases (lookup_comm pe_start pe_logs pe_size s.comm_cache)) [
        | inl miss ↦ inr (part, simp (part, caching, miss))
        | inr (e, hit) ↦
            inl (part, caching, (e, hit, simp (part, caching, hit), simp (part, caching, hit)))
      ]
      | inr plain ↦ inr (part, simp (part, plain))
    ])
  ]

  -- The communicator of a call joins the PEs pe_start + i * 2^pe_logs for i below pe_size, in this
  -- order, whether it is that of the world, one from the cache, or a new one.
  pub acquire_comm-members :
      (c : Comm) × (acquired.comm ≡ some c)
      × (members g c ≡ pe_list pe_start (2 ^ pe_logs) 0 pe_size)
  unfolding create_comm
  acquire_comm-members = elim acquire_cases [
    | inl (world, is) ↦ (comm_world, ap (λ r. r.comm) is, ground arith)
    | inr (inl (part, caching, (e, hit, comm, same))) ↦
        let (n, held) =
          lookup-held pe_start pe_logs pe_size s.serial s.comm_cache e inv.sound hit in
        (_, comm ∙ ap (λ x. x.comm) held, refl)
    | inr (inr (part, is)) ↦ (_, ap (λ r. r.comm) is, refl)
  ]

  abbrev pes : List ℕ
  pes = pe_list pe_start (2 ^ pe_logs) 0 pe_size

  abbrev opened : Comms
  opened = record s { serial = s.serial + 1; open_comms = s.open_comms + 1 }

  opened-Inv : Inv (record opened { open_comms = s.open_comms + 1 - 1 })
  opened-Inv = record {
    sound = AllSound-later s.comm_cache s.serial inv.sound;
    comms_kept = omega (arith, inv.comms_kept);
    groups_kept = inv.groups_kept;
    lists_kept = inv.lists_kept;
  }

  cached-Inv :
      (l : List CacheEntry)
      → insert_comm (entry_of pe_start pe_logs pe_size s.serial) s.comm_cache ≡ some l
      → Inv (record opened {
        comm_cache = l;
        open_groups = s.open_groups + 1;
        open_lists = s.open_lists + 1;
      })
  cached-Inv l e =
      let more = insert-filled pe_start pe_logs pe_size s.serial s.comm_cache l e in
      record {
        sound =
            insert-Sound pe_start pe_logs pe_size s.serial s.comm_cache l
              (AllSound-later s.comm_cache s.serial inv.sound) e;
        comms_kept = omega (arith, inv.comms_kept, more);
        groups_kept = omega (arith, inv.groups_kept, more);
        lists_kept = omega (arith, inv.lists_kept, more);
      }

  -- What making a communicator leaves behind, cached or not.
  created_cases :
      ((g.comm_caching ≡ true)
        × Inv created.comms
        × (is_cached created.comm created.comms.comm_cache ≡ true))
      ⊎ (((g.comm_caching && is_cached created.comm created.comms.comm_cache) ≡ false)
          × Inv (record created.comms { open_comms = created.comms.open_comms - 1 }))
  unfolding create_comm
  created_cases = elim (Bool-cases g.comm_caching) [
    | inr plain ↦ inr (ground arith, simp plain opened-Inv)
    | inl caching ↦
        elim (Option-cases
          (insert_comm (entry_of pe_start pe_logs pe_size s.serial) s.comm_cache)) [
            | inl full ↦ inr (
              simp (caching, full) (fresh-cached s.comm_cache s.serial pes inv.sound),
              simp (caching, full) opened-Inv,
            )
            | inr (l, put) ↦ inl (
              caching,
              simp (caching, put) (cached-Inv l put),
              simp (caching, put)
                  (insert-cached pe_start pe_logs pe_size s.serial s.comm_cache l put),
            )
          ]
  ]

  -- A collective acquires a communicator and releases it behind its call. The pair keeps the cache
  -- in order: its entries say what is so, and every communicator and every group that is open
  -- is one of the cache's, so none is lost.
  pub acquire-release-Inv : Inv released
  unfolding release_comm
  acquire-release-Inv = elim acquire_cases [
    | inl (world, is) ↦ simp (world, is) inv
    | inr (inl (part, caching, (e, hit, comm, same))) ↦
        let (n, held) =
          lookup-held pe_start pe_logs pe_size s.serial s.comm_cache e inv.sound hit in
        let has : e.comm ≡ some (comm_created n pes) = ap (λ x. x.comm) held in
        let cached = lookup-cached pe_start pe_logs pe_size s.comm_cache e _ hit has in
        simp (part, same, comm, has, caching, cached) inv
    | inr (inr (part, is)) ↦ elim created_cases [
      | inl (caching, kept, cached) ↦ simp (part, is, caching, cached) kept
      | inr (gone, kept) ↦ simp (part, is, gone) kept
    ]
  ]
