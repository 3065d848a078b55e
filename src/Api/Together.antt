-- ===== src/Api/Together.antt =====
-- The broadcasts and the collects of src/shmem.c when the PEs of an active set call them together: what
-- is in their memories then.
use mathlib.Core.List.{Memᴰ}
use oshmpi.Prelude.{
  ℕ, ◌+◌, ◌*◌, ◌^◌, ◌<◌, ◌≡◌, ◌≢◌, refl, sym, ap, ◌∙◌, true, false, Option, none, some, List, map,
  get_elem?, length, length-map, arith, ◌==◌, if◌then◌else◌,
}
use oshmpi.Prelude.Int.{ℤ, pos, negsuc}
use oshmpi.Mpi.{basic, mpi_op_null}
use oshmpi.Mpi.Memory.{span, gather, scatter}
use oshmpi.Mpi.Library.{Mpi}
use oshmpi.Contiguous.{int_max}
use oshmpi.Globals.{Globals}
use oshmpi.Comm.{Comm, Comms, acquire_comm, pe_list}
use oshmpi.Comm.Members.{Inv}
use oshmpi.Coll.{
  Collective, mpi_bcast, mpi_allgather_counts, mpi_allgatherv, CollOutcome, called, coll_aborted,
  displacements, counts_call, coll_call, shmem_collect,
}
use oshmpi.Coll.Layout.{before, displacements_layout, get_elem?-pe_list}
use oshmpi.Coll.Calls.{plain_count, coll_called, Translates}
use oshmpi.Coll.Effect.{Memories, Documented, Counting}
use oshmpi.Api.Group.{Width, width_type, broadcast, collect}
use oshmpi.Api.Reduce.{broadcast-called}

-- The MPI call of a collective that returns.
abbrev pub call_of : CollOutcome → Option Collective
call_of (called made first call freed s) = some call
call_of (coll_aborted code) = none

-- The call that comes before it, if there is one.
abbrev pub first_of : CollOutcome → Option Collective
first_of (called made first call freed s) = first
first_of (coll_aborted code) = none

module _ {mpi : Mpi} {together : List ℕ → (ℕ → Collective) → Memories → Memories}
    {Matched : List ℕ → (ℕ → Comm) → Type 0} (documented : Documented mpi together Matched)
    (translate_ranks : List ℕ → ℤ → ℤ) (g : ℕ → Globals) (s : ℕ → Comms)
    (ranks : (q : ℕ) → (g q).shmem_world_rank ≡ q) (invs : (q : ℕ) → Inv (s q))
    (pe_start pe_logs pe_size : ℕ) (psync : ℕ → List ℤ) where
  abbrev pes : List ℕ
  pes = pe_list pe_start (2 ^ pe_logs) 0 pe_size

  -- The communicators that the PEs acquire for the call, with `root` its root or -1, are one.
  abbrev pub Agree : (root : ℤ) → (ℕ → Comm) → Type 0
  Agree root comm =
      Matched pes comm
      × ((q : ℕ)
          → Memᴰ q pes
          → (acquire_comm translate_ranks (g q) (s q) pe_start pe_logs pe_size root).comm
            ≡ some (comm q))

  -- The PEs of an active set call a broadcast together, of fewer than INT32_MAX items from the PE
  -- pe_start + k * 2^pe_logs with k below pe_size, and the communicators that they acquire are one.
  -- Then the target of each other PE has the items of the root's source and the rest of its memory is
  -- as it was, and so is all of the root's memory. This rests on what MPI documents of MPI_Bcast and
  -- of MPI_Group_translate_ranks.
  pub broadcast_effect :
      Translates translate_ranks
      → (w : Width) (target source nlong k : ℕ) → k < pe_size
      → nlong < int_max
      → (comm : ℕ → Comm) → Agree (pos (pe_start + k * 2 ^ pe_logs)) comm
      → (calls : ℕ → Collective)
      → ((q : ℕ)
          → Memᴰ q pes
          → call_of
              (broadcast translate_ranks mpi.extent
                (g q)
                (s q)
                pe_start
                pe_logs
                pe_size
                (psync q)
                w
                target
                source
                nlong
                (pos (pe_start + k * 2 ^ pe_logs))).outcome
            ≡ some (calls q))
      → (mems : Memories) (p : ℕ) → Memᴰ p pes
      → p ≢ pe_start + k * 2 ^ pe_logs
      → (together pes calls mems p
          ≡ scatter (mems p) target (span 0 (nlong * mpi.type_size (width_type w))) (
              gather
                (mems (pe_start + k * 2 ^ pe_logs))
                source
                (span 0 (nlong * mpi.type_size (width_type w)))))
        × (together pes calls mems (pe_start + k * 2 ^ pe_logs) ≡ mems (pe_start + k * 2 ^ pe_logs))
  broadcast_effect translates w target source nlong k member small comm (matched, acquired) calls
        made mems p in_set other =
      let root = pe_start + k * 2 ^ pe_logs in
      let buffer : ℕ → ℕ = λ q. if q == root then source else target in
      let is : (q : ℕ)
          → Memᴰ q pes
          → calls q ≡ mpi_bcast (buffer q) nlong (basic (width_type w)) (pos k) (some (comm q)) =
        λ q inside.
          let called_so =
            broadcast-called translate_ranks mpi.extent (g q) (s q) pe_start pe_logs pe_size
              (psync q) translates (invs q) w target source nlong k member small in
          let e : some (calls q)
              ≡ some (mpi_bcast (buffer q) nlong (basic (width_type w)) (pos k) (some (comm q))) =
            rw (acquired q inside, ranks q) at (sym (made q inside) ∙ ap call_of called_so) in
          cc in
      let off : (p == root) ≡ false = ground arith in
      let on : (root == root) ≡ true = ground arith in
      let at_root = get_elem?-pe_list pe_start (2 ^ pe_logs) pe_size k member in
      (
        rw (off, on) at
            (documented.bcast pes comm calls mems buffer nlong k root p (width_type w) matched is
              at_root in_set other),
        documented.bcast_root pes comm calls mems buffer nlong k root (width_type w) matched is
            at_root,
      )

  -- The same for a collect, with what the PEs' first calls give them. Its hypotheses are those of
  -- Api.Gathered.
  pub collect_effect :
      (gathered : List ℕ → (ℕ → Option Collective) → ℕ → List ℕ)
      → Counting mpi gathered Matched
      → (w : Width) (target source : ℕ) (nlong : ℕ → ℕ) → ((q : ℕ) → nlong q < int_max)
      → before (map nlong pes) (length (map nlong pes)) < 2 ^ 31
      → (comm : ℕ → Comm) → Agree (negsuc 0) comm
      → (firsts : ℕ → Option Collective) (calls : ℕ → Collective)
      → ((q : ℕ)
          → Memᴰ q pes
          → let o =
              (collect translate_ranks mpi.extent
                (g q)
                (s q)
                pe_start
                pe_logs
                pe_size
                (psync q)
                w
                target
                source
                (nlong q)
                (gathered pes firsts q)).outcome in
            (first_of o ≡ firsts q) × (call_of o ≡ some (calls q)))
      → (mems : Memories) (p i q : ℕ) → Memᴰ p pes
      → get_elem? pes i ≡ some q
      → gather
          (together pes calls mems p)
          (target + before (map nlong pes) i * mpi.type_size (width_type w))
          (span 0 (nlong q * mpi.type_size (width_type w)))
        ≡ gather (mems q) source (span 0 (nlong q * mpi.type_size (width_type w)))
  unfolding collect coll_call counts_call
  collect_effect gathered counting w target source nlong small sum comm (matched, acquired) firsts
        calls made mems p i q in_set at =
      let rcounts = map nlong pes in
      let called_so : (r : ℕ)
          → Memᴰ r pes
          → (firsts r ≡ some (mpi_allgather_counts (nlong r) (some (comm r))))
            × (calls r
                ≡ mpi_allgatherv source (nlong r) (basic (width_type w)) target
                    (gathered pes firsts r) (displacements (gathered pes firsts r))
                    (some (comm r))) =
        λ r inside.
          let (plain, kept) = plain_count mpi.extent (nlong r) (width_type w) (small r) in
          let called_with =
            coll_called translate_ranks mpi.extent (g r) (s r) (invs r) (negsuc 0) pe_start pe_logs
              pe_size shmem_collect (width_type w) mpi_op_null target source (nlong r)
              (gathered pes firsts r) _ refl in
          let first : firsts r ≡ some (mpi_allgather_counts (nlong r) (some (comm r))) =
            rw (plain, acquired r inside) at (sym (made r inside).0 ∙ ap first_of called_with) in
          let e : some (calls r)
              ≡ some (
                  mpi_allgatherv source (nlong r) (basic (width_type w)) target
                    (gathered pes firsts r) (displacements (gathered pes firsts r))
                    (some (comm r))) =
            rw (plain, acquired r inside) at (sym (made r inside).1 ∙ ap call_of called_with) in
          (first, cc) in
      let is : (r : ℕ)
          → Memᴰ r pes
          → calls r
            ≡ mpi_allgatherv source (nlong r) (basic (width_type w)) target rcounts
                (displacements rcounts) (some (comm r)) =
        λ r inside.
          let all =
            counting.counts pes comm firsts nlong matched (λ q' h. (called_so q' h).0) r inside in
          rw all at (called_so r inside).1 in
      documented.allgatherv pes comm calls mems nlong source target (width_type w)
        (displacements rcounts) matched is
        (λ j lt. displacements_layout rcounts j sum (rw (length-map nlong pes) lt)) p i q in_set at
