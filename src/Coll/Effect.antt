-- ===== src/Coll/Effect.antt =====
-- What the MPI library documents of the collective calls that oshmpi_coll of src/shmem-internals.c makes,
-- when the PEs of a communicator make them together: MPI_Bcast, MPI_Allgather,
-- MPI_Allgatherv and MPI_Allreduce. The memories of all
-- PEs are a function of the PE.
use oshmpi.Prelude.{
  ℕ, Bool, ◌+◌, ◌*◌, ◌<◌, ◌≡◌, ◌≢◌, Option, some, List, map, get_elem?, length, if◌then◌else◌,
}
use mathlib.Core.List.{Memᴰ}
use oshmpi.Prelude.Int.{pos}
use oshmpi.Mpi.{Basic, basic, Op}
use oshmpi.Mpi.Memory.{Memory, span, gather, scatter}
use oshmpi.Mpi.Library.{Mpi}
use oshmpi.Comm.{Comm}
use oshmpi.Coll.{
  Collective, mpi_bcast, mpi_allgather, mpi_allgather_counts, mpi_allgatherv, mpi_allreduce,
}
use oshmpi.Coll.Layout.{before}

abbrev pub Memories : Type 0
Memories = ℕ → Memory

module _ (mpi : Mpi) where
  open mpi use {type_size}

  -- `together` is the memories behind the calls that the PEs of a list make, and `Matched` says that
  -- the handles of the PEs of the list are those of one communicator, of these PEs in this order.
  pub record Documented (together : List ℕ → (ℕ → Collective) → Memories → Memories)
      (Matched : List ℕ → (ℕ → Comm) → Type 0) : Type 0 where
    -- Every other PE's buffer gets what the root's buffer holds; the root's memory is kept.
    pub bcast :
        (pes : List ℕ) (comm : ℕ → Comm) (calls : ℕ → Collective) (mems : Memories) (buffer : ℕ → ℕ)
        (count k root p : ℕ) (b : Basic)
        → Matched pes comm
        → ((q : ℕ)
            → Memᴰ q pes
            → calls q ≡ mpi_bcast (buffer q) count (basic b) (pos k) (some (comm q)))
        → get_elem? pes k ≡ some root
        → Memᴰ p pes
        → p ≢ root
        → together pes calls mems p
          ≡ scatter
              (mems p)
              (buffer p)
              (span 0 (count * type_size b))
              (gather (mems root) (buffer root) (span 0 (count * type_size b)))
    pub bcast_root :
        (pes : List ℕ) (comm : ℕ → Comm) (calls : ℕ → Collective) (mems : Memories) (buffer : ℕ → ℕ)
        (count k root : ℕ) (b : Basic)
        → Matched pes comm
        → ((q : ℕ)
            → Memᴰ q pes
            → calls q ≡ mpi_bcast (buffer q) count (basic b) (pos k) (some (comm q)))
        → get_elem? pes k ≡ some root
        → together pes calls mems root ≡ mems root
    -- Each PE gets the block of the PE of rank `i` behind those of the ranks before, all of one size.
    pub allgather :
        (pes : List ℕ) (comm : ℕ → Comm) (calls : ℕ → Collective) (mems : Memories)
        (source target count : ℕ) (b : Basic)
        → Matched pes comm
        → ((q : ℕ)
            → Memᴰ q pes
            → calls q ≡ mpi_allgather source count (basic b) target (some (comm q)))
        → (p i q : ℕ) → Memᴰ p pes
        → get_elem? pes i ≡ some q
        → gather
            (together pes calls mems p)
            (target + i * count * type_size b)
            (span 0 (count * type_size b))
          ≡ gather (mems q) source (span 0 (count * type_size b))
    -- Each PE gets the block of the PE of rank `i` at the displacement of rank `i`, where the blocks
    -- lie end to end.
    pub allgatherv :
        (pes : List ℕ) (comm : ℕ → Comm) (calls : ℕ → Collective) (mems : Memories) (count : ℕ → ℕ)
        (source target : ℕ) (b : Basic) (rdispls : List ℕ)
        → Matched pes comm
        → ((q : ℕ)
            → Memᴰ q pes
            → calls q
              ≡ mpi_allgatherv source
                  (count q)
                  (basic b)
                  target
                  (map count pes)
                  rdispls
                  (some (comm q)))
        → ((i : ℕ) → i < length pes → get_elem? rdispls i ≡ some (before (map count pes) i))
        → (p i q : ℕ) → Memᴰ p pes
        → get_elem? pes i ≡ some q
        → gather
            (together pes calls mems p)
            (target + before (map count pes) i * type_size b)
            (span 0 (count q * type_size b))
          ≡ gather (mems q) source (span 0 (count q * type_size b))

  -- `gathered` is what the calls that come before those of the items give each PE of a list. From
  -- MPI_Allgather of the counts, each PE gets those of all in the order of their ranks.
  pub record Counting (gathered : List ℕ → (ℕ → Option Collective) → ℕ → List ℕ)
      (Matched : List ℕ → (ℕ → Comm) → Type 0) : Type 0 where
    pub counts :
        (pes : List ℕ) (comm : ℕ → Comm) (firsts : ℕ → Option Collective) (count : ℕ → ℕ)
        → Matched pes comm
        → ((q : ℕ) → Memᴰ q pes → firsts q ≡ some (mpi_allgather_counts (count q) (some (comm q))))
        → (p : ℕ) → Memᴰ p pes
        → gathered pes firsts p ≡ map count pes

  -- Each PE gets, item by item, what the operator makes of the items of all, `reduce`. An item is
  -- read from the PE's source, or in place from its target.
  pub record Reducing (reduce : Op → Basic → List (List ℕ) → List ℕ)
      (together : List ℕ → (ℕ → Collective) → Memories → Memories)
      (Matched : List ℕ → (ℕ → Comm) → Type 0) : Type 0 where
    pub allreduce :
        (pes : List ℕ) (comm : ℕ → Comm) (calls : ℕ → Collective) (mems : Memories)
        (in_place : Bool) (source target count : ℕ) (b : Basic) (op : Op)
        → Matched pes comm
        → ((q : ℕ)
            → Memᴰ q pes
            → calls q ≡ mpi_allreduce in_place source target count (basic b) op (some (comm q)))
        → (p j : ℕ) → Memᴰ p pes
        → j < count
        → gather (together pes calls mems p) (target + j * type_size b) (span 0 (type_size b))
          ≡ reduce op b (
              map
                (λ q.
                  gather
                    (mems q)
                    ((if in_place then target else source) + j * type_size b)
                    (span 0 (type_size b)))
                pes)
