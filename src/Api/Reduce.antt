-- ===== src/Api/Reduce.antt =====
-- The reductions and the broadcasts of src/shmem.c: what they ask of MPI.
use oshmpi.Prelude.{
  ℕ, ◌+◌, ◌*◌, ◌^◌, ◌<◌, ◌≡◌, refl, none, some, List, [], arith, ◌==◌, if◌then◌else◌,
}
use oshmpi.Prelude.Int.{ℤ, pos, negsuc, eqb_ℤ}
use oshmpi.Mpi.{
  Basic, Datatype, basic, Op, mpi_op_null, mpi_min, mpi_max, mpi_sum, mpi_prod, mpi_land, mpi_bor,
  mpi_bxor,
}
use oshmpi.Contiguous.{int_max}
use oshmpi.Globals.{Globals}
use oshmpi.Comm.{Comm, Comms, Acquired, acquire_comm, release_comm, pe_list}
use oshmpi.Comm.Members.{Inv, members, acquire_comm-members, acquire-release-Inv}
use oshmpi.Coll.{
  mpi_bcast, mpi_allreduce, CollOutcome, called, counts_call, coll_call, shmem_broadcast,
  shmem_allreduce,
}
use oshmpi.Coll.Calls.{plain_count, coll_called, Translates, acquire_comm-broot}
use oshmpi.Api.Group.{
  Number, number_type, Whole, whole_type, and_to_all, or_to_all, xor_to_all, Width, width_type,
  to_all, min_to_all, max_to_all, sum_to_all, prod_to_all, broadcast,
}

same_root : (a b : ℕ) → eqb_ℤ (pos a) (pos b) ≡ (a == b)
same_root a b = ground arith

module _ (translate_ranks : List ℕ → ℤ → ℤ) (extent : Datatype → ℕ) (g : Globals) (s : Comms)
    (pe_start pe_logs pe_size : ℕ) (psync : List ℤ) where
  -- An outcome that is one MPI_Allreduce with the operator, on a communicator of the call's PEs,
  -- and leaves the cache of communicators in order.
  abbrev pub Reduces : Basic → Op → (target source nreduce : ℕ) → CollOutcome → Type 0
  Reduces t op target source nreduce o =
      (s' : Comms) × (c : Comm) × (o
        ≡ called [] none
            (mpi_allreduce (source == target) source target nreduce (basic t) op (some c)) [] s')
      × (members g c ≡ pe_list pe_start (2 ^ pe_logs) 0 pe_size)
      × Inv s'

  to_all-Reduces :
      Inv s
      → (t : Basic) (op : Op) (target source nreduce : ℕ) → nreduce < int_max
      → Reduces t op target source nreduce
          (to_all translate_ranks extent g s pe_start pe_logs pe_size psync t op target source
            nreduce).outcome
  unfolding coll_call counts_call
  to_all-Reduces inv t op target source nreduce small =
      let a : Acquired = acquire_comm translate_ranks g s pe_start pe_logs pe_size (negsuc 0) in
      let (c, has, joined) =
        acquire_comm-members translate_ranks g s inv pe_start pe_logs pe_size (negsuc 0) in
      let (plain, kept) = plain_count extent nreduce t small in
      let kept_in =
        acquire-release-Inv translate_ranks g s inv pe_start pe_logs pe_size (negsuc 0) in
      let is =
        coll_called translate_ranks extent g s inv (negsuc 0) pe_start pe_logs pe_size
          shmem_allreduce t op target source nreduce [] _ refl in
      (
        release_comm g a.comms pe_start pe_logs pe_size (some c),
        c,
        rw (plain, kept, has) at is,
        joined,
        rw has at kept_in,
      )

  -- A reduction of fewer than INT32_MAX items is one MPI_Allreduce with the type of the function's
  -- name, in place just if target and source are the same. The operators are the logical and, the
  -- bitwise or, the bitwise exclusive or, minimum, maximum, sum and product. The call is made on a
  -- communicator of the PEs pe_start + i * 2^pe_logs for i below pe_size, no derived type is made,
  -- and the cache of communicators is left in order.
  pub allreduce_calls :
      Inv s
      → (w : Whole) (t : Number) (target source nreduce : ℕ) → nreduce < int_max
      → Reduces
          (whole_type w)
          mpi_land
          target
          source
          nreduce
          (and_to_all translate_ranks extent g s pe_start pe_logs pe_size psync w target source
            nreduce).outcome
        × Reduces
            (whole_type w)
            mpi_bor
            target
            source
            nreduce
            (or_to_all translate_ranks extent g s pe_start pe_logs pe_size psync w target source
              nreduce).outcome
        × Reduces
            (whole_type w)
            mpi_bxor
            target
            source
            nreduce
            (xor_to_all translate_ranks extent g s pe_start pe_logs pe_size psync w target source
              nreduce).outcome
        × Reduces
            (number_type t)
            mpi_min
            target
            source
            nreduce
            (min_to_all translate_ranks extent g s pe_start pe_logs pe_size psync t target source
              nreduce).outcome
        × Reduces
            (number_type t)
            mpi_max
            target
            source
            nreduce
            (max_to_all translate_ranks extent g s pe_start pe_logs pe_size psync t target source
              nreduce).outcome
        × Reduces
            (number_type t)
            mpi_sum
            target
            source
            nreduce
            (sum_to_all translate_ranks extent g s pe_start pe_logs pe_size psync t target source
              nreduce).outcome
        × Reduces
            (number_type t)
            mpi_prod
            target
            source
            nreduce
            (prod_to_all translate_ranks extent g s pe_start pe_logs pe_size psync t target source
              nreduce).outcome
  unfolding and_to_all or_to_all xor_to_all min_to_all max_to_all sum_to_all prod_to_all
  allreduce_calls inv w t target source nreduce small = (
    to_all-Reduces inv (whole_type w) mpi_land target source nreduce small,
    to_all-Reduces inv (whole_type w) mpi_bor target source nreduce small,
    to_all-Reduces inv (whole_type w) mpi_bxor target source nreduce small,
    to_all-Reduces inv (number_type t) mpi_min target source nreduce small,
    to_all-Reduces inv (number_type t) mpi_max target source nreduce small,
    to_all-Reduces inv (number_type t) mpi_sum target source nreduce small,
    to_all-Reduces inv (number_type t) mpi_prod target source nreduce small,
  )

  -- The MPI_Bcast of a broadcast, on the communicator that it acquires.
  pub broadcast-called :
      Translates translate_ranks
      → Inv s
      → (w : Width) (target source nlong k : ℕ) → k < pe_size
      → nlong < int_max
      → let a =
          acquire_comm translate_ranks g s pe_start pe_logs pe_size
            (pos (pe_start + k * 2 ^ pe_logs)) in
        (broadcast translate_ranks extent g s pe_start pe_logs pe_size psync w target source nlong
          (pos (pe_start + k * 2 ^ pe_logs))).outcome
        ≡ called [] none
            (mpi_bcast
              (if g.shmem_world_rank == pe_start + k * 2 ^ pe_logs then source else target)
              nlong
              (basic (width_type w))
              (pos k)
              a.comm)
            []
            (release_comm g a.comms pe_start pe_logs pe_size a.comm)
  unfolding broadcast coll_call counts_call
  broadcast-called translates inv w target source nlong k member small =
      let root = pe_start + k * 2 ^ pe_logs in
      let (plain, kept) = plain_count extent nlong (width_type w) small in
      let broot =
        acquire_comm-broot translate_ranks translates g s inv pe_start pe_logs pe_size k member in
      let is =
        coll_called translate_ranks extent g s inv (pos root) pe_start pe_logs pe_size
          shmem_broadcast (width_type w) mpi_op_null target source nlong [] _ refl in
      rw (← same_root g.shmem_world_rank root) (rw (plain, kept, broot) at is)

  -- If MPI_Group_translate_ranks gives a rank's first place in a group, then a broadcast of fewer
  -- than INT32_MAX items from the PE pe_start + k * 2^pe_logs, with k below
  -- pe_size, is one MPI_Bcast from rank k of a communicator whose rank i is the PE
  -- pe_start + i * 2^pe_logs, for i below pe_size. Its buffer is the source at the root and the
  -- target at the other PEs.
  pub broadcast_root :
      Translates translate_ranks
      → Inv s
      → (w : Width) (target source nlong k : ℕ) → k < pe_size
      → nlong < int_max
      → (s' : Comms) × (c : Comm) × ((broadcast translate_ranks extent g s pe_start pe_logs pe_size
            psync w target source nlong
            (pos (pe_start + k * 2 ^ pe_logs))).outcome
          ≡ called [] none
              (mpi_bcast
                (if g.shmem_world_rank == pe_start + k * 2 ^ pe_logs then source else target)
                nlong
                (basic (width_type w))
                (pos k)
                (some c))
              []
              s')
        × (members g c ≡ pe_list pe_start (2 ^ pe_logs) 0 pe_size)
        × Inv s'
  broadcast_root translates inv w target source nlong k member small =
      let root = pe_start + k * 2 ^ pe_logs in
      let a : Acquired = acquire_comm translate_ranks g s pe_start pe_logs pe_size (pos root) in
      let (c, has, joined) =
        acquire_comm-members translate_ranks g s inv pe_start pe_logs pe_size (pos root) in
      let kept_in =
        acquire-release-Inv translate_ranks g s inv pe_start pe_logs pe_size (pos root) in
      let is = broadcast-called translates inv w target source nlong k member small in
      (
        release_comm g a.comms pe_start pe_logs pe_size (some c),
        c,
        rw has at is,
        joined,
        rw has at kept_in,
      )
