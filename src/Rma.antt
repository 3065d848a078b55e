-- ===== src/Rma.antt =====
-- The one-sided transfers of src/shmem-internals.c: oshmpi_put and oshmpi_get. Each is the list of
-- actions that it performs. On an SMP world a transfer to the symmetric heap is a memcpy through
-- the peer's shared segment; any other is an MPI call.
pub mod Places
pub mod Transfer
pub mod RoundTrip
pub mod Variants
pub mod Types
pub mod Refusals
pub mod Pending
use oshmpi.Prelude.{
  ℕ, ◌+◌, ◌-◌, ◌*◌, ◌%◌, ◌^◌, Bool, true, false, ◌&&◌, List, [], ◌∷◌, ◌++◌, ltb, ◌==◌,
  if◌then◌else◌,
}
use oshmpi.Prelude.Int.{ℤ, pos}
use oshmpi.Mpi.{
  Basic, Datatype, basic, Win, mpi_replace, mpi_no_op, Action, memcpy, type_commit, type_free, put,
  get, accumulate, get_accumulate, win_flush_local, Outcome, finished, aborted,
}
use oshmpi.Mpi.Library.{Mpi}
use oshmpi.Contiguous.{int_max, type_contiguous_x}
use oshmpi.Globals.{Globals}
use oshmpi.Window.{Located, window_offset, is_sheap, window_of}

-- The address of a peer's copy of a heap object: its segment plus the object's offset in the heap.
abbrev pub peer_ptr : Globals → (address pe : ℕ) → ℕ
peer_ptr g address pe = g.shmem_smp_sheap_ptrs pe + (address - g.shmem_sheap_base_ptr)

-- Whether a transfer bypasses MPI.
abbrev pub bypasses : Globals → Located → Bool
bypasses g l = g.smp_optimizations && g.shmem_world_is_smp && is_sheap l.win_id

-- The count and the type of a transfer of `len` items, and the calls that make the type.
pub record Counted : Type 0 where
  pub count : ℕ
  pub tmp_type : Datatype
  pub made : List Action

unfoldable pub counted : (Datatype → ℕ) → ℕ → Datatype → Counted
counted extent len mpi_type =
    if ltb len int_max
    then record { count = len; tmp_type = mpi_type; made = [] }
    else let (tmp_type, calls) = type_contiguous_x extent len mpi_type in
      record { count = 1; tmp_type = tmp_type; made = calls ++ type_commit tmp_type ∷ [] }

-- `if (len>(size_t)INT32_MAX) MPI_Type_free(&tmp_type)`
unfoldable pub release_type : ℕ → Datatype → List Action
release_type len tmp_type = if ltb int_max len then type_free tmp_type ∷ [] else []

module _ (mpi : Mpi) (g : Globals) where
  open mpi use {type_size, extent}

  -- MPI_Accumulate with MPI_REPLACE under ENABLE_RMA_ORDERING, else MPI_Put
  unfoldable pub put_call : Counted → (source pe : ℕ) → Located → Action
  put_call c source pe l =
      if g.rma_ordering
      then accumulate source c.count c.tmp_type pe l.win_offset c.count c.tmp_type mpi_replace
          (window_of l.win_id)
      else put source c.count c.tmp_type pe l.win_offset c.count c.tmp_type (window_of l.win_id)

  unfoldable pub get_call : Counted → (target pe : ℕ) → Located → Action
  get_call c target pe l =
      if g.rma_ordering
      then get_accumulate target c.count c.tmp_type pe l.win_offset c.count c.tmp_type mpi_no_op
          (window_of l.win_id)
      else get target c.count c.tmp_type pe l.win_offset c.count c.tmp_type (window_of l.win_id)

  -- The MPI path of both transfers, around its one call.
  unfoldable pub through_mpi : Basic → (len pe : ℕ) → Located → (Counted → Action) → List Action
  unfolding counted release_type
  through_mpi mpi_type len pe l call =
      let c = counted extent len (basic mpi_type) in
      c.made
      ++ call c ∷ (release_type len c.tmp_type ++ win_flush_local pe (window_of l.win_id) ∷ [])

  unfoldable pub oshmpi_put : Basic → (target source len pe : ℕ) → Outcome
  oshmpi_put mpi_type target source len pe =
      let l = window_offset g target pe in
      if l.rc == 0
      then if bypasses g l
        then finished
            (memcpy (peer_ptr g target pe) source ((len * type_size mpi_type) % 2 ^ 64) ∷ [])
        else finished (through_mpi mpi_type len pe l (λ c. put_call c source pe l))
      else aborted (pos pe) []

  unfoldable pub oshmpi_get : Basic → (target source len pe : ℕ) → Outcome
  oshmpi_get mpi_type target source len pe =
      let l = window_offset g source pe in
      if l.rc == 0
      then if bypasses g l
        then finished
            (memcpy target (peer_ptr g source pe) ((len * type_size mpi_type) % 2 ^ 64) ∷ [])
        else finished (through_mpi mpi_type len pe l (λ c. get_call c target pe l))
      else aborted (pos pe) []
