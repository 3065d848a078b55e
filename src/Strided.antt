-- ===== src/Strided.antt =====
-- The strided transfers: oshmpi_put_strided and oshmpi_get_strided of src/shmem-internals.c, and
-- their copies oshmpix_put_strided_2d and oshmpix_get_strided_2d of src/shmemx-armci-strided.c.
-- Each side of a transfer is one item of a vector type. A stride is signed.
pub mod Layout
pub mod Elements
pub mod Refusals
use oshmpi.Prelude.{ℕ, ◌-◌, ◌%◌, ◌^◌, Bool, ◌&&◌, List, [], ◌∷◌, ◌++◌, ltb, ◌==◌, if◌then◌else◌}
use oshmpi.Prelude.Int.{ℤ, pos, negsuc, ltb_ℤ, eqb_ℤ}
use oshmpi.Mpi.{
  Basic, Datatype, basic, type_vector, mpi_replace, mpi_no_op, Action, type_create, type_commit,
  type_free, put, get, accumulate, get_accumulate, win_flush_local, Outcome, finished, aborted,
  assert_failed,
}
use oshmpi.Contiguous.{int_max}
use oshmpi.Globals.{Globals}
use oshmpi.Window.{Located, window_offset, window_of}

-- The assert on each stride: `(ptrdiff_t)INT32_MIN<d && d<(ptrdiff_t)INT32_MAX`
abbrev pub is_int_stride : ℤ → Bool
is_int_stride d = ltb_ℤ (negsuc (2 ^ 31 - 1)) d && ltb_ℤ d (pos int_max)

-- The vector types of the two sides, and the calls that make and free them. Where the strides are
-- equal the target uses the type of the source.
pub record Vectors : Type 0 where
  pub source_type : Datatype
  pub target_type : Datatype
  pub made : List Action
  pub freed : List Action

unfoldable pub vectors : Basic → (target_stride source_stride : ℤ) → (count : ℕ) → Vectors
vectors mpi_type target_stride source_stride count =
    let source_type = type_vector (pos count) (pos 1) source_stride (basic mpi_type) in
    let other = type_vector (pos count) (pos 1) target_stride (basic mpi_type) in
    if eqb_ℤ target_stride source_stride
    then record {
      source_type = source_type;
      target_type = source_type;
      made = type_create source_type ∷ type_commit source_type ∷ [];
      freed = type_free source_type ∷ [];
    }
    else record {
      source_type = source_type;
      target_type = other;
      made =
          type_create source_type
          ∷ type_commit source_type
          ∷ type_create other
          ∷ type_commit other
          ∷ [];
      freed = type_free other ∷ type_free source_type ∷ [];
    }

module _ (g : Globals) where
  unfoldable pub strided_put_call : Vectors → (source pe : ℕ) → Located → Action
  strided_put_call v source pe l =
      if g.rma_ordering
      then accumulate source 1 v.source_type pe l.win_offset 1 v.target_type mpi_replace
          (window_of l.win_id)
      else put source 1 v.source_type pe l.win_offset 1 v.target_type (window_of l.win_id)

  unfoldable pub strided_get_call : Vectors → (target pe : ℕ) → Located → Action
  strided_get_call v target pe l =
      if g.rma_ordering
      then get_accumulate target 1 v.target_type pe l.win_offset 1 v.source_type mpi_no_op
          (window_of l.win_id)
      else get target 1 v.target_type pe l.win_offset 1 v.source_type (window_of l.win_id)

  -- The call between the making and the freeing of its types.
  abbrev pub with_vectors : Vectors → Action → (pe : ℕ) → Located → List Action
  with_vectors v call pe l = v.made ++ call ∷ win_flush_local pe (window_of l.win_id) ∷ v.freed

  unfoldable pub oshmpi_put_strided :
      Basic → (target source : ℕ) → (target_ptrdiff source_ptrdiff : ℤ) → (len pe : ℕ) → Outcome
  oshmpi_put_strided mpi_type target source target_ptrdiff source_ptrdiff len pe =
      let l = window_offset g target pe in
      let v = vectors mpi_type target_ptrdiff source_ptrdiff len in
      if ltb len int_max
      then if l.rc == 0
        then if is_int_stride target_ptrdiff && is_int_stride source_ptrdiff
          then finished (with_vectors v (strided_put_call v source pe l) pe l)
          else assert_failed []
        else aborted (pos pe) []
      else aborted (pos (len % int_max)) []

  unfoldable pub oshmpi_get_strided :
      Basic → (target source : ℕ) → (target_ptrdiff source_ptrdiff : ℤ) → (len pe : ℕ) → Outcome
  oshmpi_get_strided mpi_type target source target_ptrdiff source_ptrdiff len pe =
      let l = window_offset g source pe in
      let v = vectors mpi_type target_ptrdiff source_ptrdiff len in
      if ltb len int_max
      then if l.rc == 0
        then if is_int_stride target_ptrdiff && is_int_stride source_ptrdiff
          then finished (with_vectors v (strided_get_call v target pe l) pe l)
          else assert_failed []
        else aborted (pos pe) []
      else aborted (pos (len % int_max)) []

  -- The same bodies under other names, in the extension.
  unfoldable pub oshmpix_put_strided_2d :
      Basic → (target source : ℕ) → (target_ptrdiff source_ptrdiff : ℤ) → (len pe : ℕ) → Outcome
  oshmpix_put_strided_2d = oshmpi_put_strided

  unfoldable pub oshmpix_get_strided_2d :
      Basic → (target source : ℕ) → (target_ptrdiff source_ptrdiff : ℤ) → (len pe : ℕ) → Outcome
  oshmpix_get_strided_2d = oshmpi_get_strided
