-- ===== src/Contiguous/Typemap.antt =====
-- MPIX_Type_contiguous_x of src/type_contiguous_x.h: the bytes of an item of its type.
use oshmpi.Prelude.{ℕ, ◌+◌, ◌*◌, ◌/◌, ◌%◌, ◌^◌, ◌<◌, ◌≡◌, ap, ◌∙◌, ◌++◌, List, arith}
use oshmpi.Prelude.Int.{pos, to_int32-pos, to_int64-pos}
use oshmpi.Mpi.{Datatype, type_contiguous, type_vector, type_struct}
use oshmpi.Mpi.Memory.{shift, shift_zero, tile, tile-add, tile-mul}
use oshmpi.Mpi.Library.{Mpi}
use oshmpi.Contiguous.{int_max, remainder_disp, type_contiguous_x}

-- The chunks and the remainder together, for a chunk of any length.
tile_chunks :
    (c k r e : ℕ) (os : List ℕ)
    → tile c (k * e) (tile k e os) ++ shift (c * k * e) (tile r e os) ≡ tile (c * k + r) e os
tile_chunks c k r e os = rw (← tile-mul c k e os, tile-add (c * k) r e os)

module _ (mpi : Mpi) where
  open mpi use {extent, typemap, typemap-contiguous, typemap-vector, typemap-struct}

  chunked :
      (c k r : ℕ) (t : Datatype)
      → typemap (
          type_struct
            (pos 0)
            (pos (c * k * extent t))
            (type_vector (pos c) (pos k) (pos k) t)
            (type_contiguous (pos r) t))
        ≡ tile (c * k + r) (extent t) (typemap t)
  chunked c k r t =
      rw (typemap-struct, typemap-vector, typemap-contiguous, shift_zero)
        (tile_chunks c k r (extent t) (typemap t))

  -- One item of the new type has the bytes of `count` items of the old one, in the same order, if
  -- the number of chunks is an int and the bytes of the chunks are counted by an MPI_Aint.
  pub typemap-type_contiguous_x :
      (count : ℕ) (t : Datatype)
      → count / int_max < 2 ^ 31
      → count / int_max * int_max * extent t < 2 ^ 63
      → typemap (type_contiguous_x extent count t).0 ≡ tile count (extent t) (typemap t)
  unfolding type_contiguous_x
  typemap-type_contiguous_x count t few small =
      let c = count / int_max in
      let r = count % int_max in
      let whole : c * int_max + r ≡ count = omega arith in
      let disp : remainder_disp (pos c) (extent t) ≡ pos (c * int_max * extent t) =
        to_int64-pos (c * int_max * extent t) small in
      rw (to_int32-pos c few, to_int32-pos r (omega arith), disp)
        (chunked c int_max r t ∙ ap (λ n. tile n (extent t) (typemap t)) whole)
