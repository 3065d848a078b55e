-- ===== src/Contiguous.antt =====
-- src/type_contiguous_x.h: a datatype of more items than an int can count, made of chunks of
-- INT_MAX items and a remainder.
pub mod Typemap
use oshmpi.Prelude.{ℕ, ◌+◌, ◌-◌, ◌*◌, ◌/◌, ◌%◌, ◌^◌, List, [], ◌∷◌}
use oshmpi.Prelude.Int.{ℤ, pos, negsuc, to_int32, to_int64}
use oshmpi.Mpi.{Datatype, type_contiguous, type_vector, type_struct, Action, type_create, type_free}

-- INT_MAX, also INT32_MAX
abbrev pub int_max : ℕ
int_max = 2147483647

-- An MPI_Aint that is converted to size_t.
abbrev pub to_size : ℤ → ℕ
to_size (pos n) = n
to_size (negsuc n) = 2 ^ 64 - (n + 1)

-- `(MPI_Aint)c*(size_t)INT_MAX*extent`, a product of size_t, back in an MPI_Aint
unfoldable pub remainder_disp : ℤ → ℕ → ℤ
remainder_disp c extent = to_int64 (to_size c * int_max * extent)

-- MPIX_Type_contiguous_x: the new type, and the calls that make it.
unfoldable pub type_contiguous_x : (Datatype → ℕ) → ℕ → Datatype → Datatype × List Action
unfolding remainder_disp
type_contiguous_x extent count oldtype =
    let c = to_int32 (count / int_max) in
    let r = to_int32 (count % int_max) in
    let chunks = type_vector c (pos int_max) (pos int_max) oldtype in
    let remainder = type_contiguous r oldtype in
    let newtype = type_struct (pos 0) (remainder_disp c (extent oldtype)) chunks remainder in
    (
      newtype,
      type_create chunks
          ∷ type_create remainder
          ∷ type_create newtype
          ∷ type_free chunks
          ∷ type_free remainder
          ∷ [],
    )
