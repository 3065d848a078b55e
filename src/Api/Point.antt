-- ===== src/Api/Point.antt =====
-- The transfers and the atomic operations of src/shmem.c, by the suffix of their names.
use oshmpi.Prelude.{ℕ}
use oshmpi.Prelude.Int.{ℤ}
use oshmpi.Mpi.{
  Basic, mpi_byte, mpi_char, mpi_short, mpi_int, mpi_long, mpi_long_long, mpi_float, mpi_double,
  mpi_long_double, mpi_int32_t, mpi_complex, mpi_double_complex, mpi_c_double_complex, Outcome,
}
use oshmpi.Mpi.Library.{Mpi}
use oshmpi.Globals.{Globals}
use oshmpi.Rma.{oshmpi_put, oshmpi_get}
use oshmpi.Strided.{oshmpi_put_strided, oshmpi_get_strided}
use oshmpi.Atomic.{oshmpi_swap, oshmpi_cswap, oshmpi_add, oshmpi_fadd}

-- The suffixes of the elemental transfers: shmem_float_p and so on.
pub data Elem : Type 0 where
  float double longdouble char short int long longlong : Elem

-- The suffixes of the block transfers: shmem_float_put, shmem_putmem, shmem_put32 and so on.
pub data Block : Type 0 where
  typed : Elem → Block
  mem bits32 bits64 bits128 complexf complexd : Block

-- The suffixes of the strided transfers, which have no char, mem or complex.
pub data Vector : Type 0 where
  float double longdouble short int long longlong bits32 bits64 bits128 : Vector

-- The suffixes of the swaps; `plain` is shmem_swap.
pub data Swap : Type 0 where
  float double int long longlong plain : Swap

-- The suffixes of the other atomic operations.
pub data Integer : Type 0 where
  int long longlong : Integer

-- The MPI type that the body of each function names.
unfoldable pub elem_type : Elem → Basic
elem_type Elem.float = mpi_float
elem_type Elem.double = mpi_double
elem_type Elem.longdouble = mpi_long_double
elem_type Elem.char = mpi_char
elem_type Elem.short = mpi_short
elem_type Elem.int = mpi_int
elem_type Elem.long = mpi_long
elem_type Elem.longlong = mpi_long_long

unfoldable pub block_type : Block → Basic
block_type (typed e) = elem_type e
block_type Block.mem = mpi_byte
block_type Block.bits32 = mpi_int32_t
block_type Block.bits64 = mpi_double
block_type Block.bits128 = mpi_c_double_complex
block_type Block.complexf = mpi_complex
block_type Block.complexd = mpi_double_complex

unfoldable pub strided_type : Vector → Basic
strided_type Vector.float = mpi_float
strided_type Vector.double = mpi_double
strided_type Vector.longdouble = mpi_long_double
strided_type Vector.short = mpi_short
strided_type Vector.int = mpi_int
strided_type Vector.long = mpi_long
strided_type Vector.longlong = mpi_long_long
strided_type Vector.bits32 = mpi_int32_t
strided_type Vector.bits64 = mpi_double
strided_type Vector.bits128 = mpi_c_double_complex

unfoldable pub swap_type : Swap → Basic
swap_type Swap.float = mpi_float
swap_type Swap.double = mpi_double
swap_type Swap.int = mpi_int
swap_type Swap.long = mpi_long
swap_type Swap.longlong = mpi_long_long
swap_type Swap.plain = mpi_long

unfoldable pub integer_type : Integer → Basic
integer_type Integer.int = mpi_int
integer_type Integer.long = mpi_long
integer_type Integer.longlong = mpi_long_long

module _ (mpi : Mpi) (g : Globals) where
  -- `v` is the address of the parameter.
  unfoldable pub shmem_p : Elem → (addr v pe : ℕ) → Outcome
  shmem_p e addr v pe = oshmpi_put mpi g (elem_type e) addr v 1 pe

  unfoldable pub shmem_put : Block → (target source len pe : ℕ) → Outcome
  shmem_put b target source len pe = oshmpi_put mpi g (block_type b) target source len pe

  -- `v` is the address of the local variable that is returned.
  unfoldable pub shmem_g : Elem → (v addr pe : ℕ) → Outcome
  shmem_g e v addr pe = oshmpi_get mpi g (elem_type e) v addr 1 pe

  unfoldable pub shmem_get : Block → (target source len pe : ℕ) → Outcome
  shmem_get b target source len pe = oshmpi_get mpi g (block_type b) target source len pe

module _ (g : Globals) where
  unfoldable pub shmem_iput : Vector → (target source : ℕ) → (tst sst : ℤ) → (len pe : ℕ) → Outcome
  shmem_iput b target source tst sst len pe =
      oshmpi_put_strided g (strided_type b) target source tst sst len pe

  unfoldable pub shmem_iget : Vector → (target source : ℕ) → (tst sst : ℤ) → (len pe : ℕ) → Outcome
  shmem_iget b target source tst sst len pe =
      oshmpi_get_strided g (strided_type b) target source tst sst len pe

  -- `r` is the address of the result, `v` that of the value, `c` that of the comparand.
  unfoldable pub shmem_swap : Swap → (r t v pe : ℕ) → Outcome
  shmem_swap s r t v pe = oshmpi_swap g (swap_type s) r t v pe

  unfoldable pub shmem_cswap : Integer → (r t c v pe : ℕ) → Outcome
  shmem_cswap i r t c v pe = oshmpi_cswap g (integer_type i) r t v c pe

  unfoldable pub shmem_fadd : Integer → (r t v pe : ℕ) → Outcome
  shmem_fadd i r t v pe = oshmpi_fadd g (integer_type i) r t v pe

  -- `one` is the address of the local variable that holds 1.
  unfoldable pub shmem_finc : Integer → (r t one pe : ℕ) → Outcome
  shmem_finc i r t one pe = oshmpi_fadd g (integer_type i) r t one pe

  unfoldable pub shmem_add : Integer → (t v pe : ℕ) → Outcome
  shmem_add i t v pe = oshmpi_add g (integer_type i) t v pe

  unfoldable pub shmem_inc : Integer → (t one pe : ℕ) → Outcome
  shmem_inc i t one pe = oshmpi_add g (integer_type i) t one pe
