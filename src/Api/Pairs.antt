-- ===== src/Api/Pairs.antt =====
-- shmem_T_p, shmem_T_g and shmem_T_inc of src/shmem.c: puts and gets in turn, and increments in turn.
use native.Mathlib.Nat.{mod-add-mod}
use oshmpi.Prelude.{
  ℕ, zero, suc, ◌+◌, ◌*◌, ◌%◌, ◌^◌, ◌≤◌, ◌<◌, ◌≡◌, ◌⊎◌, inr, refl, sym, ap, ◌∙◌, true, Option, none,
  some, arith, length,
}
use oshmpi.Mpi.{Basic}
use oshmpi.Mpi.Memory.{
  Memory, gather-scatter, gather_cong, scatter_outside, length-span, length-gather,
}
use oshmpi.Mpi.Library.{Mpi, add_bytes}
use oshmpi.Globals.{Globals}
use oshmpi.Window.Lookup.{InSheap, InEtext}
use oshmpi.Rma.Places.{Shared, Fits, memory_after, remote_address}
use oshmpi.Rma.RoundTrip.{get-put}
use oshmpi.Atomic.{is_integer}
use oshmpi.Atomic.Paths.{load, store, add_effect}
use oshmpi.Atomic.Values.{number, add_bytes_wraps, length-add_bytes}
use oshmpi.Api.Point.{Elem, elem_type, shmem_p, shmem_g, Integer, integer_type, shmem_inc}

-- A value that is put by shmem_T_p at an object that is found is the value that shmem_T_g gets
-- from it, for each of the eight types T: both calls return.
pub g-p :
    (mpi : Mpi) (g : Globals) (e : Elem) {pe : ℕ}
    → Shared mpi g pe
    → mpi.type_size (elem_type e) < 2 ^ 63
    → (addr v back : ℕ) (m : Memory) → InSheap g addr ⊎ InEtext g addr
    → (after_put after_get : Memory) × (memory_after mpi (shmem_p mpi g e addr v pe) m
        ≡ some after_put)
      × (memory_after mpi (shmem_g mpi g e back addr pe) after_put ≡ some after_get)
      × (load mpi (elem_type e) after_get back ≡ load mpi (elem_type e) m v)
unfolding shmem_p shmem_g
g-p mpi g e {pe} shared small addr v back m found =
    let size = mpi.type_size (elem_type e) in
    let one_item : 1 * size ≡ size = omega arith in
    let fits : Fits mpi g pe (elem_type e) 1 = record {
      shared = shared;
      chunks = omega arith;
      bytes = omega (arith, small);
    } in
    let (p, q, puts, gets, same, _) =
      get-put fits addr v back m found (remote_address mpi g addr pe + 1 * size)
        (inr (omega arith)) in
    (p, q, puts, gets, rw one_item at same)

integers : (i : Integer) → is_integer (integer_type i) ≡ true
unfolding integer_type
integers Integer.int = refl
integers Integer.long = refl
integers Integer.longlong = refl

module _ (mpi : Mpi) (g : Globals) (i : Integer) (t one pe : ℕ) where
  -- `n` increments, one behind the other.
  pub increments : ℕ → Memory → Option Memory
  increments zero m = some m
  increments (suc n) m = elim (memory_after mpi (shmem_inc g i t one pe) m) [
    | none ↦ none
    | some m' ↦ increments n m'
  ]

  abbrev type : Basic
  type = integer_type i

  abbrev size : ℕ
  size = mpi.type_size type

  abbrev place : ℕ
  place = remote_address mpi g t pe

  abbrev value_at : Memory → ℕ → ℕ
  value_at m a = number (load mpi type m a)

  length-load : (m : Memory) (a : ℕ) → length (load mpi type m a) ≡ size
  length-load m a = length-gather m a _ ∙ length-span 0 size

  abbrev after_one : Memory → Memory
  after_one m = store mpi type m place (add_bytes 0 (load mpi type m place) (load mpi type m one))

  one_step :
      (m : Memory)
      → value_at m one ≡ 1
      → value_at (after_one m) place ≡ (value_at m place + 1) % 256 ^ size
  one_step m is_one =
      let old = load mpi type m place in
      let inp = load mpi type m one in
      let lengths : length old ≡ length inp = length-load m place ∙ sym (length-load m one) in
      ap number (
        gather-scatter m place 0 size (add_bytes 0 old inp)
          (length-add_bytes 0 old inp lengths ∙ length-load m place))
      ∙ add_bytes_wraps old inp lengths
      ∙ ap (λ k. (number old + number inp) % 256 ^ k) (length-load m place)
      ∙ ap (λ k. (number old + k) % 256 ^ size) is_one

  one_kept :
      (one + size ≤ place) ⊎ (place + size ≤ one)
      → (m : Memory) → value_at m one ≡ 1
      → value_at (after_one m) one ≡ 1
  one_kept apart m is_one =
      ap number (
        gather_cong (after_one m) m one 0 size
          (λ a p q. scatter_outside m place 0 size _ a (ground arith)))
      ∙ is_one

  -- Any number of increments of an object that is found all return, and add their number to it,
  -- modulo 2 to the number of bits of the type, if the object does not overlap the constant 1.
  pub increments_add :
      Shared mpi g pe
      → InSheap g t ⊎ InEtext g t
      → (one + mpi.type_size (integer_type i) ≤ remote_address mpi g t pe)
        ⊎ (remote_address mpi g t pe + mpi.type_size (integer_type i) ≤ one)
      → (n : ℕ) (m : Memory) → number (load mpi (integer_type i) m one) ≡ 1
      → (m' : Memory) × (increments n m ≡ some m')
        × (number (load mpi (integer_type i) m' (remote_address mpi g t pe))
              % 256 ^ mpi.type_size (integer_type i)
            ≡ (number (load mpi (integer_type i) m (remote_address mpi g t pe)) + n)
              % 256 ^ mpi.type_size (integer_type i))
  unfolding increments shmem_inc
  increments_add shared found apart zero m is_one =
      (m, refl, ap (λ x. x % 256 ^ size) (omega arith))
  increments_add shared found apart (suc n) m is_one =
      let added = add_effect shared type (integers i) t found m one in
      let (m', done, sum) =
        increments_add shared found apart n (after_one m) (one_kept apart m is_one) in
      (
        m',
        rw (added, increments) done,
        sum
            ∙ ap (λ x. (x + n) % 256 ^ size) (one_step m is_one)
            ∙ mod-add-mod (value_at m place + 1) (256 ^ size) n
            ∙ ap (λ x. x % 256 ^ size) (omega arith),
      )
