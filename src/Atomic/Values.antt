-- ===== src/Atomic/Values.antt =====
-- The number that a little-endian value stands for, and oshmpi_fadd of src/shmem-internals.c on numbers.
use native.Mathlib.Nat.{pow-suc, add-mul-mod_self_right, mod-eq_of_lt}
use oshmpi.Prelude.{
  ℕ, suc, ◌+◌, ◌*◌, ◌/◌, ◌%◌, ◌^◌, ◌≤◌, ◌<◌, ◌≡◌, ◌⊎◌, refl, ap, sym, ◌∙◌, some, List, [], ◌∷◌,
  true, arith, length,
}
use oshmpi.Mpi.{Basic}
use oshmpi.Mpi.Memory.{
  Memory, gather-scatter, gather_cong, scatter_outside, length-span, length-gather,
}
use oshmpi.Mpi.Library.{Mpi, add_bytes}
use oshmpi.Globals.{Globals}
use oshmpi.Window.Lookup.{InSheap, InEtext}
use oshmpi.Rma.Places.{Shared, memory_after, remote_address}
use oshmpi.Atomic.{is_integer, oshmpi_fadd}
use oshmpi.Atomic.Paths.{load, store, fadd_effect}

unfoldable pub number : List ℕ → ℕ
number [] = 0
number (x ∷ xs) = x + 256 * number xs

-- The carry out of a sum of bytes.
carry_out : ℕ → List ℕ → List ℕ → ℕ
carry_out c [] ys = c
carry_out c (x ∷ xs) [] = 0
carry_out c (x ∷ xs) (y ∷ ys) = carry_out ((x + y + c) / 256) xs ys

pub length-add_bytes :
    (c : ℕ) (xs ys : List ℕ) → length xs ≡ length ys → length (add_bytes c xs ys) ≡ length xs
unfolding add_bytes
length-add_bytes c [] ys h = refl
length-add_bytes c (x ∷ xs) [] h = absurd (omega arith)
length-add_bytes c (x ∷ xs) (y ∷ ys) h =
    ap suc (length-add_bytes ((x + y + c) / 256) xs ys (omega arith))

add_bytes-lt :
    (c : ℕ) (xs ys : List ℕ) → length xs ≡ length ys → number (add_bytes c xs ys) < 256 ^ length xs
unfolding number add_bytes
add_bytes-lt c [] ys h = omega arith
add_bytes-lt c (x ∷ xs) [] h = absurd (omega arith)
add_bytes-lt c (x ∷ xs) (y ∷ ys) h =
    let ih = add_bytes-lt ((x + y + c) / 256) xs ys (omega arith) in
    rw (pow-suc 256 (length xs)) (omega arith)

number-add_bytes :
    (c : ℕ) (xs ys : List ℕ)
    → length xs ≡ length ys
    → number xs + number ys + c ≡ number (add_bytes c xs ys) + carry_out c xs ys * 256 ^ length xs
unfolding number add_bytes carry_out
number-add_bytes c [] [] h = omega arith
number-add_bytes c [] (y ∷ ys) h = absurd (omega arith)
number-add_bytes c (x ∷ xs) [] h = absurd (omega arith)
number-add_bytes c (x ∷ xs) (y ∷ ys) h =
    let ih = number-add_bytes ((x + y + c) / 256) xs ys (omega arith) in
    rw (pow-suc 256 (length xs)) (omega arith)

pub add_bytes_wraps :
    (xs ys : List ℕ)
    → length xs ≡ length ys
    → number (add_bytes 0 xs ys) ≡ (number xs + number ys) % 256 ^ length xs
add_bytes_wraps xs ys h =
    let whole : number xs + number ys
        ≡ number (add_bytes 0 xs ys) + carry_out 0 xs ys * 256 ^ length xs =
      omega (arith, number-add_bytes 0 xs ys h) in
    sym (
      ap (λ n. n % 256 ^ length xs) whole
      ∙ add-mul-mod_self_right (number (add_bytes 0 xs ys)) (carry_out 0 xs ys) (256 ^ length xs)
      ∙ mod-eq_of_lt (add_bytes-lt 0 xs ys h))

module _ {mpi : Mpi} {g : Globals} {pe : ℕ} (shared : Shared mpi g pe) (b : Basic)
    (integer : is_integer b ≡ true) (remote : ℕ) (found : InSheap g remote ⊎ InEtext g remote)
    (m : Memory) where
  abbrev value_at : Memory → ℕ → ℕ
  value_at m' a = number (load mpi b m' a)

  length-load : (m' : Memory) (a : ℕ) → length (load mpi b m' a) ≡ mpi.type_size b
  length-load m' a = length-gather m' a _ ∙ length-span 0 (mpi.type_size b)

  -- An atomic fetch-and-add of an integer type at an address that is found returns on either path.
  -- The output then holds the value that the object of the PE had, and the object holds the sum of
  -- that and the input, modulo 2 to the number of bits of the type, if the output and the object do
  -- not overlap.
  pub fadd_wraps :
      (output input : ℕ)
      → (output + mpi.type_size b ≤ remote_address mpi g remote pe)
        ⊎ (remote_address mpi g remote pe + mpi.type_size b ≤ output)
      → (m' : Memory) × (memory_after mpi (oshmpi_fadd g b output remote input pe) m ≡ some m')
        × (load mpi b m' output ≡ load mpi b m (remote_address mpi g remote pe))
        × (number (load mpi b m' (remote_address mpi g remote pe))
            ≡ (number (load mpi b m (remote_address mpi g remote pe)) + number (load mpi b m input))
              % 256 ^ mpi.type_size b)
  fadd_wraps output input apart =
      let there = remote_address mpi g remote pe in
      let old = load mpi b m there in
      let sum = add_bytes 0 old (load mpi b m input) in
      let lengths : length old ≡ length (load mpi b m input) =
        length-load m there ∙ sym (length-load m input) in
      let stored = store mpi b m there sum in
      (
        store mpi b stored output old,
        fadd_effect shared b integer remote found m output input,
        gather-scatter stored output 0 (mpi.type_size b) old (length-load m there),
        ap number (
              gather_cong _ stored there 0 (mpi.type_size b)
                (λ a p q. scatter_outside stored output 0 (mpi.type_size b) old a (ground arith))
              ∙ gather-scatter m there 0 (mpi.type_size b) sum
                  (length-add_bytes 0 _ _ lengths ∙ length-load m there))
            ∙ add_bytes_wraps old (load mpi b m input) lengths
            ∙ ap (λ n. (number old + number (load mpi b m input)) % 256 ^ n) (length-load m there),
      )
