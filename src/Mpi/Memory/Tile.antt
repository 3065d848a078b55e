-- ===== src/Mpi/Memory/Tile.antt =====
-- Type maps that repeat.
use oshmpi.Prelude.{
  ℕ, zero, suc, ◌+◌, ◌*◌, ◌≡◌, refl, List, [], ◌∷◌, ◌++◌, arith, append_assoc, append-nil,
}
use native.Mathlib.Nat.{zero-add, zero-mul, suc-add, suc-mul}
use oshmpi.Mpi.Memory.Defs.{span, shift, tile}
use oshmpi.Mpi.Memory.Span.{span-add, shift-append, shift-shift, shift-span}

pub shift_zero : (os : List ℕ) → shift 0 os ≡ os
shift_zero [] = refl
shift_zero (o ∷ os) = rw (zero-add o, shift_zero os)

pub tile_one : (e : ℕ) (os : List ℕ) → tile 1 e os ≡ os
unfolding tile
tile_one e os = append-nil os

pub tile-add :
    (a b e : ℕ) (os : List ℕ) → tile (a + b) e os ≡ tile a e os ++ shift (a * e) (tile b e os)
unfolding tile
tile-add zero b e os = rw (zero-add b, zero-mul e, shift_zero (tile b e os))
tile-add (suc a) b e os =
    let behind : e + a * e ≡ suc a * e = rw (suc-mul a e) (omega arith) in
    rw (suc-add a b, tile-add a b e os, shift-append, shift-shift, behind, append_assoc)

-- Tiles of tiles.
pub tile-mul : (c k e : ℕ) (os : List ℕ) → tile (c * k) e os ≡ tile c (k * e) (tile k e os)
unfolding tile
tile-mul zero k e os = rw (zero-mul k)
tile-mul (suc c) k e os =
    let first : suc c * k ≡ k + c * k = rw (suc-mul c k) (omega arith) in
    rw (first, tile-add k (c * k) e os, tile-mul c k e os)

-- Copies of a run of `k` bytes, `k` bytes apart, make one run.
pub tile-span : (n k : ℕ) → tile n k (span 0 k) ≡ span 0 (n * k)
unfolding tile span
tile-span zero k = rw (zero-mul k)
tile-span (suc n) k =
    let first : suc n * k ≡ k + n * k = rw (suc-mul n k) (omega arith) in
    let start : k + 0 ≡ 0 + k = omega arith in
    rw (tile-span n k, shift-span k 0 (n * k), first, span-add 0 k (n * k), start)
