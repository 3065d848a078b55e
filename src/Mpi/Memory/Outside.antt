-- ===== src/Mpi/Memory/Outside.antt =====
-- What a write at scattered places leaves as it was.
use oshmpi.Prelude.{
  ℕ, zero, suc, ◌+◌, ◌*◌, ◌≤◌, ◌<◌, ◌≡◌, ◌≢◌, ◌⊎◌, refl, ◌∙◌, inl, inr, List, [], ◌∷◌, ◌++◌, arith,
  Bool-cases, leb, ltb, ◌&&◌,
}
use native.Mathlib.Nat.{suc-mul}
use oshmpi.Mpi.Memory.Span.{scatter_outside}
use oshmpi.Mpi.Memory.Strided.{gather_cong}
use oshmpi.Mpi.Memory.Defs.{Memory, span, shift, write, gather, scatter, tile}

-- No place of the list, from `a` on, is `b`.
abbrev pub Misses : (a b : ℕ) → List ℕ → Type 0
Misses a b [] = Unit {0}
Misses a b (o ∷ os) = (a + o ≢ b) × Misses a b os

pub scatter-Misses :
    (m : Memory) (a : ℕ) (os vs : List ℕ) (b : ℕ) → Misses a b os → scatter m a os vs b ≡ m b
unfolding scatter
scatter-Misses m a [] vs b h = refl
scatter-Misses m a (o ∷ os) [] b h = refl
scatter-Misses m a (o ∷ os) (v ∷ vs) b h =
    scatter-Misses (write m (a + o) v) a os vs b h.1 ∙ ground (arith, h.0)

Misses-append : (a b : ℕ) (os qs : List ℕ) → Misses a b os → Misses a b qs → Misses a b (os ++ qs)
Misses-append a b [] qs h k = k
Misses-append a b (o ∷ os) qs h k = (h.0, Misses-append a b os qs h.1 k)

Misses-shift : (a d b : ℕ) (os : List ℕ) → Misses (a + d) b os → Misses a b (shift d os)
Misses-shift a d b [] h = tt
Misses-shift a d b (o ∷ os) h = (λ e. h.0 (omega (arith, e)), Misses-shift a d b os h.1)

pub Misses-span : (a b s n : ℕ) → (b < a + s) ⊎ (a + s + n ≤ b) → Misses a b (span s n)
unfolding span
Misses-span a b s zero h = tt
Misses-span a b s (suc n) h =
    (λ e. omega (arith, e, h), Misses-span a b (s + 1) n (omega (arith, h)))

-- A byte that is in none of `n` runs of `k` bytes, `t` bytes apart.
abbrev pub IsBetween : (a n t k b : ℕ) → Type 0
IsBetween a n t k b = (i : ℕ) → i < n → (b < a + i * t) ⊎ (a + i * t + k ≤ b)

pub Misses-tile : (n t k a b : ℕ) → IsBetween a n t k b → Misses a b (tile n t (span 0 k))
unfolding tile
Misses-tile zero t k a b h = tt
Misses-tile (suc n) t k a b h =
    let first : (b < a + 0) ⊎ (a + 0 + k ≤ b) = omega (arith, h 0 (omega arith)) in
    Misses-append a b (span 0 k) _ (Misses-span a b 0 k first) (
      Misses-shift a t b (tile n t (span 0 k)) (
        Misses-tile n t k (a + t) b (λ i lt.
          let next : suc i * t ≡ t + i * t = rw (suc-mul i t) (omega arith) in
          omega (arith, next, h (suc i) (omega arith)))))

-- Two runs of bytes that do not meet.
abbrev pub Apart : (a m b n : ℕ) → Type 0
Apart a m b n = (a + m ≤ b) ⊎ (b + n ≤ a)

-- No byte is in both.
pub Apart-Misses : (a m b n x : ℕ) → Apart a m b n → Misses a x (span 0 m) ⊎ Misses b x (span 0 n)
Apart-Misses a m b n x apart = elim (Bool-cases (leb a x && ltb x (a + m))) [
  | inl inside ↦ inr (Misses-span b x 0 n (ground arith))
  | inr outside ↦ inl (Misses-span a x 0 m (ground arith))
]

-- Bytes apart from those that are written are read as they were.
pub gather-scatter_apart :
    (m : Memory) (a n b k : ℕ) (vs : List ℕ)
    → Apart a n b k
    → gather (scatter m b (span 0 k) vs) a (span 0 n) ≡ gather m a (span 0 n)
gather-scatter_apart m a n b k vs apart =
    gather_cong _ m a 0 n (λ x p q. scatter_outside m b 0 k vs x (ground arith))
