-- ===== src/Mpi/Memory/Span.antt =====
-- Runs of consecutive bytes: their displacements, and what a write to them changes.
use oshmpi.Prelude.{
  ℕ, zero, suc, ◌+◌, ◌≤◌, ◌<◌, ◌≡◌, ◌⊎◌, refl, ap, ◌∙◌, List, [], ◌∷◌, ◌++◌, arith, length,
}
use mathlib.Core.Path.{ap₂}
use native.Mathlib.Nat.{zero-add, add-zero, suc-add}
use oshmpi.Mpi.Memory.Defs.{Memory, span, shift, gather, write, scatter}

pub span-add : (s a b : ℕ) → span s (a + b) ≡ span s a ++ span (s + a) b
unfolding span
span-add s zero b = rw (zero-add b, add-zero s)
span-add s (suc a) b =
    let shifted : s + 1 + a ≡ s + suc a = omega arith in
    rw (suc-add a b) (ap (λ l. s ∷ l) (span-add (s + 1) a b ∙ rw shifted))

pub shift-append : (d : ℕ) (os qs : List ℕ) → shift d (os ++ qs) ≡ shift d os ++ shift d qs
shift-append d [] qs = refl
shift-append d (o ∷ os) qs = ap (λ l. (d + o) ∷ l) (shift-append d os qs)

pub shift-shift : (c d : ℕ) (os : List ℕ) → shift c (shift d os) ≡ shift (c + d) os
shift-shift c d [] = refl
shift-shift c d (o ∷ os) = ap₂ ◌∷◌ (omega arith) (shift-shift c d os)

pub shift-span : (d s n : ℕ) → shift d (span s n) ≡ span (d + s) n
unfolding span
shift-span d s zero = refl
shift-span d s (suc n) =
    let moved : d + (s + 1) ≡ d + s + 1 = omega arith in
    ap (λ l. (d + s) ∷ l) (shift-span d (s + 1) n ∙ rw moved)

pub length-span : (s n : ℕ) → length (span s n) ≡ n
unfolding span
length-span s zero = refl
length-span s (suc n) = ap suc (length-span (s + 1) n)

pub length-gather : (m : Memory) (a : ℕ) (os : List ℕ) → length (gather m a os) ≡ length os
unfolding gather
length-gather m a [] = refl
length-gather m a (o ∷ os) = ap suc (length-gather m a os)

-- A write to a run changes no byte outside it.
pub scatter_outside :
    (m : Memory) (a s n : ℕ) (vs : List ℕ) (b : ℕ)
    → (b < a + s) ⊎ (a + s + n ≤ b)
    → scatter m a (span s n) vs b ≡ m b
unfolding span scatter
scatter_outside m a s zero vs b h = refl
scatter_outside m a s (suc n) [] b h = refl
scatter_outside m a s (suc n) (v ∷ vs) b h =
    scatter_outside (write m (a + s) v) a (s + 1) n vs b (ground arith) ∙ ground arith

-- A run that is read after it is written has the bytes that were written.
pub gather-scatter :
    (m : Memory) (a s n : ℕ) (vs : List ℕ)
    → length vs ≡ n
    → gather (scatter m a (span s n) vs) a (span s n) ≡ vs
unfolding span gather scatter
gather-scatter m a s zero [] h = refl
gather-scatter m a s zero (v ∷ vs) h = absurd (omega arith)
gather-scatter m a s (suc n) [] h = absurd (omega arith)
gather-scatter m a s (suc n) (v ∷ vs) h =
    ap₂ ◌∷◌
      (scatter_outside (write m (a + s) v) a (s + 1) n vs (a + s) (omega arith) ∙ ground arith)
      (gather-scatter (write m (a + s) v) a (s + 1) n vs (omega arith))
