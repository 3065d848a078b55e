-- ===== src/Mpi/Memory/Strided.antt =====
-- Runs of `k` bytes that stand `e` bytes apart.
use mathlib.Core.Path.{ap₂}
use native.Mathlib.Nat.{suc-mul}
use oshmpi.Prelude.{
  ℕ, zero, suc, ◌+◌, ◌*◌, ◌≤◌, ◌<◌, ◌≡◌, refl, ap, sym, ◌∙◌, List, [], ◌∷◌, ◌++◌, arith, length,
}
use oshmpi.Mpi.Memory.Defs.{Memory, span, shift, gather, write, scatter, tile}
use oshmpi.Mpi.Memory.Span.{length-span, length-gather, gather-scatter}

pub gather-append :
    (m : Memory) (a : ℕ) (os qs : List ℕ) → gather m a (os ++ qs) ≡ gather m a os ++ gather m a qs
unfolding gather
gather-append m a [] qs = refl
gather-append m a (o ∷ os) qs = ap (λ l. m (a + o) ∷ l) (gather-append m a os qs)

pub gather-shift :
    (m : Memory) (a d : ℕ) (os : List ℕ) → gather m a (shift d os) ≡ gather m (a + d) os
unfolding gather
gather-shift m a d [] = refl
gather-shift m a d (o ∷ os) = ap₂ ◌∷◌ (ap m (omega arith)) (gather-shift m a d os)

pub scatter-append :
    (m : Memory) (a : ℕ) (os qs us vs : List ℕ)
    → length os ≡ length us
    → scatter m a (os ++ qs) (us ++ vs) ≡ scatter (scatter m a os us) a qs vs
unfolding scatter
scatter-append m a [] qs [] vs h = refl
scatter-append m a [] qs (u ∷ us) vs h = absurd (omega arith)
scatter-append m a (o ∷ os) qs [] vs h = absurd (omega arith)
scatter-append m a (o ∷ os) qs (u ∷ us) vs h =
    scatter-append (write m (a + o) u) a os qs us vs (omega arith)

pub scatter-shift :
    (m : Memory) (a d : ℕ) (os vs : List ℕ) → scatter m a (shift d os) vs ≡ scatter m (a + d) os vs
unfolding scatter
scatter-shift m a d [] vs = refl
scatter-shift m a d (o ∷ os) [] = refl
scatter-shift m a d (o ∷ os) (v ∷ vs) =
    let moved : a + (d + o) ≡ a + d + o = omega arith in
    ap (λ x. scatter (write m x v) a (shift d os) vs) moved
    ∙ scatter-shift (write m (a + d + o) v) a d os vs

-- A write changes nothing below its start.
pub scatter_below :
    (m : Memory) (a : ℕ) (os vs : List ℕ) (b : ℕ) → b < a → scatter m a os vs b ≡ m b
unfolding scatter
scatter_below m a [] vs b h = refl
scatter_below m a (o ∷ os) [] b h = refl
scatter_below m a (o ∷ os) (v ∷ vs) b h =
    scatter_below (write m (a + o) v) a os vs b h ∙ ground arith

pub gather_cong :
    (m m' : Memory) (a s n : ℕ)
    → ((b : ℕ) → a + s ≤ b → b < a + s + n → m b ≡ m' b)
    → gather m a (span s n) ≡ gather m' a (span s n)
unfolding gather span
gather_cong m m' a s zero h = refl
gather_cong m m' a s (suc n) h =
    ap₂ ◌∷◌ (h (a + s) (omega arith) (omega arith))
      (gather_cong m m' a (s + 1) n (λ b p q. h b (omega arith) (omega arith)))

-- The first item of a strided copy, and then the others.
copy-shift :
    (k t s : ℕ) (ts ss : List ℕ) (m w : Memory) (a c : ℕ)
    → scatter m a (span 0 k ++ shift t ts) (gather w c (span 0 k ++ shift s ss))
      ≡ scatter (scatter m a (span 0 k) (gather w c (span 0 k))) (a + t) ts (gather w (c + s) ss)
copy-shift k t s ts ss m w a c =
    let lengths : length (span 0 k) ≡ length (gather w c (span 0 k)) =
      sym (length-gather w c (span 0 k)) in
    rw (gather-append, gather-shift)
      (scatter-append m a (span 0 k) (shift t ts) _ _ lengths ∙ scatter-shift _ a t ts _)

-- The items of a strided read that are written to strided places are found there, item by item, if
-- the places do not overlap.
pub item-strided :
    (n k t s : ℕ) (m w : Memory) (a c i : ℕ)
    → k ≤ t
    → i < n
    → gather
        (scatter m a (tile n t (span 0 k)) (gather w c (tile n s (span 0 k))))
        (a + i * t)
        (span 0 k)
      ≡ gather w (c + i * s) (span 0 k)
unfolding tile
item-strided zero k t s m w a c i apart h = absurd (omega arith)
item-strided (suc n) k t s m w a c zero apart h =
    let here : a + 0 * t ≡ a = omega arith in
    let there : c + 0 * s ≡ c = omega arith in
    let first = scatter m a (span 0 k) (gather w c (span 0 k)) in
    rw (here, there, copy-shift)
      (gather_cong _ first a 0 k (λ b p q. scatter_below first (a + t) _ _ b (omega arith))
        ∙ gather-scatter m a 0 k _ (length-gather w c (span 0 k) ∙ length-span 0 k))
item-strided (suc n) k t s m w a c (suc i) apart h =
    let here : a + suc i * t ≡ a + t + i * t = rw (suc-mul i t) (omega arith) in
    let there : c + suc i * s ≡ c + s + i * s = rw (suc-mul i s) (omega arith) in
    rw (here, there, copy-shift) (item-strided n k t s _ w (a + t) (c + s) i apart (omega arith))
