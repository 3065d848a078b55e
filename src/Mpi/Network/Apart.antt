-- ===== src/Mpi/Network/Apart.antt =====
-- Writes with targets apart: they may be delivered in either order, and neither changes what the other
-- reads.
use mathlib.Core.Path.{fun_ext}
use oshmpi.Prelude.{ℕ, ◌+◌, ◌≡◌, ◌⊎◌, inl, inr, refl, sym, ap, ◌∙◌, List, [], ◌∷◌, ◌++◌}
use oshmpi.Mpi.Memory.{Memory, gather, scatter, write, Misses, scatter-Misses}
use oshmpi.Mpi.Network.{Request, Write, deliver, deliver_all, AreApart, All}

scatter_at :
    (m m' : Memory) (a : ℕ) (os vs : List ℕ) (b : ℕ)
    → m b ≡ m' b
    → scatter m a os vs b ≡ scatter m' a os vs b
unfolding scatter
scatter_at m m' a [] vs b e = e
scatter_at m m' a (o ∷ os) [] b e = e
scatter_at m m' a (o ∷ os) (v ∷ vs) b e =
    scatter_at (write m (a + o) v) (write m' (a + o) v) a os vs b (rw e refl)

pub gather_same :
    (m m' : Memory) (a : ℕ) (os : List ℕ)
    → ((b : ℕ) → Misses a b os ⊎ (m b ≡ m' b))
    → gather m a os ≡ gather m' a os
unfolding gather
gather_same m m' a [] h = refl
gather_same m m' a (o ∷ os) h =
    let first : m (a + o) ≡ m' (a + o) = elim (h (a + o)) [
      | inl miss ↦ absurd (miss.0 refl)
      | inr e ↦ e
    ] in
    rw (first, gather_same m m' a os (λ b. elim (h b) [ inl miss ↦ inl miss.1 | inr e ↦ inr e ]))
      refl

pub deliver_outside :
    (u : Write) (m : Memory) (b : ℕ)
    → Misses u.request.target b u.request.there
    → deliver u m b ≡ m b
unfolding deliver
deliver_outside u m b miss = scatter-Misses m u.request.target u.request.there _ b miss

-- A delivery reads and changes its own target only.
pub deliver_at :
    (u : Write) (m m' : Memory) (b : ℕ)
    → ((c : ℕ) → Misses u.request.target c u.request.there ⊎ (m c ≡ m' c))
    → m b ≡ m' b
    → deliver u m b ≡ deliver u m' b
unfolding deliver
deliver_at u m m' b same e =
    let r = u.request in
    rw (gather_same m m' r.target r.there same) (scatter_at m m' r.target r.there _ b e)

deliver_comm :
    (u v : Write) (m : Memory)
    → AreApart u.request v.request
    → deliver u (deliver v m) ≡ deliver v (deliver u m)
deliver_comm u v m apart = fun_ext (λ b. elim (apart b) [
  | inl miss ↦
      deliver_outside u (deliver v m) b miss
      ∙ sym (
          deliver_at v (deliver u m) m b
            (λ c. elim (apart c) [
              | inl other ↦ inr (deliver_outside u m c other)
              | inr own ↦ inl own
            ])
            (deliver_outside u m b miss))
  | inr miss ↦
      deliver_at u (deliver v m) m b
        (λ c. elim (apart c) [ inl own ↦ inl own | inr other ↦ inr (deliver_outside v m c other) ])
        (deliver_outside v m b miss)
      ∙ sym (deliver_outside v (deliver u m) b miss)
])

pub deliver_all-append :
    (us vs : List Write) (m : Memory) → deliver_all (us ++ vs) m ≡ deliver_all vs (deliver_all us m)
deliver_all-append [] vs m = refl
deliver_all-append (u ∷ us) vs m = deliver_all-append us vs (deliver u m)

pub deliver_first :
    (us : List Write) (u : Write) (m : Memory)
    → All (λ s. AreApart s.request u.request) us
    → deliver u (deliver_all us m) ≡ deliver_all us (deliver u m)
deliver_first [] u m apart = refl
deliver_first (s ∷ us) u m apart =
    deliver_first us u (deliver s m) apart.1
    ∙ ap (deliver_all us) (sym (deliver_comm s u m apart.0))

-- Bytes that no pending write changes.
pub source_kept :
    (us : List Write) (r : Request) (m : Memory)
    → All (λ s. (b : ℕ) → Misses r.origin b r.places ⊎ Misses s.request.target b s.request.there) us
    → gather (deliver_all us m) r.origin r.places ≡ gather m r.origin r.places
source_kept [] r m h = refl
source_kept (s ∷ us) r m h =
    source_kept us r (deliver s m) h.1
    ∙ gather_same (deliver s m) m r.origin r.places
        (λ b. elim (h.0 b) [ inl miss ↦ inl miss | inr miss ↦ inr (deliver_outside s m b miss) ])
