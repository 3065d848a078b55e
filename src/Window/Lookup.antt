-- ===== src/Window/Lookup.antt =====
-- oshmpi_window_offset of src/shmem-internals.c: which addresses are found, and where.
use oshmpi.Prelude.{ℕ, ◌+◌, ◌-◌, ◌≤◌, ◌≡◌, ◌⊎◌, inl, inr, ap, ◌&&◌, arith, Bool-cases, leb}
use oshmpi.Prelude.Int.{pos}
use oshmpi.Globals.{Globals}
use oshmpi.Window.{sheap_window, etext_window, invalid_window, window_offset}

-- The bytes from `base` on, and the address just behind them, as the code takes it.
abbrev pub IsWithin : (base size a : ℕ) → Type 0
IsWithin base size a = (base ≤ a) × (a ≤ base + size)

abbrev pub InSheap : Globals → ℕ → Type 0
InSheap g a = IsWithin g.shmem_sheap_base_ptr g.shmem_sheap_size a

abbrev pub InEtext : Globals → ℕ → Type 0
InEtext g a = IsWithin g.shmem_etext_base_ptr g.shmem_etext_size a

pub Sheap-cases : (g : Globals) (a : ℕ) → InSheap g a ⊎ (¬ InSheap g a)
Sheap-cases g a =
    elim (Bool-cases
      (leb g.shmem_sheap_base_ptr a && leb a (g.shmem_sheap_base_ptr + g.shmem_sheap_size))) [
        | inl h ↦ inl (ground arith)
        | inr h ↦ inr (λ w. ground arith)
      ]

pub Etext-cases : (g : Globals) (a : ℕ) → InEtext g a ⊎ (¬ InEtext g a)
Etext-cases g a =
    elim (Bool-cases
      (leb g.shmem_etext_base_ptr a && leb a (g.shmem_etext_base_ptr + g.shmem_etext_size))) [
        | inl h ↦ inl (ground arith)
        | inr h ↦ inr (λ w. ground arith)
      ]

module _ (g : Globals) (a pe : ℕ) where
  pub window_offset-sheap :
      InSheap g a
      → window_offset g a pe
        ≡ record { rc = 0; win_id = sheap_window; win_offset = pos (a - g.shmem_sheap_base_ptr) }
  unfolding window_offset
  window_offset-sheap h = ground arith

  pub window_offset-etext :
      ¬ InSheap g a
      → InEtext g a
      → window_offset g a pe
        ≡ record { rc = 0; win_id = etext_window; win_offset = pos (a - g.shmem_etext_base_ptr) }
  unfolding window_offset
  window_offset-etext n h = ground arith

  pub window_offset-invalid :
      ¬ InSheap g a
      → ¬ InEtext g a
      → window_offset g a pe ≡ record { rc = 1; win_id = invalid_window; win_offset = pos 0 }
  unfolding window_offset
  window_offset-invalid n k = ground arith

  -- The lookup has three outcomes. An address from the heap's base up to and including the
  -- address just behind the heap is found in the heap's window at its distance from the base; any
  -- other address with such a place in the static data is found there; the rest is refused with a
  -- return value of 1.
  pub window_offset_classifies :
      (InSheap g a
        × (window_offset g a pe ≡ record {
          rc = 0;
          win_id = sheap_window;
          win_offset = pos (a - g.shmem_sheap_base_ptr);
        }))
      ⊎ ((¬ InSheap g a)
          × InEtext g a
          × (window_offset g a pe ≡ record {
            rc = 0;
            win_id = etext_window;
            win_offset = pos (a - g.shmem_etext_base_ptr);
          }))
      ⊎ ((¬ InSheap g a)
          × (¬ InEtext g a)
          × (window_offset g a pe ≡ record { rc = 1; win_id = invalid_window; win_offset = pos 0 }))
  window_offset_classifies = elim (Sheap-cases g a) [
    | inl heap ↦ inl (heap, window_offset-sheap heap)
    | inr outside ↦ inr (elim (Etext-cases g a) [
      | inl static ↦ inl (outside, static, window_offset-etext outside static)
      | inr neither ↦ inr (outside, neither, window_offset-invalid outside neither)
    ])
  ]

-- The lookup finds the address.
abbrev pub IsSymmetric : Globals → ℕ → Type 0
IsSymmetric g a = InSheap g a ⊎ InEtext g a

-- The return value says whether the address is found.
pub window_offset-rc :
    (g : Globals) (a pe : ℕ)
    → (IsSymmetric g a × ((window_offset g a pe).rc ≡ 0))
      ⊎ ((¬ IsSymmetric g a) × ((window_offset g a pe).rc ≡ 1))
window_offset-rc g a pe = elim (window_offset_classifies g a pe) [
  | inl (heap, e) ↦ inl (inl heap, ap (λ l. l.rc) e)
  | inr (inl (outside, static, e)) ↦ inl (inr static, ap (λ l. l.rc) e)
  | inr (inr (outside, neither, e)) ↦ inr (
    λ found. elim found [ inl heap ↦ outside heap | inr static ↦ neither static ],
    ap (λ l. l.rc) e,
  )
]
