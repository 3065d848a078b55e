-- ===== src/Lock/Fifo/Line.antt =====
-- The queue of the PEs that wait for the lock of src/oshmpi-mcs-lock.c, by their places.
use oshmpi.Prelude.{
  ℕ, ◌+◌, ◌≤◌, ◌<◌, ◌≡◌, inl, inr, List, [], ◌∷◌, ◌++◌, arith, ==_iff, ◌==◌, Bool-cases,
}
use mathlib.Core.List.{Memᴰ}
use mathlib.Core.Path.{sym}
use oshmpi.Lock.{update}

-- The list has the PEs of the places behind `entered`, up to `arrived`, in order.
abbrev pub Lined : (place : ℕ → ℕ) (entered arrived : ℕ) → List ℕ → Type 0
Lined place entered arrived [] = entered ≡ arrived
Lined place entered arrived (i ∷ rest) =
    (place i ≡ entered + 1) × Lined place (entered + 1) arrived rest

pub Lined-le :
    (place : ℕ → ℕ) (entered arrived : ℕ) (queue : List ℕ)
    → Lined place entered arrived queue
    → entered ≤ arrived
Lined-le place e a [] l = omega arith
Lined-le place e a (i ∷ rest) l = omega (arith, Lined-le place (e + 1) a rest l.1)

-- The PE that comes goes to the end.
pub Lined-snoc :
    (place : ℕ → ℕ) (i entered arrived : ℕ) (queue : List ℕ)
    → place i ≡ 0
    → Lined place entered arrived queue
    → Lined (update place i (arrived + 1)) entered (arrived + 1) (queue ++ i ∷ [])
Lined-snoc place i e a [] new l = (ground arith, omega arith)
Lined-snoc place i e a (j ∷ rest) new l =
    (ground (arith), Lined-snoc place i (e + 1) a rest new l.1)

module _ (place : ℕ → ℕ) (unique : (i j : ℕ) → 0 < place i → place i ≡ place j → i ≡ j) where
  -- The PE of the first place behind `entered` is the first.
  pub Lined-first :
      (i entered arrived : ℕ) (queue : List ℕ)
      → place i ≡ entered + 1
      → place i ≤ arrived
      → Lined place entered arrived queue
      → (rest : List ℕ) × (queue ≡ i ∷ rest) × Lined place (entered + 1) arrived rest
  Lined-first i e a [] at le l = absurd (omega arith)
  Lined-first i e a (j ∷ rest) at le l =
      let same : j ≡ i = unique j i (omega arith) (omega arith) in (rest, cc, l.1)

  pub Lined-behind :
      (i entered arrived : ℕ) (queue : List ℕ)
      → Lined place entered arrived queue
      → Memᴰ i queue
      → entered < place i
  Lined-behind i e a [] l m = elim m [ ]
  Lined-behind i e a (j ∷ rest) l (Memᴰ.head same) = ground arith
  Lined-behind i e a (j ∷ rest) l (Memᴰ.tail m) = omega (arith, Lined-behind i (e + 1) a rest l.1 m)

  pub Lined_has :
      (i entered arrived : ℕ) (queue : List ℕ)
      → Lined place entered arrived queue
      → entered < place i
      → place i ≤ arrived
      → Memᴰ i queue
  Lined_has i e a [] l lt le = absurd (omega arith)
  Lined_has i e a (j ∷ rest) l lt le = elim (Bool-cases (j == i)) [
    | inl same ↦ Memᴰ.head (sym ((==_iff j i).0 same))
    | inr other ↦ Memᴰ.tail (Lined_has i (e + 1) a rest l.1 (ground (arith, unique j i)) le)
  ]
