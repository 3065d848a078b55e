-- ===== src/Coll/Layout.antt =====
-- The displacements of a collect in oshmpi_coll of src/shmem-internals.c, and the places of PEs in the
-- list that oshmpi_acquire_comm makes.
use native.Mathlib.Nat.{mul-lt-mul_of_pos_right}
use oshmpi.Prelude.{
  ℕ, zero, suc, ◌+◌, ◌*◌, ◌%◌, ◌^◌, ◌<◌, ◌≡◌, ◌≢◌, ap, ◌∙◌, some, List, [], ◌∷◌, arith, get_elem?,
  length,
}
use oshmpi.Comm.{pe_list}
use oshmpi.Coll.{displacements_from, displacements}

-- The sum of the first `i` counts: where the block of rank `i` stands if the blocks are laid end
-- to end.
unfoldable pub before : List ℕ → ℕ → ℕ
before [] i = 0
before (c ∷ rest) zero = 0
before (c ∷ rest) (suc i) = c + before rest i

layout_from :
    (l : List ℕ) (d i : ℕ)
    → d + before l (length l) < 2 ^ 31
    → i < length l
    → get_elem? (displacements_from d l) i ≡ some (d + before l i)
unfolding displacements_from before
layout_from [] d i h lt = absurd (omega arith)
layout_from (c ∷ rest) d zero h lt = ap some (omega arith)
layout_from (c ∷ rest) d (suc i) h lt =
    let fits : (d + c) % 2 ^ 32 ≡ d + c = omega arith in
    rw fits (layout_from rest (d + c) i (omega arith) (omega arith) ∙ ap some (omega arith))

-- A collect whose counts add up to less than 2^31 gives each rank the displacement at which its
-- block stands when the blocks of all ranks are laid end to end, in rank order.
pub displacements_layout :
    (rcounts : List ℕ) (i : ℕ)
    → before rcounts (length rcounts) < 2 ^ 31
    → i < length rcounts
    → get_elem? (displacements rcounts) i ≡ some (before rcounts i)
unfolding displacements
displacements_layout rcounts i h lt =
    layout_from rcounts 0 i (omega arith) lt ∙ ap some (omega arith)

pub get_elem?-pe_list_from :
    (a d i n k : ℕ) → k < n → get_elem? (pe_list a d i n) k ≡ some (a + (i + k) * d)
unfolding pe_list
get_elem?-pe_list_from a d i zero k lt = absurd (omega arith)
get_elem?-pe_list_from a d i (suc n) zero lt = ap some (ap (λ t. a + t * d) (omega arith))
get_elem?-pe_list_from a d i (suc n) (suc k) lt =
    get_elem?-pe_list_from a d (i + 1) n k (omega arith)
    ∙ ap some (ap (λ t. a + t * d) (omega arith))

pub get_elem?-pe_list : (a d n k : ℕ) → k < n → get_elem? (pe_list a d 0 n) k ≡ some (a + k * d)
get_elem?-pe_list a d n k lt =
    get_elem?-pe_list_from a d 0 n k lt ∙ ap some (ap (λ t. a + t * d) (omega arith))

-- Two places of a strided list differ.
pub pe_list_apart :
    (a d n k j : ℕ) → 0 < d → k < n → j < k → get_elem? (pe_list a d 0 n) j ≢ some (a + k * d)
pe_list_apart a d n k j pos_d lt less e =
    let here = get_elem?-pe_list a d n j (omega arith) in
    let same : a + j * d ≡ a + k * d = ground arith in
    omega (arith, mul-lt-mul_of_pos_right less pos_d)
