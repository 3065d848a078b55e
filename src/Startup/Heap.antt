-- ===== src/Startup/Heap.antt =====
-- The size of the symmetric heap in oshmpi_initialize of src/shmem-internals.c, from the environment or
-- by default. Text is a list of character codes.
use oshmpi.Prelude.{
  ℕ, zero, suc, ◌+◌, ◌-◌, ◌*◌, ◌/◌, ◌^◌, ◌<◌, ◌≡◌, ◌⊎◌, ◌↔◌, inl, inr, refl, ◌∙◌, Bool-cases, Bool,
  true, false, ◌&&◌, ◌||◌, Option, none, some, List, [], ◌∷◌, ◌++◌, arith, ltb, leb, ◌==◌,
  if◌then◌else◌,
}
use oshmpi.Prelude.Int.{ℤ, pos, negsuc, ltb_ℤ, eqb_ℤ, pos_part, to_int64, to_int64-pos}

-- The variables of the environment, in the order in which they are tried.
pub data Variable : Type 0 where
  shmem_symmetric_heap_size sma_symmetric_size symmetric_size : Variable
  x1_symmetric_heap_size xt_symmetric_heap_size ooshm_symmetric_heap_size : Variable

abbrev pub variables : List Variable
variables =
    shmem_symmetric_heap_size ∷ sma_symmetric_size ∷ symmetric_size ∷ x1_symmetric_heap_size
    ∷ xt_symmetric_heap_size ∷ ooshm_symmetric_heap_size ∷ []

-- The chain of `if (env_char==NULL)`.
unfoldable pub first_set : (Variable → Option (List ℕ)) → List Variable → Option (List ℕ)
first_set getenv [] = none
first_set getenv (v ∷ rest) =
    let later = first_set getenv rest in elim (getenv v) [ none ↦ later | some text ↦ some text ]

abbrev pub is_digit : ℕ → Bool
is_digit c = leb 48 c && leb c 57

-- `NULL != strstr(env_char, …)` with a text of one character.
unfoldable pub has_char : ℕ → List ℕ → Bool
has_char c [] = false
has_char c (d ∷ rest) = (c == d) || has_char c rest

-- The letters G, M and K.
unfoldable pub units_of : List ℕ → ℕ
units_of text =
    if has_char 71 text
    then 1000000000
    else if has_char 77 text
    then 1000000
    else if has_char 75 text
    then 1000
    else 1

-- strspn over the digits
unfoldable pub num_count : List ℕ → ℕ
num_count [] = 0
num_count (c ∷ rest) = let more = num_count rest in if is_digit c then suc more else 0

-- The memset: all from position `n` on become spaces.
unfoldable pub blank_from : ℕ → List ℕ → List ℕ
blank_from n [] = []
blank_from zero (c ∷ rest) = 32 ∷ blank_from zero rest
blank_from (suc n) (c ∷ rest) = c ∷ blank_from n rest

-- atol on digits and spaces: the digits up to the first other character. With no digit first the
-- text is all spaces.
unfoldable pub atol_from : (acc : ℕ) → List ℕ → ℕ
atol_from acc [] = acc
atol_from acc (c ∷ rest) =
    let more = atol_from (acc * 10 + (c - 48)) rest in if is_digit c then more else acc

unfoldable pub env_size : List ℕ → ℤ
unfolding atol_from
env_size text = to_int64 (units_of text * atol_from 0 (blank_from (num_count text) text))

-- The size by default on Linux: the memory available, by the PEs of the node, up to 2 GiB.
unfoldable pub default_size : (pagesize availpages : ℤ) → (ppn : ℕ) → ℤ
default_size pagesize availpages ppn =
    if ltb_ℤ pagesize (pos 0) || ltb_ℤ availpages (pos 0)
    then pos 128000000
    else let totalmem = pos_part pagesize * pos_part availpages / ppn in
      if ltb totalmem (2 ^ 31) then pos totalmem else pos (2 ^ 31)

-- What the window is allocated with: rank 0's environment decides for all.
unfoldable pub window_size :
    (Variable → Option (List ℕ)) → (pagesize availpages : ℤ) → (ppn : ℕ) → ℤ
window_size getenv pagesize availpages ppn =
    let asked : ℤ = elim (first_set getenv variables) [
      | none ↦ negsuc 0
      | some text ↦ env_size text
    ] in
    if eqb_ℤ asked (negsuc 0) then default_size pagesize availpages ppn else asked

-- shmem_sheap_size behind the allocation: `+= 128*sizeof(size_t)`.
unfoldable pub sheap_size : (window : ℕ) → ℕ
sheap_size window = window + 128 * 8

abbrev pub AllDigits : List ℕ → Type 0
AllDigits [] = Unit {0}
AllDigits (c ∷ rest) = (is_digit c ≡ true) × AllDigits rest

-- The text goes on with something else than a digit, or ends.
abbrev pub Stops : List ℕ → Type 0
Stops [] = Unit {0}
Stops (c ∷ rest) = is_digit c ≡ false

-- The number that digits stand for, the first being the highest.
unfoldable pub decimal : (acc : ℕ) → List ℕ → ℕ
decimal acc [] = acc
decimal acc (c ∷ rest) = decimal (acc * 10 + (c - 48)) rest

blank_stops : (acc : ℕ) (rest : List ℕ) → atol_from acc (blank_from 0 rest) ≡ acc
unfolding atol_from blank_from
blank_stops acc [] = refl
blank_stops acc (c ∷ rest) = refl

count_none : (rest : List ℕ) → Stops rest → num_count rest ≡ 0
unfolding num_count
count_none [] h = refl
count_none (c ∷ rest) h = rw h refl

count_digit : (c : ℕ) (l : List ℕ) → is_digit c ≡ true → num_count (c ∷ l) ≡ suc (num_count l)
unfolding num_count
count_digit c l h = rw h refl

atol_digit :
    (c acc : ℕ) (l : List ℕ)
    → is_digit c ≡ true
    → atol_from acc (c ∷ l) ≡ atol_from (acc * 10 + (c - 48)) l
unfolding atol_from
atol_digit c acc l h = rw h refl

digits_read :
    (ds rest : List ℕ) (acc : ℕ)
    → AllDigits ds
    → Stops rest
    → atol_from acc (blank_from (num_count (ds ++ rest)) (ds ++ rest)) ≡ decimal acc ds
unfolding atol_from blank_from num_count decimal
digits_read [] rest acc h stops = rw (count_none rest stops) (blank_stops acc rest)
digits_read (c ∷ ds) rest acc h stops = rw (count_digit c (ds ++ rest) h.0) (
    atol_digit c acc (blank_from (num_count (ds ++ rest)) (ds ++ rest)) h.0
    ∙ digits_read ds rest (acc * 10 + (c - 48)) h.1 stops)

letter_behind :
    (x : ℕ) (ds rest : List ℕ) → 57 < x → AllDigits ds → has_char x (ds ++ rest) ≡ has_char x rest
unfolding has_char
letter_behind x [] rest letter h = refl
letter_behind x (c ∷ ds) rest letter h =
    let other : (x == c) ≡ false = ground (arith, h.0) in
    rw other (letter_behind x ds rest letter h.1)

units_behind : (ds rest : List ℕ) → AllDigits ds → units_of (ds ++ rest) ≡ units_of rest
unfolding units_of
units_behind ds rest h =
    rw
      (
        letter_behind 71 ds rest (omega arith) h,
        letter_behind 77 ds rest (omega arith) h,
        letter_behind 75 ds rest (omega arith) h,
      )
      refl

-- The text has the character.
abbrev pub Has : ℕ → List ℕ → Type 0
Has c [] = ⊥
Has c (d ∷ rest) = (c ≡ d) ⊎ Has c rest

has_char-Has : (c : ℕ) (text : List ℕ) → (has_char c text ≡ true) ↔ Has c text
unfolding has_char
has_char-Has c [] = (λ h. absurd (cc), λ h. absurd h)
has_char-Has c (d ∷ rest) =
    let ih = has_char-Has c rest in
    elim (Bool-cases (c == d)) [
      | inl same ↦ (λ h. inl (ground arith), λ h. rw same refl)
      | inr other ↦ (
        λ h. inr (ih.0 (rw other at h)),
        λ h. elim h [ inl e ↦ absurd (ground (arith, e)) | inr later ↦ rw other (ih.1 later) ],
      )
    ]

Has-not : (c : ℕ) (text : List ℕ) → (¬ Has c text) → has_char c text ≡ false
Has-not c text lacks = elim (Bool-cases (has_char c text)) [
  | inl there ↦ absurd (lacks ((has_char-Has c text).0 there))
  | inr e ↦ e
]

-- What a text multiplies the number before it with: 10^9 for a G (71), else 10^6 for an M (77), else
-- 1000 for a K (75), else 1.
pub data IsUnit (text : List ℕ) : ℕ → Type 0 where
  giga : Has 71 text → IsUnit text 1000000000
  mega : (¬ Has 71 text) → Has 77 text → IsUnit text 1000000
  kilo : (¬ Has 71 text) → (¬ Has 77 text) → Has 75 text → IsUnit text 1000
  one : (¬ Has 71 text) → (¬ Has 77 text) → (¬ Has 75 text) → IsUnit text 1

units-IsUnit : (text : List ℕ) (unit : ℕ) → IsUnit text unit → units_of text ≡ unit
unfolding units_of
units-IsUnit text unit (giga g) = rw ((has_char-Has 71 text).1 g) refl
units-IsUnit text unit (mega g m) = rw (Has-not 71 text g, (has_char-Has 77 text).1 m) refl
units-IsUnit text unit (kilo g m k) =
    rw (Has-not 71 text g, Has-not 77 text m, (has_char-Has 75 text).1 k) refl
units-IsUnit text unit (one g m k) =
    rw (Has-not 71 text g, Has-not 77 text m, Has-not 75 text k) refl

-- A heap size of digits, and then a text that begins with no digit, is the number of the digits
-- times the unit of the text: 10^9 if it has a G anywhere, else 10^6 for an M, else 1000 for a K,
-- else 1. It is exact if the product is below 2^63.
pub env_size-digits :
    (ds rest : List ℕ) (unit : ℕ)
    → AllDigits ds
    → Stops rest
    → IsUnit rest unit
    → unit * decimal 0 ds < 2 ^ 63
    → env_size (ds ++ rest) ≡ pos (unit * decimal 0 ds)
unfolding env_size
env_size-digits ds rest unit h stops is small =
    rw (units_behind ds rest h ∙ units-IsUnit rest unit is, digits_read ds rest 0 h stops)
      (to_int64-pos _ small)
