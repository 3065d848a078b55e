-- ===== src/Rma/Types.antt =====
-- The datatypes that oshmpi_put and oshmpi_get of src/shmem-internals.c make and free.
use oshmpi.Prelude.{ℕ, ◌+◌, ◌≡◌, List, [], ◌∷◌, ◌++◌, arith, ltb, ◌==◌, if◌then◌else◌}
use oshmpi.Mpi.{
  Basic, Datatype, basic, Action, type_create, type_free, win_flush_local, Outcome, finished,
  aborted, assert_failed,
}
use oshmpi.Mpi.Library.{Mpi}
use oshmpi.Contiguous.{int_max, type_contiguous_x}
use oshmpi.Globals.{Globals}
use oshmpi.Window.{Located, window_offset, window_of}
use oshmpi.Rma.{
  Counted, counted, release_type, through_mpi, bypasses, put_call, get_call, oshmpi_put, oshmpi_get,
}

-- Types made less types freed: a type that is left over is a leak. Kept as two counts.
abbrev pub makes : Action → ℕ
makes (type_create t) = 1
makes _ = 0

abbrev pub frees : Action → ℕ
frees (type_free t) = 1
frees _ = 0

pub tally : (Action → ℕ) → List Action → ℕ
tally f [] = 0
tally f (a ∷ rest) = f a + tally f rest

abbrev pub actions_of : Outcome → List Action
actions_of (finished l) = l
actions_of (aborted _ l) = l
actions_of (assert_failed l) = l

-- Every type that the run makes it frees again, except for `left` of them.
abbrev pub Leaves : ℕ → Outcome → Type 0
Leaves left o = tally makes (actions_of o) ≡ tally frees (actions_of o) + left

tally-append : (f : Action → ℕ) (xs ys : List Action) → tally f (xs ++ ys) ≡ tally f xs + tally f ys
unfolding tally
tally-append f [] ys = omega arith
tally-append f (x ∷ xs) ys = omega (arith, tally-append f xs ys)

module _ (mpi : Mpi) (len : ℕ) (t : Datatype) where
  made-makes : tally makes (counted mpi.extent len t).made ≡ (if ltb len int_max then 0 else 3)
  unfolding tally counted type_contiguous_x
  made-makes = ground arith

  made-frees : tally frees (counted mpi.extent len t).made ≡ (if ltb len int_max then 0 else 2)
  unfolding tally counted type_contiguous_x
  made-frees = ground arith

  release_type-makes : tally makes (release_type len t) ≡ 0
  unfolding tally release_type
  release_type-makes = ground arith

  release_type-frees : tally frees (release_type len t) ≡ (if ltb int_max len then 1 else 0)
  unfolding tally release_type
  release_type-frees = ground arith

-- How many types a transfer of `len` items through MPI leaves over.
abbrev pub leftover : ℕ → ℕ
leftover len = if len == int_max then 1 else 0

module _ (mpi : Mpi) (g : Globals) (b : Basic) (len pe : ℕ) where
  through_mpi-Leaves :
      (l : Located) (call : Counted → Action)
      → makes (call (counted mpi.extent len (basic b))) ≡ 0
      → frees (call (counted mpi.extent len (basic b))) ≡ 0
      → Leaves (leftover len) (finished (through_mpi mpi g b len pe l call))
  unfolding through_mpi tally
  through_mpi-Leaves l call none_made none_freed =
      let c = counted mpi.extent len (basic b) in
      let tail = release_type len c.tmp_type ++ win_flush_local pe (window_of l.win_id) ∷ [] in
      ground (
        arith,
        tally-append makes c.made (call c ∷ tail),
        tally-append frees c.made (call c ∷ tail),
        tally-append makes (release_type len c.tmp_type)
            (win_flush_local pe (window_of l.win_id) ∷ []),
        tally-append frees (release_type len c.tmp_type)
            (win_flush_local pe (window_of l.win_id) ∷ []),
        made-makes mpi len (basic b),
        made-frees mpi len (basic b),
        release_type-makes mpi len c.tmp_type,
        release_type-frees mpi len c.tmp_type,
      )

  put_call-neutral :
      (c : Counted) (source : ℕ) (l : Located)
      → (makes (put_call mpi g c source pe l) ≡ 0) × (frees (put_call mpi g c source pe l) ≡ 0)
  unfolding put_call
  put_call-neutral c source l = ground arith

  get_call-neutral :
      (c : Counted) (target : ℕ) (l : Located)
      → (makes (get_call mpi g c target pe l) ≡ 0) × (frees (get_call mpi g c target pe l) ≡ 0)
  unfolding get_call
  get_call-neutral c target l = ground arith

  -- Whether the transfer at a located address goes through MPI.
  abbrev pub leaves : Located → ℕ
  leaves l = if l.rc == 0 then (if bypasses g l then 0 else leftover len) else 0

  -- A put or a get frees every datatype that it makes, but for one case: a transfer through MPI of
  -- exactly INT32_MAX items, which makes a derived type and leaves it over.
  pub transfer-Leaves :
      (target source : ℕ)
      → Leaves (leaves (window_offset g target pe)) (oshmpi_put mpi g b target source len pe)
        × Leaves (leaves (window_offset g source pe)) (oshmpi_get mpi g b target source len pe)
  unfolding oshmpi_put oshmpi_get tally
  transfer-Leaves target source =
      let c = counted mpi.extent len (basic b) in
      let lp = window_offset g target pe in
      let lg = window_offset g source pe in
      let (pm, pf) = put_call-neutral c source lp in
      let (gm, gf) = get_call-neutral c target lg in
      (
        ground (arith, through_mpi-Leaves lp (λ c. put_call mpi g c source pe lp) pm pf),
        ground (arith, through_mpi-Leaves lg (λ c. get_call mpi g c target pe lg) gm gf),
      )
