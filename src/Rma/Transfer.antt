-- ===== src/Rma/Transfer.antt =====
-- What oshmpi_put and oshmpi_get of src/shmem-internals.c do to memory, on every path.
use oshmpi.Prelude.{
  ℕ, ◌+◌, ◌-◌, ◌*◌, ◌/◌, ◌%◌, ◌^◌, ◌<◌, ◌≤◌, ◌≡◌, ◌⊎◌, inl, inr, refl, ap, ◌∙◌, some, List, [], ◌∷◌,
  arith, Bool-cases, ltb,
}
use native.Mathlib.Nat.{mul-le-mul, le_refl}
use oshmpi.Prelude.Int.{pos}
use oshmpi.Mpi.{Basic, Datatype, basic, memcpy, Win, win_flush_local, Action}
use oshmpi.Mpi.Memory.{Memory, span, gather, scatter, tile, tile_one, tile-span}
use oshmpi.Mpi.Library.{Mpi, run}
use oshmpi.Mpi.Network.Local.{run-append}
use oshmpi.Contiguous.{int_max, type_contiguous_x}
use oshmpi.Contiguous.Typemap.{typemap-type_contiguous_x}
use oshmpi.Globals.{Globals}
use oshmpi.Window.{WindowId, sheap_window, etext_window, Located, window_offset, window_of}
use oshmpi.Window.Lookup.{InSheap, InEtext, Sheap-cases, window_offset-sheap, window_offset-etext}
use oshmpi.Rma.{
  Counted, counted, release_type, peer_ptr, bypasses, through_mpi, put_call, get_call, oshmpi_put,
  oshmpi_get,
}
use oshmpi.Rma.Places.{
  Fits, bypasses-sheap, bypasses-smp, located, memory_after, remote_address, remote_address-etext,
  remote_address-sheap,
}

module _ {mpi : Mpi} {g : Globals} {b : Basic} {len pe : ℕ} (fits : Fits mpi g pe b len) where
  open mpi use {type_size, extent, typemap, extent-basic, typemap-basic}
  open fits use {shared, chunks, bytes}

  bound : len / int_max * int_max * type_size b < 2 ^ 63
  bound =
      let whole : len / int_max * int_max ≤ len = omega arith in
      grind (arith, mul-le-mul whole (le_refl (type_size b)))

  -- Both ways to count `len` items name the same bytes.
  pub counted_bytes :
      let c = counted extent len (basic b) in
      tile c.count (extent c.tmp_type) (typemap c.tmp_type) ≡ span 0 (len * type_size b)
  unfolding counted
  counted_bytes = elim (Bool-cases (ltb len int_max)) [
    | inl few ↦ rw (few, typemap-basic, extent-basic) (tile-span len (type_size b))
    | inr many ↦
        rw (many, tile_one)
          (typemap-type_contiguous_x mpi len (basic b) chunks (rw extent-basic bound)
            ∙ rw (typemap-basic, extent-basic) (tile-span len (type_size b)))
  ]

run-flush_local :
    (mpi : Mpi) (pe : ℕ) (w : Win) (m : Memory) → run mpi (win_flush_local pe w ∷ []) m ≡ m
unfolding run
run-flush_local mpi pe w m = mpi.effect-flush_local pe w m

module _ (mpi : Mpi) (len : ℕ) (t : Datatype) (m : Memory) where
  run-made : run mpi (counted mpi.extent len t).made m ≡ m
  unfolding run counted type_contiguous_x
  run-made = elim (Bool-cases (ltb len int_max)) [
    | inl few ↦ rw few
    | inr many ↦ rw many (simp (mpi.effect-commit, mpi.effect-free, mpi.effect-create))
  ]

  run-release_type : run mpi (release_type len t) m ≡ m
  unfolding run release_type
  run-release_type = elim (Bool-cases (ltb int_max len)) [
    | inl few ↦ rw few (mpi.effect-free t m)
    | inr many ↦ rw many
  ]

module _ (mpi : Mpi) (g : Globals) (b : Basic) (len pe : ℕ) (l : Located) where
  -- The MPI path has the effect of its call.
  through_mpi-run :
      (call : Counted → Action) (m m' : Memory)
      → run mpi (call (counted mpi.extent len (basic b)) ∷ []) m ≡ m'
      → run mpi (through_mpi mpi g b len pe l call) m ≡ m'
  unfolding through_mpi
  through_mpi-run call m m' e =
      rw (run-append, run-made)
        (run-append mpi (call (counted mpi.extent len (basic b)) ∷ []) _ m
          ∙ rw (e, run-append, run-release_type) (run-flush_local mpi pe (window_of l.win_id) m'))

module _ {mpi : Mpi} {g : Globals} {b : Basic} {len pe : ℕ} (fits : Fits mpi g pe b len)
    (buffer d : ℕ) (l : Located) (m : Memory) (e : l.win_offset ≡ pos d) where
  abbrev bytes_of : List ℕ
  bytes_of = span 0 (len * mpi.type_size b)

  pub put_call-run :
      run mpi (put_call mpi g (counted mpi.extent len (basic b)) buffer pe l ∷ []) m
      ≡ scatter m (mpi.base (window_of l.win_id) pe + d) bytes_of (gather m buffer bytes_of)
  unfolding put_call run
  put_call-run = elim (Bool-cases g.rma_ordering) [
    | inl ordered ↦ rw (ordered, e, mpi.effect-accumulate, counted_bytes fits)
    | inr free ↦ rw (free, e, mpi.effect-put, counted_bytes fits)
  ]

  get_call-run :
      run mpi (get_call mpi g (counted mpi.extent len (basic b)) buffer pe l ∷ []) m
      ≡ scatter m buffer bytes_of (gather m (mpi.base (window_of l.win_id) pe + d) bytes_of)
  unfolding get_call run
  get_call-run = elim (Bool-cases g.rma_ordering) [
    | inl ordered ↦ rw (ordered, e, mpi.effect-get_accumulate, counted_bytes fits)
    | inr free ↦ rw (free, e, mpi.effect-get, counted_bytes fits)
  ]

module _ {mpi : Mpi} {g : Globals} {b : Basic} {len pe : ℕ} (fits : Fits mpi g pe b len)
    (target source : ℕ) (m : Memory) where
  abbrev item_bytes : List ℕ
  item_bytes = span 0 (len * mpi.type_size b)

  -- A memcpy between a local buffer and the peer's segment moves the same bytes.
  memcpy-run :
      (to from : ℕ)
      → run mpi (memcpy to from ((len * mpi.type_size b) % 2 ^ 64) ∷ []) m
        ≡ scatter m to item_bytes (gather m from item_bytes)
  unfolding run
  memcpy-run to from =
      let whole : (len * mpi.type_size b) % 2 ^ 64 ≡ len * mpi.type_size b =
        omega (arith, fits.bytes) in
      rw whole

  put_at :
      (id : WindowId) (d : ℕ)
      → window_offset g target pe ≡ located id d
      → (id ≡ sheap_window → d ≡ target - g.shmem_sheap_base_ptr)
      → memory_after mpi (oshmpi_put mpi g b target source len pe) m
        ≡ some (scatter m (mpi.base (window_of id) pe + d) item_bytes (gather m source item_bytes))
  unfolding oshmpi_put
  put_at id d at heap = elim (Bool-cases (bypasses g (located id d))) [
    | inl fast ↦
        let sheap = bypasses-sheap g id d fast in
        rw (at, fast, sheap, heap sheap, ← fits.shared.ptrs (bypasses-smp g (located id d) fast))
          (ap some (memcpy-run (peer_ptr g target pe) source))
    | inr slow ↦
        rw (at, slow)
          (ap some (
            through_mpi-run mpi g b len pe (located id d)
              (λ c. put_call mpi g c source pe (located id d)) m _
              (put_call-run fits source d (located id d) m refl)))
  ]

  get_at :
      (id : WindowId) (d : ℕ)
      → window_offset g source pe ≡ located id d
      → (id ≡ sheap_window → d ≡ source - g.shmem_sheap_base_ptr)
      → memory_after mpi (oshmpi_get mpi g b target source len pe) m
        ≡ some (scatter m target item_bytes (gather m (mpi.base (window_of id) pe + d) item_bytes))
  unfolding oshmpi_get
  get_at id d at heap = elim (Bool-cases (bypasses g (located id d))) [
    | inl fast ↦
        let sheap = bypasses-sheap g id d fast in
        rw (at, fast, sheap, heap sheap, ← fits.shared.ptrs (bypasses-smp g (located id d) fast))
          (ap some (memcpy-run target (peer_ptr g source pe)))
    | inr slow ↦
        rw (at, slow)
          (ap some (
            through_mpi-run mpi g b len pe (located id d)
              (λ c. get_call mpi g c target pe (located id d)) m _
              (get_call-run fits target d (located id d) m refl)))
  ]

  -- A put that finds its target writes the bytes of the source to the target's place at the PE,
  -- on every path.
  pub put-writes :
      InSheap g target ⊎ InEtext g target
      → memory_after mpi (oshmpi_put mpi g b target source len pe) m
        ≡ some (scatter m (remote_address mpi g target pe) item_bytes (gather m source item_bytes))
  put-writes found = elim (Sheap-cases g target) [
    | inl heap ↦
        rw (remote_address-sheap mpi g target pe heap)
          (put_at sheap_window _ (window_offset-sheap g target pe heap) (λ _. refl))
    | inr outside ↦
        rw (remote_address-etext mpi g target pe outside)
          (put_at etext_window _ (window_offset-etext g target pe outside (ground arith)) (λ e. cc))
  ]

  pub get-reads :
      InSheap g source ⊎ InEtext g source
      → memory_after mpi (oshmpi_get mpi g b target source len pe) m
        ≡ some (scatter m target item_bytes (gather m (remote_address mpi g source pe) item_bytes))
  get-reads found = elim (Sheap-cases g source) [
    | inl heap ↦
        rw (remote_address-sheap mpi g source pe heap)
          (get_at sheap_window _ (window_offset-sheap g source pe heap) (λ _. refl))
    | inr outside ↦
        rw (remote_address-etext mpi g source pe outside)
          (get_at etext_window _ (window_offset-etext g source pe outside (ground arith)) (λ e. cc))
  ]
