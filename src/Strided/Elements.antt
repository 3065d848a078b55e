-- ===== src/Strided/Elements.antt =====
-- What the strided transfers of src/shmem-internals.c move, item by item.
use oshmpi.Prelude.{
  ℕ, ◌+◌, ◌*◌, ◌<◌, ◌≤◌, ◌≡◌, ◌⊎◌, inl, inr, ◌&&◌, true, ap, some, List, [], ◌∷◌, arith, Bool-cases,
  lt→ltb,
}
use oshmpi.Prelude.Int.{pos}
use oshmpi.Mpi.{Basic}
use oshmpi.Mpi.Memory.{
  Memory, span, gather, scatter, tile-span, item-strided, IsBetween, scatter-Misses, Misses-tile,
}
use oshmpi.Mpi.Library.{Mpi, run}
use oshmpi.Contiguous.{int_max}
use oshmpi.Globals.{Globals}
use oshmpi.Window.{WindowId, sheap_window, etext_window, window_offset, window_of}
use oshmpi.Window.Lookup.{InSheap, InEtext, Sheap-cases, window_offset-sheap, window_offset-etext}
use oshmpi.Rma.{oshmpi_put, oshmpi_get}
use oshmpi.Rma.Places.{
  Fits, memory_after, remote_address, remote_address-sheap, remote_address-etext, located,
}
use oshmpi.Rma.Transfer.{put-writes, get-reads}
use oshmpi.Strided.{
  is_int_stride, vectors, strided_put_call, strided_get_call, oshmpi_put_strided,
  oshmpi_get_strided,
}
use oshmpi.Strided.Layout.{every, source_bytes, target_bytes, with_vectors-run}

-- An item of type `b` at `place`, `i` strides on.
abbrev pub item : Mpi → Basic → Memory → (place stride i : ℕ) → List ℕ
item mpi b m place stride i =
    gather m (place + i * (stride * mpi.type_size b)) (span 0 (mpi.type_size b))

module _ (mpi : Mpi) (g : Globals) (b : Basic) (n t s : ℕ) (counts : n < int_max)
    (t_fits : t < int_max) (s_fits : s < int_max) (target source pe : ℕ) (m : Memory) where
  abbrev target_bytes_at : List ℕ
  target_bytes_at = every n t (mpi.type_size b)

  abbrev source_bytes_at : List ℕ
  source_bytes_at = every n s (mpi.type_size b)

  strides_fit : (is_int_stride (pos t) && is_int_stride (pos s)) ≡ true
  strides_fit = ground arith

  strided_put_call-run :
      (id : WindowId) (d : ℕ)
      → run mpi (strided_put_call g (vectors b (pos t) (pos s) n) source pe (located id d) ∷ []) m
        ≡ scatter m
            (mpi.base (window_of id) pe + d)
            target_bytes_at
            (gather m source source_bytes_at)
  unfolding strided_put_call run
  strided_put_call-run id d = elim (Bool-cases g.rma_ordering) [
    | inl ordered ↦
        rw (ordered, mpi.effect-accumulate, source_bytes mpi b n t s, target_bytes mpi b n t s)
    | inr free ↦ rw (free, mpi.effect-put, source_bytes mpi b n t s, target_bytes mpi b n t s)
  ]

  strided_get_call-run :
      (id : WindowId) (d : ℕ)
      → run mpi (strided_get_call g (vectors b (pos t) (pos s) n) target pe (located id d) ∷ []) m
        ≡ scatter m target target_bytes_at
            (gather m (mpi.base (window_of id) pe + d) source_bytes_at)
  unfolding strided_get_call run
  strided_get_call-run id d = elim (Bool-cases g.rma_ordering) [
    | inl ordered ↦
        rw (ordered, mpi.effect-get_accumulate, source_bytes mpi b n t s, target_bytes mpi b n t s)
    | inr free ↦ rw (free, mpi.effect-get, source_bytes mpi b n t s, target_bytes mpi b n t s)
  ]

  put_strided_at :
      (id : WindowId) (d : ℕ)
      → window_offset g target pe ≡ located id d
      → memory_after mpi (oshmpi_put_strided g b target source (pos t) (pos s) n pe) m
        ≡ some (
            scatter m
              (mpi.base (window_of id) pe + d)
              target_bytes_at
              (gather m source source_bytes_at))
  unfolding oshmpi_put_strided
  put_strided_at id d at =
      let v = vectors b (pos t) (pos s) n in
      rw (at, lt→ltb n int_max counts, strides_fit)
        (ap some (
          with_vectors-run mpi b n g t s pe (located id d)
            (strided_put_call g v source pe (located id d)) m _ (strided_put_call-run id d)))

  get_strided_at :
      (id : WindowId) (d : ℕ)
      → window_offset g source pe ≡ located id d
      → memory_after mpi (oshmpi_get_strided g b target source (pos t) (pos s) n pe) m
        ≡ some (
            scatter m target target_bytes_at
              (gather m (mpi.base (window_of id) pe + d) source_bytes_at))
  unfolding oshmpi_get_strided
  get_strided_at id d at =
      let v = vectors b (pos t) (pos s) n in
      rw (at, lt→ltb n int_max counts, strides_fit)
        (ap some (
          with_vectors-run mpi b n g t s pe (located id d)
            (strided_get_call g v target pe (located id d)) m _ (strided_get_call-run id d)))

  pub put_strided-writes :
      InSheap g target ⊎ InEtext g target
      → memory_after mpi (oshmpi_put_strided g b target source (pos t) (pos s) n pe) m
        ≡ some (
            scatter m
              (remote_address mpi g target pe)
              target_bytes_at
              (gather m source source_bytes_at))
  put_strided-writes found = elim (Sheap-cases g target) [
    | inl heap ↦
        rw (remote_address-sheap mpi g target pe heap)
          (put_strided_at sheap_window _ (window_offset-sheap g target pe heap))
    | inr outside ↦
        rw (remote_address-etext mpi g target pe outside)
          (put_strided_at etext_window _ (window_offset-etext g target pe outside (ground arith)))
  ]

  pub get_strided-reads :
      InSheap g source ⊎ InEtext g source
      → memory_after mpi (oshmpi_get_strided g b target source (pos t) (pos s) n pe) m
        ≡ some (
            scatter m target target_bytes_at
              (gather m (remote_address mpi g source pe) source_bytes_at))
  get_strided-reads found = elim (Sheap-cases g source) [
    | inl heap ↦
        rw (remote_address-sheap mpi g source pe heap)
          (get_strided_at sheap_window _ (window_offset-sheap g source pe heap))
    | inr outside ↦
        rw (remote_address-etext mpi g source pe outside)
          (get_strided_at etext_window _ (window_offset-etext g source pe outside (ground arith)))
  ]

  module _ (apart : 1 ≤ t) where
    items_apart : mpi.type_size b ≤ t * mpi.type_size b
    items_apart = grind arith

    -- A strided put of fewer than INT32_MAX items to an object that is found, with a target
    -- stride of at least 1 and a source stride of at least 0, both below INT32_MAX, returns, and then
    -- the i-th place of the target at the PE, counted in target strides, holds the i-th item of the
    -- source, counted in source strides, and any byte that is in no place of the target is as it was.
    pub put_strided-items :
        InSheap g target ⊎ InEtext g target
        → (i a : ℕ) → i < n
        → IsBetween (remote_address mpi g target pe) n (t * mpi.type_size b) (mpi.type_size b) a
        → (m' : Memory) × (memory_after mpi
              (oshmpi_put_strided g b target source (pos t) (pos s) n pe)
              m
            ≡ some m')
          × (item mpi b m' (remote_address mpi g target pe) t i ≡ item mpi b m source s i)
          × (m' a ≡ m a)
    put_strided-items found i a lt out = (
      _,
      put_strided-writes found,
      item-strided n (mpi.type_size b) (t * mpi.type_size b) (s * mpi.type_size b) m m
          (remote_address mpi g target pe) source i items_apart lt,
      scatter-Misses m (remote_address mpi g target pe) _ _ a
          (Misses-tile n (t * mpi.type_size b) (mpi.type_size b) _ a out),
    )

    -- A strided get of fewer than INT32_MAX items from an object that is found, with a target
    -- stride of at least 1 and a source stride of at least 0, both below INT32_MAX, returns, and then
    -- the i-th place of the target, counted in target strides, holds the i-th item of the source at
    -- the PE, counted in source strides, and any byte that is in no place of the target is as it was.
    pub get_strided-items :
        InSheap g source ⊎ InEtext g source
        → (i a : ℕ) → i < n
        → IsBetween target n (t * mpi.type_size b) (mpi.type_size b) a
        → (m' : Memory) × (memory_after mpi
              (oshmpi_get_strided g b target source (pos t) (pos s) n pe)
              m
            ≡ some m')
          × (item mpi b m' target t i ≡ item mpi b m (remote_address mpi g source pe) s i)
          × (m' a ≡ m a)
    get_strided-items found i a lt out = (
      _,
      get_strided-reads found,
      item-strided n (mpi.type_size b) (t * mpi.type_size b) (s * mpi.type_size b) m m target
          (remote_address mpi g source pe) i items_apart lt,
      scatter-Misses m target _ _ a (Misses-tile n (t * mpi.type_size b) (mpi.type_size b) _ a out),
    )

every_one : (n k : ℕ) → every n 1 k ≡ span 0 (n * k)
every_one n k = let e : 1 * k ≡ k = omega arith in rw e (tile-span n k)

-- With strides of 1, fewer than INT32_MAX items and objects that are found, the strided transfers
-- have the effect of the contiguous ones, whichever path those take.
pub unit_strides :
    (mpi : Mpi) (g : Globals) (b : Basic) (n target source pe : ℕ) (m : Memory)
    → Fits mpi g pe b n
    → n < int_max
    → InSheap g target ⊎ InEtext g target
    → InSheap g source ⊎ InEtext g source
    → (memory_after mpi (oshmpi_put_strided g b target source (pos 1) (pos 1) n pe) m
        ≡ memory_after mpi (oshmpi_put mpi g b target source n pe) m)
      × (memory_after mpi (oshmpi_get_strided g b target source (pos 1) (pos 1) n pe) m
          ≡ memory_after mpi (oshmpi_get mpi g b target source n pe) m)
unit_strides mpi g b n target source pe m fits counts to from = (
  rw (
    put_strided-writes mpi g b n 1 1 counts (omega arith) (omega arith) target source pe m to,
    put-writes fits target source m to,
    every_one,
  ),
  rw (
    get_strided-reads mpi g b n 1 1 counts (omega arith) (omega arith) target source pe m from,
    get-reads fits target source m from,
    every_one,
  ),
)
