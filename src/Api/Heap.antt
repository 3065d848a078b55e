-- ===== src/Api/Heap.antt =====
-- shmalloc, shmemalign, shrealloc and shfree of src/shmem.c, and shmemx_ct_create and shmemx_ct_free of
-- src/shmemx-counting-put.c: the calls of the allocator, a copy of dlmalloc that is a parameter.
use oshmpi.Prelude.{
  ℕ, ◌+◌, ◌≤◌, ◌*◌, ◌≡◌, ◌≢◌, ◌⊎◌, refl, inl, ap, true, false, Option, none, some, List, [], ◌∷◌,
  arith,
}
use oshmpi.Prelude.Int.{pos}
use oshmpi.Mpi.{Basic, aborted}
use oshmpi.Mpi.Memory.{Memory, span, gather, gather_cong, scatter_outside}
use oshmpi.Mpi.Library.{Mpi}
use oshmpi.Globals.{Globals}
use oshmpi.Rma.{oshmpi_put}
use oshmpi.Rma.Places.{Fits, memory_after, remote_address, remote_address-sheap}
use oshmpi.Rma.Transfer.{put-writes}
use oshmpi.Window.Lookup.{InSheap, InEtext, window_offset-sheap, window_offset-invalid}
use oshmpi.Startup.Heap.{sheap_size}
use oshmpi.Api.Query.{addr_accessible}

-- An mspace: the four functions that are called, over the space's own state. NULL is `none`.
pub record Mspace : Type 1 where
  pub Space : Type 0
  pub mspace_malloc : Space → (size : ℕ) → Space × Option ℕ
  pub mspace_memalign : Space → (alignment size : ℕ) → Space × Option ℕ
  pub mspace_realloc : Space → (ptr size : ℕ) → Space × Option ℕ
  pub mspace_free : Space → (ptr : ℕ) → Space

module _ (ms : Mspace) where
  open ms use {Space, mspace_malloc, mspace_memalign, mspace_realloc, mspace_free}

  -- One call of a program on its heap.
  pub data HeapCall : Type 0 where
    shmalloc : (size : ℕ) → HeapCall
    shmemalign : (alignment size : ℕ) → HeapCall
    shrealloc : (ptr size : ℕ) → HeapCall
    shfree : (ptr : ℕ) → HeapCall
    -- sizeof(long) is 8
    shmemx_ct_create : HeapCall
    shmemx_ct_free : (ct : ℕ) → HeapCall

  unfoldable pub heap_call : HeapCall → Space → Space × Option ℕ
  heap_call (shmalloc size) s = mspace_malloc s size
  heap_call (shmemalign alignment size) s = mspace_memalign s alignment size
  heap_call (shrealloc ptr size) s = mspace_realloc s ptr size
  heap_call (shfree ptr) s = (mspace_free s ptr, none)
  heap_call shmemx_ct_create s = mspace_malloc s 8
  heap_call (shmemx_ct_free ct) s = (mspace_free s ct, none)

  -- The size of the block that a call asks for, and the block that it gives back.
  abbrev pub size_of : HeapCall → ℕ
  size_of (shmalloc size) = size
  size_of (shmemalign alignment size) = size
  size_of (shrealloc ptr size) = size
  size_of (shfree ptr) = 0
  size_of shmemx_ct_create = 8
  size_of (shmemx_ct_free ct) = 0

  abbrev pub gives_back : HeapCall → Option ℕ
  gives_back (shrealloc ptr size) = some ptr
  gives_back (shfree ptr) = some ptr
  gives_back (shmemx_ct_free ct) = some ct
  gives_back c = none

  unfoldable pub heap_calls : List HeapCall → Space → Space
  heap_calls [] s = s
  heap_calls (c ∷ rest) s = heap_calls rest (heap_call c s).0

  -- No call gives the block back.
  abbrev pub AllKeep : (b : ℕ) → List HeapCall → Type 0
  AllKeep b [] = Unit {0}
  AllKeep b (c ∷ rest) = (gives_back c ≢ some b) × AllKeep b rest

  -- A block of `n` bytes is in this PE's part of the heap's window, of `window_size` bytes.
  abbrev pub InWindow : Globals → (window_size a n : ℕ) → Type 0
  InWindow g window_size a n =
      (g.shmem_sheap_base_ptr ≤ a) × (a + n ≤ g.shmem_sheap_base_ptr + window_size)

  -- What an allocator promises: the blocks that it has handed out and not got back do not overlap, and
  -- a call keeps the others. They may lie anywhere: when the initial space is exhausted, dlmalloc
  -- obtains more from the system.
  pub record Allocates : Type 1 where
    pub IsLive : Space → (address size : ℕ) → Type 0
    pub apart :
        (s : Space) (a n b k : ℕ) → IsLive s a n → IsLive s b k → a ≢ b → (a + n ≤ b) ⊎ (b + k ≤ a)
    pub malloc_new : (s s' : Space) (n a : ℕ) → mspace_malloc s n ≡ (s', some a) → IsLive s' a n
    pub memalign_new :
        (s s' : Space) (al n a : ℕ) → mspace_memalign s al n ≡ (s', some a) → IsLive s' a n
    pub realloc_new :
        (s s' : Space) (p n a : ℕ) → mspace_realloc s p n ≡ (s', some a) → IsLive s' a n
    pub malloc_keeps :
        (s s' : Space) (n : ℕ) (r : Option ℕ) (b k : ℕ)
        → mspace_malloc s n ≡ (s', r)
        → IsLive s b k
        → IsLive s' b k × (r ≢ some b)
    pub memalign_keeps :
        (s s' : Space) (al n : ℕ) (r : Option ℕ) (b k : ℕ)
        → mspace_memalign s al n ≡ (s', r)
        → IsLive s b k
        → IsLive s' b k × (r ≢ some b)
    pub realloc_keeps :
        (s s' : Space) (p n : ℕ) (r : Option ℕ) (b k : ℕ)
        → mspace_realloc s p n ≡ (s', r)
        → IsLive s b k
        → p ≢ b
        → IsLive s' b k × (r ≢ some b)
    pub free_keeps : (s : Space) (p b k : ℕ) → IsLive s b k → p ≢ b → IsLive (mspace_free s p) b k

  module _ (alloc : Allocates) where
    open alloc use {
      IsLive, malloc_new, memalign_new, realloc_new, malloc_keeps, memalign_keeps, realloc_keeps,
      free_keeps,
    }

    heap_call-new :
        (c : HeapCall) (s s' : Space) (a : ℕ)
        → heap_call c s ≡ (s', some a)
        → IsLive s' a (size_of c)
    unfolding heap_call
    heap_call-new (shmalloc n) s s' a e = malloc_new s s' n a e
    heap_call-new (shmemalign al n) s s' a e = memalign_new s s' al n a e
    heap_call-new (shrealloc p n) s s' a e = realloc_new s s' p n a e
    heap_call-new (shfree p) s s' a e = absurd (cc)
    heap_call-new shmemx_ct_create s s' a e = malloc_new s s' 8 a e
    heap_call-new (shmemx_ct_free p) s s' a e = absurd (cc)

    -- A call that hands out a block keeps those that it is not given back.
    heap_call-keeps :
        (c : HeapCall) (s s' : Space) (a b k : ℕ)
        → heap_call c s ≡ (s', some a)
        → IsLive s b k
        → gives_back c ≢ some b
        → IsLive s' b k × (◌≢◌ {A = Option ℕ} (some a) (some b))
    unfolding heap_call
    heap_call-keeps (shmalloc n) s s' a b k e live keeps = malloc_keeps s s' n (some a) b k e live
    heap_call-keeps (shmemalign al n) s s' a b k e live keeps =
        memalign_keeps s s' al n (some a) b k e live
    heap_call-keeps (shrealloc p n) s s' a b k e live keeps =
        realloc_keeps s s' p n (some a) b k e live (λ same. keeps (ap some same))
    heap_call-keeps (shfree p) s s' a b k e live keeps = absurd (cc)
    heap_call-keeps shmemx_ct_create s s' a b k e live keeps =
        malloc_keeps s s' 8 (some a) b k e live
    heap_call-keeps (shmemx_ct_free p) s s' a b k e live keeps = absurd (cc)

    -- A block stays in use until it is given back.
    heap_call_keeps :
        (c : HeapCall) (s : Space) (b k : ℕ)
        → IsLive s b k
        → gives_back c ≢ some b
        → IsLive (heap_call c s).0 b k
    unfolding heap_call
    heap_call_keeps (shmalloc n) s b k live keeps = (malloc_keeps s _ n _ b k refl live).0
    heap_call_keeps (shmemalign al n) s b k live keeps = (memalign_keeps s _ al n _ b k refl live).0
    heap_call_keeps (shrealloc p n) s b k live keeps =
        (realloc_keeps s _ p n _ b k refl live (λ same. keeps (ap some same))).0
    heap_call_keeps (shfree p) s b k live keeps =
        free_keeps s p b k live (λ same. keeps (ap some same))
    heap_call_keeps shmemx_ct_create s b k live keeps = (malloc_keeps s _ 8 _ b k refl live).0
    heap_call_keeps (shmemx_ct_free p) s b k live keeps =
        free_keeps s p b k live (λ same. keeps (ap some same))

    heap_calls_keep :
        (calls : List HeapCall) (s : Space) (b k : ℕ)
        → IsLive s b k
        → AllKeep b calls
        → IsLive (heap_calls calls s) b k
    unfolding heap_calls
    heap_calls_keep [] s b k live keeps = live
    heap_calls_keep (c ∷ rest) s b k live keeps =
        heap_calls_keep rest (heap_call c s).0 b k (heap_call_keeps c s b k live keeps.0) keeps.1

  -- A heap call hands out a block, behind any other heap calls. If the block lies in this PE's part of
  -- the heap's window, it is accessible at each PE, and a put into it that is no longer than the block
  -- returns and leaves as it was, at the PE, every block in the window that was in use and that none
  -- of the calls has given back. If the block is found neither in the heap nor in the static data, as
  -- one that the allocator gets from the system may be, it is accessible at no PE, and a put into it
  -- aborts. This rests on what an allocator promises of its blocks: that they do not overlap.
  pub new_block-put :
      {mpi : Mpi} {g : Globals} {pe : ℕ} {b : Basic} {len : ℕ}
      → Fits mpi g pe b len
      → pe ≤ g.shmem_world_size
      → (window_size : ℕ) → g.shmem_sheap_size ≡ sheap_size window_size
      → (alloc : Allocates) (calls : List HeapCall) (s : Space) (c : HeapCall) (s' : Space) (a : ℕ)
      → heap_call c (heap_calls calls s) ≡ (s', some a)
      → len * mpi.type_size b ≤ size_of c
      → (other k : ℕ) → alloc.IsLive s other k
      → AllKeep other calls
      → gives_back c ≢ some other
      → InWindow g window_size other k
      → (source : ℕ) (m : Memory)
      → (InWindow g window_size a (size_of c)
          → (addr_accessible g a (pos pe) ≡ true)
            × ((m' : Memory) × (memory_after mpi (oshmpi_put mpi g b a source len pe) m ≡ some m')
                × (gather m' (remote_address mpi g other pe) (span 0 k)
                    ≡ gather m (remote_address mpi g other pe) (span 0 k))))
        × ((¬ InSheap g a)
            → (¬ InEtext g a)
            → (addr_accessible g a (pos pe) ≡ false)
              × (oshmpi_put mpi g b a source len pe ≡ aborted (pos pe) []))
  unfolding addr_accessible oshmpi_put sheap_size
  new_block-put {mpi} {g} {pe} {b} {len} fits le window_size sized alloc calls s c s' a handed small
        other k live kept keeps there source m =
      let before = heap_calls_keep alloc calls s other k live kept in
      let new = heap_call-new alloc c (heap_calls calls s) s' a handed in
      let (still, differ) =
        heap_call-keeps alloc c (heap_calls calls s) s' a other k handed before keeps in
      let disjoint = alloc.apart s' a (size_of c) other k new still (λ e. differ (ap some e)) in
      (
        λ here.
            let heap : InSheap g a = (here.0, omega (arith, here.1, sized)) in
            let heap' : InSheap g other = (there.0, omega (arith, there.1, sized)) in
            let at = window_offset-sheap g a pe heap in
            let place = remote_address-sheap mpi g a pe heap in
            let place' = remote_address-sheap mpi g other pe heap' in
            let clear : (remote_address mpi g other pe + k ≤ remote_address mpi g a pe)
                ⊎ (remote_address mpi g a pe + len * mpi.type_size b
                    ≤ remote_address mpi g other pe) =
              omega (arith, place, place', disjoint, small, here.0, there.0) in
            (
              rw at (ground arith),
              (
                _,
                put-writes fits a source m (inl heap),
                gather_cong _ m (remote_address mpi g other pe) 0 k (λ x p q.
                    scatter_outside m (remote_address mpi g a pe) 0 (len * mpi.type_size b) _ x
                      (omega (arith, clear, p, q))),
              ),
            ),
        λ not_heap not_static.
            let at = window_offset-invalid g a pe not_heap not_static in
            (rw at (ground arith), rw at refl),
      )
