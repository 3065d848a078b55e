-- ===== src/Tests/Heap.antt =====
-- An initialized process, its transfers, and a heap of 64 slots of 64 bytes.
use oshmpi.Prelude.{
  ℕ, ◌+◌, ◌*◌, ◌≤◌, ◌<◌, ◌≡◌, ◌≢◌, ◌⊎◌, inl, inr, refl, true, false, Option, none, some, arith, ltb,
  leb, ◌&&◌, if◌then◌else◌, [], ◌∷◌, ◌++◌,
}
use oshmpi.Prelude.Int.{pos}
use oshmpi.Mpi.{mpi_int, sheap_win, aborted}
use oshmpi.Mpi.Memory.{Memory, span, gather}
use oshmpi.Mpi.Library.{eager}
use oshmpi.Mpi.Network.{Net, Steps}
use oshmpi.Mpi.Network.Runs.{completes}
use oshmpi.Mpi.Network.Message.{at_rest}
use oshmpi.Globals.{Globals}
use oshmpi.Window.{sheap_window, window_offset}
use oshmpi.Rma.{oshmpi_put, oshmpi_get}
use oshmpi.Rma.Pending.{performed}
use oshmpi.Sync.{shmem_quiet}
use oshmpi.Window.Lookup.{InSheap, InEtext}
use oshmpi.Rma.Places.{memory_after, remote_address}
use oshmpi.Api.Query.{addr_accessible}
use oshmpi.Api.Heap.{
  Mspace, heap_call, heap_calls, shmalloc, shfree, Allocates, InWindow, new_block-put,
}
use oshmpi.Startup.Heap.{sheap_size}
use oshmpi.Startup.RoundTrip.{initialized_put_quiet_get}
use oshmpi.Startup.Setup.{Facts, set_globals, new_globals, Documented, found_behind_window}
use oshmpi.Tests.Setting.{node, memory}
use oshmpi.Tests.Process.{build, answers}

abbrev facts : Facts
facts = record {
  rma_ordering = false;
  world_size = 4;
  world_rank = 1;
  node_size = 4;
  shared_query = λ rank. eager.base sheap_win rank;
  stale = λ _. 0;
  window_size = 0x1000;
  data_start = 0x800000;
  data_end = 0x801000;
}

facts-Documented : Documented eager answers facts
facts-Documented = record { queried = λ rank lt. refl; congruent = λ _. refl }

abbrev set_up : Globals
set_up = new_globals eager build answers facts node

sets_up : set_globals eager build answers facts node ≡ some set_up
unfolding set_globals
sets_up = refl

abbrev quiet_run :
    (n : Net) × Steps eager
      (performed (oshmpi_put eager set_up mpi_int 0x110010 0x200000 2 3) ++ shmem_quiet set_up)
      (at_rest eager memory)
      []
      n
    × (n.pending ≡ [])
quiet_run =
    completes eager
      (performed (oshmpi_put eager set_up mpi_int 0x110010 0x200000 2 3) ++ shmem_quiet set_up) _

initialized_put_quiet_get_example :
    ((n' : Net) × Steps eager
        (performed (oshmpi_put eager set_up mpi_int 0x110010 0x200000 2 3) ++ shmem_quiet set_up)
        (at_rest eager memory)
        []
        n')
    × (quiet_run.0.pending ≡ [])
    × ((a : ℕ)
        → (a < remote_address eager set_up 0x110010 3)
          ⊎ (remote_address eager set_up 0x110010 3 + 2 * 4 ≤ a)
        → quiet_run.0.memory a ≡ memory a)
    × ((after : Memory) × (memory_after eager
            (oshmpi_get eager set_up mpi_int 0x300000 0x110010 2 3)
            quiet_run.0.memory
          ≡ some after)
        × (gather after 0x300000 (span 0 (2 * 4)) ≡ gather memory 0x200000 (span 0 (2 * 4))))
initialized_put_quiet_get_example =
    initialized_put_quiet_get eager build answers facts node set_up sets_up facts-Documented mpi_int
      2 0x110010 0x200000 0x300000 3 memory quiet_run.0 (omega arith) (omega arith) (omega arith)
      (inl (omega arith, omega arith)) quiet_run.1

-- The last address taken for one of the heap.
found_behind_window_example :
    window_offset set_up (0x110000 + 0x1000 + 1024) 2
    ≡ record { rc = 0; win_id = sheap_window; win_offset = pos (0x1000 + 1024) }
found_behind_window_example =
    found_behind_window eager build answers facts node set_up sets_up 2 1024 (omega arith)

-- Slots that are handed out in order and never used again.
abbrev slot : ℕ → ℕ → ℕ × Option ℕ
slot s n = if leb n 64 && ltb s 64 then (s + 1, some (0x100000 + s * 64)) else (s, none)

abbrev slots : Mspace
slots = record {
  Space = ℕ;
  mspace_malloc = slot;
  mspace_memalign = λ s alignment n. slot s n;
  mspace_realloc = λ s ptr n. slot s n;
  mspace_free = λ s ptr. s;
}

abbrev IsSlot : (s a n : ℕ) → Type 0
IsSlot s a n = (i : ℕ) × (i < s) × (s ≤ 64) × (a ≡ 0x100000 + i * 64) × (n ≤ 64)

slot_cases :
    (s s' n : ℕ) (r : Option ℕ)
    → slot s n ≡ (s', r)
    → ((n ≤ 64) × (s < 64) × (s' ≡ s + 1) × (r ≡ some (0x100000 + s * 64)))
      ⊎ ((s' ≡ s) × (r ≡ none))
slot_cases s s' n r e = ground arith

slot-IsSlot : (s s' a n : ℕ) → slot s n ≡ (s', some a) → IsSlot s' a n
slot-IsSlot s s' a n e = elim (slot_cases s s' n (some a) e) [
  | inl (small, room, next, at) ↦ (s, omega arith, omega arith, ground arith, small)
  | inr (same, nothing) ↦ absurd (cc)
]

slot-kept :
    (s s' n b k : ℕ) (r : Option ℕ)
    → slot s n ≡ (s', r)
    → IsSlot s b k
    → IsSlot s' b k × (r ≢ some b)
slot-kept s s' n b k r e (i, lt, le, at, small) = elim (slot_cases s s' n r e) [
  | inl (_, room, next, new) ↦ ((i, omega arith, omega arith, at, small), λ e'. ground arith)
  | inr (same, nothing) ↦ ((i, omega arith, omega arith, at, small), λ e'. cc)
]

slot-apart : (s a n b k : ℕ) → IsSlot s a n → IsSlot s b k → a ≢ b → (a + n ≤ b) ⊎ (b + k ≤ a)
slot-apart s a n b k (i, lt, le, at, small) (j, lt', le', at', small') differ = ground arith

abbrev slots-Allocates : Allocates slots
slots-Allocates = record {
  IsLive = IsSlot;
  apart = slot-apart;
  malloc_new = λ s s' n a e. slot-IsSlot s s' a n e;
  memalign_new = λ s s' al n a e. slot-IsSlot s s' a n e;
  realloc_new = λ s s' p n a e. slot-IsSlot s s' a n e;
  malloc_keeps = λ s s' n r b k e live. slot-kept s s' n b k r e live;
  memalign_keeps = λ s s' al n r b k e live. slot-kept s s' n b k r e live;
  realloc_keeps = λ s s' p n r b k e live differ. slot-kept s s' n b k r e live;
  free_keeps = λ s p b k live differ. live;
}

-- A heap of which the last 1024 bytes are found and not in the window.
abbrev wide : Globals
wide = record node { shmem_sheap_size = 0x1000 + 1024 }

-- Slot 1 is handed out and given back, and then slot 2 is handed out; slot 0 is another block.
new_block-put_example :
    (InWindow slots wide 0x1000 0x100080 12
      → (addr_accessible wide 0x100080 (pos 2) ≡ true)
        × ((m' : Memory) × (memory_after eager
                (oshmpi_put eager wide mpi_int 0x100080 0x200000 3 2)
                memory
              ≡ some m')
            × (gather m' (remote_address eager wide 0x100000 2) (span 0 64)
                ≡ gather memory (remote_address eager wide 0x100000 2) (span 0 64))))
    × ((¬ InSheap wide 0x100080)
        → (¬ InEtext wide 0x100080)
        → (addr_accessible wide 0x100080 (pos 2) ≡ false)
          × (oshmpi_put eager wide mpi_int 0x100080 0x200000 3 2 ≡ aborted (pos 2) []))
unfolding heap_call heap_calls sheap_size
new_block-put_example =
    new_block-put slots {mpi = eager} {g = wide} {pe = 2} {b = mpi_int} {len = 3}
      (record { shared = record { ptrs = λ smp. refl }; chunks = omega arith; bytes = omega arith })
      (omega arith) 0x1000 refl slots-Allocates (shmalloc 8 ∷ shfree 0x100040 ∷ []) 1 (shmalloc 12)
      3 0x100080 refl (omega arith) 0x100000 64 (0, omega arith, omega arith, refl, omega arith)
      (λ e. cc, (λ e. ground arith, tt)) (λ e. cc) (omega arith, omega arith) 0x200000 memory
