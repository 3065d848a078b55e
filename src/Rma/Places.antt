-- ===== src/Rma/Places.antt =====
-- Where an object stands at another PE, and what the transfers of src/shmem-internals.c rest on.
use oshmpi.Prelude.{
  ℕ, ◌+◌, ◌-◌, ◌*◌, ◌/◌, ◌^◌, ◌<◌, ◌≡◌, ◌&&◌, refl, Option, none, some, arith, true, if◌then◌else◌,
  leb,
}
use oshmpi.Prelude.Int.{pos}
use oshmpi.Mpi.{Basic, sheap_win, etext_win, Outcome, finished, aborted, assert_failed}
use oshmpi.Mpi.Memory.{Memory}
use oshmpi.Mpi.Library.{Mpi, run}
use oshmpi.Contiguous.{int_max}
use oshmpi.Globals.{Globals}
use oshmpi.Window.{WindowId, sheap_window, etext_window, invalid_window, Located}
use oshmpi.Window.Lookup.{InSheap}
use oshmpi.Rma.{bypasses}

-- Memory behind a run that returns.
abbrev pub memory_after : Mpi → Outcome → Memory → Option Memory
memory_after mpi (finished actions) m = some (run mpi actions m)
memory_after mpi (aborted _ _) m = none
memory_after mpi (assert_failed _) m = none

-- On an SMP world the segment of a PE is where the PE's part of the heap's window is, as
-- MPI_Win_shared_query tells it.
pub record Shared (mpi : Mpi) (g : Globals) (pe : ℕ) : Type 0 where
  pub ptrs : g.shmem_world_is_smp ≡ true → g.shmem_smp_sheap_ptrs pe ≡ mpi.base sheap_win pe

-- What a transfer of `len` items rests on: the PE's segment, and few enough bytes to be counted
-- by the types in use.
pub record Fits (mpi : Mpi) (g : Globals) (pe : ℕ) (b : Basic) (len : ℕ) : Type 0 where
  pub shared : Shared mpi g pe
  pub chunks : len / int_max < 2 ^ 31
  pub bytes : len * mpi.type_size b < 2 ^ 63

-- Where the object at an address of this PE stands at another PE: specified by the two segments.
unfoldable pub remote_address : Mpi → Globals → (address pe : ℕ) → ℕ
remote_address mpi g address pe =
    if leb g.shmem_sheap_base_ptr address
      && leb address (g.shmem_sheap_base_ptr + g.shmem_sheap_size)
    then mpi.base sheap_win pe + (address - g.shmem_sheap_base_ptr)
    else mpi.base etext_win pe + (address - g.shmem_etext_base_ptr)

module _ (mpi : Mpi) (g : Globals) (a pe : ℕ) where
  pub remote_address-sheap :
      InSheap g a → remote_address mpi g a pe ≡ mpi.base sheap_win pe + (a - g.shmem_sheap_base_ptr)
  unfolding remote_address
  remote_address-sheap h = ground arith

  pub remote_address-etext :
      ¬ InSheap g a
      → remote_address mpi g a pe ≡ mpi.base etext_win pe + (a - g.shmem_etext_base_ptr)
  unfolding remote_address
  remote_address-etext n = ground arith

abbrev pub located : WindowId → ℕ → Located
located id d = record { rc = 0; win_id = id; win_offset = pos d }

pub bypasses-sheap :
    (g : Globals) (id : WindowId) (d : ℕ) → bypasses g (located id d) ≡ true → id ≡ sheap_window
bypasses-sheap g sheap_window d h = refl
bypasses-sheap g etext_window d h = ground arith
bypasses-sheap g invalid_window d h = ground arith

pub bypasses-smp : (g : Globals) (l : Located) → bypasses g l ≡ true → g.shmem_world_is_smp ≡ true
bypasses-smp g l h = ground arith
