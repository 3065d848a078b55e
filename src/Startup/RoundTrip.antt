-- ===== src/Startup/RoundTrip.antt =====
-- A process that oshmpi_initialize of src/shmem-internals.c has set up, and its puts, shmem_quiet and its
-- gets.
use mathlib.Core.Path.{subst}
use oshmpi.Prelude.{ℕ, ◌+◌, ◌*◌, ◌/◌, ◌^◌, ◌≤◌, ◌<◌, ◌≡◌, ◌⊎◌, inl, inr, some, [], ◌++◌, arith}
use oshmpi.Mpi.{Basic}
use oshmpi.Mpi.Memory.{Memory, span, gather}
use oshmpi.Mpi.Library.{Mpi}
use oshmpi.Mpi.Network.{Net, Steps}
use oshmpi.Mpi.Network.Message.{at_rest}
use oshmpi.Contiguous.{int_max}
use oshmpi.Globals.{Globals}
use oshmpi.Window.Lookup.{InSheap, InEtext}
use oshmpi.Rma.{oshmpi_put, oshmpi_get}
use oshmpi.Rma.Places.{memory_after, remote_address}
use oshmpi.Rma.Pending.{performed}
use oshmpi.Sync.{shmem_quiet}
use oshmpi.Sync.RoundTrip.{put_quiet_get}
use oshmpi.Startup.{Build, Found}
use oshmpi.Startup.Heap.{sheap_size}
use oshmpi.Startup.Setup.{
  Facts, long_etext_size, set_globals, new_globals, set_new, Documented, set_globals-Shared,
}

-- An object of `n` bytes that is whole in the part of the heap's window that a process has, or in its
-- static data.
abbrev pub InWindows : Globals → Facts → (target n : ℕ) → Type 0
InWindows g f target n =
    ((g.shmem_sheap_base_ptr ≤ target) × (target + n ≤ g.shmem_sheap_base_ptr + f.window_size))
    ⊎ ((f.data_start ≤ target) × (target + n ≤ f.data_start + long_etext_size f))

module _ (mpi : Mpi) (b : Build) (found : Found) (f : Facts) (old : Globals) where
  new-Found :
      (target n : ℕ)
      → InWindows (new_globals mpi b found f old) f target n
      → InSheap (new_globals mpi b found f old) target
        ⊎ InEtext (new_globals mpi b found f old) target
  unfolding sheap_size
  new-Found target n (inl heap) = inl (heap.0, omega (arith, heap.1))
  new-Found target n (inr static) = inr (static.0, omega (arith, static.1))

  -- Once a process is initialized, it puts `source` to an object that is whole in its part of the
  -- heap's window or in its static data, for a PE of the world, calls shmem_quiet and gets the
  -- object, while no other PE writes. Whenever MPI delivers what the put writes, shmem_quiet can return, and once it has,
  -- nothing is on its way, the put has changed no byte outside the object at the PE, and the get
  -- returns and brings back the bytes that were put. This rests on what MPI documents of the shared
  -- segments and of congruent communicators.
  pub initialized_put_quiet_get :
      (g : Globals)
      → set_globals mpi b found f old ≡ some g
      → Documented mpi found f
      → (t : Basic) (len target source back pe : ℕ) (m : Memory) (n : Net) → pe < g.shmem_world_size
      → len / int_max < 2 ^ 31
      → len * mpi.type_size t < 2 ^ 63
      → InWindows g f target (len * mpi.type_size t)
      → Steps mpi
          (performed (oshmpi_put mpi g t target source len pe) ++ shmem_quiet g)
          (at_rest mpi m)
          []
          n
      → ((n' : Net) × Steps mpi
            (performed (oshmpi_put mpi g t target source len pe) ++ shmem_quiet g)
            (at_rest mpi m)
            []
            n')
        × (n.pending ≡ [])
        × ((a : ℕ)
            → (a < remote_address mpi g target pe)
              ⊎ (remote_address mpi g target pe + len * mpi.type_size t ≤ a)
            → n.memory a ≡ m a)
        × ((after : Memory) × (memory_after mpi (oshmpi_get mpi g t back target len pe) n.memory
              ≡ some after)
            × (gather after back (span 0 (len * mpi.type_size t))
                ≡ gather m source (span 0 (len * mpi.type_size t))))
  initialized_put_quiet_get g set doc t len target source back pe m n lt chunks bytes whole =
      put_quiet_get
        (record {
          shared = set_globals-Shared mpi b found f old g set doc pe lt;
          chunks = chunks;
          bytes = bytes;
        })
        target source
        (subst
          (λ g. InWindows g f target (len * mpi.type_size t) → InSheap g target ⊎ InEtext g target)
          (set_new mpi b found f old g set) (new-Found target (len * mpi.type_size t)) whole)
        back m n
