-- ===== src/Tests/Delivery.antt =====
-- PE 0 of the tests' job puts objects to PE 1 across nodes, with a fence or a quiet.
use oshmpi.Prelude.{
  ℕ, ◌+◌, ◌*◌, ◌≤◌, ◌<◌, ◌≡◌, ◌⊎◌, inl, inr, refl, false, some, [], ◌∷◌, ◌++◌, arith,
}
use oshmpi.Mpi.{mpi_int, mpi_double}
use oshmpi.Mpi.Memory.{Memory, span, gather, Apart}
use oshmpi.Mpi.Library.{eager, run}
use oshmpi.Mpi.Network.{Net, Steps}
use oshmpi.Mpi.Network.Runs.{completes}
use oshmpi.Mpi.Network.Message.{at_rest}
use oshmpi.Globals.{Globals}
use oshmpi.Rma.{oshmpi_put, oshmpi_get}
use oshmpi.Rma.Places.{memory_after, remote_address}
use oshmpi.Rma.Pending.{performed}
use oshmpi.Sync.{shmem_fence, shmem_quiet}
use oshmpi.Sync.RoundTrip.{put_quiet_get}
use oshmpi.Sync.Puts.{PutCall, size_of, place_of, put_all, IsReady}
use oshmpi.Sync.Fence.{IsOutside, fence_separates}
use oshmpi.Sync.Overtaken.{fence_overtaken}
use oshmpi.Tests.Setting.{cluster, cluster-Shared, memory}

-- The same in a build that does not order transfers.
abbrev unordered : Globals
unordered = record cluster { rma_ordering = false }

abbrev ints : PutCall
ints = record { type = mpi_int; target = 0x100010; source = 0x200000; len = 3; pe = 1 }

abbrev doubles : PutCall
doubles = record { type = mpi_double; target = 0x800040; source = 0x200100; len = 2; pe = 1 }

ints-IsReady : IsReady eager cluster ints
ints-IsReady = (
  record { shared = cluster-Shared; chunks = omega arith; bytes = omega arith },
  inl (omega arith, omega arith),
)

doubles-IsReady : IsReady eager cluster doubles
doubles-IsReady = (
  record { shared = cluster-Shared; chunks = omega arith; bytes = omega arith },
  inr (omega arith, omega arith),
)

ints_doubles : Apart (place_of eager cluster ints) 12 (place_of eager cluster doubles) 16
unfolding remote_address
ints_doubles = inl (omega arith)

unordered-IsReady : IsReady eager unordered ints × IsReady eager unordered doubles
unordered-IsReady = (
  (
    record { shared = record { ptrs = λ smp. refl }; chunks = omega arith; bytes = omega arith },
    inl (omega arith, omega arith),
  ),
  (
    record { shared = record { ptrs = λ smp. refl }; chunks = omega arith; bytes = omega arith },
    inr (omega arith, omega arith),
  ),
)

abbrev fence_run :
    (n : Net) × Steps eager
      ((put_all eager unordered (ints ∷ []) ++ shmem_fence unordered)
        ++ put_all eager unordered (doubles ∷ []))
      (at_rest eager memory)
      []
      n
    × (n.pending ≡ [])
fence_run =
    completes eager
      ((put_all eager unordered (ints ∷ []) ++ shmem_fence unordered)
        ++ put_all eager unordered (doubles ∷ []))
      _

fence_separates_example :
    ((b : ℕ) → IsOutside eager unordered b (ints ∷ []) → fence_run.0.memory b ≡ memory b)
    ⊎ ((b : ℕ)
        → IsOutside eager unordered b (doubles ∷ [])
        → fence_run.0.memory b ≡ run eager (put_all eager unordered (ints ∷ [])) memory b)
fence_separates_example =
    fence_separates eager unordered refl refl (ints ∷ []) (doubles ∷ []) (unordered-IsReady.0, tt)
      (unordered-IsReady.1, tt) (tt, tt) memory fence_run.1

fence_overtaken_example :
    (n : Net) × Steps eager
      ((put_all eager cluster (ints ∷ []) ++ shmem_fence cluster)
        ++ put_all eager cluster (doubles ∷ []))
      (at_rest eager memory)
      []
      n
    × (gather n.memory (place_of eager cluster doubles) (span 0 (size_of eager cluster doubles))
        ≡ gather memory 0x200100 (span 0 (size_of eager cluster doubles)))
    × (gather n.memory (place_of eager cluster ints) (span 0 (size_of eager cluster ints))
        ≡ gather memory (place_of eager cluster ints) (span 0 (size_of eager cluster ints)))
fence_overtaken_example =
    fence_overtaken eager cluster refl refl ints doubles ints-IsReady doubles-IsReady ints_doubles
      memory

-- The put of the ints, and a quiet behind it.
abbrev quiet_run :
    (n : Net) × Steps eager
      (performed (oshmpi_put eager unordered mpi_int 0x100010 0x200000 3 1)
        ++ shmem_quiet unordered)
      (at_rest eager memory)
      []
      n
    × (n.pending ≡ [])
quiet_run =
    completes eager
      (performed (oshmpi_put eager unordered mpi_int 0x100010 0x200000 3 1)
        ++ shmem_quiet unordered)
      _

put_quiet_get_example :
    ((n' : Net) × Steps eager
        (performed (oshmpi_put eager unordered mpi_int 0x100010 0x200000 3 1)
          ++ shmem_quiet unordered)
        (at_rest eager memory)
        []
        n')
    × (quiet_run.0.pending ≡ [])
    × ((a : ℕ)
        → (a < remote_address eager unordered 0x100010 1)
          ⊎ (remote_address eager unordered 0x100010 1 + 3 * 4 ≤ a)
        → quiet_run.0.memory a ≡ memory a)
    × ((after : Memory) × (memory_after eager
            (oshmpi_get eager unordered mpi_int 0x300000 0x100010 3 1)
            quiet_run.0.memory
          ≡ some after)
        × (gather after 0x300000 (span 0 (3 * 4)) ≡ gather memory 0x200000 (span 0 (3 * 4))))
put_quiet_get_example =
    put_quiet_get {mpi = eager} {g = unordered} {b = mpi_int} {len = 3} {pe = 1}
      unordered-IsReady.0.0 0x100010 0x200000 unordered-IsReady.0.1 0x300000 memory quiet_run.0
      quiet_run.1
