-- ===== src/Tests/Adds.antt =====
-- Two PEs across nodes add to a long of PE 0, and call shmem_barrier_all.
use oshmpi.Prelude.{
  ℕ, zero, suc, ◌+◌, ◌%◌, ◌^◌, ◌<◌, ◌≤◌, ◌≡◌, ◌⊎◌, inl, inr, refl, false, List, [], ◌∷◌, ◌&&◌,
  arith,
}
use oshmpi.Mpi.{Action}
use oshmpi.Mpi.Library.{eager}
use oshmpi.Mpi.Network.{All}
use oshmpi.Mpi.Fabric.{Fabric, begin, Turns, AllDone}
use oshmpi.Mpi.Fabric.Project.{can_finish}
use oshmpi.Globals.{Globals}
use oshmpi.Rma.Places.{remote_address}
use oshmpi.Atomic.Paths.{load}
use oshmpi.Atomic.Values.{number}
use oshmpi.Atomic.Concurrent.{sum_upto}
use oshmpi.Api.Point.{Integer, integer_type}
use oshmpi.Api.Adds.{AddCall, added, GoesTo, add_program}
use oshmpi.Api.Adds.Arrive.{adds_arrive}
use oshmpi.Tests.Setting.{cluster, memory}

abbrev second : Globals
second = record cluster {
  shmem_world_rank = 1;
  shmem_sheap_base_ptr = 0x110000;
  shmem_etext_base_ptr = 0x810000;
}

abbrev pair : ℕ → Globals
pair zero = cluster
pair (suc i) = second

-- PE 0 adds twice, PE 1 once.
abbrev adds : ℕ → List AddCall
adds zero =
    record { target = 0x100040; value = 0x300000; pe = 0 }
    ∷ record { target = 0x100040; value = 0x300010; pe = 0 }
    ∷ []
adds (suc i) = record { target = 0x110040; value = 0x400000; pe = 0 } ∷ []

abbrev pair_across :
    (i : ℕ) → i < 2 → ((pair i).smp_optimizations && (pair i).shmem_world_is_smp) ≡ false
pair_across zero less = refl
pair_across (suc i) less = refl

All-GoesTo : (i : ℕ) → i < 2 → All (GoesTo eager Integer.long 0x100040 memory (pair i)) (adds i)
unfolding integer_type remote_address
All-GoesTo zero less = (
  (inl (omega arith, omega arith), refl, inr (omega arith)),
  ((inl (omega arith, omega arith), refl, inr (omega arith)), tt),
)
All-GoesTo (suc i) less = ((inl (omega arith, omega arith), refl, inr (omega arith)), tt)

abbrev job : ℕ → List Action
job i = add_program Integer.long (pair i) (adds i)

abbrev finished_job : (s : Fabric) × Turns eager 2 (begin job memory) s × AllDone 2 s
finished_job = can_finish eager 2 (begin job memory)

adds_arrive_example :
    ((u : Fabric) × Turns eager 2 (begin job memory) u × AllDone 2 u)
    × (number (load eager (integer_type Integer.long) finished_job.0.memory 0x100040)
          % 256 ^ eager.type_size (integer_type Integer.long)
        ≡ (number (load eager (integer_type Integer.long) memory 0x100040)
            + sum_upto 2 (λ i. added eager Integer.long memory (adds i)))
          % 256 ^ eager.type_size (integer_type Integer.long))
    × ((b : ℕ)
        → (b < 0x100040) ⊎ (0x100040 + eager.type_size (integer_type Integer.long) ≤ b)
        → finished_job.0.memory b ≡ memory b)
adds_arrive_example =
    adds_arrive eager 2 pair pair_across Integer.long 0x100040 memory adds All-GoesTo finished_job.0
      finished_job.1 finished_job.2
