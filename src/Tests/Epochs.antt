-- ===== src/Tests/Epochs.antt =====
-- Two PEs across nodes put to each other, one twice to the same place, and call shmem_barrier_all.
use oshmpi.Prelude.{ℕ, zero, suc, ◌<◌, ◌≡◌, ◌≢◌, inl, inr, refl, false, List, [], ◌∷◌, ◌&&◌, arith}
use oshmpi.Mpi.{mpi_int, mpi_double, Action}
use oshmpi.Mpi.Library.{eager, run}
use oshmpi.Mpi.Network.{All, Net, Steps}
use oshmpi.Mpi.Network.Runs.{completes}
use oshmpi.Mpi.Network.Order.{AllPairs}
use oshmpi.Mpi.Fabric.{Fabric, seen_by, begin, turn, Turns, start, then_turn, AllDone}
use oshmpi.Globals.{Globals}
use oshmpi.Rma.Places.{remote_address}
use oshmpi.Sync.Puts.{PutCall, put_all, IsReady, DoNotMeet}
use oshmpi.Sync.Fence.{IsOutside}
use oshmpi.Api.Epoch.{IsClear, epoch, barrier_delivers}
use oshmpi.Tests.Setting.{cluster, memory}

abbrev other : Globals
other = record cluster {
  shmem_world_rank = 1;
  shmem_sheap_base_ptr = 0x110000;
  shmem_etext_base_ptr = 0x810000;
}

abbrev pair : ℕ → Globals
pair zero = cluster
pair (suc i) = other

abbrev ints : PutCall
ints = record { type = mpi_int; target = 0x100010; source = 0x200000; len = 3; pe = 1 }

abbrev ints_again : PutCall
ints_again = record { type = mpi_int; target = 0x100014; source = 0x200200; len = 2; pe = 1 }

abbrev doubles : PutCall
doubles = record { type = mpi_double; target = 0x110040; source = 0x300000; len = 2; pe = 0 }

abbrev puts : ℕ → List PutCall
puts zero = ints ∷ ints_again ∷ []
puts (suc i) = doubles ∷ []

abbrev pair_across :
    (i : ℕ) → i < 2 → ((pair i).smp_optimizations && (pair i).shmem_world_is_smp) ≡ false
pair_across zero less = refl
pair_across (suc i) less = refl

pair-IsReady : (i : ℕ) → i < 2 → All (IsReady eager (pair i)) (puts i)
pair-IsReady zero less = (
  (
    record { shared = record { ptrs = λ smp. refl }; chunks = omega arith; bytes = omega arith },
    inl (omega arith, omega arith),
  ),
  (
    (
      record { shared = record { ptrs = λ smp. refl }; chunks = omega arith; bytes = omega arith },
      inl (omega arith, omega arith),
    ),
    tt,
  ),
)
pair-IsReady (suc i) less = (
  (
    record { shared = record { ptrs = λ smp. refl }; chunks = omega arith; bytes = omega arith },
    inl (omega arith, omega arith),
  ),
  tt,
)

own_pairs : (i : ℕ) → i < 2 → AllPairs (DoNotMeet eager (pair i)) (puts i)
unfolding remote_address
own_pairs zero less = (((inl refl, inr (omega arith)), tt), (tt, tt))
own_pairs (suc i) less = (tt, tt)

All-IsClear :
    (i j : ℕ)
    → i < 2
    → j < 2
    → j ≢ i
    → All (λ c. All (IsClear eager (pair i) (pair j) c) (puts j)) (puts i)
unfolding remote_address
All-IsClear zero zero less less_j differ = absurd (differ refl)
All-IsClear zero (suc j) less less_j differ = (
  ((inr (omega arith), inr (omega arith)), tt),
  (((inr (omega arith), inr (omega arith)), tt), tt),
)
All-IsClear (suc i) zero less less_j differ =
    (((inl (omega arith), inr (omega arith)), ((inl (omega arith), inr (omega arith)), tt)), tt)
All-IsClear (suc i) (suc j) less less_j differ = absurd (differ (omega arith))

abbrev job : ℕ → List Action
job i = epoch eager (pair i) (puts i)

-- PE 1 has come to the barrier, and PE 0 has done nothing.
abbrev ahead :
    (n : Net) × Steps eager (job 1) (seen_by (begin job memory) 1) [] n × (n.pending ≡ [])
ahead = completes eager (job 1) (seen_by (begin job memory) 1)

abbrev one_there : (s : Fabric) × Turns eager 2 (begin job memory) s × (s.todo 1 ≡ [])
one_there = (_, then_turn start (turn 1 (omega arith) ahead.1), refl)

barrier_delivers_example :
    ((t : Fabric) × Turns eager 2 one_there.0 t × AllDone 2 t)
    × (one_there.0.pending 1 ≡ [])
    × ((b : ℕ)
        → ((j : ℕ) → j < 2 → j ≢ 1 → IsOutside eager (pair j) b (puts j))
        → one_there.0.memory b ≡ run eager (put_all eager other (puts 1)) memory b)
barrier_delivers_example =
    barrier_delivers eager 2 pair pair_across puts pair-IsReady own_pairs All-IsClear memory
      one_there.0 one_there.1 1 (omega arith) one_there.2
