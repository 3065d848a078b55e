-- ===== src/Tests/Fenced.antt =====
-- PE 0 of the tests' job puts ints to PE 1 across nodes, calls shmem_fence and puts a flag for which
-- PE 1 waits.
use oshmpi.Prelude.{
  ℕ, zero, suc, ◌+◌, ◌<◌, ◌≡◌, inl, inr, refl, ap, ◌∙◌, true, false, some, List, [], ◌∷◌, ◌++◌,
  arith,
}
use oshmpi.Prelude.Int.{ℤ, pos}
use oshmpi.Mpi.{mpi_int, Action}
use oshmpi.Mpi.Memory.{Memory, span, gather, scatter, tile, Apart}
use oshmpi.Mpi.Library.{eager, run}
use oshmpi.Mpi.Network.{Net, Steps, here}
use oshmpi.Mpi.Network.Runs.{completes}
use oshmpi.Mpi.Network.Order.{AllPairs}
use oshmpi.Mpi.Network.Message.{at_rest}
use oshmpi.Globals.{Globals}
use oshmpi.Contiguous.{type_contiguous_x}
use oshmpi.Window.{window_offset}
use oshmpi.Rma.{counted, release_type, through_mpi, put_call, oshmpi_put}
use oshmpi.Rma.Places.{remote_address}
use oshmpi.Atomic.Values.{number}
use oshmpi.Sync.{oshmpi_remote_sync, oshmpi_local_sync, shmem_fence}
use oshmpi.Sync.Puts.{PutCall, size_of, place_of, put_all, IsReady, DoNotMeet}
use oshmpi.Sync.Fence.{IsOutside, fence-delivered}
use oshmpi.Wait.{cmp_eq, comp, released}
use oshmpi.Api.Waits.{Waitable, wait_type, signed, shmem_type_wait_until}
use oshmpi.Api.Waits.Seen.{value_of}
use oshmpi.Api.Waits.Fenced.{IsMeanwhile, wait_sees_fenced}
use oshmpi.Tests.Setting.{cluster, memory}

abbrev sender : Globals
sender = record cluster { rma_ordering = false }

abbrev receiver : Globals
receiver = record sender {
  shmem_world_rank = 1;
  shmem_sheap_base_ptr = 0x110000;
  shmem_etext_base_ptr = 0x810000;
}

abbrev ints : PutCall
ints = record { type = mpi_int; target = 0x100010; source = 0x200000; len = 3; pe = 1 }

abbrev flag : PutCall
flag = record { type = mpi_int; target = 0x100040; source = 0x300001; len = 1; pe = 1 }

ints-IsReady : IsReady eager sender ints
ints-IsReady = (
  record { shared = record { ptrs = λ smp. refl }; chunks = omega arith; bytes = omega arith },
  inl (omega arith, omega arith),
)

flag-IsReady : IsReady eager sender flag
flag-IsReady = (
  record { shared = record { ptrs = λ smp. refl }; chunks = omega arith; bytes = omega arith },
  inl (omega arith, omega arith),
)

ints_flag : Apart (place_of eager sender ints) 12 (place_of eager sender flag) 4
unfolding remote_address
ints_flag = inl (omega arith)

both_pairs : AllPairs (DoNotMeet eager sender) (ints ∷ flag ∷ [])
unfolding remote_address
both_pairs = (((inr (inl (omega arith)), inr (omega arith)), tt), (tt, tt))

same_place : place_of eager sender flag ≡ remote_address eager receiver 0x110040 1
unfolding remote_address
same_place = refl

same_size : size_of eager sender flag ≡ eager.type_size (wait_type Waitable.int)
unfolding wait_type
same_size = refl

abbrev program : List Action
program =
    (put_all eager sender (ints ∷ []) ++ shmem_fence sender) ++ put_all eager sender (flag ∷ [])

abbrev whole_run : (n : Net) × Steps eager program (at_rest eager memory) [] n × (n.pending ≡ [])
whole_run = completes eager program (at_rest eager memory)

-- The first two turns come before the writes.
abbrev seen : ℕ → Memory
seen zero = memory
seen (suc zero) = memory
seen (suc (suc i)) = whole_run.0.memory

seen_way : (i : ℕ) → IsMeanwhile eager sender (ints ∷ []) flag memory (seen i)
seen_way zero = (_, _, here, refl)
seen_way (suc zero) = (_, _, here, refl)
seen_way (suc (suc i)) = (_, _, whole_run.1, refl)

abbrev flag_value : Memory → ℤ
flag_value = value_of eager receiver Waitable.int 0x110040

not_at_first : comp cmp_eq (flag_value memory) (pos 0x04030201) ≡ some false
unfolding comp signed wait_type number gather span remote_address
not_at_first = refl

none_before : (i : ℕ) → i < 2 → comp cmp_eq (flag_value (seen i)) (pos 0x04030201) ≡ some false
none_before zero less = not_at_first
none_before (suc zero) less = not_at_first
none_before (suc (suc i)) less = absurd (omega arith)

value_last : comp cmp_eq (flag_value (run eager program memory)) (pos 0x04030201) ≡ some true
unfolding comp signed wait_type number gather scatter span tile run type_contiguous_x window_offset
    counted release_type through_mpi put_call oshmpi_put put_all shmem_fence oshmpi_remote_sync
    oshmpi_local_sync remote_address
value_last = refl

at_last : comp cmp_eq (flag_value (seen 2)) (pos 0x04030201) ≡ some true
at_last =
    ap (λ k. comp cmp_eq (flag_value k) (pos 0x04030201))
      (fence-delivered eager sender refl refl (ints ∷ []) (flag ∷ []) (ints-IsReady, tt)
        (flag-IsReady, tt) both_pairs memory whole_run.1 whole_run.2)
    ∙ value_last

wait_sees_fenced_example :
    (shmem_type_wait_until eager receiver Waitable.int 0x110040 0x400000 seen cmp_eq
        (pos 0x04030201)
        5
      ≡ some (released (2 + 1) (flag_value (seen 2))))
    × ((b : ℕ)
        → IsOutside eager sender b (flag ∷ [])
        → seen 2 b ≡ run eager (put_all eager sender (ints ∷ [])) memory b)
wait_sees_fenced_example =
    wait_sees_fenced eager sender (ints ∷ []) flag memory refl refl (ints-IsReady, tt) flag-IsReady
      (tt, tt) (ints_flag, tt) receiver Waitable.int 0x110040 0x400000
      (inl (omega arith, omega arith)) same_place same_size seen seen_way cmp_eq (pos 0x04030201)
      not_at_first 2 none_before at_last 5 (omega arith)
