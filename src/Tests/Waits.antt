-- ===== src/Tests/Waits.antt =====
-- PE 2 of the tests' job waits for an int that PE 0 puts.
use oshmpi.Prelude.{
  ℕ, zero, suc, ◌<◌, ◌≡◌, ◌⊎◌, inl, refl, true, false, some, arith, ◌==◌, if◌then◌else◌,
}
use oshmpi.Prelude.Int.{ℤ, pos}
use oshmpi.Mpi.Memory.{Memory, span, gather, scatter}
use oshmpi.Mpi.Library.{eager}
use oshmpi.Globals.{Globals}
use oshmpi.Window.Lookup.{InSheap, InEtext}
use oshmpi.Rma.Places.{remote_address}
use oshmpi.Atomic.Values.{number}
use oshmpi.Wait.{cmp_eq, comp, released}
use oshmpi.Api.Waits.{Waitable, wait_type, signed, shmem_type_wait_until}
use oshmpi.Api.Waits.Seen.{value_of, type_wait_until_returns}
use oshmpi.Tests.Setting.{node}

-- The job as PE 2 sees it.
abbrev second : Globals
second = record node {
  shmem_world_rank = 2;
  shmem_sheap_base_ptr = 0x120000;
  shmem_etext_base_ptr = 0x820000;
}

abbrev seven_here : Memory
seven_here a = if a == 0x300000 then 7 else 0

-- The put is there at the third turn.
abbrev moments : ℕ → Memory
moments zero = seven_here
moments (suc zero) = seven_here
moments (suc (suc n)) =
    scatter seven_here 0x120010 (span 0 4) (gather seven_here 0x300000 (span 0 4))

abbrev flag : Memory → ℤ
flag = value_of eager second Waitable.int 0x120010

found : InSheap second 0x120010 ⊎ InEtext second 0x120010
found = inl (omega arith, omega arith)

not_before : (j : ℕ) → j < 2 → comp cmp_eq (flag (moments j)) (pos 7) ≡ some false
unfolding comp signed wait_type number gather span remote_address
not_before zero h = refl
not_before (suc zero) h = refl
not_before (suc (suc n)) h = absurd (omega arith)

at_last : comp cmp_eq (flag (moments 2)) (pos 7) ≡ some true
unfolding comp signed wait_type number gather scatter span remote_address
at_last = refl

type_wait_until_returns_example :
    shmem_type_wait_until eager second Waitable.int 0x120010 0x400000 moments cmp_eq (pos 7) 5
    ≡ some (released 3 (flag (moments 2)))
type_wait_until_returns_example =
    type_wait_until_returns eager second Waitable.int 0x120010 found 0x400000 moments cmp_eq (pos 7)
      2 5 not_before at_last (omega arith)
