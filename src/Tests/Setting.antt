-- ===== src/Tests/Setting.antt =====
-- A job of four PEs seen by PE 0, on one node and across nodes, for the tests.
use oshmpi.Prelude.{
  ℕ, zero, suc, ◌+◌, ◌*◌, ◌%◌, ◌<◌, ◌≡◌, ◌≢◌, refl, ap, ◌∙◌, true, false, some, List, [], ◌∷◌,
  arith, get_elem?, ◌==◌, if◌then◌else◌,
}
use oshmpi.Prelude.Int.{ℤ, pos, negsuc}
use oshmpi.Mpi.Memory.{Memory}
use oshmpi.Mpi.Library.{eager}
use oshmpi.Globals.{Globals}
use oshmpi.Rma.Places.{Shared}
use oshmpi.Coll.Calls.{Translates}

abbrev pub node : Globals
node = record {
  smp_optimizations = true;
  rma_ordering = false;
  comm_caching = true;
  mpmd_support = false;
  shmem_world_size = 4;
  shmem_world_rank = 0;
  shmem_world_is_smp = true;
  shmem_smp_sheap_ptrs = λ pe. 0x100000 + pe * 0x10000;
  shmem_sheap_base_ptr = 0x100000;
  shmem_sheap_size = 0x1000;
  shmem_etext_base_ptr = 0x800000;
  shmem_etext_size = 0x1000;
  shmem_running_mpmd = false;
  shmem_mpmd_my_appnum = 0;
}

-- The same across nodes, where transfers are ordered.
abbrev pub cluster : Globals
cluster = record node { rma_ordering = true; shmem_world_is_smp = false }

abbrev pub memory : Memory
memory a = a % 256

pub node-Shared : {pe : ℕ} → Shared eager node pe
node-Shared = record { ptrs = λ smp. refl }

pub cluster-Shared : {pe : ℕ} → Shared eager cluster pe
cluster-Shared = record { ptrs = λ smp. refl }

-- The rank in a group of a rank of the world.
pub position_from : ℕ → List ℕ → ℕ → ℤ
position_from i [] r = negsuc 0
position_from i (x ∷ rest) r =
    let later = position_from (i + 1) rest r in if x == r then pos i else later

abbrev pub position : List ℕ → ℤ → ℤ
position group (pos r) = position_from 0 group r
position group (negsuc n) = negsuc 0

first_place :
    (group : List ℕ) (i k r : ℕ)
    → get_elem? group k ≡ some r
    → ((j : ℕ) → j < k → get_elem? group j ≢ some r)
    → position_from i group r ≡ pos (i + k)
unfolding position_from
first_place [] i k r at none_before = absurd (cc)
first_place (x ∷ rest) i zero r at none_before =
    let here : (x == r) ≡ true = ground arith in rw (here, position_from) (ap pos (omega arith))
first_place (x ∷ rest) i (suc k) r at none_before =
    let other : (x == r) ≡ false = ground (arith, none_before 0) in
    rw (other, position_from)
      (first_place rest (i + 1) k r at (λ j less. none_before (suc j) (omega arith))
        ∙ ap pos (omega arith))

pub position-Translates : Translates position
position-Translates group k r at none_before =
    first_place group 0 k r at none_before ∙ ap pos (omega arith)
