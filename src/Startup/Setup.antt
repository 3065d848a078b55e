-- ===== src/Startup/Setup.antt =====
-- The globals that oshmpi_initialize of src/shmem-internals.c sets, from what its calls of MPI and of
-- the system give.
use oshmpi.Prelude.{
  ℕ, zero, suc, ◌+◌, ◌-◌, ◌%◌, ◌^◌, ◌≤◌, ◌<◌, ◌≡◌, inl, inr, refl, sym, ap, ◌∙◌, Bool, true, ◌&&◌,
  Option, none, some, arith, ltb, ◌==◌, Bool-cases, if◌then◌else◌,
}
use oshmpi.Prelude.Int.{pos}
use mathlib.Core.Path.{subst}
use oshmpi.Mpi.{sheap_win}
use oshmpi.Mpi.Library.{Mpi}
use oshmpi.Contiguous.{int_max}
use oshmpi.Globals.{Globals}
use oshmpi.Window.{window_offset, sheap_window}
use oshmpi.Window.Lookup.{window_offset-sheap}
use oshmpi.Rma.Places.{Shared}
use oshmpi.Startup.{Build, Found, runs_mpmd}
use oshmpi.Startup.Heap.{sheap_size}

-- MPI_Comm_size and MPI_Comm_rank of the world, MPI_Comm_size of the node, what
-- MPI_Win_shared_query gives for each rank, what the memory of malloc has in it at first, the size
-- that the heap's window is allocated with, and the bounds of the static data.
pub record Facts : Type 0 where
  pub rma_ordering : Bool
  pub world_size : ℕ
  pub world_rank : ℕ
  pub node_size : ℕ
  pub shared_query : ℕ → ℕ
  pub stale : ℕ → ℕ
  pub window_size : ℕ
  pub data_start : ℕ
  pub data_end : ℕ

-- The loop that fills shmem_smp_sheap_ptrs, for the ranks below `n`.
unfoldable pub sheap_ptrs_upto : Facts → (n : ℕ) → ℕ → ℕ
sheap_ptrs_upto f zero rank = f.stale rank
sheap_ptrs_upto f (suc n) rank =
    let before = sheap_ptrs_upto f n rank in if n == rank then f.shared_query rank else before

-- `get_end() - (unsigned long)shmem_etext_base_ptr`
abbrev pub long_etext_size : Facts → ℕ
long_etext_size f = (f.data_end + 2 ^ 64 - f.data_start) % 2 ^ 64

-- The globals behind initialization; `old` is those before. The bases of the heap and of the static
-- data are those of this PE.
abbrev pub new_globals : Mpi → Build → Found → Facts → (old : Globals) → Globals
new_globals mpi b found f old =
    let is_smp = b.smp_optimizations && found.is_smp in
    record {
      smp_optimizations = b.smp_optimizations;
      rma_ordering = f.rma_ordering;
      comm_caching = b.comm_caching;
      mpmd_support = b.mpmd_support;
      shmem_world_size = f.world_size;
      shmem_world_rank = f.world_rank;
      shmem_world_is_smp = is_smp;
      shmem_smp_sheap_ptrs =
          (if is_smp then sheap_ptrs_upto f f.node_size else old.shmem_smp_sheap_ptrs);
      shmem_sheap_base_ptr = mpi.base sheap_win f.world_rank;
      shmem_sheap_size = sheap_size f.window_size;
      shmem_etext_base_ptr = f.data_start;
      shmem_etext_size = long_etext_size f;
      shmem_running_mpmd = runs_mpmd b found;
      shmem_mpmd_my_appnum =
          (if b.mpmd_support && found.any_appnum
            then elim (found.appnum) [ none ↦ 0 | some n ↦ n ]
            else old.shmem_mpmd_my_appnum);
    }

-- `none` where the assert on the size of the static data fails.
unfoldable pub set_globals : Mpi → Build → Found → Facts → (old : Globals) → Option Globals
set_globals mpi b found f old =
    if ltb (long_etext_size f) int_max then some (new_globals mpi b found f old) else none

-- What MPI documents: MPI_Win_shared_query gives the place of each rank's part of a window, and two
-- communicators that are congruent are of one size.
pub record Documented (mpi : Mpi) (found : Found) (f : Facts) : Type 0 where
  pub queried : (rank : ℕ) → rank < f.node_size → f.shared_query rank ≡ mpi.base sheap_win rank
  pub congruent : found.is_smp ≡ true → f.node_size ≡ f.world_size

upto_filled : (f : Facts) (n rank : ℕ) → rank < n → sheap_ptrs_upto f n rank ≡ f.shared_query rank
unfolding sheap_ptrs_upto
upto_filled f zero rank lt = absurd (omega arith)
upto_filled f (suc n) rank lt = elim (Bool-cases (n == rank)) [
  | inl last ↦ rw last refl
  | inr other ↦ rw other (upto_filled f n rank (ground arith))
]

module _ (mpi : Mpi) (b : Build) (found : Found) (f : Facts) (old : Globals) where
  pub set_new :
      (g : Globals) → set_globals mpi b found f old ≡ some g → new_globals mpi b found f old ≡ g
  unfolding set_globals
  set_new g set = elim (Bool-cases (ltb (long_etext_size f) int_max)) [
    | inl small ↦
        let go : some (new_globals mpi b found f old) ≡ some g = rw (small, set_globals) at set in
        cc
    | inr large ↦ let no : none ≡ some g = rw (large, set_globals) at set in absurd (cc)
  ]

  new-Shared :
      Documented mpi found f
      → (pe : ℕ) → pe < f.world_size
      → Shared mpi (new_globals mpi b found f old) pe
  new-Shared doc pe lt = record {
    ptrs = λ near.
        let node : found.is_smp ≡ true = ground arith in
        let below : pe < f.node_size = omega (arith, doc.congruent node) in
        rw near (upto_filled f f.node_size pe below ∙ doc.queried pe below);
  }

  -- The segments that a process finds are those that transfers rest on, for each PE of the world.
  pub set_globals-Shared :
      (g : Globals)
      → set_globals mpi b found f old ≡ some g
      → Documented mpi found f
      → (pe : ℕ) → pe < g.shmem_world_size
      → Shared mpi g pe
  set_globals-Shared g set doc =
      subst (λ g. (pe : ℕ) → pe < g.shmem_world_size → Shared mpi g pe) (set_new g set)
        (new-Shared doc)

  -- An initialized process takes an address behind the part of the heap's window that it has, up to
  -- 1024 bytes behind its end, for a symmetric object, and its offset is not in the window.
  pub found_behind_window :
      (g : Globals)
      → set_globals mpi b found f old ≡ some g
      → (pe k : ℕ) → k ≤ 1024
      → window_offset g (g.shmem_sheap_base_ptr + f.window_size + k) pe
        ≡ record { rc = 0; win_id = sheap_window; win_offset = pos (f.window_size + k) }
  unfolding sheap_size
  found_behind_window g set pe k le =
      let size : g.shmem_sheap_size ≡ f.window_size + 1024 =
        ap (λ g. g.shmem_sheap_size) (sym (set_new g set)) in
      window_offset-sheap g (g.shmem_sheap_base_ptr + f.window_size + k) pe
        (omega arith, omega (arith, size))
      ∙ ap (λ n. record { rc = 0; win_id = sheap_window; win_offset = pos n }) (omega arith)
