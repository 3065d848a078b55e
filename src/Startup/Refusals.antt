-- ===== src/Startup/Refusals.antt =====
-- A process that oshmpi_initialize of src/shmem-internals.c has brought up.
use oshmpi.Prelude.{ℕ, ◌≡◌, true, ◌&&◌, some}
use oshmpi.Startup.{Build, Found, Phase, runs_mpmd}

-- The program of this PE is of one kind with the others', as far as this PE tells without MPMD
-- support.
abbrev pub IsSingleProgram : Found → Type 0
IsSingleProgram f = (n : ℕ) → f.appnum ≡ some n → n ≡ 0

-- The flags of a process that came up.
abbrev pub phase_up : Build → Found → Phase → Phase
phase_up b f p = record p {
  mpi_initialized = true;
  shmem_is_initialized = true;
  running_mpmd = runs_mpmd b f;
  world_is_smp = b.smp_optimizations && f.is_smp;
}
