-- ===== src/Api/Barrier.antt =====
-- shmem_barrier and shmem_barrier_all of src/shmem.c: what is on its way when a PE enters them.
use oshmpi.Prelude.{ℕ, ◌≡◌, List, [], ◌++◌}
use oshmpi.Prelude.Int.{ℤ}
use oshmpi.Mpi.{Datatype, sheap_win, etext_win, Action}
use oshmpi.Globals.{Globals}
use oshmpi.Comm.{Comms}
use oshmpi.Sync.{shmem_quiet}
use oshmpi.Sync.Completion.{outstanding, quiet_completes}
use oshmpi.Api.Group.{barrier, barrier_all}

module _ (translate_ranks : List ℕ → ℤ → ℤ) (extent : Datatype → ℕ) (g : Globals) (s : Comms) where
  -- When a PE enters the MPI barrier of shmem_barrier or of shmem_barrier_all, no operation that it
  -- started on the heap or on the static data is on its way, whatever it has done before.
  pub barriers_complete :
      (pe_start pe_logs pe_size : ℕ) (psync : List ℤ) (done : List Action) (pes : List ℕ)
      → (outstanding sheap_win
            (done ++ (barrier translate_ranks extent g s pe_start pe_logs pe_size psync).before)
            pes
          ≡ [])
        × (outstanding etext_win
              (done ++ (barrier translate_ranks extent g s pe_start pe_logs pe_size psync).before)
              pes
            ≡ [])
        × (outstanding sheap_win (done ++ (barrier_all g).0) pes ≡ [])
        × (outstanding etext_win (done ++ (barrier_all g).0) pes ≡ [])
  unfolding barrier barrier_all shmem_quiet
  barriers_complete pe_start pe_logs pe_size psync done pes =
      let (heap, static) = quiet_completes g done pes in (heap, static, heap, static)
