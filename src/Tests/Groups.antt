-- ===== src/Tests/Groups.antt =====
-- Collectives of the tests' job.
use oshmpi.Prelude.{◌^◌, ◌<◌, ◌≡◌, refl, false, Option, some, List, [], ◌∷◌, arith}
use oshmpi.Prelude.Int.{negsuc}
use oshmpi.Mpi.{Action, mpi_int32_t, mpi_sum}
use oshmpi.Mpi.Library.{eager}
use oshmpi.Comm.{Comm, Comms, pe_list, acquire_comm, release_comm, initial_comms}
use oshmpi.Comm.Members.{Inv, initial-Inv, members, acquire-release-Inv}
use oshmpi.Coll.{Collective, shmem_collect, called, oshmpi_coll}
use oshmpi.Coll.Layout.{before}
use oshmpi.Coll.Calls.{comm_of, IsCallOf, oshmpi_coll-members}
use oshmpi.Tests.Setting.{node, position}

acquire-release-Inv_example : Inv (
    release_comm node
      (acquire_comm position node initial_comms 1 1 2 (negsuc 0)).comms
      1
      1
      2
      (acquire_comm position node initial_comms 1 1 2 (negsuc 0)).comm)
acquire-release-Inv_example =
    acquire-release-Inv position node initial_comms initial-Inv 1 1 2 (negsuc 0)

oshmpi_coll-members_example :
    (made : List Action) × (first : Option Collective) × (call : Collective) × (freed : List Action)
    × (s' : Comms) × (c : Comm) × (oshmpi_coll position eager.extent node initial_comms
          shmem_collect mpi_int32_t mpi_sum 0x100010 0x100040 2
          (negsuc 0)
          1
          1
          2
          (2 ∷ 5 ∷ [])
        ≡ called made first call freed s')
    × IsCallOf false 0x100010 0x100040 2 mpi_int32_t mpi_sum shmem_collect first call
    × (comm_of call ≡ some c)
    × (members node c ≡ pe_list 1 (2 ^ 1) 0 2)
    × Inv s'
oshmpi_coll-members_example =
    oshmpi_coll-members position eager.extent node initial_comms initial-Inv (negsuc 0) 1 1 2
      shmem_collect mpi_int32_t mpi_sum 0x100010 0x100040 2 (2 ∷ 5 ∷ []) refl

three : before (3 ∷ 5 ∷ 2 ∷ []) 3 < 2 ^ 31
unfolding before
three = omega arith
