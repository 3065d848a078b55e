-- ===== src/Tests/Refused.antt =====
-- Calls that are refused, and queries.
use oshmpi.Prelude.{ℕ, ◌≡◌, ◌⊎◌, ◌↔◌, true, false, some, none}
use oshmpi.Prelude.Int.{pos, negsuc}
use oshmpi.Mpi.{mpi_int, mpi_double}
use oshmpi.Mpi.Library.{eager}
use oshmpi.Window.Lookup.{InSheap, InEtext, IsSymmetric}
use oshmpi.Rma.{oshmpi_put, oshmpi_get}
use oshmpi.Rma.Refusals.{ReturnsIff}
use oshmpi.Atomic.{oshmpi_swap, oshmpi_cswap, oshmpi_add, oshmpi_fadd}
use oshmpi.Atomic.Refusals.{Servable, one_sided_refused}
use oshmpi.Strided.{oshmpi_put_strided, oshmpi_get_strided}
use oshmpi.Strided.Refusals.{StridedOutcome, strided_outcomes}
use oshmpi.Api.Query.{pe_accessible, IsNumber, addr_accessible, accessible_iff}
use oshmpi.Tests.Setting.{node, cluster}

-- A builtin on a double.
one_sided_refused_example :
    ReturnsIff
      (IsSymmetric node 0x100010)
      (pos 2)
      (oshmpi_put eager node mpi_double 0x100010 0x200000 5 2)
    × ReturnsIff
        (IsSymmetric node 0x100010)
        (pos 2)
        (oshmpi_get eager node mpi_double 0x200000 0x100010 5 2)
    × ReturnsIff
        (IsSymmetric node 0x100010)
        (pos 2)
        (oshmpi_swap node mpi_double 0x200000 0x100010 0x300000 2)
    × ReturnsIff
        (Servable node mpi_double 0x100010 2)
        (pos 2)
        (oshmpi_cswap node mpi_double 0x200000 0x100010 0x300000 0x400000 2)
    × ReturnsIff
        (Servable node mpi_double 0x100010 2)
        (pos 2)
        (oshmpi_add node mpi_double 0x100010 0x300000 2)
    × ReturnsIff
        (Servable node mpi_double 0x100010 2)
        (pos 2)
        (oshmpi_fadd node mpi_double 0x200000 0x100010 0x300000 2)
one_sided_refused_example =
    one_sided_refused node mpi_double 0x100010 2 eager 0x200000 0x300000 0x400000 5

strided_outcomes_example :
    StridedOutcome cluster 0x100010
      (pos 2147483647)
      (negsuc 0)
      5
      1
      (oshmpi_put_strided cluster mpi_int 0x100010 0x200000 (pos 2147483647) (negsuc 0) 5 1)
    × StridedOutcome cluster 0x200000
        (pos 2147483647)
        (negsuc 0)
        5
        1
        (oshmpi_get_strided cluster mpi_int 0x100010 0x200000 (pos 2147483647) (negsuc 0) 5 1)
strided_outcomes_example =
    strided_outcomes cluster (pos 2147483647) (negsuc 0) 5 1 mpi_int 0x100010 0x200000

-- PE 4 of four.
accessible_iff_example :
    ((pe_accessible node (λ _. 0) (pos 4) ≡ some true) ↔ (
      ((node.mpmd_support ≡ false) × IsNumber node (pos 4))
      ⊎ ((node.mpmd_support ≡ true)
          × (node.shmem_running_mpmd ≡ true)
          × (◌≡◌ {A = ℕ} node.shmem_mpmd_my_appnum 0))))
    × ((pe_accessible node (λ _. 0) (pos 4) ≡ none)
        ↔ ((node.mpmd_support ≡ true) × (node.shmem_running_mpmd ≡ false)))
    × ((addr_accessible node 0x100010 (pos 4) ≡ true)
        ↔ (IsNumber node (pos 4) × (InSheap node 0x100010 ⊎ InEtext node 0x100010)))
accessible_iff_example = accessible_iff node (λ _. 0) 0x100010 (pos 4)
