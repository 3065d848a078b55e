-- ===== src/Rma/Variants.antt =====
-- The paths of oshmpi_put and oshmpi_get of src/shmem-internals.c side by side: the variants of a build
-- and of a job.
use oshmpi.Prelude.{ℕ, ◌*◌, ◌≡◌, ◌⊎◌, inl, inr, sym, ap, ◌∙◌, Bool, some}
use oshmpi.Mpi.{Basic}
use oshmpi.Mpi.Memory.{Memory, span, gather, scatter}
use oshmpi.Mpi.Library.{Mpi}
use oshmpi.Globals.{Globals}
use oshmpi.Window.Lookup.{InSheap, InEtext, Sheap-cases}
use oshmpi.Rma.{oshmpi_put, oshmpi_get}
use oshmpi.Rma.Places.{
  Fits, memory_after, remote_address, remote_address-sheap, remote_address-etext,
}
use oshmpi.Rma.Transfer.{put-writes, get-reads}

-- The same PE with other build options, or with its peers on other nodes.
abbrev pub variant : Globals → (smp_optimizations rma_ordering is_smp : Bool) → Globals
variant g smp_optimizations rma_ordering is_smp = record g {
  smp_optimizations = smp_optimizations;
  rma_ordering = rma_ordering;
  shmem_world_is_smp = is_smp;
}

same_place :
    (mpi : Mpi) (g : Globals) (x y z : Bool) (a pe : ℕ)
    → remote_address mpi (variant g x y z) a pe ≡ remote_address mpi g a pe
same_place mpi g x y z a pe = elim (Sheap-cases g a) [
  | inl heap ↦
      remote_address-sheap mpi (variant g x y z) a pe heap
      ∙ sym (remote_address-sheap mpi g a pe heap)
  | inr outside ↦
      remote_address-etext mpi (variant g x y z) a pe outside
      ∙ sym (remote_address-etext mpi g a pe outside)
]

-- A put and a get of objects that are found have the same effect whether transfers are ordered or
-- not, and whether they bypass MPI or not.
pub variants_agree :
    (mpi : Mpi) (g : Globals) (x y z : Bool) (b : Basic) (len pe : ℕ)
    → Fits mpi g pe b len
    → Fits mpi (variant g x y z) pe b len
    → (target source : ℕ) (m : Memory) → InSheap g target ⊎ InEtext g target
    → InSheap g source ⊎ InEtext g source
    → (memory_after mpi (oshmpi_put mpi (variant g x y z) b target source len pe) m
        ≡ memory_after mpi (oshmpi_put mpi g b target source len pe) m)
      × (memory_after mpi (oshmpi_get mpi (variant g x y z) b target source len pe) m
          ≡ memory_after mpi (oshmpi_get mpi g b target source len pe) m)
variants_agree mpi g x y z b len pe fits fits' target source m to from =
    let bytes = span 0 (len * mpi.type_size b) in
    (
      put-writes fits' target source m to
          ∙ ap (λ p. some (scatter m p bytes (gather m source bytes)))
              (same_place mpi g x y z target pe)
          ∙ sym (put-writes fits target source m to),
      get-reads fits' target source m from
          ∙ ap (λ p. some (scatter m target bytes (gather m p bytes)))
              (same_place mpi g x y z source pe)
          ∙ sym (get-reads fits target source m from),
    )
