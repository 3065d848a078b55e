-- ===== src/Rma/RoundTrip.antt =====
-- A call of oshmpi_put of src/shmem-internals.c and then one of oshmpi_get for the same object.
use oshmpi.Prelude.{ℕ, ◌+◌, ◌*◌, ◌≤◌, ◌<◌, ◌≡◌, ◌⊎◌, ◌∙◌, some, arith, length}
use oshmpi.Mpi.{Basic}
use oshmpi.Mpi.Memory.{
  Memory, span, gather, scatter, scatter_outside, gather-scatter, length-gather, length-span,
}
use oshmpi.Mpi.Library.{Mpi}
use oshmpi.Globals.{Globals}
use oshmpi.Window.Lookup.{InSheap, InEtext}
use oshmpi.Rma.{oshmpi_put, oshmpi_get}
use oshmpi.Rma.Places.{Fits, memory_after, remote_address}
use oshmpi.Rma.Transfer.{put-writes, get-reads}

pub length-item : (m : Memory) (a n : ℕ) → length (gather m a (span 0 n)) ≡ n
length-item m a n = length-gather m a (span 0 n) ∙ length-span 0 n

module _ {mpi : Mpi} {g : Globals} {b : Basic} {len pe : ℕ} (fits : Fits mpi g pe b len)
    (target source back : ℕ) (m : Memory) (found : InSheap g target ⊎ InEtext g target) where
  abbrev size : ℕ
  size = len * mpi.type_size b

  abbrev place : ℕ
  place = remote_address mpi g target pe

  abbrev put_memory : Memory
  put_memory = scatter m place (span 0 size) (gather m source (span 0 size))

  abbrev get_memory : Memory
  get_memory = scatter put_memory back (span 0 size) (gather put_memory place (span 0 size))

  -- A put of `source` to an object that is found, and then a get of that object into `back`, both
  -- return, through shared memory or through MPI, ordered or not, and for a count that needs a
  -- derived type too. Then `back` holds the bytes that `source` held, and the put has changed no
  -- byte outside the object at the PE.
  pub get-put :
      (a : ℕ)
      → (a < remote_address mpi g target pe)
        ⊎ (remote_address mpi g target pe + len * mpi.type_size b ≤ a)
      → (after_put after_get : Memory) × (memory_after mpi
            (oshmpi_put mpi g b target source len pe)
            m
          ≡ some after_put)
        × (memory_after mpi (oshmpi_get mpi g b back target len pe) after_put ≡ some after_get)
        × (gather after_get back (span 0 (len * mpi.type_size b))
            ≡ gather m source (span 0 (len * mpi.type_size b)))
        × (after_put a ≡ m a)
  get-put a out = (
    put_memory,
    get_memory,
    put-writes fits target source m found,
    get-reads fits back target put_memory found,
    gather-scatter put_memory back 0 size _ (length-item put_memory place size)
        ∙ gather-scatter m place 0 size _ (length-item m source size),
    scatter_outside m place 0 size _ a (ground arith),
  )
