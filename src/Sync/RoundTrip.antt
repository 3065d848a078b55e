-- ===== src/Sync/RoundTrip.antt =====
-- A put, shmem_quiet and a get of the same object: oshmpi_put and oshmpi_get of src/shmem-internals.c and
-- shmem_quiet of src/shmem.c, when MPI delivers what the put writes at any time.
use mathlib.Core.Path.{subst}
use oshmpi.Prelude.{
  ℕ, ◌+◌, ◌*◌, ◌≤◌, ◌<◌, ◌≡◌, ◌⊎◌, inl, inr, refl, sym, ap, ◌∙◌, some, [], ◌++◌, arith,
}
use oshmpi.Mpi.{Basic}
use oshmpi.Mpi.Memory.{Memory, span, gather, scatter, gather-scatter, scatter_outside}
use oshmpi.Mpi.Library.{Mpi, run}
use oshmpi.Mpi.Network.{requests, Net, All, Steps}
use oshmpi.Mpi.Network.Runs.{requests-append, Steps-parts, Steps-All, completes}
use oshmpi.Mpi.Network.Order.{AllPairs, Keeps}
use oshmpi.Mpi.Network.Local.{run-append, requests-locals, run-locals, delivered, asks_nothing}
use oshmpi.Mpi.Network.Message.{at_rest}
use oshmpi.Globals.{Globals}
use oshmpi.Window.{window_of}
use oshmpi.Window.Lookup.{InSheap, InEtext}
use oshmpi.Rma.{oshmpi_put, oshmpi_get}
use oshmpi.Rma.Places.{Fits, memory_after, remote_address}
use oshmpi.Rma.Transfer.{put-writes, get-reads}
use oshmpi.Rma.RoundTrip.{length-item}
use oshmpi.Rma.Pending.{performed, run-performed, put_request, put_cases}
use oshmpi.Sync.{shmem_quiet}
use oshmpi.Sync.Puts.{IsKnown}
use oshmpi.Sync.Delivery.{quiet-IsLocal, quiet_clears}

module _ {mpi : Mpi} {g : Globals} {b : Basic} {len pe : ℕ} (fits : Fits mpi g pe b len)
    (target source : ℕ) (found : InSheap g target ⊎ InEtext g target) where
  -- Behind the quiet, nothing is on its way and the bytes are at the PE.
  put_quiet :
      (m : Memory) (n : Net)
      → Steps mpi
          (performed (oshmpi_put mpi g b target source len pe) ++ shmem_quiet g)
          (at_rest mpi m)
          []
          n
      → (n.pending ≡ [])
        × (n.memory
            ≡ scatter m
                (remote_address mpi g target pe)
                (span 0 (len * mpi.type_size b))
                (gather m source (span 0 (len * mpi.type_size b))))
  put_quiet m n ran =
      let put = performed (oshmpi_put mpi g b target source len pe) in
      let wrote = run-performed mpi _ m _ (put-writes fits target source m found) in
      elim (put_cases fits target source found) [
        | inl a ↦
            let (mid, first, second) = Steps-parts mpi put (shmem_quiet g) ran in
            let known : IsKnown (put_request mpi g b target source len pe (window_of a.win)) =
              elim a.known [ inl e ↦ inl (ap window_of e) | inr e ↦ inr (ap window_of e) ] in
            let empty =
              quiet_clears mpi g second
                (Steps-All mpi IsKnown first (subst (All IsKnown) (sym a.single.asks) (known, tt))
                  tt).1 in
            (
              empty,
              delivered mpi put (shmem_quiet g) a.single.plain (quiet-IsLocal mpi g)
                    (subst (AllPairs Keeps) (sym a.single.asks) (tt, tt)) m n ran empty
                  ∙ wrote,
            )
        | inr nothing ↦
            let none_asked : requests mpi (put ++ shmem_quiet g) ≡ [] =
              requests-append mpi put (shmem_quiet g)
              ∙ ap (λ l. l ++ requests mpi (shmem_quiet g)) nothing
              ∙ requests-locals mpi (shmem_quiet g) (quiet-IsLocal mpi g) in
            let (empty, as_run) = asks_nothing mpi ran refl none_asked refl in
            (
              empty,
              as_run
                  ∙ run-append mpi put (shmem_quiet g) m
                  ∙ run-locals mpi (shmem_quiet g) (quiet-IsLocal mpi g) (run mpi put m)
                  ∙ wrote,
            )
      ]

  -- A PE puts `source` to an object that is found, calls shmem_quiet and gets the object into `back`,
  -- through shared memory or through MPI, ordered or not, and for a count that needs a derived type
  -- too. No other PE writes meanwhile. Whenever MPI delivers what the put writes, shmem_quiet can return, and once it has, nothing
  -- is on its way, the put has changed no byte outside the object at the PE, and the get returns and
  -- leaves in `back` the bytes that `source` held.
  pub put_quiet_get :
      (back : ℕ) (m : Memory) (n : Net)
      → Steps mpi
          (performed (oshmpi_put mpi g b target source len pe) ++ shmem_quiet g)
          (at_rest mpi m)
          []
          n
      → ((n' : Net) × Steps mpi
            (performed (oshmpi_put mpi g b target source len pe) ++ shmem_quiet g)
            (at_rest mpi m)
            []
            n')
        × (n.pending ≡ [])
        × ((a : ℕ)
            → (a < remote_address mpi g target pe)
              ⊎ (remote_address mpi g target pe + len * mpi.type_size b ≤ a)
            → n.memory a ≡ m a)
        × ((after : Memory) × (memory_after mpi (oshmpi_get mpi g b back target len pe) n.memory
              ≡ some after)
            × (gather after back (span 0 (len * mpi.type_size b))
                ≡ gather m source (span 0 (len * mpi.type_size b))))
  put_quiet_get back m n ran =
      let size = len * mpi.type_size b in
      let place = remote_address mpi g target pe in
      let (empty, wrote) = put_quiet m n ran in
      (
        (let (n', done, clear) =
              completes mpi (performed (oshmpi_put mpi g b target source len pe) ++ shmem_quiet g)
                _ in
            (n', done)),
        empty,
        λ a out. ap (λ k. k a) wrote ∙ scatter_outside m place 0 size _ a (ground arith),
        (
          _,
          get-reads fits back target n.memory found,
          gather-scatter n.memory back 0 size _ (length-item n.memory place size)
              ∙ ap (λ k. gather k place (span 0 size)) wrote
              ∙ gather-scatter m place 0 size _ (length-item m source size),
        ),
      )
