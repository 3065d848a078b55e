-- ===== src/Sync/Overtaken.antt =====
-- shmem_fence of src/shmem.c in a build with ENABLE_RMA_ORDERING: what MPI's order of accumulates does
-- not give.
use mathlib.Core.Path.{subst}
use oshmpi.Prelude.{◌≡◌, inl, inr, refl, sym, true, false, [], ◌∷◌, ◌++◌, ◌&&◌, Bool-cases}
use oshmpi.Mpi.{sheap_win, etext_win}
use oshmpi.Mpi.Memory.{
  Memory, span, gather, gather-scatter, Apart, Apart-Misses, gather-scatter_apart,
}
use oshmpi.Mpi.Library.{Mpi, run}
use oshmpi.Mpi.Network.{request_of, deliver, started, Net, All, delivers, Steps, here}
use oshmpi.Mpi.Network.Runs.{Steps-then, Steps-last}
use oshmpi.Mpi.Network.Local.{IsQuick, quick_steps}
use oshmpi.Mpi.Network.Message.{at_rest}
use oshmpi.Globals.{Globals}
use oshmpi.Window.{window_of}
use oshmpi.Rma.RoundTrip.{length-item}
use oshmpi.Rma.Pending.{put_request}
use oshmpi.Sync.{oshmpi_local_sync, shmem_fence}
use oshmpi.Sync.Puts.{PutCall, size_of, place_of, put_all, IsReady, asks_of}

module _ (mpi : Mpi) (g : Globals) where
  local_sync-IsQuick : All (IsQuick mpi) (oshmpi_local_sync g)
  unfolding oshmpi_local_sync request_of run
  local_sync-IsQuick = elim (Bool-cases g.smp_optimizations) [
    | inl smp ↦ rw smp (
      ((refl, λ m. refl), λ us. tt),
      (
        ((refl, λ m. mpi.effect-win_sync sheap_win m), λ us. tt),
        (((refl, λ m. mpi.effect-win_sync etext_win m), λ us. tt), tt),
      ),
    )
    | inr plain ↦ rw plain (
      ((refl, λ m. mpi.effect-win_sync sheap_win m), λ us. tt),
      (((refl, λ m. mpi.effect-win_sync etext_win m), λ us. tt), tt),
    )
  ]

  -- In a build that orders transfers, a PE across nodes puts an object, calls shmem_fence and puts
  -- another, both found and apart from each other at their PEs. Then MPI may deliver the second
  -- put first: a state is reached in which the second object has its new bytes and the first has
  -- its old ones.
  pub fence_overtaken :
      (g.smp_optimizations && g.shmem_world_is_smp) ≡ false
      → g.rma_ordering ≡ true
      → (c d : PutCall) → IsReady mpi g c
      → IsReady mpi g d
      → Apart (place_of mpi g c) (size_of mpi g c) (place_of mpi g d) (size_of mpi g d)
      → (m : Memory)
      → (n : Net) × Steps mpi
          ((put_all mpi g (c ∷ []) ++ shmem_fence g) ++ put_all mpi g (d ∷ []))
          (at_rest mpi m)
          []
          n
        × (gather n.memory (place_of mpi g d) (span 0 (size_of mpi g d))
            ≡ gather m d.source (span 0 (size_of mpi g d)))
        × (gather n.memory (place_of mpi g c) (span 0 (size_of mpi g c))
            ≡ gather m (place_of mpi g c) (span 0 (size_of mpi g c)))
  unfolding shmem_fence put_all deliver
  fence_overtaken across ordered c d ready ready_d apart m =
      let a = asks_of mpi g across c ready in
      let b = asks_of mpi g across d ready_d in
      let first = put_request mpi g c.type c.target c.source c.len c.pe (window_of a.win) in
      let second = put_request mpi g d.type d.target d.source d.len d.pe (window_of b.win) in
      let as_local : shmem_fence g ≡ oshmpi_local_sync g = rw ordered refl in
      let puts_first =
        Steps-then mpi (a.single.start (at_rest mpi m)) refl
          (here {n = record { memory = m; pending = started first m ∷ [] }}) in
      let fences =
        Steps-then mpi puts_first refl
          (quick_steps mpi (oshmpi_local_sync g) _ local_sync-IsQuick) in
      let puts_both = Steps-then mpi fences refl (Steps-then mpi (b.single.start _) refl here) in
      (
        record { memory = deliver (started second m) m; pending = started first m ∷ [] },
        subst
            (λ l.
              Steps mpi ((put_all mpi g (c ∷ []) ++ l) ++ put_all mpi g (d ∷ [])) (at_rest mpi m) []
                (record { memory = deliver (started second m) m; pending = started first m ∷ [] }))
            (sym as_local)
            (Steps-last mpi puts_both (
              delivers (started first m ∷ []) (started second m) [] refl (
                inr (
                    inr (λ x.
                      Apart-Misses (place_of mpi g c) (size_of mpi g c) (place_of mpi g d)
                        (size_of mpi g d) x apart)),
                tt,
              ))),
        gather-scatter m (place_of mpi g d) 0 (size_of mpi g d) _
            (length-item m d.source (size_of mpi g d)),
        gather-scatter_apart m (place_of mpi g c) (size_of mpi g c) (place_of mpi g d)
            (size_of mpi g d) _ apart,
      )
