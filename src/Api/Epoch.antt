-- ===== src/Api/Epoch.antt =====
-- Puts of all PEs of a job and then shmem_barrier_all of src/shmem.c, when the PEs' steps interleave and
-- MPI delivers what they write in any order.
use mathlib.Core.Path.{subst}
use oshmpi.Prelude.{ℕ, ◌<◌, ◌≡◌, ◌≢◌, refl, sym, ap, ◌∙◌, false, List, [], ◌++◌, ◌&&◌, append-nil}
use oshmpi.Mpi.{Action}
use oshmpi.Mpi.Memory.{Memory, Apart, Apart-Misses}
use oshmpi.Mpi.Library.{Mpi, run}
use oshmpi.Mpi.Network.{requests, Net, All, Steps}
use oshmpi.Mpi.Network.Runs.{All-append, requests-append}
use oshmpi.Mpi.Network.Order.{IsPlain, AllPairs}
use oshmpi.Mpi.Network.Local.{locals-IsPlain, requests-locals}
use oshmpi.Mpi.Network.Frame.{IsMissed}
use oshmpi.Mpi.Network.Message.{at_rest}
use oshmpi.Mpi.Fabric.{Fabric, begin, Turns, AllDone}
use oshmpi.Mpi.Fabric.Project.{Clear, Clear-Stays, Turns-RunsAlone, can_finish}
use oshmpi.Globals.{Globals}
use oshmpi.Window.{window_of}
use oshmpi.Rma.Pending.{put_request}
use oshmpi.Sync.{shmem_quiet}
use oshmpi.Sync.Puts.{
  PutCall, size_of, place_of, put_all, IsReady, DoNotMeet, asks-All, put_all-IsPlain,
}
use oshmpi.Sync.Delivery.{quiet-IsLocal, quiet_delivers}
use oshmpi.Sync.Fence.{IsOutside, outside-IsMissed}
use oshmpi.Api.Group.{barrier_all}

module _ (mpi : Mpi) where
  -- The put `d` of one PE writes nothing that the put `c` of another reads or writes.
  abbrev pub IsClear : (g h : Globals) → PutCall → PutCall → Type 0
  IsClear g h c d =
      Apart (place_of mpi g c) (size_of mpi g c) (place_of mpi h d) (size_of mpi h d)
      × Apart c.source (size_of mpi g c) (place_of mpi h d) (size_of mpi h d)

  -- What a PE does before it enters MPI_Barrier.
  abbrev pub epoch : Globals → List PutCall → List Action
  epoch g cs = put_all mpi g cs ++ (barrier_all g).0

  epoch_quiet : (g : Globals) (cs : List PutCall) → epoch g cs ≡ put_all mpi g cs ++ shmem_quiet g
  unfolding barrier_all shmem_quiet
  epoch_quiet g cs = refl

  requests-epoch :
      (g : Globals) (cs : List PutCall)
      → requests mpi (epoch g cs) ≡ requests mpi (put_all mpi g cs)
  requests-epoch g cs =
      ap (requests mpi) (epoch_quiet g cs)
      ∙ requests-append mpi (put_all mpi g cs) (shmem_quiet g)
      ∙ ap (λ l. requests mpi (put_all mpi g cs) ++ l)
          (requests-locals mpi (shmem_quiet g) (quiet-IsLocal mpi g))
      ∙ append-nil (requests mpi (put_all mpi g cs))

module _ (mpi : Mpi) (size : ℕ) (g : ℕ → Globals)
    (across : (i : ℕ) → i < size → ((g i).smp_optimizations && (g i).shmem_world_is_smp) ≡ false)
    (puts : ℕ → List PutCall) (ready : (i : ℕ) → i < size → All (IsReady mpi (g i)) (puts i)) where
  abbrev programs : ℕ → List Action
  programs i = epoch mpi (g i) (puts i)

  epoch-IsPlain : (i : ℕ) → i < size → All (IsPlain mpi) (programs i)
  epoch-IsPlain i less = subst (All (IsPlain mpi)) (sym (epoch_quiet mpi (g i) (puts i))) (
      All-append (IsPlain mpi) (put_all mpi (g i) (puts i)) (shmem_quiet (g i))
        (put_all-IsPlain mpi (g i) (across i less) (puts i) (ready i less))
        (locals-IsPlain mpi (shmem_quiet (g i)) (quiet-IsLocal mpi (g i))))

  Clear-requests :
      (i j : ℕ)
      → i < size
      → j < size
      → All (λ c. All (IsClear mpi (g i) (g j) c) (puts j)) (puts i)
      → All (λ r. All (Clear r) (requests mpi (programs j))) (requests mpi (programs i))
  Clear-requests i j less less_j clear =
      subst (λ l. All (λ r. All (Clear r) (requests mpi (programs j))) l)
        (sym (requests-epoch mpi (g i) (puts i)))
        (subst (λ l. All (λ r. All (Clear r) l) (requests mpi (put_all mpi (g i) (puts i))))
          (sym (requests-epoch mpi (g j) (puts j)))
          (asks-All mpi (g i) (across i less) (λ c. All (IsClear mpi (g i) (g j) c) (puts j))
            (λ r. All (Clear r) (requests mpi (put_all mpi (g j) (puts j))))
            (λ c w known h.
              asks-All mpi (g j) (across j less_j) (IsClear mpi (g i) (g j) c)
                (Clear (put_request mpi (g i) c.type c.target c.source c.len c.pe (window_of w)))
                (λ d v known_d (there, from). (
                  λ b.
                      Apart-Misses (place_of mpi (g i) c) (size_of mpi (g i) c)
                        (place_of mpi (g j) d) (size_of mpi (g j) d) b there,
                  λ b.
                      Apart-Misses c.source (size_of mpi (g i) c) (place_of mpi (g j) d)
                        (size_of mpi (g j) d) b from,
                ))
                (puts j) (ready j less_j) h)
            (puts i) (ready i less) clear))

  -- Each PE of a job across nodes makes any puts, to any PEs, of objects that are found, and then
  -- calls shmem_barrier_all. No put writes what a put of another PE reads or writes; of the puts of
  -- one PE, the later do not read what the earlier write, and unless transfers are ordered do not
  -- write there. However the PEs' steps and the deliveries of MPI interleave, all PEs can come to
  -- MPI_Barrier, and when a PE has come there, wherever the others are, none of its puts is on its
  -- way, and each byte that no other PE puts to is as the PE's puts alone, made one behind the
  -- other, leave it.
  pub barrier_delivers :
      ((i : ℕ) → i < size → AllPairs (DoNotMeet mpi (g i)) (puts i))
      → ((i j : ℕ)
          → i < size
          → j < size
          → j ≢ i
          → All (λ c. All (IsClear mpi (g i) (g j) c) (puts j)) (puts i))
      → (m : Memory) (s : Fabric) → Turns mpi size (begin programs m) s
      → (i : ℕ) → i < size
      → s.todo i ≡ []
      → ((t : Fabric) × Turns mpi size s t × AllDone size t)
        × (s.pending i ≡ [])
        × ((b : ℕ)
            → ((j : ℕ) → j < size → j ≢ i → IsOutside mpi (g j) b (puts j))
            → s.memory b ≡ run mpi (put_all mpi (g i) (puts i)) m b)
  barrier_delivers pairs clear m s ran i less done =
      let (k, alone, agree) =
        Turns-RunsAlone mpi size programs m epoch-IsPlain
          (λ x is_pe.
            Clear-Stays mpi size programs x
              (λ j less_j other. Clear-requests x j is_pe less_j (clear x j is_pe less_j other)))
          ran i less in
      let mine : Net = record { memory = k; pending = s.pending i } in
      let whole : Steps mpi (put_all mpi (g i) (puts i) ++ shmem_quiet (g i)) (at_rest mpi m) []
          mine =
        subst (λ l. Steps mpi l (at_rest mpi m) [] mine) (epoch_quiet mpi (g i) (puts i))
          (subst (λ l. Steps mpi (programs i) (at_rest mpi m) l mine) done alone) in
      let (can, empty, result) =
        quiet_delivers mpi (g i) (across i less) (puts i) (ready i less) (pairs i less) m mine
          whole in
      (
        can_finish mpi size s,
        empty,
        λ b out.
            sym (
              agree b (λ j less_j other.
                subst (All (IsMissed mpi b)) (sym (requests-epoch mpi (g j) (puts j))) (
                  outside-IsMissed mpi (g j) (across j less_j) b (puts j) (ready j less_j)
                    (out j less_j other))))
            ∙ ap (λ l. l b) result,
      )
