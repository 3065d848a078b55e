-- ===== src/Sync/Fence.antt =====
-- shmem_fence of src/shmem.c between puts, when MPI delivers what they write in any order.
use oshmpi.Prelude.{
  ℕ, ◌+◌, ◌≤◌, ◌<◌, ◌≡◌, ◌⊎◌, inl, inr, refl, sym, ap, ◌∙◌, false, List, [], ◌++◌, ◌&&◌, arith,
  append-nil,
}
use mathlib.Core.Path.{subst}
use oshmpi.Mpi.{Action}
use oshmpi.Mpi.Memory.{Memory, Misses-span}
use oshmpi.Mpi.Library.{Mpi, run}
use oshmpi.Mpi.Network.{requests, Net, All, Steps}
use oshmpi.Mpi.Network.Runs.{All-append, requests-append, Steps-parts, Steps-All}
use oshmpi.Mpi.Network.Order.{IsPlain, Keeps, AllPairs}
use oshmpi.Mpi.Network.Local.{IsLocal, locals-IsPlain, requests-locals, completed}
use oshmpi.Mpi.Network.Frame.{IsMissed}
use oshmpi.Mpi.Network.Message.{at_rest, separates}
use oshmpi.Globals.{Globals}
use oshmpi.Sync.{shmem_quiet, shmem_fence}
use oshmpi.Sync.Puts.{
  IsKnown, PutCall, size_of, place_of, put_all, put_all-append, IsReady, DoNotMeet, asks-All,
  asks-AllPairs, asks-IsKnown, put_all-IsPlain,
}
use oshmpi.Sync.Delivery.{quiet-IsLocal, quiet_clears}

module _ (mpi : Mpi) (g : Globals) where
  -- No put of a list writes the byte.
  abbrev pub IsOutside : ℕ → List PutCall → Type 0
  IsOutside b cs = All (λ c. (b < place_of mpi g c) ⊎ (place_of mpi g c + size_of mpi g c ≤ b)) cs

  pub outside-IsMissed :
      (g.smp_optimizations && g.shmem_world_is_smp) ≡ false
      → (b : ℕ) (cs : List PutCall) → All (IsReady mpi g) cs
      → IsOutside b cs
      → All (IsMissed mpi b) (requests mpi (put_all mpi g cs))
  outside-IsMissed across b cs ready out =
      asks-All mpi g across (λ c. (b < place_of mpi g c) ⊎ (place_of mpi g c + size_of mpi g c ≤ b))
        (IsMissed mpi b)
        (λ c w known h. Misses-span (place_of mpi g c) b 0 (size_of mpi g c) (omega (arith, h))) cs
        ready out

  -- Once nothing is on its way behind puts with a fence between them, memory is as if each put had
  -- taken effect when it was called.
  pub fence-delivered :
      (g.smp_optimizations && g.shmem_world_is_smp) ≡ false
      → g.rma_ordering ≡ false
      → (cs ds : List PutCall) → All (IsReady mpi g) cs
      → All (IsReady mpi g) ds
      → AllPairs (DoNotMeet mpi g) (cs ++ ds)
      → (m : Memory) {n : Net}
      → Steps mpi ((put_all mpi g cs ++ shmem_fence g) ++ put_all mpi g ds) (at_rest mpi m) [] n
      → n.pending ≡ []
      → n.memory ≡ run mpi ((put_all mpi g cs ++ shmem_fence g) ++ put_all mpi g ds) m
  unfolding shmem_fence shmem_quiet
  fence-delivered across free cs ds ready ready_ds pairs m {n} ran empty =
      let puts = put_all mpi g cs in
      let later = put_all mpi g ds in
      let as_quiet : shmem_fence g ≡ shmem_quiet g = rw free refl in
      let locals : All (IsLocal mpi) (shmem_fence g) =
        subst (All (IsLocal mpi)) (sym as_quiet) (quiet-IsLocal mpi g) in
      let asks : requests mpi ((puts ++ shmem_fence g) ++ later)
          ≡ requests mpi (put_all mpi g (cs ++ ds)) =
        requests-append mpi (puts ++ shmem_fence g) later
        ∙ ap (λ l. l ++ requests mpi later)
            (requests-append mpi puts (shmem_fence g)
              ∙ ap (λ l. requests mpi puts ++ l) (requests-locals mpi (shmem_fence g) locals)
              ∙ append-nil (requests mpi puts))
        ∙ sym (requests-append mpi puts later)
        ∙ ap (requests mpi) (sym (put_all-append mpi g cs ds)) in
      completed mpi ran
        (All-append (IsPlain mpi) (puts ++ shmem_fence g) later
          (All-append (IsPlain mpi) puts (shmem_fence g) (put_all-IsPlain mpi g across cs ready)
            (locals-IsPlain mpi (shmem_fence g) locals))
          (put_all-IsPlain mpi g across ds ready_ds))
        (subst (AllPairs Keeps) (sym asks) (
          asks-AllPairs mpi g across (cs ++ ds) (All-append (IsReady mpi g) cs ds ready ready_ds)
            pairs))
        empty

  -- A PE across nodes makes puts, calls shmem_fence in a build that does not order transfers, and
  -- makes more puts, all of objects that are found; of the puts before the fence, the later do not
  -- read or write what the earlier write. In every state that is reached, in whatever order MPI
  -- delivers the writes, either no byte has changed but targets of the puts before the fence, or
  -- these have all taken effect: then each byte that is no target of the puts behind the fence is
  -- as the puts before leave it.
  pub fence_separates :
      (g.smp_optimizations && g.shmem_world_is_smp) ≡ false
      → g.rma_ordering ≡ false
      → (cs ds : List PutCall) → All (IsReady mpi g) cs
      → All (IsReady mpi g) ds
      → AllPairs (DoNotMeet mpi g) cs
      → (m : Memory) {p : List Action} {n : Net}
      → Steps mpi ((put_all mpi g cs ++ shmem_fence g) ++ put_all mpi g ds) (at_rest mpi m) p n
      → ((b : ℕ) → IsOutside b cs → n.memory b ≡ m b)
        ⊎ ((b : ℕ) → IsOutside b ds → n.memory b ≡ run mpi (put_all mpi g cs) m b)
  unfolding shmem_fence shmem_quiet
  fence_separates across free cs ds ready ready_ds pairs m {p} {n} ran =
      let as_quiet : shmem_fence g ≡ shmem_quiet g = rw free refl in
      let ran' : Steps mpi ((put_all mpi g cs ++ shmem_quiet g) ++ put_all mpi g ds) (at_rest mpi m)
          p n =
        subst (λ l. Steps mpi ((put_all mpi g cs ++ l) ++ put_all mpi g ds) (at_rest mpi m) p n)
          as_quiet ran in
      elim (separates mpi m (put_all mpi g cs) (shmem_quiet g) (put_all mpi g ds)
        (put_all-IsPlain mpi g across cs ready) (quiet-IsLocal mpi g)
        (put_all-IsPlain mpi g across ds ready_ds) (asks-AllPairs mpi g across cs ready pairs)
        (λ k done.
          let (mid, first, second) = Steps-parts mpi (put_all mpi g cs) (shmem_quiet g) done in
          quiet_clears mpi g second
            (Steps-All mpi IsKnown first (asks-IsKnown mpi g across cs ready) tt).1)
        ran') [
          | inl before ↦ inl (λ b out. before b (outside-IsMissed across b cs ready out))
          | inr behind ↦ inr (λ b out. behind b (outside-IsMissed across b ds ready_ds out))
        ]
