-- ===== src/Api/Waits/Fenced.antt =====
-- Puts, shmem_fence and a put of a flag, and at the PE of the flag a wait for it: src/shmem.c, when MPI
-- delivers the writes in any order.
use oshmpi.Prelude.{
  ℕ, ◌+◌, ◌<◌, ◌≡◌, ◌⊎◌, inl, inr, ap, ◌∙◌, true, false, some, List, [], ◌∷◌, ◌++◌, ◌&&◌,
  Bool-cases, leb, ltb, arith,
}
use oshmpi.Prelude.Int.{ℤ}
use oshmpi.Mpi.{Action}
use oshmpi.Mpi.Memory.{Memory, span, gather, Apart, Misses-span}
use oshmpi.Mpi.Library.{Mpi, run}
use oshmpi.Mpi.Network.{Net, All, Steps}
use oshmpi.Mpi.Network.Runs.{All-map}
use oshmpi.Mpi.Network.Apart.{gather_same}
use oshmpi.Mpi.Network.Order.{AllPairs}
use oshmpi.Mpi.Network.Message.{at_rest}
use oshmpi.Globals.{Globals}
use oshmpi.Window.Lookup.{InSheap, InEtext}
use oshmpi.Rma.Places.{remote_address}
use oshmpi.Sync.{shmem_fence}
use oshmpi.Sync.Puts.{PutCall, size_of, place_of, put_all, IsReady, DoNotMeet}
use oshmpi.Sync.Fence.{IsOutside, fence_separates}
use oshmpi.Wait.{Cmp, comp, released}
use oshmpi.Api.Waits.{Waitable, wait_type, signed, shmem_type_wait_until}
use oshmpi.Api.Waits.Seen.{value_of, type_wait_until_returns}

module _ (mpi : Mpi) (g : Globals) (cs : List PutCall) (flag : PutCall) (m : Memory) where
  abbrev fenced : List Action
  fenced = (put_all mpi g cs ++ shmem_fence g) ++ put_all mpi g (flag ∷ [])

  -- A memory that there is while a PE makes the puts and MPI delivers them.
  abbrev pub IsMeanwhile : Memory → Type 0
  IsMeanwhile k =
      (p : List Action) × (n : Net) × Steps mpi fenced (at_rest mpi m) p n × (k ≡ n.memory)

  -- The flag is as it was where no byte has changed but the targets of the puts before the fence.
  flag_kept :
      All
        (λ c. Apart (place_of mpi g c) (size_of mpi g c) (place_of mpi g flag) (size_of mpi g flag))
        cs
      → (k : Memory) → ((b : ℕ) → IsOutside mpi g b cs → k b ≡ m b)
      → gather k (place_of mpi g flag) (span 0 (size_of mpi g flag))
        ≡ gather m (place_of mpi g flag) (span 0 (size_of mpi g flag))
  flag_kept apart k kept =
      let place = place_of mpi g flag in
      let size = size_of mpi g flag in
      gather_same k m place (span 0 size) (λ b.
        elim (Bool-cases (leb place b && ltb b (place + size))) [
          | inl inside ↦ inr (kept b (All-map (λ c h. ground (arith, h)) cs apart))
          | inr outside ↦ inl (Misses-span place b 0 size (ground arith))
        ])

  -- In a build that does not order transfers, a PE across nodes makes puts, of which the later do
  -- not read or write what the earlier write, calls shmem_fence and puts a flag, apart from their
  -- targets; all objects are found. The PE of the flag waits on it, with a comparison that does not
  -- hold at first. The turns of the wait find memories that there are meanwhile, in whatever order
  -- MPI delivers the writes, and turn `last`, counted from 0, is the first at which the comparison
  -- holds. Then the wait returns at that turn, given more turns than `last`, and each byte outside
  -- the flag is already as the puts leave it.
  pub wait_sees_fenced :
      (g.smp_optimizations && g.shmem_world_is_smp) ≡ false
      → g.rma_ordering ≡ false
      → All (IsReady mpi g) cs
      → IsReady mpi g flag
      → AllPairs (DoNotMeet mpi g) cs
      → All
          (λ c.
            Apart (place_of mpi g c) (size_of mpi g c) (place_of mpi g flag) (size_of mpi g flag))
          cs
      → (g' : Globals) (u : Waitable) (var temp : ℕ) → InSheap g' var ⊎ InEtext g' var
      → place_of mpi g flag ≡ remote_address mpi g' var g'.shmem_world_rank
      → size_of mpi g flag ≡ mpi.type_size (wait_type u)
      → (seen : ℕ → Memory) → ((i : ℕ) → IsMeanwhile (seen i))
      → (c : Cmp) (v : ℤ) → comp c (value_of mpi g' u var m) v ≡ some false
      → (last : ℕ) → ((i : ℕ) → i < last → comp c (value_of mpi g' u var (seen i)) v ≡ some false)
      → comp c (value_of mpi g' u var (seen last)) v ≡ some true
      → (fuel : ℕ) → last < fuel
      → (shmem_type_wait_until mpi g' u var temp seen c v fuel
          ≡ some (released (last + 1) (value_of mpi g' u var (seen last))))
        × ((b : ℕ) → IsOutside mpi g b (flag ∷ []) → seen last b ≡ run mpi (put_all mpi g cs) m b)
  wait_sees_fenced across free ready ready_flag pairs apart g' u var temp found place size seen way
        c v at_first last before at_last fuel enough =
      let (p, n, ran, is) = way last in
      (
        type_wait_until_returns mpi g' u var found temp seen c v last fuel before at_last enough,
        elim (fence_separates mpi g across free cs (flag ∷ []) ready (ready_flag, tt) pairs m ran) [
          | inl none_came ↦
              let kept = flag_kept apart n.memory none_came in
              let same : value_of mpi g' u var (seen last) ≡ value_of mpi g' u var m =
                ap (value_of mpi g' u var) is ∙ ap signed (rw (← place, ← size) kept) in
              absurd (cc)
          | inr all_came ↦ λ b out. ap (λ k. k b) is ∙ all_came b out
        ],
      )
