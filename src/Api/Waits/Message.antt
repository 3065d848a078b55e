-- ===== src/Api/Waits/Message.antt =====
-- shmemx_putmem_ct and shmemx_ct_wait of src/shmemx-counting-put.c together, when MPI delivers what the
-- put writes at any time.
use oshmpi.Prelude.{
  ℕ, ◌+◌, ◌*◌, ◌<◌, ◌≡◌, ◌≢◌, ◌⊎◌, inl, inr, sym, ap, ◌∙◌, true, false, some, List, ◌&&◌,
  Bool-cases,
}
use oshmpi.Prelude.Int.{ℤ, eqb_ℤ}
use oshmpi.Mpi.{mpi_byte, mpi_long, sheap_win, Action}
use oshmpi.Mpi.Memory.{Memory, span, gather, Apart}
use oshmpi.Mpi.Library.{Mpi, run}
use oshmpi.Mpi.Network.{Net, Steps}
use oshmpi.Mpi.Network.Message.{at_rest}
use oshmpi.Globals.{Globals}
use oshmpi.Window.Lookup.{InSheap, InEtext}
use oshmpi.Rma.Places.{Fits, remote_address}
use oshmpi.Rma.Pending.{performed}
use oshmpi.Atomic.Paths.{load}
use oshmpi.Sync.{shmemx_ct_get, shmemx_putmem_ct}
use oshmpi.Sync.Counted.{ct_get_value}
use oshmpi.Sync.Message.{putmem_ct_separates}
use oshmpi.Wait.{cmp_eq, comp, released, shmemx_ct_wait}
use oshmpi.Wait.Loop.{wait_until_returns, ct_wait-wait_until, eqb_ℤ_eq, eqb_ℤ_refl}
use oshmpi.Api.Waits.{signed}

-- What shmemx_ct_get returns on a memory.
abbrev pub ct_value : Mpi → Globals → (ct output nothing : ℕ) → Memory → ℤ
ct_value mpi g ct output nothing m =
    signed (load mpi mpi_long (run mpi (shmemx_ct_get g ct output nothing) m) output)

comp_eq-same : (a b : ℤ) → a ≡ b → comp cmp_eq a b ≡ some true
unfolding comp
comp_eq-same a b e = rw e (ap some (eqb_ℤ_refl b))

comp_eq-other : (a b : ℤ) → a ≢ b → comp cmp_eq a b ≡ some false
unfolding comp
comp_eq-other a b other = elim (Bool-cases (eqb_ℤ a b)) [
  | inl same ↦ absurd (other (eqb_ℤ_eq a b same))
  | inr e ↦ ap some e
]

module _ (mpi : Mpi) (g : Globals) (ct target source len pe one : ℕ) (m : Memory) where
  -- A memory that there is while a PE makes a counting put and MPI delivers it.
  abbrev pub IsOnTheWay : Memory → Type 0
  IsOnTheWay k =
      (p : List Action) × (n : Net) × Steps mpi
        (performed (shmemx_putmem_ct mpi g ct target source len pe one)) (at_rest mpi m) p n
      × (k ≡ n.memory)

  -- A PE across nodes makes a counting put to an object and with a counter that are found and apart
  -- from each other, the counter in the heap of the PE there. That PE waits with shmemx_ct_wait for
  -- a value that the counter did not have. The turns of the wait find memories that there are
  -- meanwhile, in whatever order MPI delivers the writes, and the first turn at which shmemx_ct_get
  -- returns the value is number `last`, counted from 0. Then the wait returns at that turn, given
  -- more turns than `last`, and the object already has the bytes of the source.
  pub ct_wait_sees_object :
      (g.smp_optimizations && g.shmem_world_is_smp) ≡ false
      → Fits mpi g pe mpi_byte len
      → InSheap g target ⊎ InEtext g target
      → InSheap g ct ⊎ InEtext g ct
      → Apart
          (remote_address mpi g target pe)
          (len * mpi.type_size mpi_byte)
          (remote_address mpi g ct pe)
          (mpi.type_size mpi_long)
      → (g' : Globals) (ct' output nothing : ℕ) → g'.shmem_world_rank ≡ pe
      → mpi.base sheap_win pe ≡ g'.shmem_sheap_base_ptr
      → InSheap g' ct'
      → ct' ≡ remote_address mpi g ct pe
      → (seen : ℕ → Memory) → ((i : ℕ) → IsOnTheWay (seen i))
      → (value : ℤ) → signed (load mpi mpi_long m ct') ≢ value
      → (last : ℕ) → ((i : ℕ) → i < last → ct_value mpi g' ct' output nothing (seen i) ≢ value)
      → ct_value mpi g' ct' output nothing (seen last) ≡ value
      → (fuel : ℕ) → last < fuel
      → (shmemx_ct_wait (λ i. ct_value mpi g' ct' output nothing (seen i)) value fuel
          ≡ released (last + 1) value)
        × (gather
              (seen last)
              (remote_address mpi g target pe)
              (span 0 (len * mpi.type_size mpi_byte))
            ≡ gather m source (span 0 (len * mpi.type_size mpi_byte)))
  ct_wait_sees_object across fits found found_ct apart g' ct' output nothing at_pe own heap same
        seen way value at_first last before at_last fuel enough =
      let observe : ℕ → ℤ = λ i. ct_value mpi g' ct' output nothing (seen i) in
      let own' : mpi.base sheap_win g'.shmem_world_rank ≡ g'.shmem_sheap_base_ptr =
        ap (mpi.base sheap_win) at_pe ∙ own in
      let read : observe last ≡ signed (load mpi mpi_long (seen last) ct') =
        ap signed (ct_get_value mpi g' ct' output nothing (seen last) heap own') in
      let (p, n, ran, is) = way last in
      (
        ct_wait-wait_until observe value fuel
            ∙ wait_until_returns observe value cmp_eq last fuel
                (λ j less. comp_eq-other (observe j) value (before j less))
                (comp_eq-same (observe last) value at_last) enough
            ∙ ap (released (last + 1)) at_last,
        elim (putmem_ct_separates mpi g ct target source len pe one across fits found found_ct apart
            m ran) [
              | inl counter_kept ↦
                  let kept : load mpi mpi_long (seen last) ct' ≡ load mpi mpi_long m ct' =
                    ap (λ k. load mpi mpi_long k ct') is
                    ∙ ap (load mpi mpi_long n.memory) same
                    ∙ counter_kept
                    ∙ ap (load mpi mpi_long m) (sym same) in
                  absurd (at_first (ap signed (sym kept) ∙ sym read ∙ at_last))
              | inr there ↦
                  ap
                    (λ k.
                      gather k (remote_address mpi g target pe)
                        (span 0 (len * mpi.type_size mpi_byte)))
                    is
                  ∙ there
            ],
      )
