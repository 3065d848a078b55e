-- ===== src/Sync/Counted.antt =====
-- shmemx_putmem_ct and shmemx_ct_get of src/shmemx-counting-put.c on memory: the bytes that are put, and
-- the count that the PE reads.
use mathlib.Core.Option.{some-injective}
use oshmpi.Prelude.{
  ℕ, ◌+◌, ◌-◌, ◌*◌, ◌%◌, ◌^◌, ◌≡◌, ◌⊎◌, inl, inr, refl, ap, sym, ◌∙◌, ◌&&◌, false, some, [], ◌++◌,
  arith, length, Bool-cases,
}
use oshmpi.Prelude.Int.{pos, sub_ℕ}
use oshmpi.Mpi.{mpi_byte, mpi_long, sheap_win, Outcome, finished, aborted, assert_failed}
use oshmpi.Mpi.Memory.{Memory, span, gather, scatter, gather-scatter, Apart, gather-scatter_apart}
use oshmpi.Mpi.Library.{Mpi, run, add_bytes}
use oshmpi.Mpi.Network.{Net, Steps}
use oshmpi.Mpi.Network.Runs.{completes}
use oshmpi.Mpi.Network.Message.{at_rest}
use oshmpi.Globals.{Globals}
use oshmpi.Window.Lookup.{InSheap, InEtext}
use oshmpi.Rma.Places.{Fits, memory_after, remote_address}
use oshmpi.Mpi.Network.Local.{run-append}
use oshmpi.Rma.Pending.{performed, run-performed}
use oshmpi.Rma.Transfer.{put-writes}
use oshmpi.Rma.RoundTrip.{length-item}
use oshmpi.Atomic.Paths.{load, store, add_effect}
use oshmpi.Atomic.Values.{number, length-add_bytes, add_bytes_wraps}
use oshmpi.Sync.{oshmpi_remote_sync_pe, shmemx_ct_get, shmemx_putmem_ct, before_call, and_then}
use oshmpi.Sync.Message.{putmem_ct-delivered}

run-remote_sync_pe : (mpi : Mpi) (pe : ℕ) (m : Memory) → run mpi (oshmpi_remote_sync_pe pe) m ≡ m
unfolding run oshmpi_remote_sync_pe
run-remote_sync_pe mpi pe m = mpi.effect-flush _ _ _ ∙ mpi.effect-flush _ _ _

-- Two calls that return, with completion between them.
after_both :
    (mpi : Mpi) (o p : Outcome) (pe : ℕ) (m₀ m₁ m₂ : Memory)
    → memory_after mpi o m₀ ≡ some m₁
    → memory_after mpi p m₁ ≡ some m₂
    → memory_after mpi (and_then o (before_call (oshmpi_remote_sync_pe pe) p)) m₀ ≡ some m₂
after_both mpi (finished s) (finished a) pe m₀ m₁ m₂ first second =
    let put : run mpi s m₀ ≡ m₁ = some-injective _ _ first in
    ap some (
      run-append mpi s (oshmpi_remote_sync_pe pe ++ a) m₀
      ∙ run-append mpi (oshmpi_remote_sync_pe pe) a (run mpi s m₀)
      ∙ ap (run mpi a) (run-remote_sync_pe mpi pe (run mpi s m₀) ∙ put))
    ∙ second
after_both mpi (finished s) (aborted c a) pe m₀ m₁ m₂ first second = absurd (cc)
after_both mpi (finished s) (assert_failed a) pe m₀ m₁ m₂ first second = absurd (cc)
after_both mpi (aborted c s) p pe m₀ m₁ m₂ first second = absurd (cc)
after_both mpi (assert_failed s) p pe m₀ m₁ m₂ first second = absurd (cc)

-- A read of a counter of the PE's own gives its value, through the builtin or through MPI.
pub ct_get_value :
    (mpi : Mpi) (g : Globals) (ct output nothing : ℕ) (m : Memory)
    → InSheap g ct
    → mpi.base sheap_win g.shmem_world_rank ≡ g.shmem_sheap_base_ptr
    → load mpi mpi_long (run mpi (shmemx_ct_get g ct output nothing) m) output
      ≡ load mpi mpi_long m ct
unfolding shmemx_ct_get run
ct_get_value mpi g ct output nothing m heap own =
    let size = mpi.type_size mpi_long in
    elim (Bool-cases (g.smp_optimizations && g.shmem_world_is_smp)) [
      | inl fast ↦ rw fast (gather-scatter _ output 0 size _ (length-item m ct size))
      | inr slow ↦
          let apart : sub_ℕ ct g.shmem_sheap_base_ptr ≡ pos (ct - g.shmem_sheap_base_ptr) =
            ground arith in
          let place : mpi.base sheap_win g.shmem_world_rank + (ct - g.shmem_sheap_base_ptr) ≡ ct =
            omega (arith, own) in
          rw (slow, apart, mpi.effect-no_op, mpi.effect-flush_local, place)
            (gather-scatter m output 0 size _ (length-item m ct size))
    ]

module _ (mpi : Mpi) (g : Globals) (ct target source len pe one : ℕ) where
  abbrev bytes : ℕ
  bytes = len * mpi.type_size mpi_byte

  abbrev long_size : ℕ
  long_size = mpi.type_size mpi_long

  abbrev there : ℕ
  there = remote_address mpi g target pe

  abbrev counter : ℕ
  counter = remote_address mpi g ct pe

  -- The memory as if each write took effect when it is called.
  putmem_ct_run :
      Fits mpi g pe mpi_byte len
      → InSheap g target ⊎ InEtext g target
      → InSheap g ct ⊎ InEtext g ct
      → Apart there bytes counter long_size
      → Apart one long_size there bytes
      → (g' : Globals) (ct' output nothing : ℕ) → g'.shmem_world_rank ≡ pe
      → mpi.base sheap_win pe ≡ g'.shmem_sheap_base_ptr
      → InSheap g' ct'
      → ct' ≡ counter
      → (m : Memory)
      → (m' : Memory) × (memory_after mpi (shmemx_putmem_ct mpi g ct target source len pe one) m
          ≡ some m')
        × (gather m' there (span 0 bytes) ≡ gather m source (span 0 bytes))
        × (number (load mpi mpi_long (run mpi (shmemx_ct_get g' ct' output nothing) m') output)
            ≡ (number (load mpi mpi_long m counter) + number (load mpi mpi_long m one))
              % 256 ^ long_size)
  unfolding shmemx_putmem_ct
  putmem_ct_run fits found found_ct apart one_apart g' ct' output nothing at_pe own heap same m =
      let put = scatter m there (span 0 bytes) (gather m source (span 0 bytes)) in
      let old = load mpi mpi_long put counter in
      let input = load mpi mpi_long put one in
      let sum = add_bytes 0 old input in
      let lengths : length old ≡ length input =
        length-item put counter long_size ∙ sym (length-item put one long_size) in
      let sum_length : length sum ≡ long_size =
        length-add_bytes 0 old input lengths ∙ length-item put counter long_size in
      let counted = store mpi mpi_long put counter sum in
      let own' : mpi.base sheap_win g'.shmem_world_rank ≡ g'.shmem_sheap_base_ptr =
        ap (mpi.base sheap_win) at_pe ∙ own in
      (
        counted,
        after_both mpi _ _ pe m put counted (put-writes fits target source m found)
            (add_effect fits.shared mpi_long refl ct found_ct put one),
        gather-scatter_apart put there bytes counter long_size sum apart
            ∙ gather-scatter m there 0 bytes _ (length-item m source bytes),
        ap number (
              ct_get_value mpi g' ct' output nothing counted heap own'
              ∙ ap (load mpi mpi_long counted) same
              ∙ gather-scatter put counter 0 long_size sum sum_length)
            ∙ add_bytes_wraps old input lengths
            ∙ ap (λ n. (number old + number input) % 256 ^ n) (length-item put counter long_size)
            ∙ ap (λ l. (number l + number input) % 256 ^ long_size)
                (gather-scatter_apart m counter long_size there bytes _ (ground arith))
            ∙ ap (λ l. (number (load mpi mpi_long m counter) + number l) % 256 ^ long_size)
                (gather-scatter_apart m one long_size there bytes _ one_apart),
      )

  -- A PE across nodes makes a counting put to an object and with a counter that are found. The object,
  -- the counter and the parameter that holds 1 are apart from each other, and the counter is in the
  -- heap of the PE that gets the put. No other PE writes meanwhile. Whenever MPI delivers the writes, the put returns and they can
  -- all be delivered. Once they are, the object at the PE has the bytes of the source, and shmemx_ct_get
  -- of the counter at that PE gives one more than the count from before, modulo 2 to the number of bits
  -- of a long.
  pub putmem_ct_counts :
      (g.smp_optimizations && g.shmem_world_is_smp) ≡ false
      → Fits mpi g pe mpi_byte len
      → InSheap g target ⊎ InEtext g target
      → InSheap g ct ⊎ InEtext g ct
      → Apart there bytes counter long_size
      → Apart one long_size there bytes
      → (g' : Globals) (ct' output nothing : ℕ) → g'.shmem_world_rank ≡ pe
      → mpi.base sheap_win pe ≡ g'.shmem_sheap_base_ptr
      → InSheap g' ct'
      → ct' ≡ counter
      → (m : Memory) → number (load mpi mpi_long m one) ≡ 1
      → (n : Net)
      → Steps mpi
          (performed (shmemx_putmem_ct mpi g ct target source len pe one))
          (at_rest mpi m)
          []
          n
      → n.pending ≡ []
      → ((n' : Net) × Steps mpi
            (performed (shmemx_putmem_ct mpi g ct target source len pe one))
            (at_rest mpi m)
            []
            n'
          × (n'.pending ≡ []))
        × ((m' : Memory) × (memory_after mpi (shmemx_putmem_ct mpi g ct target source len pe one) m
              ≡ some m')
            × (n.memory ≡ m'))
        × (gather n.memory there (span 0 bytes) ≡ gather m source (span 0 bytes))
        × (number
              (load mpi mpi_long (run mpi (shmemx_ct_get g' ct' output nothing) n.memory) output)
            ≡ (number (load mpi mpi_long m counter) + 1) % 256 ^ long_size)
  putmem_ct_counts across fits found found_ct apart one_apart g' ct' output nothing at_pe own heap
        same m holds n ran empty =
      let (m', returns, bytes_there, count) =
        putmem_ct_run fits found found_ct apart one_apart g' ct' output nothing at_pe own heap same
          m in
      let after : n.memory ≡ m' =
        putmem_ct-delivered mpi g ct target source len pe one across fits found found_ct apart
          one_apart m ran empty
        ∙ run-performed mpi _ m m' returns in
      (
        completes mpi (performed (shmemx_putmem_ct mpi g ct target source len pe one)) _,
        (m', returns, after),
        rw after bytes_there,
        rw (after, ← holds) count,
      )
