-- ===== src/Sync/Message.antt =====
-- shmemx_putmem_ct of src/shmemx-counting-put.c, when MPI delivers what it writes at any time: the counter
-- never runs ahead of the object.
use mathlib.Core.Path.{subst}
use oshmpi.Prelude.{
  ℕ, ◌*◌, ◌≡◌, ◌≢◌, ◌⊎◌, inl, inr, refl, sym, ap, ◌∙◌, false, some, List, [], ◌∷◌, ◌++◌, ◌&&◌,
  append_assoc,
}
use oshmpi.Mpi.{
  mpi_byte, mpi_long, sheap_win, etext_win, Action, win_flush, Outcome, finished, aborted,
  assert_failed,
}
use oshmpi.Mpi.Memory.{Memory, span, gather, gather-scatter, Apart, Apart-Misses}
use oshmpi.Mpi.Library.{Mpi, run}
use oshmpi.Mpi.Network.{Request, request_of, requests, Write, Net, All, Steps}
use oshmpi.Mpi.Network.Runs.{All-append, requests-append, Steps-parts, Steps-All}
use oshmpi.Mpi.Network.Apart.{gather_same}
use oshmpi.Mpi.Network.Local.{IsLocal, locals-IsPlain, requests-locals, completed}
use oshmpi.Mpi.Network.Order.{IsPlain, AllPairs, Keeps}
use oshmpi.Mpi.Network.Frame.{IsMissed, waits_for}
use oshmpi.Mpi.Network.Message.{at_rest, separates}
use oshmpi.Globals.{Globals}
use oshmpi.Window.{window_of}
use oshmpi.Window.Lookup.{InSheap, InEtext}
use oshmpi.Rma.{oshmpi_put}
use oshmpi.Rma.Places.{Fits, memory_after, remote_address}
use oshmpi.Rma.Transfer.{put-writes}
use oshmpi.Rma.RoundTrip.{length-item}
use oshmpi.Rma.Pending.{performed, run-performed, put_request, put_asks}
use oshmpi.Atomic.{oshmpi_add}
use oshmpi.Atomic.Pending.{add_request, add_asks}
use oshmpi.Sync.{oshmpi_remote_sync_pe, shmemx_putmem_ct, before_call, and_then}
use oshmpi.Sync.Puts.{IsKnown}

-- The actions of two calls, of which the first returns.
performed_both :
    (mpi : Mpi) (o p : Outcome) (mid : List Action) (m m' : Memory)
    → memory_after mpi o m ≡ some m'
    → performed (and_then o (before_call mid p)) ≡ (performed o ++ mid) ++ performed p
performed_both mpi (finished s) (finished a) mid m m' returns = sym (append_assoc s mid a)
performed_both mpi (finished s) (aborted c a) mid m m' returns = sym (append_assoc s mid a)
performed_both mpi (finished s) (assert_failed a) mid m m' returns = sym (append_assoc s mid a)
performed_both mpi (aborted c s) p mid m m' returns = absurd (cc)
performed_both mpi (assert_failed s) p mid m m' returns = absurd (cc)

module _ (mpi : Mpi) (pe : ℕ) where
  remote_sync_pe-IsLocal : All (IsLocal mpi) (oshmpi_remote_sync_pe pe)
  unfolding oshmpi_remote_sync_pe request_of run
  remote_sync_pe-IsLocal = (
    (refl, λ m. mpi.effect-flush pe sheap_win m),
    ((refl, λ m. mpi.effect-flush pe etext_win m), tt),
  )

  -- A write to a window of the library at the PE.
  abbrev IsThere : Request → Type 0
  IsThere r = (r.pe ≡ pe) × IsKnown r

  none_there :
      (us : List Write)
      → All (λ u. IsThere u.request) us
      → All (λ u. (u.request.pe ≢ pe) ⊎ (u.request.win ≢ sheap_win)) us
      → All (λ u. (u.request.pe ≢ pe) ⊎ (u.request.win ≢ etext_win)) us
      → us ≡ []
  none_there [] is_there h k = refl
  none_there (u ∷ us) is_there h k = elim is_there.0.1 [
    | inl heap ↦ elim h.0 [
      | inl other ↦ absurd (other is_there.0.0)
      | inr other ↦ absurd (other heap)
    ]
    | inr static ↦ elim k.0 [
      | inl other ↦ absurd (other is_there.0.0)
      | inr other ↦ absurd (other static)
    ]
  ]

  -- Nothing that went to the PE is pending behind oshmpi_remote_sync_pe.
  sync_pe_clears :
      {n n' : Net}
      → Steps mpi (oshmpi_remote_sync_pe pe) n [] n'
      → All (λ u. IsThere u.request) n.pending
      → n'.pending ≡ []
  unfolding oshmpi_remote_sync_pe request_of requests
  sync_pe_clears {n} {n'} ran is_there =
      let heap_done =
        waits_for mpi (λ r. (r.pe ≢ pe) ⊎ (r.win ≢ sheap_win)) (win_flush pe sheap_win)
          (win_flush pe etext_win ∷ []) ran refl refl refl (λ us h. h) tt in
      let static_done : All (λ u. (u.request.pe ≢ pe) ⊎ (u.request.win ≢ etext_win)) n'.pending =
        let (mid, first, second) =
          Steps-parts mpi (win_flush pe sheap_win ∷ []) (win_flush pe etext_win ∷ []) ran in
        waits_for mpi (λ r. (r.pe ≢ pe) ⊎ (r.win ≢ etext_win)) (win_flush pe etext_win) [] second
          refl refl refl (λ us h. h) tt in
      none_there n'.pending (Steps-All mpi IsThere ran tt is_there).1 heap_done static_done

module _ (mpi : Mpi) (g : Globals) (ct target source len pe one : ℕ) where
  abbrev object : ℕ
  object = remote_address mpi g target pe

  abbrev bytes : ℕ
  bytes = len * mpi.type_size mpi_byte

  abbrev counter : ℕ
  counter = remote_address mpi g ct pe

  abbrev long_size : ℕ
  long_size = mpi.type_size mpi_long

  -- Once nothing is on its way behind a counting put, memory is as if each write had taken effect
  -- when it was called.
  pub putmem_ct-delivered :
      (g.smp_optimizations && g.shmem_world_is_smp) ≡ false
      → Fits mpi g pe mpi_byte len
      → InSheap g target ⊎ InEtext g target
      → InSheap g ct ⊎ InEtext g ct
      → Apart object bytes counter long_size
      → Apart one long_size object bytes
      → (m : Memory) {n : Net}
      → Steps mpi
          (performed (shmemx_putmem_ct mpi g ct target source len pe one))
          (at_rest mpi m)
          []
          n
      → n.pending ≡ []
      → n.memory ≡ run mpi (performed (shmemx_putmem_ct mpi g ct target source len pe one)) m
  unfolding shmemx_putmem_ct
  putmem_ct-delivered across fits found found_ct apart one_apart m {n} ran empty =
      let a = put_asks fits across target source found in
      let (w, known, add) = add_asks mpi g mpi_long ct one pe across found_ct in
      let put = put-writes fits target source m found in
      let puts = performed (oshmpi_put mpi g mpi_byte target source len pe) in
      let adds = performed (oshmpi_add g mpi_long ct one pe) in
      let mid = oshmpi_remote_sync_pe pe in
      let all : performed (shmemx_putmem_ct mpi g ct target source len pe one)
          ≡ (puts ++ mid) ++ adds =
        performed_both mpi _ _ _ m _ put in
      let first = put_request mpi g mpi_byte target source len pe (window_of a.win) in
      let second = add_request mpi g mpi_long ct one pe (window_of w) in
      let asks : requests mpi ((puts ++ mid) ++ adds) ≡ first ∷ second ∷ [] =
        requests-append mpi (puts ++ mid) adds
        ∙ ap (λ l. l ++ requests mpi adds)
            (requests-append mpi puts mid
              ∙ ap (λ l. requests mpi puts ++ l)
                  (requests-locals mpi mid (remote_sync_pe-IsLocal mpi pe)))
        ∙ ap (λ l. (l ++ []) ++ requests mpi adds) a.single.asks
        ∙ ap (λ l. first ∷ l) add.asks in
      let keeps : Keeps first second = (
        inr (λ b. Apart-Misses object bytes counter long_size b apart),
        λ b. Apart-Misses one long_size object bytes b one_apart,
      ) in
      completed mpi ran
        (subst (All (IsPlain mpi)) (sym all) (
          All-append (IsPlain mpi) (puts ++ mid) adds
            (All-append (IsPlain mpi) puts mid a.single.plain
              (locals-IsPlain mpi mid (remote_sync_pe-IsLocal mpi pe)))
            add.plain))
        (subst (AllPairs Keeps) (sym (ap (requests mpi) all ∙ asks)) ((keeps, tt), (tt, tt))) empty

  -- A PE across nodes makes a counting put to an object and with a counter that are found and apart
  -- from each other. In every state that is reached, in whatever order MPI delivers the writes, the
  -- counter is as it was, or the object has the bytes of the source.
  pub putmem_ct_separates :
      (g.smp_optimizations && g.shmem_world_is_smp) ≡ false
      → Fits mpi g pe mpi_byte len
      → InSheap g target ⊎ InEtext g target
      → InSheap g ct ⊎ InEtext g ct
      → Apart object bytes counter long_size
      → (m : Memory) {p : List Action} {n : Net}
      → Steps mpi
          (performed (shmemx_putmem_ct mpi g ct target source len pe one))
          (at_rest mpi m)
          p
          n
      → (gather n.memory counter (span 0 long_size) ≡ gather m counter (span 0 long_size))
        ⊎ (gather n.memory object (span 0 bytes) ≡ gather m source (span 0 bytes))
  unfolding shmemx_putmem_ct
  putmem_ct_separates across fits found found_ct apart m {p} {n} ran =
      let a = put_asks fits across target source found in
      let (w, known, add) = add_asks mpi g mpi_long ct one pe across found_ct in
      let put = put-writes fits target source m found in
      let puts = performed (oshmpi_put mpi g mpi_byte target source len pe) in
      let adds = performed (oshmpi_add g mpi_long ct one pe) in
      let request = put_request mpi g mpi_byte target source len pe (window_of a.win) in
      let ran' : Steps mpi ((puts ++ oshmpi_remote_sync_pe pe) ++ adds) (at_rest mpi m) p n =
        subst (λ l. Steps mpi l (at_rest mpi m) p n) (performed_both mpi _ _ _ m _ put) ran in
      let goes_there : IsThere mpi pe request =
        (refl, elim a.known [ inl e ↦ inl (ap window_of e) | inr e ↦ inr (ap window_of e) ]) in
      elim (separates mpi m puts (oshmpi_remote_sync_pe pe) adds a.single.plain
        (remote_sync_pe-IsLocal mpi pe) add.plain
        (subst (AllPairs Keeps) (sym a.single.asks) (tt, tt))
        (λ k done.
          let (mid, first, second) = Steps-parts mpi puts (oshmpi_remote_sync_pe pe) done in
          sync_pe_clears mpi pe second
            (Steps-All mpi (IsThere mpi pe) first
              (subst (All (IsThere mpi pe)) (sym a.single.asks) (goes_there, tt)) tt).1)
        ran') [
          | inl before ↦ inl (
              gather_same n.memory m counter (span 0 long_size) (λ b.
                elim (Apart-Misses object bytes counter long_size b apart) [
                  | inl miss ↦
                      inr (before b (subst (All (IsMissed mpi b)) (sym a.single.asks) (miss, tt)))
                  | inr miss ↦ inl miss
                ]))
          | inr behind ↦ inr (
              gather_same n.memory (run mpi puts m) object (span 0 bytes) (λ b.
                elim (Apart-Misses object bytes counter long_size b apart) [
                  | inl miss ↦ inl miss
                  | inr miss ↦
                      inr (behind b (subst (All (IsMissed mpi b)) (sym add.asks) (miss, tt)))
                ])
              ∙ ap (λ k. gather k object (span 0 bytes)) (run-performed mpi _ m _ put)
              ∙ gather-scatter m object 0 bytes _ (length-item m source bytes))
        ]
