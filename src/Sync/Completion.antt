-- ===== src/Sync/Completion.antt =====
-- The synchronization of src/shmem-internals.c and src/shmem.c, and shmemx_putmem_ct: which operations on
-- a window may still be on their way to their PE.
use oshmpi.Prelude.{
  ℕ, ◌≡◌, ◌⊎◌, inl, inr, refl, sym, ◌∙◌, Bool, true, false, List, [], ◌∷◌, ◌++◌, arith, ◌==◌,
  Bool-cases, if◌then◌else◌,
}
use oshmpi.Mpi.{
  mpi_byte, Win, sheap_win, etext_win, lock_win, appnum_win, Action, put, accumulate, fetch_and_op,
  compare_and_swap, win_flush, win_flush_all, Outcome, finished, aborted, assert_failed,
}
use oshmpi.Mpi.Library.{Mpi}
use oshmpi.Globals.{Globals}
use oshmpi.Rma.{oshmpi_put}
use oshmpi.Atomic.{oshmpi_add}
use oshmpi.Mpi.{mpi_long}
use oshmpi.Sync.{
  oshmpi_remote_sync, oshmpi_remote_sync_pe, oshmpi_local_sync, shmem_quiet, shmem_fence,
  shmemx_putmem_ct, before_call, and_then,
}

abbrev pub same_win : Win → Win → Bool
same_win sheap_win sheap_win = true
same_win etext_win etext_win = true
same_win lock_win lock_win = true
same_win appnum_win appnum_win = true
same_win _ _ = false

unfoldable pub without : ℕ → List ℕ → List ℕ
without pe [] = []
without pe (p ∷ rest) = let kept = without pe rest in if p == pe then kept else p ∷ kept

-- The PEs that an operation which changes the window `w` is on its way to, behind one more action:
-- an MPI operation starts one, and a flush completes those of its PE or all.
unfoldable pub settle : Win → Action → List ℕ → List ℕ
unfolding without
settle w (put a n t pe d n' t' v) pes = if same_win w v then pe ∷ pes else pes
settle w (accumulate a n t pe d n' t' op v) pes = if same_win w v then pe ∷ pes else pes
settle w (fetch_and_op i o b pe d op v) pes = if same_win w v then pe ∷ pes else pes
settle w (compare_and_swap i c o b pe d v) pes = if same_win w v then pe ∷ pes else pes
settle w (win_flush pe v) pes = if same_win w v then without pe pes else pes
settle w (win_flush_all v) pes = if same_win w v then [] else pes
settle w _ pes = pes

unfoldable pub outstanding : Win → List Action → List ℕ → List ℕ
unfolding settle
outstanding w [] pes = pes
outstanding w (a ∷ rest) pes = outstanding w rest (settle w a pes)

pub outstanding-append :
    (w : Win) (xs ys : List Action) (pes : List ℕ)
    → outstanding w (xs ++ ys) pes ≡ outstanding w ys (outstanding w xs pes)
unfolding outstanding
outstanding-append w [] ys pes = refl
outstanding-append w (a ∷ xs) ys pes = outstanding-append w xs ys (settle w a pes)

quiet_empties :
    (g : Globals) (pes : List ℕ)
    → (outstanding sheap_win (shmem_quiet g) pes ≡ [])
      × (outstanding etext_win (shmem_quiet g) pes ≡ [])
unfolding outstanding settle shmem_quiet oshmpi_remote_sync oshmpi_local_sync
quiet_empties g pes = elim (Bool-cases g.smp_optimizations) [
  | inl smp ↦ (rw smp, rw smp)
  | inr plain ↦ (rw plain, rw plain)
]

-- Whatever a PE has done, no operation on the heap or on the static data is on its way behind a
-- quiet.
pub quiet_completes :
    (g : Globals) (done : List Action) (pes : List ℕ)
    → (outstanding sheap_win (done ++ shmem_quiet g) pes ≡ [])
      × (outstanding etext_win (done ++ shmem_quiet g) pes ≡ [])
quiet_completes g done pes = (
  outstanding-append sheap_win done (shmem_quiet g) pes ∙ (quiet_empties g _).0,
  outstanding-append etext_win done (shmem_quiet g) pes ∙ (quiet_empties g _).1,
)

-- Without the build option that orders transfers, a fence performs the actions of a quiet; with it,
-- a fence completes nothing, and leaves each operation as it is.
pub fence_quiets :
    (g : Globals)
    → ((g.rma_ordering ≡ false) × (shmem_fence g ≡ shmem_quiet g))
      ⊎ ((g.rma_ordering ≡ true)
          × ((w : Win) (pes : List ℕ) → outstanding w (shmem_fence g) pes ≡ pes))
unfolding shmem_fence shmem_quiet outstanding settle oshmpi_local_sync
fence_quiets g = elim (Bool-cases g.rma_ordering) [
  | inr weak ↦ inl (weak, rw weak)
  | inl ordered ↦ inr (
    ordered,
    λ w pes. elim (Bool-cases g.smp_optimizations) [
      | inl smp ↦ rw (ordered, smp)
      | inr plain ↦ rw (ordered, plain)
    ],
  )
]

abbrev pub Holds : ℕ → List ℕ → Type 0
Holds pe [] = ⊥
Holds pe (p ∷ rest) = (p ≡ pe) ⊎ Holds pe rest

without-Holds : (pe : ℕ) (pes : List ℕ) → ¬ Holds pe (without pe pes)
unfolding without
without-Holds pe [] h = h
without-Holds pe (p ∷ rest) h = elim (Bool-cases (p == pe)) [
  | inl same ↦ without-Holds pe rest (rw same at h)
  | inr other ↦ elim (rw other at h) as (λ _. ⊥) [
    | inl here ↦ ground arith
    | inr later ↦ without-Holds pe rest later
  ]
]

flushes :
    (pe : ℕ) (pes : List ℕ)
    → (outstanding sheap_win (oshmpi_remote_sync_pe pe) pes ≡ without pe pes)
      × (outstanding etext_win (oshmpi_remote_sync_pe pe) pes ≡ without pe pes)
unfolding outstanding settle oshmpi_remote_sync_pe
flushes pe pes = (refl, refl)

flushed :
    (w : Win) (sent : List Action) (pe : ℕ)
    → ((pes : List ℕ) → outstanding w (oshmpi_remote_sync_pe pe) pes ≡ without pe pes)
    → (pes : List ℕ) → ¬ Holds pe (outstanding w (sent ++ oshmpi_remote_sync_pe pe) pes)
flushed w sent pe by pes h = without-Holds pe (outstanding w sent pes) (
    rw (outstanding-append w sent (oshmpi_remote_sync_pe pe) pes, by (outstanding w sent pes)) at h)

returned :
    (o p : Outcome) (mid done : List Action)
    → and_then o (before_call mid p) ≡ finished done
    → (sent added : List Action) × (o ≡ finished sent)
      × (p ≡ finished added)
      × (done ≡ sent ++ (mid ++ added))
returned (finished s) (finished a) mid done is =
    let same : s ++ (mid ++ a) ≡ done = cc in (s, a, refl, refl, sym same)
returned (finished s) (aborted c a) mid done is = absurd (cc)
returned (finished s) (assert_failed a) mid done is = absurd (cc)
returned (aborted c s) p mid done is = absurd (cc)
returned (assert_failed s) p mid done is = absurd (cc)

module _ (mpi : Mpi) (g : Globals) where
  -- A counting put that returns has first put the bytes, then completed its PE on both windows, and
  -- only then added to the counter: whatever was on its way before, nothing is on its way to the
  -- PE when the add is made.
  pub putmem_ct_order :
      (ct target source len pe one : ℕ) (done : List Action)
      → shmemx_putmem_ct mpi g ct target source len pe one ≡ finished done
      → (sent added : List Action) × (oshmpi_put mpi g mpi_byte target source len pe
          ≡ finished sent)
        × (oshmpi_add g mpi_long ct one pe ≡ finished added)
        × (done ≡ sent ++ (oshmpi_remote_sync_pe pe ++ added))
        × ((pes : List ℕ)
            → (¬ Holds pe (outstanding sheap_win (sent ++ oshmpi_remote_sync_pe pe) pes))
              × (¬ Holds pe (outstanding etext_win (sent ++ oshmpi_remote_sync_pe pe) pes)))
  unfolding shmemx_putmem_ct
  putmem_ct_order ct target source len pe one done is =
      let (sent, added, put_done, add_done, order) =
        returned _ _ (oshmpi_remote_sync_pe pe) done is in
      (
        sent,
        added,
        put_done,
        add_done,
        order,
        λ pes. (
          flushed sheap_win sent pe (λ l. (flushes pe l).0) pes,
          flushed etext_win sent pe (λ l. (flushes pe l).1) pes,
        ),
      )
