-- ===== src/Sync/Delivery.antt =====
-- Puts of src/shmem.c and then shmem_quiet, when MPI delivers what they write in any order.
use oshmpi.Prelude.{◌≡◌, ◌≢◌, inl, inr, refl, sym, false, List, [], ◌∷◌, ◌++◌, ◌&&◌, Bool-cases}
use mathlib.Core.Path.{subst}
use oshmpi.Mpi.{sheap_win, etext_win, win_flush_all}
use oshmpi.Mpi.Memory.{Memory}
use oshmpi.Mpi.Library.{Mpi, run}
use oshmpi.Mpi.Network.{request_of, requests, Write, Net, All, Steps}
use oshmpi.Mpi.Network.Runs.{Steps-parts, Steps-All, completes}
use oshmpi.Mpi.Network.Order.{AllPairs}
use oshmpi.Mpi.Network.Local.{IsLocal, requests-locals, delivered}
use oshmpi.Mpi.Network.Frame.{waits_for}
use oshmpi.Globals.{Globals}
use oshmpi.Sync.{oshmpi_remote_sync, oshmpi_local_sync, shmem_quiet}
use oshmpi.Sync.Puts.{
  IsKnown, PutCall, put_all, IsReady, DoNotMeet, asks-AllPairs, asks-IsKnown, put_all-IsPlain,
}

module _ (mpi : Mpi) (g : Globals) where
  pub quiet-IsLocal : All (IsLocal mpi) (shmem_quiet g)
  unfolding shmem_quiet oshmpi_remote_sync oshmpi_local_sync request_of run
  quiet-IsLocal = elim (Bool-cases g.smp_optimizations) [
    | inl smp ↦ rw smp (
      (refl, λ m. mpi.effect-flush_all sheap_win m),
      (
        (refl, λ m. mpi.effect-flush_all etext_win m),
        (
          (refl, λ m. refl),
          (
            (refl, λ m. mpi.effect-win_sync sheap_win m),
            ((refl, λ m. mpi.effect-win_sync etext_win m), tt),
          ),
        ),
      ),
    )
    | inr plain ↦ rw plain (
      (refl, λ m. mpi.effect-flush_all sheap_win m),
      (
        (refl, λ m. mpi.effect-flush_all etext_win m),
        (
          (refl, λ m. mpi.effect-win_sync sheap_win m),
          ((refl, λ m. mpi.effect-win_sync etext_win m), tt),
        ),
      ),
    )
  ]

  none_left :
      (us : List Write)
      → All (λ u. IsKnown u.request) us
      → All (λ u. u.request.win ≢ sheap_win) us
      → All (λ u. u.request.win ≢ etext_win) us
      → us ≡ []
  none_left [] known h k = refl
  none_left (u ∷ us) known h k = elim known.0 [ inl e ↦ absurd (h.0 e) | inr e ↦ absurd (k.0 e) ]

  -- Nothing is pending behind a quiet.
  pub quiet_clears :
      {n n' : Net}
      → Steps mpi (shmem_quiet g) n [] n'
      → All (λ u. IsKnown u.request) n.pending
      → n'.pending ≡ []
  unfolding shmem_quiet oshmpi_remote_sync request_of
  quiet_clears {n} {n'} ran known =
      let rest = oshmpi_local_sync g in
      let locals = quiet-IsLocal in
      let asks_none : requests mpi (win_flush_all etext_win ∷ rest) ≡ [] =
        requests-locals mpi (win_flush_all etext_win ∷ rest) locals.1 in
      let heap_done =
        waits_for mpi (λ r. r.win ≢ sheap_win) (win_flush_all sheap_win)
          (win_flush_all etext_win ∷ rest) ran refl refl refl (λ us h. h)
          (subst (All (λ r. r.win ≢ sheap_win)) (sym asks_none) tt) in
      let static_done : All (λ u. u.request.win ≢ etext_win) n'.pending =
        let (mid, first, second) =
          Steps-parts mpi (win_flush_all sheap_win ∷ []) (win_flush_all etext_win ∷ rest) ran in
        waits_for mpi (λ r. r.win ≢ etext_win) (win_flush_all etext_win) rest second refl refl refl
          (λ us h. h)
          (subst (All (λ r. r.win ≢ etext_win)) (sym (requests-locals mpi rest locals.1.1)) tt) in
      let still_known =
        (Steps-All mpi IsKnown ran
          (subst (All IsKnown) (sym (requests-locals mpi (shmem_quiet g) locals)) tt) known).1 in
      none_left n'.pending still_known heap_done static_done

  -- A PE across nodes makes any puts of objects that are found, of which the later do not read what
  -- the earlier write, and unless transfers are ordered do not write there, and then calls
  -- shmem_quiet. In whatever order MPI delivers the writes, when shmem_quiet has returned, as it can,
  -- nothing is on its way and memory is as if each put had taken effect when it was called.
  pub quiet_delivers :
      (g.smp_optimizations && g.shmem_world_is_smp) ≡ false
      → (cs : List PutCall) → All (IsReady mpi g) cs
      → AllPairs (DoNotMeet mpi g) cs
      → (m : Memory) (n' : Net)
      → Steps mpi (put_all mpi g cs ++ shmem_quiet g) (record { memory = m; pending = [] }) [] n'
      → ((n : Net) × Steps mpi
            (put_all mpi g cs ++ shmem_quiet g)
            (record { memory = m; pending = [] })
            []
            n)
        × (n'.pending ≡ [])
        × (n'.memory ≡ run mpi (put_all mpi g cs) m)
  quiet_delivers across cs ready pairs m n' ran =
      let puts = put_all mpi g cs in
      let (mid, first, second) = Steps-parts mpi puts (shmem_quiet g) ran in
      let empty =
        quiet_clears second
          (Steps-All mpi IsKnown first (asks-IsKnown mpi g across cs ready) tt).1 in
      (
        (let (n, done, clear) = completes mpi (puts ++ shmem_quiet g) _ in (n, done)),
        empty,
        delivered mpi puts (shmem_quiet g) (put_all-IsPlain mpi g across cs ready) quiet-IsLocal
            (asks-AllPairs mpi g across cs ready pairs) m n' ran empty,
      )
