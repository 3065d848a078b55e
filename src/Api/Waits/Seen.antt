-- ===== src/Api/Waits/Seen.antt =====
-- The waits of src/shmem.c on memory: what the variable holds when a wait returns, and a wait for a
-- value that another PE puts.
use mathlib.Core.Option.{some-injective}
use oshmpi.Prelude.{
  ℕ, ◌+◌, ◌*◌, ◌<◌, ◌≡◌, ◌⊎◌, inl, inr, refl, ap, sym, ◌∙◌, true, false, some, arith,
}
use oshmpi.Prelude.Int.{ℤ, pos}
use oshmpi.Mpi.{Win, sheap_win, etext_win}
use oshmpi.Mpi.Memory.{Memory, gather-scatter}
use oshmpi.Mpi.Library.{Mpi, run}
use oshmpi.Globals.{Globals}
use oshmpi.Window.{window_offset}
use oshmpi.Window.Lookup.{InSheap, InEtext, Sheap-cases, window_offset-sheap, window_offset-etext}
use oshmpi.Rma.{oshmpi_put}
use oshmpi.Rma.Places.{
  Fits, memory_after, remote_address, remote_address-sheap, remote_address-etext,
}
use oshmpi.Rma.Transfer.{put-writes}
use oshmpi.Rma.RoundTrip.{length-item}
use oshmpi.Atomic.Paths.{load}
use oshmpi.Wait.{Cmp, cmp_ne, comp, released, wait_window, shmem_wait_until}
use oshmpi.Wait.Loop.{wait_until_returns, wait_until_sound, wait-wait_until}
use oshmpi.Api.Waits.{
  Waitable, wait_type, signed, wait_read, read_value, shmem_type_wait, shmem_type_wait_until,
}

module _ (mpi : Mpi) (g : Globals) (u : Waitable) (var : ℕ) where
  -- The value of the caller's own variable.
  abbrev pub value_of : Memory → ℤ
  value_of m = signed (load mpi (wait_type u) m (remote_address mpi g var g.shmem_world_rank))

  -- What a put of one item to the place of the variable leaves there.
  put_value :
      {g' : Globals}
      → Fits mpi g' g.shmem_world_rank (wait_type u) 1
      → (target source : ℕ) → InSheap g' target ⊎ InEtext g' target
      → remote_address mpi g' target g.shmem_world_rank
        ≡ remote_address mpi g var g.shmem_world_rank
      → (m m' : Memory)
      → memory_after mpi (oshmpi_put mpi g' (wait_type u) target source 1 g.shmem_world_rank) m
        ≡ some m'
      → value_of m' ≡ signed (load mpi (wait_type u) m source)
  put_value fits target source found same m m' put =
      let size = mpi.type_size (wait_type u) in
      let one : 1 * size ≡ size = omega arith in
      let wrote = some-injective _ _ (sym put ∙ put-writes fits target source m found) in
      rw (wrote, one, same) (ap signed (gather-scatter m _ 0 size _ (length-item m source size)))

  module _ (found : InSheap g var ⊎ InEtext g var) (temp : ℕ) where
    record Watched : Type 0 where
      win : Win
      at : wait_window g var ≡ some win
      reads : (m : Memory) → read_value mpi g u var temp win m ≡ value_of m

    reads_at :
        (win : Win) (d : ℕ) (m : Memory)
        → (window_offset g var g.shmem_world_rank).win_offset ≡ pos d
        → mpi.base win g.shmem_world_rank + d ≡ remote_address mpi g var g.shmem_world_rank
        → read_value mpi g u var temp win m ≡ value_of m
    unfolding read_value wait_read run
    reads_at win d m at place =
        let size = mpi.type_size (wait_type u) in
        rw (at, mpi.effect-no_op, mpi.effect-flush_local)
          (ap signed (
            gather-scatter m temp 0 size _
              (length-item m (mpi.base win g.shmem_world_rank + d) size)
            ∙ rw place refl))

    -- A turn of a wait reads the variable.
    watched : Watched
    unfolding wait_window
    watched = elim (Sheap-cases g var) [
      | inl heap ↦ record {
        win = sheap_win;
        at = rw (wait_window, window_offset-sheap g var g.shmem_world_rank heap) refl;
        reads = λ m.
            reads_at sheap_win _ m (rw (window_offset-sheap g var g.shmem_world_rank heap) refl)
              (sym (remote_address-sheap mpi g var g.shmem_world_rank heap));
      }
      | inr outside ↦
          let static : InEtext g var = ground arith in
          let l = window_offset-etext g var g.shmem_world_rank outside static in
          record {
            win = etext_win;
            at = rw (wait_window, l) refl;
            reads = λ m.
                reads_at etext_win _ m (rw l refl)
                  (sym (remote_address-etext mpi g var g.shmem_world_rank outside));
          }
    ]

    module _ (moments : ℕ → Memory) where
      until_watched :
          (c : Cmp) (v : ℤ) (fuel : ℕ)
          → shmem_type_wait_until mpi g u var temp moments c v fuel
            ≡ some (
                shmem_wait_until
                  (λ i. read_value mpi g u var temp watched.win (moments i))
                  v
                  c
                  fuel)
      unfolding shmem_type_wait_until
      until_watched c v fuel = rw (shmem_type_wait_until, watched.at) refl

      -- A wait of any type on a variable that is found returns at the first turn at which the
      -- variable satisfies the comparison, with the value that the variable then has, given fuel
      -- for that turn.
      pub type_wait_until_returns :
          (c : Cmp) (v : ℤ) (n fuel : ℕ)
          → ((j : ℕ) → j < n → comp c (value_of (moments j)) v ≡ some false)
          → comp c (value_of (moments n)) v ≡ some true
          → n < fuel
          → shmem_type_wait_until mpi g u var temp moments c v fuel
            ≡ some (released (n + 1) (value_of (moments n)))
      type_wait_until_returns c v n fuel before last enough =
          until_watched c v fuel
          ∙ ap some (
              wait_until_returns _ v c n fuel
                (λ j less. rw (watched.reads (moments j)) (before j less))
                (rw (watched.reads (moments n)) last) enough
              ∙ ap (released (n + 1)) (watched.reads (moments n)))

      -- A wait of any type on a variable that is found returns only at a turn at which the variable
      -- satisfies the comparison, with the value that it then has, and at no earlier turn did it.
      pub type_wait_until_sound :
          (c : Cmp) (v : ℤ) (fuel reads : ℕ) (t : ℤ)
          → shmem_type_wait_until mpi g u var temp moments c v fuel ≡ some (released reads t)
          → (n : ℕ) × (reads ≡ n + 1)
            × (t ≡ value_of (moments n))
            × (comp c t v ≡ some true)
            × ((j : ℕ) → j < n → comp c (value_of (moments j)) v ≡ some false)
      type_wait_until_sound c v fuel reads t is =
          let ran = some-injective _ _ (sym (until_watched c v fuel) ∙ is) in
          let (n, count, read, holds, before) = wait_until_sound _ v c fuel reads t ran in
          (
            n,
            count,
            read ∙ watched.reads (moments n),
            holds,
            λ j less. rw (← watched.reads (moments j)) (before j less),
          )

      -- Of each type, a wait for a change is a wait until the variable is not equal to the value.
      pub type_wait-type_wait_until :
          (v : ℤ) (fuel : ℕ)
          → shmem_type_wait mpi g u var temp moments v fuel
            ≡ shmem_type_wait_until mpi g u var temp moments cmp_ne v fuel
      unfolding shmem_type_wait shmem_type_wait_until
      type_wait-type_wait_until v fuel =
          rw (shmem_type_wait, shmem_type_wait_until, watched.at)
            (ap some (wait-wait_until _ v fuel))

      -- A PE waits on a variable that is found, and a put by any PE of one item to the place of the
      -- variable, whose effect is there at turn `n`, puts a value for which the comparison holds;
      -- it did not hold at the turns before. Then the wait, given fuel for that turn, returns with
      -- the value that the source of the put had.
      pub wait_sees_put :
          {g' : Globals}
          → Fits mpi g' g.shmem_world_rank (wait_type u) 1
          → (target source : ℕ) → InSheap g' target ⊎ InEtext g' target
          → remote_address mpi g' target g.shmem_world_rank
            ≡ remote_address mpi g var g.shmem_world_rank
          → (m : Memory) (n fuel : ℕ)
          → memory_after mpi (oshmpi_put mpi g' (wait_type u) target source 1 g.shmem_world_rank) m
            ≡ some (moments n)
          → (c : Cmp) (v : ℤ) → ((j : ℕ) → j < n → comp c (value_of (moments j)) v ≡ some false)
          → comp c (signed (load mpi (wait_type u) m source)) v ≡ some true
          → n < fuel
          → shmem_type_wait_until mpi g u var temp moments c v fuel
            ≡ some (released (n + 1) (signed (load mpi (wait_type u) m source)))
      wait_sees_put fits target source found' same m n fuel put c v before last enough =
          let now = put_value fits target source found' same m (moments n) put in
          type_wait_until_returns c v n fuel before (rw now last) enough
          ∙ ap (λ t. some (released (n + 1) t)) now
