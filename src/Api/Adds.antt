-- ===== src/Api/Adds.antt =====
-- shmem_T_add of src/shmem.c and then shmem_barrier_all: what a PE asks of the network.
pub mod Arrive
use mathlib.Core.Path.{subst}
use oshmpi.Prelude.{
  ℕ, zero, suc, ◌+◌, ◌%◌, ◌^◌, ◌<◌, ◌≡◌, ◌≤◌, ◌⊎◌, inl, inr, refl, sym, ap, ◌∙◌, true, false, List,
  [], ◌∷◌, ◌++◌, ◌&&◌, append-nil, arith,
}
use oshmpi.Mpi.{Action}
use oshmpi.Mpi.Memory.{Memory, span, Apart, Misses-span}
use oshmpi.Mpi.Library.{Mpi, run}
use oshmpi.Mpi.Network.{Request, requests, Write, Net, All, Steps}
use oshmpi.Mpi.Network.Runs.{All-append, requests-append, Steps-parts, Steps-All}
use oshmpi.Mpi.Network.Order.{IsPlain, asked}
use oshmpi.Mpi.Network.Local.{locals-IsPlain, requests-locals}
use oshmpi.Mpi.Network.Message.{at_rest}
use oshmpi.Mpi.Fabric.{Fabric, begin, Turns, AllDone}
use oshmpi.Mpi.Fabric.Project.{can_finish}
use oshmpi.Mpi.Fabric.Shadow.{Turns-HasShadow}
use oshmpi.Globals.{Globals}
use oshmpi.Window.{WindowId, sheap_window, etext_window, window_of}
use oshmpi.Window.Lookup.{InSheap, InEtext}
use oshmpi.Rma.Places.{remote_address}
use oshmpi.Rma.Pending.{performed}
use oshmpi.Atomic.Paths.{load}
use oshmpi.Atomic.Pending.{add_request, add_asks}
use oshmpi.Atomic.Values.{number}
use oshmpi.Atomic.Sums.{IsAdd, total, AddsOnly}
use oshmpi.Atomic.Concurrent.{sum_upto, sum_same, left, AllAdd, Turns-AllAdd}
use oshmpi.Sync.{shmem_quiet}
use oshmpi.Sync.Puts.{IsKnown}
use oshmpi.Sync.Delivery.{quiet-IsLocal, quiet_clears}
use oshmpi.Api.Point.{Integer, integer_type, shmem_add}
use oshmpi.Api.Group.{barrier_all}

-- The arguments of an addition; `value` is the address of the parameter.
pub record AddCall : Type 0 where
  pub target : ℕ
  pub value : ℕ
  pub pe : ℕ

-- What additions add.
unfoldable pub added : Mpi → Integer → Memory → List AddCall → ℕ
added mpi t m [] = 0
added mpi t m (a ∷ adds) = number (load mpi (integer_type t) m a.value) + added mpi t m adds

module _ (t : Integer) (g : Globals) where
  -- The actions of additions that are made one behind the other.
  unfoldable pub add_all : List AddCall → List Action
  add_all [] = []
  add_all (a ∷ adds) = performed (shmem_add g t a.target a.value a.pe) ++ add_all adds

  -- What a PE does before it enters MPI_Barrier.
  abbrev pub add_program : List AddCall → List Action
  add_program adds = add_all adds ++ (barrier_all g).0

module _ (mpi : Mpi) (t : Integer) (cell : ℕ) (m : Memory) where
  abbrev pub width : ℕ
  width = mpi.type_size (integer_type t)

  module _ (g : Globals) where
    -- An addition to the object at `cell`, which is found, of a value apart from it.
    abbrev pub GoesTo : AddCall → Type 0
    GoesTo a =
        (InSheap g a.target ⊎ InEtext g a.target)
        × (remote_address mpi g a.target a.pe ≡ cell)
        × Apart a.value width cell width

    module _ (across : (g.smp_optimizations && g.shmem_world_is_smp) ≡ false) where
      requests-All :
          (P : Request → Type 0)
          → ((a : AddCall) (w : WindowId)
              → GoesTo a
              → (w ≡ sheap_window) ⊎ (w ≡ etext_window)
              → P (add_request mpi g (integer_type t) a.target a.value a.pe (window_of w)))
          → (adds : List AddCall) → All GoesTo adds
          → All P (requests mpi (add_all t g adds))
      unfolding add_all shmem_add requests
      requests-All P f [] h = tt
      requests-All P f (a ∷ adds) h =
          let (w, known, one) =
            add_asks mpi g (integer_type t) a.target a.value a.pe across h.0.0 in
          subst (All P)
            (sym (
              requests-append mpi _ (add_all t g adds)
              ∙ ap (λ l. l ++ requests mpi (add_all t g adds)) one.asks))
            (f a w h.0 known, requests-All P f adds h.1)

      pub requests-total :
          (adds : List AddCall)
          → All GoesTo adds
          → total width cell m (requests mpi (add_all t g adds)) ≡ added mpi t m adds
      unfolding add_all shmem_add requests total added
      requests-total [] h = refl
      requests-total (a ∷ adds) h =
          let (w, known, one) =
            add_asks mpi g (integer_type t) a.target a.value a.pe across h.0.0 in
          ap (total width cell m) (
            requests-append mpi _ (add_all t g adds)
            ∙ ap (λ l. l ++ requests mpi (add_all t g adds)) one.asks)
          ∙ ap (λ n. number (load mpi (integer_type t) m a.value) + n) (requests-total adds h.1)

      All-IsPlain : (adds : List AddCall) → All GoesTo adds → All (IsPlain mpi) (add_all t g adds)
      unfolding add_all shmem_add
      All-IsPlain [] h = tt
      All-IsPlain (a ∷ adds) h =
          let (w, known, one) =
            add_asks mpi g (integer_type t) a.target a.value a.pe across h.0.0 in
          All-append (IsPlain mpi) _ (add_all t g adds) one.plain (All-IsPlain adds h.1)

      program_quiet :
          (adds : List AddCall) → add_program t g adds ≡ add_all t g adds ++ shmem_quiet g
      unfolding barrier_all shmem_quiet
      program_quiet adds = refl

      pub requests-program :
          (adds : List AddCall)
          → requests mpi (add_program t g adds) ≡ requests mpi (add_all t g adds)
      requests-program adds =
          ap (requests mpi) (program_quiet adds)
          ∙ requests-append mpi (add_all t g adds) (shmem_quiet g)
          ∙ ap (λ l. requests mpi (add_all t g adds) ++ l)
              (requests-locals mpi (shmem_quiet g) (quiet-IsLocal mpi g))
          ∙ append-nil (requests mpi (add_all t g adds))

      pub program-AddsOnly :
          (adds : List AddCall)
          → All GoesTo adds
          → AddsOnly width cell m mpi (add_program t g adds) (at_rest mpi m)
      program-AddsOnly adds h = record {
        plain = subst (All (IsPlain mpi)) (sym (program_quiet adds)) (
            All-append (IsPlain mpi) (add_all t g adds) (shmem_quiet g) (All-IsPlain adds h)
              (locals-IsPlain mpi (shmem_quiet g) (quiet-IsLocal mpi g)));
        asks = subst (All (IsAdd width cell m)) (sym (requests-program adds)) (
            requests-All (IsAdd width cell m)
              (λ a w (found, place, apart) known. record {
                adds = refl;
                places = refl;
                target = place;
                there = refl;
                apart = apart;
              })
              adds h);
        waits = tt;
        loaded = tt;
      }

      -- Nothing is pending from a PE that has come to the barrier.
      pub program_clears :
          (adds : List AddCall)
          → All GoesTo adds
          → {n : Net} → Steps mpi (add_program t g adds) (at_rest mpi m) [] n
          → n.pending ≡ []
      program_clears adds h {n} ran =
          let whole : Steps mpi (add_all t g adds ++ shmem_quiet g) (at_rest mpi m) [] n =
            subst (λ l. Steps mpi l (at_rest mpi m) [] n) (program_quiet adds) ran in
          let (mid, first, second) = Steps-parts mpi (add_all t g adds) (shmem_quiet g) whole in
          let known : All IsKnown (requests mpi (add_all t g adds)) =
            requests-All IsKnown
              (λ a w goes is. elim is [
                | inl e ↦ inl (ap window_of e)
                | inr e ↦ inr (ap window_of e)
              ])
              adds h in
          quiet_clears mpi g second (Steps-All mpi IsKnown first known tt).1
