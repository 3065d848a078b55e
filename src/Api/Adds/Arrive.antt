-- ===== src/Api/Adds/Arrive.antt =====
-- shmem_T_add of src/shmem.c by all PEs of a job at once, and then shmem_barrier_all, when the PEs' steps
-- interleave and MPI delivers the additions in any order.
use mathlib.Core.Path.{subst}
use oshmpi.Prelude.{
  ℕ, zero, suc, ◌+◌, ◌%◌, ◌^◌, ◌<◌, ◌≡◌, ◌≤◌, ◌⊎◌, refl, sym, ap, ◌∙◌, false, List, [], ◌∷◌, ◌&&◌,
  arith,
}
use oshmpi.Mpi.{Action}
use oshmpi.Mpi.Memory.{Memory, Misses-span}
use oshmpi.Mpi.Library.{Mpi}
use oshmpi.Mpi.Network.{requests, Write, All, Steps}
use oshmpi.Mpi.Network.Order.{asked}
use oshmpi.Mpi.Network.Message.{at_rest}
use oshmpi.Mpi.Fabric.{Fabric, begin, Turns, AllDone}
use oshmpi.Mpi.Fabric.Project.{can_finish}
use oshmpi.Mpi.Fabric.Shadow.{Turns-HasShadow}
use oshmpi.Globals.{Globals}
use oshmpi.Atomic.Paths.{load}
use oshmpi.Atomic.Values.{number}
use oshmpi.Atomic.Sums.{total}
use oshmpi.Atomic.Concurrent.{sum_upto, sum_same, left, AllAdd, Turns-AllAdd}
use oshmpi.Api.Point.{Integer, integer_type}
use oshmpi.Api.Adds.{
  AddCall, width, added, GoesTo, add_program, requests-total, requests-program, program-AddsOnly,
  program_clears,
}

asked-nil : (us : List Write) → asked us ≡ [] → us ≡ []
asked-nil [] e = refl
asked-nil (u ∷ us) e = absurd (cc)

sum_zero : (n : ℕ) → sum_upto n (λ i. 0) ≡ 0
unfolding sum_upto
sum_zero zero = refl
sum_zero (suc n) = omega (arith, sum_zero n)

module _ (mpi : Mpi) (size : ℕ) (g : ℕ → Globals)
    (across : (i : ℕ) → i < size → ((g i).smp_optimizations && (g i).shmem_world_is_smp) ≡ false)
    (t : Integer) (cell : ℕ) (m : Memory) (adds : ℕ → List AddCall)
    (on : (i : ℕ) → i < size → All (GoesTo mpi t cell m (g i)) (adds i)) where
  abbrev add_programs : ℕ → List Action
  add_programs i = add_program t (g i) (adds i)

  at_first-AllAdd : AllAdd mpi size (width mpi t cell m) cell m (begin add_programs m)
  at_first-AllAdd = record {
    only = λ i less.
        let one = program-AddsOnly mpi t cell m (g i) (across i less) (adds i) (on i less) in
        record { plain = one.plain; asks = one.asks; waits = tt; loaded = tt };
    kept = λ b miss. refl;
  }

  left_first :
      left mpi size (width mpi t cell m) cell m (begin add_programs m)
      ≡ sum_upto size (λ i. added mpi t m (adds i))
  left_first = sum_same size _ _ (λ i less.
      ap (total (width mpi t cell m) cell m)
        (requests-program mpi t cell m (g i) (across i less) (adds i))
      ∙ requests-total mpi t cell m (g i) (across i less) (adds i) (on i less))

  module _ {s : Fabric} (ran : Turns mpi size (begin add_programs m) s)
      (done : AllDone size s) where
    none_pending : (i : ℕ) → i < size → s.pending i ≡ []
    none_pending i less =
        let (l, alone, same) = Turns-HasShadow mpi size add_programs m ran i in
        let empty =
          program_clears mpi t cell m (g i) (across i less) (adds i) (on i less)
            (subst (λ q. Steps mpi (add_programs i) (at_rest mpi m) q l) (done i less) alone) in
        asked-nil (s.pending i) (sym same ∙ ap asked empty)

    left_last : left mpi size (width mpi t cell m) cell m s ≡ 0
    unfolding requests total
    left_last =
        sum_same size _ (λ i. 0) (λ i less. rw (none_pending i less, done i less) refl)
        ∙ sum_zero size

  -- All PEs of a job across nodes call shmem_T_add any number of times for one object that is found,
  -- with values apart from it, and then shmem_barrier_all. However the PEs' steps and the deliveries
  -- of MPI interleave, all can come to MPI_Barrier, and once they have, the object has the value from
  -- before and all values that were added, modulo 2 to the number of bits of the type, and no other
  -- byte has changed.
  pub adds_arrive :
      (s : Fabric)
      → Turns mpi size (begin add_programs m) s
      → AllDone size s
      → ((u : Fabric) × Turns mpi size (begin add_programs m) u × AllDone size u)
        × (number (load mpi (integer_type t) s.memory cell) % 256 ^ mpi.type_size (integer_type t)
            ≡ (number (load mpi (integer_type t) m cell)
                + sum_upto size (λ i. added mpi t m (adds i)))
              % 256 ^ mpi.type_size (integer_type t))
        × ((b : ℕ) → (b < cell) ⊎ (cell + mpi.type_size (integer_type t) ≤ b) → s.memory b ≡ m b)
  adds_arrive s ran done =
      let bits = 256 ^ mpi.type_size (integer_type t) in
      let (all, sum) = Turns-AllAdd mpi size (width mpi t cell m) cell m ran at_first-AllAdd in
      let now = number (load mpi (integer_type t) s.memory cell) in
      let before = number (load mpi (integer_type t) m cell) in
      (
        can_finish mpi size (begin add_programs m),
        ap (λ x. x % bits) (omega arith)
            ∙ ap (λ x. (now + x) % bits) (sym (left_last ran done))
            ∙ sym sum
            ∙ ap (λ x. (before + x) % bits) left_first,
        λ b out. all.kept b (Misses-span cell b 0 _ (omega (arith, out))),
      )
