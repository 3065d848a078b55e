-- ===== src/Api/Reduced.antt =====
-- The reductions of src/shmem.c when the PEs of an active set call one together: what is in their
-- memories then.
use mathlib.Core.List.{Memᴰ}
use oshmpi.Prelude.{
  ℕ, ◌+◌, ◌*◌, ◌^◌, ◌<◌, ◌≡◌, inl, inr, refl, sym, ap, ◌∙◌, Bool-cases, some, List, [], map, arith,
  ◌==◌, if◌then◌else◌,
}
use oshmpi.Prelude.Int.{ℤ, negsuc}
use oshmpi.Mpi.{
  Basic, Datatype, basic, Op, mpi_land, mpi_bor, mpi_bxor, mpi_min, mpi_max, mpi_sum, mpi_prod,
}
use oshmpi.Mpi.Memory.{span, gather}
use oshmpi.Mpi.Library.{Mpi}
use oshmpi.Contiguous.{int_max}
use oshmpi.Globals.{Globals}
use oshmpi.Comm.{Comm, Comms, acquire_comm, pe_list}
use oshmpi.Comm.Members.{Inv}
use oshmpi.Coll.{Collective, mpi_allreduce, coll_call, shmem_allreduce}
use oshmpi.Coll.Calls.{plain_count, coll_called}
use oshmpi.Coll.Effect.{Memories, Reducing}
use oshmpi.Api.Group.{
  Number, number_type, Whole, whole_type, Call, to_all, and_to_all, or_to_all, xor_to_all,
  min_to_all, max_to_all, sum_to_all, prod_to_all,
}
use oshmpi.Api.Together.{call_of}

-- The functions for reductions: shmem_short_and_to_all and so on.
pub data Reduction : Type 0 where
  by_and by_or by_xor : Whole → Reduction
  by_min by_max by_sum by_prod : Number → Reduction

abbrev pub item_type : Reduction → Basic
item_type (by_and t) = whole_type t
item_type (by_or t) = whole_type t
item_type (by_xor t) = whole_type t
item_type (by_min t) = number_type t
item_type (by_max t) = number_type t
item_type (by_sum t) = number_type t
item_type (by_prod t) = number_type t

abbrev pub operator : Reduction → Op
operator (by_and t) = mpi_land
operator (by_or t) = mpi_bor
operator (by_xor t) = mpi_bxor
operator (by_min t) = mpi_min
operator (by_max t) = mpi_max
operator (by_sum t) = mpi_sum
operator (by_prod t) = mpi_prod

module _ (translate_ranks : List ℕ → ℤ → ℤ) (extent : Datatype → ℕ) (g : Globals) (s : Comms)
    (pe_start pe_logs pe_size : ℕ) (psync : List ℤ) where
  abbrev pub reduction : Reduction → (target source nreduce : ℕ) → Call
  reduction (by_and t) = and_to_all translate_ranks extent g s pe_start pe_logs pe_size psync t
  reduction (by_or t) = or_to_all translate_ranks extent g s pe_start pe_logs pe_size psync t
  reduction (by_xor t) = xor_to_all translate_ranks extent g s pe_start pe_logs pe_size psync t
  reduction (by_min t) = min_to_all translate_ranks extent g s pe_start pe_logs pe_size psync t
  reduction (by_max t) = max_to_all translate_ranks extent g s pe_start pe_logs pe_size psync t
  reduction (by_sum t) = sum_to_all translate_ranks extent g s pe_start pe_logs pe_size psync t
  reduction (by_prod t) = prod_to_all translate_ranks extent g s pe_start pe_logs pe_size psync t

  reduction-to_all :
      (r : Reduction) (target source nreduce : ℕ)
      → reduction r target source nreduce
        ≡ to_all translate_ranks extent g s pe_start pe_logs pe_size psync
            (item_type r)
            (operator r)
            target
            source
            nreduce
  unfolding and_to_all or_to_all xor_to_all min_to_all max_to_all sum_to_all prod_to_all
  reduction-to_all (by_and t) target source nreduce = refl
  reduction-to_all (by_or t) target source nreduce = refl
  reduction-to_all (by_xor t) target source nreduce = refl
  reduction-to_all (by_min t) target source nreduce = refl
  reduction-to_all (by_max t) target source nreduce = refl
  reduction-to_all (by_sum t) target source nreduce = refl
  reduction-to_all (by_prod t) target source nreduce = refl

module _ {mpi : Mpi} {reduce : Op → Basic → List (List ℕ) → List ℕ}
    {together : List ℕ → (ℕ → Collective) → Memories → Memories}
    {Matched : List ℕ → (ℕ → Comm) → Type 0} (reducing : Reducing mpi reduce together Matched)
    (translate_ranks : List ℕ → ℤ → ℤ) (g : ℕ → Globals) (s : ℕ → Comms)
    (invs : (q : ℕ) → Inv (s q)) (pe_start pe_logs pe_size : ℕ) (psync : ℕ → List ℤ) where
  abbrev pes : List ℕ
  pes = pe_list pe_start (2 ^ pe_logs) 0 pe_size

  -- The PEs of an active set call one reduction together, of fewer than INT32_MAX items of any of
  -- its types, and the communicators that they acquire are one. Then each item of the target is the
  -- same at every PE: what the operator of the function's name, with a logical and, makes of that
  -- item of the sources of all PEs of the set, in order, also where the target is the source. This
  -- rests on what MPI documents of MPI_Allreduce.
  pub reduction_effect :
      (r : Reduction) (target source nreduce : ℕ)
      → nreduce < int_max
      → (comm : ℕ → Comm) → Matched (pe_list pe_start (2 ^ pe_logs) 0 pe_size) comm
      → ((q : ℕ)
          → Memᴰ q (pe_list pe_start (2 ^ pe_logs) 0 pe_size)
          → (acquire_comm translate_ranks (g q) (s q) pe_start pe_logs pe_size (negsuc 0)).comm
            ≡ some (comm q))
      → (calls : ℕ → Collective)
      → ((q : ℕ)
          → Memᴰ q (pe_list pe_start (2 ^ pe_logs) 0 pe_size)
          → call_of
              (reduction translate_ranks mpi.extent
                (g q)
                (s q)
                pe_start
                pe_logs
                pe_size
                (psync q)
                r
                target
                source
                nreduce).outcome
            ≡ some (calls q))
      → (mems : Memories) (p j : ℕ) → Memᴰ p (pe_list pe_start (2 ^ pe_logs) 0 pe_size)
      → j < nreduce
      → gather
          (together (pe_list pe_start (2 ^ pe_logs) 0 pe_size) calls mems p)
          (target + j * mpi.type_size (item_type r))
          (span 0 (mpi.type_size (item_type r)))
        ≡ reduce (operator r) (item_type r) (
            map
              (λ q.
                gather
                  (mems q)
                  (source + j * mpi.type_size (item_type r))
                  (span 0 (mpi.type_size (item_type r))))
              (pe_list pe_start (2 ^ pe_logs) 0 pe_size))
  unfolding coll_call
  reduction_effect r target source nreduce small comm matched acquired calls made mems p j in_set
        item =
      let t = item_type r in
      let is : (q : ℕ)
          → Memᴰ q pes
          → calls q
            ≡ mpi_allreduce (source == target) source target nreduce (basic t) (operator r)
                (some (comm q)) =
        λ q inside.
          let (plain, kept) = plain_count mpi.extent nreduce t small in
          let called_so =
            coll_called translate_ranks mpi.extent (g q) (s q) (invs q) (negsuc 0) pe_start pe_logs
              pe_size shmem_allreduce t (operator r) target source nreduce [] _ refl in
          let shown =
            ap (λ c. call_of c.outcome)
              (reduction-to_all translate_ranks mpi.extent (g q) (s q) pe_start pe_logs pe_size
                (psync q) r target source nreduce) in
          let e : some (calls q)
              ≡ some (
                  mpi_allreduce (source == target) source target nreduce (basic t) (operator r)
                    (some (comm q))) =
            rw (plain, acquired q inside) at (sym (made q inside) ∙ shown ∙ ap call_of called_so) in
          cc in
      let from : (if source == target then target else source) ≡ source =
        elim (Bool-cases (source == target)) [
          | inl same ↦ rw same (ground arith)
          | inr other ↦ rw other refl
        ] in
      let law =
        reducing.allreduce pes comm calls mems (source == target) source target nreduce t
          (operator r) matched is p j in_set item in
      rw from at law
