-- ===== src/Tests/Reduced.antt =====
-- A sum of PEs 1 and 3, over an MPI library in which every reduction is a sum of integers.
use mathlib.Core.List.{Memᴰ}
use oshmpi.Prelude.{
  ℕ, zero, suc, ◌+◌, ◌*◌, ◌^◌, ◌<◌, ◌≤◌, ◌≡◌, refl, sym, ap, ◌∙◌, some, none, Option, List, [], ◌∷◌,
  map, get_elem?, length, arith, if◌then◌else◌,
}
use oshmpi.Prelude.Int.{negsuc}
use oshmpi.Mpi.{Basic, Op, mpi_sum, Datatype, basic}
use oshmpi.Mpi.Memory.{span, gather, scatter, gather-scatter}
use oshmpi.Mpi.Library.{eager, add_bytes}
use oshmpi.Globals.{Globals}
use oshmpi.Rma.RoundTrip.{length-item}
use oshmpi.Atomic.Values.{length-add_bytes}
use oshmpi.Comm.{Comm, comm_created, initial_comms, acquire_comm, create_comm, lookup_comm, pe_list}
use oshmpi.Comm.Members.{initial-Inv}
use oshmpi.Coll.{oshmpi_coll, coll_call, Collective, mpi_allreduce, mpi_barrier}
use oshmpi.Coll.Layout.{before}
use oshmpi.Coll.Effect.{Memories, Reducing}
use oshmpi.Api.Group.{Number, sum_to_all}
use oshmpi.Api.Together.{call_of}
use oshmpi.Api.Reduced.{by_sum, item_type, reduction, reduction_effect}
use oshmpi.Tests.Setting.{node, memory, position}
use oshmpi.Tests.Together.{blocks, blocks_at}

zeros : ℕ → List ℕ
zeros zero = []
zeros (suc n) = 0 ∷ zeros n

length-zeros : (n : ℕ) → length (zeros n) ≡ n
unfolding zeros
length-zeros zero = refl
length-zeros (suc n) = ap suc (length-zeros n)

total : ℕ → List (List ℕ) → List ℕ
total n [] = zeros n
total n (x ∷ rest) = add_bytes 0 x (total n rest)

length-total :
    (n : ℕ) (f : ℕ → List ℕ)
    → ((q : ℕ) → length (f q) ≡ n)
    → (pes : List ℕ) → length (total n (map f pes)) ≡ n
unfolding total
length-total n f each [] = length-zeros n
length-total n f each (q ∷ pes) =
    length-add_bytes 0 (f q) _ (each q ∙ sym (length-total n f each pes)) ∙ each q

reduced : Op → Basic → List (List ℕ) → List ℕ
reduced op b items = total (eager.type_size b) items

one_each : ℕ → ℕ
one_each j = 1

get_elem?-span : (s n j : ℕ) → j < n → get_elem? (span s n) j ≡ some (s + j)
unfolding span
get_elem?-span s zero j lt = absurd (omega arith)
get_elem?-span s (suc n) zero lt = ap some (omega arith)
get_elem?-span s (suc n) (suc j) lt =
    get_elem?-span (s + 1) n j (omega arith) ∙ ap some (omega arith)

before_ones : (s n j : ℕ) → j ≤ n → before (map one_each (span s n)) j ≡ j
unfolding span before one_each
before_ones s zero zero le = refl
before_ones s zero (suc j) le = absurd (omega arith)
before_ones s (suc n) zero le = refl
before_ones s (suc n) (suc j) le =
    let rest = before_ones (s + 1) n j (omega arith) in omega (arith, rest)

size_of_type : Datatype → ℕ
size_of_type (basic b) = eager.type_size b
size_of_type t = 0

-- The memory that holds item `j` of the result at 0.
holding : List ℕ → Memories → (from size : ℕ) → Memories
holding pes mems from size j =
    scatter (mems 0) 0 (span 0 size)
      (total size (map (λ q. gather (mems q) (from + j * size) (span 0 size)) pes))

reduce_together : List ℕ → (ℕ → Collective) → Memories → Memories
reduce_together pes calls mems p = elim (calls p) [
  | mpi_allreduce in_place source target n t op comm ↦
      blocks (holding pes mems (if in_place then target else source) (size_of_type t)) 0
        (size_of_type t) target (span 0 n) (map one_each (span 0 n)) (mems p)
  | other ↦ mems p
]

reduce_together-Reducing : Reducing eager reduced reduce_together (λ pes comm. Unit {0})
unfolding reduce_together reduced size_of_type holding one_each
reduce_together-Reducing = record {
  allreduce = λ pes comm calls mems in_place source target n b op matched is p j inside item.
      let size = eager.type_size b in
      let from = if in_place then target else source in
      let at_item =
        blocks_at (holding pes mems from size) 0 size target (span 0 n) one_each (mems p) j (0 + j)
          (get_elem?-span 0 n j item) in
      let ones : before (map one_each (span 0 n)) j ≡ j = before_ones 0 n j (omega (arith, item)) in
      let whole : 1 * size ≡ size = omega arith in
      let same : 0 + j ≡ j = omega arith in
      rw (reduce_together, is p inside)
        (rw (ones, whole, same) at at_item
          ∙ gather-scatter (mems 0) 0 0 size _
              (length-total size _ (λ q. length-item (mems q) (from + j * size) size) pes));
}

abbrev job : ℕ → Globals
job q = record node { shmem_world_rank = q }

abbrev comms : ℕ → Comm
comms q = comm_created 0 (1 ∷ 3 ∷ [])

acquired :
    (q : ℕ)
    → Memᴰ q (pe_list 1 (2 ^ 1) 0 2)
    → (acquire_comm position (job q) initial_comms 1 1 2 (negsuc 0)).comm ≡ some (comms q)
unfolding acquire_comm create_comm lookup_comm pe_list
acquired q inside = refl

one_in : Memᴰ 1 (pe_list 1 (2 ^ 1) 0 2)
unfolding pe_list
one_in = Memᴰ.head refl

abbrev sum_by : ℕ → Option Collective
sum_by q =
    call_of
      (reduction position eager.extent (job q) initial_comms 1 1 2 [] (by_sum Number.int) 8 8
        4).outcome

abbrev call_or : Option Collective → Collective
call_or none = mpi_barrier none
call_or (some call) = call

made_sum : (q : ℕ) → sum_by q ≡ some (call_or (sum_by q))
unfolding sum_to_all oshmpi_coll coll_call
made_sum q = refl

reduction_effect_example :
    gather
      (reduce_together (pe_list 1 (2 ^ 1) 0 2) (λ q. call_or (sum_by q)) (λ q. memory) 1)
      (8 + 2 * eager.type_size (item_type (by_sum Number.int)))
      (span 0 (eager.type_size (item_type (by_sum Number.int))))
    ≡ reduced mpi_sum (item_type (by_sum Number.int)) (
        map
          (λ q.
            gather memory
              (8 + 2 * eager.type_size (item_type (by_sum Number.int)))
              (span 0 (eager.type_size (item_type (by_sum Number.int)))))
          (pe_list 1 (2 ^ 1) 0 2))
reduction_effect_example =
    reduction_effect reduce_together-Reducing position job (λ q. initial_comms) (λ q. initial-Inv) 1
      1 2 (λ q. []) (by_sum Number.int) 8 8 4 (omega arith) comms tt acquired
      (λ q. call_or (sum_by q)) (λ q inside. made_sum q) (λ q. memory) 1 2 one_in (omega arith)
