-- ===== src/Tests/Together.antt =====
-- A broadcast and a collect of PEs 1 and 3, over an MPI library that copies at once.
use mathlib.Core.List.{Memᴰ}
use native.Mathlib.Nat.{add-mul}
use oshmpi.Prelude.{
  ℕ, zero, suc, ◌+◌, ◌*◌, ◌^◌, ◌<◌, ◌≡◌, refl, sym, ap, ◌∙◌, true, false, Option, none, some, List,
  [], ◌∷◌, map, get_elem?, length, arith, ◌==◌, if◌then◌else◌,
}
use oshmpi.Prelude.Int.{ℤ, pos}
use oshmpi.Mpi.{basic, Datatype}
use oshmpi.Mpi.Memory.{
  Memory, span, gather, scatter, scatter_below, gather_cong, gather-scatter, length-gather,
  length-span,
}
use oshmpi.Mpi.Library.{eager}
use oshmpi.Contiguous.{int_max}
use oshmpi.Globals.{Globals}
use oshmpi.Comm.{
  Comm, comm_created, Comms, initial_comms, acquire_comm, create_comm, lookup_comm, pe_list,
}
use oshmpi.Comm.Members.{initial-Inv}
use oshmpi.Coll.{
  oshmpi_coll, counts_call, coll_call, Collective, mpi_barrier, mpi_bcast, mpi_allgather,
  mpi_allgather_counts, mpi_allgatherv,
}
use oshmpi.Coll.Layout.{before}
use oshmpi.Coll.Effect.{Memories, Documented, Counting}
use oshmpi.Api.Group.{w32, width_type, broadcast, collect}
use oshmpi.Api.Reduce.{broadcast-called}
use oshmpi.Api.Gathered.{before-same, collects, gathering_effect}
use oshmpi.Api.Together.{call_of, first_of, Agree, broadcast_effect}
use oshmpi.Tests.Setting.{node, memory, position, position-Translates}

abbrev buffer_of : Collective → ℕ
buffer_of (mpi_bcast buffer n t root comm) = buffer
buffer_of call = 0

abbrev size_of_type : Datatype → ℕ
size_of_type (basic b) = eager.type_size b
size_of_type t = 0

-- The blocks of the PEs, one behind the other from `at` on.
pub blocks : Memories → (source size at : ℕ) → (pes counts : List ℕ) → Memory → Memory
blocks mems source size at [] counts m = m
blocks mems source size at (q ∷ rest) [] m = m
blocks mems source size at (q ∷ rest) (c ∷ counts) m =
    blocks mems source size (at + c * size) rest counts
      (scatter m at (span 0 (c * size)) (gather (mems q) source (span 0 (c * size))))

together : List ℕ → (ℕ → Collective) → Memories → Memories
together pes calls mems p = elim (calls p) [
  | mpi_bcast buffer n t (pos k) comm ↦ elim (get_elem? pes k) [
    | none ↦ mems p
    | some r ↦
        if p == r
        then mems p
        else scatter (mems p) buffer (span 0 (n * size_of_type t))
            (gather (mems r) (buffer_of (calls r)) (span 0 (n * size_of_type t)))
  ]
  | mpi_allgather source n t target comm ↦
      blocks mems source (size_of_type t) target pes (map (λ q. n) pes) (mems p)
  | mpi_allgatherv source n t target rcounts rdispls comm ↦
      blocks mems source (size_of_type t) target pes rcounts (mems p)
  | other ↦ mems p
]

get_elem?-Memᴰ : (l : List ℕ) (k r : ℕ) → get_elem? l k ≡ some r → Memᴰ r l
get_elem?-Memᴰ [] k r e = absurd (cc)
get_elem?-Memᴰ (x ∷ rest) zero r e = Memᴰ.head (sym (ground arith))
get_elem?-Memᴰ (x ∷ rest) (suc k) r e = Memᴰ.tail (get_elem?-Memᴰ rest k r e)

blocks_below :
    (mems : Memories) (source size at : ℕ) (pes counts : List ℕ) (m : Memory) (b : ℕ)
    → b < at
    → blocks mems source size at pes counts m b ≡ m b
unfolding blocks
blocks_below mems source size at [] counts m b lt = refl
blocks_below mems source size at (q ∷ rest) [] m b lt = refl
blocks_below mems source size at (q ∷ rest) (c ∷ counts) m b lt =
    blocks_below mems source size (at + c * size) rest counts _ b (omega (arith, lt))
    ∙ scatter_below m at (span 0 (c * size)) _ b lt

pub blocks_at :
    (mems : Memories) (source size at : ℕ) (pes : List ℕ) (count : ℕ → ℕ) (m : Memory) (i q : ℕ)
    → get_elem? pes i ≡ some q
    → gather
        (blocks mems source size at pes (map count pes) m)
        (at + before (map count pes) i * size)
        (span 0 (count q * size))
      ≡ gather (mems q) source (span 0 (count q * size))
unfolding blocks before
blocks_at mems source size at [] count m i q e = absurd (cc)
blocks_at mems source size at (x ∷ rest) count m zero q e =
    let same : x ≡ q = ground arith in
    let here : at + 0 * size ≡ at = omega arith in
    let first =
      scatter m at (span 0 (count x * size)) (gather (mems x) source (span 0 (count x * size))) in
    rw (here, ← same)
      (gather_cong _ first at 0 (count x * size) (λ b p r.
          blocks_below mems source size (at + count x * size) rest (map count rest) first b
            (omega (arith, r)))
        ∙ gather-scatter m at 0 (count x * size) _ (
            length-gather (mems x) source (span 0 (count x * size))
            ∙ length-span 0 (count x * size)))
blocks_at mems source size at (x ∷ rest) count m (suc i) q e =
    let there : at + (count x + before (map count rest) i) * size
        ≡ at + count x * size + before (map count rest) i * size =
      rw (add-mul (count x) (before (map count rest) i) size) (omega arith) in
    rw there (
      blocks_at mems source size (at + count x * size) rest count
        (scatter m at (span 0 (count x * size)) (gather (mems x) source (span 0 (count x * size))))
        i q e)

together-Documented : Documented eager together (λ pes comm. Unit {0})
unfolding together
together-Documented = record {
  bcast = λ pes comm calls mems buffer n k root p b matched is at inside differ.
      let off : (p == root) ≡ false = ground arith in
      let root_in = get_elem?-Memᴰ pes k root at in
      rw (together, is p inside, at, off, is root root_in) refl;
  bcast_root = λ pes comm calls mems buffer n k root b matched is at.
      let on : (root == root) ≡ true = ground arith in
      let root_in = get_elem?-Memᴰ pes k root at in rw (together, is root root_in, at, on) refl;
  allgather = λ pes comm calls mems source target n b matched is p i q inside at.
      rw (together, is p inside, ← before-same n pes i q at)
        (blocks_at mems source (eager.type_size b) target pes (λ q. n) (mems p) i q at);
  allgatherv =
      λ pes comm calls mems count source target b rdispls matched is layout p i q inside at.
        rw (together, is p inside)
          (blocks_at mems source (eager.type_size b) target pes count (mems p) i q at);
}

abbrev job : ℕ → Globals
job q = record node { shmem_world_rank = q }

abbrev states : ℕ → Comms
states q = initial_comms

abbrev psyncs : ℕ → List ℤ
psyncs q = []

abbrev set : List ℕ
set = 1 ∷ 3 ∷ []

abbrev comms : ℕ → Comm
comms q = comm_created 0 set

agree :
    (root : ℤ)
    → Agree together-Documented position job states
        (λ q. refl)
        (λ q. initial-Inv)
        1
        1
        2
        psyncs
        root
        comms
unfolding acquire_comm create_comm lookup_comm pe_list
agree root = (tt, λ q inside. refl)

one_in : Memᴰ 1 (pe_list 1 (2 ^ 1) 0 2)
unfolding pe_list
one_in = Memᴰ.head refl

-- The call of an outcome; each PE makes it.
abbrev call_or : Option Collective → Collective
call_or none = mpi_barrier none
call_or (some call) = call

some_call : (o : Option Collective) (call : Collective) → o ≡ some call → o ≡ some (call_or o)
some_call o call e = e ∙ ap (λ o. some (call_or o)) (sym e)

abbrev broadcast_by : ℕ → Option Collective
broadcast_by q =
    call_of
      (broadcast position eager.extent (job q) initial_comms 1 1 2 [] w32 8 16 4
        (pos (1 + 1 * 2 ^ 1))).outcome

-- PE 1 has two items and each other PE has four.
abbrev items : ℕ → ℕ
items q = if q == 1 then 2 else 4

few_each : (q : ℕ) → items q < int_max
few_each q = ground arith

abbrev count_in : Option Collective → ℕ
count_in (some (mpi_allgather_counts n comm)) = n
count_in call = 0

abbrev gathered : List ℕ → (ℕ → Option Collective) → ℕ → List ℕ
gathered pes firsts p = map (λ q. count_in (firsts q)) pes

counted_all :
    (pes : List ℕ) (firsts : ℕ → Option Collective) (count : ℕ → ℕ)
    → ((q : ℕ) → Memᴰ q pes → count_in (firsts q) ≡ count q)
    → map (λ q. count_in (firsts q)) pes ≡ map count pes
counted_all [] firsts count is = refl
counted_all (x ∷ rest) firsts count is =
    let here = is x (Memᴰ.head refl) in
    let later = counted_all rest firsts count (λ q inside. is q (Memᴰ.tail inside)) in
    rw (here, later) refl

gathered-Counting : Counting eager gathered (λ pes comm. Unit {0})
gathered-Counting = record {
  counts = λ pes comm firsts count matched is p inside.
      counted_all pes firsts count (λ q h. ap count_in (is q h));
}

-- A PE's first call does not depend on the counts.
abbrev count_by : ℕ → Option Collective
count_by q =
    first_of
      (collect position eager.extent (job q) initial_comms 1 1 2 [] w32 8 16 (items q) []).outcome

abbrev collect_by : ℕ → Option Collective
collect_by q =
    call_of
      (collect position eager.extent (job q) initial_comms 1 1 2 [] w32 8 16 (items q)
        (gathered (pe_list 1 (2 ^ 1) 0 2) count_by q)).outcome

made_broadcast : (q : ℕ) → broadcast_by q ≡ some (call_or (broadcast_by q))
made_broadcast q = some_call (broadcast_by q) _ (
    ap call_of (
      broadcast-called position eager.extent (job q) initial_comms 1 1 2 [] position-Translates
        initial-Inv w32 8 16 4 1 (omega arith) (omega arith)))

broadcast_effect_example :
    (together (pe_list 1 (2 ^ 1) 0 2) (λ q. call_or (broadcast_by q)) (λ q. memory) 1
      ≡ scatter memory 8
          (span 0 (4 * eager.type_size (width_type w32)))
          (gather memory 16 (span 0 (4 * eager.type_size (width_type w32)))))
    × (together
          (pe_list 1 (2 ^ 1) 0 2)
          (λ q. call_or (broadcast_by q))
          (λ q. memory)
          (1 + 1 * 2 ^ 1)
        ≡ memory)
broadcast_effect_example =
    broadcast_effect together-Documented position job states (λ q. refl) (λ q. initial-Inv) 1 1 2
      psyncs position-Translates w32 8 16 4 1 (omega arith) (omega arith) comms (agree _)
      (λ q. call_or (broadcast_by q)) (λ q inside. made_broadcast q) (λ q. memory) 1 one_in
      (λ e. omega (arith, e))

made_collect :
    (q : ℕ)
    → (first_of
          (collect position eager.extent
            (job q)
            initial_comms
            1
            1
            2
            []
            w32
            8
            16
            (items q)
            (gathered (pe_list 1 (2 ^ 1) 0 2) count_by q)).outcome
        ≡ count_by q)
      × (collect_by q ≡ some (call_or (collect_by q)))
unfolding collect oshmpi_coll coll_call counts_call
made_collect q = (refl, refl)

few_items :
    before (map items (pe_list 1 (2 ^ 1) 0 2)) (length (map items (pe_list 1 (2 ^ 1) 0 2))) < 2 ^ 31
unfolding before pe_list
few_items = omega arith

second : get_elem? (pe_list 1 (2 ^ 1) 0 2) 1 ≡ some 3
unfolding pe_list
second = refl

gathering_effect_example :
    gather
      (together (pe_list 1 (2 ^ 1) 0 2) (λ q. call_or (collect_by q)) (λ q. memory) 1)
      (8 + before (map items (pe_list 1 (2 ^ 1) 0 2)) 1 * eager.type_size (width_type w32))
      (span 0 (items 3 * eager.type_size (width_type w32)))
    ≡ gather memory 16 (span 0 (items 3 * eager.type_size (width_type w32)))
gathering_effect_example =
    gathering_effect together-Documented position job states (λ q. refl) (λ q. initial-Inv) 1 1 2
      psyncs gathered gathered-Counting (collects items) w32 8 16 few_each few_items comms (agree _)
      count_by (λ q. call_or (collect_by q)) (λ q inside. made_collect q) (λ q. memory) 1 1 3 one_in
      second
