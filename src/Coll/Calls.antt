-- ===== src/Coll/Calls.antt =====
-- oshmpi_coll of src/shmem-internals.c: the MPI calls of each collective, and their communicator and root.
use native.Mathlib.Nat.{pow-suc}
use oshmpi.Prelude.{
  ℕ, zero, suc, ◌+◌, ◌*◌, ◌^◌, ◌<◌, ◌≡◌, ◌≢◌, ◌↔◌, inl, inr, refl, ap, ◌∙◌, Bool, true, false,
  Option, none, some, List, [], arith, ltb, ◌==◌, if◌then◌else◌, get_elem?,
}
use oshmpi.Prelude.Int.{ℤ, pos, leb_ℤ, eqb_ℤ}
use oshmpi.Mpi.{Basic, Datatype, basic, Op, Action}
use oshmpi.Contiguous.{int_max}
use oshmpi.Globals.{Globals}
use oshmpi.Comm.{
  Comm, Comms, Acquired, pe_list, is_world, acquire_comm, release_comm, create_comm,
  translated_root,
}
use oshmpi.Comm.Cache.{lookup-held}
use oshmpi.Comm.Members.{Inv, members, acquire_cases, acquire_comm-members, acquire-release-Inv}
use oshmpi.Rma.{counted, release_type}
use oshmpi.Coll.{
  CollType, shmem_barrier, shmem_broadcast, shmem_allreduce, shmem_fcollect, shmem_collect, other,
  Collective, mpi_barrier, mpi_bcast, mpi_allgather, mpi_allgather_counts, mpi_allgatherv,
  mpi_allreduce, called, counts_call, coll_call, oshmpi_coll,
}
use oshmpi.Coll.Layout.{get_elem?-pe_list, pe_list_apart}

-- The communicator that a call is made on.
abbrev pub comm_of : Collective → Option Comm
comm_of (mpi_barrier comm) = comm
comm_of (mpi_bcast _ _ _ _ comm) = comm
comm_of (mpi_allgather _ _ _ _ comm) = comm
comm_of (mpi_allgather_counts _ comm) = comm
comm_of (mpi_allgatherv _ _ _ _ _ _ comm) = comm
comm_of (mpi_allreduce _ _ _ _ _ _ comm) = comm

-- Fewer than INT32_MAX items are counted without a derived type.
pub plain_count :
    (extent : Datatype → ℕ) (len : ℕ) (t : Basic)
    → len < int_max
    → (counted extent len (basic t) ≡ record { count = len; tmp_type = basic t; made = [] })
      × (release_type len (basic t) ≡ [])
unfolding counted release_type
plain_count extent len t small =
    let few : ltb len int_max ≡ true = ground arith in
    let not_many : ltb int_max len ≡ false = ground arith in (rw few refl, rw not_many refl)

-- A count and a type that are `len` items of a type, where these are fewer than INT32_MAX.
abbrev pub IsSent : (len : ℕ) → Basic → (count : ℕ) → Datatype → Type 0
IsSent len t count type = len < int_max → (count ≡ len) × (type ≡ basic t)

-- The calls that a collective promises: a broadcast sends the root's source and fills the targets of
-- the others, a collect of one size is one MPI_Allgather and one of several sizes gathers the counts
-- first, on the same communicator, and a reduction is in place just if target and source are one.
abbrev pub IsCallOf :
    (is_root : Bool)
    → (target source len : ℕ) → Basic
    → Op
    → CollType
    → (first : Option Collective) → Collective
    → Type 0
IsCallOf is_root target source len t op shmem_barrier first (mpi_barrier comm) = first ≡ none
IsCallOf is_root target source len t op shmem_broadcast first
      (mpi_bcast buffer count type root comm) =
    (first ≡ none) × (buffer ≡ (if is_root then source else target)) × IsSent len t count type
IsCallOf is_root target source len t op shmem_fcollect first
      (mpi_allgather from count type into comm) =
    (first ≡ none) × (from ≡ source) × (into ≡ target) × IsSent len t count type
IsCallOf is_root target source len t op shmem_collect first
      (mpi_allgatherv from count type into rcounts rdispls comm) =
    (first ≡ some (mpi_allgather_counts count comm))
    × (from ≡ source)
    × (into ≡ target)
    × IsSent len t count type
IsCallOf is_root target source len t op shmem_allreduce first
      (mpi_allreduce in_place from into count type operator comm) =
    (first ≡ none)
    × ((in_place ≡ true) ↔ (target ≡ source))
    × (from ≡ source)
    × (into ≡ target)
    × IsSent len t count type
    × (operator ≡ op)
IsCallOf is_root target source len t op coll first call = ⊥

-- The five collectives of the library.
abbrev pub is_supported : CollType → Bool
is_supported (other n) = false
is_supported _ = true

module _ (translate_ranks : List ℕ → ℤ → ℤ) (extent : Datatype → ℕ) (g : Globals) (s : Comms)
    (inv : Inv s) (pe_root : ℤ) (pe_start pe_logs pe_size : ℕ) where
  abbrev a : Acquired
  a = acquire_comm translate_ranks g s pe_start pe_logs pe_size pe_root

  counted-IsSent :
      (len : ℕ) (t : Basic)
      → IsSent len t (counted extent len (basic t)).count (counted extent len (basic t)).tmp_type
  counted-IsSent len t small =
      let (plain, kept) = plain_count extent len t small in
      (ap (λ c. c.count) plain, ap (λ c. c.tmp_type) plain)

  call_on :
      (coll : CollType) (t : Basic) (op : Op) (target source len : ℕ) (rcounts : List ℕ)
      → is_supported coll ≡ true
      → (call : Collective) × (coll_call translate_ranks extent g s coll
            (counted extent len (basic t))
            op
            target
            source
            pe_root
            rcounts
            a
          ≡ some call)
        × (comm_of call ≡ a.comm)
        × IsCallOf
            (eqb_ℤ (pos g.shmem_world_rank) pe_root)
            target
            source
            len
            t
            op
            coll
            (counts_call translate_ranks extent g s coll (counted extent len (basic t)) a)
            call
  unfolding coll_call counts_call
  call_on shmem_barrier t op target source len rcounts h = (_, refl, refl, refl)
  call_on shmem_broadcast t op target source len rcounts h =
      (_, refl, refl, (refl, refl, counted-IsSent len t))
  call_on shmem_fcollect t op target source len rcounts h =
      (_, refl, refl, (refl, refl, refl, counted-IsSent len t))
  call_on shmem_collect t op target source len rcounts h =
      (_, refl, refl, (refl, refl, refl, counted-IsSent len t))
  call_on shmem_allreduce t op target source len rcounts h =
      let same : ((source == target) ≡ true) ↔ (target ≡ source) =
        (λ e. ground arith, λ e. ground arith) in
      (_, refl, refl, (refl, same, refl, refl, counted-IsSent len t, refl))
  call_on (other n) t op target source len rcounts h = absurd (cc)

  pub coll_called :
      (coll : CollType) (type : Basic) (op : Op) (target source len : ℕ) (rcounts : List ℕ)
      (call : Collective)
      → coll_call translate_ranks extent g s coll
          (counted extent len (basic type))
          op
          target
          source
          pe_root
          rcounts
          a
        ≡ some call
      → oshmpi_coll translate_ranks extent g s coll type op target source len pe_root pe_start
          pe_logs pe_size rcounts
        ≡ called
            (counted extent len (basic type)).made
            (counts_call translate_ranks extent g s coll (counted extent len (basic type)) a)
            call
            (release_type len (counted extent len (basic type)).tmp_type)
            (release_comm g a.comms pe_start pe_logs pe_size a.comm)
  unfolding oshmpi_coll
  coll_called coll type op target source len rcounts call is = rw (is, oshmpi_coll) refl

  -- Each of the five collectives returns, having made its MPI call: MPI_Barrier, MPI_Bcast from the
  -- source at the root and into the target elsewhere, MPI_Allgather, MPI_Allgatherv, for which an
  -- MPI_Allgather of the count on the same communicator comes first, or MPI_Allreduce with the operator,
  -- in place just if target and source are one. The call is on the target and the source, of the
  -- items and their type when these are fewer than INT32_MAX, and on a communicator of the PEs
  -- pe_start + i * 2^pe_logs for i below pe_size. What is left behind keeps the cache of
  -- communicators in order.
  pub oshmpi_coll-members :
      (coll : CollType) (type : Basic) (op : Op) (target source len : ℕ) (rcounts : List ℕ)
      → is_supported coll ≡ true
      → (made : List Action) × (first : Option Collective) × (call : Collective) × (freed : List
          Action)
        × (s' : Comms) × (c : Comm) × (oshmpi_coll translate_ranks extent g s coll type op target
              source len pe_root pe_start pe_logs pe_size rcounts
            ≡ called made first call freed s')
        × IsCallOf
            (eqb_ℤ (pos g.shmem_world_rank) pe_root)
            target
            source
            len
            type
            op
            coll
            first
            call
        × (comm_of call ≡ some c)
        × (members g c ≡ pe_list pe_start (2 ^ pe_logs) 0 pe_size)
        × Inv s'
  oshmpi_coll-members coll type op target source len rcounts h =
      let (call, is, on, promised) = call_on coll type op target source len rcounts h in
      let (c, has, joined) =
        acquire_comm-members translate_ranks g s inv pe_start pe_logs pe_size pe_root in
      (
        (counted extent len (basic type)).made,
        counts_call translate_ranks extent g s coll (counted extent len (basic type)) a,
        call,
        release_type len (counted extent len (basic type)).tmp_type,
        release_comm g a.comms pe_start pe_logs pe_size a.comm,
        c,
        coll_called coll type op target source len rcounts call is,
        promised,
        on ∙ has,
        joined,
        acquire-release-Inv translate_ranks g s inv pe_start pe_logs pe_size pe_root,
      )

pow_pos : (n : ℕ) → 0 < 2 ^ n
pow_pos zero = omega arith
pow_pos (suc n) = rw (pow-suc 2 n) (omega (arith, pow_pos n))

-- MPI_Group_translate_ranks gives the place of the first occurrence of a rank.
abbrev pub Translates : (List ℕ → ℤ → ℤ) → Type 0
Translates translate_ranks =
    (group : List ℕ) (k r : ℕ)
    → get_elem? group k ≡ some r
    → ((j : ℕ) → j < k → get_elem? group j ≢ some r)
    → translate_ranks group (pos r) ≡ pos k

module _ (translate_ranks : List ℕ → ℤ → ℤ) (translates : Translates translate_ranks) (g : Globals)
    (s : Comms) (inv : Inv s) (pe_start pe_logs pe_size k : ℕ) (member : k < pe_size) where
  abbrev root : ℕ
  root = pe_start + k * 2 ^ pe_logs

  translated :
      translated_root translate_ranks (pe_list pe_start (2 ^ pe_logs) 0 pe_size) (pos root) ≡ pos k
  unfolding translated_root
  translated =
      let named : leb_ℤ (pos 0) (pos root) ≡ true = ground arith in
      rw named (
        translates (pe_list pe_start (2 ^ pe_logs) 0 pe_size) k root
          (get_elem?-pe_list pe_start (2 ^ pe_logs) pe_size k member)
          (λ j less.
            pe_list_apart pe_start (2 ^ pe_logs) pe_size k j (pow_pos pe_logs) member less))

  in_world : is_world g pe_start pe_logs pe_size ≡ true → root ≡ k
  in_world world =
      let start : pe_start ≡ 0 = ground arith in
      let logs : pe_logs ≡ 0 = ground arith in rw (start, logs) (omega arith)

  -- If MPI_Group_translate_ranks gives a rank's first place in a group, then a broadcast names its
  -- root to MPI by the root's rank in the communicator: the PE pe_start + k * 2^pe_logs, with k below
  -- pe_size, has rank k, whichever way the communicator was found.
  pub acquire_comm-broot :
      (acquire_comm translate_ranks g s pe_start pe_logs pe_size (pos root)).broot ≡ pos k
  unfolding acquire_comm create_comm
  acquire_comm-broot =
      elim (acquire_cases translate_ranks g s inv pe_start pe_logs pe_size (pos root)) [
        | inl (world, is) ↦ ap (λ r. r.broot) is ∙ ap pos (in_world world)
        | inr (inl (part, caching, (e, hit, comm, same))) ↦
            let (n, held) =
              lookup-held pe_start pe_logs pe_size s.serial s.comm_cache e inv.sound hit in
            let group : e.group ≡ some (pe_list pe_start (2 ^ pe_logs) 0 pe_size) =
              ap (λ x. x.group) held in
            simp (part, caching, hit, group) translated
        | inr (inr (part, is)) ↦ ap (λ r. r.broot) is ∙ translated
      ]
