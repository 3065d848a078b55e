-- ===== src/Api/Gathered.antt =====
-- The collects of src/shmem.c, of one size or of several, when the PEs of an active set call one
-- together: what is in their memories then.
use mathlib.Core.List.{Memᴰ}
use native.Mathlib.Nat.{add-mul}
use oshmpi.Prelude.{
  ℕ, zero, suc, ◌+◌, ◌*◌, ◌^◌, ◌<◌, ◌≡◌, refl, sym, ap, ◌∙◌, Option, some, List, [], ◌∷◌, map,
  get_elem?, length, arith,
}
use oshmpi.Prelude.Int.{ℤ, negsuc}
use oshmpi.Mpi.{Datatype, basic, mpi_op_null}
use oshmpi.Mpi.Memory.{span, gather}
use oshmpi.Mpi.Library.{Mpi}
use oshmpi.Contiguous.{int_max}
use oshmpi.Globals.{Globals}
use oshmpi.Comm.{Comm, Comms, pe_list}
use oshmpi.Comm.Members.{Inv}
use oshmpi.Coll.{Collective, mpi_allgather, counts_call, coll_call, shmem_fcollect}
use oshmpi.Coll.Layout.{before}
use oshmpi.Coll.Calls.{plain_count, coll_called}
use oshmpi.Coll.Effect.{Memories, Documented, Counting}
use oshmpi.Api.Group.{Width, width_type, Call, collect, fcollect}
use oshmpi.Api.Together.{call_of, first_of, Agree, collect_effect}

-- shmem_collect32 and shmem_collect64, where each PE has a number of items, and shmem_fcollect32
-- and shmem_fcollect64, where all have the same.
pub data Gathering : Type 0 where
  collects : (nlong : ℕ → ℕ) → Gathering
  fcollects : (nlong : ℕ) → Gathering

abbrev pub count_of : Gathering → ℕ → ℕ
count_of (collects nlong) q = nlong q
count_of (fcollects nlong) q = nlong

-- The call of PE `q`, where `rcounts` is what its call of MPI_Allgather of the counts gives it.
abbrev pub gathering :
    (List ℕ → ℤ → ℤ)
    → (Datatype → ℕ)
    → Globals
    → Comms
    → (pe_start pe_logs pe_size : ℕ) → List ℤ
    → Gathering
    → Width
    → (target source : ℕ) (rcounts : List ℕ) (q : ℕ) → Call
gathering translate_ranks extent g s pe_start pe_logs pe_size psync (collects nlong) w target source
      rcounts q =
    collect translate_ranks extent g s pe_start pe_logs pe_size psync w target source (nlong q)
      rcounts
gathering translate_ranks extent g s pe_start pe_logs pe_size psync (fcollects nlong) w target
      source rcounts q =
    fcollect translate_ranks extent g s pe_start pe_logs pe_size psync w target source nlong

-- Before rank `i` are `i` blocks of one size.
pub before-same :
    (n : ℕ) (pes : List ℕ) (i q : ℕ)
    → get_elem? pes i ≡ some q
    → before (map (λ q. n) pes) i ≡ i * n
unfolding before
before-same n [] i q at = absurd (cc)
before-same n (x ∷ pes) zero q at = omega arith
before-same n (x ∷ pes) (suc i) q at =
    let rest = before-same n pes i q at in
    let next : suc i ≡ i + 1 = omega arith in
    let more : suc i * n ≡ i * n + 1 * n = ap (λ k. k * n) next ∙ add-mul i 1 n in
    omega (arith, rest, more)

module _ {mpi : Mpi} {together : List ℕ → (ℕ → Collective) → Memories → Memories}
    {Matched : List ℕ → (ℕ → Comm) → Type 0} (documented : Documented mpi together Matched)
    (translate_ranks : List ℕ → ℤ → ℤ) (g : ℕ → Globals) (s : ℕ → Comms)
    (ranks : (q : ℕ) → (g q).shmem_world_rank ≡ q) (invs : (q : ℕ) → Inv (s q))
    (pe_start pe_logs pe_size : ℕ) (psync : ℕ → List ℤ)
    (gathered : List ℕ → (ℕ → Option Collective) → ℕ → List ℕ)
    (counting : Counting mpi gathered Matched) where
  -- The PEs of an active set call a collect together, each with its own number of items or all with the
  -- same number, fewer than INT32_MAX each and fewer than 2^31 in all, and the communicators that they
  -- acquire are one. The counts that a PE places the items of a collect by are what MPI_Allgather of
  -- the counts gives it. Then the target of each PE holds the items of all, end to end in the order of
  -- the active set: those of the PE that has `i` PEs before it stand behind as many items as these
  -- have. This rests on what MPI documents of MPI_Allgather and MPI_Allgatherv.
  pub gathering_effect :
      (k : Gathering) (w : Width) (target source : ℕ)
      → ((q : ℕ) → count_of k q < int_max)
      → before
          (map (count_of k) (pe_list pe_start (2 ^ pe_logs) 0 pe_size))
          (length (map (count_of k) (pe_list pe_start (2 ^ pe_logs) 0 pe_size)))
        < 2 ^ 31
      → (comm : ℕ → Comm)
      → Agree documented translate_ranks g s ranks invs pe_start pe_logs pe_size psync
          (negsuc 0)
          comm
      → (firsts : ℕ → Option Collective) (calls : ℕ → Collective)
      → ((q : ℕ)
          → Memᴰ q (pe_list pe_start (2 ^ pe_logs) 0 pe_size)
          → let o =
              (gathering translate_ranks mpi.extent
                (g q)
                (s q)
                pe_start
                pe_logs
                pe_size
                (psync q)
                k
                w
                target
                source
                (gathered (pe_list pe_start (2 ^ pe_logs) 0 pe_size) firsts q)
                q).outcome in
            (first_of o ≡ firsts q) × (call_of o ≡ some (calls q)))
      → (mems : Memories) (p i q : ℕ) → Memᴰ p (pe_list pe_start (2 ^ pe_logs) 0 pe_size)
      → get_elem? (pe_list pe_start (2 ^ pe_logs) 0 pe_size) i ≡ some q
      → gather
          (together (pe_list pe_start (2 ^ pe_logs) 0 pe_size) calls mems p)
          (target
            + before (map (count_of k) (pe_list pe_start (2 ^ pe_logs) 0 pe_size)) i
              * mpi.type_size (width_type w))
          (span 0 (count_of k q * mpi.type_size (width_type w)))
        ≡ gather (mems q) source (span 0 (count_of k q * mpi.type_size (width_type w)))
  unfolding fcollect coll_call counts_call
  gathering_effect (collects nlong) w target source small sum comm agree firsts calls made mems p i
        q in_set at =
      collect_effect documented translate_ranks g s ranks invs pe_start pe_logs pe_size psync
        gathered counting w target source nlong small sum comm agree firsts calls made mems p i q
        in_set at
  gathering_effect (fcollects nlong) w target source small sum comm (matched, acquired) firsts calls
        made mems p i q in_set at =
      let pes = pe_list pe_start (2 ^ pe_logs) 0 pe_size in
      let is : (r : ℕ)
          → Memᴰ r pes
          → calls r ≡ mpi_allgather source nlong (basic (width_type w)) target (some (comm r)) =
        λ r inside.
          let (plain, kept) = plain_count mpi.extent nlong (width_type w) (small r) in
          let called_so =
            coll_called translate_ranks mpi.extent (g r) (s r) (invs r) (negsuc 0) pe_start pe_logs
              pe_size shmem_fcollect (width_type w) mpi_op_null target source nlong [] _ refl in
          let e : some (calls r)
              ≡ some (mpi_allgather source nlong (basic (width_type w)) target (some (comm r))) =
            rw (plain, acquired r inside) at (sym (made r inside).1 ∙ ap call_of called_so) in
          cc in
      rw (before-same nlong pes i q at) (
        documented.allgather pes comm calls mems source target nlong (width_type w) matched is p i q
          in_set at)
