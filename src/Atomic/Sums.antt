-- ===== src/Atomic/Sums.antt =====
-- Additions of oshmpi_add of src/shmem-internals.c to one object, on their way: the object with what has
-- still to be added to it.
use native.Mathlib.Nat.{mod-add-mod}
use mathlib.Core.Path.{subst}
use oshmpi.Prelude.{
  ℕ, ◌+◌, ◌%◌, ◌^◌, ◌≡◌, inl, inr, refl, sym, ap, ◌∙◌, true, List, [], ◌∷◌, ◌++◌, arith, length,
  append_assoc, map-append,
}
use oshmpi.Mpi.{Action}
use oshmpi.Mpi.Memory.{Memory, span, gather, gather-scatter, Misses, Apart, Apart-Misses}
use oshmpi.Mpi.Library.{Mpi, add_bytes}
use oshmpi.Mpi.Network.{
  Request, requests, Write, started, deliver, Net, All, Steps, here, performs, arrives, starts,
  acts, delivers,
}
use oshmpi.Mpi.Network.Runs.{All-append, All-remove, All-right, requests-none, requests-some}
use oshmpi.Mpi.Network.Apart.{gather_same, deliver_outside}
use oshmpi.Mpi.Network.Order.{IsPlain, asked}
use oshmpi.Rma.RoundTrip.{length-item}
use oshmpi.Atomic.Values.{number, length-add_bytes, add_bytes_wraps}

module _ (size cell : ℕ) (m : Memory) where
  -- An addition to the `size` bytes at `cell`, of bytes elsewhere.
  pub record IsAdd (r : Request) : Type 0 where
    pub adds : r.adds ≡ true
    pub places : r.places ≡ span 0 size
    pub target : r.target ≡ cell
    pub there : r.there ≡ span 0 size
    pub apart : Apart r.origin size cell size

  abbrev pub value : Memory → ℕ
  value k = number (gather k cell (span 0 size))

  -- What the additions add, from what memory was at first.
  unfoldable pub total : List Request → ℕ
  total [] = 0
  total (r ∷ rs) = number (gather m r.origin (span 0 size)) + total rs

  total-append : (rs qs : List Request) → total (rs ++ qs) ≡ total rs + total qs
  unfolding total
  total-append [] qs = omega arith
  total-append (r ∷ rs) qs = omega (arith, total-append rs qs)

  abbrev IsLoaded : Write → Type 0
  IsLoaded u = u.bytes ≡ gather m u.request.origin (span 0 size)

  -- No byte has changed but those of the object.
  abbrev pub IsKept : Memory → Type 0
  IsKept k = (b : ℕ) → Misses cell b (span 0 size) → k b ≡ m b

  start-IsLoaded : (r : Request) → IsAdd r → (k : Memory) → IsKept k → IsLoaded (started r k)
  start-IsLoaded r is k kept =
      ap (gather k r.origin) is.places
      ∙ gather_same k m r.origin (span 0 size) (λ b.
        elim (Apart-Misses r.origin size cell size b is.apart) [
          | inl miss ↦ inl miss
          | inr miss ↦ inr (kept b miss)
        ])

  deliver_value :
      (u : Write)
      → IsAdd u.request
      → IsLoaded u
      → (k : Memory)
      → value (deliver u k)
        ≡ (value k + number (gather m u.request.origin (span 0 size))) % 256 ^ size
  unfolding deliver
  deliver_value u is loaded k =
      let old = gather k cell (span 0 size) in
      let input = gather m u.request.origin (span 0 size) in
      let old_length : length old ≡ size = length-item k cell size in
      let lengths : length old ≡ length input =
        old_length ∙ sym (length-item m u.request.origin size) in
      rw (is.adds, is.target, is.there, loaded)
        (ap number (
            gather-scatter k cell 0 size (add_bytes 0 old input)
              (length-add_bytes 0 old input lengths ∙ old_length))
          ∙ add_bytes_wraps old input lengths
          ∙ ap (λ n. (number old + number input) % 256 ^ n) old_length)

  deliver-IsKept : (u : Write) → IsAdd u.request → (k : Memory) → IsKept k → IsKept (deliver u k)
  deliver-IsKept u is k kept b miss =
      deliver_outside u k b (rw (is.target, is.there) miss) ∙ kept b miss

  -- What a process has still to add.
  abbrev pub to_add : Mpi → List Action → List Write → ℕ
  to_add mpi q us = total (asked us ++ requests mpi q)

  remove_total :
      (earlier : List Write) (u : Write) (later : List Write) (rs : List Request)
      → total (asked (earlier ++ u ∷ later) ++ rs)
        ≡ number (gather m u.request.origin (span 0 size)) + total (asked (earlier ++ later) ++ rs)
  unfolding total
  remove_total [] u later rs = refl
  remove_total (v ∷ earlier) u later rs = omega (arith, remove_total earlier u later rs)

  -- A process whose writes are additions, in a state.
  pub record AddsOnly (mpi : Mpi) (q : List Action) (n : Net) : Type 0 where
    pub plain : All (IsPlain mpi) q
    pub asks : All IsAdd (requests mpi q)
    pub waits : All (λ u. IsAdd u.request) n.pending
    pub loaded : All IsLoaded n.pending

  module _ {mpi : Mpi} where
    -- Steps change neither that nor the value of the object with what has still to be added.
    pub steps_sum :
        {q p : List Action} {n n' : Net}
        → Steps mpi q n p n'
        → AddsOnly mpi q n
        → IsKept n.memory
        → AddsOnly mpi p n'
          × IsKept n'.memory
          × ((rest : ℕ)
              → (value n.memory + (to_add mpi q n.pending + rest)) % 256 ^ size
                ≡ (value n'.memory + (to_add mpi p n'.pending + rest)) % 256 ^ size)
    steps_sum here only kept = (only, kept, λ rest. refl)
    steps_sum (performs {a} {rest = l} {n = n} (starts {r} e) more) only kept =
        let asks : All IsAdd (r ∷ requests mpi l) =
          subst (All IsAdd) (requests-some mpi a l r e) only.asks in
        let u = started r n.memory in
        let (only', kept', sum) =
          steps_sum more
            (record {
              plain = only.plain.1;
              asks = asks.1;
              waits = All-append (λ x. IsAdd x.request) n.pending (u ∷ []) only.waits (asks.0, tt);
              loaded =
                  All-append IsLoaded n.pending (u ∷ []) only.loaded
                    (start-IsLoaded r asks.0 n.memory kept, tt);
            })
            kept in
        let same : asked n.pending ++ requests mpi (a ∷ l)
            ≡ asked (n.pending ++ u ∷ []) ++ requests mpi l =
          ap (λ x. asked n.pending ++ x) (requests-some mpi a l r e)
          ∙ sym (append_assoc (asked n.pending) (r ∷ []) (requests mpi l))
          ∙ ap (λ x. x ++ requests mpi l)
              (sym (map-append (λ (x : Write). x.request) n.pending (u ∷ []))) in
        (
          only',
          kept',
          λ rest. ap (λ x. (value n.memory + (total x + rest)) % 256 ^ size) same ∙ sum rest,
        )
    steps_sum (performs {a} {rest = l} {n = n} (acts e done) more) only kept = elim only.plain.0 [
      | inr (r, e', does) ↦ absurd (cc)
      | inl (other, keeps) ↦
          let (only', kept', sum) =
            steps_sum more
              (record {
                plain = only.plain.1;
                asks = subst (All IsAdd) (requests-none mpi a l e) only.asks;
                waits = only.waits;
                loaded = only.loaded;
              })
              (subst IsKept (sym (keeps n.memory)) kept) in
          (
            only',
            kept',
            λ rest.
                ap (λ x. (value n.memory + (total (asked n.pending ++ x) + rest)) % 256 ^ size)
                  (requests-none mpi a l e)
                ∙ ap (λ k. (value k + (to_add mpi l n.pending + rest)) % 256 ^ size)
                    (sym (keeps n.memory))
                ∙ sum rest,
          )
    ]
    steps_sum (arrives {q} {p} {n} (delivers earlier u later is passes) more) only kept =
        let waits : All (λ x. IsAdd x.request) (earlier ++ u ∷ later) =
          subst (All (λ x. IsAdd x.request)) is only.waits in
        let loaded : All IsLoaded (earlier ++ u ∷ later) = subst (All IsLoaded) is only.loaded in
        let add = (All-right (λ x. IsAdd x.request) earlier (u ∷ later) waits).0 in
        let bytes = (All-right IsLoaded earlier (u ∷ later) loaded).0 in
        let (only', kept', sum) =
          steps_sum more
            (record {
              plain = only.plain;
              asks = only.asks;
              waits = All-remove (λ x. IsAdd x.request) earlier u later waits;
              loaded = All-remove IsLoaded earlier u later loaded;
            })
            (deliver-IsKept u add n.memory kept) in
        let added = number (gather m u.request.origin (span 0 size)) in
        let left = to_add mpi q (earlier ++ later) in
        (
          only',
          kept',
          λ rest.
              ap (λ l. (value n.memory + (to_add mpi q l + rest)) % 256 ^ size) is
              ∙ ap (λ x. (value n.memory + (x + rest)) % 256 ^ size)
                  (remove_total earlier u later (requests mpi q))
              ∙ ap (λ x. x % 256 ^ size) (omega arith)
              ∙ sym (mod-add-mod (value n.memory + added) (256 ^ size) (left + rest))
              ∙ ap (λ x. (x + (left + rest)) % 256 ^ size)
                  (sym (deliver_value u add bytes n.memory))
              ∙ sum rest,
        )
