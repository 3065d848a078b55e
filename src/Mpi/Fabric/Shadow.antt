-- ===== src/Mpi/Fabric/Shadow.antt =====
-- What a process does, and what is pending from it, does not depend on what the bytes are.
use mathlib.Core.Path.{subst}
use oshmpi.Prelude.{
  ℕ, ◌≡◌, ◌≢◌, ◌⊎◌, inl, inr, refl, sym, ap, ◌∙◌, List, [], ◌∷◌, ◌++◌, ◌==◌, Bool-cases, map-append,
  arith,
}
use oshmpi.Mpi.{Action, win_flush, win_flush_all}
use oshmpi.Mpi.Memory.{Memory}
use oshmpi.Mpi.Library.{Mpi, run}
use oshmpi.Mpi.Network.{
  Request, Write, started, deliver, Net, All, Completed, Passes, starts, acts, delivers, Steps,
  here, performs, arrives,
}
use oshmpi.Mpi.Network.Order.{asked}
use oshmpi.Mpi.Network.Message.{at_rest}
use oshmpi.Mpi.Fabric.{Fabric, seen_by, begin, Turn, turn, Turns, start, then_turn}
use oshmpi.Mpi.Fabric.Project.{Steps-after}

module _ {κ} (P : Request → Type κ) where
  asked-All : (us : List Write) → All (λ u. P u.request) us → All P (asked us)
  asked-All [] h = tt
  asked-All (u ∷ us) h = (h.0, asked-All us h.1)

  All-asked : (us : List Write) → All P (asked us) → All (λ u. P u.request) us
  All-asked [] h = tt
  All-asked (u ∷ us) h = (h.0, All-asked us h.1)

  pub All-same :
      (us vs : List Write)
      → asked us ≡ asked vs
      → All (λ u. P u.request) vs
      → All (λ u. P u.request) us
  All-same us vs e h = All-asked us (subst (All P) (sym e) (asked-All vs h))

Completed-same :
    (a : Action) (us vs : List Write) → asked us ≡ asked vs → Completed a vs → Completed a us
Completed-same (win_flush pe w) us vs e h = All-same (λ r. (r.pe ≢ pe) ⊎ (r.win ≢ w)) us vs e h
Completed-same (win_flush_all w) us vs e h = All-same (λ r. r.win ≢ w) us vs e h
Completed-same _ us vs e h = tt

record Split (us earlier : List Write) (u : Write) (later : List Write) : Type 0 where
  before : List Write
  one : Write
  behind : List Write
  whole : us ≡ before ++ one ∷ behind
  befores : asked before ≡ asked earlier
  ones : one.request ≡ u.request
  behinds : asked behind ≡ asked later

asked-Split :
    (us earlier : List Write) (u : Write) (later : List Write)
    → asked us ≡ asked (earlier ++ u ∷ later)
    → Split us earlier u later
asked-Split [] [] u later e = absurd (cc)
asked-Split [] (x ∷ earlier) u later e = absurd (cc)
asked-Split (v ∷ us) [] u later e = record {
  before = [];
  one = v;
  behind = us;
  whole = refl;
  befores = refl;
  ones = cc;
  behinds = cc;
}
asked-Split (v ∷ us) (x ∷ earlier) u later e =
    let rest : asked us ≡ asked (earlier ++ u ∷ later) = cc in
    let first : v.request ≡ x.request = cc in
    let s = asked-Split us earlier u later rest in
    record {
      before = v ∷ s.before;
      one = s.one;
      behind = s.behind;
      whole = ap (λ l. v ∷ l) s.whole;
      befores = ap (λ l. v.request ∷ l) s.befores ∙ ap (λ r. r ∷ asked earlier) first;
      ones = s.ones;
      behinds = s.behinds;
    }

asked-append : (us vs : List Write) → asked (us ++ vs) ≡ asked us ++ asked vs
asked-append us vs = map-append (λ (u : Write). u.request) us vs

module _ (mpi : Mpi) where
  -- The same steps on any memory, with other bytes on their way.
  pub shadows :
      {q p : List Action} {n n' : Net}
      → Steps mpi q n p n'
      → (k : Memory) (us : List Write) → asked us ≡ asked n.pending
      → (l : Net) × Steps mpi q (record { memory = k; pending = us }) p l
        × (asked l.pending ≡ asked n'.pending)
  shadows here k us e = (_, here, e)
  shadows (performs {n = n} (starts {r} is) more) k us e =
      let (l, ran, same) = shadows more k (us ++ started r k ∷ []) (
        asked-append us (started r k ∷ [])
        ∙ ap (λ x. x ++ r ∷ []) e
        ∙ sym (asked-append n.pending (started r n.memory ∷ []))) in
      (l, performs (starts is) ran, same)
  shadows (performs {a} {n = n} (acts is done) more) k us e =
      let (l, ran, same) = shadows more (run mpi (a ∷ []) k) us e in
      (l, performs (acts is (Completed-same a us n.pending e done)) ran, same)
  shadows (arrives {n = n} (delivers earlier u later is passes) more) k us e =
      let s = asked-Split us earlier u later (e ∙ ap asked is) in
      let (l, ran, same) = shadows more (deliver s.one k) (s.before ++ s.behind) (
        asked-append s.before s.behind
        ∙ ap (λ x. x ++ asked s.behind) s.befores
        ∙ ap (λ x. asked earlier ++ x) s.behinds
        ∙ sym (asked-append earlier later)) in
      (
        l,
        arrives
            (delivers s.before s.one s.behind s.whole (
              subst (λ r. All (λ x. Passes r x.request) s.before) (sym s.ones)
                (All-same (Passes u.request) s.before earlier s.befores passes)))
            ran,
        same,
      )

  module _ (size : ℕ) (programs : ℕ → List Action) (m : Memory) where
    -- A run of the process alone that has come as far and has asked for as much.
    abbrev pub HasShadow : ℕ → Fabric → Type 0
    HasShadow i s =
        (l : Net) × Steps mpi (programs i) (at_rest mpi m) (s.todo i) l
        × (asked l.pending ≡ asked (s.pending i))

    Turn-HasShadow : {s t : Fabric} → Turn mpi size s t → (i : ℕ) → HasShadow i s → HasShadow i t
    Turn-HasShadow {s} (turn j {q} {n} less ran) i (l, before, same) = elim (Bool-cases (j == i)) [
      | inl is ↦
          let e : j ≡ i = ground arith in
          let ran' : Steps mpi (s.todo i) (seen_by s i) q n =
            subst (λ x. Steps mpi (s.todo x) (seen_by s x) q n) e ran in
          let (l', then_on, same') = shadows ran' l.memory l.pending same in
          rw is (l', Steps-after mpi before then_on, same')
      | inr other ↦ rw other (l, before, same)
    ]

    pub Turns-HasShadow :
        {s : Fabric} → Turns mpi size (begin programs m) s → (i : ℕ) → HasShadow i s
    Turns-HasShadow start i = (_, here, refl)
    Turns-HasShadow (then_turn before one) i = Turn-HasShadow one i (Turns-HasShadow before i)
