-- ===== src/Mpi/Network/Message.antt =====
-- Writes on two sides of a completion: no state has one of the later and not all of the earlier.
use mathlib.Core.Path.{subst}
use oshmpi.Prelude.{ℕ, ◌≡◌, ◌⊎◌, inl, inr, refl, sym, ap, ◌∙◌, List, [], ◌++◌, append-nil}
use oshmpi.Mpi.{Action}
use oshmpi.Mpi.Memory.{Memory}
use oshmpi.Mpi.Library.{Mpi, run}
use oshmpi.Mpi.Network.{requests, Net, All, Steps}
use oshmpi.Mpi.Network.Runs.{All-append, requests-append, Steps-split}
use oshmpi.Mpi.Network.Order.{IsPlain, Keeps, AllPairs}
use oshmpi.Mpi.Network.Local.{IsLocal, locals-IsPlain, requests-locals, delivered}
use oshmpi.Mpi.Network.Frame.{IsMissed, Steps-outside}

module _ (mpi : Mpi) (m : Memory) where
  -- Nothing is pending, and memory is `m`.
  abbrev pub at_rest : Net
  at_rest = record { memory = m; pending = [] }

  -- In a state, the writes of `ys` have changed nothing, or those of `xs` are all delivered.
  abbrev pub Separated : (xs ys : List Action) → Net → Type 0
  Separated xs ys n =
      ((b : ℕ) → All (IsMissed mpi b) (requests mpi xs) → n.memory b ≡ m b)
      ⊎ ((b : ℕ) → All (IsMissed mpi b) (requests mpi ys) → n.memory b ≡ run mpi xs m b)

  pub separates :
      (xs mid ys : List Action)
      → All (IsPlain mpi) xs
      → All (IsLocal mpi) mid
      → All (IsPlain mpi) ys
      → AllPairs Keeps (requests mpi xs)
      → ((n : Net) → Steps mpi (xs ++ mid) at_rest [] n → n.pending ≡ [])
      → {p : List Action} {n : Net} → Steps mpi ((xs ++ mid) ++ ys) at_rest p n
      → Separated xs ys n
  separates xs mid ys plain locals plain_ys pairs clears {p} {n} ran =
      elim (Steps-split mpi (xs ++ mid) ys ran refl) [
        | inl (xs', left, first) ↦ inl (λ b missed.
            let same : requests mpi (xs ++ mid) ≡ requests mpi xs =
              requests-append mpi xs mid
              ∙ ap (λ l. requests mpi xs ++ l) (requests-locals mpi mid locals)
              ∙ append-nil (requests mpi xs) in
            Steps-outside mpi b first
              (All-append (IsPlain mpi) xs mid plain (locals-IsPlain mpi mid locals))
              (subst (All (IsMissed mpi b)) (sym same) missed) tt)
        | inr (between, first, second) ↦ inr (λ b missed.
            let empty = clears between first in
            Steps-outside mpi b second plain_ys missed
              (subst (All (λ u. IsMissed mpi b u.request)) (sym empty) tt)
            ∙ ap (λ k. k b) (delivered mpi xs mid plain locals pairs m between first empty))
      ]
