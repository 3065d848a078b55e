-- ===== src/Mpi/Network/Single.antt =====
-- Lists of actions that start one write.
use oshmpi.Prelude.{◌≡◌, inr, refl, ap, ◌∙◌, some, List, [], ◌∷◌, ◌++◌}
use oshmpi.Mpi.{Action}
use oshmpi.Mpi.Memory.{Memory}
use oshmpi.Mpi.Library.{Mpi, run}
use oshmpi.Mpi.Network.{
  Request, request_of, requests, started, deliver, Net, All, starts, Steps, performs,
}
use oshmpi.Mpi.Network.Runs.{All-append, All-map, requests-append, requests-some, Steps-then}
use oshmpi.Mpi.Network.Order.{IsPlain}
use oshmpi.Mpi.Network.Local.{IsQuick, locals-IsPlain, requests-locals, quick_steps}

module _ (mpi : Mpi) where
  -- One write among plain actions, which can be started without waiting.
  pub record IsSingle (r : Request) (l : List Action) : Type 0 where
    pub asks : requests mpi l ≡ r ∷ []
    pub plain : All (IsPlain mpi) l
    pub start :
        (n : Net) → Steps mpi l n [] (record n { pending = n.pending ++ started r n.memory ∷ [] })

  -- A call that starts a write, between actions that do neither that nor wait.
  pub call-IsSingle :
      (made : List Action) (call : Action) (rest : List Action) (r : Request)
      → All (IsQuick mpi) made
      → All (IsQuick mpi) rest
      → request_of mpi call ≡ some r
      → ((m : Memory) → run mpi (call ∷ []) m ≡ deliver (started r m) m)
      → IsSingle r (made ++ call ∷ rest)
  call-IsSingle made call rest r quick quick_rest is does =
      let locals = All-map (λ a h. h.0) made quick in
      let locals_rest = All-map (λ a h. h.0) rest quick_rest in
      record {
        asks =
            requests-append mpi made (call ∷ rest)
            ∙ ap (λ l. l ++ requests mpi (call ∷ rest)) (requests-locals mpi made locals)
            ∙ requests-some mpi call rest r is
            ∙ ap (λ l. r ∷ l) (requests-locals mpi rest locals_rest);
        plain =
            All-append (IsPlain mpi) made (call ∷ rest) (locals-IsPlain mpi made locals)
              (inr (r, is, does), locals-IsPlain mpi rest locals_rest);
        start = λ n.
            Steps-then mpi (quick_steps mpi made n quick) refl
              (performs (starts is) (quick_steps mpi rest _ quick_rest));
      }
