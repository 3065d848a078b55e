-- ===== src/Mpi/Fabric/Alone.antt =====
-- The steps of a process on another memory, which agrees where the process reads and writes.
use mathlib.Core.Path.{subst}
use oshmpi.Prelude.{ℕ, ◌≡◌, ◌⊎◌, inl, inr, sym, ap, ◌∙◌, List, [], ◌∷◌, ◌++◌}
use oshmpi.Mpi.{Action}
use oshmpi.Mpi.Memory.{Memory, Misses}
use oshmpi.Mpi.Library.{Mpi, run}
use oshmpi.Mpi.Network.{
  Request, requests, Write, started, deliver, Net, All, starts, acts, delivers, Steps, here,
  performs, arrives,
}
use oshmpi.Mpi.Network.Runs.{All-append, All-remove, All-right, requests-none, requests-some}
use oshmpi.Mpi.Network.Apart.{gather_same, deliver_at}
use oshmpi.Mpi.Network.Order.{IsPlain}

module _ (F : ℕ → Type 0) where
  -- Every byte that is read or written is as `F` says.
  abbrev pub Stays : Request → Type 0
  Stays r = (b : ℕ) → (Misses r.origin b r.places ⊎ F b) × (Misses r.target b r.there ⊎ F b)

  abbrev pub Agree : Memory → Memory → Type 0
  Agree k m = (b : ℕ) → F b → k b ≡ m b

  started_same : (r : Request) (k m : Memory) → Stays r → Agree k m → started r k ≡ started r m
  started_same r k m stays agree =
      ap (λ bytes. record { request = r; bytes = bytes })
        (gather_same k m r.origin r.places
          (λ b. elim (stays b).0 [ inl miss ↦ inl miss | inr free ↦ inr (agree b free) ]))

  deliver_same :
      (u : Write) (k m : Memory) → Stays u.request → Agree k m → Agree (deliver u k) (deliver u m)
  deliver_same u k m stays agree b free =
      deliver_at u k m b
        (λ c. elim (stays c).1 [ inl miss ↦ inl miss | inr inside ↦ inr (agree c inside) ])
        (agree b free)

  -- The same steps can be taken there, and the memories agree behind them.
  pub follows :
      {mpi : Mpi} {q p : List Action} {n n' : Net}
      → Steps mpi q n p n'
      → All (IsPlain mpi) q
      → All Stays (requests mpi q)
      → All (λ u. Stays u.request) n.pending
      → (k : Memory) → Agree k n.memory
      → (k' : Memory) × Steps mpi q
          (record { memory = k; pending = n.pending })
          p
          (record { memory = k'; pending = n'.pending })
        × Agree k' n'.memory
  follows here plain asks waits k agree = (k, here, agree)
  follows {mpi} {q} {p} {n} {n'} (performs {a} {rest} (starts {r} e) more) plain asks waits k
        agree =
      let now : All Stays (r ∷ requests mpi rest) =
        subst (All Stays) (requests-some mpi a rest r e) asks in
      let (k', ran, agree') =
        follows more plain.1 now.1 (All-append (λ u. Stays u.request) n.pending _ waits (now.0, tt))
          k agree in
      let ran' : Steps mpi rest (record { memory = k; pending = n.pending ++ started r k ∷ [] }) p
          (record { memory = k'; pending = n'.pending }) =
        subst
          (λ u.
            Steps mpi rest (record { memory = k; pending = n.pending ++ u ∷ [] }) p
              (record { memory = k'; pending = n'.pending }))
          (sym (started_same r k n.memory now.0 agree)) ran in
      (k', performs (starts e) ran', agree')
  follows {mpi} {q} {p} {n} {n'} (performs {a} {rest} (acts e done) more) plain asks waits k agree =
      elim plain.0 [
        | inr (r', e', does) ↦ absurd (cc)
        | inl (other, keeps) ↦
            let (k', ran, agree') =
              follows more plain.1 (subst (All Stays) (requests-none mpi a rest e) asks) waits k
                (λ b free. agree b free ∙ sym (ap (λ m. m b) (keeps n.memory))) in
            let ran' : Steps mpi rest (record { memory = run mpi (a ∷ []) k; pending = n.pending })
                p (record { memory = k'; pending = n'.pending }) =
              subst
                (λ m.
                  Steps mpi rest (record { memory = m; pending = n.pending }) p
                    (record { memory = k'; pending = n'.pending }))
                (sym (keeps k)) ran in
            (k', performs (acts e done) ran', agree')
      ]
  follows {n = n} (arrives (delivers earlier u later is passes) more) plain asks waits k agree =
      let all : All (λ u. Stays u.request) (earlier ++ u ∷ later) =
        subst (All (λ u. Stays u.request)) is waits in
      let now = (All-right (λ u. Stays u.request) earlier (u ∷ later) all).0 in
      let (k', ran, agree') =
        follows more plain asks (All-remove (λ u. Stays u.request) earlier u later all)
          (deliver u k) (deliver_same u k n.memory now agree) in
      (k', arrives (delivers earlier u later is passes) ran, agree')
