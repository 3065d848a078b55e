-- ===== src/Strided/Layout.antt =====
-- The bytes that the vector types of a strided transfer of src/shmem-internals.c name, and the effect of
-- the calls around it.
use oshmpi.Prelude.{ℕ, ◌*◌, ◌≡◌, inl, inr, ◌∙◌, List, [], ◌∷◌, arith, Bool-cases}
use oshmpi.Prelude.Int.{pos, eqb_ℤ}
use oshmpi.Mpi.{Basic, basic, type_vector, Action, Win, win_flush_local}
use oshmpi.Mpi.Memory.{Memory, span, tile, tile_one}
use oshmpi.Mpi.Library.{Mpi, run}
use oshmpi.Globals.{Globals}
use oshmpi.Window.{Located, window_of}
use oshmpi.Mpi.Network.Local.{run-append}
use oshmpi.Strided.{Vectors, vectors, with_vectors}

-- The bytes of `n` items of `k` bytes, `stride` items apart.
abbrev pub every : (n stride k : ℕ) → List ℕ
every n stride k = tile n (stride * k) (span 0 k)

module _ (mpi : Mpi) (b : Basic) (n : ℕ) where
  open mpi use {type_size, extent, typemap, typemap-basic, typemap-vector, extent-basic}

  vector_bytes :
      (stride : ℕ)
      → tile 1
          (extent (type_vector (pos n) (pos 1) (pos stride) (basic b)))
          (typemap (type_vector (pos n) (pos 1) (pos stride) (basic b)))
        ≡ every n stride (type_size b)
  vector_bytes stride = rw (tile_one, typemap-vector, tile_one, typemap-basic, extent-basic)

  abbrev types : (t s : ℕ) → Vectors
  types t s = vectors b (pos t) (pos s) n

  pub source_bytes :
      (t s : ℕ)
      → tile 1 (extent (types t s).source_type) (typemap (types t s).source_type)
        ≡ every n s (type_size b)
  unfolding vectors
  source_bytes t s = elim (Bool-cases (eqb_ℤ (pos t) (pos s))) [
    | inl equal ↦ rw equal (vector_bytes s)
    | inr other ↦ rw other (vector_bytes s)
  ]

  pub target_bytes :
      (t s : ℕ)
      → tile 1 (extent (types t s).target_type) (typemap (types t s).target_type)
        ≡ every n t (type_size b)
  unfolding vectors
  target_bytes t s = elim (Bool-cases (eqb_ℤ (pos t) (pos s))) [
    | inl equal ↦ let e : t ≡ s = ground arith in rw (equal, e) (vector_bytes s)
    | inr other ↦ rw other (vector_bytes t)
  ]

  made-run : (t s : ℕ) (m : Memory) → run mpi (types t s).made m ≡ m
  unfolding vectors run
  made-run t s m = elim (Bool-cases (eqb_ℤ (pos t) (pos s))) [
    | inl equal ↦ rw equal (simp (mpi.effect-create, mpi.effect-commit))
    | inr other ↦ rw other (simp (mpi.effect-create, mpi.effect-commit))
  ]

  freed-run :
      (t s pe : ℕ) (w : Win) (m : Memory) → run mpi (win_flush_local pe w ∷ (types t s).freed) m ≡ m
  unfolding vectors run
  freed-run t s pe w m = elim (Bool-cases (eqb_ℤ (pos t) (pos s))) [
    | inl equal ↦ rw equal (simp (mpi.effect-flush_local, mpi.effect-free))
    | inr other ↦ rw other (simp (mpi.effect-flush_local, mpi.effect-free))
  ]

  pub with_vectors-run :
      (g : Globals) (t s pe : ℕ) (l : Located) (call : Action) (m m' : Memory)
      → run mpi (call ∷ []) m ≡ m'
      → run mpi (with_vectors g (types t s) call pe l) m ≡ m'
  with_vectors-run g t s pe l call m m' e =
      run-append mpi (types t s).made _ m
      ∙ rw (made-run)
          (run-append mpi (call ∷ []) _ m ∙ rw e (freed-run t s pe (window_of l.win_id) m'))
