-- ===== src/Mpi/Library/Defs.antt =====
-- The laws of chapters 4 and 11 of the MPI-3 standard that the code uses, and the run of a list of
-- actions. Bytes of an integer are little-endian.
use oshmpi.Prelude.{
  ℕ, ◌+◌, ◌*◌, ◌/◌, ◌%◌, ◌≡◌, Bool, true, false, ◌&&◌, List, [], ◌∷◌, ◌++◌, ◌==◌, if◌then◌else◌,
}
use oshmpi.Prelude.Int.{pos}
use oshmpi.Mpi.{
  Basic, Datatype, basic, type_contiguous, type_vector, type_struct, Win, mpi_sum, mpi_replace,
  mpi_no_op, Action, memcpy, sync_swap, sync_cswap, sync_fetch_add, sync_add, put, get, accumulate,
  get_accumulate, fetch_and_op, compare_and_swap,
}
use oshmpi.Mpi.Memory.{Memory, span, shift, gather, scatter, tile}

-- The sum of two integers of as many bytes, wrapping around, with a carry in.
unfoldable pub add_bytes : ℕ → List ℕ → List ℕ → List ℕ
add_bytes c [] ys = []
add_bytes c (x ∷ xs) [] = []
add_bytes c (x ∷ xs) (y ∷ ys) = ((x + y + c) % 256) ∷ add_bytes ((x + y + c) / 256) xs ys

unfoldable pub bytes_eq : List ℕ → List ℕ → Bool
bytes_eq [] [] = true
bytes_eq [] (y ∷ ys) = false
bytes_eq (x ∷ xs) [] = false
bytes_eq (x ∷ xs) (y ∷ ys) = (x == y) && bytes_eq xs ys

pub record Mpi : Type 0 where
  pub type_size : Basic → ℕ
  pub extent : Datatype → ℕ
  -- The displacements of the bytes of one item, in order.
  pub typemap : Datatype → List ℕ
  -- Where the memory of a window of a process stands.
  pub base : Win → ℕ → ℕ
  pub effect : Action → Memory → Memory
  pub extent-basic : (b : Basic) → extent (basic b) ≡ type_size b
  pub typemap-basic : (b : Basic) → typemap (basic b) ≡ span 0 (type_size b)
  pub typemap-contiguous :
      (n : ℕ) (t : Datatype) → typemap (type_contiguous (pos n) t) ≡ tile n (extent t) (typemap t)
  pub typemap-vector :
      (n b s : ℕ) (t : Datatype)
      → typemap (type_vector (pos n) (pos b) (pos s) t)
        ≡ tile n (s * extent t) (tile b (extent t) (typemap t))
  pub typemap-struct :
      (c d : ℕ) (t u : Datatype)
      → typemap (type_struct (pos c) (pos d) t u) ≡ shift c (typemap t) ++ shift d (typemap u)
  pub effect-put :
      (a n : ℕ) (t : Datatype) (pe d n' : ℕ) (t' : Datatype) (w : Win) (m : Memory)
      → effect (put a n t pe (pos d) n' t' w) m
        ≡ scatter m
            (base w pe + d)
            (tile n' (extent t') (typemap t'))
            (gather m a (tile n (extent t) (typemap t)))
  pub effect-accumulate :
      (a n : ℕ) (t : Datatype) (pe d n' : ℕ) (t' : Datatype) (w : Win) (m : Memory)
      → effect (accumulate a n t pe (pos d) n' t' mpi_replace w) m
        ≡ scatter m
            (base w pe + d)
            (tile n' (extent t') (typemap t'))
            (gather m a (tile n (extent t) (typemap t)))
  pub effect-get :
      (a n : ℕ) (t : Datatype) (pe d n' : ℕ) (t' : Datatype) (w : Win) (m : Memory)
      → effect (get a n t pe (pos d) n' t' w) m
        ≡ scatter m a
            (tile n (extent t) (typemap t))
            (gather m (base w pe + d) (tile n' (extent t') (typemap t')))
  pub effect-get_accumulate :
      (a n : ℕ) (t : Datatype) (pe d n' : ℕ) (t' : Datatype) (w : Win) (m : Memory)
      → effect (get_accumulate a n t pe (pos d) n' t' mpi_no_op w) m
        ≡ scatter m a
            (tile n (extent t) (typemap t))
            (gather m (base w pe + d) (tile n' (extent t') (typemap t')))
  pub effect-replace :
      (i o : ℕ) (b : Basic) (pe d : ℕ) (w : Win) (m : Memory)
      → effect (fetch_and_op i o b pe (pos d) mpi_replace w) m
        ≡ scatter
            (scatter m (base w pe + d) (span 0 (type_size b)) (gather m i (span 0 (type_size b))))
            o
            (span 0 (type_size b))
            (gather m (base w pe + d) (span 0 (type_size b)))
  pub effect-no_op :
      (i o : ℕ) (b : Basic) (pe d : ℕ) (w : Win) (m : Memory)
      → effect (fetch_and_op i o b pe (pos d) mpi_no_op w) m
        ≡ scatter m o (span 0 (type_size b)) (gather m (base w pe + d) (span 0 (type_size b)))
  pub effect-sum :
      (i o : ℕ) (b : Basic) (pe d : ℕ) (w : Win) (m : Memory)
      → effect (fetch_and_op i o b pe (pos d) mpi_sum w) m
        ≡ scatter
            (scatter m (base w pe + d) (span 0 (type_size b)) (
              add_bytes 0
                (gather m (base w pe + d) (span 0 (type_size b)))
                (gather m i (span 0 (type_size b)))))
            o
            (span 0 (type_size b))
            (gather m (base w pe + d) (span 0 (type_size b)))
  pub effect-accumulate_sum :
      (i : ℕ) (b : Basic) (pe d : ℕ) (w : Win) (m : Memory)
      → effect (accumulate i 1 (basic b) pe (pos d) 1 (basic b) mpi_sum w) m
        ≡ scatter m (base w pe + d) (span 0 (type_size b)) (
            add_bytes 0
              (gather m (base w pe + d) (span 0 (type_size b)))
              (gather m i (span 0 (type_size b))))
  pub effect-compare_and_swap :
      (i c o : ℕ) (b : Basic) (pe d : ℕ) (w : Win) (m : Memory)
      → effect (compare_and_swap i c o b pe (pos d) w) m
        ≡ scatter
            (if bytes_eq
                (gather m (base w pe + d) (span 0 (type_size b)))
                (gather m c (span 0 (type_size b)))
              then scatter m
                  (base w pe + d)
                  (span 0 (type_size b))
                  (gather m i (span 0 (type_size b)))
              else m)
            o
            (span 0 (type_size b))
            (gather m (base w pe + d) (span 0 (type_size b)))
  -- Completion and the making of types change no byte of the completed memory.
  pub effect-create : (t : Datatype) (m : Memory) → effect (Action.type_create t) m ≡ m
  pub effect-commit : (t : Datatype) (m : Memory) → effect (Action.type_commit t) m ≡ m
  pub effect-free : (t : Datatype) (m : Memory) → effect (Action.type_free t) m ≡ m
  pub effect-flush : (pe : ℕ) (w : Win) (m : Memory) → effect (Action.win_flush pe w) m ≡ m
  pub effect-flush_local :
      (pe : ℕ) (w : Win) (m : Memory) → effect (Action.win_flush_local pe w) m ≡ m
  pub effect-flush_all : (w : Win) (m : Memory) → effect (Action.win_flush_all w) m ≡ m
  pub effect-win_sync : (w : Win) (m : Memory) → effect (Action.win_sync w) m ≡ m

-- The accesses that the code makes itself are those of C and of the __sync builtins; the rest is
-- the library's.
module _ (mpi : Mpi) where
  open mpi use {type_size, effect}

  pub step : Action → Memory → Memory
  step (memcpy to from n) m = scatter m to (span 0 n) (gather m from (span 0 n))
  step (sync_swap b o p i) m =
      scatter (scatter m p (span 0 (type_size b)) (gather m i (span 0 (type_size b)))) o
        (span 0 (type_size b)) (gather m p (span 0 (type_size b)))
  step (sync_cswap b o p i c) m =
      scatter
        (if bytes_eq (gather m p (span 0 (type_size b))) (gather m c (span 0 (type_size b)))
          then scatter m p (span 0 (type_size b)) (gather m i (span 0 (type_size b)))
          else m)
        o (span 0 (type_size b)) (gather m p (span 0 (type_size b)))
  step (sync_fetch_add b o p i) m =
      scatter
        (scatter m p (span 0 (type_size b))
          (add_bytes 0 (gather m p (span 0 (type_size b))) (gather m i (span 0 (type_size b)))))
        o (span 0 (type_size b)) (gather m p (span 0 (type_size b)))
  step (sync_add b p i) m =
      scatter m p (span 0 (type_size b))
        (add_bytes 0 (gather m p (span 0 (type_size b))) (gather m i (span 0 (type_size b))))
  step Action.sync_synchronize m = m
  step a m = effect a m

  unfoldable pub run : List Action → Memory → Memory
  unfolding step
  run [] m = m
  run (a ∷ rest) m = run rest (step a m)
