-- ===== src/Mpi/Library/Eager.antt =====
-- A library that completes each operation at once, with windows 0x10000 bytes apart.
use oshmpi.Prelude.{ℕ, ◌+◌, ◌*◌, refl, List, ◌++◌, if◌then◌else◌}
use oshmpi.Prelude.Int.{pos_part}
use oshmpi.Mpi.{
  Basic, mpi_byte, mpi_char, mpi_short, mpi_int, mpi_long, mpi_long_long, mpi_float, mpi_double,
  mpi_long_double, mpi_int32_t, mpi_int64_t, mpi_complex, mpi_double_complex, mpi_c_double_complex,
  mpi_datatype_null, Datatype, basic, type_contiguous, type_vector, type_struct, Win, sheap_win,
  etext_win, lock_win, appnum_win, Op, mpi_sum, mpi_no_op, Action, put, get, accumulate,
  get_accumulate, fetch_and_op, compare_and_swap,
}
use oshmpi.Mpi.Memory.{Memory, span, shift, gather, scatter, tile}
use oshmpi.Mpi.Library.Defs.{Mpi, add_bytes, bytes_eq}

-- The sizes on x86-64 Linux.
abbrev sizes : Basic → ℕ
sizes mpi_byte = 1
sizes mpi_char = 1
sizes mpi_short = 2
sizes mpi_int = 4
sizes mpi_long = 8
sizes mpi_long_long = 8
sizes mpi_float = 4
sizes mpi_double = 8
sizes mpi_long_double = 16
sizes mpi_int32_t = 4
sizes mpi_int64_t = 8
sizes mpi_complex = 8
sizes mpi_double_complex = 16
sizes mpi_c_double_complex = 16
sizes mpi_datatype_null = 0

-- Extents of contiguous layouts; the code uses derived types one at a time.
abbrev extents : Datatype → ℕ
extents (basic b) = sizes b
extents (type_contiguous n t) = pos_part n * extents t
extents (type_vector n b s t) = pos_part n * pos_part s * extents t
extents (type_struct c d t u) = pos_part d + extents u

abbrev maps : Datatype → List ℕ
maps (basic b) = span 0 (sizes b)
maps (type_contiguous n t) = tile (pos_part n) (extents t) (maps t)
maps (type_vector n b s t) =
    tile (pos_part n) (pos_part s * extents t) (tile (pos_part b) (extents t) (maps t))
maps (type_struct c d t u) = shift (pos_part c) (maps t) ++ shift (pos_part d) (maps u)

abbrev bases : Win → ℕ → ℕ
bases sheap_win pe = 0x100000 + pe * 0x10000
bases etext_win pe = 0x800000 + pe * 0x10000
bases lock_win pe = 0xf00000 + pe * 16
bases appnum_win pe = 0xf80000 + pe * 4

abbrev items : ℕ → Datatype → List ℕ
items n t = tile n (extents t) (maps t)

abbrev value : Memory → ℕ → Basic → List ℕ
value m a b = gather m a (span 0 (sizes b))

abbrev store : Memory → ℕ → Basic → List ℕ → Memory
store m a b vs = scatter m a (span 0 (sizes b)) vs

abbrev combine : Op → List ℕ → List ℕ → List ℕ
combine mpi_sum old new = add_bytes 0 old new
combine _ old new = new

abbrev summed : (i : ℕ) → Datatype → (r : ℕ) → Memory → Memory
summed i (basic b) r m = store m r b (add_bytes 0 (value m r b) (value m i b))
summed i _ r m = m

abbrev effects : Action → Memory → Memory
effects (put a n t pe d n' t' w) m =
    scatter m (bases w pe + pos_part d) (items n' t') (gather m a (items n t))
effects (accumulate a n t pe d n' t' mpi_sum w) m = summed a t (bases w pe + pos_part d) m
effects (accumulate a n t pe d n' t' _ w) m =
    scatter m (bases w pe + pos_part d) (items n' t') (gather m a (items n t))
effects (get a n t pe d n' t' w) m =
    scatter m a (items n t) (gather m (bases w pe + pos_part d) (items n' t'))
effects (get_accumulate a n t pe d n' t' op w) m =
    scatter m a (items n t) (gather m (bases w pe + pos_part d) (items n' t'))
effects (fetch_and_op i o b pe d mpi_no_op w) m = store m o b (value m (bases w pe + pos_part d) b)
effects (fetch_and_op i o b pe d op w) m =
    let r = bases w pe + pos_part d in
    store (store m r b (combine op (value m r b) (value m i b))) o b (value m r b)
effects (compare_and_swap i c o b pe d w) m =
    let r = bases w pe + pos_part d in
    store (if bytes_eq (value m r b) (value m c b) then store m r b (value m i b) else m) o b
      (value m r b)
effects a m = m

abbrev pub eager : Mpi
eager = record {
  type_size = sizes;
  extent = extents;
  typemap = maps;
  base = bases;
  effect = effects;
  extent-basic = λ b. refl;
  typemap-basic = λ b. refl;
  typemap-contiguous = λ n t. refl;
  typemap-vector = λ n b s t. refl;
  typemap-struct = λ c d t u. refl;
  effect-put = λ a n t pe d n' t' w m. refl;
  effect-accumulate = λ a n t pe d n' t' w m. refl;
  effect-get = λ a n t pe d n' t' w m. refl;
  effect-get_accumulate = λ a n t pe d n' t' w m. refl;
  effect-replace = λ i o b pe d w m. refl;
  effect-no_op = λ i o b pe d w m. refl;
  effect-sum = λ i o b pe d w m. refl;
  effect-accumulate_sum = λ i b pe d w m. refl;
  effect-compare_and_swap = λ i c o b pe d w m. refl;
  effect-create = λ t m. refl;
  effect-commit = λ t m. refl;
  effect-free = λ t m. refl;
  effect-flush = λ pe w m. refl;
  effect-flush_local = λ pe w m. refl;
  effect-flush_all = λ w m. refl;
  effect-win_sync = λ w m. refl;
}
