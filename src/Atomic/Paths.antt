-- ===== src/Atomic/Paths.antt =====
-- The atomic operations of src/shmem-internals.c: their effect through shared memory and through MPI.
use oshmpi.Prelude.{
  ℕ, ◌+◌, ◌-◌, ◌≡◌, ◌⊎◌, inl, inr, true, refl, ap, ◌∙◌, some, List, arith, Bool-cases,
  if◌then◌else◌,
}
use oshmpi.Mpi.{Basic}
use oshmpi.Mpi.Memory.{Memory, span, gather, scatter}
use oshmpi.Mpi.Library.{Mpi, run, add_bytes, bytes_eq}
use oshmpi.Globals.{Globals}
use oshmpi.Window.{WindowId, sheap_window, etext_window, window_offset, window_of}
use oshmpi.Window.Lookup.{InSheap, InEtext, Sheap-cases, window_offset-sheap, window_offset-etext}
use oshmpi.Rma.{bypasses, peer_ptr}
use oshmpi.Rma.Places.{
  Shared, memory_after, remote_address, remote_address-sheap, remote_address-etext, located,
  bypasses-sheap, bypasses-smp,
}
use oshmpi.Atomic.{is_integer, oshmpi_swap, oshmpi_cswap, oshmpi_add, oshmpi_fadd}

-- The value of a type at an address, and memory with another value there.
abbrev pub load : Mpi → Basic → Memory → ℕ → List ℕ
load mpi b m a = gather m a (span 0 (mpi.type_size b))

abbrev pub store : Mpi → Basic → Memory → ℕ → List ℕ → Memory
store mpi b m a v = scatter m a (span 0 (mpi.type_size b)) v

-- A located address, and where it stands at the PE.
record Spot (mpi : Mpi) (g : Globals) (remote pe : ℕ) : Type 0 where
  id : WindowId
  d : ℕ
  at : window_offset g remote pe ≡ located id d
  heap : id ≡ sheap_window → d ≡ remote - g.shmem_sheap_base_ptr
  place : remote_address mpi g remote pe ≡ mpi.base (window_of id) pe + d

module _ {mpi : Mpi} {g : Globals} {pe : ℕ} (shared : Shared mpi g pe) (b : Basic)
    (integer : is_integer b ≡ true) (remote : ℕ) (found : InSheap g remote ⊎ InEtext g remote)
    (m : Memory) where
  spot : Spot mpi g remote pe
  spot = elim (Sheap-cases g remote) [
    | inl heap ↦ record {
      id = sheap_window;
      d = _;
      at = window_offset-sheap g remote pe heap;
      heap = λ _. refl;
      place = remote_address-sheap mpi g remote pe heap;
    }
    | inr outside ↦ record {
      id = etext_window;
      d = _;
      at = window_offset-etext g remote pe outside (ground arith);
      heap = λ e. cc;
      place = remote_address-etext mpi g remote pe outside;
    }
  ]

  -- On the fast path the peer's pointer is the place.
  fast_place :
      (s : Spot mpi g remote pe)
      → bypasses g (located s.id s.d) ≡ true
      → peer_ptr g remote pe ≡ mpi.base (window_of s.id) pe + s.d
  fast_place s fast =
      let sheap = bypasses-sheap g s.id s.d fast in
      rw (sheap, s.heap sheap, shared.ptrs (bypasses-smp g (located s.id s.d) fast))

  abbrev there : ℕ
  there = remote_address mpi g remote pe

  -- An atomic swap of an integer type at an address that is found returns on either path; it has
  -- stored the input at the object of the PE, and the value that the object had at the output.
  pub swap_effect :
      (output input : ℕ)
      → memory_after mpi (oshmpi_swap g b output remote input pe) m
        ≡ some (store mpi b (store mpi b m there (load mpi b m input)) output (load mpi b m there))
  unfolding oshmpi_swap run
  swap_effect output input = elim (Bool-cases (bypasses g (located spot.id spot.d))) [
    | inl fast ↦ rw (spot.place, spot.at, fast, integer, fast_place spot fast)
    | inr slow ↦
        rw (spot.place, spot.at, slow)
          (ap some (mpi.effect-flush _ _ _ ∙ mpi.effect-replace _ _ _ _ _ _ _))
  ]

  -- An atomic compare-and-swap of an integer type at an address that is found returns on either
  -- path; it has stored the input at the object of the PE just if that had the bytes of the
  -- comparand, and the value that the object had at the output.
  pub cswap_effect :
      (output input compare : ℕ)
      → memory_after mpi (oshmpi_cswap g b output remote input compare pe) m
        ≡ some (
            store mpi b
              (if bytes_eq (load mpi b m there) (load mpi b m compare)
                then store mpi b m there (load mpi b m input)
                else m)
              output
              (load mpi b m there))
  unfolding oshmpi_cswap run
  cswap_effect output input compare = elim (Bool-cases (bypasses g (located spot.id spot.d))) [
    | inl fast ↦ rw (spot.place, spot.at, fast, integer, fast_place spot fast)
    | inr slow ↦
        rw (spot.place, spot.at, slow)
          (ap some (mpi.effect-flush _ _ _ ∙ mpi.effect-compare_and_swap _ _ _ _ _ _ _ _))
  ]

  -- An atomic add of an integer type at an address that is found returns on either path; it has
  -- added the input to the object of the PE, byte by byte with carries, and changed nothing else.
  pub add_effect :
      (input : ℕ)
      → memory_after mpi (oshmpi_add g b remote input pe) m
        ≡ some (store mpi b m there (add_bytes 0 (load mpi b m there) (load mpi b m input)))
  unfolding oshmpi_add run
  add_effect input = elim (Bool-cases (bypasses g (located spot.id spot.d))) [
    | inl fast ↦ rw (spot.place, spot.at, fast, integer, fast_place spot fast)
    | inr slow ↦
        rw (spot.place, spot.at, slow)
          (ap some (mpi.effect-flush_local _ _ _ ∙ mpi.effect-accumulate_sum _ _ _ _ _ _))
  ]

  pub fadd_effect :
      (output input : ℕ)
      → memory_after mpi (oshmpi_fadd g b output remote input pe) m
        ≡ some (
            store mpi b
              (store mpi b m there (add_bytes 0 (load mpi b m there) (load mpi b m input)))
              output
              (load mpi b m there))
  unfolding oshmpi_fadd run
  fadd_effect output input = elim (Bool-cases (bypasses g (located spot.id spot.d))) [
    | inl fast ↦ rw (spot.place, spot.at, fast, integer, fast_place spot fast)
    | inr slow ↦
        rw (spot.place, spot.at, slow)
          (ap some (mpi.effect-flush _ _ _ ∙ mpi.effect-sum _ _ _ _ _ _ _))
  ]
