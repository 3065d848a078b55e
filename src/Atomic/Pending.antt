-- ===== src/Atomic/Pending.antt =====
-- oshmpi_add of src/shmem-internals.c on its way: what it asks of the network when it does not bypass MPI.
use oshmpi.Prelude.{
  ℕ, ◌+◌, ◌-◌, ◌≡◌, ◌⊎◌, inl, inr, refl, sym, ◌∙◌, true, false, [], ◌∷◌, arith, ◌&&◌,
}
use oshmpi.Prelude.Int.{pos}
use oshmpi.Mpi.{Basic, basic, Win, mpi_sum, accumulate, win_flush_local}
use oshmpi.Mpi.Memory.{span, tile, tile_one}
use oshmpi.Mpi.Library.{Mpi, run}
use oshmpi.Mpi.Network.{Request, request_of, deliver}
use oshmpi.Mpi.Network.Single.{IsSingle, call-IsSingle}
use oshmpi.Globals.{Globals}
use oshmpi.Window.{WindowId, sheap_window, etext_window, Located, window_of}
use oshmpi.Window.Lookup.{InSheap, InEtext, Sheap-cases, window_offset-sheap, window_offset-etext}
use oshmpi.Rma.{bypasses}
use oshmpi.Rma.Places.{located, remote_address, remote_address-sheap, remote_address-etext}
use oshmpi.Rma.Pending.{performed, flush_local-IsQuick}
use oshmpi.Atomic.{oshmpi_add}

module _ (mpi : Mpi) (g : Globals) (b : Basic) (remote input pe : ℕ) where
  -- What an addition asks for: the bytes at `input`, added to the object at the PE.
  abbrev pub add_request : Win → Request
  add_request w = record {
    pe = pe;
    win = w;
    ordered = true;
    adds = true;
    origin = input;
    places = span 0 (mpi.type_size b);
    target = remote_address mpi g remote pe;
    there = span 0 (mpi.type_size b);
  }

module _ (mpi : Mpi) (g : Globals) (b : Basic) (remote input pe : ℕ)
    (across : (g.smp_optimizations && g.shmem_world_is_smp) ≡ false) where
  module _ (w : Win) (d : ℕ) (place : mpi.base w pe + d ≡ remote_address mpi g remote pe) where
    one_item : tile 1 (mpi.extent (basic b)) (mpi.typemap (basic b)) ≡ span 0 (mpi.type_size b)
    one_item = tile_one (mpi.extent (basic b)) (mpi.typemap (basic b)) ∙ mpi.typemap-basic b

    added-IsSingle :
        IsSingle mpi (add_request mpi g b remote input pe w) (
          accumulate input 1 (basic b) pe (pos d) 1 (basic b) mpi_sum w ∷ win_flush_local pe w ∷ [])
    unfolding request_of run deliver
    added-IsSingle =
        call-IsSingle mpi [] (accumulate input 1 (basic b) pe (pos d) 1 (basic b) mpi_sum w)
          (win_flush_local pe w ∷ []) (add_request mpi g b remote input pe w) tt
          (flush_local-IsQuick mpi pe w, tt) (rw (one_item, place) refl)
          (λ m. mpi.effect-accumulate_sum input b pe d w m ∙ rw place refl)

  slow : (l : Located) → bypasses g l ≡ false
  slow l = ground arith

  -- An addition to an object that is found asks for one accumulate.
  pub add_asks :
      InSheap g remote ⊎ InEtext g remote
      → (w : WindowId) × ((w ≡ sheap_window) ⊎ (w ≡ etext_window))
        × IsSingle mpi
            (add_request mpi g b remote input pe (window_of w))
            (performed (oshmpi_add g b remote input pe))
  unfolding oshmpi_add
  add_asks found = elim (Sheap-cases g remote) [
    | inl heap ↦
        let l = window_offset-sheap g remote pe heap in
        let single =
          added-IsSingle (window_of sheap_window) (remote - g.shmem_sheap_base_ptr)
            (sym (remote_address-sheap mpi g remote pe heap)) in
        (
          sheap_window,
          inl refl,
          rw (l, slow (located sheap_window (remote - g.shmem_sheap_base_ptr))) single,
        )
    | inr outside ↦
        let l = window_offset-etext g remote pe outside (ground arith) in
        let single =
          added-IsSingle (window_of etext_window) (remote - g.shmem_etext_base_ptr)
            (sym (remote_address-etext mpi g remote pe outside)) in
        (
          etext_window,
          inr refl,
          rw (l, slow (located etext_window (remote - g.shmem_etext_base_ptr))) single,
        )
  ]
