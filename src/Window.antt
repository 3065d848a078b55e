-- ===== src/Window.antt =====
-- oshmpi_window_offset of src/shmem-internals.c: which window an address lies in, and where.
pub mod Lookup
use oshmpi.Prelude.{ℕ, Bool, true, false, ◌&&◌, if◌then◌else◌}
use oshmpi.Prelude.Int.{ℤ, pos, sub_ℕ, leb_ℤ}
use oshmpi.Globals.{Globals}
use oshmpi.Mpi.{Win, sheap_win, etext_win}

-- enum shmem_window_id_e
pub data WindowId : Type 0 where
  sheap_window etext_window invalid_window : WindowId

-- The return value and the two OUT parameters.
pub record Located : Type 0 where
  pub rc : ℕ
  pub win_id : WindowId
  pub win_offset : ℤ

unfoldable pub window_offset : Globals → (address pe : ℕ) → Located
window_offset g address pe =
    let sheap_offset = sub_ℕ address g.shmem_sheap_base_ptr in
    let etext_offset = sub_ℕ address g.shmem_etext_base_ptr in
    if leb_ℤ (pos 0) sheap_offset && leb_ℤ sheap_offset (pos g.shmem_sheap_size)
    then record { rc = 0; win_id = sheap_window; win_offset = sheap_offset }
    else if leb_ℤ (pos 0) etext_offset && leb_ℤ etext_offset (pos g.shmem_etext_size)
    then record { rc = 0; win_id = etext_window; win_offset = etext_offset }
    else record { rc = 1; win_id = invalid_window; win_offset = pos 0 }

abbrev pub is_sheap : WindowId → Bool
is_sheap sheap_window = true
is_sheap _ = false

-- `(win_id==SHMEM_SHEAP_WINDOW) ? shmem_sheap_win : shmem_etext_win`
abbrev pub window_of : WindowId → Win
window_of id = if is_sheap id then sheap_win else etext_win
