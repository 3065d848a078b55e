-- ===== src/Api/Query.antt =====
-- The queries of src/shmem.c: shmem_pe_accessible, shmem_addr_accessible and shmem_ptr.
use oshmpi.Prelude.{
  ℕ, ◌+◌, ◌-◌, ◌≤◌, ◌≡◌, ◌≢◌, ◌⊎◌, ◌↔◌, inl, inr, refl, sym, ap, ◌∙◌, Bool, true, false, ◌&&◌,
  Option, none, some, arith, ◌==◌, leb, Bool-cases, if◌then◌else◌,
}
use oshmpi.Prelude.Int.{ℤ, pos, negsuc}
use oshmpi.Mpi.Library.{Mpi}
use oshmpi.Globals.{Globals}
use oshmpi.Window.{window_offset, is_sheap}
use oshmpi.Window.Lookup.{
  InSheap, InEtext, Sheap-cases, Etext-cases, window_offset-sheap, window_offset-etext,
  window_offset-invalid, window_offset-rc,
}
use oshmpi.Rma.{peer_ptr}
use oshmpi.Rma.Places.{Shared, remote_address, remote_address-sheap}

-- _num_pes and shmem_n_pes, _my_pe and shmem_my_pe
abbrev pub num_pes : Globals → ℕ
num_pes g = g.shmem_world_size

abbrev pub my_pe : Globals → ℕ
my_pe g = g.shmem_world_rank

-- `0<=pe && pe<=shmem_world_size`
abbrev pub is_pe : Globals → ℤ → Bool
is_pe g (pos pe) = leb pe g.shmem_world_size
is_pe g (negsuc n) = false

-- `none` where the function ends without a return statement, so that its value is not defined.
-- `appnum` is the number that the window of the PEs' numbers holds for each.
unfoldable pub pe_accessible : Globals → (appnum : ℤ → ℕ) → ℤ → Option Bool
pe_accessible g appnum pe =
    if g.mpmd_support
    then if g.shmem_running_mpmd then some (g.shmem_mpmd_my_appnum == appnum pe) else none
    else some (is_pe g pe)

unfoldable pub addr_accessible : Globals → (addr : ℕ) → ℤ → Bool
addr_accessible g addr (negsuc n) = false
addr_accessible g addr (pos pe) =
    if is_pe g (pos pe) then (window_offset g addr pe).rc == 0 else false

-- An address, or NULL, or the lookup aborts.
pub data Ptr : Type 0 where
  address : ℕ → Ptr
  null ptr_aborted : Ptr

unfoldable pub shmem_ptr : Globals → (target pe : ℕ) → Ptr
shmem_ptr g target pe =
    let l = window_offset g target pe in
    let own = if pe == g.shmem_world_rank then address target else null in
    if g.smp_optimizations
    then if l.rc == 0
      then if g.shmem_world_is_smp && is_sheap l.win_id then address (peer_ptr g target pe) else own
      else ptr_aborted
    else own

-- A number from 0 to that of the PEs, which is no PE's.
abbrev pub IsNumber : Globals → ℤ → Type 0
IsNumber g (pos n) = n ≤ g.shmem_world_size
IsNumber g (negsuc n) = ⊥

-- An address is accessible at a PE if and only if the PE's number is at most the number of PEs and
-- the address is found in the heap or in the static data.
pub addr_accessible_iff :
    (g : Globals) (addr : ℕ) (pe : ℤ)
    → (addr_accessible g addr pe ≡ true) ↔ (IsNumber g pe × (InSheap g addr ⊎ InEtext g addr))
unfolding addr_accessible
addr_accessible_iff g addr (negsuc n) = (λ h. absurd (cc), λ h. absurd h.0)
addr_accessible_iff g addr (pos pe) = elim (window_offset-rc g addr pe) [
  | inl (found, rc) ↦ (
    λ h. (ground arith, found),
    λ h. let is : is_pe g (pos pe) ≡ true = ground (arith, h.0) in rw (is, rc) refl,
  )
  | inr (lost, rc) ↦ (λ h. absurd (grind (arith, rc)), λ h. absurd (lost h.1))
]

module _ (g : Globals) (target pe p : ℕ) (off : (pe == g.shmem_world_rank) ≡ false)
    (smp : g.smp_optimizations ≡ true) where
  not_near : g.shmem_world_is_smp ≡ false → shmem_ptr g target pe ≢ address p
  unfolding shmem_ptr window_offset
  not_near far is = elim (window_offset-rc g target pe) [
    | inl (found, rc) ↦
        let no : null ≡ address p = rw (smp, rc, far, off, shmem_ptr) at is in absurd (cc)
    | inr (lost, rc) ↦
        let no : ptr_aborted ≡ address p = rw (smp, rc, shmem_ptr) at is in absurd (cc)
  ]

  not_heap : ¬ InSheap g target → shmem_ptr g target pe ≢ address p
  unfolding shmem_ptr window_offset
  not_heap outside is = elim (Etext-cases g target) [
    | inl static ↦
        let at = window_offset-etext g target pe outside static in
        let no : null ≡ address p = ground (arith, at) in absurd (cc)
    | inr neither ↦
        let at = window_offset-invalid g target pe outside neither in
        let no : ptr_aborted ≡ address p = rw (smp, at, shmem_ptr) at is in absurd (cc)
  ]

-- Every address that shmem_ptr returns for another PE is the place where the object stands at
-- that PE.
pub shmem_ptr-remote :
    (mpi : Mpi) (g : Globals) {pe : ℕ}
    → Shared mpi g pe
    → (target p : ℕ) → pe ≢ g.shmem_world_rank
    → shmem_ptr g target pe ≡ address p
    → p ≡ remote_address mpi g target pe
unfolding shmem_ptr window_offset
shmem_ptr-remote mpi g {pe} shared target p other is =
    let off : (pe == g.shmem_world_rank) ≡ false = ground arith in
    elim (Bool-cases g.smp_optimizations) [
      | inr plain ↦ let no : null ≡ address p = rw (plain, off, shmem_ptr) at is in absurd (cc)
      | inl smp ↦ elim (Bool-cases g.shmem_world_is_smp) [
        | inr far ↦ absurd (not_near g target pe p off smp far is)
        | inl near ↦ elim (Sheap-cases g target) [
          | inr outside ↦ absurd (not_heap g target pe p off smp outside is)
          | inl heap ↦
              let at = window_offset-sheap g target pe heap in
              let got : address (peer_ptr g target pe) ≡ address p =
                rw (smp, at, near, shmem_ptr) at is in
              let same : peer_ptr g target pe ≡ p = cc in
              sym same
              ∙ ap (λ b. b + (target - g.shmem_sheap_base_ptr)) (shared.ptrs near)
              ∙ sym (remote_address-sheap mpi g target pe heap)
        ]
      ]
    ]

pe_accessible-true :
    (g : Globals) (appnum : ℤ → ℕ) (pe : ℤ)
    → (pe_accessible g appnum pe ≡ some true) ↔ (
        ((g.mpmd_support ≡ false) × IsNumber g pe)
        ⊎ ((g.mpmd_support ≡ true)
            × (g.shmem_running_mpmd ≡ true)
            × (g.shmem_mpmd_my_appnum ≡ appnum pe)))
unfolding pe_accessible
pe_accessible-true g appnum (pos n) = (λ e. ground arith, λ c. ground arith)
pe_accessible-true g appnum (negsuc n) = (λ e. ground arith, λ c. ground arith)

pe_accessible-none :
    (g : Globals) (appnum : ℤ → ℕ) (pe : ℤ)
    → (pe_accessible g appnum pe ≡ none)
      ↔ ((g.mpmd_support ≡ true) × (g.shmem_running_mpmd ≡ false))
unfolding pe_accessible
pe_accessible-none g appnum pe = (λ e. ground arith, λ c. ground arith)

-- A PE is accessible, in a build without MPMD support, if and only if its number is at most that of
-- the PEs, and in a run of several programs if and only if it runs this PE's program; the result is
-- not defined in a build with MPMD support that runs one program. An address is accessible at a PE
-- if and only if the PE's number is at most that of the PEs and the address is found in the heap
-- or in the static data.
pub accessible_iff :
    (g : Globals) (appnum : ℤ → ℕ) (addr : ℕ) (pe : ℤ)
    → ((pe_accessible g appnum pe ≡ some true) ↔ (
        ((g.mpmd_support ≡ false) × IsNumber g pe)
        ⊎ ((g.mpmd_support ≡ true)
            × (g.shmem_running_mpmd ≡ true)
            × (g.shmem_mpmd_my_appnum ≡ appnum pe))))
      × ((pe_accessible g appnum pe ≡ none)
          ↔ ((g.mpmd_support ≡ true) × (g.shmem_running_mpmd ≡ false)))
      × ((addr_accessible g addr pe ≡ true) ↔ (IsNumber g pe × (InSheap g addr ⊎ InEtext g addr)))
accessible_iff g appnum addr pe =
    (pe_accessible-true g appnum pe, pe_accessible-none g appnum pe, addr_accessible_iff g addr pe)
