-- ===== src/Mmu/Translate.antt =====
-- `ppcemu_virt2phys_slow` and its fast path: real mode, the micro-TLBs, the BATs and the page table.
use libppcemu.Prelude.{
  ℕ, zero, suc, ◌+◌, ◌-◌, ◌*◌, bit_and, Bool, true, false, not, ◌&&◌, Option, none, some, nz, leb,
  ltb, ◌==◌, if◌then◌else◌, shr, not32, u32, sub32,
}
use libppcemu.State.{State, MicroTlb}
use libppcemu.Spr.{
  idx_hid0, idx_hid4, hid0_dce, hid0_ice, hid4_sbe, msr_pr, msr_ir, msr_dr, caps_upper_bats,
  caps_hid4,
}
use libppcemu.Mmu.{V2p, success, no_perms, direct_store}
use libppcemu.Mmu.Tlb.{tlb_lookup, tlb_insert}
use libppcemu.Mmu.Walk.{Walked, found, failed, htab_lookup, real_mode_cacheable, emu_cache_enabled}

-- The assertion behind the second range is never reached: the callers pass 0 to 7.
unfoldable pub bat_to_spr_idx : ℕ → Bool → Bool → ℕ
bat_to_spr_idx batnum ibat upper =
    let base : ℕ = if leb batnum 3 then 13 + 2 * batnum else 29 + 2 * (batnum - 4) in
    base + (if not ibat then 8 else 0) + (if not upper then 1 else 0)

unfoldable pub bat_blocklen_to_bytes : ℕ → ℕ
bat_blocklen_to_bytes bl =
    if nz (bit_and (u32 (bl + 1)) bl) then 0 else u32 (128 * 1024 * u32 (bl + 1))

abbrev pub tlb_of : State → Bool → MicroTlb
tlb_of s ifetch = if ifetch then s.itlb else s.dtlb

abbrev pub put_tlb : State → Bool → MicroTlb → State
put_tlb s ifetch tlb = if ifetch then record s { itlb = tlb } else record s { dtlb = tlb }

abbrev pub is_user : State → Bool
is_user s = nz (bit_and s.msr msr_pr)

-- Whether the BAT is valid at the privilege level and covers the address.
unfoldable pub bat_covers : State → ℕ → ℕ → Bool
bat_covers s batu virt =
    let size = bat_blocklen_to_bytes (shr (bit_and batu 0x1ffc) 2) in
    let bepi = bit_and batu 0xfffe_0000 in
    nz (bit_and batu (if is_user s then 1 else 2)) && leb bepi virt && ltb (virt - bepi) size

-- What the BAT loop does with a BAT that covers the address.
unfoldable pub use_bat : State → ℕ → Bool → Bool → ℕ → ℕ → V2p × State
use_bat s virt ifetch write batu batl =
    let size = bat_blocklen_to_bytes (shr (bit_and batu 0x1ffc) 2) in
    let bepi = bit_and batu 0xfffe_0000 in
    let phys = u32 (bit_and (bit_and batl 0xfffe_0000) (not32 (sub32 size 1)) + (virt - bepi)) in
    let pp = bit_and batl 3 in
    let on = nz (bit_and (s.sprs idx_hid0) (if ifetch then hid0_ice else hid0_dce)) in
    let cacheable =
      not (nz (bit_and (shr (bit_and batl 0x78) 3) 4)) && on && emu_cache_enabled s.cache_mode in
    if write && not (pp == 2)
    then (no_perms, s)
    else if not write && pp == 0
    then (no_perms, s)
    else (
      success phys cacheable,
      put_tlb s ifetch (
          tlb_insert (tlb_of s ifetch) (shr virt 12) (is_user s) (bit_and phys (not32 0xfff))
            cacheable (pp == 2) false),
    )

-- `for (i = from; i < from + n; i++)`.
unfoldable pub bat_loop : ℕ → State → ℕ → Bool → Bool → ℕ → Option (V2p × State)
bat_loop zero s virt ifetch write i = none
bat_loop (suc n) s virt ifetch write i =
    let batu = s.sprs (bat_to_spr_idx i ifetch true) in
    let batl = s.sprs (bat_to_spr_idx i ifetch false) in
    elim (bat_covers s batu virt) [
      | true ↦ some (use_bat s virt ifetch write batu batl)
      | false ↦ bat_loop n s virt ifetch write (i + 1)
    ]

unfoldable pub max_bat : State → ℕ
max_bat s =
    if nz (bit_and s.caps caps_upper_bats)
      && nz (bit_and s.caps caps_hid4)
      && nz (bit_and (s.sprs idx_hid4) hid4_sbe)
    then 8
    else 4

-- What follows the walk: the micro-TLB keeps a translation that was found.
unfoldable pub keep_walked : State → Walked → ℕ → Bool → Bool → V2p × State
keep_walked s (failed err) virt ifetch user = (err, s)
keep_walked s (found phys cacheable writable dirty_pending) virt ifetch user = (
  success phys cacheable,
  put_tlb s ifetch (
      tlb_insert (tlb_of s ifetch) (shr virt 12) user (bit_and phys (not32 0xfff)) cacheable
        writable dirty_pending),
)

-- The part past the BATs: the segment register and the page table.
unfoldable pub translate_page : State → ℕ → Bool → Bool → V2p × State
translate_page s virt ifetch write =
    let sr = s.sr (shr virt 28) in
    let (w, s1) = htab_lookup s virt sr ifetch write in
    if nz (bit_and sr 0x8000_0000)
    then (direct_store, s)
    else keep_walked s1 w virt ifetch (is_user s)

abbrev pub translation_on : State → Bool → Bool
translation_on s ifetch = nz (bit_and s.msr (if ifetch then msr_ir else msr_dr))

unfoldable pub virt2phys_slow : State → ℕ → Bool → Bool → V2p × State
virt2phys_slow s virt ifetch write =
    if not (translation_on s ifetch)
    then (success virt (real_mode_cacheable s ifetch), s)
    else elim (tlb_lookup (tlb_of s ifetch) (shr virt 12) (is_user s) write virt) [
      | some (phys, cacheable) ↦ (success phys cacheable, s)
      | none ↦ elim (bat_loop (max_bat s) s virt ifetch write 0) [
        | some r ↦ r
        | none ↦ translate_page s virt ifetch write
      ]
    ]

-- The fast path in front of it.
unfoldable pub virt2phys : State → ℕ → Bool → Bool → V2p × State
virt2phys s virt ifetch write = elim (translation_on s ifetch) [
  | true ↦ elim (tlb_lookup (tlb_of s ifetch) (shr virt 12) (is_user s) write virt) [
    | some (phys, cacheable) ↦ (success phys cacheable, s)
    | none ↦ virt2phys_slow s virt ifetch write
  ]
  | false ↦ virt2phys_slow s virt ifetch write
]
