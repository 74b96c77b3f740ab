-- ===== src/Mmu/Walk.antt =====
-- The walk of the hashed page table: `htab_lookup` of src/mem.c and its helpers.
use libppcemu.Prelude.{
  ℕ, zero, suc, ◌+◌, ◌-◌, ◌*◌, ◌^◌, bit_and, bit_or, bit_xor, Bool, true, false, not, ◌&&◌, ◌||◌,
  xor, Option, none, some, nz, ◌==◌, if◌then◌else◌, shr, shl32, not32, u32, u8,
}
use libppcemu.Bus.{Bytes, bus_read, bus_write}
use libppcemu.State.{State, CacheMode, dcache_of, put_dcache}
use libppcemu.Spr.{idx_hid0, idx_sdr1, hid0_dce, hid0_ice, msr_pr}
use libppcemu.Cache.Data.{dcache_load, dcache_store}
use libppcemu.Mmu.{V2p, not_mapped, no_perms}

unfoldable pub pte_access_allowed : Bool → ℕ → Bool → Bool
pte_access_allowed key pp write =
    if not key
    then (if pp == 3 then not write else true)
    else if pp == 0
    then false
    else if pp == 1
    then not write
    else if pp == 2
    then true
    else if pp == 3
    then not write
    else false

-- `state->cache_mode != PPCEMU_CACHE_MODE_DISABLED`.
unfoldable pub emu_cache_enabled : CacheMode → Bool
emu_cache_enabled CacheMode.disabled = false
emu_cache_enabled _ = true

unfoldable pub real_mode_cacheable : State → Bool → Bool
real_mode_cacheable s ifetch =
    emu_cache_enabled s.cache_mode
    && nz (bit_and (s.sprs idx_hid0) (if ifetch then hid0_ice else hid0_dce))

-- `ppcemu_be32_to_cpu` of four bytes in memory order, and back.
unfoldable pub be32_to_cpu : Bytes → ℕ
be32_to_cpu raw = ((u8 (raw 0) * 2 ^ 8 + u8 (raw 1)) * 2 ^ 8 + u8 (raw 2)) * 2 ^ 8 + u8 (raw 3)

unfoldable pub cpu_to_be32 : ℕ → Bytes
cpu_to_be32 w j = u8 (shr w (8 * (3 - j)))

-- One physical word of the page table, through the cache or past it.
unfoldable pub read_word : State → ℕ → ℕ × State
read_word s addr =
    if real_mode_cacheable s false
    then (let (raw, p) = dcache_load (dcache_of s) addr 4 (λ j. 0) in
        (be32_to_cpu raw, put_dcache s p))
    else (let (raw, bus) = bus_read s.bus addr 4 in (be32_to_cpu raw, record s { bus = bus }))

unfoldable pub htab_read_pte : State → ℕ → ℕ → (ℕ × ℕ) × State
htab_read_pte s pteg_addr idx =
    let addr = u32 (pteg_addr + idx * 8) in
    let (w0, s1) = read_word s addr in
    let (w1, s2) = read_word s1 (u32 (addr + 4)) in ((w0, w1), s2)

unfoldable pub htab_write_pte1 : State → ℕ → ℕ → ℕ → State
htab_write_pte1 s pteg_addr idx w1 =
    let addr = u32 (pteg_addr + idx * 8 + 4) in
    if real_mode_cacheable s false
    then put_dcache s (dcache_store (dcache_of s) addr 4 (cpu_to_be32 w1))
    else record s { bus = bus_write s.bus addr 4 (cpu_to_be32 w1) }

-- What a walk looks for: the segment's VSID, the abbreviated page index, and the hash in use.
unfoldable pub pte_matches : ℕ → ℕ → ℕ → ℕ → Bool
pte_matches vsid api h w0 =
    nz (bit_and w0 0x8000_0000)
    && not (xor (nz (bit_and w0 0x40)) (nz h))
    && shr (bit_and w0 0x7fff_ff80) 7 == vsid
    && bit_and w0 0x3f == api

-- The outcome of a walk: the error, or the translation with what the micro-TLB keeps of it.
pub data Walked : Type 0 where
  found : ℕ → Bool → Bool → Bool → Walked
  failed : V2p → Walked

-- What follows `found the PTE`.
unfoldable pub use_pte : State → Bool → ℕ → Bool → Bool → ℕ → ℕ → ℕ → Walked × State
use_pte s key virt ifetch write pteg_addr i w1 =
    let pp = bit_and w1 3 in
    let writable = pte_access_allowed key pp true in
    let dirty_pending = not write && not (nz (bit_and w1 0x80)) in
    let s1 =
      if not (nz (bit_and w1 0x100)) || (write && not (nz (bit_and w1 0x80)))
      then htab_write_pte1 s pteg_addr i (bit_or (bit_or w1 0x100) (if write then 0x80 else 0))
      else s in
    let on = nz (bit_and (s.sprs idx_hid0) (if ifetch then hid0_ice else hid0_dce)) in
    let cacheable = not (nz (bit_and w1 0x20)) && on && emu_cache_enabled s.cache_mode in
    if not (pte_access_allowed key pp write) then (failed no_perms, s) else (
      found (bit_or (bit_and w1 0xffff_f000) (bit_and virt 0xfff)) cacheable writable dirty_pending,
      s1,
    )

-- The loop over the eight entries of a group.
unfoldable pub pteg_loop :
    ℕ → State → ℕ → ℕ → ℕ → Bool → ℕ → Bool → Bool → ℕ → ℕ → Option Walked × State
pteg_loop zero s vsid api h key virt ifetch write pteg_addr i = (none, s)
pteg_loop (suc n) s vsid api h key virt ifetch write pteg_addr i =
    let ((w0, w1), s1) = htab_read_pte s pteg_addr i in
    elim (pte_matches vsid api h w0) [
      | true ↦ let (w, s2) = use_pte s1 key virt ifetch write pteg_addr i w1 in (some w, s2)
      | false ↦ pteg_loop n s1 vsid api h key virt ifetch write pteg_addr (i + 1)
    ]

-- The address of the group that hash number `h` selects.
unfoldable pub pteg_address : ℕ → ℕ → ℕ → ℕ
pteg_address sdr1 hash h =
    let mask = bit_or (shl32 (bit_and sdr1 0x1ff) 16) 0xffff in
    let this_hash = if nz h then not32 hash else hash in
    bit_or (bit_and sdr1 0xffff_0000) (bit_and (shl32 this_hash 6) mask)

unfoldable pub htab_lookup : State → ℕ → ℕ → Bool → Bool → Walked × State
htab_lookup s virt sr ifetch write =
    let sdr1 = s.sprs idx_sdr1 in
    let vsid = bit_and sr 0xff_ffff in
    let pi = bit_and (shr virt 12) 0xffff in
    let api = shr pi 10 in
    let key = nz (bit_and sr (if nz (bit_and s.msr msr_pr) then 0x2000_0000 else 0x4000_0000)) in
    let hash = bit_xor vsid pi in
    let (first, s1) = pteg_loop 8 s vsid api 0 key virt ifetch write (pteg_address sdr1 hash 0) 0 in
    elim first [
      | some w ↦ (w, s1)
      | none ↦
          let (second, s2) =
            pteg_loop 8 s1 vsid api 1 key virt ifetch write (pteg_address sdr1 hash 1) 0 in
          elim second [ some w ↦ (w, s2) | none ↦ (failed not_mapped, s2) ]
    ]
