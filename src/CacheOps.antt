-- ===== src/CacheOps.antt =====
-- Cache management and synchronising instructions: src/instr/cache.c.
pub mod Laws
use libppcemu.Prelude.{
  ℕ, ◌+◌, bit_and, Bool, true, false, not, ◌||◌, Option, none, some, nz, if◌then◌else◌, u32, not32,
}
use libppcemu.Bus.{bus_write}
use libppcemu.Cache.{cache_line_size, CacheBus}
use libppcemu.Cache.Data.{dcache_load, dcache_zero_line, dcache_zero_line_locked}
use libppcemu.Cache.Maintain.{
  icache_invalidate_line, dcache_writeback_line, dcache_invalidate_line,
  dcache_writeback_invalidate_line,
}
use libppcemu.State.{State, dcache_of, icache_of, put_dcache, put_icache}
use libppcemu.Spr.{idx_hid2_gekko, hid2_lce, caps_hid2_gekko}
use libppcemu.Exception.{exception_fire, exception_dsi, exception_program}
use libppcemu.Branch.{no_rc}
use libppcemu.Mmu.{V2p, success, not_mapped, no_perms, direct_store}
use libppcemu.Mmu.Tlb.{tlb_flush_page}
use libppcemu.Mmu.Translate.{virt2phys}
use libppcemu.Mmu.Access.{set_dsi_info}
use libppcemu.LoadStore.{indexed_ea}

-- The physical address of a translation that succeeds.
unfoldable pub phys_of : V2p → Option ℕ
phys_of (success phys cacheable) = some phys
phys_of _ = none

unfoldable pub cache_ea_to_phys : State → ℕ → Option ℕ × State
cache_ea_to_phys s ea = let (err, s1) = virt2phys s ea false false in (phys_of err, s1)

-- An operation on the line at `ea`; where `ea` does not translate, nothing.
unfoldable pub on_line : (State → ℕ → State) → Option ℕ × State → State
on_line op (none, s) = s
on_line op (some phys, s) = op s phys

unfoldable pub on_dcache : (CacheBus → ℕ → CacheBus) → State → ℕ → State
on_dcache op s phys = put_dcache s (op (dcache_of s) phys)

unfoldable pub do_isync : State → ℕ → State
do_isync s inst = no_rc s inst (λ (t : State). t)

unfoldable pub do_sync : State → ℕ → State
do_sync s inst = no_rc s inst (λ (t : State). t)

unfoldable pub do_eieio : State → State
do_eieio s = s

unfoldable pub do_tlbie : State → ℕ → State
do_tlbie s rb = tlb_flush_page s (s.gpr rb)

unfoldable pub do_tlbsync : State → State
do_tlbsync s = s

unfoldable pub do_dcbf : State → ℕ → ℕ → State
do_dcbf s ra rb =
    on_line (on_dcache dcache_writeback_invalidate_line) (cache_ea_to_phys s (indexed_ea s ra rb))

unfoldable pub do_dcbst : State → ℕ → ℕ → State
do_dcbst s ra rb =
    on_line (on_dcache dcache_writeback_line) (cache_ea_to_phys s (indexed_ea s ra rb))

unfoldable pub do_dcbi : State → ℕ → ℕ → State
do_dcbi s ra rb =
    on_line (on_dcache dcache_invalidate_line) (cache_ea_to_phys s (indexed_ea s ra rb))

unfoldable pub do_icbi : State → ℕ → ℕ → State
do_icbi s ra rb =
    on_line (λ (t : State) (phys : ℕ). put_icache t (icache_invalidate_line (icache_of t) phys))
      (cache_ea_to_phys s (indexed_ea s ra rb))

-- Zeros in the 32 bytes at `phys`: through the cache, or past it.
unfoldable pub zero_block : (CacheBus → ℕ → CacheBus) → State → ℕ → Bool → State
zero_block op s phys cacheable =
    if cacheable
    then on_dcache op s phys
    else record s { bus = bus_write s.bus phys cache_line_size (λ j. 0) }

-- What `dcbz` does behind its translation.
unfoldable pub dcbz_translated : V2p → State → ℕ → State
dcbz_translated direct_store s ea = s
dcbz_translated (success phys cacheable) s ea = zero_block dcache_zero_line s phys cacheable
dcbz_translated err s ea = exception_fire (set_dsi_info s ea err true) exception_dsi

unfoldable pub do_dcbz : State → ℕ → ℕ → State
do_dcbz s ra rb =
    let ea = indexed_ea s ra rb in
    let (err, s1) = virt2phys s (bit_and ea (not32 31)) false true in dcbz_translated err s1 ea

unfoldable pub dcbz_l_translated : V2p → State → State
dcbz_l_translated (success phys cacheable) s = zero_block dcache_zero_line_locked s phys cacheable
dcbz_l_translated _ s = s

unfoldable pub do_dcbz_l : State → ℕ → ℕ → State
do_dcbz_l s ra rb =
    let (err, s1) = virt2phys s (bit_and (indexed_ea s ra rb) (not32 31)) false true in
    if not (nz (bit_and s.caps caps_hid2_gekko))
      || not (nz (bit_and (s.sprs idx_hid2_gekko) hid2_lce))
    then exception_fire s exception_program
    else dcbz_l_translated err s1

-- The load of one byte brings the line in.
unfoldable pub dcbt_translated : V2p → State → State
dcbt_translated (success phys cacheable) s =
    if cacheable
    then (let (dummy, p) = dcache_load (dcache_of s) phys 1 (λ j. 0) in put_dcache s p)
    else s
dcbt_translated _ s = s

unfoldable pub do_dcbt : State → ℕ → ℕ → State
do_dcbt s ra rb =
    let (err, s1) = virt2phys s (bit_and (indexed_ea s ra rb) (not32 31)) false true in
    dcbt_translated err s1
