-- ===== src/Mmu/Tlb.antt =====
-- The micro-TLBs: src/tlb.h, and `tlb_insert` and the flushes of src/mem.c.
use libppcemu.Prelude.{
  ℕ, ◌-◌, bit_and, bit_or, Bool, true, false, not, ◌&&◌, ◌||◌, Option, none, some, nz, ltb, ◌==◌,
  if◌then◌else◌, shr, shl32, update,
}
use libppcemu.State.{State, MicroTlb, MicroTlbEntry}

abbrev pub micro_tlb_entries : ℕ
micro_tlb_entries = 64

unfoldable pub tlb_key : ℕ → Bool → ℕ
tlb_key vpn pr = bit_or (bit_or (shl32 vpn 2) (if pr then 2 else 0)) 1

unfoldable pub tlb_key_vpn : ℕ → ℕ
tlb_key_vpn key = shr key 2

abbrev pub tlb_way : ℕ → ℕ
tlb_way vpn = bit_and vpn (micro_tlb_entries - 1)

unfoldable pub tlb_lookup : MicroTlb → ℕ → Bool → Bool → ℕ → Option (ℕ × Bool)
tlb_lookup tlb vpn pr write virt =
    let e = tlb (tlb_way vpn) in
    if not (e.key == tlb_key vpn pr)
    then none
    else if write && (not e.writable || e.dirty_pending)
    then none
    else some (bit_or e.phys_base (bit_and virt 0xfff), e.cacheable)

unfoldable pub tlb_insert : MicroTlb → ℕ → Bool → ℕ → Bool → Bool → Bool → MicroTlb
tlb_insert tlb vpn pr phys_base cacheable writable dirty_pending =
    update tlb (tlb_way vpn) (record {
      key = tlb_key vpn pr;
      phys_base = phys_base;
      writable = writable;
      dirty_pending = dirty_pending;
      cacheable = cacheable;
    })

unfoldable pub ifetch_invalidate : State → State
ifetch_invalidate s = record s { ifetch_valid = false }

-- `e->key = 0` where a test on the entry says so.
abbrev pub drop_if : Bool → MicroTlbEntry → MicroTlbEntry
drop_if test e = if test then record e { key = 0 } else e

-- The bodies of the two flushing loops on one micro-TLB of 64 entries; each entry is treated alone.
abbrev pub flush_ways : (MicroTlbEntry → Bool) → MicroTlb → MicroTlb
flush_ways test tlb i = if ltb i micro_tlb_entries then drop_if (test (tlb i)) (tlb i) else tlb i

unfoldable pub tlb_flush_all : State → State
tlb_flush_all s =
    let s1 = ifetch_invalidate s in
    record s1 { itlb = flush_ways (λ e. true) s1.itlb; dtlb = flush_ways (λ e. true) s1.dtlb }

unfoldable pub in_segment : ℕ → MicroTlbEntry → Bool
in_segment sreg e = nz e.key && shr (tlb_key_vpn e.key) 16 == sreg

unfoldable pub tlb_flush_segment : State → ℕ → State
tlb_flush_segment s sreg =
    let s1 = ifetch_invalidate s in
    record s1 {
      itlb = flush_ways (in_segment sreg) s1.itlb;
      dtlb = flush_ways (in_segment sreg) s1.dtlb;
    }

unfoldable pub is_page : ℕ → MicroTlbEntry → Bool
is_page vpn e = nz e.key && tlb_key_vpn e.key == vpn

unfoldable pub tlb_flush_page : State → ℕ → State
tlb_flush_page s virt =
    let vpn = shr virt 12 in
    let s1 = ifetch_invalidate s in
    let i = s1.itlb (tlb_way vpn) in
    let d = s1.dtlb (tlb_way vpn) in
    record s1 {
      itlb = update s1.itlb (tlb_way vpn) (drop_if (is_page vpn i) i);
      dtlb = update s1.dtlb (tlb_way vpn) (drop_if (is_page vpn d) d);
    }

-- `do_mtsr` and `do_mfsr` of src/instr/segmentreg.c.
unfoldable pub do_mtsr : State → ℕ → ℕ → State
do_mtsr s sreg rs = tlb_flush_segment (record s { sr = update s.sr sreg (s.gpr rs) }) sreg

unfoldable pub do_mfsr : State → ℕ → ℕ → State
do_mfsr s sreg rd = record s { gpr = update s.gpr rd (s.sr sreg) }
