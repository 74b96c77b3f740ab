-- ===== src/Mmu/Flush.antt =====
-- What the micro-TLBs answer after an insertion and after the flushes of src/mem.c.
use libppcemu.Prelude.{
  ℕ, ◌+◌, ◌*◌, ◌/◌, ◌^◌, ◌<◌, ◌≡◌, bit_and, bit_or, Bool, false, not, ◌&&◌, ◌||◌, none, some, refl,
  arith, ◌==◌, if◌then◌else◌, bit_or_below, or-zero, bit_and_mask, xor,
}
use libppcemu.State.{State, MicroTlb}
use libppcemu.Mmu.Tlb.{
  tlb_key, tlb_key_vpn, tlb_way, tlb_lookup, tlb_insert, tlb_flush_all, tlb_flush_segment,
  tlb_flush_page, ifetch_invalidate, in_segment, is_page,
}

pub key_value :
    (vpn : ℕ) (pr : Bool) → vpn < 2 ^ 30 → tlb_key vpn pr ≡ vpn * 4 + (if pr then 3 else 1)
unfolding tlb_key
key_value vpn pr h = ground (
  arith,
  bit_or_below 2 vpn 2 (omega arith),
  or-zero (vpn * 4),
  bit_or_below 1 (vpn * 2 + 1) 1 (omega arith),
  bit_or_below 1 (vpn * 2) 1 (omega arith),
)

key_vpn : (vpn : ℕ) (pr : Bool) → vpn < 2 ^ 30 → tlb_key_vpn (tlb_key vpn pr) ≡ vpn
unfolding tlb_key_vpn
key_vpn vpn pr h = ground (arith, key_value vpn pr h)

-- After an insertion into a micro-TLB, for page numbers below 2^20, a look-up in the slot of the
-- page finds the inserted page base with the offset of the address, if it asks for the same page at
-- the same privilege level and does not write to a page that is read-only or whose first write is
-- not recorded yet; otherwise it finds nothing. A look-up in another slot answers as before.
tlb_lookup-tlb_insert :
    (tlb : MicroTlb) (vpn vpn' base virt : ℕ) (pr pr' cacheable writable pending write : Bool)
    → vpn < 2 ^ 20
    → vpn' < 2 ^ 20
    → tlb_lookup (tlb_insert tlb vpn pr base cacheable writable pending) vpn' pr' write virt ≡ (
        if tlb_way vpn' == tlb_way vpn
        then (if vpn' == vpn && not (xor pr pr') && not (write && (not writable || pending))
            then some (bit_or base (bit_and virt 0xfff), cacheable)
            else none)
        else tlb_lookup tlb vpn' pr' write virt)
unfolding tlb_lookup tlb_insert
tlb_lookup-tlb_insert tlb vpn vpn' base virt pr pr' cacheable writable pending write h h' =
    ground (arith, key_value vpn pr (omega arith), key_value vpn' pr' (omega arith))

module _ (s : State) (vpn virt : ℕ) (pr write : Bool) (h : vpn < 2 ^ 20) where
  -- After a flush of the page of a 32-bit address neither micro-TLB finds that page, each answers
  -- as before for every other page number below 2^20, and the fetch shortcut is off.
  pub tlb_flush_page_lem :
      (ea : ℕ)
      → ea < 2 ^ 32
      → let s' = tlb_flush_page s ea in
        (tlb_lookup s'.itlb vpn pr write virt
          ≡ (if vpn == ea / 2 ^ 12 then none else tlb_lookup s.itlb vpn pr write virt))
        × (tlb_lookup s'.dtlb vpn pr write virt
            ≡ (if vpn == ea / 2 ^ 12 then none else tlb_lookup s.dtlb vpn pr write virt))
        × (s'.ifetch_valid ≡ false)
  unfolding tlb_flush_page ifetch_invalidate tlb_lookup is_page tlb_key_vpn
  tlb_flush_page_lem ea he = (
    ground (arith, key_value vpn pr (omega arith)),
    ground (arith, key_value vpn pr (omega arith)),
    refl,
  )

  -- After a flush of a segment neither micro-TLB finds a page of it, each answers as before for
  -- every page number below 2^20 of another segment, and the fetch shortcut is off.
  pub tlb_flush_segment_lem :
      (sreg : ℕ)
      → let s' = tlb_flush_segment s sreg in
        (tlb_lookup s'.itlb vpn pr write virt
          ≡ (if vpn / 2 ^ 16 == sreg then none else tlb_lookup s.itlb vpn pr write virt))
        × (tlb_lookup s'.dtlb vpn pr write virt
            ≡ (if vpn / 2 ^ 16 == sreg then none else tlb_lookup s.dtlb vpn pr write virt))
        × (s'.ifetch_valid ≡ false)
  unfolding tlb_flush_segment ifetch_invalidate tlb_lookup in_segment tlb_key_vpn
  tlb_flush_segment_lem sreg = (
    ground (arith, key_value vpn pr (omega arith), bit_and_mask 6 vpn),
    ground (arith, key_value vpn pr (omega arith), bit_and_mask 6 vpn),
    refl,
  )

  -- After a flush of everything neither micro-TLB finds any page number below 2^20, and the fetch
  -- shortcut is off.
  pub tlb_flush_all_lem :
      let s' = tlb_flush_all s in
      (tlb_lookup s'.itlb vpn pr write virt ≡ none)
      × (tlb_lookup s'.dtlb vpn pr write virt ≡ none)
      × (s'.ifetch_valid ≡ false)
  unfolding tlb_flush_all ifetch_invalidate tlb_lookup
  tlb_flush_all_lem = (
    ground (arith, key_value vpn pr (omega arith), bit_and_mask 6 vpn),
    ground (arith, key_value vpn pr (omega arith), bit_and_mask 6 vpn),
    refl,
  )

  -- After a flush of the page of a 32-bit address, of a segment, or of everything, neither
  -- micro-TLB finds a page so flushed, each answers as before for every other page number below
  -- 2^20, and the fetch shortcut is off.
  pub tlb_flushes :
      (ea sreg : ℕ)
      → ea < 2 ^ 32
      → let p = tlb_flush_page s ea in
        let g = tlb_flush_segment s sreg in
        let a = tlb_flush_all s in
        ((tlb_lookup p.itlb vpn pr write virt
            ≡ (if vpn == ea / 2 ^ 12 then none else tlb_lookup s.itlb vpn pr write virt))
          × (tlb_lookup p.dtlb vpn pr write virt
              ≡ (if vpn == ea / 2 ^ 12 then none else tlb_lookup s.dtlb vpn pr write virt))
          × (p.ifetch_valid ≡ false))
        × ((tlb_lookup g.itlb vpn pr write virt
              ≡ (if vpn / 2 ^ 16 == sreg then none else tlb_lookup s.itlb vpn pr write virt))
            × (tlb_lookup g.dtlb vpn pr write virt
                ≡ (if vpn / 2 ^ 16 == sreg then none else tlb_lookup s.dtlb vpn pr write virt))
            × (g.ifetch_valid ≡ false))
        × ((tlb_lookup a.itlb vpn pr write virt ≡ none)
            × (tlb_lookup a.dtlb vpn pr write virt ≡ none)
            × (a.ifetch_valid ≡ false))
  tlb_flushes ea sreg h' = (tlb_flush_page_lem ea h', tlb_flush_segment_lem sreg, tlb_flush_all_lem)
