-- ===== src/Public/Access.antt =====
-- A register written through the interface, read back, and what it leaves in the micro-TLBs:
-- `ppcemu_set_spr` and `ppcemu_get_spr` of src/state.c beside `do_mtspr` of src/instr/spr.c.
use libppcemu.Prelude.{ℕ, ◌^◌, ◌<◌, ◌≡◌, Bool, true, none, some, refl, arith}
use libppcemu.State.{State}
use libppcemu.Spr.Index.{sprn_to_idx_raw}
use libppcemu.Mmu.Tlb.{tlb_lookup, ifetch_invalidate}
use libppcemu.Mmu.Flush.{tlb_flush_all_lem}
use libppcemu.SprMove.{bat, spr_case, write_case, do_mtspr, put_spr}
use libppcemu.SprMove.Cases.{has_slot, spr_case-index}
use libppcemu.Public.{read_spr, write_spr}

write_spr-kept :
    (s : State) (sprn val : ℕ)
    → let t = write_spr s sprn val in (t.dtlb ≡ s.dtlb) × (t.itlb ≡ s.itlb)
unfolding write_spr ifetch_invalidate
write_spr-kept s sprn val = ground arith

read_spr-write_spr :
    (s : State) (sprn val i : ℕ)
    → sprn_to_idx_raw sprn ≡ some i
    → read_spr (write_spr s sprn val) sprn ≡ val
unfolding write_spr read_spr ifetch_invalidate
read_spr-write_spr s sprn val i e = ground arith

-- A BAT register written through the interface reads back, but the micro-TLBs answer every page
-- number below 2^20 as before, from translations that the old BAT made; after `mtspr` of the same
-- register they find none.
pub write_spr-stale :
    (s : State) (sprn rs val vpn virt : ℕ) (pr write : Bool)
    → spr_case sprn ≡ bat
    → vpn < 2 ^ 20
    → let t = write_spr s sprn val in
      let u = do_mtspr s rs sprn in
      (read_spr t sprn ≡ val)
      × (tlb_lookup t.dtlb vpn pr write virt ≡ tlb_lookup s.dtlb vpn pr write virt)
      × (tlb_lookup t.itlb vpn pr write virt ≡ tlb_lookup s.itlb vpn pr write virt)
      × (tlb_lookup u.dtlb vpn pr write virt ≡ none)
      × (tlb_lookup u.itlb vpn pr write virt ≡ none)
unfolding do_mtspr write_case
write_spr-stale s sprn rs val vpn virt pr write e h =
    let (i, l, at) = spr_case-index sprn in
    let kept = write_spr-kept s sprn val in
    let flushed = tlb_flush_all_lem (put_spr (ifetch_invalidate s) rs sprn) vpn virt pr write h in
    let slot : has_slot (spr_case sprn) ≡ true = unfold has_slot in rw e refl in
    (
      read_spr-write_spr s sprn val i (ground (arith, at, slot)),
      rw kept.0 refl,
      rw kept.1 refl,
      rw e flushed.1,
      rw e flushed.0,
    )
