-- ===== src/SprMove/Laws.antt =====
-- What `mfspr` reads after `mtspr`, and what both do to a register that is not there: src/instr/spr.c.
use libppcemu.Prelude.{
  ℕ, ◌+◌, ◌*◌, ◌/◌, ◌%◌, ◌^◌, ◌<◌, ◌≡◌, Bool, true, false, ◌&&◌, none, some, nz, refl, arith, ◌==◌,
  if◌then◌else◌, bit_and, bit_or, bit_and_mask, bit_and_high, bit_or_below, not, bit, or-zero,
  or_comm,
}
use libppcemu.State.{State}
use libppcemu.State.Words.{HasWords}
use libppcemu.Spr.{
  idx_srr0, caps_hid2_gekko, caps_ps_idx, caps_hid4, caps_upper_bats, caps_l2cr, caps_perf_mon,
  caps_wr_gather_pipe,
}
use libppcemu.Spr.Index.{sprn_to_idx_raw}
use libppcemu.Exception.Entry.{exception_fire-saved}
use libppcemu.Exception.{flush_caches, exception_fire, exception_program}
use libppcemu.Mmu.Tlb.{ifetch_invalidate, tlb_flush_all}
use libppcemu.SprMove.{
  SprCase, plain, table_base, version, upper_time, lower_time, hid2, hid4, bat, upper_bat, gqr,
  l2cr, perf_mon, gather_pipe, unknown, spr_case, find_label, put_spr, spr_value, get_spr,
  if_capable, write_case, read_case, do_mtspr, do_mfspr,
}
use libppcemu.SprMove.Cases.{has_slot, spr_case-index}

-- The bits of `caps` one of which a register needs; none is needed where this is 0.
unfoldable pub needed_cap : SprCase → ℕ
needed_cap hid2 = caps_hid2_gekko
needed_cap hid4 = caps_hid4
needed_cap upper_bat = caps_upper_bats
needed_cap gqr = caps_ps_idx
needed_cap l2cr = caps_l2cr
needed_cap perf_mon = caps_perf_mon
needed_cap gather_pipe = caps_wr_gather_pipe
needed_cap _ = 0

-- A processor with these capabilities has the register.
unfoldable pub is_present : ℕ → SprCase → Bool
is_present caps unknown = false
is_present caps label = if needed_cap label == 0 then true else nz (bit_and caps (needed_cap label))

unfoldable pub is_read_only : SprCase → Bool
is_read_only version = true
is_read_only _ = false

-- The bit of WPAR that tells whether the pipe holds bytes.
unfoldable pub status_bits : SprCase → State → ℕ
status_bits gather_pipe s = if nz s.cur_wgp_idx then 1 else 0
status_bits _ s = 0

time_halves :
    (tb v : ℕ)
    → tb < 2 ^ 64
    → v < 2 ^ 32
    → (bit_or (bit_and tb 0xffff_ffff) (v * 2 ^ 32 % 2 ^ 64) / 2 ^ 32 % 2 ^ 32 ≡ v)
      × (bit_and (bit_or (bit_and tb 0xffff_ffff_0000_0000) v) 0xffff_ffff % 2 ^ 32 ≡ v)
time_halves tb v h l =
    let high : v * 2 ^ 32 % 2 ^ 64 ≡ v * 2 ^ 32 = omega arith in
    let low = bit_and_mask 32 tb in
    let kept = bit_and_high 32 32 tb (omega arith) in
    (
      ground (
        arith,
        high,
        low,
        or_comm 64 (tb % 2 ^ 32) (v * 2 ^ 32) (omega arith) (omega arith),
        bit_or_below 32 v (tb % 2 ^ 32) (omega arith),
      ),
      ground (
        arith,
        kept,
        bit_or_below 32 (tb / 2 ^ 32) v l,
        bit_and_mask 32 (tb / 2 ^ 32 * 2 ^ 32 + v),
      ),
    )

-- The read of a case after its write.
read-write :
    (s : State) (rs rd sprn : ℕ) (label : SprCase) (i : ℕ)
    → HasWords s
    → s.tb < 2 ^ 64
    → sprn_to_idx_raw sprn ≡ (if has_slot label then some i else none)
    → is_present s.caps label && not (is_read_only label) ≡ true
    → let s' = read_case label (write_case label (ifetch_invalidate s) rs sprn) rd sprn in
      (s'.gpr rd ≡ bit_or (s.gpr rs) (status_bits label s))
      × (s'.pc ≡ s.pc)
      × (s'.branched ≡ s.branched)
unfolding write_case read_case get_spr if_capable is_present needed_cap is_read_only status_bits
    tlb_flush_all ifetch_invalidate has_slot spr_value put_spr
read-write s rs rd sprn plain i w time e h = ground (arith, or-zero (s.gpr rs))
read-write s rs rd sprn table_base i w time e h = ground (arith, or-zero (s.gpr rs))
read-write s rs rd sprn version i w time e h = ground (arith, or-zero (s.gpr rs))
read-write s rs rd sprn upper_time i w time e h =
    ground (arith, or-zero (s.gpr rs), time_halves s.tb (s.gpr rs) time (w.gpr rs))
read-write s rs rd sprn lower_time i w time e h =
    ground (arith, or-zero (s.gpr rs), time_halves s.tb (s.gpr rs) time (w.gpr rs))
read-write s rs rd sprn hid2 i w time e h = ground (arith, or-zero (s.gpr rs))
read-write s rs rd sprn hid4 i w time e h = ground (arith, or-zero (s.gpr rs))
read-write s rs rd sprn bat i w time e h = ground (arith, or-zero (s.gpr rs))
read-write s rs rd sprn upper_bat i w time e h = ground (arith, or-zero (s.gpr rs))
read-write s rs rd sprn gqr i w time e h = ground (arith, or-zero (s.gpr rs))
read-write s rs rd sprn l2cr i w time e h = ground (arith, or-zero (s.gpr rs))
read-write s rs rd sprn perf_mon i w time e h = ground (arith, or-zero (s.gpr rs))
read-write s rs rd sprn gather_pipe i w time e h = ground (arith, or-zero (s.gpr rs))
read-write s rs rd sprn unknown i w time e h = ground (arith, or-zero (s.gpr rs))

-- The special register of this number is there on this processor.
abbrev pub has_spr : State → ℕ → Bool
has_spr s sprn = is_present s.caps (spr_case sprn)

-- A write by `mtspr` of a register that is there and not read-only, followed by a read of it by
-- `mfspr` into any register, gives the value written, in WPAR with the bit set that tells that the
-- pipe holds bytes; and neither takes an exception: the program counter and the mark of a branch
-- are as before.
pub do_mfspr-do_mtspr :
    (s : State) (rs rd sprn : ℕ)
    → HasWords s
    → s.tb < 2 ^ 64
    → has_spr s sprn && not (is_read_only (spr_case sprn)) ≡ true
    → let s' = do_mfspr (do_mtspr s rs sprn) rd sprn in
      (s'.gpr rd ≡ bit_or (s.gpr rs) (status_bits (spr_case sprn) s))
      × (s'.pc ≡ s.pc)
      × (s'.branched ≡ s.branched)
unfolding do_mfspr do_mtspr
do_mfspr-do_mtspr s rs rd sprn w time h =
    let (i, l, e) = spr_case-index sprn in read-write s rs rd sprn (spr_case sprn) i w time e h

read-absent :
    (s : State) (rd sprn : ℕ) (label : SprCase)
    → is_present s.caps label ≡ false
    → read_case label s rd sprn ≡ exception_fire s exception_program
unfolding is_present needed_cap read_case if_capable
read-absent s rd sprn plain h = ground arith
read-absent s rd sprn table_base h = ground arith
read-absent s rd sprn version h = ground arith
read-absent s rd sprn upper_time h = ground arith
read-absent s rd sprn lower_time h = ground arith
read-absent s rd sprn hid2 h = ground arith
read-absent s rd sprn hid4 h = ground arith
read-absent s rd sprn bat h = ground arith
read-absent s rd sprn upper_bat h = ground arith
read-absent s rd sprn gqr h = ground arith
read-absent s rd sprn l2cr h = ground arith
read-absent s rd sprn perf_mon h = ground arith
read-absent s rd sprn gather_pipe h = ground arith
read-absent s rd sprn unknown h = ground arith

write-absent :
    (s : State) (rd sprn : ℕ) (label : SprCase)
    → is_present s.caps label && not (is_read_only label) ≡ false
    → write_case label s rd sprn ≡ exception_fire s exception_program
unfolding is_present needed_cap write_case if_capable is_read_only
write-absent s rd sprn plain h = ground arith
write-absent s rd sprn table_base h = ground arith
write-absent s rd sprn version h = ground arith
write-absent s rd sprn upper_time h = ground arith
write-absent s rd sprn lower_time h = ground arith
write-absent s rd sprn hid2 h = ground arith
write-absent s rd sprn hid4 h = ground arith
write-absent s rd sprn bat h = ground arith
write-absent s rd sprn upper_bat h = ground arith
write-absent s rd sprn gqr h = ground arith
write-absent s rd sprn l2cr h = ground arith
write-absent s rd sprn perf_mon h = ground arith
write-absent s rd sprn gather_pipe h = ground arith
write-absent s rd sprn unknown h = ground arith

-- The state of the program exception `t` that the processor `s` takes.
abbrev pub Refused : State → State → ℕ → Type 0
Refused s t k =
    (t.sprs idx_srr0 ≡ s.pc)
    × (t.pc ≡ (if bit s.msr 6 then 0xfff0_0700 else 0x700))
    × (t.branched ≡ true)
    × (t.tb ≡ s.tb)
    × (t.gpr k ≡ s.gpr k)
    × (t.sprs (6 + k) ≡ s.sprs (6 + k))

program-Refused : (s : State) (k : ℕ) → Refused s (exception_fire s exception_program) k
unfolding exception_fire flush_caches
program-Refused s k =
    ground (arith, exception_fire-saved s exception_program 0 (omega arith) (omega arith))

-- An access by `mtspr` or `mfspr` to a register that the switches of src/instr/spr.c do not give,
-- for lack of the number or of the capability, and a write of the read-only PVR, is a program
-- exception: SRR0 holds the address, execution goes on at the vector, and no general-purpose
-- register, no special register from SPRG0 on and not the time base changes. SIA (955) is never
-- given, and the first of the upper BATs (560) only with CAPS_UPPER_BATS.
pub do_mtspr-absent :
    (s : State) (r sprn k : ℕ)
    → has_spr s sprn ≡ false
    → Refused s (do_mtspr s r sprn) k
      × Refused s (do_mfspr s r sprn) k
      × Refused s (do_mtspr s r 287) k
      × (has_spr s 955 ≡ false)
      × (has_spr s 560 ≡ nz (bit_and s.caps caps_upper_bats))
unfolding is_present needed_cap do_mtspr do_mfspr ifetch_invalidate write_case exception_fire
    spr_case find_label
do_mtspr-absent s r sprn k h =
    let s1 = ifetch_invalidate s in
    (
      rw (write-absent s1 r sprn (spr_case sprn) (ground arith)) (program-Refused s1 k),
      rw (read-absent s r sprn (spr_case sprn) h) (program-Refused s k),
      program-Refused s1 k,
      refl,
      refl,
    )
