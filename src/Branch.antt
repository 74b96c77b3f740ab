-- ===== src/Branch.antt =====
-- Branches and the return from an exception: src/instr/branch.c.
pub mod Laws
use libppcemu.Prelude.{
  ℕ, ◌+◌, ◌-◌, ◌*◌, ◌/◌, ◌%◌, ◌^◌, bit_and, bit_or, Bool, true, ◌&&◌, not, nz, ltb, ◌==◌,
  if◌then◌else◌, not32, u32, sub32, sext16, shl32,
}
use libppcemu.State.{State, set_spr}
use libppcemu.Spr.{idx_lr, idx_ctr, idx_srr0, idx_srr1, msr_ir, msr_dr, msr_pow}
use libppcemu.Cr.{int_of, cr_get_bit}
use libppcemu.Exception.{exception_fire, exception_program, flush_caches, is_permissive}

-- `NO_RC()` of src/decode.h: an instruction that takes no Rc bit.
unfoldable pub no_rc : State → ℕ → (State → State) → State
no_rc s inst body = if nz (bit_and inst 1) then exception_fire s exception_program else body s

unfoldable pub rfi_body : State → State
unfolding is_permissive
rfi_body s =
    let s1 = record s { pc = s.sprs idx_srr0 } in
    let srr1 = bit_and (s1.sprs idx_srr1) (not32 msr_pow) in
    let was_on = nz (bit_and s1.msr (bit_or msr_ir msr_dr)) in
    let will_be_on = nz (bit_and srr1 (bit_or msr_ir msr_dr)) in
    let s2 =
      if was_on && not will_be_on && is_permissive s1.cache_mode
      then flush_caches s1
      else if not was_on && will_be_on && is_permissive s1.cache_mode
      then flush_caches (record s1 { msr = srr1 })
      else s1 in
    record s2 { msr = srr1; branched = true }

unfoldable pub do_rfi : State → ℕ → State
do_rfi s inst = no_rc s inst rfi_body

-- `((i32)(li << 8) >> 6)`: the 24-bit field, sign-extended and with two zero bits below.
unfoldable pub branch_target : ℕ → ℕ
branch_target li =
    let shifted = shl32 li 8 in
    if ltb shifted 0x8000_0000
    then shifted / 2 ^ 6
    else 0xffff_ffff - (0xffff_ffff - shifted) / 2 ^ 6

unfoldable pub do_branch : State → ℕ → ℕ → ℕ → State
do_branch s li aa lk =
    let oldpc = s.pc in
    let target = branch_target li in
    let pc1 = if nz aa then target else u32 (s.pc + target) in
    let s1 = record s { pc = bit_and pc1 (not32 3) } in
    let s2 = if nz lk then set_spr s1 idx_lr (u32 (oldpc + 4)) else s1 in
    record s2 { branched = true }

-- `(*ctr)--` unless BO says to ignore the counter.
unfoldable pub step_ctr : State → ℕ → State
step_ctr s bo = if nz (bit_and bo 4) then s else set_spr s idx_ctr (sub32 (s.sprs idx_ctr) 1)

-- `ctr_ok && cond_ok`, with the counter already stepped.
unfoldable pub branch_taken : State → ℕ → ℕ → Bool
branch_taken s bo bi =
    let ctr = s.sprs idx_ctr in
    let ctr_ok =
      if nz (bit_and bo 4) then true else if nz (bit_and bo 2) then ctr == 0 else nz ctr in
    let cond_ok =
      if nz (bit_and bo 0x10) then true else cr_get_bit s (31 - bi) == int_of (nz (bit_and bo 8)) in
    ctr_ok && cond_ok

unfoldable pub do_cond_branch : State → ℕ → ℕ → ℕ → ℕ → State
do_cond_branch s bo bi lk target_addr =
    let s1 = step_ctr s bo in
    let oldpc = s1.pc in
    let s2 = record s1 { pc = target_addr; branched = true } in
    if branch_taken s1 bo bi
    then (if nz lk then set_spr s2 idx_lr (u32 (oldpc + 4)) else s2)
    else s1

unfoldable pub do_bc : State → ℕ → ℕ → ℕ → ℕ → ℕ → State
do_bc s bo bi bd aa lk =
    let ea = if nz aa then sext16 (bd * 4) else u32 (s.pc + sext16 (bd * 4)) in
    do_cond_branch s bo bi lk ea
