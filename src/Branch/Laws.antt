-- ===== src/Branch/Laws.antt =====
-- Where the branches of src/instr/branch.c go, and the return from an exception.
use libppcemu.Prelude.{
  ℕ, ◌+◌, ◌-◌, ◌*◌, ◌%◌, ◌^◌, ◌<◌, ◌≡◌, true, not, ◌&&◌, ◌||◌, refl, arith, all_below,
  all_below_lem, same_bool, bit, bit-bit_and, nz-bit_and-pow, nz, ltb, ◌==◌, if◌then◌else◌, u32,
  sub32, not32, sext16, bit_and, bit_and_high, ℤ, pos, negsuc, ◌+ℤ◌,
}
use libppcemu.State.{State}
use libppcemu.Spr.{idx_lr, idx_ctr, idx_srr0, idx_srr1, msr_pow}
use libppcemu.Cr.Fields.{cr_get_bit_lem}
use libppcemu.MulDiv.Divide.{word32}
use libppcemu.Exception.{exception_fire, flush_caches}
use libppcemu.Exception.Entry.{exception_fire-saved, is_reserved}
use libppcemu.Branch.{
  do_rfi, rfi_body, no_rc, branch_target, do_branch, step_ctr, branch_taken, do_cond_branch, do_bc,
}

pow_table : all_below 32 (λ k. same_bool (bit (not32 msr_pow) k) (not (k == 18))) ≡ true
unfolding all_below bit
pow_table = refl

rfi_pc :
    (s : State)
    → ((do_rfi s 0).pc ≡ s.sprs idx_srr0)
      × ((do_rfi s 0).msr ≡ bit_and (s.sprs idx_srr1) (not32 msr_pow))
unfolding do_rfi no_rc rfi_body flush_caches
rfi_pc s = (ground arith, ground arith)

-- For a vector below 2^20, `rfi` right after the entry of an exception resumes at the interrupted
-- address, with each of the 32 digits of the interrupted MSR but POW and the reserved ones, which
-- are 0.
pub do_rfi-exception_fire :
    (s : State) (idx k : ℕ)
    → idx < 2 ^ 20
    → k < 32
    → ((do_rfi (exception_fire s idx) 0).pc ≡ s.pc)
      × (bit (do_rfi (exception_fire s idx) 0).msr k
          ≡ not (k == 18) && not (is_reserved k) && bit s.msr k)
do_rfi-exception_fire s idx k h l = (
  ground (arith, rfi_pc (exception_fire s idx), exception_fire-saved s idx k h l),
  ground (
    arith,
    rfi_pc (exception_fire s idx),
    exception_fire-saved s idx k h l,
    bit-bit_and k ((exception_fire s idx).sprs idx_srr1) (not32 msr_pow),
    all_below_lem 32 k _ pow_table l,
  ),
)

-- The offset that the 24-bit field of a branch stands for.
abbrev pub offset24 : ℕ → ℤ
offset24 li = if ltb li (2 ^ 23) then pos (li * 4) else negsuc (2 ^ 26 - li * 4 - 1)

target_lem : (li : ℕ) → li < 2 ^ 24 → branch_target li ≡ word32 (offset24 li)
unfolding branch_target
target_lem li h = ground arith

-- For a 24-bit field and an aligned 32-bit address, an unconditional branch goes to the signed
-- offset, modulo 2^32, from 0 or from its own address, and leaves the address after it in LR if it
-- links; otherwise LR stays.
do_branch_lem :
    (s : State) (li aa lk : ℕ)
    → li < 2 ^ 24
    → s.pc < 2 ^ 32
    → s.pc % 4 ≡ 0
    → ((do_branch s li aa lk).pc
        ≡ (if nz aa then word32 (offset24 li) else word32 (pos s.pc +ℤ offset24 li)))
      × ((do_branch s li aa lk).sprs idx_lr ≡ (if nz lk then u32 (s.pc + 4) else s.sprs idx_lr))
unfolding do_branch ◌+ℤ◌
do_branch_lem s li aa lk h hp ha = (
  ground (
    arith,
    target_lem li h,
    bit_and_high 30 2 (u32 (s.pc + branch_target li)) (omega arith),
    bit_and_high 30 2 (branch_target li) (ground (arith, target_lem li h)),
  ),
  ground arith,
)

-- A conditional branch counts CTR down, modulo 2^32, unless BO says not to. It goes to its target,
-- as a branch, if BO accepts the new CTR and the chosen bit of CR, and otherwise leaves the address
-- alone. It links only if it is taken.
do_bc_lem :
    (s : State) (bo bi bd aa lk : ℕ)
    → let s' = do_bc s bo bi bd aa lk in
      let ctr = if bit bo 2 then s.sprs idx_ctr else sub32 (s.sprs idx_ctr) 1 in
      let taken =
        (bit bo 2 || (if bit bo 1 then ctr == 0 else nz ctr))
        && (bit bo 4 || same_bool (bit s.cr (31 - bi)) (bit bo 3)) in
      let target = if nz aa then sext16 (bd * 4) else u32 (s.pc + sext16 (bd * 4)) in
      (s'.sprs idx_ctr ≡ ctr)
      × (s'.pc ≡ (if taken then target else s.pc))
      × (s'.branched ≡ (if taken then true else s.branched))
      × (s'.sprs idx_lr ≡ (if taken && nz lk then u32 (s.pc + 4) else s.sprs idx_lr))
unfolding do_bc do_cond_branch step_ctr branch_taken
do_bc_lem s bo bi bd aa lk =
    let b1 = nz-bit_and-pow 1 bo in
    let b2 = nz-bit_and-pow 2 bo in
    let b3 = nz-bit_and-pow 3 bo in
    let b4 = nz-bit_and-pow 4 bo in
    let digit = cr_get_bit_lem (step_ctr s bo) (31 - bi) in
    (
      ground (arith, b2),
      ground (arith, b1, b2, b3, b4, digit),
      ground (arith, b1, b2, b3, b4, digit),
      ground (arith, b1, b2, b3, b4, digit),
    )
