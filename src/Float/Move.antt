-- ===== src/Float/Move.antt =====
-- Moves, conversions, compares and the status register of src/instr/floating_point.c. Rc is ignored.
use libppcemu.Prelude.{
  ℕ, ◌-◌, ◌*◌, ◌^◌, bit_and, bit_or, bit_xor, Bool, true, false, ◌&&◌, ◌||◌, ◌==◌, if◌then◌else◌,
  not32, u32, shl32,
}
use libppcemu.State.{State}
use libppcemu.Cr.{cr_set_field}
use libppcemu.Cond.{crm_loop}
use libppcemu.Float.{
  HostFloat, paired_single_mode, words64, set_fpr, set_double, get_double, enforce_msr_fp,
}

-- `x & 0xffffffff00000000ull` of a `u64`.
abbrev pub upper_half : ℕ → ℕ
upper_half w = bit_and w 0xffff_ffff_0000_0000

unfoldable pub do_fmr : State → ℕ → ℕ → State
do_fmr s frd frb = enforce_msr_fp s (λ t.
    if paired_single_mode t && t.fpr_is_ps frb
    then set_fpr t frd (bit_or (upper_half (t.fpr frb)) (bit_and (t.fpr frd) 0xffff_ffff)) true
    else set_fpr t frd (t.fpr frb) (t.fpr_is_ps frb))

-- The loop is that of mtcrf.
unfoldable pub do_mtfsf : State → ℕ → ℕ → State
do_mtfsf s fm frb = enforce_msr_fp s (λ t.
    let mask = crm_loop 8 0 fm 0 in
    if fm == 0xff then record t { fpcsr = u32 (t.fpr frb) } else record t {
      fpcsr = bit_or (bit_and t.fpcsr (not32 mask)) (bit_and (u32 (t.fpr frb)) mask);
    })

unfoldable pub do_mtfsfi : State → ℕ → ℕ → State
do_mtfsfi s crfd imm = enforce_msr_fp s (λ t.
    let shift = (7 - crfd) * 4 in
    record t {
      fpcsr = bit_or (bit_and t.fpcsr (not32 (shl32 15 shift))) (shl32 (bit_and imm 15) shift);
    })

unfoldable pub do_mtfsb_n : State → ℕ → Bool → State
do_mtfsb_n s crbd set = enforce_msr_fp s (λ t.
    let mask = shl32 1 (31 - crbd) in
    if set
    then record t { fpcsr = bit_or t.fpcsr mask }
    else record t { fpcsr = bit_and t.fpcsr (not32 mask) })

unfoldable pub do_fneg : State → ℕ → ℕ → State
do_fneg s frd frb =
    enforce_msr_fp s (λ t. set_fpr t frd (bit_xor (t.fpr frb) (2 ^ 63)) (t.fpr_is_ps frb))

unfoldable pub do_fabs : State → ℕ → ℕ → State
do_fabs s frd frb =
    enforce_msr_fp s (λ t. set_fpr t frd (bit_and (t.fpr frb) (2 ^ 63 - 1)) (t.fpr_is_ps frb))

unfoldable pub do_mffs : State → ℕ → State
do_mffs s frd =
    enforce_msr_fp s (λ t. set_fpr t frd (bit_or (upper_half (t.fpr frd)) t.fpcsr) false)

-- `fpcsr &= ~0x0000f000u; fpcsr |= c << 12;` and CR.
unfoldable pub set_compare : State → ℕ → ℕ → State
set_compare s crfd c =
    cr_set_field (record s { fpcsr = bit_or (bit_and s.fpcsr (not32 0xf000)) (shl32 c 12) }) crfd c

module _ (host : HostFloat) where
  unfoldable pub do_fctiwz : State → ℕ → ℕ → State
  do_fctiwz s frd frb = enforce_msr_fp s (λ t.
      set_fpr t frd
        (bit_or (upper_half (t.fpr frd)) (host.to_i32 (host.trunc (get_double host t frb)))) false)

  unfoldable pub do_frsp : State → ℕ → ℕ → State
  do_frsp s frd frb = enforce_msr_fp s (λ t.
      let rounded = host.to_float (get_double host t frb) in
      if paired_single_mode t
      then set_fpr t frd (words64 rounded (u32 (t.fpr frd))) true
      else set_double t frd (host.to_double rounded))

  unfoldable pub compare_double : ℕ → ℕ → ℕ
  compare_double a b =
      if host.isnan a || host.isnan b
      then 1
      else if host.lt64 a b
      then 8
      else if host.lt64 b a
      then 4
      else 2

  unfoldable pub do_fcmpu : State → ℕ → ℕ → ℕ → State
  do_fcmpu s crfd fra frb =
      enforce_msr_fp s
        (λ t. set_compare t crfd (compare_double (get_double host t fra) (get_double host t frb)))
