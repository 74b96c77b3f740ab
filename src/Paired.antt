-- ===== src/Paired.antt =====
-- The lanes of a register and the guards of src/instr/paired_singles.c, with the moves and compares. Lane 0
-- is the upper word of the register's pattern. Rc is ignored.
pub mod Arith
pub mod Quantize
pub mod Memory
pub mod Lanes
pub mod Saturate
pub mod Forms
use libppcemu.Prelude.{
  ℕ, ◌+◌, ◌-◌, ◌*◌, ◌/◌, ◌^◌, bit_and, bit_or, bit_xor, Bool, true, not, ◌&&◌, ◌||◌, nz, ◌==◌,
  if◌then◌else◌, not32, u32, shr,
}
use libppcemu.State.{State}
use libppcemu.Spr.{idx_hid2_gekko, hid2_pse, caps_ps_idx, caps_ps_ld_st, caps_hid2_gekko, msr_fp}
use libppcemu.Exception.{exception_fire, exception_program}
use libppcemu.Float.{HostFloat, exception_fp_unav, high_word, words64, set_fpr}
use libppcemu.Float.Move.{upper_half, set_compare}

pub data Lane : Type 0 where
  lane0 lane1 : Lane

unfoldable pub ps_get_u32 : State → ℕ → Lane → ℕ
ps_get_u32 s fr lane0 = high_word (s.fpr fr)
ps_get_u32 s fr lane1 = u32 (s.fpr fr)

-- `ps_set_u32`, and `ps_set_f32`: a float is its pattern.
unfoldable pub ps_set_u32 : State → ℕ → Lane → ℕ → State
ps_set_u32 s fr lane0 val = set_fpr s fr (words64 val (u32 (s.fpr fr))) (s.fpr_is_ps fr)
ps_set_u32 s fr lane1 val = set_fpr s fr (bit_or (upper_half (s.fpr fr)) val) (s.fpr_is_ps fr)

unfoldable pub mark_ps : State → ℕ → State
mark_ps s fr = set_fpr s fr (s.fpr fr) true

unfoldable pub set_lanes : State → ℕ → ℕ → ℕ → State
set_lanes s fr d0 d1 = ps_set_u32 (ps_set_u32 s fr lane0 d0) fr lane1 d1

abbrev pub hid2_bw_lsqe : ℕ
hid2_bw_lsqe = 0x8000_0000

-- The conditions of `PS_ENFORCE_CAP_IDX` and of `PS_ENFORCE_CAP_LS`, and the vector where one fails; 0 is none.
unfoldable pub cap_idx_vector : State → ℕ
cap_idx_vector s =
    if not (nz (bit_and s.msr msr_fp))
    then exception_fp_unav
    else if not (nz (bit_and s.caps caps_ps_idx))
    then exception_program
    else if nz (bit_and s.caps caps_hid2_gekko)
        && not (nz (bit_and (s.sprs idx_hid2_gekko) hid2_pse))
    then exception_program
    else 0

unfoldable pub cap_ls_vector : State → ℕ
cap_ls_vector s =
    let both = bit_or hid2_pse hid2_bw_lsqe in
    if not (nz (bit_and s.msr msr_fp))
    then exception_fp_unav
    else if not (nz (bit_and s.caps caps_ps_ld_st))
    then exception_program
    else if nz (bit_and s.caps caps_hid2_gekko)
        && not (bit_and (s.sprs idx_hid2_gekko) both == both)
    then exception_program
    else 0

unfoldable pub ps_enforce_cap_idx : State → (State → State) → State
ps_enforce_cap_idx s body =
    let vector = cap_idx_vector s in if nz vector then exception_fire s vector else body s

unfoldable pub ps_enforce_cap_ls : State → (State → ℕ × State) → ℕ × State
ps_enforce_cap_ls s body =
    let vector = cap_ls_vector s in if nz vector then (0, exception_fire s vector) else body s

unfoldable pub do_ps_mr : State → ℕ → ℕ → State
do_ps_mr s frd frb = ps_enforce_cap_idx s (λ t. set_fpr t frd (t.fpr frb) true)

unfoldable pub do_ps_merge00 : State → ℕ → ℕ → ℕ → State
do_ps_merge00 s frd fra frb =
    ps_enforce_cap_idx s
      (λ t. mark_ps (set_lanes t frd (ps_get_u32 t fra lane0) (ps_get_u32 t frb lane0)) frd)

unfoldable pub do_ps_merge01 : State → ℕ → ℕ → ℕ → State
do_ps_merge01 s frd fra frb =
    ps_enforce_cap_idx s
      (λ t. mark_ps (set_lanes t frd (ps_get_u32 t fra lane0) (ps_get_u32 t frb lane1)) frd)

unfoldable pub do_ps_merge10 : State → ℕ → ℕ → ℕ → State
do_ps_merge10 s frd fra frb =
    ps_enforce_cap_idx s
      (λ t. mark_ps (set_lanes t frd (ps_get_u32 t fra lane1) (ps_get_u32 t frb lane0)) frd)

unfoldable pub do_ps_merge11 : State → ℕ → ℕ → ℕ → State
do_ps_merge11 s frd fra frb =
    ps_enforce_cap_idx s
      (λ t. mark_ps (set_lanes t frd (ps_get_u32 t fra lane1) (ps_get_u32 t frb lane1)) frd)

unfoldable pub do_ps_neg : State → ℕ → ℕ → State
do_ps_neg s frd frb = ps_enforce_cap_idx s (λ t.
    set_lanes t frd (bit_xor (ps_get_u32 t frb lane0) (2 ^ 31))
      (bit_xor (ps_get_u32 t frb lane1) (2 ^ 31)))

-- src/fp.h
unfoldable pub is_nan : ℕ → Bool
is_nan x = bit_and (shr x 23) 0xff == 0xff && nz (bit_and x 0x7f_ffff)

unfoldable pub is_snan : ℕ → Bool
is_snan x = is_nan x && bit_and x 0x40_0000 == 0

unfoldable pub is_qnan : ℕ → Bool
is_qnan x = is_nan x && bit_and x 0x40_0000 == 0x40_0000

abbrev pub fpscr_vxsnan : ℕ
fpscr_vxsnan = 0x0100_0000

abbrev pub fpscr_vxvc : ℕ
fpscr_vxvc = 0x0008_0000

abbrev pub fpscr_ve : ℕ
fpscr_ve = 0x80

-- What an operand that is no number does to FPSCR.
unfoldable pub invalid_compare : ℕ → ℕ → ℕ → ℕ
invalid_compare fpcsr a0 b0 =
    if is_snan a0 || is_snan b0
    then (let raised = bit_or fpcsr fpscr_vxsnan in
        if bit_and raised fpscr_ve == 0 then bit_or raised fpscr_vxvc else raised)
    else if is_qnan a0 || is_qnan b0
    then bit_or fpcsr fpscr_vxvc
    else fpcsr

module _ (host : HostFloat) where
  unfoldable pub compare_single : State → ℕ → ℕ → ℕ → State
  compare_single s crfd a0 b0 =
      if is_nan a0 || is_nan b0
      then set_compare (record s { fpcsr = invalid_compare s.fpcsr a0 b0 }) crfd 1
      else set_compare s crfd (if host.lt32 a0 b0 then 8 else if host.lt32 b0 a0 then 4 else 2)

  unfoldable pub do_ps_cmpo0 : State → ℕ → ℕ → ℕ → State
  do_ps_cmpo0 s crfd fra frb =
      ps_enforce_cap_idx s
        (λ t. compare_single t crfd (ps_get_u32 t fra lane0) (ps_get_u32 t frb lane0))
