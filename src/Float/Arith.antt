-- ===== src/Float/Arith.antt =====
-- The arithmetic of src/instr/floating_point.c. `width` 8 is `double_width`, 4 `single_width`; Rc is ignored.
use libppcemu.Prelude.{ℕ, if◌then◌else◌, bit_or}
use libppcemu.State.{State}
use libppcemu.Float.{
  HostFloat, one_double, one_float, zero_pattern, paired_single_mode, set_ps, set_double, get_ps0,
  get_double, enforce_msr_fp,
}

pub data Width : Type 0 where
  single_width double_width : Width

abbrev pub fpscr_zx : ℕ
fpscr_zx = 0x0400_0000

module _ (host : HostFloat) where
  -- The end of an operation that rounds `val`, or not.
  unfoldable pub set_result : State → ℕ → Width → ℕ → State
  set_result s frd double_width val = set_double s frd val
  set_result s frd single_width val =
      let result = host.to_float val in
      if paired_single_mode s
      then set_ps s frd result result
      else set_double s frd (host.to_double result)

  -- That of the negated ones, where the rounded value passes through a `double`.
  unfoldable pub set_negated : State → ℕ → Width → ℕ → State
  set_negated s frd double_width val = set_double s frd (host.neg64 val)
  set_negated s frd single_width val =
      let res = host.to_double (host.to_float (host.neg64 val)) in
      if paired_single_mode s
      then set_ps s frd (host.to_float res) (host.to_float res)
      else set_double s frd res

  unfoldable pub do_fmul_common : State → ℕ → ℕ → ℕ → Width → State
  do_fmul_common s frd fra frc width =
      enforce_msr_fp s
        (λ t. set_result t frd width (host.mul64 (get_double host t fra) (get_double host t frc)))

  unfoldable pub do_fadd_common : State → ℕ → ℕ → ℕ → Width → State
  do_fadd_common s frd fra frb width =
      enforce_msr_fp s
        (λ t. set_result t frd width (host.add64 (get_double host t fra) (get_double host t frb)))

  unfoldable pub do_fmadd_common : State → ℕ → ℕ → ℕ → ℕ → Width → State
  do_fmadd_common s frd fra frb frc width = enforce_msr_fp s (λ t. set_result t frd width (
      host.add64 (host.mul64 (get_double host t fra) (get_double host t frc))
        (get_double host t frb)))

  unfoldable pub do_fmsub_common : State → ℕ → ℕ → ℕ → ℕ → Width → State
  do_fmsub_common s frd fra frb frc width = enforce_msr_fp s (λ t. set_result t frd width (
      host.sub64 (host.mul64 (get_double host t fra) (get_double host t frc))
        (get_double host t frb)))

  unfoldable pub do_fdiv_common : State → ℕ → ℕ → ℕ → Width → State
  do_fdiv_common s frd fra frb width =
      enforce_msr_fp s
        (λ t. set_result t frd width (host.div64 (get_double host t fra) (get_double host t frb)))

  unfoldable pub do_fsub_common : State → ℕ → ℕ → ℕ → Width → State
  do_fsub_common s frd fra frb width =
      enforce_msr_fp s
        (λ t. set_result t frd width (host.sub64 (get_double host t fra) (get_double host t frb)))

  unfoldable pub do_fnmsub_common : State → ℕ → ℕ → ℕ → ℕ → Width → State
  do_fnmsub_common s frd fra frb frc width = enforce_msr_fp s (λ t. set_negated t frd width (
      host.sub64 (host.mul64 (get_double host t fra) (get_double host t frc))
        (get_double host t frb)))

  unfoldable pub do_fnmadd_common : State → ℕ → ℕ → ℕ → ℕ → Width → State
  do_fnmadd_common s frd fra frb frc width = enforce_msr_fp s (λ t. set_negated t frd width (
      host.add64 (host.mul64 (get_double host t fra) (get_double host t frc))
        (get_double host t frb)))

  unfoldable pub do_frsqrte : State → ℕ → ℕ → State
  do_frsqrte s frd frb =
      enforce_msr_fp s
        (λ t. set_double t frd (host.div64 one_double (host.sqrt (get_double host t frb))))

  -- A division by zero only sets FPSCR[ZX].
  unfoldable pub reciprocal_ps : State → ℕ → ℕ → State
  reciprocal_ps s frd b0 =
      if host.eq32 b0 zero_pattern
      then record s { fpcsr = bit_or s.fpcsr fpscr_zx }
      else (let d0 = host.div32 one_float b0 in set_ps s frd d0 d0)

  unfoldable pub reciprocal_double : State → ℕ → ℕ → State
  reciprocal_double s frd b =
      if host.eq64 b zero_pattern
      then record s { fpcsr = bit_or s.fpcsr fpscr_zx }
      else set_double s frd (host.div64 one_double b)

  unfoldable pub do_fres : State → ℕ → ℕ → State
  do_fres s frd frb = enforce_msr_fp s (λ t.
      if paired_single_mode t
      then reciprocal_ps t frd (get_ps0 host t frb)
      else reciprocal_double t frd (get_double host t frb))
