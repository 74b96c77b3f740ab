-- ===== src/Float.antt =====
-- The floating-point registers: the head of src/instr/floating_point.c, and the loads and stores that may fail.
-- A `float` is its 32-bit pattern and a `double` its 64-bit pattern; the arithmetic of the host on
-- them is an argument. The two lanes of a register in paired-single form are the halves of its
-- pattern, lane 0 the upper one.
pub mod Access
pub mod Arith
pub mod Move
pub mod Memory
pub mod Refused
pub mod Status
pub mod RoundTrip
use libppcemu.Prelude.{
  ℕ, ◌+◌, ◌*◌, ◌/◌, ◌^◌, bit_and, bit_or, Bool, true, false, not, ◌&&◌, nz, if◌then◌else◌, ℤ, u32,
  shr, update,
}
use libppcemu.State.{State}
use libppcemu.Spr.{idx_hid2_gekko, hid2_pse, caps_ps_idx, msr_fp}
use libppcemu.Exception.{exception_fire}

-- The operators of C on `double` (64) and `float` (32), with <math.h>.
pub record HostFloat : Type 0 where
  -- `(double)x` of a `float`, `(float)x` of a `double`
  pub to_double : ℕ → ℕ
  pub to_float : ℕ → ℕ
  pub add64 : ℕ → ℕ → ℕ
  pub sub64 : ℕ → ℕ → ℕ
  pub mul64 : ℕ → ℕ → ℕ
  pub div64 : ℕ → ℕ → ℕ
  pub neg64 : ℕ → ℕ
  pub lt64 : ℕ → ℕ → Bool
  pub eq64 : ℕ → ℕ → Bool
  pub isnan : ℕ → Bool
  pub sqrt : ℕ → ℕ
  pub trunc : ℕ → ℕ
  pub add32 : ℕ → ℕ → ℕ
  pub sub32 : ℕ → ℕ → ℕ
  pub mul32 : ℕ → ℕ → ℕ
  pub div32 : ℕ → ℕ → ℕ
  pub neg32 : ℕ → ℕ
  pub lt32 : ℕ → ℕ → Bool
  pub eq32 : ℕ → ℕ → Bool
  -- `(float)n`, `(u32)(i32)x` of a `double`, and `(u32)x` of a `float` cut to `u16`, `i16`, `u8`, `i8`
  pub of_int : ℤ → ℕ
  pub to_i32 : ℕ → ℕ
  pub to_u16 : ℕ → ℕ
  pub to_i16 : ℕ → ℕ
  pub to_u8 : ℕ → ℕ
  pub to_i8 : ℕ → ℕ

abbrev pub exception_fp_unav : ℕ
exception_fp_unav = 0x800

-- 0.0f and 0.0, 1.0f and 1.0
abbrev pub zero_pattern : ℕ
zero_pattern = 0

abbrev pub one_float : ℕ
one_float = 0x3f80_0000

abbrev pub one_double : ℕ
one_double = 0x3ff0_0000_0000_0000

unfoldable pub paired_single_mode : State → Bool
paired_single_mode s =
    nz (bit_and s.caps caps_ps_idx) && nz (bit_and (s.sprs idx_hid2_gekko) hid2_pse)

abbrev pub high_word : ℕ → ℕ
high_word w = u32 (shr w 32)

-- `((u64)hi << 32) | lo`
abbrev pub words64 : ℕ → ℕ → ℕ
words64 hi lo = bit_or (hi * 2 ^ 32) lo

abbrev pub set_fpr : State → ℕ → ℕ → Bool → State
set_fpr s fr v is_ps = record s { fpr = update s.fpr fr v; fpr_is_ps = update s.fpr_is_ps fr is_ps }

unfoldable pub set_ps : State → ℕ → ℕ → ℕ → State
set_ps s fr ps0 ps1 = set_fpr s fr (words64 ps0 ps1) true

unfoldable pub set_double : State → ℕ → ℕ → State
set_double s fr val = set_fpr s fr val false

module _ (host : HostFloat) where
  unfoldable pub get_ps0 : State → ℕ → ℕ
  get_ps0 s fr = if not (s.fpr_is_ps fr) then host.to_float (s.fpr fr) else high_word (s.fpr fr)

  unfoldable pub get_double : State → ℕ → ℕ
  get_double s fr = if s.fpr_is_ps fr then host.to_double (get_ps0 s fr) else s.fpr fr

-- `ENFORCE_MSR_FP()`
unfoldable pub enforce_msr_fp : State → (State → State) → State
enforce_msr_fp s body =
    if not (nz (bit_and s.msr msr_fp)) then exception_fire s exception_fp_unav else body s

-- `ENFORCE_MSR_FP(0)`, of a function that returns an address
unfoldable pub enforce_msr_fp_ret : State → (State → ℕ × State) → ℕ × State
enforce_msr_fp_ret s body =
    if not (nz (bit_and s.msr msr_fp)) then (0, exception_fire s exception_fp_unav) else body s
