-- ===== src/MulDiv.antt =====
-- Multiplication and division: the second half of src/instr/arith.c. An `i64` is its 64-bit
-- pattern; the products of two sign-extended words do not overflow it.
pub mod Divide
pub mod Multiply
pub mod Laws
use libppcemu.Prelude.{
  ℕ, ◌+◌, ◌-◌, ◌*◌, ◌/◌, ◌%◌, ◌^◌, bit_and, bit_xor, Bool, ◌&&◌, ◌||◌, not, nz, ltb, ◌==◌,
  if◌then◌else◌, not32, u32, u64, shr, u16,
}
use libppcemu.State.{State, set_gpr}
use libppcemu.Arith.{ppcemu_abs_s32_bits, record_oe, record_rc}

-- `(i64)(i32)x` and `(i64)(i16)x`.
abbrev pub sext64 : ℕ → ℕ
sext64 x = if ltb (u32 x) 0x8000_0000 then u32 x else u32 x + 0xffff_ffff_0000_0000

abbrev pub sext16_64 : ℕ → ℕ
sext16_64 x = if ltb (u16 x) 0x8000 then u16 x else u16 x + 0xffff_ffff_ffff_0000

unfoldable pub do_divw : State → ℕ → ℕ → ℕ → ℕ → ℕ → State
do_divw s rd ra rb oe rc =
    let dividend = s.gpr ra in
    let divisor = s.gpr rb in
    let overflow = divisor == 0 || (dividend == 0x8000_0000 && divisor == 0xffff_ffff) in
    let negative = bit_and (bit_xor dividend divisor) 0x8000_0000 in
    let quotient = ppcemu_abs_s32_bits dividend / ppcemu_abs_s32_bits divisor in
    let s1 =
      if not overflow
      then set_gpr s rd (if nz negative then u32 (not32 quotient + 1) else quotient)
      else s in
    record_rc (record_oe s1 oe overflow) rc rd

unfoldable pub do_divwu : State → ℕ → ℕ → ℕ → ℕ → ℕ → State
do_divwu s rd ra rb oe rc =
    let overflow = s.gpr rb == 0 in
    let s1 = if not overflow then set_gpr s rd (s.gpr ra / s.gpr rb) else s in
    record_rc (record_oe s1 oe overflow) rc rd

unfoldable pub do_mulhw : State → ℕ → ℕ → ℕ → ℕ → State
do_mulhw s rd ra rb rc =
    let res = u64 (sext64 (s.gpr ra) * sext64 (s.gpr rb)) in
    record_rc (set_gpr s rd (u32 (shr res 32))) rc rd

unfoldable pub do_mulhwu : State → ℕ → ℕ → ℕ → ℕ → State
do_mulhwu s rd ra rb rc =
    let res = u64 (s.gpr ra * s.gpr rb) in record_rc (set_gpr s rd (u32 (shr res 32))) rc rd

unfoldable pub do_mullw : State → ℕ → ℕ → ℕ → ℕ → ℕ → State
do_mullw s rd ra rb oe rc =
    let res = u64 (sext64 (s.gpr ra) * sext64 (s.gpr rb)) in
    let s1 = set_gpr s rd (u32 (bit_and res 0xffff_ffff)) in
    record_rc (record_oe s1 oe (not (res == sext64 (u32 res)))) rc rd

unfoldable pub do_mulli : State → ℕ → ℕ → ℕ → State
do_mulli s rd ra simm =
    let res = u64 (sext64 (s.gpr ra) * sext16_64 simm) in
    set_gpr s rd (u32 (bit_and res 0xffff_ffff))
