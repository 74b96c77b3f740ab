-- ===== src/MulDiv/Divide.antt =====
-- Division: `do_divw` and `do_divwu` of src/instr/arith.c.
use libppcemu.Prelude.{
  ℕ, suc, ◌+◌, ◌-◌, ◌*◌, ◌/◌, ◌^◌, ◌≤◌, ◌<◌, ◌≡◌, Bool, ◌&&◌, ◌||◌, ap, arith, bit-bit_xor, nz, leb,
  ◌==◌, if◌then◌else◌, u32, not32, xor, signed32, ℤ, pos, negsuc, sub_ℕ, none, nz-bit_and-pow,
  fun_ext, bit_and, bit_xor,
}
use native.Mathlib.Nat.{div-le_self, mul-div-le, mul-le-mul_right}
use libppcemu.State.{State, set_gpr}
use libppcemu.State.Words.{HasWords}
use libppcemu.Arith.{ppcemu_abs_s32_bits, record_oe, record_rc}
use libppcemu.Arith.Overflow.{bit-sign, out_of_s32}
use libppcemu.Arith.Effect.{Effect, finish_lem, put_ca}
use libppcemu.MulDiv.{do_divw, do_divwu}

-- The word that stands for a signed number, taken modulo 2^32.
abbrev pub word32 : ℤ → ℕ
word32 (pos n) = u32 n
word32 (negsuc n) = 0xffff_ffff - u32 n

pub word32-lt : (z : ℤ) → word32 z < 2 ^ 32
word32-lt (pos n) = omega arith
word32-lt (negsuc n) = omega arith

pub word32-signed32 : (a : ℕ) → a < 2 ^ 32 → word32 (signed32 a) ≡ a
word32-signed32 a h = ground arith

-- The quotient of two signed numbers, rounded towards zero.
abbrev pub quotient : ℤ → ℤ → ℤ
quotient (pos m) (pos n) = pos (m / n)
quotient (pos m) (negsuc n) = sub_ℕ 0 (m / suc n)
quotient (negsuc m) (pos n) = sub_ℕ 0 (suc m / n)
quotient (negsuc m) (negsuc n) = pos (suc m / suc n)

abs_lem : (a : ℕ) → a < 2 ^ 32 → ppcemu_abs_s32_bits a ≡ (if leb (2 ^ 31) a then 2 ^ 32 - a else a)
unfolding ppcemu_abs_s32_bits
abs_lem a h = ground (arith, nz-bit_and-pow 31 a, bit-sign a h)

signs :
    (a b : ℕ)
    → a < 2 ^ 32
    → b < 2 ^ 32
    → nz (bit_and (bit_xor a b) 0x8000_0000) ≡ xor (leb (2 ^ 31) a) (leb (2 ^ 31) b)
signs a b ha hb =
    ground
      (arith, nz-bit_and-pow 31 (bit_xor a b), bit-bit_xor 31 a b, bit-sign a ha, bit-sign b hb)

set_gpr-same : (s : State) (r : ℕ) → set_gpr s r (s.gpr r) ≡ s
set_gpr-same s r = ap (λ (g : ℕ → ℕ). record s { gpr = g }) (fun_ext λ j. ground arith)

-- The code's quotient, from the absolute values and the signs.
divw_word :
    (a b : ℕ)
    → a < 2 ^ 32
    → b < 2 ^ 32
    → 1 ≤ b
    → let q = ppcemu_abs_s32_bits a / ppcemu_abs_s32_bits b in
      (if nz (bit_and (bit_xor a b) 0x8000_0000) then u32 (not32 q + 1) else q)
      ≡ word32 (quotient (signed32 a) (signed32 b))
divw_word a b ha hb h = ground (
  arith,
  signs a b ha hb,
  abs_lem a ha,
  abs_lem b hb,
  div-le_self a b,
  div-le_self (2 ^ 32 - a) b,
  div-le_self a (2 ^ 32 - b),
  div-le_self (2 ^ 32 - a) (2 ^ 32 - b),
)

-- A quotient by two or more is at most half.
half_le : (x y : ℕ) → 2 ≤ y → 2 * (x / y) ≤ x
half_le x y h = omega (arith, mul-le-mul_right (x / y) h, mul-div-le y x)

-- Only the division of the least word by -1 has a quotient that no word holds.
divw_overflow :
    (a b : ℕ)
    → a < 2 ^ 32
    → b < 2 ^ 32
    → 1 ≤ b
    → (a == 0x8000_0000 && b == 0xffff_ffff) ≡ out_of_s32 (quotient (signed32 a) (signed32 b))
divw_overflow a b ha hb h = ground (
  arith,
  div-le_self a b,
  div-le_self (2 ^ 32 - a) b,
  div-le_self a (2 ^ 32 - b),
  div-le_self (2 ^ 32 - a) (2 ^ 32 - b),
  half_le (2 ^ 32 - a) (2 ^ 32 - b),
  half_le a b,
)

module _ (s : State) (words : HasWords s) (rd ra rb oe rc i k : ℕ) (l : k < 32) where
  abbrev divw_over : Bool
  divw_over = s.gpr rb == 0 || out_of_s32 (quotient (signed32 (s.gpr ra)) (signed32 (s.gpr rb)))

  abbrev divw_result : ℕ
  divw_result =
      if divw_over then s.gpr rd else word32 (quotient (signed32 (s.gpr ra)) (signed32 (s.gpr rb)))

  divw_form :
      do_divw s rd ra rb oe rc ≡ record_rc (record_oe (set_gpr s rd divw_result) oe divw_over) rc rd
  unfolding do_divw
  divw_form = ground (
    arith,
    set_gpr-same s rd,
    divw_word (s.gpr ra) (s.gpr rb) (words.gpr ra) (words.gpr rb),
    divw_overflow (s.gpr ra) (s.gpr rb) (words.gpr ra) (words.gpr rb),
  )

  divwu_form :
      do_divwu s rd ra rb oe rc
      ≡ record_rc
          (record_oe
            (set_gpr s rd (if s.gpr rb == 0 then s.gpr rd else s.gpr ra / s.gpr rb))
            oe
            (s.gpr rb == 0))
          rc
          rd
  unfolding do_divwu
  divwu_form = ground (arith, set_gpr-same s rd)

  -- `divw`: the register receives the signed quotient, rounded towards zero. On a division by 0,
  -- and where the quotient is no signed word, it keeps its value and the overflow is recorded.
  pub do_divw_lem :
      let a = s.gpr ra in
      let b = s.gpr rb in
      let q = quotient (signed32 a) (signed32 b) in
      let overflow = b == 0 || out_of_s32 q in
      Effect s
        (do_divw s rd ra rb oe rc)
        rd
        oe
        rc
        (if overflow then s.gpr rd else word32 q)
        none
        overflow
        i
        k
  unfolding put_ca
  do_divw_lem =
      rw divw_form (
        finish_lem s words rd oe rc i k divw_result none divw_over (ground (arith, words.gpr rd)) l)

  -- `divwu`: the register receives the unsigned quotient. On a division by 0 it keeps its value and
  -- the overflow is recorded.
  pub do_divwu_lem :
      let overflow = s.gpr rb == 0 in
      Effect s
        (do_divwu s rd ra rb oe rc)
        rd
        oe
        rc
        (if overflow then s.gpr rd else s.gpr ra / s.gpr rb)
        none
        overflow
        i
        k
  unfolding put_ca
  do_divwu_lem = rw divwu_form (
      finish_lem s words rd oe rc i k (if s.gpr rb == 0 then s.gpr rd else s.gpr ra / s.gpr rb) none
        (s.gpr rb == 0)
        (ground (arith, words.gpr rd, words.gpr ra, div-le_self (s.gpr ra) (s.gpr rb))) l)
