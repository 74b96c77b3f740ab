-- ===== src/Bitwise/Shift.antt =====
-- The shifts of src/instr/bitwise.c as operations on unsigned and signed numbers.
use libppcemu.Prelude.{
  ℕ, suc, ◌+◌, ◌-◌, ◌*◌, ◌%◌, ◌/◌, ◌^◌, ◌≤◌, ◌<◌, ◌≡◌, Bool, true, false, ◌&&◌, ◌∙◌, ap, refl,
  arith, all_below, all_below_lem, bit_ext, bit-mod, bit-shl, bit-zero, bit_lem, nz-bit_and-pow, nz,
  leb, ◌==◌, if◌then◌else◌, u32, bit_and, bit_and_mask, none, some, signed32, ℤ, pos, negsuc,
}
use native.Mathlib.Nat.{
  div-le_self, pow-le-pow_right, div-eq_of_lt, mod-eq_of_lt, one-le-pow, add-mod,
}
use libppcemu.State.{State, set_gpr}
use libppcemu.State.Words.{HasWords}
use libppcemu.Arith.{record_rc}
use libppcemu.Arith.Effect.{Effect, finish_lem, put_ca}
use libppcemu.MulDiv.Divide.{word32, word32-lt}
use libppcemu.Bitwise.{sar32, shift_right_algebraic, do_sraw, do_srawi, do_slw, do_srw}

-- A signed number divided by `2 ^ n`, rounded down, and what is lost of a negative one.
abbrev pub floor_shift : ℤ → ℕ → ℤ
floor_shift (pos x) n = pos (x / 2 ^ n)
floor_shift (negsuc x) n = negsuc (x / 2 ^ n)

abbrev pub lost_bits : ℤ → ℕ → Bool
lost_bits (pos x) n = false
lost_bits (negsuc x) n = nz (suc x % 2 ^ n)

amount_lem : (a : ℕ) → (bit_and a 0x1f ≡ a % 32) × (nz (bit_and a 0x20) ≡ leb 32 (a % 64))
amount_lem a = (bit_and_mask 5 a, nz-bit_and-pow 5 a ∙ bit_lem 5 a ∙ ground arith)

small_shift : (x n : ℕ) → x < 2 ^ 32 → 32 ≤ n → x < 2 ^ n
small_shift x n h l = omega (arith, pow-le-pow_right {n = 2} (omega arith) l)

powers : all_below 32 (λ n. 2 ^ 32 % 2 ^ n == 0) ≡ true
unfolding all_below
powers = refl

-- A word and its negative have the same multiples of `2 ^ n` below them.
negated_mod : (x y n : ℕ) → x + y ≡ 2 ^ 32 → n < 32 → nz (y % 2 ^ n) ≡ nz (x % 2 ^ n)
negated_mod x y n h l = ground (
  arith,
  add-mod x y (2 ^ n),
  λ (q : x % 2 ^ n + y % 2 ^ n < 2 ^ n). mod-eq_of_lt q,
  ap (λ (t : ℕ). t % 2 ^ n) h,
  all_below_lem 32 n _ powers l,
  one-le-pow n 2 (omega arith),
)

-- The arithmetic shift and its carry, by the sign of the word.
sraw_value :
    (x a : ℕ)
    → x < 2 ^ 32
    → (if nz (bit_and a 0x20)
        then (if leb 0x8000_0000 x then 0xffff_ffff else 0)
        else sar32 x (bit_and a 0x1f))
      ≡ word32 (floor_shift (signed32 x) (a % 64))
unfolding sar32
sraw_value x a h = ground (
  arith,
  amount_lem a,
  near,
  div-le_self x (2 ^ (a % 32)),
  div-le_self (0xffff_ffff - x) (2 ^ (a % 32)),
  λ (q : 32 ≤ a % 64). div-eq_of_lt (small_shift x (a % 64) h q),
  λ (q : 32 ≤ a % 64). div-eq_of_lt (small_shift (0xffff_ffff - x) (a % 64) (omega arith) q),
)
  where
    near : a % 64 < 32 → a % 64 ≡ a % 32
    near q = omega arith

sraw_carry :
    (x a : ℕ)
    → x < 2 ^ 32
    → (if nz (bit_and a 0x20)
        then leb 0x8000_0000 x
        else leb 0x8000_0000 x && nz (bit_and a 0x1f) && nz (bit_and x (2 ^ bit_and a 0x1f - 1)))
      ≡ lost_bits (signed32 x) (a % 64)
sraw_carry x a h = ground (
  arith,
  amount_lem a,
  near,
  bit_and_mask (bit_and a 0x1f) x,
  negated_mod x (2 ^ 32 - x) (a % 64) (omega arith),
  none_lost,
  λ (neg : 2 ^ 31 ≤ x) (q : 32 ≤ a % 64).
      mod-eq_of_lt (small_shift (2 ^ 32 - x) (a % 64) (omega arith) q),
)
  where
    none_lost : a % 32 ≡ 0 → x % 2 ^ (a % 32) ≡ 0
    none_lost q = ap (λ (m : ℕ). x % 2 ^ m) q ∙ omega arith

    near : a % 64 < 32 → a % 64 ≡ a % 32
    near q = omega arith

far_left : (x n : ℕ) → 32 ≤ n → u32 (x * 2 ^ n) ≡ 0
far_left x n h =
    bit_ext 32 (u32 (x * 2 ^ n)) 0 (omega arith) (omega arith)
      (λ k l. ground (arith, bit-mod 32 (x * 2 ^ n) k, bit-shl n x k, bit-zero k))

slw_form :
    (s : State) (rs ra rb rc : ℕ)
    → do_slw s rs ra rb rc ≡ record_rc (set_gpr s ra (u32 (s.gpr rs * 2 ^ (s.gpr rb % 64)))) rc ra
unfolding do_slw
slw_form s rs ra rb rc =
    ground (arith, amount_lem (s.gpr rb), far_left (s.gpr rs) (s.gpr rb % 64), near)
  where
    near : s.gpr rb % 64 < 32 → s.gpr rb % 64 ≡ s.gpr rb % 32
    near q = omega arith

srw_form :
    (s : State) (rs ra rb rc : ℕ)
    → s.gpr rs < 2 ^ 32
    → do_srw s rs ra rb rc ≡ record_rc (set_gpr s ra (s.gpr rs / 2 ^ (s.gpr rb % 64))) rc ra
unfolding do_srw
srw_form s rs ra rb rc h = ground (
  arith,
  amount_lem (s.gpr rb),
  λ (q : 32 ≤ s.gpr rb % 64). div-eq_of_lt (small_shift (s.gpr rs) (s.gpr rb % 64) h q),
  near,
)
  where
    near : s.gpr rb % 64 < 32 → s.gpr rb % 64 ≡ s.gpr rb % 32
    near q = omega arith

module _ (s : State) (words : HasWords s) (rs ra rb sh rc i k : ℕ) (l : k < 32) where
  algebraic :
      (amount : ℕ)
      → let z = signed32 (s.gpr rs) in
        Effect s
          (shift_right_algebraic s (s.gpr rs) ra amount rc)
          ra
          0
          rc
          (word32 (floor_shift z (amount % 64)))
          (some (lost_bits z (amount % 64)))
          false
          i
          k
  unfolding shift_right_algebraic put_ca
  algebraic amount =
      let z = signed32 (s.gpr rs) in
      rw (sraw_value (s.gpr rs) amount (words.gpr rs), sraw_carry (s.gpr rs) amount (words.gpr rs))
        (finish_lem s words ra 0 rc i k (word32 (floor_shift z (amount % 64)))
          (some (lost_bits z (amount % 64))) false (word32-lt (floor_shift z (amount % 64))) l)

  -- Where all registers hold words, `sraw` and `srawi` leave in rA alone the signed register
  -- divided by 2^n, rounded down, where n is the amount modulo 64. XER[CA] tells whether that lost
  -- a digit of a negative number. With Rc set, CR field 0 records the result. Of the 32 digits of
  -- XER and of CR, and of the other registers of both files, no other one changes.
  do_sraw_lem :
      let z = signed32 (s.gpr rs) in
      Effect s
        (do_sraw s rs ra rb rc)
        ra
        0
        rc
        (word32 (floor_shift z (s.gpr rb % 64)))
        (some (lost_bits z (s.gpr rb % 64)))
        false
        i
        k
      × Effect s
          (do_srawi s rs ra sh rc)
          ra
          0
          rc
          (word32 (floor_shift z (sh % 64)))
          (some (lost_bits z (sh % 64)))
          false
          i
          k
  unfolding do_sraw do_srawi
  do_sraw_lem = (algebraic (s.gpr rb), algebraic sh)

  -- Where all registers hold words, `slw` and `srw` leave in rA alone the register multiplied by
  -- 2^n modulo 2^32, and divided by 2^n, where n is the amount modulo 64. With Rc set, CR field 0
  -- records the result. Of the 32 digits of XER and of CR, and of the other registers of both
  -- files, no other one changes.
  do_slw_lem :
      Effect s (do_slw s rs ra rb rc) ra 0 rc (u32 (s.gpr rs * 2 ^ (s.gpr rb % 64))) none false i k
      × Effect s (do_srw s rs ra rb rc) ra 0 rc (s.gpr rs / 2 ^ (s.gpr rb % 64)) none false i k
  unfolding put_ca
  do_slw_lem = (
    rw (slw_form s rs ra rb rc) (
        finish_lem s words ra 0 rc i k (u32 (s.gpr rs * 2 ^ (s.gpr rb % 64))) none false
          (omega arith) l),
    rw (srw_form s rs ra rb rc (words.gpr rs)) (
        finish_lem s words ra 0 rc i k (s.gpr rs / 2 ^ (s.gpr rb % 64)) none false
          (ground (arith, words.gpr rs, div-le_self (s.gpr rs) (2 ^ (s.gpr rb % 64)))) l),
  )
