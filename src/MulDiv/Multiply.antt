-- ===== src/MulDiv/Multiply.antt =====
-- Products: `do_mullw`, `do_mulhw`, `do_mulhwu` and `do_mulli` of src/instr/arith.c.
use libppcemu.Prelude.{
  ℕ, zero, suc, ◌+◌, ◌-◌, ◌*◌, ◌%◌, ◌/◌, ◌^◌, ◌≤◌, ◌<◌, ◌≡◌, false, not, ◌∙◌, ap, arith, ◌==◌, u32,
  u64, signed32, ℤ, pos, negsuc, ◌*ℤ◌, pos_part, neg_part, none, bit_and, bit_and_mask,
}
use native.Mathlib.Nat.{mul-le-mul, mul-add, add-mul, one-le-mul, zero-mul, mul_comm, mod-eq_of_lt}
use libppcemu.State.{State}
use libppcemu.State.Words.{HasWords}
use libppcemu.Arith.Overflow.{out_of_s32}
use libppcemu.Arith.Effect.{Effect, finish_lem, put_ca}
use libppcemu.MulDiv.Divide.{word32, word32-lt}
use libppcemu.MulDiv.{sext64, do_mulhw, do_mulhwu, do_mullw}

-- The 64-bit pattern of a signed number.
abbrev pub word64 : ℤ → ℕ
word64 (pos n) = u64 n
word64 (negsuc n) = 0xffff_ffff_ffff_ffff - u64 n

neg_times :
    (x y : ℕ) → 1 ≤ x → 1 ≤ y → x ≤ 2 ^ 31 → y ≤ 2 ^ 31 → (2 ^ 64 - x) * y % 2 ^ 64 ≡ 2 ^ 64 - x * y
neg_times x y hx hy bx by = omega (
  arith,
  add-mul (2 ^ 64 - x) x y,
  mul-le-mul bx by,
  one-le-mul hx hy,
  ap (λ (n : ℕ). n * y) whole,
)
  where
    whole : 2 ^ 64 - x + x ≡ 2 ^ 64
    whole = omega arith

times_neg :
    (x y : ℕ) → 1 ≤ x → 1 ≤ y → x ≤ 2 ^ 31 → y ≤ 2 ^ 31 → x * (2 ^ 64 - y) % 2 ^ 64 ≡ 2 ^ 64 - x * y
times_neg x y hx hy bx by =
    ap (λ (n : ℕ). n % 2 ^ 64) (mul_comm x (2 ^ 64 - y))
    ∙ neg_times y x hy hx by bx
    ∙ ap (λ (n : ℕ). 2 ^ 64 - n) (mul_comm y x)

neg_times_neg :
    (x y : ℕ)
    → 1 ≤ x
    → 1 ≤ y
    → x ≤ 2 ^ 31
    → y ≤ 2 ^ 31
    → (2 ^ 64 - x) * (2 ^ 64 - y) % 2 ^ 64 ≡ x * y
neg_times_neg x y hx hy bx by = omega (
  arith,
  add-mul (2 ^ 64 - x) x (2 ^ 64 - y),
  mul-add x (2 ^ 64 - y) y,
  mul-le-mul bx by,
  ap (λ (n : ℕ). n * (2 ^ 64 - y)) whole_x,
  ap (λ (n : ℕ). x * n) whole_y,
)
  where
    whole_x : 2 ^ 64 - x + x ≡ 2 ^ 64
    whole_x = omega arith

    whole_y : 2 ^ 64 - y + y ≡ 2 ^ 64
    whole_y = omega arith

-- A signed number in the range of a word, and its 64-bit pattern.
abbrev pub pattern64 : ℤ → ℕ
pattern64 (pos n) = n
pattern64 (negsuc n) = 2 ^ 64 - suc n

-- The product of two patterns, cut to 64 bits, is the pattern of the product.
product_lem :
    (x y : ℤ)
    → pos_part x ≤ 2 ^ 31
    → neg_part x ≤ 2 ^ 31
    → pos_part y ≤ 2 ^ 31
    → neg_part y ≤ 2 ^ 31
    → u64 (pattern64 x * pattern64 y) ≡ word64 (x *ℤ y)
unfolding ◌*ℤ◌
product_lem (pos m) (pos n) h1 h2 h3 h4 = ground (arith, mul-le-mul h1 h3, zero-mul n)
product_lem (pos zero) (negsuc n) h1 h2 h3 h4 =
    ground (arith, zero-mul (suc n), zero-mul (2 ^ 64 - suc n))
product_lem (pos (suc m)) (negsuc n) h1 h2 h3 h4 = ground (
  arith,
  times_neg (suc m) (suc n),
  mul-le-mul h1 h4,
  one-le-mul {a = suc m} {b = suc n} (omega arith) (omega arith),
  zero-mul (suc n),
)
product_lem (negsuc m) (pos zero) h1 h2 h3 h4 = ground arith
product_lem (negsuc m) (pos (suc n)) h1 h2 h3 h4 = ground (
  arith,
  neg_times (suc m) (suc n),
  mul-le-mul h2 h3,
  one-le-mul {a = suc m} {b = suc n} (omega arith) (omega arith),
  zero-mul (suc n),
)
product_lem (negsuc m) (negsuc n) h1 h2 h3 h4 =
    ground (arith, neg_times_neg (suc m) (suc n), mul-le-mul h2 h4)

sext64_lem : (a : ℕ) → a < 2 ^ 32 → sext64 a ≡ pattern64 (signed32 a)
sext64_lem a h = ground arith

signed_bounds :
    (a : ℕ) → a < 2 ^ 32 → (pos_part (signed32 a) ≤ 2 ^ 31) × (neg_part (signed32 a) ≤ 2 ^ 31)
signed_bounds a h = (ground arith, ground arith)

-- The 64-bit product that the signed multiplications compute.
pub signed_product :
    (a b : ℕ)
    → a < 2 ^ 32
    → b < 2 ^ 32
    → u64 (sext64 a * sext64 b) ≡ word64 (signed32 a *ℤ signed32 b)
signed_product a b ha hb =
    rw (sext64_lem a ha, sext64_lem b hb)
      (let pa = signed_bounds a ha in
        let pb = signed_bounds b hb in
        product_lem (signed32 a) (signed32 b) (pa.0) (pa.1) (pb.0) (pb.1))

-- The upper half of a signed product, rounded down, as a word.
abbrev pub high_word : ℤ → ℕ
high_word (pos n) = u32 (n / 2 ^ 32)
high_word (negsuc n) = 0xffff_ffff - u32 (n / 2 ^ 32)

high_lem : (z : ℤ) → u32 (word64 z / 2 ^ 32) ≡ high_word z
high_lem (pos n) = omega arith
high_lem (negsuc n) = omega arith

low_lem : (z : ℤ) → bit_and (word64 z) 0xffff_ffff ≡ word32 z
low_lem (pos n) = omega (arith, bit_and_mask 32 (u64 n))
low_lem (negsuc n) = omega (arith, bit_and_mask 32 (0xffff_ffff_ffff_ffff - u64 n))

-- A product of two words fits 64 bits, so that its pattern tells whether it is a signed word.
fits_lem :
    (z : ℤ)
    → pos_part z ≤ 2 ^ 62
    → neg_part z ≤ 2 ^ 62
    → not (word64 z == sext64 (u32 (word64 z))) ≡ out_of_s32 z
fits_lem (pos n) h1 h2 = ground arith
fits_lem (negsuc n) h1 h2 = ground arith

product_bounds :
    (x y : ℤ)
    → pos_part x ≤ 2 ^ 31
    → neg_part x ≤ 2 ^ 31
    → pos_part y ≤ 2 ^ 31
    → neg_part y ≤ 2 ^ 31
    → (pos_part (x *ℤ y) ≤ 2 ^ 62) × (neg_part (x *ℤ y) ≤ 2 ^ 62)
unfolding ◌*ℤ◌
product_bounds (pos m) (pos n) h1 h2 h3 h4 =
    (ground (arith, mul-le-mul h1 h3, zero-mul n), ground (arith, zero-mul n))
product_bounds (pos m) (negsuc n) h1 h2 h3 h4 =
    (ground (arith, zero-mul (suc n)), ground (arith, mul-le-mul h1 h4, zero-mul (suc n)))
product_bounds (negsuc m) (pos n) h1 h2 h3 h4 =
    (ground (arith, zero-mul n), ground (arith, mul-le-mul h2 h3, zero-mul n))
product_bounds (negsuc m) (negsuc n) h1 h2 h3 h4 =
    (ground (arith, mul-le-mul h2 h4), ground (arith, mul-le-mul h2 h4))

word_bounds :
    (a b : ℕ)
    → a < 2 ^ 32
    → b < 2 ^ 32
    → not (word64 (signed32 a *ℤ signed32 b) == sext64 (u32 (word64 (signed32 a *ℤ signed32 b))))
      ≡ out_of_s32 (signed32 a *ℤ signed32 b)
word_bounds a b ha hb =
    let pa = signed_bounds a ha in
    let pb = signed_bounds b hb in
    let pz = product_bounds (signed32 a) (signed32 b) (pa.0) (pa.1) (pb.0) (pb.1) in
    fits_lem (signed32 a *ℤ signed32 b) (pz.0) (pz.1)

high_word-lt : (z : ℤ) → high_word z < 2 ^ 32
high_word-lt (pos n) = omega arith
high_word-lt (negsuc n) = omega arith

module _ (s : State) (words : HasWords s) (rd ra rb oe rc i k : ℕ) (l : k < 32) where
  abbrev product : ℤ
  product = signed32 (s.gpr ra) *ℤ signed32 (s.gpr rb)

  -- `mullw`: the register receives the signed product modulo 2^32, and the overflow is recorded if
  -- the product is no signed word.
  pub do_mullw_lem :
      let z = signed32 (s.gpr ra) *ℤ signed32 (s.gpr rb) in
      Effect s (do_mullw s rd ra rb oe rc) rd oe rc (word32 z) none (out_of_s32 z) i k
  unfolding do_mullw put_ca
  do_mullw_lem =
      rw
        (
          signed_product (s.gpr ra) (s.gpr rb) (words.gpr ra) (words.gpr rb),
          word_bounds (s.gpr ra) (s.gpr rb) (words.gpr ra) (words.gpr rb),
          low_lem product,
          mod-eq_of_lt (word32-lt product),
        )
        (finish_lem s words rd oe rc i k (word32 product) none (out_of_s32 product)
          (word32-lt product) l)

  -- `mulhw`: the register receives the upper word of the signed 64-bit product.
  pub do_mulhw_lem :
      Effect s
        (do_mulhw s rd ra rb rc)
        rd
        0
        rc
        (high_word (signed32 (s.gpr ra) *ℤ signed32 (s.gpr rb)))
        none
        false
        i
        k
  unfolding do_mulhw put_ca
  do_mulhw_lem =
      rw (signed_product (s.gpr ra) (s.gpr rb) (words.gpr ra) (words.gpr rb), high_lem product)
        (finish_lem s words rd 0 rc i k (high_word product) none false (high_word-lt product) l)

  -- `mulhwu`: the register receives the upper word of the unsigned product.
  pub do_mulhwu_lem :
      Effect s (do_mulhwu s rd ra rb rc) rd 0 rc (s.gpr ra * s.gpr rb / 2 ^ 32) none false i k
  unfolding do_mulhwu put_ca
  do_mulhwu_lem =
      let e : u32 (u64 (s.gpr ra * s.gpr rb) / 2 ^ 32) ≡ s.gpr ra * s.gpr rb / 2 ^ 32 =
        omega (arith, product-lt) in
      rw e (
        finish_lem s words rd 0 rc i k (s.gpr ra * s.gpr rb / 2 ^ 32) none false
          (omega (arith, product-lt)) l)
    where
      le_max : (a : ℕ) → a < 2 ^ 32 → a ≤ 0xffff_ffff
      le_max a h = omega arith

      product-lt : s.gpr ra * s.gpr rb ≤ 0xffff_ffff * 0xffff_ffff
      product-lt = mul-le-mul (le_max (s.gpr ra) (words.gpr ra)) (le_max (s.gpr rb) (words.gpr rb))
