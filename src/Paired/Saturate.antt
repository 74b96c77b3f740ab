-- ===== src/Paired/Saturate.antt =====
-- The saturation of psq_st: src/instr/paired_singles.c.
use libppcemu.Prelude.{
  ℕ, ◌+◌, ◌-◌, ◌*◌, ◌%◌, ◌^◌, ◌<◌, ◌≤◌, ◌≡◌, arith, Bool, false, bit, if◌then◌else◌, ℤ, pos, negsuc,
  pos_part, neg_part, sub_ℕ, ltb_ℤ, ◌+ℤ◌, ◌-ℤ◌,
}
use libppcemu.Float.{HostFloat}
use libppcemu.Paired.Quantize.{
  quantization_of, quant_min, quant_max, quantize_table, dequantize_table, clamp, quantize,
}

-- The range of an integer type, from its sign and its width.
abbrev pub lowest : Bool → ℕ → ℤ
lowest signed bits = if signed then negsuc (2 ^ (bits - 1) - 1) else pos 0

abbrev pub highest : Bool → ℕ → ℤ
highest signed bits = pos (2 ^ (if signed then bits - 1 else bits) - 1)

-- The types 4 to 7 of a GQR: bit 1 says signed, bit 0 says 16 bits.
abbrev pub type_lowest : ℕ → ℤ
type_lowest n = lowest (bit n 1) (if bit n 0 then 16 else 8)

abbrev pub type_highest : ℕ → ℤ
type_highest n = highest (bit n 1) (if bit n 0 then 16 else 8)

-- The six-bit scale of a GQR is signed.
abbrev pub signed_scale : ℕ → ℤ
signed_scale scale = sub_ℕ ((scale + 32) % 64) 32

-- The `float` 2^e, of a normal exponent
abbrev pub power_of_two : ℤ → ℕ
power_of_two e = pos_part (pos 127 +ℤ e) * 2 ^ 23

abbrev pub IsSmall : ℤ → Type 0
IsSmall m = pos_part m + neg_part m ≤ 2 ^ 24

-- A `float` has every integer up to 2^24, and the comparison of the host is right on them.
pub record OrdersIntegers (host : HostFloat) : Type 0 where
  pub ordered :
      (a b : ℤ) → IsSmall a → IsSmall b → host.lt32 (host.of_int a) (host.of_int b) ≡ ltb_ℤ a b

-- The value `p` brought into a range.
abbrev pub within : (ℕ → ℕ → Bool) → ℕ → ℕ → ℕ → ℕ
within lt low high p = if lt high p then high else if lt p low then low else p

abbrev pub within_ℤ : ℤ → ℤ → ℤ → ℤ
within_ℤ low high m = if ltb_ℤ high m then high else if ltb_ℤ m low then low else m

-- The types of a GQR have the limits of their sign and width.
limits :
    (n : ℕ)
    → 4 ≤ n
    → n < 8
    → (quant_min (quantization_of n) ≡ type_lowest n)
      × (quant_max (quantization_of n) ≡ type_highest n)
unfolding quant_min quant_max quantization_of bit
limits n l h = (ground arith, ground arith)

scales :
    (scale : ℕ)
    → scale < 64
    → (quantize_table scale ≡ power_of_two (signed_scale scale))
      × (dequantize_table scale ≡ power_of_two (pos 0 -ℤ signed_scale scale))
unfolding quantize_table dequantize_table ◌+ℤ◌ ◌-ℤ◌
scales scale h = (ground arith, ground arith)

clamp-within :
    (host : HostFloat) (low high p : ℕ)
    → host.lt32 high low ≡ false
    → host.lt32 high high ≡ false
    → host.lt32 low low ≡ false
    → (clamp host low high p ≡ within host.lt32 low high p)
      × (host.lt32 (clamp host low high p) low ≡ false)
      × (host.lt32 high (clamp host low high p) ≡ false)
unfolding clamp
clamp-within host low high p a b c = (grind arith, grind arith, grind arith)

within-of_int :
    (host : HostFloat) (low high m : ℤ)
    → OrdersIntegers host
    → IsSmall low
    → IsSmall high
    → IsSmall m
    → within host.lt32 (host.of_int low) (host.of_int high) (host.of_int m)
      ≡ host.of_int (within_ℤ low high m)
within-of_int host low high m o sl sh sm =
    rw (o.ordered high m sh sm, o.ordered m low sm sl) (ground arith)

-- The limits are small, and in their order.
limits-IsSmall :
    (n : ℕ)
    → IsSmall (type_lowest n)
      × IsSmall (type_highest n)
      × (ltb_ℤ (type_highest n) (type_lowest n) ≡ false)
      × (ltb_ℤ (type_highest n) (type_highest n) ≡ false)
      × (ltb_ℤ (type_lowest n) (type_lowest n) ≡ false)
limits-IsSmall n = (ground arith, ground arith, ground arith, ground arith, ground arith)

-- Where the host's comparison of `float` is right on the integers up to 2^24, for each of the four
-- integer types of a GQR (4 to 7: bit 1 for a sign, bit 0 for 16 bits instead of 8) and each scale
-- below 64, a quantised store converts the product of its operand and 2^scale, the scale being
-- signed in six bits, brought into the range of the type: the highest number of the type where the
-- product is above it, the lowest where it is below that, and otherwise the product itself, so a
-- NaN too where the host's `<` is false on it. The converted value is not below the lowest and not
-- above the highest number of the type. On a product that is an integer up to 2^24 in size this is
-- the integer brought into the range.
pub quantize-saturates :
    (host : HostFloat) (n scale x : ℕ) (m : ℤ)
    → OrdersIntegers host
    → 4 ≤ n
    → n < 8
    → scale < 64
    → IsSmall m
    → let p = host.mul32 x (power_of_two (signed_scale scale)) in
      let low = host.of_int (type_lowest n) in
      let high = host.of_int (type_highest n) in
      let y = quantize host (quantization_of n) scale x in
      (y ≡ within host.lt32 low high p)
      × (host.lt32 y low ≡ false)
      × (host.lt32 high y ≡ false)
      × (within host.lt32 low high (host.of_int m)
          ≡ host.of_int (within_ℤ (type_lowest n) (type_highest n) m))
unfolding quantize
quantize-saturates host n scale x m o l h hs sm =
    let low = type_lowest n in
    let high = type_highest n in
    let (sl, sh, hl, hh, ll) = limits-IsSmall n in
    let p = host.mul32 x (power_of_two (signed_scale scale)) in
    let (exact, above, below) =
      clamp-within host (host.of_int low) (host.of_int high) p (rw (o.ordered high low sh sl) hl)
        (rw (o.ordered high high sh sh) hh) (rw (o.ordered low low sl sl) ll) in
    rw ((limits n l h).0, (limits n l h).1, (scales scale hs).0)
      (exact, above, below, within-of_int host low high m o sl sh sm)
