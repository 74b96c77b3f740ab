-- ===== src/Prelude/Words.antt =====
-- Machine words: the casts and operators of C on `u8` to `u64`, over the native numbers.
-- A shift left and a sum are cut to the width where the source computes in that width.
use Prim.Native.Nat.{ℕ, zero, suc, ◌+◌, ◌-◌, ◌*◌, ◌/◌, ◌%◌, ◌^◌, ◌<◌, bit_and, bit_or}
use mathlib.Core.Path.{◌≡◌, ◌∙◌}
use native.Mathlib.Omega.{arith}
use native.Mathlib.Nat.{pow-suc, one-le-pow, mod-eq_of_lt}
use libppcemu.Prelude.Tests.{ltb, if◌then◌else◌}
use libppcemu.Prelude.Bits.{
  bit_ext, bit_or-lt, bit-bit_or, bit_and_step, bit_or_step, or-zero, half-mod, half-div, half-shl,
  and-zero, mul-one,
}
use libppcemu.Prelude.Int.{ℤ, pos, negsuc}

abbrev pub u8 : ℕ → ℕ
u8 n = n % 2 ^ 8

abbrev pub u16 : ℕ → ℕ
u16 n = n % 2 ^ 16

abbrev pub u32 : ℕ → ℕ
u32 n = n % 2 ^ 32

abbrev pub u64 : ℕ → ℕ
u64 n = n % 2 ^ 64

-- `~x` of a `u32`.
abbrev pub not32 : ℕ → ℕ
not32 x = 0xffff_ffff - x

-- `x << k` and `x >> k` of a `u32`.
abbrev pub shl32 : ℕ → ℕ → ℕ
shl32 x k = u32 (x * 2 ^ k)

abbrev pub shr : ℕ → ℕ → ℕ
shr x k = x / 2 ^ k

-- `x - y` of a `u32`.
abbrev pub sub32 : ℕ → ℕ → ℕ
sub32 x y = u32 (x + 2 ^ 32 - y)

-- `(u32)(i32)(i16)x` and `(u32)(i32)(i8)x`.
abbrev pub sext16 : ℕ → ℕ
sext16 x = if ltb (u16 x) 0x8000 then u16 x else u16 x + 0xffff_0000

abbrev pub sext8 : ℕ → ℕ
sext8 x = if ltb (u8 x) 0x80 then u8 x else u8 x + 0xffff_ff00

-- The number that an `i32` of this bit pattern stands for.
abbrev pub signed32 : ℕ → ℤ
signed32 w = if ltb w (2 ^ 31) then pos w else negsuc (2 ^ 32 - w - 1)

-- A mask of `k` low bits is the remainder by `2 ^ k`.
pub bit_and_mask : (k a : ℕ) → bit_and a (2 ^ k - 1) ≡ a % 2 ^ k
bit_and_mask zero a = omega (arith, and-zero a)
bit_and_mask (suc k) a = ground (
  arith,
  pow-suc 2 k,
  one-le-pow k 2,
  bit_and_step a (2 ^ suc k - 1),
  bit_and_mask k (a / 2),
  half-mod k a,
)

-- A mask of the bits from `k` up clears the low bits.
pub bit_and_high :
    (j k a : ℕ) → a / 2 ^ k < 2 ^ j → bit_and a ((2 ^ j - 1) * 2 ^ k) ≡ a / 2 ^ k * 2 ^ k
bit_and_high j zero a h =
    rw (mul-one (2 ^ j - 1), bit_and_mask j a) (mod-eq_of_lt (omega arith) ∙ omega arith)
bit_and_high j (suc k) a h =
    let h' : a / 2 / 2 ^ k < 2 ^ j = omega (arith, half-div k a) in
    let below = bit_and_high j k (a / 2) h' in
    let mask = half-shl k (2 ^ j - 1) in
    let half : (2 ^ j - 1) * 2 ^ suc k / 2 ≡ (2 ^ j - 1) * 2 ^ k = omega (arith, mask) in
    ground (
      arith,
      bit_and_step a ((2 ^ j - 1) * 2 ^ suc k),
      mask,
      half,
      below,
      half-div k a,
      half-shl k (a / 2 ^ suc k),
    )

-- `|` of a field and a value that fits below it.
pub bit_or_below : (k q r : ℕ) → r < 2 ^ k → bit_or (q * 2 ^ k) r ≡ q * 2 ^ k + r
bit_or_below zero q r h = ground (arith, or-zero q, mul-one q)
bit_or_below (suc k) q r h = ground (
  arith,
  half-shl k q,
  bit_or_step (q * 2 ^ suc k) r,
  bit_or_below k q (r / 2) (omega (arith, pow-suc 2 k)),
)

pub or_comm : (k x y : ℕ) → x < 2 ^ k → y < 2 ^ k → bit_or x y ≡ bit_or y x
or_comm k x y h l =
    bit_ext k _ _ (bit_or-lt k x y h l) (bit_or-lt k y x l h)
      λ j b. ground (arith, bit-bit_or j x y, bit-bit_or j y x)
