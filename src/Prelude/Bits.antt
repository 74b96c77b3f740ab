-- ===== src/Prelude/Bits.antt =====
-- The binary digits of a number, and what the bit operations of C do to each digit.
mod Step
pub use Step.{bit_and_step, bit_or_step, bit_xor_step, zero-bit_and, zero-bit_or, zero-bit_xor}
use Prim.Native.Nat.{ℕ, zero, suc, ◌+◌, ◌-◌, ◌*◌, ◌/◌, ◌%◌, ◌^◌, ◌≤◌, ◌<◌}
use Prim.Native.Nat.{bit_and, bit_or, bit_xor, differ}
use mathlib.Core.Path.{◌≡◌, refl, ◌∙◌, ap, ap₂, sym}
use mathlib.Core.Bool.{Bool, true, false, not, ◌&&◌, ◌||◌}
use native.Mathlib.Omega.{arith}
use native.Mathlib.Nat.{pow-suc, div-div-eq-div-mul, mod-eq-sub-div-mul, div-mul-le_self}
use libppcemu.Prelude.Tests.{ltb, leb, ◌==◌, nz, xor, if◌then◌else◌}

-- Bit `k` of `n`, where bit 0 is the least significant one.
unfoldable pub bit : ℕ → ℕ → Bool
bit n zero = n % 2 == 1
bit n (suc k) = bit (n / 2) k

pub bit-bit_and : (k a b : ℕ) → bit (bit_and a b) k ≡ bit a k && bit b k
unfolding bit
bit-bit_and zero a b = ground (arith, bit_and_step a b)
bit-bit_and (suc k) a b =
    ap (λ n. bit n k) (omega (arith, bit_and_step a b)) ∙ bit-bit_and k (a / 2) (b / 2)

pub bit-bit_or : (k a b : ℕ) → bit (bit_or a b) k ≡ bit a k || bit b k
unfolding bit
bit-bit_or zero a b = ground (arith, bit_or_step a b)
bit-bit_or (suc k) a b =
    ap (λ n. bit n k) (omega (arith, bit_or_step a b)) ∙ bit-bit_or k (a / 2) (b / 2)

differ-lt : (x y : ℕ) → x < 2 → y < 2 → differ x y < 2
differ-lt zero y h k = k
differ-lt (suc zero) zero h k = omega arith
differ-lt (suc zero) (suc y) h k = omega arith
differ-lt (suc (suc x)) y h k = absurd (omega arith)

pub bit-bit_xor : (k a b : ℕ) → bit (bit_xor a b) k ≡ xor (bit a k) (bit b k)
unfolding bit
bit-bit_xor zero a b = ground (arith, bit_xor_step a b)
bit-bit_xor (suc k) a b =
    ap (λ n. bit n k)
      (omega (arith, bit_xor_step a b, differ-lt (a % 2) (b % 2) (omega arith) (omega arith)))
    ∙ bit-bit_xor k (a / 2) (b / 2)

-- Numbers of `n` digits are equal when their digits are.
pub bit_ext : (n a b : ℕ) → a < 2 ^ n → b < 2 ^ n → ((k : ℕ) → k < n → bit a k ≡ bit b k) → a ≡ b
unfolding bit
bit_ext zero a b ha hb h = omega arith
bit_ext (suc n) a b ha hb h = ground (
  arith,
  h 0 (omega arith),
  bit_ext n (a / 2) (b / 2) (omega (arith, pow-suc 2 n)) (omega (arith, pow-suc 2 n))
      (λ k l. h (suc k) (omega arith)),
)

pub bit_high : (n k a : ℕ) → a < 2 ^ n → n ≤ k → bit a k ≡ false
unfolding bit
bit_high zero zero a h l = ground arith
bit_high zero (suc k) a h l = bit_high zero k (a / 2) (omega arith) (omega arith)
bit_high (suc n) zero a h l = absurd (omega arith)
bit_high (suc n) (suc k) a h l = bit_high n k (a / 2) (omega (arith, pow-suc 2 n)) (omega arith)

pub bit_and-lt : (n a b : ℕ) → a < 2 ^ n → bit_and a b < 2 ^ n
bit_and-lt zero zero b h = omega (arith, zero-bit_and b)
bit_and-lt zero (suc a) b h = absurd (omega arith)
bit_and-lt (suc n) a b h = omega (
  arith,
  pow-suc 2 n,
  bit_and_step a b,
  bit_and-lt n (a / 2) (b / 2) (omega (arith, pow-suc 2 n)),
)

pub bit_or-lt : (n a b : ℕ) → a < 2 ^ n → b < 2 ^ n → bit_or a b < 2 ^ n
bit_or-lt zero zero b h k = omega (arith, zero-bit_or b)
bit_or-lt zero (suc a) b h k = absurd (omega arith)
bit_or-lt (suc n) a b h k = omega (
  arith,
  pow-suc 2 n,
  bit_or_step a b,
  bit_or-lt n (a / 2) (b / 2) (omega (arith, pow-suc 2 n)) (omega (arith, pow-suc 2 n)),
)

pub bit_xor-lt : (n a b : ℕ) → a < 2 ^ n → b < 2 ^ n → bit_xor a b < 2 ^ n
bit_xor-lt zero zero b h k = omega (arith, zero-bit_xor b)
bit_xor-lt zero (suc a) b h k = absurd (omega arith)
bit_xor-lt (suc n) a b h k = omega (
  arith,
  pow-suc 2 n,
  bit_xor_step a b,
  differ-lt (a % 2) (b % 2) (omega arith) (omega arith),
  bit_xor-lt n (a / 2) (b / 2) (omega (arith, pow-suc 2 n)) (omega (arith, pow-suc 2 n)),
)

pub bit-zero : (k : ℕ) → bit 0 k ≡ false
unfolding bit
bit-zero zero = refl
bit-zero (suc k) = bit-zero k

and-zero_bounded : (k x : ℕ) → x ≤ k → bit_and x 0 ≡ 0
and-zero_bounded k zero h = zero-bit_and 0
and-zero_bounded zero (suc x) h = absurd (omega arith)
and-zero_bounded (suc k) (suc x) h =
    omega (arith, and-zero_bounded k (suc x / 2) (omega arith), bit_and_step (suc x) 0)

pub and-zero : (x : ℕ) → bit_and x 0 ≡ 0
and-zero x = and-zero_bounded x x (omega arith)

or-zero_bounded : (k x : ℕ) → x ≤ k → bit_or x 0 ≡ x
or-zero_bounded k zero h = zero-bit_or 0
or-zero_bounded zero (suc x) h = absurd (omega arith)
or-zero_bounded (suc k) (suc x) h =
    omega (arith, or-zero_bounded k (suc x / 2) (omega arith), bit_or_step (suc x) 0)

pub or-zero : (x : ℕ) → bit_or x 0 ≡ x
or-zero x = or-zero_bounded x x (omega arith)

div-one : (a : ℕ) → a / 1 ≡ a
div-one a = omega arith

pub mul-one : (a : ℕ) → a * 1 ≡ a
mul-one a = omega arith

mod-one : (a : ℕ) → a % 1 ≡ 0
mod-one a = omega arith

suc-add : (k j : ℕ) → suc (k + j) ≡ suc k + j
suc-add k j = omega arith

sub-zero : (a : ℕ) → a - 0 ≡ a
sub-zero a = omega arith

zero-add : (a : ℕ) → 0 + a ≡ a
zero-add a = omega arith

-- Division and remainder by a power of two move and cut the digits.
pub half-div : (k a : ℕ) → a / 2 ^ suc k ≡ a / 2 / 2 ^ k
half-div k a = ap (λ n. a / n) (omega (arith, pow-suc 2 k)) ∙ sym (div-div-eq-div-mul a 2 (2 ^ k))

pub half-mod : (k a : ℕ) → a % 2 ^ suc k ≡ (a / 2 % 2 ^ k) * 2 + a % 2
half-mod k a =
    rw (mod-eq-sub-div-mul a (2 ^ suc k), mod-eq-sub-div-mul (a / 2) (2 ^ k), half-div k a)
      (omega (arith, double, div-mul-le_self (a / 2) (2 ^ k)))
  where
    double : a / 2 / 2 ^ k * 2 ^ suc k ≡ 2 * (a / 2 / 2 ^ k * 2 ^ k)
    double = omega (arith, ap (λ (t : ℕ). a / 2 / 2 ^ k * t) (pow-suc 2 k))

pub half-shl : (k a : ℕ) → a * 2 ^ suc k ≡ 2 * (a * 2 ^ k)
half-shl k a = omega (arith, ap (λ (t : ℕ). a * t) (pow-suc 2 k))

pub bit-shr : (k a j : ℕ) → bit (a / 2 ^ k) j ≡ bit a (k + j)
unfolding bit
bit-shr zero a j = rw (div-one a, zero-add j)
bit-shr (suc k) a j = rw (half-div k a) (bit-shr k (a / 2) j ∙ ap (bit a) (suc-add k j))

pub bit_lem : (k a : ℕ) → bit a k ≡ (a / 2 ^ k % 2 == 1)
unfolding bit
bit_lem zero a = ap (λ n. n % 2 == 1) (omega arith)
bit_lem (suc k) a = rw (half-div k a) (bit_lem k (a / 2))

pub bit-shl : (k a j : ℕ) → bit (a * 2 ^ k) j ≡ (if ltb j k then false else bit a (j - k))
unfolding bit
bit-shl zero a j = rw (mul-one a, sub-zero j) (ground arith)
bit-shl (suc k) a zero = ground (arith, half-shl k a)
bit-shl (suc k) a (suc j) =
    ap (λ n. bit n j) (omega (arith, half-shl k a)) ∙ bit-shl k a j ∙ ground arith

pub bit-mod : (n a j : ℕ) → bit (a % 2 ^ n) j ≡ ltb j n && bit a j
unfolding bit
bit-mod zero a j = rw (mod-one a, bit-zero j) (ground arith)
bit-mod (suc n) a zero = ground (arith, half-mod n a)
bit-mod (suc n) a (suc j) =
    ap (λ n. bit n j) (omega (arith, half-mod n a)) ∙ bit-mod n (a / 2) j ∙ ground arith

-- A test of one bit by a mask.
pub nz-bit_and-pow : (k a : ℕ) → nz (bit_and a (2 ^ k)) ≡ bit a k
unfolding bit
nz-bit_and-pow zero a = ground (arith, bit_and_step a 1, and-zero (a / 2))
nz-bit_and-pow (suc k) a =
    ground (arith, pow-suc 2 k, bit_and_step a (2 ^ suc k), nz-bit_and-pow k (a / 2))

-- A test of every number below a bound, by evaluation.
unfoldable pub all_below : ℕ → (ℕ → Bool) → Bool
all_below zero test = true
all_below (suc n) test = test n && all_below n test

pub all_below_lem : (n k : ℕ) (test : ℕ → Bool) → all_below n test ≡ true → k < n → test k ≡ true
unfolding all_below
all_below_lem zero k test h l = absurd (omega arith)
all_below_lem (suc n) k test h l = ground (arith, all_below_lem n k test)

-- Two Booleans are equal where this test passes.
abbrev pub same_bool : Bool → Bool → Bool
same_bool true b = b
same_bool false b = not b

pub same_bool_lem : (a b : Bool) → same_bool a b ≡ true → a ≡ b
same_bool_lem a b h = ground arith

complement : (n k a : ℕ) → k < n → a < 2 ^ n → bit (2 ^ n - 1 - a) k ≡ not (bit a k)
unfolding bit
complement zero k a l h = absurd (omega arith)
complement (suc n) zero a l h = ground (arith, pow-suc 2 n)
complement (suc n) (suc k) a l h =
    ap (λ m. bit m k) halves ∙ complement n k (a / 2) (omega arith) (omega (arith, pow-suc 2 n))
  where
    halves : (2 ^ suc n - 1 - a) / 2 ≡ 2 ^ n - 1 - a / 2
    halves = omega (arith, pow-suc 2 n)

-- The digits of `~a`.
pub bit-not32 : (k a : ℕ) → k < 32 → a < 2 ^ 32 → bit (0xffff_ffff - a) k ≡ not (bit a k)
bit-not32 k a l h = complement 32 k a l h
