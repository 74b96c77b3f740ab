-- ===== src/Prelude/Bits/Step.antt =====
-- The native bit operations, one digit at a time: the lowest digit of the result comes from the
-- lowest digits of the arguments, and the others from the halves.
use Prim.Native.Nat.{ℕ, zero, suc, ◌+◌, ◌*◌, ◌/◌, ◌%◌, ◌≤◌, min, max, differ, digits}
use Prim.Native.Nat.{bit_and, bit_or, bit_xor, bit_and-bitwise, bit_or-bitwise, bit_xor-bitwise}
use mathlib.Core.Path.{◌≡◌, refl, ◌∙◌, ap}
use native.Mathlib.Decide.{dec_le}
use native.Mathlib.Omega.{arith}

-- `rest` and `op` are the two cases of the recursion. Its first argument bounds the rounds, and
-- rounds beyond the size of the number change nothing.
module _ (rest : ℕ → ℕ) (op : ℕ → ℕ → ℕ) where
  one_round_more : (k x y : ℕ) → x ≤ k → digits rest op (suc k) x y ≡ digits rest op k x y
  one_round_more zero zero y h = refl
  one_round_more k zero y h = none_left k y
    where
      none_left : (k y : ℕ) → digits rest op (suc k) 0 y ≡ digits rest op k 0 y
      none_left zero y = refl
      none_left (suc k) y = refl
  one_round_more zero (suc x) y h = absurd (omega arith)
  one_round_more (suc k) (suc x) y h =
      ap (λ (t : ℕ). t * 2 + op (suc x % 2) (y % 2))
        (one_round_more k (suc x / 2) (y / 2) (omega arith))

  enough_rounds : (big k x y : ℕ) → x ≤ k → k ≤ big → digits rest op big x y ≡ digits rest op k x y
  enough_rounds zero zero x y h l = refl
  enough_rounds zero (suc k) x y h l = absurd (omega arith)
  enough_rounds (suc big) k x y h l = elim (dec_le k big) [
    | yes q ↦ one_round_more big x y (omega arith) ∙ enough_rounds big k x y h q
    | no q ↦ let same : suc big ≡ k = omega arith in ap (λ (t : ℕ). digits rest op t x y) same
  ]

  lowest_digit :
      (x y : ℕ)
      → digits rest op (suc x) (suc x) y
        ≡ digits rest op (suc x / 2) (suc x / 2) (y / 2) * 2 + op (suc x % 2) (y % 2)
  lowest_digit x y =
      ap (λ (t : ℕ). t * 2 + op (suc x % 2) (y % 2))
        (enough_rounds x (suc x / 2) (suc x / 2) (y / 2) (omega arith) (omega arith))

pub zero-bit_and : (y : ℕ) → bit_and 0 y ≡ 0
zero-bit_and y = bit_and-bitwise 0 y

pub zero-bit_or : (y : ℕ) → bit_or 0 y ≡ y
zero-bit_or y = bit_or-bitwise 0 y

pub zero-bit_xor : (y : ℕ) → bit_xor 0 y ≡ y
zero-bit_xor y = bit_xor-bitwise 0 y

pub bit_and_step : (x y : ℕ) → bit_and x y ≡ bit_and (x / 2) (y / 2) * 2 + min (x % 2) (y % 2)
bit_and_step zero y = omega (arith, zero-bit_and y, zero-bit_and (y / 2))
bit_and_step (suc x) y = simp bit_and-bitwise (lowest_digit (λ t. 0) min x y)

pub bit_or_step : (x y : ℕ) → bit_or x y ≡ bit_or (x / 2) (y / 2) * 2 + max (x % 2) (y % 2)
bit_or_step zero y = omega (arith, zero-bit_or y, zero-bit_or (y / 2))
bit_or_step (suc x) y = simp bit_or-bitwise (lowest_digit (λ t. t) max x y)

differ-zero : (y : ℕ) → differ 0 y ≡ y
differ-zero y = refl

pub bit_xor_step : (x y : ℕ) → bit_xor x y ≡ bit_xor (x / 2) (y / 2) * 2 + differ (x % 2) (y % 2)
bit_xor_step zero y = omega (arith, zero-bit_xor y, zero-bit_xor (y / 2), differ-zero (y % 2))
bit_xor_step (suc x) y = simp bit_xor-bitwise (lowest_digit (λ t. t) differ x y)
