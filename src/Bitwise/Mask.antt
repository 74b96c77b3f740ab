-- ===== src/Bitwise/Mask.antt =====
-- The masks and rotations of src/instr/bitwise.c, digit by digit. The source and the processor's
-- manual count bits from the left: digit `k` is bit `31 - k`.
use libppcemu.Prelude.{
  ℕ, zero, suc, ◌+◌, ◌-◌, ◌%◌, ◌^◌, ◌≤◌, ◌<◌, ◌≡◌, Bool, ◌&&◌, ◌||◌, arith, bit, bit-bit_or,
  bit-zero, bit_high, bit-shr, bit_or-lt, leb, ltb, if◌then◌else◌, shl32, shr, bit_or, bit_and,
  bit_and_mask,
}
use native.Mathlib.Nat.{div-le_self}
use libppcemu.Cr.Fields.{bit-shl32, bit-one}
use libppcemu.Bitwise.{rotl32, mask_loop, mb_me_mask}

-- Digit `k` is one of the bits `mb` to `me`, counted from the left and going round at 31.
abbrev pub in_mask : ℕ → ℕ → ℕ → Bool
in_mask mb me k =
    if leb mb me then leb mb (31 - k) && leb (31 - k) me else leb mb (31 - k) || leb (31 - k) me

mask_loop-bits :
    (n b m k : ℕ)
    → b + n ≤ 32
    → k < 32
    → bit (mask_loop n b m) k ≡ bit m k || (leb b (31 - k) && ltb (31 - k) (b + n))
unfolding mask_loop
mask_loop-bits zero b m k h l = ground arith
mask_loop-bits (suc n) b m k h l = ground (
  arith,
  mask_loop-bits n (b + 1) (bit_or m (shl32 1 (31 - b))) k (omega arith) l,
  bit-bit_or k m (shl32 1 (31 - b)),
  bit-shl32 1 (31 - b) k l,
  bit-one (k - (31 - b)),
)

mask_loop-lt : (n b m : ℕ) → m < 2 ^ 32 → mask_loop n b m < 2 ^ 32
unfolding mask_loop
mask_loop-lt zero b m h = h
mask_loop-lt (suc n) b m h =
    mask_loop-lt n (b + 1) _ (bit_or-lt 32 m (shl32 1 (31 - b)) h (omega arith))

-- The mask from `mb` to `me` has the digits of that range, which goes round where `mb` is above
-- `me`.
pub mb_me_mask-bits :
    (mb me k : ℕ) → mb < 32 → me < 32 → k < 32 → bit (mb_me_mask mb me) k ≡ in_mask mb me k
unfolding mb_me_mask
mb_me_mask-bits mb me k hb he l = ground (
  arith,
  λ (h : mb ≤ me). mask_loop-bits (me + 1 - mb) mb 0 k (omega arith) l,
  mask_loop-bits (32 - mb) mb (mask_loop (me + 1) 0 0) k (omega arith) l,
  mask_loop-bits (me + 1) 0 0 k (omega arith) l,
  bit-zero k,
)

pub mb_me_mask-lt : (mb me : ℕ) → mb_me_mask mb me < 2 ^ 32
unfolding mb_me_mask
mb_me_mask-lt mb me = ground (
  arith,
  mask_loop-lt (me + 1 - mb) mb 0 (omega arith),
  mask_loop-lt (32 - mb) mb (mask_loop (me + 1) 0 0) (mask_loop-lt (me + 1) 0 0 (omega arith)),
)

-- A rotation to the left by `r` moves each digit `r` places up, the top ones to the bottom.
pub rotl32-bits :
    (x r k : ℕ) → x < 2 ^ 32 → k < 32 → bit (rotl32 x r) k ≡ bit x ((k + 32 - r % 32) % 32)
unfolding rotl32
rotl32-bits x r k h l = ground (
  arith,
  bit_and_mask 5 r,
  bit-bit_or k (shl32 x (r % 32)) (shr x (32 - r % 32)),
  bit-shl32 x (r % 32) k l,
  bit-shr (32 - r % 32) x k,
  λ (q : 32 ≤ 32 - r % 32 + k). bit_high 32 (32 - r % 32 + k) x h q,
  turn,
)
  where
    turn : k < r % 32 → 32 - r % 32 + k ≡ (k + 32 - r % 32) % 32
    turn q = omega arith

pub rotl32-lt : (x r : ℕ) → x < 2 ^ 32 → rotl32 x r < 2 ^ 32
unfolding rotl32
rotl32-lt x r h = ground (
  arith,
  bit_or-lt 32 (shl32 x (bit_and r 31)) (shr x (32 - bit_and r 31)),
  div-le_self x (2 ^ (32 - bit_and r 31)),
)
