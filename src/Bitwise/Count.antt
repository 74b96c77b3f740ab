-- ===== src/Bitwise/Count.antt =====
-- `cntlzw` of src/instr/bitwise.c.
use libppcemu.Prelude.{
  ℕ, zero, suc, ◌+◌, ◌-◌, ◌*◌, ◌%◌, ◌/◌, ◌^◌, ◌≤◌, ◌<◌, ◌≡◌, ◌⊎◌, inl, inr, Bool, true, false, ◌∙◌,
  refl, arith, bit_lem, nz-bit_and-pow, nz, leb, ◌==◌, if◌then◌else◌, u32, shl32, bit_and,
  update_self, ap, all_below, all_below_lem,
}
use native.Mathlib.Nat.{two-pow-succ, div-eq_of_lt, div-eq-sub-div, one-le-pow}
use libppcemu.State.{State}
use libppcemu.Bitwise.{cntlzw_loop, do_cntlzw}

-- `n` is the number of zero digits above the highest one of the word `x`, 32 for the word 0.
abbrev pub IsLeadingZeros : ℕ → ℕ → Type 0
IsLeadingZeros x n = (x < 2 ^ (32 - n)) × (((n ≡ 32) × (x ≡ 0)) ⊎ ((n < 32) × (2 ^ (31 - n) ≤ x)))

powers : all_below 32 (λ k. u32 (1 * 2 ^ k) == 2 ^ k) ≡ true
unfolding all_below
powers = refl

-- The test of the digit at `left` in a word with no digit above it.
test_lem :
    (left x : ℕ) → left < 32 → x < 2 ^ suc left → nz (bit_and x (shl32 1 left)) ≡ leb (2 ^ left) x
test_lem left x h l =
    ap (λ (m : ℕ). nz (bit_and x m)) mask ∙ nz-bit_and-pow left x ∙ bit_lem left x ∙ digit
  where
    mask : shl32 1 left ≡ 2 ^ left
    mask = ground (arith, all_below_lem 32 left _ powers h)

    digit : (x / 2 ^ left % 2 == 1) ≡ leb (2 ^ left) x
    digit = ground (
      arith,
      two-pow-succ left,
      div-eq_of_lt {n = x} {m = 2 ^ left},
      div-eq-sub-div {m = 2 ^ left} {n = x} (one-le-pow left 2 (omega arith)),
      div-eq_of_lt {n = x - 2 ^ left} {m = 2 ^ left},
    )

pick :
    (left n x rest : ℕ) (b : Bool)
    → suc left + n ≡ 32
    → x < 2 ^ suc left
    → b ≡ leb (2 ^ left) x
    → (b ≡ false → IsLeadingZeros x rest)
    → IsLeadingZeros x (if b then n else rest)
pick left n x rest true h l e k =
    let above : 32 - n ≡ suc left = omega arith in
    let here : 31 - n ≡ left = omega arith in
    (rw above l, inr (omega arith, rw here (ground arith)))
pick left n x rest false h l e k = k refl

loop_lem : (left n x : ℕ) → left + n ≡ 32 → x < 2 ^ left → IsLeadingZeros x (cntlzw_loop left x n)
unfolding cntlzw_loop
loop_lem zero n x h l = (
  omega (arith, one-le-pow (32 - cntlzw_loop 0 x n) 2 (omega arith)),
  inl (omega arith, omega arith),
)
loop_lem (suc left) n x h l =
    let here : 31 - n ≡ left = omega arith in
    let test = ap (λ (m : ℕ). nz (bit_and x (shl32 1 m))) here ∙ test_lem left x (omega arith) l in
    pick left n x (cntlzw_loop left x (n + 1)) (nz (bit_and x (shl32 1 (31 - n)))) h l test
      (λ q. loop_lem left (n + 1) x (omega arith) (ground arith))

-- For a register that holds a word, `cntlzw` leaves in rA the number n of its leading zeros: the
-- word is below 2^(32 - n), and n is 32 and the word 0, or n is below 32 and the word at least
-- 2^(31 - n).
do_cntlzw_lem :
    (s : State) (rs ra : ℕ)
    → s.gpr rs < 2 ^ 32
    → IsLeadingZeros (s.gpr rs) ((do_cntlzw s rs ra 0).gpr ra)
unfolding do_cntlzw
do_cntlzw_lem s rs ra h =
    rw (update_self s.gpr ra (cntlzw_loop 32 (s.gpr rs) 0)) (loop_lem 32 0 (s.gpr rs) refl h)
