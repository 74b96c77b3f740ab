-- ===== src/Arith/Overflow.antt =====
-- Carry, overflow and the recorded CR field: the helpers of src/instr/arith.c.
use libppcemu.Prelude.{
  ℕ, ◌+◌, ◌-◌, ◌^◌, ◌<◌, ◌≡◌, bit_and, bit_or, bit_xor, Bool, true, not, ◌&&◌, ◌||◌, refl, arith,
  ◌∙◌, bit, bit-bit_and, bit-bit_or, bit-bit_xor, bit-not32, bit_and-lt, bit_or-lt, bit_xor-lt,
  nz-bit_and-pow, bit_lem, bit-zero, xor, all_below, all_below_lem, same_bool, nz, leb, ◌==◌,
  if◌then◌else◌, not32, u32, signed32, ℤ, pos, negsuc, ◌+ℤ◌, ltb_ℤ, +ℤ_parts,
}
use libppcemu.State.{State}
use libppcemu.Spr.{idx_xer, xer_ca, xer_ov, xer_so}
use libppcemu.Cr.{update_cr0, cr_set_field}
use libppcemu.Cr.Fields.{update_cr0-bits}
use libppcemu.Arith.{set_xer_ca, set_xer_ov, add_overflow, record_rc}

-- A sum that no `i32` holds.
abbrev pub out_of_s32 : ℤ → Bool
out_of_s32 z = ltb_ℤ z (negsuc (2 ^ 31 - 1)) || ltb_ℤ (pos (2 ^ 31 - 1)) z

pub bit-sign : (a : ℕ) → a < 2 ^ 32 → bit a 31 ≡ leb (2 ^ 31) a
bit-sign a h = bit_lem 31 a ∙ ground arith

overflow_bits :
    (a b r : ℕ)
    → a < 2 ^ 32
    → b < 2 ^ 32
    → r < 2 ^ 32
    → add_overflow a b r
      ≡ not (xor (leb (2 ^ 31) a) (leb (2 ^ 31) b)) && xor (leb (2 ^ 31) a) (leb (2 ^ 31) r)
unfolding add_overflow
overflow_bits a b r ha hb hr = ground (
  arith,
  nz-bit_and-pow 31 (bit_and (not32 (bit_xor a b)) (bit_xor a r)),
  bit-bit_and 31 (not32 (bit_xor a b)) (bit_xor a r),
  bit-not32 31 (bit_xor a b) (omega arith) (bit_xor-lt 32 a b ha hb),
  bit-bit_xor 31 a b,
  bit-bit_xor 31 a r,
  bit-sign a ha,
  bit-sign b hb,
  bit-sign r hr,
)

-- The overflow test on two words and the low word of their sum with a carry of 0 or 1 holds exactly
-- when the signed sum of the words and the carry is no signed word.
pub add_overflow_lem :
    (a b c : ℕ)
    → a < 2 ^ 32
    → b < 2 ^ 32
    → c < 2
    → add_overflow a b (u32 (a + b + c)) ≡ out_of_s32 (signed32 a +ℤ signed32 b +ℤ pos c)
add_overflow_lem a b c ha hb hc = ground (
  arith,
  overflow_bits a b (u32 (a + b + c)) ha hb (omega arith),
  +ℤ_parts (signed32 a +ℤ signed32 b) (pos c),
  +ℤ_parts (signed32 a) (signed32 b),
)

xer_table :
    all_below 32 (λ k.
      same_bool (bit xer_ca k) (k == 29)
      && same_bool (bit (not32 xer_ca) k) (not (k == 29))
      && same_bool (bit (not32 xer_ov) k) (not (k == 30))
      && same_bool (bit (bit_or xer_ov xer_so) k) (k == 30 || k == 31))
    ≡ true
unfolding all_below bit
xer_table = refl

pub set_xer_ca-bits :
    (s : State) (ca : Bool) (k : ℕ)
    → k < 32
    → bit ((set_xer_ca s ca).sprs idx_xer) k ≡ (if k == 29 then ca else bit (s.sprs idx_xer) k)
unfolding set_xer_ca
set_xer_ca-bits s ca k l = ground (
  arith,
  bit-bit_or k (bit_and (s.sprs idx_xer) (not32 xer_ca)) (if ca then xer_ca else 0),
  bit-bit_and k (s.sprs idx_xer) (not32 xer_ca),
  bit-zero k,
  all_below_lem 32 k _ xer_table l,
)

pub set_xer_ov-bits :
    (s : State) (ov : Bool) (k : ℕ)
    → k < 32
    → bit ((set_xer_ov s ov).sprs idx_xer) k ≡ (
        if k == 30
        then ov
        else if k == 31
        then ov || bit (s.sprs idx_xer) k
        else bit (s.sprs idx_xer) k)
unfolding set_xer_ov
set_xer_ov-bits s ov k l = ground (
  arith,
  bit-bit_or k (bit_and (s.sprs idx_xer) (not32 xer_ov)) (bit_or xer_ov xer_so),
  bit-bit_and k (s.sprs idx_xer) (not32 xer_ov),
  all_below_lem 32 k _ xer_table l,
)

pub set_xer_ca-lt :
    (s : State) (ca : Bool) → s.sprs idx_xer < 2 ^ 32 → (set_xer_ca s ca).sprs idx_xer < 2 ^ 32
unfolding set_xer_ca
set_xer_ca-lt s ca h = bit_or-lt 32 _ _ (bit_and-lt 32 _ (not32 xer_ca) h) (ground arith)

pub set_xer_ov-lt :
    (s : State) (ov : Bool) → s.sprs idx_xer < 2 ^ 32 → (set_xer_ov s ov).sprs idx_xer < 2 ^ 32
unfolding set_xer_ov
set_xer_ov-lt s ov h = ground (
  arith,
  bit_and-lt 32 (s.sprs idx_xer) (not32 xer_ov) h,
  bit_or-lt 32 (bit_and (s.sprs idx_xer) (not32 xer_ov)) (bit_or xer_ov xer_so),
)

-- CR bit `k` after a result `v` was recorded in field 0, where it was `old` before and XER[SO] is
-- `so`.
abbrev pub recorded : ℕ → Bool → Bool → ℕ → Bool
recorded v so old k =
    if k == 31
    then ltb_ℤ (signed32 v) (pos 0)
    else if k == 30
    then ltb_ℤ (pos 0) (signed32 v)
    else if k == 29
    then v == 0
    else if k == 28
    then so
    else old

pub record_rc-bits :
    (s : State) (rc r k : ℕ)
    → s.gpr r < 2 ^ 32
    → s.sprs idx_xer < 2 ^ 32
    → k < 32
    → bit (record_rc s rc r).cr k
      ≡ (if nz rc then recorded (s.gpr r) (bit (s.sprs idx_xer) 31) (bit s.cr k) k else bit s.cr k)
record_rc-bits s rc r k h hx l = ground (arith, update_cr0-bits s (s.gpr r) k h hx l)

pub record_rc-frame :
    (s : State) (rc r i : ℕ)
    → ((record_rc s rc r).gpr i ≡ s.gpr i) × ((record_rc s rc r).sprs i ≡ s.sprs i)
unfolding update_cr0 cr_set_field
record_rc-frame s rc r i = (ground arith, ground arith)
