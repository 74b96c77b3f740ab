-- ===== src/Cr/Fields.antt =====
-- The fields and bits of the condition register: what src/cr.h reads back and what it leaves alone.
use libppcemu.Prelude.{
  ℕ, zero, suc, ◌+◌, ◌-◌, ◌*◌, ◌/◌, ◌%◌, ◌^◌, ◌≤◌, ◌<◌, ◌≡◌, bit_and, Bool, true, not, ◌&&◌, refl,
  arith, ◌∙◌, ap, bit, bit-bit_and, bit-bit_or, bit-not32, bit_and-lt, bit_or-lt, bit_ext, bit_high,
  bit-shl, bit-shr, bit-mod, bit_lem, bit_and_mask, all_below, all_below_lem, ltb, ◌==◌,
  if◌then◌else◌, not32, shl32, nz-bit_and-pow, signed32, ltb_ℤ, pos, bit_and_high, bit_or_below,
}
use native.Mathlib.Nat.{div-le_self}
use libppcemu.State.{State}
use libppcemu.Spr.{idx_xer}
use libppcemu.Cr.{int_of, cr_get_bit, cr_set_bit, cr_get_field, cr_set_field, cr0_of, update_cr0}

nibble_table : all_below 4 (bit 15) ≡ true
unfolding all_below bit
nibble_table = refl

pub bit-nibble : (j : ℕ) → bit 15 j ≡ ltb j 4
bit-nibble j =
    ground (arith, bit_high 4 j 15 (omega arith), all_below_lem 4 j (bit 15) nibble_table)

pub bit-shl32 : (x m k : ℕ) → k < 32 → bit (shl32 x m) k ≡ not (ltb k m) && bit x (k - m)
bit-shl32 x m k l = ground (arith, bit-mod 32 (x * 2 ^ m) k, bit-shl m x k)

-- The mask of a field has its four bits.
pub bit-field_mask : (f k : ℕ) → k < 32 → f < 8 → bit (shl32 15 ((7 - f) * 4)) k ≡ (k / 4 == 7 - f)
bit-field_mask f k l h =
    ground (arith, bit-shl32 15 ((7 - f) * 4) k l, bit-nibble (k - (7 - f) * 4))

bit-low_nibble : (v j : ℕ) → bit (bit_and v 15) j ≡ ltb j 4 && bit v j
bit-low_nibble v j = ap (λ n. bit n j) (bit_and_mask 4 v) ∙ bit-mod 4 v j

-- Writing a field of CR replaces its four bits, counted from the right within the field, by the low
-- four bits of the value, and leaves the other 28 bits alone.
pub cr_set_field-bits :
    (s : State) (f v k : ℕ)
    → f < 8
    → k < 32
    → bit (cr_set_field s f v).cr k ≡ (if k / 4 == 7 - f then bit v (k % 4) else bit s.cr k)
unfolding cr_set_field
cr_set_field-bits s f v k h l = ground (
  arith,
  bit-bit_or k (bit_and s.cr (not32 (shl32 15 ((7 - f) * 4)))) (shl32 (bit_and v 15) ((7 - f) * 4)),
  bit-bit_and k s.cr (not32 (shl32 15 ((7 - f) * 4))),
  bit-not32 k (shl32 15 ((7 - f) * 4)) l (omega arith),
  bit-field_mask f k l h,
  bit-shl32 (bit_and v 15) ((7 - f) * 4) k l,
  bit-low_nibble v (k - (7 - f) * 4),
  place,
)
  where
    place : k / 4 ≡ 7 - f → k - (7 - f) * 4 ≡ k % 4
    place e = omega (arith, e)

-- A field that is read has the field's four bits of CR.
get_bits :
    (s : State) (f j : ℕ) → f < 8 → bit (cr_get_field s f) j ≡ ltb j 4 && bit s.cr ((7 - f) * 4 + j)
unfolding cr_get_field
get_bits s f j h = ground (
  arith,
  bit-shr ((7 - f) * 4) (bit_and s.cr (shl32 15 ((7 - f) * 4))) j,
  bit-bit_and ((7 - f) * 4 + j) s.cr (shl32 15 ((7 - f) * 4)),
  λ (l : (7 - f) * 4 + j < 32). bit-field_mask f ((7 - f) * 4 + j) l h,
  λ (l : 32 ≤ (7 - f) * 4 + j).
      bit_high 32 ((7 - f) * 4 + j) (shl32 15 ((7 - f) * 4)) (omega arith) l,
)

get-lt : (s : State) (f : ℕ) → s.cr < 2 ^ 32 → cr_get_field s f < 2 ^ 32
unfolding cr_get_field
get-lt s f h = omega (
  arith,
  bit_and-lt 32 s.cr (shl32 15 ((7 - f) * 4)) h,
  div_le (bit_and s.cr (shl32 15 ((7 - f) * 4))) ((7 - f) * 4),
)
  where
    div_le : (a k : ℕ) → a / 2 ^ k ≤ a
    div_le a k = div-le_self a (2 ^ k)

set-lt : (s : State) (f v : ℕ) → s.cr < 2 ^ 32 → (cr_set_field s f v).cr < 2 ^ 32
unfolding cr_set_field
set-lt s f v h = bit_or-lt 32 _ _ (bit_and-lt 32 s.cr _ h) (omega arith)

-- Where CR is a word and the fields are below 8, reading a field after a write of a value below 16
-- to a field gives that value, if the fields are the same, and otherwise what the field held
-- before.
pub cr_get_field-cr_set_field :
    (s : State) (f g v : ℕ)
    → f < 8
    → g < 8
    → v < 16
    → s.cr < 2 ^ 32
    → cr_get_field (cr_set_field s f v) g ≡ (if g == f then v else cr_get_field s g)
cr_get_field-cr_set_field s f g v hf hg hv hc =
    bit_ext 32 _ _ (get-lt (cr_set_field s f v) g (set-lt s f v hc)) (ground (arith, get-lt s g hc))
      (λ j l. ground (
        arith,
        get_bits (cr_set_field s f v) g j hg,
        get_bits s g j hg,
        bit_high 4 j v hv,
        λ (q : (7 - g) * 4 + j < 32). cr_set_field-bits s f v ((7 - g) * 4 + j) hf q,
        digit j,
      ))
  where
    digit : (j : ℕ) → j < 4 → ((7 - g) * 4 + j) % 4 ≡ j
    digit j l = omega arith

pub bit-one : (j : ℕ) → bit 1 j ≡ (j == 0)
unfolding bit
bit-one j = ground (arith, bit_high 1 j 1 (omega arith))

-- Writing one bit of CR changes that bit alone.
pub cr_set_bit-bits :
    (s : State) (i k : ℕ) (b : Bool)
    → i < 32
    → k < 32
    → bit (cr_set_bit s i b).cr k ≡ (if k == i then b else bit s.cr k)
unfolding cr_set_bit
cr_set_bit-bits s i k b h l = ground (
  arith,
  bit-bit_or k s.cr (shl32 1 i),
  bit-bit_and k s.cr (not32 (shl32 1 i)),
  bit-not32 k (shl32 1 i) l (omega arith),
  bit-shl32 1 i k l,
  bit-one (k - i),
)

pub cr_get_bit_lem : (s : State) (k : ℕ) → cr_get_bit s k ≡ int_of (bit s.cr k)
unfolding cr_get_bit
cr_get_bit_lem s k = ground (arith, bit_and_mask 1 (s.cr / 2 ^ k), bit_lem k s.cr)

-- The four bits that record the sign of a result, and the copy of XER[SO].
cr0_value :
    (s : State) (v : ℕ)
    → v < 2 ^ 32
    → s.sprs idx_xer < 2 ^ 32
    → cr0_of s v
      ≡ int_of (ltb_ℤ (signed32 v) (pos 0)) * 8
        + int_of (ltb_ℤ (pos 0) (signed32 v)) * 4
        + int_of (v == 0) * 2
        + int_of (bit (s.sprs idx_xer) 31)
unfolding cr0_of
cr0_value s v h hx = ground (
  arith,
  nz-bit_and-pow 31 (s.sprs idx_xer),
  bit_and_high 1 31 (s.sprs idx_xer) (omega arith),
  bit_or_below 1 (int_of (v == 0)) (int_of (bit (s.sprs idx_xer) 31)) (ground arith),
)

four_bits :
    (a b c d : Bool) (j : ℕ)
    → j < 4
    → bit (int_of a * 8 + int_of b * 4 + int_of c * 2 + int_of d) j
      ≡ (if j == 3 then a else if j == 2 then b else if j == 1 then c else d)
unfolding bit
four_bits a b c d zero l = ground arith
four_bits a b c d (suc zero) l = ground arith
four_bits a b c d (suc (suc zero)) l = ground arith
four_bits a b c d (suc (suc (suc zero))) l = ground arith
four_bits a b c d (suc (suc (suc (suc j)))) l = absurd (omega arith)

-- For a word and an XER that is a word, the update of CR field 0 sets its LT, GT and EQ bits by
-- comparing the signed word with 0 and copies XER[SO] below them; the other 28 of the 32 digits of
-- CR stay.
pub update_cr0-bits :
    (s : State) (v k : ℕ)
    → v < 2 ^ 32
    → s.sprs idx_xer < 2 ^ 32
    → k < 32
    → bit (update_cr0 s v).cr k ≡ (
        if k == 31
        then ltb_ℤ (signed32 v) (pos 0)
        else if k == 30
        then ltb_ℤ (pos 0) (signed32 v)
        else if k == 29
        then v == 0
        else if k == 28
        then bit (s.sprs idx_xer) 31
        else bit s.cr k)
unfolding update_cr0
update_cr0-bits s v k h hx l =
    cr_set_field-bits s 0 (cr0_of s v) k (omega arith) l
    ∙ ap (λ n. if k / 4 == 7 then bit n (k % 4) else bit s.cr k) (cr0_value s v h hx)
    ∙ ap (λ b. if k / 4 == 7 then b else bit s.cr k)
        (four_bits (ltb_ℤ (signed32 v) (pos 0)) (ltb_ℤ (pos 0) (signed32 v)) (v == 0)
          (bit (s.sprs idx_xer) 31) (k % 4) (omega arith))
    ∙ place (ltb_ℤ (signed32 v) (pos 0)) (ltb_ℤ (pos 0) (signed32 v)) (v == 0)
        (bit (s.sprs idx_xer) 31) (bit s.cr k)
  where
    place :
        (a b c d e : Bool)
        → (if k / 4 == 7
            then (if k % 4 == 3 then a else if k % 4 == 2 then b else if k % 4 == 1 then c else d)
            else e)
          ≡ (if k == 31
              then a
              else if k == 30
              then b
              else if k == 29
              then c
              else if k == 28
              then d
              else e)
    place a b c d e = ground arith
