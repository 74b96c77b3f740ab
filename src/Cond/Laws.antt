-- ===== src/Cond/Laws.antt =====
-- What the compares and the instructions on CR do to each digit of CR.
use libppcemu.Prelude.{
  ℕ, zero, suc, ◌+◌, ◌-◌, ◌*◌, ◌%◌, ◌/◌, ◌^◌, ◌≤◌, ◌<◌, ◌≡◌, Bool, true, not, ◌&&◌, ◌||◌, ap, refl,
  arith, all_below, all_below_lem, bit, bit-bit_and, bit-bit_or, bit-not32, bit-zero,
  nz-bit_and-pow, nz, leb, ltb, ◌==◌, if◌then◌else◌, not32, shl32, bit_and, bit_or, signed32, ltb_ℤ,
  sext16, bit_or-lt,
}
use libppcemu.State.{State}
use libppcemu.State.Words.{HasWords}
use libppcemu.Spr.{idx_xer, xer_so}
use libppcemu.Cr.{int_of}
use libppcemu.Cr.Fields.{cr_set_field-bits, bit-shl32, bit-nibble}
use libppcemu.Cond.{lt_s32, compare_to, do_cmpi, do_cmpli, do_cmp, do_cmpl, crm_loop, do_mtcrf}

-- Digit `k` of CR after field `f` received the outcome of a comparison, in the order LT, GT, EQ, SO.
abbrev pub compared : ℕ → Bool → Bool → Bool → Bool → Bool → ℕ → Bool
compared f lt gt eq so old k =
    if k / 4 == 7 - f
    then (if k % 4 == 3 then lt else if k % 4 == 2 then gt else if k % 4 == 1 then eq else so)
    else old

code_bits :
    (lt gt so : Bool) (j : ℕ)
    → j < 4
    → bit (bit_or (if lt then 8 else if gt then 4 else 2) (int_of so)) j ≡ (
        if j == 3
        then lt
        else if j == 2
        then not lt && gt
        else if j == 1
        then not lt && not gt
        else so)
unfolding bit
code_bits lt gt so zero l = ground arith
code_bits lt gt so (suc zero) l = ground arith
code_bits lt gt so (suc (suc zero)) l = ground arith
code_bits lt gt so (suc (suc (suc zero))) l = ground arith
code_bits lt gt so (suc (suc (suc (suc j)))) l = absurd (omega arith)

compare_to-bits :
    (s : State) (f k : ℕ) (lt gt : Bool)
    → f < 8
    → k < 32
    → bit (compare_to s f lt gt).cr k
      ≡ compared f lt (not lt && gt) (not lt && not gt) (bit (s.sprs idx_xer) 31) (bit s.cr k) k
unfolding compare_to
compare_to-bits s f k lt gt h l = ground (
  arith,
  cr_set_field-bits s f
      (bit_or (if lt then 8 else if gt then 4 else 2)
        (int_of (nz (bit_and (s.sprs idx_xer) xer_so))))
      k h l,
  code_bits lt gt (nz (bit_and (s.sprs idx_xer) xer_so)) (k % 4) (omega arith),
  nz-bit_and-pow 31 (s.sprs idx_xer),
)

module _ (s : State) (words : HasWords s) (f ra rb imm k : ℕ) (h : f < 8) (l : k < 32) where
  -- Where all registers hold words, the field is below 8 and the immediate below 2^16, `cmp` and
  -- `cmpi` compare signed words and `cmpl` and `cmpli` unsigned ones: the field of CR tells less,
  -- greater and equal, with a copy of XER[SO], and the other 28 digits of CR stay.
  pub compare_bits :
      imm < 2 ^ 16
      → let a = s.gpr ra in
        let b = s.gpr rb in
        let so = bit (s.sprs idx_xer) 31 in
        let old = bit s.cr k in
        (bit (do_cmp s f ra rb).cr k
          ≡ compared f
              (ltb_ℤ (signed32 a) (signed32 b))
              (ltb_ℤ (signed32 b) (signed32 a))
              (a == b)
              so
              old
              k)
        × (bit (do_cmpl s f ra rb).cr k ≡ compared f (ltb a b) (ltb b a) (a == b) so old k)
        × (bit (do_cmpi s f ra imm).cr k
            ≡ compared f
                (ltb_ℤ (signed32 a) (signed32 (sext16 imm)))
                (ltb_ℤ (signed32 (sext16 imm)) (signed32 a))
                (a == sext16 imm)
                so
                old
                k)
        × (bit (do_cmpli s f ra imm).cr k ≡ compared f (ltb a imm) (ltb imm a) (a == imm) so old k)
  unfolding do_cmp do_cmpl do_cmpi do_cmpli
  compare_bits hi =
      let a = s.gpr ra in
      let b = s.gpr rb in
      (
        ground (
          arith,
          compare_to-bits s f k (lt_s32 a b) (lt_s32 b a) h l,
          words.gpr ra,
          words.gpr rb,
        ),
        ground (arith, compare_to-bits s f k (ltb a b) (ltb b a) h l),
        ground (
          arith,
          compare_to-bits s f k (lt_s32 a (sext16 imm)) (lt_s32 (sext16 imm) a) h l,
          words.gpr ra,
        ),
        ground (arith, compare_to-bits s f k (ltb a imm) (ltb imm a) h l),
      )

crm_loop-bits :
    (n i crm m k : ℕ)
    → i + n ≤ 8
    → k < 32
    → bit (crm_loop n i crm m) k
      ≡ bit m k || (leb i (k / 4) && ltb (k / 4) (i + n) && bit crm (k / 4))
unfolding crm_loop
crm_loop-bits zero i crm m k h l = ground arith
crm_loop-bits (suc n) i crm m k h l = ground (
  arith,
  crm_loop-bits n (i + 1) crm (if nz (bit_and crm (2 ^ i)) then bit_or m (shl32 15 (i * 4)) else m)
      k (omega arith) l,
  bit-bit_or k m (shl32 15 (i * 4)),
  bit-shl32 15 (i * 4) k l,
  bit-nibble (k - i * 4),
  nz-bit_and-pow i crm,
  same_field,
)
  where
    same_field : k / 4 ≡ i → bit crm (k / 4) ≡ bit crm i
    same_field e = ap (bit crm) e

crm_loop-lt : (n i crm m : ℕ) → m < 2 ^ 32 → crm_loop n i crm m < 2 ^ 32
unfolding crm_loop
crm_loop-lt zero i crm m h = h
crm_loop-lt (suc n) i crm m h =
    crm_loop-lt n (i + 1) crm _ (ground (arith, bit_or-lt 32 m (shl32 15 (i * 4)) h (omega arith)))

all_ones : all_below 8 (bit 0xff) ≡ true
unfolding all_below bit
all_ones = refl

-- The fields that a mask selects are replaced, by the loop and by the shortcut for a full mask.
pub replace_fields-bits :
    (old new crm k : ℕ)
    → k < 32
    → let mask = crm_loop 8 0 crm 0 in
      bit (if crm == 0xff then new else bit_or (bit_and old (not32 mask)) (bit_and new mask)) k
      ≡ (if bit crm (k / 4) then bit new k else bit old k)
replace_fields-bits old new crm k l = ground (
  arith,
  bit-bit_or k (bit_and old (not32 (crm_loop 8 0 crm 0))) (bit_and new (crm_loop 8 0 crm 0)),
  bit-bit_and k old (not32 (crm_loop 8 0 crm 0)),
  bit-bit_and k new (crm_loop 8 0 crm 0),
  bit-not32 k (crm_loop 8 0 crm 0) l (crm_loop-lt 8 0 crm 0 (omega arith)),
  crm_loop-bits 8 0 crm 0 k (omega arith) l,
  bit-zero k,
  all_below_lem 8 (k / 4) (bit 0xff) all_ones (omega arith),
  full,
)
  where
    full : crm ≡ 0xff → bit crm (k / 4) ≡ bit 0xff (k / 4)
    full e = ap (λ (m : ℕ). bit m (k / 4)) e

-- `mtcrf` replaces, among the 32 digits of CR, those of the fields that its mask selects by those
-- of the register, the leftmost digit of the mask selecting field 0, and keeps the others. The
-- shortcut for a full mask does the same.
do_mtcrf-bits :
    (s : State) (rs crm k : ℕ)
    → k < 32
    → bit (do_mtcrf s rs crm).cr k ≡ (if bit crm (k / 4) then bit (s.gpr rs) k else bit s.cr k)
unfolding do_mtcrf
do_mtcrf-bits s rs crm k l = ground (arith, replace_fields-bits s.cr (s.gpr rs) crm k l)
