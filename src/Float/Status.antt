-- ===== src/Float/Status.antt =====
-- FPSCR: the moves to it, and the outcome of compares, of src/instr/floating_point.c and
-- src/instr/paired_singles.c. FPSCR has the fields of CR.
use libppcemu.Prelude.{
  ℕ, ◌-◌, ◌/◌, ◌%◌, ◌^◌, ◌<◌, ◌≡◌, arith, bit, bit-mod, bit_and, bit_or, bit_or-lt, bit_and_mask,
  Bool, true, false, ◌&&◌, ◌||◌, not, nz, ◌==◌, if◌then◌else◌, u32,
}
use libppcemu.State.{State}
use libppcemu.Spr.{msr_fp}
use libppcemu.Cr.{cr_set_field, cr_get_field, cr_set_bit}
use libppcemu.Cr.Fields.{cr_set_field-bits, cr_set_bit-bits, cr_get_field-cr_set_field}
use libppcemu.Cond.Laws.{replace_fields-bits}
use libppcemu.Float.{HostFloat, get_double, enforce_msr_fp}
use libppcemu.Float.Move.{do_mtfsf, do_mtfsfi, do_mtfsb_n, set_compare, compare_double, do_fcmpu}
use libppcemu.Paired.{
  lane0, ps_get_u32, cap_idx_vector, ps_enforce_cap_idx, compare_single, invalid_compare,
  fpscr_vxsnan, fpscr_vxvc, is_nan, do_ps_cmpo0,
}

abbrev pub FpOn : State → Type 0
FpOn s = nz (bit_and s.msr msr_fp) ≡ true

-- A state whose CR is the old FPSCR.
abbrev pub as_cr : State → State
as_cr s = record s { cr = s.fpcsr }

-- With the floating-point unit on, for fields below 8 and digits below 32, each of the 32 digits of
-- FPSCR is, after `mtfsf`, that of the source register if the mask selects its field and the old
-- one otherwise; after `mtfsfi`, that of the immediate in the chosen field and the old one
-- elsewhere; after `mtfsb0` or `mtfsb1`, the given bit at the chosen digit and the old one
-- elsewhere.
pub status_moves :
    (s : State) (fm frb crfd imm crbd k : ℕ) (set : Bool)
    → FpOn s
    → crfd < 8
    → crbd < 32
    → k < 32
    → (bit (do_mtfsf s fm frb).fpcsr k
        ≡ (if bit fm (k / 4) then bit (s.fpr frb) k else bit s.fpcsr k))
      × (bit (do_mtfsfi s crfd imm).fpcsr k
          ≡ (if k / 4 == 7 - crfd then bit imm (k % 4) else bit s.fpcsr k))
      × (bit (do_mtfsb_n s crbd set).fpcsr k ≡ (if k == 31 - crbd then set else bit s.fpcsr k))
unfolding do_mtfsf do_mtfsfi do_mtfsb_n enforce_msr_fp cr_set_field cr_set_bit
status_moves s fm frb crfd imm crbd k set on hf hb l = (
  ground
      (arith, on, replace_fields-bits s.fpcsr (u32 (s.fpr frb)) fm k l, bit-mod 32 (s.fpr frb) k),
  rw on (cr_set_field-bits (as_cr s) crfd imm k hf l),
  ground (arith, on, cr_set_bit-bits (as_cr s) (31 - crbd) k set (omega arith) l),
)

set_compare-fields :
    (s : State) (crfd c g : ℕ)
    → crfd < 8
    → g < 8
    → c < 16
    → s.cr < 2 ^ 32
    → s.fpcsr < 2 ^ 32
    → let t = set_compare s crfd c in
      (cr_get_field t g ≡ (if g == crfd then c else cr_get_field s g))
      × (cr_get_field (as_cr t) g ≡ (if g == 4 then c else cr_get_field (as_cr s) g))
unfolding set_compare cr_set_field cr_get_field
set_compare-fields s crfd c g hf hg hc w f = (
  cr_get_field-cr_set_field s crfd g c hf hg hc w,
  ground (arith, cr_get_field-cr_set_field (as_cr s) 4 g c (omega arith) hg hc f, bit_and_mask 4 c),
)

-- What IEEE 754 and C say of `<` and `==`: a NaN is neither below nor equal to anything, and of two
-- other numbers one is below the other or they are equal.
pub record IsOrdered (is_nan : ℕ → Bool) (lt eq : ℕ → ℕ → Bool) : Type 0 where
  pub nan_lt : (a b : ℕ) → is_nan a || is_nan b ≡ true → lt a b ≡ false
  pub nan_eq : (a b : ℕ) → is_nan a || is_nan b ≡ true → eq a b ≡ false
  pub one_way : (a b : ℕ) → lt a b && lt b a ≡ false
  pub total : (a b : ℕ) → is_nan a || is_nan b ≡ false → eq a b ≡ not (lt a b) && not (lt b a)

-- The digits of an outcome: less, greater, equal, unordered.
abbrev pub Outcome : (ℕ → Bool) → (ℕ → ℕ → Bool) → (ℕ → ℕ → Bool) → ℕ → ℕ → ℕ → Type 0
Outcome is_nan lt eq a b c =
    (c < 16)
    × (bit c 3 ≡ lt a b)
    × (bit c 2 ≡ lt b a)
    × (bit c 1 ≡ eq a b)
    × (bit c 0 ≡ is_nan a || is_nan b)

-- The nested tests of both compares.
ordered-Outcome :
    (is_nan : ℕ → Bool) (lt eq : ℕ → ℕ → Bool) (a b : ℕ)
    → IsOrdered is_nan lt eq
    → Outcome is_nan lt eq a b
        (if is_nan a || is_nan b then 1 else if lt a b then 8 else if lt b a then 4 else 2)
unfolding bit
ordered-Outcome is_nan lt eq a b o =
    ground (arith, o.nan_lt a b, o.nan_lt b a, o.nan_eq a b, o.one_way a b, o.total a b)

-- A NaN of binary32: the exponent is all ones and the fraction is not 0.
abbrev pub is_nan32 : ℕ → Bool
is_nan32 x = x / 2 ^ 23 % 2 ^ 8 == 255 && nz (x % 2 ^ 23)

is_nan_lem : (x : ℕ) → is_nan x ≡ is_nan32 x
unfolding is_nan
is_nan_lem x = ground (arith, bit_and_mask 8 (x / 2 ^ 23), bit_and_mask 23 x)

invalid_compare-lt : (fpcsr a b : ℕ) → fpcsr < 2 ^ 32 → invalid_compare fpcsr a b < 2 ^ 32
unfolding invalid_compare
invalid_compare-lt fpcsr a b h = ground (
  arith,
  bit_or-lt 32 fpcsr fpscr_vxsnan h (omega arith),
  bit_or-lt 32 fpcsr fpscr_vxvc h (omega arith),
  bit_or-lt 32 (bit_or fpcsr fpscr_vxsnan) fpscr_vxvc,
)

-- Field `crfd` of CR and field 4 of FPSCR both hold the outcome, and the other fields of CR stay.
abbrev pub Compared : State → State → (ℕ → Type 0) → ℕ → ℕ → Type 0
Compared s t outcome crfd g =
    outcome (cr_get_field t crfd)
    × (cr_get_field (as_cr t) 4 ≡ cr_get_field t crfd)
    × (cr_get_field t g ≡ (if g == crfd then cr_get_field t crfd else cr_get_field s g))

set_compare-Compared :
    (s : State) (crfd c g : ℕ) (outcome : ℕ → Type 0)
    → crfd < 8
    → g < 8
    → c < 16
    → outcome c
    → s.cr < 2 ^ 32
    → s.fpcsr < 2 ^ 32
    → Compared s (set_compare s crfd c) outcome crfd g
set_compare-Compared s crfd c g outcome hf hg c16 hc w f =
    let here = (set_compare-fields s crfd c crfd hf hf c16 w f).0 in
    let field : cr_get_field (set_compare s crfd c) crfd ≡ c = ground (arith, here) in
    (
      rw field hc,
      ground (arith, field, set_compare-fields s crfd c 4 hf (omega arith) c16 w f),
      ground (arith, field, set_compare-fields s crfd c g hf hg c16 w f),
    )

compare_single-Compared :
    (host : HostFloat) (s : State) (crfd a b g : ℕ) (outcome : ℕ → Type 0)
    → crfd < 8
    → g < 8
    → s.cr < 2 ^ 32
    → s.fpcsr < 2 ^ 32
    → outcome (
        if is_nan a || is_nan b
        then 1
        else if host.lt32 a b
        then 8
        else if host.lt32 b a
        then 4
        else 2)
    → Compared s (compare_single host s crfd a b) outcome crfd g
unfolding compare_single cr_get_field
compare_single-Compared host s crfd a b g outcome hf hg w f =
    let ordered : ℕ = if host.lt32 a b then 8 else if host.lt32 b a then 4 else 2 in
    elim (is_nan a || is_nan b)
      as (λ (n : Bool).
        outcome (if n then 1 else ordered)
        → Compared s
            (if n
              then set_compare (record s { fpcsr = invalid_compare s.fpcsr a b }) crfd 1
              else set_compare s crfd ordered)
            outcome crfd g) [
              | true ↦ λ hc.
                  set_compare-Compared (record s { fpcsr = invalid_compare s.fpcsr a b }) crfd 1 g
                    outcome hf hg (omega arith) hc w (invalid_compare-lt s.fpcsr a b f)
              | false ↦
                  λ hc. set_compare-Compared s crfd ordered g outcome hf hg (ground arith) hc w f
            ]

-- With the floating-point unit on, and for `ps_cmpo0` with paired singles enabled, where CR and
-- FPSCR are words and where the host's `<` and `==` of `double` and of `float` order the numbers
-- that are no NaN and are false on a NaN, which in a `float` is an exponent of all ones with a
-- fraction that is not 0, `fcmpu` and `ps_cmpo0` leave one outcome in the chosen field of CR and in
-- field 4 of FPSCR, and keep the other seven fields of CR. The digits of the outcome say, from the
-- highest, that the first operand is less, that it is greater, that the operands are equal, and
-- that one of them is a NaN; the operands of `fcmpu` are the registers read as `double`, those of
-- `ps_cmpo0` their upper halves.
pub compares :
    (host : HostFloat) (s : State) (crfd fra frb g : ℕ)
    → IsOrdered host.isnan host.lt64 host.eq64
    → IsOrdered is_nan32 host.lt32 host.eq32
    → FpOn s
    → cap_idx_vector s ≡ 0
    → crfd < 8
    → g < 8
    → s.cr < 2 ^ 32
    → s.fpcsr < 2 ^ 32
    → Compared s
        (do_fcmpu host s crfd fra frb)
        (Outcome host.isnan host.lt64 host.eq64 (get_double host s fra) (get_double host s frb))
        crfd
        g
      × Compared s
          (do_ps_cmpo0 host s crfd fra frb)
          (Outcome is_nan32 host.lt32 host.eq32
            (s.fpr fra / 2 ^ 32 % 2 ^ 32)
            (s.fpr frb / 2 ^ 32 % 2 ^ 32))
          crfd
          g
unfolding do_fcmpu do_ps_cmpo0 enforce_msr_fp ps_enforce_cap_idx compare_double ps_get_u32
compares host s crfd fra frb g o64 o32 on cap hf hg w f =
    let a = get_double host s fra in
    let b = get_double host s frb in
    let x = ps_get_u32 s fra lane0 in
    let y = ps_get_u32 s frb lane0 in
    let wide = ordered-Outcome host.isnan host.lt64 host.eq64 a b o64 in
    let single = ordered-Outcome is_nan32 host.lt32 host.eq32 x y o32 in
    (
      rw on (
          set_compare-Compared s crfd _ g (Outcome host.isnan host.lt64 host.eq64 a b) hf hg wide.0
            wide w f),
      rw cap (
          compare_single-Compared host s crfd x y g (Outcome is_nan32 host.lt32 host.eq32 x y) hf hg
            w f (rw (is_nan_lem x, is_nan_lem y) single)),
    )
