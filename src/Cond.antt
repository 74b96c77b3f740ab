-- ===== src/Cond.antt =====
-- Compares, traps and condition-register logic: src/instr/cond.c.
pub mod Laws
pub mod Logic
use libppcemu.Prelude.{
  ℕ, zero, suc, ◌+◌, ◌-◌, ◌*◌, ◌/◌, ◌^◌, bit_and, bit_or, bit_xor, Bool, ◌&&◌, ◌||◌, not, nz, ltb,
  ◌==◌, if◌then◌else◌, not32, u32, shl32, sext16, signed32, ltb_ℤ, ℤ,
}
use libppcemu.State.{State, set_gpr}
use libppcemu.Spr.{idx_xer, xer_so}
use libppcemu.Cr.{int_of, cr_get_bit, cr_set_bit, cr_get_field, cr_set_field}
use libppcemu.Exception.{exception_fire, exception_program}

-- `(i32)a < (i32)b`.
abbrev pub lt_s32 : ℕ → ℕ → Bool
lt_s32 a b = ltb_ℤ (signed32 a) (signed32 b)

-- The end of the four compares: `lt` and `gt` are the outcomes of the two comparisons.
unfoldable pub compare_to : State → ℕ → Bool → Bool → State
compare_to s crfd lt gt =
    let c = if lt then 8 else if gt then 4 else 2 in
    cr_set_field s crfd (bit_or c (int_of (nz (bit_and (s.sprs idx_xer) xer_so))))

unfoldable pub do_cmpi : State → ℕ → ℕ → ℕ → State
do_cmpi s crfd ra simm =
    let a = s.gpr ra in compare_to s crfd (lt_s32 a (sext16 simm)) (lt_s32 (sext16 simm) a)

unfoldable pub do_cmpli : State → ℕ → ℕ → ℕ → State
do_cmpli s crfd ra uimm = let a = s.gpr ra in compare_to s crfd (ltb a uimm) (ltb uimm a)

unfoldable pub do_cmp : State → ℕ → ℕ → ℕ → State
do_cmp s crfd ra rb =
    let a = s.gpr ra in let b = s.gpr rb in compare_to s crfd (lt_s32 a b) (lt_s32 b a)

unfoldable pub do_cmpl : State → ℕ → ℕ → ℕ → State
do_cmpl s crfd ra rb = let a = s.gpr ra in let b = s.gpr rb in compare_to s crfd (ltb a b) (ltb b a)

unfoldable pub do_mfcr : State → ℕ → State
do_mfcr s rd = set_gpr s rd s.cr

unfoldable pub do_mcrf : State → ℕ → ℕ → State
do_mcrf s crfd crfs = cr_set_field s crfd (cr_get_field s crfs)

-- `for (i = from; i < from + n; i++) if (crm & (1 << i)) mask |= 0xfu << (i * 4);`
unfoldable pub crm_loop : ℕ → ℕ → ℕ → ℕ → ℕ
crm_loop zero i crm mask = mask
crm_loop (suc n) i crm mask =
    crm_loop n (i + 1) crm
      (if nz (bit_and crm (2 ^ i)) then bit_or mask (shl32 15 (i * 4)) else mask)

unfoldable pub do_mtcrf : State → ℕ → ℕ → State
do_mtcrf s rs crm =
    let mask = crm_loop 8 0 crm 0 in
    if crm == 0xff
    then record s { cr = s.gpr rs }
    else record s { cr = bit_or (bit_and s.cr (not32 mask)) (bit_and (s.gpr rs) mask) }

-- The five tests that jump to `trap`.
unfoldable pub trap_condition : ℕ → ℕ → ℕ → Bool
trap_condition to a b =
    (lt_s32 a b && nz (bit_and to 16))
    || (lt_s32 b a && nz (bit_and to 8))
    || (a == b && nz (bit_and to 4))
    || (ltb a b && nz (bit_and to 2))
    || (ltb b a && nz (bit_and to 1))

unfoldable pub do_tw_common : State → ℕ → ℕ → ℕ → State
do_tw_common s to ra val =
    if trap_condition to (s.gpr ra) val then exception_fire s exception_program else s

-- `CR_OP`: the operation on the two bits, and whether its value is nonzero.
abbrev pub cr_op : (ℕ → ℕ → ℕ) → State → ℕ → ℕ → ℕ → State
cr_op op s crbd crba crbb =
    let a = cr_get_bit s (31 - crba) in
    let b = cr_get_bit s (31 - crbb) in cr_set_bit s (31 - crbd) (nz (op a b))

unfoldable pub do_crand : State → ℕ → ℕ → ℕ → State
do_crand = cr_op (λ a b. bit_and a b)

unfoldable pub do_crandc : State → ℕ → ℕ → ℕ → State
do_crandc = cr_op (λ a b. bit_and a (not32 b))

unfoldable pub do_creqv : State → ℕ → ℕ → ℕ → State
do_creqv = cr_op (λ a b. int_of (bit_xor a b == 0))

unfoldable pub do_crnand : State → ℕ → ℕ → ℕ → State
do_crnand = cr_op (λ a b. int_of (bit_and a b == 0))

unfoldable pub do_crnor : State → ℕ → ℕ → ℕ → State
do_crnor = cr_op (λ a b. int_of (bit_or a b == 0))

unfoldable pub do_cror : State → ℕ → ℕ → ℕ → State
do_cror = cr_op (λ a b. bit_or a b)

unfoldable pub do_crorc : State → ℕ → ℕ → ℕ → State
do_crorc = cr_op (λ a b. bit_or a (int_of (b == 0)))

unfoldable pub do_crxor : State → ℕ → ℕ → ℕ → State
do_crxor = cr_op (λ a b. bit_xor a b)
