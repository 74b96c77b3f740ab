-- ===== src/Arith.antt =====
-- Integer arithmetic: src/instr/arith.c. An `i64` is its 64-bit pattern.
pub mod Overflow
pub mod Effect
pub mod Carry
pub mod Plus
pub mod Minus
pub mod Immediate
pub mod Sums
use libppcemu.Prelude.{
  ℕ, ◌+◌, ◌-◌, ◌*◌, ◌/◌, ◌%◌, ◌^◌, bit_and, bit_or, bit_xor, Bool, ◌&&◌, ◌||◌, not, nz, ltb, ◌==◌,
  if◌then◌else◌, not32, u16, u32, u64, shr, sub32, sext16,
}
use libppcemu.State.{State, set_gpr, set_spr}
use libppcemu.Spr.{idx_xer, xer_ca, xer_ov, xer_so}
use libppcemu.Cr.{update_cr0, int_of}

unfoldable pub set_xer_ca : State → Bool → State
set_xer_ca s ca =
    set_spr s idx_xer (bit_or (bit_and (s.sprs idx_xer) (not32 xer_ca)) (if ca then xer_ca else 0))

unfoldable pub set_xer_ov : State → Bool → State
set_xer_ov s ov =
    let xer = bit_and (s.sprs idx_xer) (not32 xer_ov) in
    set_spr s idx_xer (if ov then bit_or xer (bit_or xer_ov xer_so) else xer)

-- `!!(XER & XER_CA)`.
unfoldable pub get_xer_ca : State → ℕ
get_xer_ca s = int_of (nz (bit_and (s.sprs idx_xer) xer_ca))

unfoldable pub ppcemu_abs_s32_bits : ℕ → ℕ
ppcemu_abs_s32_bits val = if nz (bit_and val 0x8000_0000) then u32 (not32 val + 1) else val

unfoldable pub add_overflow : ℕ → ℕ → ℕ → Bool
add_overflow a b r = nz (bit_and (bit_and (not32 (bit_xor a b)) (bit_xor a r)) 0x8000_0000)

-- `if (OE) set_xer_ov(state, ...)` and `if (Rc) update_cr0(state, state->gpr[r])`.
abbrev pub record_oe : State → ℕ → Bool → State
record_oe s oe ov = if nz oe then set_xer_ov s ov else s

abbrev pub record_rc : State → ℕ → ℕ → State
record_rc s rc r = if nz rc then update_cr0 s (s.gpr r) else s

unfoldable pub generic_addi : State → ℕ → ℕ → ℕ → State
generic_addi s rd ra simm =
    if ra == 0 then set_gpr s rd (u32 simm) else set_gpr s rd (u32 (simm + s.gpr ra))

unfoldable pub do_add : State → ℕ → ℕ → ℕ → ℕ → ℕ → State
do_add s rd ra rb oe rc =
    let a = s.gpr ra in
    let b = s.gpr rb in
    let s1 = set_gpr s rd (u32 (a + b)) in
    record_rc (record_oe s1 oe (add_overflow a b (s1.gpr rd))) rc rd

-- The shared shape of the carrying instructions: `result` is the 64-bit sum of the operands `a`
-- and `b` and a carry.
unfoldable pub carrying : State → ℕ → ℕ → ℕ → ℕ → ℕ → ℕ → State
carrying s rd a b result oe rc =
    let s1 = set_gpr s rd (u32 result) in
    let s2 = set_xer_ca s1 (nz (shr result 32)) in
    record_rc (record_oe s2 oe (add_overflow a b (s2.gpr rd))) rc rd

unfoldable pub do_addc : State → ℕ → ℕ → ℕ → ℕ → ℕ → State
do_addc s rd ra rb oe rc =
    let a = s.gpr ra in let b = s.gpr rb in carrying s rd a b (u64 (a + b)) oe rc

unfoldable pub do_adde : State → ℕ → ℕ → ℕ → ℕ → ℕ → State
do_adde s rd ra rb oe rc =
    let a = s.gpr ra in
    let b = s.gpr rb in let ca = get_xer_ca s in carrying s rd a b (u64 (a + b + ca)) oe rc

unfoldable pub do_addze : State → ℕ → ℕ → ℕ → ℕ → State
do_addze s rd ra oe rc =
    let a = s.gpr ra in let ca = get_xer_ca s in carrying s rd a 0 (u64 (a + ca)) oe rc

unfoldable pub do_addme : State → ℕ → ℕ → ℕ → ℕ → State
do_addme s rd ra oe rc =
    let a = s.gpr ra in
    let ca = get_xer_ca s in
    carrying s rd a (if nz ca then 0 else 0xffff_ffff) (u64 (a + ca + 0xffff_ffff)) oe rc

unfoldable pub do_addic : State → ℕ → ℕ → ℕ → ℕ → State
do_addic s rd ra simm rc =
    let result = u64 (s.gpr ra + sext16 simm) in
    let s1 = set_gpr s rd (u32 result) in record_rc (set_xer_ca s1 (nz (shr result 32))) rc rd

unfoldable pub do_subf : State → ℕ → ℕ → ℕ → ℕ → ℕ → State
do_subf s rd ra rb oe rc =
    let a = not32 (s.gpr ra) in
    let b = s.gpr rb in
    let s1 = set_gpr s rd (u32 (a + b + 1)) in
    record_rc (record_oe s1 oe (add_overflow a b (s1.gpr rd))) rc rd

unfoldable pub do_neg : State → ℕ → ℕ → ℕ → ℕ → State
do_neg s rd ra oe rc =
    let a = not32 (s.gpr ra) in
    let s1 = set_gpr s rd (u32 (a + 1)) in
    record_rc (record_oe s1 oe (add_overflow a 0 (s1.gpr rd))) rc rd

unfoldable pub do_subfic : State → ℕ → ℕ → ℕ → State
do_subfic s rd ra simm =
    let result = u64 (not32 (s.gpr ra) + sext16 simm + 1) in
    let s1 = set_gpr s rd (u32 result) in set_xer_ca s1 (nz (shr result 32))

unfoldable pub do_subfc : State → ℕ → ℕ → ℕ → ℕ → ℕ → State
do_subfc s rd ra rb oe rc =
    let a = not32 (s.gpr ra) in let b = s.gpr rb in carrying s rd a b (u64 (a + b + 1)) oe rc

unfoldable pub do_subfe : State → ℕ → ℕ → ℕ → ℕ → ℕ → State
do_subfe s rd ra rb oe rc =
    let a = not32 (s.gpr ra) in
    let b = s.gpr rb in let ca = get_xer_ca s in carrying s rd a b (u64 (a + b + ca)) oe rc

unfoldable pub do_subfme : State → ℕ → ℕ → ℕ → ℕ → State
do_subfme s rd ra oe rc =
    let a = not32 (s.gpr ra) in
    let ca = get_xer_ca s in carrying s rd a 0xffff_ffff (u64 (a + 0xffff_ffff + ca)) oe rc

unfoldable pub do_subfze : State → ℕ → ℕ → ℕ → ℕ → State
do_subfze s rd ra oe rc =
    let a = not32 (s.gpr ra) in let ca = get_xer_ca s in carrying s rd a 0 (u64 (a + ca)) oe rc
