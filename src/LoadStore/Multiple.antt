-- ===== src/LoadStore/Multiple.antt =====
-- The loads and stores of several registers and of strings: `do_stmw`, `do_lmw`, `do_stswi` and
-- `do_lswi` of src/instr/loadstore.c. Each loop recurs on the number of rounds left.
use libppcemu.Prelude.{
  ℕ, zero, suc, ◌+◌, ◌-◌, ◌*◌, ◌/◌, ◌%◌, ◌^◌, bit_and, bit_or, Bool, ◌||◌, nz, ltb, ◌==◌,
  if◌then◌else◌, u8, u32, shr, shl32, sub32,
}
use libppcemu.State.{State, set_gpr, set_spr}
use libppcemu.Spr.{idx_dsisr, idx_dar, msr_le}
use libppcemu.Exception.{exception_fire, exception_align, exception_program}
use libppcemu.Mmu.{is_success}
use libppcemu.Mmu.Walk.{be32_to_cpu, cpu_to_be32}
use libppcemu.Mmu.Fast.{basic_load, basic_store}
use libppcemu.LoadStore.{base_of_ea, basic_ea, no_bytes}

-- DSISR, DAR and the exception.
unfoldable pub align_exception : State → ℕ → ℕ → State
align_exception s dsisr ea =
    exception_fire (set_spr (set_spr s idx_dsisr dsisr) idx_dar ea) exception_align

unfoldable pub register_fields : ℕ → ℕ → ℕ → ℕ
register_fields head r ra = bit_or (bit_or head (shl32 r 5)) ra

-- `(ea & 3) || (state->msr & PPCEMU_MSR_LE)`
unfoldable pub is_misaligned : State → ℕ → Bool
is_misaligned s ea = nz (bit_and ea 3) || nz (bit_and s.msr msr_le)

unfoldable pub stmw_loop : ℕ → State → ℕ → ℕ → State
stmw_loop zero s ea r = s
stmw_loop (suc n) s ea r =
    let (err, s1) = basic_store s 4 ea (cpu_to_be32 (s.gpr r)) in
    let rest = stmw_loop n s1 (u32 (ea + 4)) (r + 1) in if is_success err then rest else s1

unfoldable pub do_stmw : State → ℕ → ℕ → ℕ → State
do_stmw s rs ra d =
    let ea = basic_ea s ra d in
    if is_misaligned s ea
    then align_exception s (register_fields (2 ^ 14 + 7 * 2 ^ 10) rs ra) ea
    else stmw_loop (32 - rs) s ea rs

unfoldable pub lmw_loop : ℕ → State → ℕ → ℕ → State
lmw_loop zero s ea r = s
lmw_loop (suc n) s ea r =
    let (err, (raw, s1)) = basic_load s 4 ea no_bytes in
    let rest = lmw_loop n (set_gpr s1 r (be32_to_cpu raw)) (u32 (ea + 4)) (r + 1) in
    if is_success err then rest else s1

unfoldable pub do_lmw : State → ℕ → ℕ → ℕ → State
do_lmw s rd ra d =
    let ea = basic_ea s ra d in
    if is_misaligned s ea
    then align_exception s (register_fields (7 * 2 ^ 10) rd ra) ea
    else lmw_loop (32 - rd) s ea rd

-- `((xo & 0x3u) << 15) | (((xo >> 5) & 1u) << 14) | (((xo >> 6) & 0xfu) << 10)` and the registers.
unfoldable pub string_align_exception : State → ℕ → ℕ → ℕ → ℕ → State
string_align_exception s xo rd ra ea =
    let head =
      bit_or (bit_or (shl32 (bit_and xo 3) 15) (shl32 (bit_and (shr xo 5) 1) 14))
        (shl32 (bit_and (shr xo 6) 0xf) 10) in
    align_exception s (register_fields head rd ra) ea

-- `if (i == 0) r = (r + 1) % 32;`
unfoldable pub string_reg : ℕ → ℕ → ℕ
string_reg r i = if i == 0 then u32 (r + 1) % 32 else r

-- `i += 8; if (i == 32) i = 0;`
unfoldable pub next_shift : ℕ → ℕ
next_shift i = if i + 8 == 32 then 0 else i + 8

unfoldable pub string_length : ℕ → ℕ
string_length nb = if nb == 0 then 32 else nb

unfoldable pub stswi_loop : ℕ → State → ℕ → ℕ → ℕ → State
stswi_loop zero s ea r i = s
stswi_loop (suc n) s ea r i =
    let r' = string_reg r i in
    let (err, s1) = basic_store s 1 ea (λ j. u8 (bit_and (shr (s.gpr r') (24 - i)) 0xff)) in
    let rest = stswi_loop n s1 (u32 (ea + 1)) r' (next_shift i) in
    if is_success err then rest else s1

unfoldable pub do_stswi : State → ℕ → ℕ → ℕ → State
do_stswi s rs ra nb =
    let ea = base_of_ea s ra in
    if nz (bit_and s.msr msr_le)
    then string_align_exception s 725 rs ra ea
    else stswi_loop (string_length nb) s ea (sub32 rs 1) 0

-- `if (i == 0) state->gpr[r] = 0;`
unfoldable pub clear_reg : State → ℕ → ℕ → State
clear_reg s r i = if i == 0 then set_gpr s r 0 else s

unfoldable pub lswi_loop : ℕ → State → ℕ → ℕ → ℕ → State
lswi_loop zero s ea r i = s
lswi_loop (suc n) s ea r i =
    let r' = string_reg r i in
    let s0 = clear_reg s r' i in
    let (err, (raw, s1)) = basic_load s0 1 ea no_bytes in
    let s2 = set_gpr s1 r' (bit_or (s1.gpr r') (shl32 (u8 (raw 0)) (24 - i))) in
    let rest = lswi_loop n s2 (u32 (ea + 1)) r' (next_shift i) in
    if is_success err then rest else s1

-- The form is invalid if `rA` lies among the registers that the string fills.
unfoldable pub do_lswi : State → ℕ → ℕ → ℕ → State
do_lswi s rd ra nb =
    let ea = base_of_ea s ra in
    let n = string_length nb in
    if ltb (bit_and (sub32 ra rd) 31) ((n + 3) / 4)
    then exception_fire s exception_program
    else if nz (bit_and s.msr msr_le)
    then string_align_exception s 597 rd ra ea
    else lswi_loop n s ea (sub32 rd 1) 0
