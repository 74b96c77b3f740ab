-- ===== src/Decode.antt =====
-- Decoding of instructions: src/decode.c, with the fields of src/decode.h. An instruction word is a
-- number below 2^32. A dispatch table lists its rows that are not `do_illegal`; its index has as many
-- bits as the table has rows. What the floating-point and paired-single handlers do is an argument,
-- which `float_exec` of Decode/FloatUnit gives.
pub mod Integer
pub mod Float
pub mod Paired
pub mod FloatUnit
pub mod FpGuards
pub mod FpOff
pub mod Memory
pub mod System
pub mod CacheOps
pub mod Immediate
pub mod Exec
pub mod Guards
pub mod Invalid
pub mod Falls
pub mod Flow
pub mod Sequential
use libppcemu.Prelude.{
  ℕ, ◌+◌, ◌*◌, ◌/◌, ◌^◌, bit_and, bit_or, Bool, nz, ◌==◌, if◌then◌else◌, List, [], ◌∷◌, u32, shr,
}
use libppcemu.State.{State}
use libppcemu.Exception.{exception_fire, exception_program}

-- An entry of the dispatch tables.
abbrev pub Handler : Type 0
Handler = State → ℕ → State

unfoldable pub inst_opcd : ℕ → ℕ
inst_opcd inst = shr (bit_and inst 0xfc00_0000) 26

unfoldable pub inst_li : ℕ → ℕ
inst_li inst = shr (bit_and inst 0x03ff_fffc) 2

unfoldable pub inst_aa : ℕ → ℕ
inst_aa inst = shr (bit_and inst 2) 1

unfoldable pub inst_rc : ℕ → ℕ
inst_rc inst = bit_and inst 1

unfoldable pub inst_rd : ℕ → ℕ
inst_rd inst = shr (bit_and inst 0x03e0_0000) 21

unfoldable pub inst_ra : ℕ → ℕ
inst_ra inst = shr (bit_and inst 0x001f_0000) 16

unfoldable pub inst_sr : ℕ → ℕ
inst_sr inst = shr (bit_and inst 0x000f_0000) 16

unfoldable pub inst_rb : ℕ → ℕ
inst_rb inst = shr (bit_and inst 0x0000_f800) 11

unfoldable pub inst_oe : ℕ → ℕ
inst_oe inst = shr (bit_and inst 0x400) 10

unfoldable pub inst_crm : ℕ → ℕ
inst_crm inst = shr (bit_and inst 0x000f_f000) 12

unfoldable pub inst_spr : ℕ → ℕ
inst_spr inst = shr (bit_and inst 0x001f_f800) 11

unfoldable pub inst_xo : ℕ → ℕ
inst_xo inst = shr (bit_and inst 0x07fe) 1

unfoldable pub inst_crfd : ℕ → ℕ
inst_crfd inst = shr (bit_and inst 0x0380_0000) 23

unfoldable pub inst_crfs : ℕ → ℕ
inst_crfs inst = shr (bit_and inst 0x01c_0000) 18

unfoldable pub inst_d : ℕ → ℕ
inst_d inst = bit_and inst 0xffff

unfoldable pub inst_bd : ℕ → ℕ
inst_bd inst = shr (bit_and inst 0xfffc) 2

unfoldable pub inst_mb : ℕ → ℕ
inst_mb inst = shr (bit_and inst 0x07c0) 6

unfoldable pub inst_me : ℕ → ℕ
inst_me inst = shr (bit_and inst 0x3e) 1

-- `INST_XL_BI`
unfoldable pub inst_bi : ℕ → ℕ
inst_bi inst = shr (inst_spr inst) 5

-- The register number of mtspr, mfspr and mftb, whose halves are swapped.
unfoldable pub split_spr : ℕ → ℕ
split_spr inst =
    bit_or (bit_and (inst_spr inst) 0x1f * 2 ^ 5) (shr (bit_and (inst_spr inst) 0x3e0) 5)

unfoldable pub do_illegal : Handler
do_illegal s inst = exception_fire s exception_program

-- `REQ_RC()`
unfoldable pub req_rc : State → ℕ → (State → State) → State
req_rc s inst body = if nz (inst_rc inst) then body s else exception_fire s exception_program

-- A guard on reserved fields that returns.
unfoldable pub reserved : State → Bool → (State → State) → State
reserved s bad body = if bad then exception_fire s exception_program else body s

-- One whose `return` is missing: the instruction runs on.
unfoldable pub reserved_only : State → Bool → State
reserved_only s bad = if bad then exception_fire s exception_program else s

-- Row `i` of a table, or case `i` of the switch; `default` where it is not listed.
unfoldable pub find_row : Handler → List (ℕ × Handler) → ℕ → Handler
find_row default [] i = default
find_row default ((k, h) ∷ rest) i = if i == k then h else find_row default rest i

-- The end of `_ppcemu_decode_exec`.
unfoldable pub next_pc : State → State
next_pc s = if s.branched then s else record s { pc = u32 (s.pc + 4) }

-- A case that ends in `break`.
unfoldable pub breaks : Handler → Handler
breaks h s inst = next_pc (h s inst)
