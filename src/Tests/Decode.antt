-- ===== src/Tests/Decode.antt =====
-- The decoder at concrete words.
use libppcemu.Prelude.{ℕ, ◌≡◌, refl, arith, false}
use libppcemu.Exception.{exception_fire, exception_program}
use libppcemu.Bitwise.{do_xor, ori_common}
use libppcemu.Decode.{
  inst_opcd, inst_xo, inst_rc, inst_rd, inst_ra, inst_rb, inst_d, find_row, next_pc, breaks,
}
use libppcemu.Decode.Integer.{integer_handlers, decode_xor}
use libppcemu.Decode.Memory.{memory_handlers, float_memory_handlers}
use libppcemu.Decode.System.{system_handlers}
use libppcemu.Decode.CacheOps.{cache_handlers}
use libppcemu.Decode.Immediate.{immediate_cases, memory_cases, decode_ori}
use libppcemu.Decode.Exec.{decode_opc31, opc31_handlers, table_cases, opcode_handlers, decode_exec}
use libppcemu.Decode.Invalid.{member, decode_exec-invalid}
use libppcemu.Decode.Sequential.{GoesOn, decode_exec-GoesOn}
use libppcemu.Tests.Data.{test_state}

-- Words of the test: xor r3, r4, r5, then ori r3, r4, 0x1234, then lwzx r3, r4, r5 with the Rc bit.
abbrev xor_word : ℕ
xor_word = 0x7c83_2a78

abbrev ori_word : ℕ
ori_word = 0x6083_1234

abbrev invalid_word : ℕ
invalid_word = 0x7c64_282f

xor_test :
    decode_exec (λ s inst. s) test_state xor_word
    ≡ next_pc (do_xor (record test_state { branched = false }) 4 3 5 0)
unfolding decode_exec decode_opc31 opc31_handlers opcode_handlers table_cases immediate_cases
    memory_cases memory_handlers float_memory_handlers system_handlers cache_handlers
    integer_handlers decode_xor find_row breaks inst_opcd inst_xo inst_rd inst_ra inst_rb inst_rc
xor_test = refl

ori_test :
    decode_exec (λ s inst. s) test_state ori_word
    ≡ next_pc (ori_common (record test_state { branched = false }) 4 3 0x1234)
unfolding decode_exec opcode_handlers immediate_cases decode_ori find_row breaks inst_opcd inst_rd
    inst_ra inst_d
ori_test = refl

decode_invalid_example :
    decode_exec (λ s inst. s) test_state invalid_word
    ≡ exception_fire (record test_state { branched = false }) exception_program
unfolding member inst_opcd inst_xo inst_rc
decode_invalid_example =
    decode_exec-invalid (λ s inst. s) test_state invalid_word (omega arith) refl

decode_integer_example : GoesOn test_state xor_word (decode_exec (λ s inst. s) test_state xor_word)
unfolding member inst_opcd inst_xo
decode_integer_example = decode_exec-GoesOn (λ s inst. s) test_state xor_word refl refl
