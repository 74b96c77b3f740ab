-- ===== src/Decode/Exec.antt =====
-- The dispatch of `_ppcemu_decode_exec` of src/decode.c.
use libppcemu.Prelude.{ℕ, ◌==◌, if◌then◌else◌, false, List, [], ◌∷◌, ◌++◌}
use libppcemu.Decode.{Handler, inst_opcd, inst_xo, do_illegal, find_row, breaks}
use libppcemu.Decode.Integer.{integer_handlers}
use libppcemu.Decode.Memory.{memory_handlers, float_memory_handlers, decode_stwcx}
use libppcemu.Decode.System.{system_handlers, opc19_handlers}
use libppcemu.Decode.CacheOps.{cache_handlers, decode_dcbz_l}
use libppcemu.Decode.Immediate.{immediate_cases, memory_cases, decode_stfu}

-- The table of opcode 31.
unfoldable pub opc31_handlers : Handler → List (ℕ × Handler)
opc31_handlers fp =
    memory_handlers
    ++ (float_memory_handlers fp
        ++ (system_handlers ++ (cache_handlers ++ (integer_handlers ++ (150, decode_stwcx) ∷ []))))

unfoldable pub decode_opc31 : Handler → Handler
decode_opc31 fp s inst = find_row do_illegal (opc31_handlers fp) (inst_xo inst) s inst

unfoldable pub decode_opc19 : Handler
decode_opc19 s inst = find_row do_illegal opc19_handlers (inst_xo inst) s inst

-- dcbz_l, or a paired-single instruction.
unfoldable pub decode_opc4 : Handler → Handler
decode_opc4 fp s inst = if inst_xo inst == 1014 then decode_dcbz_l s inst else fp s inst

-- The cases that look an instruction up in a table of their own, and those of floating point.
unfoldable pub table_cases : Handler → List (ℕ × Handler)
table_cases fp =
    (4, breaks (decode_opc4 fp))
    ∷ (19, breaks decode_opc19)
    ∷ (31, breaks (decode_opc31 fp))
    ∷ (48, breaks fp)
    ∷ (49, breaks fp)
    ∷ (50, breaks fp)
    ∷ (51, breaks fp)
    ∷ (52, breaks fp)
    ∷ (53, decode_stfu fp)
    ∷ (54, breaks fp)
    ∷ (55, decode_stfu fp)
    ∷ (56, breaks fp)
    ∷ (57, breaks fp)
    ∷ (59, breaks fp)
    ∷ (60, breaks fp)
    ∷ (61, breaks fp)
    ∷ (63, breaks fp)
    ∷ []

-- All cases of the switch.
unfoldable pub opcode_handlers : Handler → List (ℕ × Handler)
opcode_handlers fp = immediate_cases ++ (memory_cases ++ table_cases fp)

-- The switch; its `default` is `do_illegal`.
unfoldable pub decode_exec : Handler → Handler
decode_exec fp s inst =
    find_row (breaks do_illegal) (opcode_handlers fp) (inst_opcd inst)
      (record s { branched = false }) inst
