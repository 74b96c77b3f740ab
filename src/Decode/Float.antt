-- ===== src/Decode/Float.antt =====
-- The wrappers and tables of src/decode.c for the floating-point opcodes 59 and 63.
use libppcemu.Prelude.{ℕ, bit_and, true, false, ◌||◌, nz, List, [], ◌∷◌, shr}
use libppcemu.Float.{HostFloat}
use libppcemu.Float.Arith.{
  single_width, double_width, do_fmul_common, do_fadd_common, do_fmadd_common, do_fmsub_common,
  do_fdiv_common, do_fsub_common, do_fnmsub_common, do_fnmadd_common, do_frsqrte, do_fres,
}
use libppcemu.Float.Move.{
  do_fmr, do_mtfsf, do_mtfsfi, do_mtfsb_n, do_fneg, do_fabs, do_mffs, do_fctiwz, do_frsp, do_fcmpu,
}
use libppcemu.Decode.{
  Handler, inst_rd, inst_ra, inst_rb, inst_xo, inst_crfd, do_illegal, reserved, reserved_only,
  find_row,
}

unfoldable pub inst_fm : ℕ → ℕ
inst_fm inst = shr (bit_and inst 0x01fe_0000) 17

unfoldable pub inst_xfl_i : ℕ → ℕ
inst_xfl_i inst = shr (bit_and inst 0x03ff_0000) 16

unfoldable pub inst_imm : ℕ → ℕ
inst_imm inst = shr (bit_and inst 0xf000) 12

unfoldable pub inst_frc : ℕ → ℕ
inst_frc inst = shr (bit_and inst 0x07c0) 6

unfoldable pub inst_a_xo : ℕ → ℕ
inst_a_xo inst = shr (bit_and inst 0x3e) 1

unfoldable pub decode_fcmpu : HostFloat → Handler
decode_fcmpu host s inst =
    reserved s (nz (bit_and inst 0x00600001))
      (λ t. do_fcmpu host t (inst_crfd inst) (inst_ra inst) (inst_rb inst))

unfoldable pub decode_frsp : HostFloat → Handler
decode_frsp host s inst =
    reserved s (nz (inst_ra inst)) (λ t. do_frsp host t (inst_rd inst) (inst_rb inst))

unfoldable pub decode_fctiwz : HostFloat → Handler
decode_fctiwz host s inst =
    reserved s (nz (inst_ra inst)) (λ t. do_fctiwz host t (inst_rd inst) (inst_rb inst))

unfoldable pub decode_fdiv : HostFloat → Handler
decode_fdiv host s inst =
    reserved s (nz (inst_frc inst))
      (λ t. do_fdiv_common host t (inst_rd inst) (inst_ra inst) (inst_rb inst) double_width)

unfoldable pub decode_fsub : HostFloat → Handler
decode_fsub host s inst =
    reserved s (nz (inst_frc inst))
      (λ t. do_fsub_common host t (inst_rd inst) (inst_ra inst) (inst_rb inst) double_width)

unfoldable pub decode_fadd : HostFloat → Handler
decode_fadd host s inst =
    reserved s (nz (inst_frc inst))
      (λ t. do_fadd_common host t (inst_rd inst) (inst_ra inst) (inst_rb inst) double_width)

unfoldable pub decode_fmul : HostFloat → Handler
decode_fmul host s inst =
    reserved s (nz (inst_rb inst))
      (λ t. do_fmul_common host t (inst_rd inst) (inst_ra inst) (inst_frc inst) double_width)

unfoldable pub decode_frsqrte : HostFloat → Handler
decode_frsqrte host s inst = do_frsqrte host s (inst_rd inst) (inst_rb inst)

unfoldable pub decode_fmsub : HostFloat → Handler
decode_fmsub host s inst =
    do_fmsub_common host s (inst_rd inst) (inst_ra inst) (inst_rb inst) (inst_frc inst) double_width

unfoldable pub decode_fmadd : HostFloat → Handler
decode_fmadd host s inst =
    do_fmadd_common host s (inst_rd inst) (inst_ra inst) (inst_rb inst) (inst_frc inst) double_width

unfoldable pub decode_fnmsub : HostFloat → Handler
decode_fnmsub host s inst =
    do_fnmsub_common host s (inst_rd inst) (inst_ra inst) (inst_rb inst) (inst_frc inst)
      double_width

unfoldable pub decode_fnmadd : HostFloat → Handler
decode_fnmadd host s inst =
    do_fnmadd_common host s (inst_rd inst) (inst_ra inst) (inst_rb inst) (inst_frc inst)
      double_width

unfoldable pub decode_mtfsb1 : Handler
decode_mtfsb1 s inst =
    reserved s (nz (inst_ra inst) || nz (inst_rb inst)) (λ t. do_mtfsb_n t (inst_rd inst) true)

unfoldable pub decode_fneg : Handler
decode_fneg s inst = do_fneg s (inst_rd inst) (inst_rb inst)

unfoldable pub decode_mtfsb0 : Handler
decode_mtfsb0 s inst =
    reserved s (nz (inst_ra inst) || nz (inst_rb inst)) (λ t. do_mtfsb_n t (inst_rd inst) false)

unfoldable pub decode_fmr : Handler
decode_fmr s inst = reserved s (nz (inst_ra inst)) (λ t. do_fmr t (inst_rd inst) (inst_rb inst))

unfoldable pub decode_mtfsfi : Handler
decode_mtfsfi s inst =
    reserved s (nz (bit_and inst 0x007f0800)) (λ t. do_mtfsfi t (inst_crfd inst) (inst_imm inst))

unfoldable pub decode_fabs : Handler
decode_fabs s inst = do_fabs s (inst_rd inst) (inst_rb inst)

unfoldable pub decode_mffs : Handler
decode_mffs s inst =
    do_mffs (reserved_only s (nz (inst_ra inst) || nz (inst_rb inst))) (inst_rd inst)

unfoldable pub decode_mtfsf : Handler
decode_mtfsf s inst =
    reserved s (nz (bit_and (inst_xfl_i inst) 0x201))
      (λ t. do_mtfsf t (inst_fm inst) (inst_rb inst))

unfoldable pub decode_fdivs : HostFloat → Handler
decode_fdivs host s inst =
    reserved s (nz (inst_frc inst))
      (λ t. do_fdiv_common host t (inst_rd inst) (inst_ra inst) (inst_rb inst) single_width)

unfoldable pub decode_fsubs : HostFloat → Handler
decode_fsubs host s inst =
    reserved s (nz (inst_frc inst))
      (λ t. do_fsub_common host t (inst_rd inst) (inst_ra inst) (inst_rb inst) single_width)

unfoldable pub decode_fadds : HostFloat → Handler
decode_fadds host s inst =
    reserved s (nz (inst_frc inst))
      (λ t. do_fadd_common host t (inst_rd inst) (inst_ra inst) (inst_rb inst) single_width)

unfoldable pub decode_fres : HostFloat → Handler
decode_fres host s inst =
    do_fres host (reserved_only s (nz (inst_ra inst) || nz (inst_frc inst))) (inst_rd inst)
      (inst_rb inst)

unfoldable pub decode_fmuls : HostFloat → Handler
decode_fmuls host s inst =
    reserved s (nz (inst_rb inst))
      (λ t. do_fmul_common host t (inst_rd inst) (inst_ra inst) (inst_frc inst) single_width)

unfoldable pub decode_fmsubs : HostFloat → Handler
decode_fmsubs host s inst =
    do_fmsub_common host s (inst_rd inst) (inst_ra inst) (inst_rb inst) (inst_frc inst) single_width

unfoldable pub decode_fmadds : HostFloat → Handler
decode_fmadds host s inst =
    do_fmadd_common host s (inst_rd inst) (inst_ra inst) (inst_rb inst) (inst_frc inst) single_width

unfoldable pub decode_fnmsubs : HostFloat → Handler
decode_fnmsubs host s inst =
    do_fnmsub_common host s (inst_rd inst) (inst_ra inst) (inst_rb inst) (inst_frc inst)
      single_width

unfoldable pub decode_fnmadds : HostFloat → Handler
decode_fnmadds host s inst =
    do_fnmadd_common host s (inst_rd inst) (inst_ra inst) (inst_rb inst) (inst_frc inst)
      single_width

unfoldable pub opc63_handlers : HostFloat → List (ℕ × Handler)
opc63_handlers host =
    (0, decode_fcmpu host)
    ∷ (12, decode_frsp host)
    ∷ (15, decode_fctiwz host)
    ∷ (18, decode_fdiv host)
    ∷ (20, decode_fsub host)
    ∷ (21, decode_fadd host)
    ∷ (25, decode_fmul host)
    ∷ (26, decode_frsqrte host)
    ∷ (28, decode_fmsub host)
    ∷ (29, decode_fmadd host)
    ∷ (30, decode_fnmsub host)
    ∷ (31, decode_fnmadd host)
    ∷ (38, decode_mtfsb1)
    ∷ (40, decode_fneg)
    ∷ (70, decode_mtfsb0)
    ∷ (72, decode_fmr)
    ∷ (134, decode_mtfsfi)
    ∷ (264, decode_fabs)
    ∷ (583, decode_mffs)
    ∷ (711, decode_mtfsf)
    ∷ []

unfoldable pub opc59_handlers : HostFloat → List (ℕ × Handler)
opc59_handlers host =
    (18, decode_fdivs host)
    ∷ (20, decode_fsubs host)
    ∷ (21, decode_fadds host)
    ∷ (24, decode_fres host)
    ∷ (25, decode_fmuls host)
    ∷ (28, decode_fmsubs host)
    ∷ (29, decode_fmadds host)
    ∷ (30, decode_fnmsubs host)
    ∷ (31, decode_fnmadds host)
    ∷ []

unfoldable pub decode_opc59 : HostFloat → Handler
decode_opc59 host s inst = find_row do_illegal (opc59_handlers host) (inst_a_xo inst) s inst

-- The five digits first; only where they have no row, all ten.
unfoldable pub decode_opc63 : HostFloat → Handler
decode_opc63 host s inst =
    find_row (find_row do_illegal (opc63_handlers host) (inst_xo inst)) (opc63_handlers host)
      (inst_a_xo inst) s inst
