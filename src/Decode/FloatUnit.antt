-- ===== src/Decode/FloatUnit.antt =====
-- The cases of `_ppcemu_decode_exec` of src/decode.c on floating point and paired singles: the argument of
-- `decode_exec` for a host.
use libppcemu.Prelude.{ℕ, true, false, List, [], ◌∷◌, sext16}
use libppcemu.State.{State, set_gpr}
use libppcemu.Float.{HostFloat}
use libppcemu.Float.Arith.{single_width, double_width}
use libppcemu.Float.Memory.{do_lf_common, do_stf_common}
use libppcemu.Paired.Memory.{do_psq_l, do_psq_st}
use libppcemu.Decode.{
  Handler, inst_opcd, inst_rd, inst_ra, inst_rb, inst_xo, inst_d, do_illegal, find_row,
}
use libppcemu.Decode.Float.{decode_opc59, decode_opc63}
use libppcemu.Decode.Paired.{inst_w, inst_psq, inst_ps_d, decode_opc4_ps}

-- `state->gpr[rA] = ...`, whatever the call returned.
unfoldable pub with_update : ℕ → ℕ × State → State
with_update ra (ea, s) = set_gpr s ra ea

unfoldable pub decode_lfs : HostFloat → Handler
decode_lfs host s inst =
    (do_lf_common host s (inst_rd inst) (inst_ra inst) (sext16 (inst_d inst)) single_width).1

unfoldable pub decode_lfsu : HostFloat → Handler
decode_lfsu host s inst =
    with_update (inst_ra inst)
      (do_lf_common host s (inst_rd inst) (inst_ra inst) (sext16 (inst_d inst)) single_width)

unfoldable pub decode_lfd : HostFloat → Handler
decode_lfd host s inst =
    (do_lf_common host s (inst_rd inst) (inst_ra inst) (sext16 (inst_d inst)) double_width).1

unfoldable pub decode_lfdu : HostFloat → Handler
decode_lfdu host s inst =
    with_update (inst_ra inst)
      (do_lf_common host s (inst_rd inst) (inst_ra inst) (sext16 (inst_d inst)) double_width)

unfoldable pub decode_stfs : HostFloat → Handler
decode_stfs host s inst =
    (do_stf_common host s (inst_rd inst) (inst_ra inst) (sext16 (inst_d inst)) single_width true).1

unfoldable pub decode_stfsu : HostFloat → Handler
decode_stfsu host s inst =
    with_update (inst_ra inst)
      (do_stf_common host s (inst_rd inst) (inst_ra inst) (sext16 (inst_d inst)) single_width true)

unfoldable pub decode_stfd : HostFloat → Handler
decode_stfd host s inst =
    (do_stf_common host s (inst_rd inst) (inst_ra inst) (sext16 (inst_d inst)) double_width false).1

unfoldable pub decode_stfdu : HostFloat → Handler
decode_stfdu host s inst =
    with_update (inst_ra inst)
      (do_stf_common host s (inst_rd inst) (inst_ra inst) (sext16 (inst_d inst)) double_width false)

unfoldable pub decode_psq_l : HostFloat → Handler
decode_psq_l host s inst =
    (do_psq_l host s (inst_rd inst) (inst_ra inst) (inst_w inst) (inst_psq inst) (inst_ps_d inst)).1

unfoldable pub decode_psq_lu : HostFloat → Handler
decode_psq_lu host s inst =
    with_update (inst_ra inst)
      (do_psq_l host s (inst_rd inst) (inst_ra inst) (inst_w inst) (inst_psq inst) (inst_ps_d inst))

unfoldable pub decode_psq_st : HostFloat → Handler
decode_psq_st host s inst =
    (do_psq_st host s (inst_rd inst) (inst_ra inst) (inst_w inst) (inst_psq inst)
      (inst_ps_d inst)).1

unfoldable pub decode_psq_stu : HostFloat → Handler
decode_psq_stu host s inst =
    with_update (inst_ra inst) (
      do_psq_st host s (inst_rd inst) (inst_ra inst) (inst_w inst) (inst_psq inst) (inst_ps_d inst))

unfoldable pub exec_lfsx : HostFloat → Handler
exec_lfsx host s inst =
    (do_lf_common host s (inst_rd inst) (inst_ra inst) (s.gpr (inst_rb inst)) single_width).1

unfoldable pub exec_lfsux : HostFloat → Handler
exec_lfsux host s inst =
    with_update (inst_ra inst)
      (do_lf_common host s (inst_rd inst) (inst_ra inst) (s.gpr (inst_rb inst)) single_width)

unfoldable pub exec_lfdx : HostFloat → Handler
exec_lfdx host s inst =
    (do_lf_common host s (inst_rd inst) (inst_ra inst) (s.gpr (inst_rb inst)) double_width).1

unfoldable pub exec_lfdux : HostFloat → Handler
exec_lfdux host s inst =
    with_update (inst_ra inst)
      (do_lf_common host s (inst_rd inst) (inst_ra inst) (s.gpr (inst_rb inst)) double_width)

unfoldable pub exec_stfsx : HostFloat → Handler
exec_stfsx host s inst =
    (do_stf_common host s (inst_rd inst) (inst_ra inst) (s.gpr (inst_rb inst)) single_width true).1

unfoldable pub exec_stfsux : HostFloat → Handler
exec_stfsux host s inst =
    with_update (inst_ra inst)
      (do_stf_common host s (inst_rd inst) (inst_ra inst) (s.gpr (inst_rb inst)) single_width true)

unfoldable pub exec_stfdx : HostFloat → Handler
exec_stfdx host s inst =
    (do_stf_common host s (inst_rd inst) (inst_ra inst) (s.gpr (inst_rb inst)) double_width false).1

unfoldable pub exec_stfdux : HostFloat → Handler
exec_stfdux host s inst =
    with_update (inst_ra inst)
      (do_stf_common host s (inst_rd inst) (inst_ra inst) (s.gpr (inst_rb inst)) double_width false)

unfoldable pub exec_stfiwx : HostFloat → Handler
exec_stfiwx host s inst =
    (do_stf_common host s (inst_rd inst) (inst_ra inst) (s.gpr (inst_rb inst)) single_width false).1

-- What the wrappers of opcode 31 do behind their guard.
unfoldable pub exec_opc31 : HostFloat → Handler
exec_opc31 host s inst =
    find_row do_illegal
      ((535, exec_lfsx host)
        ∷ (567, exec_lfsux host)
        ∷ (599, exec_lfdx host)
        ∷ (631, exec_lfdux host)
        ∷ (663, exec_stfsx host)
        ∷ (695, exec_stfsux host)
        ∷ (727, exec_stfdx host)
        ∷ (759, exec_stfdux host)
        ∷ (983, exec_stfiwx host)
        ∷ [])
      (inst_xo inst) s inst

-- The floating-point and paired-single handlers together, for the decoder.
unfoldable pub float_cases : HostFloat → List (ℕ × Handler)
float_cases host =
    (4, decode_opc4_ps host)
    ∷ (31, exec_opc31 host)
    ∷ (48, decode_lfs host)
    ∷ (49, decode_lfsu host)
    ∷ (50, decode_lfd host)
    ∷ (51, decode_lfdu host)
    ∷ (52, decode_stfs host)
    ∷ (53, decode_stfsu host)
    ∷ (54, decode_stfd host)
    ∷ (55, decode_stfdu host)
    ∷ (56, decode_psq_l host)
    ∷ (57, decode_psq_lu host)
    ∷ (60, decode_psq_st host)
    ∷ (61, decode_psq_stu host)
    ∷ (59, decode_opc59 host)
    ∷ (63, decode_opc63 host)
    ∷ []

unfoldable pub float_exec : HostFloat → Handler
float_exec host s inst = find_row do_illegal (float_cases host) (inst_opcd inst) s inst
