-- ===== src/Decode/Immediate.antt =====
-- The cases of `_ppcemu_decode_exec` that call an instruction: immediate operands and branches.
use libppcemu.Prelude.{
  ℕ, ◌+◌, ◌*◌, ◌^◌, bit_and, not, ◌||◌, nz, ◌==◌, if◌then◌else◌, List, [], ◌∷◌, u32, shr, sext16,
}
use libppcemu.Decode.{
  Handler, inst_li, inst_aa, inst_rc, inst_rd, inst_ra, inst_rb, inst_d, inst_bd, inst_mb, inst_me,
  reserved, next_pc, breaks,
}
use libppcemu.State.{set_spr}
use libppcemu.Branch.{do_branch, do_bc}
use libppcemu.Exception.{exception_fire, exception_program, exception_syscall}
use libppcemu.Arith.{generic_addi, do_addic, do_subfic}
use libppcemu.MulDiv.{do_mulli}
use libppcemu.Bitwise.{xori_common, ori_common, andi_common, do_rlwimi, do_rlwinm, do_rlwnm}
use libppcemu.Cond.{do_cmpi, do_cmpli, do_tw_common}
use libppcemu.LoadStore.{byte, half, word, do_basic_store, do_basic_load}
use libppcemu.LoadStore.Update.{
  do_basic_store_update, do_basic_load_update, do_basic_load_signext, do_basic_load_signext_update,
}
use libppcemu.LoadStore.Multiple.{do_stmw, do_lmw}
use libppcemu.Spr.{idx_srr0}

unfoldable pub decode_twi : Handler
decode_twi s inst = do_tw_common s (inst_rd inst) (inst_ra inst) (sext16 (inst_d inst))

unfoldable pub decode_mulli : Handler
decode_mulli s inst = do_mulli s (inst_rd inst) (inst_ra inst) (inst_d inst)

unfoldable pub decode_subfic : Handler
decode_subfic s inst = do_subfic s (inst_rd inst) (inst_ra inst) (inst_d inst)

unfoldable pub decode_addic : Handler
decode_addic s inst = do_addic s (inst_rd inst) (inst_ra inst) (inst_d inst) 0

unfoldable pub decode_addic_rc : Handler
decode_addic_rc s inst = do_addic s (inst_rd inst) (inst_ra inst) (inst_d inst) 1

unfoldable pub decode_addi : Handler
decode_addi s inst = generic_addi s (inst_rd inst) (inst_ra inst) (sext16 (inst_d inst))

unfoldable pub decode_addis : Handler
decode_addis s inst = generic_addi s (inst_rd inst) (inst_ra inst) (inst_d inst * 2 ^ 16)

unfoldable pub decode_rlwimi : Handler
decode_rlwimi s inst =
    do_rlwimi s (inst_rd inst) (inst_ra inst) (inst_rb inst) (inst_mb inst) (inst_me inst)
      (inst_rc inst)

unfoldable pub decode_rlwinm : Handler
decode_rlwinm s inst =
    do_rlwinm s (inst_rd inst) (inst_ra inst) (inst_rb inst) (inst_mb inst) (inst_me inst)
      (inst_rc inst)

unfoldable pub decode_rlwnm : Handler
decode_rlwnm s inst =
    do_rlwnm s (inst_rd inst) (inst_ra inst) (inst_rb inst) (inst_mb inst) (inst_me inst)
      (inst_rc inst)

unfoldable pub decode_ori : Handler
decode_ori s inst = ori_common s (inst_rd inst) (inst_ra inst) (inst_d inst)

unfoldable pub decode_oris : Handler
decode_oris s inst = ori_common s (inst_rd inst) (inst_ra inst) (inst_d inst * 2 ^ 16)

unfoldable pub decode_xori : Handler
decode_xori s inst = xori_common s (inst_rd inst) (inst_ra inst) (inst_d inst)

unfoldable pub decode_xoris : Handler
decode_xoris s inst = xori_common s (inst_rd inst) (inst_ra inst) (inst_d inst * 2 ^ 16)

unfoldable pub decode_andi : Handler
decode_andi s inst = andi_common s (inst_rd inst) (inst_ra inst) (inst_d inst)

unfoldable pub decode_andis : Handler
decode_andis s inst = andi_common s (inst_rd inst) (inst_ra inst) (inst_d inst * 2 ^ 16)

unfoldable pub decode_lwz : Handler
decode_lwz s inst = (do_basic_load s word (inst_rd inst) (inst_ra inst) (inst_d inst)).1.1

unfoldable pub decode_lwzu : Handler
decode_lwzu s inst = (do_basic_load_update s word (inst_rd inst) (inst_ra inst) (inst_d inst)).1

unfoldable pub decode_lbz : Handler
decode_lbz s inst = (do_basic_load s byte (inst_rd inst) (inst_ra inst) (inst_d inst)).1.1

unfoldable pub decode_lbzu : Handler
decode_lbzu s inst = (do_basic_load_update s byte (inst_rd inst) (inst_ra inst) (inst_d inst)).1

unfoldable pub decode_stw : Handler
decode_stw s inst = (do_basic_store s word (inst_rd inst) (inst_ra inst) (inst_d inst)).1.1

unfoldable pub decode_stwu : Handler
decode_stwu s inst = do_basic_store_update s word (inst_rd inst) (inst_ra inst) (inst_d inst)

unfoldable pub decode_stb : Handler
decode_stb s inst = (do_basic_store s byte (inst_rd inst) (inst_ra inst) (inst_d inst)).1.1

unfoldable pub decode_stbu : Handler
decode_stbu s inst = do_basic_store_update s byte (inst_rd inst) (inst_ra inst) (inst_d inst)

unfoldable pub decode_lhz : Handler
decode_lhz s inst = (do_basic_load s half (inst_rd inst) (inst_ra inst) (inst_d inst)).1.1

unfoldable pub decode_lhzu : Handler
decode_lhzu s inst = (do_basic_load_update s half (inst_rd inst) (inst_ra inst) (inst_d inst)).1

unfoldable pub decode_lha : Handler
decode_lha s inst = (do_basic_load_signext s half (inst_rd inst) (inst_ra inst) (inst_d inst)).1

unfoldable pub decode_lhau : Handler
decode_lhau s inst =
    (do_basic_load_signext_update s half (inst_rd inst) (inst_ra inst) (inst_d inst)).1

unfoldable pub decode_sth : Handler
decode_sth s inst = (do_basic_store s half (inst_rd inst) (inst_ra inst) (inst_d inst)).1.1

unfoldable pub decode_sthu : Handler
decode_sthu s inst = do_basic_store_update s half (inst_rd inst) (inst_ra inst) (inst_d inst)

unfoldable pub decode_lmw : Handler
decode_lmw s inst = do_lmw s (inst_rd inst) (inst_ra inst) (inst_d inst)

unfoldable pub decode_stmw : Handler
decode_stmw s inst = do_stmw s (inst_rd inst) (inst_ra inst) (inst_d inst)

unfoldable pub decode_bc : Handler
decode_bc s inst =
    do_bc s (inst_rd inst) (inst_ra inst) (inst_bd inst) (inst_aa inst) (inst_rc inst)

unfoldable pub decode_branch : Handler
decode_branch s inst = do_branch s (inst_li inst) (inst_aa inst) (inst_rc inst)

unfoldable pub decode_sc : Handler
decode_sc s inst =
    if nz (bit_and inst 0x03ff_fffd) || not (nz (bit_and inst 2))
    then exception_fire s exception_program
    else set_spr (exception_fire s exception_syscall) idx_srr0 (u32 (s.pc + 4))

-- Returns from the decoder where the forced-zero bit or the L bit is set.
unfoldable pub decode_cmpli : Handler
decode_cmpli s inst =
    reserved s (nz (bit_and (inst_rd inst) 3))
      (λ t. next_pc (do_cmpli t (shr (inst_rd inst) 2) (inst_ra inst) (inst_d inst)))

unfoldable pub decode_cmpi : Handler
decode_cmpi s inst =
    reserved s (nz (bit_and (inst_rd inst) 3))
      (λ t. next_pc (do_cmpi t (shr (inst_rd inst) 2) (inst_ra inst) (inst_d inst)))

-- stfsu and stfdu: returns where rA is 0.
unfoldable pub decode_stfu : Handler → Handler
decode_stfu fp s inst = reserved s (inst_ra inst == 0) (λ t. next_pc (fp t inst))

-- The cases of the switch on integers and on the flow of control.
unfoldable pub immediate_cases : List (ℕ × Handler)
immediate_cases =
    (3, breaks decode_twi)
    ∷ (7, breaks decode_mulli)
    ∷ (8, breaks decode_subfic)
    ∷ (12, breaks decode_addic)
    ∷ (13, breaks decode_addic_rc)
    ∷ (14, breaks decode_addi)
    ∷ (15, breaks decode_addis)
    ∷ (20, breaks decode_rlwimi)
    ∷ (21, breaks decode_rlwinm)
    ∷ (23, breaks decode_rlwnm)
    ∷ (24, breaks decode_ori)
    ∷ (25, breaks decode_oris)
    ∷ (26, breaks decode_xori)
    ∷ (27, breaks decode_xoris)
    ∷ (28, breaks decode_andi)
    ∷ (29, breaks decode_andis)
    ∷ (16, breaks decode_bc)
    ∷ (18, breaks decode_branch)
    ∷ (10, decode_cmpli)
    ∷ (11, decode_cmpi)
    ∷ (17, breaks decode_sc)
    ∷ []

-- Its cases that load and store integers.
unfoldable pub memory_cases : List (ℕ × Handler)
memory_cases =
    (32, breaks decode_lwz)
    ∷ (33, breaks decode_lwzu)
    ∷ (34, breaks decode_lbz)
    ∷ (35, breaks decode_lbzu)
    ∷ (36, breaks decode_stw)
    ∷ (37, breaks decode_stwu)
    ∷ (38, breaks decode_stb)
    ∷ (39, breaks decode_stbu)
    ∷ (40, breaks decode_lhz)
    ∷ (41, breaks decode_lhzu)
    ∷ (42, breaks decode_lha)
    ∷ (43, breaks decode_lhau)
    ∷ (44, breaks decode_sth)
    ∷ (45, breaks decode_sthu)
    ∷ (46, breaks decode_lmw)
    ∷ (47, breaks decode_stmw)
    ∷ []
