-- ===== src/Decode/Paired.antt =====
-- The wrappers and the table of src/decode.c for the paired-single opcode 4.
use libppcemu.Prelude.{ℕ, ◌%◌, bit_and, ◌||◌, nz, List, [], ◌∷◌, shr}
use libppcemu.Branch.{no_rc}
use libppcemu.Float.{HostFloat}
use libppcemu.Paired.{
  do_ps_mr, do_ps_merge00, do_ps_merge01, do_ps_merge10, do_ps_merge11, do_ps_neg, do_ps_cmpo0,
}
use libppcemu.Paired.Arith.{
  do_ps_sum0, do_ps_sum1, do_ps_muls0, do_ps_muls1, do_ps_madds0, do_ps_madds1, do_ps_mul,
  do_ps_madd, do_ps_msub, do_ps_sub, do_ps_add, do_ps_nmsub, do_ps_nmadd, do_ps_rsqrte,
}
use libppcemu.Decode.{
  Handler, inst_rd, inst_ra, inst_rb, inst_xo, inst_crfd, do_illegal, reserved, find_row,
}
use libppcemu.Decode.Float.{inst_frc}

unfoldable pub inst_w : ℕ → ℕ
inst_w inst = shr (bit_and inst 0x8000) 15

unfoldable pub inst_psq : ℕ → ℕ
inst_psq inst = shr (bit_and inst 0x7000) 12

unfoldable pub inst_ps_d : ℕ → ℕ
inst_ps_d inst = bit_and inst 0x0fff

unfoldable pub decode_ps_sum0 : HostFloat → Handler
decode_ps_sum0 host s inst =
    do_ps_sum0 host s (inst_rd inst) (inst_ra inst) (inst_rb inst) (inst_frc inst)

unfoldable pub decode_ps_sum1 : HostFloat → Handler
decode_ps_sum1 host s inst =
    do_ps_sum1 host s (inst_rd inst) (inst_ra inst) (inst_rb inst) (inst_frc inst)

unfoldable pub decode_ps_muls0 : HostFloat → Handler
decode_ps_muls0 host s inst =
    reserved s (nz (inst_rb inst))
      (λ t. do_ps_muls0 host t (inst_rd inst) (inst_ra inst) (inst_frc inst))

unfoldable pub decode_ps_muls1 : HostFloat → Handler
decode_ps_muls1 host s inst =
    reserved s (nz (inst_rb inst))
      (λ t. do_ps_muls1 host t (inst_rd inst) (inst_ra inst) (inst_frc inst))

unfoldable pub decode_ps_madds0 : HostFloat → Handler
decode_ps_madds0 host s inst =
    do_ps_madds0 host s (inst_rd inst) (inst_ra inst) (inst_rb inst) (inst_frc inst)

unfoldable pub decode_ps_madds1 : HostFloat → Handler
decode_ps_madds1 host s inst =
    do_ps_madds1 host s (inst_rd inst) (inst_ra inst) (inst_rb inst) (inst_frc inst)

unfoldable pub decode_ps_sub : HostFloat → Handler
decode_ps_sub host s inst =
    reserved s (nz (inst_frc inst))
      (λ t. do_ps_sub host t (inst_rd inst) (inst_ra inst) (inst_rb inst))

unfoldable pub decode_ps_add : HostFloat → Handler
decode_ps_add host s inst =
    reserved s (nz (inst_frc inst))
      (λ t. do_ps_add host t (inst_rd inst) (inst_ra inst) (inst_rb inst))

unfoldable pub decode_ps_mul : HostFloat → Handler
decode_ps_mul host s inst =
    reserved s (nz (inst_rb inst))
      (λ t. do_ps_mul host t (inst_rd inst) (inst_ra inst) (inst_frc inst))

unfoldable pub decode_ps_rsqrte : HostFloat → Handler
decode_ps_rsqrte host s inst =
    reserved s (nz (inst_ra inst) || nz (inst_frc inst))
      (λ t. do_ps_rsqrte host t (inst_rd inst) (inst_rb inst))

unfoldable pub decode_ps_msub : HostFloat → Handler
decode_ps_msub host s inst =
    do_ps_msub host s (inst_rd inst) (inst_ra inst) (inst_rb inst) (inst_frc inst)

unfoldable pub decode_ps_madd : HostFloat → Handler
decode_ps_madd host s inst =
    do_ps_madd host s (inst_rd inst) (inst_ra inst) (inst_rb inst) (inst_frc inst)

unfoldable pub decode_ps_nmsub : HostFloat → Handler
decode_ps_nmsub host s inst =
    do_ps_nmsub host s (inst_rd inst) (inst_ra inst) (inst_rb inst) (inst_frc inst)

unfoldable pub decode_ps_nmadd : HostFloat → Handler
decode_ps_nmadd host s inst =
    do_ps_nmadd host s (inst_rd inst) (inst_ra inst) (inst_rb inst) (inst_frc inst)

unfoldable pub decode_ps_cmpo0 : HostFloat → Handler
decode_ps_cmpo0 host s inst =
    reserved s (nz (bit_and (inst_rd inst) 3))
      (λ t. no_rc t inst (λ u. do_ps_cmpo0 host u (inst_crfd inst) (inst_ra inst) (inst_rb inst)))

unfoldable pub decode_ps_neg : Handler
decode_ps_neg s inst =
    reserved s (nz (inst_ra inst)) (λ t. do_ps_neg t (inst_rd inst) (inst_rb inst))

unfoldable pub decode_ps_mr : Handler
decode_ps_mr s inst = reserved s (nz (inst_ra inst)) (λ t. do_ps_mr t (inst_rd inst) (inst_rb inst))

unfoldable pub decode_ps_merge00 : Handler
decode_ps_merge00 s inst = do_ps_merge00 s (inst_rd inst) (inst_ra inst) (inst_rb inst)

unfoldable pub decode_ps_merge01 : Handler
decode_ps_merge01 s inst = do_ps_merge01 s (inst_rd inst) (inst_ra inst) (inst_rb inst)

unfoldable pub decode_ps_merge10 : Handler
decode_ps_merge10 s inst = do_ps_merge10 s (inst_rd inst) (inst_ra inst) (inst_rb inst)

unfoldable pub decode_ps_merge11 : Handler
decode_ps_merge11 s inst = do_ps_merge11 s (inst_rd inst) (inst_ra inst) (inst_rb inst)

-- The rows of `opc4_handlers` but dcbz_l: those of one index, those that repeat for each index with the same
-- last six digits, and those that repeat with the last five.
unfoldable pub exact_rows : List (ℕ × Handler)
exact_rows =
    (72, decode_ps_mr)
    ∷ (528, decode_ps_merge00)
    ∷ (560, decode_ps_merge01)
    ∷ (592, decode_ps_merge10)
    ∷ (624, decode_ps_merge11)
    ∷ []

unfoldable pub six_digit_rows : HostFloat → List (ℕ × Handler)
six_digit_rows host = (32, decode_ps_cmpo0 host) ∷ (40, decode_ps_neg) ∷ []

unfoldable pub five_digit_rows : HostFloat → List (ℕ × Handler)
five_digit_rows host =
    (10, decode_ps_sum0 host)
    ∷ (11, decode_ps_sum1 host)
    ∷ (12, decode_ps_muls0 host)
    ∷ (13, decode_ps_muls1 host)
    ∷ (14, decode_ps_madds0 host)
    ∷ (15, decode_ps_madds1 host)
    ∷ (20, decode_ps_sub host)
    ∷ (21, decode_ps_add host)
    ∷ (25, decode_ps_mul host)
    ∷ (26, decode_ps_rsqrte host)
    ∷ (28, decode_ps_msub host)
    ∷ (29, decode_ps_madd host)
    ∷ (30, decode_ps_nmsub host)
    ∷ (31, decode_ps_nmadd host)
    ∷ []

unfoldable pub opc4_row : HostFloat → ℕ → Handler
opc4_row host i =
    find_row
      (find_row (find_row do_illegal (five_digit_rows host) (i % 32)) (six_digit_rows host)
        (i % 64))
      exact_rows i

unfoldable pub decode_opc4_ps : HostFloat → Handler
decode_opc4_ps host s inst = opc4_row host (inst_xo inst) s inst
