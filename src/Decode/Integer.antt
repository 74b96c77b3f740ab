-- ===== src/Decode/Integer.antt =====
-- The wrappers of src/decode.c for integer arithmetic and logic.
use libppcemu.Prelude.{ℕ, nz, List, [], ◌∷◌}
use libppcemu.Decode.{Handler, inst_rc, inst_rd, inst_ra, inst_rb, inst_oe, reserved}
use libppcemu.Arith.{
  do_add, do_addc, do_adde, do_addze, do_addme, do_subf, do_neg, do_subfc, do_subfe, do_subfme,
  do_subfze,
}
use libppcemu.MulDiv.{do_divw, do_divwu, do_mulhw, do_mulhwu, do_mullw}
use libppcemu.Bitwise.{
  do_xor, do_or, do_orc, do_and, do_andc, do_nand, do_nor, do_cntlzw, do_slw, do_sraw, do_srawi,
  do_srw, do_extsh, do_extsb, do_eqv,
}

unfoldable pub decode_xor : Handler
decode_xor s inst = do_xor s (inst_rd inst) (inst_ra inst) (inst_rb inst) (inst_rc inst)

unfoldable pub decode_or : Handler
decode_or s inst = do_or s (inst_rd inst) (inst_ra inst) (inst_rb inst) (inst_rc inst)

unfoldable pub decode_orc : Handler
decode_orc s inst = do_orc s (inst_rd inst) (inst_ra inst) (inst_rb inst) (inst_rc inst)

unfoldable pub decode_and : Handler
decode_and s inst = do_and s (inst_rd inst) (inst_ra inst) (inst_rb inst) (inst_rc inst)

unfoldable pub decode_andc : Handler
decode_andc s inst = do_andc s (inst_rd inst) (inst_ra inst) (inst_rb inst) (inst_rc inst)

unfoldable pub decode_nand : Handler
decode_nand s inst = do_nand s (inst_rd inst) (inst_ra inst) (inst_rb inst) (inst_rc inst)

unfoldable pub decode_neg : Handler
decode_neg s inst =
    reserved s (nz (inst_rb inst))
      (λ u. do_neg u (inst_rd inst) (inst_ra inst) (inst_oe inst) (inst_rc inst))

unfoldable pub decode_nor : Handler
decode_nor s inst = do_nor s (inst_rd inst) (inst_ra inst) (inst_rb inst) (inst_rc inst)

unfoldable pub decode_cntlzw : Handler
decode_cntlzw s inst =
    reserved s (nz (inst_rb inst)) (λ u. do_cntlzw u (inst_rd inst) (inst_ra inst) (inst_rc inst))

unfoldable pub decode_slw : Handler
decode_slw s inst = do_slw s (inst_rd inst) (inst_ra inst) (inst_rb inst) (inst_rc inst)

unfoldable pub decode_sraw : Handler
decode_sraw s inst = do_sraw s (inst_rd inst) (inst_ra inst) (inst_rb inst) (inst_rc inst)

unfoldable pub decode_srawi : Handler
decode_srawi s inst = do_srawi s (inst_rd inst) (inst_ra inst) (inst_rb inst) (inst_rc inst)

unfoldable pub decode_srw : Handler
decode_srw s inst = do_srw s (inst_rd inst) (inst_ra inst) (inst_rb inst) (inst_rc inst)

unfoldable pub decode_extsh : Handler
decode_extsh s inst =
    reserved s (nz (inst_rb inst)) (λ u. do_extsh u (inst_rd inst) (inst_ra inst) (inst_rc inst))

unfoldable pub decode_extsb : Handler
decode_extsb s inst =
    reserved s (nz (inst_rb inst)) (λ u. do_extsb u (inst_rd inst) (inst_ra inst) (inst_rc inst))

unfoldable pub decode_eqv : Handler
decode_eqv s inst = do_eqv s (inst_rd inst) (inst_ra inst) (inst_rb inst) (inst_rc inst)

unfoldable pub decode_subf : Handler
decode_subf s inst =
    do_subf s (inst_rd inst) (inst_ra inst) (inst_rb inst) (inst_oe inst) (inst_rc inst)

unfoldable pub decode_subfc : Handler
decode_subfc s inst =
    do_subfc s (inst_rd inst) (inst_ra inst) (inst_rb inst) (inst_oe inst) (inst_rc inst)

unfoldable pub decode_subfe : Handler
decode_subfe s inst =
    do_subfe s (inst_rd inst) (inst_ra inst) (inst_rb inst) (inst_oe inst) (inst_rc inst)

unfoldable pub decode_subfze : Handler
decode_subfze s inst = do_subfze s (inst_rd inst) (inst_ra inst) (inst_oe inst) (inst_rc inst)

unfoldable pub decode_subfme : Handler
decode_subfme s inst = do_subfme s (inst_rd inst) (inst_ra inst) (inst_oe inst) (inst_rc inst)

unfoldable pub decode_add : Handler
decode_add s inst =
    do_add s (inst_rd inst) (inst_ra inst) (inst_rb inst) (inst_oe inst) (inst_rc inst)

unfoldable pub decode_addc : Handler
decode_addc s inst =
    do_addc s (inst_rd inst) (inst_ra inst) (inst_rb inst) (inst_oe inst) (inst_rc inst)

unfoldable pub decode_adde : Handler
decode_adde s inst =
    do_adde s (inst_rd inst) (inst_ra inst) (inst_rb inst) (inst_oe inst) (inst_rc inst)

unfoldable pub decode_addze : Handler
decode_addze s inst =
    reserved s (nz (inst_rb inst))
      (λ u. do_addze u (inst_rd inst) (inst_ra inst) (inst_oe inst) (inst_rc inst))

unfoldable pub decode_addme : Handler
decode_addme s inst =
    reserved s (nz (inst_rb inst))
      (λ u. do_addme u (inst_rd inst) (inst_ra inst) (inst_oe inst) (inst_rc inst))

unfoldable pub decode_divw : Handler
decode_divw s inst =
    do_divw s (inst_rd inst) (inst_ra inst) (inst_rb inst) (inst_oe inst) (inst_rc inst)

unfoldable pub decode_divwu : Handler
decode_divwu s inst =
    do_divwu s (inst_rd inst) (inst_ra inst) (inst_rb inst) (inst_oe inst) (inst_rc inst)

unfoldable pub decode_mulhwu : Handler
decode_mulhwu s inst = do_mulhwu s (inst_rd inst) (inst_ra inst) (inst_rb inst) (inst_rc inst)

unfoldable pub decode_mulhw : Handler
decode_mulhw s inst = do_mulhw s (inst_rd inst) (inst_ra inst) (inst_rb inst) (inst_rc inst)

unfoldable pub decode_mullw : Handler
decode_mullw s inst =
    do_mullw s (inst_rd inst) (inst_ra inst) (inst_rb inst) (inst_oe inst) (inst_rc inst)

-- Their rows in `opc31_handlers`.
unfoldable pub integer_handlers : List (ℕ × Handler)
integer_handlers =
    (8, decode_subfc)
    ∷ (10, decode_addc)
    ∷ (11, decode_mulhwu)
    ∷ (24, decode_slw)
    ∷ (26, decode_cntlzw)
    ∷ (28, decode_and)
    ∷ (40, decode_subf)
    ∷ (60, decode_andc)
    ∷ (75, decode_mulhw)
    ∷ (104, decode_neg)
    ∷ (124, decode_nor)
    ∷ (136, decode_subfe)
    ∷ (138, decode_adde)
    ∷ (200, decode_subfze)
    ∷ (202, decode_addze)
    ∷ (232, decode_subfme)
    ∷ (234, decode_addme)
    ∷ (235, decode_mullw)
    ∷ (266, decode_add)
    ∷ (284, decode_eqv)
    ∷ (316, decode_xor)
    ∷ (412, decode_orc)
    ∷ (444, decode_or)
    ∷ (459, decode_divwu)
    ∷ (476, decode_nand)
    ∷ (491, decode_divw)
    ∷ (520, decode_subfc)
    ∷ (522, decode_addc)
    ∷ (523, decode_mulhwu)
    ∷ (536, decode_srw)
    ∷ (552, decode_subf)
    ∷ (616, decode_neg)
    ∷ (648, decode_subfe)
    ∷ (650, decode_adde)
    ∷ (712, decode_subfze)
    ∷ (714, decode_addze)
    ∷ (744, decode_subfme)
    ∷ (746, decode_addme)
    ∷ (747, decode_mullw)
    ∷ (778, decode_add)
    ∷ (792, decode_sraw)
    ∷ (824, decode_srawi)
    ∷ (922, decode_extsh)
    ∷ (954, decode_extsb)
    ∷ (971, decode_divwu)
    ∷ (1003, decode_divw)
    ∷ []
