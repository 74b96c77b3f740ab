-- ===== src/Decode/Falls.antt =====
-- The integer instructions of src/instr/arith.c and src/instr/bitwise.c leave the flow of control alone.
use libppcemu.Prelude.{ℕ, ◌≡◌, refl, arith, Bool, true, false, if◌then◌else◌}
use libppcemu.State.{State, set_gpr}
use libppcemu.Cr.{cr_set_field, update_cr0}
use libppcemu.Arith.{
  set_xer_ca, set_xer_ov, record_oe, record_rc, carrying, do_add, do_addc, do_adde, do_addze,
  do_addme, do_subf, do_neg, do_subfc, do_subfe, do_subfme, do_subfze,
}
use libppcemu.MulDiv.{do_divw, do_divwu, do_mulhw, do_mulhwu, do_mullw}
use libppcemu.Bitwise.{
  shift_right_algebraic, do_xor, do_or, do_orc, do_and, do_andc, do_nand, do_nor, do_eqv, do_cntlzw,
  do_extsh, do_extsb, do_slw, do_srw, do_sraw, do_srawi,
}

-- An instruction that leaves the program counter, MSR and the mark of a branch alone.
pub record Falls (s t : State) : Type 0 where
  pub pc_kept : t.pc ≡ s.pc
  pub branched_kept : t.branched ≡ s.branched
  pub msr_kept : t.msr ≡ s.msr

keeps : (s : State) → Falls s s
keeps s = record { pc_kept = refl; branched_kept = refl; msr_kept = refl }

gpr-Falls : (s : State) (r v : ℕ) → Falls s (set_gpr s r v)
gpr-Falls s r v = record { pc_kept = refl; branched_kept = refl; msr_kept = refl }

-- The ends of the instructions keep them too.
rc-Falls : (s t : State) (rc r : ℕ) → Falls s t → Falls s (record_rc t rc r)
unfolding update_cr0 cr_set_field
rc-Falls s t rc r f = record {
  pc_kept = ground (arith, f.pc_kept);
  branched_kept = ground (arith, f.branched_kept);
  msr_kept = ground (arith, f.msr_kept);
}

oe-Falls : (s t : State) (oe : ℕ) (ov : Bool) → Falls s t → Falls s (record_oe t oe ov)
unfolding set_xer_ov
oe-Falls s t oe ov f = record {
  pc_kept = ground (arith, f.pc_kept);
  branched_kept = ground (arith, f.branched_kept);
  msr_kept = ground (arith, f.msr_kept);
}

ca-Falls : (s t : State) (ca : Bool) → Falls s t → Falls s (set_xer_ca t ca)
unfolding set_xer_ca
ca-Falls s t ca f = record {
  pc_kept = f.pc_kept;
  branched_kept = f.branched_kept;
  msr_kept = f.msr_kept;
}

if-Falls : (s t u : State) (b : Bool) → Falls s t → Falls s u → Falls s (if b then t else u)
if-Falls s t u true f g = f
if-Falls s t u false f g = g

-- The shapes of the integer instructions.
logic-Falls : (s : State) (v rc r : ℕ) → Falls s (record_rc (set_gpr s r v) rc r)
logic-Falls s v rc r = rc-Falls s _ rc r (gpr-Falls s r v)

with_oe-Falls :
    (s : State) (v oe rc r : ℕ) (ov : Bool)
    → Falls s (record_rc (record_oe (set_gpr s r v) oe ov) rc r)
with_oe-Falls s v oe rc r ov = rc-Falls s _ rc r (oe-Falls s _ oe ov (gpr-Falls s r v))

with_carry-Falls : (s : State) (r a b v oe rc : ℕ) → Falls s (carrying s r a b v oe rc)
unfolding carrying
with_carry-Falls s r a b v oe rc =
    rc-Falls s _ rc r (oe-Falls s _ oe _ (ca-Falls s _ _ (gpr-Falls s r _)))

with_quotient-Falls :
    (s : State) (v oe rc r : ℕ) (b ov : Bool)
    → Falls s (record_rc (record_oe (if b then set_gpr s r v else s) oe ov) rc r)
with_quotient-Falls s v oe rc r b ov =
    rc-Falls s _ rc r (oe-Falls s _ oe ov (if-Falls s _ s b (gpr-Falls s r v) (keeps s)))

with_either-Falls :
    (s : State) (v w rc r : ℕ) (b : Bool)
    → Falls s (record_rc (if b then set_gpr s r v else set_gpr s r w) rc r)
with_either-Falls s v w rc r b =
    rc-Falls s _ rc r (if-Falls s _ _ b (gpr-Falls s r v) (gpr-Falls s r w))

with_shift-Falls : (s : State) (x r n rc : ℕ) → Falls s (shift_right_algebraic s x r n rc)
unfolding shift_right_algebraic
with_shift-Falls s x r n rc = rc-Falls s _ rc r (ca-Falls s _ _ (gpr-Falls s r _))

pub do_xor-Falls : (s : State) (rs ra rb rc : ℕ) → Falls s (do_xor s rs ra rb rc)
unfolding do_xor
do_xor-Falls s rs ra rb rc = logic-Falls s _ rc ra

pub do_or-Falls : (s : State) (rs ra rb rc : ℕ) → Falls s (do_or s rs ra rb rc)
unfolding do_or
do_or-Falls s rs ra rb rc = logic-Falls s _ rc ra

pub do_orc-Falls : (s : State) (rs ra rb rc : ℕ) → Falls s (do_orc s rs ra rb rc)
unfolding do_orc
do_orc-Falls s rs ra rb rc = logic-Falls s _ rc ra

pub do_and-Falls : (s : State) (rs ra rb rc : ℕ) → Falls s (do_and s rs ra rb rc)
unfolding do_and
do_and-Falls s rs ra rb rc = logic-Falls s _ rc ra

pub do_andc-Falls : (s : State) (rs ra rb rc : ℕ) → Falls s (do_andc s rs ra rb rc)
unfolding do_andc
do_andc-Falls s rs ra rb rc = logic-Falls s _ rc ra

pub do_nand-Falls : (s : State) (rs ra rb rc : ℕ) → Falls s (do_nand s rs ra rb rc)
unfolding do_nand
do_nand-Falls s rs ra rb rc = logic-Falls s _ rc ra

pub do_nor-Falls : (s : State) (rs ra rb rc : ℕ) → Falls s (do_nor s rs ra rb rc)
unfolding do_nor
do_nor-Falls s rs ra rb rc = logic-Falls s _ rc ra

pub do_eqv-Falls : (s : State) (rs ra rb rc : ℕ) → Falls s (do_eqv s rs ra rb rc)
unfolding do_eqv
do_eqv-Falls s rs ra rb rc = logic-Falls s _ rc ra

pub do_cntlzw-Falls : (s : State) (rs ra rc : ℕ) → Falls s (do_cntlzw s rs ra rc)
unfolding do_cntlzw
do_cntlzw-Falls s rs ra rc = logic-Falls s _ rc ra

pub do_extsh-Falls : (s : State) (rs ra rc : ℕ) → Falls s (do_extsh s rs ra rc)
unfolding do_extsh
do_extsh-Falls s rs ra rc = logic-Falls s _ rc ra

pub do_extsb-Falls : (s : State) (rs ra rc : ℕ) → Falls s (do_extsb s rs ra rc)
unfolding do_extsb
do_extsb-Falls s rs ra rc = logic-Falls s _ rc ra

pub do_mulhw-Falls : (s : State) (rd ra rb rc : ℕ) → Falls s (do_mulhw s rd ra rb rc)
unfolding do_mulhw
do_mulhw-Falls s rd ra rb rc = logic-Falls s _ rc rd

pub do_mulhwu-Falls : (s : State) (rd ra rb rc : ℕ) → Falls s (do_mulhwu s rd ra rb rc)
unfolding do_mulhwu
do_mulhwu-Falls s rd ra rb rc = logic-Falls s _ rc rd

pub do_add-Falls : (s : State) (rd ra rb oe rc : ℕ) → Falls s (do_add s rd ra rb oe rc)
unfolding do_add
do_add-Falls s rd ra rb oe rc = with_oe-Falls s _ oe rc rd _

pub do_subf-Falls : (s : State) (rd ra rb oe rc : ℕ) → Falls s (do_subf s rd ra rb oe rc)
unfolding do_subf
do_subf-Falls s rd ra rb oe rc = with_oe-Falls s _ oe rc rd _

pub do_mullw-Falls : (s : State) (rd ra rb oe rc : ℕ) → Falls s (do_mullw s rd ra rb oe rc)
unfolding do_mullw
do_mullw-Falls s rd ra rb oe rc = with_oe-Falls s _ oe rc rd _

pub do_neg-Falls : (s : State) (rd ra oe rc : ℕ) → Falls s (do_neg s rd ra oe rc)
unfolding do_neg
do_neg-Falls s rd ra oe rc = with_oe-Falls s _ oe rc rd _

pub do_addc-Falls : (s : State) (rd ra rb oe rc : ℕ) → Falls s (do_addc s rd ra rb oe rc)
unfolding do_addc
do_addc-Falls s rd ra rb oe rc = with_carry-Falls s rd _ _ _ oe rc

pub do_adde-Falls : (s : State) (rd ra rb oe rc : ℕ) → Falls s (do_adde s rd ra rb oe rc)
unfolding do_adde
do_adde-Falls s rd ra rb oe rc = with_carry-Falls s rd _ _ _ oe rc

pub do_subfc-Falls : (s : State) (rd ra rb oe rc : ℕ) → Falls s (do_subfc s rd ra rb oe rc)
unfolding do_subfc
do_subfc-Falls s rd ra rb oe rc = with_carry-Falls s rd _ _ _ oe rc

pub do_subfe-Falls : (s : State) (rd ra rb oe rc : ℕ) → Falls s (do_subfe s rd ra rb oe rc)
unfolding do_subfe
do_subfe-Falls s rd ra rb oe rc = with_carry-Falls s rd _ _ _ oe rc

pub do_addze-Falls : (s : State) (rd ra oe rc : ℕ) → Falls s (do_addze s rd ra oe rc)
unfolding do_addze
do_addze-Falls s rd ra oe rc = with_carry-Falls s rd _ _ _ oe rc

pub do_addme-Falls : (s : State) (rd ra oe rc : ℕ) → Falls s (do_addme s rd ra oe rc)
unfolding do_addme
do_addme-Falls s rd ra oe rc = with_carry-Falls s rd _ _ _ oe rc

pub do_subfze-Falls : (s : State) (rd ra oe rc : ℕ) → Falls s (do_subfze s rd ra oe rc)
unfolding do_subfze
do_subfze-Falls s rd ra oe rc = with_carry-Falls s rd _ _ _ oe rc

pub do_subfme-Falls : (s : State) (rd ra oe rc : ℕ) → Falls s (do_subfme s rd ra oe rc)
unfolding do_subfme
do_subfme-Falls s rd ra oe rc = with_carry-Falls s rd _ _ _ oe rc

pub do_divw-Falls : (s : State) (rd ra rb oe rc : ℕ) → Falls s (do_divw s rd ra rb oe rc)
unfolding do_divw
do_divw-Falls s rd ra rb oe rc = with_quotient-Falls s _ oe rc rd _ _

pub do_divwu-Falls : (s : State) (rd ra rb oe rc : ℕ) → Falls s (do_divwu s rd ra rb oe rc)
unfolding do_divwu
do_divwu-Falls s rd ra rb oe rc = with_quotient-Falls s _ oe rc rd _ _

pub do_slw-Falls : (s : State) (rs ra rb rc : ℕ) → Falls s (do_slw s rs ra rb rc)
unfolding do_slw
do_slw-Falls s rs ra rb rc = with_either-Falls s _ _ rc ra _

pub do_srw-Falls : (s : State) (rs ra rb rc : ℕ) → Falls s (do_srw s rs ra rb rc)
unfolding do_srw
do_srw-Falls s rs ra rb rc = with_either-Falls s _ _ rc ra _

pub do_sraw-Falls : (s : State) (rs ra rb rc : ℕ) → Falls s (do_sraw s rs ra rb rc)
unfolding do_sraw
do_sraw-Falls s rs ra rb rc = with_shift-Falls s _ ra _ rc

pub do_srawi-Falls : (s : State) (rs ra rb rc : ℕ) → Falls s (do_srawi s rs ra rb rc)
unfolding do_srawi
do_srawi-Falls s rs ra rb rc = with_shift-Falls s _ ra _ rc
