-- ===== src/Arith/Sums.antt =====
-- The results, carries and overflows of the additions and subtractions of src/instr/arith.c.
use libppcemu.Prelude.{
  ℕ, ◌+◌, ◌-◌, ◌^◌, ◌<◌, false, leb, u32, sub32, not32, sext16, bit, signed32, pos, negsuc, ◌+ℤ◌,
  ◌-ℤ◌, none, some,
}
use libppcemu.State.{State}
use libppcemu.State.Words.{HasWords}
use libppcemu.Spr.{idx_xer}
use libppcemu.Cr.{int_of}
use libppcemu.Arith.{
  do_add, do_addc, do_adde, do_addze, do_addme, do_addic, do_subf, do_neg, do_subfic, do_subfc,
  do_subfe, do_subfme, do_subfze,
}
use libppcemu.Arith.Overflow.{out_of_s32}
use libppcemu.Arith.Effect.{Effect}
use libppcemu.Arith.Plus.{do_add_lem, do_addc_lem, do_adde_lem, do_addze_lem, do_addme_lem}
use libppcemu.Arith.Minus.{
  do_subf_lem, do_neg_lem, do_subfc_lem, do_subfe_lem, do_subfze_lem, do_subfme_lem,
}
use libppcemu.Arith.Immediate.{do_addic_lem, do_subfic_lem}

module _ (s : State) (words : HasWords s) (rd ra rb oe rc i k : ℕ) (l : k < 32) where
  -- Where all registers hold words, each addition leaves its sum modulo 2^32 in rD alone: of two
  -- registers, of those and XER[CA], of one and XER[CA], and of one and XER[CA] less 1. All but
  -- `add` set XER[CA] to the carry out of the unsigned sum. With OE set, XER[OV] tells, and XER[SO]
  -- keeps, whether the signed sum is no word; with Rc set, CR field 0 records the result. Of the 32
  -- digits of XER and of CR, and of the other registers of both files, no other one changes.
  pub additions :
      let a = s.gpr ra in
      let b = s.gpr rb in
      let c = int_of (bit (s.sprs idx_xer) 29) in
      let za = signed32 a in
      let zb = signed32 b in
      Effect s (do_add s rd ra rb oe rc) rd oe rc (u32 (a + b)) none (out_of_s32 (za +ℤ zb)) i k
      × Effect s
          (do_addc s rd ra rb oe rc)
          rd
          oe
          rc
          (u32 (a + b))
          (some (leb (2 ^ 32) (a + b)))
          (out_of_s32 (za +ℤ zb))
          i
          k
      × Effect s
          (do_adde s rd ra rb oe rc)
          rd
          oe
          rc
          (u32 (a + b + c))
          (some (leb (2 ^ 32) (a + b + c)))
          (out_of_s32 (za +ℤ zb +ℤ pos c))
          i
          k
      × Effect s
          (do_addze s rd ra oe rc)
          rd
          oe
          rc
          (u32 (a + c))
          (some (leb (2 ^ 32) (a + c)))
          (out_of_s32 (za +ℤ pos c))
          i
          k
      × Effect s
          (do_addme s rd ra oe rc)
          rd
          oe
          rc
          (u32 (a + c + 0xffff_ffff))
          (some (leb 1 (a + c)))
          (out_of_s32 (za -ℤ pos (1 - c)))
          i
          k
  additions = (
    do_add_lem s words rd oe rc i k l ra rb,
    do_addc_lem s words rd oe rc i k l ra rb,
    do_adde_lem s words rd oe rc i k l ra rb,
    do_addze_lem s words rd oe rc i k l ra rb,
    do_addme_lem s words rd oe rc i k l ra rb,
  )

  -- Where all registers hold words, each subtraction leaves its difference modulo 2^32 in rD alone:
  -- `rB - rA`, `-rA`, and `rB`, 0 or -1 less `rA` and the borrow that a clear XER[CA] stands for.
  -- All but `subf` and `neg` set XER[CA] where the unsigned difference borrows nothing. With OE
  -- set, XER[OV] tells, and XER[SO] keeps, whether the signed difference is no word; with Rc set,
  -- CR field 0 records the result. Of the 32 digits of XER and of CR, and of the other registers of
  -- both files, no other one changes.
  pub subtractions :
      let a = s.gpr ra in
      let b = s.gpr rb in
      let n = 1 - int_of (bit (s.sprs idx_xer) 29) in
      let za = signed32 a in
      let zb = signed32 b in
      Effect s (do_subf s rd ra rb oe rc) rd oe rc (sub32 b a) none (out_of_s32 (zb -ℤ za)) i k
      × Effect s (do_neg s rd ra oe rc) rd oe rc (sub32 0 a) none (out_of_s32 (pos 0 -ℤ za)) i k
      × Effect s
          (do_subfc s rd ra rb oe rc)
          rd
          oe
          rc
          (sub32 b a)
          (some (leb a b))
          (out_of_s32 (zb -ℤ za))
          i
          k
      × Effect s
          (do_subfe s rd ra rb oe rc)
          rd
          oe
          rc
          (u32 (b + 2 ^ 32 - a + 2 ^ 32 - n))
          (some (leb (a + n) b))
          (out_of_s32 (zb -ℤ za -ℤ pos n))
          i
          k
      × Effect s
          (do_subfze s rd ra oe rc)
          rd
          oe
          rc
          (u32 (2 ^ 32 - a + 2 ^ 32 - n))
          (some (leb (a + n) 0))
          (out_of_s32 (pos 0 -ℤ za -ℤ pos n))
          i
          k
      × Effect s
          (do_subfme s rd ra oe rc)
          rd
          oe
          rc
          (u32 (not32 a + 0xffff_ffff + int_of (bit (s.sprs idx_xer) 29)))
          (some (leb (a + n) 0xffff_ffff))
          (out_of_s32 (negsuc 0 -ℤ za -ℤ pos n))
          i
          k
  subtractions = (
    do_subf_lem s words rd oe rc i k l ra rb,
    do_neg_lem s words rd oe rc i k l ra rb,
    do_subfc_lem s words rd oe rc i k l ra rb,
    do_subfe_lem s words rd oe rc i k l ra rb,
    do_subfze_lem s words rd oe rc i k l ra rb,
    do_subfme_lem s words rd oe rc i k l ra rb,
  )

  -- Where all registers hold words, `addic` leaves the sum of `rA` and the sign-extended immediate
  -- in rD alone and `subfic` the immediate less `rA`, modulo 2^32. XER[CA] becomes the carry out of
  -- the unsigned sum, or is set where the unsigned difference borrows nothing. CR field 0 records
  -- the result of `addic` with Rc set. Of the 32 digits of XER and of CR, and of the other
  -- registers of both files, no other one changes.
  immediates :
      (simm : ℕ)
      → let a = s.gpr ra in
        let imm = sext16 simm in
        Effect s
          (do_addic s rd ra simm rc)
          rd
          0
          rc
          (u32 (a + imm))
          (some (leb (2 ^ 32) (a + imm)))
          false
          i
          k
        × Effect s (do_subfic s rd ra simm) rd 0 0 (sub32 imm a) (some (leb a imm)) false i k
  immediates simm =
      (do_addic_lem s words rd ra simm rc i k l, do_subfic_lem s words rd ra simm rc i k l)
