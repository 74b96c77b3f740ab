-- ===== src/Arith/Minus.antt =====
-- The subtractions of src/instr/arith.c as operations on unsigned and signed numbers.
use libppcemu.Prelude.{
  ℕ, ◌+◌, ◌-◌, ◌^◌, ◌<◌, ◌≡◌, arith, bit, leb, u32, sub32, not32, signed32, pos, ◌-ℤ◌, none, some,
  negsuc,
}
use libppcemu.State.{State}
use libppcemu.State.Words.{HasWords}
use libppcemu.Spr.{idx_xer}
use libppcemu.Cr.{int_of}
use libppcemu.Arith.{get_xer_ca, do_subf, do_neg, do_subfc, do_subfe, do_subfme, do_subfze}
use libppcemu.Arith.Overflow.{out_of_s32, add_overflow_lem}
use libppcemu.Arith.Effect.{Effect}
use libppcemu.Arith.Carry.{ca_lem, difference, sub_zero, carrying_lem, plain_lem}

module _ (s : State) (words : HasWords s) (rd oe rc i k : ℕ) (l : k < 32) where
  -- The operands of an instruction with a carry in.
  module _ (ra rb : ℕ) where
    abbrev in_a : ℕ
    in_a = s.gpr ra

    abbrev in_b : ℕ
    in_b = s.gpr rb

    abbrev in_c : ℕ
    in_c = int_of (bit (s.sprs idx_xer) 29)

    in_c-lt : in_c < 2
    in_c-lt = ground arith

    -- `subf`: the difference of two registers.
    pub do_subf_lem :
        Effect s
          (do_subf s rd ra rb oe rc)
          rd
          oe
          rc
          (sub32 in_b in_a)
          none
          (out_of_s32 (signed32 in_b -ℤ signed32 in_a))
          i
          k
    unfolding do_subf
    do_subf_lem =
        let e : u32 (not32 in_a + in_b + 1) ≡ sub32 in_b in_a =
          omega (arith, words.gpr ra, words.gpr rb) in
        rw e (
          plain_lem s words rd oe rc i k l (not32 in_a) in_b (sub32 in_b in_a)
            (out_of_s32 (signed32 in_b -ℤ signed32 in_a)) (omega arith)
            (ground (
              arith,
              add_overflow_lem (not32 in_a) in_b 1,
              words.gpr ra,
              words.gpr rb,
              ca_lem s,
              difference in_a 1 (signed32 in_b) (words.gpr ra),
              sub_zero (signed32 in_b -ℤ signed32 in_a),
            )))

    -- `neg`: the negative of a register.
    pub do_neg_lem :
        Effect s
          (do_neg s rd ra oe rc)
          rd
          oe
          rc
          (sub32 0 in_a)
          none
          (out_of_s32 (pos 0 -ℤ signed32 in_a))
          i
          k
    unfolding do_neg
    do_neg_lem =
        let e : u32 (not32 in_a + 1) ≡ sub32 0 in_a = omega (arith, words.gpr ra, words.gpr rb) in
        rw e (
          plain_lem s words rd oe rc i k l (not32 in_a) 0 (sub32 0 in_a)
            (out_of_s32 (pos 0 -ℤ signed32 in_a)) (omega arith)
            (ground (
              arith,
              add_overflow_lem (not32 in_a) 0 1,
              words.gpr ra,
              words.gpr rb,
              ca_lem s,
              difference in_a 1 (pos 0) (words.gpr ra),
              sub_zero (pos 0 -ℤ signed32 in_a),
            )))

    -- `subfc`: the difference of two registers; the carry is set if the unsigned one borrows nothing.
    pub do_subfc_lem :
        Effect s
          (do_subfc s rd ra rb oe rc)
          rd
          oe
          rc
          (sub32 in_b in_a)
          (some (leb in_a in_b))
          (out_of_s32 (signed32 in_b -ℤ signed32 in_a))
          i
          k
    unfolding do_subfc
    do_subfc_lem =
        carrying_lem s words rd oe rc i k l (not32 in_a) in_b (not32 in_a + in_b + 1)
          (sub32 in_b in_a) (leb in_a in_b) (out_of_s32 (signed32 in_b -ℤ signed32 in_a))
          (ground (arith, ca_lem s, words.gpr ra, words.gpr rb))
          (ground (arith, ca_lem s, words.gpr ra, words.gpr rb))
          (ground (arith, ca_lem s, words.gpr ra, words.gpr rb))
          (ground (
            arith,
            add_overflow_lem (not32 in_a) in_b 1,
            words.gpr ra,
            words.gpr rb,
            ca_lem s,
            difference in_a 1 (signed32 in_b) (words.gpr ra),
            sub_zero (signed32 in_b -ℤ signed32 in_a),
          ))

    -- `subfe`: the difference of two registers, less the borrow that a clear XER[CA] stands for.
    pub do_subfe_lem :
        Effect s
          (do_subfe s rd ra rb oe rc)
          rd
          oe
          rc
          (u32 (in_b + 2 ^ 32 - in_a + 2 ^ 32 - (1 - in_c)))
          (some (leb (in_a + (1 - in_c)) in_b))
          (out_of_s32 (signed32 in_b -ℤ signed32 in_a -ℤ pos (1 - in_c)))
          i
          k
    unfolding do_subfe
    do_subfe_lem =
        carrying_lem s words rd oe rc i k l (not32 in_a) in_b (not32 in_a + in_b + get_xer_ca s)
          (u32 (in_b + 2 ^ 32 - in_a + 2 ^ 32 - (1 - in_c))) (leb (in_a + (1 - in_c)) in_b)
          (out_of_s32 (signed32 in_b -ℤ signed32 in_a -ℤ pos (1 - in_c)))
          (ground (arith, ca_lem s, words.gpr ra, words.gpr rb))
          (ground (arith, ca_lem s, words.gpr ra, words.gpr rb))
          (ground (arith, ca_lem s, words.gpr ra, words.gpr rb))
          (ground (
            arith,
            add_overflow_lem (not32 in_a) in_b in_c,
            words.gpr ra,
            words.gpr rb,
            ca_lem s,
            difference in_a in_c (signed32 in_b) (words.gpr ra),
            sub_zero (signed32 in_b -ℤ signed32 in_a),
          ))

    -- `subfze`: the negative of a register, less the borrow.
    pub do_subfze_lem :
        Effect s
          (do_subfze s rd ra oe rc)
          rd
          oe
          rc
          (u32 (2 ^ 32 - in_a + 2 ^ 32 - (1 - in_c)))
          (some (leb (in_a + (1 - in_c)) 0))
          (out_of_s32 (pos 0 -ℤ signed32 in_a -ℤ pos (1 - in_c)))
          i
          k
    unfolding do_subfze
    do_subfze_lem =
        carrying_lem s words rd oe rc i k l (not32 in_a) 0 (not32 in_a + get_xer_ca s)
          (u32 (2 ^ 32 - in_a + 2 ^ 32 - (1 - in_c))) (leb (in_a + (1 - in_c)) 0)
          (out_of_s32 (pos 0 -ℤ signed32 in_a -ℤ pos (1 - in_c)))
          (ground (arith, ca_lem s, words.gpr ra, words.gpr rb))
          (ground (arith, ca_lem s, words.gpr ra, words.gpr rb))
          (ground (arith, ca_lem s, words.gpr ra, words.gpr rb))
          (ground (
            arith,
            add_overflow_lem (not32 in_a) 0 in_c,
            words.gpr ra,
            words.gpr rb,
            ca_lem s,
            difference in_a in_c (pos 0) (words.gpr ra),
            sub_zero (pos 0 -ℤ signed32 in_a),
          ))

    -- `subfme`: the complement of a register and XER[CA], less one.
    pub do_subfme_lem :
        Effect s
          (do_subfme s rd ra oe rc)
          rd
          oe
          rc
          (u32 (not32 in_a + 0xffff_ffff + in_c))
          (some (leb (in_a + (1 - in_c)) 0xffff_ffff))
          (out_of_s32 (negsuc 0 -ℤ signed32 in_a -ℤ pos (1 - in_c)))
          i
          k
    unfolding do_subfme
    do_subfme_lem =
        carrying_lem s words rd oe rc i k l (not32 in_a) 0xffff_ffff
          (not32 in_a + 0xffff_ffff + get_xer_ca s) (u32 (not32 in_a + 0xffff_ffff + in_c))
          (leb (in_a + (1 - in_c)) 0xffff_ffff)
          (out_of_s32 (negsuc 0 -ℤ signed32 in_a -ℤ pos (1 - in_c)))
          (ground (arith, ca_lem s, words.gpr ra)) (ground (arith, ca_lem s, words.gpr ra))
          (ground (arith, ca_lem s, words.gpr ra))
          (ground (
            arith,
            add_overflow_lem (not32 in_a) 0xffff_ffff in_c,
            words.gpr ra,
            ca_lem s,
            difference in_a in_c (negsuc 0) (words.gpr ra),
          ))
