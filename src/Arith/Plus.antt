-- ===== src/Arith/Plus.antt =====
-- The additions of src/instr/arith.c as operations on unsigned and signed numbers.
use libppcemu.Prelude.{
  ℕ, ◌+◌, ◌-◌, ◌^◌, ◌<◌, ◌≡◌, arith, bit, nz, leb, if◌then◌else◌, u32, signed32, pos, ◌+ℤ◌, ◌-ℤ◌,
  none, some, +ℤ_parts, -ℤ_parts, negsuc, eq_of_parts,
}
use libppcemu.State.{State}
use libppcemu.State.Words.{HasWords}
use libppcemu.Spr.{idx_xer}
use libppcemu.Cr.{int_of}
use libppcemu.Arith.{get_xer_ca, do_add, do_addc, do_adde, do_addze, do_addme}
use libppcemu.Arith.Overflow.{out_of_s32, add_overflow_lem}
use libppcemu.Arith.Effect.{Effect}
use libppcemu.Arith.Carry.{ca_lem, sum_zero, pos_zero, carrying_lem, plain_lem}

module _ (s : State) (words : HasWords s) (rd oe rc i k : ℕ) (l : k < 32) where
  -- The operands of an instruction with a carry in.
  module _ (ra rb : ℕ) where
    abbrev in_a : ℕ
    in_a = s.gpr ra

    abbrev in_b : ℕ
    in_b = s.gpr rb

    abbrev in_c : ℕ
    in_c = int_of (bit (s.sprs idx_xer) 29)

    in_c-lt : in_c < 2
    in_c-lt = ground arith

    -- `add`: the sum of two registers.
    pub do_add_lem :
        Effect s
          (do_add s rd ra rb oe rc)
          rd
          oe
          rc
          (u32 (in_a + in_b))
          none
          (out_of_s32 (signed32 in_a +ℤ signed32 in_b))
          i
          k
    unfolding do_add
    do_add_lem =
        let e : u32 (in_a + in_b) ≡ u32 (in_a + in_b) = omega (arith, words.gpr ra, words.gpr rb) in
        rw e (
          plain_lem s words rd oe rc i k l in_a in_b (u32 (in_a + in_b))
            (out_of_s32 (signed32 in_a +ℤ signed32 in_b)) (omega arith)
            (ground (
              arith,
              add_overflow_lem in_a in_b 0,
              words.gpr ra,
              words.gpr rb,
              ca_lem s,
              sum_zero (signed32 in_a) (signed32 in_b),
            )))

    -- `addc`: the sum of two registers; the carry is set if the unsigned sum has more than 32 bits.
    pub do_addc_lem :
        Effect s
          (do_addc s rd ra rb oe rc)
          rd
          oe
          rc
          (u32 (in_a + in_b))
          (some (leb (2 ^ 32) (in_a + in_b)))
          (out_of_s32 (signed32 in_a +ℤ signed32 in_b))
          i
          k
    unfolding do_addc
    do_addc_lem =
        carrying_lem s words rd oe rc i k l in_a in_b (in_a + in_b) (u32 (in_a + in_b))
          (leb (2 ^ 32) (in_a + in_b)) (out_of_s32 (signed32 in_a +ℤ signed32 in_b))
          (ground (arith, ca_lem s, words.gpr ra, words.gpr rb))
          (ground (arith, ca_lem s, words.gpr ra, words.gpr rb))
          (ground (arith, ca_lem s, words.gpr ra, words.gpr rb))
          (ground (
            arith,
            add_overflow_lem in_a in_b 0,
            words.gpr ra,
            words.gpr rb,
            ca_lem s,
            sum_zero (signed32 in_a) (signed32 in_b),
          ))

    -- `adde`: the sum of two registers and XER[CA].
    pub do_adde_lem :
        Effect s
          (do_adde s rd ra rb oe rc)
          rd
          oe
          rc
          (u32 (in_a + in_b + in_c))
          (some (leb (2 ^ 32) (in_a + in_b + in_c)))
          (out_of_s32 (signed32 in_a +ℤ signed32 in_b +ℤ pos in_c))
          i
          k
    unfolding do_adde
    do_adde_lem =
        carrying_lem s words rd oe rc i k l in_a in_b (in_a + in_b + get_xer_ca s)
          (u32 (in_a + in_b + in_c)) (leb (2 ^ 32) (in_a + in_b + in_c))
          (out_of_s32 (signed32 in_a +ℤ signed32 in_b +ℤ pos in_c))
          (ground (arith, ca_lem s, words.gpr ra, words.gpr rb))
          (ground (arith, ca_lem s, words.gpr ra, words.gpr rb))
          (ground (arith, ca_lem s, words.gpr ra, words.gpr rb))
          (ground (arith, add_overflow_lem in_a in_b in_c, words.gpr ra, words.gpr rb, ca_lem s))

    -- `addze`: the sum of a register and XER[CA].
    pub do_addze_lem :
        Effect s
          (do_addze s rd ra oe rc)
          rd
          oe
          rc
          (u32 (in_a + in_c))
          (some (leb (2 ^ 32) (in_a + in_c)))
          (out_of_s32 (signed32 in_a +ℤ pos in_c))
          i
          k
    unfolding do_addze
    do_addze_lem =
        carrying_lem s words rd oe rc i k l in_a 0 (in_a + get_xer_ca s) (u32 (in_a + in_c))
          (leb (2 ^ 32) (in_a + in_c)) (out_of_s32 (signed32 in_a +ℤ pos in_c))
          (ground (arith, ca_lem s, words.gpr ra, words.gpr rb))
          (ground (arith, ca_lem s, words.gpr ra, words.gpr rb))
          (ground (arith, ca_lem s, words.gpr ra, words.gpr rb))
          (ground (
            arith,
            add_overflow_lem in_a 0 in_c,
            words.gpr ra,
            words.gpr rb,
            ca_lem s,
            pos_zero (signed32 in_a) in_c,
          ))

    -- `addme`: a register and XER[CA], less one.
    pub do_addme_lem :
        Effect s
          (do_addme s rd ra oe rc)
          rd
          oe
          rc
          (u32 (in_a + in_c + 0xffff_ffff))
          (some (leb 1 (in_a + in_c)))
          (out_of_s32 (signed32 in_a -ℤ pos (1 - in_c)))
          i
          k
    unfolding do_addme
    do_addme_lem =
        let ca = get_xer_ca s in
        carrying_lem s words rd oe rc i k l in_a (if nz ca then 0 else 0xffff_ffff)
          (in_a + ca + 0xffff_ffff) (u32 (in_a + in_c + 0xffff_ffff)) (leb 1 (in_a + in_c))
          (out_of_s32 (signed32 in_a -ℤ pos (1 - in_c))) (ground (arith, ca_lem s, words.gpr ra))
          (ground (arith, ca_lem s)) (ground (arith, ca_lem s, words.gpr ra))
          (ground (
            arith,
            words.gpr ra,
            ca_lem s,
            in_c-lt,
            add_overflow_lem in_a 0 0,
            add_overflow_lem in_a 0xffff_ffff 0,
            sum_zero (signed32 in_a) (pos 0),
            sum_zero (signed32 in_a) (negsuc 0),
            eq_of_parts (signed32 in_a +ℤ pos 0) (signed32 in_a -ℤ pos 0),
            eq_of_parts (signed32 in_a +ℤ negsuc 0) (signed32 in_a -ℤ pos 1),
            +ℤ_parts (signed32 in_a) (pos 0),
            +ℤ_parts (signed32 in_a) (negsuc 0),
            -ℤ_parts (signed32 in_a) (pos 0),
            -ℤ_parts (signed32 in_a) (pos 1),
          ))
