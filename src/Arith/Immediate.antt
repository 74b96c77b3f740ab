-- ===== src/Arith/Immediate.antt =====
-- `addic` and `subfic` of src/instr/arith.c.
use libppcemu.Prelude.{ℕ, ◌+◌, ◌^◌, ◌<◌, ◌≡◌, false, arith, leb, u32, sub32, not32, sext16, some}
use libppcemu.State.{State}
use libppcemu.State.Words.{HasWords}
use libppcemu.Arith.{set_xer_ca, do_addic, do_subfic}
use libppcemu.Arith.Effect.{Effect, finish_lem, put_ca}
use libppcemu.Arith.Carry.{carry_lem, low_lem}

-- `addic` and `subfic`, which set the carry and never XER[OV].
module _ (s : State) (words : HasWords s) (rd ra simm rc i k : ℕ) (l : k < 32) where
  pub do_addic_lem :
      Effect s
        (do_addic s rd ra simm rc)
        rd
        0
        rc
        (u32 (s.gpr ra + sext16 simm))
        (some (leb (2 ^ 32) (s.gpr ra + sext16 simm)))
        false
        i
        k
  unfolding do_addic put_ca set_xer_ca
  do_addic_lem =
      let n = s.gpr ra + sext16 simm in
      let small : n < 2 ^ 34 = ground (arith, words.gpr ra) in
      rw (carry_lem n small, low_lem n)
        (finish_lem s words rd 0 rc i k (u32 n) (some (leb (2 ^ 32) n)) false (omega arith) l)

  pub do_subfic_lem :
      Effect s
        (do_subfic s rd ra simm)
        rd
        0
        0
        (sub32 (sext16 simm) (s.gpr ra))
        (some (leb (s.gpr ra) (sext16 simm)))
        false
        i
        k
  unfolding do_subfic put_ca set_xer_ca
  do_subfic_lem =
      let n = not32 (s.gpr ra) + sext16 simm + 1 in
      let small : n < 2 ^ 34 = ground (arith, words.gpr ra) in
      let low : u32 n ≡ sub32 (sext16 simm) (s.gpr ra) = ground (arith, words.gpr ra) in
      let borrow : leb (2 ^ 32) n ≡ leb (s.gpr ra) (sext16 simm) = ground (arith, words.gpr ra) in
      rw (carry_lem n small, low_lem n, low, borrow)
        (finish_lem s words rd 0 0 i k (sub32 (sext16 simm) (s.gpr ra))
          (some (leb (s.gpr ra) (sext16 simm))) false (omega arith) l)
