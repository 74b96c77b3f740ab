-- ===== src/Cond/Logic.antt =====
-- The eight logical instructions on digits of CR: `CR_OP` of src/instr/cond.c.
use libppcemu.Prelude.{
  ℕ, ◌-◌, ◌<◌, ◌≡◌, Bool, not, ◌&&◌, ◌||◌, xor, arith, bit, nz, ◌==◌, if◌then◌else◌, bit_and,
  bit_or, bit_xor, not32,
}
use libppcemu.State.{State}
use libppcemu.Cr.{int_of}
use libppcemu.Cr.Fields.{cr_set_bit-bits, cr_get_bit_lem}
use libppcemu.Cond.{
  cr_op, do_crand, do_crandc, do_creqv, do_crnand, do_crnor, do_cror, do_crorc, do_crxor,
}

cr_op-bits :
    (op : ℕ → ℕ → ℕ) (s : State) (d a b k : ℕ)
    → d < 32
    → k < 32
    → bit (cr_op op s d a b).cr k ≡ (
        if k == 31 - d
        then nz (op (int_of (bit s.cr (31 - a))) (int_of (bit s.cr (31 - b))))
        else bit s.cr k)
cr_op-bits op s d a b k h l =
    rw (cr_get_bit_lem s (31 - a), cr_get_bit_lem s (31 - b))
      (cr_set_bit-bits s (31 - d) k _ (omega arith) l)

-- Digit `k` of CR after bit `d`, counted from the left, was replaced.
abbrev pub replaced : ℕ → Bool → Bool → ℕ → Bool
replaced d new old k = if k == 31 - d then new else old

module _ (s : State) (d ba bb k : ℕ) (h : d < 32) (l : k < 32) where
  abbrev old : Bool
  old = bit s.cr k

  -- Each logical instruction on CR replaces one of its 32 bits by the Boolean operation of its name
  -- on two bits, all three counted from the left, and keeps the other 31.
  pub cr_logic :
      let a = bit s.cr (31 - ba) in
      let b = bit s.cr (31 - bb) in
      (bit (do_crand s d ba bb).cr k ≡ replaced d (a && b) (bit s.cr k) k)
      × (bit (do_crandc s d ba bb).cr k ≡ replaced d (a && not b) (bit s.cr k) k)
      × (bit (do_creqv s d ba bb).cr k ≡ replaced d (not (xor a b)) (bit s.cr k) k)
      × (bit (do_crnand s d ba bb).cr k ≡ replaced d (not (a && b)) (bit s.cr k) k)
      × (bit (do_crnor s d ba bb).cr k ≡ replaced d (not (a || b)) (bit s.cr k) k)
      × (bit (do_cror s d ba bb).cr k ≡ replaced d (a || b) (bit s.cr k) k)
      × (bit (do_crorc s d ba bb).cr k ≡ replaced d (a || not b) (bit s.cr k) k)
      × (bit (do_crxor s d ba bb).cr k ≡ replaced d (xor a b) (bit s.cr k) k)
  unfolding do_crand do_crandc do_creqv do_crnand do_crnor do_cror do_crorc do_crxor
  cr_logic = (
    ground (arith, cr_op-bits (λ (a b : ℕ). bit_and a b) s d ba bb k h l),
    ground (arith, cr_op-bits (λ (a b : ℕ). bit_and a (not32 b)) s d ba bb k h l),
    ground (arith, cr_op-bits (λ (a b : ℕ). int_of (bit_xor a b == 0)) s d ba bb k h l),
    ground (arith, cr_op-bits (λ (a b : ℕ). int_of (bit_and a b == 0)) s d ba bb k h l),
    ground (arith, cr_op-bits (λ (a b : ℕ). int_of (bit_or a b == 0)) s d ba bb k h l),
    ground (arith, cr_op-bits (λ (a b : ℕ). bit_or a b) s d ba bb k h l),
    ground (arith, cr_op-bits (λ (a b : ℕ). bit_or a (int_of (b == 0))) s d ba bb k h l),
    ground (arith, cr_op-bits (λ (a b : ℕ). bit_xor a b) s d ba bb k h l),
  )
