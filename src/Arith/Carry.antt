-- ===== src/Arith/Carry.antt =====
-- The shared steps of the additions and subtractions of src/instr/arith.c: a 64-bit sum, its carry and
-- its overflow, and `-x` done as `~x + 1`.
use libppcemu.Prelude.{
  ℕ, ◌-◌, ◌^◌, ◌<◌, ◌≡◌, Bool, ap, sym, arith, bit, nz, leb, u32, u64, shr, not32, signed32, ℤ, pos,
  ◌+ℤ◌, ◌-ℤ◌, none, some, update_self, nz-bit_and-pow, +ℤ_parts, -ℤ_parts, negsuc, eq_of_parts,
}
use libppcemu.State.{State, set_gpr}
use libppcemu.State.Words.{HasWords}
use libppcemu.Spr.{idx_xer}
use libppcemu.Cr.{int_of}
use libppcemu.Arith.{set_xer_ca, add_overflow, get_xer_ca, record_oe, record_rc, carrying}
use libppcemu.Arith.Effect.{Effect, finish_lem, put_ca}

pub carry_lem : (n : ℕ) → n < 2 ^ 34 → nz (shr (u64 n) 32) ≡ leb (2 ^ 32) n
carry_lem n h = ground arith

pub low_lem : (n : ℕ) → u32 (u64 n) ≡ u32 n
low_lem n = omega arith

pub ca_lem : (s : State) → get_xer_ca s ≡ int_of (bit (s.sprs idx_xer) 29)
unfolding get_xer_ca
ca_lem s = ap int_of (nz-bit_and-pow 29 (s.sprs idx_xer))

-- `~x` stands for `-x - 1`.
signed-not32 : (a : ℕ) → a < 2 ^ 32 → signed32 (not32 a) ≡ negsuc 0 -ℤ signed32 a
signed-not32 a h = ground (
  arith,
  eq_of_parts (signed32 (not32 a)) (negsuc 0 -ℤ signed32 a),
  -ℤ_parts (negsuc 0) (signed32 a),
)

-- The signed sums that the instructions compute, with `-x` done as `~x + 1`.
pub sum_zero : (x y : ℤ) → x +ℤ y +ℤ pos 0 ≡ x +ℤ y
sum_zero x y = ground (arith, eq_of_parts (x +ℤ y +ℤ pos 0) (x +ℤ y), +ℤ_parts (x +ℤ y) (pos 0))

pub difference :
    (a c : ℕ) (y : ℤ)
    → a < 2 ^ 32
    → c < 2
    → signed32 (not32 a) +ℤ y +ℤ pos c ≡ y -ℤ signed32 a -ℤ pos (1 - c)
difference a c y h hc = ground (
  arith,
  signed-not32 a h,
  eq_of_parts (signed32 (not32 a) +ℤ y +ℤ pos c) (y -ℤ signed32 a -ℤ pos (1 - c)),
  +ℤ_parts (signed32 (not32 a) +ℤ y) (pos c),
  +ℤ_parts (signed32 (not32 a)) y,
  -ℤ_parts (negsuc 0) (signed32 a),
  -ℤ_parts (y -ℤ signed32 a) (pos (1 - c)),
  -ℤ_parts y (signed32 a),
)

pub pos_zero : (x : ℤ) (c : ℕ) → x +ℤ pos 0 +ℤ pos c ≡ x +ℤ pos c
pos_zero x c = ground (
  arith,
  eq_of_parts (x +ℤ pos 0 +ℤ pos c) (x +ℤ pos c),
  +ℤ_parts (x +ℤ pos 0) (pos c),
  +ℤ_parts x (pos 0),
  +ℤ_parts x (pos c),
)

pub sub_zero : (x : ℤ) → x -ℤ pos 0 ≡ x
sub_zero x = ground (arith, eq_of_parts (x -ℤ pos 0) x, -ℤ_parts x (pos 0))

-- `carrying` in the form that `finish_lem` takes.
carrying_form :
    (s : State) (rd a b n oe rc : ℕ)
    → n < 2 ^ 34
    → carrying s rd a b (u64 n) oe rc
      ≡ record_rc
          (record_oe
            (put_ca (set_gpr s rd (u32 n)) (some (leb (2 ^ 32) n)))
            oe
            (add_overflow a b (u32 n)))
          rc
          rd
unfolding carrying put_ca set_xer_ca
carrying_form s rd a b n oe rc h = ground (arith, carry_lem n h, low_lem n)

module _ (s : State) (words : HasWords s) (rd oe rc i k : ℕ) (l : k < 32) where
  -- A carrying instruction whose sum is `n`, with what the sum means.
  pub carrying_lem :
      (a b n result : ℕ) (ca ov : Bool)
      → n < 2 ^ 34
      → u32 n ≡ result
      → leb (2 ^ 32) n ≡ ca
      → add_overflow a b (u32 n) ≡ ov
      → Effect s (carrying s rd a b (u64 n) oe rc) rd oe rc result (some ca) ov i k
  carrying_lem a b n result ca ov h er ec eo =
      rw (carrying_form s rd a b n oe rc h, sym er, sym ec, sym eo)
        (finish_lem s words rd oe rc i k (u32 n) (some (leb (2 ^ 32) n)) (add_overflow a b (u32 n))
          (omega arith) l)

  -- An instruction that sets no carry.
  pub plain_lem :
      (a b result : ℕ) (ov : Bool)
      → result < 2 ^ 32
      → add_overflow a b result ≡ ov
      → let s1 = set_gpr s rd result in
        Effect s
          (record_rc (record_oe s1 oe (add_overflow a b (s1.gpr rd))) rc rd)
          rd
          oe
          rc
          result
          none
          ov
          i
          k
  unfolding put_ca
  plain_lem a b result ov h eo =
      rw (update_self s.gpr rd result, eo) (finish_lem s words rd oe rc i k result none ov h l)
