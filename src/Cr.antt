-- ===== src/Cr.antt =====
-- The condition register: src/cr.h.
pub mod Fields
use libppcemu.Prelude.{ℕ, ◌+◌, ◌-◌, ◌*◌, ◌/◌, ◌^◌, bit_and, bit_or, Bool, ◌&&◌, nz, ltb, leb, ◌==◌}
use libppcemu.Prelude.{if◌then◌else◌, not32, shl32, shr}
use libppcemu.State.{State}
use libppcemu.Spr.{idx_xer, xer_so}

-- A C truth value as a number.
abbrev pub int_of : Bool → ℕ
int_of b = if b then 1 else 0

unfoldable pub cr_get_bit : State → ℕ → ℕ
cr_get_bit s k = bit_and (shr s.cr k) 1

unfoldable pub cr_set_bit : State → ℕ → Bool → State
cr_set_bit s k set =
    let mask = shl32 1 k in
    record s { cr = if set then bit_or s.cr mask else bit_and s.cr (not32 mask) }

unfoldable pub cr_set_field : State → ℕ → ℕ → State
cr_set_field s field val =
    let mask = shl32 15 ((7 - field) * 4) in
    record s { cr = bit_or (bit_and s.cr (not32 mask)) (shl32 (bit_and val 15) ((7 - field) * 4)) }

unfoldable pub cr_get_field : State → ℕ → ℕ
cr_get_field s field =
    let mask = shl32 15 ((7 - field) * 4) in shr (bit_and s.cr mask) ((7 - field) * 4)

-- The four bits that `update_cr0` puts in field 0.
unfoldable pub cr0_of : State → ℕ → ℕ
cr0_of s val =
    let so = shr (bit_and (s.sprs idx_xer) xer_so) 31 in
    bit_or
      (bit_or
        (bit_or (int_of (leb 0x8000_0000 val) * 2 ^ 3)
          (int_of (nz val && ltb val 0x8000_0000) * 2 ^ 2))
        (int_of (val == 0) * 2 ^ 1))
      so

unfoldable pub update_cr0 : State → ℕ → State
update_cr0 s val = cr_set_field s 0 (cr0_of s val)
