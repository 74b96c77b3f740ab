-- ===== src/Bitwise.antt =====
-- Logic, rotates, shifts and sign extension: src/instr/bitwise.c.
pub mod Mask
pub mod Rotate
pub mod Shift
pub mod Count
use libppcemu.Prelude.{
  ℕ, zero, suc, ◌+◌, ◌-◌, ◌*◌, ◌/◌, ◌%◌, ◌^◌, bit_and, bit_or, bit_xor, Bool, true, false, ◌&&◌,
  not, nz, ltb, leb, ◌==◌, if◌then◌else◌, not32, u32, shl32, shr, sext8, sext16,
}
use libppcemu.State.{State, set_gpr}
use libppcemu.Arith.{set_xer_ca, record_rc}

unfoldable pub rotl32 : ℕ → ℕ → ℕ
rotl32 x rot = let r = bit_and rot 31 in if r == 0 then x else bit_or (shl32 x r) (shr x (32 - r))

-- `for (b = from; b < from + n; b++) m |= 1u << (31 - b);`
unfoldable pub mask_loop : ℕ → ℕ → ℕ → ℕ
mask_loop zero b m = m
mask_loop (suc n) b m = mask_loop n (b + 1) (bit_or m (shl32 1 (31 - b)))

unfoldable pub mb_me_mask : ℕ → ℕ → ℕ
mb_me_mask mb me =
    if leb mb me
    then mask_loop (me + 1 - mb) mb 0
    else mask_loop (32 - mb) mb (mask_loop (me + 1) 0 0)

unfoldable pub xori_common : State → ℕ → ℕ → ℕ → State
xori_common s rs ra uimm = set_gpr s ra (bit_xor (s.gpr rs) uimm)

unfoldable pub do_xor : State → ℕ → ℕ → ℕ → ℕ → State
do_xor s rs ra rb rc = record_rc (set_gpr s ra (bit_xor (s.gpr rs) (s.gpr rb))) rc ra

unfoldable pub ori_common : State → ℕ → ℕ → ℕ → State
ori_common s rs ra uimm = set_gpr s ra (bit_or (s.gpr rs) uimm)

unfoldable pub do_or : State → ℕ → ℕ → ℕ → ℕ → State
do_or s rs ra rb rc = record_rc (set_gpr s ra (bit_or (s.gpr rs) (s.gpr rb))) rc ra

unfoldable pub do_orc : State → ℕ → ℕ → ℕ → ℕ → State
do_orc s rs ra rb rc = record_rc (set_gpr s ra (bit_or (s.gpr rs) (not32 (s.gpr rb)))) rc ra

-- Always records CR0.
unfoldable pub andi_common : State → ℕ → ℕ → ℕ → State
andi_common s rs ra uimm = record_rc (set_gpr s ra (bit_and (s.gpr rs) uimm)) 1 ra

unfoldable pub do_and : State → ℕ → ℕ → ℕ → ℕ → State
do_and s rs ra rb rc = record_rc (set_gpr s ra (bit_and (s.gpr rs) (s.gpr rb))) rc ra

unfoldable pub do_andc : State → ℕ → ℕ → ℕ → ℕ → State
do_andc s rs ra rb rc = record_rc (set_gpr s ra (bit_and (s.gpr rs) (not32 (s.gpr rb)))) rc ra

unfoldable pub do_rlwimi : State → ℕ → ℕ → ℕ → ℕ → ℕ → ℕ → State
do_rlwimi s rs ra sh mb me rc =
    let r = rotl32 (s.gpr rs) sh in
    let m = mb_me_mask mb me in
    record_rc (set_gpr s ra (bit_or (bit_and r m) (bit_and (s.gpr ra) (not32 m)))) rc ra

unfoldable pub do_rlwinm : State → ℕ → ℕ → ℕ → ℕ → ℕ → ℕ → State
do_rlwinm s rs ra sh mb me rc =
    let r = rotl32 (s.gpr rs) sh in
    let m = mb_me_mask mb me in record_rc (set_gpr s ra (bit_and r m)) rc ra

unfoldable pub do_rlwnm : State → ℕ → ℕ → ℕ → ℕ → ℕ → ℕ → State
do_rlwnm s rs ra rb mb me rc =
    let r = rotl32 (s.gpr rs) (bit_and (s.gpr rb) 0x1f) in
    let m = mb_me_mask mb me in record_rc (set_gpr s ra (bit_and r m)) rc ra

unfoldable pub do_nand : State → ℕ → ℕ → ℕ → ℕ → State
do_nand s rs ra rb rc = record_rc (set_gpr s ra (not32 (bit_and (s.gpr rs) (s.gpr rb)))) rc ra

unfoldable pub do_nor : State → ℕ → ℕ → ℕ → ℕ → State
do_nor s rs ra rb rc = record_rc (set_gpr s ra (not32 (bit_or (s.gpr rs) (s.gpr rb)))) rc ra

unfoldable pub do_eqv : State → ℕ → ℕ → ℕ → ℕ → State
do_eqv s rs ra rb rc = record_rc (set_gpr s ra (not32 (bit_xor (s.gpr rs) (s.gpr rb)))) rc ra

-- `while (n <= 31) { if (x & (1u << (31 - n))) break; n++; }` with `left` = 32 - n rounds left.
unfoldable pub cntlzw_loop : ℕ → ℕ → ℕ → ℕ
cntlzw_loop zero x n = n
cntlzw_loop (suc left) x n =
    let rest = cntlzw_loop left x (n + 1) in if nz (bit_and x (shl32 1 (31 - n))) then n else rest

unfoldable pub do_cntlzw : State → ℕ → ℕ → ℕ → State
do_cntlzw s rs ra rc = record_rc (set_gpr s ra (cntlzw_loop 32 (s.gpr rs) 0)) rc ra

unfoldable pub do_slw : State → ℕ → ℕ → ℕ → ℕ → State
do_slw s rs ra rb rc =
    let s1 =
      if nz (bit_and (s.gpr rb) 0x20)
      then set_gpr s ra 0
      else set_gpr s ra (shl32 (s.gpr rs) (bit_and (s.gpr rb) 0x1f)) in
    record_rc s1 rc ra

unfoldable pub do_srw : State → ℕ → ℕ → ℕ → ℕ → State
do_srw s rs ra rb rc =
    let s1 =
      if nz (bit_and (s.gpr rb) 0x20)
      then set_gpr s ra 0
      else set_gpr s ra (shr (s.gpr rs) (bit_and (s.gpr rb) 0x1f)) in
    record_rc s1 rc ra

-- `rs >> n` of an `i32`: an arithmetic shift.
unfoldable pub sar32 : ℕ → ℕ → ℕ
sar32 x n = if ltb x 0x8000_0000 then shr x n else 0xffff_ffff - shr (0xffff_ffff - x) n

-- `do_sraw` and `do_srawi` differ only in where the amount comes from.
unfoldable pub shift_right_algebraic : State → ℕ → ℕ → ℕ → ℕ → State
shift_right_algebraic s rs_val ra amount rc =
    let n = bit_and amount 0x1f in
    let negative = leb 0x8000_0000 rs_val in
    let far = nz (bit_and amount 0x20) in
    let s1 = set_gpr s ra (if far then (if negative then 0xffff_ffff else 0) else sar32 rs_val n) in
    let ca = if far then negative else negative && nz n && nz (bit_and rs_val (2 ^ n - 1)) in
    record_rc (set_xer_ca s1 ca) rc ra

unfoldable pub do_sraw : State → ℕ → ℕ → ℕ → ℕ → State
do_sraw s rs ra rb rc = shift_right_algebraic s (s.gpr rs) ra (s.gpr rb) rc

unfoldable pub do_srawi : State → ℕ → ℕ → ℕ → ℕ → State
do_srawi s rs ra sh rc = shift_right_algebraic s (s.gpr rs) ra sh rc

unfoldable pub do_extsh : State → ℕ → ℕ → ℕ → State
do_extsh s rs ra rc = record_rc (set_gpr s ra (sext16 (s.gpr rs))) rc ra

unfoldable pub do_extsb : State → ℕ → ℕ → ℕ → State
do_extsb s rs ra rc = record_rc (set_gpr s ra (sext8 (s.gpr rs))) rc ra
