-- ===== src/MulDiv/Laws.antt =====
-- The results and overflows of the multiplications and divisions of src/instr/arith.c.
use libppcemu.Prelude.{
  ℕ, ◌*◌, ◌/◌, ◌^◌, ◌<◌, false, ◌||◌, ◌==◌, if◌then◌else◌, signed32, ◌*ℤ◌, none,
}
use libppcemu.State.{State}
use libppcemu.State.Words.{HasWords}
use libppcemu.Arith.Overflow.{out_of_s32}
use libppcemu.Arith.Effect.{Effect}
use libppcemu.MulDiv.{do_divw, do_divwu, do_mullw, do_mulhw, do_mulhwu}
use libppcemu.MulDiv.Divide.{word32, quotient, do_divw_lem, do_divwu_lem}
use libppcemu.MulDiv.Multiply.{high_word, do_mullw_lem, do_mulhw_lem, do_mulhwu_lem}

module _ (s : State) (words : HasWords s) (rd ra rb oe rc i k : ℕ) (l : k < 32) where
  -- Where all registers hold words, `mullw` leaves in rD alone the signed product modulo 2^32, and
  -- with OE set XER[OV] tells, and XER[SO] keeps, whether the product is no signed word; `mulhw`
  -- and `mulhwu` leave there the upper words of the signed and of the unsigned product, `divw` the
  -- signed quotient rounded towards zero, and `divwu` the unsigned quotient. On a division by 0,
  -- and for `divw` where the quotient is no signed word, rD keeps its value, and OV and SO tell
  -- this with OE set. With Rc set, CR field 0 records what rD then holds. Of the 32 digits of XER
  -- and of CR, and of the other registers of both files, no other one changes.
  pub products_quotients :
      let a = s.gpr ra in
      let b = s.gpr rb in
      let z = signed32 a *ℤ signed32 b in
      let q = quotient (signed32 a) (signed32 b) in
      let overflow = b == 0 || out_of_s32 q in
      Effect s (do_mullw s rd ra rb oe rc) rd oe rc (word32 z) none (out_of_s32 z) i k
      × Effect s (do_mulhw s rd ra rb rc) rd 0 rc (high_word z) none false i k
      × Effect s (do_mulhwu s rd ra rb rc) rd 0 rc (a * b / 2 ^ 32) none false i k
      × Effect s
          (do_divw s rd ra rb oe rc)
          rd
          oe
          rc
          (if overflow then s.gpr rd else word32 q)
          none
          overflow
          i
          k
      × Effect s
          (do_divwu s rd ra rb oe rc)
          rd
          oe
          rc
          (if b == 0 then s.gpr rd else a / b)
          none
          (b == 0)
          i
          k
  products_quotients = (
    do_mullw_lem s words rd ra rb oe rc i k l,
    do_mulhw_lem s words rd ra rb oe rc i k l,
    do_mulhwu_lem s words rd ra rb oe rc i k l,
    do_divw_lem s words rd ra rb oe rc i k l,
    do_divwu_lem s words rd ra rb oe rc i k l,
  )
