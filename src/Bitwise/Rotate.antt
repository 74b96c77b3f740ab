-- ===== src/Bitwise/Rotate.antt =====
-- The rotate-and-mask instructions of src/instr/bitwise.c.
use libppcemu.Prelude.{
  ℕ, ◌+◌, ◌-◌, ◌%◌, ◌<◌, ◌≡◌, Bool, ◌&&◌, arith, bit, bit-bit_and, bit-bit_or, bit-not32,
  if◌then◌else◌, not32, bit_and, bit_and_mask, bit_or, bit_and-lt, bit_or-lt, nz, ◌==◌, ◌^◌,
}
use libppcemu.State.{State, set_gpr}
use libppcemu.Spr.{idx_xer}
use libppcemu.Arith.{record_rc}
use libppcemu.Arith.Overflow.{recorded, record_rc-bits, record_rc-frame}
use libppcemu.State.Words.{HasWords}
use libppcemu.Bitwise.{rotl32, mb_me_mask, do_rlwimi, do_rlwinm, do_rlwnm}
use libppcemu.Bitwise.Mask.{in_mask, mb_me_mask-bits, mb_me_mask-lt, rotl32-bits, rotl32-lt}

-- The digit that a rotation by `r` brings to place `k`.
abbrev pub turned : ℕ → ℕ → ℕ → Bool
turned x r k = bit x ((k + 32 - r % 32) % 32)

-- Register `ra` has `digit` at place `k` and no other register changes; CR field 0 records what `ra`
-- then holds if `rc` is set.
abbrev pub Rotated : State → State → ℕ → ℕ → Bool → ℕ → ℕ → Type 0
Rotated s t ra rc digit i k =
    (bit (t.gpr ra) k ≡ digit)
    × (t.gpr i ≡ (if i == ra then t.gpr ra else s.gpr i))
    × (t.sprs i ≡ s.sprs i)
    × (bit t.cr k ≡ (
        if nz rc then recorded (t.gpr ra) (bit (s.sprs idx_xer) 31) (bit s.cr k) k else bit s.cr k))

written-Rotated :
    (s : State) (words : HasWords s) (ra rc v i k : ℕ)
    → k < 32
    → v < 2 ^ 32
    → (digit : Bool) → bit v k ≡ digit
    → Rotated s (record_rc (set_gpr s ra v) rc ra) ra rc digit i k
written-Rotated s words ra rc v i k l h digit e =
    let w = set_gpr s ra v in
    let frame = record_rc-frame w rc ra in
    let self : w.gpr ra ≡ v = ground arith in
    (
      ground (arith, (frame ra).0, e),
      ground (arith, (frame ra).0, (frame i).0),
      (frame i).1,
      ground (
        arith,
        (frame ra).0,
        record_rc-bits w rc ra k (ground (arith, h)) (words.sprs idx_xer) l,
      ),
    )

module _ (s : State) (words : HasWords s) (rs ra rb sh mb me rc i k : ℕ) (l : k < 32) where
  -- Where all registers hold words and the mask begins and ends at bits below 32, `rlwinm` and
  -- `rlwnm` leave in `rA` the digits of the rotated register inside the mask and 0 outside it, and
  -- `rlwimi` leaves the digits of `rA` outside it; a mask that begins after its end goes round.
  -- Digit `k` below 32 of a register rotated by `r` is digit `k - r` modulo 32 of the register.
  -- With Rc, CR field 0 records the result and the summary overflow, and the rest of CR stays;
  -- without Rc all of CR stays. The other general-purpose registers and the special registers stay.
  pub rotate_bits :
      mb < 32
      → me < 32
      → Rotated s
          (do_rlwinm s rs ra sh mb me rc)
          ra
          rc
          (in_mask mb me k && turned (s.gpr rs) sh k)
          i
          k
        × Rotated s
            (do_rlwnm s rs ra rb mb me rc)
            ra
            rc
            (in_mask mb me k && turned (s.gpr rs) (s.gpr rb) k)
            i
            k
        × Rotated s
            (do_rlwimi s rs ra sh mb me rc)
            ra
            rc
            (if in_mask mb me k then turned (s.gpr rs) sh k else bit (s.gpr ra) k)
            i
            k
  unfolding do_rlwinm do_rlwnm do_rlwimi
  rotate_bits hb he =
      let m = mb_me_mask mb me in
      let r = rotl32 (s.gpr rs) sh in
      let r5 = rotl32 (s.gpr rs) (bit_and (s.gpr rb) 0x1f) in
      let mask = mb_me_mask-bits mb me k hb he l in
      let small = mb_me_mask-lt mb me in
      let small_r = rotl32-lt (s.gpr rs) sh (words.gpr rs) in
      let small_r5 = rotl32-lt (s.gpr rs) (bit_and (s.gpr rb) 0x1f) (words.gpr rs) in
      (
        written-Rotated s words ra rc (bit_and r m) i k l (bit_and-lt 32 r m small_r) _
            (ground (arith, bit-bit_and k r m, mask, rotl32-bits (s.gpr rs) sh k (words.gpr rs) l)),
        written-Rotated s words ra rc (bit_and r5 m) i k l (bit_and-lt 32 r5 m small_r5) _ (
            ground (
              arith,
              bit-bit_and k r5 m,
              bit_and_mask 5 (s.gpr rb),
              mask,
              rotl32-bits (s.gpr rs) (bit_and (s.gpr rb) 0x1f) k (words.gpr rs) l,
            )),
        written-Rotated s words ra rc (bit_or (bit_and r m) (bit_and (s.gpr ra) (not32 m))) i k l
            (bit_or-lt 32 _ _ (bit_and-lt 32 r m small_r)
              (bit_and-lt 32 (s.gpr ra) (not32 m) (words.gpr ra)))
            _
            (ground (
              arith,
              bit-bit_or k (bit_and r m) (bit_and (s.gpr ra) (not32 m)),
              bit-bit_and k r m,
              bit-bit_and k (s.gpr ra) (not32 m),
              bit-not32 k m l small,
              mask,
              rotl32-bits (s.gpr rs) sh k (words.gpr rs) l,
            )),
      )
