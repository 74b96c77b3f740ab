-- ===== src/Arith/Effect.antt =====
-- What an arithmetic instruction of src/instr/arith.c does to the registers, told by its result,
-- its carry and its overflow.
use libppcemu.Prelude.{
  ℕ, ◌^◌, ◌<◌, ◌≡◌, Bool, false, ◌&&◌, ◌||◌, arith, bit, nz, ◌==◌, if◌then◌else◌, Option, none,
  some,
}
use libppcemu.State.{State, set_gpr}
use libppcemu.State.Words.{HasWords}
use libppcemu.Spr.{idx_xer}
use libppcemu.Arith.{set_xer_ca, set_xer_ov, record_oe, record_rc}
use libppcemu.Arith.Overflow.{
  set_xer_ca-bits, set_xer_ov-bits, set_xer_ca-lt, set_xer_ov-lt, recorded, record_rc-bits,
  record_rc-frame,
}

-- XER bit `k` after an instruction with the carry `ca`, if it sets one, and with the overflow `ov`,
-- which is recorded if `oe` is set; the summary bit 31 stays set.
abbrev pub xer_after : Option Bool → ℕ → Bool → ℕ → Bool → Bool
xer_after ca oe ov k old =
    if k == 29
    then elim ca [ none ↦ old | some c ↦ c ]
    else if nz oe && k == 30
    then ov
    else if nz oe && k == 31
    then ov || old
    else old

-- Register `rd` receives `result`, and no other one changes; XER is as above and no other special
-- register changes; CR field 0 records the result if `rc` is set.
abbrev pub Effect : State → State → ℕ → ℕ → ℕ → ℕ → Option Bool → Bool → ℕ → ℕ → Type 0
Effect s s' rd oe rc result ca ov i k =
    (s'.gpr i ≡ (if i == rd then result else s.gpr i))
    × (bit (s'.sprs idx_xer) k ≡ xer_after ca oe ov k (bit (s.sprs idx_xer) k))
    × (bit s'.cr k ≡ (
        if nz rc
        then recorded result (xer_after ca oe ov 31 (bit (s.sprs idx_xer) 31)) (bit s.cr k) k
        else bit s.cr k))
    × (s'.sprs i ≡ (if i == idx_xer then s'.sprs idx_xer else s.sprs i))

record_oe-bits :
    (s : State) (oe k : ℕ) (ov : Bool)
    → k < 32
    → bit ((record_oe s oe ov).sprs idx_xer) k
      ≡ xer_after (some (bit (s.sprs idx_xer) 29)) oe ov k (bit (s.sprs idx_xer) k)
record_oe-bits s oe k ov l = ground (arith, set_xer_ov-bits s ov k l)

record_oe-lt :
    (s : State) (oe : ℕ) (ov : Bool)
    → s.sprs idx_xer < 2 ^ 32
    → (record_oe s oe ov).sprs idx_xer < 2 ^ 32
record_oe-lt s oe ov h = ground (arith, set_xer_ov-lt s ov h)

record_oe-frame :
    (s : State) (oe i : ℕ) (ov : Bool)
    → ((record_oe s oe ov).gpr i ≡ s.gpr i)
      × ((record_oe s oe ov).sprs i
          ≡ (if i == idx_xer then (record_oe s oe ov).sprs idx_xer else s.sprs i))
      × ((record_oe s oe ov).cr ≡ s.cr)
unfolding set_xer_ov
record_oe-frame s oe i ov = (ground arith, ground arith, ground arith)

-- `set_xer_ca` where the instruction calls it.
unfoldable pub put_ca : State → Option Bool → State
put_ca s none = s
put_ca s (some c) = set_xer_ca s c

put_ca-frame :
    (s : State) (i : ℕ) (ca : Option Bool)
    → ((put_ca s ca).gpr i ≡ s.gpr i)
      × ((put_ca s ca).sprs i ≡ (if i == idx_xer then (put_ca s ca).sprs idx_xer else s.sprs i))
      × ((put_ca s ca).cr ≡ s.cr)
unfolding put_ca set_xer_ca
put_ca-frame s i none = (ground arith, ground arith, ground arith)
put_ca-frame s i (some c) = (ground arith, ground arith, ground arith)

put_ca-bits :
    (s : State) (k : ℕ) (ca : Option Bool)
    → k < 32
    → bit ((put_ca s ca).sprs idx_xer) k ≡ xer_after ca 0 false k (bit (s.sprs idx_xer) k)
unfolding put_ca
put_ca-bits s k none l = ground arith
put_ca-bits s k (some c) l = ground (arith, set_xer_ca-bits s c k l)

put_ca-lt :
    (s : State) (ca : Option Bool) → s.sprs idx_xer < 2 ^ 32 → (put_ca s ca).sprs idx_xer < 2 ^ 32
unfolding put_ca
put_ca-lt s none h = h
put_ca-lt s (some c) h = set_xer_ca-lt s c h

module _ (s : State) (words : HasWords s) (rd oe rc i k result : ℕ) (ca : Option Bool) (ov : Bool)
    (h : result < 2 ^ 32) (l : k < 32) where
  abbrev written : State
  written = put_ca (set_gpr s rd result) ca

  abbrev told : State
  told = record_oe written oe ov

  told-gpr : (j : ℕ) → told.gpr j ≡ (if j == rd then result else s.gpr j)
  told-gpr j =
      ground (arith, record_oe-frame written oe j ov, put_ca-frame (set_gpr s rd result) j ca)

  told-xer :
      (j : ℕ) → j < 32 → bit (told.sprs idx_xer) j ≡ xer_after ca oe ov j (bit (s.sprs idx_xer) j)
  told-xer j q = ground (
    arith,
    record_oe-bits written oe j ov q,
    put_ca-bits (set_gpr s rd result) j ca q,
    put_ca-bits (set_gpr s rd result) 29 ca,
  )

  told-lt : told.sprs idx_xer < 2 ^ 32
  told-lt = record_oe-lt written oe ov (put_ca-lt (set_gpr s rd result) ca (words.sprs idx_xer))

  told-sprs : (j : ℕ) → told.sprs j ≡ (if j == idx_xer then told.sprs idx_xer else s.sprs j)
  told-sprs j =
      ground (arith, record_oe-frame written oe j ov, put_ca-frame (set_gpr s rd result) j ca)

  told-cr : told.cr ≡ s.cr
  told-cr = ground (arith, record_oe-frame written oe 0 ov, put_ca-frame (set_gpr s rd result) 0 ca)

  -- The end of each instruction, after its result was computed.
  pub finish_lem : Effect s (record_rc told rc rd) rd oe rc result ca ov i k
  finish_lem = (
    ground (arith, record_rc-frame told rc rd i, told-gpr i),
    ground (arith, record_rc-frame told rc rd idx_xer, told-xer k l),
    ground (arith, record_rc-bits told rc rd k, told-gpr rd, told-xer 31, told-cr, told-lt),
    ground (arith, record_rc-frame told rc rd i, record_rc-frame told rc rd idx_xer, told-sprs i),
  )
