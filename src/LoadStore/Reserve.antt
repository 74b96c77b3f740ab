-- ===== src/LoadStore/Reserve.antt =====
-- The reservation: `do_indexed_load_conditional` (lwarx) and `do_indexed_store_conditional` (stwcx.)
-- of src/instr.h.
use libppcemu.Prelude.{
  ℕ, ◌%◌, ◌<◌, ◌≡◌, bit_and, bit_or, Bool, Bool-cases, inl, inr, true, false, ◌||◌, refl, sym,
  arith, ◌∙◌, bit, nz-bit_and-pow, all_below, all_below_lem, same_bool, same_bool_lem, nz, ◌==◌,
  if◌then◌else◌,
}
use libppcemu.State.{State}
use libppcemu.Spr.{idx_xer, xer_so}
use libppcemu.Cr.{cr_set_field}
use libppcemu.Cr.Fields.{cr_set_field-bits}
use libppcemu.Mmu.Faults.{basic_store-Ended, Ended-cr}
use libppcemu.LoadStore.{AccessLen, size, stored_bytes, indexed_ea, do_indexed_store}
use libppcemu.LoadStore.Update.{do_indexed_store_conditional}

-- CR field 0 of a store conditional: EQ and SO.
abbrev cr0_value : Bool → Bool → ℕ
cr0_value so held = let low : ℕ = if so then 1 else 0 in if held then bit_or low 2 else low

cr0_digit :
    (so held : Bool)
    → all_below 4 (λ j.
      same_bool (bit (cr0_value so held) j) (if j == 1 then held else if j == 0 then so else false))
      ≡ true
unfolding all_below bit
cr0_digit true true = refl
cr0_digit true false = refl
cr0_digit false true = refl
cr0_digit false false = refl

cr0_bit :
    (so held : Bool) (j : ℕ)
    → j < 4
    → bit (cr0_value so held) j ≡ (if j == 1 then held else if j == 0 then so else false)
cr0_bit so held j h = same_bool_lem _ _ (all_below_lem 4 j _ (cr0_digit so held) h)

-- CR bit `k` after a store conditional.
abbrev pub cr_after : State → ℕ → Bool
cr_after s k =
    if k == 29
    then s.reserve
    else if k == 28
    then bit (s.sprs idx_xer) 31
    else if k == 31 || k == 30
    then false
    else bit s.cr k

set_cr0 :
    (s : State) (k : ℕ)
    → k < 32
    → bit
        (cr_set_field
          (record s { reserve = false })
          0
          (cr0_value (nz (bit_and (s.sprs idx_xer) xer_so)) s.reserve)).cr
        k
      ≡ cr_after s k
set_cr0 s k h =
    let so = nz (bit_and (s.sprs idx_xer) xer_so) in
    ground (
      arith,
      nz-bit_and-pow 31 (s.sprs idx_xer),
      cr_set_field-bits (record s { reserve = false }) 0 (cr0_value so s.reserve) k (omega arith) h,
      cr0_bit so s.reserve (k % 4) (omega arith),
    )

module _ (s : State) (len : AccessLen) (rs ra rb : ℕ) where
  once :
      (k : ℕ)
      → k < 32
      → let t = (do_indexed_store_conditional s len rs ra rb).1 in
        (bit t.cr k ≡ cr_after s k) × (t.reserve ≡ false)
  unfolding do_indexed_store_conditional do_indexed_store cr_set_field
  once k h =
      let s1 =
        cr_set_field (record s { reserve = false }) 0
          (cr0_value (nz (bit_and (s.sprs idx_xer) xer_so)) s.reserve) in
      let ended =
        Ended-cr
          (basic_store-Ended s1 (size len) (indexed_ea s1 ra rb) (stored_bytes len (s1.gpr rs))) in
      ground (arith, set_cr0 s k h, ended)

  -- Without a reservation only CR and the mark of the reservation are written.
  idle :
      s.reserve ≡ false
      → let t = (do_indexed_store_conditional s len rs ra rb).1 in
        t ≡ record s { cr = t.cr; reserve = false }
  unfolding do_indexed_store_conditional cr_set_field
  idle e = rw e refl

  without :
      let t = (do_indexed_store_conditional s len rs ra rb).1 in
      t ≡ (if s.reserve then t else record s { cr = t.cr; reserve = false })
  without = elim (Bool-cases s.reserve) [
    | inl held ↦ rw held refl
    | inr free ↦ idle free ∙ sym (rw free refl)
  ]

-- A store conditional sets EQ of CR field 0 exactly when the reservation was held, SO to the
-- summary overflow, and clears LT and GT; it keeps the other CR digits and leaves no reservation,
-- also where its access faults. Without a reservation it changes nothing but CR and the reservation
-- mark, so that memory, the cache, the accesses made on the bus and the write-gather pipe stay as
-- they were; and a second store conditional right after any first one changes nothing but CR and
-- the reservation mark, and clears EQ.
pub do_indexed_store_conditional_lem :
    (s : State) (len len' : AccessLen) (rs ra rb rs' ra' rb' k : ℕ)
    → k < 32
    → let t = (do_indexed_store_conditional s len rs ra rb).1 in
      let u = (do_indexed_store_conditional t len' rs' ra' rb').1 in
      (bit t.cr k ≡ cr_after s k)
      × (t.reserve ≡ false)
      × (t ≡ (if s.reserve then t else record s { cr = t.cr; reserve = false }))
      × (u ≡ record t { cr = u.cr; reserve = false })
      × (bit u.cr 29 ≡ false)
do_indexed_store_conditional_lem s len len' rs ra rb rs' ra' rb' k h =
    let t = (do_indexed_store_conditional s len rs ra rb).1 in
    let u = (do_indexed_store_conditional t len' rs' ra' rb').1 in
    let first = once s len rs ra rb k h in
    let second : u ≡ record t { cr = u.cr; reserve = false } = idle t len' rs' ra' rb' first.1 in
    (
      first.0,
      first.1,
      without s len rs ra rb,
      second,
      (once t len' rs' ra' rb' 29 (omega arith)).0 ∙ first.1,
    )
