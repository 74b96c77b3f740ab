-- ===== src/LoadStore/Access.antt =====
-- How the loads and stores with update end, on success and on a fault.
use libppcemu.Prelude.{ℕ, ◌≡◌, true, false, arith, refl, ◌==◌, if◌then◌else◌, ◌&&◌, sext8, sext16}
use libppcemu.Bus.{Bytes}
use libppcemu.State.{State}
use libppcemu.Mmu.{V2p, success, not_mapped, no_perms, direct_store, is_success}
use libppcemu.Mmu.Fast.{basic_load, basic_store}
use libppcemu.Mmu.Faults.{
  Ended, GoesOn, basic_load-Ended, basic_store-Ended, Ended-gpr, Ended-GoesOn,
}
use libppcemu.LoadStore.{
  AccessLen, byte, half, word, size, stored_bytes, loaded_value, no_bytes, basic_ea, indexed_ea,
  finish_load, do_basic_load, do_basic_store, do_indexed_load,
}
use libppcemu.LoadStore.Update.{
  update_base, sign_extend, extend_loaded, do_basic_store_update, do_basic_load_signext_update,
  do_indexed_load_signext_update,
}

-- The value that a sign-extending load leaves.
unfoldable pub extended_value : AccessLen → Bytes → ℕ
extended_value byte raw = sext8 (loaded_value byte raw)
extended_value half raw = sext16 (loaded_value half raw)
extended_value word raw = loaded_value word raw

finish-Ended :
    (s s1 : State) (err : V2p) (raw : Bytes) (len : AccessLen) (ea rd ra i : ℕ)
    → Ended s false s1 err
    → let (e, t) =
        update_base
          (extend_loaded len (ea, finish_load (err, (raw, s1)) rd (loaded_value len)) rd)
          ra in
      GoesOn s t err
      × (e ≡ err)
      × (t.gpr i ≡ (
          if is_success err
          then (if i == ra then ea else if i == rd then extended_value len raw else s.gpr i)
          else s.gpr i))
unfolding update_base extend_loaded finish_load is_success sign_extend extended_value
finish-Ended s s1 (success phys cacheable) raw byte ea rd ra i e =
    ground (arith, Ended-gpr e i, Ended-GoesOn e)
finish-Ended s s1 (success phys cacheable) raw half ea rd ra i e =
    ground (arith, Ended-gpr e i, Ended-GoesOn e)
finish-Ended s s1 (success phys cacheable) raw word ea rd ra i e =
    ground (arith, Ended-gpr e i, Ended-GoesOn e)
finish-Ended s s1 not_mapped raw len ea rd ra i e = (Ended-GoesOn e, refl, Ended-gpr e i)
finish-Ended s s1 no_perms raw len ea rd ra i e = (Ended-GoesOn e, refl, Ended-gpr e i)
finish-Ended s s1 direct_store raw len ea rd ra i e = (Ended-GoesOn e, refl, Ended-gpr e i)

-- A load at `ea` into `rd` with update of `ra`, from the access's answer `err` and bytes `raw`.
abbrev pub LoadsWithUpdate : State → V2p × State → AccessLen → ℕ → ℕ → ℕ → ℕ → Type 0
LoadsWithUpdate s r len ea rd ra i =
    let (err, (raw, s1)) = basic_load s (size len) ea no_bytes in
    (r.0 ≡ err)
    × ((r.1).gpr i ≡ (
        if is_success err
        then (if i == ra then ea else if i == rd then extended_value len raw else s.gpr i)
        else s.gpr i))
    × GoesOn s (r.1) err

-- An algebraic load with update, of either addressing form, that succeeds leaves the effective
-- address in `rA`, the sign-extended value in `rD` if that is another register, and every other
-- general-purpose register alone, and goes on as before; one whose access faults leaves all
-- general-purpose registers alone, `rA` and `rD` included, and goes on at the data storage
-- interrupt with the address of the instruction in SRR0.
pub load_signext_update-LoadsWithUpdate :
    (s : State) (len : AccessLen) (rd ra rb d i : ℕ)
    → LoadsWithUpdate s (do_basic_load_signext_update s len rd ra d) len (basic_ea s ra d) rd ra i
      × LoadsWithUpdate s
          (do_indexed_load_signext_update s len rd ra rb)
          len
          (indexed_ea s ra rb)
          rd
          ra
          i
unfolding do_basic_load_signext_update do_basic_load do_indexed_load_signext_update do_indexed_load
load_signext_update-LoadsWithUpdate s len rd ra rb d i =
    (at (basic_ea s ra d), at (indexed_ea s ra rb))
  where
    at :
        (ea : ℕ)
        → LoadsWithUpdate s
            (update_base
              (extend_loaded len
                (ea, finish_load (basic_load s (size len) ea no_bytes) rd (loaded_value len))
                rd)
              ra)
            len
            ea
            rd
            ra
            i
    at ea =
        let (err, (raw, s1)) = basic_load s (size len) ea no_bytes in
        let (a, b, c) =
          finish-Ended s s1 err raw len ea rd ra i (basic_load-Ended s (size len) ea no_bytes) in
        (b, c, a)

stored-Ended :
    (s t : State) (err : V2p) (ea ra i : ℕ)
    → Ended s true t err
    → let (e, u) = update_base (ea, (err, t)) ra in
      (u.gpr i ≡ (if is_success err && i == ra then ea else s.gpr i)) × GoesOn s u err
unfolding update_base is_success
stored-Ended s t (success phys cacheable) ea ra i e = ground (arith, Ended-gpr e i, Ended-GoesOn e)
stored-Ended s t not_mapped ea ra i e = (Ended-gpr e i, Ended-GoesOn e)
stored-Ended s t no_perms ea ra i e = (Ended-gpr e i, Ended-GoesOn e)
stored-Ended s t direct_store ea ra i e = (Ended-gpr e i, Ended-GoesOn e)

-- A store with update leaves the effective address in `rA` if the access succeeds and every other
-- general-purpose register alone, and goes on as before; one whose access faults leaves all of
-- them alone, `rA` included, and goes on at the data storage interrupt.
pub do_basic_store_update_lem :
    (s : State) (len : AccessLen) (rs ra d i : ℕ)
    → let ea = basic_ea s ra d in
      let err = (basic_store s (size len) ea (stored_bytes len (s.gpr rs))).0 in
      let t = do_basic_store_update s len rs ra d in
      (t.gpr i ≡ (if is_success err && i == ra then ea else s.gpr i)) × GoesOn s t err
unfolding do_basic_store_update do_basic_store
do_basic_store_update_lem s len rs ra d i =
    let ea = basic_ea s ra d in
    let (err, t) = basic_store s (size len) ea (stored_bytes len (s.gpr rs)) in
    stored-Ended s t err ea ra i (basic_store-Ended s (size len) ea (stored_bytes len (s.gpr rs)))
