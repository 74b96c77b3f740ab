-- ===== src/LoadStore/Update.antt =====
-- The inline loads and stores of src/instr.h: update forms, sign-extending loads, and the load with
-- reservation and the store conditional.
use libppcemu.Prelude.{ℕ, bit_and, bit_or, true, false, nz, if◌then◌else◌, sext8, sext16}
use libppcemu.State.{State, set_gpr}
use libppcemu.Spr.{idx_xer, xer_so}
use libppcemu.Cr.{cr_set_field}
use libppcemu.Mmu.{V2p, is_success}
use libppcemu.LoadStore.{
  AccessLen, byte, half, word, indexed_ea, do_basic_store, do_indexed_store, do_basic_load,
  do_indexed_load,
}

-- `if (err == V2P_SUCCESS) state->gpr[rA] = ea;`
unfoldable pub update_base : ℕ × (V2p × State) → ℕ → V2p × State
update_base (ea, (err, s)) ra = (err, if is_success err then set_gpr s ra ea else s)

unfoldable pub do_basic_store_update : State → AccessLen → ℕ → ℕ → ℕ → State
do_basic_store_update s len rs ra d = (update_base (do_basic_store s len rs ra d) ra).1

unfoldable pub do_indexed_store_update : State → AccessLen → ℕ → ℕ → ℕ → State
do_indexed_store_update s len rs ra rb = (update_base (do_indexed_store s len rs ra rb) ra).1

-- The address is the result; `NULL` receives no error.
unfoldable pub do_indexed_store_conditional : State → AccessLen → ℕ → ℕ → ℕ → ℕ × State
do_indexed_store_conditional s len rs ra rb =
    let ea = indexed_ea s ra rb in
    let so : ℕ = if nz (bit_and (s.sprs idx_xer) xer_so) then 1 else 0 in
    let s1 =
      cr_set_field (record s { reserve = false }) 0 (if s.reserve then bit_or so 2 else so) in
    if s.reserve
    then (let (ea', (err, s2)) = do_indexed_store s1 len rs ra rb in (ea', s2))
    else (ea, s1)

unfoldable pub do_basic_load_update : State → AccessLen → ℕ → ℕ → ℕ → V2p × State
do_basic_load_update s len rd ra d = update_base (do_basic_load s len rd ra d) ra

-- The cast of the register's value after a load of this length.
unfoldable pub sign_extend : AccessLen → State → ℕ → State
sign_extend half s rd = set_gpr s rd (sext16 (s.gpr rd))
sign_extend byte s rd = set_gpr s rd (sext8 (s.gpr rd))
sign_extend word s rd = s

-- `if (ret != V2P_SUCCESS) return ret;` and the cast.
unfoldable pub extend_loaded : AccessLen → ℕ × (V2p × State) → ℕ → ℕ × (V2p × State)
extend_loaded len (ea, (err, s)) rd =
    (ea, (err, if is_success err then sign_extend len s rd else s))

unfoldable pub do_basic_load_signext : State → AccessLen → ℕ → ℕ → ℕ → V2p × State
do_basic_load_signext s len rd ra d = (extend_loaded len (do_basic_load s len rd ra d) rd).1

unfoldable pub do_basic_load_signext_update : State → AccessLen → ℕ → ℕ → ℕ → V2p × State
do_basic_load_signext_update s len rd ra d =
    update_base (extend_loaded len (do_basic_load s len rd ra d) rd) ra

unfoldable pub do_indexed_load_update : State → AccessLen → ℕ → ℕ → ℕ → V2p × State
do_indexed_load_update s len rd ra rb = update_base (do_indexed_load s len rd ra rb) ra

unfoldable pub do_indexed_load_signext : State → AccessLen → ℕ → ℕ → ℕ → V2p × State
do_indexed_load_signext s len rd ra rb = (extend_loaded len (do_indexed_load s len rd ra rb) rd).1

unfoldable pub do_indexed_load_signext_update : State → AccessLen → ℕ → ℕ → ℕ → V2p × State
do_indexed_load_signext_update s len rd ra rb =
    update_base (extend_loaded len (do_indexed_load s len rd ra rb) rd) ra

unfoldable pub do_indexed_load_conditional : State → AccessLen → ℕ → ℕ → ℕ → V2p × State
do_indexed_load_conditional s len rd ra rb =
    let (ea, (err, s1)) = do_indexed_load s len rd ra rb in
    if is_success err
    then (err, record s1 { reserve = true; reserve_addr = ea })
    else (err, record s1 { reserve = false })
