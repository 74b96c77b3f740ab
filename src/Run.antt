-- ===== src/Run.antt =====
-- One step of the processor: src/run.c. The throttle to real time, `ppcemu_rt_throttle` of
-- src/state.c, is Public/Throttle; it sleeps on the host and keeps its own epoch, so that of its two
-- calls only the count of idle steps is left. The decoder, `_ppcemu_decode_exec` of src/decode.c, is
-- an argument.
pub mod Time
pub mod Power
pub mod Trap
use libppcemu.Prelude.{
  ℕ, ◌+◌, ◌-◌, ◌*◌, ◌/◌, ◌^◌, bit_and, bit_or, Bool, true, false, not, ◌&&◌, ◌||◌, nz, ltb, leb,
  ◌==◌, if◌then◌else◌, u32, u64, sub32, not32, shr,
}
use libppcemu.Bus.{Bytes, bus_read}
use libppcemu.Cache.{Cache}
use libppcemu.Cache.Data.{icache_fetch}
use libppcemu.State.{State, PowerState, set_spr, icache_of, put_icache}
use libppcemu.Spr.{
  idx_dec, idx_pmc1, idx_hid0, msr_ir, msr_pr, msr_ee, msr_pow, hid0_doze, hid0_nap, hid0_sleep,
}
use libppcemu.Exception.{exception_fire, exception_ext, exception_dec, exception_isi}
use libppcemu.Mmu.{V2p, success}
use libppcemu.Mmu.Walk.{be32_to_cpu}
use libppcemu.Mmu.Translate.{virt2phys}
use libppcemu.Mmu.Access.{set_isi_info}

abbrev pub core_cycles_per_instr : ℕ
core_cycles_per_instr = 3

-- `*instr`, or the error of the translation.
pub data Fetched : Type 0 where
  fetched : ℕ → Fetched
  refused : V2p → Fetched

-- The word at an address in the bytes of its line.
unfoldable pub word_in : Bytes → ℕ → ℕ
word_in bytes addr = be32_to_cpu (λ j. bytes (bit_and addr 31 + j))

-- `ppcemu_icache_line` of src/cache.h
unfoldable pub icache_line : Cache → ℕ → ℕ
icache_line c addr = bit_and (shr addr 5) (c.line_count - 1)

unfoldable pub fetch_key : State → ℕ
fetch_key s = bit_and s.msr (bit_or msr_ir msr_pr)

-- Same 32-byte block as last time, and its line is still there.
unfoldable pub same_block : State → Bool
same_block s =
    let line = s.icache.lines s.ifetch_line in
    s.ifetch_valid
    && bit_and s.pc (not32 31) == s.ifetch_vbase
    && fetch_key s == s.ifetch_msr
    && line.valid
    && line.tag == s.ifetch_pbase

-- What follows the translation.
unfoldable pub fetch_translated : V2p → State → ℕ → Fetched × State
fetch_translated (success phys cacheable) s key =
    if cacheable
    then (let (raw, p) = icache_fetch (icache_of s) phys (λ j. 0) in
        let s1 = put_icache s p in
        (
          fetched (be32_to_cpu raw),
          record s1 {
            ifetch_line = icache_line s1.icache phys;
            ifetch_vbase = bit_and s1.pc (not32 31);
            ifetch_pbase = bit_and phys (not32 31);
            ifetch_msr = key;
            ifetch_valid = true;
          },
        ))
    else (let (raw, bus) = bus_read s.bus phys 4 in
        (fetched (be32_to_cpu raw), record s { bus = bus }))
fetch_translated err s key = (refused err, s)

unfoldable pub fetch : State → Fetched × State
fetch s =
    let (err, s1) = virt2phys s s.pc true false in
    if same_block s
    then (fetched (word_in (s.icache.lines s.ifetch_line).bytes s.pc), s)
    else fetch_translated err s1 (fetch_key s)

-- `(i32)dec >= 0 && (i32)(dec - tb_delta) < 0`
unfoldable pub underflows : ℕ → ℕ → Bool
underflows dec delta = ltb dec (2 ^ 31) && leb (2 ^ 31) (sub32 dec (u32 delta))

-- The part of `advance_time` behind its early return.
unfoldable pub tick : State → ℕ → ℕ → State
tick s rem ticks_per_tb =
    let delta = rem / ticks_per_tb in
    let dec = s.sprs idx_dec in
    set_spr
      (record s {
        tb_remainder = sub32 rem (u32 (u32 delta * ticks_per_tb));
        tb = u64 (s.tb + delta);
        dec_exception_pending = s.dec_exception_pending || underflows dec delta;
      })
      idx_dec (sub32 dec (u32 delta))

unfoldable pub advance_time : State → Bool → State
advance_time s pmc =
    let ticks_per_tb = u32 (4 * s.c2b_mult) in
    let rem = u32 (s.tb_remainder + core_cycles_per_instr) in
    let s1 =
      if pmc then set_spr s idx_pmc1 (u32 (s.sprs idx_pmc1 + core_cycles_per_instr)) else s in
    if ltb rem ticks_per_tb then record s1 { tb_remainder = rem } else tick s1 rem ticks_per_tb

-- The bits of `hid0 & (DOZE | NAP | SLEEP)`: none or several select no low-power mode.
unfoldable pub selected_power : ℕ → PowerState → PowerState
selected_power bits old =
    if bits == hid0_doze
    then PowerState.doze
    else if bits == hid0_nap
    then PowerState.nap
    else if bits == hid0_sleep
    then PowerState.sleep
    else old

unfoldable pub check_power_state : State → State
check_power_state s = if not (nz (bit_and s.msr msr_pow)) then s else record s {
  power_state =
      selected_power (bit_and (s.sprs idx_hid0) (bit_or (bit_or hid0_doze hid0_nap) hid0_sleep))
        s.power_state;
}

unfoldable pub is_sleep : PowerState → Bool
is_sleep PowerState.sleep = true
is_sleep _ = false

unfoldable pub is_run : PowerState → Bool
is_run PowerState.run = true
is_run _ = false

-- The wake events of a low-power step.
unfoldable pub wake : State → Bool → State
wake s ee =
    if s.external_interrupt_pending && ee
    then exception_fire (record s { power_state = PowerState.run }) exception_ext
    else if s.dec_exception_pending && ee && not (is_sleep s.power_state)
    then (let s1 = exception_fire (record s { power_state = PowerState.run }) exception_dec in
        record s1 { dec_exception_pending = false })
    else s

-- One step while in Doze, Nap or Sleep.
unfoldable pub step_low_power : State → State
step_low_power s =
    let ee = nz (bit_and s.msr msr_ee) in
    let s1 = if is_sleep s.power_state then s else advance_time s false in
    let s2 = if s1.sync_rt then record s1 { idle_steps = u32 (s1.idle_steps + 1) } else s1 in
    wake s2 ee

-- The interrupts that a step takes behind its instruction.
unfoldable pub take_interrupts : State → State
take_interrupts s =
    let ee = nz (bit_and s.msr msr_ee) in
    if s.external_interrupt_pending && ee
    then exception_fire s exception_ext
    else if s.dec_exception_pending && ee
    then (let s1 = exception_fire s exception_dec in record s1 { dec_exception_pending = false })
    else s

module _ (decode_exec : State → ℕ → State) where
  -- What follows the fetch.
  unfoldable pub execute : Fetched × State → State
  execute (refused err, s) = set_isi_info (exception_fire s exception_isi) err
  execute (fetched instr, s) =
      let s1 = decode_exec s instr in
      let s2 = advance_time (record s1 { instr_count = u32 (s1.instr_count + 1) }) true in
      let s3 = take_interrupts s2 in
      if nz (bit_and s3.msr msr_pow) then check_power_state s3 else s3

  unfoldable pub step : State → State
  step s =
      if not s.ready
      then s
      else if not (is_run s.power_state)
      then step_low_power s
      else execute (fetch s)
