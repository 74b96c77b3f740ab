-- ===== src/Tests/System.antt =====
-- Special registers, time, power and reset.
use libppcemu.Prelude.{
  ◌+◌, ◌*◌, ◌<◌, ◌≤◌, ◌≡◌, true, false, none, pos, refl, arith, ◌==◌, if◌then◌else◌, bit_or,
}
use libppcemu.State.{State, PowerState}
use libppcemu.Spr.{idx_dec}
use libppcemu.Mmu.Tlb.{tlb_lookup}
use libppcemu.SprMove.{find_label, spr_case, do_mtspr, do_mfspr}
use libppcemu.SprMove.Laws.{
  has_spr, needed_cap, is_present, is_read_only, status_bits, Refused, do_mfspr-do_mtspr,
  do_mtspr-absent,
}
use libppcemu.Mmu.Translate.{virt2phys, virt2phys_slow}
use libppcemu.Mmu.Walk.{real_mode_cacheable, emu_cache_enabled, be32_to_cpu}
use libppcemu.Bus.{bus_read}
use libppcemu.Cache.Ram.{ram}
use libppcemu.Decode.{inst_opcd}
use libppcemu.Decode.Exec.{decode_exec}
use libppcemu.Decode.FloatUnit.{float_exec}
use libppcemu.Run.{is_run, is_sleep, fetch, fetch_translated, fetched, same_block, step}
use libppcemu.Run.Trap.{Trapped, step-invalid}
use libppcemu.Run.Time.{IsTicking, advance_steps, advance_steps-cycles}
use libppcemu.Run.Power.{IsDozing, WokenBy, step_until_run, step_until_run-WokenBy}
use libppcemu.Public.{read_spr, write_spr}
use libppcemu.Public.Access.{write_spr-stale}
use libppcemu.Public.Reset.{reset}
use libppcemu.Public.Fresh.{IsFresh, reset-IsFresh}
use libppcemu.Public.Throttle.{
  Epoch, Clock, tb_hz, emulated_us, real_us, pace, rt_throttle, rt_throttle-settles,
}
use libppcemu.Tests.Float.{whole_host}
use libppcemu.Tests.Data.{memory, test_state, test_state-HasWords, test_cache-IsRam}

-- mtspr 275, r5 (SPRG3); mfspr r6, 275
move_example :
    let s' = do_mfspr (do_mtspr test_state 5 275) 6 275 in
    (s'.gpr 6 ≡ bit_or 7 0) × (s'.pc ≡ 0x8000_0100) × (s'.branched ≡ false)
unfolding is_present is_read_only needed_cap status_bits spr_case find_label
move_example = do_mfspr-do_mtspr test_state 5 6 275 test_state-HasWords (omega arith) refl

-- GQR0 on a processor without paired singles
absent_example :
    Refused test_state (do_mtspr test_state 5 912) 3
    × Refused test_state (do_mfspr test_state 5 912) 3
    × Refused test_state (do_mtspr test_state 5 287) 3
    × (has_spr test_state 955 ≡ false)
    × (has_spr test_state 560 ≡ false)
unfolding is_present needed_cap spr_case find_label
absent_example = do_mtspr-absent test_state 5 912 3 refl

test_state-IsTicking : IsTicking test_state
test_state-IsTicking = record { some_ratio = omega arith; small = omega arith; below = omega arith }

-- Nine steps of three cycles, at twelve cycles a tick
cycles_example :
    let t = advance_steps 9 test_state true in
    (t.tb * 12 + t.tb_remainder ≡ 27) × (t.tb_remainder < 12)
cycles_example =
    advance_steps-cycles 9 test_state true test_state-IsTicking (omega arith) (omega arith)

abbrev dozing : State
dozing = record test_state {
  power_state = PowerState.doze;
  sprs = λ i. if i == idx_dec then 2 else 0;
}

dozing-IsDozing : IsDozing dozing
unfolding is_run is_sleep
dozing-IsDozing = record {
  is_ready = refl;
  ticking = record { some_ratio = omega arith; small = omega arith; below = omega arith };
  low = refl;
  not_asleep = refl;
  enabled = refl;
  no_external = refl;
  no_dec = refl;
  count = omega arith;
}

-- Three ticks of twelve cycles, at three cycles a step
wake_example : WokenBy dozing (step_until_run (λ s i. s) 12 dozing)
wake_example = step_until_run-WokenBy (λ s i. s) 12 dozing dozing-IsDozing (omega arith)

-- IBAT0U
stale_example :
    let t = write_spr test_state 528 9 in
    let u = do_mtspr test_state 5 528 in
    (read_spr t 528 ≡ 9)
    × (tlb_lookup t.dtlb 1 true false 0x1234 ≡ tlb_lookup test_state.dtlb 1 true false 0x1234)
    × (tlb_lookup t.itlb 1 true false 0x1234 ≡ tlb_lookup test_state.itlb 1 true false 0x1234)
    × (tlb_lookup u.dtlb 1 true false 0x1234 ≡ none)
    × (tlb_lookup u.itlb 1 true false 0x1234 ≡ none)
unfolding spr_case find_label
stale_example = write_spr-stale test_state 528 5 9 1 0x1234 true false refl (omega arith)

reset_example :
    ((reset true true test_state).0 ≡ pos 0)
    × (((reset true true test_state).1).ready ≡ true)
    × IsFresh memory test_state.model ((reset true true test_state).1)
reset_example =
    reset-IsFresh memory test_state true true test_cache-IsRam (omega arith) (omega arith)

-- At 0x1000 in real mode, before an undefined word, with an external interrupt to be taken
abbrev at_undefined : State
at_undefined = record test_state { msr = 0x8000; pc = 0x1000; external_interrupt_pending = true }

undefined_fetch : (fetch at_undefined).0 ≡ fetched 0x500_0000
unfolding fetch fetch_translated same_block virt2phys virt2phys_slow real_mode_cacheable
    emu_cache_enabled be32_to_cpu bus_read ram
undefined_fetch = refl

trap_example : Trapped at_undefined 0x700 (step (decode_exec (float_exec whole_host)) at_undefined)
unfolding is_run inst_opcd
trap_example =
    step-invalid (float_exec whole_host) at_undefined 0x500_0000 refl refl undefined_fetch
      (omega arith) refl

-- The time base is 0.05 seconds ahead of the host clock.
throttle_example :
    let start : Epoch = record { sec = 10; usec = 500_000; tb = 0 } in
    let now : Clock = record { sec = 11; usec = 0 } in
    let later : Clock = record { sec = 11; usec = 50_000 } in
    (50_000 ≤ 100_000) × (rt_throttle 4000 550_000 start later now ≡ (0, start))
unfolding rt_throttle pace emulated_us real_us tb_hz
throttle_example =
    rt_throttle-settles 4000 550_000 (record { sec = 10; usec = 500_000; tb = 0 })
      (record { sec = 11; usec = 0 }) (record { sec = 11; usec = 50_000 })
      (record { sec = 11; usec = 0 }) (omega arith) (omega arith) (omega arith, omega arith)
      (omega arith, omega arith) (omega arith) refl
