-- ===== src/Run/Power.antt =====
-- How a processor in Doze or Nap wakes: `step_low_power` of src/run.c.
use libppcemu.Prelude.{
  ℕ, zero, suc, ◌+◌, ◌-◌, ◌*◌, ◌^◌, ◌<◌, ◌≤◌, ◌≡◌, inl, inr, Bool-cases, true, false, ◌&&◌, ◌∙◌,
  arith, ap, bit, bit_and, nz, ◌==◌, if◌then◌else◌, u32,
}
use libppcemu.State.{State, PowerState}
use libppcemu.Spr.{idx_dec, idx_srr0, msr_ee}
use libppcemu.Exception.{exception_fire, flush_caches, exception_dec}
use libppcemu.Exception.Entry.{exception_fire-saved}
use libppcemu.Run.{advance_time, step_low_power, wake, is_run, is_sleep, step}
use libppcemu.Run.Time.{
  IsTicking, tick_cycles, step_ticks, advance_time_lem, advance_time-IsTicking, advance_time-frame,
  step_mul,
}

-- In Doze or Nap with interrupts enabled, none pending, and a decrementer that is not negative.
pub record IsDozing (s : State) : Type 0 where
  pub is_ready : s.ready ≡ true
  pub ticking : IsTicking s
  pub low : is_run s.power_state ≡ false
  pub not_asleep : is_sleep s.power_state ≡ false
  pub enabled : nz (bit_and s.msr msr_ee) ≡ true
  pub no_external : s.external_interrupt_pending ≡ false
  pub no_dec : s.dec_exception_pending ≡ false
  pub count : s.sprs idx_dec < 2 ^ 31

-- `t` starts the decrementer's handler for an interrupt of `s`.
abbrev pub WokenBy : State → State → Type 0
WokenBy s t =
    (is_run t.power_state ≡ true)
    × (t.pc ≡ (if bit s.msr 6 then 0xfff0_0900 else 0x900))
    × (t.sprs idx_srr0 ≡ s.pc)
    × (t.dec_exception_pending ≡ false)

-- The core cycles until the decrementer passes zero, with those already left over.
abbrev cycles_left : State → ℕ
cycles_left s = s.sprs idx_dec * tick_cycles s + tick_cycles s

module _ (decode_exec : State → ℕ → State) where
  -- `ppcemu_step` up to `n` times, until the processor runs.
  unfoldable pub step_until_run : ℕ → State → State
  step_until_run zero s = s
  step_until_run (suc n) s =
      let t = step decode_exec s in
      let rest = step_until_run n t in if is_run t.power_state then t else rest

after_time : State → State
after_time s =
    let s1 = advance_time s false in
    if s1.sync_rt then record s1 { idle_steps = u32 (s1.idle_steps + 1) } else s1

after_time-frame :
    (s : State)
    → let t = after_time s in
      let u = advance_time s false in
      (t.c2b_mult ≡ u.c2b_mult)
      × (t.msr ≡ u.msr)
      × (t.power_state ≡ u.power_state)
      × (t.external_interrupt_pending ≡ u.external_interrupt_pending)
      × (t.ready ≡ u.ready)
      × (t.pc ≡ u.pc)
      × (t.tb_remainder ≡ u.tb_remainder)
      × (t.sprs idx_dec ≡ u.sprs idx_dec)
      × (t.dec_exception_pending ≡ u.dec_exception_pending)
unfolding after_time
after_time-frame s = ground arith

-- A step's time of a processor that dozes on.
after_time-IsDozing :
    (s : State)
    → IsDozing s
    → (step_ticks s == 1 && s.sprs idx_dec == 0) ≡ false
    → IsDozing (after_time s)
      × (cycles_left (after_time s) + s.tb_remainder + 3
          ≡ cycles_left s + (after_time s).tb_remainder)
      × ((after_time s).pc ≡ s.pc)
      × ((after_time s).msr ≡ s.msr)
after_time-IsDozing s d h =
    let word : s.sprs idx_dec < 2 ^ 32 = omega (arith, d.count) in
    let u = advance_time s false in
    let lem = advance_time_lem s false d.ticking word in
    let frame = advance_time-frame s false in
    let same = after_time-frame s in
    let ticking = advance_time-IsTicking s false d.ticking word in
    (
      record {
        is_ready = ground (arith, frame, same, d.is_ready);
        ticking = record {
          some_ratio = ground (arith, ticking.some_ratio, same);
          small = ground (arith, ticking.small, same);
          below = ground (arith, ticking.below, same);
        };
        low = ap is_run same.2 ∙ ap is_run frame.2 ∙ d.low;
        not_asleep = ap is_sleep same.2 ∙ ap is_sleep frame.2 ∙ d.not_asleep;
        enabled = ap (λ (m : ℕ). nz (bit_and m msr_ee)) (same.1 ∙ frame.1) ∙ d.enabled;
        no_external = ground (arith, frame, same, d.no_external);
        no_dec = ground (arith, lem, same, d.no_dec, h);
        count = ground (arith, lem, same, d.count, h);
      },
      ground (
        arith,
        lem,
        frame.0,
        same.0,
        same.6,
        same.7,
        h,
        ap (λ (c : ℕ). (after_time s).sprs idx_dec * (4 * c)) (same.0 ∙ frame.0),
        step_mul (s.sprs idx_dec - 1) (tick_cycles s),
      ),
      ground (arith, frame, same),
      same.1 ∙ frame.1,
    )

pub fired_power : (s : State) (idx : ℕ) → (exception_fire s idx).power_state ≡ s.power_state
unfolding exception_fire flush_caches
fired_power s idx = ground arith

wake-WokenBy :
    (u : State)
    → u.external_interrupt_pending ≡ false
    → u.dec_exception_pending ≡ true
    → is_sleep u.power_state ≡ false
    → WokenBy u (wake u true)
unfolding wake is_run
wake-WokenBy u ext pending awake =
    let r : State = record u { power_state = PowerState.run } in
    ground (
      arith,
      ext,
      pending,
      awake,
      fired_power r exception_dec,
      exception_fire-saved r exception_dec 0 (omega arith) (omega arith),
    )

module _ (decode_exec : State → ℕ → State) where
  dozes_on :
      (s : State)
      → IsDozing s
      → (step_ticks s == 1 && s.sprs idx_dec == 0) ≡ false
      → step decode_exec s ≡ after_time s
  unfolding step step_low_power wake after_time
  dozes_on s d h =
      let d' = (after_time-IsDozing s d h).0 in
      ground (arith, d.is_ready, d.low, d.not_asleep, d'.no_dec, d'.no_external)

  wakes :
      (s : State)
      → IsDozing s
      → (step_ticks s == 1 && s.sprs idx_dec == 0) ≡ true
      → WokenBy s (step decode_exec s)
  unfolding step step_low_power
  wakes s d h =
      let u = after_time s in
      let word : s.sprs idx_dec < 2 ^ 32 = omega (arith, d.count) in
      let lem = advance_time_lem s false d.ticking word in
      let frame = advance_time-frame s false in
      let same = after_time-frame s in
      let ext : u.external_interrupt_pending ≡ false = same.3 ∙ frame.3 ∙ d.no_external in
      let pending : u.dec_exception_pending ≡ true = ground (arith, lem, same, h) in
      let awake : is_sleep u.power_state ≡ false =
        ap is_sleep same.2 ∙ ap is_sleep frame.2 ∙ d.not_asleep in
      let woken = wake-WokenBy u ext pending awake in
      let stepped : step decode_exec s ≡ wake u true =
        unfold after_time in ground (arith, d.is_ready, d.low, d.not_asleep, d.enabled) in
      rw stepped (
        woken.0,
        ground (arith, woken, same.1, frame.1, ap (λ (m : ℕ). bit m 6) (same.1 ∙ frame.1)),
        ground (arith, woken, same, frame),
        woken.3,
      )

  -- A processor in Doze or Nap with interrupts enabled, none pending, and a decrementer that is not
  -- negative wakes by the decrementer: within as many steps as the core cycles until it passes zero
  -- need at three a step, it runs again, at the decrementer's vector, with the address where it
  -- went to sleep in SRR0 and the exception no longer pending, whatever the decoder.
  pub step_until_run-WokenBy :
      (n : ℕ) (s : State)
      → IsDozing s
      → cycles_left s ≤ s.tb_remainder + 3 * n
      → WokenBy s (step_until_run decode_exec n s)
  unfolding step_until_run
  step_until_run-WokenBy zero s d h = absurd (omega (arith, h, d.ticking.below))
  step_until_run-WokenBy (suc n) s d h =
      elim (Bool-cases (step_ticks s == 1 && s.sprs idx_dec == 0)) [
        | inl now ↦ let w = wakes s d now in rw w.0 w
        | inr later ↦
            let (d', cycles, pc, msr) = after_time-IsDozing s d later in
            let rest = step_until_run-WokenBy n (after_time s) d' (omega (arith, cycles, h)) in
            rw (dozes_on s d later, d'.low) (ground (arith, rest, pc, ap (λ (m : ℕ). bit m 6) msr))
      ]
