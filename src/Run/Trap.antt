-- ===== src/Run/Trap.antt =====
-- A step whose instruction traps: `ppcemu_step` of src/run.c with the decoder of src/decode.c.
use libppcemu.Prelude.{
  ℕ, ◌+◌, ◌<◌, ◌≡◌, ◌∙◌, ◌^◌, ap, refl, Bool-cases, inl, inr, true, false, arith, bit, nz, bit_and,
  nz-bit_and-pow, u32, if◌then◌else◌,
}
use libppcemu.State.{State}
use libppcemu.Spr.{idx_srr0, msr_ee, msr_pow}
use libppcemu.Exception.{exception_fire, exception_program, flush_caches}
use libppcemu.Exception.Entry.{exception_fire-saved, exception_fire-msr}
use libppcemu.Decode.{Handler}
use libppcemu.Decode.Exec.{decode_exec}
use libppcemu.Decode.Invalid.{is_invalid, decode_exec-invalid}
use libppcemu.Mmu.{V2p, success}
use libppcemu.Mmu.Translate.{virt2phys}
use libppcemu.Mmu.Frame.{SameCpu, cpu_of, virt2phys-SameCpu}
use libppcemu.Run.{
  advance_time, take_interrupts, Fetched, fetched, fetch, fetch_translated, fetch_key, same_block,
  execute, step, is_run, tick,
}
use libppcemu.Run.Time.{advance_time-frame}
use libppcemu.Run.Power.{fired_power}

-- `r` starts the handler at `idx` for the instruction at the address of `t`, still running, and
-- with what the application asked for left to be taken.
pub record Trapped (t : State) (idx : ℕ) (r : State) : Type 0 where
  pub at_vector : r.pc ≡ (if bit t.msr 6 then 0xfff0_0000 + idx else idx)
  pub at_fault : r.sprs idx_srr0 ≡ t.pc
  pub same_registers : (i : ℕ) → r.gpr i ≡ t.gpr i
  pub same_power : r.power_state ≡ t.power_state
  pub same_request : r.external_interrupt_pending ≡ t.external_interrupt_pending

-- The time that passes after an instruction leaves what a handler needs.
advance_time-Trapped :
    (t : State) (idx : ℕ) (r : State) → Trapped t idx r → Trapped t idx (advance_time r true)
unfolding advance_time tick
advance_time-Trapped t idx r h =
    let frame = advance_time-frame r true in
    record {
      at_vector = frame.5 ∙ h.at_vector;
      at_fault = ground (arith, h.at_fault);
      same_registers = λ i. ground (arith, h.same_registers i);
      same_power = frame.2 ∙ h.same_power;
      same_request = frame.3 ∙ h.same_request;
    }

exception_fire-Trapped :
    (t : State) (idx n : ℕ)
    → idx < 2 ^ 20
    → Trapped t idx (record (exception_fire t idx) { instr_count = n })
unfolding exception_fire flush_caches
exception_fire-Trapped t idx n h =
    let saved = exception_fire-saved t idx 0 h (omega arith) in
    record {
      at_vector = saved.2;
      at_fault = saved.0;
      same_registers = saved.4;
      same_power = fired_power t idx;
      same_request = ground arith;
    }

-- In a handler's first state no interrupt is taken and no power state is entered.
exception_fire-masked :
    (t : State) (idx : ℕ)
    → (nz (bit_and (exception_fire t idx).msr msr_ee) ≡ false)
      × (nz (bit_and (exception_fire t idx).msr msr_pow) ≡ false)
exception_fire-masked t idx = (
  nz-bit_and-pow 15 (exception_fire t idx).msr ∙ exception_fire-msr t idx 15 (omega arith),
  nz-bit_and-pow 18 (exception_fire t idx).msr ∙ exception_fire-msr t idx 18 (omega arith),
)

module _ (decode : State → ℕ → State) (s t u : State) (w idx : ℕ) (ready : s.ready ≡ true)
    (running : is_run s.power_state ≡ true) (got : fetch s ≡ (fetched w, t))
    (traps : decode t w ≡ exception_fire u idx) (small : idx < 2 ^ 20) where
  -- What is left of the step behind the trap is the passing of time.
  step_lem :
      let r = exception_fire u idx in
      step decode s ≡ advance_time (record r { instr_count = u32 (r.instr_count + 1) }) true
  unfolding step execute take_interrupts
  step_lem =
      let r : State = exception_fire u idx in
      let r1 : State = record r { instr_count = u32 (r.instr_count + 1) } in
      let frame = (advance_time-frame r1 true).1 in
      let masked = exception_fire-masked u idx in
      let ee : nz (bit_and (advance_time r1 true).msr msr_ee) ≡ false =
        ap (λ (m : ℕ). nz (bit_and m msr_ee)) frame ∙ masked.0 in
      let pow : nz (bit_and (advance_time r1 true).msr msr_pow) ≡ false =
        ap (λ (m : ℕ). nz (bit_and m msr_pow)) frame ∙ masked.1 in
      ground (arith, ready, running, got, traps, ee, pow)

  step-Trapped : Trapped u idx (step decode s)
  step-Trapped = rw step_lem (advance_time-Trapped u idx _ (exception_fire-Trapped u idx _ small))

-- A fetch leaves alone what `Trapped` speaks of.
abbrev SameFront : State → State → Type 0
SameFront s t =
    (t.pc ≡ s.pc)
    × (t.msr ≡ s.msr)
    × (t.power_state ≡ s.power_state)
    × (t.external_interrupt_pending ≡ s.external_interrupt_pending)
    × (t.gpr ≡ s.gpr)

SameCpu-SameFront : (s t : State) → SameCpu s t → SameFront s t
unfolding cpu_of
SameCpu-SameFront s t h = (
  ap (λ (x : State). x.pc) h,
  ap (λ (x : State). x.msr) h,
  ap (λ (x : State). x.power_state) h,
  ap (λ (x : State). x.external_interrupt_pending) h,
  ap (λ (x : State). x.gpr) h,
)

fetch_translated-SameFront :
    (err : V2p) (s : State) (key : ℕ) → SameFront s (fetch_translated err s key).1
unfolding fetch_translated
fetch_translated-SameFront (success phys cacheable) s key =
    (ground arith, ground arith, ground arith, ground arith, ground arith)
fetch_translated-SameFront err s key = (refl, refl, refl, refl, refl)

fetch-SameFront : (s : State) → SameFront s (fetch s).1
unfolding fetch
fetch-SameFront s =
    let moved =
      SameCpu-SameFront s (virt2phys s s.pc true false).1 (virt2phys-SameCpu s s.pc true false) in
    let rest =
      fetch_translated-SameFront (virt2phys s s.pc true false).0 (virt2phys s s.pc true false).1
        (fetch_key s) in
    elim (Bool-cases (same_block s)) [
      | inl hit ↦ rw hit (refl, refl, refl, refl, refl)
      | inr miss ↦
          rw miss (
            rest.0 ∙ moved.0,
            rest.1 ∙ moved.1,
            rest.2 ∙ moved.2,
            rest.3 ∙ moved.3,
            rest.4 ∙ moved.4,
          )
    ]

-- A step of a running processor that fetches a word which is no instruction (an opcode that is not
-- defined, or the Rc bit on a load or store with two registers for the address) ends at the program
-- exception's vector, with the `pc` from before the step in SRR0, the general-purpose registers and
-- the power state as before the step, and with an external interrupt that was asked for before it
-- still to be taken, whatever is pending and whatever the floating-point handlers do.
pub step-invalid :
    (fp : Handler) (s : State) (w : ℕ)
    → s.ready ≡ true
    → is_run s.power_state ≡ true
    → (fetch s).0 ≡ fetched w
    → w < 2 ^ 32
    → is_invalid w ≡ true
    → Trapped s 0x700 (step (decode_exec fp) s)
step-invalid fp s w ready running got word bad =
    let t = (fetch s).1 in
    let u : State = record t { branched = false } in
    let same = fetch-SameFront s in
    let h =
      step-Trapped (decode_exec fp) s t u w exception_program ready running
        (ap (λ (f : Fetched). (f, t)) got) (decode_exec-invalid fp t w word bad) (omega arith) in
    record {
      at_vector = ground (arith, h.at_vector, same.1);
      at_fault = h.at_fault ∙ same.0;
      same_registers = λ i. h.same_registers i ∙ ap (λ (f : ℕ → ℕ). f i) same.4;
      same_power = h.same_power ∙ same.2;
      same_request = h.same_request ∙ same.3;
    }
