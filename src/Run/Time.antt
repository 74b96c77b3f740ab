-- ===== src/Run/Time.antt =====
-- The time base and the decrementer: `advance_time` of src/run.c.
use libppcemu.Prelude.{
  ℕ, zero, suc, ◌+◌, ◌*◌, ◌/◌, ◌^◌, ◌<◌, ◌≤◌, ◌≡◌, Bool, ◌&&◌, ◌||◌, arith, ap, ltb, ◌==◌,
  if◌then◌else◌, u64, sub32,
}
use libppcemu.State.{State}
use libppcemu.Spr.{idx_dec}
use libppcemu.Run.{advance_time, tick, underflows}

-- Core cycles in one tick of the time base.
abbrev pub tick_cycles : State → ℕ
tick_cycles s = 4 * s.c2b_mult

-- The bus clock divides the core clock, without overflow, and fewer cycles than a tick are left over.
pub record IsTicking (s : State) : Type 0 where
  pub some_ratio : 0 < s.c2b_mult
  pub small : tick_cycles s < 2 ^ 32
  pub below : s.tb_remainder < tick_cycles s

-- Ticks that a step makes.
abbrev pub step_ticks : State → ℕ
step_ticks s = if ltb (s.tb_remainder + 3) (tick_cycles s) then 0 else 1

one_tick : (a b : ℕ) → b ≤ a → a < b + b → a / b ≡ 1
one_tick a b h l = grind arith

-- A step accounts for its three cycles.
pub advance_time_lem :
    (s : State) (pmc : Bool)
    → IsTicking s
    → s.sprs idx_dec < 2 ^ 32
    → let t = advance_time s pmc in
      let k = step_ticks s in
      (t.tb_remainder < tick_cycles s)
      × (t.tb_remainder + k * tick_cycles s ≡ s.tb_remainder + 3)
      × (t.tb ≡ (if k == 0 then s.tb else u64 (s.tb + 1)))
      × (t.sprs idx_dec ≡ (if k == 0 then s.sprs idx_dec else sub32 (s.sprs idx_dec) 1))
      × (t.dec_exception_pending ≡ s.dec_exception_pending || (k == 1 && s.sprs idx_dec == 0))
unfolding advance_time tick underflows
advance_time_lem s pmc ok word =
    ground (arith, ok.some_ratio, ok.small, ok.below, one_tick (s.tb_remainder + 3) (tick_cycles s))

pub advance_time-frame :
    (s : State) (pmc : Bool)
    → let t = advance_time s pmc in
      (t.c2b_mult ≡ s.c2b_mult)
      × (t.msr ≡ s.msr)
      × (t.power_state ≡ s.power_state)
      × (t.external_interrupt_pending ≡ s.external_interrupt_pending)
      × (t.ready ≡ s.ready)
      × (t.pc ≡ s.pc)
unfolding advance_time tick
advance_time-frame s pmc = ground arith

pub advance_time-IsTicking :
    (s : State) (pmc : Bool)
    → IsTicking s
    → s.sprs idx_dec < 2 ^ 32
    → IsTicking (advance_time s pmc)
advance_time-IsTicking s pmc ok word =
    let below = (advance_time_lem s pmc ok word).0 in
    let frame = (advance_time-frame s pmc).0 in
    record {
      some_ratio = omega (arith, frame, ok.some_ratio);
      small = omega (arith, frame, ok.small);
      below = omega (arith, frame, below);
    }

pub step_mul : (a b : ℕ) → (a + 1) * b ≡ a * b + b
step_mul a b = grind arith

-- `n` steps' worth of time.
abbrev pub advance_steps : ℕ → State → Bool → State
advance_steps zero s pmc = s
advance_steps (suc n) s pmc = advance_steps n (advance_time s pmc) pmc

-- Time runs at the clock's rate: where the ratio of the clocks is positive and a tick's cycles are
-- a 32-bit number above the cycles left over, `n` steps that do not take the time base past 64 bits
-- advance it, in core cycles, by exactly three a step, with less than a tick left over.
pub advance_steps-cycles :
    (n : ℕ) (s : State) (pmc : Bool)
    → IsTicking s
    → s.sprs idx_dec < 2 ^ 32
    → s.tb + n < 2 ^ 64
    → let t = advance_steps n s pmc in
      (t.tb * tick_cycles s + t.tb_remainder ≡ s.tb * tick_cycles s + s.tb_remainder + 3 * n)
      × (t.tb_remainder < tick_cycles s)
advance_steps-cycles zero s pmc ok word small = (omega arith, ok.below)
advance_steps-cycles (suc n) s pmc ok word small =
    let s1 = advance_time s pmc in
    let (below, sum, tb, dec, pending) = advance_time_lem s pmc ok word in
    let frame = (advance_time-frame s pmc).0 in
    let same : tick_cycles s1 ≡ tick_cycles s = omega (arith, frame) in
    let word' : s1.sprs idx_dec < 2 ^ 32 = ground (arith, dec) in
    let small' : s1.tb + n < 2 ^ 64 = ground (arith, tb) in
    let rest = advance_steps-cycles n s1 pmc (advance_time-IsTicking s pmc ok word) word' small' in
    let cycles : s1.tb * tick_cycles s + s1.tb_remainder
        ≡ s.tb * tick_cycles s + s.tb_remainder + 3 =
      ground (arith, tb, sum, step_mul s.tb (tick_cycles s)) in
    let (total, left) = rest in
    (
      omega (
        arith,
        cycles,
        total,
        ap (λ (x : ℕ). s1.tb * x) same,
        ap (λ (x : ℕ). (advance_steps n s1 pmc).tb * x) same,
      ),
      omega (arith, left, same),
    )
