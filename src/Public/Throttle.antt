-- ===== src/Public/Throttle.antt =====
-- `ppcemu_rt_throttle` of src/state.c. The readings of the host clock are arguments, the call of
-- `usleep` is the number of microseconds in the result, and the fields `rt_epoch_sec`,
-- `rt_epoch_usec` and `rt_epoch_tb` of the state are a record of their own.
use libppcemu.Prelude.{
  ℕ, ◌+◌, ◌-◌, ◌*◌, ◌/◌, ◌%◌, ◌^◌, ◌<◌, ◌≤◌, ◌≡◌, ◌⊎◌, inl, inr, Bool-cases, refl, arith, false,
  ltb, ◌==◌, if◌then◌else◌, u64,
}

pub record Epoch : Type 0 where
  pub sec : ℕ
  pub usec : ℕ
  pub tb : ℕ

-- A reading of the monotonic clock, with its nanoseconds divided by 1000.
pub record Clock : Type 0 where
  pub sec : ℕ
  pub usec : ℕ

unfoldable pub rt_reseed : ℕ → Clock → Epoch
rt_reseed tb now = record { sec = now.sec; usec = now.usec; tb = tb }

-- The 64-bit difference of C.
abbrev pub minus64 : ℕ → ℕ → ℕ
minus64 a b = u64 (a + 0x1_0000_0000_0000_0000 - b % 0x1_0000_0000_0000_0000)

unfoldable pub tb_hz : ℕ → ℕ
tb_hz bus_speed_khz = u64 (bus_speed_khz * 1000) / 4

unfoldable pub emulated_us : ℕ → ℕ → Epoch → ℕ
emulated_us hz tb epoch = u64 (minus64 tb epoch.tb * 1_000_000) / hz

unfoldable pub real_us : Epoch → Clock → ℕ
real_us epoch now = u64 (u64 (minus64 now.sec epoch.sec * 1_000_000) + minus64 now.usec epoch.usec)

-- The two tests; `again` is the reading that a new epoch starts from.
unfoldable pub pace : ℕ → ℕ → ℕ → Epoch → Clock → ℕ × Epoch
pace emulated real tb epoch again =
    if ltb real emulated
    then if ltb 100_000 (emulated - real) then (0, rt_reseed tb again) else (emulated - real, epoch)
    else if ltb (u64 (emulated + 250_000)) real
    then (0, rt_reseed tb again)
    else (0, epoch)

unfoldable pub rt_throttle : ℕ → ℕ → Epoch → Clock → Clock → ℕ × Epoch
rt_throttle bus_speed_khz tb epoch now again =
    let hz = tb_hz bus_speed_khz in
    if hz == 0
    then (0, epoch)
    else pace (emulated_us hz tb epoch) (real_us epoch now) tb epoch again

-- Microseconds of a reading.
abbrev pub total_us : Clock → ℕ
total_us c = c.sec * 1_000_000 + c.usec

abbrev pub IsReading : Clock → Type 0
IsReading c = (c.sec < 2 ^ 40) × (c.usec < 1_000_000)

real_us_lem :
    (epoch : Epoch) (now : Clock)
    → IsReading now
    → epoch.usec < 1_000_000
    → epoch.sec * 1_000_000 + epoch.usec ≤ total_us now
    → real_us epoch now ≡ total_us now - (epoch.sec * 1_000_000 + epoch.usec)
unfolding real_us
real_us_lem epoch now r m h = omega (arith, r.0, r.1)

-- A new epoch has seen no time of either kind.
fresh_us :
    (hz tb : ℕ) (epoch : Epoch)
    → (hz == 0) ≡ false
    → epoch.tb ≡ tb
    → tb < 2 ^ 64
    → emulated_us hz tb epoch ≡ 0
unfolding emulated_us
fresh_us hz tb epoch some e l =
    let none : u64 (minus64 tb epoch.tb * 1_000_000) ≡ 0 = omega arith in
    rw none (ground (arith, some))

-- What a call leaves behind: a wait that catches up and the old epoch, no wait and the old epoch,
-- or a new epoch.
pace_cases :
    (emulated real tb : ℕ) (epoch : Epoch) (again third : Clock)
    → real < 2 ^ 62
    → let (us, epoch2) = pace emulated real tb epoch again in
      (us ≤ 100_000)
      × (((epoch2 ≡ epoch) × (pace emulated (real + us) tb epoch third ≡ (0, epoch)))
          ⊎ ((us ≡ 0) × (epoch2 ≡ rt_reseed tb again)))
unfolding pace
pace_cases emulated real tb epoch again third l = elim (Bool-cases (ltb real emulated)) [
  | inl ahead ↦ elim (Bool-cases (ltb 100_000 (emulated - real))) [
    | inl far ↦ rw (ahead, far, pace) (omega arith, inr (refl, refl))
    | inr near ↦
        let here : real + (emulated - real) ≡ emulated = ground (arith, ahead) in
        let not_ahead : ltb emulated emulated ≡ false = ground arith in
        let not_late : ltb (u64 (emulated + 250_000)) emulated ≡ false =
          ground (arith, ahead, near, l) in
        rw (ahead, near, here, not_ahead, not_late, pace) (ground (arith, near), inl (refl, refl))
  ]
  | inr behind ↦ elim (Bool-cases (ltb (u64 (emulated + 250_000)) real)) [
    | inl far ↦ rw (behind, far, pace) (omega arith, inr (refl, refl))
    | inr near ↦
        let here : real + 0 ≡ real = omega arith in
        rw (behind, near, here, behind, near, pace) (omega arith, inl (refl, refl))
  ]
]

running :
    (khz : ℕ)
    → tb_hz khz == 0 ≡ false
    → (tb : ℕ) (epoch : Epoch) (now again : Clock)
    → rt_throttle khz tb epoch now again
      ≡ pace (emulated_us (tb_hz khz) tb epoch) (real_us epoch now) tb epoch again
unfolding rt_throttle
running khz some tb epoch now again = rw some refl

-- A call right after a new epoch finds nothing to do.
fresh_pace :
    (hz tb : ℕ) (now third : Clock)
    → hz == 0 ≡ false
    → tb < 2 ^ 64
    → IsReading now
    → let e = rt_reseed tb now in pace (emulated_us hz tb e) (real_us e now) tb e third ≡ (0, e)
unfolding pace
fresh_pace hz tb now third some l r =
    let e = rt_reseed tb now in
    let none : emulated_us hz tb e ≡ 0 = fresh_us hz tb e some (unfold rt_reseed in refl) l in
    let time : (e.sec ≡ now.sec) × (e.usec ≡ now.usec) = unfold rt_reseed in (refl, refl) in
    let still : real_us e now ≡ 0 =
      omega (arith, time, real_us_lem e now r (omega (arith, time, r.1)) (omega (arith, time))) in
    rw (none, still) refl

-- For a 64-bit time base and readings of the host clock below 2^40 seconds that are not before the
-- epoch, a call of the throttle sleeps for at most 0.1 seconds, and a second call at the same time
-- base, once the clock has moved on by exactly that sleep, neither sleeps nor starts a new epoch.
pub rt_throttle-settles :
    (bus_speed_khz tb : ℕ) (epoch : Epoch) (now later third : Clock)
    → tb < 2 ^ 64
    → epoch.usec < 1_000_000
    → IsReading now
    → IsReading later
    → epoch.sec * 1_000_000 + epoch.usec ≤ total_us now
    → total_us later ≡ total_us now + (rt_throttle bus_speed_khz tb epoch now later).0
    → let (us, epoch2) = rt_throttle bus_speed_khz tb epoch now later in
      (us ≤ 100_000) × (rt_throttle bus_speed_khz tb epoch2 later third ≡ (0, epoch2))
unfolding rt_throttle
rt_throttle-settles khz tb epoch now later third l m r r2 before after =
    elim (Bool-cases (tb_hz khz == 0)) [
      | inl none ↦ rw (none, rt_throttle) (omega arith, refl)
      | inr some ↦
          let hz = tb_hz khz in
          let emulated = emulated_us hz tb epoch in
          let real = real_us epoch now in
          let first = real_us_lem epoch now r m before in
          let run = running khz some tb in
          let us = (rt_throttle khz tb epoch now later).0 in
          let epoch2 = (rt_throttle khz tb epoch now later).1 in
          let (bound, how) =
            pace_cases emulated real tb epoch later third (omega (arith, first, r.0, r.1)) in
          (
            rw (run epoch now later) bound,
            elim how [
              | inl (same, again) ↦
                  let e : epoch2 ≡ epoch = rw (run epoch now later) same in
                  let second : real_us epoch later ≡ real + us = omega (
                    arith,
                    first,
                    after,
                    real_us_lem epoch later r2 m (omega (arith, before, after)),
                  ) in
                  rw (e, run epoch later third, second, run epoch now later) again
              | inr (no_wait, fresh) ↦
                  let e : epoch2 ≡ rt_reseed tb later = rw (run epoch now later) fresh in
                  rw (e, run (rt_reseed tb later) later third)
                    (fresh_pace hz tb later third some l r2)
            ],
          )
    ]
