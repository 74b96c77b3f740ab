-- ===== src/Paired/Arith.antt =====
-- The arithmetic of src/instr/paired_singles.c, on both lanes. Only the moves mark their target as paired.
use libppcemu.Prelude.{ℕ}
use libppcemu.State.{State}
use libppcemu.Float.{HostFloat, one_double}
use libppcemu.Paired.{lane0, lane1, ps_get_u32, set_lanes, ps_enforce_cap_idx}

module _ (host : HostFloat) where
  unfoldable pub do_ps_sum0 : State → ℕ → ℕ → ℕ → ℕ → State
  do_ps_sum0 s frd fra frb frc = ps_enforce_cap_idx s (λ t.
      set_lanes t frd (host.add32 (ps_get_u32 t fra lane0) (ps_get_u32 t frb lane1))
        (ps_get_u32 t frc lane1))

  unfoldable pub do_ps_sum1 : State → ℕ → ℕ → ℕ → ℕ → State
  do_ps_sum1 s frd fra frb frc = ps_enforce_cap_idx s (λ t.
      set_lanes t frd (ps_get_u32 t frc lane0)
        (host.add32 (ps_get_u32 t fra lane0) (ps_get_u32 t frb lane1)))

  unfoldable pub do_ps_muls0 : State → ℕ → ℕ → ℕ → State
  do_ps_muls0 s frd fra frc = ps_enforce_cap_idx s (λ t.
      set_lanes t frd (host.mul32 (ps_get_u32 t fra lane0) (ps_get_u32 t frc lane0))
        (host.mul32 (ps_get_u32 t fra lane1) (ps_get_u32 t frc lane0)))

  unfoldable pub do_ps_muls1 : State → ℕ → ℕ → ℕ → State
  do_ps_muls1 s frd fra frc = ps_enforce_cap_idx s (λ t.
      set_lanes t frd (host.mul32 (ps_get_u32 t fra lane0) (ps_get_u32 t frc lane1))
        (host.mul32 (ps_get_u32 t fra lane1) (ps_get_u32 t frc lane1)))

  unfoldable pub do_ps_madds0 : State → ℕ → ℕ → ℕ → ℕ → State
  do_ps_madds0 s frd fra frb frc = ps_enforce_cap_idx s (λ t.
      set_lanes t frd
        (host.add32 (host.mul32 (ps_get_u32 t fra lane0) (ps_get_u32 t frc lane0))
          (ps_get_u32 t frb lane0))
        (host.add32 (host.mul32 (ps_get_u32 t fra lane1) (ps_get_u32 t frc lane0))
          (ps_get_u32 t frb lane1)))

  unfoldable pub do_ps_madds1 : State → ℕ → ℕ → ℕ → ℕ → State
  do_ps_madds1 s frd fra frb frc = ps_enforce_cap_idx s (λ t.
      set_lanes t frd
        (host.add32 (host.mul32 (ps_get_u32 t fra lane0) (ps_get_u32 t frc lane1))
          (ps_get_u32 t frb lane0))
        (host.add32 (host.mul32 (ps_get_u32 t fra lane1) (ps_get_u32 t frc lane1))
          (ps_get_u32 t frb lane1)))

  unfoldable pub do_ps_mul : State → ℕ → ℕ → ℕ → State
  do_ps_mul s frd fra frc = ps_enforce_cap_idx s (λ t.
      set_lanes t frd (host.mul32 (ps_get_u32 t fra lane0) (ps_get_u32 t frc lane0))
        (host.mul32 (ps_get_u32 t fra lane1) (ps_get_u32 t frc lane1)))

  unfoldable pub do_ps_madd : State → ℕ → ℕ → ℕ → ℕ → State
  do_ps_madd s frd fra frb frc = ps_enforce_cap_idx s (λ t.
      set_lanes t frd
        (host.add32 (host.mul32 (ps_get_u32 t fra lane0) (ps_get_u32 t frc lane0))
          (ps_get_u32 t frb lane0))
        (host.add32 (host.mul32 (ps_get_u32 t fra lane1) (ps_get_u32 t frc lane1))
          (ps_get_u32 t frb lane1)))

  unfoldable pub do_ps_msub : State → ℕ → ℕ → ℕ → ℕ → State
  do_ps_msub s frd fra frb frc = ps_enforce_cap_idx s (λ t.
      set_lanes t frd
        (host.sub32 (host.mul32 (ps_get_u32 t fra lane0) (ps_get_u32 t frc lane0))
          (ps_get_u32 t frb lane0))
        (host.sub32 (host.mul32 (ps_get_u32 t fra lane1) (ps_get_u32 t frc lane1))
          (ps_get_u32 t frb lane1)))

  unfoldable pub do_ps_sub : State → ℕ → ℕ → ℕ → State
  do_ps_sub s frd fra frb = ps_enforce_cap_idx s (λ t.
      set_lanes t frd (host.sub32 (ps_get_u32 t fra lane0) (ps_get_u32 t frb lane0))
        (host.sub32 (ps_get_u32 t fra lane1) (ps_get_u32 t frb lane1)))

  unfoldable pub do_ps_add : State → ℕ → ℕ → ℕ → State
  do_ps_add s frd fra frb = ps_enforce_cap_idx s (λ t.
      set_lanes t frd (host.add32 (ps_get_u32 t fra lane0) (ps_get_u32 t frb lane0))
        (host.add32 (ps_get_u32 t fra lane1) (ps_get_u32 t frb lane1)))

  unfoldable pub do_ps_nmsub : State → ℕ → ℕ → ℕ → ℕ → State
  do_ps_nmsub s frd fra frb frc = ps_enforce_cap_idx s (λ t.
      set_lanes t frd
        (host.neg32 (
          host.sub32 (host.mul32 (ps_get_u32 t fra lane0) (ps_get_u32 t frc lane0))
            (ps_get_u32 t frb lane0)))
        (host.neg32 (
          host.sub32 (host.mul32 (ps_get_u32 t fra lane1) (ps_get_u32 t frc lane1))
            (ps_get_u32 t frb lane1))))

  unfoldable pub do_ps_nmadd : State → ℕ → ℕ → ℕ → ℕ → State
  do_ps_nmadd s frd fra frb frc = ps_enforce_cap_idx s (λ t.
      set_lanes t frd
        (host.neg32 (
          host.add32 (host.mul32 (ps_get_u32 t fra lane0) (ps_get_u32 t frc lane0))
            (ps_get_u32 t frb lane0)))
        (host.neg32 (
          host.add32 (host.mul32 (ps_get_u32 t fra lane1) (ps_get_u32 t frc lane1))
            (ps_get_u32 t frb lane1))))

  unfoldable pub do_ps_rsqrte : State → ℕ → ℕ → State
  do_ps_rsqrte s frd frb = ps_enforce_cap_idx s (λ t.
      set_lanes t frd
        (host.to_float
          (host.div64 one_double (host.sqrt (host.to_double (ps_get_u32 t frb lane0)))))
        (host.to_float
          (host.div64 one_double (host.sqrt (host.to_double (ps_get_u32 t frb lane1))))))
