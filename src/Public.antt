-- ===== src/Public.antt =====
-- The public access to a processor's state: src/state.c, with `ppcemu_snoop` of src/cache.c. The load/store
-- hook is no part of the modelled state; the log levels and the epoch of the throttle are apart.
pub mod Reset
pub mod Fresh
pub mod Access
pub mod Throttle
pub mod LogLevel
use libppcemu.Prelude.{ℕ, Bool, true, false, Option, none, some, ltb, if◌then◌else◌}
use libppcemu.State.{State, CacheMode, PowerState, set_gpr, set_spr, dcache_of, put_dcache}
use libppcemu.Cache.Maintain.{SnoopOp, dcache_snoop}
use libppcemu.Spr.Index.{sprn_to_idx_raw}
use libppcemu.Mmu.Tlb.{ifetch_invalidate}

-- The power states without bus snooping.
unfoldable pub is_deaf : PowerState → Bool
is_deaf PowerState.nap = true
is_deaf PowerState.sleep = true
is_deaf _ = false

pub data TimingMode : Type 0 where
  synth rt : TimingMode

unfoldable pub get_pc : State → ℕ
get_pc s = s.pc

unfoldable pub set_pc : State → ℕ → State
set_pc s pc = record s { pc = pc }

unfoldable pub get_gpr : State → ℕ → ℕ
get_gpr s idx = if ltb 31 idx then 0xffff_ffff else s.gpr idx

unfoldable pub put_gpr : State → ℕ → ℕ → State
put_gpr s idx val = if ltb 31 idx then s else set_gpr s idx val

unfoldable pub read_spr : State → ℕ → ℕ
read_spr s sprn = elim (sprn_to_idx_raw sprn) [ none ↦ 0xffff_ffff | some i ↦ s.sprs i ]

unfoldable pub write_spr : State → ℕ → ℕ → State
write_spr s sprn val = elim (sprn_to_idx_raw sprn) [
  | none ↦ s
  | some i ↦ ifetch_invalidate (set_spr s i val)
]

unfoldable pub get_cr : State → ℕ
get_cr s = s.cr

unfoldable pub set_cr : State → ℕ → State
set_cr s val = record s { cr = val }

unfoldable pub get_msr : State → ℕ
get_msr s = s.msr

unfoldable pub set_msr : State → ℕ → State
set_msr s val = ifetch_invalidate (record s { msr = val })

unfoldable pub get_tb : State → ℕ
get_tb s = s.tb

unfoldable pub set_timing_mode : State → TimingMode → State
set_timing_mode s rt = record s { sync_rt = true }
set_timing_mode s synth = record s { sync_rt = false }

unfoldable pub external_interrupt : State → Bool → State
external_interrupt s asserted = record s { external_interrupt_pending = asserted }

unfoldable pub set_cache_mode : State → CacheMode → State
set_cache_mode s mode = ifetch_invalidate (record s { cache_mode = mode })

unfoldable pub get_power_state : State → PowerState
get_power_state s = s.power_state

-- `ppcemu_snoop` of src/cache.c
unfoldable pub snoop : State → SnoopOp → ℕ → ℕ → ℕ × State
snoop s op phys size =
    if is_deaf s.power_state
    then (0, s)
    else (let (pushed, p) = dcache_snoop (dcache_of s) op phys size in (pushed, put_dcache s p))
