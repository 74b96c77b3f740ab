-- ===== src/State.antt =====
-- `struct _ppcemu_state` of src/state.h and the types of its fields. The C arrays are functions of
-- the index; pointers into the I$ are slot numbers; the bus hook stands in `bus`.
pub mod Words
use libppcemu.Prelude.{ℕ, Bool, update}
use libppcemu.Bus.{Bus, Bytes}
use libppcemu.Cache.{Cache, CacheBus}

pub data CpuModel : Type 0 where
  m750cxe m750cl gekko broadway espresso : CpuModel

pub data CacheMode : Type 0 where
  standard permissive disabled : CacheMode

pub data PowerState : Type 0 where
  run doze nap sleep : PowerState

-- src/tlb.h
pub record MicroTlbEntry : Type 0 where
  pub key : ℕ
  pub phys_base : ℕ
  pub writable : Bool
  pub dirty_pending : Bool
  pub cacheable : Bool

abbrev pub MicroTlb : Type 0
MicroTlb = ℕ → MicroTlbEntry

pub record State : Type 0 where
  -- emulator state
  pub ready : Bool
  pub branched : Bool
  pub model : CpuModel
  pub caps : ℕ
  pub bus : Bus
  pub bus_speed_khz : ℕ
  pub c2b_mult : ℕ
  pub instr_count : ℕ
  pub tb : ℕ
  pub icache : Cache
  pub dcache : Cache
  pub itlb : MicroTlb
  pub dtlb : MicroTlb
  pub tb_remainder : ℕ
  pub sync_rt : Bool
  pub dec_exception_pending : Bool
  pub external_interrupt_pending : Bool
  pub cache_mode : CacheMode
  pub power_state : PowerState
  pub idle_steps : ℕ
  pub ifetch_valid : Bool
  pub ifetch_vbase : ℕ
  pub ifetch_pbase : ℕ
  pub ifetch_msr : ℕ
  pub ifetch_line : ℕ
  -- CPU state
  pub gpr : ℕ → ℕ
  pub fpr : ℕ → ℕ
  pub fpr_is_ps : ℕ → Bool
  pub fpcsr : ℕ
  pub cr : ℕ
  pub pc : ℕ
  pub msr : ℕ
  pub sprs : ℕ → ℕ
  pub sr : ℕ → ℕ
  pub reserve : Bool
  pub reserve_addr : ℕ
  -- write-gather pipe
  pub wgp_buf : Bytes
  pub cur_wgp_idx : ℕ

abbrev pub set_gpr : State → ℕ → ℕ → State
set_gpr s i v = record s { gpr = update s.gpr i v }

abbrev pub set_spr : State → ℕ → ℕ → State
set_spr s i v = record s { sprs = update s.sprs i v }

-- The caches with the bus that their back pointer reaches.
abbrev pub dcache_of : State → CacheBus
dcache_of s = record { cache = s.dcache; bus = s.bus }

abbrev pub icache_of : State → CacheBus
icache_of s = record { cache = s.icache; bus = s.bus }

abbrev pub put_dcache : State → CacheBus → State
put_dcache s p = record s { dcache = p.cache; bus = p.bus }

abbrev pub put_icache : State → CacheBus → State
put_icache s p = record s { icache = p.cache; bus = p.bus }
