-- ===== src/Tests/Data.antt =====
-- The concrete states: a small data cache with a dirty line and a processor with some registers set.
use libppcemu.Prelude.{ℕ, ◌+◌, ◌≡◌, true, false, List, [], refl, arith, ◌==◌, if◌then◌else◌}
use libppcemu.Bus.{Bytes, Bus, BusEvent}
use libppcemu.Cache.{Cache, CacheLine, CacheBus, cache_index_for_line}
use libppcemu.Cache.Ram.{ram, IsRam}
use libppcemu.Cache.Coherent.{IsCoherent}
use libppcemu.State.{State, CpuModel, CacheMode, PowerState, MicroTlbEntry}
use libppcemu.State.Words.{HasWords}

abbrev pub memory : Bytes
memory a = if a == 0x1000 then 5 else 0

abbrev pub memory_hook : List BusEvent → ℕ → ℕ → Bytes
memory_hook log addr len j = ram memory log (addr + j)

abbrev pub no_line : CacheLine
no_line = record { tag = 0; valid = false; dirty = false; locked = false; bytes = λ j. 0 }

abbrev pub dirty_line : CacheLine
dirty_line = record { tag = 0x20; valid = true; dirty = true; locked = false; bytes = λ j. 9 }

-- Four lines; the second one holds 0x20 to 0x3f, changed.
abbrev pub four_lines : Cache
four_lines = record {
  lines = λ i. if i == 1 then dirty_line else no_line;
  line_count = 4;
  is_data_cache = true;
}

abbrev pub plain_bus : Bus
plain_bus = record { hook = memory_hook; log = [] }

abbrev pub test_cache : CacheBus
test_cache = record { cache = four_lines; bus = plain_bus }

pub test_cache-IsRam : IsRam memory plain_bus
test_cache-IsRam log addr len j h = refl

slot_of : cache_index_for_line four_lines 0x20 ≡ 1
unfolding cache_index_for_line
slot_of = refl

pub test_cache-IsCoherent : IsCoherent memory test_cache
test_cache-IsCoherent = record {
  is_data = refl;
  idle = λ i h. ground arith;
  aligned = λ i h. ground arith;
  placed = λ i h. ground (arith, slot_of);
  synced = λ i j h d l. absurd (ground arith);
}

abbrev pub no_entry : MicroTlbEntry
no_entry = record {
  key = 0;
  phys_base = 0;
  writable = false;
  dirty_pending = false;
  cacheable = false;
}

abbrev pub test_state : State
test_state = record {
  ready = true;
  branched = false;
  model = CpuModel.broadway;
  caps = 0;
  bus = plain_bus;
  bus_speed_khz = 243_000;
  c2b_mult = 3;
  instr_count = 0;
  tb = 0;
  icache = record four_lines { is_data_cache = false; lines = λ i. no_line };
  dcache = four_lines;
  itlb = λ i. no_entry;
  dtlb = λ i. no_entry;
  tb_remainder = 0;
  sync_rt = false;
  dec_exception_pending = false;
  external_interrupt_pending = false;
  cache_mode = CacheMode.permissive;
  power_state = PowerState.run;
  idle_steps = 0;
  ifetch_valid = false;
  ifetch_vbase = 0;
  ifetch_pbase = 0;
  ifetch_msr = 0;
  ifetch_line = 0;
  gpr = λ i. if i == 4 then 0xffff_ffff else if i == 5 then 7 else 0;
  fpr = λ i. 0;
  fpr_is_ps = λ i. false;
  fpcsr = 0;
  cr = 0x2000_0004;
  pc = 0x8000_0100;
  msr = 0x8030;
  sprs = λ i. if i == 0 then 0x2000_0000 else if i == 2 then 1 else 0;
  sr = λ i. 0;
  reserve = false;
  reserve_addr = 0;
  wgp_buf = λ j. 1;
  cur_wgp_idx = 30;
}

pub test_state-HasWords : HasWords test_state
test_state-HasWords = record {
  gpr = λ i. ground arith;
  sprs = λ i. ground arith;
  cr = omega arith;
  pc = omega arith;
  msr = omega arith;
}
