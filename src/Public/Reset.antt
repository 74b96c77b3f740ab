-- ===== src/Public/Reset.antt =====
-- Creation and reset of a processor: src/init.c, and `ppcemu_cache_init` of src/cache.c. Whether
-- `malloc` gives memory for each cache is an argument; the memory it gives holds anything.
use libppcemu.Prelude.{
  ℕ, ◌/◌, bit_or, Bool, true, false, not, List, [], Option, none, some, ℤ, pos, negsuc,
  if◌then◌else◌,
}
use libppcemu.Bus.{BusEvent, Bytes}
use libppcemu.Cache.{Cache, CacheLine, cache_line_size}
use libppcemu.State.{State, CpuModel, CacheMode, PowerState, MicroTlbEntry, set_spr}
use libppcemu.Spr.{idx_pvr, msr_ip, caps_ps_ld_st, caps_hid4, caps_hid4_bdway_like, caps_upper_bats}
use libppcemu.Exception.{exception_fire, exception_reset}

abbrev pub zero_line : CacheLine
zero_line = record { tag = 0; valid = false; dirty = false; locked = false; bytes = λ j. 0 }

abbrev pub zero_cache : Cache
zero_cache = record { lines = λ i. zero_line; line_count = 0; is_data_cache = false }

abbrev pub zero_entry : MicroTlbEntry
zero_entry = record {
  key = 0;
  phys_base = 0;
  writable = false;
  dirty_pending = false;
  cacheable = false;
}

abbrev pub Hook : Type 0
Hook = List BusEvent → ℕ → ℕ → Bytes

-- The null pointer in place of the application's hook; it is never called.
abbrev pub null_hook : Hook
null_hook log addr len j = 0

-- `memset(s, 0, sizeof(struct _ppcemu_state))`. The log of the model's bus stays.
unfoldable pub zero_state : List BusEvent → State
zero_state log = record {
  ready = false;
  branched = false;
  model = CpuModel.m750cxe;
  caps = 0;
  bus = record { hook = null_hook; log = log };
  bus_speed_khz = 0;
  c2b_mult = 0;
  instr_count = 0;
  tb = 0;
  icache = zero_cache;
  dcache = zero_cache;
  itlb = λ i. zero_entry;
  dtlb = λ i. zero_entry;
  tb_remainder = 0;
  sync_rt = false;
  dec_exception_pending = false;
  external_interrupt_pending = false;
  cache_mode = CacheMode.standard;
  power_state = PowerState.run;
  idle_steps = 0;
  ifetch_valid = false;
  ifetch_vbase = 0;
  ifetch_pbase = 0;
  ifetch_msr = 0;
  ifetch_line = 0;
  gpr = λ i. 0;
  fpr = λ i. 0;
  fpr_is_ps = λ i. false;
  fpcsr = 0;
  cr = 0;
  pc = 0;
  msr = 0;
  sprs = λ i. 0;
  sr = λ i. 0;
  reserve = false;
  reserve_addr = 0;
  wgp_buf = λ j. 0;
  cur_wgp_idx = 0;
}

-- The capabilities that Gekko, 750CL, Broadway and Espresso share.
abbrev pub common_caps : ℕ
common_caps = 0x1c3

unfoldable pub caps_of : CpuModel → ℕ
caps_of CpuModel.m750cxe = 0
caps_of CpuModel.gekko = bit_or common_caps caps_ps_ld_st
caps_of CpuModel.m750cl = bit_or common_caps (bit_or caps_hid4 caps_upper_bats)
caps_of CpuModel.broadway =
    bit_or common_caps
      (bit_or caps_ps_ld_st (bit_or caps_hid4 (bit_or caps_upper_bats caps_hid4_bdway_like)))
caps_of CpuModel.espresso =
    bit_or common_caps
      (bit_or caps_ps_ld_st (bit_or caps_hid4 (bit_or caps_upper_bats caps_hid4_bdway_like)))

unfoldable pub pvr_of : CpuModel → ℕ
pvr_of CpuModel.m750cxe = 0x83311
pvr_of CpuModel.gekko = 0x83410
pvr_of CpuModel.m750cl = 0x87200
pvr_of CpuModel.broadway = 0x87200
pvr_of CpuModel.espresso = 0x7001_0201

-- One cache; `none` where there is no memory. The asserted sizes are those of the one caller.
unfoldable pub cache_init : Bool → ℕ → Bool → Option Cache
cache_init got cache_size is_data_cache =
    if got
    then some (record {
      lines = λ i. zero_line;
      line_count = cache_size / cache_line_size;
      is_data_cache = is_data_cache;
    })
    else none

-- Whether it fails, with the caches it leaves.
unfoldable pub caches_init : Bool → Bool → State → ℕ → ℕ → Bool × State
caches_init got_i got_d s icache_size dcache_size =
    let s1 = record s { icache = zero_cache; dcache = zero_cache } in
    elim (cache_init got_i icache_size false) [
      | none ↦ (true, s1)
      | some i ↦ elim (cache_init got_d dcache_size true) [
        | none ↦ (true, s1)
        | some d ↦ (false, record s1 { icache = i; dcache = d })
      ]
    ]

-- What `ppcemu_reset` restores and sets once the caches are there.
unfoldable pub start : State → State → State
start s t =
    exception_fire
      (record t {
        bus = record { hook = s.bus.hook; log = t.bus.log };
        bus_speed_khz = s.bus_speed_khz;
        c2b_mult = s.c2b_mult;
        sync_rt = s.sync_rt;
        msr = msr_ip;
        ready = true;
      })
      exception_reset

unfoldable pub reset : Bool → Bool → State → ℤ × State
reset got_i got_d s =
    let cleared =
      set_spr (record (zero_state s.bus.log) { model = s.model; caps = caps_of s.model }) idx_pvr
        (pvr_of s.model) in
    let (failed, t) =
      caches_init got_i got_d (record cleared { cache_mode = s.cache_mode }) 16384 16384 in
    if failed then (negsuc 0, t) else (pos 0, start s t)

-- The models are those of the enumeration, so the check of the range always passes.
unfoldable pub init : Bool → Bool → Bool → State → CpuModel → Hook → ℕ → ℕ → Option State
init got got_i got_d fresh model hook bus_speed_khz c2b_mult =
    let s = record fresh {
      ready = false;
      model = model;
      bus = record { hook = hook; log = [] };
      c2b_mult = c2b_mult;
      bus_speed_khz = bus_speed_khz;
      cache_mode = CacheMode.standard;
      sync_rt = false;
    } in
    if not got then none else some ((reset got_i got_d s).1)
