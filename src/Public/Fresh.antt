-- ===== src/Public/Fresh.antt =====
-- A reset establishes what the other components rely on: `ppcemu_reset` of src/init.c.
use libppcemu.Prelude.{
  ℕ, ◌^◌, ◌<◌, ◌≡◌, Bool, true, false, ◌&&◌, pos, negsuc, refl, arith, ◌==◌, if◌then◌else◌,
}
use libppcemu.Bus.{Bytes}
use libppcemu.Cache.Ram.{IsRam}
use libppcemu.Cache.Coherent.{IsCoherent}
use libppcemu.State.{State, CpuModel, dcache_of}
use libppcemu.State.Words.{HasWords}
use libppcemu.Spr.{idx_pvr, idx_srr1}
use libppcemu.Exception.{exception_fire, flush_caches, set_le}
use libppcemu.Mmu.FastPath.{HasPages}
use libppcemu.Run.{is_run}
use libppcemu.Run.Time.{IsTicking, tick_cycles}
use libppcemu.Public.Reset.{zero_state, caps_of, pvr_of, cache_init, caches_init, start, reset}

-- A processor as the other components want it, about to run the reset vector.
pub record IsFresh (memory : Bytes) (model : CpuModel) (t : State) : Type 0 where
  pub is_ready : t.ready ≡ true
  pub at_vector : t.pc ≡ 0xfff0_0100
  pub msr : t.msr ≡ 0x40
  pub caps : t.caps ≡ caps_of model
  pub pvr : t.sprs idx_pvr ≡ pvr_of model
  pub running : is_run t.power_state ≡ true
  pub words : HasWords t
  pub coherent : IsCoherent memory (dcache_of t)
  pub lines : t.dcache.line_count ≡ 2 ^ 9
  pub io : IsRam memory t.bus
  pub pages : HasPages t
  pub ticking : IsTicking t
  pub time : t.tb < 2 ^ 64
  pub gather : t.cur_wgp_idx < 32

pvr_small : (m : CpuModel) → pvr_of m < 2 ^ 32
unfolding pvr_of
pvr_small m = ground arith

-- The registers of the state that a successful reset leaves.
fresh_sprs :
    (s : State) (i : ℕ)
    → ((reset true true s).1).sprs i
      ≡ (if i == idx_pvr then pvr_of s.model else if i == idx_srr1 then 0x40 else 0)
unfolding reset start caches_init cache_init zero_state exception_fire flush_caches
fresh_sprs s i = ground arith

reset_result :
    (s : State) (got_i got_d : Bool)
    → ((reset got_i got_d s).0 ≡ (if got_i && got_d then pos 0 else negsuc 0))
      × (((reset got_i got_d s).1).ready ≡ got_i && got_d)
unfolding reset start caches_init cache_init zero_state exception_fire flush_caches
reset_result s true true = (refl, refl)
reset_result s true false = (refl, refl)
reset_result s false true = (refl, refl)
reset_result s false false = (refl, refl)

-- A reset succeeds exactly if there is memory for both caches, and the processor is ready exactly
-- if it succeeds. Where it succeeds, from any earlier state whose bus is plain memory and whose
-- clock ratio is positive with a tick below 2^32 cycles, all registers hold words, the data cache
-- is coherent with 512 lines, the micro-TLB's page bases are aligned, the time base ticks, the
-- write-gather pipe holds fewer than 32 bytes, and the processor runs the reset vector in high
-- memory with only MSR[IP] set and its model's capabilities and PVR.
pub reset-IsFresh :
    (memory : Bytes) (s : State) (got_i got_d : Bool)
    → IsRam memory s.bus
    → 0 < s.c2b_mult
    → tick_cycles s < 2 ^ 32
    → ((reset got_i got_d s).0 ≡ (if got_i && got_d then pos 0 else negsuc 0))
      × (((reset got_i got_d s).1).ready ≡ got_i && got_d)
      × IsFresh memory s.model ((reset true true s).1)
reset-IsFresh memory s got_i got_d io ratio small = (
  (reset_result s got_i got_d).0,
  (reset_result s got_i got_d).1,
  unfold reset start caches_init cache_init zero_state exception_fire flush_caches is_run set_le in
      record {
        is_ready = refl;
        at_vector = refl;
        msr = refl;
        caps = refl;
        pvr = ground (arith, fresh_sprs s idx_pvr);
        running = refl;
        words = record {
          gpr = λ i. omega arith;
          sprs = λ i. ground (arith, fresh_sprs s i, pvr_small s.model);
          cr = omega arith;
          pc = omega arith;
          msr = omega arith;
        };
        coherent = record {
          is_data = refl;
          idle = λ i h. refl;
          aligned = λ i h. ground arith;
          placed = λ i h. ground arith;
          synced = λ i j h d l. ground arith;
        };
        lines = refl;
        io = λ log addr len j h. io log addr len j h;
        pages = λ i. ground arith;
        ticking = record { some_ratio = ratio; small = small; below = ground (arith, ratio) };
        time = omega arith;
        gather = omega arith;
      },
)
