-- ===== src/CacheOps/Laws.antt =====
-- What `dcbst` and `dcbf` leave on the bus: src/instr/cache.c with src/cache.c.
use libppcemu.Prelude.{ℕ, ◌+◌, ◌^◌, ◌<◌, ◌≡◌, false, Option, none, some, sym, ap, ◌∙◌}
use libppcemu.Bus.{Bytes}
use libppcemu.Cache.{CacheBus}
use libppcemu.Cache.Maintain.{dcache_writeback_line}
use libppcemu.Cache.Ram.{ram, view, base_of}
use libppcemu.Cache.Coherent.{IsCoherent}
use libppcemu.Cache.SingleLine.{writeback-SameView, writeback-synced}
use libppcemu.Cache.Lookup.{SameView}
use libppcemu.State.{State, dcache_of}
use libppcemu.Mmu.Frame.{SameCpu, virt2phys-SameCpu, cpu_of}
use libppcemu.LoadStore.{indexed_ea}
use libppcemu.CacheOps.{cache_ea_to_phys, on_line, on_dcache, do_dcbst}

on_dcache-SameCpu :
    (s s1 : State) (op : CacheBus → ℕ → CacheBus) (o : Option ℕ)
    → SameCpu s s1
    → SameCpu s (on_line (on_dcache op) (o, s1))
unfolding on_line on_dcache cpu_of
on_dcache-SameCpu s s1 op none h = h
on_dcache-SameCpu s s1 op (some phys) h = h

translated : (s s1 : State) (ea : ℕ) (o : Option ℕ) → cache_ea_to_phys s ea ≡ (o, s1) → SameCpu s s1
unfolding cache_ea_to_phys
translated s s1 ea o e =
    ap (λ (r : Option ℕ × State). cpu_of (r.1)) (sym e) ∙ virt2phys-SameCpu s ea false false

-- Where the effective address translates to a 32-bit physical address and the data cache is
-- coherent then, after `dcbst` the bus memory holds, in the 32 bytes around that address, what the
-- processor sees there, and the processor sees the same memory as before through a coherent cache.
-- No register changes.
pub do_dcbst-synced :
    (start : Bytes) (s s1 : State) (ra rb phys j : ℕ)
    → cache_ea_to_phys s (indexed_ea s ra rb) ≡ (some phys, s1)
    → IsCoherent start (dcache_of s1)
    → phys < 2 ^ 32
    → j < 32
    → let t = do_dcbst s ra rb in
      (ram start t.bus.log (base_of phys + j) ≡ view start (dcache_of s1) (base_of phys + j))
      × SameView start (dcache_of s1) (dcache_of t)
      × SameCpu s t
unfolding do_dcbst on_line on_dcache
do_dcbst-synced start s s1 ra rb phys j e ok h l =
    let same : SameCpu s s1 = translated s s1 (indexed_ea s ra rb) (some phys) e in
    rw e (
      (
        writeback-synced start (dcache_of s1) ok phys h j l,
        writeback-SameView start (dcache_of s1) ok phys h,
        on_dcache-SameCpu s s1 dcache_writeback_line (some phys) same,
      ))
