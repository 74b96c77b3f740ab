-- ===== src/Tests/Memory.antt =====
-- The cache, the micro-TLBs and the write-gather pipe.
use libppcemu.Prelude.{
  List, [], ◌∷◌, ℕ, ◌+◌, ◌≡◌, true, false, none, refl, arith, ltb, if◌then◌else◌,
}
use libppcemu.Cache.{cache_line_base, cache_index_for_line}
use libppcemu.Cache.Data.{dcache_load, dcache_store, dcache_zero_line}
use libppcemu.Cache.Maintain.{dcache_writeback_all, cache_invalidate_all}
use libppcemu.Cache.Ram.{view, ram, hit}
use libppcemu.Cache.Coherent.{IsCoherent}
use libppcemu.Cache.Lookup.{SameView}
use libppcemu.Cache.Drain.{flush_lem}
use libppcemu.Cache.Contract.{dcache_store-view, dcache_zero_line-view}
use libppcemu.Mmu.Tlb.{tlb_lookup, tlb_flush_page, tlb_flush_segment, tlb_flush_all}
use libppcemu.Mmu.Flush.{tlb_flushes}
use libppcemu.Mmu.Access.{do_wgp_store}
use libppcemu.Mmu.Gather.{do_wgp_store_lem}
use libppcemu.Cache.Maintain.{SnoopOp, is_kill, snoop_loop, dcache_snoop}
use libppcemu.Cache.Snoop.{holds, dcache_snoop-ends}
use libppcemu.Cache.SnoopView.{dcache_snoop-synced}
use libppcemu.Cache.Trace.{
  CacheAction, stores, snoops, flushes, zeroes, IsSound, AreAllowed, IsAllowed, perform_all, flat,
  flat_all, flat_write, perform_all-flat,
}
use libppcemu.Tests.Data.{memory, test_cache, test_cache-IsCoherent, test_cache-IsRam, test_state}

dcache_store_example :
    IsCoherent memory (dcache_store test_cache 0x3e 4 (λ j. j))
    × (view memory (dcache_store test_cache 0x3e 4 (λ j. j)) 0x40 ≡ 2)
dcache_store_example =
    dcache_store-view memory test_cache test_cache-IsCoherent test_cache-IsRam 1 refl 0x3e 4
      (omega arith) (omega arith) (λ j. j) 0x40 (omega arith)

flush_example :
    SameView memory test_cache (cache_invalidate_all (dcache_writeback_all test_cache))
    × ((a : ℕ)
        → ram memory (cache_invalidate_all (dcache_writeback_all test_cache)).bus.log a
          ≡ view memory test_cache a)
    × ((a : ℕ) → hit (cache_invalidate_all (dcache_writeback_all test_cache)).cache a ≡ false)
flush_example = flush_lem memory test_cache test_cache-IsCoherent 2 refl

dcache_zero_line_example :
    IsCoherent memory (dcache_zero_line test_cache 0xa4)
    × (view memory (dcache_zero_line test_cache 0xa4) 0xa0 ≡ 0)
dcache_zero_line_example =
    dcache_zero_line-view memory test_cache test_cache-IsCoherent test_cache-IsRam 0xa4
      (omega arith) 0xa0 (omega arith)

tlb_flushes_example :
    let p = tlb_flush_page test_state 0x8000_1234 in
    let g = tlb_flush_segment test_state 8 in
    let a = tlb_flush_all test_state in
    ((tlb_lookup p.itlb 0x80_001 true false 0x8000_1234 ≡ none)
      × (tlb_lookup p.dtlb 0x80_001 true false 0x8000_1234 ≡ none)
      × (p.ifetch_valid ≡ false))
    × ((tlb_lookup g.itlb 0x80_001 true false 0x8000_1234 ≡ none)
        × (tlb_lookup g.dtlb 0x80_001 true false 0x8000_1234 ≡ none)
        × (g.ifetch_valid ≡ false))
    × ((tlb_lookup a.itlb 0x80_001 true false 0x8000_1234 ≡ none)
        × (tlb_lookup a.dtlb 0x80_001 true false 0x8000_1234 ≡ none)
        × (a.ifetch_valid ≡ false))
tlb_flushes_example =
    tlb_flushes test_state 0x80_001 0x8000_1234 true false (omega arith) 0x8000_1234 8 (omega arith)

-- Four bytes into a pipe that holds 30.
do_wgp_store_example :
    let s' = do_wgp_store test_state 4 (λ j. j + 7) in
    (s'.cur_wgp_idx ≡ 2)
    × ((if ltb 1 s'.cur_wgp_idx then s'.wgp_buf 1 else 0) ≡ 10)
    × (ram memory s'.bus.log 31 ≡ 8)
do_wgp_store_example =
    do_wgp_store_lem test_state 4 (λ j. j + 7) (omega arith) (omega arith) memory 1 31 (omega arith)

-- 0x40 bytes around the changed line
snoop_example :
    let q = dcache_snoop test_cache SnoopOp.write 0x10 0x40 in
    (q ≡ snoop_loop (2 + 3) test_cache SnoopOp.write 0 0x40 0) × (holds q.1 0x20 ≡ false)
unfolding cache_line_base
snoop_example =
    dcache_snoop-ends test_cache SnoopOp.write 0x10 0x40 0x10 3 (omega arith) (omega arith)
      (omega arith)

-- The changed line, whose bytes are 9, is pushed.
synced_example :
    let q = (dcache_snoop test_cache SnoopOp.read 0x10 0x40).1 in
    SameView memory test_cache q × (hit q.cache 0x23 ≡ false) × (ram memory q.bus.log 0x23 ≡ 9)
unfolding is_kill view hit cache_index_for_line
synced_example =
    dcache_snoop-synced memory test_cache SnoopOp.read 0x10 0x40 0x13 (λ e. cc e)
      test_cache-IsCoherent (λ j. ground arith) (omega arith) (omega arith) (omega arith)

test_cache-IsSound : IsSound memory 1 test_cache
test_cache-IsSound = record {
  coherent = test_cache-IsCoherent;
  is_ram = test_cache-IsRam;
  count = refl;
}

-- A store over the end of the changed line, a snoop of that line, a flush of the next, and dcbz of 0x40
abbrev actions : List CacheAction
actions = stores 0x3e 4 (λ j. j) ∷ snoops SnoopOp.read 0x20 32 ∷ flushes 0x40 ∷ zeroes 0x40 ∷ []

trace_example :
    let q = perform_all actions test_cache in
    IsCoherent memory q
    × ((dcache_load q 0x3e 4 (λ i. 0)).0 1 ≡ flat_all actions (view memory test_cache) 0x3f)
trace_example =
    perform_all-flat memory 1 test_cache actions 0x3e 4 1 test_cache-IsSound
      (unfold AreAllowed IsAllowed in
        ((omega arith, omega arith), ((λ e. cc e), (omega arith, (omega arith, tt)))))
      (omega arith) (omega arith) (omega arith)

-- The flat memory holds the second byte of that store there.
flat_test : flat_all actions (view memory test_cache) 0x3f ≡ 1
unfolding flat_all flat flat_write
flat_test = refl
