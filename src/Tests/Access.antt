-- ===== src/Tests/Access.antt =====
-- Loads and stores.
use libppcemu.Prelude.{◌≡◌, true, false, some, refl, arith, ◌==◌, if◌then◌else◌, bit}
use libppcemu.State.{State, dcache_of}
use libppcemu.Spr.{idx_hid0}
use libppcemu.Cache.Ram.{ram, view}
use libppcemu.Cache.Lookup.{SameView}
use libppcemu.Mmu.{success}
use libppcemu.Mmu.Translate.{virt2phys, virt2phys_slow}
use libppcemu.Mmu.Walk.{real_mode_cacheable, emu_cache_enabled}
use libppcemu.Mmu.Access.{do_basic_load_nohook, do_basic_store_nohook}
use libppcemu.Mmu.Fast.{basic_load, basic_store}
use libppcemu.Mmu.FastPath.{HasPages, basic_load-nohook}
use libppcemu.Mmu.Frame.{SameCpu}
use libppcemu.LoadStore.{
  word, half, size, basic_ea, indexed_ea, base_of_ea, do_basic_load, do_basic_store,
}
use libppcemu.LoadStore.RoundTrip.{low_part, do_basic_load-do_basic_store}
use libppcemu.LoadStore.Update.{
  do_basic_load_signext_update, do_indexed_load_signext_update, do_indexed_store_conditional,
}
use libppcemu.LoadStore.Access.{LoadsWithUpdate, load_signext_update-LoadsWithUpdate}
use libppcemu.LoadStore.Multiple.{do_lswi}
use libppcemu.LoadStore.Strings.{do_lswi-spares}
use libppcemu.LoadStore.Reserve.{do_indexed_store_conditional_lem}
use libppcemu.CacheOps.{cache_ea_to_phys, phys_of, do_dcbst}
use libppcemu.CacheOps.Laws.{do_dcbst-synced}
use libppcemu.Tests.Data.{memory, test_state, test_cache-IsCoherent, test_cache-IsRam}

-- Translation off and the data cache on.
abbrev real_state : State
real_state = record test_state {
  msr = 0x8000;
  sprs = λ i. if i == idx_hid0 then 0x4000 else 0;
  reserve = true;
}

test_state-HasPages : HasPages test_state
test_state-HasPages = λ i. ground arith

-- stw r5, 0x1010(0); lwz r6, 0x1010(0)
round_trip_example :
    let (ea1, (err1, t)) = do_basic_store real_state word 5 0 0x1010 in
    let (ea2, (err2, u)) = do_basic_load t word 6 0 0x1010 in
    (err1 ≡ success 0x1010 true) × (err2 ≡ success 0x1010 true) × (u.gpr 6 ≡ 7)
unfolding low_part size basic_ea base_of_ea real_mode_cacheable emu_cache_enabled
round_trip_example =
    do_basic_load-do_basic_store memory real_state word 5 6 0 0x1010 1 test_cache-IsCoherent
      test_cache-IsRam refl (refl, refl) (omega arith)

fast_path_example :
    (basic_load test_state 4 0x1010 (λ j. 0) ≡ do_basic_load_nohook test_state 4 0x1010 (λ j. 0))
    × (basic_store test_state 4 0x1010 (λ j. 0)
        ≡ do_basic_store_nohook test_state 4 0x1010 (λ j. 0))
fast_path_example = basic_load-nohook test_state test_state-HasPages 4 0x1010 (λ j. 0)

-- lhau r6, 0x1010(5); lhaux r6, 5, 5
update_example :
    LoadsWithUpdate real_state
      (do_basic_load_signext_update real_state half 6 5 0x1010)
      half
      (basic_ea real_state 5 0x1010)
      6
      5
      6
    × LoadsWithUpdate real_state
        (do_indexed_load_signext_update real_state half 6 5 5)
        half
        (indexed_ea real_state 5 5)
        6
        5
        6
update_example = load_signext_update-LoadsWithUpdate real_state half 6 5 5 0x1010 6

-- stwcx. r5, 0, r5 twice, with a reservation
conditional_example :
    let t = (do_indexed_store_conditional real_state word 5 0 5).1 in
    let u = (do_indexed_store_conditional t word 5 0 5).1 in
    (bit t.cr 29 ≡ true)
    × (t.reserve ≡ false)
    × (t ≡ t)
    × (u ≡ record t { cr = u.cr; reserve = false })
    × (bit u.cr 29 ≡ false)
conditional_example =
    do_indexed_store_conditional_lem real_state word word 5 0 5 5 0 5 29 (omega arith)

-- lswi r30, r5, 16 fills r30, r31, r0 and r1.
string_example : (do_lswi real_state 30 5 16).gpr 5 ≡ 7
string_example = do_lswi-spares real_state 30 5 16 (omega arith) (omega arith) (omega arith)

-- With an address in the changed line of the data cache
abbrev at_dirty_line : State
at_dirty_line = record real_state { gpr = λ i. 0x25 }

dirty_line-phys :
    cache_ea_to_phys at_dirty_line (indexed_ea at_dirty_line 0 5) ≡ (some 0x25, at_dirty_line)
unfolding cache_ea_to_phys phys_of virt2phys virt2phys_slow indexed_ea base_of_ea
dirty_line-phys = refl

dcbst_example :
    let t = do_dcbst at_dirty_line 0 5 in
    (ram memory t.bus.log 0x23 ≡ view memory (dcache_of at_dirty_line) 0x23)
    × SameView memory (dcache_of at_dirty_line) (dcache_of t)
    × SameCpu at_dirty_line t
dcbst_example =
    do_dcbst-synced memory at_dirty_line at_dirty_line 0 5 0x25 3 dirty_line-phys
      test_cache-IsCoherent (omega arith) (omega arith)
