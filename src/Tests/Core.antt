-- ===== src/Tests/Core.antt =====
-- Exceptions, branches and the condition register.
use libppcemu.Prelude.{if◌then◌else◌, ℕ, ◌+◌, ◌≡◌, true, false, refl, arith, bit}
use libppcemu.Spr.{idx_srr0, idx_srr1}
use libppcemu.Exception.{exception_fire}
use libppcemu.State.{dcache_of}
use libppcemu.Cache.Ram.{view, ram}
use libppcemu.Cache.Coherent.{IsCoherent}
use libppcemu.Exception.Caches.{exception_fire-view, entry_flushes}
use libppcemu.Exception.Entry.{exception_fire-saved}
use libppcemu.Branch.{do_rfi}
use libppcemu.Branch.Laws.{do_rfi-exception_fire}
use libppcemu.Cond.{
  do_cmp, do_cmpl, do_cmpi, do_cmpli, do_crand, do_crandc, do_creqv, do_crnand, do_crnor, do_cror,
  do_crorc, do_crxor,
}
use libppcemu.Cond.Laws.{compare_bits}
use libppcemu.Cond.Logic.{cr_logic}
use libppcemu.Tests.Data.{memory, test_cache-IsCoherent, test_state, test_state-HasWords}

exception_saved_example :
    ((exception_fire test_state 0x300).sprs idx_srr0 ≡ 0x8000_0100)
    × (bit ((exception_fire test_state 0x300).sprs idx_srr1) 4 ≡ true)
    × ((exception_fire test_state 0x300).pc ≡ 0x300)
    × ((exception_fire test_state 0x300).branched ≡ true)
    × ((i : ℕ) → (exception_fire test_state 0x300).gpr i ≡ test_state.gpr i)
    × ((exception_fire test_state 0x300).cr ≡ 0x2000_0004)
    × ((i : ℕ) → (exception_fire test_state 0x300).sprs (6 + i) ≡ test_state.sprs (6 + i))
unfolding bit
exception_saved_example = exception_fire-saved test_state 0x300 4 (omega arith) (omega arith)

rfi_example :
    ((do_rfi (exception_fire test_state 0x300) 0).pc ≡ 0x8000_0100)
    × (bit (do_rfi (exception_fire test_state 0x300) 0).msr 4 ≡ true)
unfolding bit
rfi_example = do_rfi-exception_fire test_state 0x300 4 (omega arith) (omega arith)

compare_example :
    (bit (do_cmp test_state 1 4 5).cr 27 ≡ true)
    × (bit (do_cmpl test_state 1 4 5).cr 27 ≡ false)
    × (bit (do_cmpi test_state 1 4 9).cr 27 ≡ true)
    × (bit (do_cmpli test_state 1 4 9).cr 27 ≡ false)
unfolding bit
compare_example =
    compare_bits test_state test_state-HasWords 1 4 5 9 27 (omega arith) (omega arith) (omega arith)

logic_example :
    (bit (do_crand test_state 31 2 29).cr 0 ≡ true)
    × (bit (do_crandc test_state 31 2 29).cr 0 ≡ false)
    × (bit (do_creqv test_state 31 2 29).cr 0 ≡ true)
    × (bit (do_crnand test_state 31 2 29).cr 0 ≡ false)
    × (bit (do_crnor test_state 31 2 29).cr 0 ≡ false)
    × (bit (do_cror test_state 31 2 29).cr 0 ≡ true)
    × (bit (do_crorc test_state 31 2 29).cr 0 ≡ true)
    × (bit (do_crxor test_state 31 2 29).cr 0 ≡ false)
unfolding bit
logic_example = cr_logic test_state 31 2 29 0 (omega arith) (omega arith)

exception_view_example :
    IsCoherent memory (dcache_of (exception_fire test_state 0x300))
    × (view memory (dcache_of (exception_fire test_state 0x300)) 0x20
        ≡ view memory (dcache_of test_state) 0x20)
    × ((if entry_flushes test_state
          then ram memory (exception_fire test_state 0x300).bus.log 0x20
          else view memory (dcache_of test_state) 0x20)
        ≡ view memory (dcache_of test_state) 0x20)
exception_view_example =
    exception_fire-view memory test_state 0x300 2 0x20 test_cache-IsCoherent refl
