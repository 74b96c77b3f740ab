-- ===== src/Mmu/Fast.antt =====
-- The inline fast paths of src/mem.h, `_do_basic_load` and `_do_basic_store`, where no
-- `loadstore_hook` is set: an access inside a cached line that the micro-TLB and the data cache hit.
use libppcemu.Prelude.{
  ℕ, ◌+◌, ◌-◌, bit_and, Bool, true, false, ◌&&◌, ◌||◌, Option, none, some, nz, leb, ◌==◌,
  if◌then◌else◌, shr,
}
use libppcemu.Bus.{Bytes}
use libppcemu.Cache.{memcpy, cache_line_size, cache_line_base, cache_line_offset, set_line}
use libppcemu.State.{State, dcache_of, put_dcache}
use libppcemu.Spr.{msr_dr}
use libppcemu.Mmu.{V2p, success}
use libppcemu.Mmu.Tlb.{tlb_lookup}
use libppcemu.Mmu.Translate.{is_user}
use libppcemu.Mmu.Access.{do_basic_load_nohook, do_basic_store_nohook}

-- The lengths with a case of their own.
abbrev pub is_fast_len : ℕ → Bool
is_fast_len len = len == 1 || len == 2 || len == 4 || len == 8

-- `&state->dcache.lines[(phys >> 5) & (state->dcache.line_count - 1)]`
unfoldable pub fast_slot : State → ℕ → ℕ
fast_slot s phys = bit_and (shr phys 5) (s.dcache.line_count - 1)

-- The two conditions: the address of the cached byte on a hit of the micro-TLB, and the line's own.
unfoldable pub fast_hit : State → ℕ → Bool → Option (ℕ × Bool)
fast_hit s ea write =
    if nz (bit_and s.msr msr_dr) then tlb_lookup s.dtlb (shr ea 12) (is_user s) write ea else none

unfoldable pub line_serves : State → ℕ → ℕ → Bool
line_serves s phys len =
    let line = s.dcache.lines (fast_slot s phys) in
    line.valid
    && line.tag == cache_line_base phys
    && leb (cache_line_offset phys + len) cache_line_size
    && is_fast_len len

-- What follows the test of the micro-TLB.
unfoldable pub load_hit : Option (ℕ × Bool) → State → ℕ → ℕ → Bytes → V2p × (Bytes × State)
load_hit none s len ea val = do_basic_load_nohook s len ea val
load_hit (some (phys, cacheable)) s len ea val =
    if cacheable && line_serves s phys len
    then (
      success phys cacheable,
      (memcpy val 0 (s.dcache.lines (fast_slot s phys)).bytes (cache_line_offset phys) len, s),
    )
    else do_basic_load_nohook s len ea val

unfoldable pub basic_load : State → ℕ → ℕ → Bytes → V2p × (Bytes × State)
basic_load s len ea val = load_hit (fast_hit s ea false) s len ea val

-- The line with the stored bytes, marked dirty.
unfoldable pub fast_store : State → ℕ → ℕ → Bytes → State
fast_store s len phys val =
    let line = s.dcache.lines (fast_slot s phys) in
    put_dcache s (
      set_line (dcache_of s) (fast_slot s phys) (record line {
        bytes = memcpy line.bytes (cache_line_offset phys) val 0 len;
        dirty = true;
      }))

unfoldable pub store_hit : Option (ℕ × Bool) → State → ℕ → ℕ → Bytes → V2p × State
store_hit none s len ea val = do_basic_store_nohook s len ea val
store_hit (some (phys, cacheable)) s len ea val =
    if cacheable && line_serves s phys len
    then (success phys cacheable, fast_store s len phys val)
    else do_basic_store_nohook s len ea val

unfoldable pub basic_store : State → ℕ → ℕ → Bytes → V2p × State
basic_store s len ea val = store_hit (fast_hit s ea true) s len ea val
