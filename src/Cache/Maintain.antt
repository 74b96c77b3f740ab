-- ===== src/Cache/Maintain.antt =====
-- Maintenance of the caches: the write-backs, invalidations and bus snooping of src/cache.c.
use libppcemu.Prelude.{ℕ, zero, suc, ◌+◌, ◌-◌, ◌/◌, Bool, true, false, not, ◌&&◌}
use libppcemu.Prelude.{◌==◌, if◌then◌else◌, u32}
use libppcemu.Cache.{
  CacheBus, cache_line_size, cache_line_base, cache_index_for_line, set_line, bus_write_line,
}

-- Marks the line in a slot invalid; `unpin` is set where the source also clears `locked`.
abbrev pub drop_line : CacheBus → ℕ → Bool → CacheBus
drop_line p i unpin =
    let line = p.cache.lines i in
    set_line p i
      (record line { valid = false; dirty = false; locked = if unpin then false else line.locked })

unfoldable pub icache_invalidate_line : CacheBus → ℕ → CacheBus
icache_invalidate_line p addr =
    let line_base = cache_line_base addr in
    let i = cache_index_for_line p.cache line_base in
    let line = p.cache.lines i in
    if line.valid && line.tag == line_base then drop_line p i false else p

unfoldable pub dcache_writeback_line : CacheBus → ℕ → CacheBus
dcache_writeback_line p addr =
    let line_base = cache_line_base addr in
    let i = cache_index_for_line p.cache line_base in
    let line = p.cache.lines i in
    if line.valid && line.tag == line_base && line.dirty
    then set_line (bus_write_line p line.tag line.bytes) i (record line { dirty = false })
    else p

unfoldable pub dcache_invalidate_line : CacheBus → ℕ → CacheBus
dcache_invalidate_line p addr =
    let line_base = cache_line_base addr in
    let i = cache_index_for_line p.cache line_base in
    let line = p.cache.lines i in
    if line.valid && line.tag == line_base then drop_line p i true else p

unfoldable pub dcache_writeback_invalidate_line : CacheBus → ℕ → CacheBus
dcache_writeback_invalidate_line p addr =
    let line_base = cache_line_base addr in
    let i = cache_index_for_line p.cache line_base in
    let line = p.cache.lines i in
    if line.valid && line.tag == line_base
    then drop_line (if line.dirty then bus_write_line p line.tag line.bytes else p) i true
    else p

-- The loop body of `ppcemu_dcache_writeback_all`; it does not look at `valid`.
unfoldable pub writeback_slot : CacheBus → ℕ → CacheBus
writeback_slot p i =
    let line = p.cache.lines i in
    set_line (if line.dirty then bus_write_line p line.tag line.bytes else p) i
      (record line { dirty = false })

-- The loop over the slots `0 .. n - 1`, in that order.
unfoldable pub writeback_upto : CacheBus → ℕ → CacheBus
writeback_upto p zero = p
writeback_upto p (suc n) = writeback_slot (writeback_upto p n) n

unfoldable pub dcache_writeback_all : CacheBus → CacheBus
dcache_writeback_all p = writeback_upto p p.cache.line_count

unfoldable pub invalidate_upto : CacheBus → ℕ → CacheBus
invalidate_upto p zero = p
invalidate_upto p (suc n) = drop_line (invalidate_upto p n) n true

unfoldable pub cache_invalidate_all : CacheBus → CacheBus
cache_invalidate_all p = invalidate_upto p p.cache.line_count

pub data SnoopOp : Type 0 where
  read write kill : SnoopOp

unfoldable pub is_kill : SnoopOp → Bool
is_kill kill = true
is_kill _ = false

-- The loop body of `ppcemu_dcache_snoop`, with the number of lines pushed so far.
unfoldable pub snoop_line : CacheBus → SnoopOp → ℕ → ℕ → ℕ × CacheBus
unfolding is_kill
snoop_line p op line_base pushed =
    let i = cache_index_for_line p.cache line_base in
    let line = p.cache.lines i in
    let push = not (is_kill op) && line.dirty in
    if line.valid && line.tag == line_base && not line.locked
    then (
      if push then pushed + 1 else pushed,
      drop_line (if push then bus_write_line p line.tag line.bytes else p) i false,
    )
    else (pushed, p)

-- `for (;;)`, left when `line_base == last`; `rounds` bounds the number of further lines.
unfoldable pub snoop_loop : ℕ → CacheBus → SnoopOp → ℕ → ℕ → ℕ → ℕ × CacheBus
snoop_loop zero p op line_base last pushed = snoop_line p op line_base pushed
snoop_loop (suc rounds) p op line_base last pushed =
    let (pushed', q) = snoop_line p op line_base pushed in
    elim (line_base == last) [
      | true ↦ (pushed', q)
      | false ↦ snoop_loop rounds q op (u32 (line_base + cache_line_size)) last pushed'
    ]

-- The loop visits the lines from that of `addr` to that of `addr + size - 1`, going round at the
-- top of the address space, so their distance is the number of rounds after the first.
unfoldable pub dcache_snoop : CacheBus → SnoopOp → ℕ → ℕ → ℕ × CacheBus
dcache_snoop p op addr size =
    let line_base = cache_line_base addr in
    let last = cache_line_base (u32 (addr + size + 0xffff_ffff)) in
    elim (size == 0) [
      | true ↦ (0, p)
      | false ↦
          snoop_loop (u32 (last + 0x1_0000_0000 - line_base) / cache_line_size) p op line_base last
            0
    ]
