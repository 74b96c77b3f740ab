-- ===== src/Cache/Data.antt =====
-- Loads and stores through the caches: `ppcemu_icache_fetch`, `ppcemu_dcache_load`,
-- `ppcemu_dcache_store`, `ppcemu_dcache_zero_line` and `ppcemu_dcache_zero_line_locked` of
-- src/cache.c. An out buffer is passed in and returned.
use libppcemu.Prelude.{ℕ, ◌+◌, ◌-◌, Bool, true, false, not, ◌&&◌, Option, none, some}
use libppcemu.Prelude.{leb, ◌==◌, if◌then◌else◌, u32}
use libppcemu.Bus.{Bytes, bus_read, bus_write}
use libppcemu.Cache.{
  CacheBus, cache_line_size, memcpy, cache_line_base, cache_line_offset, cache_index_for_line,
  set_line, bus_write_line, cache_writeback_slot_if_needed, cache_get_line,
}

-- `assume(line)` after the fetch rules `none` out: the I$ locks no line.
unfoldable pub icache_fetch : CacheBus → ℕ → Bytes → Bytes × CacheBus
icache_fetch p addr out =
    let offset = cache_line_offset addr in
    let (line, q) = cache_get_line p (cache_line_base addr) in
    elim line [ none ↦ (out, q) | some i ↦ (memcpy out 0 (q.cache.lines i).bytes offset 4, q) ]

-- One part of a load: from the line, or past the cache where its slot is pinned.
unfoldable pub load_part : CacheBus → Option ℕ → ℕ → ℕ → ℕ → Bytes → ℕ → Bytes × CacheBus
load_part p none offset addr n out doff =
    let (val, bus) = bus_read p.bus addr n in (memcpy out doff val 0 n, record p { bus = bus })
load_part p (some i) offset addr n out doff = (memcpy out doff (p.cache.lines i).bytes offset n, p)

unfoldable pub dcache_load : CacheBus → ℕ → ℕ → Bytes → Bytes × CacheBus
dcache_load p addr size out =
    let line_base = cache_line_base addr in
    let offset = cache_line_offset addr in
    if leb (offset + size) cache_line_size
    then (let (line, q) = cache_get_line p line_base in load_part q line offset addr size out 0)
    else (let n1 = cache_line_size - offset in
        let n2 = size - n1 in
        let next = u32 (line_base + cache_line_size) in
        let (line, q) = cache_get_line p line_base in
        let (line2, r) = cache_get_line q next in
        let (out', s) = load_part r line offset addr n1 out 0 in
        load_part s line2 0 next n2 out' n1)

-- One part of a store of `val + voff`.
unfoldable pub store_part : CacheBus → Option ℕ → ℕ → ℕ → ℕ → Bytes → ℕ → CacheBus
store_part p none offset addr n val voff = record p {
  bus = bus_write p.bus addr n (λ j. val (voff + j));
}
store_part p (some i) offset addr n val voff =
    let line = p.cache.lines i in
    set_line p i (record line { bytes = memcpy line.bytes offset val voff n; dirty = true })

unfoldable pub dcache_store : CacheBus → ℕ → ℕ → Bytes → CacheBus
dcache_store p addr size val =
    let line_base = cache_line_base addr in
    let offset = cache_line_offset addr in
    if leb (offset + size) cache_line_size
    then (let (line, q) = cache_get_line p line_base in store_part q line offset addr size val 0)
    else (let n1 = cache_line_size - offset in
        let n2 = size - n1 in
        let next = u32 (line_base + cache_line_size) in
        let (line, q) = cache_get_line p line_base in
        let (line2, r) = cache_get_line q next in
        store_part (store_part r line offset addr n1 val 0) line2 0 next n2 val n1)

-- Both zeroing functions replace the line in the slot like this; `pin` is set by `dcbz_l`.
unfoldable pub zero_slot : CacheBus → ℕ → ℕ → Bool → CacheBus
zero_slot p i line_base pin =
    let line = p.cache.lines i in
    let hit = line.valid && line.tag == line_base in
    let q = if not hit && line.valid then cache_writeback_slot_if_needed p i else p in
    let line' = q.cache.lines i in
    set_line q i (record {
      tag = if hit then line'.tag else line_base;
      valid = true;
      dirty = true;
      locked = if pin then true else line'.locked;
      bytes = λ j. 0;
    })

unfoldable pub dcache_zero_line : CacheBus → ℕ → CacheBus
dcache_zero_line p addr =
    let line_base = cache_line_base addr in
    let i = cache_index_for_line p.cache line_base in
    let line = p.cache.lines i in
    if line.valid && line.locked && not (line.tag == line_base)
    then bus_write_line p line_base (λ j. 0)
    else zero_slot p i line_base false

unfoldable pub dcache_zero_line_locked : CacheBus → ℕ → CacheBus
dcache_zero_line_locked p addr =
    let line_base = cache_line_base addr in
    let i = cache_index_for_line p.cache line_base in
    let line = p.cache.lines i in
    if line.valid && line.locked && not (line.tag == line_base)
    then p
    else zero_slot p i line_base true
