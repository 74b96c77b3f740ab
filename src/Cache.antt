-- ===== src/Cache.antt =====
-- The instruction and data caches of src/cache.c and src/cache.h: direct-mapped, write-back, with
-- lines that `dcbz_l` pins. A `struct cacheline *` into the array is the index of its slot, and
-- `NULL` is `none`. Each operation takes the cache together with the bus that its back pointer
-- leads to, and returns both.
pub mod Data
pub mod Maintain
pub mod Ram
pub mod Coherent
pub mod Lookup
pub mod Slots
pub mod Access
pub mod Transparent
pub mod Store
pub mod Drain
pub mod Zero
pub mod Snoop
pub mod SingleLine
pub mod SnoopView
pub mod Trace
pub mod Contract
use libppcemu.Prelude.{ℕ, ◌+◌, ◌-◌, bit_and, Bool, true, false, not, ◌&&◌, ◌||◌}
use libppcemu.Prelude.{Option, none, some, ltb, leb, ◌==◌, if◌then◌else◌, update, shr}
use libppcemu.Bus.{Bytes, Bus, bus_read, bus_write}

pub record CacheLine : Type 0 where
  pub tag : ℕ
  pub valid : Bool
  pub dirty : Bool
  pub locked : Bool
  pub bytes : Bytes

pub record Cache : Type 0 where
  pub lines : ℕ → CacheLine
  pub line_count : ℕ
  pub is_data_cache : Bool

-- A cache and the bus behind it.
pub record CacheBus : Type 0 where
  pub cache : Cache
  pub bus : Bus

abbrev pub cache_line_size : ℕ
cache_line_size = 32

-- `memcpy(dst + doff, src + soff, n)`.
abbrev pub memcpy : Bytes → ℕ → Bytes → ℕ → ℕ → Bytes
memcpy dst doff src soff n j =
    if leb doff j && ltb j (doff + n) then src (soff + (j - doff)) else dst j

unfoldable pub cache_line_base : ℕ → ℕ
cache_line_base addr = bit_and addr 0xffff_ffe0

unfoldable pub cache_line_offset : ℕ → ℕ
cache_line_offset addr = bit_and addr 31

unfoldable pub cache_index_for_line : Cache → ℕ → ℕ
cache_index_for_line c line_base = bit_and (shr line_base 5) (c.line_count - 1)

-- Writes the line in a slot.
abbrev pub set_line : CacheBus → ℕ → CacheLine → CacheBus
set_line p i line = record p { cache = record (p.cache) { lines = update p.cache.lines i line } }

abbrev pub bus_write_line : CacheBus → ℕ → Bytes → CacheBus
bus_write_line p phys val = record p { bus = bus_write p.bus phys cache_line_size val }

-- The part of `cache_writeback_slot_if_needed` past its returns: push the line, mark it clean.
unfoldable pub push_line : CacheBus → ℕ → CacheBus
push_line p i =
    let line = p.cache.lines i in
    set_line (bus_write_line p line.tag line.bytes) i (record line { dirty = false })

unfoldable pub cache_writeback_slot_if_needed : CacheBus → ℕ → CacheBus
cache_writeback_slot_if_needed p i =
    if not p.cache.is_data_cache
    then p
    else if not (p.cache.lines i).valid || not (p.cache.lines i).dirty
    then p
    else push_line p i

-- The fill of a missed line: read it from the bus into its slot.
unfoldable pub fill_line : CacheBus → ℕ → ℕ → CacheBus
fill_line p i line_base =
    let (val, bus) = bus_read p.bus line_base cache_line_size in
    set_line (record p { bus = bus }) i
      (record { tag = line_base; valid = true; dirty = false; locked = false; bytes = val })

unfoldable pub cache_get_line : CacheBus → ℕ → Option ℕ × CacheBus
cache_get_line p line_base =
    let i = cache_index_for_line p.cache line_base in
    let line = p.cache.lines i in
    if line.valid && line.tag == line_base
    then (some i, p)
    else if line.valid && line.locked
    then (none, p)
    else (
      some i,
      fill_line (if line.valid then cache_writeback_slot_if_needed p i else p) i line_base,
    )
