-- ===== src/Cache/Store.antt =====
-- The store half of the data cache's transparency.
use native.Mathlib.Decide.{dec_le}
use libppcemu.Prelude.{
  ℕ, suc, ◌+◌, ◌-◌, ◌*◌, ◌/◌, ◌%◌, ◌^◌, ◌≤◌, ◌<◌, ◌≡◌, arith, ◌∙◌, Option, ltb, leb, if◌then◌else◌,
  ◌&&◌, u32, sym,
}
use libppcemu.Bus.{Bytes}
use libppcemu.Cache.{CacheBus, cache_index_for_line, cache_get_line}
use libppcemu.Cache.Data.{store_part, dcache_store}
use libppcemu.Cache.Ram.{IsRam, view}
use libppcemu.Cache.Coherent.{IsCoherent}
use libppcemu.Cache.Lookup.{SameView, same_io, Found, cache_get_line_lem}
use libppcemu.Cache.Slots.{cache_line_base_lem, cache_line_offset_lem, index_next}
use libppcemu.Cache.Access.{
  Found-transfer, store_part-view, store_part-IsCoherent, store_part_other, store_part_same,
}
use libppcemu.Cache.Transparent.{IsStored, both_lem}

module _ (start : Bytes) (p : CacheBus) (ok : IsCoherent start p) (io : IsRam start p.bus) (k : ℕ)
    (count : p.cache.line_count ≡ 2 ^ suc k) (addr size : ℕ) (l : addr < 2 ^ 32) (small : size ≤ 32)
    (val : Bytes) where
  abbrev b : ℕ
  b = addr / 32 * 32

  abbrev off : ℕ
  off = addr % 32

  abbrev next : ℕ
  next = u32 (b + 32)

  abbrev one : Option ℕ × CacheBus
  one = cache_get_line p b

  abbrev two : Option ℕ × CacheBus
  two = cache_get_line (one.1) next

  one_lem : SameView start p one.1 × Found one.1 b one.0
  one_lem = cache_get_line_lem start p ok io b (omega arith)

  two_lem : SameView start p two.1 × Found two.1 b one.0 × Found two.1 next two.0
  two_lem = both_lem start p ok io k b count (omega arith) (omega arith)

  io_one : IsRam start one.1.bus
  io_one = same_io start p one.1 one_lem.0 io

  io_two : IsRam start two.1.bus
  io_two = same_io start p two.1 two_lem.0 io

  abbrev lower : CacheBus
  lower = store_part two.1 one.0 off addr (32 - off) val 0

  abbrev upper : CacheBus
  upper = store_part lower two.0 0 next (size - (32 - off)) val (32 - off)

  store_inside :
      off + size ≤ 32 → dcache_store p addr size val ≡ store_part one.1 one.0 off addr size val 0
  unfolding dcache_store
  store_inside h = rw (cache_line_base_lem addr l, cache_line_offset_lem addr) (ground arith)

  store_across : 32 < off + size → dcache_store p addr size val ≡ upper
  unfolding dcache_store
  store_across h = rw (cache_line_base_lem addr l, cache_line_offset_lem addr) (ground arith)

  lower_same : (lower.cache.line_count ≡ two.1.cache.line_count) × (lower.bus.hook ≡ two.1.bus.hook)
  lower_same =
      store_part_same start two.1 two_lem.0.coherent io_two b (omega arith) off (32 - off)
        (omega arith) addr (omega arith) one.0 val 0

  lower-IsCoherent : IsCoherent start lower
  lower-IsCoherent =
      store_part-IsCoherent start two.1 two_lem.0.coherent io_two b (omega arith) off (32 - off)
        (omega arith) addr (omega arith) one.0 val 0 two_lem.1

  lower-view :
      (a : ℕ)
      → view start lower a ≡ (
          if leb addr a && ltb a (addr + (32 - off))
          then val (0 + (a - addr))
          else view start two.1 a)
  lower-view a =
      store_part-view start two.1 two_lem.0.coherent io_two b (omega arith) off (32 - off)
        (omega arith) addr (omega arith) one.0 val 0 a two_lem.1

  lower_slot : (x : ℕ) → cache_index_for_line lower.cache x ≡ cache_index_for_line two.1.cache x
  unfolding cache_index_for_line
  lower_slot x = rw (lower_same.0)

  io_low : IsRam start lower.bus
  io_low log a n j lt = rw (lower_same.1) (io_two log a n j lt)

  lower-Found : Found lower next two.0
  lower-Found =
      Found-transfer two.1 lower next two.0 (omega arith) (lower_slot next)
        (store_part_other start two.1 two_lem.0.coherent io_two b (omega arith) off (32 - off)
          (omega arith) addr (omega arith) one.0 val 0 (cache_index_for_line two.1.cache next)
          two_lem.1
          λ e.
            index_next two.1.cache k b (two_lem.0.same_count ∙ count) (omega arith) (omega arith)
              (sym e))
        two_lem.2

  store_inside_lem : off + size ≤ 32 → IsStored start p (dcache_store p addr size val) addr size val
  store_inside_lem h = rw (store_inside h) (record {
    coherent =
        store_part-IsCoherent start one.1 one_lem.0.coherent io_one b (omega arith) off size h addr
          (omega arith) one.0 val 0 one_lem.1;
    stored = λ a la.
        store_part-view start one.1 one_lem.0.coherent io_one b (omega arith) off size h addr
          (omega arith) one.0 val 0 a one_lem.1
        ∙ ground (arith, one_lem.0.same a, place a la h);
    same_hook = same.1 ∙ one_lem.0.same_hook;
    same_count = same.0 ∙ one_lem.0.same_count;
  })
    where
      place :
          (a : ℕ)
          → a < 2 ^ 32
          → off + size ≤ 32
          → addr ≤ a
          → 0 + (a - addr) ≡ u32 (a + 2 ^ 32 - addr)
      place a la h le = omega arith

      same :
          ((store_part one.1 one.0 off addr size val 0).cache.line_count ≡ one.1.cache.line_count)
          × ((store_part one.1 one.0 off addr size val 0).bus.hook ≡ one.1.bus.hook)
      same =
          store_part_same start one.1 one_lem.0.coherent io_one b (omega arith) off size h addr
            (omega arith) one.0 val 0

  upper-view :
      (a : ℕ)
      → 32 < off + size
      → view start upper a ≡ (
          if leb next a && ltb a (next + (size - (32 - off)))
          then val (32 - off + (a - next))
          else view start lower a)
  upper-view a h =
      store_part-view start lower lower-IsCoherent io_low next (omega arith) 0 (size - (32 - off))
        (omega arith) next (omega arith) two.0 val (32 - off) a lower-Found

  store_across_lem : 32 < off + size → IsStored start p (dcache_store p addr size val) addr size val
  store_across_lem h = rw (store_across h) (record {
    coherent =
        store_part-IsCoherent start lower lower-IsCoherent io_low next (omega arith) 0
          (size - (32 - off)) (omega arith) next (omega arith) two.0 val (32 - off) lower-Found;
    stored = λ a la.
        upper-view a h
        ∙ ground (arith, lower-view a, two_lem.0.same a, place_low a la, place_high a la);
    same_hook = same.1 ∙ lower_same.1 ∙ two_lem.0.same_hook;
    same_count = same.0 ∙ lower_same.0 ∙ two_lem.0.same_count;
  })
    where
      place_low : (a : ℕ) → a < 2 ^ 32 → addr ≤ a → 0 + (a - addr) ≡ u32 (a + 2 ^ 32 - addr)
      place_low a la le = omega arith

      place_high :
          (a : ℕ)
          → a < 2 ^ 32
          → next ≤ a
          → a < next + (size - (32 - off))
          → 32 - off + (a - next) ≡ u32 (a + 2 ^ 32 - addr)
      place_high a la le lt = omega arith

      same : (upper.cache.line_count ≡ lower.cache.line_count) × (upper.bus.hook ≡ lower.bus.hook)
      same =
          store_part_same start lower lower-IsCoherent io_low next (omega arith) 0
            (size - (32 - off)) (omega arith) next (omega arith) two.0 val (32 - off)

  -- A store of at most a line's size writes exactly the bytes `addr`, `addr + 1`, ... (mod 2^32)
  -- of the memory that the processor sees, and keeps the cache coherent.
  pub dcache_store-IsStored : IsStored start p (dcache_store p addr size val) addr size val
  dcache_store-IsStored = elim (dec_le (off + size) 32) [
    | yes h ↦ store_inside_lem h
    | no h ↦ store_across_lem (omega arith)
  ]
