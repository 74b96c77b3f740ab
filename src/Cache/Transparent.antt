-- ===== src/Cache/Transparent.antt =====
-- The data cache is transparent: a load returns the memory that the processor sees, and a store
-- changes exactly the bytes it names, with hits, misses, evictions, pinned sets and accesses that
-- cross a line all included.
use libppcemu.Prelude.{
  ℕ, suc, ◌+◌, ◌-◌, ◌*◌, ◌/◌, ◌%◌, ◌^◌, ◌≤◌, ◌<◌, ◌≡◌, arith, ◌∙◌, Option, ltb, leb, if◌then◌else◌,
  ◌&&◌, u32, ap,
}
use native.Mathlib.Decide.{dec_le}
use libppcemu.Bus.{Bytes}
use libppcemu.Cache.{CacheBus, cache_index_for_line, cache_get_line}
use libppcemu.Cache.Data.{load_part, dcache_load}
use libppcemu.Cache.Ram.{IsRam, view}
use libppcemu.Cache.Coherent.{IsCoherent}
use libppcemu.Cache.Lookup.{SameView, SameView-trans, same_slot, same_io, Found, cache_get_line_lem}
use libppcemu.Cache.Slots.{cache_line_base_lem, cache_line_offset_lem, index_next}
use libppcemu.Cache.Access.{
  cache_get_line_other, Found-transfer, load_part-view, load_part-SameView, load_part-cache,
}

-- The two lookups of an access that crosses a line: the second leaves the first line in place.
module _ (start : Bytes) (p : CacheBus) (ok : IsCoherent start p) (io : IsRam start p.bus) (k b : ℕ)
    (count : p.cache.line_count ≡ 2 ^ suc k) (l : b < 2 ^ 32) (on_grid : b % 32 ≡ 0) where
  abbrev pub next_line : ℕ
  next_line = u32 (b + 32)

  abbrev pub first : Option ℕ × CacheBus
  first = cache_get_line p b

  abbrev pub second : Option ℕ × CacheBus
  second = cache_get_line (first.1) next_line

  first_lem : SameView start p first.1 × Found first.1 b first.0
  first_lem = cache_get_line_lem start p ok io b on_grid

  io_first : IsRam start first.1.bus
  io_first = same_io start p first.1 first_lem.0 io

  second_lem : SameView start first.1 second.1 × Found second.1 next_line second.0
  second_lem =
      cache_get_line_lem start first.1 first_lem.0.coherent io_first next_line (omega arith)

  pub both_lem :
      SameView start p second.1 × Found second.1 b first.0 × Found second.1 next_line second.0
  both_lem = (
    SameView-trans start p first.1 second.1 first_lem.0 second_lem.0,
    Found-transfer first.1 second.1 b first.0 on_grid
        (same_slot start first.1 second.1 second_lem.0 b)
        (cache_get_line_other first.1 next_line (cache_index_for_line first.1.cache b)
          (index_next first.1.cache k b (first_lem.0.same_count ∙ count) l on_grid))
        first_lem.1,
    second_lem.1,
  )

module _ (start : Bytes) (p : CacheBus) (ok : IsCoherent start p) (io : IsRam start p.bus) (k : ℕ)
    (count : p.cache.line_count ≡ 2 ^ suc k) (addr size : ℕ) (l : addr < 2 ^ 32)
    (small : size ≤ 32) where
  abbrev b : ℕ
  b = addr / 32 * 32

  abbrev off : ℕ
  off = addr % 32

  abbrev one : Option ℕ × CacheBus
  one = cache_get_line p b

  abbrev two : Option ℕ × CacheBus
  two = cache_get_line (one.1) (u32 (b + 32))

  one_lem : SameView start p one.1 × Found one.1 b one.0
  one_lem = cache_get_line_lem start p ok io b (omega arith)

  two_lem : SameView start p two.1 × Found two.1 b one.0 × Found two.1 (u32 (b + 32)) two.0
  two_lem = both_lem start p ok io k b count (omega arith) (omega arith)

  module _ (out : Bytes) where
    load_inside :
        off + size ≤ 32 → dcache_load p addr size out ≡ load_part one.1 one.0 off addr size out 0
    unfolding dcache_load
    load_inside h = rw (cache_line_base_lem addr l, cache_line_offset_lem addr) (ground arith)

    abbrev lower : Bytes × CacheBus
    lower = load_part two.1 one.0 off addr (32 - off) out 0

    load_across :
        32 < off + size
        → dcache_load p addr size out
          ≡ load_part lower.1 two.0 0 (u32 (b + 32)) (size - (32 - off)) lower.0 (32 - off)
    unfolding dcache_load
    load_across h = rw (cache_line_base_lem addr l, cache_line_offset_lem addr) (ground arith)

    lower_lem : SameView start two.1 lower.1
    lower_lem =
        load_part-SameView start two.1 two_lem.0.coherent (same_io start p two.1 two_lem.0 io) b
          (omega arith) off (32 - off) (omega arith) addr (omega arith) one.0 out 0

    lower_Found : Found lower.1 (u32 (b + 32)) two.0
    lower_Found =
        let same =
          load_part-cache start two.1 two_lem.0.coherent (same_io start p two.1 two_lem.0 io) b
            (omega arith) off (32 - off) (omega arith) addr (omega arith) one.0 out 0 in
        Found-transfer two.1 lower.1 (u32 (b + 32)) two.0 (omega arith)
          (ap (λ c. cache_index_for_line c (u32 (b + 32))) same)
          (ap (λ c. c.lines (cache_index_for_line two.1.cache (u32 (b + 32)))) same) two_lem.2

    wrap : (j : ℕ) → off + size ≤ 32 → j < size → addr + (j - 0) ≡ u32 (addr + j)
    wrap j h lt = omega arith

    load_inside_lem :
        off + size ≤ 32
        → SameView start p (dcache_load p addr size out).1
          × ((j : ℕ) → j < size → (dcache_load p addr size out).0 j ≡ view start p (u32 (addr + j)))
    load_inside_lem h = rw (load_inside h) (
      SameView-trans start p one.1 _ one_lem.0 (
          load_part-SameView start one.1 one_lem.0.coherent (same_io start p one.1 one_lem.0 io) b
            (omega arith) off size h addr (omega arith) one.0 out 0),
      λ j lt.
          load_part-view start one.1 one_lem.0.coherent (same_io start p one.1 one_lem.0 io) b
            (omega arith) off size h addr (omega arith) one.0 out 0 j one_lem.1
          ∙ ground (arith, one_lem.0.same (addr + (j - 0)), wrap j h lt),
    )

    load_across_lem :
        32 < off + size
        → SameView start p (dcache_load p addr size out).1
          × ((j : ℕ) → j < size → (dcache_load p addr size out).0 j ≡ view start p (u32 (addr + j)))
    load_across_lem h = rw (load_across h) (
      SameView-trans start p two.1 _ two_lem.0 (
          SameView-trans start two.1 lower.1 _ lower_lem (
            load_part-SameView start lower.1 lower_lem.coherent io_low (u32 (b + 32)) (omega arith)
              0 (size - (32 - off)) (omega arith) (u32 (b + 32)) (omega arith) two.0 lower.0
              (32 - off))),
      λ j lt.
          upper j
          ∙ ground (
            arith,
            lower_lem.same (u32 (b + 32) + (j - (32 - off))),
            two_lem.0.same (u32 (b + 32) + (j - (32 - off))),
            two_lem.0.same (addr + (j - 0)),
            below j,
            wrap_low j,
            wrap_high j,
          ),
    )
      where
        io_low : IsRam start lower.1.bus
        io_low = same_io start two.1 lower.1 lower_lem (same_io start p two.1 two_lem.0 io)

        upper :
            (j : ℕ)
            → (load_part lower.1 two.0 0 (u32 (b + 32)) (size - (32 - off)) lower.0 (32 - off)).0 j
              ≡ (if leb (32 - off) j && ltb j (32 - off + (size - (32 - off)))
                  then view start lower.1 (u32 (b + 32) + (j - (32 - off)))
                  else lower.0 j)
        upper j =
            load_part-view start lower.1 lower_lem.coherent io_low (u32 (b + 32)) (omega arith) 0
              (size - (32 - off)) (omega arith) (u32 (b + 32)) (omega arith) two.0 lower.0
              (32 - off) j lower_Found

        below :
            (j : ℕ)
            → lower.0 j ≡ (
                if leb 0 j && ltb j (0 + (32 - off))
                then view start two.1 (addr + (j - 0))
                else out j)
        below j =
            load_part-view start two.1 two_lem.0.coherent (same_io start p two.1 two_lem.0 io) b
              (omega arith) off (32 - off) (omega arith) addr (omega arith) one.0 out 0 j two_lem.1

        wrap_low : (j : ℕ) → j < 32 - off → addr + (j - 0) ≡ u32 (addr + j)
        wrap_low j lt = omega arith

        wrap_high :
            (j : ℕ) → 32 - off ≤ j → j < size → u32 (b + 32) + (j - (32 - off)) ≡ u32 (addr + j)
        wrap_high j le lt = omega arith

    dcache_load_both :
        SameView start p (dcache_load p addr size out).1
        × ((j : ℕ) → j < size → (dcache_load p addr size out).0 j ≡ view start p (u32 (addr + j)))
    dcache_load_both = elim (dec_le (off + size) 32) [
      | yes h ↦ load_inside_lem h
      | no h ↦ load_across_lem (omega arith)
    ]

-- `q` shows the memory of `p` with `size` bytes of `val` written from `addr` on, going round at
-- the top of the address space.
pub record IsStored (start : Bytes) (p q : CacheBus) (addr size : ℕ) (val : Bytes) : Type 0 where
  pub coherent : IsCoherent start q
  pub stored :
      (a : ℕ)
      → a < 2 ^ 32
      → view start q a ≡ (
          if ltb (u32 (a + 2 ^ 32 - addr)) size
          then val (u32 (a + 2 ^ 32 - addr))
          else view start p a)
  pub same_hook : q.bus.hook ≡ p.bus.hook
  pub same_count : q.cache.line_count ≡ p.cache.line_count

module _ (start : Bytes) (p : CacheBus) (ok : IsCoherent start p) (io : IsRam start p.bus) (k : ℕ)
    (count : p.cache.line_count ≡ 2 ^ suc k) (addr size : ℕ) (l : addr < 2 ^ 32)
    (small : size ≤ 32) where
  -- A load returns the bytes that the processor sees at the addresses `addr`, `addr + 1`, ...
  -- (mod 2^32), and changes none of what it sees.
  pub dcache_load_lem :
      (out : Bytes)
      → SameView start p (dcache_load p addr size out).1
        × ((j : ℕ) → j < size → (dcache_load p addr size out).0 j ≡ view start p (u32 (addr + j)))
  dcache_load_lem out = dcache_load_both start p ok io k count addr size l small out
