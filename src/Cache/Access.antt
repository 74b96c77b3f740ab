-- ===== src/Cache/Access.antt =====
-- The parts of a load and of a store, once the line has been looked up.
use libppcemu.Prelude.{ℕ, ◌+◌, ◌-◌, ◌%◌, ◌≤◌, ◌<◌, ◌≡◌, ◌≢◌, refl, arith}
use libppcemu.Prelude.{Option, none, some, ltb, leb, if◌then◌else◌, ◌&&◌}
use libppcemu.Bus.{Bytes, bus_read, bus_write}
use libppcemu.Cache.{
  CacheBus, cache_index_for_line, push_line, fill_line, cache_writeback_slot_if_needed,
  cache_get_line,
}
use libppcemu.Cache.Data.{load_part, store_part}
use libppcemu.Cache.Ram.{ram, IsRam, hit, view, base_of}
use libppcemu.Cache.Coherent.{IsCoherent}
use libppcemu.Cache.Lookup.{SameView, SameView-refl, read-SameView, Found}

-- A lookup leaves the lines of all other slots alone.
pub cache_get_line_other :
    (p : CacheBus) (b i : ℕ)
    → i ≢ cache_index_for_line p.cache b
    → (cache_get_line p b).1.cache.lines i ≡ p.cache.lines i
unfolding cache_get_line fill_line cache_writeback_slot_if_needed push_line
cache_get_line_other p b i ne = ground arith

base_of_base : (b : ℕ) → b % 32 ≡ 0 → base_of b ≡ b
base_of_base b h = omega arith

-- `Found` only looks at one slot.
pub Found-transfer :
    (p q : CacheBus) (b : ℕ) (r : Option ℕ)
    → b % 32 ≡ 0
    → cache_index_for_line q.cache b ≡ cache_index_for_line p.cache b
    → q.cache.lines (cache_index_for_line p.cache b)
      ≡ p.cache.lines (cache_index_for_line p.cache b)
    → Found p b r
    → Found q b r
unfolding hit
Found-transfer p q b none on_grid e same h = ground (arith, base_of_base b on_grid)
Found-transfer p q b (some i) on_grid e same h = ground arith

module _ (start : Bytes) (p : CacheBus) (ok : IsCoherent start p) (io : IsRam start p.bus) (b : ℕ)
    (on_grid : b % 32 ≡ 0) (offset n : ℕ) (fits : offset + n ≤ 32) (addr : ℕ)
    (split : addr ≡ b + offset) where
  in_line : (k : ℕ) → k < 32 → (base_of (b + k) ≡ b) × ((b + k) % 32 ≡ k)
  in_line k h = omega arith

  -- What a part of a load puts in the buffer.
  pub load_part-view :
      (r : Option ℕ) (out : Bytes) (doff j : ℕ)
      → Found p b r
      → (load_part p r offset addr n out doff).0 j
        ≡ (if leb doff j && ltb j (doff + n) then view start p (addr + (j - doff)) else out j)
  unfolding load_part bus_read view hit
  load_part-view none out doff j h =
      ground (
        arith,
        base_of_base b on_grid,
        in_line (offset + (j - doff)),
        io p.bus.log addr n (j - doff),
      )
  load_part-view (some i) out doff j h = ground (arith, in_line (offset + (j - doff)))

  pub load_part-SameView :
      (r : Option ℕ) (out : Bytes) (doff : ℕ)
      → SameView start p (load_part p r offset addr n out doff).1
  unfolding load_part
  load_part-SameView none out doff = read-SameView start p ok addr n
  load_part-SameView (some i) out doff = SameView-refl start p ok

  -- A store of `n` bytes of `val` from `voff` on, to the memory at `addr`.
  pub store_part-view :
      (r : Option ℕ) (val : Bytes) (voff a : ℕ)
      → Found p b r
      → view start (store_part p r offset addr n val voff) a
        ≡ (if leb addr a && ltb a (addr + n) then val (voff + (a - addr)) else view start p a)
  unfolding store_part bus_write view hit ram cache_index_for_line
  store_part-view none val voff a h = ground (arith, base_of_base b on_grid)
  store_part-view (some i) val voff a h = ground (arith, ok.placed i, ok.aligned i)

  pub store_part-IsCoherent :
      (r : Option ℕ) (val : Bytes) (voff : ℕ)
      → Found p b r
      → IsCoherent start (store_part p r offset addr n val voff)
  unfolding store_part bus_write ram cache_index_for_line hit
  store_part-IsCoherent none val voff h = record {
    is_data = ok.is_data;
    idle = ok.idle;
    aligned = ok.aligned;
    placed = ok.placed;
    synced = λ k j v d l.
        ground (arith, base_of_base b on_grid, ok.synced k j, ok.aligned k, ok.placed k);
  }
  store_part-IsCoherent (some i) val voff h = record {
    is_data = ok.is_data;
    idle = λ k v. ground (arith, ok.idle k);
    aligned = λ k v. ground (arith, ok.aligned k);
    placed = λ k v. ground (arith, ok.placed k);
    synced = λ k j v d l. ground (arith, ok.synced k j);
  }

  pub load_part-cache :
      (r : Option ℕ) (out : Bytes) (doff : ℕ)
      → (load_part p r offset addr n out doff).1.cache ≡ p.cache
  unfolding load_part
  load_part-cache none out doff = refl
  load_part-cache (some i) out doff = refl

  pub store_part_other :
      (r : Option ℕ) (val : Bytes) (voff i : ℕ)
      → Found p b r
      → i ≢ cache_index_for_line p.cache b
      → (store_part p r offset addr n val voff).cache.lines i ≡ p.cache.lines i
  unfolding store_part
  store_part_other none val voff i h ne = refl
  store_part_other (some j) val voff i h ne = ground arith

  pub store_part_same :
      (r : Option ℕ) (val : Bytes) (voff : ℕ)
      → ((store_part p r offset addr n val voff).cache.line_count ≡ p.cache.line_count)
        × ((store_part p r offset addr n val voff).bus.hook ≡ p.bus.hook)
  unfolding store_part bus_write
  store_part_same none val voff = (refl, refl)
  store_part_same (some i) val voff = (refl, refl)
