-- ===== src/Cache/Coherent.antt =====
-- The invariant of the data cache, and that replacing a line keeps it.
use libppcemu.Prelude.{ℕ, ◌+◌, ◌%◌, ◌<◌, ◌≡◌, true, false, arith}
use libppcemu.Bus.{Bytes, bus_write}
use libppcemu.Cache.{CacheLine, CacheBus, cache_index_for_line, set_line, push_line}
use libppcemu.Cache.Ram.{ram, hit, view}

-- An invalid line is clean; a valid one stands in the slot of its tag, which is aligned; and the
-- bytes of a valid clean line are those of memory.
pub record IsCoherent (start : Bytes) (p : CacheBus) : Type 0 where
  pub is_data : p.cache.is_data_cache ≡ true
  pub idle : (i : ℕ) → (p.cache.lines i).valid ≡ false → (p.cache.lines i).dirty ≡ false
  pub aligned : (i : ℕ) → (p.cache.lines i).valid ≡ true → (p.cache.lines i).tag % 32 ≡ 0
  pub placed :
      (i : ℕ)
      → (p.cache.lines i).valid ≡ true
      → cache_index_for_line p.cache (p.cache.lines i).tag ≡ i
  pub synced :
      (i j : ℕ)
      → (p.cache.lines i).valid ≡ true
      → (p.cache.lines i).dirty ≡ false
      → j < 32
      → (p.cache.lines i).bytes j ≡ ram start p.bus.log ((p.cache.lines i).tag + j)

module _ (start : Bytes) (p : CacheBus) (ok : IsCoherent start p) where
  pub view-push_line :
      (i a : ℕ) → (p.cache.lines i).valid ≡ true → view start (push_line p i) a ≡ view start p a
  unfolding view hit push_line bus_write ram cache_index_for_line
  view-push_line i a v = ground (arith, ok.aligned i, ok.placed i, ok.synced i (a % 32))

  pub push_line-IsCoherent :
      (i : ℕ) → (p.cache.lines i).valid ≡ true → IsCoherent start (push_line p i)
  unfolding push_line bus_write ram cache_index_for_line
  push_line-IsCoherent i v = record {
    is_data = ok.is_data;
    idle = λ k h. ground (arith, ok.idle k);
    aligned = λ k h. ground (arith, ok.aligned k);
    placed = λ k h. ground (arith, ok.placed k);
    synced = λ k j h d l.
        ground (arith, ok.aligned i, ok.placed i, ok.aligned k, ok.placed k, ok.synced k j);
  }

  -- A clean slot can be given any clean line whose bytes are those of memory, or an invalid one.
  module _ (i : ℕ) (line : CacheLine) (clean : (p.cache.lines i).dirty ≡ false)
      (fresh : line.dirty ≡ false) (on_grid : line.valid ≡ true → line.tag % 32 ≡ 0)
      (here : line.valid ≡ true → cache_index_for_line p.cache line.tag ≡ i)
      (same : (j : ℕ)
        → line.valid ≡ true
        → j < 32
        → line.bytes j ≡ ram start p.bus.log (line.tag + j)) where
    pub view-set_line : (a : ℕ) → view start (set_line p i line) a ≡ view start p a
    unfolding view hit cache_index_for_line
    view-set_line a = ground (arith, ok.aligned i, ok.placed i, ok.synced i (a % 32), same (a % 32))

    pub set_line-IsCoherent : IsCoherent start (set_line p i line)
    unfolding cache_index_for_line
    set_line-IsCoherent = record {
      is_data = ok.is_data;
      idle = λ k h. ground (arith, ok.idle k);
      aligned = λ k h. ground (arith, ok.aligned k);
      placed = λ k h. ground (arith, ok.placed k);
      synced = λ k j h d l. ground (arith, ok.synced k j, same j);
    }
