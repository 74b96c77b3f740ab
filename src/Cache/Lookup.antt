-- ===== src/Cache/Lookup.antt =====
-- `cache_get_line` on the data cache: a lookup, which may evict and fill, changes no byte that the
-- processor can see.
use libppcemu.Prelude.{
  ℕ, ◌+◌, ◌%◌, ◌<◌, ◌≡◌, true, false, refl, if◌then◌else◌, arith, ap, bit_and, shr, ◌-◌, ◌&&◌, ◌==◌,
}
use libppcemu.Prelude.{Option, none, some, Bool-cases, inl, inr, ◌∙◌}
use libppcemu.Bus.{Bytes, bus_read, bus_write}
use libppcemu.Cache.{
  CacheLine, CacheBus, cache_index_for_line, push_line, fill_line, cache_writeback_slot_if_needed,
  cache_get_line,
}
use libppcemu.Cache.Ram.{ram, IsRam, hit, view, base_of}
use libppcemu.Cache.Coherent.{
  IsCoherent, view-push_line, push_line-IsCoherent, view-set_line, set_line-IsCoherent,
}

-- `q` shows the same memory as `p`, through the same hook and the same slots.
pub record SameView (start : Bytes) (p q : CacheBus) : Type 0 where
  pub coherent : IsCoherent start q
  pub same : (a : ℕ) → view start q a ≡ view start p a
  pub same_hook : q.bus.hook ≡ p.bus.hook
  pub same_count : q.cache.line_count ≡ p.cache.line_count

pub SameView-refl : (start : Bytes) (p : CacheBus) → IsCoherent start p → SameView start p p
SameView-refl start p ok = record {
  coherent = ok;
  same = λ a. refl;
  same_hook = refl;
  same_count = refl;
}

pub SameView-trans :
    (start : Bytes) (p q r : CacheBus)
    → SameView start p q
    → SameView start q r
    → SameView start p r
SameView-trans start p q r h k = record {
  coherent = k.coherent;
  same = λ a. k.same a ∙ h.same a;
  same_hook = k.same_hook ∙ h.same_hook;
  same_count = k.same_count ∙ h.same_count;
}

pub same_slot :
    (start : Bytes) (p q : CacheBus)
    → SameView start p q
    → (line_base : ℕ)
    → cache_index_for_line q.cache line_base ≡ cache_index_for_line p.cache line_base
unfolding cache_index_for_line
same_slot start p q h line_base = ap (λ n. bit_and (shr line_base 5) (n - 1)) h.same_count

pub same_io :
    (start : Bytes) (p q : CacheBus) → SameView start p q → IsRam start p.bus → IsRam start q.bus
same_io start p q h io log addr len j l = rw h.same_hook (io log addr len j l)

module _ (start : Bytes) (p : CacheBus) (ok : IsCoherent start p) where
  pub push_line-SameView :
      (i : ℕ) → (p.cache.lines i).valid ≡ true → SameView start p (push_line p i)
  unfolding push_line bus_write
  push_line-SameView i v = record {
    coherent = push_line-IsCoherent start p ok i v;
    same = λ a. view-push_line start p ok i a v;
    same_hook = refl;
    same_count = refl;
  }

  -- A read on the bus changes no memory.
  pub read-SameView :
      (addr len : ℕ) → SameView start p (record p { bus = (bus_read p.bus addr len).1 })
  unfolding bus_read ram view hit
  read-SameView addr len = record {
    coherent = record {
      is_data = ok.is_data;
      idle = ok.idle;
      aligned = ok.aligned;
      placed = ok.placed;
      synced = ok.synced;
    };
    same = λ a. refl;
    same_hook = refl;
    same_count = refl;
  }

  writeback-push_line :
      (i : ℕ)
      → (p.cache.lines i).valid ≡ true
      → (p.cache.lines i).dirty ≡ true
      → cache_writeback_slot_if_needed p i ≡ push_line p i
  unfolding cache_writeback_slot_if_needed
  writeback-push_line i v d = ground (arith, ok.is_data)

  writeback_skip :
      (i : ℕ) → (p.cache.lines i).dirty ≡ false → cache_writeback_slot_if_needed p i ≡ p
  unfolding cache_writeback_slot_if_needed
  writeback_skip i d = ground (arith, ok.is_data)

  push_line_clean :
      (i : ℕ)
      → (((push_line p i).cache.lines i).dirty ≡ false)
        × (((push_line p i).cache.lines i).valid ≡ (p.cache.lines i).valid)
  unfolding push_line
  push_line_clean i = ground arith

  -- The write-back before an eviction changes nothing that is seen, and leaves the slot clean.
  pub writeback-SameView :
      (i : ℕ)
      → SameView start p (cache_writeback_slot_if_needed p i)
        × (((cache_writeback_slot_if_needed p i).cache.lines i).dirty ≡ false)
        × (((cache_writeback_slot_if_needed p i).cache.lines i).valid ≡ (p.cache.lines i).valid)
  writeback-SameView i = elim (Bool-cases (p.cache.lines i).dirty) [
    | inr d ↦ rw (writeback_skip i d) (SameView-refl start p ok, d, refl)
    | inl d ↦
        (let v : (p.cache.lines i).valid ≡ true = ground (arith, ok.idle i) in
          rw (writeback-push_line i v d)
            (push_line-SameView i v, (push_line_clean i).0, (push_line_clean i).1))
  ]

module _ (start : Bytes) (p : CacheBus) (ok : IsCoherent start p) (io : IsRam start p.bus) where
  -- Reading the line at `line_base` into a clean slot.
  pub fill_line-SameView :
      (i line_base : ℕ)
      → (p.cache.lines i).dirty ≡ false
      → line_base % 32 ≡ 0
      → cache_index_for_line p.cache line_base ≡ i
      → SameView start p (fill_line p i line_base)
  unfolding fill_line
  fill_line-SameView i line_base clean on_grid here =
      SameView-trans start p q (fill_line p i line_base) (read-SameView start p ok line_base 32)
        (record {
          coherent =
              set_line-IsCoherent start q okq i line clean refl (λ v. on_grid) (λ v. here) same;
          same = view-set_line start q okq i line clean refl (λ v. on_grid) (λ v. here) same;
          same_hook = refl;
          same_count = refl;
        })
    where
      q : CacheBus
      q = record p { bus = (bus_read p.bus line_base 32).1 }

      okq : IsCoherent start q
      okq = (read-SameView start p ok line_base 32).coherent

      line : CacheLine
      line = record {
        tag = line_base;
        valid = true;
        dirty = false;
        locked = false;
        bytes = (bus_read p.bus line_base 32).0;
      }

      same :
          (j : ℕ) → line.valid ≡ true → j < 32 → line.bytes j ≡ ram start q.bus.log (line.tag + j)
      same j v l = unfold bus_read ram in io p.bus.log line_base 32 j l

-- What a lookup of an aligned line hands back: its slot, now holding the line, or nothing, when
-- the line is not in the cache and its slot is pinned.
abbrev pub Found : CacheBus → ℕ → Option ℕ → Type 0
Found q line_base none = hit q.cache line_base ≡ false
Found q line_base (some i) =
    (cache_index_for_line q.cache line_base ≡ i)
    × ((q.cache.lines i).valid ≡ true)
    × ((q.cache.lines i).tag ≡ line_base)

module _ (start : Bytes) (p : CacheBus) (ok : IsCoherent start p) (io : IsRam start p.bus)
    (line_base : ℕ) (on_grid : line_base % 32 ≡ 0) where
  slot : ℕ
  slot = cache_index_for_line p.cache line_base

  -- The miss of `cache_get_line`: evict, then fill.
  evicted : CacheBus
  evicted = if (p.cache.lines slot).valid then cache_writeback_slot_if_needed p slot else p

  evicted-SameView : SameView start p evicted × ((evicted.cache.lines slot).dirty ≡ false)
  unfolding evicted
  evicted-SameView = elim (Bool-cases (p.cache.lines slot).valid) [
    | inl v ↦ rw v ((writeback-SameView start p ok slot).0, (writeback-SameView start p ok slot).1)
    | inr v ↦ rw v (SameView-refl start p ok, ok.idle slot v)
  ]

  miss-SameView : SameView start p (fill_line evicted slot line_base)
  unfolding slot cache_index_for_line
  miss-SameView =
      let h = evicted-SameView in
      SameView-trans start p evicted (fill_line evicted slot line_base) h.0 (
        fill_line-SameView start evicted h.0.coherent (same_io start p evicted h.0 io) slot
          line_base h.1 on_grid (same_slot start p evicted h.0 line_base))

  miss-Found : Found (fill_line evicted slot line_base) line_base (some slot)
  unfolding fill_line slot cache_index_for_line
  miss-Found = (
    same_slot start p (fill_line evicted slot line_base) miss-SameView line_base,
    ground arith,
    ground arith,
  )

  -- In a coherent data cache before plain memory, the look-up of an aligned line, with its eviction
  -- and fill, keeps the cache coherent and what the processor sees. It returns the line's slot,
  -- which then holds the line, or nothing where the line is not in the cache.
  pub cache_get_line_lem :
      SameView start p (cache_get_line p line_base).1
      × Found (cache_get_line p line_base).1 line_base (cache_get_line p line_base).0
  unfolding cache_get_line evicted slot hit
  cache_get_line_lem = elim (Bool-cases (line.valid && line.tag == line_base)) [
    | inl found ↦ rw found (SameView-refl start p ok, (refl, ground arith, ground arith))
    | inr lost ↦ elim (Bool-cases (line.valid && line.locked)) [
      | inl pinned ↦ rw (lost, pinned) (SameView-refl start p ok, rw grid lost)
      | inr free ↦ rw (lost, free) (miss-SameView, miss-Found)
    ]
  ]
    where
      line : CacheLine
      line = p.cache.lines slot

      grid : base_of line_base ≡ line_base
      grid = omega arith
