-- ===== src/Cache/Zero.antt =====
-- `dcbz` and `dcbz_l` in the data cache.
use libppcemu.Prelude.{
  ℕ, ◌%◌, ◌^◌, ◌<◌, ◌≡◌, Bool, true, false, not, refl, arith, ◌∙◌, Bool-cases, inl, inr,
  if◌then◌else◌, ◌&&◌, ◌==◌, none,
}
use libppcemu.Bus.{Bytes, bus_write}
use libppcemu.Cache.{
  CacheBus, CacheLine, cache_index_for_line, set_line, cache_writeback_slot_if_needed,
}
use libppcemu.Cache.Data.{zero_slot, dcache_zero_line, dcache_zero_line_locked, store_part}
use libppcemu.Cache.Ram.{IsRam, view, hit, base_of}
use libppcemu.Cache.Coherent.{IsCoherent}
use libppcemu.Cache.Lookup.{SameView, SameView-refl, same_slot, writeback-SameView}
use libppcemu.Cache.Slots.{cache_line_base_lem}
use libppcemu.Cache.Access.{store_part-view, store_part-IsCoherent}
use libppcemu.Cache.Transparent.{IsStored}

abbrev pub zeros : Bytes
zeros j = 0

-- Overwriting a clean slot, or the line itself, by a dirty line of zeros.
module _ (start : Bytes) (p : CacheBus) (ok : IsCoherent start p) (b : ℕ) (on_grid : b % 32 ≡ 0)
    (line : CacheLine) (v : line.valid ≡ true) (d : line.dirty ≡ true) (t : line.tag ≡ b)
    (z : (j : ℕ) → line.bytes j ≡ 0) (i : ℕ) (here : cache_index_for_line p.cache b ≡ i)
    (replaceable : (hit p.cache b ≡ false) → (p.cache.lines i).dirty ≡ false) where
  over-view :
      (a : ℕ) → view start (set_line p i line) a ≡ (if base_of a == b then 0 else view start p a)
  unfolding view hit cache_index_for_line
  over-view a =
      ground (arith, ok.aligned i, ok.placed i, ok.synced i (a % 32), z (a % 32), base_of_base)
    where
      base_of_base : base_of b ≡ b
      base_of_base = omega arith

  over-IsCoherent : IsCoherent start (set_line p i line)
  unfolding cache_index_for_line
  over-IsCoherent = record {
    is_data = ok.is_data;
    idle = λ k h. ground (arith, ok.idle k);
    aligned = λ k h. ground (arith, ok.aligned k);
    placed = λ k h. ground (arith, ok.placed k);
    synced = λ k j h d' l. ground (arith, ok.synced k j);
  }

module _ (start : Bytes) (p : CacheBus) (ok : IsCoherent start p) (b : ℕ) (l : b < 2 ^ 32)
    (on_grid : b % 32 ≡ 0) where
  abbrev slot : ℕ
  slot = cache_index_for_line p.cache b

  base_of_base : base_of b ≡ b
  base_of_base = omega arith

  -- The slot after the write-back that a replacement makes.
  ready : CacheBus
  ready =
      if not ((p.cache.lines slot).valid && (p.cache.lines slot).tag == b)
        && (p.cache.lines slot).valid
      then cache_writeback_slot_if_needed p slot
      else p

  ready_lem :
      SameView start p ready
      × ((hit ready.cache b ≡ false) → (ready.cache.lines slot).dirty ≡ false)
  unfolding ready hit
  ready_lem = elim (Bool-cases (p.cache.lines slot).valid) [
    | inr v ↦ rw v (SameView-refl start p ok, λ h. ok.idle slot v)
    | inl v ↦ elim (Bool-cases ((p.cache.lines slot).tag == b)) [
      | inl t ↦ rw (v, t) (SameView-refl start p ok, λ h. ground (arith, base_of_base))
      | inr t ↦
          rw (v, t)
            ((writeback-SameView start p ok slot).0, λ h. (writeback-SameView start p ok slot).1)
    ]
  ]

  zero_line : Bool → CacheLine
  zero_line pin = record {
    tag =
        if (p.cache.lines slot).valid && (p.cache.lines slot).tag == b
        then (ready.cache.lines slot).tag
        else b;
    valid = true;
    dirty = true;
    locked = if pin then true else (ready.cache.lines slot).locked;
    bytes = λ j. 0;
  }

  zero_line-tag : (pin : Bool) → (zero_line pin).tag ≡ b
  unfolding zero_line ready
  zero_line-tag pin = ground arith

  zero_slot_lem : (pin : Bool) → zero_slot p slot b pin ≡ set_line ready slot (zero_line pin)
  unfolding zero_slot zero_line ready
  zero_slot_lem pin = refl

  zero_slot-IsStored : (pin : Bool) → IsStored start p (zero_slot p slot b pin) b 32 zeros
  unfolding zero_line
  zero_slot-IsStored pin = rw (zero_slot_lem pin) (record {
    coherent =
        over-IsCoherent start ready coherent b on_grid line refl refl tag (λ j. refl) slot here
          ready_lem.1;
    stored = λ a la.
        over-view start ready coherent b on_grid line refl refl tag (λ j. refl) slot here
          ready_lem.1 a
        ∙ ground (arith, ready_lem.0.same a);
    same_hook = ready_lem.0.same_hook;
    same_count = ready_lem.0.same_count;
  })
    where
      line : CacheLine
      line = zero_line pin

      tag : line.tag ≡ b
      tag = zero_line-tag pin

      coherent : IsCoherent start ready
      coherent = ready_lem.0.coherent

      here : cache_index_for_line ready.cache b ≡ slot
      here = same_slot start p ready ready_lem.0 b

module _ (start : Bytes) (p : CacheBus) (ok : IsCoherent start p) (io : IsRam start p.bus)
    (addr : ℕ) (l : addr < 2 ^ 32) where
  -- The slot of `addr` is locked by another line.
  abbrev pub pinned : Bool
  pinned =
      let line = p.cache.lines (cache_index_for_line p.cache (base_of addr)) in
      line.valid && line.locked && not (line.tag == base_of addr)

  pinned-not-hit : pinned ≡ true → hit p.cache (base_of addr) ≡ false
  unfolding hit
  pinned-not-hit h = ground (arith, grid)
    where
      grid : base_of (base_of addr) ≡ base_of addr
      grid = omega arith

  pinned-IsStored :
      pinned ≡ true
      → IsStored start p
          (record p { bus = bus_write p.bus (base_of addr) 32 (λ j. 0) })
          (base_of addr)
          32
          zeros
  unfolding store_part bus_write
  pinned-IsStored h = record {
    coherent =
        store_part-IsCoherent start p ok io (base_of addr) (omega arith) 0 32 (omega arith)
          (base_of addr) (omega arith) none zeros 0 (pinned-not-hit h);
    stored = λ a la.
        store_part-view start p ok io (base_of addr) (omega arith) 0 32 (omega arith) (base_of addr)
          (omega arith) none zeros 0 a (pinned-not-hit h)
        ∙ ground arith;
    same_hook = refl;
    same_count = refl;
  }

  -- `dcbz` zeroes the line of `addr` in the memory that the processor sees, and nothing else,
  -- also where the slot is locked by another line.
  pub dcache_zero_line-IsStored : IsStored start p (dcache_zero_line p addr) (base_of addr) 32 zeros
  unfolding dcache_zero_line
  dcache_zero_line-IsStored = rw (cache_line_base_lem addr l) (elim (Bool-cases pinned) [
    | inl h ↦ rw h (pinned-IsStored h)
    | inr h ↦ rw h (zero_slot-IsStored start p ok (base_of addr) (omega arith) (omega arith) false)
  ])

  -- `dcbz_l` does the same and locks the line, but does nothing where another line is locked.
  pub dcache_zero_line_locked-IsStored :
      ((pinned ≡ true) → dcache_zero_line_locked p addr ≡ p)
      × ((pinned ≡ false)
          → IsStored start p (dcache_zero_line_locked p addr) (base_of addr) 32 zeros
            × (((dcache_zero_line_locked p addr).cache.lines
                  (cache_index_for_line p.cache (base_of addr))).locked
                ≡ true))
  unfolding dcache_zero_line_locked
  dcache_zero_line_locked-IsStored = rw (cache_line_base_lem addr l) (
    λ h. rw h,
    λ h. rw h (
      zero_slot-IsStored start p ok (base_of addr) (omega arith) (omega arith) true,
      unfold zero_slot in ground arith,
    ),
  )
