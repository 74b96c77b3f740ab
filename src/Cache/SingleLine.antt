-- ===== src/Cache/SingleLine.antt =====
-- The operations of src/cache.c on one line against what the processor sees.
use std.Path.{subst}
use libppcemu.Prelude.{
  ℕ, ◌+◌, ◌^◌, ◌<◌, ◌≡◌, refl, ap, arith, true, false, ◌&&◌, ◌==◌, Bool-cases, inl, inr,
  update-update, bit_and_high,
}
use libppcemu.Bus.{Bytes, bus_write}
use libppcemu.Cache.{
  CacheLine, CacheBus, cache_line_base, cache_index_for_line, set_line, push_line, bus_write_line,
}
use libppcemu.Cache.Maintain.{dcache_writeback_line, dcache_writeback_invalidate_line}
use libppcemu.Cache.Ram.{ram, hit, view, base_of}
use libppcemu.Cache.Coherent.{IsCoherent, set_line-IsCoherent, view-set_line}
use libppcemu.Cache.Lookup.{SameView, SameView-refl, SameView-trans, push_line-SameView}

module _ (start : Bytes) (p : CacheBus) (ok : IsCoherent start p) (i : ℕ) (line : CacheLine)
    (gone : line.valid ≡ false) (fresh : line.dirty ≡ false) where
  -- A clean slot can be emptied.
  pub empty-SameView : (p.cache.lines i).dirty ≡ false → SameView start p (set_line p i line)
  empty-SameView clean =
      let no : line.valid ≡ true → ⊥ = λ h. cc (gone, h) in
      record {
        coherent =
            set_line-IsCoherent start p ok i line clean fresh (λ h. absurd (no h))
              (λ h. absurd (no h)) (λ j h l. absurd (no h));
        same =
            view-set_line start p ok i line clean fresh (λ h. absurd (no h)) (λ h. absurd (no h))
              (λ j h l. absurd (no h));
        same_hook = refl;
        same_count = refl;
      }

module _ (start : Bytes) (p : CacheBus) (ok : IsCoherent start p) (i : ℕ) (line : CacheLine)
    (gone : line.valid ≡ false) (fresh : line.dirty ≡ false) where
  -- A valid slot can be written out and emptied.
  pub pushed-SameView :
      (p.cache.lines i).valid ≡ true
      → let old = p.cache.lines i in
        SameView start p (set_line (bus_write_line p old.tag old.bytes) i line)
  unfolding push_line
  pushed-SameView v =
      let q = push_line p i in
      let first = push_line-SameView start p ok i v in
      let old = p.cache.lines i in
      let written = bus_write_line p old.tag old.bytes in
      let same : set_line q i line ≡ set_line written i line =
        ap (λ (f : ℕ → CacheLine). record written { cache = record p.cache { lines = f } })
          (update-update p.cache.lines i (record old { dirty = false }) line) in
      subst (SameView start p) same (
        SameView-trans start p q _ first
          (empty-SameView start q first.coherent i line gone fresh (ground arith)))

module _ (start : Bytes) (p : CacheBus) (ok : IsCoherent start p) (addr : ℕ)
    (l : addr < 2 ^ 32) where
  line_base : cache_line_base addr ≡ base_of addr
  unfolding cache_line_base
  line_base = ground (arith, bit_and_high 27 5 addr (omega arith))

  pub writeback-SameView : SameView start p (dcache_writeback_line p addr)
  unfolding dcache_writeback_line push_line
  writeback-SameView =
      let i = cache_index_for_line p.cache (cache_line_base addr) in
      let line = p.cache.lines i in
      elim (Bool-cases (line.valid && line.tag == cache_line_base addr && line.dirty)) [
        | inl changed ↦ rw changed (push_line-SameView start p ok i (ground arith))
        | inr clean ↦ rw clean (SameView-refl start p ok)
      ]

  pub writeback-synced :
      (j : ℕ)
      → j < 32
      → ram start (dcache_writeback_line p addr).bus.log (base_of addr + j)
        ≡ view start p (base_of addr + j)
  unfolding dcache_writeback_line view hit bus_write ram
  writeback-synced j h =
      ground (arith, line_base, ok.synced (cache_index_for_line p.cache (base_of addr)) j)

-- `dcbf` leaves alone what the processor sees, and unpins the line.
pub dcache_writeback_invalidate_line-SameView :
    (start : Bytes) (p : CacheBus) (addr : ℕ)
    → IsCoherent start p
    → SameView start p (dcache_writeback_invalidate_line p addr)
unfolding dcache_writeback_invalidate_line
dcache_writeback_invalidate_line-SameView start p addr ok =
    let i = cache_index_for_line p.cache (cache_line_base addr) in
    let line = p.cache.lines i in
    let gone : CacheLine = record line { valid = false; dirty = false; locked = false } in
    elim (Bool-cases (line.valid && line.tag == cache_line_base addr)) [
      | inl found ↦ elim (Bool-cases line.dirty) [
        | inl d ↦
            rw (found, d) (pushed-SameView start p ok i gone refl refl (ground (arith, found)))
        | inr d ↦ rw (found, d) (empty-SameView start p ok i gone refl refl d)
      ]
      | inr other ↦ rw other (SameView-refl start p ok)
    ]
