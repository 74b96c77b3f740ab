-- ===== src/Cache/SnoopView.antt =====
-- What a read or write snoop of `ppcemu_dcache_snoop` of src/cache.c leaves in memory.
use libppcemu.Prelude.{
  ℕ, zero, suc, ◌+◌, ◌%◌, ◌^◌, ◌<◌, ◌≤◌, ◌≡◌, ◌≢◌, ◌∙◌, refl, sym, arith, Bool, true, false, not,
  ◌&&◌, ◌==◌, Bool-cases, inl, inr, u32,
}
use libppcemu.Bus.{Bytes}
use libppcemu.Cache.{CacheLine, CacheBus, cache_line_size, cache_line_base, cache_index_for_line}
use libppcemu.Cache.Maintain.{
  SnoopOp, read, write, kill, is_kill, snoop_line, snoop_loop, dcache_snoop,
}
use libppcemu.Cache.Ram.{ram, hit, view, base_of}
use libppcemu.Cache.Coherent.{IsCoherent}
use libppcemu.Cache.Slots.{cache_line_base_lem}
use libppcemu.Cache.Snoop.{holds, dcache_snoop-ends}
use libppcemu.Cache.SingleLine.{pushed-SameView, empty-SameView}
use libppcemu.Cache.Lookup.{SameView, SameView-refl, SameView-trans}

module _ (start : Bytes) (op : SnoopOp) (gentle : is_kill op ≡ false) where
  -- One round of a snoop that discards nothing.
  snoop_line-SameView :
      (p : CacheBus) (b k : ℕ) → IsCoherent start p → SameView start p (snoop_line p op b k).1
  unfolding snoop_line
  snoop_line-SameView p b k ok =
      let i = cache_index_for_line p.cache b in
      let line = p.cache.lines i in
      let gone : CacheLine = record line { valid = false; dirty = false } in
      elim (Bool-cases (line.valid && line.tag == b && not line.locked)) [
        | inl found ↦ elim (Bool-cases line.dirty) [
          | inl d ↦
              rw (found, gentle, d)
                (pushed-SameView start p ok i gone refl refl (ground (arith, found)))
          | inr d ↦ rw (found, gentle, d) (empty-SameView start p ok i gone refl refl d)
        ]
        | inr other ↦ rw other (SameView-refl start p ok)
      ]

  snoop_loop-SameView :
      (n : ℕ) (p : CacheBus) (b last k : ℕ)
      → IsCoherent start p
      → SameView start p (snoop_loop n p op b last k).1
  unfolding snoop_loop
  snoop_loop-SameView zero p b last k ok = snoop_line-SameView p b k ok
  snoop_loop-SameView (suc n) p b last k ok =
      let r = snoop_line p op b k in
      let first = snoop_line-SameView p b k ok in
      elim (b == last)
        as (λ (x : Bool).
          SameView start p
            (elim x as (λ _. ℕ × CacheBus) [
              | true ↦ r
              | false ↦ snoop_loop n r.1 op (u32 (b + cache_line_size)) last r.0
            ]).1) [
              | true ↦ first
              | false ↦
                  SameView-trans start p r.1 _ first
                    (snoop_loop-SameView n r.1 (u32 (b + cache_line_size)) last r.0 first.coherent)
            ]

-- A snoop pins nothing and unpins nothing.
snoop_line-locked :
    (p : CacheBus) (op : SnoopOp) (b k j : ℕ)
    → ((snoop_line p op b k).1.cache.lines j).locked ≡ (p.cache.lines j).locked
unfolding snoop_line
snoop_line-locked p op b k j = ground arith

snoop_loop-locked :
    (n : ℕ) (p : CacheBus) (op : SnoopOp) (b last k j : ℕ)
    → ((snoop_loop n p op b last k).1.cache.lines j).locked ≡ (p.cache.lines j).locked
unfolding snoop_loop
snoop_loop-locked zero p op b last k j = snoop_line-locked p op b k j
snoop_loop-locked (suc n) p op b last k j =
    let r = snoop_line p op b k in
    let first = snoop_line-locked p op b k j in
    elim (b == last)
      as (λ (x : Bool).
        ((elim x as (λ _. ℕ × CacheBus) [
          | true ↦ r
          | false ↦ snoop_loop n r.1 op (u32 (b + cache_line_size)) last r.0
        ]).1.cache.lines
          j).locked
        ≡ (p.cache.lines j).locked) [
          | true ↦ first
          | false ↦ snoop_loop-locked n r.1 op (u32 (b + cache_line_size)) last r.0 j ∙ first
        ]

keeps_data : (op : SnoopOp) → op ≢ kill → is_kill op ≡ false
unfolding is_kill
keeps_data read ne = refl
keeps_data write ne = refl
keeps_data kill ne = absurd (ne refl)

pub dcache_snoop-SameView :
    (start : Bytes) (p : CacheBus) (op : SnoopOp) (addr size : ℕ)
    → op ≢ kill
    → IsCoherent start p
    → SameView start p (dcache_snoop p op addr size).1
unfolding dcache_snoop
dcache_snoop-SameView start p op addr size ne ok = elim (Bool-cases (size == 0)) [
  | inl none ↦ rw (none, dcache_snoop) (SameView-refl start p ok)
  | inr some ↦
      rw (some, dcache_snoop) (snoop_loop-SameView start op (keeps_data op ne) _ p _ _ 0 ok)
]

-- For a coherent data cache without pinned lines, a 32-bit address and a size that stays, from the
-- start of the first line, within 2^32, a read or write snoop changes nothing of what the processor
-- sees and keeps the cache coherent. Afterwards no address of the range hits the cache, and memory
-- itself holds there the byte that the processor saw before.
pub dcache_snoop-synced :
    (start : Bytes) (p : CacheBus) (op : SnoopOp) (addr size i : ℕ)
    → op ≢ kill
    → IsCoherent start p
    → ((j : ℕ) → (p.cache.lines j).locked ≡ false)
    → addr < 2 ^ 32
    → addr % 32 + size ≤ 2 ^ 32
    → i < size
    → let q = (dcache_snoop p op addr size).1 in
      let a = u32 (addr + i) in
      SameView start p q × (hit q.cache a ≡ false) × (ram start q.bus.log a ≡ view start p a)
dcache_snoop-synced start p op addr size i ne ok free w fits h =
    let q = (dcache_snoop p op addr size).1 in
    let a = u32 (addr + i) in
    let (run, gone) = dcache_snoop-ends p op addr size i 0 w fits h in
    let same : SameView start p q =
      rw run (snoop_loop-SameView start op (keeps_data op ne) _ p _ _ 0 ok) in
    let unpinned : (j : ℕ) → (q.cache.lines j).locked ≡ false =
      λ j. rw run (snoop_loop-locked _ p op _ _ 0 j ∙ free j) in
    let base : cache_line_base a ≡ base_of a = cache_line_base_lem a (omega arith) in
    let missed : hit q.cache a ≡ false =
      unfold hit holds in
      ground (arith, base, gone, unpinned (cache_index_for_line q.cache (base_of a))) in
    let memory : view start q a ≡ ram start q.bus.log a = unfold view in rw missed refl in
    (same, missed, sym memory ∙ same.same a)
