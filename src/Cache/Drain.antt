-- ===== src/Cache/Drain.antt =====
-- The whole-cache operations: `ppcemu_dcache_writeback_all` and `ppcemu_cache_invalidate_all`.
use libppcemu.Prelude.{
  ℕ, zero, suc, ◌%◌, ◌^◌, ◌≤◌, ◌<◌, ◌≡◌, true, false, refl, arith, ◌∙◌, ap, Bool-cases, inl, inr,
}
use native.Mathlib.Decide.{ℕ_discrete, dec_lt}
use native.Mathlib.Nat.{one-le-pow}
use libppcemu.Bus.{Bytes}
use libppcemu.Cache.{Cache, CacheBus, cache_index_for_line, set_line, push_line}
use libppcemu.Cache.Maintain.{
  writeback_slot, writeback_upto, dcache_writeback_all, invalidate_upto, cache_invalidate_all,
}
use libppcemu.Cache.Ram.{ram, hit, view, base_of}
use libppcemu.Cache.Coherent.{IsCoherent, set_line-IsCoherent, view-set_line}
use libppcemu.Cache.Lookup.{SameView, SameView-refl, SameView-trans, push_line-SameView}
use libppcemu.Cache.Slots.{index_lem}

module _ (start : Bytes) (p : CacheBus) (ok : IsCoherent start p) where
  slot-push_line : (i : ℕ) → (p.cache.lines i).dirty ≡ true → writeback_slot p i ≡ push_line p i
  unfolding writeback_slot push_line
  slot-push_line i d = rw d

  slot_clean :
      (i : ℕ)
      → (p.cache.lines i).dirty ≡ false
      → writeback_slot p i ≡ set_line p i (record (p.cache.lines i) { dirty = false })
  unfolding writeback_slot
  slot_clean i d = rw d

  writeback_slot-SameView : (i : ℕ) → SameView start p (writeback_slot p i)
  writeback_slot-SameView i = elim (Bool-cases (p.cache.lines i).dirty) [
    | inl d ↦ rw (slot-push_line i d) (push_line-SameView start p ok i (ground (arith, ok.idle i)))
    | inr d ↦ rw (slot_clean i d) (record {
      coherent =
          set_line-IsCoherent start p ok i _ d refl (ok.aligned i) (ok.placed i)
            (λ j v. ok.synced i j v d);
      same =
          view-set_line start p ok i _ d refl (ok.aligned i) (ok.placed i)
            (λ j v. ok.synced i j v d);
      same_hook = refl;
      same_count = refl;
    })
  ]

  -- The slot itself is clean afterwards, and no line gets dirty or changes its state.
  writeback_slot_lines :
      (i j : ℕ)
      → (((writeback_slot p i).cache.lines i).dirty ≡ false)
        × ((p.cache.lines j).dirty ≡ false → ((writeback_slot p i).cache.lines j).dirty ≡ false)
  unfolding writeback_slot
  writeback_slot_lines i j = (ground arith, λ h. ground arith)

-- After `n` rounds the memory seen is unchanged and the first `n` slots are clean.
writeback_upto_lem :
    (start : Bytes) (p : CacheBus) (n : ℕ)
    → IsCoherent start p
    → SameView start p (writeback_upto p n)
      × ((i : ℕ) → i < n → ((writeback_upto p n).cache.lines i).dirty ≡ false)
unfolding writeback_upto
writeback_upto_lem start p zero ok = (SameView-refl start p ok, λ i l. absurd (omega arith))
writeback_upto_lem start p (suc n) ok =
    let (same, clean) = writeback_upto_lem start p n ok in
    let q = writeback_upto p n in
    (
      SameView-trans start p q (writeback_slot q n) same
          (writeback_slot-SameView start q same.coherent n),
      λ i l. elim (ℕ_discrete i n) [
        | yes e ↦ rw e (writeback_slot_lines start q same.coherent n n).0
        | no ne ↦ (writeback_slot_lines start q same.coherent n i).1 (clean i (omega arith))
      ],
    )

-- `invalidate_upto` leaves memory and the slots from `n` on alone, and empties those below.
invalidate_upto_lem :
    (p : CacheBus) (n i : ℕ)
    → let q = invalidate_upto p n in
      (q.bus ≡ p.bus)
      × (q.cache.line_count ≡ p.cache.line_count)
      × (q.cache.is_data_cache ≡ p.cache.is_data_cache)
      × (i < n
          → ((q.cache.lines i).valid ≡ false)
            × ((q.cache.lines i).dirty ≡ false)
            × ((q.cache.lines i).locked ≡ false))
      × (n ≤ i → q.cache.lines i ≡ p.cache.lines i)
unfolding invalidate_upto
invalidate_upto_lem p zero i = (refl, refl, refl, λ l. absurd (omega arith), λ l. refl)
invalidate_upto_lem p (suc n) i =
    let h = invalidate_upto_lem p n i in
    (
      h.0,
      h.1,
      h.2,
      λ l. (ground (arith, h.3), ground (arith, h.3), ground (arith, h.3)),
      λ l. ground (arith, h.4),
    )

slot-lt :
    (c : Cache) (k a : ℕ) → c.line_count ≡ 2 ^ k → cache_index_for_line c (base_of a) < c.line_count
slot-lt c k a e = omega (arith, index_lem c k (base_of a) e, one-le-pow k 2)

module _ (start : Bytes) (p : CacheBus) (ok : IsCoherent start p) (k : ℕ)
    (count : p.cache.line_count ≡ 2 ^ k) where
  -- After the write-back of the whole data cache, memory itself holds every byte that the
  -- processor saw, and the processor still sees the same.
  pub dcache_writeback_all_lem :
      SameView start p (dcache_writeback_all p)
      × ((a : ℕ) → ram start (dcache_writeback_all p).bus.log a ≡ view start p a)
  unfolding dcache_writeback_all
  dcache_writeback_all_lem = (same, λ a. written a ∙ same.same a)
    where
      q : CacheBus
      q = writeback_upto p p.cache.line_count

      same : SameView start p q
      same = (writeback_upto_lem start p p.cache.line_count ok).0

      written : (a : ℕ) → ram start q.bus.log a ≡ view start q a
      written a =
          let i = cache_index_for_line q.cache (base_of a) in
          unfold view hit in
          ground (
            arith,
            (writeback_upto_lem start p p.cache.line_count ok).1 i,
            slot-lt q.cache k a (same.same_count ∙ count),
            same.same_count,
            same.coherent.synced i (a % 32),
          )

  -- In a coherent data cache whose number of lines is a power of two, the write-back of all lines
  -- followed by the invalidation of all keeps the cache coherent and what the processor sees,
  -- leaves every byte that it sees in memory itself, and leaves no line in the cache.
  pub flush_lem :
      let q = cache_invalidate_all (dcache_writeback_all p) in
      SameView start p q
      × ((a : ℕ) → ram start q.bus.log a ≡ view start p a)
      × ((a : ℕ) → hit q.cache a ≡ false)
  unfolding cache_invalidate_all
  flush_lem = (
    record {
      coherent = record {
        is_data = (inv 0).2 ∙ w_same.coherent.is_data;
        idle = λ i h. elim (dec_lt i n) [
          | yes l ↦ ((inv i).3 l).1
          | no l ↦ ground (arith, inv i, w_same.coherent.idle i)
        ];
        aligned = λ i h. ground (arith, inv i, w_same.coherent.aligned i);
        placed = λ i h. absurd (none_valid i h);
        synced = λ i j h d l. absurd (none_valid i h);
      };
      same = λ a. seen a;
      same_hook = ap (λ b. b.hook) (inv 0).0 ∙ w_same.same_hook;
      same_count = (inv 0).1 ∙ w_same.same_count;
    },
    λ a. ap (λ b. ram start b.log a) (inv 0).0 ∙ dcache_writeback_all_lem.1 a,
    empty,
  )
    where
      w : CacheBus
      w = dcache_writeback_all p

      n : ℕ
      n = w.cache.line_count

      w_same : SameView start p w
      w_same = dcache_writeback_all_lem.0

      q : CacheBus
      q = invalidate_upto w n

      inv :
          (i : ℕ)
          → (q.bus ≡ w.bus)
            × (q.cache.line_count ≡ w.cache.line_count)
            × (q.cache.is_data_cache ≡ w.cache.is_data_cache)
            × (i < n
                → ((q.cache.lines i).valid ≡ false)
                  × ((q.cache.lines i).dirty ≡ false)
                  × ((q.cache.lines i).locked ≡ false))
            × (n ≤ i → q.cache.lines i ≡ w.cache.lines i)
      inv i = invalidate_upto_lem w n i

      none_valid : (i : ℕ) → (q.cache.lines i).valid ≡ true → ⊥
      none_valid i h = elim (dec_lt i n) [
        | yes l ↦ cc (((inv i).3 l).0, h)
        | no l ↦ ground (
          arith,
          (inv i).4,
          w_same.coherent.placed i,
          index_lem w.cache k (w.cache.lines i).tag (w_same.same_count ∙ count),
          one-le-pow k 2,
          w_same.same_count,
        )
      ]

      empty : (a : ℕ) → hit q.cache a ≡ false
      empty a =
          let i = cache_index_for_line q.cache (base_of a) in
          elim (Bool-cases (q.cache.lines i).valid) [
            | inl v ↦ absurd (none_valid i v)
            | inr v ↦ unfold hit in rw v
          ]

      seen : (a : ℕ) → view start q a ≡ view start p a
      seen a = unfold view in ground (arith, empty a, (inv 0).0, dcache_writeback_all_lem.1 a)
