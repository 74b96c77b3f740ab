-- ===== src/Cache/Snoop.antt =====
-- The loop of `ppcemu_dcache_snoop` of src/cache.c: it ends, and no line of the range is left.
use libppcemu.Prelude.{
  ℕ, zero, suc, ◌+◌, ◌-◌, ◌*◌, ◌/◌, ◌%◌, ◌^◌, ◌<◌, ◌≤◌, ◌≡◌, ◌∙◌, refl, sym, arith, Bool, true,
  false, not, ◌&&◌, ◌==◌, u32,
}
use libppcemu.Cache.{CacheBus, cache_line_size, cache_line_base, cache_index_for_line}
use libppcemu.Cache.Maintain.{SnoopOp, is_kill, snoop_line, snoop_loop, dcache_snoop}
use libppcemu.Cache.Slots.{cache_line_base_lem}

-- The cache holds the line at `a`, not pinned.
unfoldable pub holds : CacheBus → ℕ → Bool
holds p a =
    let line = p.cache.lines (cache_index_for_line p.cache a) in
    line.valid && line.tag == a && not line.locked

-- A round more of fuel, where the loop does not end there.
snoop_loop-next :
    (n : ℕ) (p : CacheBus) (op : SnoopOp) (b last k : ℕ)
    → b == last ≡ false
    → snoop_loop (suc n) p op b last k
      ≡ (let (k', q) = snoop_line p op b k in snoop_loop n q op (u32 (b + cache_line_size)) last k')
unfolding snoop_loop
snoop_loop-next n p op b last k h = rw (h, snoop_loop) refl

-- The last line ends the loop whatever fuel is left.
snoop_loop-last :
    (n : ℕ) (p : CacheBus) (op : SnoopOp) (b k : ℕ) → snoop_loop n p op b b k ≡ snoop_line p op b k
unfolding snoop_loop
snoop_loop-last zero p op b k = refl
snoop_loop-last (suc n) p op b k =
    let same : b == b ≡ true = ground arith in rw (same, snoop_loop) refl

-- Enough fuel is enough.
snoop_loop-fuel :
    (n more : ℕ) (p : CacheBus) (op : SnoopOp) (b last k : ℕ)
    → b < 2 ^ 32
    → u32 (b + 32 * n) ≡ last
    → snoop_loop (n + more) p op b last k ≡ snoop_loop n p op b last k
snoop_loop-fuel zero more p op b last k w e =
    let here : last ≡ b = omega arith in
    rw here (snoop_loop-last (zero + more) p op b k ∙ sym (snoop_loop-last zero p op b k))
snoop_loop-fuel (suc n) more p op b last k w e =
    elim (b == last)
        as (λ (x : Bool).
          b == last ≡ x
          → snoop_loop (suc n + more) p op b last k ≡ snoop_loop (suc n) p op b last k) [
            | true ↦ λ h.
                let here : last ≡ b = ground (arith, h) in
                rw here
                  (snoop_loop-last (suc n + more) p op b k ∙ sym (snoop_loop-last (suc n) p op b k))
            | false ↦ λ h.
                let r = snoop_line p op b k in
                let shift : suc n + more ≡ suc (n + more) = omega arith in
                let rest =
                  snoop_loop-fuel n more r.1 op (u32 (b + cache_line_size)) last r.0 (omega arith)
                    (omega arith) in
                rw shift (
                  snoop_loop-next (n + more) p op b last k h
                  ∙ rest
                  ∙ sym (snoop_loop-next n p op b last k h))
          ]
      refl

snoop_line-keeps :
    (p : CacheBus) (op : SnoopOp) (b k a : ℕ)
    → holds p a ≡ false
    → holds (snoop_line p op b k).1 a ≡ false
unfolding snoop_line holds cache_index_for_line is_kill
snoop_line-keeps p op b k a h = ground (arith, h)

snoop_line-drops : (p : CacheBus) (op : SnoopOp) (b k : ℕ) → holds (snoop_line p op b k).1 b ≡ false
unfolding snoop_line holds cache_index_for_line is_kill
snoop_line-drops p op b k = ground arith

snoop_loop-keeps :
    (n : ℕ) (p : CacheBus) (op : SnoopOp) (b last k a : ℕ)
    → holds p a ≡ false
    → holds (snoop_loop n p op b last k).1 a ≡ false
unfolding snoop_loop
snoop_loop-keeps zero p op b last k a h = snoop_line-keeps p op b k a h
snoop_loop-keeps (suc n) p op b last k a h =
    let r = snoop_line p op b k in
    let first = snoop_line-keeps p op b k a h in
    elim (b == last)
      as (λ (x : Bool).
        holds
          (elim x as (λ _. ℕ × CacheBus) [
            | true ↦ r
            | false ↦ snoop_loop n r.1 op (u32 (b + cache_line_size)) last r.0
          ]).1
          a
        ≡ false) [
          | true ↦ first
          | false ↦ snoop_loop-keeps n r.1 op (u32 (b + cache_line_size)) last r.0 a first
        ]

-- Round `j` drops its line, and later rounds keep it so.
snoop_loop-drops :
    (n : ℕ) (p : CacheBus) (op : SnoopOp) (b last k j : ℕ)
    → b < 2 ^ 32
    → 32 * n < 2 ^ 32
    → u32 (b + 32 * n) ≡ last
    → j ≤ n
    → holds (snoop_loop n p op b last k).1 (u32 (b + 32 * j)) ≡ false
unfolding snoop_loop
snoop_loop-drops zero p op b last k j w small e le =
    let here : u32 (b + 32 * j) ≡ b = omega arith in rw here (snoop_line-drops p op b k)
snoop_loop-drops (suc n) p op b last k zero w small e le =
    let here : u32 (b + 32 * 0) ≡ b = omega arith in
    let r = snoop_line p op b k in
    let going : b == last ≡ false = ground (arith, e) in
    rw (here, snoop_loop-next n p op b last k going)
      (snoop_loop-keeps n r.1 op (u32 (b + cache_line_size)) last r.0 b (snoop_line-drops p op b k))
snoop_loop-drops (suc n) p op b last k (suc j) w small e le =
    let r = snoop_line p op b k in
    let going : b == last ≡ false = ground (arith, e) in
    let next : u32 (b + 32 * suc j) ≡ u32 (u32 (b + cache_line_size) + 32 * j) = omega arith in
    rw (next, snoop_loop-next n p op b last k going)
      (snoop_loop-drops n r.1 op (u32 (b + cache_line_size)) last r.0 j (omega arith) (omega arith)
        (omega arith) (omega arith))

-- Lines of the range after the first.
abbrev pub snoop_rounds : ℕ → ℕ → ℕ
snoop_rounds addr size =
    u32 (cache_line_base (u32 (addr + size + 0xffff_ffff)) + 0x1_0000_0000 - cache_line_base addr)
    / 32

-- For a 32-bit address and a size that is not 0 and stays, from the start of the first line, within
-- 2^32, the loop of a snoop reaches its last line within the number of rounds between the first
-- line and the last: more fuel gives the same count and the same cache. Afterwards the cache holds
-- no line of the range that is not pinned, also where the range goes round the top of the address
-- space.
pub dcache_snoop-ends :
    (p : CacheBus) (op : SnoopOp) (addr size i more : ℕ)
    → addr < 2 ^ 32
    → addr % 32 + size ≤ 2 ^ 32
    → i < size
    → let q = dcache_snoop p op addr size in
      (q
        ≡ snoop_loop
            (snoop_rounds addr size + more)
            p
            op
            (cache_line_base addr)
            (cache_line_base (u32 (addr + size + 0xffff_ffff)))
            0)
      × (holds q.1 (cache_line_base (u32 (addr + i))) ≡ false)
unfolding dcache_snoop
dcache_snoop-ends p op addr size i more w fits h =
    let some_bytes : size == 0 ≡ false = ground arith in
    let b = cache_line_base addr in
    let last = cache_line_base (u32 (addr + size + 0xffff_ffff)) in
    let first = cache_line_base_lem addr w in
    let final = cache_line_base_lem (u32 (addr + size + 0xffff_ffff)) (omega arith) in
    let n = snoop_rounds addr size in
    let ends : u32 (b + 32 * n) ≡ last = omega (arith, first, final) in
    let small : 32 * n < 2 ^ 32 = omega (arith, first, final) in
    let below : b < 2 ^ 32 = omega (arith, first) in
    let j = (addr % 32 + i) / 32 in
    let line : cache_line_base (u32 (addr + i)) ≡ u32 (b + 32 * j) =
      omega (arith, first, cache_line_base_lem (u32 (addr + i)) (omega arith)) in
    let inside : j ≤ n = omega (arith, first, final) in
    (
      rw (some_bytes, dcache_snoop) (sym (snoop_loop-fuel n more p op b last 0 below ends)),
      rw (some_bytes, dcache_snoop, line)
          (snoop_loop-drops n p op b last 0 j below small ends inside),
    )
