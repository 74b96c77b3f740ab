-- ===== src/Mmu/FastPath.antt =====
-- The inline fast paths of src/mem.h do what the whole access of src/mem.c does.
use libppcemu.Prelude.{
  ℕ, ◌+◌, ◌-◌, ◌*◌, ◌/◌, ◌%◌, ◌^◌, ◌<◌, ◌≡◌, inl, inr, bit_and, bit_or, Bool, Bool-cases, true,
  false, Option, none, some, arith, ltb, leb, refl, shr, bit_or_below, bit_and_mask, bit_and_high,
  bit_or-lt, ap, ◌∙◌,
}
use libppcemu.Bus.{Bytes}
use libppcemu.Cache.{
  memcpy, cache_line_base, cache_line_offset, cache_index_for_line, cache_get_line,
}
use libppcemu.Cache.Data.{dcache_load, dcache_store, load_part, store_part}
use libppcemu.State.{State, dcache_of}
use libppcemu.Mmu.{success}
use libppcemu.Mmu.Tlb.{tlb_lookup, tlb_way}
use libppcemu.Mmu.Translate.{virt2phys}
use libppcemu.Mmu.Access.{
  load_translated, store_translated, do_basic_load_nohook, do_basic_store_nohook, load_at, store_at,
}
use libppcemu.Mmu.Fast.{
  fast_slot, fast_hit, line_serves, load_hit, store_hit, basic_load, fast_store, basic_store,
}

-- The page bases of the data micro-TLB are addresses of pages.
abbrev pub HasPages : State → Type 0
HasPages s = (i : ℕ) → ((s.dtlb i).phys_base % 2 ^ 12 ≡ 0) × ((s.dtlb i).phys_base < 2 ^ 32)

offset_lem :
    (base ea : ℕ) → base % 2 ^ 12 ≡ 0 → bit_or base (bit_and ea 0xfff) % 2 ^ 12 ≡ ea % 2 ^ 12
offset_lem base ea h =
    let e : base ≡ base / 2 ^ 12 * 2 ^ 12 = omega arith in
    ap (λ (b : ℕ). bit_or b (bit_and ea 0xfff) % 2 ^ 12) e
    ∙ ground
        (arith, bit_and_mask 12 ea, bit_or_below 12 (base / 2 ^ 12) (ea % 2 ^ 12) (omega arith))

abbrev IsPhys : ℕ → ℕ → Type 0
IsPhys phys ea = (phys % 2 ^ 12 ≡ ea % 2 ^ 12) × (phys < 2 ^ 32)

module _ (s : State) (pages : HasPages s) (len ea phys : ℕ) (val : Bytes) where
  hit_offset :
      (write cacheable : Bool) → fast_hit s ea write ≡ some (phys, cacheable) → IsPhys phys ea
  unfolding fast_hit tlb_lookup
  hit_offset write cacheable e =
      let entry = s.dtlb (tlb_way (shr ea 12)) in
      let (aligned, small) = pages (tlb_way (shr ea 12)) in
      ground (
        arith,
        offset_lem entry.phys_base ea aligned,
        bit_or-lt 32 entry.phys_base (bit_and ea 0xfff) small (ground (arith, bit_and_mask 12 ea)),
      )

  hit_translates :
      (write cacheable : Bool)
      → fast_hit s ea write ≡ some (phys, cacheable)
      → virt2phys s ea false write ≡ (success phys cacheable, s)
  unfolding fast_hit virt2phys
  hit_translates write cacheable e = ground arith

  same_index :
      phys < 2 ^ 32 → cache_index_for_line s.dcache (cache_line_base phys) ≡ fast_slot s phys
  unfolding cache_index_for_line cache_line_base fast_slot
  same_index h =
      ap (λ (b : ℕ). bit_and (shr b 5) (s.dcache.line_count - 1))
        (bit_and_high 27 5 phys (omega arith))
      ∙ ap (λ (k : ℕ). bit_and k (s.dcache.line_count - 1)) (omega arith)

  inside :
      IsPhys phys ea → line_serves s phys len ≡ true → ltb 0x1000 (bit_and ea 0xfff + len) ≡ false
  unfolding line_serves cache_line_offset
  inside p h = ground (arith, bit_and_mask 12 ea, bit_and_mask 5 phys)

  found_line :
      phys < 2 ^ 32
      → line_serves s phys len ≡ true
      → cache_get_line (dcache_of s) (cache_line_base phys) ≡ (some (fast_slot s phys), dcache_of s)
  unfolding line_serves cache_get_line
  found_line small h = ground (arith, same_index small)

  in_line : line_serves s phys len ≡ true → leb (cache_line_offset phys + len) 32 ≡ true
  unfolding line_serves
  in_line h = ground arith

  load_here :
      phys < 2 ^ 32
      → line_serves s phys len ≡ true
      → load_at s len phys true val
        ≡ (memcpy val 0 (s.dcache.lines (fast_slot s phys)).bytes (cache_line_offset phys) len, s)
  unfolding load_at dcache_load load_part
  load_here small h = rw (in_line h, found_line small h) refl

  store_here :
      phys < 2 ^ 32
      → line_serves s phys len ≡ true
      → store_at s len phys true val ≡ fast_store s len phys val
  unfolding store_at dcache_store store_part fast_store
  store_here small h = rw (in_line h, found_line small h) refl

module _ (s : State) (pages : HasPages s) (len ea : ℕ) (val : Bytes) where
  load_case :
      (r : Option (ℕ × Bool))
      → fast_hit s ea false ≡ r
      → basic_load s len ea val ≡ do_basic_load_nohook s len ea val
  unfolding basic_load load_hit do_basic_load_nohook load_translated
  load_case none e = ground arith
  load_case (some (phys, false)) e = ground arith
  load_case (some (phys, true)) e = elim (Bool-cases (line_serves s phys len)) [
    | inr no_line ↦ ground arith
    | inl served ↦
        let p = hit_offset s pages len ea phys val false true e in
        ground (
          arith,
          hit_translates s pages len ea phys val false true e,
          inside s pages len ea phys val p served,
          load_here s pages len ea phys val p.1 served,
        )
  ]

  store_case :
      (r : Option (ℕ × Bool))
      → fast_hit s ea true ≡ r
      → basic_store s len ea val ≡ do_basic_store_nohook s len ea val
  unfolding basic_store store_hit do_basic_store_nohook store_translated
  store_case none e = ground arith
  store_case (some (phys, false)) e = ground arith
  store_case (some (phys, true)) e = elim (Bool-cases (line_serves s phys len)) [
    | inr no_line ↦ ground arith
    | inl served ↦
        let p = hit_offset s pages len ea phys val true true e in
        ground (
          arith,
          hit_translates s pages len ea phys val true true e,
          inside s pages len ea phys val p served,
          store_here s pages len ea phys val p.1 served,
        )
  ]

  -- Where the page bases of the data micro-TLB are aligned to 4096 and below 2^32, the inline load
  -- and store with their short cut through the micro-TLB and the cached line give the same result,
  -- bytes and state as the whole access that translates the address and looks the line up.
  pub basic_load-nohook :
      (basic_load s len ea val ≡ do_basic_load_nohook s len ea val)
      × (basic_store s len ea val ≡ do_basic_store_nohook s len ea val)
  basic_load-nohook = (load_case _ refl, store_case _ refl)
