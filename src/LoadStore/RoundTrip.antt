-- ===== src/LoadStore/RoundTrip.antt =====
-- A store and a load of the same address in real mode: src/instr/loadstore.c, src/mem.c and
-- src/cache.c together.
use libppcemu.Prelude.{
  ℕ, suc, ◌+◌, ◌%◌, ◌^◌, ◌<◌, ◌≤◌, ◌≡◌, true, false, arith, ◌∙◌, bit_and, bit_and_mask, nz, u32,
}
use libppcemu.Bus.{Bytes}
use libppcemu.Cache.{CacheBus}
use libppcemu.Cache.Data.{dcache_load, dcache_store}
use libppcemu.Cache.Ram.{IsRam}
use libppcemu.Cache.Coherent.{IsCoherent}
use libppcemu.Cache.Contract.{dcache_load-view}
use libppcemu.Cache.Store.{dcache_store-IsStored}
use libppcemu.State.{State, dcache_of, put_dcache}
use libppcemu.Spr.{msr_dr}
use libppcemu.Mmu.{success}
use libppcemu.Mmu.Translate.{virt2phys, virt2phys_slow}
use libppcemu.Mmu.Walk.{real_mode_cacheable, cpu_to_be32, be32_to_cpu}
use libppcemu.Mmu.Access.{
  do_basic_load_nohook, do_basic_store_nohook, load_translated, store_translated, load_at, store_at,
}
use libppcemu.Mmu.Fast.{basic_load, basic_store, fast_hit, load_hit, store_hit}
use libppcemu.LoadStore.{
  AccessLen, byte, half, word, size, stored_bytes, loaded_value, no_bytes, basic_ea, base_of_ea,
  cpu_to_be16, be16_to_cpu, finish_load, do_basic_load, do_basic_store,
}

-- The bits that an access of this length keeps of a register.
unfoldable pub low_part : AccessLen → ℕ → ℕ
low_part byte v = v % 2 ^ 8
low_part half v = v % 2 ^ 16
low_part word v = v % 2 ^ 32

-- The bytes of a store give the low part back.
loaded-stored :
    (len : AccessLen) (v : ℕ) (raw : Bytes)
    → ((j : ℕ) → j < size len → raw j ≡ stored_bytes len v j)
    → loaded_value len raw ≡ low_part len v
unfolding loaded_value size stored_bytes low_part cpu_to_be16 cpu_to_be32 be16_to_cpu be32_to_cpu
loaded-stored byte v raw h = omega (arith, h 0 (omega arith))
loaded-stored half v raw h = omega (arith, h 0 (omega arith), h 1 (omega arith))
loaded-stored word v raw h =
    omega (arith, h 0 (omega arith), h 1 (omega arith), h 2 (omega arith), h 3 (omega arith))

-- Real mode for data, with the data cache on.
abbrev pub IsCachedReal : State → Type 0
IsCachedReal s = (nz (bit_and s.msr msr_dr) ≡ false) × (real_mode_cacheable s false ≡ true)

module _ (s : State) (m : IsCachedReal s) (n ea : ℕ) (fits : ea % 2 ^ 12 + n ≤ 0x1000)
    (val : Bytes) where
  pub real_store :
      basic_store s n ea val ≡ (success ea true, put_dcache s (dcache_store (dcache_of s) ea n val))
  unfolding basic_store fast_hit store_hit do_basic_store_nohook virt2phys virt2phys_slow
      store_translated store_at
  real_store = ground (arith, bit_and_mask 12 ea)

  pub real_load : basic_load s n ea val ≡ (
    success ea true,
    let (raw, p) = dcache_load (dcache_of s) ea n val in (raw, put_dcache s p),
  )
  unfolding basic_load fast_hit load_hit do_basic_load_nohook virt2phys virt2phys_slow
      load_translated load_at
  real_load = ground (arith, bit_and_mask 12 ea)

module _ (start : Bytes) (p : CacheBus) (ok : IsCoherent start p) (io : IsRam start p.bus) (k : ℕ)
    (count : p.cache.line_count ≡ 2 ^ suc k) (ea n : ℕ) (l : ea < 2 ^ 32) (small : n ≤ 32) where
  -- The data cache gives a stored byte back.
  read_back :
      (val out : Bytes) (j : ℕ)
      → j < n
      → (dcache_load (dcache_store p ea n val) ea n out).0 j ≡ val j
  read_back val out j h =
      let q = dcache_store p ea n val in
      let st = dcache_store-IsStored start p ok io k count ea n l small val in
      let io' : IsRam start q.bus = λ log addr len i b. rw (st.same_hook) (io log addr len i b) in
      let seen =
        (dcache_load-view start q (st.coherent) io' k (st.same_count ∙ count) ea n l small out j
          h).1 in
      let kept = st.stored (u32 (ea + j)) (omega arith) in seen ∙ kept ∙ ground arith

size_small : (len : AccessLen) → size len ≤ 32
unfolding size
size_small byte = omega arith
size_small half = omega arith
size_small word = omega arith

-- A store of 1, 2 or 4 bytes in real mode with a coherent data cache of at least two lines, a power
-- of two, before plain memory, that stays inside its page, followed by a load of the same length
-- from the same address into a register, succeeds twice and leaves in that register the low part of
-- the stored register, whatever lines the cache held.
pub do_basic_load-do_basic_store :
    (start : Bytes) (s : State) (len : AccessLen) (rs rd ra d k : ℕ)
    → IsCoherent start (dcache_of s)
    → IsRam start s.bus
    → s.dcache.line_count ≡ 2 ^ suc k
    → IsCachedReal s
    → basic_ea s ra d % 2 ^ 12 + size len ≤ 0x1000
    → let ea = basic_ea s ra d in
      let (ea1, (err1, t)) = do_basic_store s len rs ra d in
      let (ea2, (err2, u)) = do_basic_load t len rd ra d in
      (err1 ≡ success ea true) × (err2 ≡ success ea true) × (u.gpr rd ≡ low_part len (s.gpr rs))
unfolding do_basic_store do_basic_load basic_ea base_of_ea finish_load
do_basic_load-do_basic_store start s len rs rd ra d k ok io count m fits =
    let ea = basic_ea s ra d in
    let val = stored_bytes len (s.gpr rs) in
    let t = put_dcache s (dcache_store (dcache_of s) ea (size len) val) in
    let m' : IsCachedReal t = unfold real_mode_cacheable in m in
    let value = loaded-stored len (s.gpr rs) _ (
      read_back start (dcache_of s) ok io k count ea (size len) (omega arith) (size_small len) val
        no_bytes) in
    ground (
      arith,
      real_store s m (size len) ea fits val,
      real_load t m' (size len) ea fits no_bytes,
      value,
    )
