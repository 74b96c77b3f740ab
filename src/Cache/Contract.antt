-- ===== src/Cache/Contract.antt =====
-- What the data cache promises its callers: it shows memory with the stores made to it, whatever
-- the state of its lines. Loads and stores of src/cache.c against the memory that `view` describes.
use libppcemu.Prelude.{ℕ, suc, ◌+◌, ◌-◌, ◌^◌, ◌≤◌, ◌<◌, ◌≡◌, false, if◌then◌else◌, ltb, u32}
use libppcemu.Bus.{Bytes}
use libppcemu.Cache.{CacheBus}
use libppcemu.Cache.Data.{dcache_load, dcache_store, dcache_zero_line, dcache_zero_line_locked}
use libppcemu.Cache.Ram.{IsRam, view, base_of}
use libppcemu.Cache.Coherent.{IsCoherent}
use libppcemu.Cache.Lookup.{SameView}
use libppcemu.Cache.Transparent.{dcache_load_lem}
use libppcemu.Cache.Store.{dcache_store-IsStored}
use libppcemu.Cache.Zero.{pinned, dcache_zero_line-IsStored, dcache_zero_line_locked-IsStored}

module _ (start : Bytes) (p : CacheBus) (ok : IsCoherent start p) (io : IsRam start p.bus) (k : ℕ)
    (count : p.cache.line_count ≡ 2 ^ suc k) (addr size : ℕ) (l : addr < 2 ^ 32)
    (small : size ≤ 32) where
  -- In a coherent data cache of at least two lines, a power of two, before plain memory, a load of
  -- up to 32 bytes at a 32-bit address returns the bytes that the processor sees at that address
  -- and the next ones (mod 2^32), also across two lines and past a pinned line. The cache stays
  -- coherent and the processor sees the same.
  pub dcache_load-view :
      (out : Bytes) (j : ℕ)
      → j < size
      → SameView start p (dcache_load p addr size out).1
        × ((dcache_load p addr size out).0 j ≡ view start p (u32 (addr + j)))
  dcache_load-view out j h =
      let r = dcache_load_lem start p ok io k count addr size l small out in (r.0, r.1 j h)

  -- In a coherent data cache of at least two lines, a power of two, before plain memory, a store of
  -- up to 32 bytes at a 32-bit address changes exactly the bytes that the processor sees at that
  -- address and the next ones (mod 2^32), to those stored, and keeps the cache coherent; also
  -- across two lines and past a pinned line.
  pub dcache_store-view :
      (val : Bytes) (a : ℕ)
      → a < 2 ^ 32
      → let q = dcache_store p addr size val in
        IsCoherent start q
        × (view start q a ≡ (
            if ltb (u32 (a + 2 ^ 32 - addr)) size
            then val (u32 (a + 2 ^ 32 - addr))
            else view start p a))
  dcache_store-view val a h =
      let r = dcache_store-IsStored start p ok io k count addr size l small val in
      (r.coherent, r.stored a h)

module _ (start : Bytes) (p : CacheBus) (ok : IsCoherent start p) (io : IsRam start p.bus)
    (addr : ℕ) (l : addr < 2 ^ 32) where
  -- In a coherent data cache before plain memory, `dcbz` at a 32-bit address makes the processor
  -- see zeros in the aligned 32 bytes around the address and the same as before at every other
  -- 32-bit address, and keeps the cache coherent; also where another line is pinned in the slot.
  pub dcache_zero_line-view :
      (a : ℕ)
      → a < 2 ^ 32
      → let q = dcache_zero_line p addr in
        IsCoherent start q
        × (view start q a
            ≡ (if ltb (u32 (a + 2 ^ 32 - base_of addr)) 32 then 0 else view start p a))
  dcache_zero_line-view a h =
      let r = dcache_zero_line-IsStored start p ok io addr l in (r.coherent, r.stored a h)

  -- In a coherent data cache before plain memory, `dcbz_l` at a 32-bit address whose slot no other
  -- line pins makes the processor see zeros in the aligned 32 bytes around the address and the same
  -- as before at every other 32-bit address, and keeps the cache coherent.
  dcache_zero_line_locked-view :
      (a : ℕ)
      → a < 2 ^ 32
      → pinned start p ok io addr l ≡ false
      → let q = dcache_zero_line_locked p addr in
        IsCoherent start q
        × (view start q a
            ≡ (if ltb (u32 (a + 2 ^ 32 - base_of addr)) 32 then 0 else view start p a))
  dcache_zero_line_locked-view a h free =
      let r = dcache_zero_line_locked-IsStored start p ok io addr l in
      let stored = r.1 free in (stored.0.coherent, stored.0.stored a h)
