-- ===== src/Cache/Trace.antt =====
-- Sequences of the data-cache operations of src/cache.c against a flat memory.
use libppcemu.Prelude.{
  ℕ, suc, ◌+◌, ◌-◌, ◌^◌, ◌≤◌, ◌<◌, ◌≡◌, ◌≢◌, ◌∙◌, List, [], ◌∷◌, refl, arith, ltb, if◌then◌else◌,
  u32,
}
use libppcemu.Bus.{Bytes}
use libppcemu.Cache.{CacheBus}
use libppcemu.Cache.Data.{dcache_load, dcache_store, dcache_zero_line}
use libppcemu.Cache.Maintain.{
  SnoopOp, kill, dcache_writeback_line, dcache_writeback_invalidate_line, dcache_writeback_all,
  cache_invalidate_all, dcache_snoop,
}
use libppcemu.Cache.Ram.{IsRam, view, base_of}
use libppcemu.Cache.Coherent.{IsCoherent}
use libppcemu.Cache.Lookup.{SameView, same_io}
use libppcemu.Cache.Transparent.{dcache_load_lem, IsStored}
use libppcemu.Cache.Store.{dcache_store-IsStored}
use libppcemu.Cache.Zero.{dcache_zero_line-IsStored}
use libppcemu.Cache.Drain.{dcache_writeback_all_lem, flush_lem}
use libppcemu.Cache.SingleLine.{writeback-SameView, dcache_writeback_invalidate_line-SameView}
use libppcemu.Cache.SnoopView.{dcache_snoop-SameView}

-- The calls that throw no data away.
pub data CacheAction : Type 0 where
  loads : ℕ → ℕ → CacheAction
  stores : ℕ → ℕ → Bytes → CacheAction
  zeroes cleans flushes : ℕ → CacheAction
  cleans_all flushes_all : CacheAction
  snoops : SnoopOp → ℕ → ℕ → CacheAction

unfoldable pub perform : CacheAction → CacheBus → CacheBus
perform (loads addr size) p = (dcache_load p addr size (λ j. 0)).1
perform (stores addr size val) p = dcache_store p addr size val
perform (zeroes addr) p = dcache_zero_line p addr
perform (cleans addr) p = dcache_writeback_line p addr
perform (flushes addr) p = dcache_writeback_invalidate_line p addr
perform cleans_all p = dcache_writeback_all p
perform flushes_all p = cache_invalidate_all (dcache_writeback_all p)
perform (snoops op addr size) p = (dcache_snoop p op addr size).1

-- 32-bit addresses, at most a line's length, and a snoop that is no kill.
unfoldable pub IsAllowed : CacheAction → Type 0
IsAllowed (loads addr size) = (addr < 2 ^ 32) × (size ≤ 32)
IsAllowed (stores addr size val) = (addr < 2 ^ 32) × (size ≤ 32)
IsAllowed (zeroes addr) = addr < 2 ^ 32
IsAllowed (cleans addr) = addr < 2 ^ 32
IsAllowed (flushes addr) = addr < 2 ^ 32
IsAllowed (snoops op addr size) = op ≢ kill
IsAllowed other = Unit {0}

-- A write of `size` bytes, round the top of the address space, into memory without a cache.
unfoldable pub flat_write : ℕ → ℕ → Bytes → Bytes → Bytes
flat_write addr size val memory a =
    let j = u32 (a + 2 ^ 32 - addr) in if ltb j size then val j else memory a

unfoldable pub flat : CacheAction → Bytes → Bytes
flat (stores addr size val) memory = flat_write addr size val memory
flat (zeroes addr) memory = flat_write (base_of addr) 32 (λ j. 0) memory
flat other memory = memory

unfoldable pub perform_all : List CacheAction → CacheBus → CacheBus
perform_all [] p = p
perform_all (act ∷ rest) p = perform_all rest (perform act p)

unfoldable pub flat_all : List CacheAction → Bytes → Bytes
flat_all [] memory = memory
flat_all (act ∷ rest) memory = flat_all rest (flat act memory)

unfoldable pub AreAllowed : List CacheAction → Type 0
AreAllowed [] = Unit {0}
AreAllowed (act ∷ rest) = IsAllowed act × AreAllowed rest

-- Coherent, with `2 ^ (k + 1)` lines, before plain memory.
pub record IsSound (start : Bytes) (k : ℕ) (p : CacheBus) : Type 0 where
  pub coherent : IsCoherent start p
  pub is_ram : IsRam start p.bus
  pub count : p.cache.line_count ≡ 2 ^ suc k

-- The cache after an operation shows the memory after it.
pub record Follows (start : Bytes) (k : ℕ) (p q : CacheBus) (memory : Bytes) : Type 0 where
  pub sound : IsSound start k q
  pub shows : (a : ℕ) → a < 2 ^ 32 → view start q a ≡ memory a

module _ (start : Bytes) (k : ℕ) (p : CacheBus) (ok : IsSound start k p) where
  same-Follows : (q : CacheBus) → SameView start p q → Follows start k p q (view start p)
  same-Follows q h = record {
    sound = record {
      coherent = h.coherent;
      is_ram = same_io start p q h ok.is_ram;
      count = h.same_count ∙ ok.count;
    };
    shows = λ a l. h.same a;
  }

  stored-Follows :
      (q : CacheBus) (addr size : ℕ) (val : Bytes)
      → IsStored start p q addr size val
      → Follows start k p q (flat_write addr size val (view start p))
  unfolding flat_write
  stored-Follows q addr size val h = record {
    sound = record {
      coherent = h.coherent;
      is_ram = λ log x len j b. rw h.same_hook (ok.is_ram log x len j b);
      count = h.same_count ∙ ok.count;
    };
    shows = λ a l. h.stored a l;
  }

  perform-Follows :
      (act : CacheAction)
      → IsAllowed act
      → Follows start k p (perform act p) (flat act (view start p))
  unfolding perform IsAllowed flat
  perform-Follows (loads addr size) h =
      same-Follows _
        (dcache_load_lem start p ok.coherent ok.is_ram k ok.count addr size h.0 h.1 _).0
  perform-Follows (stores addr size val) h =
      stored-Follows _ addr size val
        (dcache_store-IsStored start p ok.coherent ok.is_ram k ok.count addr size h.0 h.1 val)
  perform-Follows (zeroes addr) h =
      stored-Follows _ (base_of addr) 32 _
        (dcache_zero_line-IsStored start p ok.coherent ok.is_ram addr h)
  perform-Follows (cleans addr) h = same-Follows _ (writeback-SameView start p ok.coherent addr h)
  perform-Follows (flushes addr) h =
      same-Follows _ (dcache_writeback_invalidate_line-SameView start p addr ok.coherent)
  perform-Follows cleans_all h =
      same-Follows _ (dcache_writeback_all_lem start p ok.coherent (suc k) ok.count).0
  perform-Follows flushes_all h = same-Follows _ (flush_lem start p ok.coherent (suc k) ok.count).0
  perform-Follows (snoops op addr size) h =
      same-Follows _ (dcache_snoop-SameView start p op addr size h ok.coherent)

-- A byte of the memory after a sequence depends on that byte alone.
flat_at : (act : CacheAction) (m n : Bytes) (a : ℕ) → m a ≡ n a → flat act m a ≡ flat act n a
unfolding flat flat_write
flat_at (loads addr size) m n a h = h
flat_at (stores addr size val) m n a h = rw h refl
flat_at (zeroes addr) m n a h = rw h refl
flat_at (cleans addr) m n a h = h
flat_at (flushes addr) m n a h = h
flat_at cleans_all m n a h = h
flat_at flushes_all m n a h = h
flat_at (snoops op addr size) m n a h = h

flat_all_at :
    (acts : List CacheAction) (m n : Bytes) (a : ℕ)
    → m a ≡ n a
    → flat_all acts m a ≡ flat_all acts n a
unfolding flat_all
flat_all_at [] m n a h = h
flat_all_at (act ∷ rest) m n a h =
    flat_all_at rest (flat act m) (flat act n) a (flat_at act m n a h)

perform_all-Follows :
    (start : Bytes) (k : ℕ) (p : CacheBus) (acts : List CacheAction)
    → IsSound start k p
    → AreAllowed acts
    → Follows start k p (perform_all acts p) (flat_all acts (view start p))
unfolding perform_all flat_all AreAllowed
perform_all-Follows start k p [] ok h = record { sound = ok; shows = λ a l. refl }
perform_all-Follows start k p (act ∷ rest) ok h =
    let q = perform act p in
    let first = perform-Follows start k p ok act h.0 in
    let then_ = perform_all-Follows start k q rest first.sound h.1 in
    record {
      sound = then_.sound;
      shows = λ a l. then_.shows a l ∙ flat_all_at rest _ _ a (first.shows a l);
    }

-- Whatever loads and stores of up to 32 bytes, zeroings of a line, write-backs and flushes of a
-- line or of everything, and read or write snoops are made one after the other, at 32-bit
-- addresses, on a coherent data cache of at least two lines, a power of two, before plain memory,
-- the cache stays coherent, and a load of up to 32 bytes afterwards returns the bytes that a flat
-- memory, which starts as what the processor saw and takes only the stores and zeroings, has after
-- the same sequence.
pub perform_all-flat :
    (start : Bytes) (k : ℕ) (p : CacheBus) (acts : List CacheAction) (addr size j : ℕ)
    → IsSound start k p
    → AreAllowed acts
    → addr < 2 ^ 32
    → size ≤ 32
    → j < size
    → let q = perform_all acts p in
      IsCoherent start q
      × ((dcache_load q addr size (λ i. 0)).0 j ≡ flat_all acts (view start p) (u32 (addr + j)))
perform_all-flat start k p acts addr size j ok h l small inside =
    let end = perform_all-Follows start k p acts ok h in
    let q = perform_all acts p in
    let read =
      dcache_load_lem start q end.sound.coherent end.sound.is_ram k end.sound.count addr size l
        small _ in
    (end.sound.coherent, read.1 j inside ∙ end.shows (u32 (addr + j)) (omega arith))
