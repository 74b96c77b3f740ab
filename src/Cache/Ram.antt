-- ===== src/Cache/Ram.antt =====
-- What the bus holds when the application's hook is plain memory, and the memory that the
-- processor sees through the data cache.
use libppcemu.Prelude.{ℕ, ◌+◌, ◌-◌, ◌*◌, ◌/◌, ◌%◌, ◌<◌, ◌≡◌, Bool, ◌&&◌, List, [], ◌∷◌}
use libppcemu.Prelude.{ltb, leb, ◌==◌, if◌then◌else◌}
use libppcemu.Bus.{Bytes, BusEvent, Bus}
use libppcemu.Cache.{CacheBus, Cache, cache_index_for_line}

-- Memory that held `start`, after the accesses of the log.
unfoldable pub ram : Bytes → List BusEvent → Bytes
ram start [] a = start a
ram start (BusEvent.read addr len ∷ log) a = ram start log a
ram start (BusEvent.write addr len val ∷ log) a =
    if leb addr a && ltb a (addr + len) then val (a - addr) else ram start log a

-- The hook answers every read with what that memory holds.
abbrev pub IsRam : Bytes → Bus → Type 0
IsRam start b =
    (log : List BusEvent) (addr len j : ℕ)
    → j < len
    → b.hook log addr len j ≡ ram start log (addr + j)

-- The base of the line of an address, and whether that line is in the cache.
abbrev pub base_of : ℕ → ℕ
base_of a = a / 32 * 32

unfoldable pub hit : Cache → ℕ → Bool
hit c a =
    let line = c.lines (cache_index_for_line c (base_of a)) in line.valid && line.tag == base_of a

-- The byte at an address as a load through the cache sees it.
unfoldable pub view : Bytes → CacheBus → ℕ → ℕ
view start p a =
    if hit p.cache a
    then (p.cache.lines (cache_index_for_line p.cache (base_of a))).bytes (a % 32)
    else ram start p.bus.log a
