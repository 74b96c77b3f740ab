-- ===== src/Bus.antt =====
-- The bus hook of `struct _ppcemu_state` (include/ppcemu/types.h, src/cache.c "Bus helpers").
-- The hook is supplied by the application, so it is a function of the accesses made so far; the
-- accesses themselves are kept, newest first.
use libppcemu.Prelude.{ℕ, List, ◌∷◌}

-- A byte buffer: the byte at each index.
abbrev pub Bytes : Type 0
Bytes = ℕ → ℕ

-- One call of the hook: address, length and, for a write, the bytes.
pub data BusEvent : Type 0 where
  read : ℕ → ℕ → BusEvent
  write : ℕ → ℕ → Bytes → BusEvent

pub record Bus : Type 0 where
  pub hook : List BusEvent → ℕ → ℕ → Bytes
  pub log : List BusEvent

unfoldable pub bus_write : Bus → ℕ → ℕ → Bytes → Bus
bus_write b addr len val = record b { log = BusEvent.write addr len val ∷ b.log }

unfoldable pub bus_read : Bus → ℕ → ℕ → Bytes × Bus
bus_read b addr len = (b.hook b.log addr len, record b { log = BusEvent.read addr len ∷ b.log })
