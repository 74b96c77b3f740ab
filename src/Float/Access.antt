-- ===== src/Float/Access.antt =====
-- Loads and stores in sequence: `if (v2p_err != V2P_SUCCESS) return 0;` of src/instr/floating_point.c and
-- src/instr/paired_singles.c. What stands behind an access that fails is left out.
use libppcemu.Prelude.{ℕ, Option, none, some}
use libppcemu.Bus.{Bytes}
use libppcemu.State.{State}
use libppcemu.Mmu.{V2p, success}
use libppcemu.Mmu.Fast.{basic_load, basic_store}
use libppcemu.LoadStore.{no_bytes}

abbrev pub Access : Type 0 → Type 0
Access A = State → Option A × State

abbrev pub continue_with : {A B : Type 0} → Option A × State → (A → Access B) → Option B × State
continue_with (none, s) f = (none, s)
continue_with (some a, s) f = f a s

infixl 5 ◌>>=◌ ◌>>◌
abbrev pub ◌>>=◌ : {A B : Type 0} → Access A → (A → Access B) → Access B
(m >>= f) s = continue_with (m s) f

abbrev pub ◌>>◌ : {A B : Type 0} → Access A → Access B → Access B
m >> k = m >>= λ _. k

abbrev pub loaded : V2p × (Bytes × State) → Option Bytes × State
loaded (success phys cacheable, (raw, s)) = (some raw, s)
loaded (err, (raw, s)) = (none, s)

abbrev pub stored : V2p × State → Option (Unit {0}) × State
stored (success phys cacheable, s) = (some tt, s)
stored (err, s) = (none, s)

unfoldable pub load_bytes : ℕ → ℕ → Access Bytes
load_bytes len ea s = loaded (basic_load s len ea no_bytes)

unfoldable pub store_bytes : ℕ → ℕ → Bytes → Access (Unit {0})
store_bytes len ea val s = stored (basic_store s len ea val)

-- A change of the state that does not fail.
abbrev pub change : (State → State) → Access (Unit {0})
change f s = (some tt, f s)

-- The value at the `return`s: the address, or 0 where an access failed.
unfoldable pub address_or_zero : ℕ → Option (Unit {0}) × State → ℕ × State
address_or_zero ea (none, s) = (0, s)
address_or_zero ea (some done, s) = (ea, s)
