-- ===== src/State/Words.antt =====
-- The registers of `struct _ppcemu_state` are 32-bit words.
use libppcemu.Prelude.{ℕ, ◌^◌, ◌<◌}
use libppcemu.State.{State}

-- Every general-purpose and special-purpose register, CR, PC and MSR holds a word.
pub record HasWords (s : State) : Type 0 where
  pub gpr : (i : ℕ) → s.gpr i < 2 ^ 32
  pub sprs : (i : ℕ) → s.sprs i < 2 ^ 32
  pub cr : s.cr < 2 ^ 32
  pub pc : s.pc < 2 ^ 32
  pub msr : s.msr < 2 ^ 32
