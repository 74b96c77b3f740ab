-- ===== src/Mmu.antt =====
-- Address translation: src/mem.c, src/mem.h and src/tlb.h.
pub mod Tlb
pub mod Walk
pub mod Translate
pub mod Access
pub mod Fast
pub mod FastPath
pub mod Frame
pub mod Faults
pub mod Flush
pub mod Gather
use libppcemu.Prelude.{ℕ, Bool, true, false}

-- `enum virt2phys_err` with the out parameters of a translation that succeeds. The callers read
-- those of no other.
pub data V2p : Type 0 where
  success : ℕ → Bool → V2p
  not_mapped no_perms direct_store : V2p

-- `err == V2P_SUCCESS`
unfoldable pub is_success : V2p → Bool
is_success (success phys cacheable) = true
is_success _ = false
