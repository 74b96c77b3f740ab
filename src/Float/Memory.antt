-- ===== src/Float/Memory.antt =====
-- `do_lf_common` and `do_stf_common` of src/instr/floating_point.c. They return the address, or 0 where the
-- access failed.
use libppcemu.Prelude.{ℕ, ◌+◌, Bool, false, if◌then◌else◌, u32}
use libppcemu.State.{State}
use libppcemu.Mmu.Walk.{be32_to_cpu, cpu_to_be32}
use libppcemu.LoadStore.{base_of_ea}
use libppcemu.Float.{
  HostFloat, paired_single_mode, high_word, words64, set_fpr, set_ps, get_ps0, get_double,
  enforce_msr_fp_ret,
}
use libppcemu.Float.Access.{Access, ◌>>=◌, ◌>>◌, load_bytes, store_bytes, change, address_or_zero}
use libppcemu.Float.Arith.{Width, single_width, double_width}

-- `ea = b + d`
unfoldable pub float_ea : State → ℕ → ℕ → ℕ
float_ea s ra d = u32 (base_of_ea s ra + d)

-- Both words are loaded before a register changes.
unfoldable pub load_double : ℕ → ℕ → Access (Unit {0})
load_double frd ea = do
  hi ← load_bytes 4 ea
  lo ← load_bytes 4 (u32 (ea + 4))
  change (λ s. set_fpr s frd (words64 (be32_to_cpu hi) (be32_to_cpu lo)) false)

module _ (host : HostFloat) where
  unfoldable pub load_single : ℕ → ℕ → Access (Unit {0})
  load_single frd ea = do
    raw ← load_bytes 4 ea
    let w = be32_to_cpu raw
    change (λ s.
        if paired_single_mode s then set_ps s frd w w else set_fpr s frd (host.to_double w) false)

  unfoldable pub load_float : Width → ℕ → ℕ → Access (Unit {0})
  load_float single_width frd ea = load_single frd ea
  load_float double_width frd ea = load_double frd ea

  unfoldable pub do_lf_common : State → ℕ → ℕ → ℕ → Width → ℕ × State
  do_lf_common s frd ra d width =
      enforce_msr_fp_ret s
        (λ t. let ea = float_ea t ra d in address_or_zero ea (load_float width frd ea t))

  -- stfs stores ps0, or converts a double.
  unfoldable pub single_to_store : State → ℕ → ℕ
  single_to_store s frs =
      if paired_single_mode s then get_ps0 host s frs else host.to_float (get_double host s frs)

  -- stfd stores the pattern, or ps0 as a double.
  unfoldable pub double_to_store : State → ℕ → ℕ
  double_to_store s frs = if s.fpr_is_ps frs then get_double host s frs else s.fpr frs

  unfoldable pub store_double : ℕ → ℕ → Access (Unit {0})
  store_double val ea = do
    store_bytes 4 ea (cpu_to_be32 (high_word val))
    store_bytes 4 (u32 (ea + 4)) (cpu_to_be32 (u32 val))

  -- `convert` tells stfs from stfiwx.
  unfoldable pub store_float : Width → Bool → ℕ → ℕ → Access (Unit {0})
  store_float single_width convert frs ea s =
      store_bytes 4 ea (cpu_to_be32 (if convert then single_to_store s frs else u32 (s.fpr frs))) s
  store_float double_width convert frs ea s = store_double (double_to_store s frs) ea s

  unfoldable pub do_stf_common : State → ℕ → ℕ → ℕ → Width → Bool → ℕ × State
  do_stf_common s frs ra d width convert =
      enforce_msr_fp_ret s
        (λ t. let ea = float_ea t ra d in address_or_zero ea (store_float width convert frs ea t))
