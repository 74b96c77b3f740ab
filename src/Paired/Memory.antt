-- ===== src/Paired/Memory.antt =====
-- `do_psq_l` and `do_psq_st` of src/instr/paired_singles.c. They return the address, or 0 where the access
-- failed.
use libppcemu.Prelude.{ℕ, ◌+◌, ◌%◌, ◌^◌, some, ltb, nz, if◌then◌else◌, u32}
use libppcemu.Bus.{Bytes}
use libppcemu.State.{State}
use libppcemu.Exception.{exception_fire, exception_program}
use libppcemu.Mmu.Walk.{be32_to_cpu, cpu_to_be32}
use libppcemu.Float.{HostFloat, one_float}
use libppcemu.Float.Access.{Access, ◌>>=◌, ◌>>◌, load_bytes, store_bytes, change, address_or_zero}
use libppcemu.Float.Memory.{float_ea}
use libppcemu.Paired.{lane0, lane1, ps_get_u32, set_lanes, mark_ps, ps_enforce_cap_ls}
use libppcemu.Paired.Quantize.{
  Quantization, quant_single, unimplemented, quantization_of, gqr_st_type, gqr_st_scale,
  gqr_ld_type, gqr_ld_scale, gqrn_to_spr_idx, quant_size, dequantize, quantize, quant_bytes,
}

-- `di16 = (i16)(d << 4); di16 >>= 4;` and the sign extension to 32 bits
unfoldable pub sext12 : ℕ → ℕ
sext12 d = let low = d % 2 ^ 12 in if ltb low 0x800 then low else low + 0xffff_f000

unfoldable pub psq_ea : State → ℕ → ℕ → ℕ
psq_ea s ra d = float_ea s ra (sext12 d)

-- `if (!W)`: the second value, or `single`
unfoldable pub second_value : ℕ → ℕ → Access ℕ → Access ℕ
second_value w single get s = if nz w then (some single, s) else get s

-- The same for a store.
unfoldable pub second_store : ℕ → Access (Unit {0}) → Access (Unit {0})
second_store w put s = if nz w then (some tt, s) else put s

unfoldable pub load_value : ℕ → (Bytes → ℕ) → ℕ → Access ℕ
load_value len value ea = do raw ← load_bytes len ea; λ s. (some (value raw), s)

-- The shape of all cases but `default`: the register changes after both accesses.
unfoldable pub psq_load : ℕ → (Bytes → ℕ) → ℕ → ℕ → ℕ → Access (Unit {0})
psq_load len value frd w ea = do
  ps0 ← load_value len value ea
  ps1 ← second_value w one_float (load_value len value (u32 (ea + len)))
  change (λ s. mark_ps (set_lanes s frd ps0 ps1) frd)

unfoldable pub psq_store : ℕ → Bytes → Bytes → ℕ → ℕ → Access (Unit {0})
psq_store len ps0 ps1 w ea = do
  store_bytes len ea ps0
  second_store w (store_bytes len (u32 (ea + len)) ps1)

module _ (host : HostFloat) where
  unfoldable pub psq_l_case : Quantization → ℕ → ℕ → ℕ → ℕ → Access (Unit {0})
  psq_l_case quant_single scale frd w ea = psq_load 4 be32_to_cpu frd w ea
  psq_l_case unimplemented scale frd w ea = change (λ s. exception_fire s exception_program)
  psq_l_case q scale frd w ea = psq_load (quant_size q) (dequantize host q scale) frd w ea

  unfoldable pub do_psq_l : State → ℕ → ℕ → ℕ → ℕ → ℕ → ℕ × State
  do_psq_l s frd ra w psq d = ps_enforce_cap_ls s (λ t.
      let ea = psq_ea t ra d in
      let gqr = t.sprs (gqrn_to_spr_idx psq) in
      address_or_zero ea
        (psq_l_case (quantization_of (gqr_ld_type gqr)) (gqr_ld_scale gqr) frd w ea t))

  -- The buffer of a value of the register's lane.
  unfoldable pub lane_bytes : Quantization → ℕ → ℕ → Bytes
  lane_bytes q scale x = quant_bytes host q (quantize host q scale x)

  unfoldable pub psq_st_case : Quantization → ℕ → ℕ → ℕ → ℕ → Access (Unit {0})
  psq_st_case quant_single scale frs w ea s =
      psq_store 4 (cpu_to_be32 (ps_get_u32 s frs lane0)) (cpu_to_be32 (ps_get_u32 s frs lane1)) w ea
        s
  psq_st_case unimplemented scale frs w ea s = change (λ s. exception_fire s exception_program) s
  psq_st_case q scale frs w ea s =
      psq_store (quant_size q) (lane_bytes q scale (ps_get_u32 s frs lane0))
        (lane_bytes q scale (ps_get_u32 s frs lane1)) w ea s

  unfoldable pub do_psq_st : State → ℕ → ℕ → ℕ → ℕ → ℕ → ℕ × State
  do_psq_st s frs ra w psq d = ps_enforce_cap_ls s (λ t.
      let ea = psq_ea t ra d in
      let gqr = t.sprs (gqrn_to_spr_idx psq) in
      address_or_zero ea
        (psq_st_case (quantization_of (gqr_st_type gqr)) (gqr_st_scale gqr) frs w ea t))
