-- ===== src/Decode/System.antt =====
-- The wrappers of src/decode.c for special registers, CR logic, compares and branches to registers.
use libppcemu.Prelude.{ℕ, bit_and, not, ◌&&◌, ◌||◌, nz, ◌==◌, List, [], ◌∷◌, shr, not32}
use libppcemu.Decode.{
  Handler, inst_rc, inst_rd, inst_ra, inst_sr, inst_rb, inst_crm, inst_spr, inst_crfd, inst_crfs,
  inst_bi, split_spr, reserved,
}
use libppcemu.Branch.{no_rc, do_cond_branch, do_rfi}
use libppcemu.Cond.{
  do_cmp, do_cmpl, do_mfcr, do_mcrf, do_mtcrf, do_tw_common, do_crand, do_crandc, do_creqv,
  do_crnand, do_crnor, do_cror, do_crorc, do_crxor,
}
use libppcemu.SprMove.{do_mtspr, do_mfspr, do_mtmsr, do_mfmsr}
use libppcemu.Mmu.Tlb.{do_mtsr, do_mfsr}
use libppcemu.CacheOps.{do_isync, do_sync}
use libppcemu.Spr.{idx_lr, idx_ctr}

unfoldable pub decode_mtspr : Handler
decode_mtspr s inst = no_rc s inst (λ t. do_mtspr t (inst_rd inst) (split_spr inst))

unfoldable pub decode_mfspr : Handler
decode_mfspr s inst = no_rc s inst (λ t. do_mfspr t (inst_rd inst) (split_spr inst))

-- Time-base registers only.
unfoldable pub decode_mftb : Handler
decode_mftb s inst = no_rc s inst (λ t.
    reserved t (not (split_spr inst == 268) && not (split_spr inst == 269))
      (λ u. do_mfspr u (inst_rd inst) (split_spr inst)))

unfoldable pub decode_mtmsr : Handler
decode_mtmsr s inst = no_rc s inst (λ t. do_mtmsr t (inst_rd inst))

unfoldable pub decode_mfmsr : Handler
decode_mfmsr s inst = no_rc s inst (λ t. do_mfmsr t (inst_rd inst))

unfoldable pub decode_mtsr : Handler
decode_mtsr s inst = no_rc s inst (λ t. do_mtsr t (inst_sr inst) (inst_rd inst))

unfoldable pub decode_mtsrin : Handler
decode_mtsrin s inst = no_rc s inst (λ t.
    reserved t (nz (inst_ra inst)) (λ u. do_mtsr u (shr (u.gpr (inst_rb inst)) 28) (inst_rd inst)))

unfoldable pub decode_mfsr : Handler
decode_mfsr s inst = no_rc s inst (λ t. do_mfsr t (inst_sr inst) (inst_rd inst))

unfoldable pub decode_mfsrin : Handler
decode_mfsrin s inst = no_rc s inst (λ t.
    reserved t (nz (inst_ra inst)) (λ u. do_mfsr u (shr (u.gpr (inst_rb inst)) 28) (inst_rd inst)))

unfoldable pub decode_mfcr : Handler
decode_mfcr s inst =
    no_rc s inst
      (λ t. reserved t (nz (inst_ra inst) || nz (inst_rb inst)) (λ u. do_mfcr u (inst_rd inst)))

unfoldable pub decode_mcrf : Handler
decode_mcrf s inst =
    reserved s (nz (bit_and inst 0x63ffff)) (λ u. do_mcrf u (inst_crfd inst) (inst_crfs inst))

unfoldable pub decode_mtcrf : Handler
decode_mtcrf s inst = no_rc s inst (λ t.
    reserved t (nz (bit_and (inst_spr inst) 0x201))
      (λ u. do_mtcrf u (inst_rd inst) (inst_crm inst)))

unfoldable pub decode_crand : Handler
decode_crand s inst = no_rc s inst (λ t. do_crand t (inst_rd inst) (inst_ra inst) (inst_rb inst))

unfoldable pub decode_crandc : Handler
decode_crandc s inst = no_rc s inst (λ t. do_crandc t (inst_rd inst) (inst_ra inst) (inst_rb inst))

unfoldable pub decode_creqv : Handler
decode_creqv s inst = no_rc s inst (λ t. do_creqv t (inst_rd inst) (inst_ra inst) (inst_rb inst))

unfoldable pub decode_crnand : Handler
decode_crnand s inst = no_rc s inst (λ t. do_crnand t (inst_rd inst) (inst_ra inst) (inst_rb inst))

unfoldable pub decode_crnor : Handler
decode_crnor s inst = no_rc s inst (λ t. do_crnor t (inst_rd inst) (inst_ra inst) (inst_rb inst))

unfoldable pub decode_cror : Handler
decode_cror s inst = no_rc s inst (λ t. do_cror t (inst_rd inst) (inst_ra inst) (inst_rb inst))

unfoldable pub decode_crorc : Handler
decode_crorc s inst = no_rc s inst (λ t. do_crorc t (inst_rd inst) (inst_ra inst) (inst_rb inst))

unfoldable pub decode_crxor : Handler
decode_crxor s inst = no_rc s inst (λ t. do_crxor t (inst_rd inst) (inst_ra inst) (inst_rb inst))

unfoldable pub decode_tw : Handler
decode_tw s inst =
    no_rc s inst (λ t. do_tw_common t (inst_rd inst) (inst_ra inst) (t.gpr (inst_rb inst)))

unfoldable pub decode_bclr : Handler
decode_bclr s inst = reserved s (nz (bit_and (inst_spr inst) 0x1f)) (λ u.
    do_cond_branch u (inst_rd inst) (inst_bi inst) (inst_rc inst)
      (bit_and (u.sprs idx_lr) (not32 3)))

unfoldable pub decode_bcctr : Handler
decode_bcctr s inst = reserved s (nz (bit_and (inst_spr inst) 0x1f)) (λ u.
    do_cond_branch u (inst_rd inst) (inst_bi inst) (inst_rc inst)
      (bit_and (u.sprs idx_ctr) (not32 3)))

-- The forced-zero bit or the L bit is set: invalid.
unfoldable pub decode_cmp : Handler
decode_cmp s inst = no_rc s inst (λ t.
    reserved t (nz (bit_and (inst_rd inst) 3))
      (λ u. do_cmp u (shr (inst_rd inst) 2) (inst_ra inst) (inst_rb inst)))

unfoldable pub decode_cmpl : Handler
decode_cmpl s inst = no_rc s inst (λ t.
    reserved t (nz (bit_and (inst_rd inst) 3))
      (λ u. do_cmpl u (shr (inst_rd inst) 2) (inst_ra inst) (inst_rb inst)))

-- Their rows in `opc31_handlers`.
unfoldable pub system_handlers : List (ℕ × Handler)
system_handlers =
    (0, decode_cmp)
    ∷ (4, decode_tw)
    ∷ (19, decode_mfcr)
    ∷ (32, decode_cmpl)
    ∷ (83, decode_mfmsr)
    ∷ (144, decode_mtcrf)
    ∷ (146, decode_mtmsr)
    ∷ (210, decode_mtsr)
    ∷ (242, decode_mtsrin)
    ∷ (339, decode_mfspr)
    ∷ (371, decode_mftb)
    ∷ (467, decode_mtspr)
    ∷ (595, decode_mfsr)
    ∷ (659, decode_mfsrin)
    ∷ []

unfoldable pub opc19_handlers : List (ℕ × Handler)
opc19_handlers =
    (0, decode_mcrf)
    ∷ (16, decode_bclr)
    ∷ (33, decode_crnor)
    ∷ (50, do_rfi)
    ∷ (129, decode_crandc)
    ∷ (150, do_isync)
    ∷ (193, decode_crxor)
    ∷ (225, decode_crnand)
    ∷ (257, decode_crand)
    ∷ (289, decode_creqv)
    ∷ (417, decode_crorc)
    ∷ (449, decode_cror)
    ∷ (528, decode_bcctr)
    ∷ (598, do_sync)
    ∷ []
