-- ===== src/Decode/CacheOps.antt =====
-- The wrappers of src/decode.c for caches and synchronisation.
use libppcemu.Prelude.{ℕ, ◌||◌, nz, List, [], ◌∷◌}
use libppcemu.Decode.{Handler, inst_rd, inst_ra, inst_rb, reserved, reserved_only}
use libppcemu.Branch.{no_rc}
use libppcemu.CacheOps.{
  do_sync, do_eieio, do_tlbie, do_tlbsync, do_dcbf, do_dcbst, do_dcbi, do_icbi, do_dcbz, do_dcbz_l,
  do_dcbt,
}

unfoldable pub decode_dcbf : Handler
decode_dcbf s inst =
    no_rc s inst
      (λ t. reserved t (nz (inst_rd inst)) (λ u. do_dcbf u (inst_ra inst) (inst_rb inst)))

unfoldable pub decode_dcbst : Handler
decode_dcbst s inst =
    no_rc s inst
      (λ t. reserved t (nz (inst_rd inst)) (λ u. do_dcbst u (inst_ra inst) (inst_rb inst)))

unfoldable pub decode_icbi : Handler
decode_icbi s inst =
    no_rc s inst
      (λ t. reserved t (nz (inst_rd inst)) (λ u. do_icbi u (inst_ra inst) (inst_rb inst)))

unfoldable pub decode_dcbi : Handler
decode_dcbi s inst =
    no_rc s inst
      (λ t. reserved t (nz (inst_rd inst)) (λ u. do_dcbi u (inst_ra inst) (inst_rb inst)))

unfoldable pub decode_dcbz : Handler
decode_dcbz s inst =
    no_rc s inst
      (λ t. reserved t (nz (inst_rd inst)) (λ u. do_dcbz u (inst_ra inst) (inst_rb inst)))

unfoldable pub decode_eieio : Handler
decode_eieio s inst =
    no_rc s inst (λ t.
      do_eieio (reserved_only t (nz (inst_rd inst) || nz (inst_ra inst) || nz (inst_rb inst))))

unfoldable pub decode_tlbie : Handler
decode_tlbie s inst =
    no_rc s inst
      (λ t. do_tlbie (reserved_only t (nz (inst_rd inst) || nz (inst_ra inst))) (inst_rb inst))

unfoldable pub decode_tlbsync : Handler
decode_tlbsync s inst = no_rc s inst (λ t.
    do_tlbsync (reserved_only t (nz (inst_rd inst) || nz (inst_ra inst) || nz (inst_rb inst))))

unfoldable pub decode_dcbt : Handler
decode_dcbt s inst =
    no_rc s inst
      (λ t. reserved t (nz (inst_rd inst)) (λ u. do_dcbt u (inst_ra inst) (inst_rb inst)))

unfoldable pub decode_dcbz_l : Handler
decode_dcbz_l s inst =
    no_rc s inst
      (λ t. reserved t (nz (inst_rd inst)) (λ u. do_dcbz_l u (inst_ra inst) (inst_rb inst)))

-- Their rows in `opc31_handlers`.
unfoldable pub cache_handlers : List (ℕ × Handler)
cache_handlers =
    (54, decode_dcbst)
    ∷ (86, decode_dcbf)
    ∷ (246, decode_dcbt)
    ∷ (278, decode_dcbt)
    ∷ (306, decode_tlbie)
    ∷ (470, decode_dcbi)
    ∷ (566, decode_tlbsync)
    ∷ (598, do_sync)
    ∷ (854, decode_eieio)
    ∷ (982, decode_icbi)
    ∷ (1014, decode_dcbz)
    ∷ []
