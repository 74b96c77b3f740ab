-- ===== src/Decode/Memory.antt =====
-- The wrappers of src/decode.c for loads and stores, with two registers for the address.
use libppcemu.Prelude.{ℕ, List, [], ◌∷◌}
use libppcemu.Decode.{Handler, inst_rd, inst_ra, inst_rb, req_rc}
use libppcemu.Branch.{no_rc}
use libppcemu.LoadStore.{
  byte, half, word, brev_half, brev_word, do_indexed_store, do_indexed_store_brev, do_indexed_load,
  do_indexed_load_brev,
}
use libppcemu.LoadStore.Update.{
  do_indexed_store_update, do_indexed_store_conditional, do_indexed_load_update,
  do_indexed_load_signext, do_indexed_load_signext_update, do_indexed_load_conditional,
}
use libppcemu.LoadStore.Multiple.{do_stswi, do_lswi}

unfoldable pub decode_lwzx : Handler
decode_lwzx s inst =
    no_rc s inst (λ t. (do_indexed_load t word (inst_rd inst) (inst_ra inst) (inst_rb inst)).1.1)

unfoldable pub decode_lhzx : Handler
decode_lhzx s inst =
    no_rc s inst (λ t. (do_indexed_load t half (inst_rd inst) (inst_ra inst) (inst_rb inst)).1.1)

unfoldable pub decode_lbzx : Handler
decode_lbzx s inst =
    no_rc s inst (λ t. (do_indexed_load t byte (inst_rd inst) (inst_ra inst) (inst_rb inst)).1.1)

unfoldable pub decode_lwzux : Handler
decode_lwzux s inst =
    no_rc s inst
      (λ t. (do_indexed_load_update t word (inst_rd inst) (inst_ra inst) (inst_rb inst)).1)

unfoldable pub decode_lhzux : Handler
decode_lhzux s inst =
    no_rc s inst
      (λ t. (do_indexed_load_update t half (inst_rd inst) (inst_ra inst) (inst_rb inst)).1)

unfoldable pub decode_lbzux : Handler
decode_lbzux s inst =
    no_rc s inst
      (λ t. (do_indexed_load_update t byte (inst_rd inst) (inst_ra inst) (inst_rb inst)).1)

unfoldable pub decode_lhax : Handler
decode_lhax s inst =
    no_rc s inst
      (λ t. (do_indexed_load_signext t half (inst_rd inst) (inst_ra inst) (inst_rb inst)).1)

unfoldable pub decode_lhaux : Handler
decode_lhaux s inst =
    no_rc s inst
      (λ t. (do_indexed_load_signext_update t half (inst_rd inst) (inst_ra inst) (inst_rb inst)).1)

unfoldable pub decode_lwarx : Handler
decode_lwarx s inst =
    no_rc s inst
      (λ t. (do_indexed_load_conditional t word (inst_rd inst) (inst_ra inst) (inst_rb inst)).1)

unfoldable pub decode_lwbrx : Handler
decode_lwbrx s inst =
    no_rc s inst
      (λ t. (do_indexed_load_brev t brev_word (inst_rd inst) (inst_ra inst) (inst_rb inst)).1.1)

unfoldable pub decode_lhbrx : Handler
decode_lhbrx s inst =
    no_rc s inst
      (λ t. (do_indexed_load_brev t brev_half (inst_rd inst) (inst_ra inst) (inst_rb inst)).1.1)

unfoldable pub decode_lswi : Handler
decode_lswi s inst = no_rc s inst (λ t. do_lswi t (inst_rd inst) (inst_ra inst) (inst_rb inst))

unfoldable pub decode_stwx : Handler
decode_stwx s inst =
    no_rc s inst (λ t. (do_indexed_store t word (inst_rd inst) (inst_ra inst) (inst_rb inst)).1.1)

unfoldable pub decode_sthx : Handler
decode_sthx s inst =
    no_rc s inst (λ t. (do_indexed_store t half (inst_rd inst) (inst_ra inst) (inst_rb inst)).1.1)

unfoldable pub decode_stbx : Handler
decode_stbx s inst =
    no_rc s inst (λ t. (do_indexed_store t byte (inst_rd inst) (inst_ra inst) (inst_rb inst)).1.1)

unfoldable pub decode_stwux : Handler
decode_stwux s inst =
    no_rc s inst (λ t. do_indexed_store_update t word (inst_rd inst) (inst_ra inst) (inst_rb inst))

unfoldable pub decode_sthux : Handler
decode_sthux s inst =
    no_rc s inst (λ t. do_indexed_store_update t half (inst_rd inst) (inst_ra inst) (inst_rb inst))

unfoldable pub decode_stbux : Handler
decode_stbux s inst =
    no_rc s inst (λ t. do_indexed_store_update t byte (inst_rd inst) (inst_ra inst) (inst_rb inst))

unfoldable pub decode_stwcx : Handler
decode_stwcx s inst =
    req_rc s inst
      (λ t. (do_indexed_store_conditional t word (inst_rd inst) (inst_ra inst) (inst_rb inst)).1)

unfoldable pub decode_stwbrx : Handler
decode_stwbrx s inst =
    no_rc s inst
      (λ t. (do_indexed_store_brev t brev_word (inst_rd inst) (inst_ra inst) (inst_rb inst)).1)

unfoldable pub decode_sthbrx : Handler
decode_sthbrx s inst =
    no_rc s inst
      (λ t. (do_indexed_store_brev t brev_half (inst_rd inst) (inst_ra inst) (inst_rb inst)).1)

unfoldable pub decode_stswi : Handler
decode_stswi s inst = no_rc s inst (λ t. do_stswi t (inst_rd inst) (inst_ra inst) (inst_rb inst))

unfoldable pub decode_lfsx : Handler → Handler
decode_lfsx fp s inst = no_rc s inst (λ t. fp t inst)

unfoldable pub decode_lfdx : Handler → Handler
decode_lfdx fp s inst = no_rc s inst (λ t. fp t inst)

unfoldable pub decode_lfsux : Handler → Handler
decode_lfsux fp s inst = no_rc s inst (λ t. fp t inst)

unfoldable pub decode_lfdux : Handler → Handler
decode_lfdux fp s inst = no_rc s inst (λ t. fp t inst)

unfoldable pub decode_stfsx : Handler → Handler
decode_stfsx fp s inst = no_rc s inst (λ t. fp t inst)

unfoldable pub decode_stfdx : Handler → Handler
decode_stfdx fp s inst = no_rc s inst (λ t. fp t inst)

unfoldable pub decode_stfsux : Handler → Handler
decode_stfsux fp s inst = no_rc s inst (λ t. fp t inst)

unfoldable pub decode_stfdux : Handler → Handler
decode_stfdux fp s inst = no_rc s inst (λ t. fp t inst)

unfoldable pub decode_stfiwx : Handler → Handler
decode_stfiwx fp s inst = no_rc s inst (λ t. fp t inst)

-- The rows of `opc31_handlers` for loads and stores of integers, but for stwcx.
unfoldable pub memory_handlers : List (ℕ × Handler)
memory_handlers =
    (20, decode_lwarx)
    ∷ (23, decode_lwzx)
    ∷ (55, decode_lwzux)
    ∷ (87, decode_lbzx)
    ∷ (119, decode_lbzux)
    ∷ (151, decode_stwx)
    ∷ (183, decode_stwux)
    ∷ (215, decode_stbx)
    ∷ (247, decode_stbux)
    ∷ (279, decode_lhzx)
    ∷ (311, decode_lhzux)
    ∷ (343, decode_lhax)
    ∷ (375, decode_lhaux)
    ∷ (407, decode_sthx)
    ∷ (439, decode_sthux)
    ∷ (534, decode_lwbrx)
    ∷ (597, decode_lswi)
    ∷ (662, decode_stwbrx)
    ∷ (725, decode_stswi)
    ∷ (790, decode_lhbrx)
    ∷ (918, decode_sthbrx)
    ∷ []

-- Those for floating point.
unfoldable pub float_memory_handlers : Handler → List (ℕ × Handler)
float_memory_handlers fp =
    (535, decode_lfsx fp)
    ∷ (567, decode_lfsux fp)
    ∷ (599, decode_lfdx fp)
    ∷ (631, decode_lfdux fp)
    ∷ (663, decode_stfsx fp)
    ∷ (695, decode_stfsux fp)
    ∷ (727, decode_stfdx fp)
    ∷ (759, decode_stfdux fp)
    ∷ (983, decode_stfiwx fp)
    ∷ []
