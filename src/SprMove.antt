-- ===== src/SprMove.antt =====
-- `mtspr` and `mfspr`: src/instr/spr.c, and src/instr/msr.c. Both switches have the same labels, but
-- for the read-only PVR; the labels that share a body are one constructor.
pub mod Laws
pub mod Cases
use libppcemu.Prelude.{
  ℕ, ◌+◌, ◌*◌, ◌/◌, ◌%◌, ◌^◌, bit_and, bit_or, List, [], ◌∷◌, Option, none, some, nz, ◌==◌,
  if◌then◌else◌, u32, u64, shr,
}
use libppcemu.State.{State, set_gpr, set_spr}
use libppcemu.Spr.{
  caps_hid2_gekko, caps_ps_idx, caps_hid4, caps_upper_bats, caps_l2cr, caps_perf_mon,
  caps_wr_gather_pipe,
}
use libppcemu.Spr.Index.{sprn_to_idx_raw}
use libppcemu.Exception.{exception_fire, exception_program}
use libppcemu.Mmu.Tlb.{ifetch_invalidate, tlb_flush_all}

pub data SprCase : Type 0 where
  plain table_base version upper_time lower_time hid2 hid4 bat upper_bat gqr l2cr perf_mon
        gather_pipe unknown :
      SprCase

-- The labels of the switches, `PPCEMU_SPRN_...` of include/ppcemu/spr.h.
abbrev pub spr_labels : List (ℕ × SprCase)
spr_labels =
    (1, plain)
    ∷ (8, plain)
    ∷ (9, plain)
    ∷ (22, plain)
    ∷ (26, plain)
    ∷ (27, plain)
    ∷ (272, plain)
    ∷ (273, plain)
    ∷ (274, plain)
    ∷ (275, plain)
    ∷ (1008, plain)
    ∷ (18, plain)
    ∷ (19, plain)
    ∷ (1013, plain)
    ∷ (1019, plain)
    ∷ (1020, plain)
    ∷ (1021, plain)
    ∷ (1022, plain)
    ∷ (25, table_base)
    ∷ (285, upper_time)
    ∷ (269, upper_time)
    ∷ (284, lower_time)
    ∷ (268, lower_time)
    ∷ (920, hid2)
    ∷ (1011, hid4)
    ∷ (528, bat)
    ∷ (529, bat)
    ∷ (530, bat)
    ∷ (531, bat)
    ∷ (532, bat)
    ∷ (533, bat)
    ∷ (534, bat)
    ∷ (535, bat)
    ∷ (536, bat)
    ∷ (537, bat)
    ∷ (538, bat)
    ∷ (539, bat)
    ∷ (540, bat)
    ∷ (541, bat)
    ∷ (542, bat)
    ∷ (543, bat)
    ∷ (560, upper_bat)
    ∷ (561, upper_bat)
    ∷ (562, upper_bat)
    ∷ (563, upper_bat)
    ∷ (564, upper_bat)
    ∷ (565, upper_bat)
    ∷ (566, upper_bat)
    ∷ (567, upper_bat)
    ∷ (568, upper_bat)
    ∷ (569, upper_bat)
    ∷ (570, upper_bat)
    ∷ (571, upper_bat)
    ∷ (572, upper_bat)
    ∷ (573, upper_bat)
    ∷ (574, upper_bat)
    ∷ (575, upper_bat)
    ∷ (912, gqr)
    ∷ (913, gqr)
    ∷ (914, gqr)
    ∷ (915, gqr)
    ∷ (916, gqr)
    ∷ (917, gqr)
    ∷ (918, gqr)
    ∷ (919, gqr)
    ∷ (1017, l2cr)
    ∷ (952, perf_mon)
    ∷ (956, perf_mon)
    ∷ (953, perf_mon)
    ∷ (954, perf_mon)
    ∷ (957, perf_mon)
    ∷ (958, perf_mon)
    ∷ (921, gather_pipe)
    ∷ (287, version)
    ∷ []

-- `unknown` is the `default` label.
unfoldable pub find_label : List (ℕ × SprCase) → ℕ → SprCase
find_label [] sprn = unknown
find_label ((number, label) ∷ rest) sprn =
    let later = find_label rest sprn in if sprn == number then label else later

unfoldable pub spr_case : ℕ → SprCase
spr_case sprn = find_label spr_labels sprn

-- `state->sprs[ppcemu_sprn_to_idx(sprn)] = state->gpr[rS]`. The C code has no case for a number
-- without an index, -1.
unfoldable pub put_spr : State → ℕ → ℕ → State
put_spr s rs sprn = elim (sprn_to_idx_raw sprn) [ none ↦ s | some i ↦ set_spr s i (s.gpr rs) ]

-- `state->sprs[ppcemu_sprn_to_idx(sprn)]`
unfoldable pub spr_value : State → ℕ → ℕ
spr_value s sprn = elim (sprn_to_idx_raw sprn) [ none ↦ 0 | some i ↦ s.sprs i ]

-- `if (!(state->caps & cap)) exception_fire(...) else ...`
unfoldable pub if_capable : State → ℕ → State → State
if_capable s cap done = if nz (bit_and s.caps cap) then done else exception_fire s exception_program

unfoldable pub write_case : SprCase → State → ℕ → ℕ → State
write_case plain s rs sprn = put_spr s rs sprn
write_case table_base s rs sprn = tlb_flush_all (put_spr s rs sprn)
write_case version s rs sprn = exception_fire s exception_program
write_case upper_time s rs sprn = record s {
  tb = bit_or (bit_and s.tb 0xffff_ffff) (u64 (s.gpr rs * 2 ^ 32));
}
write_case lower_time s rs sprn = record s {
  tb = bit_or (bit_and s.tb 0xffff_ffff_0000_0000) (s.gpr rs);
}
write_case hid2 s rs sprn = if_capable s caps_hid2_gekko (put_spr s rs sprn)
write_case hid4 s rs sprn = if_capable s caps_hid4 (put_spr s rs sprn)
write_case bat s rs sprn = tlb_flush_all (put_spr s rs sprn)
write_case upper_bat s rs sprn = if_capable s caps_upper_bats (tlb_flush_all (put_spr s rs sprn))
write_case gqr s rs sprn = if_capable s caps_ps_idx (put_spr s rs sprn)
write_case l2cr s rs sprn = if_capable s caps_l2cr (put_spr s rs sprn)
write_case perf_mon s rs sprn = if_capable s caps_perf_mon (put_spr s rs sprn)
write_case gather_pipe s rs sprn = if_capable s caps_wr_gather_pipe (put_spr s rs sprn)
write_case unknown s rs sprn = exception_fire s exception_program

unfoldable pub do_mtspr : State → ℕ → ℕ → State
do_mtspr s rs sprn = write_case (spr_case sprn) (ifetch_invalidate s) rs sprn

unfoldable pub get_spr : State → ℕ → ℕ → State
get_spr s rd sprn = set_gpr s rd (spr_value s sprn)

unfoldable pub read_case : SprCase → State → ℕ → ℕ → State
read_case plain s rd sprn = get_spr s rd sprn
read_case table_base s rd sprn = get_spr s rd sprn
read_case version s rd sprn = get_spr s rd sprn
read_case upper_time s rd sprn = set_gpr s rd (u32 (shr s.tb 32))
read_case lower_time s rd sprn = set_gpr s rd (u32 (bit_and s.tb 0xffff_ffff))
read_case hid2 s rd sprn = if_capable s caps_hid2_gekko (get_spr s rd sprn)
read_case hid4 s rd sprn = if_capable s caps_hid4 (get_spr s rd sprn)
read_case bat s rd sprn = get_spr s rd sprn
read_case upper_bat s rd sprn = if_capable s caps_upper_bats (get_spr s rd sprn)
read_case gqr s rd sprn = if_capable s caps_ps_idx (get_spr s rd sprn)
read_case l2cr s rd sprn = if_capable s caps_l2cr (get_spr s rd sprn)
read_case perf_mon s rd sprn = if_capable s caps_perf_mon (get_spr s rd sprn)
read_case gather_pipe s rd sprn =
    if_capable s caps_wr_gather_pipe
      (set_gpr s rd (bit_or (spr_value s sprn) (if nz s.cur_wgp_idx then 1 else 0)))
read_case unknown s rd sprn = exception_fire s exception_program

unfoldable pub do_mfspr : State → ℕ → ℕ → State
do_mfspr s rd sprn = read_case (spr_case sprn) s rd sprn

-- src/instr/msr.c
unfoldable pub do_mtmsr : State → ℕ → State
do_mtmsr s rs = record s { msr = s.gpr rs }

unfoldable pub do_mfmsr : State → ℕ → State
do_mfmsr s rd = set_gpr s rd s.msr
