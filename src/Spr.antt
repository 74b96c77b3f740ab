-- ===== src/Spr.antt =====
-- Numbers of the special-purpose registers and the bits of the registers: include/ppcemu/spr.h,
-- include/ppcemu/msr.h, src/spr.h and src/caps.h. A literal `ppcemu_sprn_to_idx(PPCEMU_SPRN_...)`
-- is folded by the compiler, so it is the constant index here.
pub mod Index
use libppcemu.Prelude.{ℕ}

-- Indices into `sprs[MAX_SPR_COUNT]`.

abbrev pub idx_xer : ℕ
idx_xer = 0

abbrev pub idx_lr : ℕ
idx_lr = 1

abbrev pub idx_ctr : ℕ
idx_ctr = 2

abbrev pub idx_dec : ℕ
idx_dec = 3

abbrev pub idx_srr0 : ℕ
idx_srr0 = 4

abbrev pub idx_srr1 : ℕ
idx_srr1 = 5

abbrev pub idx_hid0 : ℕ
idx_hid0 = 10

abbrev pub idx_hid2_gekko : ℕ
idx_hid2_gekko = 11

abbrev pub idx_hid4 : ℕ
idx_hid4 = 12

abbrev pub idx_pmc1 : ℕ
idx_pmc1 = 56

abbrev pub idx_dsisr : ℕ
idx_dsisr = 60

abbrev pub idx_dar : ℕ
idx_dar = 61

abbrev pub idx_pvr : ℕ
idx_pvr = 63

abbrev pub idx_sdr1 : ℕ
idx_sdr1 = 64

abbrev pub idx_wpar : ℕ
idx_wpar = 65

-- Single bits of the MSR, the XER and the HIDs.
abbrev pub msr_le : ℕ
msr_le = 0x1

abbrev pub msr_ri : ℕ
msr_ri = 0x2

abbrev pub msr_pm : ℕ
msr_pm = 0x4

abbrev pub msr_dr : ℕ
msr_dr = 0x10

abbrev pub msr_ir : ℕ
msr_ir = 0x20

abbrev pub msr_ip : ℕ
msr_ip = 0x40

abbrev pub msr_fe1 : ℕ
msr_fe1 = 0x100

abbrev pub msr_be : ℕ
msr_be = 0x200

abbrev pub msr_se : ℕ
msr_se = 0x400

abbrev pub msr_fe0 : ℕ
msr_fe0 = 0x800

abbrev pub msr_fp : ℕ
msr_fp = 0x2000

abbrev pub msr_pr : ℕ
msr_pr = 0x4000

abbrev pub msr_ee : ℕ
msr_ee = 0x8000

abbrev pub msr_ile : ℕ
msr_ile = 0x10000

abbrev pub msr_pow : ℕ
msr_pow = 0x40000

abbrev pub xer_so : ℕ
xer_so = 0x80000000

abbrev pub xer_ov : ℕ
xer_ov = 0x40000000

abbrev pub xer_ca : ℕ
xer_ca = 0x20000000

abbrev pub hid0_doze : ℕ
hid0_doze = 0x800000

abbrev pub hid0_nap : ℕ
hid0_nap = 0x400000

abbrev pub hid0_sleep : ℕ
hid0_sleep = 0x200000

abbrev pub hid0_dce : ℕ
hid0_dce = 0x4000

abbrev pub hid0_ice : ℕ
hid0_ice = 0x8000

abbrev pub hid2_lce : ℕ
hid2_lce = 0x10000000

abbrev pub hid2_pse : ℕ
hid2_pse = 0x20000000

abbrev pub hid2_wpe : ℕ
hid2_wpe = 0x40000000

abbrev pub hid4_sbe : ℕ
hid4_sbe = 0x2000000

-- `PPCEMU_MSR_RSRVD_PF`.
abbrev pub msr_rsrvd_pf : ℕ
msr_rsrvd_pf = 0x78380000

-- Capabilities of a CPU model.
abbrev pub caps_hid2_gekko : ℕ
caps_hid2_gekko = 0x1

abbrev pub caps_ps_idx : ℕ
caps_ps_idx = 0x2

abbrev pub caps_ps_ld_st : ℕ
caps_ps_ld_st = 0x4

abbrev pub caps_hid4 : ℕ
caps_hid4 = 0x8

abbrev pub caps_hid4_bdway_like : ℕ
caps_hid4_bdway_like = 0x10

abbrev pub caps_upper_bats : ℕ
caps_upper_bats = 0x20

abbrev pub caps_l2cr : ℕ
caps_l2cr = 0x40

abbrev pub caps_perf_mon : ℕ
caps_perf_mon = 0x80

abbrev pub caps_wr_gather_pipe : ℕ
caps_wr_gather_pipe = 0x100
