-- ===== src/Exception.antt =====
-- `exception_fire` of src/exception.h.
pub mod Entry
pub mod Caches
use libppcemu.Prelude.{ℕ, bit_and, bit_or, Bool, true, false, ◌&&◌, nz, if◌then◌else◌, not32}
use libppcemu.State.{State, CacheMode, set_spr, dcache_of, icache_of, put_dcache, put_icache}
use libppcemu.Cache.Maintain.{dcache_writeback_all, cache_invalidate_all}
use libppcemu.Spr.{idx_srr0, idx_srr1, msr_ip, msr_ir, msr_dr, msr_ile, msr_le, msr_rsrvd_pf}

abbrev pub exception_isi : ℕ
exception_isi = 0x400

abbrev pub exception_dsi : ℕ
exception_dsi = 0x300

abbrev pub exception_ext : ℕ
exception_ext = 0x500

abbrev pub exception_align : ℕ
exception_align = 0x600

abbrev pub exception_program : ℕ
exception_program = 0x700

abbrev pub exception_dec : ℕ
exception_dec = 0x900

abbrev pub exception_syscall : ℕ
exception_syscall = 0xc00

abbrev pub exception_reset : ℕ
exception_reset = 0x100

unfoldable pub is_permissive : CacheMode → Bool
is_permissive CacheMode.permissive = true
is_permissive _ = false

-- The write-back and invalidation that the permissive cache mode makes when translation changes.
unfoldable pub flush_caches : State → State
flush_caches s =
    let s1 = put_dcache s (dcache_writeback_all (dcache_of s)) in
    let s2 = put_dcache s1 (cache_invalidate_all (dcache_of s1)) in
    put_icache s2 (cache_invalidate_all (icache_of s2))

-- POW, EE, PR, FP, FE0, SE, BE, FE1, IR, DR, PM and RI.
abbrev pub msr_cleared : ℕ
msr_cleared = 0x4_ef36

-- `MSR[LE] = MSR[ILE]`.
unfoldable pub set_le : ℕ → ℕ
set_le msr = if nz (bit_and msr msr_ile) then bit_or msr msr_le else bit_and msr (not32 msr_le)

unfoldable pub exception_fire : State → ℕ → State
unfolding is_permissive
exception_fire s idx =
    let prefix : ℕ = if nz (bit_and s.msr msr_ip) then 0xfff0_0000 else 0 in
    let s1 =
      if nz (bit_and s.msr (bit_or msr_ir msr_dr)) && is_permissive s.cache_mode
      then flush_caches s
      else s in
    let s2 = set_spr s1 idx_srr0 s1.pc in
    let s3 = set_spr s2 idx_srr1 (bit_and s2.msr (not32 msr_rsrvd_pf)) in
    record s3 {
      msr = set_le (bit_and s3.msr (not32 msr_cleared));
      pc = bit_or prefix idx;
      branched = true;
    }
