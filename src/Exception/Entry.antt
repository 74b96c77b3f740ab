-- ===== src/Exception/Entry.antt =====
-- What the processor's registers hold when an exception handler starts.
use libppcemu.Prelude.{
  ℕ, ◌+◌, ◌<◌, ◌≡◌, ◌^◌, bit_and, Bool, true, not, ◌&&◌, ◌||◌, refl, arith, bit, bit-bit_and,
  bit-bit_or, nz-bit_and-pow, bit_or_below, all_below, all_below_lem, same_bool, ltb, leb, ◌==◌,
  if◌then◌else◌, not32,
}
use libppcemu.State.{State}
use libppcemu.Spr.{idx_srr0, idx_srr1, msr_le, msr_rsrvd_pf}
use libppcemu.Exception.{exception_fire, flush_caches, set_le, msr_cleared}

-- The MSR bits that an exception clears: POW, EE, PR, FP, FE0, SE, BE, FE1, IR, DR, PM and RI.
abbrev pub is_cleared : ℕ → Bool
is_cleared k =
    k == 18
    || k == 15
    || k == 14
    || k == 13
    || k == 11
    || k == 10
    || k == 9
    || k == 8
    || k == 5
    || k == 4
    || k == 2
    || k == 1

-- The reserved MSR bits that SRR1 does not keep.
abbrev pub is_reserved : ℕ → Bool
is_reserved k = (leb 19 k && ltb k 22) || (leb 27 k && ltb k 31)

cleared_table :
    all_below 32 (λ k. same_bool (bit (not32 msr_cleared) k) (not (is_cleared k))) ≡ true
unfolding all_below bit
cleared_table = refl

reserved_table :
    all_below 32 (λ k. same_bool (bit (not32 msr_rsrvd_pf) k) (not (is_reserved k))) ≡ true
unfolding all_below bit
reserved_table = refl

le_table :
    all_below 32
      (λ k. same_bool (bit (not32 msr_le) k) (not (k == 0)) && same_bool (bit msr_le k) (k == 0))
    ≡ true
unfolding all_below bit
le_table = refl

set_le_bits : (m k : ℕ) → k < 32 → bit (set_le m) k ≡ (if k == 0 then bit m 16 else bit m k)
unfolding set_le
set_le_bits m k l = ground (
  arith,
  nz-bit_and-pow 16 m,
  bit-bit_or k m msr_le,
  bit-bit_and k m (not32 msr_le),
  all_below_lem 32 k _ le_table l,
)

exception_msr :
    (s : State) (idx : ℕ) → (exception_fire s idx).msr ≡ set_le (bit_and s.msr (not32 msr_cleared))
unfolding exception_fire flush_caches
exception_msr s idx = ground arith

-- Exception entry clears POW, EE, PR, FP, FE0, SE, BE, FE1, IR, DR, PM and RI of the 32 digits of
-- MSR, LE becomes the old ILE, and every other digit stays.
pub exception_fire-msr :
    (s : State) (idx k : ℕ)
    → k < 32
    → bit (exception_fire s idx).msr k
      ≡ (if k == 0 then bit s.msr 16 else not (is_cleared k) && bit s.msr k)
exception_fire-msr s idx k l = ground (
  arith,
  exception_msr s idx,
  set_le_bits (bit_and s.msr (not32 msr_cleared)) k l,
  bit-bit_and k s.msr (not32 msr_cleared),
  bit-bit_and 16 s.msr (not32 msr_cleared),
  all_below_lem 32 k _ cleared_table l,
  all_below_lem 32 16 _ cleared_table (omega arith),
)

-- For a vector below 2^20, exception entry leaves the interrupted address in SRR0 and in SRR1 each
-- of the 32 digits of the old MSR that is not reserved; execution goes on at the vector, in high
-- memory if MSR[IP] was set, as after a branch; the general-purpose registers, CR and the special
-- registers from SPRG0 on do not change.
pub exception_fire-saved :
    (s : State) (idx k : ℕ)
    → idx < 2 ^ 20
    → k < 32
    → let s' = exception_fire s idx in
      (s'.sprs idx_srr0 ≡ s.pc)
      × (bit (s'.sprs idx_srr1) k ≡ not (is_reserved k) && bit s.msr k)
      × (s'.pc ≡ (if bit s.msr 6 then 0xfff0_0000 + idx else idx))
      × (s'.branched ≡ true)
      × ((i : ℕ) → s'.gpr i ≡ s.gpr i)
      × (s'.cr ≡ s.cr)
      × ((i : ℕ) → s'.sprs (6 + i) ≡ s.sprs (6 + i))
unfolding exception_fire flush_caches
exception_fire-saved s idx k h l = (
  ground arith,
  ground (arith, bit-bit_and k s.msr (not32 msr_rsrvd_pf), all_below_lem 32 k _ reserved_table l),
  ground (arith, nz-bit_and-pow 6 s.msr, bit_or_below 20 0xfff idx h, bit_or_below 20 0 idx h),
  refl,
  λ i. ground arith,
  ground arith,
  λ i. ground arith,
)

pub exception_fire-gpr :
    (s : State) (idx i : ℕ) → idx < 2 ^ 20 → (exception_fire s idx).gpr i ≡ s.gpr i
exception_fire-gpr s idx i h = (exception_fire-saved s idx 0 h (omega arith)).4 i
