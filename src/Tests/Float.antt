-- ===== src/Tests/Float.antt =====
-- The floating-point unit, with a host whose arithmetic is that of the numbers themselves.
use libppcemu.Prelude.{
  ◌^◌, ◌||◌, ◌&&◌, not, ltb_ℤ, ◌+ℤ◌, ℕ, ◌+◌, ◌*◌, ◌/◌, ◌-◌, ◌≡◌, ℤ, pos, negsuc, true, false, refl,
  arith, ltb, ◌==◌, bit, if◌then◌else◌, u32,
}
use libppcemu.State.{State}
use libppcemu.Spr.{idx_hid2_gekko}
use libppcemu.Mmu.Walk.{real_mode_cacheable, emu_cache_enabled}
use libppcemu.LoadStore.{base_of_ea}
use libppcemu.Float.{HostFloat, get_double}
use libppcemu.Float.Arith.{double_width}
use libppcemu.Float.Move.{do_mtfsf, do_mtfsfi, do_mtfsb_n, do_fcmpu}
use libppcemu.Float.Memory.{float_ea, do_lf_common, do_stf_common}
use libppcemu.Float.Refused.{IsRefused}
use libppcemu.Float.Status.{is_nan32, Outcome, Compared, status_moves, compares}
use libppcemu.Float.RoundTrip.{do_lf_common-do_stf_common}
use libppcemu.Paired.{cap_idx_vector, do_ps_cmpo0, do_ps_neg}
use libppcemu.Paired.Forms.{KeepsForms, arithmetic-KeepsForms}
use libppcemu.Paired.Arith.{
  do_ps_sum0, do_ps_sum1, do_ps_muls0, do_ps_muls1, do_ps_madds0, do_ps_madds1, do_ps_mul,
  do_ps_madd, do_ps_msub, do_ps_sub, do_ps_add, do_ps_nmsub, do_ps_nmadd, do_ps_rsqrte,
}
use libppcemu.Paired.Quantize.{quantize, quantization_of}
use libppcemu.Paired.Saturate.{IsSmall, within, quantize-saturates}
use libppcemu.Decode.FloatUnit.{float_exec}
use libppcemu.Decode.FpOff.{float_exec-IsRefused}
use libppcemu.Tests.Data.{memory, test_state, test_cache-IsCoherent, test_cache-IsRam}

-- Integers, the negative ones below 2^31.
abbrev of_int : ℤ → ℕ
of_int (pos n) = 0x8000_0000 + n
of_int (negsuc n) = 0x7fff_ffff - n

abbrev pub whole_host : HostFloat
whole_host = record {
  to_double = λ x. x;
  to_float = λ x. u32 x;
  add64 = ◌+◌;
  sub64 = ◌-◌;
  mul64 = ◌*◌;
  div64 = ◌/◌;
  neg64 = λ x. x;
  lt64 = ltb;
  eq64 = ◌==◌;
  isnan = λ x. false;
  sqrt = λ x. x;
  trunc = λ x. x;
  add32 = ◌+◌;
  sub32 = ◌-◌;
  mul32 = ◌*◌;
  div32 = ◌/◌;
  neg32 = λ x. x;
  lt32 = ltb;
  eq32 = ◌==◌;
  of_int = of_int;
  to_i32 = λ x. x;
  to_u16 = λ x. x;
  to_i16 = λ x. x;
  to_u8 = λ x. x;
  to_i8 = λ x. x;
}

-- fadd f3, f4, f5
abbrev fadd_word : ℕ
fadd_word = 0xfc64_282a

refused_example : IsRefused (λ u. float_exec whole_host u fadd_word) test_state
refused_example = float_exec-IsRefused whole_host test_state fadd_word refl

-- Real mode, MSR[FP] set, paired singles enabled.
abbrev float_state : State
float_state = record test_state {
  msr = 0xa000;
  caps = 2;
  sprs = λ i. if i == idx_hid2_gekko then 0xa000_0000 else if i == 10 then 0x4000 else 0;
  fpr = λ i. if i == 1 then 0x4009_21fb_5444_2d18 else 0x7;
  fpcsr = 0x1000;
}

status_example :
    (bit (do_mtfsf float_state 1 2).fpcsr 2 ≡ true)
    × (bit (do_mtfsfi float_state 7 5).fpcsr 2 ≡ true)
    × (bit (do_mtfsb_n float_state 29 true).fpcsr 2 ≡ true)
unfolding bit
status_example =
    status_moves float_state 1 2 7 5 29 2 true refl (omega arith) (omega arith) (omega arith)

-- The same, with the comparisons of `float` false on a NaN.
abbrev nan_host : HostFloat
nan_host = record whole_host {
  lt32 = λ a b. not (is_nan32 a || is_nan32 b) && ltb a b;
  eq32 = λ a b. not (is_nan32 a || is_nan32 b) && a == b;
}

compares_example :
    Compared float_state
      (do_fcmpu nan_host float_state 1 1 2)
      (Outcome nan_host.isnan nan_host.lt64 nan_host.eq64 0x4009_21fb_5444_2d18 0x7)
      1
      0
    × Compared float_state
        (do_ps_cmpo0 nan_host float_state 1 1 2)
        (Outcome is_nan32 nan_host.lt32 nan_host.eq32 0x4009_21fb 0)
        1
        0
unfolding cap_idx_vector get_double
compares_example =
    compares nan_host float_state 1 1 2 0
      (record {
        nan_lt = λ a b h. ground arith;
        nan_eq = λ a b h. ground arith;
        one_way = λ a b. ground arith;
        total = λ a b h. ground arith;
      })
      (record {
        nan_lt = λ a b h. ground arith;
        nan_eq = λ a b h. ground arith;
        one_way = λ a b. ground arith;
        total = λ a b h. ground arith;
      })
      refl refl (omega arith) (omega arith) (omega arith) (omega arith)

integers : (a b : ℤ) → IsSmall a → IsSmall b → ltb (of_int a) (of_int b) ≡ ltb_ℤ a b
integers a b ha hb = ground arith

-- 2 * 2^2 in a type of 16 signed bits, where the host's product is that of the patterns, 2^24
saturates_example :
    let p = 2 * (129 * 2 ^ 23) in
    let y = quantize whole_host (quantization_of 7) 2 2 in
    (y ≡ within ltb 0x7fff_8000 0x8000_7fff p)
    × (ltb y 0x7fff_8000 ≡ false)
    × (ltb 0x8000_7fff y ≡ false)
    × (within ltb 0x7fff_8000 0x8000_7fff 0x8100_0000 ≡ 0x8000_7fff)
unfolding bit ◌+ℤ◌
saturates_example =
    quantize-saturates whole_host 7 2 2 (pos (2 ^ 24)) (record { ordered = integers }) (omega arith)
      (omega arith) (omega arith) (omega arith)

-- stfd f1, 0x1010(0); lfd f2, 0x1010(0)
double_example :
    let (ea1, t) = do_stf_common whole_host float_state 1 0 0x1010 double_width false in
    let (ea2, u) = do_lf_common whole_host t 2 0 0x1010 double_width in
    (ea1 ≡ 0x1010) × (ea2 ≡ 0x1010) × (u.fpr 2 ≡ 0x4009_21fb_5444_2d18) × (u.fpr_is_ps 2 ≡ false)
unfolding float_ea base_of_ea real_mode_cacheable emu_cache_enabled
double_example =
    do_lf_common-do_stf_common memory whole_host float_state 1 2 0 0x1010 1 refl refl (omega arith)
      test_cache-IsCoherent test_cache-IsRam refl (refl, refl) (omega arith)

-- ps_neg f1, f2 and the others, with all registers in double form
forms_example :
    KeepsForms float_state (do_ps_neg float_state 1 2)
    × KeepsForms float_state (do_ps_add whole_host float_state 1 3 2)
    × KeepsForms float_state (do_ps_sub whole_host float_state 1 3 2)
    × KeepsForms float_state (do_ps_mul whole_host float_state 1 3 4)
    × KeepsForms float_state (do_ps_muls0 whole_host float_state 1 3 4)
    × KeepsForms float_state (do_ps_muls1 whole_host float_state 1 3 4)
    × KeepsForms float_state (do_ps_sum0 whole_host float_state 1 3 2 4)
    × KeepsForms float_state (do_ps_sum1 whole_host float_state 1 3 2 4)
    × KeepsForms float_state (do_ps_madds0 whole_host float_state 1 3 2 4)
    × KeepsForms float_state (do_ps_madds1 whole_host float_state 1 3 2 4)
    × KeepsForms float_state (do_ps_madd whole_host float_state 1 3 2 4)
    × KeepsForms float_state (do_ps_msub whole_host float_state 1 3 2 4)
    × KeepsForms float_state (do_ps_nmadd whole_host float_state 1 3 2 4)
    × KeepsForms float_state (do_ps_nmsub whole_host float_state 1 3 2 4)
    × KeepsForms float_state (do_ps_rsqrte whole_host float_state 1 2)
    × (let t = do_ps_add whole_host float_state 1 3 2 in get_double whole_host t 1 ≡ t.fpr 1)
forms_example = arithmetic-KeepsForms whole_host float_state 1 3 2 4
