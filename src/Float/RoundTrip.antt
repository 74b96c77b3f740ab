-- ===== src/Float/RoundTrip.antt =====
-- `do_stf_common` and then `do_lf_common` of src/instr/floating_point.c at one address in real mode.
use libppcemu.Prelude.{
  ℕ, suc, ◌+◌, ◌%◌, ◌/◌, ◌^◌, ◌<◌, ◌≤◌, ◌≡◌, ◌∙◌, false, refl, arith, u32, some, bit_or_below,
}
use libppcemu.Bus.{Bytes}
use libppcemu.Cache.{CacheBus}
use libppcemu.Cache.Data.{dcache_load, dcache_store}
use libppcemu.Cache.Ram.{IsRam}
use libppcemu.Cache.Coherent.{IsCoherent}
use libppcemu.Cache.Contract.{dcache_load-view}
use libppcemu.Cache.Store.{dcache_store-IsStored}
use libppcemu.State.{State, dcache_of, put_dcache}
use libppcemu.Mmu.Walk.{be32_to_cpu, cpu_to_be32, real_mode_cacheable}
use libppcemu.LoadStore.{no_bytes, base_of_ea}
use libppcemu.LoadStore.RoundTrip.{IsCachedReal, real_store, real_load}
use libppcemu.Float.{HostFloat, words64, high_word, set_fpr, enforce_msr_fp_ret}
use libppcemu.Float.Access.{load_bytes, store_bytes, address_or_zero}
use libppcemu.Float.Arith.{double_width}
use libppcemu.Float.Memory.{
  float_ea, load_double, load_float, do_lf_common, double_to_store, store_double, store_float,
  do_stf_common,
}
use libppcemu.Float.Status.{FpOn}

-- A word that comes back byte by byte.
word-be32 :
    (w : ℕ) (raw : Bytes)
    → w < 2 ^ 32
    → ((j : ℕ) → j < 4 → raw j ≡ cpu_to_be32 w j)
    → be32_to_cpu raw ≡ w
unfolding cpu_to_be32 be32_to_cpu
word-be32 w raw l h =
    omega (arith, h 0 (omega arith), h 1 (omega arith), h 2 (omega arith), h 3 (omega arith))

module _ (start : Bytes) (p : CacheBus) (ok : IsCoherent start p) (io : IsRam start p.bus) (k : ℕ)
    (count : p.cache.line_count ≡ 2 ^ suc k) (ea : ℕ) (l : ea + 8 ≤ 2 ^ 32) (hi lo : Bytes) where
  -- Both words of a double, loaded after both were stored.
  double_read_back :
      (j : ℕ)
      → j < 4
      → let q = dcache_store (dcache_store p ea 4 hi) (ea + 4) 4 lo in
        let (raw, r) = dcache_load q ea 4 no_bytes in
        (raw j ≡ hi j) × ((dcache_load r (ea + 4) 4 no_bytes).0 j ≡ lo j)
  double_read_back j h =
      let first = dcache_store-IsStored start p ok io k count ea 4 (omega arith) (omega arith) hi in
      let p1 = dcache_store p ea 4 hi in
      let io1 : IsRam start p1.bus =
        λ log addr len i b. rw (first.same_hook) (io log addr len i b) in
      let second =
        dcache_store-IsStored start p1 first.coherent io1 k (first.same_count ∙ count) (ea + 4) 4
          (omega arith) (omega arith) lo in
      let q = dcache_store p1 (ea + 4) 4 lo in
      let io2 : IsRam start q.bus =
        λ log addr len i b. rw (second.same_hook) (io1 log addr len i b) in
      let count2 : q.cache.line_count ≡ 2 ^ suc k = second.same_count ∙ first.same_count ∙ count in
      let seen =
        dcache_load-view start q second.coherent io2 k count2 ea 4 (omega arith) (omega arith)
          no_bytes j h in
      let r = (dcache_load q ea 4 no_bytes).1 in
      let io3 : IsRam start r.bus =
        λ log addr len i b. rw (seen.0.same_hook) (io2 log addr len i b) in
      let last =
        dcache_load-view start r seen.0.coherent io3 k (seen.0.same_count ∙ count2) (ea + 4) 4
          (omega arith) (omega arith) no_bytes j h in
      (
        seen.1
            ∙ second.stored (u32 (ea + j)) (omega arith)
            ∙ ground (arith, first.stored (u32 (ea + j)) (omega arith)),
        last.1
            ∙ seen.0.same (u32 (ea + 4 + j))
            ∙ second.stored (u32 (ea + 4 + j)) (omega arith)
            ∙ ground arith,
      )

module _ (s : State) (m : IsCachedReal s) (ea : ℕ) (inside : ea % 2 ^ 12 + 8 ≤ 0x1000)
    (l : ea < 2 ^ 32) (host : HostFloat) where
  -- `stfd` in real mode stores both words.
  real_store_double :
      (val : ℕ)
      → let p = dcache_store (dcache_of s) ea 4 (cpu_to_be32 (high_word val)) in
        store_double host val ea s
        ≡ (some tt, put_dcache s (dcache_store p (ea + 4) 4 (cpu_to_be32 (u32 val))))
  unfolding store_double store_bytes
  real_store_double val =
      let p = dcache_store (dcache_of s) ea 4 (cpu_to_be32 (high_word val)) in
      let t = put_dcache s p in
      let m' : IsCachedReal t = unfold real_mode_cacheable in m in
      let next : u32 (ea + 4) ≡ ea + 4 = omega arith in
      rw
        (
          next,
          real_store s m 4 ea (omega arith) (cpu_to_be32 (high_word val)),
          real_store t m' 4 (ea + 4) (omega arith) (cpu_to_be32 (u32 val)),
        )
        refl

  -- `lfd` in real mode loads both words.
  real_load_double :
      (frd : ℕ)
      → let (hi, p) = dcache_load (dcache_of s) ea 4 no_bytes in
        let (lo, q) = dcache_load p (ea + 4) 4 no_bytes in
        load_double frd ea s
        ≡ (some tt, set_fpr (put_dcache s q) frd (words64 (be32_to_cpu hi) (be32_to_cpu lo)) false)
  unfolding load_double load_bytes
  real_load_double frd =
      let t = put_dcache s (dcache_load (dcache_of s) ea 4 no_bytes).1 in
      let m' : IsCachedReal t = unfold real_mode_cacheable in m in
      let next : u32 (ea + 4) ≡ ea + 4 = omega arith in
      rw
        (
          next,
          real_load s m 4 ea (omega arith) no_bytes,
          real_load t m' 4 (ea + 4) (omega arith) no_bytes,
        )
        refl

-- The two words of a double put together.
words64-halves : (v : ℕ) → v < 2 ^ 64 → words64 (high_word v) (u32 v) ≡ v
words64-halves v h = ground (arith, bit_or_below 32 (v / 2 ^ 32) (u32 v) (omega arith))

-- With the floating-point unit on, in real mode with a coherent data cache of at least two lines, a
-- power of two, before plain memory, a `stfd` of a register in double form whose pattern has 64
-- bits, inside one page, followed by a `lfd` from the same address, both succeed with that address,
-- and the loaded register has the pattern of the stored one and double form, whatever lines the
-- cache held.
pub do_lf_common-do_stf_common :
    (start : Bytes) (host : HostFloat) (s : State) (frs frd ra d k : ℕ)
    → FpOn s
    → s.fpr_is_ps frs ≡ false
    → s.fpr frs < 2 ^ 64
    → IsCoherent start (dcache_of s)
    → IsRam start s.bus
    → s.dcache.line_count ≡ 2 ^ suc k
    → IsCachedReal s
    → float_ea s ra d % 2 ^ 12 + 8 ≤ 0x1000
    → let (ea1, t) = do_stf_common host s frs ra d double_width false in
      let (ea2, u) = do_lf_common host t frd ra d double_width in
      (ea1 ≡ float_ea s ra d)
      × (ea2 ≡ float_ea s ra d)
      × (u.fpr frd ≡ s.fpr frs)
      × (u.fpr_is_ps frd ≡ false)
unfolding do_stf_common do_lf_common enforce_msr_fp_ret store_float store_double double_to_store
    load_float load_double load_bytes store_bytes address_or_zero float_ea base_of_ea
do_lf_common-do_stf_common start host s frs frd ra d k on form wide ok io count m fits =
    let ea = float_ea s ra d in
    let l : ea < 2 ^ 32 = omega arith in
    let v = s.fpr frs in
    let hi = cpu_to_be32 (high_word v) in
    let lo = cpu_to_be32 (u32 v) in
    let t = put_dcache s (dcache_store (dcache_store (dcache_of s) ea 4 hi) (ea + 4) 4 lo) in
    let m' : IsCachedReal t = unfold real_mode_cacheable in m in
    let bytes = double_read_back start (dcache_of s) ok io k count ea (omega arith) hi lo in
    let (raw, r) = dcache_load (dcache_of t) ea 4 no_bytes in
    let high = word-be32 (high_word v) raw (omega arith) (λ j h. (bytes j h).0) in
    let low =
      word-be32 (u32 v) (dcache_load r (ea + 4) 4 no_bytes).0 (omega arith)
        (λ j h. (bytes j h).1) in
    let written : do_stf_common host s frs ra d double_width false ≡ (ea, t) =
      ground (arith, on, form, real_store_double s m ea fits l host v) in
    let read : do_lf_common host t frd ra d double_width ≡ (
      ea,
      set_fpr (put_dcache t (dcache_load r (ea + 4) 4 no_bytes).1) frd
          (words64 (be32_to_cpu raw) (be32_to_cpu (dcache_load r (ea + 4) 4 no_bytes).0)) false,
    ) =
      ground (arith, on, real_load_double t m' ea fits l host frd) in
    rw (written, read, high, low, words64-halves v wide) (refl, refl, ground arith, ground arith)
