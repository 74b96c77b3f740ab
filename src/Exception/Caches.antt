-- ===== src/Exception/Caches.antt =====
-- What exception entry does to the data cache in the permissive mode.
use libppcemu.Prelude.{
  ℕ, zero, suc, ◌^◌, ◌≡◌, Bool, ◌&&◌, refl, ◌∙◌, ap, sym, nz, bit_and, bit_or, if◌then◌else◌,
  Bool-cases, inl, inr,
}
use libppcemu.Bus.{Bytes, Bus}
use libppcemu.Cache.{CacheBus}
use libppcemu.Cache.Maintain.{dcache_writeback_all, cache_invalidate_all, invalidate_upto}
use libppcemu.Cache.Ram.{view, ram}
use libppcemu.Cache.Coherent.{IsCoherent}
use libppcemu.Cache.Drain.{flush_lem}
use libppcemu.State.{State, dcache_of}
use libppcemu.Exception.{exception_fire, flush_caches, is_permissive}
use libppcemu.Spr.{msr_ir, msr_dr}
use mathlib.Core.Path.{subst}

invalidate_upto-bus : (p : CacheBus) (n : ℕ) → (invalidate_upto p n).bus ≡ p.bus
unfolding invalidate_upto
invalidate_upto-bus p zero = refl
invalidate_upto-bus p (suc n) = invalidate_upto-bus p n

flush_caches-dcache :
    (s : State)
    → dcache_of (flush_caches s) ≡ cache_invalidate_all (dcache_writeback_all (dcache_of s))
unfolding flush_caches cache_invalidate_all
flush_caches-dcache s =
    let flushed : CacheBus = cache_invalidate_all (dcache_writeback_all (dcache_of s)) in
    let with_bus : Bus → CacheBus = λ b. record { cache = flushed.cache; bus = b } in
    ap with_bus
      (invalidate_upto-bus (record { cache = s.icache; bus = flushed.bus }) s.icache.line_count)

-- Whether exception entry flushes: translation was on, in the permissive mode.
abbrev pub entry_flushes : State → Bool
entry_flushes s = nz (bit_and s.msr (bit_or msr_ir msr_dr)) && is_permissive s.cache_mode

entry_dcache :
    (s : State) (idx : ℕ)
    → dcache_of (exception_fire s idx) ≡ (
        if entry_flushes s
        then cache_invalidate_all (dcache_writeback_all (dcache_of s))
        else dcache_of s)
unfolding exception_fire
entry_dcache s idx = elim (Bool-cases (entry_flushes s)) [
  | inl h ↦ rw h (flush_caches-dcache s)
  | inr h ↦ rw h refl
]

-- In a state with a coherent data cache whose number of lines is a power of two, exception entry
-- keeps the data cache coherent and what the processor sees through it. If translation was on in
-- the permissive mode, memory itself then holds every byte that the processor sees.
pub exception_fire-view :
    (start : Bytes) (s : State) (idx k a : ℕ)
    → IsCoherent start (dcache_of s)
    → s.dcache.line_count ≡ 2 ^ k
    → let s' = exception_fire s idx in
      IsCoherent start (dcache_of s')
      × (view start (dcache_of s') a ≡ view start (dcache_of s) a)
      × ((if entry_flushes s then ram start s'.bus.log a else view start (dcache_of s) a)
          ≡ view start (dcache_of s) a)
exception_fire-view start s idx k a ok count =
    let flushed = flush_lem start (dcache_of s) ok k count in
    let e = entry_dcache s idx in
    elim (Bool-cases (entry_flushes s)) [
      | inl h ↦
          let e1 : dcache_of (exception_fire s idx)
              ≡ cache_invalidate_all (dcache_writeback_all (dcache_of s)) =
            e
            ∙ ap
                (λ (b : Bool).
                  if b
                  then cache_invalidate_all (dcache_writeback_all (dcache_of s))
                  else dcache_of s)
                h in
          (
            subst (λ (q : CacheBus). IsCoherent start q) (sym e1) flushed.0.coherent,
            ap (λ (q : CacheBus). view start q a) e1 ∙ flushed.0.same a,
            rw h (ap (λ (q : CacheBus). ram start q.bus.log a) e1 ∙ flushed.1 a),
          )
      | inr h ↦
          let e1 : dcache_of (exception_fire s idx) ≡ dcache_of s =
            e
            ∙ ap
                (λ (b : Bool).
                  if b
                  then cache_invalidate_all (dcache_writeback_all (dcache_of s))
                  else dcache_of s)
                h in
          (
            subst (λ (q : CacheBus). IsCoherent start q) (sym e1) ok,
            ap (λ (q : CacheBus). view start q a) e1,
            rw h refl,
          )
    ]
