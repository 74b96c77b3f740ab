-- ===== src/Mmu/Faults.antt =====
-- The two ways in which an access of src/mem.c ends: it succeeds and leaves the processor's
-- registers alone, or it is a data storage interrupt.
use libppcemu.Prelude.{
  ℕ, zero, suc, ◌+◌, ◌-◌, ◌≡◌, Bool, true, false, ◌&&◌, refl, arith, ◌∙◌, bit, bit_and,
  if◌then◌else◌, ltb, u32, Option, none, some, ap, Bool-cases, inl, inr,
}
use libppcemu.Bus.{Bytes}
use libppcemu.State.{State}
use libppcemu.Mmu.{V2p, success, not_mapped, no_perms, direct_store, is_success}
use libppcemu.Mmu.Translate.{virt2phys}
use libppcemu.Spr.{idx_srr0}
use libppcemu.Exception.{exception_dsi, exception_fire, flush_caches}
use libppcemu.Exception.Entry.{exception_fire-gpr, exception_fire-saved}
use libppcemu.Mmu.Access.{
  set_dsi_info, tail_byte, tail_loop, tail_translated, load_translated, store_translated,
  access_page_tail, data_fault, load_at, store_at, do_wgp_store, do_wgp_flush, do_basic_load_nohook,
  do_basic_store_nohook,
}
use libppcemu.Mmu.Fast.{
  load_hit, store_hit, basic_load, basic_store, fast_hit, fast_store, line_serves,
}
use libppcemu.Mmu.Frame.{cpu_of, SameCpu, virt2phys-SameCpu}

-- What `err` tells of the state `t` that an access from `s` leaves.
pub data Ended (s : State) (write : Bool) (t : State) : V2p → Type 0 where
  done : (phys : ℕ) (cacheable : Bool) → SameCpu s t → Ended s write t (success phys cacheable)
  fault :
      (s1 : State) (ea : ℕ) (err : V2p)
      → is_success err ≡ false
      → SameCpu s s1
      → t ≡ data_fault s1 ea err write
      → Ended s write t err

store_at-SameCpu :
    (s : State) (len phys : ℕ) (cacheable : Bool) (val : Bytes)
    → SameCpu s (store_at s len phys cacheable val)
unfolding store_at do_wgp_store do_wgp_flush cpu_of
store_at-SameCpu s len phys cacheable val = ground arith

load_at-SameCpu :
    (s : State) (len phys : ℕ) (cacheable : Bool) (val : Bytes)
    → SameCpu s (load_at s len phys cacheable val).1
unfolding load_at cpu_of
load_at-SameCpu s len phys cacheable val = ground arith

tail_byte-SameCpu :
    (s : State) (addr : ℕ) (cached : Bool) (val : Bytes) (i : ℕ) (write : Bool)
    → SameCpu s (tail_byte s addr cached val i write).1
unfolding tail_byte cpu_of
tail_byte-SameCpu s addr cached val i write = ground arith

tail_loop-SameCpu :
    (n : ℕ) (s : State) (first phys : ℕ) (cacheable : Bool) (next_phys : ℕ) (next_cacheable : Bool)
    (val : Bytes) (write : Bool) (i : ℕ)
    → SameCpu s (tail_loop n s first phys cacheable next_phys next_cacheable val write i).1
unfolding tail_loop
tail_loop-SameCpu zero s first phys cacheable next_phys next_cacheable val write i = refl
tail_loop-SameCpu (suc n) s first phys cacheable next_phys next_cacheable val write i =
    tail_loop-SameCpu n _ first phys cacheable next_phys next_cacheable _ write (i + 1)
    ∙ tail_byte-SameCpu s _ _ val i write

-- From a state that only the translation has changed.
Ended-after :
    (s s1 : State) (write : Bool) (t : State) (err : V2p)
    → SameCpu s s1
    → Ended s1 write t err
    → Ended s write t err
Ended-after s s1 write t (success phys cacheable) h (done _ _ k) = done phys cacheable (k ∙ h)
Ended-after s s1 write t err h (fault s2 ea _ bad k e) = fault s2 ea err bad (k ∙ h) e

module _ (s : State) (len ea : ℕ) (val : Bytes) where
  tail_translated-Ended :
      (err : V2p) (first phys : ℕ) (cacheable write : Bool)
      → let r = tail_translated err s ea first len phys cacheable val write in
        Ended s write (r.1.1) (r.0)
  unfolding tail_translated is_success
  tail_translated-Ended (success next_phys next_cacheable) first phys cacheable write =
      done _ _ (tail_loop-SameCpu len s first phys cacheable next_phys next_cacheable val write 0)
  tail_translated-Ended not_mapped first phys cacheable write = fault s _ _ refl refl refl
  tail_translated-Ended no_perms first phys cacheable write = fault s _ _ refl refl refl
  tail_translated-Ended direct_store first phys cacheable write = fault s _ _ refl refl refl

module _ (s : State) (len ea : ℕ) (val : Bytes) where
  access_page_tail-Ended :
      (phys : ℕ) (cacheable write : Bool)
      → let r = access_page_tail s ea len phys cacheable val write in Ended s write (r.1.1) (r.0)
  unfolding access_page_tail
  access_page_tail-Ended phys cacheable write =
      let first = 0x1000 - bit_and ea 0xfff in
      let (err, s1) = virt2phys s (u32 (ea + first)) false write in
      Ended-after s s1 write _ _ (virt2phys-SameCpu s (u32 (ea + first)) false write)
        (tail_translated-Ended s1 len ea val err first phys cacheable write)

  load_translated-Ended :
      (err : V2p) → let r = load_translated err s len ea val in Ended s false (r.1.1) (r.0)
  unfolding load_translated is_success
  load_translated-Ended (success phys cacheable) =
      elim (Bool-cases (ltb 0x1000 (bit_and ea 0xfff + len))) [
        | inl over ↦ rw over (access_page_tail-Ended phys cacheable false)
        | inr fits ↦ rw fits (done _ _ (load_at-SameCpu s len phys cacheable val))
      ]
  load_translated-Ended not_mapped = fault s _ _ refl refl refl
  load_translated-Ended no_perms = fault s _ _ refl refl refl
  load_translated-Ended direct_store = fault s _ _ refl refl refl

  store_translated-Ended :
      (err : V2p) → let r = store_translated err s len ea val in Ended s true (r.1) (r.0)
  unfolding store_translated is_success
  store_translated-Ended (success phys cacheable) =
      elim (Bool-cases (ltb 0x1000 (bit_and ea 0xfff + len))) [
        | inl over ↦ rw over (access_page_tail-Ended phys cacheable true)
        | inr fits ↦ rw fits (done _ _ (store_at-SameCpu s len phys cacheable val))
      ]
  store_translated-Ended not_mapped = fault s _ _ refl refl refl
  store_translated-Ended no_perms = fault s _ _ refl refl refl
  store_translated-Ended direct_store = fault s _ _ refl refl refl

module _ (s : State) (len ea : ℕ) (val : Bytes) where
  pub nohook-Ended :
      (let r = do_basic_load_nohook s len ea val in Ended s false (r.1.1) (r.0))
      × (let r = do_basic_store_nohook s len ea val in Ended s true (r.1) (r.0))
  unfolding do_basic_load_nohook do_basic_store_nohook
  nohook-Ended = (
    Ended-after s _ false _ _ (virt2phys-SameCpu s ea false false)
        (load_translated-Ended _ len ea val _),
    Ended-after s _ true _ _ (virt2phys-SameCpu s ea false true)
        (store_translated-Ended _ len ea val _),
  )

  fast_store-SameCpu : (phys : ℕ) → SameCpu s (fast_store s len phys val)
  unfolding fast_store cpu_of
  fast_store-SameCpu phys = refl

  load_hit-Ended :
      (hit : Option (ℕ × Bool)) → let r = load_hit hit s len ea val in Ended s false (r.1.1) (r.0)
  unfolding load_hit
  load_hit-Ended none = nohook-Ended.0
  load_hit-Ended (some (phys, cacheable)) =
      elim (Bool-cases (cacheable && line_serves s phys len)) [
        | inl here ↦ rw here (done phys cacheable refl)
        | inr away ↦ rw away (nohook-Ended.0)
      ]

  store_hit-Ended :
      (hit : Option (ℕ × Bool)) → let r = store_hit hit s len ea val in Ended s true (r.1) (r.0)
  unfolding store_hit
  store_hit-Ended none = nohook-Ended.1
  store_hit-Ended (some (phys, cacheable)) =
      elim (Bool-cases (cacheable && line_serves s phys len)) [
        | inl here ↦ rw here (done phys cacheable (fast_store-SameCpu phys))
        | inr away ↦ rw away (nohook-Ended.1)
      ]

  pub basic_load-Ended : let r = basic_load s len ea val in Ended s false (r.1.1) (r.0)
  unfolding basic_load
  basic_load-Ended = load_hit-Ended (fast_hit s ea false)

  pub basic_store-Ended : let r = basic_store s len ea val in Ended s true (r.1) (r.0)
  unfolding basic_store
  basic_store-Ended = store_hit-Ended (fast_hit s ea true)

-- How the program goes on: after an access that succeeds, as before; after one that faults, at the
-- data storage interrupt, with the address of the instruction in SRR0.
abbrev pub GoesOn : State → State → V2p → Type 0
GoesOn s t err =
    (t.pc ≡ (if is_success err then s.pc else if bit s.msr 6 then 0xfff0_0300 else 0x300))
    × (t.sprs idx_srr0 ≡ (if is_success err then s.sprs idx_srr0 else s.pc))
    × (t.branched ≡ (if is_success err then s.branched else true))

data_fault-gpr :
    (s : State) (ea : ℕ) (err : V2p) (write : Bool) (i : ℕ)
    → (data_fault s ea err write).gpr i ≡ s.gpr i
unfolding data_fault set_dsi_info
data_fault-gpr s ea err write i =
    exception_fire-gpr (set_dsi_info s ea err write) exception_dsi i (omega arith)

data_fault-GoesOn :
    (s : State) (ea : ℕ) (err : V2p) (write : Bool)
    → is_success err ≡ false
    → GoesOn s (data_fault s ea err write) err
unfolding data_fault set_dsi_info
data_fault-GoesOn s ea err write bad = ground (
  arith,
  exception_fire-saved (set_dsi_info s ea err write) exception_dsi 0 (omega arith) (omega arith),
)

pub Ended-gpr :
    {s t : State} {write : Bool} {err : V2p} → Ended s write t err → (i : ℕ) → t.gpr i ≡ s.gpr i
unfolding cpu_of
Ended-gpr (done phys cacheable e) i = ap (λ (u : State). u.gpr i) e
Ended-gpr {write} (fault s1 ea err bad k e) i =
    ap (λ (u : State). u.gpr i) e ∙ data_fault-gpr s1 ea err write i ∙ ap (λ (u : State). u.gpr i) k

pub Ended-GoesOn : {s t : State} {write : Bool} {err : V2p} → Ended s write t err → GoesOn s t err
unfolding cpu_of is_success
Ended-GoesOn (done phys cacheable e) = (
  ap (λ (u : State). u.pc) e,
  ap (λ (u : State). u.sprs idx_srr0) e,
  ap (λ (u : State). u.branched) e,
)
Ended-GoesOn {s} {t} {write} (fault s1 ea err bad k e) = rw e (
    ground (
      arith,
      data_fault-GoesOn s1 ea err write bad,
      ap (λ (u : State). u.pc) k,
      ap (λ (u : State). u.msr) k,
    ))

data_fault-cr :
    (s : State) (ea : ℕ) (err : V2p) (write : Bool)
    → let t = data_fault s ea err write in (t.cr ≡ s.cr) × (t.reserve ≡ s.reserve)
unfolding data_fault set_dsi_info exception_fire flush_caches
data_fault-cr s ea err write = ground arith

pub Ended-cr :
    {s t : State} {write : Bool} {err : V2p}
    → Ended s write t err
    → (t.cr ≡ s.cr) × (t.reserve ≡ s.reserve)
unfolding cpu_of
Ended-cr (done phys cacheable e) = (ap (λ (u : State). u.cr) e, ap (λ (u : State). u.reserve) e)
Ended-cr {write} (fault s1 ea err bad k e) = rw e (
    ground (
      arith,
      data_fault-cr s1 ea err write,
      ap (λ (u : State). u.cr) k,
      ap (λ (u : State). u.reserve) k,
    ))
