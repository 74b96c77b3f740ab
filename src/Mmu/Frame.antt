-- ===== src/Mmu/Frame.antt =====
-- What a translation and an access that succeeds leave alone: all but the data cache, the bus, the
-- micro-TLBs and the write-gather pipe.
use libppcemu.Prelude.{
  ℕ, zero, suc, ◌+◌, ◌≡◌, Bool, true, false, Option, none, some, [], refl, arith, ◌∙◌, nz, bit_and,
  bit_or, bit_xor, shr, if◌then◌else◌,
}
use libppcemu.State.{State, MicroTlb, MicroTlbEntry}
use libppcemu.Mmu.{V2p}
use libppcemu.Spr.{idx_sdr1, msr_pr}
use libppcemu.Mmu.Walk.{
  read_word, htab_read_pte, htab_write_pte1, use_pte, pteg_loop, pteg_address, htab_lookup, Walked,
  found, failed,
}
use libppcemu.Mmu.Translate.{
  bat_to_spr_idx, put_tlb, use_bat, bat_loop, keep_walked, translate_page, virt2phys_slow,
  virt2phys, is_user, max_bat,
}

-- The state without those parts.
unfoldable pub cpu_of : State → State
cpu_of s = record s {
  bus = record { hook = λ log addr len j. 0; log = [] };
  dcache = record {
    lines = λ i. record { tag = 0; valid = false; dirty = false; locked = false; bytes = λ j. 0 };
    line_count = 0;
    is_data_cache = true;
  };
  itlb = λ i. no_page;
  dtlb = λ i. no_page;
  wgp_buf = λ j. 0;
  cur_wgp_idx = 0;
}
  where
    no_page : MicroTlbEntry
    no_page = record {
      key = 0;
      phys_base = 0;
      writable = false;
      dirty_pending = false;
      cacheable = false;
    }

-- Two states that agree but for those parts.
abbrev pub SameCpu : State → State → Type 0
SameCpu s t = cpu_of t ≡ cpu_of s

read_word-SameCpu : (s : State) (addr : ℕ) → SameCpu s (read_word s addr).1
unfolding read_word cpu_of
read_word-SameCpu s addr = ground arith

pub htab_read_pte-SameCpu : (s : State) (g i : ℕ) → SameCpu s (htab_read_pte s g i).1
unfolding htab_read_pte
htab_read_pte-SameCpu s g i = read_word-SameCpu _ _ ∙ read_word-SameCpu s _

htab_write_pte1-SameCpu : (s : State) (g i w : ℕ) → SameCpu s (htab_write_pte1 s g i w)
unfolding htab_write_pte1 cpu_of
htab_write_pte1-SameCpu s g i w = ground arith

use_pte-SameCpu :
    (s : State) (key : Bool) (virt : ℕ) (ifetch write : Bool) (g i w : ℕ)
    → SameCpu s (use_pte s key virt ifetch write g i w).1
unfolding use_pte
use_pte-SameCpu s key virt ifetch write g i w =
    ground
      (arith, htab_write_pte1-SameCpu s g i (bit_or (bit_or w 0x100) (if write then 0x80 else 0)))

pteg_loop-SameCpu :
    (n : ℕ) (s : State) (vsid api h : ℕ) (key : Bool) (virt : ℕ) (ifetch write : Bool) (g i : ℕ)
    → SameCpu s (pteg_loop n s vsid api h key virt ifetch write g i).1
unfolding pteg_loop
pteg_loop-SameCpu zero s vsid api h key virt ifetch write g i = refl
pteg_loop-SameCpu (suc n) s vsid api h key virt ifetch write g i =
    let ((w0, w1), s1) = htab_read_pte s g i in
    ground (
      arith,
      htab_read_pte-SameCpu s g i,
      use_pte-SameCpu s1 key virt ifetch write g i w1,
      pteg_loop-SameCpu n s1 vsid api h key virt ifetch write g (i + 1),
    )

htab_lookup-SameCpu :
    (s : State) (virt sr : ℕ) (ifetch write : Bool)
    → SameCpu s (htab_lookup s virt sr ifetch write).1
unfolding htab_lookup
htab_lookup-SameCpu s virt sr ifetch write =
    let sdr1 = s.sprs idx_sdr1 in
    let vsid = bit_and sr 0xff_ffff in
    let pi = bit_and (shr virt 12) 0xffff in
    let api = shr pi 10 in
    let key = nz (bit_and sr (if nz (bit_and s.msr msr_pr) then 0x2000_0000 else 0x4000_0000)) in
    let hash = bit_xor vsid pi in
    let g = pteg_address sdr1 hash 0 in
    let (first, s1) = pteg_loop 8 s vsid api 0 key virt ifetch write g 0 in
    ground (
      arith,
      pteg_loop-SameCpu 8 s vsid api 0 key virt ifetch write g 0,
      pteg_loop-SameCpu 8 s1 vsid api 1 key virt ifetch write (pteg_address sdr1 hash 1) 0,
    )

use_bat-SameCpu :
    (s : State) (virt : ℕ) (ifetch write : Bool) (batu batl : ℕ)
    → SameCpu s (use_bat s virt ifetch write batu batl).1
unfolding use_bat cpu_of
use_bat-SameCpu s virt ifetch write batu batl = ground arith

bat_loop-SameCpu :
    (n : ℕ) (s : State) (virt : ℕ) (ifetch write : Bool) (i : ℕ) (r : V2p × State)
    → bat_loop n s virt ifetch write i ≡ some r
    → SameCpu s r.1
unfolding bat_loop
bat_loop-SameCpu zero s virt ifetch write i r e = absurd (ground arith)
bat_loop-SameCpu (suc n) s virt ifetch write i r e =
    let batu = s.sprs (bat_to_spr_idx i ifetch true) in
    let batl = s.sprs (bat_to_spr_idx i ifetch false) in
    ground (
      arith,
      use_bat-SameCpu s virt ifetch write batu batl,
      bat_loop-SameCpu n s virt ifetch write (i + 1) r,
    )

put_tlb-SameCpu : (s : State) (ifetch : Bool) (tlb : MicroTlb) → SameCpu s (put_tlb s ifetch tlb)
unfolding cpu_of
put_tlb-SameCpu s ifetch tlb = ground arith

keep_walked-SameCpu :
    (s : State) (w : Walked) (virt : ℕ) (ifetch user : Bool)
    → SameCpu s (keep_walked s w virt ifetch user).1
unfolding keep_walked
keep_walked-SameCpu s (failed err) virt ifetch user = refl
keep_walked-SameCpu s (found phys cacheable writable dirty_pending) virt ifetch user =
    put_tlb-SameCpu s ifetch _

translate_page-SameCpu :
    (s : State) (virt : ℕ) (ifetch write : Bool) → SameCpu s (translate_page s virt ifetch write).1
unfolding translate_page
translate_page-SameCpu s virt ifetch write =
    let (w, s1) = htab_lookup s virt (s.sr (shr virt 28)) ifetch write in
    ground (
      arith,
      htab_lookup-SameCpu s virt (s.sr (shr virt 28)) ifetch write,
      keep_walked-SameCpu s1 w virt ifetch (is_user s),
    )

bat_case :
    (s : State) (virt : ℕ) (ifetch write : Bool) (o : Option (V2p × State))
    → bat_loop (max_bat s) s virt ifetch write 0 ≡ o
    → (let r : V2p × State = elim o [ some r ↦ r | none ↦ translate_page s virt ifetch write ] in
        SameCpu s r.1)
bat_case s virt ifetch write (some r) e = bat_loop-SameCpu (max_bat s) s virt ifetch write 0 r e
bat_case s virt ifetch write none e = translate_page-SameCpu s virt ifetch write

virt2phys_slow-SameCpu :
    (s : State) (virt : ℕ) (ifetch write : Bool) → SameCpu s (virt2phys_slow s virt ifetch write).1
unfolding virt2phys_slow
virt2phys_slow-SameCpu s virt ifetch write = ground (arith, bat_case s virt ifetch write _ refl)

pub virt2phys-SameCpu :
    (s : State) (virt : ℕ) (ifetch write : Bool) → SameCpu s (virt2phys s virt ifetch write).1
unfolding virt2phys
virt2phys-SameCpu s virt ifetch write = ground (arith, virt2phys_slow-SameCpu s virt ifetch write)
