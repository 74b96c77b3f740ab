-- ===== src/Mmu/Access.antt =====
-- Loads and stores at effective addresses: the end of src/mem.c, and the inline fast paths of
-- src/mem.h where no `loadstore_hook` is set.
use libppcemu.Prelude.{
  ℕ, zero, suc, ◌+◌, ◌-◌, ◌^◌, bit_and, bit_or, Bool, true, false, ◌&&◌, nz, ltb, ◌==◌,
  if◌then◌else◌, not32, u32,
}
use libppcemu.Bus.{Bytes, bus_read, bus_write}
use libppcemu.Cache.{memcpy}
use libppcemu.Cache.Data.{dcache_load, dcache_store}
use libppcemu.State.{State, set_spr, dcache_of, put_dcache}
use libppcemu.Spr.{
  idx_dsisr, idx_dar, idx_srr1, idx_wpar, idx_hid2_gekko, hid2_wpe, caps_wr_gather_pipe,
}
use libppcemu.Exception.{exception_fire, exception_dsi}
use libppcemu.Mmu.{V2p, success, not_mapped, no_perms, direct_store}
use libppcemu.Mmu.Translate.{virt2phys}

-- The cause that DSISR tells.
unfoldable pub dsisr_of : V2p → ℕ
dsisr_of (success phys cacheable) = 0
dsisr_of not_mapped = 0x4000_0000
dsisr_of no_perms = 0x800_0000
dsisr_of direct_store = 0x400_0000

unfoldable pub set_dsi_info : State → ℕ → V2p → Bool → State
set_dsi_info s ea err write =
    let dsisr = bit_or (if write then 0x200_0000 else 0) (dsisr_of err) in
    set_spr (set_spr s idx_dsisr dsisr) idx_dar ea

unfoldable pub isi_extra : V2p → ℕ
isi_extra (success phys cacheable) = 0
isi_extra not_mapped = 0x4000_0000
isi_extra direct_store = 0x4000_0000
isi_extra no_perms = 0x800_0000

unfoldable pub set_isi_info : State → V2p → State
set_isi_info s err = set_spr s idx_srr1 (bit_or (s.sprs idx_srr1) (isi_extra err))

unfoldable pub do_wgp_flush : State → State
do_wgp_flush s = record s { bus = bus_write s.bus (s.sprs idx_wpar) 32 s.wgp_buf; cur_wgp_idx = 0 }

-- `wraparound` is `cur_wgp_idx + len - 32`.
unfoldable pub do_wgp_store : State → ℕ → Bytes → State
do_wgp_store s len val =
    let total = s.cur_wgp_idx + len in
    if ltb total 32
    then record s { wgp_buf = memcpy s.wgp_buf s.cur_wgp_idx val 0 len; cur_wgp_idx = total }
    else if total == 32
    then do_wgp_flush
        (record s { wgp_buf = memcpy s.wgp_buf s.cur_wgp_idx val 0 len; cur_wgp_idx = total })
    else (let over = total - 32 in
        let s1 =
          do_wgp_flush (record s { wgp_buf = memcpy s.wgp_buf s.cur_wgp_idx val 0 (len - over) }) in
        record s1 {
          wgp_buf = memcpy s1.wgp_buf s1.cur_wgp_idx val (len - over) over;
          cur_wgp_idx = s1.cur_wgp_idx + over;
        })

-- One byte of an access over a page end; `val` is the buffer of the caller.
unfoldable pub tail_byte : State → ℕ → Bool → Bytes → ℕ → Bool → Bytes × State
tail_byte s addr cached val i write =
    if cached
    then (if write
        then (val, put_dcache s (dcache_store (dcache_of s) addr 1 (λ j. val (i + j))))
        else (let (got, p) = dcache_load (dcache_of s) addr 1 (λ j. val (i + j)) in
            (memcpy val i got 0 1, put_dcache s p)))
    else if write
    then (val, record s { bus = bus_write s.bus addr 1 (λ j. val (i + j)) })
    else (let (got, bus) = bus_read s.bus addr 1 in (memcpy val i got 0 1, record s { bus = bus }))

-- `for (i = from; i < from + n; i++)`.
unfoldable pub tail_loop : ℕ → State → ℕ → ℕ → Bool → ℕ → Bool → Bytes → Bool → ℕ → Bytes × State
tail_loop zero s first phys cacheable next_phys next_cacheable val write i = (val, s)
tail_loop (suc n) s first phys cacheable next_phys next_cacheable val write i =
    let addr = if ltb i first then u32 (phys + i) else u32 (next_phys + i + 2 ^ 32 - first) in
    let (val', s1) =
      tail_byte s addr (if ltb i first then cacheable else next_cacheable) val i write in
    tail_loop n s1 first phys cacheable next_phys next_cacheable val' write (i + 1)

unfoldable pub data_fault : State → ℕ → V2p → Bool → State
data_fault s ea err write = exception_fire (set_dsi_info s ea err write) exception_dsi

-- What follows the translation of the second page.
unfoldable pub tail_translated :
    V2p → State → ℕ → ℕ → ℕ → ℕ → Bool → Bytes → Bool → V2p × (Bytes × State)
tail_translated (success next_phys next_cacheable) s ea first len phys cacheable val write = (
  success next_phys next_cacheable,
  tail_loop len s first phys cacheable next_phys next_cacheable val write 0,
)
tail_translated err s ea first len phys cacheable val write =
    (err, (val, data_fault s (u32 (ea + first)) err write))

unfoldable pub access_page_tail : State → ℕ → ℕ → ℕ → Bool → Bytes → Bool → V2p × (Bytes × State)
access_page_tail s ea len phys cacheable val write =
    let first = 0x1000 - bit_and ea 0xfff in
    let (err, s1) = virt2phys s (u32 (ea + first)) false write in
    tail_translated err s1 ea first len phys cacheable val write

-- The store of an access inside one page, past its translation.
unfoldable pub store_at : State → ℕ → ℕ → Bool → Bytes → State
store_at s len phys cacheable val =
    if cacheable
    then put_dcache s (dcache_store (dcache_of s) phys len val)
    else if nz (bit_and s.caps caps_wr_gather_pipe)
        && nz (bit_and (s.sprs idx_hid2_gekko) hid2_wpe)
        && bit_and phys (not32 31) == s.sprs idx_wpar
    then do_wgp_store s len val
    else record s { bus = bus_write s.bus phys len val }

-- What follows the translation of the first page.
unfoldable pub store_translated : V2p → State → ℕ → ℕ → Bytes → V2p × State
store_translated (success phys cacheable) s len ea val =
    if ltb 0x1000 (bit_and ea 0xfff + len)
    then (let (err, (val', s1)) = access_page_tail s ea len phys cacheable val true in (err, s1))
    else (success phys cacheable, store_at s len phys cacheable val)
store_translated err s len ea val = (err, data_fault s ea err true)

unfoldable pub do_basic_store_nohook : State → ℕ → ℕ → Bytes → V2p × State
do_basic_store_nohook s len ea val =
    let (err, s1) = virt2phys s ea false true in store_translated err s1 len ea val

-- The load of an access inside one page, past its translation.
unfoldable pub load_at : State → ℕ → ℕ → Bool → Bytes → Bytes × State
load_at s len phys cacheable val =
    if cacheable
    then (let (val', p) = dcache_load (dcache_of s) phys len val in (val', put_dcache s p))
    else (let (got, bus) = bus_read s.bus phys len in
        (memcpy val 0 got 0 len, record s { bus = bus }))

unfoldable pub load_translated : V2p → State → ℕ → ℕ → Bytes → V2p × (Bytes × State)
load_translated (success phys cacheable) s len ea val =
    if ltb 0x1000 (bit_and ea 0xfff + len)
    then access_page_tail s ea len phys cacheable val false
    else (success phys cacheable, load_at s len phys cacheable val)
load_translated err s len ea val = (err, (val, data_fault s ea err false))

unfoldable pub do_basic_load_nohook : State → ℕ → ℕ → Bytes → V2p × (Bytes × State)
do_basic_load_nohook s len ea val =
    let (err, s1) = virt2phys s ea false false in load_translated err s1 len ea val
