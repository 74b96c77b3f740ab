-- ===== src/Mmu/Gather.antt =====
-- The write-gather pipe: `do_wgp_store` and `do_wgp_flush` of src/mem.c.
use libppcemu.Prelude.{ℕ, ◌+◌, ◌-◌, ◌%◌, ◌≤◌, ◌<◌, ◌≡◌, arith, ltb, leb, if◌then◌else◌}
use libppcemu.Bus.{Bytes, bus_write}
use libppcemu.Cache.Ram.{ram}
use libppcemu.State.{State}
use libppcemu.Spr.{idx_wpar}
use libppcemu.Mmu.Access.{do_wgp_store, do_wgp_flush}

-- Byte `j` of the stream of all bytes gathered since the last transfer: the buffer's, then those of
-- the store.
abbrev pub stream : State → Bytes → ℕ → ℕ
stream s val j = if ltb j s.cur_wgp_idx then s.wgp_buf j else val (j - s.cur_wgp_idx)

module _ (s : State) (len : ℕ) (val : Bytes) (h : s.cur_wgp_idx < 32) (hl : len ≤ 32) where
  -- A store of up to 32 bytes into a write-gather pipe that holds fewer than 32 leaves as many
  -- bytes in the pipe as the total modulo 32, and these are the bytes of the stream, the pipe's and
  -- then the store's, past the 32 that it transferred if there were so many.
  pub do_wgp_store-held :
      (j : ℕ)
      → let s' = do_wgp_store s len val in
        let full = leb 32 (s.cur_wgp_idx + len) in
        (s'.cur_wgp_idx ≡ (s.cur_wgp_idx + len) % 32)
        × ((if ltb j s'.cur_wgp_idx then s'.wgp_buf j else 0) ≡ (
            if ltb j ((s.cur_wgp_idx + len) % 32)
            then stream s val (if full then 32 + j else j)
            else 0))
  unfolding do_wgp_store do_wgp_flush bus_write
  do_wgp_store-held j = (ground arith, ground arith)

  -- A store of up to 32 bytes into a write-gather pipe that holds fewer than 32 writes the first 32
  -- bytes of the stream, the pipe's and then the store's, to the 32 bytes of memory from WPAR on if
  -- there are so many, and otherwise leaves those bytes of memory alone.
  pub do_wgp_store-sent :
      (start : Bytes) (j : ℕ)
      → j < 32
      → ram start (do_wgp_store s len val).bus.log (s.sprs idx_wpar + j) ≡ (
          if leb 32 (s.cur_wgp_idx + len)
          then stream s val j
          else ram start s.bus.log (s.sprs idx_wpar + j))
  unfolding do_wgp_store do_wgp_flush bus_write ram
  do_wgp_store-sent start j l = ground arith

  -- A store of up to 32 bytes into a write-gather pipe that holds fewer than 32 takes the stream of
  -- the pipe's bytes and then the store's: if there are 32 or more, the first 32 go to the 32 bytes
  -- of memory from WPAR on, otherwise those bytes of memory stay; and the pipe holds the rest of
  -- the stream, as many bytes as the total modulo 32.
  pub do_wgp_store_lem :
      (start : Bytes) (j i : ℕ)
      → i < 32
      → let s' = do_wgp_store s len val in
        let full = leb 32 (s.cur_wgp_idx + len) in
        (s'.cur_wgp_idx ≡ (s.cur_wgp_idx + len) % 32)
        × ((if ltb j s'.cur_wgp_idx then s'.wgp_buf j else 0) ≡ (
            if ltb j ((s.cur_wgp_idx + len) % 32)
            then stream s val (if full then 32 + j else j)
            else 0))
        × (ram start s'.bus.log (s.sprs idx_wpar + i)
            ≡ (if full then stream s val i else ram start s.bus.log (s.sprs idx_wpar + i)))
  do_wgp_store_lem start j i l =
      ((do_wgp_store-held j).0, (do_wgp_store-held j).1, do_wgp_store-sent start i l)
