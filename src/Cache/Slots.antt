-- ===== src/Cache/Slots.antt =====
-- Lines and slots as arithmetic: the base and offset of an address, and neighbouring lines.
use libppcemu.Prelude.{ℕ, suc, ◌+◌, ◌*◌, ◌/◌, ◌%◌, ◌^◌, ◌<◌, ◌≡◌, ◌≢◌, arith, u32, shr}
use libppcemu.Prelude.{bit_and_mask, bit_and_high, half-mod}
use libppcemu.Cache.{Cache, cache_line_base, cache_line_offset, cache_index_for_line}

pub cache_line_base_lem : (a : ℕ) → a < 2 ^ 32 → cache_line_base a ≡ a / 32 * 32
unfolding cache_line_base
cache_line_base_lem a h = bit_and_high 27 5 a (omega arith)

pub cache_line_offset_lem : (a : ℕ) → cache_line_offset a ≡ a % 32
unfolding cache_line_offset
cache_line_offset_lem a = bit_and_mask 5 a

pub index_lem :
    (c : Cache) (k b : ℕ) → c.line_count ≡ 2 ^ k → cache_index_for_line c b ≡ b / 32 % 2 ^ k
unfolding cache_index_for_line
index_lem c k b e = rw e (bit_and_mask k (shr b 5))

-- A line and the next one, round the top of the address space, never share a slot of a cache
-- with two lines or more.
pub index_next :
    (c : Cache) (k b : ℕ)
    → c.line_count ≡ 2 ^ suc k
    → b < 2 ^ 32
    → b % 32 ≡ 0
    → cache_index_for_line c b ≢ cache_index_for_line c (u32 (b + 32))
index_next c k b e l on_grid same = omega (
  arith,
  index_lem c (suc k) b e,
  index_lem c (suc k) (u32 (b + 32)) e,
  half-mod k (b / 32),
  half-mod k (u32 (b + 32) / 32),
)
