-- ===== src/Paired/Quantize.antt =====
-- Quantized values of psq_l and psq_st: the tables and conversions of src/instr/paired_singles.c, with the
-- fields of a GQR of include/ppcemu/spr.h.
use libppcemu.Prelude.{
  ℕ, ◌+◌, ◌-◌, ◌*◌, ◌^◌, bit_and, ltb, ◌==◌, if◌then◌else◌, ℤ, pos, negsuc, u8, u16, shr,
}
use libppcemu.Bus.{Bytes}
use libppcemu.LoadStore.{be16_to_cpu, cpu_to_be16}
use libppcemu.Float.{HostFloat}

-- `default` of the two switches is `unimplemented`.
pub data Quantization : Type 0 where
  quant_single quant_u8 quant_u16 quant_i8 quant_i16 unimplemented : Quantization

unfoldable pub quantization_of : ℕ → Quantization
quantization_of n =
    if n == 0
    then quant_single
    else if n == 4
    then quant_u8
    else if n == 5
    then quant_u16
    else if n == 6
    then quant_i8
    else if n == 7
    then quant_i16
    else unimplemented

abbrev pub gqr_st_type : ℕ → ℕ
gqr_st_type gqr = bit_and gqr 7

abbrev pub gqr_st_scale : ℕ → ℕ
gqr_st_scale gqr = shr (bit_and gqr 0x3f00) 8

abbrev pub gqr_ld_type : ℕ → ℕ
gqr_ld_type gqr = shr (bit_and gqr 0x7_0000) 16

abbrev pub gqr_ld_scale : ℕ → ℕ
gqr_ld_scale gqr = shr (bit_and gqr 0x3f00_0000) 24

-- `ppcemu_gqrn_to_spr_idx`
unfoldable pub gqrn_to_spr_idx : ℕ → ℕ
gqrn_to_spr_idx gqrn = 45 + gqrn

-- The entries are powers of two; a `float` 2^e has the pattern (127 + e) * 2^23.
unfoldable pub dequantize_table : ℕ → ℕ
dequantize_table i = (if ltb i 32 then 127 - i else 191 - i) * 2 ^ 23

unfoldable pub quantize_table : ℕ → ℕ
quantize_table i = (if ltb i 32 then 127 + i else 63 + i) * 2 ^ 23

-- Bytes of a value in memory.
unfoldable pub quant_size : Quantization → ℕ
quant_size quant_single = 4
quant_size quant_u8 = 1
quant_size quant_i8 = 1
quant_size quant_u16 = 2
quant_size quant_i16 = 2
quant_size unimplemented = 0

unfoldable pub signed8 : ℕ → ℤ
signed8 n = if ltb (u8 n) 0x80 then pos (u8 n) else negsuc (0xff - u8 n)

unfoldable pub signed16 : ℕ → ℤ
signed16 n = if ltb (u16 n) 0x8000 then pos (u16 n) else negsuc (0xffff - u16 n)

-- The integer that a load finds.
unfoldable pub quant_integer : Quantization → Bytes → ℤ
quant_integer quant_u8 raw = pos (u8 (raw 0))
quant_integer quant_i8 raw = signed8 (raw 0)
quant_integer quant_u16 raw = pos (be16_to_cpu raw)
quant_integer quant_i16 raw = signed16 (be16_to_cpu raw)
quant_integer other raw = pos 0

-- The limits of a store: UCHAR_MAX, SCHAR_MAX, USHRT_MAX, SHRT_MAX, and 0, SCHAR_MIN, SHRT_MIN.
unfoldable pub quant_max : Quantization → ℤ
quant_max quant_u8 = pos 0xff
quant_max quant_i8 = pos 0x7f
quant_max quant_u16 = pos 0xffff
quant_max quant_i16 = pos 0x7fff
quant_max other = pos 0

unfoldable pub quant_min : Quantization → ℤ
quant_min quant_i8 = negsuc 0x7f
quant_min quant_i16 = negsuc 0x7fff
quant_min other = pos 0

module _ (host : HostFloat) where
  unfoldable pub dequantize : Quantization → ℕ → Bytes → ℕ
  dequantize q scale raw = host.mul32 (host.of_int (quant_integer q raw)) (dequantize_table scale)

  -- The two saturating tests.
  unfoldable pub clamp : ℕ → ℕ → ℕ → ℕ
  clamp min max x = let y = if host.lt32 max x then max else x in if host.lt32 y min then min else y

  unfoldable pub quantize : Quantization → ℕ → ℕ → ℕ
  quantize q scale x =
      clamp (host.of_int (quant_min q)) (host.of_int (quant_max q))
        (host.mul32 x (quantize_table scale))

  -- The buffer of a store.
  unfoldable pub quant_bytes : Quantization → ℕ → Bytes
  quant_bytes quant_u8 x = λ j. host.to_u8 x
  quant_bytes quant_i8 x = λ j. host.to_i8 x
  quant_bytes quant_u16 x = cpu_to_be16 (host.to_u16 x)
  quant_bytes quant_i16 x = cpu_to_be16 (host.to_i16 x)
  quant_bytes other x = λ j. 0
