-- ===== src/LoadStore.antt =====
-- Load and store instructions of the integer unit: src/instr/loadstore.c, with the byte order of
-- include/ppcemu/endian.h. Children: `Update` for the inline forms of src/instr.h, `Multiple` for
-- stmw, lmw, stswi and lswi.
pub mod Update
pub mod Multiple
pub mod Access
pub mod RoundTrip
pub mod Reserve
pub mod Strings
use libppcemu.Prelude.{
  ℕ, ◌+◌, ◌-◌, ◌*◌, ◌^◌, Bool, true, false, ◌==◌, if◌then◌else◌, u8, u16, u32, shr, sext16,
}
use libppcemu.Bus.{Bytes}
use libppcemu.State.{State, set_gpr}
use libppcemu.Mmu.{V2p, success, not_mapped, no_perms, direct_store}
use libppcemu.Mmu.Walk.{be32_to_cpu, cpu_to_be32}
use libppcemu.Mmu.Fast.{basic_load, basic_store}

-- The lengths that have a case, 1, 2 and 4; `default` asserts that there is no other.
pub data AccessLen : Type 0 where
  byte half word : AccessLen

-- Those of the byte-reversed forms, 2 and 4.
pub data BrevLen : Type 0 where
  brev_half brev_word : BrevLen

unfoldable pub size : AccessLen → ℕ
size byte = 1
size half = 2
size word = 4

unfoldable pub brev_size : BrevLen → ℕ
brev_size brev_half = 2
brev_size brev_word = 4

unfoldable pub cpu_to_be16 : ℕ → Bytes
cpu_to_be16 w j = u8 (shr (u16 w) (8 * (1 - j)))

unfoldable pub cpu_to_le16 : ℕ → Bytes
cpu_to_le16 w j = u8 (shr (u16 w) (8 * j))

unfoldable pub cpu_to_le32 : ℕ → Bytes
cpu_to_le32 w j = u8 (shr w (8 * j))

unfoldable pub be16_to_cpu : Bytes → ℕ
be16_to_cpu raw = u8 (raw 0) * 2 ^ 8 + u8 (raw 1)

unfoldable pub le16_to_cpu : Bytes → ℕ
le16_to_cpu raw = u8 (raw 1) * 2 ^ 8 + u8 (raw 0)

unfoldable pub le32_to_cpu : Bytes → ℕ
le32_to_cpu raw = ((u8 (raw 3) * 2 ^ 8 + u8 (raw 2)) * 2 ^ 8 + u8 (raw 1)) * 2 ^ 8 + u8 (raw 0)

-- The buffer `v8`, `v16` or `v32` of a store.
unfoldable pub stored_bytes : AccessLen → ℕ → Bytes
stored_bytes byte v = λ j. u8 v
stored_bytes half v = cpu_to_be16 v
stored_bytes word v = cpu_to_be32 v

-- The register's value after a load into that buffer.
unfoldable pub loaded_value : AccessLen → Bytes → ℕ
loaded_value byte raw = u8 (raw 0)
loaded_value half raw = be16_to_cpu raw
loaded_value word raw = be32_to_cpu raw

unfoldable pub brev_bytes : BrevLen → ℕ → Bytes
brev_bytes brev_half v = cpu_to_le16 v
brev_bytes brev_word v = cpu_to_le32 v

unfoldable pub brev_value : BrevLen → Bytes → ℕ
brev_value brev_half raw = le16_to_cpu raw
brev_value brev_word raw = le32_to_cpu raw

-- `if (rA == 0) b = 0; else b = state->gpr[rA];`
unfoldable pub base_of_ea : State → ℕ → ℕ
base_of_ea s ra = if ra == 0 then 0 else s.gpr ra

unfoldable pub basic_ea : State → ℕ → ℕ → ℕ
basic_ea s ra d = u32 (base_of_ea s ra + sext16 d)

unfoldable pub indexed_ea : State → ℕ → ℕ → ℕ
indexed_ea s ra rb = u32 (base_of_ea s ra + s.gpr rb)

-- The address, what the access answers, and the state.
unfoldable pub do_basic_store : State → AccessLen → ℕ → ℕ → ℕ → ℕ × (V2p × State)
do_basic_store s len rs ra d =
    let ea = basic_ea s ra d in (ea, basic_store s (size len) ea (stored_bytes len (s.gpr rs)))

unfoldable pub do_indexed_store : State → AccessLen → ℕ → ℕ → ℕ → ℕ × (V2p × State)
do_indexed_store s len rs ra rb =
    let ea = indexed_ea s ra rb in (ea, basic_store s (size len) ea (stored_bytes len (s.gpr rs)))

unfoldable pub do_indexed_store_brev : State → BrevLen → ℕ → ℕ → ℕ → ℕ × State
do_indexed_store_brev s len rs ra rb =
    let ea = indexed_ea s ra rb in
    let (err, s1) = basic_store s (brev_size len) ea (brev_bytes len (s.gpr rs)) in (ea, s1)

-- The end of a load: `rD` receives the value unless the access failed.
unfoldable pub finish_load : V2p × (Bytes × State) → ℕ → (Bytes → ℕ) → V2p × State
finish_load (success phys cacheable, (raw, s)) rd value =
    (success phys cacheable, set_gpr s rd (value raw))
finish_load (err, (raw, s)) rd value = (err, s)

unfoldable pub no_bytes : Bytes
no_bytes j = 0

-- `*ea_out`, what the access answers, and the state.
unfoldable pub do_basic_load : State → AccessLen → ℕ → ℕ → ℕ → ℕ × (V2p × State)
do_basic_load s len rd ra d =
    let ea = basic_ea s ra d in
    (ea, finish_load (basic_load s (size len) ea no_bytes) rd (loaded_value len))

unfoldable pub do_indexed_load : State → AccessLen → ℕ → ℕ → ℕ → ℕ × (V2p × State)
do_indexed_load s len rd ra rb =
    let ea = indexed_ea s ra rb in
    (ea, finish_load (basic_load s (size len) ea no_bytes) rd (loaded_value len))

unfoldable pub do_indexed_load_brev : State → BrevLen → ℕ → ℕ → ℕ → ℕ × (V2p × State)
do_indexed_load_brev s len rd ra rb =
    let ea = indexed_ea s ra rb in
    (ea, finish_load (basic_load s (brev_size len) ea no_bytes) rd (brev_value len))
