-- ===== src/Decode/Invalid.antt =====
-- Words that are no instruction: src/decode.c.
use libppcemu.Prelude.{
  ℕ, ◌^◌, ◌<◌, ◌≡◌, ◌∙◌, ◌⊎◌, inl, inr, ap, refl, arith, Bool, true, false, not, ◌&&◌, ◌||◌, nz,
  leb, ◌==◌, List, [], ◌∷◌, ◌++◌, all_below, all_below_lem, same_bool, same_bool_lem, bit_and-lt,
}
use libppcemu.State.{State}
use libppcemu.Exception.{exception_fire, exception_program}
use libppcemu.Decode.{Handler, inst_opcd, inst_xo, inst_rc, do_illegal, find_row, next_pc, breaks}
use libppcemu.Decode.Guards.{lists, IsGuarded, access_rows, find_row-AllRows, find_row-append}
use libppcemu.Decode.Integer.{integer_handlers}
use libppcemu.Decode.Memory.{decode_stwcx, memory_handlers, float_memory_handlers}
use libppcemu.Decode.System.{system_handlers}
use libppcemu.Decode.CacheOps.{cache_handlers}
use libppcemu.Decode.Immediate.{immediate_cases, memory_cases}
use libppcemu.Decode.Exec.{opc31_handlers, decode_opc31, table_cases, opcode_handlers, decode_exec}

pub find_row-unlisted :
    (d : Handler) (rows : List (ℕ × Handler)) (i : ℕ) → lists rows i ≡ false → find_row d rows i ≡ d
unfolding find_row lists
find_row-unlisted d [] i h = refl
find_row-unlisted d ((k, g) ∷ rest) i h = ground (arith, find_row-unlisted d rest i)

-- The primary opcodes that the processor does not define.
abbrev pub is_undefined : ℕ → Bool
is_undefined op =
    leb op 2 || op == 5 || op == 6 || op == 9 || op == 22 || op == 30 || op == 58 || op == 62

unfoldable pub member : ℕ → List ℕ → Bool
member i [] = false
member i (k ∷ rest) = i == k || member i rest

-- The extended opcodes of the loads and stores with two registers for the address, but for stwcx.
abbrev pub access_opcodes : List ℕ
access_opcodes =
    20 ∷ 23 ∷ 55 ∷ 87 ∷ 119 ∷ 151 ∷ 183 ∷ 215 ∷ 247 ∷ 279 ∷ 311 ∷ 343 ∷ 375 ∷ 407 ∷ 439 ∷ 534 ∷ 597
    ∷ 662 ∷ 725 ∷ 790 ∷ 918 ∷ 535 ∷ 567 ∷ 599 ∷ 631 ∷ 663 ∷ 695 ∷ 727 ∷ 759 ∷ 983 ∷ []

-- A word that is no instruction: its opcode is not defined, or it sets the Rc bit of a load or store.
abbrev pub is_invalid : ℕ → Bool
is_invalid inst =
    is_undefined (inst_opcd inst)
    || (inst_opcd inst == 31 && nz (inst_rc inst) && member (inst_xo inst) access_opcodes)

undefined_table :
    (fp : Handler)
    → all_below 64 (λ i. same_bool (lists (opcode_handlers fp) i) (not (is_undefined i))) ≡ true
unfolding all_below lists opcode_handlers immediate_cases memory_cases table_cases
undefined_table fp = refl

inst_opcd-lt : (inst : ℕ) → inst < 2 ^ 32 → inst_opcd inst < 64
unfolding inst_opcd
inst_opcd-lt inst h = omega (arith, bit_and-lt 32 inst 0xfc00_0000 h)

opcode_undefined :
    (fp : Handler) (s : State) (inst : ℕ)
    → inst < 2 ^ 32
    → is_undefined (inst_opcd inst) ≡ true
    → decode_exec fp s inst ≡ exception_fire (record s { branched = false }) exception_program
unfolding decode_exec breaks next_pc do_illegal exception_fire
opcode_undefined fp s inst w h =
    let op = inst_opcd inst in
    let out : lists (opcode_handlers fp) op ≡ false = ground (
      arith,
      same_bool_lem (lists (opcode_handlers fp) op) (not (is_undefined op))
          (all_below_lem 64 op _ (undefined_table fp) (inst_opcd-lt inst w)),
    ) in
    ap (λ (h : Handler). h (record s { branched = false }) inst)
      (find_row-unlisted (breaks do_illegal) (opcode_handlers fp) op out)

opc31_guarded :
    (fp : Handler) (s : State) (inst : ℕ)
    → nz (inst_rc inst) ≡ true
    → member (inst_xo inst) access_opcodes ≡ true
    → decode_opc31 fp s inst ≡ exception_fire s exception_program
unfolding decode_opc31 opc31_handlers lists memory_handlers float_memory_handlers member
opc31_guarded fp s inst rc h =
    let access = memory_handlers ++ float_memory_handlers fp in
    let rest =
      system_handlers ++ (cache_handlers ++ (integer_handlers ++ (150, decode_stwcx) ∷ [])) in
    let i = inst_xo inst in
    ap (λ (g : Handler). g s inst) (find_row-append do_illegal access rest i)
    ∙ find_row-AllRows IsGuarded (find_row do_illegal rest i) access i (access_rows fp) h s inst rc

pub opc31_case :
    (fp : Handler) (s : State) (inst : ℕ)
    → inst_opcd inst ≡ 31
    → decode_exec fp s inst ≡ next_pc (decode_opc31 fp (record s { branched = false }) inst)
unfolding decode_exec breaks find_row opcode_handlers immediate_cases memory_cases table_cases
opc31_case fp s inst h =
    ap
      (λ (k : ℕ).
        find_row (breaks do_illegal) (opcode_handlers fp) k (record s { branched = false }) inst)
      h

guarded_case :
    (fp : Handler) (s : State) (inst : ℕ)
    → inst_opcd inst ≡ 31
    → nz (inst_rc inst) ≡ true
    → member (inst_xo inst) access_opcodes ≡ true
    → decode_exec fp s inst ≡ exception_fire (record s { branched = false }) exception_program
unfolding exception_fire next_pc
guarded_case fp s inst op rc m =
    opc31_case fp s inst op
    ∙ ap next_pc (opc31_guarded fp (record s { branched = false }) inst rc m)

split_or : (a b : Bool) → a || b ≡ true → (a ≡ true) ⊎ (b ≡ true)
split_or true b h = inl refl
split_or false b h = inr h

split_and : (a b : Bool) → a && b ≡ true → (a ≡ true) × (b ≡ true)
split_and true b h = (refl, h)
split_and false b h = ground arith

invalid_cases :
    (inst : ℕ)
    → is_invalid inst ≡ true
    → (is_undefined (inst_opcd inst) ≡ true)
      ⊎ ((inst_opcd inst ≡ 31)
          × (nz (inst_rc inst) ≡ true)
          × (member (inst_xo inst) access_opcodes ≡ true))
invalid_cases inst h = elim (split_or (is_undefined (inst_opcd inst)) _ h) [
  | inl u ↦ inl u
  | inr g ↦
      let a = split_and _ (member (inst_xo inst) access_opcodes) g in
      let b = split_and (inst_opcd inst == 31) (nz (inst_rc inst)) a.0 in
      inr (ground (arith, b.0), b.1, a.1)
]

-- A word below 2^32 whose primary opcode is 0 to 2, 5, 6, 9, 22, 30, 58 or 62, or one of opcode 31
-- that sets the Rc bit of a load or store with two registers for the address, stwcx. aside, takes
-- the program exception from the state in which no branch is marked, and nothing else happens,
-- whatever the floating-point handlers do.
pub decode_exec-invalid :
    (fp : Handler) (s : State) (inst : ℕ)
    → inst < 2 ^ 32
    → is_invalid inst ≡ true
    → decode_exec fp s inst ≡ exception_fire (record s { branched = false }) exception_program
decode_exec-invalid fp s inst w h = elim (invalid_cases inst h) [
  | inl u ↦ opcode_undefined fp s inst w u
  | inr g ↦ guarded_case fp s inst g.0 g.1 g.2
]
