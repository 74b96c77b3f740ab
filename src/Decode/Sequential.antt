-- ===== src/Decode/Sequential.antt =====
-- The integer instructions of opcode 31 through the dispatch of src/decode.c.
use libppcemu.Prelude.{
  ℕ, ◌+◌, ◌≡◌, ◌∙◌, ◌⊎◌, inl, inr, ap, sym, refl, arith, Bool, true, false, not, nz, ◌&&◌, List, [],
  ◌∷◌, ◌++◌, u32,
}
use libppcemu.State.{State}
use libppcemu.Exception.{exception_fire, exception_program}
use libppcemu.Decode.{Handler, inst_opcd, inst_xo, inst_rb, do_illegal, find_row, next_pc}
use libppcemu.Decode.Integer.{integer_handlers}
use libppcemu.Decode.Memory.{memory_handlers, float_memory_handlers, decode_stwcx}
use libppcemu.Decode.System.{system_handlers}
use libppcemu.Decode.CacheOps.{cache_handlers}
use libppcemu.Decode.Exec.{opc31_handlers, decode_opc31, decode_exec}
use libppcemu.Decode.Guards.{lists, find_row-AllRows, find_row-append}
use libppcemu.Decode.Invalid.{member, find_row-unlisted, opc31_case}
use libppcemu.Decode.Falls.{Falls}
use libppcemu.Decode.Flow.{IsSequential, integer_rows}

-- The extended opcodes of the integer instructions, those with OE set included.
abbrev pub integer_opcodes : List ℕ
integer_opcodes =
    8 ∷ 10 ∷ 11 ∷ 24 ∷ 26 ∷ 28 ∷ 40 ∷ 60 ∷ 75 ∷ 104 ∷ 124 ∷ 136 ∷ 138 ∷ 200 ∷ 202 ∷ 232 ∷ 234 ∷ 235
    ∷ 266 ∷ 284 ∷ 316 ∷ 412 ∷ 444 ∷ 459 ∷ 476 ∷ 491 ∷ 520 ∷ 522 ∷ 523 ∷ 536 ∷ 552 ∷ 616 ∷ 648 ∷ 650
    ∷ 712 ∷ 714 ∷ 744 ∷ 746 ∷ 747 ∷ 778 ∷ 792 ∷ 824 ∷ 922 ∷ 954 ∷ 971 ∷ 1003 ∷ []

unfoldable all_of : List ℕ → (ℕ → Bool) → Bool
all_of [] test = true
all_of (k ∷ rest) test = test k && all_of rest test

all_of_lem :
    (xs : List ℕ) (test : ℕ → Bool) (i : ℕ)
    → all_of xs test ≡ true
    → member i xs ≡ true
    → test i ≡ true
unfolding all_of member
all_of_lem [] test i h m = ground arith
all_of_lem (k ∷ rest) test i h m = ground (arith, all_of_lem rest test i)

-- The rows that the table lists before them.
abbrev others : Handler → List (ℕ × Handler)
others fp = memory_handlers ++ (float_memory_handlers fp ++ (system_handlers ++ cache_handlers))

others_table : (fp : Handler) → all_of integer_opcodes (λ i. not (lists (others fp) i)) ≡ true
unfolding all_of lists memory_handlers float_memory_handlers system_handlers cache_handlers
others_table fp = refl

flip : (b : Bool) → not b ≡ true → b ≡ false
flip true h = sym h
flip false h = refl

integer_row :
    (fp : Handler) (s : State) (inst : ℕ)
    → member (inst_xo inst) integer_opcodes ≡ true
    → decode_opc31 fp s inst
      ≡ find_row
          (find_row do_illegal ((150, decode_stwcx) ∷ []) (inst_xo inst))
          integer_handlers
          (inst_xo inst)
          s
          inst
unfolding decode_opc31 opc31_handlers memory_handlers float_memory_handlers system_handlers
    cache_handlers
integer_row fp s inst m =
    let i = inst_xo inst in
    let last = (150, decode_stwcx) ∷ [] in
    let out = flip (lists (others fp) i) (all_of_lem integer_opcodes _ i (others_table fp) m) in
    ap (λ (h : Handler). h s inst)
      (find_row-append do_illegal (others fp) (integer_handlers ++ last) i
        ∙ find_row-unlisted (find_row do_illegal (integer_handlers ++ last) i) (others fp) i out
        ∙ find_row-append do_illegal integer_handlers last i)

next-Falls :
    (s t : State)
    → Falls (record s { branched = false }) t
    → ((next_pc t).pc ≡ u32 (s.pc + 4)) × ((next_pc t).branched ≡ false) × ((next_pc t).msr ≡ s.msr)
unfolding next_pc
next-Falls s t f = ground (arith, f.pc_kept, f.branched_kept, f.msr_kept)

-- Where execution goes on after an integer instruction: at the next word, or, if its rB field is not
-- zero, in the handler of the program exception.
abbrev pub GoesOn : State → ℕ → State → Type 0
GoesOn s inst t =
    ((t.pc ≡ u32 (s.pc + 4)) × (t.branched ≡ false) × (t.msr ≡ s.msr))
    ⊎ ((nz (inst_rb inst) ≡ true)
        × (t ≡ exception_fire (record s { branched = false }) exception_program))

next-GoesOn :
    (s t : State) (inst : ℕ)
    → let s0 = record s { branched = false } in
      Falls s0 t ⊎ ((nz (inst_rb inst) ≡ true) × (t ≡ exception_fire s0 exception_program))
      → GoesOn s inst (next_pc t)
unfolding next_pc exception_fire
next-GoesOn s t inst (inl f) = inl (next-Falls s t f)
next-GoesOn s t inst (inr e) = inr (e.0, ap next_pc e.1)

-- Each word of primary opcode 31 whose extended opcode is that of an integer instruction (adds,
-- subtractions, products, quotients, logic, shifts and sign extensions, also with OE) ends at the
-- next word, at PC + 4 modulo 2^32, with no branch marked and MSR as before, whatever its fields,
-- or, only if its rB field is not zero, exactly in the program exception.
pub decode_exec-GoesOn :
    (fp : Handler) (s : State) (inst : ℕ)
    → inst_opcd inst ≡ 31
    → member (inst_xo inst) integer_opcodes ≡ true
    → GoesOn s inst (decode_exec fp s inst)
unfolding member lists integer_handlers
decode_exec-GoesOn fp s inst op m =
    let s0 = record s { branched = false } in
    let i = inst_xo inst in
    let default = find_row do_illegal ((150, decode_stwcx) ∷ []) i in
    let ends = find_row-AllRows IsSequential default integer_handlers i integer_rows m s0 inst in
    rw (opc31_case fp s inst op ∙ ap next_pc (integer_row fp s0 inst m))
      (next-GoesOn s (find_row default integer_handlers i s0 inst) inst ends)
