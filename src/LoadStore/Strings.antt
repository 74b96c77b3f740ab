-- ===== src/LoadStore/Strings.antt =====
-- Which registers a string load fills: `do_lswi` of src/instr/loadstore.c.
use libppcemu.Prelude.{
  ℕ, zero, suc, ◌+◌, ◌-◌, ◌/◌, ◌%◌, ◌<◌, ◌≤◌, ◌≡◌, true, false, not, ◌||◌, ◌==◌, refl, arith,
  bit_or, bit_and_mask, u8, u32, shl32, sub32,
}
use libppcemu.State.{State, set_gpr, set_spr}
use libppcemu.Spr.{idx_dsisr, idx_dar}
use libppcemu.Exception.{exception_align, exception_program}
use libppcemu.Exception.Entry.{exception_fire-gpr}
use libppcemu.Mmu.Fast.{basic_load}
use libppcemu.Mmu.Faults.{basic_load-Ended, Ended-gpr}
use libppcemu.LoadStore.{no_bytes, base_of_ea}
use libppcemu.LoadStore.Multiple.{
  string_reg, next_shift, string_length, clear_reg, lswi_loop, do_lswi, string_align_exception,
  align_exception,
}

-- Bytes that still go to register `r` where the next one is shifted left by `24 - i`.
abbrev bytes_left : ℕ → ℕ
bytes_left i = (32 - i) / 8 % 4

-- Registers past `r` that `n` more bytes fill.
abbrev regs_left : ℕ → ℕ → ℕ
regs_left n i = (n + 3 - bytes_left i) / 4

-- Register `ra` is not among those that the loop fills.
abbrev IsSpared : ℕ → ℕ → ℕ → ℕ → Type 0
IsSpared ra n r i =
    (i % 8 ≡ 0)
    × (i < 32)
    × ((i == 0 || not (ra == r)) ≡ true)
    × (regs_left n i ≤ (ra + 32 - u32 (r + 1) % 32) % 32)

round_spares :
    (ra n r i : ℕ)
    → ra < 32
    → IsSpared ra (suc n) r i
    → IsSpared ra n (string_reg r i) (next_shift i) × ((ra == string_reg r i) ≡ false)
unfolding string_reg next_shift
round_spares ra n r i h sp = ground arith

lswi_loop-spares :
    (n : ℕ) (s : State) (ea r i ra : ℕ)
    → ra < 32
    → IsSpared ra n r i
    → (lswi_loop n s ea r i).gpr ra ≡ s.gpr ra
unfolding lswi_loop
lswi_loop-spares zero s ea r i ra h sp = refl
lswi_loop-spares (suc n) s ea r i ra h sp =
    let r' = string_reg r i in
    let s0 = clear_reg s r' i in
    let (err, (raw, s1)) = basic_load s0 1 ea no_bytes in
    let s2 = set_gpr s1 r' (bit_or (s1.gpr r') (shl32 (u8 (raw 0)) (24 - i))) in
    let (sp', other) = round_spares ra n r i h sp in
    let cleared : s0.gpr ra ≡ s.gpr ra = unfold clear_reg in ground (arith, other) in
    let kept = Ended-gpr (basic_load-Ended s0 1 ea no_bytes) ra in
    ground
      (arith, other, cleared, kept, lswi_loop-spares n s2 (u32 (ea + 1)) r' (next_shift i) ra h sp')

align_exception-gpr : (s : State) (dsisr ea i : ℕ) → (align_exception s dsisr ea).gpr i ≡ s.gpr i
unfolding align_exception
align_exception-gpr s dsisr ea i =
    exception_fire-gpr (set_spr (set_spr s idx_dsisr dsisr) idx_dar ea) exception_align i
      (omega arith)

string_align_exception-gpr :
    (s : State) (xo rd ra ea i : ℕ) → (string_align_exception s xo rd ra ea).gpr i ≡ s.gpr i
unfolding string_align_exception
string_align_exception-gpr s xo rd ra ea i = align_exception-gpr s _ ea i

spares_start :
    (rd ra nb : ℕ)
    → rd < 32
    → ra < 32
    → nb < 32
    → (string_length nb + 3) / 4 ≤ sub32 ra rd % 32
    → IsSpared ra (string_length nb) (sub32 rd 1) 0
unfolding string_length
spares_start rd ra nb hd ha hn h = ground arith

-- A string load never changes its base register: for registers below 32 and a length field below
-- 32, `lswi` leaves `rA` alone, r0 too where it stands for no register, however far the string
-- wraps past r31, whether the load ends, faults midway, or is refused.
pub do_lswi-spares :
    (s : State) (rd ra nb : ℕ)
    → rd < 32
    → ra < 32
    → nb < 32
    → (do_lswi s rd ra nb).gpr ra ≡ s.gpr ra
unfolding do_lswi
do_lswi-spares s rd ra nb hd ha hn =
    let n = string_length nb in
    let ea = base_of_ea s ra in
    ground (
      arith,
      exception_fire-gpr s exception_program ra (omega arith),
      string_align_exception-gpr s 597 rd ra ea ra,
      bit_and_mask 5 (sub32 ra rd),
      spares_start rd ra nb hd ha hn,
      lswi_loop-spares n s ea (sub32 rd 1) 0 ra ha,
    )
