-- ===== src/Paired/Lanes.antt =====
-- Moves of lanes: src/instr/paired_singles.c.
use libppcemu.Prelude.{
  ℕ, ◌+◌, ◌*◌, ◌/◌, ◌%◌, ◌^◌, ◌<◌, ◌≡◌, arith, bit_and_high, bit_or_below, ◌==◌, if◌then◌else◌, u32,
}
use libppcemu.State.{State}
use libppcemu.Float.{high_word, words64}
use libppcemu.Float.Move.{upper_half}
use libppcemu.Paired.{
  ps_get_u32, ps_set_u32, set_lanes, mark_ps, cap_idx_vector, ps_enforce_cap_idx, do_ps_merge00,
  do_ps_merge01, do_ps_merge10, do_ps_merge11,
}

-- The upper half that a move to lane 1 keeps.
upper-words64 : (hi lo : ℕ) → hi < 2 ^ 32 → lo < 2 ^ 32 → upper_half (words64 hi lo) ≡ hi * 2 ^ 32
upper-words64 hi lo h l =
    ground (arith, bit_or_below 32 hi lo l, bit_and_high 32 32 (hi * 2 ^ 32 + lo) (omega arith))

-- The pattern of the two lanes, and no other register.
pub set_lanes-fpr :
    (s : State) (fr i d0 d1 : ℕ)
    → d0 < 2 ^ 32
    → d1 < 2 ^ 32
    → (set_lanes s fr d0 d1).fpr i ≡ (if i == fr then d0 * 2 ^ 32 + d1 else s.fpr i)
unfolding set_lanes ps_set_u32
set_lanes-fpr s fr i d0 d1 h l =
    ground (arith, upper-words64 d0 (u32 (s.fpr fr)) h (omega arith), bit_or_below 32 d0 d1 l)

marked-fpr :
    (s : State) (fr i d0 d1 : ℕ)
    → d0 < 2 ^ 32
    → d1 < 2 ^ 32
    → (mark_ps (set_lanes s fr d0 d1) fr).fpr i ≡ (if i == fr then d0 * 2 ^ 32 + d1 else s.fpr i)
unfolding mark_ps
marked-fpr s fr i d0 d1 h l =
    ground (arith, set_lanes-fpr s fr i d0 d1 h l, set_lanes-fpr s fr fr d0 d1 h l)

-- With paired singles enabled, the four merges leave in frD the upper or lower lane of frA as the
-- upper lane and the upper or lower lane of frB as the lower one, as their names say, and the
-- pattern of every other register alone, also where frD is one of the sources.
merges :
    (s : State) (frd fra frb i : ℕ)
    → cap_idx_vector s ≡ 0
    → let lanes = λ (a b : ℕ). if i == frd then a * 2 ^ 32 + b else s.fpr i in
      let hi = λ (fr : ℕ). s.fpr fr / 2 ^ 32 % 2 ^ 32 in
      let lo = λ (fr : ℕ). s.fpr fr % 2 ^ 32 in
      ((do_ps_merge00 s frd fra frb).fpr i ≡ lanes (hi fra) (hi frb))
      × ((do_ps_merge01 s frd fra frb).fpr i ≡ lanes (hi fra) (lo frb))
      × ((do_ps_merge10 s frd fra frb).fpr i ≡ lanes (lo fra) (hi frb))
      × ((do_ps_merge11 s frd fra frb).fpr i ≡ lanes (lo fra) (lo frb))
unfolding do_ps_merge00 do_ps_merge01 do_ps_merge10 do_ps_merge11 ps_enforce_cap_idx mark_ps
    ps_get_u32
merges s frd fra frb i cap =
    let run = λ (x y : ℕ) (h : x < 2 ^ 32) (l : y < 2 ^ 32). marked-fpr s frd i x y h l in
    (
      rw cap (run (high_word (s.fpr fra)) (high_word (s.fpr frb)) (omega arith) (omega arith)),
      rw cap (run (high_word (s.fpr fra)) (u32 (s.fpr frb)) (omega arith) (omega arith)),
      rw cap (run (u32 (s.fpr fra)) (high_word (s.fpr frb)) (omega arith) (omega arith)),
      rw cap (run (u32 (s.fpr fra)) (u32 (s.fpr frb)) (omega arith) (omega arith)),
    )
