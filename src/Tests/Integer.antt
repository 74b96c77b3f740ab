-- ===== src/Tests/Integer.antt =====
-- The integer instructions: register 4 holds -1, register 5 holds 7, and XER[CA] is set.
use libppcemu.Prelude.{true, false, none, some, arith, bit, ◌+ℤ◌, ◌-ℤ◌, ◌*ℤ◌}
use libppcemu.Arith.{
  do_add, do_addc, do_adde, do_addze, do_addme, do_subf, do_neg, do_subfc, do_subfe, do_subfme,
  do_subfze,
}
use libppcemu.Arith.Effect.{Effect}
use libppcemu.Arith.Sums.{additions, subtractions}
use libppcemu.MulDiv.{do_divw, do_divwu, do_mullw, do_mulhw, do_mulhwu}
use libppcemu.MulDiv.Laws.{products_quotients}
use libppcemu.Bitwise.{do_rlwinm, do_rlwnm, do_rlwimi}
use libppcemu.Bitwise.Rotate.{Rotated, rotate_bits}
use libppcemu.Tests.Data.{test_state, test_state-HasWords}

additions_example :
    Effect test_state (do_add test_state 3 4 5 1 1) 3 1 1 0x6 none false 3 29
    × Effect test_state (do_addc test_state 3 4 5 1 1) 3 1 1 0x6 (some true) false 3 29
    × Effect test_state (do_adde test_state 3 4 5 1 1) 3 1 1 0x7 (some true) false 3 29
    × Effect test_state (do_addze test_state 3 4 1 1) 3 1 1 0x0 (some true) false 3 29
    × Effect test_state (do_addme test_state 3 4 1 1) 3 1 1 0xffffffff (some true) false 3 29
unfolding bit ◌+ℤ◌ ◌-ℤ◌ ◌*ℤ◌
additions_example = additions test_state test_state-HasWords 3 4 5 1 1 3 29 (omega arith)

subtractions_example :
    Effect test_state (do_subf test_state 3 4 5 1 1) 3 1 1 0x8 none false 3 29
    × Effect test_state (do_neg test_state 3 4 1 1) 3 1 1 0x1 none false 3 29
    × Effect test_state (do_subfc test_state 3 4 5 1 1) 3 1 1 0x8 (some false) false 3 29
    × Effect test_state (do_subfe test_state 3 4 5 1 1) 3 1 1 0x8 (some false) false 3 29
    × Effect test_state (do_subfze test_state 3 4 1 1) 3 1 1 0x1 (some false) false 3 29
    × Effect test_state (do_subfme test_state 3 4 1 1) 3 1 1 0x0 (some true) false 3 29
unfolding bit ◌+ℤ◌ ◌-ℤ◌ ◌*ℤ◌
subtractions_example = subtractions test_state test_state-HasWords 3 4 5 1 1 3 29 (omega arith)

products_quotients_example :
    Effect test_state (do_mullw test_state 3 5 4 1 1) 3 1 1 0xffff_fff9 none false 3 29
    × Effect test_state (do_mulhw test_state 3 5 4 1) 3 0 1 0xffff_ffff none false 3 29
    × Effect test_state (do_mulhwu test_state 3 5 4 1) 3 0 1 6 none false 3 29
    × Effect test_state (do_divw test_state 3 5 4 1 1) 3 1 1 0xffff_fff9 none false 3 29
    × Effect test_state (do_divwu test_state 3 5 4 1 1) 3 1 1 0 none false 3 29
unfolding bit ◌+ℤ◌ ◌-ℤ◌ ◌*ℤ◌
products_quotients_example =
    products_quotients test_state test_state-HasWords 3 5 4 1 1 3 29 (omega arith)

-- The record forms, with r4 at 0xffff_ffff and r5 at 7
rotate_example :
    Rotated test_state (do_rlwinm test_state 5 3 4 24 31 1) 3 1 true 3 4
    × Rotated test_state (do_rlwnm test_state 5 3 5 24 31 1) 3 1 false 3 4
    × Rotated test_state (do_rlwimi test_state 5 3 4 24 31 1) 3 1 true 3 4
unfolding bit
rotate_example =
    rotate_bits test_state test_state-HasWords 5 3 5 4 24 31 1 3 4 (omega arith) (omega arith)
      (omega arith)
