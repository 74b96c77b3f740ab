-- ===== src/Decode/FpGuards.antt =====
-- The rows of opcodes 59 and 63 of src/decode.c while MSR[FP] is clear.
use libppcemu.Prelude.{ℕ, Bool, ◌==◌, true, false, if◌then◌else◌, List, [], ◌∷◌}
use libppcemu.State.{State}
use libppcemu.Float.{HostFloat}
use libppcemu.Decode.{Handler, do_illegal, find_row}
use libppcemu.Decode.Guards.{AllRows}
use libppcemu.Float.Refused.{
  FpOff, IsRefused, illegal-IsRefused, enforce_msr_fp-IsRefused, reserved-IsRefused,
  reserved_only-IsRefused,
}
use libppcemu.Float.Arith.{
  do_fmul_common, do_fadd_common, do_fmadd_common, do_fmsub_common, do_fdiv_common, do_fsub_common,
  do_fnmsub_common, do_fnmadd_common, do_frsqrte, do_fres,
}
use libppcemu.Float.Move.{
  do_fmr, do_mtfsf, do_mtfsfi, do_mtfsb_n, do_fneg, do_fabs, do_mffs, do_fctiwz, do_frsp, do_fcmpu,
}
use libppcemu.Decode.Float.{
  opc59_handlers, opc63_handlers, decode_fabs, decode_fadd, decode_fadds, decode_fcmpu,
  decode_fctiwz, decode_fdiv, decode_fdivs, decode_fmadd, decode_fmadds, decode_fmr, decode_fmsub,
  decode_fmsubs, decode_fmul, decode_fmuls, decode_fneg, decode_fnmadd, decode_fnmadds,
  decode_fnmsub, decode_fnmsubs, decode_fres, decode_frsp, decode_frsqrte, decode_fsub,
  decode_fsubs, decode_mffs, decode_mtfsb0, decode_mtfsb1, decode_mtfsf, decode_mtfsfi,
}

-- A handler that touches no floating-point register while MSR[FP] is clear.
abbrev pub IsGuardedByFp : Handler → Type 0
IsGuardedByFp h = (s : State) (inst : ℕ) → FpOff s → IsRefused (λ u. h u inst) s

pub do_illegal-IsGuardedByFp : IsGuardedByFp do_illegal
unfolding do_illegal
do_illegal-IsGuardedByFp s inst off = illegal-IsRefused s

-- What all rows and the default have, each row found has.
pub find_row-guarded :
    (P : Handler → Type 0) (d : Handler) (rows : List (ℕ × Handler)) (i : ℕ)
    → P d
    → AllRows P rows
    → P (find_row d rows i)
unfolding find_row AllRows
find_row-guarded P d [] i base all = base
find_row-guarded P d ((k, g) ∷ rest) i base (p, all) =
    elim (i == k) as (λ (b : Bool). P (if b then g else find_row d rest i)) [
      | true ↦ p
      | false ↦ find_row-guarded P d rest i base all
    ]

pub opc63_rows : (host : HostFloat) → AllRows IsGuardedByFp (opc63_handlers host)
unfolding AllRows opc63_handlers decode_fcmpu decode_frsp decode_fctiwz decode_fdiv decode_fsub
    decode_fadd decode_fmul decode_frsqrte decode_fmsub decode_fmadd decode_fnmsub decode_fnmadd
    decode_mtfsb1 decode_fneg decode_mtfsb0 decode_fmr decode_mtfsfi decode_fabs decode_mffs
    decode_mtfsf do_fabs do_fadd_common do_fcmpu do_fctiwz do_fdiv_common do_fmadd_common do_fmr
    do_fmsub_common do_fmul_common do_fneg do_fnmadd_common do_fnmsub_common do_frsp do_frsqrte
    do_fsub_common do_mffs do_mtfsb_n do_mtfsf do_mtfsfi
opc63_rows host = (
  λ s inst off. reserved-IsRefused s _ _ (enforce_msr_fp-IsRefused s _ off),
  (
    λ s inst off. reserved-IsRefused s _ _ (enforce_msr_fp-IsRefused s _ off),
    (
      λ s inst off. reserved-IsRefused s _ _ (enforce_msr_fp-IsRefused s _ off),
      (
        λ s inst off. reserved-IsRefused s _ _ (enforce_msr_fp-IsRefused s _ off),
        (
          λ s inst off. reserved-IsRefused s _ _ (enforce_msr_fp-IsRefused s _ off),
          (
            λ s inst off. reserved-IsRefused s _ _ (enforce_msr_fp-IsRefused s _ off),
            (
              λ s inst off. reserved-IsRefused s _ _ (enforce_msr_fp-IsRefused s _ off),
              (
                λ s inst off. enforce_msr_fp-IsRefused s _ off,
                (
                  λ s inst off. enforce_msr_fp-IsRefused s _ off,
                  (
                    λ s inst off. enforce_msr_fp-IsRefused s _ off,
                    (
                      λ s inst off. enforce_msr_fp-IsRefused s _ off,
                      (
                        λ s inst off. enforce_msr_fp-IsRefused s _ off,
                        (
                          λ s inst off. reserved-IsRefused s _ _ (enforce_msr_fp-IsRefused s _ off),
                          (
                            λ s inst off. enforce_msr_fp-IsRefused s _ off,
                            (
                              λ s inst off.
                                  reserved-IsRefused s _ _ (enforce_msr_fp-IsRefused s _ off),
                              (
                                λ s inst off.
                                    reserved-IsRefused s _ _ (enforce_msr_fp-IsRefused s _ off),
                                (
                                  λ s inst off.
                                      reserved-IsRefused s _ _ (enforce_msr_fp-IsRefused s _ off),
                                  (
                                    λ s inst off. enforce_msr_fp-IsRefused s _ off,
                                    (
                                      λ s inst off. reserved_only-IsRefused s _ _ off,
                                      (
                                        λ s inst off.
                                            reserved-IsRefused s _ _
                                              (enforce_msr_fp-IsRefused s _ off),
                                        tt,
                                      ),
                                    ),
                                  ),
                                ),
                              ),
                            ),
                          ),
                        ),
                      ),
                    ),
                  ),
                ),
              ),
            ),
          ),
        ),
      ),
    ),
  ),
)

pub opc59_rows : (host : HostFloat) → AllRows IsGuardedByFp (opc59_handlers host)
unfolding AllRows opc59_handlers decode_fdivs decode_fsubs decode_fadds decode_fres decode_fmuls
    decode_fmsubs decode_fmadds decode_fnmsubs decode_fnmadds do_fadd_common do_fdiv_common
    do_fmadd_common do_fmsub_common do_fmul_common do_fnmadd_common do_fnmsub_common do_fres
    do_fsub_common
opc59_rows host = (
  λ s inst off. reserved-IsRefused s _ _ (enforce_msr_fp-IsRefused s _ off),
  (
    λ s inst off. reserved-IsRefused s _ _ (enforce_msr_fp-IsRefused s _ off),
    (
      λ s inst off. reserved-IsRefused s _ _ (enforce_msr_fp-IsRefused s _ off),
      (
        λ s inst off. reserved_only-IsRefused s _ _ off,
        (
          λ s inst off. reserved-IsRefused s _ _ (enforce_msr_fp-IsRefused s _ off),
          (
            λ s inst off. enforce_msr_fp-IsRefused s _ off,
            (
              λ s inst off. enforce_msr_fp-IsRefused s _ off,
              (
                λ s inst off. enforce_msr_fp-IsRefused s _ off,
                (λ s inst off. enforce_msr_fp-IsRefused s _ off, tt),
              ),
            ),
          ),
        ),
      ),
    ),
  ),
)
