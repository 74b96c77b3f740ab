-- ===== src/Decode/FpOff.antt =====
-- All floating-point and paired-single instructions of src/decode.c while MSR[FP] is clear.
use libppcemu.Prelude.{ℕ, ◌%◌, List, [], ◌∷◌}
use libppcemu.State.{State}
use libppcemu.Float.{HostFloat}
use libppcemu.Decode.{Handler, inst_xo, inst_opcd, do_illegal}
use libppcemu.Decode.Guards.{AllRows}
use libppcemu.Float.Refused.{
  FpOff, IsRefused, enforce_msr_fp_ret-IsRefused, ps_enforce_cap_idx-IsRefused,
  ps_enforce_cap_ls-IsRefused, reserved-IsRefused, no_rc-IsRefused, with_update-IsRefused,
}
use libppcemu.Decode.FpGuards.{
  IsGuardedByFp, do_illegal-IsGuardedByFp, find_row-guarded, opc59_rows, opc63_rows,
}
use libppcemu.Float.Memory.{do_lf_common, do_stf_common}
use libppcemu.Paired.{
  do_ps_mr, do_ps_merge00, do_ps_merge01, do_ps_merge10, do_ps_merge11, do_ps_neg, do_ps_cmpo0,
}
use libppcemu.Paired.Arith.{
  do_ps_sum0, do_ps_sum1, do_ps_muls0, do_ps_muls1, do_ps_madds0, do_ps_madds1, do_ps_mul,
  do_ps_madd, do_ps_msub, do_ps_sub, do_ps_add, do_ps_nmsub, do_ps_nmadd, do_ps_rsqrte,
}
use libppcemu.Paired.Memory.{do_psq_l, do_psq_st}
use libppcemu.Decode.Float.{inst_a_xo, decode_opc59, decode_opc63, opc59_handlers, opc63_handlers}
use libppcemu.Decode.Paired.{
  exact_rows, six_digit_rows, five_digit_rows, opc4_row, decode_opc4_ps, decode_ps_add,
  decode_ps_cmpo0, decode_ps_madd, decode_ps_madds0, decode_ps_madds1, decode_ps_merge00,
  decode_ps_merge01, decode_ps_merge10, decode_ps_merge11, decode_ps_mr, decode_ps_msub,
  decode_ps_mul, decode_ps_muls0, decode_ps_muls1, decode_ps_neg, decode_ps_nmadd, decode_ps_nmsub,
  decode_ps_rsqrte, decode_ps_sub, decode_ps_sum0, decode_ps_sum1,
}
use libppcemu.Decode.FloatUnit.{
  exec_opc31, float_cases, float_exec, decode_lfd, decode_lfdu, decode_lfs, decode_lfsu,
  decode_psq_l, decode_psq_lu, decode_psq_st, decode_psq_stu, decode_stfd, decode_stfdu,
  decode_stfs, decode_stfsu, exec_lfdux, exec_lfdx, exec_lfsux, exec_lfsx, exec_stfdux, exec_stfdx,
  exec_stfiwx, exec_stfsux, exec_stfsx,
}

exact_guards : AllRows IsGuardedByFp (exact_rows)
unfolding AllRows exact_rows decode_ps_mr decode_ps_merge00 decode_ps_merge01 decode_ps_merge10
    decode_ps_merge11 do_ps_merge00 do_ps_merge01 do_ps_merge10 do_ps_merge11 do_ps_mr
exact_guards = (
  λ s inst off. reserved-IsRefused s _ _ (ps_enforce_cap_idx-IsRefused s _ off),
  (
    λ s inst off. ps_enforce_cap_idx-IsRefused s _ off,
    (
      λ s inst off. ps_enforce_cap_idx-IsRefused s _ off,
      (
        λ s inst off. ps_enforce_cap_idx-IsRefused s _ off,
        (λ s inst off. ps_enforce_cap_idx-IsRefused s _ off, tt),
      ),
    ),
  ),
)

six_digit_guards : (host : HostFloat) → AllRows IsGuardedByFp (six_digit_rows host)
unfolding AllRows six_digit_rows decode_ps_cmpo0 decode_ps_neg do_ps_cmpo0 do_ps_neg
six_digit_guards host = (
  λ s inst off.
      reserved-IsRefused s _ _ (no_rc-IsRefused s _ _ (ps_enforce_cap_idx-IsRefused s _ off)),
  (λ s inst off. reserved-IsRefused s _ _ (ps_enforce_cap_idx-IsRefused s _ off), tt),
)

five_digit_guards : (host : HostFloat) → AllRows IsGuardedByFp (five_digit_rows host)
unfolding AllRows five_digit_rows decode_ps_sum0 decode_ps_sum1 decode_ps_muls0 decode_ps_muls1
    decode_ps_madds0 decode_ps_madds1 decode_ps_sub decode_ps_add decode_ps_mul decode_ps_rsqrte
    decode_ps_msub decode_ps_madd decode_ps_nmsub decode_ps_nmadd do_ps_add do_ps_madd do_ps_madds0
    do_ps_madds1 do_ps_msub do_ps_mul do_ps_muls0 do_ps_muls1 do_ps_nmadd do_ps_nmsub do_ps_rsqrte
    do_ps_sub do_ps_sum0 do_ps_sum1
five_digit_guards host = (
  λ s inst off. ps_enforce_cap_idx-IsRefused s _ off,
  (
    λ s inst off. ps_enforce_cap_idx-IsRefused s _ off,
    (
      λ s inst off. reserved-IsRefused s _ _ (ps_enforce_cap_idx-IsRefused s _ off),
      (
        λ s inst off. reserved-IsRefused s _ _ (ps_enforce_cap_idx-IsRefused s _ off),
        (
          λ s inst off. ps_enforce_cap_idx-IsRefused s _ off,
          (
            λ s inst off. ps_enforce_cap_idx-IsRefused s _ off,
            (
              λ s inst off. reserved-IsRefused s _ _ (ps_enforce_cap_idx-IsRefused s _ off),
              (
                λ s inst off. reserved-IsRefused s _ _ (ps_enforce_cap_idx-IsRefused s _ off),
                (
                  λ s inst off. reserved-IsRefused s _ _ (ps_enforce_cap_idx-IsRefused s _ off),
                  (
                    λ s inst off. reserved-IsRefused s _ _ (ps_enforce_cap_idx-IsRefused s _ off),
                    (
                      λ s inst off. ps_enforce_cap_idx-IsRefused s _ off,
                      (
                        λ s inst off. ps_enforce_cap_idx-IsRefused s _ off,
                        (
                          λ s inst off. ps_enforce_cap_idx-IsRefused s _ off,
                          (λ s inst off. ps_enforce_cap_idx-IsRefused s _ off, tt),
                        ),
                      ),
                    ),
                  ),
                ),
              ),
            ),
          ),
        ),
      ),
    ),
  ),
)

-- The cases of the switch, and the rows of opcode 31.
unfoldable access_rows : HostFloat → List (ℕ × Handler)
access_rows host =
    (535, exec_lfsx host)
    ∷ (567, exec_lfsux host)
    ∷ (599, exec_lfdx host)
    ∷ (631, exec_lfdux host)
    ∷ (663, exec_stfsx host)
    ∷ (695, exec_stfsux host)
    ∷ (727, exec_stfdx host)
    ∷ (759, exec_stfdux host)
    ∷ (983, exec_stfiwx host)
    ∷ []

access_guards : (host : HostFloat) → AllRows IsGuardedByFp (access_rows host)
unfolding AllRows access_rows exec_lfsx exec_lfsux exec_lfdx exec_lfdux exec_stfsx exec_stfsux
    exec_stfdx exec_stfdux exec_stfiwx do_lf_common do_stf_common
access_guards host = (
  λ s inst off. enforce_msr_fp_ret-IsRefused s _ off,
  (
    λ s inst off. with_update-IsRefused s _ _ (enforce_msr_fp_ret-IsRefused s _ off),
    (
      λ s inst off. enforce_msr_fp_ret-IsRefused s _ off,
      (
        λ s inst off. with_update-IsRefused s _ _ (enforce_msr_fp_ret-IsRefused s _ off),
        (
          λ s inst off. enforce_msr_fp_ret-IsRefused s _ off,
          (
            λ s inst off. with_update-IsRefused s _ _ (enforce_msr_fp_ret-IsRefused s _ off),
            (
              λ s inst off. enforce_msr_fp_ret-IsRefused s _ off,
              (
                λ s inst off. with_update-IsRefused s _ _ (enforce_msr_fp_ret-IsRefused s _ off),
                (λ s inst off. enforce_msr_fp_ret-IsRefused s _ off, tt),
              ),
            ),
          ),
        ),
      ),
    ),
  ),
)

opc31_guard : (host : HostFloat) → IsGuardedByFp (exec_opc31 host)
unfolding exec_opc31 access_rows
opc31_guard host s inst =
    find_row-guarded IsGuardedByFp do_illegal (access_rows host) (inst_xo inst)
      do_illegal-IsGuardedByFp (access_guards host) s inst

opc59_guard : (host : HostFloat) → IsGuardedByFp (decode_opc59 host)
unfolding decode_opc59
opc59_guard host s inst =
    find_row-guarded IsGuardedByFp do_illegal (opc59_handlers host) (inst_a_xo inst)
      do_illegal-IsGuardedByFp (opc59_rows host) s inst

opc63_guard : (host : HostFloat) → IsGuardedByFp (decode_opc63 host)
unfolding decode_opc63
opc63_guard host s inst =
    let all =
      find_row-guarded IsGuardedByFp do_illegal (opc63_handlers host) (inst_xo inst)
        do_illegal-IsGuardedByFp (opc63_rows host) in
    find_row-guarded IsGuardedByFp _ (opc63_handlers host) (inst_a_xo inst) all (opc63_rows host) s
      inst

opc4_guard : (host : HostFloat) → IsGuardedByFp (decode_opc4_ps host)
unfolding decode_opc4_ps opc4_row
opc4_guard host s inst =
    let i = inst_xo inst in
    let five =
      find_row-guarded IsGuardedByFp do_illegal (five_digit_rows host) (i % 32)
        do_illegal-IsGuardedByFp (five_digit_guards host) in
    let six =
      find_row-guarded IsGuardedByFp _ (six_digit_rows host) (i % 64) five
        (six_digit_guards host) in
    find_row-guarded IsGuardedByFp _ exact_rows i six exact_guards s inst

case_guards : (host : HostFloat) → AllRows IsGuardedByFp (float_cases host)
unfolding AllRows float_cases decode_lfs decode_lfsu decode_lfd decode_lfdu decode_stfs decode_stfsu
    decode_stfd decode_stfdu decode_psq_l decode_psq_lu decode_psq_st decode_psq_stu do_lf_common
    do_psq_l do_psq_st do_stf_common
case_guards host = (
  opc4_guard host,
  (
    opc31_guard host,
    (
      λ s inst off. enforce_msr_fp_ret-IsRefused s _ off,
      (
        λ s inst off. with_update-IsRefused s _ _ (enforce_msr_fp_ret-IsRefused s _ off),
        (
          λ s inst off. enforce_msr_fp_ret-IsRefused s _ off,
          (
            λ s inst off. with_update-IsRefused s _ _ (enforce_msr_fp_ret-IsRefused s _ off),
            (
              λ s inst off. enforce_msr_fp_ret-IsRefused s _ off,
              (
                λ s inst off. with_update-IsRefused s _ _ (enforce_msr_fp_ret-IsRefused s _ off),
                (
                  λ s inst off. enforce_msr_fp_ret-IsRefused s _ off,
                  (
                    λ s inst off.
                        with_update-IsRefused s _ _ (enforce_msr_fp_ret-IsRefused s _ off),
                    (
                      λ s inst off. ps_enforce_cap_ls-IsRefused s _ off,
                      (
                        λ s inst off.
                            with_update-IsRefused s _ _ (ps_enforce_cap_ls-IsRefused s _ off),
                        (
                          λ s inst off. ps_enforce_cap_ls-IsRefused s _ off,
                          (
                            λ s inst off.
                                with_update-IsRefused s _ _ (ps_enforce_cap_ls-IsRefused s _ off),
                            (opc59_guard host, (opc63_guard host, tt)),
                          ),
                        ),
                      ),
                    ),
                  ),
                ),
              ),
            ),
          ),
        ),
      ),
    ),
  ),
)

-- While MSR[FP] is clear, each instruction word given to the floating-point and paired-single
-- handlers keeps all floating-point registers, their forms and FPSCR as they were and takes an
-- exception: the floating-point-unavailable one; or the program exception, for a word that takes it
-- from every state; or, where a check of reserved fields does not return, the program exception
-- with the floating-point-unavailable one on top of it. An exception goes to its vector, with the
-- address of the instruction in SRR0, MSR without its reserved bits in SRR1, and the MSR of a
-- handler.
pub float_exec-IsRefused :
    (host : HostFloat) (s : State) (inst : ℕ) → FpOff s → IsRefused (λ u. float_exec host u inst) s
unfolding float_exec
float_exec-IsRefused host s inst =
    find_row-guarded IsGuardedByFp do_illegal (float_cases host) (inst_opcd inst)
      do_illegal-IsGuardedByFp (case_guards host) s inst
