-- ===== src/Float/Refused.antt =====
-- While MSR[FP] is clear, the floating-point and paired-single instructions touch no floating-point register:
-- `ENFORCE_MSR_FP` of src/instr/floating_point.c and the guards of src/instr/paired_singles.c.
use libppcemu.Prelude.{
  ℕ, ◌≡◌, ◌∙◌, nz-bit_and-pow, refl, arith, bit_and, Bool, true, false, nz, if◌then◌else◌, not32,
  bit, ◌<◌, ◌^◌, ◌+◌,
}
use libppcemu.State.{State}
use libppcemu.Spr.{msr_fp, msr_rsrvd_pf, idx_srr0, idx_srr1}
use libppcemu.Exception.{exception_fire, exception_program, flush_caches, set_le, msr_cleared}
use libppcemu.Exception.Entry.{exception_fire-msr, exception_fire-saved}
use libppcemu.Branch.{no_rc}
use libppcemu.Float.{enforce_msr_fp, enforce_msr_fp_ret, exception_fp_unav}
use libppcemu.Paired.{ps_enforce_cap_idx, ps_enforce_cap_ls, cap_idx_vector, cap_ls_vector}
use libppcemu.Decode.{reserved, reserved_only}
use libppcemu.Decode.FloatUnit.{with_update}

abbrev pub FpOff : State → Type 0
FpOff s = nz (bit_and s.msr msr_fp) ≡ false

-- `t` is the entry of the handler at `idx` for the instruction at the address of `s`.
pub record Enters (s : State) (idx : ℕ) (t : State) : Type 0 where
  pub at_vector : t.pc ≡ (if bit s.msr 6 then 0xfff0_0000 + idx else idx)
  pub at_fault : t.sprs idx_srr0 ≡ s.pc
  pub saved_msr : t.sprs idx_srr1 ≡ bit_and s.msr (not32 msr_rsrvd_pf)
  pub new_msr : t.msr ≡ set_le (bit_and s.msr (not32 msr_cleared))
  pub interrupted : t.branched ≡ true

-- The exceptions of an instruction `run` at `s`: the floating-point-unavailable one; the program one,
-- which it then takes from every state; or the program one with the other on top of it.
pub data Taken (run : State → State) (s : State) : Type 0 where
  unavailable : Enters s 0x800 (run s) → Taken run s
  illegal : ((u : State) → Enters u 0x700 (run u)) → Taken run s
  nested : (u : State) → Enters s 0x700 u → Enters u 0x800 (run s) → Taken run s

-- The floating-point registers and FPSCR stay, and an exception is taken.
pub record IsRefused (run : State → State) (s : State) : Type 0 where
  pub fpr_kept : (run s).fpr ≡ s.fpr
  pub form_kept : (run s).fpr_is_ps ≡ s.fpr_is_ps
  pub fpcsr_kept : (run s).fpcsr ≡ s.fpcsr
  pub taken : Taken run s

-- No exception changes these.
abbrev pub SameFloats : State → State → Type 0
SameFloats s t = (t.fpr ≡ s.fpr) × (t.fpr_is_ps ≡ s.fpr_is_ps) × (t.fpcsr ≡ s.fpcsr)

pub exception_fire-SameFloats : (s : State) (idx : ℕ) → SameFloats s (exception_fire s idx)
unfolding exception_fire flush_caches
exception_fire-SameFloats s idx = (ground arith, ground arith, ground arith)

exception_fire-Enters : (s : State) (idx : ℕ) → idx < 2 ^ 20 → Enters s idx (exception_fire s idx)
unfolding exception_fire flush_caches
exception_fire-Enters s idx h = record {
  at_vector = (exception_fire-saved s idx 0 h (omega arith)).2;
  at_fault = (exception_fire-saved s idx 0 h (omega arith)).0;
  saved_msr = ground arith;
  new_msr = ground arith;
  interrupted = refl;
}

unavailable-IsRefused :
    (run : State → State) (s : State) → run s ≡ exception_fire s exception_fp_unav → IsRefused run s
unavailable-IsRefused run s e =
    let same = exception_fire-SameFloats s exception_fp_unav in
    record {
      fpr_kept = rw e (same.0);
      form_kept = rw e (same.1);
      fpcsr_kept = rw e (same.2);
      taken = unavailable (rw e (exception_fire-Enters s exception_fp_unav (omega arith)));
    }

pub illegal-IsRefused : (s : State) → IsRefused (λ u. exception_fire u exception_program) s
illegal-IsRefused s =
    let same = exception_fire-SameFloats s exception_program in
    record {
      fpr_kept = same.0;
      form_kept = same.1;
      fpcsr_kept = same.2;
      taken = illegal (λ u. exception_fire-Enters u exception_program (omega arith));
    }

-- After an exception MSR[FP] is clear.
exception_fire-FpOff : (s : State) (idx : ℕ) → FpOff (exception_fire s idx)
exception_fire-FpOff s idx =
    nz-bit_and-pow 13 (exception_fire s idx).msr ∙ exception_fire-msr s idx 13 (omega arith)

pub enforce_msr_fp-IsRefused :
    (s : State) (body : State → State) → FpOff s → IsRefused (λ u. enforce_msr_fp u body) s
unfolding enforce_msr_fp
enforce_msr_fp-IsRefused s body off =
    unavailable-IsRefused (λ u. enforce_msr_fp u body) s (rw off refl)

pub enforce_msr_fp_ret-IsRefused :
    (s : State) (body : State → State → ℕ × State)
    → FpOff s
    → IsRefused (λ u. (enforce_msr_fp_ret u (body u)).1) s
unfolding enforce_msr_fp_ret
enforce_msr_fp_ret-IsRefused s body off =
    unavailable-IsRefused (λ u. (enforce_msr_fp_ret u (body u)).1) s (rw off refl)

pub ps_enforce_cap_idx-IsRefused :
    (s : State) (body : State → State) → FpOff s → IsRefused (λ u. ps_enforce_cap_idx u body) s
unfolding ps_enforce_cap_idx cap_idx_vector
ps_enforce_cap_idx-IsRefused s body off =
    unavailable-IsRefused (λ u. ps_enforce_cap_idx u body) s (rw off refl)

pub ps_enforce_cap_ls-IsRefused :
    (s : State) (body : State → ℕ × State)
    → FpOff s
    → IsRefused (λ u. (ps_enforce_cap_ls u body).1) s
unfolding ps_enforce_cap_ls cap_ls_vector
ps_enforce_cap_ls-IsRefused s body off =
    unavailable-IsRefused (λ u. (ps_enforce_cap_ls u body).1) s (rw off refl)

-- The guards of the decoder keep this.
pub reserved-IsRefused :
    (s : State) (bad : Bool) (body : State → State)
    → IsRefused body s
    → IsRefused (λ u. reserved u bad body) s
unfolding reserved
reserved-IsRefused s true body r = illegal-IsRefused s
reserved-IsRefused s false body r = r

pub no_rc-IsRefused :
    (s : State) (inst : ℕ) (body : State → State)
    → IsRefused body s
    → IsRefused (λ u. no_rc u inst body) s
unfolding no_rc
no_rc-IsRefused s inst body r =
    elim (nz (bit_and inst 1))
      as (λ (b : Bool).
        IsRefused (λ u. if b then exception_fire u exception_program else body u) s) [
          | true ↦ illegal-IsRefused s
          | false ↦ r
        ]

-- The guard without its `return`, before an instruction of the floating-point unit.
pub reserved_only-IsRefused :
    (s : State) (bad : Bool) (body : State → State)
    → FpOff s
    → IsRefused (λ u. enforce_msr_fp (reserved_only u bad) body) s
unfolding reserved_only
reserved_only-IsRefused s true body off =
    let t = exception_fire s exception_program in
    let first = exception_fire-SameFloats s exception_program in
    let again = exception_fire-SameFloats t exception_fp_unav in
    let run : enforce_msr_fp t body ≡ exception_fire t exception_fp_unav =
      unfold enforce_msr_fp in rw (exception_fire-FpOff s exception_program) refl in
    record {
      fpr_kept = rw run (again.0 ∙ first.0);
      form_kept = rw run (again.1 ∙ first.1);
      fpcsr_kept = rw run (again.2 ∙ first.2);
      taken =
          nested t (exception_fire-Enters s exception_program (omega arith))
            (rw run (exception_fire-Enters t exception_fp_unav (omega arith)));
    }
reserved_only-IsRefused s false body off = enforce_msr_fp-IsRefused s body off

updated-Enters :
    (s : State) (idx ra : ℕ) (p : ℕ × State) → Enters s idx p.1 → Enters s idx (with_update ra p)
unfolding with_update
updated-Enters s idx ra (ea, t) e = record {
  at_vector = e.at_vector;
  at_fault = e.at_fault;
  saved_msr = e.saved_msr;
  new_msr = e.new_msr;
  interrupted = e.interrupted;
}

updated-Taken :
    (s : State) (ra : ℕ) (run : State → ℕ × State)
    → Taken (λ u. (run u).1) s
    → Taken (λ u. with_update ra (run u)) s
updated-Taken s ra run (unavailable e) =
    unavailable (updated-Enters s exception_fp_unav ra (run s) e)
updated-Taken s ra run (illegal e) =
    illegal (λ u. updated-Enters u exception_program ra (run u) (e u))
updated-Taken s ra run (nested u e f) = nested u e (updated-Enters u exception_fp_unav ra (run s) f)

pub with_update-IsRefused :
    (s : State) (ra : ℕ) (run : State → ℕ × State)
    → IsRefused (λ u. (run u).1) s
    → IsRefused (λ u. with_update ra (run u)) s
unfolding with_update
with_update-IsRefused s ra run r = record {
  fpr_kept = r.fpr_kept;
  form_kept = r.form_kept;
  fpcsr_kept = r.fpcsr_kept;
  taken = updated-Taken s ra run r.taken;
}
