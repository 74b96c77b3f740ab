-- ===== src/Paired/Forms.antt =====
-- Which instructions of src/instr/paired_singles.c set `fpr_is_ps`.
use libppcemu.Prelude.{ℕ, ◌≡◌, ap, arith, Bool, Bool-cases, nz, if◌then◌else◌, inl, inr}
use libppcemu.State.{State}
use libppcemu.Float.{HostFloat, get_ps0, get_double, high_word}
use libppcemu.Float.Refused.{exception_fire-SameFloats}
use libppcemu.Paired.{cap_idx_vector, ps_set_u32, set_lanes, ps_enforce_cap_idx, do_ps_neg}
use libppcemu.Paired.Arith.{
  do_ps_sum0, do_ps_sum1, do_ps_muls0, do_ps_muls1, do_ps_madds0, do_ps_madds1, do_ps_mul,
  do_ps_madd, do_ps_msub, do_ps_sub, do_ps_add, do_ps_nmsub, do_ps_nmadd, do_ps_rsqrte,
}

-- Every register is in the form it was in.
abbrev pub KeepsForms : State → State → Type 0
KeepsForms s t = (fr : ℕ) → t.fpr_is_ps fr ≡ s.fpr_is_ps fr

set_lanes-KeepsForms : (s : State) (frd d0 d1 : ℕ) → KeepsForms s (set_lanes s frd d0 d1)
unfolding set_lanes ps_set_u32
set_lanes-KeepsForms s frd d0 d1 fr = ground arith

guarded-KeepsForms :
    (s : State) (frd : ℕ) (d0 d1 : State → ℕ)
    → KeepsForms s (ps_enforce_cap_idx s (λ t. set_lanes t frd (d0 t) (d1 t)))
unfolding ps_enforce_cap_idx
guarded-KeepsForms s frd d0 d1 fr = elim (Bool-cases (nz (cap_idx_vector s))) [
  | inl bad ↦
      rw bad (ap (λ (f : ℕ → Bool). f fr) (exception_fire-SameFloats s (cap_idx_vector s)).1)
  | inr fine ↦ rw fine (set_lanes-KeepsForms s frd (d0 s) (d1 s) fr)
]

module _ (host : HostFloat) (t : State) (fr : ℕ) where
  read_as :
      (form : Bool)
      → t.fpr_is_ps fr ≡ form
      → get_double host t fr ≡ (if form then host.to_double (high_word (t.fpr fr)) else t.fpr fr)
  unfolding get_double get_ps0
  read_as form e = ground (arith, e)

module _ (host : HostFloat) (s : State) (frd fra frb frc : ℕ) where
  -- The fifteen arithmetic paired-single instructions leave every register in the form, double or
  -- paired-single, that it was in, their target included and whether or not they are allowed; so
  -- after `ps_add` a target that was in double form is read by the double-precision instructions as
  -- one 64-bit pattern, and not as its lane 0.
  pub arithmetic-KeepsForms :
      KeepsForms s (do_ps_neg s frd frb)
      × KeepsForms s (do_ps_add host s frd fra frb)
      × KeepsForms s (do_ps_sub host s frd fra frb)
      × KeepsForms s (do_ps_mul host s frd fra frc)
      × KeepsForms s (do_ps_muls0 host s frd fra frc)
      × KeepsForms s (do_ps_muls1 host s frd fra frc)
      × KeepsForms s (do_ps_sum0 host s frd fra frb frc)
      × KeepsForms s (do_ps_sum1 host s frd fra frb frc)
      × KeepsForms s (do_ps_madds0 host s frd fra frb frc)
      × KeepsForms s (do_ps_madds1 host s frd fra frb frc)
      × KeepsForms s (do_ps_madd host s frd fra frb frc)
      × KeepsForms s (do_ps_msub host s frd fra frb frc)
      × KeepsForms s (do_ps_nmadd host s frd fra frb frc)
      × KeepsForms s (do_ps_nmsub host s frd fra frb frc)
      × KeepsForms s (do_ps_rsqrte host s frd frb)
      × (let t = do_ps_add host s frd fra frb in
          get_double host t frd
          ≡ (if s.fpr_is_ps frd then host.to_double (high_word (t.fpr frd)) else t.fpr frd))
  unfolding do_ps_neg do_ps_add do_ps_sub do_ps_mul do_ps_muls0 do_ps_muls1 do_ps_sum0 do_ps_sum1
      do_ps_madds0 do_ps_madds1 do_ps_madd do_ps_msub do_ps_nmadd do_ps_nmsub do_ps_rsqrte
  arithmetic-KeepsForms =
      let keep = guarded-KeepsForms s frd in
      (
        keep _ _,
        keep _ _,
        keep _ _,
        keep _ _,
        keep _ _,
        keep _ _,
        keep _ _,
        keep _ _,
        keep _ _,
        keep _ _,
        keep _ _,
        keep _ _,
        keep _ _,
        keep _ _,
        keep _ _,
        read_as host (do_ps_add host s frd fra frb) frd _ (keep _ _ frd),
      )
