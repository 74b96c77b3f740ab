-- ===== src/Decode/Flow.antt =====
-- Where execution goes on after an integer instruction of opcode 31: src/decode.c.
use libppcemu.Prelude.{ℕ, ◌≡◌, ◌⊎◌, inl, inr, refl, Bool, true, false, nz, if◌then◌else◌}
use libppcemu.State.{State}
use libppcemu.Exception.{exception_fire, exception_program}
use libppcemu.Decode.{Handler, reserved, inst_rb}
use libppcemu.Decode.Integer.{
  integer_handlers, decode_add, decode_addc, decode_adde, decode_addme, decode_addze, decode_and,
  decode_andc, decode_cntlzw, decode_divw, decode_divwu, decode_eqv, decode_extsb, decode_extsh,
  decode_mulhw, decode_mulhwu, decode_mullw, decode_nand, decode_neg, decode_nor, decode_or,
  decode_orc, decode_slw, decode_sraw, decode_srawi, decode_srw, decode_subf, decode_subfc,
  decode_subfe, decode_subfme, decode_subfze, decode_xor,
}
use libppcemu.Decode.Falls.{
  Falls, do_xor-Falls, do_or-Falls, do_orc-Falls, do_and-Falls, do_andc-Falls, do_nand-Falls,
  do_nor-Falls, do_eqv-Falls, do_cntlzw-Falls, do_extsh-Falls, do_extsb-Falls, do_mulhw-Falls,
  do_mulhwu-Falls, do_add-Falls, do_subf-Falls, do_mullw-Falls, do_neg-Falls, do_addc-Falls,
  do_adde-Falls, do_subfc-Falls, do_subfe-Falls, do_addze-Falls, do_addme-Falls, do_subfze-Falls,
  do_subfme-Falls, do_divw-Falls, do_divwu-Falls, do_slw-Falls, do_srw-Falls, do_sraw-Falls,
  do_srawi-Falls,
}
use libppcemu.Decode.Guards.{AllRows}

-- A handler that falls through, or refuses a reserved rB field.
abbrev pub IsSequential : Handler → Type 0
IsSequential h =
    (s : State) (inst : ℕ)
    → Falls s (h s inst)
      ⊎ ((nz (inst_rb inst) ≡ true) × (h s inst ≡ exception_fire s exception_program))

always : {h : Handler} → ((s : State) (inst : ℕ) → Falls s (h s inst)) → IsSequential h
always f s inst = inl (f s inst)

refuse :
    (s t : State) (bad : Bool)
    → Falls s t
    → let u = if bad then exception_fire s exception_program else t in
      Falls s u ⊎ ((bad ≡ true) × (u ≡ exception_fire s exception_program))
refuse s t true f = inr (refl, refl)
refuse s t false f = inl f

unless_reserved :
    {h : Handler}
    → ((s : State) (inst : ℕ) → Falls s (h s inst))
    → IsSequential (λ s inst. reserved s (nz (inst_rb inst)) (λ t. h t inst))
unfolding reserved
unless_reserved {h} f s inst = refuse s (h s inst) (nz (inst_rb inst)) (f s inst)

pub integer_rows : AllRows IsSequential integer_handlers
unfolding AllRows integer_handlers decode_add decode_addc decode_adde decode_addme decode_addze
    decode_and decode_andc decode_cntlzw decode_divw decode_divwu decode_eqv decode_extsb
    decode_extsh decode_mulhw decode_mulhwu decode_mullw decode_nand decode_neg decode_nor decode_or
    decode_orc decode_slw decode_sraw decode_srawi decode_srw decode_subf decode_subfc decode_subfe
    decode_subfme decode_subfze decode_xor
integer_rows = (
  always (λ s inst. do_subfc-Falls s _ _ _ _ _),
  (
    always (λ s inst. do_addc-Falls s _ _ _ _ _),
    (
      always (λ s inst. do_mulhwu-Falls s _ _ _ _),
      (
        always (λ s inst. do_slw-Falls s _ _ _ _),
        (
          unless_reserved (λ s inst. do_cntlzw-Falls s _ _ _),
          (
            always (λ s inst. do_and-Falls s _ _ _ _),
            (
              always (λ s inst. do_subf-Falls s _ _ _ _ _),
              (
                always (λ s inst. do_andc-Falls s _ _ _ _),
                (
                  always (λ s inst. do_mulhw-Falls s _ _ _ _),
                  (
                    unless_reserved (λ s inst. do_neg-Falls s _ _ _ _),
                    (
                      always (λ s inst. do_nor-Falls s _ _ _ _),
                      (
                        always (λ s inst. do_subfe-Falls s _ _ _ _ _),
                        (
                          always (λ s inst. do_adde-Falls s _ _ _ _ _),
                          (
                            always (λ s inst. do_subfze-Falls s _ _ _ _),
                            (
                              unless_reserved (λ s inst. do_addze-Falls s _ _ _ _),
                              (
                                always (λ s inst. do_subfme-Falls s _ _ _ _),
                                (
                                  unless_reserved (λ s inst. do_addme-Falls s _ _ _ _),
                                  (
                                    always (λ s inst. do_mullw-Falls s _ _ _ _ _),
                                    (
                                      always (λ s inst. do_add-Falls s _ _ _ _ _),
                                      (
                                        always (λ s inst. do_eqv-Falls s _ _ _ _),
                                        (
                                          always (λ s inst. do_xor-Falls s _ _ _ _),
                                          (
                                            always (λ s inst. do_orc-Falls s _ _ _ _),
                                            (
                                              always (λ s inst. do_or-Falls s _ _ _ _),
                                              (
                                                always (λ s inst. do_divwu-Falls s _ _ _ _ _),
                                                (
                                                  always (λ s inst. do_nand-Falls s _ _ _ _),
                                                  (
                                                    always (λ s inst. do_divw-Falls s _ _ _ _ _),
                                                    (
                                                      always (λ s inst. do_subfc-Falls s _ _ _ _ _),
                                                      (
                                                        always
                                                            (λ s inst. do_addc-Falls s _ _ _ _ _),
                                                        (
                                                          always
                                                            (λ s inst. do_mulhwu-Falls s _ _ _ _),
                                                          (
                                                            always
                                                            (λ s inst. do_srw-Falls s _ _ _ _),
                                                            (
                                                            always
                                                            (λ s inst. do_subf-Falls s _ _ _ _ _),
                                                            (
                                                            unless_reserved
                                                            (λ s inst. do_neg-Falls s _ _ _ _),
                                                            (
                                                            always
                                                            (λ s inst. do_subfe-Falls s _ _ _ _ _),
                                                            (
                                                            always
                                                            (λ s inst. do_adde-Falls s _ _ _ _ _),
                                                            (
                                                            always
                                                            (λ s inst. do_subfze-Falls s _ _ _ _),
                                                            (
                                                            unless_reserved
                                                            (λ s inst. do_addze-Falls s _ _ _ _),
                                                            (
                                                            always
                                                            (λ s inst. do_subfme-Falls s _ _ _ _),
                                                            (
                                                            unless_reserved
                                                            (λ s inst. do_addme-Falls s _ _ _ _),
                                                            (
                                                            always
                                                            (λ s inst. do_mullw-Falls s _ _ _ _ _),
                                                            (
                                                            always
                                                            (λ s inst. do_add-Falls s _ _ _ _ _),
                                                            (
                                                            always
                                                            (λ s inst. do_sraw-Falls s _ _ _ _),
                                                            (
                                                            always
                                                            (λ s inst. do_srawi-Falls s _ _ _ _),
                                                            (
                                                            unless_reserved
                                                            (λ s inst. do_extsh-Falls s _ _ _),
                                                            (
                                                            unless_reserved
                                                            (λ s inst. do_extsb-Falls s _ _ _),
                                                            (
                                                            always
                                                            (λ s inst. do_divwu-Falls s _ _ _ _ _),
                                                            (
                                                            always
                                                            (λ s inst. do_divw-Falls s _ _ _ _ _),
                                                            tt,
                                                            ),
                                                            ),
                                                            ),
                                                            ),
                                                            ),
                                                            ),
                                                            ),
                                                            ),
                                                            ),
                                                            ),
                                                            ),
                                                            ),
                                                            ),
                                                            ),
                                                            ),
                                                            ),
                                                          ),
                                                        ),
                                                      ),
                                                    ),
                                                  ),
                                                ),
                                              ),
                                            ),
                                          ),
                                        ),
                                      ),
                                    ),
                                  ),
                                ),
                              ),
                            ),
                          ),
                        ),
                      ),
                    ),
                  ),
                ),
              ),
            ),
          ),
        ),
      ),
    ),
  ),
)
