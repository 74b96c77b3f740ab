-- ===== src/Decode/Guards.antt =====
-- The handlers of src/decode.c that refuse the Rc bit.
use libppcemu.Prelude.{
  ℕ, ◌≡◌, refl, arith, Bool, true, false, ◌||◌, nz, ◌==◌, if◌then◌else◌, List, [], ◌∷◌, ◌++◌,
}
use libppcemu.State.{State}
use libppcemu.Exception.{exception_fire, exception_program}
use libppcemu.Branch.{no_rc}
use libppcemu.Decode.{Handler, inst_rc, find_row}
use libppcemu.Decode.Memory.{
  memory_handlers, float_memory_handlers, decode_lwarx, decode_lwzx, decode_lwzux, decode_lbzx,
  decode_lbzux, decode_stwx, decode_stwux, decode_stbx, decode_stbux, decode_lhzx, decode_lhzux,
  decode_lhax, decode_lhaux, decode_sthx, decode_sthux, decode_lwbrx, decode_lswi, decode_stwbrx,
  decode_stswi, decode_lhbrx, decode_sthbrx, decode_lfsx, decode_lfsux, decode_lfdx, decode_lfdux,
  decode_stfsx, decode_stfsux, decode_stfdx, decode_stfdux, decode_stfiwx,
}

-- Whether a table lists row `i`.
unfoldable pub lists : List (ℕ × Handler) → ℕ → Bool
lists [] i = false
lists ((k, h) ∷ rest) i = i == k || lists rest i

-- A handler that takes no Rc bit.
abbrev pub IsGuarded : Handler → Type 0
IsGuarded h =
    (s : State) (inst : ℕ)
    → nz (inst_rc inst) ≡ true
    → h s inst ≡ exception_fire s exception_program

unfoldable pub AllRows : (Handler → Type 0) → List (ℕ × Handler) → Type 0
AllRows P [] = Unit {0}
AllRows P ((k, h) ∷ rest) = P h × AllRows P rest

no_rc-IsGuarded : (body : ℕ → State → State) → IsGuarded (λ s inst. no_rc s inst (body inst))
unfolding no_rc inst_rc
no_rc-IsGuarded body s inst h = ground arith

pub access_rows : (fp : Handler) → AllRows IsGuarded (memory_handlers ++ float_memory_handlers fp)
unfolding AllRows memory_handlers float_memory_handlers decode_lwarx decode_lwzx decode_lwzux
    decode_lbzx decode_lbzux decode_stwx decode_stwux decode_stbx decode_stbux decode_lhzx
    decode_lhzux decode_lhax decode_lhaux decode_sthx decode_sthux decode_lwbrx decode_lswi
    decode_stwbrx decode_stswi decode_lhbrx decode_sthbrx decode_lfsx decode_lfsux decode_lfdx
    decode_lfdux decode_stfsx decode_stfsux decode_stfdx decode_stfdux decode_stfiwx
access_rows fp = (
  no_rc-IsGuarded _,
  (
    no_rc-IsGuarded _,
    (
      no_rc-IsGuarded _,
      (
        no_rc-IsGuarded _,
        (
          no_rc-IsGuarded _,
          (
            no_rc-IsGuarded _,
            (
              no_rc-IsGuarded _,
              (
                no_rc-IsGuarded _,
                (
                  no_rc-IsGuarded _,
                  (
                    no_rc-IsGuarded _,
                    (
                      no_rc-IsGuarded _,
                      (
                        no_rc-IsGuarded _,
                        (
                          no_rc-IsGuarded _,
                          (
                            no_rc-IsGuarded _,
                            (
                              no_rc-IsGuarded _,
                              (
                                no_rc-IsGuarded _,
                                (
                                  no_rc-IsGuarded _,
                                  (
                                    no_rc-IsGuarded _,
                                    (
                                      no_rc-IsGuarded _,
                                      (
                                        no_rc-IsGuarded _,
                                        (
                                          no_rc-IsGuarded _,
                                          (
                                            no_rc-IsGuarded _,
                                            (
                                              no_rc-IsGuarded _,
                                              (
                                                no_rc-IsGuarded _,
                                                (
                                                  no_rc-IsGuarded _,
                                                  (
                                                    no_rc-IsGuarded _,
                                                    (
                                                      no_rc-IsGuarded _,
                                                      (
                                                        no_rc-IsGuarded _,
                                                        (
                                                          no_rc-IsGuarded _,
                                                          (no_rc-IsGuarded _, tt),
                                                        ),
                                                      ),
                                                    ),
                                                  ),
                                                ),
                                              ),
                                            ),
                                          ),
                                        ),
                                      ),
                                    ),
                                  ),
                                ),
                              ),
                            ),
                          ),
                        ),
                      ),
                    ),
                  ),
                ),
              ),
            ),
          ),
        ),
      ),
    ),
  ),
)

-- A row that is listed has what all rows have.
pub find_row-AllRows :
    (P : Handler → Type 0) (d : Handler) (rows : List (ℕ × Handler)) (i : ℕ)
    → AllRows P rows
    → lists rows i ≡ true
    → P (find_row d rows i)
unfolding find_row AllRows lists
find_row-AllRows P d [] i all h = ground arith
find_row-AllRows P d ((k, g) ∷ rest) i (p, all) h =
    elim (i == k)
        as (λ (b : Bool). b || lists rest i ≡ true → P (if b then g else find_row d rest i)) [
          | true ↦ λ e. p
          | false ↦ λ e. find_row-AllRows P d rest i all e
        ]
      h

pub find_row-append :
    (d : Handler) (a b : List (ℕ × Handler)) (i : ℕ)
    → find_row d (a ++ b) i ≡ find_row (find_row d b i) a i
unfolding find_row
find_row-append d [] b i = refl
find_row-append d ((k, g) ∷ rest) b i = ground (arith, find_row-append d rest b i)
