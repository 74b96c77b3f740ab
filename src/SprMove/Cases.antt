-- ===== src/SprMove/Cases.antt =====
-- Which numbers the switches of src/instr/spr.c know, and where their values stand in `sprs`.
use libppcemu.Prelude.{
  ℕ, ◌<◌, ◌≡◌, inl, inr, Bool, Bool-cases, ◌∙◌, true, false, ◌&&◌, List, [], ◌∷◌, Option, none,
  some, arith, ltb, if◌then◌else◌, refl,
}
use libppcemu.Spr.Index.{sprn_to_idx_switch, find_case, sprn_cases, raw_lem, sprn_to_idx_raw}
use libppcemu.SprMove.{SprCase, upper_time, lower_time, unknown, spr_labels, find_label, spr_case}

-- The labels whose register stands in `sprs`.
unfoldable pub has_slot : SprCase → Bool
has_slot upper_time = false
has_slot lower_time = false
has_slot unknown = false
has_slot _ = true

in_array : Option ℕ → Bool
in_array none = false
in_array (some i) = ltb i 70

in_array_lem : (o : Option ℕ) → in_array o ≡ true → (i : ℕ) × (o ≡ some i) × (i < 70)
unfolding in_array
in_array_lem none h = absurd (ground arith)
in_array_lem (some i) h = (i, refl, ground arith)

-- Each label that has a slot has an index.
labels_fit : List (ℕ × SprCase) → Bool
labels_fit [] = true
labels_fit ((number, label) ∷ rest) =
    (if has_slot label then in_array (sprn_to_idx_switch number) else true) && labels_fit rest

-- Each number with an index has a label with a slot.
cases_fit : List (ℕ × ℕ) → Bool
cases_fit [] = true
cases_fit ((number, idx) ∷ rest) = has_slot (spr_case number) && cases_fit rest

all_labels_fit : labels_fit spr_labels ≡ true
unfolding labels_fit in_array sprn_to_idx_switch find_case has_slot
all_labels_fit = refl

all_cases_fit : cases_fit sprn_cases ≡ true
unfolding cases_fit spr_case find_label has_slot
all_cases_fit = refl

label_fits :
    (labels : List (ℕ × SprCase)) (sprn : ℕ)
    → labels_fit labels ≡ true
    → has_slot (find_label labels sprn) ≡ true
    → in_array (sprn_to_idx_switch sprn) ≡ true
unfolding labels_fit find_label
label_fits [] sprn h l = absurd (unfold has_slot in ground arith)
label_fits ((number, label) ∷ rest) sprn h l = ground (arith, label_fits rest sprn)

case_fits :
    (cases : List (ℕ × ℕ)) (sprn : ℕ)
    → cases_fit cases ≡ true
    → has_slot (spr_case sprn) ≡ false
    → find_case cases sprn ≡ none
unfolding cases_fit find_case
case_fits [] sprn h l = refl
case_fits ((number, idx) ∷ rest) sprn h l = ground (arith, case_fits rest sprn)

-- For every number, the registers that `mtspr` and `mfspr` keep in the array of special registers
-- are those that have an index there, and the index lies below the array's 70 places; a number with
-- no label, or one of the time base, has no index.
pub spr_case-index :
    (sprn : ℕ)
    → (i : ℕ) × (i < 70)
      × (sprn_to_idx_raw sprn ≡ (if has_slot (spr_case sprn) then some i else none))
unfolding spr_case
spr_case-index sprn = elim (Bool-cases (has_slot (spr_case sprn))) [
  | inl kept ↦
      let (i, e, l) = in_array_lem _ (label_fits spr_labels sprn all_labels_fit kept) in
      (i, l, rw kept (raw_lem sprn ∙ e))
  | inr other ↦ (
    0,
    omega arith,
    rw other
        (raw_lem sprn ∙ unfold sprn_to_idx_switch in case_fits sprn_cases sprn all_cases_fit other),
  )
]
