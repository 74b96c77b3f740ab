-- ===== src/Spr/Index.antt =====
-- `ppcemu_sprn_to_idx_switch` and `ppcemu_sprn_to_idx_raw` of src/spr.h, and the table of src/spr.c.
use libppcemu.Prelude.{
  ℕ, ◌+◌, ◌-◌, ◌*◌, ◌≤◌, ◌<◌, ◌≡◌, Bool, true, false, ◌&&◌, Option, none, some, List, [], ◌∷◌, refl,
  arith, ltb, leb, ◌==◌, if◌then◌else◌, all_below, all_below_lem, ◌∙◌,
}
use libppcemu.Mmu.Translate.{bat_to_spr_idx}

-- The cases of the switch: a register number, `PPCEMU_SPRN_...` of include/ppcemu/spr.h, and its index.
abbrev pub sprn_cases : List (ℕ × ℕ)
sprn_cases =
    (1, 0)
    ∷ (8, 1)
    ∷ (9, 2)
    ∷ (22, 3)
    ∷ (26, 4)
    ∷ (27, 5)
    ∷ (272, 6)
    ∷ (273, 7)
    ∷ (274, 8)
    ∷ (275, 9)
    ∷ (1008, 10)
    ∷ (920, 11)
    ∷ (1011, 12)
    ∷ (528, 13)
    ∷ (529, 14)
    ∷ (530, 15)
    ∷ (531, 16)
    ∷ (532, 17)
    ∷ (533, 18)
    ∷ (534, 19)
    ∷ (535, 20)
    ∷ (536, 21)
    ∷ (537, 22)
    ∷ (538, 23)
    ∷ (539, 24)
    ∷ (540, 25)
    ∷ (541, 26)
    ∷ (542, 27)
    ∷ (543, 28)
    ∷ (560, 29)
    ∷ (561, 30)
    ∷ (562, 31)
    ∷ (563, 32)
    ∷ (564, 33)
    ∷ (565, 34)
    ∷ (566, 35)
    ∷ (567, 36)
    ∷ (568, 37)
    ∷ (569, 38)
    ∷ (570, 39)
    ∷ (571, 40)
    ∷ (572, 41)
    ∷ (573, 42)
    ∷ (574, 43)
    ∷ (575, 44)
    ∷ (912, 45)
    ∷ (913, 46)
    ∷ (914, 47)
    ∷ (915, 48)
    ∷ (916, 49)
    ∷ (917, 50)
    ∷ (918, 51)
    ∷ (919, 52)
    ∷ (1017, 53)
    ∷ (952, 54)
    ∷ (956, 55)
    ∷ (953, 56)
    ∷ (954, 57)
    ∷ (957, 58)
    ∷ (958, 59)
    ∷ (18, 60)
    ∷ (19, 61)
    ∷ (1013, 62)
    ∷ (287, 63)
    ∷ (25, 64)
    ∷ (921, 65)
    ∷ (1019, 66)
    ∷ (1020, 67)
    ∷ (1021, 68)
    ∷ (1022, 69)
    ∷ []

-- The first case of that number; -1 is `none`.
unfoldable pub find_case : List (ℕ × ℕ) → ℕ → Option ℕ
find_case [] sprn = none
find_case ((number, idx) ∷ rest) sprn =
    let later = find_case rest sprn in if sprn == number then some idx else later

unfoldable pub sprn_to_idx_switch : ℕ → Option ℕ
sprn_to_idx_switch sprn = find_case sprn_cases sprn

abbrev pub sprn_table_size : ℕ
sprn_table_size = 1023

-- The table that src/spr.c fills through the switch.
unfoldable pub sprn_to_idx_table : ℕ → Option ℕ
sprn_to_idx_table sprn = sprn_to_idx_switch sprn

-- The path of a number that is no constant; a constant takes the switch itself.
unfoldable pub sprn_to_idx_raw : ℕ → Option ℕ
sprn_to_idx_raw sprn = if leb sprn_table_size sprn then none else sprn_to_idx_table sprn

numbers_below : List (ℕ × ℕ) → ℕ → Bool
numbers_below [] n = true
numbers_below ((number, idx) ∷ rest) n = ltb number n && numbers_below rest n

no_case :
    (cases : List (ℕ × ℕ)) (n sprn : ℕ)
    → numbers_below cases n ≡ true
    → n ≤ sprn
    → find_case cases sprn ≡ none
unfolding numbers_below find_case
no_case [] n sprn h l = refl
no_case ((number, idx) ∷ rest) n sprn h l = ground (arith, no_case rest n sprn)

small_numbers : numbers_below sprn_cases sprn_table_size ≡ true
unfolding numbers_below
small_numbers = refl

-- The number of a BAT register.
abbrev pub bat_sprn : ℕ → Bool → Bool → ℕ
bat_sprn n ibat upper =
    (if ltb n 4 then 528 + 2 * n else 560 + 2 * (n - 4))
    + (if ibat then 0 else 8)
    + (if upper then 0 else 1)

same_idx : Option ℕ → ℕ → Bool
same_idx none i = false
same_idx (some j) i = j == i

same_idx_lem : (o : Option ℕ) (i : ℕ) → same_idx o i ≡ true → o ≡ some i
unfolding same_idx
same_idx_lem none i h = ground arith
same_idx_lem (some j) i h = ground arith

bat_table :
    (ibat upper : Bool)
    → all_below 8
        (λ n. same_idx (sprn_to_idx_switch (bat_sprn n ibat upper)) (bat_to_spr_idx n ibat upper))
      ≡ true
unfolding all_below same_idx sprn_to_idx_switch find_case bat_to_spr_idx
bat_table true true = refl
bat_table true false = refl
bat_table false true = refl
bat_table false false = refl

pub raw_lem : (sprn : ℕ) → sprn_to_idx_raw sprn ≡ sprn_to_idx_switch sprn
unfolding sprn_to_idx_raw sprn_to_idx_table sprn_to_idx_switch
raw_lem sprn = ground (arith, no_case sprn_cases sprn_table_size sprn small_numbers)

-- The table look-up of a special register's number gives what the switch gives, for every number,
-- also past the end of the table; and for each of the eight instruction and data BATs, upper and
-- lower half, it gives the index that the address translation computes.
pub sprn_to_idx_lem :
    (sprn n : ℕ) (ibat upper : Bool)
    → n < 8
    → (sprn_to_idx_raw sprn ≡ sprn_to_idx_switch sprn)
      × (sprn_to_idx_raw (bat_sprn n ibat upper) ≡ some (bat_to_spr_idx n ibat upper))
sprn_to_idx_lem sprn n ibat upper h = (raw_lem sprn, raw_lem (bat_sprn n ibat upper) ∙ bat_lem)
  where
    bat_lem : sprn_to_idx_switch (bat_sprn n ibat upper) ≡ some (bat_to_spr_idx n ibat upper)
    bat_lem = same_idx_lem _ _ (all_below_lem 8 n _ (bat_table ibat upper) h)
