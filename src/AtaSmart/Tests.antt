-- ===== src/AtaSmart/Tests.antt =====
-- Runs of the decoder of src/lsdsk/adapters/hw/decode/ata_smart.py, and each theorem at one where its
-- hypotheses hold.
use lsdsk.Prelude.{
  ℕ, zero, suc, ◌≤◌, ◌≡◌, ◌↔◌, refl, false, none, some, List, [], ◌∷◌, ◌++◌, length, take,
  replicate, All, Elem, arith,
}
use lsdsk.Prelude.Int.{pos}
use lsdsk.Prelude.Dict.{lookup, insert}
use lsdsk.Models.{SmartAttribute, is_failing}
use lsdsk.AtaSmart.Table.{
  ok, err, short_data, floating_page, smart_data_length, from_bytes, row_at, keep_row, rows,
  limit_at, limits_from, decode_thresholds, all_ones, is_floating, decode_attributes,
}
use lsdsk.AtaSmart.Health.{
  find_attribute, temperature, percent_used, overall_health, judged, first_of, worn, celsius_of,
  plausible_celsius, nonzero,
}
use lsdsk.AtaSmart.Limits.{threshold_of}
use lsdsk.AtaSmart.Rows.{IsByte, IsRow, decode_attributes_rows}
use lsdsk.AtaSmart.Verdict.{IsFailing, overall_health_iff}

-- A temperature of 36 degrees, and a wear attribute that stands at 8.
abbrev slots : List ℕ
slots =
    16 ∷ 0 ∷ 194 ∷ 34 ∷ 0 ∷ 64 ∷ 45 ∷ 36 ∷ 0 ∷ 0 ∷ 0 ∷ 0 ∷ 0 ∷ 0 ∷ 177 ∷ 19 ∷ 0 ∷ 8 ∷ 8 ∷ 210 ∷ 4
    ∷ 0 ∷ 0 ∷ 0 ∷ 0 ∷ 0 ∷ []

abbrev page : List ℕ
page = slots ++ replicate 486 0

abbrev limits_page : List ℕ
limits_page = 16 ∷ 0 ∷ 177 ∷ 10 ∷ replicate 508 0

abbrev table : List SmartAttribute
table =
    record {
      id = 194;
      name = "Temperature_Celsius";
      value = 64;
      worst = 45;
      threshold = none;
      raw = 36;
    }
    ∷ record {
      id = 177;
      name = "Wear_Leveling_Count";
      value = 8;
      worst = 8;
      threshold = some 10;
      raw = 1234;
    }
    ∷ []

page_decodes : decode_attributes page (some limits_page) ≡ ok table
unfolding decode_attributes is_floating all_ones decode_thresholds limits_from limit_at rows row_at
    keep_row from_bytes lookup insert
page_decodes = refl

short_page : decode_attributes slots none ≡ err short_data
unfolding decode_attributes
short_page = refl

floating : decode_attributes (replicate 512 255) none ≡ err floating_page
unfolding decode_attributes is_floating all_ones
floating = refl

replicate-All : (n : ℕ) → All IsByte (replicate n 0)
replicate-All zero = tt
replicate-All (suc n) = (omega arith, replicate-All n)

append-All : (xs ys : List ℕ) → All IsByte xs → All IsByte ys → All IsByte (xs ++ ys)
append-All [] ys h k = k
append-All (x ∷ xs) ys h k = (h.0, append-All xs ys h.1 k)

slots-All : All IsByte slots
slots-All = omega arith

page_steady : is_floating (take smart_data_length page) ≡ false
unfolding is_floating all_ones
page_steady = refl

decode_attributes_rows_example :
    (attributes : List SmartAttribute) × (decode_attributes page (some limits_page) ≡ ok attributes)
    × (length attributes ≤ 30)
    × All (IsRow (threshold_of (some limits_page))) attributes
decode_attributes_rows_example =
    decode_attributes_rows page (some limits_page)
      (append-All slots (replicate 486 0) slots-All (replicate-All 486)) (omega arith) page_steady

overall_health_iff_example :
    ((overall_health table ≡ none) ↔ ((a : SmartAttribute) → Elem a table → a.threshold ≡ none))
    × ((overall_health table ≡ some false) ↔ ((a : SmartAttribute) × Elem a table × IsFailing a))
overall_health_iff_example = overall_health_iff table

table_fails : overall_health table ≡ some false
unfolding overall_health judged is_failing
table_fails = refl

table_worn : percent_used table ≡ some 92
unfolding percent_used first_of find_attribute worn
table_worn = refl

table_celsius : temperature table ≡ some (pos 36)
unfolding temperature first_of find_attribute celsius_of plausible_celsius nonzero
table_celsius = refl
