-- ===== src/AtaSmart/Health.antt =====
-- What src/lsdsk/adapters/hw/decode/ata_smart.py reads out of an attribute table: the temperature,
-- the wear, the verdict and the whole health record.
use lsdsk.Prelude.{
  ℕ, ◌*◌, ◌-◌, ◌%◌, Bool, not, ◌&&◌, Option, none, some, List, [], ◌∷◌, leb, ◌==◌, if◌then◌else◌,
  max, find, filter, any, is_some,
}
use lsdsk.Prelude.Int.{ℤ, pos, leb_ℤ, eqb_ℤ, negsuc}
use lsdsk.Models.{SmartAttribute, Health, unread, is_failing}
use lsdsk.AtaSmart.Table.{Decoded, ok, err, SmartError, decode_attributes}

abbrev pub wear_attributes : List ℕ
wear_attributes = 177 ∷ 233 ∷ 202 ∷ 231 ∷ 173 ∷ []

abbrev pub temperature_attributes : List ℕ
temperature_attributes = 194 ∷ 190 ∷ []

abbrev pub lba_bytes : ℕ
lba_bytes = 512

-- `_find`
unfoldable pub find_attribute : List SmartAttribute → ℕ → Option SmartAttribute
find_attribute attributes identifier = find (λ a. a.id == identifier) attributes

raw : Option SmartAttribute → Option ℕ
raw none = none
raw (some a) = some a.raw

-- `_raw_of`
unfoldable pub raw_of : List SmartAttribute → ℕ → Option ℕ
unfolding raw
raw_of attributes identifier = raw (find_attribute attributes identifier)

-- `plausible_celsius` of captured.py in whole degrees.
unfoldable pub plausible_celsius : ℤ → Option ℤ
plausible_celsius reading =
    if leb_ℤ (negsuc 59) reading && leb_ℤ reading (pos 200) then some reading else none

-- A zero is an empty field and no reading.
unfoldable pub nonzero : Option ℤ → Option ℤ
nonzero none = none
nonzero (some celsius) = if eqb_ℤ celsius (pos 0) then none else some celsius

-- One turn of the loop: `none` passes on to the next attribute.
unfoldable pub celsius_of : Option SmartAttribute → Option ℤ
celsius_of none = none
celsius_of (some a) = nonzero (plausible_celsius (pos (a.raw % 256)))

-- The first attribute of the list that answers.
unfoldable pub first_of :
    {A : Type 0} → (Option SmartAttribute → Option A) → List SmartAttribute → List ℕ → Option A
first_of answer attributes [] = none
first_of answer attributes (identifier ∷ identifiers) =
    let rest = first_of answer attributes identifiers in
    elim (answer (find_attribute attributes identifier)) [ none ↦ rest | some value ↦ some value ]

-- `_temperature`
unfoldable pub temperature : List SmartAttribute → Option ℤ
temperature attributes = first_of celsius_of attributes temperature_attributes

unfoldable pub worn : Option SmartAttribute → Option ℕ
worn none = none
worn (some a) = if leb a.value 100 then some (100 - a.value) else none

-- `_percent_used`
unfoldable pub percent_used : List SmartAttribute → Option ℕ
percent_used attributes = first_of worn attributes wear_attributes

abbrev pub is_graded : SmartAttribute → Bool
is_graded a = is_some a.threshold

unfoldable pub judged : List SmartAttribute → Option Bool
judged [] = none
judged (a ∷ graded) = some (not (any is_failing (a ∷ graded)))

unfoldable pub overall_health : List SmartAttribute → Option Bool
unfolding judged
overall_health attributes = judged (filter is_graded attributes)

-- The larger of the two that are there.
unfoldable pub largest : Option ℕ → Option ℕ → Option ℕ
largest (some a) (some b) = some (max a b)
largest (some a) none = some a
largest none b = b

abbrev pub number : Option ℕ → Option ℤ
number none = none
number (some n) = some (pos n)

abbrev pub in_bytes : Option ℕ → Option ℤ
in_bytes none = none
in_bytes (some n) = some (pos (n * lba_bytes))

abbrev pub assessed : Option Bool → Option Bool → Option Bool
assessed none computed = computed
assessed (some answer) computed = some answer

unfoldable pub build_health : List SmartAttribute → Option Bool → Health
build_health attributes self_assessment_ok = record unread {
  ok = assessed self_assessment_ok (overall_health attributes);
  temperature_c = temperature attributes;
  power_on_hours = number (raw_of attributes 9);
  percent_used = number (percent_used attributes);
  reallocated_sectors = number (raw_of attributes 5);
  pending_sectors = number (raw_of attributes 197);
  uncorrectable_sectors = number (largest (raw_of attributes 198) (raw_of attributes 187));
  crc_errors = number (raw_of attributes 199);
  bytes_read = in_bytes (raw_of attributes 242);
  bytes_written = in_bytes (raw_of attributes 241);
  attributes = attributes;
}

pub data Reading : Type 0 where
  read : Health → Reading
  refused : SmartError → Reading

reading : Option Bool → Decoded → Reading
reading self_assessment_ok (ok attributes) = read (build_health attributes self_assessment_ok)
reading self_assessment_ok (err e) = refused e

unfoldable pub decode_health : List ℕ → Option (List ℕ) → Option Bool → Reading
unfolding reading
decode_health bytes thresholds self_assessment_ok =
    reading self_assessment_ok (decode_attributes bytes thresholds)
