-- ===== src/AtaSmart/Rows.antt =====
-- The rows of the attribute table that src/lsdsk/adapters/hw/decode/ata_smart.py decodes.
use lsdsk.Prelude.{
  ◌∙◌, ℕ, zero, suc, ◌+◌, ◌*◌, ◌≤◌, ◌<◌, ◌^◌, ◌≡◌, inl, inr, refl, false, Option, none, some, List,
  [], ◌∷◌, length, get_elem?, get_elem?-some, take, drop, ltb, ◌==◌, All, arith, Bool-cases,
  length-take,
}
use mathlib.Core.Path.{subst}
use mathlib.Core.Option.{some-injective}
use lsdsk.Prelude.Dict.{lookup, number_key}
use lsdsk.AtaSmart.Limits.{threshold_of, decode_thresholds_lem}
use lsdsk.Models.{SmartAttribute}
use lsdsk.AtaSmart.Table.{
  ok, smart_data_length, table_offset, entry_size, entry_count, from_bytes, row_at, keep_row, rows,
  is_floating, decode_attributes,
}

module _ {ℓ} {A : Type ℓ} where
  module _ (P : A → Type 0) where
    All-get_elem? : (xs : List A) (i : ℕ) (a : A) → All P xs → get_elem? xs i ≡ some a → P a
    All-get_elem? [] i a h e = cc
    All-get_elem? (x ∷ xs) zero a h e = subst P (some-injective x a e) h.0
    All-get_elem? (x ∷ xs) (suc i) a h e = All-get_elem? xs i a h.1 e

    All-drop : (n : ℕ) (xs : List A) → All P xs → All P (drop n xs)
    All-drop zero xs h = h
    All-drop (suc n) [] h = tt
    All-drop (suc n) (x ∷ xs) h = All-drop n xs h.1

    All-take : (n : ℕ) (xs : List A) → All P xs → All P (take n xs)
    All-take zero xs h = tt
    All-take (suc n) [] h = tt
    All-take (suc n) (x ∷ xs) h = (h.0, All-take n xs h.1)

abbrev pub IsByte : ℕ → Type 0
IsByte b = b < 256

-- So many bytes spell a number below a bound.
abbrev bound : ℕ → ℕ
bound zero = 1
bound (suc n) = 256 * bound n

from_bytes-lt : (n : ℕ) (bs : List ℕ) → length bs ≤ n → All IsByte bs → from_bytes bs < bound n
unfolding from_bytes
from_bytes-lt zero [] h k = omega arith
from_bytes-lt zero (b ∷ bs) h k = omega arith
from_bytes-lt (suc n) [] h k = omega (arith, from_bytes-lt n [] (omega arith) tt)
from_bytes-lt (suc n) (b ∷ bs) h k = omega (arith, from_bytes-lt n bs (omega arith) k.1, k.0)

-- A row has an identifier, fields of the widths of the table's, and the identifier's threshold.
abbrev pub IsRow : (ℕ → Option ℕ) → SmartAttribute → Type 0
IsRow limit a =
    (1 ≤ a.id)
    × (a.id < 256)
    × (a.value < 256)
    × (a.worst < 256)
    × (a.raw < 2 ^ 48)
    × (a.threshold ≡ limit a.id)

abbrev IsSlot : (ℕ → Option ℕ) → Option SmartAttribute → Type 0
IsSlot limit none = Unit
IsSlot limit (some a) = IsRow limit a

-- Two ways to look a threshold up that agree on every identifier make the same rows.
All-IsRow :
    (f g : ℕ → Option ℕ) (table : List SmartAttribute)
    → ((k : ℕ) → 1 ≤ k → f k ≡ g k)
    → All (IsRow f) table
    → All (IsRow g) table
All-IsRow f g [] same h = tt
All-IsRow f g (a ∷ table) same h =
    let (id, width, value, worst, raw, limit) = h.0 in
    ((id, width, value, worst, raw, limit ∙ same a.id id), All-IsRow f g table same h.1)

module _ (bytes : List ℕ) (limits : List (ℕ × ℕ)) (fine : All IsByte bytes) where
  abbrev limit_of : ℕ → Option ℕ
  limit_of k = lookup number_key k limits

  row_at_lem :
      (offset : ℕ)
      → offset + 12 ≤ length bytes
      → (slot : Option SmartAttribute) × (row_at bytes limits offset ≡ some slot)
        × IsSlot limit_of slot
  unfolding row_at
  row_at_lem offset h =
      let (identifier, e) = get_elem?-some bytes offset (omega arith) in
      let (value, v) = get_elem?-some bytes (offset + 3) (omega arith) in
      let (worst, w) = get_elem?-some bytes (offset + 4) (omega arith) in
      elim (Bool-cases (identifier == 0)) [
        | inl z ↦ rw (e, z) (none, refl, tt)
        | inr z ↦
            rw (e, z, v, w)
              (
                _,
                refl,
                ground (
                  arith,
                  z,
                  All-get_elem? IsByte bytes offset identifier fine e,
                  All-get_elem? IsByte bytes (offset + 3) value fine v,
                  All-get_elem? IsByte bytes (offset + 4) worst fine w,
                  from_bytes-lt 6 (take 6 (drop (offset + 5) bytes))
                      (omega (arith, length-take 6 (drop (offset + 5) bytes)))
                      (All-take IsByte 6 (drop (offset + 5) bytes)
                        (All-drop IsByte (offset + 5) bytes fine)),
                ),
              )
      ]

  pub rows_lem :
      (left index : ℕ)
      → 2 + (index + left) * 12 ≤ length bytes
      → (table : List SmartAttribute) × (rows bytes limits left index ≡ some table)
        × (length table ≤ left)
        × All (IsRow limit_of) table
  unfolding rows keep_row
  rows_lem zero index h = ([], refl, omega arith, tt)
  rows_lem (suc left) index h =
      let (table, r, short, good) = rows_lem left (index + 1) (omega arith) in
      let (slot, e, row) = row_at_lem (table_offset + index * entry_size) (omega arith) in
      rw (e, r) (kept slot row table short good)
    where
      kept :
          (slot : Option SmartAttribute)
          → IsSlot limit_of slot
          → (table : List SmartAttribute) → length table ≤ left
          → All (IsRow limit_of) table
          → (more : List SmartAttribute) × (some (keep_row slot table) ≡ some more)
            × (length more ≤ suc left)
            × All (IsRow limit_of) more
      kept none row table short good = (table, refl, omega arith, good)
      kept (some a) row table short good = (a ∷ table, refl, omega arith, (row, good))

le→ltb : (a b : ℕ) → b ≤ a → ltb a b ≡ false
le→ltb a b h = ground arith

-- A buffer of bytes that is long enough and is no floating bus decodes to at most 30 attributes,
-- whatever the thresholds. Each has an identifier that is not 0, fields of the table's widths, and the
-- threshold of the last slot of the threshold page that carries its identifier, none where that page is
-- absent or short.
pub decode_attributes_rows :
    (bytes : List ℕ) (thresholds : Option (List ℕ))
    → All IsByte bytes
    → smart_data_length ≤ length bytes
    → is_floating (take smart_data_length bytes) ≡ false
    → (table : List SmartAttribute) × (decode_attributes bytes thresholds ≡ ok table)
      × (length table ≤ 30)
      × All (IsRow (threshold_of thresholds)) table
unfolding decode_attributes
decode_attributes_rows bytes thresholds fine long steady =
    let (limits, e, same) = decode_thresholds_lem thresholds in
    let (table, r, few, good) = rows_lem bytes limits fine entry_count 0 (omega arith) in
    rw (le→ltb (length bytes) smart_data_length long, steady, e, r)
      (
        table,
        refl,
        few,
        All-IsRow (λ k. lookup number_key k limits) (threshold_of thresholds) table same good,
      )
