-- ===== src/AtaSmart/Limits.antt =====
-- The thresholds that src/lsdsk/adapters/hw/decode/ata_smart.py collects, slot by slot.
use lsdsk.Prelude.{
  ℕ, zero, suc, ◌+◌, ◌*◌, ◌≤◌, ◌≡◌, refl, ap, ◌∙◌, Bool, true, false, Option, none, some, List, [],
  length, get_elem?, get_elem?-some, ltb, ◌==◌, if◌then◌else◌, Bool-cases, inl, inr, arith,
}
use lsdsk.Prelude.Dict.{lookup, lookup-insert, number_key}
use lsdsk.AtaSmart.Table.{
  smart_data_length, table_offset, entry_size, entry_count, limit_at, limits_from,
  decode_thresholds,
}

abbrev pub holds : ℕ → Option ℕ → Bool
holds k none = false
holds k (some b) = b == k

-- The threshold in the last of so many slots that carries the identifier, found from the last one back.
unfoldable pub last_slot : List ℕ → ℕ → ℕ → Option ℕ
last_slot blob k zero = none
last_slot blob k (suc slots) =
    let earlier = last_slot blob k slots in
    if holds k (get_elem? blob (table_offset + slots * entry_size))
    then get_elem? blob (table_offset + slots * entry_size + 1)
    else earlier

-- The threshold of an identifier in a threshold page, none where the page is absent or short.
abbrev pub threshold_of : Option (List ℕ) → ℕ → Option ℕ
threshold_of none k = none
threshold_of (some blob) k =
    if ltb (length blob) smart_data_length then none else last_slot blob k entry_count

-- An empty slot carries no identifier that is not 0.
passed_over : (b k : ℕ) (x y : Option ℕ) → (b == 0) ≡ true → 1 ≤ k → y ≡ (if b == k then x else y)
passed_over b k x y z pos = ground (arith, z)

module _ (blob : List ℕ) where
  limit_at_lem :
      (limits : List (ℕ × ℕ)) (slot : ℕ)
      → 2 + suc slot * 12 ≤ length blob
      → (more : List (ℕ × ℕ)) × (limit_at blob limits (table_offset + slot * entry_size)
          ≡ some more)
        × ((k : ℕ)
            → 1 ≤ k
            → lookup number_key k limits ≡ last_slot blob k slot
            → lookup number_key k more ≡ last_slot blob k (suc slot))
  unfolding limit_at last_slot
  limit_at_lem limits slot h =
      let offset = table_offset + slot * entry_size in
      let (identifier, e) = get_elem?-some blob offset (omega arith) in
      let (limit, l) = get_elem?-some blob (offset + 1) (omega arith) in
      elim (Bool-cases (identifier == 0)) [
        | inl z ↦
            rw (e, z)
              (
                limits,
                refl,
                λ k pos same. same ∙ passed_over identifier k _ (last_slot blob k slot) z pos,
              )
        | inr z ↦
            rw (e, z, l)
              (
                _,
                refl,
                λ k pos same.
                    lookup-insert number_key identifier k limit limits
                    ∙ ap (λ o. if identifier == k then some limit else o) same,
              )
      ]

  limits_from_lem :
      (left slot : ℕ) (limits : List (ℕ × ℕ))
      → 2 + (slot + left) * 12 ≤ length blob
      → ((k : ℕ) → 1 ≤ k → lookup number_key k limits ≡ last_slot blob k slot)
      → (all : List (ℕ × ℕ)) × (limits_from blob left slot limits ≡ some all)
        × ((k : ℕ) → 1 ≤ k → lookup number_key k all ≡ last_slot blob k (slot + left))
  unfolding limits_from
  limits_from_lem zero slot limits h same =
      (limits, refl, λ k pos. same k pos ∙ ap (last_slot blob k) (omega arith))
  limits_from_lem (suc left) slot limits h same =
      let (more, e, step) = limit_at_lem limits slot (omega arith) in
      let (all, r, last) =
        limits_from_lem left (slot + 1) more (omega arith)
          (λ k pos. step k pos (same k pos) ∙ ap (last_slot blob k) (omega arith)) in
      rw (e, r) (all, refl, λ k pos. last k pos ∙ ap (last_slot blob k) (omega arith))

last_slot-zero : (blob : List ℕ) (k : ℕ) → none ≡ last_slot blob k 0
unfolding last_slot
last_slot-zero blob k = refl

-- The collected thresholds are those of the last slots.
pub decode_thresholds_lem :
    (thresholds : Option (List ℕ))
    → (limits : List (ℕ × ℕ)) × (decode_thresholds thresholds ≡ some limits)
      × ((k : ℕ) → 1 ≤ k → lookup number_key k limits ≡ threshold_of thresholds k)
unfolding decode_thresholds lookup
decode_thresholds_lem none = ([], refl, λ k pos. refl)
decode_thresholds_lem (some blob) = elim (Bool-cases (ltb (length blob) smart_data_length)) [
  | inl s ↦ rw s ([], refl, λ k pos. refl)
  | inr s ↦
      rw s
        (limits_from_lem blob entry_count 0 [] (ground (arith, s)) (λ k pos. last_slot-zero blob k))
]
