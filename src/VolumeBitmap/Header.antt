-- ===== src/VolumeBitmap/Header.antt =====
-- `parse_bitmap_header` of src/lsdsk/adapters/hw/windows/volume_layout.py.
use native.Mathlib.Nat.{pow-suc}
use lsdsk.Prelude.{
  true_not-false, ◌≤◌, none, true, Bool-cases, ◌⊎◌, inl, inr, ◌↔◌, ℕ, zero, suc, ◌*◌, ◌/◌, ◌%◌, ◌^◌,
  ◌<◌, ◌≡◌, refl, false, some, List, [], ◌∷◌, ◌++◌, length, take, drop, ltb, arith,
}
use lsdsk.Prelude.Int.{pos, ltb_ℤ}
use lsdsk.VolumeBitmap.{from_little, signed, parse_bitmap_header}

-- `n.to_bytes(width, "little")`
abbrev pub to_little : ℕ → ℕ → List ℕ
to_little zero n = []
to_little (suc width) n = n % 256 ∷ to_little width (n / 256)

from_little-to_little : (width n : ℕ) → n < 256 ^ width → from_little (to_little width n) ≡ n
from_little-to_little zero n h = omega (arith, h)
from_little-to_little (suc width) n h =
    let wider : 256 ^ suc width ≡ 256 * 256 ^ width = rw pow-suc (omega arith) in
    omega (arith, from_little-to_little width (n / 256) (omega (arith, h, wider)))

-- The two fields of a header that is long enough, as the bytes say them.
abbrev pub lcn_field : List ℕ → ℕ
lcn_field raw = from_little (take 8 raw)

abbrev pub size_field : List ℕ → ℕ
size_field raw = from_little (take 8 (drop 8 raw))

signed_field : (n : ℕ) → n < 2 ^ 63 → signed n ≡ pos n
signed_field n h = ground (arith, h)

not_negative : (n : ℕ) → ltb_ℤ (pos n) (pos 0) ≡ false
not_negative n = ground arith

-- A header that was written is read back, whatever follows it.
pub parse_bitmap_header_written :
    (lcn size : ℕ) (rest : List ℕ)
    → lcn < 2 ^ 63
    → size < 2 ^ 63
    → parse_bitmap_header (to_little 8 lcn ++ (to_little 8 size ++ rest))
      ≡ some (record { starting_lcn = pos lcn; bitmap_size = pos size })
unfolding parse_bitmap_header
parse_bitmap_header_written lcn size rest h k =
    let long : ltb (length (to_little 8 lcn ++ (to_little 8 size ++ rest))) 16 ≡ false =
      ground arith in
    let a = from_little-to_little 8 lcn (omega (arith, h)) in
    let b = from_little-to_little 8 size (omega (arith, k)) in
    rw (long, a, b, signed_field lcn h, signed_field size k, not_negative lcn, not_negative size)
      refl

negative_iff : (n : ℕ) → (ltb_ℤ (signed n) (pos 0) ≡ true) ↔ (2 ^ 63 ≤ n)
negative_iff n = elim (Bool-cases (ltb n (2 ^ 63))) [
  | inl t ↦ rw t (λ h. absurd (ground (arith, h)), λ h. ground (arith, t, h))
  | inr f ↦ rw f (λ h. ground (arith, f), λ h. ground arith)
]

-- A header is refused exactly where it is short, or one of its two fields has its sign bit set.
pub parse_bitmap_header-none_iff :
    (raw : List ℕ)
    → (parse_bitmap_header raw ≡ none)
      ↔ ((length raw < 16) ⊎ ((2 ^ 63 ≤ lcn_field raw) ⊎ (2 ^ 63 ≤ size_field raw)))
unfolding parse_bitmap_header
parse_bitmap_header-none_iff raw =
    let lcn = negative_iff (lcn_field raw) in
    let size = negative_iff (size_field raw) in
    elim (Bool-cases (ltb (length raw) 16)) [
      | inl t ↦ rw t (λ h. inl (ground (arith, t)), λ h. refl)
      | inr f ↦ rw f (elim (Bool-cases (ltb_ℤ (signed (lcn_field raw)) (pos 0))) [
        | inl t ↦ rw t (λ h. inr (inl (lcn.0 t)), λ h. refl)
        | inr g ↦ rw g (elim (Bool-cases (ltb_ℤ (signed (size_field raw)) (pos 0))) [
          | inl t ↦ rw t (λ h. inr (inr (size.0 t)), λ h. refl)
          | inr k ↦ rw k (
            λ h. absurd cc,
            λ h. elim h [
              | inl short ↦ absurd (ground (arith, short, f))
              | inr (inl p) ↦ absurd (true_not-false _ (lcn.1 p) g)
              | inr (inr p) ↦ absurd (true_not-false _ (size.1 p) k)
            ],
          )
        ])
      ])
    ]
