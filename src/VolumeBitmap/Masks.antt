-- ===== src/VolumeBitmap/Masks.antt =====
-- The masks of `_window` of src/lsdsk/adapters/hw/windows/volume_layout.py, digit by digit.
use Prim.Native.Nat.{bit_or, bit_and}
use lsdsk.Prelude.{
  passes, passes_at, ℕ, zero, suc, ◌-◌, ◌*◌, ◌^◌, ◌≤◌, ◌<◌, ◌≡◌, refl, ap, Bool, true, false, ◌&&◌,
  List, [], ◌∷◌, ◌++◌, length, take, drop, replicate, ltb, arith,
}
use lsdsk.VolumeBitmap.{bits}

abbrev same_bits : List Bool → List Bool → Bool
same_bits [] [] = true
same_bits (true ∷ us) (true ∷ vs) = same_bits us vs
same_bits (false ∷ us) (false ∷ vs) = same_bits us vs
same_bits us vs = false

same_bits_sound : (us vs : List Bool) → same_bits us vs ≡ true → us ≡ vs
same_bits_sound [] [] h = refl
same_bits_sound [] (v ∷ vs) h = absurd cc
same_bits_sound (true ∷ us) (true ∷ vs) h = ap (◌∷◌ true) (same_bits_sound us vs h)
same_bits_sound (false ∷ us) (false ∷ vs) h = ap (◌∷◌ false) (same_bits_sound us vs h)
same_bits_sound (true ∷ us) (false ∷ vs) h = absurd cc
same_bits_sound (false ∷ us) (true ∷ vs) h = absurd cc
same_bits_sound (true ∷ us) [] h = absurd cc
same_bits_sound (false ∷ us) [] h = absurd cc

both_true : (a b : Bool) → (a && b) ≡ true → (a ≡ true) × (b ≡ true)
both_true a b h = (ground (arith, h), ground (arith, h))

ltb_sound : (m n : ℕ) → ltb m n ≡ true → m < n
ltb_sound m n h = ground (arith, h)

-- Every byte with its lowest digits set, and with its highest.
abbrev low_case : ℕ → ℕ → Bool
low_case part b =
    same_bits (bits 8 (bit_or b (2 ^ part - 1))) (replicate part true ++ drop part (bits 8 b))
    && ltb (bit_or b (2 ^ part - 1)) 256

abbrev pub high_mask : ℕ → ℕ
high_mask part = bit_and (255 * 2 ^ part) 255

abbrev high_case : ℕ → ℕ → Bool
high_case part b =
    same_bits (bits 8 (bit_or b (high_mask part)))
      (take part (bits 8 b) ++ replicate (8 - part) true)
    && ltb (bit_or b (high_mask part)) 256

low_table : passes (λ part. passes (low_case part) 256) 8 ≡ true
low_table = refl

high_table : passes (λ part. passes (high_case part) 256) 8 ≡ true
high_table = refl

pub low_bits :
    (part b : ℕ)
    → part < 8
    → b < 256
    → (bits 8 (bit_or b (2 ^ part - 1)) ≡ replicate part true ++ drop part (bits 8 b))
      × (bit_or b (2 ^ part - 1) < 256)
low_bits part b p h =
    let row = passes_at (λ part. passes (low_case part) 256) 8 part p low_table in
    let cell = both_true _ _ (passes_at (low_case part) 256 b h row) in
    (same_bits_sound _ _ cell.0, ltb_sound _ 256 cell.1)

pub high_bits :
    (part b : ℕ)
    → part < 8
    → b < 256
    → (bits 8 (bit_or b (high_mask part)) ≡ take part (bits 8 b) ++ replicate (8 - part) true)
      × (bit_or b (high_mask part) < 256)
high_bits part b p h =
    let row = passes_at (λ part. passes (high_case part) 256) 8 part p high_table in
    let cell = both_true _ _ (passes_at (high_case part) 256 b h row) in
    (same_bits_sound _ _ cell.0, ltb_sound _ 256 cell.1)

module _ {A : Type 0} where
  pub take_all : (n : ℕ) (xs : List A) → length xs ≤ n → take n xs ≡ xs
  take_all zero [] h = refl
  take_all zero (x ∷ xs) h = absurd (omega arith)
  take_all (suc n) [] h = refl
  take_all (suc n) (x ∷ xs) h = ap (◌∷◌ x) (take_all n xs (omega arith))

  pub drop_within : (n : ℕ) (xs ys : List A) → n ≤ length xs → drop n (xs ++ ys) ≡ drop n xs ++ ys
  drop_within zero xs ys h = refl
  drop_within (suc n) [] ys h = absurd (omega arith)
  drop_within (suc n) (x ∷ xs) ys h = drop_within n xs ys (omega arith)

  pub take_within : (n : ℕ) (xs ys : List A) → n ≤ length xs → take n (xs ++ ys) ≡ take n xs
  take_within zero xs ys h = refl
  take_within (suc n) [] ys h = absurd (omega arith)
  take_within (suc n) (x ∷ xs) ys h = ap (◌∷◌ x) (take_within n xs ys (omega arith))

  pub take-replicate :
      (n m : ℕ) (a : A) (xs : List A)
      → m ≤ n
      → take n (replicate m a ++ xs) ≡ replicate m a ++ take (n - m) xs
  take-replicate n zero a xs h = let e : n - zero ≡ n = omega arith in rw e refl
  take-replicate zero (suc m) a xs h = absurd (omega arith)
  take-replicate (suc n) (suc m) a xs h =
      let e : suc n - suc m ≡ n - m = omega arith in
      rw e (ap (◌∷◌ a) (take-replicate n m a xs (omega arith)))
