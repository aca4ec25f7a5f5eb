-- ===== src/History/Merge/Sorted.antt =====
-- The hours that `_merged` of src/lsdsk/domain/history.py sorts.
use lsdsk.Prelude.{
  ◌≡◌, Bool, false, ◌||◌, List, [], ◌∷◌, All, any, Bool-cases, inl, inr, arith, refl,
}
use lsdsk.Prelude.Int.{ℤ, leb_ℤ, eqb_ℤ, ◌<ℤ◌}
use lsdsk.History.Merge.{place, sorted}

-- Each hour is earlier than every one after it.
abbrev pub Increasing : List ℤ → Type 0
Increasing [] = Unit
Increasing (x ∷ xs) = All (λ y. x <ℤ y) xs × Increasing xs

abbrev pub Distinct : List ℤ → Type 0
Distinct [] = Unit
Distinct (x ∷ xs) = All (λ y. eqb_ℤ x y ≡ false) xs × Distinct xs

abbrev pub has_hour : List ℤ → ℤ → Bool
has_hour hours h = any (λ x. eqb_ℤ x h) hours

All-place : (P : ℤ → Type 0) (x : ℤ) (xs : List ℤ) → P x → All P xs → All P (place x xs)
unfolding place
All-place P x [] p h = (p, tt)
All-place P x (y ∷ xs) p h = elim (Bool-cases (leb_ℤ x y)) [
  | inl l ↦ rw l (p, h)
  | inr g ↦ rw g (h.0, All-place P x xs p h.1)
]

All-sorted : (P : ℤ → Type 0) (xs : List ℤ) → All P xs → All P (sorted xs)
unfolding sorted
All-sorted P [] h = tt
All-sorted P (x ∷ xs) h = All-place P x (sorted xs) h.0 (All-sorted P xs h.1)

-- What lies past a later hour lies past an earlier one.
All-below : (x y : ℤ) (xs : List ℤ) → x <ℤ y → All (λ z. y <ℤ z) xs → All (λ z. x <ℤ z) xs
All-below x y [] l h = tt
All-below x y (z ∷ xs) l h = (omega (arith, h.0), All-below x y xs l h.1)

place-Increasing :
    (x : ℤ) (xs : List ℤ)
    → All (λ y. eqb_ℤ x y ≡ false) xs
    → Increasing xs
    → Increasing (place x xs)
unfolding place
place-Increasing x [] d h = (tt, tt)
place-Increasing x (y ∷ xs) d h = elim (Bool-cases (leb_ℤ x y)) [
  | inl l ↦ let lt : x <ℤ y = ground (arith, l, d.0) in rw l ((lt, All-below x y xs lt h.0), h)
  | inr g ↦
      rw g (All-place (λ z. y <ℤ z) x xs (ground (arith, g)) h.0, place-Increasing x xs d.1 h.1)
]

pub sorted-Increasing : (xs : List ℤ) → Distinct xs → Increasing (sorted xs)
unfolding sorted
sorted-Increasing [] d = tt
sorted-Increasing (x ∷ xs) d =
    place-Increasing x (sorted xs) (All-sorted (λ y. eqb_ℤ x y ≡ false) xs d.0)
      (sorted-Increasing xs d.1)

has_hour-place :
    (x : ℤ) (xs : List ℤ) (h : ℤ) → has_hour (place x xs) h ≡ (eqb_ℤ x h || has_hour xs h)
unfolding place
has_hour-place x [] h = refl
has_hour-place x (y ∷ xs) h = elim (Bool-cases (leb_ℤ x y)) [
  | inl l ↦ rw l refl
  | inr g ↦ rw (g, has_hour-place x xs h) (swap (eqb_ℤ y h) (eqb_ℤ x h) (has_hour xs h))
]
  where
    swap : (a b c : Bool) → (a || (b || c)) ≡ (b || (a || c))
    swap a b c = ground arith

pub has_hour-sorted : (xs : List ℤ) (h : ℤ) → has_hour (sorted xs) h ≡ has_hour xs h
unfolding sorted
has_hour-sorted [] h = refl
has_hour-sorted (x ∷ xs) h = rw (has_hour-place x (sorted xs) h, has_hour-sorted xs h) refl
