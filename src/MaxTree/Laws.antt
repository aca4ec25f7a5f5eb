-- ===== src/MaxTree/Laws.antt =====
-- What the max tree of src/lsdsk/domain/diagnostics.py relies on: the order of floats that are no
-- NaN, and the plain scan that the tree stands for.
use lsdsk.Prelude.{
  true_not-false, ℕ, ◌≡◌, inl, inr, true, false, Option, none, some, List, [], ◌∷◌, Bool-cases,
  if◌then◌else◌,
}
use lsdsk.Thresholds.{Floats}
use lsdsk.MaxTree.{better}

-- The comparisons of floats that are no NaN.
pub record IsComparable {F : Type 0} (floats : Floats F) : Type 0 where
  pub up :
      (a b n : F) → floats.less a b ≡ true → floats.at_least a n ≡ true → floats.at_least b n ≡ true
  pub down :
      (a b n : F)
      → floats.less a b ≡ false
      → floats.at_least b n ≡ true
      → floats.at_least a n ≡ true
  pub bottom :
      (n : F) → floats.less floats.minus_inf n ≡ true → floats.at_least floats.minus_inf n ≡ false

module _ {F : Type 0} (floats : Floats F) where
  -- The first position whose port gives `needs`, found along the list.
  abbrev pub scan : List ℕ → List F → F → Option ℕ
  scan [] ports needs = none
  scan (position ∷ positions) [] needs = none
  scan (position ∷ positions) (port ∷ ports) needs =
      let rest = scan positions ports needs in
      if floats.at_least port needs then some position else rest

  module _ (laws : IsComparable floats) where
    -- The better of two values falls short exactly where both do.
    pub better-false :
        (a b n : F)
        → floats.at_least (better floats a b) n ≡ false
        → (floats.at_least a n ≡ false) × (floats.at_least b n ≡ false)
    better-false a b n = elim (Bool-cases (floats.less a b)) [
      | inl t ↦ rw t (λ h. (
        elim (Bool-cases (floats.at_least a n)) [
          | inl k ↦ absurd (true_not-false _ (laws.up a b n t k) h)
          | inr k ↦ k
        ],
        h,
      ))
      | inr f ↦ rw f (λ h. (
        h,
        elim (Bool-cases (floats.at_least b n)) [
          | inl k ↦ absurd (true_not-false _ (laws.down a b n f k) h)
          | inr k ↦ k
        ],
      ))
    ]

    pub better-true :
        (a b n : F)
        → floats.at_least (better floats a b) n ≡ true
        → floats.at_least a n ≡ false
        → floats.at_least b n ≡ true
    better-true a b n = elim (Bool-cases (floats.less a b)) [
      | inl t ↦ rw t (λ h k. h)
      | inr f ↦ rw f (λ h k. absurd (true_not-false _ h k))
    ]
