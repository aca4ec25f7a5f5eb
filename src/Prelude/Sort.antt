-- ===== src/Prelude/Sort.antt =====
-- Python's `sorted`, which keeps items of one key in their order, with the order of the keys as a test.
use lsdsk.Prelude.Tests.{if◌then◌else◌}
use mathlib.Core.Bool.{Bool}
use mathlib.Core.List.{List, [], ◌∷◌}

module _ {ℓ} {A : Type ℓ} (comes_before : A → A → Bool) where
  unfoldable pub place_by : A → List A → List A
  place_by f [] = f ∷ []
  place_by f (g ∷ items) =
      let later = place_by f items in if comes_before f g then f ∷ g ∷ items else g ∷ later

  unfoldable pub sorted_by : List A → List A
  sorted_by [] = []
  sorted_by (f ∷ items) = place_by f (sorted_by items)
