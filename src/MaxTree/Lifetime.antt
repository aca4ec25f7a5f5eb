-- ===== src/MaxTree/Lifetime.antt =====
-- A tree of src/lsdsk/domain/diagnostics.py from its building on, as leaves are taken out of it.
use lsdsk.Prelude.{ℕ, ◌<◌, ◌≡◌, true, List, [], ◌∷◌, some, length, All, refl, arith}
use lsdsk.Thresholds.{Floats}
use lsdsk.MaxTree.{MaxTree, build, remove, first_at_least}
use lsdsk.MaxTree.Laws.{IsComparable, scan}
use lsdsk.MaxTree.Represents.{Represents, taken, length-taken, build-Represents, remove-Represents}
use lsdsk.MaxTree.Scan.{first_at_least_lem}

module _ {F : Type 0} (floats : Floats F) where
  abbrev pub remove_all : MaxTree F → List ℕ → MaxTree F
  remove_all t [] = t
  remove_all t (leaf ∷ leaves) = remove_all (remove floats t leaf) leaves

  abbrev pub taken_all : List F → List ℕ → List F
  taken_all ports [] = ports
  taken_all ports (leaf ∷ leaves) = taken_all (taken floats ports leaf) leaves

  pub remove_all-Represents :
      (t : MaxTree F) (positions : List ℕ) (ports : List F) (leaves : List ℕ) (n : ℕ)
      → n ≡ length ports
      → All (λ leaf. leaf < n) leaves
      → Represents floats t positions ports
      → Represents floats (remove_all t leaves) positions (taken_all ports leaves)
  remove_all-Represents t positions ports [] n e h r = r
  remove_all-Represents t positions ports (leaf ∷ leaves) n e h r =
      remove_all-Represents (remove floats t leaf) positions (taken floats ports leaf) leaves n
        (omega (arith, e, length-taken floats ports leaf)) h.1
        (remove-Represents floats t positions ports leaf (omega (arith, h.0, e, r.room)) r)

-- Of floats that are no NaN: however many of its holders were taken since it was built, a tree answers
-- each question above minus infinity as a scan along the ports would in which those of the taken
-- holders are minus infinity.
pub first_at_least_always :
    {F : Type 0} (floats : Floats F) (laws : IsComparable floats) (positions : List ℕ)
    (ports : List F) (leaves : List ℕ) (needs : F)
    → length positions ≡ length ports
    → All (λ leaf. leaf < length ports) leaves
    → floats.less floats.minus_inf needs ≡ true
    → first_at_least floats (remove_all floats (build floats positions ports) leaves) needs
      ≡ some (scan floats positions (taken_all floats ports leaves) needs)
first_at_least_always floats laws positions ports leaves needs h below bounded =
    first_at_least_lem floats laws (remove_all floats (build floats positions ports) leaves)
      positions (taken_all floats ports leaves) needs
      (remove_all-Represents floats (build floats positions ports) positions ports leaves
        (length ports) refl below (build-Represents floats positions ports h))
      bounded
