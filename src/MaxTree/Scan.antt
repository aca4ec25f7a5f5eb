-- ===== src/MaxTree/Scan.antt =====
-- `_FirstPortAtLeast` of src/lsdsk/domain/diagnostics.py against a scan along the list.
use lsdsk.Prelude.{
  true_not-false, ℕ, zero, suc, ◌+◌, ◌-◌, ◌^◌, ◌≤◌, ◌<◌, ◌≡◌, refl, ◌∙◌, ap, true, false, none,
  some, List, [], ◌∷◌, inl, inr, length, get_elem?, get_elem?-some, arith, Bool-cases, Option-cases,
}
use lsdsk.Thresholds.{Floats}
use lsdsk.MaxTree.{MaxTree, value_or, descend, first_at_least}
use lsdsk.MaxTree.Laws.{IsComparable, scan}
use lsdsk.MaxTree.Represents.{Represents}
use lsdsk.MaxTree.Descent.{
  leftmost, leftmost-suc, leftmost-zero, twice_pow, pow_pos, none_below, IsFirst, descend-IsFirst,
}

pub below_pow : (h : ℕ) → h < 2 ^ h
below_pow zero = omega arith
below_pow (suc h) = omega (arith, twice_pow h, below_pow h, pow_pos h)

get_elem?-below :
    {A : Type 0} (xs : List A) (i : ℕ) (a : A) → get_elem? xs i ≡ some a → i < length xs
get_elem?-below [] i a h = cc
get_elem?-below (x ∷ xs) zero a h = omega arith
get_elem?-below (x ∷ xs) (suc i) a h = omega (arith, get_elem?-below xs i a h)

module _ {F : Type 0} (floats : Floats F) (needs : F) where
  scan-none :
      (positions : List ℕ) (ports : List F)
      → ((i : ℕ) (v : F) → get_elem? ports i ≡ some v → floats.at_least v needs ≡ false)
      → scan floats positions ports needs ≡ none
  scan-none [] ports h = refl
  scan-none (p ∷ positions) [] h = refl
  scan-none (p ∷ positions) (port ∷ ports) h =
      rw (h 0 port refl) (scan-none positions ports (λ i v e. h (suc i) v e))

  scan-some :
      (positions : List ℕ) (ports : List F) (k p : ℕ) (v : F)
      → get_elem? positions k ≡ some p
      → get_elem? ports k ≡ some v
      → floats.at_least v needs ≡ true
      → ((i : ℕ) (w : F) → i < k → get_elem? ports i ≡ some w → floats.at_least w needs ≡ false)
      → scan floats positions ports needs ≡ some p
  scan-some [] ports k p v a b c d = cc
  scan-some (q ∷ positions) [] k p v a b c d = cc
  scan-some (q ∷ positions) (port ∷ ports) zero p v a b c d =
      let e : floats.at_least port needs ≡ true = ground (arith, b, c) in rw e a
  scan-some (q ∷ positions) (port ∷ ports) (suc k) p v a b c d =
      rw (d 0 port (omega arith) refl)
        (scan-some positions ports k p v a b c (λ i w l e. d (suc i) w (omega arith) e))

module _ {F : Type 0} (floats : Floats F) (laws : IsComparable floats) (t : MaxTree F)
    (positions : List ℕ) (ports : List F) (needs : F) (r : Represents floats t positions ports)
    (bounded : floats.less floats.minus_inf needs ≡ true) where
  -- A leaf holds the port of its index.
  leaf_of :
      (i : ℕ) (v : F) → get_elem? ports i ≡ some v → (i < t.leaves) × (t.best (t.leaves + i) ≡ v)
  leaf_of i v e =
      let below = get_elem?-below ports i v e in
      let inside : i < t.leaves = omega (arith, below, r.room) in
      (inside, r.values i inside ∙ ap (value_or floats.minus_inf) e)

  root_leaves : (leftmost r.height 1 ≡ t.leaves) × (1 ≤ t.leaves) × (r.height ≤ t.leaves)
  root_leaves =
      let e : leftmost r.height (0 + 1) ≡ leftmost r.height 0 + 2 ^ r.height =
        leftmost-suc r.height 0 in
      (
        omega (arith, e, leftmost-zero r.height, r.leaves_are),
        omega (arith, r.leaves_are, pow_pos r.height),
        omega (arith, r.leaves_are, below_pow r.height),
      )

  short_case :
      floats.at_least (t.best 1) needs ≡ false
      → first_at_least floats t needs ≡ some (scan floats positions ports needs)
  unfolding first_at_least
  short_case short =
      let (start, pos, tall) = root_leaves in
      let nothing = scan-none floats needs positions ports (λ i v e.
        let leaf = leaf_of i v e in
        rw (← leaf.1) (
          none_below floats laws t.best t.leaves needs r.fits r.height 1 (omega arith)
            (omega (arith, start, r.leaves_are)) short (t.leaves + i) (omega (arith, start))
            (omega (arith, start, r.leaves_are, leaf.0)))) in
      rw (short, nothing) refl

  found_case :
      (i p : ℕ) (v : F)
      → get_elem? ports i ≡ some v
      → get_elem? positions i ≡ some p
      → floats.at_least (t.best 1) needs ≡ true
      → descend floats t.leaves t.best needs t.leaves 1 ≡ t.leaves + i
      → IsFirst floats laws t.best t.leaves needs r.fits t.leaves
          (t.leaves + t.leaves)
          (t.leaves + i)
      → first_at_least floats t needs ≡ some (scan floats positions ports needs)
  unfolding first_at_least
  found_case i p v ev ep enough d f =
      let leaf = leaf_of i v ev in
      let e : t.leaves + i - t.leaves ≡ i = omega arith in
      let found =
        scan-some floats needs positions ports i p v ep ev (rw (← leaf.1) f.enough) (λ j w l ew.
          let other = leaf_of j w ew in
          rw (← other.1) (f.first (t.leaves + j) (omega arith) (omega arith))) in
      rw (found, r.positions_are, enough, bounded, d, e, ep) refl

  -- Where the root is enough, the descent ends at a leaf that holds a port.
  enough_case :
      floats.at_least (t.best 1) needs ≡ true
      → first_at_least floats t needs ≡ some (scan floats positions ports needs)
  enough_case enough =
      let (start, pos, tall) = root_leaves in
      let end = descend floats t.leaves t.best needs t.leaves 1 in
      let f =
        descend-IsFirst floats laws t.best t.leaves needs r.fits r.height t.leaves 1 tall
          (omega arith) (omega (arith, start)) (omega (arith, start, r.leaves_are)) enough in
      let i = end - t.leaves in
      let at : end ≡ t.leaves + i = omega (arith, f.above, start) in
      let below : i < t.leaves = omega (arith, f.below, f.above, start, r.leaves_are) in
      elim (Option-cases (get_elem? ports i)) [
        | inl missing ↦ absurd (
            true_not-false _ f.enough
              (rw (at, r.values i below, missing) (laws.bottom needs bounded)))
        | inr (v, ev) ↦
            let port = get_elem?-below ports i v ev in
            let (p, ep) = get_elem?-some positions i (omega (arith, port, r.lengths)) in
            found_case i p v ev ep enough at (record {
              above = omega arith;
              below = omega arith;
              enough = rw (← at) f.enough;
              first = λ j a b. f.first j (omega (arith, a, start)) (omega (arith, at, b));
            })
      ]

-- Of floats that are no NaN, a tree that stands for some ports answers each question above minus
-- infinity as a scan along the list would: with the first position whose port gives what is needed,
-- and with none where no port does. It never indexes past the end of its positions.
pub first_at_least_lem :
    {F : Type 0} (floats : Floats F) (laws : IsComparable floats) (t : MaxTree F)
    (positions : List ℕ) (ports : List F) (needs : F)
    → Represents floats t positions ports
    → floats.less floats.minus_inf needs ≡ true
    → first_at_least floats t needs ≡ some (scan floats positions ports needs)
first_at_least_lem floats laws t positions ports needs r bounded =
    elim (Bool-cases (floats.at_least (t.best 1) needs)) [
      | inl enough ↦ enough_case floats laws t positions ports needs r bounded enough
      | inr short ↦ short_case floats laws t positions ports needs r bounded short
    ]
