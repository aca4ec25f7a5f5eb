-- ===== src/MaxTree/Above/Scan.antt =====
-- `_FirstAbove` of src/lsdsk/domain/models.py against a scan along the list.
use lsdsk.Prelude.{
  ℕ, zero, suc, ◌+◌, ◌-◌, ◌*◌, ◌^◌, ◌≤◌, ◌<◌, ◌≡◌, refl, sym, ◌∙◌, ap, Bool, false, Option, none,
  some, List, [], ◌∷◌, inl, inr, length, get_elem?, map, if◌then◌else◌, arith, Bool-cases, leb,
  ◌==◌,
}
use lsdsk.Thresholds.{Floats}
use lsdsk.FreeSpace.Fragmentation.{bit_length}
use lsdsk.MaxTree.{refit, refit_down, filled, leaves_for, value_or}
use lsdsk.MaxTree.Heap.{Fits, refit_down-above, refit_down-Fits}
use lsdsk.MaxTree.Descent.{leftmost, leftmost-suc, leftmost-zero, twice_pow}
use lsdsk.MaxTree.Represents.{leaves_for_room, filled_leaf}
use lsdsk.MaxTree.Array.{initial}
use lsdsk.MaxTree.Array.Holds.{refit_each-Yields}
use lsdsk.MaxTree.Array.Filled.{initial-Holds}
use lsdsk.MaxTree.Above.{cleaned, build_above, first_above}
use lsdsk.MaxTree.Above.Found.{
  walk, pop_pending-walk, IsStrict, first_of, at_leaf, found, walk-Walks, walk-end,
}

module _ {F : Type 0} (floats : Floats F) where
  -- The position, from `at` on, of the first value above the threshold that is not skipped.
  abbrev pub scan_above : F → (ℕ → Bool) → ℕ → List F → Option ℕ
  scan_above threshold skip at [] = none
  scan_above threshold skip at (v ∷ values) =
      first_of (if floats.less threshold v then (if skip at then none else some at) else none)
        (scan_above threshold skip (at + 1) values)

  module _ (strict : IsStrict floats) where
    Clean : (ℕ → F) → Type 0
    Clean best = (j : ℕ) → floats.is_nan (best j) ≡ false

    cleaned-real : (v : F) → floats.is_nan (cleaned floats v) ≡ false
    cleaned-real v = elim (Bool-cases (floats.is_nan v)) [
      | inl t ↦ rw t strict.finite
      | inr f ↦ rw f f
    ]

    cleaned-less : (v t : F) → floats.less t (cleaned floats v) ≡ floats.less t v
    cleaned-less v t = elim (Bool-cases (floats.is_nan v)) [
      | inl n ↦ rw n (strict.bottom t ∙ sym (strict.nan v t n))
      | inr f ↦ rw f refl
    ]

    refit-Clean : (best : ℕ → F) (k : ℕ) → Clean best → Clean (refit floats best k)
    unfolding Clean
    refit-Clean best k h j = elim (Bool-cases (j == k)) [
      | inl e ↦ rw e (elim (Bool-cases (floats.less (best (2 * k)) (best (2 * k + 1)))) [
        | inl l ↦ rw l (h (2 * k + 1))
        | inr g ↦ rw g (h (2 * k))
      ])
      | inr n ↦ rw n (h j)
    ]

    refit_down-Clean : (best : ℕ → F) (k : ℕ) → Clean best → Clean (refit_down floats best k)
    unfolding refit_down
    refit_down-Clean best zero h = h
    refit_down-Clean best (suc k) h =
        refit_down-Clean (refit floats best (suc k)) k (refit-Clean best (suc k) h)

    value-clean :
        (values : List F) (i : ℕ)
        → floats.is_nan (value_or floats.minus_inf (get_elem? (map (cleaned floats) values) i))
          ≡ false
    value-clean [] i = strict.finite
    value-clean (v ∷ values) zero = cleaned-real v
    value-clean (v ∷ values) (suc i) = value-clean values i

    filled-Clean :
        (leaves : ℕ) (values : List F) → Clean (filled floats leaves (map (cleaned floats) values))
    unfolding Clean
    filled-Clean leaves values j = elim (Bool-cases (leb leaves j)) [
      | inl t ↦ rw t (value-clean values (j - leaves))
      | inr f ↦ rw f strict.finite
    ]

first_of_assoc : (a b c : Option ℕ) → first_of (first_of a b) c ≡ first_of a (first_of b c)
first_of_assoc none b c = refl
first_of_assoc (some i) b c = refl

first_of-none : (a : Option ℕ) → first_of a none ≡ a
first_of-none none = refl
first_of-none (some i) = refl

-- The first of `n` leaves from a node on that qualifies.
abbrev along : (ℕ → Option ℕ) → ℕ → ℕ → Option ℕ
along leaf node zero = none
along leaf node (suc n) = first_of (leaf node) (along leaf (node + 1) n)

along-add :
    (leaf : ℕ → Option ℕ) (node n m : ℕ)
    → along leaf node (n + m) ≡ first_of (along leaf node n) (along leaf (node + n) m)
along-add leaf node zero m =
    let e : node + 0 ≡ node = omega arith in
    let none_more : 0 + m ≡ m = omega arith in rw (e, none_more) refl
along-add leaf node (suc n) m =
    let e : node + suc n ≡ node + 1 + n = omega arith in
    let count : suc n + m ≡ suc (n + m) = omega arith in
    rw
      (e, count, first_of_assoc (leaf node) (along leaf (node + 1) n) (along leaf (node + 1 + n) m))
      (ap (first_of (leaf node)) (along-add leaf (node + 1) n m))

root-leftmost : (r : ℕ) → leftmost r 1 ≡ 2 ^ r
root-leftmost r =
    let e : leftmost r (0 + 1) ≡ leftmost r 0 + 2 ^ r = leftmost-suc r 0 in
    omega (arith, e, leftmost-zero r)

module _ {F : Type 0} (floats : Floats F) (strict : IsStrict floats) (values : List F)
    (threshold : F) (skip : ℕ → Bool) where
  abbrev leaves : ℕ
  leaves = leaves_for floats values

  abbrev start : ℕ → F
  start = filled floats leaves (map (cleaned floats) values)

  abbrev best : ℕ → F
  best = refit_down floats start (leaves - 1)

  best-Fits : (m : ℕ) → 1 ≤ m → m < leaves → Fits floats best m
  best-Fits m pos below = refit_down-Fits floats start (leaves - 1) m pos (omega arith)

  best-clean : (j : ℕ) → floats.is_nan (best j) ≡ false
  unfolding Clean
  best-clean =
      refit_down-Clean floats strict start (leaves - 1) (filled-Clean floats strict leaves values)

  abbrev leaf : ℕ → Option ℕ
  leaf = at_leaf floats strict best leaves threshold skip best-Fits best-clean

  -- What is found below a node is found along its leaves.
  found-along :
      (r node : ℕ)
      → found floats strict best leaves threshold skip best-Fits best-clean r node
        ≡ along leaf (leftmost r node) (2 ^ r)
  found-along zero node =
      sym
        (first_of-none (found floats strict best leaves threshold skip best-Fits best-clean 0 node))
  found-along (suc r) node =
      rw
        (
          twice_pow r,
          along-add leaf (leftmost r (2 * node)) (2 ^ r) (2 ^ r),
          found-along r (2 * node),
          found-along r (2 * node + 1),
          leftmost-suc r (2 * node),
        )
        refl

  -- The leaf of a value, and of no value.
  leaf-value :
      (i : ℕ)
      → leaf (leaves + i) ≡ (
          if floats.less threshold
            (value_or floats.minus_inf (get_elem? (map (cleaned floats) values) i))
          then (if skip i then none else some i)
          else none)
  leaf-value i =
      let room = leaves_for_room floats values in
      let e : leaves + i - leaves ≡ i = omega arith in
      let above =
        refit_down-above floats start (leaves - 1) (leaves + i) (omega (arith, room))
        ∙ filled_leaf floats leaves (map (cleaned floats) values) i in
      rw (above, e) refl

  along-none :
      (n i : ℕ)
      → ((j : ℕ) → i ≤ j → get_elem? (map (cleaned floats) values) j ≡ none)
      → along leaf (leaves + i) n ≡ none
  along-none zero i h = refl
  along-none (suc n) i h =
      let e : leaves + i + 1 ≡ leaves + (i + 1) = omega arith in
      rw (leaf-value i, h i (omega arith), strict.bottom threshold, e)
        (along-none n (i + 1) (λ j k. h j (omega arith)))

  along-scan :
      (rest : List F) (n i : ℕ)
      → length rest ≤ n
      → ((j : ℕ)
          → get_elem? (map (cleaned floats) values) (i + j)
            ≡ get_elem? (map (cleaned floats) rest) j)
      → along leaf (leaves + i) n ≡ scan_above floats threshold skip i rest
  along-scan [] n i room h =
      along-none n i (λ j k. let e : j ≡ i + (j - i) = omega arith in rw e (h (j - i)))
  along-scan (v ∷ rest) zero i room h = absurd (omega arith)
  along-scan (v ∷ rest) (suc n) i room h =
      let e : leaves + i + 1 ≡ leaves + (i + 1) = omega arith in
      let at : get_elem? (map (cleaned floats) values) i ≡ some (cleaned floats v) =
        let z : i ≡ i + 0 = omega arith in rw z (h 0) in
      rw (leaf-value i, at, cleaned-less floats strict v threshold, e)
        (ap (first_of (if floats.less threshold v then (if skip i then none else some i) else none))
          (along-scan rest n (i + 1) (omega arith)
            (λ j. let s : i + 1 + j ≡ i + suc j = omega arith in rw s (h (suc j)))))

  root_found :
      found floats strict best leaves threshold skip best-Fits best-clean
        (bit_length (length values - 1))
        1
      ≡ scan_above floats threshold skip 0 values
  root_found =
      let r = bit_length (length values - 1) in
      let start_at : leftmost r 1 ≡ leaves + 0 = omega (arith, root-leftmost r) in
      found-along r 1
      ∙ rw start_at (
          along-scan values (2 ^ r) 0 ((leaves_for_room floats values).0)
            (λ j. let z : 0 + j ≡ j = omega arith in rw z refl))

  walk_root :
      walk floats leaves best threshold skip (2 * leaves) (1 ∷ [])
      ≡ some (scan_above floats threshold skip 0 values)
  walk_root =
      let r = bit_length (length values - 1) in
      let root = root-leftmost r in
      elim (walk-Walks floats strict best leaves threshold skip best-Fits best-clean r 1
        (2 * leaves) [] (omega arith) (omega (arith, root)) (omega (arith, root)) (omega arith)) [
          | inl (i, f, w) ↦ w ∙ ap some (sym f ∙ root_found)
          | inr (left, f, spent, w) ↦
              w
              ∙ walk-end floats strict best leaves threshold skip best-Fits best-clean left
                  (omega arith)
              ∙ ap some (sym f ∙ root_found)
        ]

length-cleaned :
    {F : Type 0} (floats : Floats F) (values : List F)
    → length (map (cleaned floats) values) ≡ length values
length-cleaned floats [] = refl
length-cleaned floats (v ∷ values) = omega (arith, length-cleaned floats values)

-- The question that `_FirstAbove` answers is the one of a scan along the list: the position of the first
-- value above the threshold that is not skipped, or none. A NaN among the values is never the answer,
-- nor does it hide one. Neither building the tree nor asking it reads or writes past the end of the
-- list, and the loop ends within twice as many rounds as the tree has leaves.
pub first_above_lem :
    {F : Type 0} (floats : Floats F) (values : List F) (threshold : F) (skip : ℕ → Bool)
    → IsStrict floats
    → first_above floats values threshold skip ≡ some (scan_above floats threshold skip 0 values)
unfolding first_above build_above
first_above_lem floats values threshold skip strict =
    let leaves = leaves_for floats values in
    let room = leaves_for_room floats values in
    let kept = map (cleaned floats) values in
    let (best, e, h) =
      refit_each-Yields floats (initial floats leaves kept) (filled floats leaves kept) (2 * leaves)
        (leaves - 1)
        (initial-Holds floats leaves kept (omega (arith, room, length-cleaned floats values)))
        (omega (arith, room)) in
    rw e (
      pop_pending-walk floats leaves best
        (refit_down floats (filled floats leaves kept) (leaves - 1)) threshold skip (2 * leaves)
        (1 ∷ []) h (omega (arith, room), tt)
      ∙ walk_root floats strict values threshold skip)
