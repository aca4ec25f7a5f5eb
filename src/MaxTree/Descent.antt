-- ===== src/MaxTree/Descent.antt =====
-- `_FirstPortAtLeast.first_at_least` of src/lsdsk/domain/diagnostics.py: where the descent ends.
use native.Mathlib.Nat.{pow-suc}
use lsdsk.Prelude.{
  ℕ, zero, suc, ◌+◌, ◌*◌, ◌^◌, ◌≤◌, ◌<◌, ◌≡◌, refl, true, false, inl, inr, ltb, arith, Bool-cases,
}
use lsdsk.Thresholds.{Floats}
use lsdsk.MaxTree.{descend}
use lsdsk.MaxTree.Laws.{IsComparable, better-false, better-true}
use lsdsk.MaxTree.Heap.{Fits}

pub twice_pow : (r : ℕ) → 2 ^ suc r ≡ 2 ^ r + 2 ^ r
twice_pow r = rw pow-suc (omega arith)

pub pow_pos : (r : ℕ) → 1 ≤ 2 ^ r
pow_pos zero = omega arith
pow_pos (suc r) = omega (arith, twice_pow r, pow_pos r)

-- The first of the leaves below a node, `r` levels down; there are 2 ^ r of them.
abbrev pub leftmost : ℕ → ℕ → ℕ
leftmost zero node = node
leftmost (suc r) node = leftmost r (2 * node)

pub leftmost-suc : (r node : ℕ) → leftmost r (node + 1) ≡ leftmost r node + 2 ^ r
leftmost-suc zero node = omega arith
leftmost-suc (suc r) node =
    let e : 2 * (node + 1) ≡ 2 * node + 1 + 1 = omega arith in
    rw e (omega (arith, leftmost-suc r (2 * node + 1), leftmost-suc r (2 * node), twice_pow r))

pub leftmost-zero : (r : ℕ) → leftmost r 0 ≡ 0
leftmost-zero zero = refl
leftmost-zero (suc r) = leftmost-zero r

pub leftmost_ge : (r node : ℕ) → node ≤ leftmost r node
leftmost_ge zero node = omega arith
leftmost_ge (suc r) node = omega (arith, leftmost_ge r (2 * node))

module _ {F : Type 0} (floats : Floats F) (laws : IsComparable floats) (best : ℕ → F) (leaves : ℕ)
    (needs : F) (fits : (m : ℕ) → 1 ≤ m → m < leaves → Fits floats best m) where
  -- No leaf below a node that falls short is enough.
  pub none_below :
      (r node : ℕ)
      → 1 ≤ node
      → leftmost r node + 2 ^ r ≤ 2 * leaves
      → floats.at_least (best node) needs ≡ false
      → (j : ℕ) → leftmost r node ≤ j
      → j < leftmost r node + 2 ^ r
      → floats.at_least (best j) needs ≡ false
  none_below zero node pos inside short j low high =
      let e : j ≡ node = omega (arith, low, high) in rw e short
  none_below (suc r) node pos inside short j low high =
      let two = twice_pow r in
      let next = leftmost-suc r (2 * node) in
      let ge = leftmost_ge r (2 * node) in
      let fit = fits node pos (omega arith) in
      let both =
        better-false floats laws (best (2 * node)) (best (2 * node + 1)) needs (rw (← fit) short) in
      elim (Bool-cases (ltb j (leftmost r (2 * node) + 2 ^ r))) [
        | inl left ↦
            none_below r (2 * node) (omega arith) (omega arith) both.0 j low (ground (arith, left))
        | inr right ↦
            none_below r (2 * node + 1) (omega arith) (omega arith) both.1 j
              (ground (arith, right, next)) (omega arith)
      ]

  -- What the descent from a node ends at: a leaf that is enough, and the first one below the node.
  pub record IsFirst (low high i : ℕ) : Type 0 where
    pub above : low ≤ i
    pub below : i < high
    pub enough : floats.at_least (best i) needs ≡ true
    pub first : (j : ℕ) → low ≤ j → j < i → floats.at_least (best j) needs ≡ false

  descend_leaf : (fuel node : ℕ) → leaves ≤ node → descend floats leaves best needs fuel node ≡ node
  unfolding descend
  descend_leaf zero node h = refl
  descend_leaf (suc fuel) node h = ground (arith, h)

  pub descend-IsFirst :
      (r fuel node : ℕ)
      → r ≤ fuel
      → 1 ≤ node
      → leaves ≤ leftmost r node
      → leftmost r node + 2 ^ r ≤ 2 * leaves
      → floats.at_least (best node) needs ≡ true
      → IsFirst
          (leftmost r node)
          (leftmost r node + 2 ^ r)
          (descend floats leaves best needs fuel node)
  unfolding descend
  descend-IsFirst zero fuel node room pos low inside enough =
      rw (descend_leaf fuel node low) (record {
        above = omega arith;
        below = omega arith;
        enough = enough;
        first = λ j a b. absurd (omega (arith, a, b));
      })
  descend-IsFirst (suc r) zero node room pos low inside enough = absurd (omega arith)
  descend-IsFirst (suc r) (suc fuel) node room pos low inside enough =
      let two = twice_pow r in
      let some_leaf = pow_pos r in
      let next = leftmost-suc r (2 * node) in
      let ge = leftmost_ge r (2 * node) in
      let inner : ltb node leaves ≡ true = ground (arith, inside, two, ge, some_leaf) in
      let fit = fits node pos (omega arith) in
      elim (Bool-cases (floats.at_least (best (2 * node)) needs)) [
        | inl left ↦
            let ih =
              descend-IsFirst r fuel (2 * node) (omega arith) (omega arith) low (omega arith)
                left in
            rw (inner, left)
              (record {
                above = ih.above;
                below = omega (arith, ih.below, two);
                enough = ih.enough;
                first = ih.first;
              })
        | inr short ↦
            let right =
              better-true floats laws (best (2 * node)) (best (2 * node + 1)) needs
                (rw (← fit) enough) short in
            let ih =
              descend-IsFirst r fuel (2 * node + 1) (omega arith) (omega arith) (omega arith)
                (omega arith) right in
            rw (inner, short)
              (record {
                above = omega (arith, ih.above, next);
                below = omega (arith, ih.below, next, two);
                enough = ih.enough;
                first = λ j a b. elim (Bool-cases (ltb j (leftmost r (2 * node) + 2 ^ r))) [
                  | inl l ↦
                      none_below r (2 * node) (omega arith) (omega arith) short j a
                        (ground (arith, l))
                  | inr g ↦ ih.first j (ground (arith, g, next)) b
                ];
              })
      ]
