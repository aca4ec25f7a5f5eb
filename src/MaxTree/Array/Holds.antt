-- ===== src/MaxTree/Array/Holds.antt =====
-- The list that `_FirstPortAtLeast` of src/lsdsk/domain/diagnostics.py keeps against the function from
-- its indexes: what one operation does to the two, with every index inside the list.
use lsdsk.Prelude.{
  ℕ, zero, suc, ◌+◌, ◌*◌, ◌/◌, ◌≤◌, ◌<◌, ◌≡◌, refl, ◌∙◌, true, false, Option, some, List, [], ◌∷◌,
  inl, inr, ltb, ◌==◌, length, get_elem?, arith, Bool-cases, if◌then◌else◌,
}
use lsdsk.Thresholds.{Floats}
use lsdsk.MaxTree.{put, better, refit, refit_down, climb, descend}
use lsdsk.MaxTree.Descent.{leftmost, leftmost-suc}
use lsdsk.MaxTree.Array.{set_elem?, refit_at, refit_each, descend_from, climb_from}

-- The list has `n` items, which are the values of a function at their indexes.
pub record Holds {F : Type 0} (xs : List F) (f : ℕ → F) (n : ℕ) : Type 0 where
  pub size : length xs ≡ n
  pub items : (i : ℕ) → i < n → get_elem? xs i ≡ some (f i)

-- An operation on the list that does not fail and leaves the values of a function.
abbrev pub Yields : {F : Type 0} → Option (List F) → (ℕ → F) → ℕ → Type 0
Yields {F} o f n = (ys : List F) × (o ≡ some ys) × Holds ys f n

here_items :
    {F : Type 0} (x v : F) (xs : List F) (i : ℕ)
    → get_elem? (v ∷ xs) i ≡ (if i == 0 then some v else get_elem? (x ∷ xs) i)
here_items x v xs zero = refl
here_items x v xs (suc i) = let e : (suc i == 0) ≡ false = ground arith in rw e refl

there_items :
    {F : Type 0} (x v : F) (xs ys : List F) (at : ℕ)
    → ((i : ℕ) → get_elem? ys i ≡ (if i == at then some v else get_elem? xs i))
    → (i : ℕ) → get_elem? (x ∷ ys) i ≡ (if i == suc at then some v else get_elem? (x ∷ xs) i)
there_items x v xs ys at g zero = let e : (0 == suc at) ≡ false = ground arith in rw e refl
there_items x v xs ys at g (suc i) = elim (Bool-cases (i == at)) [
  | inl t ↦ let e : (suc i == suc at) ≡ true = ground (arith, t) in rw e (g i ∙ rw t refl)
  | inr u ↦ let e : (suc i == suc at) ≡ false = ground (arith, u) in rw e (g i ∙ rw u refl)
]

set_elem?-some :
    {F : Type 0} (xs : List F) (at : ℕ) (v : F)
    → at < length xs
    → (ys : List F) × (set_elem? xs at v ≡ some ys)
      × (length ys ≡ length xs)
      × ((i : ℕ) → get_elem? ys i ≡ (if i == at then some v else get_elem? xs i))
unfolding set_elem?
set_elem?-some [] at v h = absurd (omega arith)
set_elem?-some (x ∷ xs) zero v h = (v ∷ xs, refl, refl, here_items x v xs)
set_elem?-some (x ∷ xs) (suc at) v h =
    let (ys, e, l, g) = set_elem?-some xs at v (omega arith) in
    (x ∷ ys, rw e refl, omega (arith, l), there_items x v xs ys at g)

pub set_elem?-Yields :
    {F : Type 0} (xs : List F) (f : ℕ → F) (n at : ℕ) (v : F)
    → Holds xs f n
    → at < n
    → Yields (set_elem? xs at v) (put f at v) n
set_elem?-Yields xs f n at v h below =
    let (ys, e, l, g) = set_elem?-some xs at v (omega (arith, h.size)) in
    (
      ys,
      e,
      record {
        size = l ∙ h.size;
        items = λ i inside.
            g i
            ∙ elim (Bool-cases (i == at)) [ inl t ↦ rw t refl | inr u ↦ rw u (h.items i inside) ];
      },
    )

module _ {F : Type 0} (floats : Floats F) where
  pub refit_at-Yields :
      (xs : List F) (f : ℕ → F) (n node : ℕ)
      → Holds xs f n
      → 2 * node + 1 < n
      → Yields (refit_at floats xs node) (refit floats f node) n
  unfolding refit_at
  refit_at-Yields xs f n node h below =
      let left = h.items (2 * node) (omega arith) in
      let right = h.items (2 * node + 1) (omega arith) in
      rw (left, right)
        (set_elem?-Yields xs f n node (better floats (f (2 * node)) (f (2 * node + 1))) h
          (omega arith))

  pub refit_each-Yields :
      (xs : List F) (f : ℕ → F) (n k : ℕ)
      → Holds xs f n
      → 2 * k + 1 < n
      → Yields (refit_each floats xs k) (refit_down floats f k) n
  unfolding refit_each refit_down
  refit_each-Yields xs f n zero h below = (xs, refl, h)
  refit_each-Yields xs f n (suc k) h below =
      let (ys, e, g) = refit_at-Yields xs f n (suc k) h below in
      rw e (refit_each-Yields ys (refit floats f (suc k)) n k g (omega arith))

  pub climb_from-Yields :
      (fuel : ℕ) (xs : List F) (f : ℕ → F) (leaves node : ℕ)
      → Holds xs f (2 * leaves)
      → node ≤ fuel
      → node < 2 * leaves
      → Yields (climb_from floats fuel xs node) (climb floats fuel f node) (2 * leaves)
  unfolding climb_from climb
  climb_from-Yields zero xs f leaves node h enough below =
      let low : ltb 1 node ≡ false = ground arith in rw low (xs, refl, h)
  climb_from-Yields (suc fuel) xs f leaves node h enough below = elim (Bool-cases (ltb 1 node)) [
    | inr low ↦ rw low (xs, refl, h)
    | inl high ↦
        let above : 1 < node = ground arith in
        let (ys, e, g) = refit_at-Yields xs f (2 * leaves) (node / 2) h (omega arith) in
        let less : node / 2 ≤ fuel = omega arith in
        let inside : node / 2 < 2 * leaves = omega arith in
        rw (high, e)
          (climb_from-Yields fuel ys (refit floats f (node / 2)) leaves (node / 2) g less inside)
  ]

  -- The walk down reads the list only above the leaves, and with as much fuel as there are levels below
  -- its node it does not run out.
  pub descend_from-some :
      (r fuel : ℕ) (xs : List F) (f : ℕ → F) (leaves node : ℕ) (needs : F)
      → Holds xs f (2 * leaves)
      → r ≤ fuel
      → leaves ≤ leftmost r node
      → descend_from floats leaves xs needs fuel node
        ≡ some (descend floats leaves f needs fuel node)
  unfolding descend_from descend
  descend_from-some zero zero xs f leaves node needs h room low =
      let leaf : ltb node leaves ≡ false = ground arith in rw leaf refl
  descend_from-some zero (suc fuel) xs f leaves node needs h room low =
      let leaf : ltb node leaves ≡ false = ground arith in rw leaf refl
  descend_from-some (suc r) zero xs f leaves node needs h room low = absurd (omega arith)
  descend_from-some (suc r) (suc fuel) xs f leaves node needs h room low =
      let next = leftmost-suc r (2 * node) in
      elim (Bool-cases (ltb node leaves)) [
        | inr leaf ↦ rw leaf refl
        | inl inner ↦
            let below : node < leaves = ground arith in
            let left = h.items (2 * node) (omega arith) in
            rw (inner, left)
              (elim (Bool-cases (floats.at_least (f (2 * node)) needs)) [
                | inl gives ↦
                    rw gives
                      (descend_from-some r fuel xs f leaves (2 * node) needs h (omega arith) low)
                | inr short ↦ rw short (
                    descend_from-some r fuel xs f leaves (2 * node + 1) needs h (omega arith)
                      (omega arith))
              ])
      ]
