-- ===== src/MaxTree/Above/Found.antt =====
-- What the loop of `_FirstAbove.first_above` of src/lsdsk/domain/models.py finds below a node.
use lsdsk.Prelude.{
  ℕ, zero, suc, ◌+◌, ◌-◌, ◌*◌, ◌^◌, ◌≤◌, ◌<◌, ◌≡◌, ◌⊎◌, inl, inr, refl, ◌∙◌, Bool, true, false,
  Option, none, some, All, List, [], ◌∷◌, leb, if◌then◌else◌, Bool-cases, arith, true_not-false,
}
use lsdsk.Thresholds.{Floats}
use lsdsk.MaxTree.{better}
use lsdsk.MaxTree.Heap.{Fits}
use lsdsk.MaxTree.Descent.{leftmost, leftmost-suc, leftmost_ge, twice_pow, pow_pos}
use lsdsk.MaxTree.Array.Holds.{Holds}
use lsdsk.MaxTree.Above.{pop_pending}

-- The strict order of floats, in which a NaN is above nothing and nothing is below minus infinity.
pub record IsStrict {F : Type 0} (floats : Floats F) : Type 0 where
  pub up : (a b t : F) → floats.less a b ≡ true → floats.less t a ≡ true → floats.less t b ≡ true
  pub down :
      (a b t : F)
      → floats.is_nan a ≡ false
      → floats.less a b ≡ false
      → floats.less t b ≡ true
      → floats.less t a ≡ true
  pub bottom : (t : F) → floats.less t floats.minus_inf ≡ false
  pub nan : (a t : F) → floats.is_nan a ≡ true → floats.less t a ≡ false
  pub finite : floats.is_nan floats.minus_inf ≡ false

abbrev pub first_of : Option ℕ → Option ℕ → Option ℕ
first_of none other = other
first_of (some i) other = some i

module _ {F : Type 0} (floats : Floats F) where
  -- The loop on the function that gives what the list holds at an index.
  unfoldable pub walk : ℕ → (ℕ → F) → F → (ℕ → Bool) → ℕ → List ℕ → Option (Option ℕ)
  walk leaves best threshold skip zero pending = none
  walk leaves best threshold skip (suc fuel) [] = some none
  walk leaves best threshold skip (suc fuel) (node ∷ pending) =
      let next = walk leaves best threshold skip fuel pending in
      let deeper = walk leaves best threshold skip fuel ((2 * node) ∷ (2 * node + 1) ∷ pending) in
      if floats.less threshold (best node)
      then (if leb leaves node
          then (if skip (node - leaves) then next else some (some (node - leaves)))
          else deeper)
      else next

  -- No index is past the end of the list.
  pub pop_pending-walk :
      (leaves : ℕ) (xs : List F) (best : ℕ → F) (threshold : F) (skip : ℕ → Bool) (fuel : ℕ)
      (pending : List ℕ)
      → Holds xs best (2 * leaves)
      → All (λ node. node < 2 * leaves) pending
      → pop_pending floats leaves xs threshold skip fuel pending
        ≡ walk leaves best threshold skip fuel pending
  unfolding pop_pending walk
  pop_pending-walk leaves xs best threshold skip zero pending h below = refl
  pop_pending-walk leaves xs best threshold skip (suc fuel) [] h below = refl
  pop_pending-walk leaves xs best threshold skip (suc fuel) (node ∷ pending) h below =
      let value = h.items node below.0 in
      let next = pop_pending-walk leaves xs best threshold skip fuel pending h below.1 in
      elim (Bool-cases (leb leaves node)) [
        | inl leaf ↦ rw (value, leaf, next) refl
        | inr inner ↦
            let low : node < leaves = ground arith in
            let deeper =
              pop_pending-walk leaves xs best threshold skip fuel
                ((2 * node) ∷ (2 * node + 1) ∷ pending) h (omega arith, (omega arith, below.1)) in
            rw (value, inner, next, deeper) refl
      ]

module _ {F : Type 0} (floats : Floats F) (strict : IsStrict floats) where
  neither_above :
      (a b t : F)
      → floats.is_nan a ≡ false
      → floats.less t (better floats a b) ≡ false
      → (floats.less t a ≡ false) × (floats.less t b ≡ false)
  neither_above a b t real = elim (Bool-cases (floats.less a b)) [
    | inl h ↦ rw h (λ k. (
      elim (Bool-cases (floats.less t a)) [
        | inl x ↦ absurd (true_not-false _ (strict.up a b t h x) k)
        | inr x ↦ x
      ],
      k,
    ))
    | inr h ↦ rw h (λ k. (
      k,
      elim (Bool-cases (floats.less t b)) [
        | inl x ↦ absurd (true_not-false _ (strict.down a b t real h x) k)
        | inr x ↦ x
      ],
    ))
  ]

module _ {F : Type 0} (floats : Floats F) (strict : IsStrict floats) (best : ℕ → F) (leaves : ℕ)
    (threshold : F) (skip : ℕ → Bool) (fits : (m : ℕ) → 1 ≤ m → m < leaves → Fits floats best m)
    (clean : (j : ℕ) → floats.is_nan (best j) ≡ false) where
  abbrev pub at_leaf : ℕ → Option ℕ
  at_leaf node =
      if floats.less threshold (best node)
      then (if skip (node - leaves) then none else some (node - leaves))
      else none

  -- The first leaf that qualifies, `r` levels below a node.
  abbrev pub found : ℕ → ℕ → Option ℕ
  found zero node = at_leaf node
  found (suc r) node = first_of (found r (2 * node)) (found r (2 * node + 1))

  -- Nothing qualifies below a node whose best is not above the threshold.
  found-none :
      (r node : ℕ)
      → 1 ≤ node
      → leftmost r node + 2 ^ r ≤ 2 * leaves
      → floats.less threshold (best node) ≡ false
      → found r node ≡ none
  found-none zero node pos inside h = rw h refl
  found-none (suc r) node pos inside h =
      let two = twice_pow r in
      let next = leftmost-suc r (2 * node) in
      let ge = leftmost_ge r (2 * node) in
      let some_leaf = pow_pos r in
      let fit = fits node pos (omega arith) in
      let (a, b) =
        neither_above floats strict (best (2 * node)) (best (2 * node + 1)) threshold
          (clean (2 * node)) (rw (← fit) h) in
      rw
        (
          found-none r (2 * node) (omega arith) (omega arith) a,
          found-none r (2 * node + 1) (omega arith) (omega arith) b,
        )
        refl

  -- With fuel for the nodes below it, the loop at a node ends with what is found below it, or goes on
  -- with the rest of the stack.
  abbrev pub Walks : ℕ → ℕ → ℕ → List ℕ → Type 0
  Walks r node fuel pending =
      ((i : ℕ) × (found r node ≡ some i)
        × (walk floats leaves best threshold skip fuel (node ∷ pending) ≡ some (some i)))
      ⊎ ((left : ℕ) × (found r node ≡ none)
          × (fuel + 1 ≤ left + 2 * 2 ^ r)
          × (walk floats leaves best threshold skip fuel (node ∷ pending)
              ≡ walk floats leaves best threshold skip left pending))

  walk-low :
      (r node fuel : ℕ) (pending : List ℕ)
      → 1 ≤ node
      → leftmost r node + 2 ^ r ≤ 2 * leaves
      → floats.less threshold (best node) ≡ false
      → Walks r node (suc fuel) pending
  unfolding walk
  walk-low r node fuel pending pos inside h =
      let some_leaf = pow_pos r in
      inr (fuel, found-none r node pos inside h, omega arith, rw h refl)

  walk-leaf :
      (node fuel : ℕ) (pending : List ℕ)
      → leaves ≤ node
      → floats.less threshold (best node) ≡ true
      → Walks 0 node (suc fuel) pending
  unfolding walk
  walk-leaf node fuel pending low h =
      let leaf : leb leaves node ≡ true = ground arith in
      elim (Bool-cases (skip (node - leaves))) [
        | inl s ↦ inr (fuel, rw (h, s) refl, omega arith, rw (h, leaf, s) refl)
        | inr s ↦ inl (node - leaves, rw (h, s) refl, rw (h, leaf, s) refl)
      ]

  walk-inner :
      (node fuel : ℕ) (pending : List ℕ)
      → node < leaves
      → floats.less threshold (best node) ≡ true
      → walk floats leaves best threshold skip (suc fuel) (node ∷ pending)
        ≡ walk floats leaves best threshold skip fuel ((2 * node) ∷ (2 * node + 1) ∷ pending)
  unfolding walk
  walk-inner node fuel pending below h =
      let inner : leb leaves node ≡ false = ground arith in rw (h, inner) refl

  pub walk-Walks :
      (r node fuel : ℕ) (pending : List ℕ)
      → 1 ≤ node
      → leaves ≤ leftmost r node
      → leftmost r node + 2 ^ r ≤ 2 * leaves
      → 2 * 2 ^ r ≤ fuel + 1
      → Walks r node fuel pending
  walk-Walks r node zero pending pos low inside room = absurd (omega (arith, pow_pos r))
  walk-Walks zero node (suc fuel) pending pos low inside room =
      elim (Bool-cases (floats.less threshold (best node))) [
        | inl h ↦ walk-leaf node fuel pending low h
        | inr h ↦ walk-low 0 node fuel pending pos inside h
      ]
  walk-Walks (suc r) node (suc fuel) pending pos low inside room =
      let two = twice_pow r in
      let next = leftmost-suc r (2 * node) in
      let ge = leftmost_ge r (2 * node) in
      let some_leaf = pow_pos r in
      elim (Bool-cases (floats.less threshold (best node))) [
        | inr h ↦ walk-low (suc r) node fuel pending pos inside h
        | inl h ↦
            let step = walk-inner node fuel pending (omega arith) h in
            elim (walk-Walks r (2 * node) fuel ((2 * node + 1) ∷ pending) (omega arith) low
              (omega arith) (omega arith)) [
                | inl (i, f, w) ↦ inl (i, rw f refl, step ∙ w)
                | inr (left, f, spent, w) ↦
                    elim (walk-Walks r (2 * node + 1) left pending (omega arith) (omega arith)
                      (omega arith) (omega arith)) [
                        | inl (i, g, v) ↦ inl (i, rw (f, g) refl, step ∙ w ∙ v)
                        | inr (rest, g, more, v) ↦
                            inr (rest, rw (f, g) refl, omega arith, step ∙ w ∙ v)
                      ]
              ]
      ]

  pub walk-end : (left : ℕ) → 1 ≤ left → walk floats leaves best threshold skip left [] ≡ some none
  unfolding walk
  walk-end zero h = absurd (omega arith)
  walk-end (suc left) h = refl
