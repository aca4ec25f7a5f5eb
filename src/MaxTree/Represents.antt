-- ===== src/MaxTree/Represents.antt =====
-- Which ports the max tree of src/lsdsk/domain/diagnostics.py stands for, from the tree that is built
-- to those that leaves were taken out of.
use lsdsk.Prelude.{
  ℕ, zero, suc, ◌+◌, ◌-◌, ◌*◌, ◌^◌, ◌≤◌, ◌<◌, ◌≡◌, refl, sym, ◌∙◌, ap, true, false, List, [], ◌∷◌,
  inl, inr, ltb, leb, ◌==◌, length, get_elem?, arith, Bool-cases,
}
use lsdsk.Thresholds.{Floats}
use lsdsk.FreeSpace.Fragmentation.{halvings, bit_length}
use lsdsk.FreeSpace.Fragmentation.Buckets.{bit_length_bounds}
use lsdsk.MaxTree.{MaxTree, put, value_or, filled, leaves_for, build, remove}
use lsdsk.MaxTree.Heap.{
  Fits, put-at, put-other, refit_down-above, refit_down-Fits, climb-Fits, climb-leaf,
}

module _ {F : Type 0} (floats : Floats F) where
  -- The tree of the holders at `positions`, whose ports are `ports`.
  pub record Represents (t : MaxTree F) (positions : List ℕ) (ports : List F) : Type 0 where
    pub positions_are : t.positions ≡ positions
    pub lengths : length positions ≡ length ports
    pub room : length ports ≤ t.leaves
    pub height : ℕ
    pub leaves_are : t.leaves ≡ 2 ^ height
    pub fits : (m : ℕ) → 1 ≤ m → m < t.leaves → Fits floats t.best m
    pub values :
        (i : ℕ)
        → i < t.leaves
        → t.best (t.leaves + i) ≡ value_or floats.minus_inf (get_elem? ports i)

  -- A port that is taken: its speed drops to minus infinity.
  abbrev pub taken : List F → ℕ → List F
  taken [] leaf = []
  taken (port ∷ ports) zero = floats.minus_inf ∷ ports
  taken (port ∷ ports) (suc leaf) = port ∷ taken ports leaf

  pub length-taken : (ports : List F) (leaf : ℕ) → length (taken ports leaf) ≡ length ports
  length-taken [] leaf = refl
  length-taken (port ∷ ports) zero = refl
  length-taken (port ∷ ports) (suc leaf) = omega (arith, length-taken ports leaf)

  get_elem?-taken :
      (ports : List F) (leaf : ℕ)
      → value_or floats.minus_inf (get_elem? (taken ports leaf) leaf) ≡ floats.minus_inf
  get_elem?-taken [] leaf = refl
  get_elem?-taken (port ∷ ports) zero = refl
  get_elem?-taken (port ∷ ports) (suc leaf) = get_elem?-taken ports leaf

  get_elem?-taken_at :
      (ports : List F) (leaf i : ℕ)
      → (i == leaf) ≡ true
      → value_or floats.minus_inf (get_elem? (taken ports leaf) i) ≡ floats.minus_inf
  get_elem?-taken_at ports leaf i h =
      let e : i ≡ leaf = ground (arith, h) in rw e (get_elem?-taken ports leaf)

  get_elem?-other :
      (ports : List F) (leaf i : ℕ)
      → (i == leaf) ≡ false
      → get_elem? (taken ports leaf) i ≡ get_elem? ports i
  get_elem?-other [] leaf i h = refl
  get_elem?-other (port ∷ ports) zero zero h = absurd (ground (arith, h))
  get_elem?-other (port ∷ ports) zero (suc i) h = refl
  get_elem?-other (port ∷ ports) (suc leaf) zero h = refl
  get_elem?-other (port ∷ ports) (suc leaf) (suc i) h =
      get_elem?-other ports leaf i (ground (arith, h))

  pub leaves_for_room :
      (ports : List F) → (length ports ≤ leaves_for floats ports) × (1 ≤ leaves_for floats ports)
  unfolding halvings
  leaves_for_room ports = elim (Bool-cases (ltb 0 (length ports - 1))) [
    | inl more ↦
        let b = bit_length_bounds (length ports - 1) (ground (arith, more)) in
        (omega (arith, b), omega (arith, b))
    | inr few ↦
        let e : length ports - 1 ≡ 0 = ground (arith, few) in
        rw e (ground (arith, few), omega arith)
  ]

  pub filled_leaf :
      (leaves : ℕ) (ports : List F) (i : ℕ)
      → filled floats leaves ports (leaves + i) ≡ value_or floats.minus_inf (get_elem? ports i)
  filled_leaf leaves ports i =
      let inside : leb leaves (leaves + i) ≡ true = ground arith in
      let e : leaves + i - leaves ≡ i = omega arith in rw (inside, e) refl

  -- The tree that is built stands for the ports it is built from.
  pub build-Represents :
      (positions : List ℕ) (ports : List F)
      → length positions ≡ length ports
      → Represents (build floats positions ports) positions ports
  unfolding build
  build-Represents positions ports h =
      let leaves = leaves_for floats ports in
      let room = leaves_for_room ports in
      record {
        positions_are = refl;
        lengths = h;
        room = room.0;
        height = bit_length (length ports - 1);
        leaves_are = refl;
        fits = λ m pos below.
            refit_down-Fits floats (filled floats leaves ports) (leaves - 1) m pos (omega arith);
        values = λ i inside.
            refit_down-above floats (filled floats leaves ports) (leaves - 1) (leaves + i)
              (omega (arith, room))
            ∙ filled_leaf leaves ports i;
      }

  -- Taking a leaf out of a tree leaves one that stands for the ports with that one taken.
  pub remove-Represents :
      (t : MaxTree F) (positions : List ℕ) (ports : List F) (leaf : ℕ)
      → leaf < t.leaves
      → Represents t positions ports
      → Represents (remove floats t leaf) positions (taken ports leaf)
  unfolding remove
  remove-Represents t positions ports leaf below r =
      let node = t.leaves + leaf in
      let cleared = put t.best node floats.minus_inf in
      record {
        positions_are = r.positions_are;
        lengths = r.lengths ∙ sym (length-taken ports leaf);
        room = omega (arith, r.room, length-taken ports leaf);
        height = r.height;
        leaves_are = r.leaves_are;
        fits = λ m pos inside.
            climb-Fits floats node cleared node t.leaves m (omega arith) (omega arith)
              (λ k p b n.
                put-other t.best node k _ (λ e. omega (arith, e, b))
                ∙ r.fits k p b
                ∙ sym (
                    rw
                      (
                        put-other t.best node (2 * k) floats.minus_inf (λ e. n (omega (arith, e))),
                        put-other t.best node (2 * k + 1) floats.minus_inf
                            (λ e. n (omega (arith, e))),
                      )
                      refl))
              pos inside;
        values = λ i inside.
            climb-leaf floats node cleared node t.leaves (t.leaves + i) (omega arith) (omega arith)
            ∙ elim (Bool-cases (i == leaf)) [
              | inl same ↦
                  put-at t.best node (t.leaves + i) _ (ground (arith, same))
                  ∙ sym (get_elem?-taken_at ports leaf i same)
              | inr other ↦
                  put-other t.best node (t.leaves + i) _ (λ e. ground (arith, e, other))
                  ∙ r.values i inside
                  ∙ ap (value_or floats.minus_inf) (sym (get_elem?-other ports leaf i other))
            ];
      }
