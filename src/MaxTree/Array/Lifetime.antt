-- ===== src/MaxTree/Array/Lifetime.antt =====
-- A tree of src/lsdsk/domain/diagnostics.py from its building on, on the list that it keeps.
use lsdsk.Prelude.{
  ℕ, ◌+◌, ◌-◌, ◌*◌, ◌^◌, ◌<◌, ◌≤◌, ◌≡◌, refl, ◌∙◌, true, Option, none, some, List, [], ◌∷◌, length,
  All, arith, get_elem?,
}
use lsdsk.Prelude.Optional.{◌>>=◌}
use lsdsk.Thresholds.{Floats}
use lsdsk.MaxTree.{MaxTree, answer, descend, filled, leaves_for, build, remove, first_at_least}
use lsdsk.MaxTree.Laws.{IsComparable, scan}
use lsdsk.MaxTree.Descent.{leftmost, leftmost-suc, leftmost-zero, pow_pos}
use lsdsk.MaxTree.Scan.{below_pow}
use lsdsk.MaxTree.Represents.{build-Represents, leaves_for_room}
use lsdsk.MaxTree.Lifetime.{taken_all, remove_all, remove_all-Represents, first_at_least_always}
use lsdsk.MaxTree.Array.{PortTree, initial, build_tree, first_port_at_least, remove_leaf}
use lsdsk.MaxTree.Array.Filled.{initial-Holds}
use lsdsk.MaxTree.Array.Holds.{
  Holds, set_elem?-Yields, refit_each-Yields, climb_from-Yields, descend_from-some,
}

module _ {F : Type 0} (floats : Floats F) where
  -- The tree on the list and the one on the function from its indexes.
  record Stores (t : PortTree F) (u : MaxTree F) : Type 0 where
    pub positions_are : t.positions ≡ u.positions
    pub leaves_are : t.leaves ≡ u.leaves
    pub holds : Holds t.best u.best (2 * u.leaves)

  build_tree-Stores :
      (positions : List ℕ) (ports : List F)
      → (t : PortTree F) × (build_tree floats positions ports ≡ some t)
        × Stores t (build floats positions ports)
  unfolding build_tree build
  build_tree-Stores positions ports =
      let leaves = leaves_for floats ports in
      let room = leaves_for_room floats ports in
      let (best, e, h) =
        refit_each-Yields floats (initial floats leaves ports) (filled floats leaves ports)
          (2 * leaves) (leaves - 1) (initial-Holds floats leaves ports room.0)
          (omega (arith, room)) in
      (
        record { positions = positions; leaves = leaves; best = best },
        rw e refl,
        record { positions_are = refl; leaves_are = refl; holds = h },
      )

  remove_leaf-Stores :
      (t : PortTree F) (u : MaxTree F) (leaf : ℕ)
      → leaf < u.leaves
      → Stores t u
      → (t' : PortTree F) × (remove_leaf floats t leaf ≡ some t') × Stores t' (remove floats u leaf)
  unfolding remove_leaf remove
  remove_leaf-Stores t u leaf below s =
      let node = u.leaves + leaf in
      let (cleared, e, h) =
        set_elem?-Yields t.best u.best (2 * u.leaves) node floats.minus_inf s.holds (omega arith) in
      let (best, f, k) =
        climb_from-Yields floats node cleared _ u.leaves node h (omega arith) (omega arith) in
      (
        record { positions = t.positions; leaves = t.leaves; best = best },
        rw (s.leaves_are, e, f) refl,
        record { positions_are = s.positions_are; leaves_are = s.leaves_are; holds = k },
      )

  answer_is : (o : Option ℕ) → answer o ≡ (o >>= λ position. some (some position))
  answer_is none = refl
  answer_is (some position) = refl

  first_port_at_least-Stores :
      (t : PortTree F) (u : MaxTree F) (needs : F) (height : ℕ)
      → u.leaves ≡ 2 ^ height
      → Stores t u
      → first_port_at_least floats t needs ≡ first_at_least floats u needs
  unfolding first_port_at_least first_at_least
  first_port_at_least-Stores t u needs height full s =
      let start = leftmost-suc height 0 in
      let none_left = leftmost-zero height in
      let one : leftmost height (0 + 1) ≡ leftmost height 1 = refl in
      let root = s.holds.items 1 (omega (arith, full, pow_pos height)) in
      let end =
        descend_from-some floats height u.leaves t.best u.best u.leaves 1 needs s.holds
          (omega (arith, full, below_pow height)) (omega (arith, full, start, none_left, one)) in
      let node = descend floats u.leaves u.best needs u.leaves 1 in
      rw
        (
          root,
          s.leaves_are,
          s.positions_are,
          end,
          answer_is (get_elem? u.positions (node - u.leaves)),
        )
        refl

  -- The holders taken one after the other.
  abbrev pub remove_each : PortTree F → List ℕ → Option (PortTree F)
  remove_each t [] = some t
  remove_each t (leaf ∷ leaves) = remove_leaf floats t leaf >>= λ less. remove_each less leaves

  remove-leaves : (u : MaxTree F) (leaf : ℕ) → (remove floats u leaf).leaves ≡ u.leaves
  unfolding remove
  remove-leaves u leaf = refl

  remove_each-Stores :
      (t : PortTree F) (u : MaxTree F) (leaves : List ℕ) (n : ℕ)
      → n ≤ u.leaves
      → All (λ leaf. leaf < n) leaves
      → Stores t u
      → (t' : PortTree F) × (remove_each t leaves ≡ some t')
        × Stores t' (remove_all floats u leaves)
  remove_each-Stores t u [] n room below s = (t, refl, s)
  remove_each-Stores t u (leaf ∷ leaves) n room below s =
      let (less, e, k) = remove_leaf-Stores t u leaf (omega (arith, below.0, room)) s in
      let more : n ≤ (remove floats u leaf).leaves = rw (remove-leaves u leaf) room in
      rw e (remove_each-Stores less (remove floats u leaf) leaves n more below.1 k)

-- Of floats that are no NaN: building the tree of some holders, taking any of them out, and asking for
-- the first port that gives more than minus infinity never reads or writes past the end of a list,
-- and the loops end. The answer is that of a scan along the ports in which those of the taken holders
-- are minus infinity.
pub first_port_at_least_lem :
    {F : Type 0} (floats : Floats F) (laws : IsComparable floats) (positions : List ℕ)
    (ports : List F) (leaves : List ℕ) (needs : F)
    → length positions ≡ length ports
    → All (λ leaf. leaf < length ports) leaves
    → floats.less floats.minus_inf needs ≡ true
    → (build_tree floats positions ports >>= λ tree.
        remove_each floats tree leaves >>= λ less. first_port_at_least floats less needs)
      ≡ some (scan floats positions (taken_all floats ports leaves) needs)
first_port_at_least_lem floats laws positions ports leaves needs h below bounded =
    let (tree, e, s) = build_tree-Stores floats positions ports in
    let built = build-Represents floats positions ports h in
    let (less, f, k) =
      remove_each-Stores floats tree (build floats positions ports) leaves (length ports) built.room
        below s in
    let r =
      remove_all-Represents floats (build floats positions ports) positions ports leaves
        (length ports) refl below built in
    rw (e, f)
      (first_port_at_least-Stores floats less
          (remove_all floats (build floats positions ports) leaves) needs r.height r.leaves_are k
        ∙ first_at_least_always floats laws positions ports leaves needs h below bounded)
