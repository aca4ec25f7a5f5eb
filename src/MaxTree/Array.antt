-- ===== src/MaxTree/Array.antt =====
-- `_FirstPortAtLeast` of src/lsdsk/domain/diagnostics.py on the list it keeps: `none` is an
-- `IndexError`, of a list that is read or written past its end.
pub mod Holds
pub mod Filled
pub mod Lifetime
use lsdsk.Prelude.{
  ℕ, zero, suc, ◌+◌, ◌-◌, ◌*◌, ◌/◌, Option, none, some, List, [], ◌∷◌, ◌++◌, ltb, length, get_elem?,
  take, drop, replicate, ◌&&◌, if◌then◌else◌,
}
use lsdsk.Prelude.Optional.{◌>>=◌}
use lsdsk.Thresholds.{Floats}
use lsdsk.MaxTree.{better, leaves_for}

-- `_positions`, `_leaves` and `_best`.
pub record PortTree (F : Type 0) : Type 0 where
  pub positions : List ℕ
  pub leaves : ℕ
  pub best : List F

-- `array[at] = value`
unfoldable pub set_elem? : {F : Type 0} → List F → ℕ → F → Option (List F)
set_elem? [] at value = none
set_elem? (x ∷ xs) zero value = some (value ∷ xs)
set_elem? (x ∷ xs) (suc at) value = set_elem? xs at value >>= λ ys. some (x ∷ ys)

-- `array[at : at + len(values)] = values`
abbrev pub set_slice : {F : Type 0} → List F → ℕ → List F → List F
set_slice array at values = take at array ++ (values ++ drop (at + length values) array)

module _ {F : Type 0} (floats : Floats F) where
  -- `best[node] = max(best[2 * node], best[2 * node + 1])`
  unfoldable pub refit_at : List F → ℕ → Option (List F)
  refit_at best node = get_elem? best (2 * node) >>= λ left.
      get_elem? best (2 * node + 1) >>= λ right. set_elem? best node (better floats left right)

  -- `for node in range(k, 0, -1)`
  unfoldable pub refit_each : List F → ℕ → Option (List F)
  refit_each best zero = some best
  refit_each best (suc k) = refit_at best (suc k) >>= λ refitted. refit_each refitted k

  -- The array before its inner nodes are computed.
  abbrev pub initial : ℕ → List F → List F
  initial leaves ports = set_slice (replicate (2 * leaves) floats.minus_inf) leaves ports

  -- `_FirstPortAtLeast.__init__`
  unfoldable pub build_tree : List ℕ → List F → Option (PortTree F)
  build_tree positions ports =
      let leaves = leaves_for floats ports in
      refit_each (initial leaves ports) (leaves - 1) >>= λ best.
      some (record { positions = positions; leaves = leaves; best = best })

  -- `while node < leaves`, with the number of leaves as fuel; without fuel it fails.
  unfoldable pub descend_from : ℕ → List F → F → ℕ → ℕ → Option ℕ
  descend_from leaves best needs zero node = if ltb node leaves then none else some node
  descend_from leaves best needs (suc fuel) node =
      let further = get_elem? best (2 * node) >>= λ left.
      descend_from leaves best needs fuel
        (if floats.at_least left needs then 2 * node else 2 * node + 1) in
      if ltb node leaves then further else some node

  -- `_FirstPortAtLeast.first_at_least`
  unfoldable pub first_port_at_least : PortTree F → F → Option (Option ℕ)
  first_port_at_least t needs =
      let found = descend_from t.leaves t.best needs t.leaves 1 >>= λ node.
      get_elem? t.positions (node - t.leaves) >>= λ position. some (some position) in
      get_elem? t.best 1 >>= λ root.
      if floats.at_least root needs && floats.less floats.minus_inf needs then found else some none

  -- `while node > 1`, with the node as fuel; without fuel it fails.
  unfoldable pub climb_from : ℕ → List F → ℕ → Option (List F)
  climb_from zero best node = if ltb 1 node then none else some best
  climb_from (suc fuel) best node =
      let further = refit_at best (node / 2) >>= λ refitted. climb_from fuel refitted (node / 2) in
      if ltb 1 node then further else some best

  -- `_FirstPortAtLeast.remove`
  unfoldable pub remove_leaf : PortTree F → ℕ → Option (PortTree F)
  remove_leaf t leaf =
      let node = t.leaves + leaf in
      set_elem? t.best node floats.minus_inf >>= λ cleared.
      climb_from node cleared node >>= λ best. some (record t { best = best })
