-- ===== src/MaxTree.antt =====
-- src/lsdsk/domain/diagnostics.py: `_FirstPortAtLeast`, a max tree over the ports of a group of
-- drives. Array has its operations on the list it keeps; here the list is a function from its indexes,
-- which the proofs reason about.
pub mod Laws
pub mod Heap
pub mod Represents
pub mod Descent
pub mod Scan
pub mod Lifetime
pub mod Array
pub mod Above
pub mod Tests
use lsdsk.Prelude.{
  ℕ, zero, suc, ◌+◌, ◌-◌, ◌*◌, ◌/◌, ◌^◌, Bool, true, false, ◌&&◌, Option, none, some, List, [], ◌∷◌,
  ltb, leb, ◌==◌, length, get_elem?, if◌then◌else◌,
}
use lsdsk.Thresholds.{Floats}
use lsdsk.FreeSpace.Fragmentation.{bit_length}

pub record MaxTree (F : Type 0) : Type 0 where
  pub positions : List ℕ
  pub leaves : ℕ
  pub best : ℕ → F

-- `array[at] = value`
abbrev pub put : {F : Type 0} → (ℕ → F) → ℕ → F → ℕ → F
put best at value j = if j == at then value else best j

abbrev pub value_or : {F : Type 0} → F → Option F → F
value_or d none = d
value_or d (some v) = v

-- `self._positions[...]`
abbrev pub answer : Option ℕ → Option (Option ℕ)
answer none = none
answer (some position) = some (some position)

module _ {F : Type 0} (floats : Floats F) where
  -- `max(a, b)`
  abbrev pub better : F → F → F
  better a b = if floats.less a b then b else a

  -- `best[node] = max(best[2 * node], best[2 * node + 1])`
  abbrev pub refit : (ℕ → F) → ℕ → ℕ → F
  refit best node = put best node (better (best (2 * node)) (best (2 * node + 1)))

  -- `for node in range(k, 0, -1)`
  unfoldable pub refit_down : (ℕ → F) → ℕ → ℕ → F
  refit_down best zero = best
  refit_down best (suc k) = refit_down (refit best (suc k)) k

  -- The array before its inner nodes are computed.
  abbrev pub filled : ℕ → List F → ℕ → F
  filled leaves ports j =
      if leb leaves j
      then value_or floats.minus_inf (get_elem? ports (j - leaves))
      else floats.minus_inf

  -- `1 << max(len(ports) - 1, 0).bit_length()`
  abbrev pub leaves_for : List F → ℕ
  leaves_for ports = 2 ^ bit_length (length ports - 1)

  -- `_FirstPortAtLeast.__init__`
  unfoldable pub build : List ℕ → List F → MaxTree F
  build positions ports =
      let leaves = leaves_for ports in
      record {
        positions = positions;
        leaves = leaves;
        best = refit_down (filled leaves ports) (leaves - 1);
      }

  -- `while node < leaves`, which halves what is left each time: the number of leaves is fuel enough.
  unfoldable pub descend : ℕ → (ℕ → F) → F → ℕ → ℕ → ℕ
  descend leaves best needs zero node = node
  descend leaves best needs (suc fuel) node =
      let further =
        descend leaves best needs fuel
          (if floats.at_least (best (2 * node)) needs then 2 * node else 2 * node + 1) in
      if ltb node leaves then further else node

  -- `_FirstPortAtLeast.first_at_least`; the outer `none` is an `IndexError`.
  unfoldable pub first_at_least : MaxTree F → F → Option (Option ℕ)
  first_at_least t needs =
      let found = get_elem? t.positions (descend t.leaves t.best needs t.leaves 1 - t.leaves) in
      if floats.at_least (t.best 1) needs && floats.less floats.minus_inf needs
      then answer found
      else some none

  -- `while node > 1`, from a leaf to the root.
  unfoldable pub climb : ℕ → (ℕ → F) → ℕ → ℕ → F
  climb zero best node = best
  climb (suc fuel) best node =
      let refitted = climb fuel (refit best (node / 2)) (node / 2) in
      if ltb 1 node then refitted else best

  -- `_FirstPortAtLeast.remove`
  unfoldable pub remove : MaxTree F → ℕ → MaxTree F
  remove t leaf =
      let node = t.leaves + leaf in
      record t { best = climb node (put t.best node floats.minus_inf) node }
