-- ===== src/MaxTree/Above.antt =====
-- src/lsdsk/domain/models.py: `_FirstAbove`, a max tree that is asked for the first value above a
-- threshold which is not skipped. A NaN is held as minus infinity.
pub mod Found
pub mod Scan
use lsdsk.Prelude.{
  ℕ, zero, suc, ◌+◌, ◌-◌, ◌*◌, Bool, Option, none, some, List, [], ◌∷◌, leb, map, get_elem?,
  if◌then◌else◌,
}
use lsdsk.Prelude.Optional.{◌>>=◌}
use lsdsk.Thresholds.{Floats}
use lsdsk.MaxTree.{leaves_for}
use lsdsk.MaxTree.Array.{initial, refit_each}

module _ {F : Type 0} (floats : Floats F) where
  abbrev pub cleaned : F → F
  cleaned v = if floats.is_nan v then floats.minus_inf else v

  -- `_FirstAbove.__init__`: the array, for the number of leaves of the values; `none` is an `IndexError`.
  unfoldable pub build_above : List F → Option (List F)
  build_above values =
      refit_each floats (initial floats (leaves_for floats values) (map cleaned values))
        (leaves_for floats values - 1)

  -- The loop of `first_above`, whose stack has its top first; the outer `none` is an `IndexError` or
  -- out of fuel.
  unfoldable pub pop_pending : ℕ → List F → F → (ℕ → Bool) → ℕ → List ℕ → Option (Option ℕ)
  pop_pending leaves best threshold skip zero pending = none
  pop_pending leaves best threshold skip (suc fuel) [] = some none
  pop_pending leaves best threshold skip (suc fuel) (node ∷ pending) =
      let next = pop_pending leaves best threshold skip fuel pending in
      let deeper =
        pop_pending leaves best threshold skip fuel ((2 * node) ∷ (2 * node + 1) ∷ pending) in
      get_elem? best node >>= λ value.
      if floats.less threshold value
      then (if leb leaves node
          then (if skip (node - leaves) then next else some (some (node - leaves)))
          else deeper)
      else next

  -- `_FirstAbove.first_above`: no node is visited twice, and there are fewer than twice as many nodes as
  -- leaves.
  unfoldable pub first_above : List F → F → (ℕ → Bool) → Option (Option ℕ)
  first_above values threshold skip =
      let leaves = leaves_for floats values in
      build_above values >>= λ best. pop_pending leaves best threshold skip (2 * leaves) (1 ∷ [])
