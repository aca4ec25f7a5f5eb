-- ===== src/Prelude/Dict.antt =====
-- Python's `dict`: a list of keys and values in the order in which the keys were first set.
use lsdsk.Prelude.Tests.{if◌then◌else◌, ◌==◌ as ◌==ₙ◌, ==_iff}
use Prim.Native.Nat.{ℕ}
use mathlib.Core.Path.{◌≡◌, refl}
use mathlib.Core.Logic.{◌↔◌}
use mathlib.Core.Bool.{Bool, true}
use mathlib.Core.Option.{Option, none, some}
use mathlib.Core.List.{List, [], ◌∷◌}
use native.Mathlib.Omega.{arith}
use Prim.Native.String.{String}
use text.Mathlib.Text.{◌==◌}
use text.Mathlib.TextEquality.{eq_iff}
use lsdsk.Prelude.Int.{ℤ, eqb_ℤ, eqb_ℤ_iff}

-- An equality test of the keys.
pub record Key {ℓ} (K : Type ℓ) : Type ℓ where
  pub same : K → K → Bool
  pub same_iff : (a b : K) → (same a b ≡ true) ↔ (a ≡ b)

module _ {ℓ κ} {K : Type ℓ} {V : Type κ} where
  -- `d.get(k)`
  unfoldable pub lookup : Key K → K → List (K × V) → Option V
  lookup e k [] = none
  lookup e k ((j, v) ∷ d) = if e.same j k then some v else lookup e k d

  -- `d[k] = v`
  unfoldable pub insert : Key K → K → V → List (K × V) → List (K × V)
  insert e k v [] = (k, v) ∷ []
  insert e k v ((j, w) ∷ d) = if e.same j k then (j, v) ∷ d else (j, w) ∷ insert e k v d

  pub lookup-insert :
      (e : Key K) (k j : K) (v : V) (d : List (K × V))
      → lookup e j (insert e k v d) ≡ (if e.same k j then some v else lookup e j d)
  unfolding lookup insert
  lookup-insert e k j v [] = refl
  lookup-insert e k j v ((i, w) ∷ d) =
      ground (arith, e.same_iff k j, e.same_iff i k, e.same_iff i j, lookup-insert e k j v d)

abbrev pub text_key : Key String
text_key = record { same = ◌==◌; same_iff = eq_iff }

abbrev pub int_key : Key ℤ
int_key = record { same = eqb_ℤ; same_iff = eqb_ℤ_iff }

abbrev pub number_key : Key ℕ
number_key = record { same = ◌==ₙ◌; same_iff = ==_iff }
