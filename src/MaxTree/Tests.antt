-- ===== src/MaxTree/Tests.antt =====
-- Runs of the max tree, and each theorem at one where its hypotheses hold.
use lsdsk.Prelude.{
  ℕ, ◌≡◌, ◌==◌, refl, Bool, true, false, Option, none, some, List, [], ◌∷◌, arith, ltb, leb,
}
use lsdsk.Thresholds.{Floats}
use lsdsk.Thresholds.Examples.{whole}
use lsdsk.FreeSpace.Fragmentation.{halvings}
use lsdsk.Prelude.Optional.{◌>>=◌}
use lsdsk.MaxTree.Array.{
  build_tree, refit_each, refit_at, set_elem?, remove_leaf, climb_from, first_port_at_least,
  descend_from,
}
use lsdsk.MaxTree.Laws.{IsComparable}
use lsdsk.MaxTree.Array.Lifetime.{remove_each, first_port_at_least_lem}
use lsdsk.MaxTree.Above.{build_above, pop_pending, first_above}
use lsdsk.MaxTree.Above.Found.{IsStrict}
use lsdsk.MaxTree.Above.Scan.{first_above_lem}

comparable : IsComparable whole
comparable = record {
  up = λ a b n h k. ground (arith, h, k);
  down = λ a b n h k. ground (arith, h, k);
  bottom = λ n h. ground (arith, h);
}

-- The ports of the drives at the places 4, 7 and 9, in tenths of a gigabit per second.
abbrev ports : List ℕ
ports = 30 ∷ 120 ∷ 60 ∷ []

-- The tree of three holders, from which the second is taken.
abbrev asked : Option (Option ℕ)
asked = build_tree whole (4 ∷ 7 ∷ 9 ∷ []) ports >>= λ tree.
    remove_each whole tree (1 ∷ []) >>= λ less. first_port_at_least whole less 60

asked_run : asked ≡ some (some 9)
unfolding build_tree refit_each refit_at set_elem? remove_leaf climb_from first_port_at_least
    descend_from halvings
asked_run = refl

first_port_at_least_lem_example : asked ≡ some (some 9)
first_port_at_least_lem_example =
    first_port_at_least_lem whole comparable (4 ∷ 7 ∷ 9 ∷ []) ports (1 ∷ []) 60 refl
      (omega arith, tt) refl

abbrev less_real : Option ℕ → Option ℕ → Bool
less_real none b = false
less_real (some a) none = false
less_real (some a) (some b) = ltb a b

abbrev at_least_real : Option ℕ → Option ℕ → Bool
at_least_real none b = false
at_least_real (some a) none = false
at_least_real (some a) (some b) = leb b a

abbrev missing : Option ℕ → Bool
missing none = true
missing (some a) = false

-- Floats with a NaN, which is `none`.
abbrev with_nan : Floats (Option ℕ)
with_nan = record {
  zero = some 0;
  minus_inf = some 0;
  of_int = λ a. some (whole.of_int a);
  divide = λ a b. some (whole.divide a b);
  scale = λ a b. none;
  over = λ a b. none;
  shrink = λ a b. none;
  less = less_real;
  at_least = at_least_real;
  is_nan = missing;
}

less_real-up :
    (a b t : Option ℕ) → less_real a b ≡ true → less_real t a ≡ true → less_real t b ≡ true
less_real-up none b t = cc
less_real-up (some a) none t = cc
less_real-up (some a) (some b) none = cc
less_real-up (some a) (some b) (some t) = λ h k. ground (arith, h, k)

less_real-down :
    (a b t : Option ℕ)
    → missing a ≡ false
    → less_real a b ≡ false
    → less_real t b ≡ true
    → less_real t a ≡ true
less_real-down none b t = cc
less_real-down (some a) b none = cc
less_real-down (some a) none (some t) = cc
less_real-down (some a) (some b) (some t) = λ n h k. ground (arith, h, k)

less_real-bottom : (t : Option ℕ) → less_real t (some 0) ≡ false
less_real-bottom none = refl
less_real-bottom (some t) = ground arith

less_real-nan : (a t : Option ℕ) → missing a ≡ true → less_real t a ≡ false
less_real-nan none none h = refl
less_real-nan none (some t) h = refl
less_real-nan (some a) t h = cc

strict : IsStrict with_nan
strict = record {
  up = less_real-up;
  down = less_real-down;
  bottom = less_real-bottom;
  nan = less_real-nan;
  finite = refl;
}

-- Wear in percent, unknown for one drive.
abbrev rates : List (Option ℕ)
rates = some 3 ∷ none ∷ some 12 ∷ some 6 ∷ some 40 ∷ []

rates_above : first_above with_nan rates (some 4) (λ at. at == 2) ≡ some (some 3)
unfolding first_above build_above pop_pending refit_each refit_at set_elem? halvings
rates_above = refl

first_above_lem_example : first_above with_nan rates (some 4) (λ at. at == 2) ≡ some (some 3)
first_above_lem_example = first_above_lem with_nan rates (some 4) (λ at. at == 2) strict
