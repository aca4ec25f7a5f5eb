-- ===== src/History/Trend/Anchors.antt =====
-- The rows that `_anchors` of src/lsdsk/domain/history.py lets a span start at, and strays.
use lsdsk.Prelude.{
  ◌≡◌, ◌↔◌, ◌⊎◌, inl, inr, refl, ap, sym, true, some, List, [], ◌∷◌, ◌++◌, arith, length, get_elem?,
  All, last_from, Bool-cases, if◌then◌else◌, ◌&&◌, Bool, ◌∙◌,
}
use lsdsk.Prelude.Int.{ℤ, pos, negsuc, ◌≤ℤ◌, ◌<ℤ◌, leb_ℤ, max_ℤ}
use lsdsk.History.Types.{Sample}
use lsdsk.History.Trend.{anchors, anchors_from}

-- An earlier row stood higher, and the clock came back up to its hour with no restart in between.
abbrev pub Stray : ℤ → ℤ → List Sample → Type 0
Stray newest hours before =
    (older : List Sample) × (high : Sample) × (since : List Sample) × (before
      ≡ older ++ (high ∷ since))
    × (hours <ℤ high.power_on_hours)
    × (high.power_on_hours ≤ℤ newest)
    × All (λ row. row.power_on_hours ≤ℤ newest) since

-- What the loop holds after the rows before.
abbrev raised : ℤ → ℤ → Sample → ℤ
raised newest highest s =
    if leb_ℤ s.power_on_hours newest then max_ℤ highest s.power_on_hours else negsuc 0

abbrev reached : ℤ → ℤ → List Sample → ℤ
reached newest highest [] = highest
reached newest highest (s ∷ rest) = reached newest (raised newest highest s) rest

flag_at :
    (newest highest : ℤ) (before : List Sample) (s : Sample) (after : List Sample)
    → get_elem? (anchors_from newest highest (before ++ (s ∷ after))) (length before)
      ≡ some
          (leb_ℤ s.power_on_hours newest && leb_ℤ (reached newest highest before) s.power_on_hours)
unfolding anchors_from
flag_at newest highest [] s after = refl
flag_at newest highest (b ∷ before) s after =
    flag_at newest (raised newest highest b) before s after

reached-append :
    (newest highest : ℤ) (xs ys : List Sample)
    → reached newest highest (xs ++ ys) ≡ reached newest (reached newest highest xs) ys
reached-append newest highest [] ys = refl
reached-append newest highest (x ∷ xs) ys = reached-append newest (raised newest highest x) xs ys

reached_grows :
    (newest highest : ℤ) (xs : List Sample)
    → All (λ row. row.power_on_hours ≤ℤ newest) xs
    → highest ≤ℤ reached newest highest xs
reached_grows newest highest [] h = omega arith
reached_grows newest highest (x ∷ xs) h =
    ground (arith, reached_grows newest (max_ℤ highest x.power_on_hours) xs h.1)

raised_high :
    (newest highest : ℤ) (s : Sample)
    → s.power_on_hours ≤ℤ newest
    → s.power_on_hours ≤ℤ raised newest highest s
raised_high newest highest s h = ground arith

Stray-reached :
    (newest hours : ℤ) (before : List Sample)
    → Stray newest hours before
    → hours <ℤ reached newest (negsuc 0) before
Stray-reached newest hours before (older, high, since, e, above, le, all) =
    rw (e, reached-append)
      (omega (
        arith,
        raised_high newest (reached newest (negsuc 0) older) high le,
        reached_grows newest (raised newest (reached newest (negsuc 0) older) high) since all,
      ))

reached-Stray :
    (newest hours highest : ℤ) (before : List Sample)
    → pos 0 ≤ℤ hours
    → hours <ℤ reached newest highest before
    → ((hours <ℤ highest) × All (λ row. row.power_on_hours ≤ℤ newest) before)
      ⊎ Stray newest hours before
reached-Stray newest hours highest [] h lt = inl (lt, tt)
reached-Stray newest hours highest (x ∷ xs) h lt =
    elim (reached-Stray newest hours (raised newest highest x) xs h lt) [
      | inr (older, high, since, e, above, le, all) ↦
          inr (x ∷ older, high, since, ap (◌∷◌ x) e, above, le, all)
      | inl (below, all) ↦ elim (Bool-cases (leb_ℤ x.power_on_hours newest)) [
        | inl t ↦ elim (Bool-cases (leb_ℤ highest hours)) [
          | inl low ↦ inr ([], x, xs, refl, ground arith, ground arith, all)
          | inr up ↦ inl (ground arith, (ground arith, all))
        ]
        | inr f ↦ absurd (ground arith)
      ]
    ]

some_eq : (a b : Bool) → some a ≡ some b → a ≡ b
some_eq a b h = cc

flag_iff :
    (newest : ℤ) (before : List Sample) (s : Sample)
    → pos 0 ≤ℤ s.power_on_hours
    → ((leb_ℤ s.power_on_hours newest && leb_ℤ (reached newest (negsuc 0) before) s.power_on_hours)
        ≡ true)
      ↔ ((s.power_on_hours ≤ℤ newest) × ¬ (Stray newest s.power_on_hours before))
flag_iff newest before s h = (
  (λ t.
      (ground arith, λ stray. ground (arith, Stray-reached newest s.power_on_hours before stray))),
  (λ (le, free). elim (Bool-cases (leb_ℤ (reached newest (negsuc 0) before) s.power_on_hours)) [
    | inl t ↦ ground arith
    | inr f ↦ elim (reached-Stray newest s.power_on_hours (negsuc 0) before h (ground arith)) [
      | inl (below, all) ↦ absurd (omega arith)
      | inr stray ↦ absurd (free stray)
    ]
  ]),
)

-- In a series of usable samples, the row `s` (at a clock that is not negative) may anchor a span
-- exactly when its hour is at most the newest reading's and it is no stray: no earlier row stood
-- higher, at an hour that the newest reading has regained, with no row past the newest reading's
-- hour between the two.
pub anchors_iff :
    (first : Sample) (rest before : List Sample) (s : Sample) (after : List Sample)
    → first ∷ rest ≡ before ++ (s ∷ after)
    → pos 0 ≤ℤ s.power_on_hours
    → (get_elem? (anchors first rest) (length before) ≡ some true) ↔ (
        (s.power_on_hours ≤ℤ (last_from first rest).power_on_hours)
        × ¬ (Stray (last_from first rest).power_on_hours s.power_on_hours before))
unfolding anchors
anchors_iff first rest before s after e h =
    let newest = (last_from first rest).power_on_hours in
    let at : get_elem? (anchors_from newest (negsuc 0) (first ∷ rest)) (length before)
        ≡ some (
            leb_ℤ s.power_on_hours newest
            && leb_ℤ (reached newest (negsuc 0) before) s.power_on_hours) =
      rw e (flag_at newest (negsuc 0) before s after) in
    let both = flag_iff newest before s h in
    ((λ t. both.0 (some_eq _ true (sym at ∙ t))), (λ r. at ∙ ap some (both.1 r)))
