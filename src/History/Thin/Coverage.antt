-- ===== src/History/Thin/Coverage.antt =====
-- The buckets of hours of `_spread_over_hours` in src/lsdsk/domain/history.py.
use native.Mathlib.Nat.{mul-le-mul_right, le-div_iff_mul-le, div-mul-le_self}
use lsdsk.Prelude.{
  ℕ, ◌+◌, ◌*◌, ◌/◌, ◌≤◌, ◌<◌, ◌≡◌, refl, Bool-cases, inl, inr, List, [], ◌∷◌, arith, leb, leb→le,
  leb-false, le→leb, Elem, All, false, length, last_from, All-Elem,
}
use lsdsk.Prelude.Int.{ℤ, ◌≤ℤ◌, monus_ℤ, leb_ℤ, ◌<ℤ◌}
use lsdsk.History.Types.{Sample}
use lsdsk.History.Thin.{bucket, spread, spread_over_hours}

-- The clock never falls from one sample to a later one.
abbrev pub IsClimbing : List Sample → Type 0
IsClimbing [] = Unit {0}
IsClimbing (x ∷ xs) = All (λ y. x.power_on_hours ≤ℤ y.power_on_hours) xs × IsClimbing xs

div_mono : (a b k : ℕ) → 0 < k → a ≤ b → a / k ≤ b / k
div_mono a b k h le = (le-div_iff_mul-le h).1 (omega (arith, div-mul-le_self a k))

bucket_mono :
    (room : ℕ) (start : ℤ) (span : ℕ) (h k : ℤ)
    → 0 < span
    → h ≤ℤ k
    → bucket room start span h ≤ bucket room start span k
unfolding bucket
bucket_mono room start span h k pos le =
    let less : monus_ℤ h start ≤ monus_ℤ k start = omega arith in
    let wide = mul-le-mul_right room less in
    omega (arith, div_mono (monus_ℤ h start * room) (monus_ℤ k start * room) span pos wide)

-- A kept sample that stands for `s`: in its bucket, and no younger.
abbrev pub Stands : (ℤ → ℕ) → List Sample → Sample → Type 0
Stands at kept s =
    (k : Sample) × Elem k kept
    × (at k.power_on_hours ≡ at s.power_on_hours)
    × (k.power_on_hours ≤ℤ s.power_on_hours)

module _ (room : ℕ) (start : ℤ) (span : ℕ) (pos_span : 0 < span) where
  Stands-later :
      (s x : Sample) {kept : List Sample}
      → Stands (bucket room start span) kept s
      → Stands (bucket room start span) (x ∷ kept) s
  Stands-later s x (k, m, e, le) = (k, Elem.there m, e, le)

  -- Every sample whose bucket is still open has one kept in its bucket that is no younger.
  spread_covers_from :
      (next : ℕ) (s : Sample) (xs : List Sample)
      → IsClimbing xs
      → next ≤ bucket room start span s.power_on_hours
      → Elem s xs
      → Stands (bucket room start span) (spread room start span next xs) s
  unfolding spread
  spread_covers_from next s [] c h m = elim m [ ]
  spread_covers_from next s (x ∷ xs) c h (Elem.here e) =
      let open_bucket : next ≤ bucket room start span x.power_on_hours = rw (← e) h in
      rw (le→leb _ _ open_bucket) (rw e (x, Elem.here refl, refl, omega arith))
  spread_covers_from next s (x ∷ xs) c h (Elem.there m) =
      let b = bucket room start span x.power_on_hours in
      let older = All-Elem (λ y. x.power_on_hours ≤ℤ y.power_on_hours) xs c.0 m in
      let climbs = bucket_mono room start span x.power_on_hours s.power_on_hours pos_span older in
      elim (Bool-cases (leb next b)) [
        | inl t ↦ rw t (elim (Bool-cases (leb (b + 1) (bucket room start span s.power_on_hours))) [
          | inl later ↦ Stands-later s x (spread_covers_from (b + 1) s xs c.1 (leb→le _ _ later) m)
          | inr same ↦ (x, Elem.here refl, omega (arith, leb-false _ _ same), older)
        ])
        | inr f ↦ rw f (spread_covers_from next s xs c.1 h m)
      ]

-- Where the middle is longer than the room for it and its clock never falls and ends past the
-- baseline's, every one of its samples has a kept one in its bucket that is no younger.
pub spread_over_hours_covers :
    (middle : List Sample) (room : ℕ) (after s : Sample)
    → room < length middle
    → after.power_on_hours <ℤ (last_from after middle).power_on_hours
    → IsClimbing middle
    → Elem s middle
    → Stands
        (bucket room after.power_on_hours
          (monus_ℤ (last_from after middle).power_on_hours after.power_on_hours))
        (spread_over_hours middle room after)
        s
unfolding spread_over_hours
spread_over_hours_covers middle room after s long past c m =
    let end = (last_from after middle).power_on_hours in
    let start = after.power_on_hours in
    let test1 : leb (length middle) room ≡ false = ground arith in
    let test2 : leb_ℤ end start ≡ false = ground arith in
    rw (test1, test2)
      (spread_covers_from room start (monus_ℤ end start) (omega arith) 0 s middle c (omega arith) m)
