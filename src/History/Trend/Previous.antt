-- ===== src/History/Trend/Previous.antt =====
-- Which reading `_previous_reading` of src/lsdsk/domain/history.py compares the newest one with.
use mathlib.Core.List.{reverse, reverse-append}
use lsdsk.Prelude.{
  ◌≡◌, ◌⊎◌, inl, inr, refl, ap, true, false, List, [], ◌∷◌, arith, Elem, last_from, but_last, zip,
  find, find-Elem, find-none, Elem-append, Elem-append_right, Elem-append_left, Option-cases, ◌&&◌,
  Bool, ◌≢◌,
}
use lsdsk.Prelude.Int.{ℤ, eqb_ℤ_iff}
use lsdsk.History.Types.{Sample}
use lsdsk.History.Trend.{
  anchors, rows_behind, other_hour, row_or, sample_or, second_last, previous_reading,
}

pub Elem-reverse : {A : Type 0} {x : A} (xs : List A) → Elem x (reverse xs) → Elem x xs
Elem-reverse [] m = m
Elem-reverse (y ∷ ys) m = elim (Elem-append (reverse ys) (rw (reverse-append (y ∷ []) ys) at m)) [
  | inl l ↦ Elem.there (Elem-reverse ys l)
  | inr (Elem.here e) ↦ Elem.here e
  | inr (Elem.there n) ↦ elim n [ ]
]

pub Elem-reverse_back : {A : Type 0} {x : A} (xs : List A) → Elem x xs → Elem x (reverse xs)
Elem-reverse_back [] m = m
Elem-reverse_back (y ∷ ys) (Elem.here e) =
    rw (reverse-append (y ∷ []) ys) (Elem-append_right (reverse ys) (Elem.here e))
Elem-reverse_back (y ∷ ys) (Elem.there m) =
    rw (reverse-append (y ∷ []) ys) (Elem-append_left (y ∷ []) (Elem-reverse_back ys m))

pub Elem-zip :
    {A B : Type 0} (xs : List A) (ys : List B) (p : A × B) → Elem p (zip xs ys) → Elem p.0 xs
Elem-zip [] ys p m = elim m [ ]
Elem-zip (x ∷ xs) [] p m = elim m [ ]
Elem-zip (x ∷ xs) (y ∷ ys) p (Elem.here e) = Elem.here (ap (λ q. q.0) e)
Elem-zip (x ∷ xs) (y ∷ ys) p (Elem.there m) = Elem.there (Elem-zip xs ys p m)

-- A row behind the newest one is an earlier sample.
pub rows_behind-Elem :
    (first : Sample) (rest : List Sample) (row : Sample × Bool)
    → Elem row (rows_behind first rest)
    → Elem row.0 (but_last first rest)
unfolding rows_behind
rows_behind-Elem first rest row m =
    Elem-zip (but_last first rest) (anchors first rest) row
      (Elem-reverse (zip (but_last first rest) (anchors first rest)) m)

second_last-Elem :
    (first second : Sample) (rest : List Sample)
    → Elem (second_last first (second ∷ rest)) (but_last first (second ∷ rest))
second_last-Elem first second [] = Elem.here refl
second_last-Elem first second (x ∷ rest) = Elem.there (second_last-Elem second x rest)

other_hour-false : (hours : ℤ) (s : Sample) → other_hour hours s ≡ false → s.power_on_hours ≡ hours
other_hour-false hours s h = (eqb_ℤ_iff s.power_on_hours hours).0 (ground arith)

-- What `_previous_reading` is held to: an earlier reading, and one of another hour than the newest
-- one's wherever any earlier reading has another hour.
pub record IsPrevious (latest : ℤ) (earlier : List Sample) (s : Sample) : Type 0 where
  pub is_earlier : Elem s earlier
  pub other :
      (s.power_on_hours ≢ latest) ⊎ ((r : Sample) → Elem r earlier → r.power_on_hours ≡ latest)

other_hour-true : (hours : ℤ) (s : Sample) → other_hour hours s ≡ true → s.power_on_hours ≢ hours
other_hour-true hours s h e = ground (arith, (eqb_ℤ_iff s.power_on_hours hours).1 e)

-- Where the search for an anchored row fails, so may the search for any row of another hour.
elsewhere-IsPrevious :
    (first second : Sample) (rest : List Sample) (latest : ℤ)
    → IsPrevious latest (but_last first (second ∷ rest)) (
        sample_or
          (find (other_hour latest) (reverse (but_last first (second ∷ rest))))
          (second_last first (second ∷ rest)))
unfolding sample_or
elsewhere-IsPrevious first second rest latest =
    let earlier = but_last first (second ∷ rest) in
    elim (Option-cases (find (other_hour latest) (reverse earlier))) [
      | inl e ↦ rw e (record {
        is_earlier = second_last-Elem first second rest;
        other = inr (λ r m.
            other_hour-false latest r
              (find-none (other_hour latest) (reverse earlier) r e (Elem-reverse_back earlier m)));
      })
      | inr (s, e) ↦
          let found = find-Elem (other_hour latest) (reverse earlier) s e in
          rw e (record {
            is_earlier = Elem-reverse earlier found.0;
            other = inl (other_hour-true latest s found.1);
          })
    ]

-- Of two or more usable samples `_previous_reading` answers with an earlier one, whose hour differs
-- from the newest one's unless every earlier sample has the newest one's hour.
pub previous_reading-IsPrevious :
    (first second : Sample) (rest : List Sample)
    → IsPrevious
        (last_from second rest).power_on_hours
        (but_last first (second ∷ rest))
        (previous_reading first (second ∷ rest))
unfolding previous_reading row_or
previous_reading-IsPrevious first second rest =
    let latest = (last_from second rest).power_on_hours in
    let rows = rows_behind first (second ∷ rest) in
    let test : Sample × Bool → Bool = λ row. other_hour latest row.0 && row.1 in
    elim (Option-cases (find test rows)) [
      | inl e ↦ rw e (elsewhere-IsPrevious first second rest latest)
      | inr ((s, flag), e) ↦
          let found = find-Elem test rows (s, flag) e in
          rw e (record {
            is_earlier = rows_behind-Elem first (second ∷ rest) (s, flag) found.0;
            other = inl (other_hour-true latest s (ground (arith, found.1)));
          })
    ]

no_anchor : (latest : ℤ) (r : Sample) → (other_hour latest r && false) ≡ true → ⊥
no_anchor latest r h = ground (arith, h)

-- Where an earlier row of another hour than the newest one's may anchor a span, the previous reading
-- is such a row.
pub previous_reading_anchored :
    (first : Sample) (rest : List Sample) (s : Sample)
    → Elem (s, true) (rows_behind first rest)
    → s.power_on_hours ≢ (last_from first rest).power_on_hours
    → Elem (previous_reading first rest, true) (rows_behind first rest)
      × ((previous_reading first rest).power_on_hours ≢ (last_from first rest).power_on_hours)
unfolding previous_reading row_or
previous_reading_anchored first rest s m ne =
    let latest = (last_from first rest).power_on_hours in
    let rows = rows_behind first rest in
    let test : Sample × Bool → Bool = λ row. other_hour latest row.0 && row.1 in
    elim (Option-cases (find test rows)) [
      | inl e ↦
          absurd
            (ne (other_hour-false latest s (ground (arith, find-none test rows (s, true) e m))))
      | inr ((r, false), e) ↦ absurd (no_anchor latest r (find-Elem test rows (r, false) e).1)
      | inr ((r, true), e) ↦
          let found = find-Elem test rows (r, true) e in
          rw e (found.0, other_hour-true latest r (ground (arith, found.1)))
    ]
