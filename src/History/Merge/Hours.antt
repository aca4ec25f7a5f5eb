-- ===== src/History/Merge/Hours.antt =====
-- The samples that `_merged` of src/lsdsk/domain/history.py makes of several copies of one series.
use lsdsk.Prelude.{
  ◌≡◌, refl, sym, ap, ◌∙◌, Bool, true, false, Option, none, some, List, [], ◌∷◌, ◌++◌, map, All,
  find, if◌then◌else◌, Bool-cases, inl, inr,
}
use lsdsk.Prelude.Int.{ℤ, eqb_ℤ, eqb_ℤ_iff}
use lsdsk.Prelude.Dict.{lookup, insert, lookup-insert, int_key}
use lsdsk.History.Types.{Sample, DiskSeries}
use lsdsk.History.Merge.{keep_hours, keep_copies, keys}
use lsdsk.History.Merge.Sorted.{Distinct}

abbrev pub later : Option Sample → Option Sample → Option Sample
later none old = old
later (some new) old = some new

-- The last of some samples that was read at an hour.
abbrev pub last_at : List Sample → ℤ → Option Sample
last_at [] h = none
last_at (s ∷ samples) h =
    later (last_at samples h) (if eqb_ℤ s.power_on_hours h then some s else none)

-- The samples of all copies, in the order of the file.
abbrev pub samples_in : List DiskSeries → List Sample
samples_in [] = []
samples_in (copy ∷ copies) = copy.samples ++ samples_in copies

abbrev pub at_hour : List Sample → ℤ → Option Sample
at_hour samples h = find (λ s. eqb_ℤ s.power_on_hours h) samples

abbrev pub hours : List Sample → List ℤ
hours samples = map (λ (s : Sample). s.power_on_hours) samples

-- Each sample stands under its own hour, and no hour twice.
abbrev pub IsKeyed : List (ℤ × Sample) → Type 0
IsKeyed [] = Unit
IsKeyed ((k, s) ∷ d) = (s.power_on_hours ≡ k) × IsKeyed d

insert-IsKeyed :
    (k : ℤ) (s : Sample) (d : List (ℤ × Sample))
    → s.power_on_hours ≡ k
    → IsKeyed d
    → IsKeyed (insert int_key k s d)
unfolding insert
insert-IsKeyed k s [] e h = (e, tt)
insert-IsKeyed k s ((j, t) ∷ d) e h = elim (Bool-cases (eqb_ℤ j k)) [
  | inl y ↦ rw y (e ∙ sym ((eqb_ℤ_iff j k).0 y), h.1)
  | inr n ↦ rw n (h.0, insert-IsKeyed k s d e h.1)
]

All-insert :
    (P : ℤ → Type 0) (k : ℤ) (s : Sample) (d : List (ℤ × Sample))
    → P k
    → All P (keys d)
    → All P (keys (insert int_key k s d))
unfolding insert
All-insert P k s [] p h = (p, tt)
All-insert P k s ((j, t) ∷ d) p h = elim (Bool-cases (eqb_ℤ j k)) [
  | inl y ↦ rw y h
  | inr n ↦ rw n (h.0, All-insert P k s d p h.1)
]

insert-Distinct :
    (k : ℤ) (s : Sample) (d : List (ℤ × Sample))
    → Distinct (keys d)
    → Distinct (keys (insert int_key k s d))
unfolding insert
insert-Distinct k s [] h = (tt, tt)
insert-Distinct k s ((j, t) ∷ d) h = elim (Bool-cases (eqb_ℤ j k)) [
  | inl y ↦ rw y h
  | inr n ↦ rw n (All-insert (λ y. eqb_ℤ j y ≡ false) k s d n h.0, insert-Distinct k s d h.1)
]

-- What the dictionary of hours keeps.
pub record IsSound (d : List (ℤ × Sample)) : Type 0 where
  pub keyed : IsKeyed d
  pub distinct : Distinct (keys d)

keep_hours-IsSound :
    (d : List (ℤ × Sample)) (samples : List Sample) → IsSound d → IsSound (keep_hours d samples)
unfolding keep_hours
keep_hours-IsSound d [] h = h
keep_hours-IsSound d (s ∷ samples) h =
    keep_hours-IsSound (insert int_key s.power_on_hours s d) samples (record {
      keyed = insert-IsKeyed s.power_on_hours s d refl h.keyed;
      distinct = insert-Distinct s.power_on_hours s d h.distinct;
    })

pub keep_copies-IsSound :
    (d : List (ℤ × Sample)) (copies : List DiskSeries) → IsSound d → IsSound (keep_copies d copies)
unfolding keep_copies
keep_copies-IsSound d [] h = h
keep_copies-IsSound d (copy ∷ copies) h =
    keep_copies-IsSound (keep_hours d copy.samples) copies (keep_hours-IsSound d copy.samples h)

later_assoc : (a b c : Option Sample) → later a (later b c) ≡ later (later a b) c
later_assoc none b c = refl
later_assoc (some x) b c = refl

pub later-none : (a : Option Sample) → a ≡ later a none
later-none none = refl
later-none (some x) = refl

lookup-keep_hours :
    (d : List (ℤ × Sample)) (samples : List Sample) (h : ℤ)
    → lookup int_key h (keep_hours d samples) ≡ later (last_at samples h) (lookup int_key h d)
unfolding keep_hours
lookup-keep_hours d [] h = refl
lookup-keep_hours d (s ∷ samples) h =
    lookup-keep_hours (insert int_key s.power_on_hours s d) samples h
    ∙ ap (later (last_at samples h))
        (lookup-insert int_key s.power_on_hours h s d ∙ chosen (eqb_ℤ s.power_on_hours h))
    ∙ later_assoc (last_at samples h) (if eqb_ℤ s.power_on_hours h then some s else none)
        (lookup int_key h d)
  where
    chosen :
        (b : Bool)
        → (if b then some s else lookup int_key h d)
          ≡ later (if b then some s else none) (lookup int_key h d)
    chosen true = refl
    chosen false = refl

last_at-append :
    (xs ys : List Sample) (h : ℤ) → last_at (xs ++ ys) h ≡ later (last_at ys h) (last_at xs h)
last_at-append [] ys h = later-none (last_at ys h)
last_at-append (x ∷ xs) ys h =
    let mine = if eqb_ℤ x.power_on_hours h then some x else none in
    ap (λ o. later o mine) (last_at-append xs ys h)
    ∙ sym (later_assoc (last_at ys h) (last_at xs h) mine)

pub lookup-keep_copies :
    (d : List (ℤ × Sample)) (copies : List DiskSeries) (h : ℤ)
    → lookup int_key h (keep_copies d copies)
      ≡ later (last_at (samples_in copies) h) (lookup int_key h d)
unfolding keep_copies
lookup-keep_copies d [] h = refl
lookup-keep_copies d (copy ∷ copies) h =
    lookup-keep_copies (keep_hours d copy.samples) copies h
    ∙ ap (later (last_at (samples_in copies) h)) (lookup-keep_hours d copy.samples h)
    ∙ later_assoc (last_at (samples_in copies) h) (last_at copy.samples h) (lookup int_key h d)
    ∙ ap (λ o. later o (lookup int_key h d))
        (sym (last_at-append copy.samples (samples_in copies) h))
