-- ===== src/History/Merge/Groups.antt =====
-- How `merge_duplicate_series` of src/lsdsk/domain/history.py groups the copies of a series.
use mathlib.Core.Path.{subst}
use mathlib.Core.List.{append_assoc}
use text.Mathlib.Text.{◌==◌}
use text.Mathlib.TextEquality.{eq_iff}
use lsdsk.Prelude.{
  ◌≡◌, refl, sym, ap, ◌∙◌, String, false, Option, none, some, List, [], ◌∷◌, ◌++◌, arith, last_from,
  All, filter, if◌then◌else◌, Bool-cases, inl, inr,
}
use lsdsk.Prelude.Dict.{lookup, insert, lookup-insert, text_key}
use lsdsk.History.Types.{DiskSeries}
use lsdsk.History.Merge.{listed, add_copy, group_all}

abbrev pub Groups : Type 0
Groups = List (String × List DiskSeries)

-- The stored series under an identity, in file order.
abbrev pub copies_of : List DiskSeries → String → List DiskSeries
copies_of series i = filter (λ (s : DiskSeries). s.identity == i) series

abbrev pub extend : Option (List DiskSeries) → List DiskSeries → Option (List DiskSeries)
extend o [] = o
extend o (x ∷ xs) = some (listed o ++ (x ∷ xs))

extend_one :
    (o : Option (List DiskSeries)) (one : DiskSeries) (xs : List DiskSeries)
    → extend (some (listed o ++ (one ∷ []))) xs ≡ extend o (one ∷ xs)
unfolding listed
extend_one o one [] = refl
extend_one o one (x ∷ xs) = ap some (append_assoc (listed o) (one ∷ []) (x ∷ xs))

pub listed-extend : (xs : List DiskSeries) → listed (extend none xs) ≡ xs
unfolding listed
listed-extend [] = refl
listed-extend (x ∷ xs) = refl

lookup-add_copy :
    (d : Groups) (one : DiskSeries) (i : String)
    → lookup text_key i (add_copy d one) ≡ (
        if one.identity == i
        then some (listed (lookup text_key i d) ++ (one ∷ []))
        else lookup text_key i d)
unfolding add_copy
lookup-add_copy d one i = elim (Bool-cases (one.identity == i)) [
  | inl y ↦
      lookup-insert text_key one.identity i _ d
      ∙ rw y (
          ap (λ k. some (listed (lookup text_key k d) ++ (one ∷ []))) ((eq_iff one.identity i).0 y))
  | inr n ↦ lookup-insert text_key one.identity i _ d ∙ rw n refl
]

pub lookup-group_all :
    (d : Groups) (series : List DiskSeries) (i : String)
    → lookup text_key i (group_all d series) ≡ extend (lookup text_key i d) (copies_of series i)
unfolding group_all
lookup-group_all d [] i = refl
lookup-group_all d (one ∷ series) i =
    lookup-group_all (add_copy d one) series i
    ∙ ap (λ o. extend o (copies_of series i)) (lookup-add_copy d one i)
    ∙ elim (Bool-cases (one.identity == i)) [
      | inl y ↦ rw y (extend_one (lookup text_key i d) one (copies_of series i))
      | inr n ↦ rw n refl
    ]

-- A group is not empty, and its copies have the identity that it stands under.
abbrev pub Under : String → DiskSeries → Type 0
Under k s = s.identity ≡ k

abbrev pub IsGroup : String → List DiskSeries → Type 0
IsGroup k [] = ⊥
IsGroup k (s ∷ group) = All (Under k) (s ∷ group)

abbrev pub IsGrouped : Groups → Type 0
IsGrouped [] = Unit
IsGrouped ((k, group) ∷ d) = IsGroup k group × IsGrouped d

All-append :
    (k : String) (xs ys : List DiskSeries)
    → All (Under k) xs
    → All (Under k) ys
    → All (Under k) (xs ++ ys)
All-append k [] ys h g = g
All-append k (x ∷ xs) ys h g = (h.0, All-append k xs ys h.1 g)

IsGroup-append :
    (k : String) (group : List DiskSeries) (s : DiskSeries)
    → s.identity ≡ k
    → All (Under k) group
    → IsGroup k (group ++ (s ∷ []))
IsGroup-append k [] s e h = (e, tt)
IsGroup-append k (t ∷ group) s e h = (h.0, All-append k group (s ∷ []) h.1 (e, tt))

IsGroup-All : (k : String) (group : List DiskSeries) → IsGroup k group → All (Under k) group
IsGroup-All k [] g = tt
IsGroup-All k (s ∷ group) g = g

pub All-last :
    (k : String) (s : DiskSeries) (group : List DiskSeries)
    → All (Under k) (s ∷ group)
    → (last_from s group).identity ≡ k
All-last k s [] g = g.0
All-last k s (t ∷ group) g = All-last k t group g.1

insert-IsGrouped :
    (k : String) (group : List DiskSeries) (d : Groups)
    → IsGroup k group
    → IsGrouped d
    → IsGrouped (insert text_key k group d)
unfolding insert
insert-IsGrouped k group [] g h = (g, tt)
insert-IsGrouped k group ((j, old) ∷ d) g h = elim (Bool-cases (j == k)) [
  | inl y ↦ rw y (subst (λ x. IsGroup x group) (sym ((eq_iff j k).0 y)) g, h.1)
  | inr n ↦ rw n (h.0, insert-IsGrouped k group d g h.1)
]

lookup-IsGrouped :
    (k : String) (d : Groups) → IsGrouped d → All (Under k) (listed (lookup text_key k d))
unfolding lookup listed
lookup-IsGrouped k [] h = tt
lookup-IsGrouped k ((j, group) ∷ d) h = elim (Bool-cases (j == k)) [
  | inl y ↦ rw y (subst (λ x. All (Under x) group) ((eq_iff j k).0 y) (IsGroup-All j group h.0))
  | inr n ↦ rw n (lookup-IsGrouped k d h.1)
]

pub group_all-IsGrouped :
    (d : Groups) (series : List DiskSeries) → IsGrouped d → IsGrouped (group_all d series)
unfolding group_all add_copy
group_all-IsGrouped d [] h = h
group_all-IsGrouped d (one ∷ series) h = group_all-IsGrouped (add_copy d one) series (
    insert-IsGrouped one.identity _ d
      (IsGroup-append one.identity (listed (lookup text_key one.identity d)) one refl
        (lookup-IsGrouped one.identity d h))
      h)

-- No identity has two groups.
abbrev pub Unique : Groups → Type 0
Unique [] = Unit
Unique ((k, group) ∷ d) = (lookup text_key k d ≡ none) × Unique d

insert-Unique :
    (k : String) (group : List DiskSeries) (d : Groups)
    → Unique d
    → Unique (insert text_key k group d)
unfolding insert lookup
insert-Unique k group [] h = (refl, tt)
insert-Unique k group ((j, old) ∷ d) h = elim (Bool-cases (j == k)) [
  | inl y ↦ rw y h
  | inr n ↦
      rw n (lookup-insert text_key k j group d ∙ rw (other n) h.0, insert-Unique k group d h.1)
]
  where
    other : (j == k) ≡ false → (k == j) ≡ false
    other n = ground (arith, n, eq_iff j k, eq_iff k j)

pub group_all-Unique :
    (d : Groups) (series : List DiskSeries) → Unique d → Unique (group_all d series)
unfolding group_all add_copy
group_all-Unique d [] h = h
group_all-Unique d (one ∷ series) h =
    group_all-Unique (add_copy d one) series (insert-Unique one.identity _ d h)
