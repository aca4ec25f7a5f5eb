-- ===== src/History/Merge/Copies.antt =====
-- `merge_duplicate_series` of src/lsdsk/domain/history.py, one identity at a time.
use mathlib.Core.Path.{subst}
use text.Mathlib.Text.{◌==◌}
use text.Mathlib.TextEquality.{eq_iff}
use lsdsk.Prelude.{
  ◌≡◌, refl, sym, ap, ◌∙◌, String, Bool, true, false, Option, none, some, List, [], ◌∷◌, length,
  ◌≤◌, arith, last_from, if◌then◌else◌,
}
use lsdsk.Prelude.Dict.{lookup, text_key}
use lsdsk.History.Types.{DiskSeries, for_identity}
use lsdsk.History.Merge.{
  listed, group_all, merge_group, merge_groups, merge_duplicate_series, cons_some,
}
use lsdsk.History.Merge.Union.{IsUnion, merged-IsUnion}
use lsdsk.History.Merge.Groups.{
  Groups, copies_of, IsGroup, IsGrouped, Unique, lookup-group_all, listed-extend, All-last,
  group_all-IsGrouped, group_all-Unique,
}

-- What the copies of one identity make: nothing of none, the copy itself of one, and of more their
-- union under the newest copy's identity and model.
pub data IsMerge : List DiskSeries → Option DiskSeries → Type 0 where
  absent : IsMerge [] none
  alone : (s : DiskSeries) → IsMerge (s ∷ []) (some s)
  united :
      (first second : DiskSeries) (rest : List DiskSeries) (s : DiskSeries)
      → IsUnion (first ∷ second ∷ rest) (last_from second rest) s
      → IsMerge (first ∷ second ∷ rest) (some s)

-- One group, and what stands for it in the store.
merge_group-IsMerge :
    (k : String) (group : List DiskSeries)
    → IsGroup k group
    → (s : DiskSeries) × (merge_group group ≡ some s) × (s.identity ≡ k) × IsMerge group (some s)
unfolding merge_group
merge_group-IsMerge k [] g = absurd g
merge_group-IsMerge k (only ∷ []) g = (only, refl, g.0, alone only)
merge_group-IsMerge k (first ∷ second ∷ rest) g =
    let (s, e, u) = merged-IsUnion first (second ∷ rest) in
    (s, e, u.identity ∙ All-last k second rest g.1, united first second rest s u)

chosen :
    (b c : Bool) (s : DiskSeries) (group : List DiskSeries) (o : Option (List DiskSeries))
    (p : Option DiskSeries)
    → b ≡ c
    → IsMerge group (some s)
    → IsMerge (listed o) p
    → IsMerge (listed (if c then some group else o)) (if b then some s else p)
unfolding listed
chosen true c s group o p e m n = rw⁻¹ e m
chosen false c s group o p e m n = rw⁻¹ e n

nothing : (p : Option DiskSeries) → IsMerge [] p → p ≡ none
nothing _ absent = refl

none_left :
    (b : Bool) (s : DiskSeries) (p : Option DiskSeries) (xs : List DiskSeries)
    → (p ≡ none → xs ≡ [])
    → (if b then some s else p) ≡ none
    → (if b then s ∷ xs else xs) ≡ []
none_left true s p xs f e = cc
none_left false s p xs f e = f e

for_identity-none :
    (out : List DiskSeries) (i : String) → for_identity out i ≡ none → copies_of out i ≡ []
unfolding for_identity
for_identity-none [] i h = refl
for_identity-none (s ∷ out) i h =
    none_left (s.identity == i) s (for_identity out i) (copies_of out i) (for_identity-none out i) h

at_most_one :
    (b : Bool) (s : DiskSeries) (xs : List DiskSeries)
    → (b ≡ true → xs ≡ [])
    → length xs ≤ 1
    → length (if b then s ∷ xs else xs) ≤ 1
at_most_one true s xs f le = subst (λ ys. length (s ∷ ys) ≤ 1) (sym (f refl)) (omega arith)
at_most_one false s xs f le = le

merge_groups-IsMerge :
    (d : Groups)
    → IsGrouped d
    → Unique d
    → (out : List DiskSeries) × (merge_groups d ≡ some out)
      × ((i : String) → IsMerge (listed (lookup text_key i d)) (for_identity out i))
      × ((i : String) → length (copies_of out i) ≤ 1)
unfolding merge_groups lookup listed for_identity cons_some
merge_groups-IsMerge [] h u = ([], refl, (λ i. absent), λ i. omega arith)
merge_groups-IsMerge ((k, group) ∷ d) h u =
    let (s, e, same, m) = merge_group-IsMerge k group h.0 in
    let (out, r, rest, single) = merge_groups-IsMerge d h.1 u.1 in
    rw (e, r)
      (
        s ∷ out,
        refl,
        (λ i.
            chosen (s.identity == i) (k == i) s group (lookup text_key i d) (for_identity out i)
              (ap (λ x. x == i) same) m (rest i)),
        λ i.
            at_most_one (s.identity == i) s (copies_of out i)
              (λ y.
                let e' : k ≡ i = sym same ∙ (eq_iff s.identity i).0 y in
                for_identity-none out i (
                  nothing (for_identity out i) (
                    subst (λ o. IsMerge (listed o) (for_identity out i))
                      (ap (λ x. lookup text_key x d) (sym e') ∙ u.0) (rest i))))
              (single i),
      )

-- Merging a store never raises, and leaves at most one series under an identity: nothing where no series had it, the series
-- itself where one had it, and of two or more their union: the identity and the model of the last of
-- them, hours that only rise, and for each hour the last sample that any of them holds for it.
pub merge_duplicate_series-IsMerge :
    (series : List DiskSeries)
    → (out : List DiskSeries) × (merge_duplicate_series series ≡ some out)
      × ((i : String) → IsMerge (copies_of series i) (for_identity out i))
      × ((i : String) → length (copies_of out i) ≤ 1)
unfolding merge_duplicate_series lookup
merge_duplicate_series-IsMerge series =
    let (out, e, m, single) =
      merge_groups-IsMerge (group_all [] series) (group_all-IsGrouped [] series tt)
        (group_all-Unique [] series tt) in
    (out, e, (λ i. subst (λ g. IsMerge g (for_identity out i)) (group i) (m i)), single)
  where
    group : (i : String) → listed (lookup text_key i (group_all [] series)) ≡ copies_of series i
    group i = ap listed (lookup-group_all [] series i) ∙ listed-extend (copies_of series i)
