-- ===== src/History/Record/Pointwise.antt =====
-- What `record` of src/lsdsk/domain/history.py returns, one identity at a time.
use lsdsk.Prelude.{
  ℕ, ltb, ltb-false, ◌≡◌, refl, sym, ◌∙◌, String, true, Option, none, some, List, [], ◌∷◌, arith,
  map, if◌then◌else◌, is_some, some_value, Bool-cases, Option-cases, inl, inr,
}
use lsdsk.Prelude.Dict.{lookup, text_key}
use text.Mathlib.Text.{◌==◌}
use text.Mathlib.TextEquality.{eq_iff}
use lsdsk.History.Types.{History, Disk, DiskSeries, for_identity}
use lsdsk.History.Record.{
  record_all, record_series, with_series, record_history, is_colliding, collect, collect_one,
  opened,
}
use lsdsk.History.Record.Tally.{carriers, is_colliding_lem, prefer, last_under, by_identity_lem}
use lsdsk.History.Record.Refines.{
  reading, updated, at-record_all, at-record_all_colliding, record_all-IsSound, at, has, IsSound,
}

last_under-listed :
    (series : List DiskSeries) (k : String)
    → has (map (λ (s : DiskSeries). s.identity) series) k ≡ is_some (last_under series k)
last_under-listed [] k = refl
last_under-listed (s ∷ series) k = ground (arith, last_under-listed series k)

last_under-keyed :
    (series : List DiskSeries) (k : String) (s : DiskSeries)
    → last_under series k ≡ some s
    → s.identity ≡ k
last_under-keyed [] k s h = cc
last_under-keyed (x ∷ series) k s h = elim (Option-cases (last_under series k)) [
  | inr (y, e) ↦ last_under-keyed series k s (e ∙ ground arith)
  | inl e ↦ elim (Bool-cases (x.identity == k)) [
    | inl t ↦ let same : x ≡ s = ground arith in rw (← same) ((eq_iff x.identity k).0 t)
    | inr f ↦ ground arith
  ]
]

at-opened : (series : List DiskSeries) (k : String) → at (opened series) k ≡ last_under series k
unfolding opened lookup
at-opened series k = by_identity_lem [] series k ∙ prefer-none (last_under series k)
  where
    prefer-none : (o : Option DiskSeries) → prefer o none ≡ o
    prefer-none none = refl
    prefer-none (some s) = refl

opened-IsSound : (series : List DiskSeries) → IsSound (opened series)
opened-IsSound series = record {
  listed = λ k. rw (at-opened series k) (unfold opened in last_under-listed series k);
  keyed = λ k s e. last_under-keyed series k s (sym (at-opened series k) ∙ e);
}

-- What `collect` returns: there is a series under each listed identity, and only there.
collect_lem :
    (existing : List (String × DiskSeries)) (order : List String)
    → ((k : String) → has order k ≡ true → is_some (lookup text_key k existing) ≡ true)
    → ((k : String) (s : DiskSeries) → lookup text_key k existing ≡ some s → s.identity ≡ k)
    → (series : List DiskSeries) × (collect existing order ≡ some series)
      × ((i : String)
          → for_identity series i ≡ (if has order i then lookup text_key i existing else none))
unfolding collect for_identity collect_one
collect_lem existing [] known keyed = ([], refl, λ i. refl)
collect_lem existing (j ∷ order) known keyed =
    let (series, e, each) = collect_lem existing order (λ k h. known k (ground arith)) keyed in
    let (s, found) =
      some_value (lookup text_key j existing) (known j (rw ((eq_iff j j).1 refl) refl)) in
    (s ∷ series, rw (found, e) refl, λ i. ground (arith, each i, keyed j s found, eq_iff j i))

-- The series that one reading leaves under an identity: that of an identity which two drives of the
-- reading share is left alone.
abbrev pub recorded : Option ℕ → List DiskSeries → List Disk → String → String → Option DiskSeries
recorded cap series disks captured_at i =
    if ltb 1 (carriers disks i)
    then last_under series i
    else updated cap i (last_under series i) (reading disks captured_at i)

at-recorded :
    (cap : Option ℕ) (series : List DiskSeries) (disks : List Disk) (t i : String)
    → at (record_all (is_colliding disks) cap t disks (opened series)) i
      ≡ recorded cap series disks t i
at-recorded cap series disks t i = elim (Bool-cases (ltb 1 (carriers disks i))) [
  | inl c ↦ rw c (
      at-record_all_colliding (is_colliding disks) cap t disks (opened series) i
        (is_colliding_lem disks i ∙ c)
      ∙ at-opened series i)
  | inr f ↦
      rw (f, ← at-opened series i)
        (at-record_all (is_colliding disks) cap t disks (opened series) i
          (is_colliding_lem disks i ∙ f) (ltb-false 1 (carriers disks i) f))
]

listed_or_none : (o : Option DiskSeries) → (if is_some o then o else none) ≡ o
listed_or_none none = refl
listed_or_none (some s) = refl

record_series_lem :
    (series : List DiskSeries) (disks : List Disk) (t : String) (cap : Option ℕ)
    → (out : List DiskSeries) × (record_series series disks t cap ≡ some out)
      × ((i : String) → for_identity out i ≡ recorded cap series disks t i)
unfolding record_series
record_series_lem series disks t cap =
    let st = record_all (is_colliding disks) cap t disks (opened series) in
    let sound =
      record_all-IsSound (is_colliding disks) cap t disks (opened series) (opened-IsSound series) in
    let (out, e, each) =
      collect_lem st.existing st.order (λ k h. sym (sound.listed k) ∙ h) sound.keyed in
    (
      out,
      e,
      λ i.
          each i
          ∙ rw (sound.listed i) (listed_or_none (at st i) ∙ at-recorded cap series disks t i),
    )

-- `record` returns a history of the same machine and never raises a `KeyError`. Under an identity
-- that at most one drive of the reading carries, the series is the one last stored there with that
-- drive's sample folded in and the cap applied, or is as it was where no drive with a clock carries
-- it; under an identity that two drives share it is as it was.
pub record_pointwise :
    (history : History) (disks : List Disk) (t : String) (cap : Option ℕ)
    → (out : History) × (record_history history disks t cap ≡ some out)
      × (out.hostname ≡ history.hostname)
      × ((i : String) → for_identity out.series i ≡ recorded cap history.series disks t i)
unfolding record_history with_series
record_pointwise history disks t cap =
    let (out, e, each) = record_series_lem history.series disks t cap in
    (record { hostname = history.hostname; series = out }, rw e refl, refl, each)
