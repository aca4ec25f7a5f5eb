-- ===== src/History/Merge.antt =====
-- src/lsdsk/domain/history.py: `merge_duplicate_series`, one series for each drive of a store.
pub mod Sorted
pub mod Hours
pub mod Union
pub mod Groups
pub mod Copies
pub mod Tests
use lsdsk.Prelude.{String, Option, none, some, List, [], ◌∷◌, ◌++◌, map, last_from, if◌then◌else◌}
use lsdsk.Prelude.Int.{ℤ, leb_ℤ}
use lsdsk.Prelude.Dict.{lookup, insert, text_key, int_key}
use lsdsk.History.Types.{Sample, DiskSeries}

unfoldable pub listed : Option (List DiskSeries) → List DiskSeries
listed none = []
listed (some group) = group

-- `copies.setdefault(one.identity, []).append(one)`
unfoldable pub add_copy :
    List (String × List DiskSeries) → DiskSeries → List (String × List DiskSeries)
add_copy copies one =
    insert text_key one.identity (listed (lookup text_key one.identity copies) ++ (one ∷ [])) copies

unfoldable pub group_all :
    List (String × List DiskSeries) → List DiskSeries → List (String × List DiskSeries)
group_all copies [] = copies
group_all copies (one ∷ series) = group_all (add_copy copies one) series

-- `by_hour[sample.power_on_hours] = sample`, for each sample of one copy.
unfoldable pub keep_hours : List (ℤ × Sample) → List Sample → List (ℤ × Sample)
keep_hours by_hour [] = by_hour
keep_hours by_hour (sample ∷ samples) =
    keep_hours (insert int_key sample.power_on_hours sample by_hour) samples

unfoldable pub keep_copies : List (ℤ × Sample) → List DiskSeries → List (ℤ × Sample)
keep_copies by_hour [] = by_hour
keep_copies by_hour (copy ∷ copies) = keep_copies (keep_hours by_hour copy.samples) copies

abbrev pub keys {ℓ κ} : {K : Type ℓ} {V : Type κ} → List (K × V) → List K
keys [] = []
keys ((k, v) ∷ d) = k ∷ keys d

-- `sorted`, of hours
unfoldable pub place : ℤ → List ℤ → List ℤ
place hour [] = hour ∷ []
place hour (first ∷ rest) =
    let later = place hour rest in if leb_ℤ hour first then hour ∷ first ∷ rest else first ∷ later

unfoldable pub sorted : List ℤ → List ℤ
sorted [] = []
sorted (hour ∷ hours) = place hour (sorted hours)

unfoldable pub cons_some {ℓ} : {A : Type ℓ} → Option A → Option (List A) → Option (List A)
cons_some none rest = none
cons_some (some a) none = none
cons_some (some a) (some rest) = some (a ∷ rest)

-- `by_hour[hour] for hour in hours`; `none` is a `KeyError`.
unfoldable pub samples_at : List (ℤ × Sample) → List ℤ → Option (List Sample)
samples_at by_hour [] = some []
samples_at by_hour (hour ∷ hours) =
    cons_some (lookup int_key hour by_hour) (samples_at by_hour hours)

pub series_of : DiskSeries → Option (List Sample) → Option DiskSeries
series_of newest none = none
series_of newest (some samples) =
    some (record { identity = newest.identity; model = newest.model; samples = samples })

-- `_merged`, of the copies `first ∷ rest`
unfoldable pub merged : DiskSeries → List DiskSeries → Option DiskSeries
unfolding series_of
merged first rest =
    let by_hour = keep_copies [] (first ∷ rest) in
    series_of (last_from first rest) (samples_at by_hour (sorted (keys by_hour)))

-- A group is never empty; an empty one would be an `IndexError`.
unfoldable pub merge_group : List DiskSeries → Option DiskSeries
merge_group [] = none
merge_group (only ∷ []) = some only
merge_group (first ∷ second ∷ rest) = merged first (second ∷ rest)

unfoldable pub merge_groups : List (String × List DiskSeries) → Option (List DiskSeries)
merge_groups [] = some []
merge_groups ((identity, group) ∷ copies) = cons_some (merge_group group) (merge_groups copies)

-- `merge_duplicate_series`
unfoldable pub merge_duplicate_series : List DiskSeries → Option (List DiskSeries)
merge_duplicate_series series = merge_groups (group_all [] series)
