-- ===== src/History/Merge/Tests.antt =====
-- A store with two copies of one drive, and the merge's theorem at it.
use lsdsk.Prelude.{◌≤◌, ◌≡◌, refl, String, none, some, List, [], ◌∷◌, length}
use lsdsk.Prelude.Int.{ℤ, pos}
use lsdsk.Prelude.Dict.{lookup, insert}
use lsdsk.History.Types.{Sample, DiskSeries, for_identity}
use lsdsk.History.Merge.{
  listed, add_copy, group_all, keep_hours, keep_copies, place, sorted, cons_some, samples_at,
  series_of, merged, merge_group, merge_groups, merge_duplicate_series,
}
use lsdsk.History.Merge.Groups.{copies_of}
use lsdsk.History.Merge.Copies.{IsMerge, merge_duplicate_series-IsMerge}

abbrev row : ℤ → String → Sample
row hours captured_at = record {
  power_on_hours = hours;
  captured_at = captured_at;
  crc_errors = none;
  reallocated_sectors = none;
  pending_sectors = none;
  uncorrectable_sectors = none;
  media_errors = none;
  percent_used = none;
  bytes_written = none;
  unsafe_shutdowns = none;
  error_log_entries = none;
  power_cycles = none;
}

abbrev stored : List DiskSeries
stored =
    record { identity = "naa.1"; model = "X"; samples = row (pos 2) "b" ∷ row (pos 5) "c" ∷ [] }
    ∷ record { identity = "naa.2"; model = "Y"; samples = row (pos 7) "d" ∷ row (pos 3) "e" ∷ [] }
    ∷ record { identity = "naa.1"; model = "Z"; samples = row (pos 1) "a" ∷ row (pos 5) "f" ∷ [] }
    ∷ []

stored_merges :
    merge_duplicate_series stored
    ≡ some (
        record {
          identity = "naa.1";
          model = "Z";
          samples = row (pos 1) "a" ∷ row (pos 2) "b" ∷ row (pos 5) "f" ∷ [];
        }
        ∷ record {
          identity = "naa.2";
          model = "Y";
          samples = row (pos 7) "d" ∷ row (pos 3) "e" ∷ [];
        }
        ∷ [])
unfolding merge_duplicate_series merge_groups merge_group merged series_of samples_at sorted place
    keep_copies keep_hours group_all add_copy listed cons_some lookup insert
stored_merges = refl

merge_duplicate_series-IsMerge_example :
    (out : List DiskSeries) × (merge_duplicate_series stored ≡ some out)
    × ((i : String) → IsMerge (copies_of stored i) (for_identity out i))
    × ((i : String) → length (copies_of out i) ≤ 1)
merge_duplicate_series-IsMerge_example = merge_duplicate_series-IsMerge stored
