-- ===== src/History/Tests.antt =====
-- Runs of the history at small inputs, and each theorem at one where its hypotheses hold.
use lsdsk.Prelude.{
  false, ℕ, ◌≤◌, ◌<◌, ◌≡◌, ◌↔◌, ◌≢◌, refl, String, true, false, none, some, List, [], ◌∷◌, arith,
  length, last_from, get_elem?, Elem, Sub, filter,
}
use lsdsk.Models.{Health, unread}
use lsdsk.Prelude.Int.{pos, ◌≤ℤ◌}
use lsdsk.Thresholds.Examples.{whole, defaults}
use lsdsk.History.Types.{
  CounterKind, Sample, DiskSeries, History, Disk, counter, for_identity, identity_of, sample_from,
}
use lsdsk.History.Thin.{thin, bucket, spread_over_hours}
use lsdsk.History.Thin.Bounds.{length-thin}
use lsdsk.History.Thin.Keeps.{thin-Sub, last-thin, thin_baseline}
use lsdsk.History.Thin.Coverage.{Stands, spread_over_hours_covers}
use lsdsk.History.Trend.{
  first_sample, anchors, anchors_from, rows_behind, previous_reading, quiet_run_start, is_read,
  trend_for,
}
use lsdsk.History.Trend.Anchors.{Stray, anchors_iff}
use lsdsk.History.Trend.Previous.{
  IsPrevious, previous_reading-IsPrevious, previous_reading_anchored,
}
use lsdsk.History.Trend.Quiet.{HeadsRun, quiet_run_start-HeadsRun}
use lsdsk.History.Trend.FirstSample.{trend_for_first_sample}
use lsdsk.History.Trend.Verdicts.{IsSupported, trend_for-IsSupported}
use lsdsk.History.Record.{fold_in, record_history, has_new_readings}
use lsdsk.History.Record.Fold.{IsSpread, fold_in-IsSpread}
use lsdsk.History.Record.Pointwise.{recorded, record_pointwise}
use lsdsk.History.Record.NewReadings.{record_settles, shared_stays_new}

-- A sample that read one counter.
abbrev row : ℕ → ℕ → Sample
row hours crc = record {
  power_on_hours = pos hours;
  captured_at = "t";
  crc_errors = some (pos crc);
  reallocated_sectors = none;
  pending_sectors = none;
  uncorrectable_sectors = none;
  media_errors = none;
  percent_used = none;
  bytes_written = none;
  unsafe_shutdowns = none;
  error_log_entries = none;
  power_cycles = none;
}

abbrev hourly : List Sample
hourly = row 2 0 ∷ row 3 0 ∷ row 4 0 ∷ row 5 1 ∷ row 6 1 ∷ []

length-thin_example : length (thin (row 1 0 ∷ hourly) 4) ≤ 4
length-thin_example = length-thin (row 1 0 ∷ hourly) 4

thin-Sub_example : Sub (thin (row 1 0 ∷ hourly) 4) (row 1 0 ∷ hourly)
thin-Sub_example = thin-Sub (row 1 0 ∷ hourly) 4

last-thin_example : last_from (row 0 0) (thin (row 1 0 ∷ hourly) 2) ≡ row 6 1
last-thin_example = last-thin (row 0 0) (row 1 0) hourly 2 (omega arith)

thin_baseline_example : (kept : List Sample) × (thin (row 1 0 ∷ hourly) 4 ≡ row 1 0 ∷ kept)
thin_baseline_example = thin_baseline (row 1 0) hourly 4 (omega arith)

spread_over_hours_covers_example :
    Stands (bucket 2 (pos 1) 5) (spread_over_hours hourly 2 (row 1 0)) (row 5 1)
spread_over_hours_covers_example =
    spread_over_hours_covers hourly 2 (row 1 0) (row 5 1) (omega arith) (omega arith) (omega arith)
      (Elem.there (Elem.there (Elem.there (Elem.here refl))))

-- The clock of the second row is a misread: the drive carried on from the first.
anchors_iff_example :
    (get_elem? (anchors (row 1000 0) (row 5 0 ∷ row 1001 0 ∷ [])) 1 ≡ some true)
    ↔ ((pos 5 ≤ℤ pos 1001) × ¬ (Stray (pos 1001) (pos 5) (row 1000 0 ∷ [])))
anchors_iff_example =
    anchors_iff (row 1000 0) (row 5 0 ∷ row 1001 0 ∷ []) (row 1000 0 ∷ []) (row 5 0)
      (row 1001 0 ∷ []) refl (omega arith)

previous_reading-IsPrevious_example :
    IsPrevious
      (pos 1008)
      (row 1000 0 ∷ row 1004 1 ∷ row 1008 2 ∷ [])
      (previous_reading (row 1000 0) (row 1004 1 ∷ row 1008 2 ∷ row 1008 3 ∷ []))
previous_reading-IsPrevious_example =
    previous_reading-IsPrevious (row 1000 0) (row 1004 1) (row 1008 2 ∷ row 1008 3 ∷ [])

previous_reading_anchored_example :
    Elem
      (previous_reading (row 1000 0) (row 1004 1 ∷ []), true)
      (rows_behind (row 1000 0) (row 1004 1 ∷ []))
    × ((previous_reading (row 1000 0) (row 1004 1 ∷ [])).power_on_hours ≢ pos 1004)
unfolding rows_behind anchors anchors_from
previous_reading_anchored_example =
    previous_reading_anchored (row 1000 0) (row 1004 1 ∷ []) (row 1000 0) (Elem.here refl)
      (λ e. ground (arith, e))

quiet_run_start-HeadsRun_example :
    HeadsRun CounterKind.crc_errors
      (some (pos 1))
      (row 6 1)
      (rows_behind (row 1 0) hourly)
      (quiet_run_start (row 1 0) hourly CounterKind.crc_errors)
    × ((quiet_run_start (row 1 0) hourly CounterKind.crc_errors).power_on_hours ≤ℤ pos 6)
unfolding counter
quiet_run_start-HeadsRun_example = quiet_run_start-HeadsRun (row 1 0) hourly CounterKind.crc_errors

abbrev drive : DiskSeries
drive = record { identity = "naa.1"; model = "X"; samples = row 1000 100 ∷ row 1010 300 ∷ [] }

trend_for-IsSupported_example :
    IsSupported whole defaults CounterKind.crc_errors
      (filter (is_read CounterKind.crc_errors) drive.samples)
      (trend_for whole defaults drive CounterKind.crc_errors)
trend_for-IsSupported_example = trend_for-IsSupported whole defaults drive CounterKind.crc_errors

trend_for_first_sample_example :
    ((trend_for whole defaults drive CounterKind.crc_errors).verdict ≡ first_sample)
    ↔ (length (filter (is_read CounterKind.crc_errors) drive.samples) < 2)
trend_for_first_sample_example = trend_for_first_sample whole defaults drive CounterKind.crc_errors

fold_in-IsSpread_example : IsSpread (fold_in (row 1 0 ∷ row 2 0 ∷ []) (row 2 4))
fold_in-IsSpread_example =
    fold_in-IsSpread (row 1 0 ∷ row 2 0 ∷ []) (row 2 4) ((λ e. ground (arith, e)), tt)

abbrev healthy : ℕ → Health
healthy hours = record unread { power_on_hours = some (pos hours) }

abbrev disk : String → String → ℕ → Disk
disk path wwn hours = record {
  path = path;
  model = "X";
  wwn = some wwn;
  serial = none;
  health = some (healthy hours);
}

abbrev box : History
box = record { hostname = "box"; series = drive ∷ [] }

abbrev twins : List Disk
twins = disk "/dev/sda" "naa.2" 5 ∷ disk "/dev/sdb" "naa.2" 9 ∷ disk "/dev/sdc" "naa.1" 1011 ∷ []

record_pointwise_example :
    (out : History) × (record_history box twins "t" (some 512) ≡ some out)
    × (out.hostname ≡ "box")
    × ((i : String) → for_identity out.series i ≡ recorded (some 512) (drive ∷ []) twins "t" i)
record_pointwise_example = record_pointwise box twins "t" (some 512)

-- A reading of one drive, and what recording it leaves.
abbrev alone : List Disk
alone = disk "/dev/sdc" "naa.1" 1011 ∷ []

record_settles_example :
    has_new_readings (record_pointwise box alone "t" (some 512)).0.series alone ≡ false
record_settles_example =
    record_settles box (record_pointwise box alone "t" (some 512)).0 alone "t" (some 512)
      (λ i. ground arith) (omega arith) (record_pointwise box alone "t" (some 512)).1

abbrev twin : Sample
twin = record (row 5 0) { captured_at = ""; crc_errors = none }

shared_stays_new_example :
    (for_identity (record_pointwise box twins "t" none).0.series "naa.2" ≡ none)
    × (has_new_readings (record_pointwise box twins "t" none).0.series twins ≡ true)
unfolding identity_of sample_from
shared_stays_new_example =
    shared_stays_new box (record_pointwise box twins "t" none).0 twins "t" none
      (disk "/dev/sda" "naa.2" 5) "naa.2" twin (Elem.here refl) refl refl (omega arith) refl
      (record_pointwise box twins "t" none).1
