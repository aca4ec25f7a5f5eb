-- ===== src/History/Trend.antt =====
-- src/lsdsk/domain/history.py: `trend_for`, and the walks over a series that it judges by.
pub mod Anchors
pub mod Previous
pub mod Quiet
pub mod FirstSample
pub mod Verdicts
use lsdsk.Prelude.{
  Bool, true, false, not, ◌&&◌, ◌||◌, Option, none, some, List, [], ◌∷◌, last_from, but_last, zip,
  find, filter, is_some, if◌then◌else◌,
}
use mathlib.Core.List.{reverse}
use lsdsk.Prelude.Int.{ℤ, pos, negsuc, leb_ℤ, ltb_ℤ, eqb_ℤ, max_ℤ, ◌-ℤ◌}
use lsdsk.Thresholds.{Floats, Thresholds}
use lsdsk.History.Types.{CounterKind, Sample, DiskSeries, counter}

pub data TrendVerdict : Type 0 where
  first_sample too_close rising quiet reset : TrendVerdict

pub record Trend (F : Type 0) : Type 0 where
  pub kind : CounterKind
  pub verdict : TrendVerdict
  pub latest : Option ℤ
  pub delta : Option ℤ
  pub span_hours : Option ℤ
  pub per_hour : Option F
  pub expected_from_lifetime : Option F

unfoldable pub unknown : {F : Type 0} → CounterKind → TrendVerdict → Option ℤ → Trend F
unknown kind verdict latest = record {
  kind = kind;
  verdict = verdict;
  latest = latest;
  delta = none;
  span_hours = none;
  per_hour = none;
  expected_from_lifetime = none;
}

-- The loop of `_anchors`: the highest hour at or below the newest that an earlier row recorded.
unfoldable pub anchors_from : ℤ → ℤ → List Sample → List Bool
anchors_from newest highest_reached [] = []
anchors_from newest highest_reached (sample ∷ rest) =
    let hours = sample.power_on_hours in
    let highest = if leb_ℤ hours newest then max_ℤ highest_reached hours else negsuc 0 in
    (leb_ℤ hours newest && leb_ℤ highest_reached hours) ∷ anchors_from newest highest rest

-- `_anchors`, on the usable samples `first ∷ rest`.
unfoldable pub anchors : Sample → List Sample → List Bool
anchors first rest = anchors_from (last_from first rest).power_on_hours (negsuc 0) (first ∷ rest)

-- The rows behind the newest one with their flags, the nearest first: `range(len - 2, -1, -1)`.
unfoldable pub rows_behind : Sample → List Sample → List (Sample × Bool)
rows_behind first rest = reverse (zip (but_last first rest) (anchors first rest))

-- The second row from the end: `usable[-2]`, where there are two.
abbrev pub second_last : Sample → List Sample → Sample
second_last first [] = first
second_last first (x ∷ []) = first
second_last first (x ∷ y ∷ rest) = second_last x (y ∷ rest)

abbrev pub other_hour : ℤ → Sample → Bool
other_hour hours s = not (eqb_ℤ s.power_on_hours hours)

unfoldable pub row_or : Option (Sample × Bool) → Sample → Sample
row_or none d = d
row_or (some (s, _)) d = s

unfoldable pub sample_or : Option Sample → Sample → Sample
sample_or none d = d
sample_or (some s) d = s

-- `_previous_reading`
unfoldable pub previous_reading : Sample → List Sample → Sample
previous_reading first rest =
    let latest = (last_from first rest).power_on_hours in
    let anchored =
      find (λ (row : Sample × Bool). other_hour latest row.0 && row.1) (rows_behind first rest) in
    let elsewhere = find (other_hour latest) (reverse (but_last first rest)) in
    row_or anchored (sample_or elsewhere (second_last first rest))

abbrev pub same_value : Option ℤ → Option ℤ → Bool
same_value none none = true
same_value none (some b) = false
same_value (some a) none = false
same_value (some a) (some b) = eqb_ℤ a b

-- The loop of `_quiet_run_start`.
unfoldable pub quiet_run : CounterKind → Option ℤ → Sample → List (Sample × Bool) → Sample
quiet_run kind value start [] = start
quiet_run kind value start ((candidate, anchor) ∷ rows) =
    let further = quiet_run kind value (if anchor then candidate else start) rows in
    if not (same_value (counter candidate kind) value)
    then start
    else if ltb_ℤ start.power_on_hours candidate.power_on_hours
    then start
    else further

-- `_quiet_run_start`
unfoldable pub quiet_run_start : Sample → List Sample → CounterKind → Sample
quiet_run_start first rest kind =
    let latest = last_from first rest in
    quiet_run kind (counter latest kind) latest (rows_behind first rest)

-- `sample.counter(kind) is not None`
unfoldable pub is_read : CounterKind → Sample → Bool
is_read kind s = is_some (counter s kind)

module _ {F : Type 0} (floats : Floats F) (thresholds : Thresholds F) where
  -- `_rising`
  unfoldable pub rising_trend : CounterKind → Sample → Sample → ℤ → Trend F
  rising_trend kind previous latest delta =
      let span = latest.power_on_hours -ℤ previous.power_on_hours in
      if ltb_ℤ span thresholds.min_span_hours
      then record {
        kind = kind;
        verdict = too_close;
        latest = counter latest kind;
        delta = some delta;
        span_hours = some span;
        per_hour = none;
        expected_from_lifetime = none;
      }
      else record {
        kind = kind;
        verdict = rising;
        latest = counter latest kind;
        delta = some delta;
        span_hours = some span;
        per_hour = some (floats.divide delta span);
        expected_from_lifetime = none;
      }

  -- `_quiet`
  unfoldable pub quiet_trend : CounterKind → Sample → List Sample → ℤ → Trend F
  quiet_trend kind first rest latest_value =
      let hours = (last_from first rest).power_on_hours in
      let span = hours -ℤ (quiet_run_start first rest kind).power_on_hours in
      let lifetime_rate =
        if ltb_ℤ (pos 0) hours then floats.divide latest_value hours else floats.zero in
      let expected = floats.scale lifetime_rate span in
      let convincing =
        leb_ℤ thresholds.min_span_hours span
        && floats.at_least expected thresholds.quiet_expected_min in
      record {
        kind = kind;
        verdict = if convincing then quiet else too_close;
        latest = some latest_value;
        delta = some (pos 0);
        span_hours = some span;
        per_hour = none;
        expected_from_lifetime = some expected;
      }

  -- The judgement of two read values, the latest and the previous one.
  unfoldable pub judge : CounterKind → Sample → List Sample → ℤ → ℤ → Trend F
  judge kind first rest latest_value previous_value =
      let latest = last_from first rest in
      let previous = previous_reading first rest in
      if ltb_ℤ latest_value previous_value || ltb_ℤ latest.power_on_hours previous.power_on_hours
      then unknown kind reset (some latest_value)
      else if ltb_ℤ previous_value latest_value
      then rising_trend kind previous latest (latest_value -ℤ previous_value)
      else quiet_trend kind first rest latest_value

  -- The guard on the two values, which the filter of `usable` makes needless.
  unfoldable pub judge_read : CounterKind → Sample → List Sample → Option ℤ → Option ℤ → Trend F
  judge_read kind first rest none previous = unknown kind first_sample none
  judge_read kind first rest (some v) none = unknown kind first_sample (some v)
  judge_read kind first rest (some v) (some w) = judge kind first rest v w

  unfoldable pub trend_of : CounterKind → List Sample → Trend F
  trend_of kind [] = unknown kind first_sample none
  trend_of kind (only ∷ []) = unknown kind first_sample (counter only kind)
  trend_of kind (first ∷ second ∷ rest) =
      judge_read kind first (second ∷ rest) (counter (last_from second rest) kind)
        (counter (previous_reading first (second ∷ rest)) kind)

  -- `trend_for`, on the series' samples; `usable` are those where the counter was read.
  unfoldable pub trend_for : DiskSeries → CounterKind → Trend F
  trend_for series kind = trend_of kind (filter (is_read kind) series.samples)
