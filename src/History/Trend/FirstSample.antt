-- ===== src/History/Trend/FirstSample.antt =====
-- `FIRST_SAMPLE` of `trend_for` in src/lsdsk/domain/history.py, and the guard behind its filter.
use lsdsk.Prelude.{
  ◌≡◌, ◌↔◌, refl, true, some, List, [], ◌∷◌, arith, last_from, filter, length, ◌<◌, some_value, ◌≢◌,
  All, All-Elem, All-filter, Elem, Elem-last_from, Elem-but_last,
}
use lsdsk.Prelude.Int.{ℤ}
use lsdsk.Thresholds.{Floats, Thresholds}
use lsdsk.History.Types.{CounterKind, Sample, DiskSeries, counter}
use lsdsk.History.Trend.{
  first_sample, unknown, previous_reading, rising_trend, quiet_trend, is_read, judge, judge_read,
  trend_of, trend_for,
}
use lsdsk.History.Trend.Previous.{previous_reading-IsPrevious}

read_value :
    (kind : CounterKind) (s : Sample) → is_read kind s ≡ true → (v : ℤ) × (counter s kind ≡ some v)
unfolding is_read
read_value kind s h = some_value (counter s kind) h

module _ {F : Type 0} (floats : Floats F) (thresholds : Thresholds F) where
  judge-ne-first_sample :
      (kind : CounterKind) (first : Sample) (rest : List Sample) (v w : ℤ)
      → (judge floats thresholds kind first rest v w).verdict ≢ first_sample
  unfolding judge unknown rising_trend quiet_trend
  judge-ne-first_sample kind first rest v w = ground arith

  two_usable :
      (kind : CounterKind) (first second : Sample) (rest : List Sample)
      → All (λ s. is_read kind s ≡ true) (first ∷ second ∷ rest)
      → (trend_of floats thresholds kind (first ∷ second ∷ rest)).verdict ≢ first_sample
  unfolding trend_of judge_read
  two_usable kind first second rest all =
      let read : (s : Sample) → Elem s (first ∷ second ∷ rest) → is_read kind s ≡ true =
        λ s m. All-Elem (λ s. is_read kind s ≡ true) (first ∷ second ∷ rest) all m in
      let latest = last_from second rest in
      let previous = previous_reading first (second ∷ rest) in
      let earlier = (previous_reading-IsPrevious first second rest).is_earlier in
      let v = read_value kind latest (read _ (Elem.there (Elem-last_from second rest))) in
      let w = read_value kind previous (read _ (Elem-but_last first (second ∷ rest) earlier)) in
      rw (v.1, w.1) (judge-ne-first_sample kind first (second ∷ rest) v.0 w.0)

  few_usable :
      (kind : CounterKind) (usable : List Sample)
      → All (λ s. is_read kind s ≡ true) usable
      → ((trend_of floats thresholds kind usable).verdict ≡ first_sample) ↔ (length usable < 2)
  unfolding trend_of unknown
  few_usable kind [] all = ((λ e. omega arith), (λ h. refl))
  few_usable kind (s ∷ []) all = ((λ e. omega arith), (λ h. refl))
  few_usable kind (first ∷ second ∷ rest) all =
      ((λ e. absurd (two_usable kind first second rest all e)), (λ h. absurd (omega arith)))

  -- A counter is judged as a first sample exactly where fewer than two of the drive's samples read
  -- it: the guard on an unread value behind the filter never fires.
  pub trend_for_first_sample :
      (series : DiskSeries) (kind : CounterKind)
      → ((trend_for floats thresholds series kind).verdict ≡ first_sample)
        ↔ (length (filter (is_read kind) series.samples) < 2)
  unfolding trend_for
  trend_for_first_sample series kind =
      few_usable kind (filter (is_read kind) series.samples)
        (All-filter (is_read kind) series.samples)
