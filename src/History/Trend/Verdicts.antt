-- ===== src/History/Trend/Verdicts.antt =====
-- What a verdict of `trend_for` in src/lsdsk/domain/history.py rests on.
use lsdsk.Prelude.{
  ◌≡◌, inl, inr, refl, ap, ◌∙◌, true, some, none, List, [], ◌∷◌, arith, last_from, but_last, filter,
  Bool-cases, if◌then◌else◌, Option, ◌||◌,
}
use mathlib.Core.Path.{subst}
use lsdsk.Prelude.Int.{ℤ, pos, ltb_ℤ, leb_ℤ, ◌≤ℤ◌, ◌<ℤ◌, ◌-ℤ◌}
use lsdsk.Thresholds.{Floats, Thresholds}
use lsdsk.History.Types.{CounterKind, Sample, DiskSeries, counter}
use lsdsk.History.Trend.{
  TrendVerdict, rising, quiet, Trend, unknown, rows_behind, previous_reading, quiet_run_start,
  rising_trend, quiet_trend, is_read, judge, judge_read, trend_of, trend_for,
}
use lsdsk.History.Trend.Previous.{IsPrevious, previous_reading-IsPrevious}
use lsdsk.History.Trend.Quiet.{HeadsRun, quiet_run_start-HeadsRun}

-- `latest` is the newest of the usable samples, which are two or more, and `previous` the one it is compared with, and
-- what the counter read at the two.
pub record IsCompared (kind : CounterKind) (first second : Sample) (rest : List Sample)
    (previous latest : Sample) (before now : ℤ) : Type 0 where
  pub latest_is : latest ≡ last_from second rest
  pub previous_is : IsPrevious latest.power_on_hours (but_last first (second ∷ rest)) previous
  pub reads_before : counter previous kind ≡ some before
  pub reads_now : counter latest kind ≡ some now

pub previous_reading-IsCompared :
    (kind : CounterKind) (first second : Sample) (rest : List Sample) (before now : ℤ)
    → counter (previous_reading first (second ∷ rest)) kind ≡ some before
    → counter (last_from second rest) kind ≡ some now
    → IsCompared kind first second rest
        (previous_reading first (second ∷ rest))
        (last_from second rest)
        before
        now
previous_reading-IsCompared kind first second rest before now b n = record {
  latest_is = refl;
  previous_is = previous_reading-IsPrevious first second rest;
  reads_before = b;
  reads_now = n;
}

module _ {F : Type 0} (floats : Floats F) (thresholds : Thresholds F) where
  -- The counter read more at the newest sample than at the previous one, and the trend has that gain,
  -- the hours between the two, which are the configured span or more, and the quotient.
  pub record Rose (kind : CounterKind) (usable : List Sample) (t : Trend F) : Type 0 where
    pub first : Sample
    pub second : Sample
    pub rest : List Sample
    pub usable_are : usable ≡ first ∷ second ∷ rest
    pub previous : Sample
    pub latest : Sample
    pub before : ℤ
    pub now : ℤ
    pub compared : IsCompared kind first second rest previous latest before now
    pub gain : before <ℤ now
    pub long : thresholds.min_span_hours ≤ℤ (latest.power_on_hours -ℤ previous.power_on_hours)
    pub delta : t.delta ≡ some (now -ℤ before)
    pub span : t.span_hours ≡ some (latest.power_on_hours -ℤ previous.power_on_hours)
    pub rate :
        t.per_hour
        ≡ some (floats.divide (now -ℤ before) (latest.power_on_hours -ℤ previous.power_on_hours))

  -- What the rate over a drive's whole life predicts for a span.
  abbrev pub predicted : ℤ → ℤ → ℤ → F
  predicted value hours span =
      floats.scale (if ltb_ℤ (pos 0) hours then floats.divide value hours else floats.zero) span

  -- The counter read the same at the newest sample and at the previous one. From `start`, the newest
  -- sample or an anchored row behind it, it read the same in every row for the configured span or
  -- more, and the drive's own rate predicted enough for that span.
  pub record Rested (kind : CounterKind) (usable : List Sample) (t : Trend F) : Type 0 where
    pub first : Sample
    pub second : Sample
    pub rest : List Sample
    pub usable_are : usable ≡ first ∷ second ∷ rest
    pub previous : Sample
    pub latest : Sample
    pub start : Sample
    pub value : ℤ
    pub compared : IsCompared kind first second rest previous latest value value
    pub run : HeadsRun kind (some value) latest (rows_behind first (second ∷ rest)) start
    pub long : thresholds.min_span_hours ≤ℤ (latest.power_on_hours -ℤ start.power_on_hours)
    pub delta : t.delta ≡ some (pos 0)
    pub span : t.span_hours ≡ some (latest.power_on_hours -ℤ start.power_on_hours)
    pub expected :
        t.expected_from_lifetime
        ≡ some
            (predicted value latest.power_on_hours (latest.power_on_hours -ℤ start.power_on_hours))
    pub enough :
        floats.at_least
          (predicted value latest.power_on_hours (latest.power_on_hours -ℤ start.power_on_hours))
          thresholds.quiet_expected_min
        ≡ true
    pub no_rate : t.per_hour ≡ none

  -- What a verdict rests on.
  abbrev pub Supports : CounterKind → List Sample → TrendVerdict → Trend F → Type 0
  Supports kind usable rising t = Rose kind usable t
  Supports kind usable quiet t = Rested kind usable t
  Supports kind usable _ t = t.per_hour ≡ none

  abbrev pub IsSupported : CounterKind → List Sample → Trend F → Type 0
  IsSupported kind usable t = Supports kind usable t.verdict t

  rising-IsSupported :
      (kind : CounterKind) (first second : Sample) (rest : List Sample) (previous latest : Sample)
      (before now : ℤ)
      → IsCompared kind first second rest previous latest before now
      → before <ℤ now
      → IsSupported kind
          (first ∷ second ∷ rest)
          (rising_trend floats thresholds kind previous latest (now -ℤ before))
  unfolding rising_trend
  rising-IsSupported kind first second rest previous latest before now c h =
      let span = latest.power_on_hours -ℤ previous.power_on_hours in
      elim (Bool-cases (ltb_ℤ span thresholds.min_span_hours)) [
        | inl short ↦ rw short refl
        | inr long ↦ rw long (record {
          first = first;
          second = second;
          rest = rest;
          usable_are = refl;
          previous = previous;
          latest = latest;
          before = before;
          now = now;
          compared = c;
          gain = h;
          long = ground arith;
          delta = refl;
          span = refl;
          rate = refl;
        })
      ]

  quiet-IsSupported :
      (kind : CounterKind) (first second : Sample) (rest : List Sample) (v w : ℤ)
      → counter (previous_reading first (second ∷ rest)) kind ≡ some w
      → counter (last_from second rest) kind ≡ some v
      → w ≡ v
      → IsSupported kind
          (first ∷ second ∷ rest)
          (quiet_trend floats thresholds kind first (second ∷ rest) v)
  unfolding quiet_trend
  quiet-IsSupported kind first second rest v w b n e =
      let hours = (last_from second rest).power_on_hours in
      let start = quiet_run_start first (second ∷ rest) kind in
      let span = hours -ℤ start.power_on_hours in
      let expected = predicted v hours span in
      elim (Bool-cases (leb_ℤ thresholds.min_span_hours span)) [
        | inr short ↦ rw short refl
        | inl long ↦
            rw long (elim (Bool-cases (floats.at_least expected thresholds.quiet_expected_min)) [
              | inr weak ↦ rw weak refl
              | inl strong ↦ rw strong (record {
                first = first;
                second = second;
                rest = rest;
                usable_are = refl;
                previous = previous_reading first (second ∷ rest);
                latest = last_from second rest;
                start = start;
                value = v;
                compared = previous_reading-IsCompared kind first second rest v v (b ∙ ap some e) n;
                run =
                    subst
                      (λ o.
                        HeadsRun kind o (last_from second rest) (rows_behind first (second ∷ rest))
                          start)
                      n (quiet_run_start-HeadsRun first (second ∷ rest) kind).0;
                long = ground arith;
                delta = refl;
                span = refl;
                expected = refl;
                enough = strong;
                no_rate = refl;
              })
            ])
      ]

  judge-IsSupported :
      (kind : CounterKind) (first second : Sample) (rest : List Sample) (v w : ℤ)
      → counter (previous_reading first (second ∷ rest)) kind ≡ some w
      → counter (last_from second rest) kind ≡ some v
      → IsSupported kind
          (first ∷ second ∷ rest)
          (judge floats thresholds kind first (second ∷ rest) v w)
  unfolding judge unknown
  judge-IsSupported kind first second rest v w b n =
      let previous = previous_reading first (second ∷ rest) in
      let latest = last_from second rest in
      elim (Bool-cases (ltb_ℤ v w || ltb_ℤ latest.power_on_hours previous.power_on_hours)) [
        | inl back ↦ rw back refl
        | inr on ↦ rw on (elim (Bool-cases (ltb_ℤ w v)) [
          | inr same ↦
              rw same (quiet-IsSupported kind first second rest v w b n (ground (arith, on, same)))
          | inl up ↦ rw up (
              rising-IsSupported kind first second rest previous latest w v
                (previous_reading-IsCompared kind first second rest w v b n) (ground (arith, up)))
        ])
      ]

  judge_read-IsSupported :
      (kind : CounterKind) (first second : Sample) (rest : List Sample) (v w : Option ℤ)
      → counter (previous_reading first (second ∷ rest)) kind ≡ w
      → counter (last_from second rest) kind ≡ v
      → IsSupported kind
          (first ∷ second ∷ rest)
          (judge_read floats thresholds kind first (second ∷ rest) v w)
  unfolding judge_read unknown
  judge_read-IsSupported kind first second rest none w b n = refl
  judge_read-IsSupported kind first second rest (some v) none b n = refl
  judge_read-IsSupported kind first second rest (some v) (some w) b n =
      judge-IsSupported kind first second rest v w b n

  trend_of-IsSupported :
      (kind : CounterKind) (usable : List Sample)
      → IsSupported kind usable (trend_of floats thresholds kind usable)
  unfolding trend_of unknown
  trend_of-IsSupported kind [] = refl
  trend_of-IsSupported kind (s ∷ []) = refl
  trend_of-IsSupported kind (first ∷ second ∷ rest) =
      judge_read-IsSupported kind first second rest (counter (last_from second rest) kind)
        (counter (previous_reading first (second ∷ rest)) kind) refl refl

  -- The verdict of a trend rests on the samples that read the counter. It is rising only where the
  -- newest sample read more than the previous one, at least the configured span earlier, and its rate
  -- is that gain over that span; it is quiet only where the newest sample read what the previous one
  -- did, every row since an anchored one read the same for at least the configured span, and the
  -- drive's own lifetime rate predicted enough errors for that span; no other trend has a rate.
  pub trend_for-IsSupported :
      (series : DiskSeries) (kind : CounterKind)
      → IsSupported kind
          (filter (is_read kind) series.samples)
          (trend_for floats thresholds series kind)
  unfolding trend_for
  trend_for-IsSupported series kind =
      trend_of-IsSupported kind (filter (is_read kind) series.samples)
