-- ===== src/HealthRules/Counters.antt =====
-- src/lsdsk/domain/diagnostics.py: the rules over error counters, `refine` among them.
use lsdsk.Prelude.{
  String, Bool, true, false, not, ◌&&◌, Option, none, some, List, [], ◌∷◌, ◌++◌, if◌then◌else◌,
}
use lsdsk.Prelude.Int.{ℤ, pos, ltb_ℤ, eqb_ℤ}
use lsdsk.Thresholds.{Floats, Thresholds}
use lsdsk.Models.{Health, is_underperforming}
use lsdsk.Findings.{Severity, critical, warning, hint, Finding, one_step_in_severity}
use lsdsk.History.Types.{CounterKind, DiskSeries}
use lsdsk.History.Trend.{TrendVerdict, Trend, trend_for}
use lsdsk.HealthRules.Texts.{HealthText, Drive}

-- A count that tests as true: it was read, and is not 0.
abbrev pub present : Option ℤ → Option ℤ
present none = none
present (some n) = if eqb_ℤ n (pos 0) then none else some n

-- A rule that reports nothing where its value is missing.
abbrev pub on_read : {A B : Type 0} → (A → List B) → Option A → List B
on_read rule none = []
on_read rule (some a) = rule a

abbrev pub is_rising : TrendVerdict → Bool
is_rising TrendVerdict.rising = true
is_rising _ = false

abbrev pub is_quiet : TrendVerdict → Bool
is_quiet TrendVerdict.quiet = true
is_quiet _ = false

module _ {F : Type 0} where
  abbrev pub finding_of :
      Severity → String → HealthText F → List (HealthText F) → HealthText F → Finding (HealthText F)
  finding_of severity subject title detail action = record {
    severity = severity;
    subject = subject;
    title = title;
    detail = detail;
    action = some action;
  }

  -- The measurement that supports a finding: what was gained, over how long, and how fast.
  abbrev pub gain : Option ℤ → Option ℤ → Option F → Option (HealthText F)
  gain delta none rate = none
  gain delta (some span) none = none
  gain delta (some span) (some rate) = some (HealthText.gained delta span rate)

  abbrev pub gain_of : Trend F → Option (HealthText F)
  gain_of t = if is_rising t.verdict then gain t.delta (present t.span_hours) t.per_hour else none

  -- The measurement that weakens it: how long nothing was gained, and what was predicted.
  abbrev pub calm : Option ℤ → Option F → Option (HealthText F)
  calm none expected = none
  calm (some span) none = none
  calm (some span) (some expected) = some (HealthText.none_recent span expected)

  abbrev pub calm_of : Trend F → Option (HealthText F)
  calm_of t =
      if is_quiet t.verdict then calm (present t.span_hours) t.expected_from_lifetime else none

  abbrev pub moved_to : Finding (HealthText F) → Bool → HealthText F → Finding (HealthText F)
  moved_to f towards_urgent measured = record f {
    severity = one_step_in_severity f.severity towards_urgent;
    detail = f.detail ++ (measured ∷ []);
  }

  abbrev pub refine_by :
      Finding (HealthText F)
      → Option (HealthText F)
      → Option (HealthText F)
      → Finding (HealthText F)
  refine_by f (some measured) calmed = moved_to f true measured
  refine_by f none (some measured) = moved_to f false measured
  refine_by f none none = f

  unfoldable pub refine : Finding (HealthText F) → Option (Trend F) → Finding (HealthText F)
  refine f none = f
  refine f (some t) = refine_by f (gain_of t) (calm_of t)

  unfoldable pub reallocated_finding : String → String → ℤ → Finding (HealthText F)
  reallocated_finding path model n =
      finding_of warning path (HealthText.reallocated model n) (HealthText.retired ∷ [])
        HealthText.watch_count

  unfoldable pub pending_finding : String → String → ℤ → Finding (HealthText F)
  pending_finding path model n =
      finding_of critical path (HealthText.pending model n) (HealthText.awaiting_write ∷ [])
        HealthText.back_up

  unfoldable pub uncorrectable_finding : String → String → ℤ → Finding (HealthText F)
  uncorrectable_finding path model n =
      finding_of critical path (HealthText.uncorrectable model n) (HealthText.data_lost ∷ [])
        HealthText.restore

  unfoldable pub media_finding : String → String → ℤ → Finding (HealthText F)
  media_finding path model n =
      finding_of warning path (HealthText.media model n) (HealthText.not_recovered ∷ [])
        HealthText.watch_errors

  abbrev pub is_over : Option (Trend F) → Bool
  is_over none = false
  is_over (some t) = is_quiet t.verdict

  unfoldable pub few_crc_finding : String → String → ℤ → Finding (HealthText F)
  few_crc_finding path model count =
      finding_of hint path (HealthText.few_crc_errors model count)
        (HealthText.hotplug_or_reboot ∷ []) HealthText.note_number

  unfoldable pub many_crc_finding :
      String → String → Bool → Option (Trend F) → ℤ → Finding (HealthText F)
  many_crc_finding path model downshifted trend count =
      finding_of warning path (HealthText.crc_errors model count)
        (HealthText.frames_corrupted count
          ∷ (if downshifted then HealthText.same_path ∷ [] else []))
        (if is_over trend then HealthText.fault_over else HealthText.reseat)

  -- One of the four counters of `_sector_findings`.
  unfoldable pub counter_finding :
      Option (Trend F) → (ℤ → Finding (HealthText F)) → Option ℤ → List (Finding (HealthText F))
  counter_finding trend report count = on_read (λ n. refine (report n) trend ∷ []) (present count)

module _ {F : Type 0} (floats : Floats F) (thresholds : Thresholds F) where
  -- `_trend`
  unfoldable pub trend_in : Option DiskSeries → CounterKind → Option (Trend F)
  trend_in none kind = none
  trend_in (some series) kind = some (trend_for floats thresholds series kind)

  unfoldable pub sectors_of :
      String → String → Option DiskSeries → Health → List (Finding (HealthText F))
  sectors_of path model series health =
      counter_finding (trend_in series CounterKind.reallocated_sectors)
        (reallocated_finding path model) health.reallocated_sectors
      ++ counter_finding (trend_in series CounterKind.pending_sectors) (pending_finding path model)
          health.pending_sectors
      ++ counter_finding (trend_in series CounterKind.uncorrectable_sectors)
          (uncorrectable_finding path model) health.uncorrectable_sectors
      ++ counter_finding (trend_in series CounterKind.media_errors) (media_finding path model)
          health.media_errors

  -- `_sector_findings`
  unfoldable pub sector_findings : Drive F → Option DiskSeries → List (Finding (HealthText F))
  sector_findings drive series =
      on_read (sectors_of drive.disk.path drive.disk.model series) drive.disk.health

  unfoldable pub crc_finding :
      String → String → Bool → Option (Trend F) → ℤ → Finding (HealthText F)
  crc_finding path model downshifted trend count =
      if ltb_ℤ count thresholds.crc_errors_significant && not downshifted
      then refine (few_crc_finding path model count) trend
      else refine (many_crc_finding path model downshifted trend count) trend

  -- `_crc_findings`
  unfoldable pub crc_findings : Drive F → Option (Trend F) → List (Finding (HealthText F))
  crc_findings drive trend =
      on_read
        (λ (health : Health).
          on_read
            (λ n.
              crc_finding drive.disk.path drive.disk.model (is_underperforming floats drive.link)
                trend n
              ∷ [])
            (present health.crc_errors))
        drive.disk.health
