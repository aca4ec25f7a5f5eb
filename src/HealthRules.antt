-- ===== src/HealthRules.antt =====
-- src/lsdsk/domain/diagnostics.py: the rules over one disk's health, and how its history refines them.
pub mod Texts
pub mod Counters
pub mod Moves
pub mod Silence
pub mod Tests
use lsdsk.Prelude.{
  ℕ, String, Bool, true, false, not, ◌&&◌, Option, none, some, List, [], ◌∷◌, ◌++◌, length, filter,
  map, ◌*◌, if◌then◌else◌,
}
use text.Mathlib.Text.{◌==◌}
use lsdsk.Prelude.Int.{ℤ, pos, ltb_ℤ, leb_ℤ, ◌-ℤ◌}
use lsdsk.Thresholds.{Floats, Thresholds}
use lsdsk.Models.{SmartAttribute, is_failing, Health}
use lsdsk.Findings.{critical, warning, Finding}
use lsdsk.History.Types.{CounterKind, DiskSeries}
use lsdsk.History.Trend.{Trend, trend_for}
use lsdsk.HealthRules.Texts.{HealthText, Label, Drive}
use lsdsk.HealthRules.Counters.{
  present, on_read, finding_of, is_rising, sector_findings, crc_findings, trend_in,
}

abbrev pub failed_itself : Option Bool → Bool
failed_itself none = false
failed_itself (some ok) = not ok

-- `attribute.name or attribute.id`
abbrev pub label : SmartAttribute → Label
label a = if a.name == "" then Label.numbered a.id else Label.named a.name

module _ {F : Type 0} where
  unfoldable pub self_test : String → String → Health → List (Finding (HealthText F))
  self_test path model health =
      if failed_itself health.ok
      then finding_of critical path (HealthText.failing_itself model)
          (HealthText.assessment_failed ∷ []) HealthText.replace_now
        ∷ []
      else []

  -- `_failed_selftest_findings`
  unfoldable pub failed_selftest_findings : Drive F → List (Finding (HealthText F))
  failed_selftest_findings drive =
      on_read (self_test drive.disk.path drive.disk.model) drive.disk.health

  unfoldable pub under_limit : String → String → List SmartAttribute → List (Finding (HealthText F))
  under_limit path model [] = []
  under_limit path model (a ∷ failing) =
      finding_of critical path (HealthText.failing_attributes model (length (a ∷ failing)))
        (HealthText.at_or_under_limit
            (map (λ (b : SmartAttribute). (label b, b.value, b.threshold)) (a ∷ failing))
          ∷ [])
        HealthText.treat_as_failing
      ∷ []

  -- `_failing_attribute_findings`
  unfoldable pub failing_attribute_findings : Drive F → List (Finding (HealthText F))
  failing_attribute_findings drive =
      on_read
        (λ (health : Health).
          under_limit drive.disk.path drive.disk.model (filter is_failing health.attributes))
        drive.disk.health

  unfoldable pub warning_finding : String → String → Option ℤ → ℤ → List (Finding (HealthText F))
  warning_finding path model none temperature = []
  warning_finding path model (some limit) temperature =
      if leb_ℤ limit temperature
      then finding_of warning path (HealthText.over_warning model temperature limit)
          (HealthText.declared_warning ∷ []) HealthText.check_airflow
        ∷ []
      else []

  unfoldable pub temperature_finding :
      String → String → Option ℤ → Option ℤ → ℤ → List (Finding (HealthText F))
  temperature_finding path model (some limit) warned temperature =
      let cooler = warning_finding path model warned temperature in
      if leb_ℤ limit temperature
      then finding_of critical path (HealthText.over_critical model temperature limit)
          (HealthText.declared_critical ∷ []) HealthText.improve_airflow
        ∷ []
      else cooler
  temperature_finding path model none warned temperature =
      warning_finding path model warned temperature

  -- `_temperature_findings`
  unfoldable pub temperature_findings : Drive F → List (Finding (HealthText F))
  temperature_findings drive =
      on_read
        (λ (health : Health).
          on_read
            (temperature_finding drive.disk.path drive.disk.model health.temperature_critical_c
              health.temperature_warning_c)
            health.temperature_c)
        drive.disk.health

module _ {F : Type 0} (floats : Floats F) (thresholds : Thresholds F) where
  -- The sentence for the hours that remain, which are a float.
  abbrev pub left_for : F → List (HealthText F)
  left_for remaining_hours =
      let years = floats.shrink remaining_hours (pos (365 * 24)) in
      if floats.at_least floats.zero remaining_hours
      then []
      else if floats.at_least years (floats.of_int (pos 1))
      then HealthText.years_left years ∷ []
      else HealthText.days_left (floats.shrink remaining_hours (pos 24)) ∷ []

  abbrev pub projected : ℤ → Option F → Option ℤ → List (HealthText F)
  projected used none delta = []
  projected used (some rate) none = []
  projected used (some rate) (some delta) =
      if ltb_ℤ delta thresholds.wear_projection_min_points
      then []
      else left_for (floats.over (pos 100 -ℤ used) rate)

  -- `_wear_projection`, where no text is the empty one.
  unfoldable pub wear_projection : Option (Trend F) → ℤ → List (HealthText F)
  wear_projection none used = []
  wear_projection (some t) used =
      if is_rising t.verdict then projected used t.per_hour t.delta else []

  unfoldable pub wear_finding :
      String → String → Option ℤ → Option (Trend F) → ℤ → List (Finding (HealthText F))
  wear_finding path model written trend used =
      if ltb_ℤ used thresholds.wear_warning_percent
      then []
      else finding_of (if leb_ℤ thresholds.wear_critical_percent used then critical else warning)
          path (HealthText.worn model used)
          (HealthText.wear_indicator used (present written) ∷ wear_projection trend used)
          HealthText.plan_replacement
        ∷ []

  -- `_wear_findings`
  unfoldable pub wear_findings : Drive F → Option (Trend F) → List (Finding (HealthText F))
  wear_findings drive trend =
      on_read
        (λ (health : Health).
          on_read (wear_finding drive.disk.path drive.disk.model health.bytes_written trend)
            health.percent_used)
        drive.disk.health

  unfoldable pub diagnose_health : Drive F → Option DiskSeries → List (Finding (HealthText F))
  diagnose_health drive series =
      on_read
        (λ (health : Health).
          failed_selftest_findings drive
          ++ failing_attribute_findings drive
          ++ wear_findings drive (trend_in floats thresholds series CounterKind.percent_used)
          ++ sector_findings floats thresholds drive series
          ++ crc_findings floats thresholds drive
              (trend_in floats thresholds series CounterKind.crc_errors)
          ++ temperature_findings drive)
        drive.disk.health
