-- ===== src/HealthRules/Texts.antt =====
-- src/lsdsk/domain/diagnostics.py: the texts of the health rules, as the figures they are written
-- from, and the drive that the rules read.
use lsdsk.Prelude.{ℕ, String, Option, List}
use lsdsk.Prelude.Int.{ℤ}
use lsdsk.Models.{InterfaceLink}
use lsdsk.History.Types.{Disk}

-- `attribute.name or attribute.id`
pub data Label : Type 0 where
  named : String → Label
  numbered : ℕ → Label

pub data HealthText (F : Type 0) : Type 0 where
  failing_itself : String → HealthText F
  assessment_failed replace_now : HealthText F
  failing_attributes : String → ℕ → HealthText F
  at_or_under_limit : List (Label × ℕ × Option ℕ) → HealthText F
  treat_as_failing : HealthText F
  worn : String → ℤ → HealthText F
  wear_indicator : ℤ → Option ℤ → HealthText F
  years_left days_left : F → HealthText F
  plan_replacement : HealthText F
  reallocated pending uncorrectable media : String → ℤ → HealthText F
  retired awaiting_write data_lost not_recovered : HealthText F
  watch_count back_up restore watch_errors : HealthText F
  few_crc_errors crc_errors : String → ℤ → HealthText F
  hotplug_or_reboot : HealthText F
  frames_corrupted : ℤ → HealthText F
  same_path : HealthText F
  note_number reseat fault_over : HealthText F
  over_critical over_warning : String → ℤ → ℤ → HealthText F
  declared_critical declared_warning improve_airflow check_airflow : HealthText F
  gained : Option ℤ → ℤ → F → HealthText F
  none_recent : ℤ → F → HealthText F

-- A disk as the health rules read it, with its link.
pub record Drive (F : Type 0) : Type 0 where
  pub disk : Disk
  pub link : InterfaceLink F
