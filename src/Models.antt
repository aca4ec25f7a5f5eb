-- ===== src/Models.antt =====
-- src/lsdsk/domain/models.py: the condition of a disk, and the speed of its link.
use lsdsk.Prelude.{ℕ, String, Bool, false, ◌&&◌, Option, none, some, List, ltb, leb, if◌then◌else◌}
use lsdsk.Thresholds.{Floats}
use lsdsk.Prelude.Int.{ℤ}

pub record SmartAttribute : Type 0 where
  pub id : ℕ
  pub name : String
  pub value : ℕ
  pub worst : ℕ
  pub threshold : Option ℕ
  pub raw : ℕ

abbrev pub reaches : ℕ → Option ℕ → Bool
reaches value none = false
reaches value (some threshold) = ltb 0 threshold && leb value threshold

-- `SmartAttribute.is_failing`
unfoldable pub is_failing : SmartAttribute → Bool
is_failing a = reaches a.value a.threshold

pub record Health : Type 0 where
  pub ok : Option Bool
  pub temperature_c : Option ℤ
  pub temperature_warning_c : Option ℤ
  pub temperature_critical_c : Option ℤ
  pub power_on_hours : Option ℤ
  pub percent_used : Option ℤ
  pub reallocated_sectors : Option ℤ
  pub pending_sectors : Option ℤ
  pub uncorrectable_sectors : Option ℤ
  pub media_errors : Option ℤ
  pub crc_errors : Option ℤ
  pub bytes_read : Option ℤ
  pub bytes_written : Option ℤ
  pub unsafe_shutdowns : Option ℤ
  pub error_log_entries : Option ℤ
  pub power_cycles : Option ℤ
  pub available_spare : Option ℤ
  pub available_spare_threshold : Option ℤ
  pub critical_warning : Option ℤ
  pub attributes : List SmartAttribute

-- Every field at its default: nothing was read.
abbrev pub unread : Health
unread = record {
  ok = none;
  temperature_c = none;
  temperature_warning_c = none;
  temperature_critical_c = none;
  power_on_hours = none;
  percent_used = none;
  reallocated_sectors = none;
  pending_sectors = none;
  uncorrectable_sectors = none;
  media_errors = none;
  crc_errors = none;
  bytes_read = none;
  bytes_written = none;
  unsafe_shutdowns = none;
  error_log_entries = none;
  power_cycles = none;
  available_spare = none;
  available_spare_threshold = none;
  critical_warning = none;
  attributes = List.[];
}

pub record InterfaceLink (F : Type 0) : Type 0 where
  pub negotiated_gbps : Option F
  pub drive_max_gbps : Option F
  pub port_max_gbps : Option F

module _ {F : Type 0} (floats : Floats F) where
  abbrev pub slower : Option F → Option F → Option F
  slower none port = none
  slower (some drive) none = none
  slower (some drive) (some port) = some (if floats.less port drive then port else drive)

  -- `InterfaceLink.achievable_gbps`: both ends have to be read.
  unfoldable pub achievable_gbps : InterfaceLink F → Option F
  achievable_gbps link = slower link.drive_max_gbps link.port_max_gbps

  abbrev pub runs_below : Option F → Option F → Bool
  runs_below none achievable = false
  runs_below (some negotiated) none = false
  runs_below (some negotiated) (some achievable) = floats.less negotiated achievable

  -- `InterfaceLink.is_underperforming`
  unfoldable pub is_underperforming : InterfaceLink F → Bool
  is_underperforming link = runs_below link.negotiated_gbps (achievable_gbps link)

  -- `InterfaceLink.is_below_drive_capability`
  unfoldable pub is_below_drive_capability : InterfaceLink F → Bool
  is_below_drive_capability link = runs_below link.negotiated_gbps link.drive_max_gbps
