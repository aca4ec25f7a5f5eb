-- ===== src/HealthRules/Tests.antt =====
-- Runs of the health rules, and each theorem at one where its hypotheses hold.
use lsdsk.Prelude.{◌≡◌, ◌↔◌, ℕ, none, some, [], ◌∷◌, Forall2}
use lsdsk.Prelude.Int.{pos}
use lsdsk.Thresholds.Examples.{whole, defaults}
use lsdsk.Models.{unread}
use lsdsk.History.Types.{Sample, DiskSeries}
use lsdsk.HealthRules.Texts.{Drive}
use lsdsk.HealthRules.{diagnose_health}
use lsdsk.HealthRules.Moves.{IsMoved}
use lsdsk.HealthRules.Moves.Rules.{diagnose_health_moves}
use lsdsk.HealthRules.Silence.Rules.{IsSilent, diagnose_health-IsSilent_iff}

-- A drive whose cable corrupts frames, with a worn medium.
abbrev worn_drive : Drive ℕ
worn_drive = record {
  disk = record {
    path = "/dev/sdd";
    model = "X";
    wwn = some "naa.1";
    serial = none;
    health = some (record unread {
      power_on_hours = some (pos 1010);
      percent_used = some (pos 97);
      crc_errors = some (pos 40);
      temperature_c = some (pos 30);
    });
  };
  link = record { negotiated_gbps = some 3; drive_max_gbps = some 6; port_max_gbps = some 6 };
}

abbrev at_hour : ℕ → ℕ → Sample
at_hour hours crc = record {
  power_on_hours = pos hours;
  captured_at = "t";
  crc_errors = some (pos crc);
  reallocated_sectors = none;
  pending_sectors = none;
  uncorrectable_sectors = none;
  media_errors = none;
  percent_used = none;
  bytes_written = none;
  unsafe_shutdowns = none;
  error_log_entries = none;
  power_cycles = none;
}

abbrev rising_series : DiskSeries
rising_series = record {
  identity = "naa.1";
  model = "X";
  samples = at_hour 1000 10 ∷ at_hour 1010 40 ∷ [];
}

diagnose_health_moves_example :
    Forall2
      (IsMoved whole defaults rising_series)
      (diagnose_health whole defaults worn_drive none)
      (diagnose_health whole defaults worn_drive (some rising_series))
diagnose_health_moves_example = diagnose_health_moves whole defaults rising_series worn_drive

diagnose_health-IsSilent_iff_example :
    (diagnose_health whole defaults worn_drive (some rising_series) ≡ [])
    ↔ IsSilent whole defaults worn_drive.disk.health
diagnose_health-IsSilent_iff_example =
    diagnose_health-IsSilent_iff whole defaults worn_drive (some rising_series)
