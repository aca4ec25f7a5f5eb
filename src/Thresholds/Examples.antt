-- ===== src/Thresholds/Examples.antt =====
-- Data for the runs of the rules that weigh against src/lsdsk/domain/thresholds.py.
use lsdsk.Prelude.{ℕ, ◌*◌, ◌/◌, ltb, leb, false}
use lsdsk.Prelude.Int.{pos, monus_ℤ}
use lsdsk.Thresholds.{Floats, Thresholds}

-- Floats as whole numbers, enough for a run.
abbrev pub whole : Floats ℕ
whole = record {
  zero = 0;
  minus_inf = 0;
  of_int = λ a. monus_ℤ a (pos 0);
  divide = λ a b. monus_ℤ a (pos 0) / monus_ℤ b (pos 0);
  scale = λ a b. a * monus_ℤ b (pos 0);
  over = λ a b. monus_ℤ a (pos 0) / b;
  shrink = λ a b. a / monus_ℤ b (pos 0);
  less = λ a b. ltb a b;
  is_nan = λ a. false;
  at_least = λ a b. leb b a;
}

-- The values of the shipped configuration, but for the floats.
abbrev pub defaults : Thresholds ℕ
defaults = record {
  wear_warning_percent = pos 80;
  wear_critical_percent = pos 95;
  crc_errors_significant = pos 100;
  mixed_firmware_threshold = pos 2;
  wear_projection_min_points = pos 2;
  quiet_expected_min = 10;
  min_span_hours = pos 1;
  filesystem_full_hint_percent = pos 85;
  filesystem_full_warning_percent = pos 95;
  inodes_full_hint_percent = pos 85;
  inodes_full_warning_percent = pos 95;
}
