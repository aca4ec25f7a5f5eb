-- ===== src/Thresholds.antt =====
-- src/lsdsk/domain/thresholds.py: the values that the rules weigh against, and Python's floats.
pub mod Examples
use lsdsk.Prelude.{Bool}
use lsdsk.Prelude.Int.{ℤ}

-- Python's `float`, with the operations that the rules use on it: `int / int`, `float * int`,
-- `int / float`, `float / int`, `>=` and `<`, an integer as a float, minus
-- infinity, and the test for a NaN. They give a value for all arguments: the rules divide by nothing that
-- is 0, and no integer that they take is past the floats (`min_span_hours` is 1 or more, and the history
-- store refuses a figure above 10 ** 300).
pub record Floats (F : Type 0) : Type 0 where
  pub zero : F
  pub minus_inf : F
  pub of_int : ℤ → F
  pub divide : ℤ → ℤ → F
  pub scale : F → ℤ → F
  pub over : ℤ → F → F
  pub shrink : F → ℤ → F
  pub at_least : F → F → Bool
  pub less : F → F → Bool
  pub is_nan : F → Bool

pub record Thresholds (F : Type 0) : Type 0 where
  pub wear_warning_percent : ℤ
  pub wear_critical_percent : ℤ
  pub crc_errors_significant : ℤ
  pub mixed_firmware_threshold : ℤ
  pub wear_projection_min_points : ℤ
  pub quiet_expected_min : F
  pub min_span_hours : ℤ
  pub filesystem_full_hint_percent : ℤ
  pub filesystem_full_warning_percent : ℤ
  pub inodes_full_hint_percent : ℤ
  pub inodes_full_warning_percent : ℤ
