-- ===== src/Findings.antt =====
-- src/lsdsk/domain/diagnostics.py and models.py: a finding, its severity, and the order of a report. A
-- rule brings the type of its texts: the figures that its sentences are written from.
pub mod Order
pub mod Counting
pub mod Tests
use Prim.Native.Nat.{Ordering}
use Prim.Native.String.{compare}
use lsdsk.Prelude.{
  ℕ, zero, suc, ◌+◌, ◌-◌, String, Bool, true, false, Option, none, some, List, [], ◌∷◌, ◌++◌, ltb,
  leb, ◌==◌, if◌then◌else◌,
}
use lsdsk.Prelude.Sort.{sorted_by}

pub data Severity : Type 0 where
  critical warning hint : Severity

-- `SEVERITY_RANKING.index(severity)`, the most urgent first.
abbrev pub rank : Severity → ℕ
rank critical = 0
rank warning = 1
rank hint = 2

-- `SEVERITY_RANKING[min(max(i, 0), len - 1)]`
abbrev pub at_rank : ℕ → Severity
at_rank zero = critical
at_rank (suc zero) = warning
at_rank (suc (suc n)) = hint

-- `one_step_in_severity`: below the first place the index is clamped to 0, as the difference is.
unfoldable pub one_step_in_severity : Severity → Bool → Severity
one_step_in_severity severity towards_urgent =
    at_rank (if towards_urgent then rank severity - 1 else suc (rank severity))

pub record Finding (Text : Type 0) : Type 0 where
  pub severity : Severity
  pub subject : String
  pub title : Text
  pub detail : List Text
  pub action : Option Text

-- Texts are compared by their code points.
abbrev pub not_gt : Ordering → Bool
not_gt Ordering.gt = false
not_gt _ = true

abbrev pub text_le : String → String → Bool
text_le s t = not_gt (compare s t)

-- The order of the report's keys: the rank of the severity, then the subject.
unfoldable pub comes_before : {Text : Type 0} → Finding Text → Finding Text → Bool
comes_before f g =
    if ltb (rank f.severity) (rank g.severity)
    then true
    else if rank f.severity == rank g.severity
    then text_le f.subject g.subject
    else false

-- The sorting at the end of `diagnose`.
unfoldable pub sort_findings : {Text : Type 0} → List (Finding Text) → List (Finding Text)
sort_findings findings = sorted_by comes_before findings

-- The counts of `count_by_severity`, one for each severity.
pub record Counts : Type 0 where
  pub criticals : ℕ
  pub warnings : ℕ
  pub hints : ℕ

unfoldable pub count_one_more : Severity → Counts → Counts
count_one_more critical c = record c { criticals = c.criticals + 1 }
count_one_more warning c = record c { warnings = c.warnings + 1 }
count_one_more hint c = record c { hints = c.hints + 1 }

unfoldable pub count_from : {Text : Type 0} → Counts → List (Finding Text) → Counts
count_from counts [] = counts
count_from counts (f ∷ findings) = count_from (count_one_more f.severity counts) findings

unfoldable pub count_by_severity : {Text : Type 0} → List (Finding Text) → Counts
count_by_severity findings = count_from (record { criticals = 0; warnings = 0; hints = 0 }) findings
