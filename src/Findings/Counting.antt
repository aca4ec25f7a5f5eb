-- ===== src/Findings/Counting.antt =====
-- `count_by_severity` of src/lsdsk/domain/diagnostics.py.
use lsdsk.Prelude.{◌+◌, ◌≡◌, refl, Bool, List, [], ◌∷◌, ◌==◌, length, filter, arith}
use lsdsk.Findings.{
  Severity, critical, warning, hint, rank, Finding, Counts, count_one_more, count_from,
  count_by_severity,
}

-- The findings of one severity.
abbrev pub of_severity : {Text : Type 0} → Severity → Finding Text → Bool
of_severity severity f = rank f.severity == rank severity

module _ {Text : Type 0} where
  -- What the counts of a list of findings are, on top of what was counted before.
  pub record IsCounted (before : Counts) (findings : List (Finding Text)) (counts : Counts)
      : Type 0 where
    pub criticals :
        counts.criticals ≡ before.criticals + length (filter (of_severity critical) findings)
    pub warnings :
        counts.warnings ≡ before.warnings + length (filter (of_severity warning) findings)
    pub hints : counts.hints ≡ before.hints + length (filter (of_severity hint) findings)

  IsCounted-at :
      (before : Counts) (severity : Severity) (f : Finding Text) (findings : List (Finding Text))
      (counts : Counts)
      → f.severity ≡ severity
      → IsCounted (count_one_more severity before) findings counts
      → IsCounted before (f ∷ findings) counts
  unfolding count_one_more
  IsCounted-at before critical f findings counts e c = record {
    criticals = rw e (omega (arith, c.criticals));
    warnings = rw e (omega (arith, c.warnings));
    hints = rw e (omega (arith, c.hints));
  }
  IsCounted-at before warning f findings counts e c = record {
    criticals = rw e (omega (arith, c.criticals));
    warnings = rw e (omega (arith, c.warnings));
    hints = rw e (omega (arith, c.hints));
  }
  IsCounted-at before hint f findings counts e c = record {
    criticals = rw e (omega (arith, c.criticals));
    warnings = rw e (omega (arith, c.warnings));
    hints = rw e (omega (arith, c.hints));
  }

  count_from-IsCounted :
      (before : Counts) (findings : List (Finding Text))
      → IsCounted before findings (count_from before findings)
  unfolding count_from
  count_from-IsCounted before [] = record {
    criticals = omega arith;
    warnings = omega arith;
    hints = omega arith;
  }
  count_from-IsCounted before (f ∷ findings) =
      IsCounted-at before f.severity f findings _ refl
        (count_from-IsCounted (count_one_more f.severity before) findings)

  -- The counts of a report are the numbers of its findings of each severity.
  count_by_severity_lem :
      (findings : List (Finding Text))
      → IsCounted
          (record { criticals = 0; warnings = 0; hints = 0 })
          findings
          (count_by_severity findings)
  unfolding count_by_severity
  count_by_severity_lem findings =
      count_from-IsCounted (record { criticals = 0; warnings = 0; hints = 0 }) findings
