-- ===== src/Findings/Tests.antt =====
-- Runs of the report's order, and each theorem at one where its hypotheses hold.
use lsdsk.Prelude.{◌≡◌, refl, ℕ, String, none, List, [], ◌∷◌}
use lsdsk.Prelude.Sort.{place_by, sorted_by}
use lsdsk.Findings.{Severity, critical, warning, hint, Finding, comes_before, sort_findings}
use lsdsk.Findings.Order.{IsReport, sort_findings-IsReport}

abbrev about : Severity → String → ℕ → Finding ℕ
about severity subject title = record {
  severity = severity;
  subject = subject;
  title = title;
  detail = [];
  action = none;
}

abbrev unsorted : List (Finding ℕ)
unsorted =
    about hint "/dev/sdb" 1
    ∷ about warning "/dev/sdb" 2
    ∷ about critical "/dev/sdc" 3
    ∷ about warning "/dev/sda" 4
    ∷ about warning "/dev/sdb" 5
    ∷ []

sorted :
    sort_findings unsorted
    ≡ about critical "/dev/sdc" 3
      ∷ about warning "/dev/sda" 4
      ∷ about warning "/dev/sdb" 2
      ∷ about warning "/dev/sdb" 5
      ∷ about hint "/dev/sdb" 1
      ∷ []
unfolding sort_findings sorted_by place_by comes_before
sorted = refl

sort_findings-IsReport_example : IsReport unsorted (sort_findings unsorted)
sort_findings-IsReport_example = sort_findings-IsReport unsorted
