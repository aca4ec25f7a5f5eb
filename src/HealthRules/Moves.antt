-- ===== src/HealthRules/Moves.antt =====
-- What a drive's history changes in the findings of `diagnose_health` of
-- src/lsdsk/domain/diagnostics.py.
pub mod Rules
use lsdsk.Prelude.{
  ◌≡◌, ◌⊎◌, inl, inr, refl, sym, ℕ, String, suc, Bool, true, false, not, ◌&&◌, Option, none, some,
  List, [], ◌∷◌, ◌++◌, arith, Bool-cases, Option-cases, if◌then◌else◌, filter, Forall2,
  Forall2-append, Forall2-refl,
}
use mathlib.Core.Path.{subst}
use lsdsk.Prelude.Int.{ℤ, pos, ltb_ℤ, ◌≤ℤ◌}
use lsdsk.Thresholds.{Floats, Thresholds}
use lsdsk.Models.{Health, is_underperforming}
use lsdsk.Findings.{Severity, critical, warning, hint, rank, Finding, one_step_in_severity}
use lsdsk.History.Types.{CounterKind, DiskSeries}
use lsdsk.History.Trend.{TrendVerdict, rising, quiet, Trend, trend_for, is_read}
use lsdsk.History.Trend.Verdicts.{Rose, Rested, Supports, trend_for-IsSupported}
use lsdsk.HealthRules.Texts.{HealthText, Drive}
use lsdsk.HealthRules.Counters.{
  present, on_read, is_rising, is_quiet, gain_of, calm_of, refine_by, refine, trend_in,
  counter_finding, reallocated_finding, pending_finding, uncorrectable_finding, media_finding,
  sectors_of, sector_findings, few_crc_finding, many_crc_finding, crc_finding, crc_findings,
}
use lsdsk.HealthRules.{
  failed_selftest_findings, failing_attribute_findings, temperature_findings, wear_projection,
  wear_finding, wear_findings, diagnose_health,
}

verdict_if_rising :
    {A : Type 0} (v : TrendVerdict) (x : Option A) (m : A)
    → (if is_rising v then x else none) ≡ some m
    → v ≡ rising
verdict_if_rising TrendVerdict.rising x m h = refl
verdict_if_rising _ x m h = absurd cc

verdict_if_quiet :
    {A : Type 0} (v : TrendVerdict) (x : Option A) (m : A)
    → (if is_quiet v then x else none) ≡ some m
    → v ≡ quiet
verdict_if_quiet TrendVerdict.quiet x m h = refl
verdict_if_quiet _ x m h = absurd cc

-- The counter that a title is about.
abbrev pub counter_of : {F : Type 0} → HealthText F → Option CounterKind
counter_of (HealthText.reallocated model n) = some CounterKind.reallocated_sectors
counter_of (HealthText.pending model n) = some CounterKind.pending_sectors
counter_of (HealthText.uncorrectable model n) = some CounterKind.uncorrectable_sectors
counter_of (HealthText.media model n) = some CounterKind.media_errors
counter_of (HealthText.few_crc_errors model n) = some CounterKind.crc_errors
counter_of (HealthText.crc_errors model n) = some CounterKind.crc_errors
counter_of _ = none

module _ {F : Type 0} (floats : Floats F) (thresholds : Thresholds F) (series : DiskSeries) where
  -- A counter gained by the samples of the series, over the configured span or more.
  abbrev pub Gained : CounterKind → Type 0
  Gained kind =
      Rose floats thresholds kind (filter (is_read kind) series.samples)
        (trend_for floats thresholds series kind)

  -- A counter read the same in the samples of the series over the configured span, for which its own
  -- rate predicted enough.
  abbrev pub Calmed : CounterKind → Type 0
  Calmed kind =
      Rested floats thresholds kind (filter (is_read kind) series.samples)
        (trend_for floats thresholds series kind)

  -- How the severity of a finding under a title may move: only by what its own counter did.
  pub data Step (title : HealthText F) (a b : Severity) : Type 0 where
    same : b ≡ a → Step title a b
    risen :
        (kind : CounterKind)
        → counter_of title ≡ some kind
        → Gained kind
        → rank a ≡ suc (rank b)
        → Step title a b
    fallen :
        (kind : CounterKind)
        → counter_of title ≡ some kind
        → Calmed kind
        → rank b ≡ suc (rank a)
        → Step title a b

  pub record IsMoved (f g : Finding (HealthText F)) : Type 0 where
    pub subject : g.subject ≡ f.subject
    pub title : g.title ≡ f.title
    pub detail : (more : List (HealthText F)) × (g.detail ≡ f.detail ++ more)
    pub severity : Step f.title f.severity g.severity

  module _ (title : HealthText F) (kind : CounterKind) (about : counter_of title ≡ some kind) where
    raised : Gained kind → (a : Severity) → Step title a (one_step_in_severity a true)
    unfolding one_step_in_severity
    raised gained critical = same refl
    raised gained warning = risen kind about gained refl
    raised gained hint = risen kind about gained refl

    lowered : Calmed kind → (a : Severity) → Step title a (one_step_in_severity a false)
    unfolding one_step_in_severity
    lowered calmed critical = fallen kind about calmed refl
    lowered calmed warning = fallen kind about calmed refl
    lowered calmed hint = same refl

  gain_of-Gained :
      (kind : CounterKind) (m : HealthText F)
      → gain_of (trend_for floats thresholds series kind) ≡ some m
      → Gained kind
  gain_of-Gained kind m h =
      let t = trend_for floats thresholds series kind in
      let usable = filter (is_read kind) series.samples in
      subst (λ v. Supports floats thresholds kind usable v t) (verdict_if_rising t.verdict _ m h)
        (trend_for-IsSupported floats thresholds series kind)

  calm_of-Calmed :
      (kind : CounterKind) (m : HealthText F)
      → calm_of (trend_for floats thresholds series kind) ≡ some m
      → Calmed kind
  calm_of-Calmed kind m h =
      let t = trend_for floats thresholds series kind in
      let usable = filter (is_read kind) series.samples in
      subst (λ v. Supports floats thresholds kind usable v t) (verdict_if_quiet t.verdict _ m h)
        (trend_for-IsSupported floats thresholds series kind)

  append_nil : (xs : List (HealthText F)) → xs ≡ xs ++ []
  append_nil [] = refl
  append_nil (x ∷ xs) = rw (← append_nil xs) refl

  pub unmoved : (f : Finding (HealthText F)) → IsMoved f f
  unmoved f = record {
    subject = refl;
    title = refl;
    detail = ([], append_nil f.detail);
    severity = same refl;
  }

  pub refine-IsMoved :
      (kind : CounterKind) (f : Finding (HealthText F))
      → counter_of f.title ≡ some kind
      → IsMoved f (refine f (some (trend_for floats thresholds series kind)))
  unfolding refine
  refine-IsMoved kind f about =
      let t = trend_for floats thresholds series kind in
      elim (Option-cases (gain_of t)) [
        | inr (m, e) ↦ rw e (record {
          subject = refl;
          title = refl;
          detail = (m ∷ [], refl);
          severity = raised f.title kind about (gain_of-Gained kind m e) f.severity;
        })
        | inl e ↦ rw e (elim (Option-cases (calm_of t)) [
          | inr (m, c) ↦ rw c (record {
            subject = refl;
            title = refl;
            detail = (m ∷ [], refl);
            severity = lowered f.title kind about (calm_of-Calmed kind m c) f.severity;
          })
          | inl c ↦ rw c (unmoved f)
        ])
      ]
