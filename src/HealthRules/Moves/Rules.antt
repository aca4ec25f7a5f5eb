-- ===== src/HealthRules/Moves/Rules.antt =====
-- The rules of src/lsdsk/domain/diagnostics.py over one disk's health, with its history and without.
use lsdsk.Prelude.{
  inl, inr, refl, String, Bool, not, ◌&&◌, ◌≡◌, Option, none, some, List, Bool-cases, Option-cases,
  Forall2, Forall2-append, Forall2-refl,
}
use lsdsk.Prelude.Int.{ℤ, ltb_ℤ}
use lsdsk.Thresholds.{Floats, Thresholds}
use lsdsk.Models.{Health, is_underperforming}
use lsdsk.Findings.{Finding}
use lsdsk.History.Types.{CounterKind, DiskSeries}
use lsdsk.History.Trend.{Trend, trend_for}
use lsdsk.HealthRules.Texts.{HealthText, Drive}
use lsdsk.HealthRules.Counters.{
  present, on_read, refine, trend_in, counter_finding, reallocated_finding, pending_finding,
  uncorrectable_finding, media_finding, sectors_of, sector_findings, few_crc_finding,
  many_crc_finding, crc_finding, crc_findings,
}
use lsdsk.HealthRules.{
  failed_selftest_findings, failing_attribute_findings, temperature_findings, wear_projection,
  wear_finding, wear_findings, diagnose_health,
}
use lsdsk.HealthRules.Moves.{same, counter_of, IsMoved, unmoved, refine-IsMoved}

module _ {F : Type 0} (floats : Floats F) (thresholds : Thresholds F) (series : DiskSeries) where
  abbrev pub AreMoved : List (Finding (HealthText F)) → List (Finding (HealthText F)) → Type 0
  AreMoved fs gs = Forall2 (IsMoved floats thresholds series) fs gs

  counter_finding-AreMoved :
      (kind : CounterKind) (report : ℤ → Finding (HealthText F)) (count : Option ℤ)
      → ((n : ℤ) → counter_of (report n).title ≡ some kind)
      → AreMoved
          (counter_finding none report count)
          (counter_finding (some (trend_for floats thresholds series kind)) report count)
  unfolding counter_finding refine
  counter_finding-AreMoved kind report count about = elim (Option-cases (present count)) [
    | inl e ↦ rw e Forall2.none_left
    | inr (n, e) ↦ rw e (
        Forall2.both (refine-IsMoved floats thresholds series kind (report n) (about n))
          Forall2.none_left)
  ]

  sectors_of-AreMoved :
      (path model : String) (health : Health)
      → AreMoved
          (sectors_of floats thresholds path model none health)
          (sectors_of floats thresholds path model (some series) health)
  unfolding sectors_of trend_in reallocated_finding pending_finding uncorrectable_finding
      media_finding
  sectors_of-AreMoved path model health =
      Forall2-append
        (Forall2-append
          (Forall2-append
            (counter_finding-AreMoved CounterKind.reallocated_sectors
              (reallocated_finding path model) health.reallocated_sectors (λ n. refl))
            (counter_finding-AreMoved CounterKind.pending_sectors (pending_finding path model)
              health.pending_sectors (λ n. refl)))
          (counter_finding-AreMoved CounterKind.uncorrectable_sectors
            (uncorrectable_finding path model) health.uncorrectable_sectors (λ n. refl)))
        (counter_finding-AreMoved CounterKind.media_errors (media_finding path model)
          health.media_errors (λ n. refl))

  -- The action of the many errors reads the trend, and nothing else of that finding does.
  many_crc_finding-IsMoved :
      (path model : String) (down : Bool) (n : ℤ) (t : Option (Trend F))
      (g : Finding (HealthText F))
      → IsMoved floats thresholds series (many_crc_finding path model down t n) g
      → IsMoved floats thresholds series (many_crc_finding path model down none n) g
  unfolding many_crc_finding
  many_crc_finding-IsMoved path model down n t g m = record {
    subject = m.subject;
    title = m.title;
    detail = m.detail;
    severity = m.severity;
  }

  crc_finding-IsMoved :
      (path model : String) (down : Bool) (n : ℤ)
      → IsMoved floats thresholds series (crc_finding floats thresholds path model down none n) (
          crc_finding floats thresholds path model down
            (some (trend_for floats thresholds series CounterKind.crc_errors))
            n)
  unfolding crc_finding refine few_crc_finding many_crc_finding
  crc_finding-IsMoved path model down n =
      let t = some (trend_for floats thresholds series CounterKind.crc_errors) in
      elim (Bool-cases (ltb_ℤ n thresholds.crc_errors_significant && not down)) [
        | inl few ↦ rw few (
            refine-IsMoved floats thresholds series CounterKind.crc_errors
              (few_crc_finding path model n) refl)
        | inr many ↦ rw many (
            many_crc_finding-IsMoved path model down n t _ (
              refine-IsMoved floats thresholds series CounterKind.crc_errors
                (many_crc_finding path model down t n) refl))
      ]

  wear_finding-AreMoved :
      (path model : String) (written : Option ℤ) (t : Option (Trend F)) (used : ℤ)
      → AreMoved
          (wear_finding floats thresholds path model written none used)
          (wear_finding floats thresholds path model written t used)
  unfolding wear_finding wear_projection
  wear_finding-AreMoved path model written t used =
      elim (Bool-cases (ltb_ℤ used thresholds.wear_warning_percent)) [
        | inl low ↦ rw low Forall2.none_left
        | inr high ↦ rw high (
            Forall2.both
              (record {
                subject = refl;
                title = refl;
                detail = (wear_projection floats thresholds t used, refl);
                severity = same refl;
              })
              Forall2.none_left)
      ]

  on_read-AreMoved :
      {A : Type 0} (r s : A → List (Finding (HealthText F))) (o : Option A)
      → ((a : A) → AreMoved (r a) (s a))
      → AreMoved (on_read r o) (on_read s o)
  on_read-AreMoved r s none h = Forall2.none_left
  on_read-AreMoved r s (some a) h = h a

  -- With the history of a drive `diagnose_health` reports the findings that it reports without, in
  -- their order: each about the same subject and under the same title, its detail only added to, and
  -- its severity the same or one step away. It is a step more urgent only where the counter of its
  -- title gained: the newest sample read more than the previous one, at least the configured span
  -- earlier. It is a step less only where that counter rested: the newest sample read what the
  -- previous one did, every row since an anchored one read the same for at least the configured span,
  -- and the rate over the drive's life predicted enough errors for it.
  pub diagnose_health_moves :
      (drive : Drive F)
      → AreMoved
          (diagnose_health floats thresholds drive none)
          (diagnose_health floats thresholds drive (some series))
  unfolding diagnose_health failed_selftest_findings failing_attribute_findings wear_findings
      sector_findings crc_findings temperature_findings trend_in
  diagnose_health_moves drive =
      let disk = drive.disk in
      let down = is_underperforming floats drive.link in
      on_read-AreMoved _ _ disk.health (λ health.
        Forall2-append
          (Forall2-append
            (Forall2-append
              (Forall2-append
                (Forall2-append
                  (Forall2-refl (unmoved floats thresholds series) (failed_selftest_findings drive))
                  (Forall2-refl (unmoved floats thresholds series)
                    (failing_attribute_findings drive)))
                (on_read-AreMoved _ _ disk.health (λ h.
                  on_read-AreMoved _ _ h.percent_used
                    (wear_finding-AreMoved disk.path disk.model h.bytes_written _))))
              (on_read-AreMoved _ _ disk.health (sectors_of-AreMoved disk.path disk.model)))
            (on_read-AreMoved _ _ disk.health (λ h.
              on_read-AreMoved _ _ (present h.crc_errors) (λ n.
                Forall2.both (crc_finding-IsMoved disk.path disk.model down n) Forall2.none_left))))
          (Forall2-refl (unmoved floats thresholds series) (temperature_findings drive)))
