-- ===== src/HealthRules/Silence/Rules.antt =====
-- `diagnose_health` of src/lsdsk/domain/diagnostics.py, on a disk that has nothing wrong.
use lsdsk.Prelude.{
  ◌≡◌, ◌↔◌, inl, inr, refl, String, Bool, Option, none, some, [], ◌∷◌, ◌++◌, arith, Bool-cases,
  filter,
}
use lsdsk.Prelude.Int.{ℤ, ltb_ℤ}
use lsdsk.Thresholds.{Floats, Thresholds}
use lsdsk.Models.{is_failing, Health, is_underperforming}
use lsdsk.History.Types.{DiskSeries}
use lsdsk.History.Trend.{Trend}
use lsdsk.HealthRules.Texts.{Drive}
use lsdsk.HealthRules.Counters.{
  present, on_read, counter_finding, sectors_of, sector_findings, crc_finding, crc_findings,
}
use lsdsk.HealthRules.{
  self_test, failed_selftest_findings, under_limit, failing_attribute_findings, temperature_finding,
  temperature_findings, wear_finding, wear_findings, diagnose_health,
}
use lsdsk.HealthRules.Silence.{
  IsBelow, IsAbsentOrZero, IsSound, append-nil, nil-append, self_test_iff, filter-nil,
  under_limit-nil, heat_iff, count_iff,
}

module _ {F : Type 0} (floats : Floats F) (thresholds : Thresholds F) where
  wear_finding-nil :
      (path model : String) (written : Option ℤ) (t : Option (Trend F)) (used : Option ℤ)
      → (on_read (wear_finding floats thresholds path model written t) used ≡ [])
        ↔ IsBelow thresholds.wear_warning_percent used
  unfolding wear_finding
  wear_finding-nil path model written t none = (λ h. tt, λ h. refl)
  wear_finding-nil path model written t (some used) =
      elim (Bool-cases (ltb_ℤ used thresholds.wear_warning_percent)) [
        | inl low ↦ rw low (λ h. ground arith, λ h. refl)
        | inr high ↦ rw high (λ h. absurd cc, λ h. ground arith)
      ]

  sectors_iff :
      (path model : String) (series : Option DiskSeries) (h : Health)
      → (sectors_of floats thresholds path model series h ≡ []) ↔ (
          IsAbsentOrZero h.reallocated_sectors
          × IsAbsentOrZero h.pending_sectors
          × IsAbsentOrZero h.uncorrectable_sectors
          × IsAbsentOrZero h.media_errors)
  unfolding sectors_of counter_finding
  sectors_iff path model series h =
      let c0 = count_iff {F = F} _ h.reallocated_sectors in
      let c1 = count_iff {F = F} _ h.pending_sectors in
      let c2 = count_iff {F = F} _ h.uncorrectable_sectors in
      let c3 = count_iff {F = F} _ h.media_errors in
      (
        λ s.
            let (s2, m) = append-nil _ _ s in
            let (s1, x) = append-nil _ _ s2 in
            let (r, q) = append-nil _ _ s1 in (c0.0 r, c1.0 q, c2.0 x, c3.0 m),
        λ (r, q, x, m).
            nil-append _ _ (nil-append _ _ (nil-append _ _ (c0.1 r) (c1.1 q)) (c2.1 x)) (c3.1 m),
      )

  -- Each rule of `diagnose_health` on a health that was read.
  silent_rules :
      (path model : String) (down : Bool) (t u : Option (Trend F)) (series : Option DiskSeries)
      (h : Health)
      → ((self_test path model h
            ++ under_limit path model (filter is_failing h.attributes)
            ++ on_read (wear_finding floats thresholds path model h.bytes_written t) h.percent_used
            ++ sectors_of floats thresholds path model series h
            ++ on_read
                (λ n. crc_finding floats thresholds path model down u n ∷ [])
                (present h.crc_errors)
            ++ on_read
                (temperature_finding path model h.temperature_critical_c h.temperature_warning_c)
                h.temperature_c)
          ≡ [])
        ↔ IsSound thresholds h
  silent_rules path model down t u series h =
      let tested = self_test_iff {F = F} path model h in
      let limits = under_limit-nil {F = F} path model (filter is_failing h.attributes) in
      let kept = filter-nil is_failing h.attributes in
      let worn = wear_finding-nil path model h.bytes_written t h.percent_used in
      let sectors = sectors_iff path model series h in
      let crc = count_iff {F = F} _ h.crc_errors in
      let hot =
        heat_iff {F = F} path model h.temperature_c h.temperature_critical_c
          h.temperature_warning_c in
      (
        λ e.
            let (e5, f) = append-nil _ _ e in
            let (e4, c) = append-nil _ _ e5 in
            let (e3, s) = append-nil _ _ e4 in
            let (e2, w) = append-nil _ _ e3 in
            let (b, a) = append-nil _ _ e2 in
            let (r, q, x, m) = sectors.0 s in
            record {
              assessment = tested.0 b;
              attributes = kept.0 (limits.0 a);
              wear = worn.0 w;
              reallocated = r;
              pending = q;
              uncorrectable = x;
              media = m;
              crc = crc.0 c;
              heat = hot.0 f;
            },
        λ i.
            let attributes = limits.1 (kept.1 i.attributes) in
            let counts = sectors.1 (i.reallocated, i.pending, i.uncorrectable, i.media) in
            let first = nil-append _ _ (tested.1 i.assessment) attributes in
            let second = nil-append _ _ (nil-append _ _ first (worn.1 i.wear)) counts in
            nil-append _ _ (nil-append _ _ second (crc.1 i.crc)) (hot.1 i.heat),
      )

  abbrev pub IsSilent : Option Health → Type 0
  IsSilent none = Unit
  IsSilent (some health) = IsSound thresholds health

  diagnose_read :
      (drive : Drive F) (series : Option DiskSeries) (health : Option Health)
      → drive.disk.health ≡ health
      → (diagnose_health floats thresholds drive series ≡ []) ↔ IsSilent health
  unfolding diagnose_health failed_selftest_findings failing_attribute_findings wear_findings
      sector_findings crc_findings temperature_findings
  diagnose_read drive series none e = rw e (λ h. tt, λ h. refl)
  diagnose_read drive series (some h) e = rw e (
      silent_rules drive.disk.path drive.disk.model (is_underperforming floats drive.link) _ _
        series h)

  -- A disk has no finding exactly where its health was not read or none of what the rules weigh is
  -- wrong, whatever its link and its history: it did not fail its own assessment, no attribute is at
  -- its maker's limit, its wear is below the warning limit, none of the counts of reallocated, pending
  -- and uncorrectable sectors, media errors and CRC errors that were read is other than 0, and its
  -- temperature is below the limits that it declares. No other counter makes a finding.
  pub diagnose_health-IsSilent_iff :
      (drive : Drive F) (series : Option DiskSeries)
      → (diagnose_health floats thresholds drive series ≡ []) ↔ IsSilent drive.disk.health
  diagnose_health-IsSilent_iff drive series = diagnose_read drive series drive.disk.health refl
