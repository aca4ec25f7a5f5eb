-- ===== src/HealthRules/Silence.antt =====
-- When the health rules of src/lsdsk/domain/diagnostics.py report nothing about a disk.
pub mod Rules
use lsdsk.Prelude.{
  ◌≡◌, ◌≢◌, ◌↔◌, inl, inr, refl, String, Bool, true, false, Option, none, some, List, [], ◌∷◌, ◌++◌,
  arith, Bool-cases, Option-cases, All, filter,
}
use lsdsk.Prelude.Int.{ℤ, pos, ltb_ℤ, leb_ℤ, eqb_ℤ, eqb_ℤ_iff, ◌<ℤ◌}
use lsdsk.Thresholds.{Floats, Thresholds}
use lsdsk.Models.{SmartAttribute, is_failing, Health, is_underperforming}
use lsdsk.Findings.{Finding}
use lsdsk.History.Types.{DiskSeries}
use lsdsk.History.Trend.{Trend}
use lsdsk.HealthRules.Texts.{HealthText, Drive}
use lsdsk.HealthRules.Counters.{
  present, on_read, counter_finding, sectors_of, sector_findings, crc_finding, crc_findings,
}
use lsdsk.HealthRules.{
  failed_itself, self_test, failed_selftest_findings, under_limit, failing_attribute_findings,
  warning_finding, temperature_finding, temperature_findings, wear_finding, wear_findings,
  diagnose_health,
}

-- A value that was not read, or is below a limit.
abbrev pub IsBelow : ℤ → Option ℤ → Type 0
IsBelow limit none = Unit
IsBelow limit (some n) = n <ℤ limit

-- A limit that was not read, or is above a value.
abbrev pub IsAbove : ℤ → Option ℤ → Type 0
IsAbove n none = Unit
IsAbove n (some limit) = n <ℤ limit

abbrev pub IsAbsentOrZero : Option ℤ → Type 0
IsAbsentOrZero none = Unit
IsAbsentOrZero (some n) = n ≡ pos 0

abbrev pub IsCool : Option ℤ → Option ℤ → Option ℤ → Type 0
IsCool none critical warned = Unit
IsCool (some t) critical warned = IsAbove t critical × IsAbove t warned

-- Nothing that the rules weigh is wrong.
pub record IsSound {F : Type 0} (thresholds : Thresholds F) (health : Health) : Type 0 where
  pub assessment : health.ok ≢ some false
  pub attributes : All (λ a. is_failing a ≡ false) health.attributes
  pub wear : IsBelow thresholds.wear_warning_percent health.percent_used
  pub reallocated : IsAbsentOrZero health.reallocated_sectors
  pub pending : IsAbsentOrZero health.pending_sectors
  pub uncorrectable : IsAbsentOrZero health.uncorrectable_sectors
  pub media : IsAbsentOrZero health.media_errors
  pub crc : IsAbsentOrZero health.crc_errors
  pub heat : IsCool health.temperature_c health.temperature_critical_c health.temperature_warning_c

pub append-nil : {A : Type 0} (xs ys : List A) → (xs ++ ys ≡ []) → (xs ≡ []) × (ys ≡ [])
append-nil [] ys h = (refl, h)
append-nil (x ∷ xs) ys h = absurd cc

pub nil-append : {A : Type 0} (xs ys : List A) → xs ≡ [] → ys ≡ [] → xs ++ ys ≡ []
nil-append xs ys h k = rw (h, k) refl

failed_itself_iff : (ok : Option Bool) → (failed_itself ok ≡ false) ↔ (ok ≢ some false)
failed_itself_iff none = (λ h e. cc, λ n. refl)
failed_itself_iff (some true) = (λ h e. cc, λ n. refl)
failed_itself_iff (some false) = (λ h. absurd cc, λ n. absurd (n refl))

present_iff : (count : Option ℤ) → (present count ≡ none) ↔ IsAbsentOrZero count
present_iff none = (λ h. tt, λ h. refl)
present_iff (some n) = elim (Bool-cases (eqb_ℤ n (pos 0))) [
  | inl e ↦ rw e (λ h. (eqb_ℤ_iff n (pos 0)).0 e, λ h. refl)
  | inr e ↦ rw e (λ h. absurd cc, λ h. ground (arith, (eqb_ℤ_iff n (pos 0)).1 h))
]

pub filter-nil :
    (p : SmartAttribute → Bool) (xs : List SmartAttribute)
    → (filter p xs ≡ []) ↔ All (λ a. p a ≡ false) xs
filter-nil p [] = (λ h. tt, λ h. refl)
filter-nil p (x ∷ xs) = elim (Bool-cases (p x)) [
  | inl t ↦ rw t (λ h. absurd cc, λ h. absurd cc)
  | inr f ↦ rw f (λ h. (refl, (filter-nil p xs).0 h), λ h. (filter-nil p xs).1 h.1)
]

module _ {F : Type 0} where
  pub self_test_iff :
      (path model : String) (health : Health)
      → (self_test {F = F} path model health ≡ []) ↔ (health.ok ≢ some false)
  unfolding self_test
  self_test_iff path model health =
      let iff = failed_itself_iff health.ok in
      elim (Bool-cases (failed_itself health.ok)) [
        | inl t ↦ rw t (λ h. absurd cc, λ n. ground (arith, iff.1 n))
        | inr f ↦ rw f (λ h. iff.0 f, λ n. refl)
      ]

  pub under_limit-nil :
      (path model : String) (failing : List SmartAttribute)
      → (under_limit {F = F} path model failing ≡ []) ↔ (failing ≡ [])
  unfolding under_limit
  under_limit-nil path model [] = (λ h. refl, λ h. refl)
  under_limit-nil path model (a ∷ failing) = (λ h. absurd cc, λ h. absurd cc)

  warning_finding-nil :
      (path model : String) (warned : Option ℤ) (t : ℤ)
      → (warning_finding {F = F} path model warned t ≡ []) ↔ IsAbove t warned
  unfolding warning_finding
  warning_finding-nil path model none t = (λ h. tt, λ h. refl)
  warning_finding-nil path model (some limit) t = elim (Bool-cases (leb_ℤ limit t)) [
    | inl hot ↦ rw hot (λ h. absurd cc, λ h. ground arith)
    | inr fine ↦ rw fine (λ h. ground arith, λ h. refl)
  ]

  temperature_finding-nil :
      (path model : String) (critical warned : Option ℤ) (t : ℤ)
      → (temperature_finding {F = F} path model critical warned t ≡ [])
        ↔ (IsAbove t critical × IsAbove t warned)
  unfolding temperature_finding
  temperature_finding-nil path model none warned t =
      let iff = warning_finding-nil path model warned t in (λ h. (tt, iff.0 h), λ h. iff.1 h.1)
  temperature_finding-nil path model (some limit) warned t =
      let iff = warning_finding-nil path model warned t in
      elim (Bool-cases (leb_ℤ limit t)) [
        | inl hot ↦ rw hot (λ h. absurd cc, λ h. ground (arith, h.0))
        | inr fine ↦ rw fine (λ h. (ground arith, iff.0 h), λ h. iff.1 h.1)
      ]

  pub heat_iff :
      (path model : String) (temperature critical warned : Option ℤ)
      → (on_read (temperature_finding {F = F} path model critical warned) temperature ≡ [])
        ↔ IsCool temperature critical warned
  heat_iff path model none critical warned = (λ h. tt, λ h. refl)
  heat_iff path model (some t) critical warned =
      temperature_finding-nil path model critical warned t

  -- A rule over a count that reports whenever the count is present.
  pub count_iff :
      (report : ℤ → Finding (HealthText F)) (count : Option ℤ)
      → (on_read (λ n. report n ∷ []) (present count) ≡ []) ↔ IsAbsentOrZero count
  count_iff report count =
      let iff = present_iff count in
      elim (Option-cases (present count)) [
        | inl e ↦ rw e (λ h. iff.0 e, λ h. refl)
        | inr (n, e) ↦ rw e (λ h. absurd cc, λ h. absurd (ground (arith, e, iff.1 h)))
      ]
