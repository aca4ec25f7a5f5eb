-- ===== src/Findings/Order.antt =====
-- The order of a report of src/lsdsk/domain/diagnostics.py.
use Prim.Native.Nat.{Ordering, compare as compare_ℕ}
use Prim.Native.Nat.compare as compare_ℕ
use Prim.Native.Char.{code}
use Prim.Native.String.{compare, then as in_turn, [] as end, ◌∷◌ as ◌before◌}
use Prim.Native.String.compare
use text.Mathlib.Text.{◌==◌ as ◌is◌}
use text.Mathlib.TextEquality.{eq_iff}
use text.Mathlib.TextPositions.{compare_refl}
use lsdsk.Prelude.{
  ℕ, zero, suc, ◌≡◌, ◌⊎◌, ltb, refl, inl, inr, String, Bool, true, false, ◌&&◌, List, [], ◌∷◌, ◌==◌,
  filter, arith, Bool-cases, if◌then◌else◌,
}
use lsdsk.Prelude.Sort.{place_by, sorted_by}
use lsdsk.Findings.{
  Severity, critical, warning, hint, rank, Finding, not_gt, text_le, comes_before, sort_findings,
}

abbrev flip : Ordering → Ordering
flip Ordering.lt = Ordering.gt
flip Ordering.eq = Ordering.eq
flip Ordering.gt = Ordering.lt

flip-then : (o r : Ordering) → flip (in_turn o r) ≡ in_turn (flip o) (flip r)
flip-then Ordering.lt r = refl
flip-then Ordering.eq r = refl
flip-then Ordering.gt r = refl

compare_ℕ-flip : (m n : ℕ) → compare_ℕ n m ≡ flip (compare_ℕ m n)
compare_ℕ-flip zero zero = rw compare_ℕ.zero-zero refl
compare_ℕ-flip zero (suc n) = rw (compare_ℕ.suc-zero n, compare_ℕ.zero-suc n) refl
compare_ℕ-flip (suc m) zero = rw (compare_ℕ.suc-zero m, compare_ℕ.zero-suc m) refl
compare_ℕ-flip (suc m) (suc n) =
    rw (compare_ℕ.suc-suc n m, compare_ℕ.suc-suc m n) (compare_ℕ-flip m n)

compare-flip : (s t : String) → compare t s ≡ flip (compare s t)
compare-flip end end = rw compare.nil-nil refl
compare-flip end (d before t) = rw (compare.cons-nil d t, compare.nil-cons d t) refl
compare-flip (c before s) end = rw (compare.nil-cons c s, compare.cons-nil c s) refl
compare-flip (c before s) (d before t) =
    rw
      (
        compare.cons-cons d c t s,
        compare.cons-cons c d s t,
        compare_ℕ-flip (code c) (code d),
        compare-flip s t,
        flip-then (compare_ℕ (code c) (code d)) (compare s t),
      )
      refl

not_gt-flip : (o : Ordering) → not_gt o ≡ false → not_gt (flip o) ≡ true
not_gt-flip Ordering.lt h = absurd cc
not_gt-flip Ordering.eq h = refl
not_gt-flip Ordering.gt h = refl

text_le_total : (s t : String) → text_le s t ≡ false → text_le t s ≡ true
text_le_total s t h = rw (compare-flip s t) (not_gt-flip (compare s t) h)

text_le_refl : (s : String) → text_le s s ≡ true
text_le_refl s = rw (compare_refl s) refl

-- A critical finding before a warning, and both before a hint.
abbrev pub IsMoreUrgent : Severity → Severity → Type 0
IsMoreUrgent critical warning = Unit
IsMoreUrgent critical hint = Unit
IsMoreUrgent warning hint = Unit
IsMoreUrgent _ _ = ⊥

abbrev pub same_severity : Severity → Severity → Bool
same_severity critical critical = true
same_severity warning warning = true
same_severity hint hint = true
same_severity _ _ = false

same_severity-true : (a b : Severity) → same_severity a b ≡ true → a ≡ b
same_severity-true critical critical h = refl
same_severity-true critical warning h = absurd cc
same_severity-true critical hint h = absurd cc
same_severity-true warning critical h = absurd cc
same_severity-true warning warning h = refl
same_severity-true warning hint h = absurd cc
same_severity-true hint critical h = absurd cc
same_severity-true hint warning h = absurd cc
same_severity-true hint hint h = refl

-- What the rank and then the subjects decide.
ranked :
    (a b : Severity) (le : Bool)
    → (if ltb (rank a) (rank b) then true else if rank a == rank b then le else false) ≡ true
    → IsMoreUrgent a b ⊎ ((a ≡ b) × (le ≡ true))
ranked critical critical le h = inr (refl, h)
ranked critical warning le h = inl tt
ranked critical hint le h = inl tt
ranked warning critical le h = absurd cc
ranked warning warning le h = inr (refl, h)
ranked warning hint le h = inl tt
ranked hint critical le h = absurd cc
ranked hint warning le h = absurd cc
ranked hint hint le h = inr (refl, h)

module _ {Text : Type 0} where
  comes_before_total : (f g : Finding Text) → comes_before f g ≡ false → comes_before g f ≡ true
  unfolding comes_before
  comes_before_total f g h = elim (Bool-cases (text_le f.subject g.subject)) [
    | inl t ↦ ground (arith, h, t)
    | inr u ↦ ground (arith, h, text_le_total f.subject g.subject u)
  ]

  -- Each finding comes before the next one.
  abbrev pub IsOrdered : List (Finding Text) → Type 0
  IsOrdered [] = Unit
  IsOrdered (f ∷ []) = Unit
  IsOrdered (f ∷ g ∷ findings) = (comes_before f g ≡ true) × IsOrdered (g ∷ findings)

  -- What is placed behind a finding that it does not come before stays behind it.
  place_behind :
      (g f : Finding Text) (findings : List (Finding Text))
      → comes_before g f ≡ true
      → IsOrdered (g ∷ findings)
      → IsOrdered (place_by comes_before f findings)
      → IsOrdered (g ∷ place_by comes_before f findings)
  unfolding place_by
  place_behind g f [] h o p = (h, p)
  place_behind g f (k ∷ findings) h o p = elim (Bool-cases (comes_before f k)) [
    | inl t ↦ rw t (h, (t, o.1))
    | inr u ↦ rw u (o.0, ground (arith, p))
  ]

  tail-IsOrdered :
      (g : Finding Text) (findings : List (Finding Text))
      → IsOrdered (g ∷ findings)
      → IsOrdered findings
  tail-IsOrdered g [] o = tt
  tail-IsOrdered g (h ∷ findings) o = o.1

  place-IsOrdered :
      (f : Finding Text) (findings : List (Finding Text))
      → IsOrdered findings
      → IsOrdered (place_by comes_before f findings)
  unfolding place_by
  place-IsOrdered f [] o = tt
  place-IsOrdered f (g ∷ findings) o = elim (Bool-cases (comes_before f g)) [
    | inl t ↦ rw t (t, o)
    | inr u ↦ rw u (
        place_behind g f findings (comes_before_total f g u) o
          (place-IsOrdered f findings (tail-IsOrdered g findings o)))
  ]

  sort_findings-IsOrdered : (findings : List (Finding Text)) → IsOrdered (sort_findings findings)
  unfolding sort_findings sorted_by
  sort_findings-IsOrdered [] = tt
  sort_findings-IsOrdered (f ∷ findings) =
      place-IsOrdered f (sort_findings findings) (sort_findings-IsOrdered findings)

  -- The findings of one severity and one subject.
  abbrev pub has_key : Severity → String → Finding Text → Bool
  has_key r s f = same_severity f.severity r && (f.subject is s)

  key_comes_before :
      (r : Severity) (s : String) (f g : Finding Text)
      → has_key r s f ≡ true
      → has_key r s g ≡ true
      → comes_before f g ≡ true
  unfolding comes_before
  key_comes_before r s f g h k =
      let a = (eq_iff f.subject s).0 (ground (arith, h)) in
      let b = (eq_iff g.subject s).0 (ground (arith, k)) in
      let c = same_severity-true f.severity r (ground (arith, h)) in
      let d = same_severity-true g.severity r (ground (arith, k)) in
      let same : text_le f.subject g.subject ≡ true = rw (a, b) (text_le_refl s) in
      let ranks : rank f.severity ≡ rank g.severity = rw (c, d) refl in ground (arith, ranks, same)

  -- Two items pass one another under a test that does not take both.
  passed :
      (p : Finding Text → Bool) (f g : Finding Text) (rest : List (Finding Text))
      → ((p f && p g) ≡ false)
      → (if p g then g ∷ (if p f then f ∷ rest else rest) else if p f then f ∷ rest else rest)
        ≡ (if p f then f ∷ (if p g then g ∷ rest else rest) else if p g then g ∷ rest else rest)
  passed p f g rest h = elim (Bool-cases (p f)) [
    | inl t ↦ let n : p g ≡ false = ground (arith, h, t) in rw (t, n) refl
    | inr u ↦ rw u refl
  ]

  not_both :
      (r : Severity) (s : String) (f g : Finding Text)
      → comes_before f g ≡ false
      → (has_key r s f && has_key r s g) ≡ false
  not_both r s f g u = elim (Bool-cases (has_key r s f)) [
    | inr n ↦ rw n refl
    | inl h ↦ elim (Bool-cases (has_key r s g)) [
      | inr n ↦ ground (arith, n)
      | inl k ↦ absurd (ground (arith, u, key_comes_before r s f g h k))
    ]
  ]

  filter-place :
      (r : Severity) (s : String) (f : Finding Text) (findings : List (Finding Text))
      → filter (has_key r s) (place_by comes_before f findings)
        ≡ filter (has_key r s) (f ∷ findings)
  unfolding place_by
  filter-place r s f [] = refl
  filter-place r s f (g ∷ findings) =
      let ih = filter-place r s f findings in
      elim (Bool-cases (comes_before f g)) [
        | inl t ↦ rw t refl
        | inr u ↦
            rw u (
              rw ih (passed (has_key r s) f g (filter (has_key r s) findings) (not_both r s f g u)))
      ]

  filter-sort_findings :
      (r : Severity) (s : String) (findings : List (Finding Text))
      → filter (has_key r s) (sort_findings findings) ≡ filter (has_key r s) findings
  unfolding sort_findings sorted_by
  filter-sort_findings r s [] = refl
  filter-sort_findings r s (f ∷ findings) =
      rw (filter-place r s f (sort_findings findings), filter-sort_findings r s findings) refl

  -- A finding may stand before another in a report: it is more urgent, or as urgent and its subject is
  -- not the later of the two.
  abbrev pub IsBefore : Finding Text → Finding Text → Type 0
  IsBefore f g =
      IsMoreUrgent f.severity g.severity
      ⊎ ((f.severity ≡ g.severity) × (text_le f.subject g.subject ≡ true))

  abbrev pub IsInOrder : List (Finding Text) → Type 0
  IsInOrder [] = Unit
  IsInOrder (f ∷ []) = Unit
  IsInOrder (f ∷ g ∷ findings) = IsBefore f g × IsInOrder (g ∷ findings)

  IsOrdered-IsInOrder : (findings : List (Finding Text)) → IsOrdered findings → IsInOrder findings
  unfolding comes_before
  IsOrdered-IsInOrder [] o = tt
  IsOrdered-IsInOrder (f ∷ []) o = tt
  IsOrdered-IsInOrder (f ∷ g ∷ findings) o = (
    ranked f.severity g.severity (text_le f.subject g.subject) o.0,
    IsOrdered-IsInOrder (g ∷ findings) o.1,
  )

  -- What a report's order is held to.
  pub record IsReport (findings report : List (Finding Text)) : Type 0 where
    pub ordered : IsInOrder report
    pub kept :
        (severity : Severity) (subject : String)
        → filter (has_key severity subject) report ≡ filter (has_key severity subject) findings

  -- In a report a critical finding stands before a warning and both before a hint, and findings of one
  -- severity in the order of their subjects; the findings of one severity and one subject are the
  -- ones there were, in the order in which they were found.
  pub sort_findings-IsReport :
      (findings : List (Finding Text)) → IsReport findings (sort_findings findings)
  sort_findings-IsReport findings = record {
    ordered = IsOrdered-IsInOrder (sort_findings findings) (sort_findings-IsOrdered findings);
    kept = λ r s. filter-sort_findings r s findings;
  }
