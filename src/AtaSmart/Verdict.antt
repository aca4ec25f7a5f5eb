-- ===== src/AtaSmart/Verdict.antt =====
-- The verdict, the wear and the temperature that src/lsdsk/adapters/hw/decode/ata_smart.py reads out of
-- an attribute table.
use lsdsk.Prelude.{
  ℕ, ◌+◌, ◌%◌, ◌≤◌, ◌≡◌, ap, ◌∙◌, ◌&&◌, ◌||◌, ◌↔◌, inl, inr, sym, refl, Bool, true, false, Option,
  none, some, List, [], ◌∷◌, ltb, leb, ◌==◌, any, Elem, find-Elem, filter, is_some, arith,
  Bool-cases, Option-cases,
}
use lsdsk.Prelude.Int.{ℤ, pos, ◌≤ℤ◌}
use lsdsk.Models.{SmartAttribute, is_failing, reaches}
use lsdsk.AtaSmart.Health.{
  find_attribute, temperature, percent_used, overall_health, first_of, worn, celsius_of,
  plausible_celsius, nonzero, is_graded, judged, wear_attributes, temperature_attributes,
}

-- An attribute at or below a threshold that its maker set above zero.
abbrev pub IsFailing : SmartAttribute → Type 0
IsFailing a = (t : ℕ) × (a.threshold ≡ some t) × (1 ≤ t) × (a.value ≤ t)

reaches_iff :
    (value : ℕ) (o : Option ℕ)
    → (reaches value o ≡ true) ↔ ((t : ℕ) × (o ≡ some t) × (1 ≤ t) × (value ≤ t))
reaches_iff value none = ((λ h. cc), λ (t, e, h, k). cc)
reaches_iff value (some threshold) = (
  (λ h. (threshold, refl, ground (arith, h), ground (arith, h))),
  λ (t, e, h, k). ground (arith, e, h, k),
)

is_failing_iff : (a : SmartAttribute) → (is_failing a ≡ true) ↔ IsFailing a
unfolding is_failing
is_failing_iff a = reaches_iff a.value a.threshold

-- A list holds an item that passes exactly where `any` says so.
any_iff {ℓ} :
    {A : Type ℓ} (p : A → Bool) (xs : List A)
    → (any p xs ≡ true) ↔ ((x : A) × Elem x xs × (p x ≡ true))
any_iff p [] = ((λ h. cc), λ (x, m, h). elim m [ ])
any_iff p (x ∷ xs) = elim (Bool-cases (p x)) [
  | inl t ↦ rw t ((λ h. (x, Elem.here refl, t)), λ h. refl)
  | inr f ↦ rw f (
    (λ h. let (y, m, k) = (any_iff p xs).0 h in (y, Elem.there m, k)),
    λ (y, m, k). elim m [
      | Elem.here e ↦ ground (arith, e, f, k)
      | Elem.there n ↦ (any_iff p xs).1 (y, n, k)
    ],
  )
]

-- An attribute that fails is graded.
any_graded :
    (attributes : List SmartAttribute)
    → any is_failing (filter is_graded attributes) ≡ any is_failing attributes
unfolding is_failing
any_graded [] = refl
any_graded (a ∷ attributes) = elim (Option-cases a.threshold) [
  | inl e ↦ rw e (any_graded attributes)
  | inr (t, e) ↦ rw e (ap (◌||◌ (ltb 0 t && leb a.value t)) (any_graded attributes))
]

is_some-false : (o : Option ℕ) → is_some o ≡ false → o ≡ none
is_some-false o h = ground arith

graded_none :
    (attributes : List SmartAttribute)
    → (filter is_graded attributes ≡ [])
      ↔ ((a : SmartAttribute) → Elem a attributes → a.threshold ≡ none)
graded_none [] = ((λ h a m. elim m [ ]), λ h. refl)
graded_none (a ∷ attributes) = elim (Bool-cases (is_graded a)) [
  | inl t ↦
      rw t
        ((λ h. cc), λ h. let i : a.threshold ≡ none = h a (Elem.here refl) in ground (arith, i, t))
  | inr f ↦ rw f (
    (λ h b m. elim m [
      | Elem.here i ↦ ap (λ x. x.threshold) i ∙ is_some-false a.threshold f
      | Elem.there n ↦ (graded_none attributes).0 h b n
    ]),
    λ h. (graded_none attributes).1 (λ b n. h b (Elem.there n)),
  )
]

judged_iff :
    (graded : List SmartAttribute)
    → ((judged graded ≡ none) ↔ (graded ≡ []))
      × ((judged graded ≡ some false) ↔ (any is_failing graded ≡ true))
unfolding judged
judged_iff [] = ground arith
judged_iff (a ∷ graded) = elim (Bool-cases (any is_failing (a ∷ graded))) [
  | inl t ↦ ground (arith, t)
  | inr f ↦ ground (arith, f)
]

-- There is no verdict exactly where no attribute has a threshold, and the verdict is that the drive
-- fails exactly where an attribute of the table has fallen to a threshold above zero or below it.
pub overall_health_iff :
    (attributes : List SmartAttribute)
    → ((overall_health attributes ≡ none)
        ↔ ((a : SmartAttribute) → Elem a attributes → a.threshold ≡ none))
      × ((overall_health attributes ≡ some false)
          ↔ ((a : SmartAttribute) × Elem a attributes × IsFailing a))
unfolding overall_health
overall_health_iff attributes =
    let (none_iff, false_iff) = judged_iff (filter is_graded attributes) in
    let some_graded = any_graded attributes in
    let some_failing = any_iff is_failing attributes in
    (
      (
        (λ h. (graded_none attributes).0 (none_iff.0 h)),
        λ h. none_iff.1 ((graded_none attributes).1 h),
      ),
      (
        (λ h.
            let (a, m, f) = some_failing.0 (sym some_graded ∙ false_iff.0 h) in
            (a, m, (is_failing_iff a).0 f)),
        λ (a, m, f). false_iff.1 (some_graded ∙ some_failing.1 (a, m, (is_failing_iff a).1 f)),
      ),
    )

module _ {A : Type 0} (answer : Option SmartAttribute → Option A)
    (unread : answer none ≡ none) where
  -- What the loop over identifiers answers is one attribute's own answer.
  first_of_lem :
      (attributes : List SmartAttribute) (identifiers : List ℕ) (v : A)
      → first_of answer attributes identifiers ≡ some v
      → (a : SmartAttribute) × Elem a attributes
        × Elem a.id identifiers
        × (answer (some a) ≡ some v)
  unfolding first_of find_attribute
  first_of_lem attributes [] v h = cc
  first_of_lem attributes (identifier ∷ identifiers) v h =
      elim (Option-cases (find_attribute attributes identifier)) [
        | inl e ↦ later (first_of_lem attributes identifiers v) (ap answer e ∙ unread)
        | inr (a, e) ↦ elim (Option-cases (answer (some a))) [
          | inl f ↦ later (first_of_lem attributes identifiers v) (ap answer e ∙ f)
          | inr (w, f) ↦
              let (m, i) = find-Elem (λ b. b.id == identifier) attributes a e in
              (a, m, Elem.here (ground (arith, i)), f ∙ sym (answered (ap answer e ∙ f)) ∙ h)
        ]
      ]
    where
      answered :
          {w : A}
          → answer (find_attribute attributes identifier) ≡ some w
          → first_of answer attributes (identifier ∷ identifiers) ≡ some w
      answered e = rw (e, first_of) refl

      passed :
          answer (find_attribute attributes identifier) ≡ none
          → first_of answer attributes (identifier ∷ identifiers)
            ≡ first_of answer attributes identifiers
      passed e = rw (e, first_of) refl

      later :
          (first_of answer attributes identifiers ≡ some v
            → (a : SmartAttribute) × Elem a attributes
              × Elem a.id identifiers
              × (answer (some a) ≡ some v))
          → answer (find_attribute attributes identifier) ≡ none
          → (a : SmartAttribute) × Elem a attributes
            × Elem a.id (identifier ∷ identifiers)
            × (answer (some a) ≡ some v)
      later rest e = let (a, m, n, f) = rest (sym (passed e) ∙ h) in (a, m, Elem.there n, f)

-- The percentage used is what a wear attribute of the table leaves of 100, so it is at most 100.
percent_used_lem :
    (attributes : List SmartAttribute) (p : ℕ)
    → percent_used attributes ≡ some p
    → (p ≤ 100)
      × ((a : SmartAttribute) × Elem a attributes × Elem a.id wear_attributes × (p + a.value ≡ 100))
unfolding percent_used worn
percent_used_lem attributes p h =
    let (a, m, n, e) = first_of_lem worn refl attributes wear_attributes p h in
    (ground (arith, e), (a, m, n, ground (arith, e)))

-- The temperature is the low byte of a temperature attribute's raw value, and from 1 to 200 degrees.
temperature_lem :
    (attributes : List SmartAttribute) (t : ℤ)
    → temperature attributes ≡ some t
    → (pos 1 ≤ℤ t)
      × (t ≤ℤ pos 200)
      × ((a : SmartAttribute) × Elem a attributes
          × Elem a.id temperature_attributes
          × (t ≡ pos (a.raw % 256)))
unfolding temperature celsius_of plausible_celsius nonzero
temperature_lem attributes t h =
    let (a, m, n, e) = first_of_lem celsius_of refl attributes temperature_attributes t h in
    (ground (arith, e), ground (arith, e), (a, m, n, ground (arith, e)))
