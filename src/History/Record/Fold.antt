-- ===== src/History/Record/Fold.antt =====
-- `_fold_in` of src/lsdsk/domain/history.py: one reading joins a series.
use lsdsk.Prelude.{
  ◌≡◌, ◌≢◌, refl, List, [], ◌∷◌, ◌++◌, last_from, but_last, Bool-cases, inl, inr, true, false, Bool,
  sym, ◌∙◌,
}
use lsdsk.Prelude.Int.{eqb_ℤ, eqb_ℤ_iff}
use lsdsk.History.Types.{Sample}
use lsdsk.History.Record.{fold_in}

-- No two neighbours hold one hour.
abbrev pub IsSpread : List Sample → Type 0
IsSpread [] = Unit {0}
IsSpread (x ∷ []) = Unit {0}
IsSpread (x ∷ y ∷ rest) = (x.power_on_hours ≢ y.power_on_hours) × IsSpread (y ∷ rest)

last-concat : {A : Type 0} (d x : A) (xs : List A) → last_from d (xs ++ (x ∷ [])) ≡ x
last-concat d x [] = refl
last-concat d x (y ∷ ys) = last-concat y x ys

-- The newest row of the folded series is the reading.
pub last-fold_in :
    (d sample : Sample) (samples : List Sample) → last_from d (fold_in samples sample) ≡ sample
unfolding fold_in
last-fold_in d sample [] = refl
last-fold_in d sample (first ∷ rest) =
    elim (Bool-cases (eqb_ℤ (last_from first rest).power_on_hours sample.power_on_hours)) [
      | inl same ↦ rw same (last-concat d sample (but_last first rest))
      | inr other ↦ rw other (last-concat first sample rest)
    ]

IsSpread-concat :
    (first : Sample) (rest : List Sample) (sample : Sample)
    → IsSpread (first ∷ rest)
    → (last_from first rest).power_on_hours ≢ sample.power_on_hours
    → IsSpread (first ∷ (rest ++ (sample ∷ [])))
IsSpread-concat first [] sample h ne = (ne, tt)
IsSpread-concat first (x ∷ rest) sample h ne = (h.0, IsSpread-concat x rest sample h.1 ne)

IsSpread-replace :
    (first : Sample) (rest : List Sample) (sample : Sample)
    → IsSpread (first ∷ rest)
    → (last_from first rest).power_on_hours ≡ sample.power_on_hours
    → IsSpread (but_last first rest ++ (sample ∷ []))
IsSpread-replace first [] sample h e = tt
IsSpread-replace first (x ∷ []) sample h e = ((λ p. h.0 (p ∙ sym e)), tt)
IsSpread-replace first (x ∷ y ∷ rest) sample h e = (h.0, IsSpread-replace x (y ∷ rest) sample h.1 e)

-- A folded series has no two neighbours at one hour, if the series had none.
pub fold_in-IsSpread :
    (samples : List Sample) (sample : Sample) → IsSpread samples → IsSpread (fold_in samples sample)
unfolding fold_in
fold_in-IsSpread [] sample h = tt
fold_in-IsSpread (first ∷ rest) sample h =
    let hours = (last_from first rest).power_on_hours in
    elim (Bool-cases (eqb_ℤ hours sample.power_on_hours)) [
      | inl same ↦
          rw same
            (IsSpread-replace first rest sample h ((eqb_ℤ_iff hours sample.power_on_hours).0 same))
      | inr other ↦ rw other (
          IsSpread-concat first rest sample h
            (λ e. clash other ((eqb_ℤ_iff hours sample.power_on_hours).1 e)))
    ]
  where
    clash : {b : Bool} → b ≡ false → b ≡ true → ⊥
    clash e f = cc
