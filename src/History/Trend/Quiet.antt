-- ===== src/History/Trend/Quiet.antt =====
-- The run that `_quiet_run_start` of src/lsdsk/domain/history.py measures.
use lsdsk.Prelude.{
  ◌≡◌, ◌⊎◌, inl, inr, refl, ap, true, false, List, [], ◌∷◌, ◌++◌, arith, All, last_from, Bool-cases,
  if◌then◌else◌, Bool, Option, not,
}
use lsdsk.Prelude.Int.{ℤ, ltb_ℤ, ◌≤ℤ◌}
use lsdsk.History.Types.{CounterKind, Sample, counter}
use lsdsk.History.Trend.{rows_behind, same_value, quiet_run, quiet_run_start}

-- `s` heads an unbroken run of rows that hold `value`, the nearest first: it is the start already at
-- hand, or an anchor with nothing but rows of that value before it.
abbrev pub HeadsRun : CounterKind → Option ℤ → Sample → List (Sample × Bool) → Sample → Type 0
HeadsRun kind value start rows s =
    (s ≡ start)
    ⊎ ((near far : List (Sample × Bool)) × (rows ≡ near ++ ((s, true) ∷ far))
        × (same_value (counter s kind) value ≡ true)
        × All (λ row. same_value (counter row.0 kind) value ≡ true) near)

quiet_run_le :
    (kind : CounterKind) (value : Option ℤ) (start : Sample) (rows : List (Sample × Bool))
    → (quiet_run kind value start rows).power_on_hours ≤ℤ start.power_on_hours
unfolding quiet_run
quiet_run_le kind value start [] = omega arith
quiet_run_le kind value start ((c, true) ∷ rows) = ground (arith, quiet_run_le kind value c rows)
quiet_run_le kind value start ((c, false) ∷ rows) =
    ground (arith, quiet_run_le kind value start rows)

-- Behind one more row of the value a run goes on.
run_on :
    (kind : CounterKind) (value : Option ℤ) (start c s : Sample) (rows : List (Sample × Bool))
    → same_value (counter c kind) value ≡ true
    → HeadsRun kind value c rows s
    → HeadsRun kind value start ((c, true) ∷ rows) s
run_on kind value start c s rows h (inl e) = inr ([], rows, rw e refl, rw e h, tt)
run_on kind value start c s rows h (inr (near, far, e, v, all)) =
    inr ((c, true) ∷ near, far, ap (◌∷◌ (c, true)) e, v, (h, all))

-- The last anchor met is at hand when the walk goes on past a row that is none.
run_past :
    (kind : CounterKind) (value : Option ℤ) (start c s : Sample) (rows : List (Sample × Bool))
    → same_value (counter c kind) value ≡ true
    → HeadsRun kind value start rows s
    → HeadsRun kind value start ((c, false) ∷ rows) s
run_past kind value start c s rows h (inl e) = inl e
run_past kind value start c s rows h (inr (near, far, e, v, all)) =
    inr ((c, false) ∷ near, far, ap (◌∷◌ (c, false)) e, v, (h, all))

-- A row of another value, or one past the run's clock, ends the walk at the last anchor met.
stop_or :
    (kind : CounterKind) (value : Option ℤ) (start c s : Sample) (anchor : Bool)
    (rows : List (Sample × Bool))
    → (same_value (counter c kind) value ≡ true → HeadsRun kind value start ((c, anchor) ∷ rows) s)
    → HeadsRun kind value start ((c, anchor) ∷ rows) (
        if not (same_value (counter c kind) value)
        then start
        else if ltb_ℤ start.power_on_hours c.power_on_hours
        then start
        else s)
stop_or kind value start c s anchor rows go =
    elim (Bool-cases (same_value (counter c kind) value)) [
      | inr f ↦ rw f (inl refl)
      | inl t ↦ rw t (elim (Bool-cases (ltb_ℤ start.power_on_hours c.power_on_hours)) [
        | inl fell ↦ rw fell (inl refl)
        | inr fine ↦ rw fine (go t)
      ])
    ]

quiet_run-HeadsRun :
    (kind : CounterKind) (value : Option ℤ) (start : Sample) (rows : List (Sample × Bool))
    → HeadsRun kind value start rows (quiet_run kind value start rows)
unfolding quiet_run
quiet_run-HeadsRun kind value start [] = inl refl
quiet_run-HeadsRun kind value start ((c, true) ∷ rows) =
    let s = quiet_run kind value c rows in
    let ih = quiet_run-HeadsRun kind value c rows in
    stop_or kind value start c s true rows (λ t. run_on kind value start c s rows t ih)
quiet_run-HeadsRun kind value start ((c, false) ∷ rows) =
    let s = quiet_run kind value start rows in
    let ih = quiet_run-HeadsRun kind value start rows in
    stop_or kind value start c s false rows (λ t. run_past kind value start c s rows t ih)

-- The quiet run starts at the newest sample or at an anchored row behind it, that row and every row
-- since hold the newest value, and its hour is at most the newest one's, so that no span is negative.
pub quiet_run_start-HeadsRun :
    (first : Sample) (rest : List Sample) (kind : CounterKind)
    → HeadsRun kind
        (counter (last_from first rest) kind)
        (last_from first rest)
        (rows_behind first rest)
        (quiet_run_start first rest kind)
      × ((quiet_run_start first rest kind).power_on_hours ≤ℤ (last_from first rest).power_on_hours)
unfolding quiet_run_start
quiet_run_start-HeadsRun first rest kind =
    let latest = last_from first rest in
    let value = counter latest kind in
    let rows = rows_behind first rest in
    (quiet_run-HeadsRun kind value latest rows, quiet_run_le kind value latest rows)
