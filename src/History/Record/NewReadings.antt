-- ===== src/History/Record/NewReadings.antt =====
-- `has_new_readings` of src/lsdsk/domain/history.py on a history that just recorded the reading.
use lsdsk.Prelude.{
  ℕ, suc, ◌≤◌, ◌≡◌, refl, ap, sym, ◌∙◌, String, Bool, true, false, Option, none, some, List, [],
  ◌∷◌, arith, any, ltb, Bool-cases, inl, inr, Elem, last_from, not,
}
use lsdsk.Prelude.Int.{ℤ, pos, pos_part, eqb_ℤ_iff}
use text.Mathlib.TextEquality.{eq_iff}
use lsdsk.History.Types.{
  Sample, DiskSeries, History, Disk, identity_of, sample_from, sample_from_hours, for_identity,
}
use lsdsk.History.Thin.{thin}
use lsdsk.History.Thin.Keeps.{last-thin}
use lsdsk.History.Record.{
  fold_in, capped, samples_of, moved, is_new, has_new_readings, record_history,
}
use lsdsk.History.Record.Fold.{last-fold_in}
use lsdsk.History.Record.Tally.{carries, carriers, last_under}
use lsdsk.History.Record.Refines.{reading, reading_from}
use lsdsk.History.Record.Pointwise.{recorded, record_pointwise}

-- The newest of some samples is `s`, and there is one.
abbrev EndsIn : List Sample → Sample → Type 0
EndsIn samples s = (d : Sample) → last_from d samples ≡ s

fold_in-EndsIn : (samples : List Sample) (s : Sample) → EndsIn (fold_in samples s) s
fold_in-EndsIn samples s d = last-fold_in d s samples

not_empty : (s : Sample) → ¬ EndsIn [] s
not_empty s h =
    let e : pos (suc (pos_part s.power_on_hours)) ≡ s.power_on_hours =
      ap (λ (x : Sample). x.power_on_hours)
        (h (record s { power_on_hours = pos (suc (pos_part s.power_on_hours)) })) in
    climb s.power_on_hours e
  where
    climb : (z : ℤ) → pos (suc (pos_part z)) ≡ z → ⊥
    climb z e = ground arith

thin-EndsIn :
    (cap : ℕ) (samples : List Sample) (s : Sample)
    → 1 ≤ cap
    → EndsIn samples s
    → EndsIn (thin samples cap) s
thin-EndsIn cap [] s h ends = absurd (not_empty s ends)
thin-EndsIn cap (x ∷ xs) s h ends = λ d. last-thin d x xs cap h ∙ ends d

-- A cap that leaves room for the newest sample.
abbrev pub HasRoom : Option ℕ → Type 0
HasRoom none = Unit {0}
HasRoom (some cap) = 1 ≤ cap

capped-EndsIn :
    (cap : Option ℕ) (samples : List Sample) (s : Sample)
    → HasRoom cap
    → EndsIn samples s
    → EndsIn (capped cap samples) s
unfolding capped
capped-EndsIn none samples s h ends = ends
capped-EndsIn (some cap) samples s h ends = thin-EndsIn cap samples s h ends

not_moved :
    (now s : Sample) (samples : List Sample)
    → now.power_on_hours ≡ s.power_on_hours
    → EndsIn samples s
    → moved now samples ≡ false
unfolding moved
not_moved now s [] e ends = absurd (not_empty s ends)
not_moved now s (x ∷ xs) e ends =
    rw (ends x) (ap not ((eqb_ℤ_iff now.power_on_hours s.power_on_hours).1 e))

one_carrier :
    (disks : List Disk) (d : Disk) (i : String)
    → carries (identity_of d) i ≡ true
    → Elem d disks
    → 1 ≤ carriers disks i
one_carrier [] d i c m = elim m [ ]
one_carrier (x ∷ disks) d i c (Elem.here e) = rw (← e) (rw c (omega arith))
one_carrier (x ∷ disks) d i c (Elem.there m) = omega (arith, one_carrier disks d i c m)

two_carriers :
    (x : Disk) (disks : List Disk) (i : String)
    → carries (identity_of x) i ≡ true
    → carriers (x ∷ disks) i ≤ 1
    → carriers disks i ≡ 0
two_carriers x disks i c le = ground arith

reading_of :
    (disks : List Disk) (t : String) (d : Disk) (i : String)
    → carriers disks i ≤ 1
    → carries (identity_of d) i ≡ true
    → Elem d disks
    → reading disks t i ≡ reading_from d.model (sample_from d t)
reading_of [] t d i le c m = elim m [ ]
reading_of (x ∷ disks) t d i le c (Elem.here e) = rw (← e) (rw c refl)
reading_of (x ∷ disks) t d i le c (Elem.there m) = elim (Bool-cases (carries (identity_of x) i)) [
  | inl first ↦ absurd (omega (arith, one_carrier disks d i c m, two_carriers x disks i first le))
  | inr f ↦ rw f (reading_of disks t d i (ground arith) c m)
]

-- A drive that was recorded is not new.
recorded_not_moved :
    (cap : Option ℕ) (series : List DiskSeries) (disks : List Disk) (t i : String) (d : Disk)
    (now : Sample)
    → HasRoom cap
    → carriers disks i ≤ 1
    → carries (identity_of d) i ≡ true
    → Elem d disks
    → sample_from d "" ≡ some now
    → moved now (samples_of (recorded cap series disks t i)) ≡ false
unfolding samples_of
recorded_not_moved cap series disks t i d now room le c m h =
    let one : ltb 1 (carriers disks i) ≡ false = ground arith in
    let (s, read, hours) = sample_from_hours d "" t now h in
    let stored = fold_in (samples_of (last_under series i)) s in
    rw (one, reading_of disks t d i le c m, read)
      (not_moved now s (capped cap stored) (sym hours)
        (capped-EndsIn cap stored s room (fold_in-EndsIn (samples_of (last_under series i)) s)))

is_new-false :
    (out : List DiskSeries) (o : Option String) (sample : Option Sample)
    → ((i : String) (now : Sample)
        → o ≡ some i
        → sample ≡ some now
        → moved now (samples_of (for_identity out i)) ≡ false)
    → is_new out o sample ≡ false
unfolding is_new
is_new-false out none sample h = refl
is_new-false out (some i) none h = refl
is_new-false out (some i) (some now) h = h i now refl refl

some_eq : (a b : History) → some a ≡ some b → a ≡ b
some_eq a b h = cc

carried : (d : Disk) (i : String) → identity_of d ≡ some i → carries (identity_of d) i ≡ true
carried d i e = rw e ((eq_iff i i).1 refl)

any-false :
    {A : Type 0} (p : A → Bool) (xs : List A)
    → ((x : A) → Elem x xs → p x ≡ false)
    → any p xs ≡ false
any-false p [] h = refl
any-false p (x ∷ xs) h = rw (h x (Elem.here refl)) (any-false p xs (λ y m. h y (Elem.there m)))

-- Where no two drives of a reading share an identity and the cap has room for a sample, the recorded
-- history finds nothing new in that reading.
pub record_settles :
    (history out : History) (disks : List Disk) (t : String) (cap : Option ℕ)
    → ((i : String) → carriers disks i ≤ 1)
    → HasRoom cap
    → record_history history disks t cap ≡ some out
    → has_new_readings out.series disks ≡ false
unfolding has_new_readings
record_settles history out disks t cap alone room e =
    let (h, e', _, each) = record_pointwise history disks t cap in
    let same : h ≡ out = some_eq h out (sym e' ∙ e) in
    any-false (λ (disk : Disk). is_new out.series (identity_of disk) (sample_from disk "")) disks
      λ d m. is_new-false out.series (identity_of d) (sample_from d "") λ i now ident read.
        rw (← same, each i)
          (recorded_not_moved cap history.series disks t i d now room (alone i) (carried d i ident)
            m read)

any-true :
    {A : Type 0} (p : A → Bool) (xs : List A) (x : A) → Elem x xs → p x ≡ true → any p xs ≡ true
any-true p [] x m h = elim m [ ]
any-true p (y ∷ ys) x (Elem.here e) h = ground (arith, rw e at h)
any-true p (y ∷ ys) x (Elem.there m) h = ground (arith, any-true p ys x m h)

-- A readable drive whose identity another drive of the reading shares, and which no stored series
-- has, is never stored: right after the reading was recorded it still counts as new.
pub shared_stays_new :
    (history out : History) (disks : List Disk) (t : String) (cap : Option ℕ) (d : Disk)
    (i : String) (now : Sample)
    → Elem d disks
    → identity_of d ≡ some i
    → sample_from d "" ≡ some now
    → 2 ≤ carriers disks i
    → last_under history.series i ≡ none
    → record_history history disks t cap ≡ some out
    → (for_identity out.series i ≡ none) × (has_new_readings out.series disks ≡ true)
unfolding has_new_readings is_new samples_of moved
shared_stays_new history out disks t cap d i now m ident read two unseen e =
    let (h, e', _, each) = record_pointwise history disks t cap in
    let same : h ≡ out = some_eq h out (sym e' ∙ e) in
    let shared : ltb 1 (carriers disks i) ≡ true = ground arith in
    let absent : for_identity out.series i ≡ none = rw (← same, each i, shared) unseen in
    (
      absent,
      any-true (λ (disk : Disk). is_new out.series (identity_of disk) (sample_from disk "")) disks d
          m (rw (ident, read, absent) refl),
    )
