-- ===== src/History/Record/Refines.antt =====
-- The loop of `record` in src/lsdsk/domain/history.py, one identity at a time.
use lsdsk.Prelude.{
  ℕ, ◌≤◌, ◌≡◌, refl, ◌∙◌, String, Bool, true, false, Option, none, some, List, [], ◌∷◌, ◌++◌, arith,
  any, if◌then◌else◌, ◌||◌, is_some, Bool-cases, inl, inr,
}
use lsdsk.Prelude.Dict.{lookup, lookup-insert, text_key}
use text.Mathlib.Text.{◌==◌}
use text.Mathlib.TextEquality.{eq_iff}
use lsdsk.History.Types.{Sample, DiskSeries, Disk, identity_of, sample_from}
use lsdsk.History.Record.{Store, fold_in, capped, samples_of, put_reading, record_one, record_all}
use lsdsk.History.Record.Tally.{carries, carriers}

-- The reading of the first drive that carries the identity: its model and sample.
abbrev pub reading_from : String → Option Sample → Option (String × Sample)
reading_from model none = none
reading_from model (some s) = some (model, s)

abbrev pub reading : List Disk → String → String → Option (String × Sample)
reading [] captured_at identity = none
reading (disk ∷ disks) captured_at identity =
    if carries (identity_of disk) identity
    then reading_from disk.model (sample_from disk captured_at)
    else reading disks captured_at identity

-- What one reading makes of the series stored under an identity.
abbrev pub updated :
    Option ℕ → String → Option DiskSeries → Option (String × Sample) → Option DiskSeries
updated cap identity old none = old
updated cap identity old (some (model, sample)) = some (record {
  identity = identity;
  model = model;
  samples = capped cap (fold_in (samples_of old) sample);
})

abbrev pub at : Store → String → Option DiskSeries
at st i = lookup text_key i st.existing

if_same : {A : Type 0} (b : Bool) (a : A) → (if b then a else a) ≡ a
if_same true a = refl
if_same false a = refl

at-put_reading :
    (cap : Option ℕ) (j model : String) (s : Sample) (st : Store) (i : String)
    → at (put_reading cap j model s st) i
      ≡ (if j == i then updated cap j (at st j) (some (model, s)) else at st i)
unfolding put_reading
at-put_reading cap j model s st i = lookup-insert text_key j i _ st.existing

module _ (colliding : String → Bool) (cap : Option ℕ) where
  -- One drive changes the series under its own identity alone, and only if that is not shared.
  at-record_one :
      (model : String) (o : Option String) (sample : Option Sample) (st : Store) (i : String)
      → at (record_one colliding cap model o sample st) i ≡ (
          if carries o i
          then (if colliding i
              then at st i
              else updated cap i (at st i) (reading_from model sample))
          else at st i)
  unfolding record_one
  at-record_one model none sample st i = refl
  at-record_one model (some j) none st i = ground arith
  at-record_one model (some j) (some s) st i = elim (Bool-cases (j == i)) [
    | inl e ↦
        let p = (eq_iff j i).0 e in
        rw e (
          rw p (elim (Bool-cases (colliding i)) [
            | inl c ↦ rw c refl
            | inr f ↦ rw f (at-put_reading cap i model s st i ∙ rw ((eq_iff i i).1 refl) refl)
          ]))
    | inr e ↦ rw e (elim (Bool-cases (colliding j)) [
      | inl c ↦ rw c refl
      | inr f ↦ rw f (at-put_reading cap j model s st i ∙ rw e refl)
    ])
  ]

  -- Without a carrier left the series stays.
  at-record_all_none :
      (t : String) (disks : List Disk) (st : Store) (i : String)
      → carriers disks i ≡ 0
      → at (record_all colliding cap t disks st) i ≡ at st i
  unfolding record_all
  at-record_all_none t [] st i h = refl
  at-record_all_none t (d ∷ disks) st i h = ground (
    arith,
    at-record_all_none t disks
        (record_one colliding cap d.model (identity_of d) (sample_from d t) st) i,
    at-record_one d.model (identity_of d) (sample_from d t) st i,
  )

  pub at-record_all_colliding :
      (t : String) (disks : List Disk) (st : Store) (i : String)
      → colliding i ≡ true
      → at (record_all colliding cap t disks st) i ≡ at st i
  unfolding record_all
  at-record_all_colliding t [] st i h = refl
  at-record_all_colliding t (d ∷ disks) st i h =
      at-record_all_colliding t disks
        (record_one colliding cap d.model (identity_of d) (sample_from d t) st) i h
      ∙ at-record_one d.model (identity_of d) (sample_from d t) st i
      ∙ rw h (if_same (carries (identity_of d) i) (at st i))

  pub at-record_all :
      (t : String) (disks : List Disk) (st : Store) (i : String)
      → colliding i ≡ false
      → carriers disks i ≤ 1
      → at (record_all colliding cap t disks st) i ≡ updated cap i (at st i) (reading disks t i)
  unfolding record_all
  at-record_all t [] st i h le = refl
  at-record_all t (d ∷ disks) st i h le =
      let st' = record_one colliding cap d.model (identity_of d) (sample_from d t) st in
      let step = at-record_one d.model (identity_of d) (sample_from d t) st i in
      elim (Bool-cases (carries (identity_of d) i)) [
        | inl c ↦ at-record_all_none t disks st' i (ground arith) ∙ step ∙ rw (c, h) refl
        | inr f ↦
            let kept : at st' i ≡ at st i = step ∙ rw f refl in
            at-record_all t disks st' i h (ground arith) ∙ rw (kept, f) refl
      ]

abbrev pub has : List String → String → Bool
has order k = any (λ (j : String). j == k) order

has-append : (xs ys : List String) (k : String) → has (xs ++ ys) k ≡ (has xs k || has ys k)
has-append [] ys k = refl
has-append (x ∷ xs) ys k = ground (arith, has-append xs ys k)

-- The order lists the identities that have a series, and each series stands under its own.
pub record IsSound (st : Store) : Type 0 where
  pub listed : (k : String) → has st.order k ≡ is_some (at st k)
  pub keyed : (k : String) (s : DiskSeries) → at st k ≡ some s → s.identity ≡ k

put_reading-IsSound :
    (cap : Option ℕ) (j model : String) (s : Sample) (st : Store)
    → IsSound st
    → IsSound (put_reading cap j model s st)
unfolding put_reading
put_reading-IsSound cap j model s st h = record {
  listed = λ k. ground (
    arith,
    at-put_reading cap j model s st k,
    h.listed k,
    h.listed j,
    has-append st.order (j ∷ []) k,
    eq_iff j k,
  );
  keyed = λ k x e. ground (arith, at-put_reading cap j model s st k, h.keyed k x, eq_iff j k);
}

record_one-IsSound :
    (colliding : String → Bool) (cap : Option ℕ) (model : String) (o : Option String)
    (sample : Option Sample) (st : Store)
    → IsSound st
    → IsSound (record_one colliding cap model o sample st)
unfolding record_one
record_one-IsSound colliding cap model none sample st h = h
record_one-IsSound colliding cap model (some j) none st h = h
record_one-IsSound colliding cap model (some j) (some s) st h = elim (Bool-cases (colliding j)) [
  | inl c ↦ rw c h
  | inr f ↦ rw f (put_reading-IsSound cap j model s st h)
]

pub record_all-IsSound :
    (colliding : String → Bool) (cap : Option ℕ) (t : String) (disks : List Disk) (st : Store)
    → IsSound st
    → IsSound (record_all colliding cap t disks st)
unfolding record_all
record_all-IsSound colliding cap t [] st h = h
record_all-IsSound colliding cap t (d ∷ disks) st h =
    record_all-IsSound colliding cap t disks _
      (record_one-IsSound colliding cap d.model (identity_of d) (sample_from d t) st h)
