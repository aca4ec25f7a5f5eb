-- ===== src/History/Merge/Union.antt =====
-- The series that `_merged` of src/lsdsk/domain/history.py makes of several copies of it.
use lsdsk.Prelude.{
  ◌≡◌, refl, sym, ap, ◌∙◌, Bool, true, false, ◌||◌, Option, none, some, List, [], ◌∷◌, last_from,
  All, is_some, some_value, if◌then◌else◌, Bool-cases, inl, inr, arith,
}
use mathlib.Core.Option.{some-injective}
use mathlib.Core.Path.{subst}
use lsdsk.Prelude.Int.{ℤ, eqb_ℤ, eqb_ℤ_iff}
use lsdsk.Prelude.Dict.{lookup, int_key}
use lsdsk.History.Types.{Sample, DiskSeries}
use lsdsk.History.Merge.{keep_copies, keys, sorted, cons_some, samples_at, series_of, merged}
use lsdsk.History.Merge.Sorted.{Increasing, has_hour, sorted-Increasing, has_hour-sorted}
use lsdsk.History.Merge.Hours.{
  last_at, samples_in, at_hour, hours, IsKeyed, keep_copies-IsSound, lookup-keep_copies, later-none,
}

picked :
    (b : Bool) (t s : Sample) (o : Option Sample) (h : ℤ)
    → (b ≡ true → t.power_on_hours ≡ h)
    → (o ≡ some s → s.power_on_hours ≡ h)
    → (if b then some t else o) ≡ some s
    → s.power_on_hours ≡ h
picked true t s o h f g e = sym (ap (λ x. x.power_on_hours) (some-injective t s e)) ∙ f refl
picked false t s o h f g e = g e

lookup-IsKeyed :
    (d : List (ℤ × Sample)) (h : ℤ) (s : Sample)
    → IsKeyed d
    → lookup int_key h d ≡ some s
    → s.power_on_hours ≡ h
unfolding lookup
lookup-IsKeyed [] h s k e = cc
lookup-IsKeyed ((j, t) ∷ d) h s k e =
    picked (eqb_ℤ j h) t s (lookup int_key h d) h (λ y. k.0 ∙ (eqb_ℤ_iff j h).0 y)
      (lookup-IsKeyed d h s k.1) e

has_hour-keys : (d : List (ℤ × Sample)) (h : ℤ) → has_hour (keys d) h ≡ is_some (lookup int_key h d)
unfolding lookup
has_hour-keys [] h = refl
has_hour-keys ((j, t) ∷ d) h = elim (Bool-cases (eqb_ℤ j h)) [
  | inl y ↦ rw y refl
  | inr n ↦ rw n (has_hour-keys d h)
]

abbrev Found : List (ℤ × Sample) → ℤ → Type 0
Found d h = is_some (lookup int_key h d) ≡ true

found_first :
    (b c : Bool) (a o l : Option Sample)
    → (b ≡ true → a ≡ l)
    → o ≡ (if c then l else none)
    → (if b then a else o) ≡ (if b || c then l else none)
found_first true c a o l f e = f refl
found_first false c a o l f e = e

-- The samples that are read back stand at the hours they were asked for.
samples_at_lem :
    (d : List (ℤ × Sample)) (hs : List ℤ)
    → IsKeyed d
    → All (Found d) hs
    → (out : List Sample) × (samples_at d hs ≡ some out)
      × (hours out ≡ hs)
      × ((h : ℤ) → at_hour out h ≡ (if has_hour hs h then lookup int_key h d else none))
unfolding samples_at cons_some
samples_at_lem d [] k f = ([], refl, refl, λ h. refl)
samples_at_lem d (x ∷ hs) k f =
    let (s, e) = some_value (lookup int_key x d) f.0 in
    let (out, r, same, at) = samples_at_lem d hs k f.1 in
    let clock = lookup-IsKeyed d x s k e in
    rw (e, r)
      (
        s ∷ out,
        refl,
        ap (λ y. y ∷ hours out) clock ∙ ap (◌∷◌ x) same,
        λ h.
            ap (λ y. if eqb_ℤ y h then some s else at_hour out h) clock
            ∙ found_first (eqb_ℤ x h) (has_hour hs h) (some s) (at_hour out h) (lookup int_key h d)
                (λ y. subst (λ z. some s ≡ lookup int_key z d) ((eqb_ℤ_iff x h).0 y) (sym e))
                (at h),
      )

All-Found :
    (d : List (ℤ × Sample)) (hs : List ℤ)
    → ((x : ℤ) → has_hour hs x ≡ true → Found d x)
    → All (Found d) hs
All-Found d [] f = tt
All-Found d (x ∷ hs) f = (
  f x (ap (λ b. b || has_hour hs x) ((eqb_ℤ_iff x x).1 refl)),
  All-Found d hs (λ y h. f y (or_true (eqb_ℤ x y) (has_hour hs y) h)),
)
  where
    or_true : (a b : Bool) → b ≡ true → (a || b) ≡ true
    or_true a b h = ground arith

some_if : {A : Type 0} (o : Option A) → (if is_some o then o else none) ≡ o
some_if none = refl
some_if (some a) = refl

-- What a merged series is: the newest copy's identity and model, hours that only rise, and for each
-- hour the last sample that any copy holds for it.
pub record IsUnion (copies : List DiskSeries) (newest s : DiskSeries) : Type 0 where
  pub identity : s.identity ≡ newest.identity
  pub model : s.model ≡ newest.model
  pub rising : Increasing (hours s.samples)
  pub last : (h : ℤ) → at_hour s.samples h ≡ last_at (samples_in copies) h

pub merged-IsUnion :
    (first : DiskSeries) (rest : List DiskSeries)
    → (s : DiskSeries) × (merged first rest ≡ some s)
      × IsUnion (first ∷ rest) (last_from first rest) s
unfolding merged series_of lookup
merged-IsUnion first rest =
    let d = keep_copies [] (first ∷ rest) in
    let sound = keep_copies-IsSound [] (first ∷ rest) (record { keyed = tt; distinct = tt }) in
    let has : (h : ℤ) → has_hour (sorted (keys d)) h ≡ is_some (lookup int_key h d) =
      λ h. has_hour-sorted (keys d) h ∙ has_hour-keys d h in
    let (out, e, same, at) =
      samples_at_lem d (sorted (keys d)) sound.keyed
        (All-Found d (sorted (keys d)) (λ x f. sym (has x) ∙ f)) in
    rw e (
      _,
      refl,
      record {
        identity = refl;
        model = refl;
        rising = subst Increasing (sym same) (sorted-Increasing (keys d) sound.distinct);
        last = λ h.
            at h
            ∙ ap (λ b. if b then lookup int_key h d else none) (has h)
            ∙ some_if (lookup int_key h d)
            ∙ lookup-keep_copies [] (first ∷ rest) h
            ∙ sym (later-none (last_at (samples_in (first ∷ rest)) h));
      },
    )
