-- ===== src/History/Thin/Keeps.antt =====
-- Which samples `thin` of src/lsdsk/domain/history.py keeps.
use lsdsk.Prelude.{
  ℕ, zero, suc, ◌+◌, ◌-◌, ◌/◌, ◌≤◌, ◌<◌, ◌≡◌, refl, Bool-cases, inl, inr, List, [], ◌∷◌, ◌++◌,
  arith, length, take, drop, max, length-drop, leb, ltb, leb-false, ltb-false, last_from, Sub,
  Sub-refl, Sub-nil, Sub-append, Sub-trans, Sub-take, Sub-drop, take-append-drop, lt→ltb, ◌∙◌,
}
use lsdsk.Prelude.Int.{ℤ, leb_ℤ, monus_ℤ}
use lsdsk.History.Types.{Sample}
use lsdsk.History.Thin.{every, bucket, spread, spread_over_hours, thin_long, thin}

every-Sub : (step left : ℕ) (xs : List Sample) → Sub (every step left xs) xs
unfolding every
every-Sub step left [] = Sub.nil
every-Sub step zero (x ∷ xs) = Sub.keep x (every-Sub step (step - 1) xs)
every-Sub step (suc left) (x ∷ xs) = Sub.skip x (every-Sub step left xs)

spread-Sub :
    (room : ℕ) (start : ℤ) (span next : ℕ) (xs : List Sample)
    → Sub (spread room start span next xs) xs
unfolding spread
spread-Sub room start span next [] = Sub.nil
spread-Sub room start span next (x ∷ xs) =
    elim (Bool-cases (leb next (bucket room start span x.power_on_hours))) [
      | inl t ↦
          rw t (
            Sub.keep x
              (spread-Sub room start span (bucket room start span x.power_on_hours + 1) xs))
      | inr f ↦ rw f (Sub.skip x (spread-Sub room start span next xs))
    ]

spread_over_hours-Sub :
    (middle : List Sample) (room : ℕ) (after : Sample)
    → Sub (spread_over_hours middle room after) middle
unfolding spread_over_hours
spread_over_hours-Sub middle room after = elim (Bool-cases (leb (length middle) room)) [
  | inl t ↦ rw t (Sub-refl middle)
  | inr f ↦
      rw f (elim (Bool-cases (leb_ℤ (last_from after middle).power_on_hours after.power_on_hours)) [
        | inl s ↦ rw s (
            Sub-trans (every-Sub (max 1 ((length middle + (room - 1)) / room)) 0 middle)
              (Sub-take room _))
        | inr m ↦ rw m (
            spread-Sub room after.power_on_hours
              (monus_ℤ (last_from after middle).power_on_hours after.power_on_hours) 0 middle)
      ])
]

-- Dropping more rows from the series leaves what is dropped from the tail of it.
drop-cons :
    {A : Type 0} (k : ℕ) (x : A) (xs : List A)
    → 1 ≤ k
    → k ≤ length xs
    → drop (length xs + 1 - k) (x ∷ xs) ≡ drop (length xs - k) xs
drop-cons k x xs h le = let e : length xs + 1 - k ≡ suc (length xs - k) = omega arith in rw e refl

thin_long_shape :
    (x : Sample) (xs : List Sample) (cap : ℕ)
    → 3 ≤ cap
    → cap < length xs + 1
    → thin_long x xs cap
      ≡ x
        ∷ (spread_over_hours (take (length xs - cap / 2) xs) (cap - 1 - cap / 2) x
            ++ drop (length xs - cap / 2) xs)
unfolding thin_long
thin_long_shape x xs cap h long =
    rw (drop-cons (cap / 2) x xs (omega arith) (omega arith)) (ground arith)

thin_long-Sub :
    (x : Sample) (xs : List Sample) (cap : ℕ)
    → 3 ≤ cap
    → cap < length xs + 1
    → Sub (thin_long x xs cap) (x ∷ xs)
thin_long-Sub x xs cap h long =
    let n = length xs - cap / 2 in
    let front = spread_over_hours-Sub (take n xs) (cap - 1 - cap / 2) x in
    rw (thin_long_shape x xs cap h long)
      (Sub.keep x (rw (take-append-drop n xs) at (Sub-append front (Sub-refl (drop n xs)))))

-- Thinning leaves samples out: it makes none up and keeps their order.
pub thin-Sub : (samples : List Sample) (cap : ℕ) → Sub (thin samples cap) samples
unfolding thin
thin-Sub [] cap = Sub.nil
thin-Sub (x ∷ xs) cap = elim (Bool-cases (leb (length xs + 1) cap)) [
  | inl t ↦ rw t (Sub-refl (x ∷ xs))
  | inr long ↦ rw long (elim (Bool-cases (ltb cap 3)) [
    | inl small ↦ rw small (elim (Bool-cases (ltb 0 cap)) [
      | inl some_left ↦ rw some_left (Sub-drop (length xs + 1 - cap) (x ∷ xs))
      | inr none_left ↦ rw none_left (Sub-nil (x ∷ xs))
    ])
    | inr big ↦
        rw big (thin_long-Sub x xs cap (ltb-false cap 3 big) (leb-false (length xs + 1) cap long))
  ])
]

last_from-append :
    {A : Type 0} (d : A) (us vs : List A) → 1 ≤ length vs → last_from d (us ++ vs) ≡ last_from d vs
last_from-append d [] vs h = refl
last_from-append d (u ∷ us) [] h = absurd (omega arith)
last_from-append d (u ∷ us) (v ∷ vs) h = last_from-append u us (v ∷ vs) h

last_from-drop :
    {A : Type 0} (d : A) (n : ℕ) (xs : List A)
    → n < length xs
    → last_from d (drop n xs) ≡ last_from d xs
last_from-drop d zero xs h = refl
last_from-drop d (suc n) [] h = absurd (omega arith)
last_from-drop d (suc n) (x ∷ []) h = absurd (omega arith)
last_from-drop d (suc n) (x ∷ y ∷ xs) h = last_from-drop d n (y ∷ xs) (omega arith)

last-thin_long :
    (d x : Sample) (xs : List Sample) (cap : ℕ)
    → 3 ≤ cap
    → cap < length xs + 1
    → last_from d (thin_long x xs cap) ≡ last_from x xs
last-thin_long d x xs cap h long =
    let n = length xs - cap / 2 in
    let front = spread_over_hours (take n xs) (cap - 1 - cap / 2) x in
    rw (thin_long_shape x xs cap h long) (
      last_from-append x front (drop n xs) (omega (arith, length-drop n xs))
      ∙ last_from-drop x n xs (omega arith))

-- With room for at least one sample, the newest one stays the newest.
pub last-thin :
    (d x : Sample) (xs : List Sample) (cap : ℕ)
    → 1 ≤ cap
    → last_from d (thin (x ∷ xs) cap) ≡ last_from x xs
unfolding thin
last-thin d x xs cap h = elim (Bool-cases (leb (length xs + 1) cap)) [
  | inl t ↦ rw t refl
  | inr long ↦ rw long (elim (Bool-cases (ltb cap 3)) [
    | inl small ↦
        rw (small, lt→ltb 0 cap h)
          (last_from-drop d (length xs + 1 - cap) (x ∷ xs)
            (omega (arith, leb-false (length xs + 1) cap long)))
    | inr big ↦
        rw big
          (last-thin_long d x xs cap (ltb-false cap 3 big) (leb-false (length xs + 1) cap long))
  ])
]

-- With a cap of three or more the oldest sample, the baseline, stays the oldest.
pub thin_baseline :
    (x : Sample) (xs : List Sample) (cap : ℕ)
    → 3 ≤ cap
    → (kept : List Sample) × (thin (x ∷ xs) cap ≡ x ∷ kept)
unfolding thin
thin_baseline x xs cap h = elim (Bool-cases (leb (length xs + 1) cap)) [
  | inl t ↦ (xs, rw t)
  | inr long ↦ (
    spread_over_hours (take (length xs - cap / 2) xs) (cap - 1 - cap / 2) x
        ++ drop (length xs - cap / 2) xs,
    ground (arith, thin_long_shape x xs cap h),
  )
]
