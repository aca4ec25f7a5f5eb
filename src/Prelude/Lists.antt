-- ===== src/Prelude/Lists.antt =====
-- Lists measured and indexed by native numbers, and the order-keeping selection of a list.
use Prim.Native.Nat.{ℕ, zero, suc, ◌+◌, ◌-◌, min, ◌<◌}
use mathlib.Core.Path.{◌≡◌, refl, sym, ap, subst}
use mathlib.Core.Logic.{◌⊎◌, inl, inr}
use mathlib.Core.Bool.{Bool, true, false, ◌||◌}
use mathlib.Core.List.{List, [], ◌∷◌, ◌++◌}
use mathlib.Core.Option.{Option, none, some}
use native.Mathlib.Omega.{arith}
use lsdsk.Prelude.Tests.{if◌then◌else◌, Bool-cases}

module _ {ℓ} {A : Type ℓ} where
  abbrev pub length : List A → ℕ
  length [] = 0
  length (x ∷ xs) = suc (length xs)

  abbrev pub get_elem? : List A → ℕ → Option A
  get_elem? [] i = none
  get_elem? (x ∷ xs) zero = some x
  get_elem? (x ∷ xs) (suc i) = get_elem? xs i

  abbrev pub take : ℕ → List A → List A
  take zero xs = []
  take (suc n) [] = []
  take (suc n) (x ∷ xs) = x ∷ take n xs

  abbrev pub drop : ℕ → List A → List A
  drop zero xs = xs
  drop (suc n) [] = []
  drop (suc n) (x ∷ xs) = drop n xs

  abbrev pub replicate : ℕ → A → List A
  replicate zero a = []
  replicate (suc n) a = a ∷ replicate n a

  -- A position below the length holds an item.
  pub get_elem?-some : (xs : List A) (i : ℕ) → i < length xs → (a : A) × (get_elem? xs i ≡ some a)
  get_elem?-some [] i h = ground (arith, h)
  get_elem?-some (x ∷ xs) zero h = (x, refl)
  get_elem?-some (x ∷ xs) (suc i) h = get_elem?-some xs i (omega arith)

  pub length-append : (xs ys : List A) → length (xs ++ ys) ≡ length xs + length ys
  length-append [] ys = omega arith
  length-append (x ∷ xs) ys = omega (arith, length-append xs ys)

  pub length-take : (n : ℕ) (xs : List A) → length (take n xs) ≡ min n (length xs)
  length-take zero xs = omega arith
  length-take (suc n) [] = omega arith
  length-take (suc n) (x ∷ xs) = omega (arith, length-take n xs)

  pub length-drop : (n : ℕ) (xs : List A) → length (drop n xs) ≡ length xs - n
  length-drop zero xs = omega arith
  length-drop (suc n) [] = omega arith
  length-drop (suc n) (x ∷ xs) = omega (arith, length-drop n xs)

  pub take-append-drop : (n : ℕ) (xs : List A) → take n xs ++ drop n xs ≡ xs
  take-append-drop zero xs = refl
  take-append-drop (suc n) [] = refl
  take-append-drop (suc n) (x ∷ xs) = ap (◌∷◌ x) (take-append-drop n xs)

  -- Python's `xs[-1]`, where the list may be empty.
  abbrev pub last_from : A → List A → A
  last_from d [] = d
  last_from d (x ∷ xs) = last_from x xs

  -- `xs` is what is left of `ys` after some items were left out; the order is kept.
  pub data Sub : List A → List A → Type ℓ where
    nil : Sub [] []
    keep : (x : A) {xs ys : List A} → Sub xs ys → Sub (x ∷ xs) (x ∷ ys)
    skip : (y : A) {xs ys : List A} → Sub xs ys → Sub xs (y ∷ ys)

  abbrev pub All {κ} : (A → Type κ) → List A → Type κ
  All P [] = Unit
  All P (x ∷ xs) = P x × All P xs

  abbrev pub any : (A → Bool) → List A → Bool
  any p [] = false
  any p (x ∷ xs) = p x || any p xs

  abbrev pub filter : (A → Bool) → List A → List A
  filter p [] = []
  filter p (x ∷ xs) = let rest = filter p xs in if p x then x ∷ rest else rest

module _ {ℓ} {A : Type ℓ} where
  -- `x in xs`
  pub data Elem (x : A) : List A → Type ℓ where
    here : {y : A} {ys : List A} → x ≡ y → Elem x (y ∷ ys)
    there : {y : A} {ys : List A} → Elem x ys → Elem x (y ∷ ys)

  abbrev pub zip {κ} : {B : Type κ} → List A → List B → List (A × B)
  zip [] ys = []
  zip (x ∷ xs) [] = []
  zip (x ∷ xs) (y ∷ ys) = (x, y) ∷ zip xs ys

  -- `xs[:-1]` of the list `x ∷ xs`
  abbrev pub but_last : A → List A → List A
  but_last x [] = []
  but_last x (y ∷ ys) = x ∷ but_last y ys

  -- The first item that passes, as `next(... if ...)` finds it.
  abbrev pub find : (A → Bool) → List A → Option A
  find p [] = none
  find p (x ∷ xs) = let rest = find p xs in if p x then some x else rest

module _ {ℓ} {A : Type ℓ} where
  pub Elem-append_left : {x : A} {xs : List A} (ys : List A) → Elem x xs → Elem x (xs ++ ys)
  Elem-append_left ys (here e) = here e
  Elem-append_left ys (there m) = there (Elem-append_left ys m)

  pub Elem-append_right : {x : A} (xs : List A) {ys : List A} → Elem x ys → Elem x (xs ++ ys)
  Elem-append_right [] h = h
  Elem-append_right (z ∷ xs) h = there (Elem-append_right xs h)

  pub Elem-append : {x : A} (xs : List A) {ys : List A} → Elem x (xs ++ ys) → Elem x xs ⊎ Elem x ys
  Elem-append [] h = inr h
  Elem-append (z ∷ xs) (here e) = inl (here e)
  Elem-append (z ∷ xs) (there m) = elim (Elem-append xs m) [ inl l ↦ inl (there l) | inr r ↦ inr r ]

  pub All-Elem {κ} : (P : A → Type κ) {x : A} (xs : List A) → All P xs → Elem x xs → P x
  All-Elem P [] h m = elim m [ ]
  All-Elem P (y ∷ ys) h (here e) = subst P (sym e) h.0
  All-Elem P (y ∷ ys) h (there m) = All-Elem P ys h.1 m

  pub find-Elem :
      (p : A → Bool) (xs : List A) (x : A) → find p xs ≡ some x → Elem x xs × (p x ≡ true)
  find-Elem p [] x h = cc
  find-Elem p (y ∷ ys) x h = elim (Bool-cases (p y)) [
    | inl t ↦ let e : y ≡ x = ground arith in (here (sym e), rw (← e) t)
    | inr f ↦ let r = find-Elem p ys x (ground arith) in (there r.0, r.1)
  ]

  pub find-none : (p : A → Bool) (xs : List A) (x : A) → find p xs ≡ none → Elem x xs → p x ≡ false
  find-none p [] x h m = elim m [ ]
  find-none p (y ∷ ys) x h (here e) = rw e (ground arith)
  find-none p (y ∷ ys) x h (there m) = find-none p ys x (ground arith) m

  pub Sub-refl : (xs : List A) → Sub xs xs
  Sub-refl [] = nil
  Sub-refl (x ∷ xs) = keep x (Sub-refl xs)

  pub Sub-nil : (xs : List A) → Sub [] xs
  Sub-nil [] = nil
  Sub-nil (x ∷ xs) = skip x (Sub-nil xs)

  pub Sub-append : {us vs xs ys : List A} → Sub us vs → Sub xs ys → Sub (us ++ xs) (vs ++ ys)
  Sub-append nil t = t
  Sub-append (keep x s) t = keep x (Sub-append s t)
  Sub-append (skip y s) t = skip y (Sub-append s t)

  pub Sub-trans : {ys zs : List A} → Sub ys zs → {xs : List A} → Sub xs ys → Sub xs zs
  Sub-trans nil s = s
  Sub-trans (keep _ t) (keep x s) = keep x (Sub-trans t s)
  Sub-trans (keep _ t) (skip x s) = skip x (Sub-trans t s)
  Sub-trans (skip y t) s = skip y (Sub-trans t s)

  pub Sub-take : (n : ℕ) (xs : List A) → Sub (take n xs) xs
  Sub-take zero xs = Sub-nil xs
  Sub-take (suc n) [] = nil
  Sub-take (suc n) (x ∷ xs) = keep x (Sub-take n xs)

  pub Sub-drop : (n : ℕ) (xs : List A) → Sub (drop n xs) xs
  Sub-drop zero xs = Sub-refl xs
  Sub-drop (suc n) [] = nil
  Sub-drop (suc n) (x ∷ xs) = skip x (Sub-drop n xs)

module _ {ℓ} {A : Type ℓ} where
  -- What a filter leaves passes its test.
  pub All-filter : (p : A → Bool) (xs : List A) → All (λ x. p x ≡ true) (filter p xs)
  All-filter p [] = tt
  All-filter p (x ∷ xs) = elim (Bool-cases (p x)) [
    | inl t ↦ rw t (t, All-filter p xs)
    | inr f ↦ rw f (All-filter p xs)
  ]

  pub Elem-last_from : (x : A) (xs : List A) → Elem (last_from x xs) (x ∷ xs)
  Elem-last_from x [] = Elem.here refl
  Elem-last_from x (y ∷ ys) = Elem.there (Elem-last_from y ys)

  pub Elem-but_last : {z : A} (x : A) (xs : List A) → Elem z (but_last x xs) → Elem z (x ∷ xs)
  Elem-but_last x [] m = elim m [ ]
  Elem-but_last x (y ∷ ys) (Elem.here e) = Elem.here e
  Elem-but_last x (y ∷ ys) (Elem.there m) = Elem.there (Elem-but_last y ys m)

module _ {ℓ} {A : Type ℓ} where
  -- Two lists of one length whose items are related place by place.
  pub data Forall2 {κ} (R : A → A → Type κ) : List A → List A → Type (ℓ ⊔ κ) where
    none_left : Forall2 R [] []
    both : {x y : A} {xs ys : List A} → R x y → Forall2 R xs ys → Forall2 R (x ∷ xs) (y ∷ ys)

  pub Forall2-append {κ} :
      {R : A → A → Type κ} {us vs xs ys : List A}
      → Forall2 R us vs
      → Forall2 R xs ys
      → Forall2 R (us ++ xs) (vs ++ ys)
  Forall2-append none_left q = q
  Forall2-append (both r p) q = both r (Forall2-append p q)

  pub Forall2-refl {κ} : {R : A → A → Type κ} → ((x : A) → R x x) → (xs : List A) → Forall2 R xs xs
  Forall2-refl r [] = none_left
  Forall2-refl r (x ∷ xs) = both (r x) (Forall2-refl r xs)
