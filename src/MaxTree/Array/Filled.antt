-- ===== src/MaxTree/Array/Filled.antt =====
-- The list that a max tree of src/lsdsk/domain/diagnostics.py and models.py starts from: the values,
-- between minus infinities.
use lsdsk.Prelude.{
  ℕ, zero, suc, ◌+◌, ◌-◌, ◌*◌, ◌<◌, ◌≤◌, ◌≡◌, refl, ◌∙◌, some, List, [], ◌∷◌, ◌++◌, length,
  length-append, arith, get_elem?, take, drop, replicate, leb, Bool-cases, inl, inr,
}
use lsdsk.Thresholds.{Floats}
use lsdsk.MaxTree.{value_or, filled}
use lsdsk.MaxTree.Array.{initial}
use lsdsk.MaxTree.Array.Holds.{Holds}

module _ {A : Type 0} where
  take-replicate : (n m : ℕ) (a : A) → n ≤ m → take n (replicate m a) ≡ replicate n a
  take-replicate zero m a h = refl
  take-replicate (suc n) zero a h = absurd (omega arith)
  take-replicate (suc n) (suc m) a h = rw (take-replicate n m a (omega arith)) refl

  drop-replicate : (n m : ℕ) (a : A) → n ≤ m → drop n (replicate m a) ≡ replicate (m - n) a
  drop-replicate zero m a h = let e : m - 0 ≡ m = omega arith in rw e refl
  drop-replicate (suc n) zero a h = absurd (omega arith)
  drop-replicate (suc n) (suc m) a h =
      let e : suc m - suc n ≡ m - n = omega arith in rw e (drop-replicate n m a (omega arith))

  length-replicate : (n : ℕ) (a : A) → length (replicate n a) ≡ n
  length-replicate zero a = refl
  length-replicate (suc n) a = omega (arith, length-replicate n a)

  get_elem?-replicate : (n i : ℕ) (a : A) → i < n → get_elem? (replicate n a) i ≡ some a
  get_elem?-replicate zero i a h = absurd (omega arith)
  get_elem?-replicate (suc n) zero a h = refl
  get_elem?-replicate (suc n) (suc i) a h = get_elem?-replicate n i a (omega arith)

  get_elem?-before :
      (n i : ℕ) (a : A) (ys : List A) → i < n → get_elem? (replicate n a ++ ys) i ≡ some a
  get_elem?-before zero i a ys h = absurd (omega arith)
  get_elem?-before (suc n) zero a ys h = refl
  get_elem?-before (suc n) (suc i) a ys h = get_elem?-before n i a ys (omega arith)

  get_elem?-behind :
      (n i j : ℕ) (a : A) (ys : List A)
      → j ≡ n + i
      → get_elem? (replicate n a ++ ys) j ≡ get_elem? ys i
  get_elem?-behind zero i j a ys h = let e : j ≡ i = omega arith in rw e refl
  get_elem?-behind (suc n) i zero a ys h = absurd (omega arith)
  get_elem?-behind (suc n) i (suc j) a ys h = get_elem?-behind n i j a ys (omega arith)

  get_elem?-padded :
      (xs : List A) (n i : ℕ) (a : A)
      → i < length xs + n
      → get_elem? (xs ++ replicate n a) i ≡ some (value_or a (get_elem? xs i))
  get_elem?-padded [] n i a h = get_elem?-replicate n i a (omega arith)
  get_elem?-padded (x ∷ xs) n zero a h = refl
  get_elem?-padded (x ∷ xs) n (suc i) a h = get_elem?-padded xs n i a (omega arith)

module _ {F : Type 0} (floats : Floats F) where
  initial_is :
      (leaves : ℕ) (ports : List F)
      → length ports ≤ leaves
      → initial floats leaves ports
        ≡ replicate leaves floats.minus_inf
          ++ (ports ++ replicate (leaves - length ports) floats.minus_inf)
  initial_is leaves ports room =
      let e : 2 * leaves - (leaves + length ports) ≡ leaves - length ports = omega arith in
      rw
        (
          take-replicate leaves (2 * leaves) floats.minus_inf (omega arith),
          drop-replicate (leaves + length ports) (2 * leaves) floats.minus_inf (omega arith),
          e,
        )
        refl

  pub initial-Holds :
      (leaves : ℕ) (ports : List F)
      → length ports ≤ leaves
      → Holds (initial floats leaves ports) (filled floats leaves ports) (2 * leaves)
  initial-Holds leaves ports room =
      let pad = replicate (leaves - length ports) floats.minus_inf in
      rw (initial_is leaves ports room) (record {
        size =
            length-append (replicate leaves floats.minus_inf) (ports ++ pad)
            ∙ omega (
              arith,
              length-append ports pad,
              length-replicate leaves floats.minus_inf,
              length-replicate (leaves - length ports) floats.minus_inf,
            );
        items = λ i inside. elim (Bool-cases (leb leaves i)) [
          | inr low ↦
              rw low
                (get_elem?-before leaves i floats.minus_inf (ports ++ pad) (ground (arith, low)))
          | inl high ↦
              let above : leaves ≤ i = ground (arith, high) in
              rw high (
                get_elem?-behind leaves (i - leaves) i floats.minus_inf (ports ++ pad) (omega arith)
                ∙ get_elem?-padded ports (leaves - length ports) (i - leaves) floats.minus_inf
                    (omega arith))
        ];
      })
