-- ===== src/VolumeBitmap/Bytes.antt =====
-- The clusters that the bytes of a bitmap hold, as src/lsdsk/adapters/hw/windows/volume_layout.py
-- expands them.
use lsdsk.Prelude.{
  ℕ, zero, suc, ◌+◌, ◌-◌, ◌*◌, ◌/◌, ◌%◌, ◌<◌, ◌≡◌, refl, sym, ap, Bool, true, false, none, List, [],
  ◌∷◌, ◌++◌, length, take, drop, replicate, ◌==◌, arith, All,
}
use lsdsk.VolumeBitmap.{bits, from_little, runs, runs_between}

-- The clusters of some bytes, the lowest bit of a byte first.
abbrev pub bit_list : List ℕ → List Bool
bit_list [] = []
bit_list (b ∷ bytes) = bits 8 b ++ bit_list bytes

abbrev pub AreBytes : List ℕ → Type 0
AreBytes bytes = All (λ b. b < 256) bytes

module _ {A : Type 0} where
  pub append_assoc : (xs ys zs : List A) → (xs ++ ys) ++ zs ≡ xs ++ (ys ++ zs)
  append_assoc [] ys zs = refl
  append_assoc (x ∷ xs) ys zs = ap (◌∷◌ x) (append_assoc xs ys zs)

  pub append_nil : (xs : List A) → xs ++ [] ≡ xs
  append_nil [] = refl
  append_nil (x ∷ xs) = ap (◌∷◌ x) (append_nil xs)

  pub drop-append : (xs ys : List A) → drop (length xs) (xs ++ ys) ≡ ys
  drop-append [] ys = refl
  drop-append (x ∷ xs) ys = drop-append xs ys

  pub take-append : (xs ys : List A) → take (length xs) (xs ++ ys) ≡ xs
  take-append [] ys = refl
  take-append (x ∷ xs) ys = ap (◌∷◌ x) (take-append xs ys)

  pub length-replicate : (n : ℕ) (a : A) → length (replicate n a) ≡ n
  length-replicate zero a = refl
  length-replicate (suc n) a = omega (arith, length-replicate n a)

  pub All-append : (P : A → Type 0) (xs ys : List A) → All P (xs ++ ys) → All P xs × All P ys
  All-append P [] ys h = (tt, h)
  All-append P (x ∷ xs) ys h = let (a, b) = All-append P xs ys h.1 in ((h.0, a), b)

pub bit_list-append : (us vs : List ℕ) → bit_list (us ++ vs) ≡ bit_list us ++ bit_list vs
bit_list-append [] vs = refl
bit_list-append (u ∷ us) vs =
    rw (bit_list-append us vs) (sym (append_assoc (bits 8 u) (bit_list us) (bit_list vs)))

pub length-bit_list : (bytes : List ℕ) → length (bit_list bytes) ≡ length bytes * 8
length-bit_list [] = omega arith
length-bit_list (b ∷ bytes) = omega (arith, length-bit_list bytes)

abbrev doubled : ℕ → ℕ → ℕ
doubled zero n = n
doubled (suc k) n = 2 * doubled k n

-- The lower digits of a number are those of its lower part, the others those of its upper part.
bits-split : (k w b m : ℕ) → b < doubled k 1 → bits (k + w) (b + doubled k m) ≡ bits k b ++ bits w m
bits-split zero w b m h =
    let e : b + m ≡ m = omega (arith, h) in let f : zero + w ≡ w = omega arith in rw (e, f) refl
bits-split (suc k) w b m h =
    let f : suc k + w ≡ suc (k + w) = omega arith in
    let digit : (b + 2 * doubled k m) % 2 ≡ b % 2 = omega arith in
    let half : (b + 2 * doubled k m) / 2 ≡ b / 2 + doubled k m = omega arith in
    rw (f, digit, half, bits-split k w (b / 2) m (omega (arith, h))) refl

bits-from_little :
    (bytes : List ℕ) → AreBytes bytes → bits (length bytes * 8) (from_little bytes) ≡ bit_list bytes
bits-from_little [] h = refl
bits-from_little (b ∷ bytes) h =
    let wide : suc (length bytes) * 8 ≡ 8 + length bytes * 8 = omega arith in
    let upper : b + 256 * from_little bytes ≡ b + doubled 8 (from_little bytes) = omega arith in
    rw
      (
        wide,
        upper,
        bits-split 8 (length bytes * 8) b (from_little bytes) (omega (arith, h.0)),
        bits-from_little bytes h.1,
      )
      refl

-- The runs between two bytes of a window are those of the clusters that stand there.
pub runs_between_lem :
    (before piece after : List ℕ)
    → AreBytes piece
    → runs_between (before ++ (piece ++ after)) (length before) (length before + length piece)
      ≡ runs (length before * 8) none (bit_list piece)
unfolding runs_between runs
runs_between_lem before [] after h =
    let same : (length before == length before + 0) ≡ true = ground arith in rw same refl
runs_between_lem before (b ∷ piece) after h =
    let differ : (length before == length before + suc (length piece)) ≡ false = ground arith in
    let many : length before + suc (length piece) - length before ≡ suc (length piece) =
      omega arith in
    rw (differ, many, drop-append before (b ∷ (piece ++ after)), take-append piece after)
      (ap (runs (length before * 8) none) (bits-from_little (b ∷ piece) h))
