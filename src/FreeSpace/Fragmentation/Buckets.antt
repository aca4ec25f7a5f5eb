-- ===== src/FreeSpace/Fragmentation/Buckets.antt =====
-- `bucket_of` of src/lsdsk/domain/fragmentation.py, against the powers of two.
use native.Mathlib.Nat.{pow-suc}
use lsdsk.Prelude.{
  ℕ, zero, suc, ◌+◌, ◌-◌, ◌*◌, ◌/◌, ◌^◌, ◌≤◌, ◌<◌, ◌≡◌, arith, ◌==◌, Bool-cases, inl, inr, refl,
  false, ◌⊎◌, leb, leb→le, leb-false, min, max,
}
use lsdsk.FreeSpace.Fragmentation.{halvings, bit_length, bucket_of}

halvings-zero : (fuel : ℕ) → halvings fuel 0 ≡ 0
unfolding halvings
halvings-zero zero = refl
halvings-zero (suc fuel) = refl

halvings-suc : (fuel n : ℕ) → (n == 0) ≡ false → halvings (suc fuel) n ≡ suc (halvings fuel (n / 2))
unfolding halvings
halvings-suc fuel n h = rw (h, halvings) refl

-- One more halving.
double_bounds :
    (n k : ℕ)
    → 0 < n
    → n / 2 < 2 ^ k
    → ((n / 2 ≡ 0) × (k ≡ 0)) ⊎ (2 ^ k ≤ 2 * (n / 2))
    → (n < 2 ^ suc k) × (2 ^ suc k ≤ 2 * n)
double_bounds n k pos below (inl (z, e)) = (rw pow-suc (omega arith), rw e (omega arith))
double_bounds n k pos below (inr above) = (rw pow-suc (omega arith), rw pow-suc (omega arith))

-- A number lies below the power of two of its bit length, and not below the one before.
halvings_bounds :
    (fuel n : ℕ) → n ≤ fuel → 0 < n → (n < 2 ^ halvings fuel n) × (2 ^ halvings fuel n ≤ 2 * n)
halvings_bounds zero n h pos = absurd (omega arith)
halvings_bounds (suc fuel) n h pos = elim (Bool-cases (n == 0)) [
  | inl z ↦ absurd (ground arith)
  | inr p ↦ rw (halvings-suc fuel n p) (elim (Bool-cases (n / 2 == 0)) [
    | inl z ↦ let e : n / 2 ≡ 0 = ground arith in rw e (rw (halvings-zero fuel) (omega arith))
    | inr q ↦
        let ih = halvings_bounds fuel (n / 2) (omega arith) (ground arith) in
        double_bounds n (halvings fuel (n / 2)) pos ih.0 (inr ih.1)
  ])
]

-- `2 ** (n.bit_length() - 1) <= n < 2 ** n.bit_length()`
pub bit_length_bounds : (n : ℕ) → 0 < n → (n < 2 ^ bit_length n) × (2 ^ bit_length n ≤ 2 * n)
bit_length_bounds n h = halvings_bounds n n (omega arith) h

pow_mono : (j k : ℕ) → j ≤ k → 2 ^ j ≤ 2 ^ k
pow_mono j zero h = let e : j ≡ 0 = omega arith in rw e (omega arith)
pow_mono j (suc k) h = elim (Bool-cases (j == suc k)) [
  | inl t ↦ let e : j ≡ suc k = ground arith in rw e (omega arith)
  | inr f ↦ rw pow-suc (omega (arith, pow_mono j k (ground arith)))
]

half_pow : (j k n : ℕ) → suc j ≤ k → 2 ^ k ≤ 2 * n → 2 ^ j ≤ n
half_pow j k n h le = omega (arith, pow_mono (suc j) k h, doubled j)
  where
    doubled : (j : ℕ) → 2 ^ suc j ≡ 2 * 2 ^ j
    doubled j = rw pow-suc (omega arith)

-- In which sizes a bucket's extents lie: bucket 0 holds those under 1 KiB, bucket 20 those from
-- 512 MiB up, and a bucket between the two those from its power of two to the next.
pub bucket_of_bounds :
    (n : ℕ)
    → 0 < n
    → (bucket_of n ≤ 20)
      × (n < 2 ^ (bucket_of n + 10) ⊎ (bucket_of n ≡ 20))
      × (2 ^ (bucket_of n + 9) ≤ n ⊎ (bucket_of n ≡ 0))
unfolding bucket_of
bucket_of_bounds n h =
    let long = bit_length n in
    let bounds = bit_length_bounds n h in
    (
      omega arith,
      elim (Bool-cases (leb 30 long)) [
        | inl t ↦ inr (omega (arith, leb→le 30 long t))
        | inr f ↦ inl (
            omega (
              arith,
              bounds.0,
              pow_mono long (min (max (long - 10) 0) 20 + 10) (omega (arith, leb-false 30 long f)),
            ))
      ],
      elim (Bool-cases (leb long 10)) [
        | inl t ↦ inr (omega (arith, leb→le long 10 t))
        | inr f ↦ inl (
            half_pow (min (max (long - 10) 0) 20 + 9) long n (omega (arith, leb-false long 10 f))
              bounds.1)
      ],
    )
