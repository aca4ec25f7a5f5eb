-- ===== src/FreeSpace/Fragmentation.antt =====
-- src/lsdsk/domain/fragmentation.py: the score of a free-space histogram.
pub mod Buckets
use lsdsk.Prelude.{
  ℕ, zero, suc, ◌+◌, ◌-◌, ◌*◌, ◌/◌, min, max, Bool, true, false, Option, none, some, List, [], ◌∷◌,
  length, ◌==◌, if◌then◌else◌,
}

-- `ValueError` for a histogram of another length, and what the function returns.
pub data Scored : Type 0 where
  wrong_length : ℕ → Scored
  score : Option ℕ → Scored

abbrev pub zfs_frag_table : List ℕ
zfs_frag_table =
    100 ∷ 99 ∷ 97 ∷ 93 ∷ 88 ∷ 83 ∷ 77 ∷ 71 ∷ 64 ∷ 57 ∷ 50 ∷ 43 ∷ 36 ∷ 29 ∷ 23 ∷ 17 ∷ 12 ∷ 7 ∷ 3 ∷ 1
    ∷ 0 ∷ []

abbrev pub free_space_buckets : ℕ
free_space_buckets = 21

-- `int.bit_length`: how often the number can be halved before it is 0. The number itself is fuel
-- enough, since a positive number falls at each halving.
unfoldable pub halvings : ℕ → ℕ → ℕ
halvings zero n = 0
halvings (suc fuel) n = elim (n == 0) [ true ↦ 0 | false ↦ suc (halvings fuel (n / 2)) ]

abbrev pub bit_length : ℕ → ℕ
bit_length n = halvings n n

unfoldable pub bucket_of : ℕ → ℕ
bucket_of length = min (max (bit_length length - 10) 0) (free_space_buckets - 1)

abbrev pub sum : List ℕ → ℕ
sum [] = 0
sum (x ∷ xs) = x + sum xs

-- `sum(free * score for free, score in zip(histogram, table))`
unfoldable pub weighted : List ℕ → List ℕ → ℕ
weighted [] scores = 0
weighted (free ∷ histogram) [] = 0
weighted (free ∷ histogram) (s ∷ scores) = free * s + weighted histogram scores

unfoldable pub fragmentation_from_histogram : List ℕ → Scored
fragmentation_from_histogram histogram =
    if length histogram == free_space_buckets
    then (if sum histogram == 0
        then score none
        else score (some (weighted histogram zfs_frag_table / sum histogram)))
    else wrong_length (length histogram)
