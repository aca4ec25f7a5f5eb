-- ===== src/FreeSpace/Tally.antt =====
-- src/lsdsk/adapters/hw/decode/free_extents.py: `FreeExtentTally`.
pub mod Sums
pub mod Totals
use lsdsk.Prelude.{
  ℕ, zero, suc, ◌+◌, ◌^◌, ◌-◌, max, List, [], ◌∷◌, replicate, leb, ltb, if◌then◌else◌,
}
use lsdsk.Prelude.Int.{ℤ, pos, leb_ℤ, pos_part}
use lsdsk.FreeSpace.Fragmentation.{free_space_buckets, bucket_of}

abbrev pub max_free_extents : ℕ
max_free_extents = 1_000_000

abbrev pub uint64_max : ℕ
uint64_max = 2 ^ 64 - 1

pub record FreeExtentTally : Type 0 where
  pub cap : ℕ
  pub count : ℕ
  pub total : ℕ
  pub largest : ℕ
  pub histogram : List ℕ

-- `FreeExtentCapError`, and the plain `ValueError`.
pub data Added : Type 0 where
  added : FreeExtentTally → Added
  cap_error total_error : Added

abbrev pub empty : ℕ → FreeExtentTally
empty cap = record {
  cap = cap;
  count = 0;
  total = 0;
  largest = 0;
  histogram = replicate free_space_buckets 0;
}

-- `self._histogram[bucket] += length`
unfoldable pub add_at : List ℕ → ℕ → ℕ → List ℕ
add_at [] bucket length = []
add_at (x ∷ xs) zero length = (x + length) ∷ xs
add_at (x ∷ xs) (suc bucket) length = x ∷ add_at xs bucket length

unfoldable pub add : FreeExtentTally → ℤ → Added
add t length =
    let n = pos_part length in
    if leb_ℤ length (pos 0)
    then added t
    else if leb t.cap t.count
    then cap_error
    else if ltb uint64_max (t.total + n)
    then total_error
    else added (record t {
      count = t.count + 1;
      total = t.total + n;
      largest = max t.largest n;
      histogram = add_at t.histogram (bucket_of n) n;
    })

-- What a caller's walk does to a tally: it adds one extent after another until one is refused.
unfoldable pub add_all : FreeExtentTally → List ℤ → Added
add_all t [] = added t
add_all t (length ∷ lengths) = elim (add t length) [
  | added t' ↦ add_all t' lengths
  | cap_error ↦ cap_error
  | total_error ↦ total_error
]
