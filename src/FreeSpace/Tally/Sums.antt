-- ===== src/FreeSpace/Tally/Sums.antt =====
-- `FreeExtentTally.add` of src/lsdsk/adapters/hw/decode/free_extents.py and what is sound of a tally.
use lsdsk.Prelude.{ℕ, zero, suc, ◌+◌, ◌≤◌, ◌<◌, ◌≡◌, ap, List, [], ◌∷◌, arith, length, refl}
use lsdsk.Prelude.Int.{ℤ, pos_part}
use lsdsk.FreeSpace.Fragmentation.{free_space_buckets, bucket_of, sum}
use lsdsk.FreeSpace.Tally.{FreeExtentTally, added, empty, uint64_max, add_at, add}

-- The counts and sums are bounded and agree: the histogram has a bucket for each table entry, and
-- its buckets hold all that the total holds.
pub record IsSound (t : FreeExtentTally) : Type 0 where
  pub within_cap : t.count ≤ t.cap
  pub within_word : t.total ≤ uint64_max
  pub buckets : length t.histogram ≡ free_space_buckets
  pub spread : sum t.histogram ≡ t.total
  pub longest : t.largest ≤ t.total
  pub filled : t.count ≤ t.total

length-add_at : (xs : List ℕ) (b n : ℕ) → length (add_at xs b n) ≡ length xs
unfolding add_at
length-add_at [] b n = refl
length-add_at (x ∷ xs) zero n = refl
length-add_at (x ∷ xs) (suc b) n = ap suc (length-add_at xs b n)

sum-add_at : (xs : List ℕ) (b n : ℕ) → b < length xs → sum (add_at xs b n) ≡ sum xs + n
unfolding add_at
sum-add_at [] b n h = absurd (omega arith)
sum-add_at (x ∷ xs) zero n h = omega arith
sum-add_at (x ∷ xs) (suc b) n h = omega (arith, sum-add_at xs b n (omega arith))

bucket_of-lt : (n : ℕ) → bucket_of n < free_space_buckets
unfolding bucket_of
bucket_of-lt n = omega arith

pub empty-IsSound : (cap : ℕ) → IsSound (empty cap)
empty-IsSound cap = record {
  within_cap = omega arith;
  within_word = omega arith;
  buckets = refl;
  spread = refl;
  longest = omega arith;
  filled = omega arith;
}

-- An extent that is folded in leaves a sound tally sound, whatever its length.
pub add-IsSound : (t t' : FreeExtentTally) (n : ℤ) → IsSound t → add t n ≡ added t' → IsSound t'
unfolding add
add-IsSound t t' n h e =
    let b = bucket_of (pos_part n) in
    ground (
      arith,
      length-add_at t.histogram b (pos_part n),
      sum-add_at t.histogram b (pos_part n),
      bucket_of-lt (pos_part n),
    )
