-- ===== src/FreeSpace/Tests.antt =====
-- Runs of the free-space tally, and each theorem at one where its hypotheses hold.
use lsdsk.Prelude.{
  ℕ, ◌+◌, ◌*◌, ◌^◌, ◌≤◌, ◌<◌, ◌≡◌, ◌↔◌, ◌⊎◌, List, [], ◌∷◌, none, some, arith, max, refl,
}
use lsdsk.Prelude.Int.{ℤ, pos, negsuc}
use lsdsk.FreeSpace.Fragmentation.{
  bucket_of, halvings, fragmentation_from_histogram, weighted, zfs_frag_table, score,
}
use lsdsk.FreeSpace.Fragmentation.Buckets.{bucket_of_bounds}
use lsdsk.FreeSpace.Tally.{
  FreeExtentTally, added, cap_error, empty, add, add_at, add_all, uint64_max,
}
use lsdsk.FreeSpace.Tally.Sums.{IsSound, empty-IsSound}
use lsdsk.FreeSpace.Tally.Totals.{
  extents, bytes, longest_of, add_all_totals, add_all-IsSound, add_all_accepts,
}
use lsdsk.FreeSpace.Score.{tally_score}

buckets_of_sizes : (bucket_of 4096 ≡ 3) × (bucket_of 1 ≡ 0) × (bucket_of (2 ^ 40) ≡ 20)
unfolding bucket_of halvings
buckets_of_sizes = (refl, refl, refl)

bucket_of_bounds_example :
    (bucket_of 4096 ≤ 20)
    × (4096 < 2 ^ (bucket_of 4096 + 10) ⊎ (bucket_of 4096 ≡ 20))
    × (2 ^ (bucket_of 4096 + 9) ≤ 4096 ⊎ (bucket_of 4096 ≡ 0))
bucket_of_bounds_example = bucket_of_bounds 4096 (omega arith)

abbrev walk : List ℤ
walk = pos 4096 ∷ negsuc 4 ∷ pos 0 ∷ pos 512 ∷ []

-- Two extents of four count.
abbrev walked : FreeExtentTally
walked = record {
  cap = 2;
  count = 2;
  total = 4608;
  largest = 4096;
  histogram =
      512 ∷ 0 ∷ 0 ∷ 4096 ∷ 0 ∷ 0 ∷ 0 ∷ 0 ∷ 0 ∷ 0 ∷ 0 ∷ 0 ∷ 0 ∷ 0 ∷ 0 ∷ 0 ∷ 0 ∷ 0 ∷ 0 ∷ 0 ∷ 0 ∷ [];
}

walk_added : add_all (empty 2) walk ≡ added walked
unfolding add_all add add_at bucket_of halvings
walk_added = refl

walk_refused : add_all (empty 1) walk ≡ cap_error
unfolding add_all add add_at bucket_of halvings
walk_refused = refl

add_all_totals_example :
    (walked.cap ≡ 2)
    × (walked.count ≡ 0 + extents walk)
    × (walked.total ≡ 0 + bytes walk)
    × (walked.largest ≡ max 0 (longest_of walk))
add_all_totals_example = add_all_totals (empty 2) walked walk walk_added

add_all-IsSound_example : IsSound walked
add_all-IsSound_example = add_all-IsSound (empty 2) walked walk (empty-IsSound 2) walk_added

add_all_accepts_example :
    ((out : FreeExtentTally) × (add_all (empty 2) walk ≡ added out))
    ↔ ((0 + extents walk ≤ 2) × (0 + bytes walk ≤ uint64_max))
add_all_accepts_example = add_all_accepts (empty 2) walk (empty-IsSound 2)

tally_score_example :
    ((walked.total ≡ 0) × (fragmentation_from_histogram walked.histogram ≡ score none))
    ⊎ ((p : ℕ) × (fragmentation_from_histogram walked.histogram ≡ score (some p))
        × (p ≤ 100)
        × (p * walked.total ≤ weighted walked.histogram zfs_frag_table)
        × (weighted walked.histogram zfs_frag_table < p * walked.total + walked.total))
tally_score_example =
    tally_score walked (add_all-IsSound (empty 2) walked walk (empty-IsSound 2) walk_added)
