-- ===== src/FreeSpace/Score.antt =====
-- `fragmentation_from_histogram` of src/lsdsk/domain/fragmentation.py on the histogram of a tally.
use native.Mathlib.Nat.{
  mul-le-mul_left, div-le_of_le-mul, div-mul-le_self, lt-div-mul-add, mul_comm,
}
use lsdsk.Prelude.{
  ℕ, ◌+◌, ◌*◌, ◌/◌, ◌≤◌, ◌<◌, ◌≡◌, none, some, List, [], ◌∷◌, arith, length, All, refl, Bool-cases,
  inl, inr, ◌==◌, true, ==_iff, ◌⊎◌,
}
use lsdsk.FreeSpace.Fragmentation.{
  score, zfs_frag_table, free_space_buckets, sum, weighted, fragmentation_from_histogram,
}
use lsdsk.FreeSpace.Tally.{FreeExtentTally}
use lsdsk.FreeSpace.Tally.Sums.{IsSound}

weighted-le :
    (histogram scores : List ℕ) (most : ℕ)
    → All (λ s. s ≤ most) scores
    → weighted histogram scores ≤ most * sum histogram
unfolding weighted
weighted-le [] scores most h = omega arith
weighted-le (x ∷ xs) [] most h = omega arith
weighted-le (x ∷ xs) (s ∷ scores) most h =
    omega (arith, weighted-le xs scores most h.1, mul-le-mul_left x h.0)

-- Of a sound tally's histogram the score is none where nothing is free, and else the weighted mean
-- of the table over the free bytes, rounded down, which is at most 100. It is never refused.
pub tally_score :
    (t : FreeExtentTally)
    → IsSound t
    → ((t.total ≡ 0) × (fragmentation_from_histogram t.histogram ≡ score none))
      ⊎ ((p : ℕ) × (fragmentation_from_histogram t.histogram ≡ score (some p))
          × (p ≤ 100)
          × (p * t.total ≤ weighted t.histogram zfs_frag_table)
          × (weighted t.histogram zfs_frag_table < p * t.total + t.total))
unfolding fragmentation_from_histogram
tally_score t h =
    let long : (length t.histogram == free_space_buckets) ≡ true =
      (==_iff (length t.histogram) free_space_buckets).1 h.buckets in
    let w = weighted t.histogram zfs_frag_table in
    elim (Bool-cases (sum t.histogram == 0)) [
      | inl z ↦ inl (ground (arith, h.spread), rw (long, z) refl)
      | inr f ↦
          let pos : 0 < t.total = ground (arith, h.spread) in
          let most : w ≤ 100 * t.total =
            omega (arith, weighted-le t.histogram zfs_frag_table 100 (omega arith), h.spread) in
          inr (
            w / t.total,
            rw (long, f, h.spread) refl,
            div-le_of_le-mul t.total (omega (arith, mul_comm 100 t.total, most)),
            div-mul-le_self w t.total,
            lt-div-mul-add pos,
          )
    ]
