-- ===== src/VolumeBitmap/Tests.antt =====
-- Runs of the bitmap's folding, and each theorem at one where its hypotheses hold.
use mathlib.Core.List.{Permᴰ}
use lsdsk.Prelude.{
  ◌^◌, ◌≤◌, ◌<◌, ◌⊎◌, ◌↔◌, none, ℕ, ◌*◌, ◌≡◌, refl, some, List, [], ◌∷◌, ◌++◌, map, arith,
}
use lsdsk.Prelude.Int.{pos}
use lsdsk.FreeSpace.Tally.{empty, add_all}
use lsdsk.VolumeBitmap.{parse_bitmap_header}
use lsdsk.VolumeBitmap.Runs.{run_lengths}
use lsdsk.VolumeBitmap.Feed.{Chunk, all_clusters, fold_volume, to_fed, fold_volume_lem}
use lsdsk.VolumeBitmap.Header.{parse_bitmap_header-none_iff, to_little, parse_bitmap_header_written}

-- The second chunk begins two clusters early, and the free run at the end of the first goes on in it.
abbrev two_chunks : List Chunk
two_chunks =
    record { bytes = 0x0f ∷ 0x00 ∷ []; nbits = 16; skip = 0 }
    ∷ record { bytes = 0xf0 ∷ []; nbits = 6; skip = 2 }
    ∷ []

lengths : run_lengths (all_clusters two_chunks) ≡ 14 ∷ []
lengths = refl

fold_volume_lem_example :
    (order : List ℕ) × Permᴰ order (14 ∷ [])
    × (fold_volume (record { cluster = 4096; tally = empty 10; open_run = 0 }) two_chunks
        ≡ to_fed 4096 (add_all (empty 10) (map (λ n. pos (n * 4096)) order)))
fold_volume_lem_example =
    fold_volume_lem 4096 (empty 10) two_chunks
      ((omega arith, (omega arith, tt)), ((omega arith, tt), tt))

parse_bitmap_header_written_example :
    parse_bitmap_header (to_little 8 8 ++ (to_little 8 100 ++ (0xf0 ∷ [])))
    ≡ some (record { starting_lcn = pos 8; bitmap_size = pos 100 })
parse_bitmap_header_written_example =
    parse_bitmap_header_written 8 100 (0xf0 ∷ []) (omega arith) (omega arith)

parse_bitmap_header-none_iff_example :
    (parse_bitmap_header (to_little 8 (2 ^ 63) ++ to_little 8 100) ≡ none)
    ↔ ((16 < 16) ⊎ ((2 ^ 63 ≤ 2 ^ 63) ⊎ (2 ^ 63 ≤ 100)))
parse_bitmap_header-none_iff_example =
    parse_bitmap_header-none_iff (to_little 8 (2 ^ 63) ++ to_little 8 100)
