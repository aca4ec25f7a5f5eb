-- ===== src/VolumeBitmap.antt =====
-- src/lsdsk/adapters/hw/windows/volume_layout.py: the free runs of a volume's cluster bitmap, folded
-- chunk by chunk into the tally of free extents.
pub mod Runs
pub mod Bytes
pub mod Masks
pub mod Window
pub mod Stretches
pub mod Fold
pub mod Feed
pub mod Header
pub mod Tests
use Prim.Native.Nat.{bit_or, bit_and}
use lsdsk.Prelude.{
  ℕ, zero, suc, ◌+◌, ◌-◌, ◌*◌, ◌/◌, ◌%◌, ◌^◌, Bool, true, false, not, Option, none, some, List, [],
  ◌∷◌, ◌++◌, map, ltb, leb, ◌==◌, length, take, drop, replicate, filter, if◌then◌else◌,
}
use lsdsk.Prelude.Int.{ℤ, pos, negsuc, ltb_ℤ}
use lsdsk.FreeSpace.Tally.{FreeExtentTally, Added, add}

-- One free run: its first cluster, and the first one past it.
pub record ClusterSpan : Type 0 where
  pub start : ℕ
  pub past : ℕ

-- The digits of a number, the lowest first: `format(n, f"0{width}b")[::-1]`, `true` for a 1.
abbrev pub bits : ℕ → ℕ → List Bool
bits zero n = []
bits (suc width) n = (n % 2 == 1) ∷ bits width (n / 2)

-- `int.from_bytes(..., "little")`
abbrev pub from_little : List ℕ → ℕ
from_little [] = 0
from_little (b ∷ bytes) = b + 256 * from_little bytes

-- `re.compile("0+").finditer`: the stretches without a `true`, each as long as it can be. `open_run` is
-- where the stretch began that the walk stands in.
unfoldable pub runs : ℕ → Option ℕ → List Bool → List ClusterSpan
runs at none [] = []
runs at (some open_run) [] = record { start = open_run; past = at } ∷ []
runs at none (true ∷ used) = runs (at + 1) none used
runs at none (false ∷ used) = runs (at + 1) (some at) used
runs at (some open_run) (true ∷ used) =
    record { start = open_run; past = at } ∷ runs (at + 1) none used
runs at (some open_run) (false ∷ used) = runs (at + 1) (some open_run) used

-- `_runs_between`
unfoldable pub runs_between : List ℕ → ℕ → ℕ → List ClusterSpan
runs_between window first last =
    if first == last
    then []
    else runs (first * 8) none
        (bits ((last - first) * 8) (from_little (take (last - first) (drop first window))))

-- `_USED_STRETCH.finditer`: 64 bytes or more of nothing but used clusters.
unfoldable pub used_stretches : List ℕ → List ClusterSpan
used_stretches window =
    filter (λ (s : ClusterSpan). leb 64 (s.past - s.start))
      (runs 0 none (map (λ b. not (b == 255)) window))

-- The loop of `_free_runs` over the stretches in use.
unfoldable pub runs_after : List ℕ → ℕ → List ClusterSpan → List ClusterSpan
runs_after window position [] = runs_between window position (length window)
runs_after window position (stretch ∷ stretches) =
    runs_between window position stretch.start ++ runs_after window stretch.past stretches

unfoldable pub free_runs : List ℕ → List ClusterSpan
free_runs window = runs_after window 0 (used_stretches window)

-- `window[at] |= mask`
unfoldable pub or_at : List ℕ → ℕ → ℕ → List ℕ
or_at [] at mask = []
or_at (b ∷ bytes) zero mask = bit_or b mask ∷ bytes
or_at (b ∷ bytes) (suc at) mask = b ∷ or_at bytes at mask

-- `data[:size].ljust(size, b"\x00")`
abbrev pub padded : List ℕ → ℕ → List ℕ
padded chunk size = take size chunk ++ replicate (size - length chunk) 0

abbrev pub size_of : ℕ → ℕ
size_of nbits = (nbits + 7) / 8

-- The window with the first `skip` clusters in use.
unfoldable pub skipped : List ℕ → ℕ → List ℕ
skipped bytes skip =
    let filled = replicate (skip / 8) 255 ++ drop (skip / 8) bytes in
    if skip % 8 == 0 then filled else or_at filled (skip / 8) (2 ^ (skip % 8) - 1)

-- The window with the clusters from `nbits` on in use.
unfoldable pub bounded : List ℕ → ℕ → List ℕ
bounded bytes nbits =
    if nbits % 8 == 0
    then bytes
    else or_at bytes (length bytes - 1) (bit_and (255 * 2 ^ (nbits % 8)) 255)

-- `_window`
unfoldable pub window_of : List ℕ → ℕ → ℕ → List ℕ
window_of chunk nbits skip = bounded (skipped (padded chunk (size_of nbits)) skip) nbits

pub record FreeRunFolder : Type 0 where
  pub cluster : ℕ
  pub tally : FreeExtentTally
  pub open_run : ℕ

-- What folding ends with: the folder, or the error of the tally.
pub data Fed : Type 0 where
  fed : FreeRunFolder → Fed
  cap_refused total_refused : Fed

abbrev pub fed_after : Added → (FreeExtentTally → Fed) → Fed
fed_after (Added.added t) next = next t
fed_after Added.cap_error next = cap_refused
fed_after Added.total_error next = total_refused

-- A run that is closed outside of the chunk's own: the carried one, and the last one of all.
unfoldable pub settle : ℕ → FreeExtentTally → ℕ → ℕ → Fed
settle cluster tally open_run carried =
    if carried == 0
    then fed (record { cluster = cluster; tally = tally; open_run = open_run })
    else fed_after (add tally (pos (carried * cluster)))
        (λ t. fed (record { cluster = cluster; tally = t; open_run = open_run }))

-- The loop of `feed`, with the open_run and the carried run as its state.
unfoldable pub fold_spans : ℕ → ℕ → ℕ → List ClusterSpan → FreeExtentTally → ℕ → ℕ → Fed
fold_spans cluster nbits skip [] tally open_run carried = settle cluster tally open_run carried
fold_spans cluster nbits skip (span ∷ spans) tally open_run carried =
    let joins = span.start == skip in
    let long = (span.past - span.start) + (if joins then carried else 0) in
    let left = if joins then 0 else carried in
    let stays_open = fold_spans cluster nbits skip spans tally long left in
    let closed =
      fed_after (add tally (pos (long * cluster)))
        (λ t. fold_spans cluster nbits skip spans t open_run left) in
    if span.past == nbits then stays_open else closed

-- `FreeRunFolder.feed`
unfoldable pub feed : FreeRunFolder → List ℕ → ℕ → ℕ → Fed
feed folder chunk nbits skip =
    if leb nbits skip
    then fed folder
    else fold_spans folder.cluster nbits skip (free_runs (window_of chunk nbits skip)) folder.tally
        0 folder.open_run

-- `FreeRunFolder.finish`
unfoldable pub finish : FreeRunFolder → Fed
finish folder = settle folder.cluster folder.tally 0 folder.open_run

pub record BitmapHeader : Type 0 where
  pub starting_lcn : ℤ
  pub bitmap_size : ℤ

-- A `LARGE_INTEGER`: 64 bits in two's complement.
abbrev pub signed : ℕ → ℤ
signed n = if ltb n (2 ^ 63) then pos n else negsuc (2 ^ 64 - 1 - n)

-- `parse_bitmap_header`; `none` is its `ValueError`.
unfoldable pub parse_bitmap_header : List ℕ → Option BitmapHeader
parse_bitmap_header raw =
    let lcn = signed (from_little (take 8 raw)) in
    let clusters = signed (from_little (take 8 (drop 8 raw))) in
    if ltb (length raw) 16
    then none
    else if ltb_ℤ lcn (pos 0)
    then none
    else if ltb_ℤ clusters (pos 0)
    then none
    else some (record { starting_lcn = lcn; bitmap_size = clusters })
