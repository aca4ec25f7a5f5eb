-- ===== src/History/Thin/Bounds.antt =====
-- How many samples `thin` of src/lsdsk/domain/history.py keeps.
use lsdsk.Prelude.{
  ℕ, ◌+◌, ◌-◌, ◌≤◌, ◌<◌, List, [], ◌∷◌, arith, length, take, drop, length-append, length-take,
  length-drop, max, last_from, ◌/◌,
}
use lsdsk.Prelude.Int.{ℤ, monus_ℤ}
use lsdsk.History.Types.{Sample}
use lsdsk.History.Thin.{every, bucket, spread, spread_over_hours, thin_long, thin}

bucket-le : (room : ℕ) (start : ℤ) (span : ℕ) (h : ℤ) → bucket room start span h ≤ room - 1
unfolding bucket
bucket-le room start span h = omega arith

-- Buckets strictly climb and stay below `room`, whatever the clock does.
pub length-spread :
    (room : ℕ) (start : ℤ) (span next : ℕ) (samples : List Sample)
    → 0 < room
    → length (spread room start span next samples) ≤ room - next
unfolding spread
length-spread room start span next [] h = omega arith
length-spread room start span next (s ∷ rest) h = ground (
  arith,
  bucket-le room start span s.power_on_hours,
  length-spread room start span next rest h,
  length-spread room start span (bucket room start span s.power_on_hours + 1) rest h,
)

pub length-spread_over_hours :
    (middle : List Sample) (room : ℕ) (after : Sample)
    → 0 < room
    → length (spread_over_hours middle room after) ≤ room
unfolding spread_over_hours
length-spread_over_hours middle room after h = ground (
  arith,
  length-take room (every (max 1 ((length middle + (room - 1)) / room)) 0 middle),
  length-spread room after.power_on_hours
      (monus_ℤ (last_from after middle).power_on_hours after.power_on_hours) 0 middle h,
)

length-thin_long :
    (baseline : Sample) (rest : List Sample) (cap : ℕ)
    → 3 ≤ cap
    → cap < length rest + 1
    → length (thin_long baseline rest cap) ≤ cap
unfolding thin_long
length-thin_long baseline rest cap h long =
    let k = cap / 2 in
    let middle = take (length rest - k) rest in
    let recent = drop (length rest + 1 - k) (baseline ∷ rest) in
    ground (
      arith,
      length-drop (length rest + 1 - k) (baseline ∷ rest),
      length-append (spread_over_hours middle (cap - 1 - k) baseline) recent,
      length-spread_over_hours middle (cap - 1 - k) baseline,
    )

-- A thinned series has at most `cap` samples, whatever its length and its clock.
pub length-thin : (samples : List Sample) (cap : ℕ) → length (thin samples cap) ≤ cap
unfolding thin
length-thin [] cap = omega arith
length-thin (baseline ∷ rest) cap = ground (
  arith,
  length-drop (length rest + 1 - cap) (baseline ∷ rest),
  length-thin_long baseline rest cap,
)
