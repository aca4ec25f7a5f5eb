-- ===== src/History/Thin.antt =====
-- src/lsdsk/domain/history.py: `thin`, which reduces a series to a cap.
pub mod Bounds
pub mod Keeps
pub mod Coverage
use lsdsk.Prelude.{
  ℕ, zero, suc, ◌+◌, ◌-◌, ◌*◌, ◌/◌, min, max, List, [], ◌∷◌, ◌++◌, length, take, drop, last_from,
  ltb, leb, ◌==◌, if◌then◌else◌,
}
use lsdsk.Prelude.Int.{ℤ, leb_ℤ, monus_ℤ}
use lsdsk.History.Types.{Sample}

-- `middle[::step]`; the second number counts the items still to step over.
unfoldable pub every : ℕ → ℕ → List Sample → List Sample
every step left [] = []
every step zero (x ∷ xs) = x ∷ every step (step - 1) xs
every step (suc left) (x ∷ xs) = every step left xs

-- `max(0, min(room - 1, (hours - start) * room // span))`. An hour before the start gives a negative
-- quotient in the source, which the clamp takes to 0, as the difference that stops at 0 does here.
unfoldable pub bucket : ℕ → ℤ → ℕ → ℤ → ℕ
bucket room start span hours = min (room - 1) (monus_ℤ hours start * room / span)

-- The loop over the middle. `next` is `last_bucket + 1`: the smallest bucket that is kept.
unfoldable pub spread : ℕ → ℤ → ℕ → ℕ → List Sample → List Sample
spread room start span next [] = []
spread room start span next (sample ∷ rest) =
    let b = bucket room start span sample.power_on_hours in
    let kept = spread room start span (if leb next b then b + 1 else next) rest in
    if leb next b then sample ∷ kept else kept

-- `_spread_over_hours`; `-(-n // room)` is the quotient rounded up. An empty middle is returned by
-- the first test, for `0 <= room`.
unfoldable pub spread_over_hours : List Sample → ℕ → Sample → List Sample
unfolding every spread bucket
spread_over_hours middle room after =
    let start = after.power_on_hours in
    let end = (last_from after middle).power_on_hours in
    if leb (length middle) room
    then middle
    else if leb_ℤ end start
    then take room (every (max 1 ((length middle + (room - 1)) / room)) 0 middle)
    else spread room start (monus_ℤ end start) 0 middle

-- A series longer than a cap of three or more: `samples` is `baseline ∷ rest`.
unfoldable pub thin_long : Sample → List Sample → ℕ → List Sample
thin_long baseline rest cap =
    let recent_count = cap / 2 in
    let recent = drop (length rest + 1 - recent_count) (baseline ∷ rest) in
    let middle = take (length rest - recent_count) rest in
    let room = cap - 1 - recent_count in
    if room == 0
    then baseline ∷ recent
    else baseline ∷ (spread_over_hours middle room baseline ++ recent)

unfoldable pub thin : List Sample → ℕ → List Sample
unfolding thin_long
thin [] cap = []
thin (baseline ∷ rest) cap =
    if leb (length rest + 1) cap
    then baseline ∷ rest
    else if ltb cap 3
    then (if ltb 0 cap then drop (length rest + 1 - cap) (baseline ∷ rest) else [])
    else thin_long baseline rest cap
