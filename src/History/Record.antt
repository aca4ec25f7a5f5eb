-- ===== src/History/Record.antt =====
-- src/lsdsk/domain/history.py: folding one reading of a machine into its history, and the questions
-- that decide whether to.

pub mod Fold
pub mod Tally
pub mod Refines
pub mod Pointwise
pub mod NewReadings
use lsdsk.Prelude.{
  not, ◌&&◌, any, is_some, ℕ, ◌+◌, String, Bool, true, false, not, Option, none, some, List, [],
  ◌∷◌, ◌++◌, map, ltb, last_from, but_last, if◌then◌else◌,
}
use lsdsk.Prelude.Int.{eqb_ℤ}
use lsdsk.Prelude.Dict.{lookup, insert, text_key}
use lsdsk.History.Types.{for_identity, Sample, DiskSeries, History, Disk, identity_of, sample_from}
use lsdsk.History.Thin.{thin}

-- `_fold_in`: a reading of the newest hour replaces the newest row.
unfoldable pub fold_in : List Sample → Sample → List Sample
fold_in [] sample = sample ∷ []
fold_in (first ∷ rest) sample =
    if eqb_ℤ (last_from first rest).power_on_hours sample.power_on_hours
    then but_last first rest ++ (sample ∷ [])
    else first ∷ (rest ++ (sample ∷ []))

unfoldable pub or_zero : Option ℕ → ℕ
or_zero none = 0
or_zero (some n) = n

unfoldable pub count_one : List (String × ℕ) → Option String → List (String × ℕ)
count_one seen none = seen
count_one seen (some identity) =
    insert text_key identity (or_zero (lookup text_key identity seen) + 1) seen

-- `seen`: how many drives of the reading carry each identity.
unfoldable pub tally : List (String × ℕ) → List Disk → List (String × ℕ)
tally seen [] = seen
tally seen (disk ∷ disks) = tally (count_one seen (identity_of disk)) disks

-- `identity in colliding`
unfoldable pub is_colliding : List Disk → String → Bool
is_colliding disks identity = ltb 1 (or_zero (lookup text_key identity (tally [] disks)))

-- `existing`: the last series under each identity.
unfoldable pub by_identity :
    List (String × DiskSeries) → List DiskSeries → List (String × DiskSeries)
by_identity existing [] = existing
by_identity existing (s ∷ series) = by_identity (insert text_key s.identity s existing) series

-- What the loop of `record` changes.
pub record Store : Type 0 where
  pub existing : List (String × DiskSeries)
  pub order : List String

unfoldable pub capped : Option ℕ → List Sample → List Sample
capped none samples = samples
capped (some cap) samples = thin samples cap

unfoldable pub samples_of : Option DiskSeries → List Sample
samples_of none = []
samples_of (some s) = s.samples

-- A drive with an identity and a sample, the identity not shared.
unfoldable pub put_reading : Option ℕ → String → String → Sample → Store → Store
put_reading cap identity model sample st =
    let previous = lookup text_key identity st.existing in
    let samples = capped cap (fold_in (samples_of previous) sample) in
    record {
      existing =
          insert text_key identity
            (record { identity = identity; model = model; samples = samples }) st.existing;
      order = if is_some previous then st.order else st.order ++ (identity ∷ []);
    }

-- One drive of the loop; `colliding` is the test for a shared identity.
unfoldable pub record_one :
    (String → Bool) → Option ℕ → String → Option String → Option Sample → Store → Store
record_one colliding cap model none sample st = st
record_one colliding cap model (some identity) none st = st
record_one colliding cap model (some identity) (some sample) st =
    if colliding identity then st else put_reading cap identity model sample st

unfoldable pub record_all : (String → Bool) → Option ℕ → String → List Disk → Store → Store
record_all colliding cap captured_at [] st = st
record_all colliding cap captured_at (disk ∷ disks) st =
    record_all colliding cap captured_at disks
      (record_one colliding cap disk.model (identity_of disk) (sample_from disk captured_at) st)

unfoldable pub collect_one : Option DiskSeries → Option (List DiskSeries) → Option (List DiskSeries)
collect_one none rest = none
collect_one (some s) none = none
collect_one (some s) (some rest) = some (s ∷ rest)

-- `tuple(existing[identity] for identity in order)`; `none` is a `KeyError`.
unfoldable pub collect : List (String × DiskSeries) → List String → Option (List DiskSeries)
collect existing [] = some []
collect existing (identity ∷ order) =
    collect_one (lookup text_key identity existing) (collect existing order)

unfoldable pub opened : List DiskSeries → Store
opened series = record {
  existing = by_identity [] series;
  order = map (λ (s : DiskSeries). s.identity) series;
}

-- The series that `record` returns; the host name is passed on.
unfoldable pub record_series :
    List DiskSeries → List Disk → String → Option ℕ → Option (List DiskSeries)
record_series series disks captured_at cap =
    let st = record_all (is_colliding disks) cap captured_at disks (opened series) in
    collect st.existing st.order

unfoldable pub with_series : String → Option (List DiskSeries) → Option History
with_series hostname none = none
with_series hostname (some series) = some (record { hostname = hostname; series = series })

-- `record`
unfoldable pub record_history : History → List Disk → String → Option ℕ → Option History
record_history history disks captured_at cap =
    with_series history.hostname (record_series history.series disks captured_at cap)

-- Whether a drive's clock reads another hour than the newest of its stored samples.
unfoldable pub moved : Sample → List Sample → Bool
moved sample [] = true
moved sample (first ∷ rest) =
    not (eqb_ℤ sample.power_on_hours (last_from first rest).power_on_hours)

-- One drive of `has_new_readings`.
unfoldable pub is_new : List DiskSeries → Option String → Option Sample → Bool
is_new series none sample = false
is_new series (some identity) none = false
is_new series (some identity) (some sample) =
    moved sample (samples_of (for_identity series identity))

unfoldable pub has_new_readings : List DiskSeries → List Disk → Bool
has_new_readings series disks =
    any (λ (disk : Disk). is_new series (identity_of disk) (sample_from disk "")) disks

unfoldable pub has_recordable_drive : List Disk → Bool
has_recordable_drive disks =
    any (λ (disk : Disk). is_some (identity_of disk) && is_some (sample_from disk "")) disks

-- Why a drive was not recorded, at its path.
pub data Untracked : Type 0 where
  shares_identity no_identity no_power_on_hours : String → Untracked

unfoldable pub untracked_one : List Disk → String → Option String → Option Sample → List Untracked
untracked_one disks path none sample = no_identity path ∷ []
untracked_one disks path (some identity) sample =
    if is_colliding disks identity
    then shares_identity path ∷ []
    else elim sample [ none ↦ no_power_on_hours path ∷ [] | some s ↦ [] ]

-- The second loop of `untracked_disks`; `all` is the reading that the identities are counted in.
unfoldable pub untracked_from : List Disk → List Disk → List Untracked
untracked_from all [] = []
untracked_from all (disk ∷ disks) =
    untracked_one all disk.path (identity_of disk) (sample_from disk "") ++ untracked_from all disks

unfoldable pub untracked_disks : List Disk → List Untracked
untracked_disks disks = untracked_from disks disks
