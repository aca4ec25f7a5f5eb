-- ===== src/History/Types.antt =====
-- src/lsdsk/domain/history.py: the samples, series and histories, and how a drive is sampled.
use lsdsk.Prelude.{◌≡◌, refl, arith, String, Option, none, some, List, find, if◌then◌else◌}
use lsdsk.Prelude.Int.{ℤ}
use lsdsk.Models.{Health}
use text.Mathlib.Text.{◌==◌}

pub data CounterKind : Type 0 where
  crc_errors reallocated_sectors pending_sectors uncorrectable_sectors media_errors : CounterKind
  percent_used bytes_written unsafe_shutdowns error_log_entries power_cycles : CounterKind

pub record Sample : Type 0 where
  pub power_on_hours : ℤ
  pub captured_at : String
  pub crc_errors : Option ℤ
  pub reallocated_sectors : Option ℤ
  pub pending_sectors : Option ℤ
  pub uncorrectable_sectors : Option ℤ
  pub media_errors : Option ℤ
  pub percent_used : Option ℤ
  pub bytes_written : Option ℤ
  pub unsafe_shutdowns : Option ℤ
  pub error_log_entries : Option ℤ
  pub power_cycles : Option ℤ

-- `Sample.counter`: the value of the enumeration is the name of the field.
unfoldable pub counter : Sample → CounterKind → Option ℤ
counter s CounterKind.crc_errors = s.crc_errors
counter s CounterKind.reallocated_sectors = s.reallocated_sectors
counter s CounterKind.pending_sectors = s.pending_sectors
counter s CounterKind.uncorrectable_sectors = s.uncorrectable_sectors
counter s CounterKind.media_errors = s.media_errors
counter s CounterKind.percent_used = s.percent_used
counter s CounterKind.bytes_written = s.bytes_written
counter s CounterKind.unsafe_shutdowns = s.unsafe_shutdowns
counter s CounterKind.error_log_entries = s.error_log_entries
counter s CounterKind.power_cycles = s.power_cycles

pub record DiskSeries : Type 0 where
  pub identity : String
  pub model : String
  pub samples : List Sample

pub record History : Type 0 where
  pub hostname : String
  pub series : List DiskSeries

-- `_series_by_identity` keeps the first series under each identity.
unfoldable pub for_identity : List DiskSeries → String → Option DiskSeries
for_identity series identity = find (λ s. s.identity == identity) series

-- The fields of `Disk` that the history reads.
pub record Disk : Type 0 where
  pub path : String
  pub model : String
  pub wwn : Option String
  pub serial : Option String
  pub health : Option Health

-- `text or other`: an absent or empty text gives way.
abbrev pub or_else : Option String → Option String → Option String
or_else none other = other
or_else (some t) other = if t == "" then other else some t

unfoldable pub identity_of : Disk → Option String
identity_of disk = or_else disk.wwn (or_else disk.serial none)

sample_at : Health → String → Option ℤ → Option Sample
sample_at health captured_at none = none
sample_at health captured_at (some hours) = some (record {
  power_on_hours = hours;
  captured_at = captured_at;
  crc_errors = health.crc_errors;
  reallocated_sectors = health.reallocated_sectors;
  pending_sectors = health.pending_sectors;
  uncorrectable_sectors = health.uncorrectable_sectors;
  media_errors = health.media_errors;
  percent_used = health.percent_used;
  bytes_written = health.bytes_written;
  unsafe_shutdowns = health.unsafe_shutdowns;
  error_log_entries = health.error_log_entries;
  power_cycles = health.power_cycles;
})

unfoldable pub sample_of : Option Health → String → Option Sample
unfolding sample_at
sample_of none captured_at = none
sample_of (some health) captured_at = sample_at health captured_at health.power_on_hours

unfoldable pub sample_from : Disk → String → Option Sample
unfolding sample_of
sample_from disk captured_at = sample_of disk.health captured_at

-- The time of capture does not bear on whether, or at what hour, a drive is sampled.
sample_at_hours :
    (health : Health) (t u : String) (hours : Option ℤ) (s : Sample)
    → sample_at health t hours ≡ some s
    → (r : Sample) × (sample_at health u hours ≡ some r) × (r.power_on_hours ≡ s.power_on_hours)
unfolding sample_at
sample_at_hours health t u none s h = cc
sample_at_hours health t u (some hours) s h = (_, refl, ground arith)

sample_of_hours :
    (health : Option Health) (t u : String) (s : Sample)
    → sample_of health t ≡ some s
    → (r : Sample) × (sample_of health u ≡ some r) × (r.power_on_hours ≡ s.power_on_hours)
unfolding sample_of
sample_of_hours none t u s h = cc
sample_of_hours (some health) t u s h = sample_at_hours health t u health.power_on_hours s h

pub sample_from_hours :
    (disk : Disk) (t u : String) (s : Sample)
    → sample_from disk t ≡ some s
    → (r : Sample) × (sample_from disk u ≡ some r) × (r.power_on_hours ≡ s.power_on_hours)
unfolding sample_from
sample_from_hours disk t u s h = sample_of_hours disk.health t u s h
