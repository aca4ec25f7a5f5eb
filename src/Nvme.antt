-- ===== src/Nvme.antt =====
-- src/lsdsk/adapters/hw/decode/nvme.py: an NVMe controller's identity and its SMART log.
pub mod Log
pub mod Tests
use Prim.Native.Nat.{bit_and}
use lsdsk.Prelude.{
  ℕ, zero, suc, ◌+◌, ◌*◌, String, Bool, true, false, not, ◌&&◌, ◌||◌, Option, none, some, List, [],
  ◌∷◌, ltb, ◌==◌, length, take, drop, get_elem?, any, if◌then◌else◌,
}
use lsdsk.Prelude.Int.{ℤ, pos, ◌-ℤ◌}
use lsdsk.Models.{Health, unread}
use lsdsk.AtaSmart.Table.{is_floating}
use lsdsk.Prelude.Optional.{◌>>=◌}
use lsdsk.AtaSmart.Health.{plausible_celsius}
use lsdsk.VolumeBitmap.{from_little}
use lsdsk.Identify.{device_text, is_printable}

abbrev pub identify_controller_length : ℕ
identify_controller_length = 4096

abbrev pub smart_log_length : ℕ
smart_log_length = 512

abbrev pub kelvin_offset : ℕ
kelvin_offset = 273

abbrev pub text_fields : List (ℕ × ℕ)
text_fields = (4, 20) ∷ (24, 40) ∷ (64, 8) ∷ []

abbrev pub data_unit_bytes : ℕ
data_unit_bytes = 512 * 1000

pub record NvmeIdentity : Type 0 where
  pub model : List ℕ
  pub serial : List ℕ
  pub firmware : List ℕ
  pub warning_temperature_c : Option ℤ
  pub critical_temperature_c : Option ℤ

-- The refusals, and the error of a read past the end.
pub data NvmeError : Type 0 where
  short_page floating_page implausible_field past_end : NvmeError
  not_ascii_field : ℕ → NvmeError

pub data Answer (A : Type 0) : Type 0 where
  answered : A → Answer A
  failed : NvmeError → Answer A

abbrev pub slice : List ℕ → ℕ → ℕ → List ℕ
slice blob start long = take long (drop start blob)

-- `_ascii_field`
unfoldable pub ascii_field : List ℕ → ℕ → ℕ → List ℕ
ascii_field blob start long = device_text (slice blob start long)

-- `_kelvin_to_celsius`
unfoldable pub kelvin_to_celsius : ℕ → Option ℤ
kelvin_to_celsius kelvin =
    if kelvin == 0 then none else plausible_celsius (pos kelvin -ℤ pos kelvin_offset)

abbrev pub holds_other : List ℕ → Bool
holds_other bytes = any (λ b. not (b == 0) && not (is_printable b)) bytes

-- `_refuse_a_non_ascii_text_field`, from the fields that are left: the start of the first such one.
unfoldable pub bad_field : List ℕ → List (ℕ × ℕ) → Option ℕ
bad_field blob [] = none
bad_field blob ((start, long) ∷ fields) =
    let rest = bad_field blob fields in
    if holds_other (slice blob start long) then some start else rest

-- `struct.unpack_from("<H", ...)`, `none` past the end.
unfoldable pub u16_at : List ℕ → ℕ → Option ℕ
u16_at blob offset =
    if ltb (length blob) (offset + 2) then none else some (from_little (slice blob offset 2))

abbrev pub identity_with : List ℕ → ℕ → ℕ → NvmeIdentity
identity_with blob warning critical = record {
  model = ascii_field blob 24 40;
  serial = ascii_field blob 4 20;
  firmware = ascii_field blob 64 8;
  warning_temperature_c = kelvin_to_celsius warning;
  critical_temperature_c = kelvin_to_celsius critical;
}

abbrev pub answer_of : {A : Type 0} → Option A → Answer A
answer_of none = failed past_end
answer_of (some a) = answered a

abbrev pub unless_bad : {A : Type 0} → Option ℕ → Answer A → Answer A
unless_bad none answer = answer
unless_bad (some start) answer = failed (not_ascii_field start)

unfoldable pub decode_identify_controller : List ℕ → Answer NvmeIdentity
decode_identify_controller blob =
    if ltb (length blob) identify_controller_length
    then failed short_page
    else if is_floating (take identify_controller_length blob)
    then failed floating_page
    else unless_bad (bad_field blob text_fields) (
        answer_of (
          u16_at blob 266 >>= λ warning.
          u16_at blob 268 >>= λ critical. some (identity_with blob warning critical)))

abbrev pub warning_of : Option NvmeIdentity → Option ℤ
warning_of none = none
warning_of (some i) = i.warning_temperature_c

abbrev pub critical_of : Option NvmeIdentity → Option ℤ
critical_of none = none
critical_of (some i) = i.critical_temperature_c

abbrev pub count_at : List ℕ → ℕ → ℤ
count_at blob start = pos (from_little (slice blob start 16))

abbrev pub units_at : List ℕ → ℕ → ℤ
units_at blob start = pos (from_little (slice blob start 16) * data_unit_bytes)

-- The record of a log, from the bytes that are read one by one.
abbrev pub log_with : List ℕ → Option NvmeIdentity → ℕ → ℕ → ℕ → ℕ → ℕ → Health
log_with blob identity warnings kelvin spare spare_limit used = record unread {
  ok = some (warnings == 0);
  temperature_c = kelvin_to_celsius kelvin;
  temperature_warning_c = warning_of identity;
  temperature_critical_c = critical_of identity;
  power_on_hours = some (count_at blob 128);
  percent_used = some (pos used);
  media_errors = some (count_at blob 160);
  bytes_read = some (units_at blob 32);
  bytes_written = some (units_at blob 48);
  power_cycles = some (count_at blob 112);
  unsafe_shutdowns = some (count_at blob 144);
  error_log_entries = some (count_at blob 176);
  available_spare = some (pos spare);
  available_spare_threshold = some (pos spare_limit);
  critical_warning = some (pos warnings);
}

-- `_refuse_an_implausible_health_field`
abbrev pub is_implausible : ℕ → ℕ → Bool
is_implausible spare warnings = ltb 100 spare || not (bit_and warnings 0xc0 == 0)

abbrev pub read_rest : List ℕ → Option NvmeIdentity → ℕ → ℕ → Option (Answer Health)
read_rest blob identity spare warnings = u16_at blob 1 >>= λ kelvin. get_elem? blob 5 >>= λ used.
    get_elem? blob 4 >>= λ spare_limit.
    some (answered (log_with blob identity warnings kelvin spare spare_limit used))

unfoldable pub read_log : List ℕ → Option NvmeIdentity → Option (Answer Health)
read_log blob identity = get_elem? blob 3 >>= λ spare. get_elem? blob 0 >>= λ warnings.
    if is_implausible spare warnings
    then some (failed implausible_field)
    else read_rest blob identity spare warnings

abbrev pub or_past_end : {A : Type 0} → Option (Answer A) → Answer A
or_past_end none = failed past_end
or_past_end (some answer) = answer

unfoldable pub decode_smart_log : List ℕ → Option NvmeIdentity → Answer Health
decode_smart_log blob identity =
    let page = take smart_log_length blob in
    if ltb (length blob) smart_log_length
    then failed short_page
    else if is_floating page
    then failed floating_page
    else if not (any (λ b. not (b == 0)) page)
    then answered unread
    else or_past_end (read_log blob identity)
