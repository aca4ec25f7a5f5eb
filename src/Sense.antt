-- ===== src/Sense.antt =====
-- src/lsdsk/adapters/hw/decode/scsi_sense.py: why a SCSI device refused a command. The sentence is its
-- figures: the sense key with its name, the ASC and the ASCQ.
pub mod Fields
pub mod Tests
use lsdsk.Prelude.{
  ℕ, ◌+◌, ◌%◌, String, Bool, true, false, Option, none, some, List, [], ◌∷◌, length, get_elem?, leb,
  any, ◌==◌, if◌then◌else◌,
}
use lsdsk.Prelude.Dict.{lookup, number_key}

-- Where the sense key and the ASC are: the two layouts.
pub data Layout : Type 0 where
  fixed_format descriptor_format : Layout

abbrev pub key_at : Layout → ℕ
key_at fixed_format = 2
key_at descriptor_format = 1

abbrev pub asc_at : Layout → ℕ
asc_at fixed_format = 12
asc_at descriptor_format = 2

abbrev pub fixed_formats : List ℕ
fixed_formats = 0x70 ∷ 0x71 ∷ []

abbrev pub descriptor_formats : List ℕ
descriptor_formats = 0x72 ∷ 0x73 ∷ []

abbrev pub sense_keys : List (ℕ × String)
sense_keys =
    (0x0, "NO SENSE")
    ∷ (0x1, "RECOVERED ERROR")
    ∷ (0x2, "NOT READY")
    ∷ (0x3, "MEDIUM ERROR")
    ∷ (0x4, "HARDWARE ERROR")
    ∷ (0x5, "ILLEGAL REQUEST")
    ∷ (0x6, "UNIT ATTENTION")
    ∷ (0x7, "DATA PROTECT")
    ∷ (0x8, "BLANK CHECK")
    ∷ (0x9, "VENDOR SPECIFIC")
    ∷ (0xA, "COPY ABORTED")
    ∷ (0xB, "ABORTED COMMAND")
    ∷ (0xD, "VOLUME OVERFLOW")
    ∷ (0xE, "MISCOMPARE")
    ∷ (0xF, "COMPLETED")
    ∷ []

unfoldable pub layout_of : ℕ → Option Layout
layout_of code =
    if any (λ f. f == code) fixed_formats
    then some fixed_format
    else if any (λ f. f == code) descriptor_formats
    then some descriptor_format
    else none

pub record Sense : Type 0 where
  pub key : ℕ
  pub name : String
  pub asc : ℕ
  pub ascq : ℕ

-- `index_error` for a byte past the end of the buffer.
pub data Described : Type 0 where
  described : Sense → Described
  nothing index_error : Described

abbrev pub or_reserved : Option String → String
or_reserved none = "RESERVED"
or_reserved (some name) = name

abbrev pub sense_of : ℕ → ℕ → ℕ → Sense
sense_of key asc ascq = record {
  key = key % 16;
  name = or_reserved (lookup number_key (key % 16) sense_keys);
  asc = asc;
  ascq = ascq;
}

unfoldable pub described_from : Option ℕ → Option ℕ → Option ℕ → Described
described_from (some key) (some asc) (some ascq) = described (sense_of key asc ascq)
described_from _ _ _ = index_error

unfoldable pub describe_at : Option Layout → List ℕ → Described
describe_at none sense = nothing
describe_at (some layout) sense =
    if leb (length sense) (asc_at layout + 1)
    then nothing
    else described_from (get_elem? sense (key_at layout)) (get_elem? sense (asc_at layout))
        (get_elem? sense (asc_at layout + 1))

unfoldable pub describe_sense : List ℕ → Described
describe_sense [] = nothing
describe_sense (first ∷ rest) = describe_at (layout_of (first % 128)) (first ∷ rest)
