-- ===== src/Identify.antt =====
-- src/lsdsk/adapters/hw/decode/ata_identify.py: what an ATA device says about itself. A rate is in
-- tenths of a gigabit per second, and a text is the codes of its characters.
pub mod Words
pub mod Fields
pub mod Post
pub mod Tests
use lsdsk.Prelude.{
  ℕ, zero, suc, ◌+◌, ◌*◌, ◌/◌, ◌%◌, ◌^◌, max, Bool, true, false, not, ◌&&◌, ◌||◌, Option, none,
  some, List, [], ◌∷◌, ◌++◌, ltb, leb, ◌==◌, length, take, drop, get_elem?, find, any, filter,
  if◌then◌else◌,
}
use mathlib.Core.List.{reverse}
use lsdsk.Prelude.Dict.{lookup, number_key}

pub data DiskKind : Type 0 where
  ssd hdd optical unknown : DiskKind

pub record AtaIdentity : Type 0 where
  pub model : List ℕ
  pub serial : List ℕ
  pub firmware : List ℕ
  pub sectors : Option ℕ
  pub sector_size : ℕ
  pub kind : DiskKind
  pub rotation_rpm : Option ℕ
  pub negotiated_gbps : Option ℕ
  pub max_gbps : Option ℕ
  pub smart_supported : Bool

pub data IdentifyError : Type 0 where
  short_page unusable_page wide_count no_identity : IdentifyError
  not_ascii : ℕ → IdentifyError

pub data Identified : Type 0 where
  identified : AtaIdentity → Identified
  refused : IdentifyError → Identified

abbrev pub identify_length : ℕ
identify_length = 512

abbrev pub vpd_offset : ℕ
vpd_offset = 60

abbrev pub sata_gen_gbps : List (ℕ × ℕ)
sata_gen_gbps = (1, 15) ∷ (2, 30) ∷ (3, 60) ∷ []

abbrev scaled : ℕ → Option ℕ → Option ℕ
scaled size none = none
scaled size (some sectors) = some (sectors * size)

-- `AtaIdentity.size_bytes`
unfoldable pub size_bytes : AtaIdentity → Option ℕ
size_bytes i = scaled i.sector_size i.sectors

-- `struct.unpack("<256H", page)`
unfoldable pub words_of : List ℕ → List ℕ
words_of [] = []
words_of (low ∷ []) = []
words_of (low ∷ high ∷ bytes) = (low + 256 * high) ∷ words_of bytes

-- `words[index]`: there are 256 words, and every index of the code is below that.
abbrev pub word_or : Option ℕ → ℕ
word_or none = 0
word_or (some w) = w

abbrev pub word : List ℕ → ℕ → ℕ
word words index = word_or (get_elem? words index)

abbrev pub has_bit : ℕ → ℕ → Bool
has_bit w bit = w / 2 ^ bit % 2 == 1

abbrev pub is_printable : ℕ → Bool
is_printable code = leb 0x20 code && ltb code 0x7f

abbrev pub drop_spaces : List ℕ → List ℕ
drop_spaces [] = []
drop_spaces (code ∷ codes) = if code == 0x20 then drop_spaces codes else code ∷ codes

-- `device_text` of text.py, on ASCII: what cannot be printed is left out, and the edges are trimmed.
unfoldable pub device_text : List ℕ → List ℕ
device_text codes = reverse (drop_spaces (reverse (drop_spaces (filter is_printable codes))))

abbrev pub swapped : List ℕ → List ℕ
swapped [] = []
swapped (w ∷ words) = w / 256 ∷ w % 256 ∷ swapped words

-- `_ata_string`
unfoldable pub ata_string : List ℕ → ℕ → ℕ → List ℕ
ata_string words start long = device_text (swapped (take long (drop start words)))

-- The rates that a capability word supports.
abbrev pub supported : ℕ → List (ℕ × ℕ) → List ℕ
supported capability [] = []
supported capability ((generation, gbps) ∷ rates) =
    let rest = supported capability rates in
    if has_bit capability generation then gbps ∷ rest else rest

abbrev pub largest_of : List ℕ → Option ℕ
largest_of [] = none
largest_of (x ∷ []) = some x
largest_of (x ∷ y ∷ xs) = largest_of (max x y ∷ xs)

-- `_sata_rates`: the highest rate, and the negotiated one.
unfoldable pub maximum_rate : List ℕ → Option ℕ
maximum_rate words =
    let capability = word words 76 in
    if capability == 0 || capability == 0xffff
    then none
    else largest_of (supported capability sata_gen_gbps)

unfoldable pub negotiated_rate : List ℕ → Option ℕ
negotiated_rate words = lookup number_key (word words 77 / 2 % 8) sata_gen_gbps

-- The counts of 48 and of 28 bits, whose words do not overlap.
unfoldable pub lba48 : List ℕ → ℕ
lba48 words =
    word words 100 + 2 ^ 16 * word words 101 + 2 ^ 32 * word words 102 + 2 ^ 48 * word words 103

unfoldable pub lba28 : List ℕ → ℕ
lba28 words = word words 60 + 2 ^ 16 * word words 61

-- `a or b or None`
abbrev pub count_or : ℕ → ℕ → Option ℕ
count_or a b = if a == 0 then (if b == 0 then none else some b) else some a

pub record SectorGeometry : Type 0 where
  pub count : Option ℕ
  pub size : ℕ

-- `_sector_geometry`
unfoldable pub sector_geometry : List ℕ → SectorGeometry
sector_geometry words =
    let geometry = word words 106 in
    let logical = word words 117 + 2 ^ 16 * word words 118 in
    let sectors = count_or (lba48 words) (lba28 words) in
    if has_bit geometry 14 && not (has_bit geometry 15) && has_bit geometry 12
    then (if leb 257 logical && leb logical 2048
        then record { count = sectors; size = logical * 2 }
        else record { count = none; size = 512 })
    else record { count = sectors; size = 512 }

-- `_media_kind`
unfoldable pub media_kind : List ℕ → DiskKind × Option ℕ
media_kind words =
    let rate = word words 217 in
    if rate == 1
    then (ssd, none)
    else if leb 0x0401 rate && leb rate 20000
    then (hdd, some rate)
    else (unknown, none)

abbrev pub all_bytes : ℕ → List ℕ → Bool
all_bytes byte [] = true
all_bytes byte (b ∷ bytes) = b == byte && all_bytes byte bytes

-- `_is_ascii_word`
abbrev pub is_ascii_byte : ℕ → Bool
is_ascii_byte b = b == 0 || is_printable b

abbrev pub is_ascii_word : ℕ → Bool
is_ascii_word w = is_ascii_byte (w / 256) && is_ascii_byte (w % 256)

abbrev pub indexes : ℕ → ℕ → List ℕ
indexes start zero = []
indexes start (suc n) = start ∷ indexes (start + 1) n

-- `_text_word_indexes`
abbrev pub text_word_indexes : List ℕ
text_word_indexes = indexes 10 10 ++ indexes 23 4 ++ indexes 27 20

-- `next(... if not _is_ascii_word(words[index]))`
unfoldable pub bad_word : List ℕ → Option ℕ
bad_word words = find (λ index. not (is_ascii_word (word words index))) text_word_indexes

abbrev pub first_refusal : Option ℕ → Bool → Option IdentifyError
first_refusal (some index) wide = some (not_ascii index)
first_refusal none wide = if wide then some wide_count else none

-- `_refuse_implausible_fields`
unfoldable pub implausible : List ℕ → Option IdentifyError
implausible words =
    first_refusal (bad_word words) (not (word words 103 == 0) || ltb 0x0fff (word words 61))

abbrev pub is_empty : List ℕ → Bool
is_empty [] = true
is_empty (x ∷ xs) = false

abbrev pub any_set : List ℕ → Bool
any_set words = any (λ w. not (w == 0)) words

unfoldable pub identity_of_words : List ℕ → AtaIdentity
identity_of_words words = record {
  model = ata_string words 27 20;
  serial = ata_string words 10 10;
  firmware = ata_string words 23 4;
  sectors = (sector_geometry words).count;
  sector_size = (sector_geometry words).size;
  kind = (media_kind words).0;
  rotation_rpm = (media_kind words).1;
  negotiated_gbps = negotiated_rate words;
  max_gbps = maximum_rate words;
  smart_supported =
      has_bit (word words 82) 0 && not (word words 82 == 0) && not (word words 82 == 0xffff);
}

-- Whether the page names a model, a serial or a firmware, or gives a count.
unfoldable pub names_something : List ℕ → Bool
names_something words =
    not (is_empty (ata_string words 27 20))
    || not (is_empty (ata_string words 10 10))
    || not (is_empty (ata_string words 23 4))
    || any_set (take 2 (drop 60 words))
    || any_set (take 4 (drop 100 words))

abbrev pub unless : Option IdentifyError → Identified → Identified
unless (some e) answer = refused e
unless none answer = answer

unfoldable pub identify_words : List ℕ → Identified
identify_words words =
    unless (implausible words)
      (if names_something words then identified (identity_of_words words) else refused no_identity)

unfoldable pub decode_identify : List ℕ → Identified
decode_identify blob =
    let page = take identify_length blob in
    if ltb (length blob) identify_length
    then refused short_page
    else if all_bytes 0 page || all_bytes 0xff page
    then refused unusable_page
    else identify_words (words_of page)

unfoldable pub decode_vpd_ata_information : List ℕ → Identified
decode_vpd_ata_information blob =
    if ltb (length blob) (vpd_offset + identify_length)
    then refused short_page
    else decode_identify (drop vpd_offset blob)
