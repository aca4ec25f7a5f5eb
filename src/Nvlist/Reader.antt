-- ===== src/Nvlist/Reader.antt =====
-- The `_Reader` of src/lsdsk/adapters/hw/decode/nvlist.py below its loop: bounds, integers, the head
-- of a pair and a string. The buffer and the decoding of UTF-8 are parameters.
use lsdsk.Prelude.{
  ℕ, zero, suc, ◌+◌, ◌-◌, ◌*◌, ◌/◌, ◌*◌, ◌^◌, String, ◌||◌, Option, none, some, List, [], ◌∷◌,
  length, take, drop, ltb, leb, ◌==◌, if◌then◌else◌,
}
use lsdsk.Prelude.Int.{ℤ, pos, negsuc, ltb_ℤ, pos_part}
use lsdsk.Nvlist.Values.{
  Error, past_buffer, past_pair, too_many_pairs, short_pair, name_past_pair, string_past_pair,
  long_string, struct_error, Result, ok, err, ◌>>=◌,
}

abbrev pub max_depth : ℕ
max_depth = 32

abbrev pub max_pairs : ℕ
max_pairs = 100_000

abbrev pub max_string_bytes : ℕ
max_string_bytes = 65_536

-- The size of the `struct` that heads a pair.
abbrev pub pair_header : ℕ
pair_header = 16

-- `(size + 7) & ~7`
unfoldable pub align : ℕ → ℕ
align size = (size + 7) / 8 * 8

-- The number that bytes spell, the lowest first.
unfoldable pub little_endian : List ℕ → ℕ
little_endian [] = 0
little_endian (b ∷ bs) = b + 256 * little_endian bs

-- A signed integer of so many bits from its bit pattern.
abbrev pub signed : ℕ → ℕ → ℤ
signed bits n = if ltb n (2 ^ (bits - 1)) then pos n else negsuc (2 ^ bits - n - 1)

one_later : Option ℕ → Option ℕ
one_later none = none
one_later (some n) = some (suc n)

-- The offset of the first zero byte.
unfoldable pub find_zero : List ℕ → Option ℕ
unfolding one_later
find_zero [] = none
find_zero (b ∷ bs) = let rest = find_zero bs in if b == 0 then some 0 else one_later rest

-- So many 64-bit words of the bytes.
unfoldable pub words : ℕ → List ℕ → List ℕ
words zero bytes = []
words (suc count) bytes = little_endian (take 8 bytes) ∷ words count (drop 8 bytes)

pub record Head : Type 0 where
  pub name : String
  pub value : ℕ
  pub kind : ℤ
  pub count : ℤ
  pub stop : ℕ

module _ (blob : List ℕ) where
  -- `struct.unpack_from` of so many bytes: an error where the buffer does not hold them.
  unfoldable pub bytes_at : ℕ → ℕ → Result (List ℕ)
  bytes_at width position =
      if leb (position + width) (length blob)
      then ok (take width (drop position blob))
      else err struct_error

  unfoldable pub int32_at : ℕ → Result ℤ
  int32_at position = bytes_at 4 position >>= λ bytes. ok (signed 32 (little_endian bytes))

  unfoldable pub int16_at : ℕ → Result ℤ
  int16_at position = bytes_at 2 position >>= λ bytes. ok (signed 16 (little_endian bytes))

  unfoldable pub uint64_at : ℕ → Result ℕ
  uint64_at position = bytes_at 8 position >>= λ bytes. ok (little_endian bytes)

  unfoldable pub uint64s_at : ℕ → ℕ → Result (List ℕ)
  uint64s_at count position = bytes_at (8 * count) position >>= λ bytes. ok (words count bytes)

  abbrev pub bound_of : Option ℕ → ℕ
  bound_of none = length blob
  bound_of (some limit) = limit

  abbrev pub crossed : Option ℕ → Error
  crossed none = past_buffer
  crossed (some limit) = past_pair

  -- `need`
  unfoldable pub need : ℕ → ℤ → Option ℕ → Result (Unit {0})
  need start count limit =
      if ltb_ℤ count (pos 0) || ltb (bound_of limit) (start + pos_part count)
      then err (crossed limit)
      else ok tt

module _ (utf8 : List ℕ → String) (blob : List ℕ) where
  -- `_pair_head`, after the count of pairs. The size is at least that of a header when it is used as
  -- a number of bytes, and so is the name's.
  unfoldable pub pair_head_at : ℕ → ℤ → Result Head
  pair_head_at position size =
      if ltb_ℤ size (pos pair_header)
      then err short_pair
      else (need blob position size none >>= λ _. int16_at blob (position + 4) >>= λ name_size.
          int32_at blob (position + 8) >>= λ count. int32_at blob (position + 12) >>= λ kind.
          if ltb_ℤ name_size (pos 1) || ltb (pos_part size) (pair_header + pos_part name_size)
          then err name_past_pair
          else ok (record {
            name = utf8 (take (pos_part name_size - 1) (drop (position + pair_header) blob));
            value = position + align (pair_header + pos_part name_size);
            kind = kind;
            count = count;
            stop = position + pos_part size;
          }))

  -- The whole of `_pair_head`: `pairs` is the reader's count, which it returns raised by one.
  unfoldable pub pair_head : ℕ → ℤ → ℕ → Result (Head × ℕ)
  pair_head position size pairs =
      if ltb max_pairs (pairs + 1)
      then err too_many_pairs
      else (pair_head_at position size >>= λ head. ok (head, pairs + 1))

  pub string_found : ℕ → Option ℕ → Result String
  string_found value none = err string_past_pair
  string_found value (some offset) =
      if ltb max_string_bytes offset
      then err long_string
      else ok (utf8 (take offset (drop value blob)))

  -- `_string`
  unfoldable pub string_at : ℕ → ℕ → Result String
  unfolding string_found
  string_at value stop = string_found value (find_zero (take (stop - value) (drop value blob)))
