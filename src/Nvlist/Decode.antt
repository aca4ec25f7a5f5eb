-- ===== src/Nvlist/Decode.antt =====
-- The loop of src/lsdsk/adapters/hw/decode/nvlist.py: pairs, their values and the lists in them. The
-- recursion takes the length of the buffer as fuel.
pub mod Steps
pub mod Safe
use lsdsk.Prelude.{
  ℕ, zero, suc, ◌+◌, ◌*◌, String, Bool, true, false, not, ◌&&◌, ◌||◌, Option, none, some, List, [],
  ◌∷◌, length, get_elem?, ltb, leb, ◌==◌, if◌then◌else◌,
}
use lsdsk.Prelude.Int.{ℤ, pos, negsuc, ltb_ℤ, eqb_ℤ, pos_part}
use lsdsk.Nvlist.Values.{
  Error, too_short, not_native, too_deep, bad_member_count, struct_error, out_of_fuel, Result, ok,
  err, ◌>>=◌, NvValue, uint64, string, uint64_array, nvlist, nvlist_array, NvList, nil, NvLists,
  end, member, set_entry,
}
use lsdsk.Nvlist.Reader.{
  Head, max_depth, max_pairs, need, int32_at, uint64_at, uint64s_at, string_at, pair_head,
}

-- `8 * count`
abbrev pub eightfold : ℤ → ℤ
eightfold (pos n) = pos (8 * n)
eightfold (negsuc n) = negsuc (8 * n + 7)

-- What `pair_list` returns, with the reader's count of pairs.
abbrev pub Listed : Type 0
Listed = Result (NvList × ℕ × ℕ)

-- A value and where the stream goes on, or nothing for a kind that is not read.
abbrev pub Valued : Type 0
Valued = Result (Option (NvValue × ℕ) × ℕ)

-- The loop of `_list_array`, over the members left; `nested` is `pair_list` one level down.
unfoldable pub members : (ℕ → ℕ → Listed) → ℕ → ℕ → ℕ → Result (NvLists × ℕ × ℕ)
members nested zero position pairs = ok (end, position, pairs)
members nested (suc count) position pairs = nested position pairs >>= λ (list, next, counted).
    members nested count next counted >>= λ (lists, last, total).
    ok (member list lists, last, total)

unfoldable pub list_array : (ℕ → ℕ → Listed) → ℤ → ℕ → ℕ → Result (NvLists × ℕ × ℕ)
list_array nested count stop pairs =
    if ltb_ℤ count (pos 0) || ltb_ℤ (pos max_pairs) count
    then err bad_member_count
    else members nested (pos_part count) stop pairs

-- A pair whose kind is not read is stepped over.
unfoldable pub stepped : String → NvList → ℕ → Option (NvValue × ℕ) → NvList × ℕ
stepped name out stop none = (out, stop)
stepped name out stop (some (v, next)) = (set_entry name v out, next)

-- `pair_list` at a depth, over the loop from an empty list.
unfoldable pub at_depth : ℕ → Listed → Listed
at_depth depth listed = if ltb max_depth depth then err too_deep else listed

pub list_of : Listed → Result NvList
list_of (ok (list, _, _)) = ok list
list_of (err e) = err e

abbrev pub is_byte : ℕ → Option ℕ → Bool
is_byte n none = false
is_byte n (some b) = b == n

module _ (utf8 : List ℕ → String) (blob : List ℕ) where
  -- `_value`
  unfoldable pub value_at : (ℕ → ℕ → Listed) → ℤ → ℕ → ℤ → ℕ → ℕ → Valued
  value_at nested kind value count stop pairs =
      if eqb_ℤ kind (pos 8)
      then (need blob value (pos 8) (some stop) >>= λ _.
          uint64_at blob value >>= λ n. ok (some (uint64 n, stop), pairs))
      else if eqb_ℤ kind (pos 9)
      then (string_at utf8 blob value stop >>= λ s. ok (some (string s, stop), pairs))
      else if eqb_ℤ kind (pos 16)
      then (need blob value (eightfold count) (some stop) >>= λ _.
          uint64s_at blob (pos_part count) value >>= λ ns. ok (some (uint64_array ns, stop), pairs))
      else if eqb_ℤ kind (pos 19)
      then (nested stop pairs >>= λ (list, next, counted). ok (some (nvlist list, next), counted))
      else if eqb_ℤ kind (pos 20)
      then (list_array nested count stop pairs >>= λ (lists, next, counted).
          ok (some (nvlist_array lists, next), counted))
      else ok (none, pairs)

  -- One round of the loop; `again` is the next one.
  unfoldable pub round : (ℕ → ℕ → Listed) → (NvList → ℕ → ℕ → Listed) → NvList → ℕ → ℕ → Listed
  round nested again out position pairs = need blob position (pos 4) none >>= λ _.
      int32_at blob position >>= λ size.
      if eqb_ℤ size (pos 0)
      then ok (out, position + 4, pairs)
      else (pair_head utf8 blob position size pairs >>= λ (head, counted).
          value_at nested head.kind head.value head.count head.stop counted >>= λ (decoded, total).
          let (out', next) = stepped head.name out head.stop decoded in again out' next total)

  unfoldable pub pair_loop : ℕ → ℕ → NvList → ℕ → ℕ → Listed
  pair_loop zero depth out position pairs = err out_of_fuel
  pair_loop (suc fuel) depth out position pairs =
      round (λ start counted. at_depth (depth + 1) (pair_loop fuel (depth + 1) nil start counted))
        (pair_loop fuel depth) out position pairs

  unfoldable pub pair_list : ℕ → ℕ → ℕ → ℕ → Listed
  pair_list fuel start depth pairs = at_depth depth (pair_loop fuel depth nil start pairs)

  -- `decode_nvlist`
  unfoldable pub decode_nvlist : Result NvList
  unfolding list_of
  decode_nvlist =
      if ltb (length blob) 16
      then err too_short
      else if not (is_byte 0 (get_elem? blob 0)) || not (is_byte 1 (get_elem? blob 1))
      then err not_native
      else list_of (pair_list (length blob) 12 0 0)
