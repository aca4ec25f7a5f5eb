-- ===== src/Nvlist/Decode/Safe.antt =====
-- Which errors the decoding of src/lsdsk/adapters/hw/decode/nvlist.py may end in.
use lsdsk.Prelude.{
  ℕ, ◌*◌, ◌≤◌, ◌≡◌, refl, String, ◌||◌, ◌+◌, ◌<◌, ◌-◌, zero, suc, not, ltb, ltb-false, get_elem?,
  Option, none, some, List, length, arith,
}
use lsdsk.Prelude.Int.{ℤ, pos, negsuc, ltb_ℤ, eqb_ℤ, pos_part, ◌≤ℤ◌}
use lsdsk.Nvlist.Values.{NvValue, NvList, nil, set_entry, Result, ok, err}
use lsdsk.Nvlist.Reader.{max_pairs, Head, max_depth}
use lsdsk.Nvlist.Decode.{
  eightfold, Listed, list_array, value_at, stepped, round, at_depth, pair_loop, pair_list, list_of,
  is_byte, decode_nvlist,
}
use lsdsk.Nvlist.Decode.Steps.{
  IsHead, int32_at-Post, pair_head-Post, Post, good, bad, Post-bind, Post-if, Any, Ends, Nested,
  need-Post, uint64_at-Post, uint64s_at-Post, string_at-Post, members-Post,
}

-- Where the stream goes on behind a value that began before `stop`.
abbrev GoesOn : ℕ → ℕ → Option (NvValue × ℕ) → Type 0
GoesOn len stop none = Unit {0}
GoesOn len stop (some (v, next)) = (stop ≤ next) × (next ≤ len)

abbrev Values : ℕ → ℕ → ℕ → Option (NvValue × ℕ) × ℕ → Type 0
Values len stop pairs r = GoesOn len stop r.0 × (pairs ≤ r.1) × (r.1 ≤ max_pairs)

Post-map {ℓ} :
    {A : Type ℓ} {P Q : A → Type 0} {m : Result A} → ((a : A) → P a → Q a) → Post P m → Post Q m
Post-map f (good {a = a} h) = good (f a h)
Post-map f (bad h) = bad h

eightfold_parts :
    (count : ℤ) → pos 0 ≤ℤ eightfold count → pos_part (eightfold count) ≡ 8 * pos_part count
eightfold_parts (pos n) h = refl
eightfold_parts (negsuc n) h = absurd (omega arith)

module _ (utf8 : List ℕ → String) (blob : List ℕ) where
  module _ (floor : ℕ) (nested : ℕ → ℕ → Listed) (fine : Nested utf8 blob floor nested) where
    list_array-Post :
        (count : ℤ) (stop pairs : ℕ)
        → floor ≤ stop
        → stop ≤ length blob
        → pairs ≤ max_pairs
        → Post (Ends (length blob) 0 stop pairs) (list_array nested count stop pairs)
    unfolding list_array
    list_array-Post count stop pairs low high few =
        Post-if (ltb_ℤ count (pos 0) || ltb_ℤ (pos max_pairs) count) (λ _. bad refl)
          λ _. members-Post utf8 blob floor nested fine (pos_part count) stop pairs low high few

    value_at-Post :
        (kind : ℤ) (value : ℕ) (count : ℤ) (stop pairs : ℕ)
        → floor ≤ stop
        → stop ≤ length blob
        → pairs ≤ max_pairs
        → Post
            (Values (length blob) stop pairs)
            (value_at utf8 blob nested kind value count stop pairs)
    unfolding value_at
    value_at-Post kind value count stop pairs low high few =
        Post-if (eqb_ℤ kind (pos 8))
          (λ _.
            Post-bind (need-Post blob value (pos 8) (some stop))
              λ _ h. Post-bind (uint64_at-Post blob value (omega arith)) λ n _. good (omega arith))
          λ _.
            Post-if (eqb_ℤ kind (pos 9))
              (λ _. Post-bind (string_at-Post utf8 blob value stop) λ s _. good (omega arith))
              λ _.
                Post-if (eqb_ℤ kind (pos 16))
                  (λ _. Post-bind (need-Post blob value (eightfold count) (some stop)) λ _ h.
                    Post-bind
                      (uint64s_at-Post blob (pos_part count) value
                        (omega (arith, eightfold_parts count h.1)))
                      λ ns _. good (omega arith))
                  λ _.
                    Post-if (eqb_ℤ kind (pos 19))
                      (λ _.
                        Post-bind (fine stop pairs low high few)
                          λ (list, next, counted) h. good (omega arith))
                      λ _.
                        Post-if (eqb_ℤ kind (pos 20))
                          (λ _.
                            Post-bind (list_array-Post count stop pairs low high few)
                              λ (lists, next, counted) h. good (omega arith))
                          λ _. good (omega arith)

  -- One round of the loop at `position`, with lists and further rounds that keep their promise from a
  -- pair header's size on.
  round-Post :
      (nested : ℕ → ℕ → Listed) (again : NvList → ℕ → ℕ → Listed) (out : NvList)
      (position pairs : ℕ)
      → Nested utf8 blob (position + 16) nested
      → ((out' : NvList) → Nested utf8 blob (position + 16) (again out'))
      → pairs ≤ max_pairs
      → Post (Ends (length blob) 4 position pairs) (round utf8 blob nested again out position pairs)
  unfolding round stepped
  round-Post nested again out position pairs fine more few =
      Post-bind (need-Post blob position (pos 4) none) λ _ fits.
        Post-bind (int32_at-Post blob position (omega arith)) λ size _.
          Post-if (eqb_ℤ size (pos 0)) (λ _. good (omega arith))
            λ _. Post-bind (pair_head-Post utf8 blob position size pairs) λ (head, counted) h.
              Post-bind
                (value_at-Post (position + 16) nested fine head.kind head.value head.count head.stop
                  counted (omega arith) (omega arith) (omega arith))
                λ (decoded, total) v. go_on head decoded counted total h.0 (omega arith) v
    where
      go_on :
          (head : Head) (decoded : Option (NvValue × ℕ)) (counted total : ℕ)
          → IsHead utf8 blob position head
          → pairs ≤ counted
          → Values (length blob) head.stop counted (decoded, total)
          → Post (Ends (length blob) 4 position pairs) (
              again
                (stepped head.name out head.stop decoded).0
                (stepped head.name out head.stop decoded).1
                total)
      go_on head none counted total h le v =
          Post-map (λ r k. omega arith)
            (more out head.stop total (omega arith) (omega arith) (omega arith))
      go_on head (some (x, next)) counted total h le v =
          Post-map (λ r k. omega arith)
            (more (set_entry head.name x out) next total (omega arith) (omega arith) (omega arith))

  at_depth-Post :
      (depth start pairs : ℕ) (m : Listed)
      → Post (Ends (length blob) 4 start pairs) m
      → Post (Ends (length blob) 4 start pairs) (at_depth depth m)
  unfolding at_depth
  at_depth-Post depth start pairs m h = Post-if (ltb max_depth depth) (λ _. bad refl) (λ _. h)

  pair_loop-Post :
      (fuel depth : ℕ) (out : NvList) (position pairs : ℕ)
      → length blob - position < fuel
      → pairs ≤ max_pairs
      → Post
          (Ends (length blob) 4 position pairs)
          (pair_loop utf8 blob fuel depth out position pairs)
  unfolding pair_loop
  pair_loop-Post zero depth out position pairs h few = absurd (omega arith)
  pair_loop-Post (suc fuel) depth out position pairs h few =
      round-Post _ _ out position pairs
        (λ start counted low high c.
          at_depth-Post (depth + 1) start counted _
            (pair_loop-Post fuel (depth + 1) nil start counted (omega arith) c))
        (λ out' start counted low high c.
          pair_loop-Post fuel depth out' start counted (omega arith) c)
        few

  list_of-Post :
      (start pairs : ℕ) (m : Listed)
      → Post (Ends (length blob) 4 start pairs) m
      → Post Any (list_of m)
  unfolding list_of
  list_of-Post start pairs (ok r) h = good tt
  list_of-Post start pairs (err e) (bad h) = bad h

  -- Whatever the bytes, decoding returns a list or one of the module's own errors: it never unpacks
  -- past the end of the buffer, and the length of the buffer is fuel enough.
  pub decode_nvlist-Post : Post Any (decode_nvlist utf8 blob)
  unfolding decode_nvlist pair_list
  decode_nvlist-Post =
      Post-if (ltb (length blob) 16) (λ _. bad refl)
        λ long.
          Post-if (not (is_byte 0 (get_elem? blob 0)) || not (is_byte 1 (get_elem? blob 1)))
            (λ _. bad refl)
            λ _. list_of-Post 12 0 _ (
              at_depth-Post 0 12 0 _ (
                pair_loop-Post (length blob) 0 nil 12 0
                  (omega (arith, ltb-false (length blob) 16 long)) (omega arith)))
