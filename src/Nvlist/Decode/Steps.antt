-- ===== src/Nvlist/Decode/Steps.antt =====
-- The parts of the decoder of src/lsdsk/adapters/hw/decode/nvlist.py: positions and errors.
use lsdsk.Prelude.{
  ℕ, zero, suc, ◌+◌, ◌*◌, ◌-◌, ◌≤◌, ◌≡◌, refl, String, Bool, true, false, ◌||◌, Option, none, some,
  List, [], length, take, drop, ltb, if◌then◌else◌, arith, le→leb, ltb-false,
}
use lsdsk.Prelude.Int.{ℤ, pos, ltb_ℤ, pos_part, ◌≤ℤ◌}
use lsdsk.Nvlist.Values.{Error, struct_error, out_of_fuel, Result, ok, err, ◌>>=◌}
use lsdsk.Nvlist.Reader.{
  string_found, Head, max_pairs, max_string_bytes, pair_header, bytes_at, need, bound_of, crossed,
  int16_at, int32_at, uint64_at, uint64s_at, string_at, find_zero, pair_head, pair_head_at,
}
use lsdsk.Nvlist.Decode.{Listed, members}

-- The two errors that the decoder must never raise.
abbrev pub is_fault : Error → Bool
is_fault struct_error = true
is_fault out_of_fuel = true
is_fault _ = false

-- A result that meets `P` where there is one, and is no fault where there is none.
pub data Post {ℓ} {A : Type ℓ} (P : A → Type 0) : Result A → Type ℓ where
  good : {a : A} → P a → Post P (ok a)
  bad : {e : Error} → is_fault e ≡ false → Post P (err e)

pub Post-bind {ℓ κ} :
    {A : Type ℓ} {B : Type κ} {Q : A → Type 0} {P : B → Type 0} {m : Result A} {f : A → Result B}
    → Post Q m
    → ((a : A) → Q a → Post P (f a))
    → Post P (m >>= f)
Post-bind (good {a = a} h) k = k a h
Post-bind (bad h) k = bad h

pub Post-if {ℓ} :
    {A : Type ℓ} {P : A → Type 0} (b : Bool) {m n : Result A}
    → (b ≡ true → Post P m)
    → (b ≡ false → Post P n)
    → Post P (if b then m else n)
Post-if true h k = h refl
Post-if false h k = k refl

abbrev pub Any {ℓ} : {A : Type ℓ} → A → Type 0
Any a = Unit

crossed_fine : (limit : Option ℕ) → is_fault (crossed [] limit) ≡ false
crossed_fine none = refl
crossed_fine (some n) = refl

module _ (blob : List ℕ) where
  bytes_at-Post :
      (width position : ℕ)
      → position + width ≤ length blob
      → Post Any (bytes_at blob width position)
  unfolding bytes_at
  bytes_at-Post width position h = rw (le→leb _ _ h) (good tt)

  pub int32_at-Post :
      (position : ℕ) → position + 4 ≤ length blob → Post Any (int32_at blob position)
  unfolding int32_at
  int32_at-Post position h = Post-bind (bytes_at-Post 4 position h) (λ bytes _. good tt)

  int16_at-Post : (position : ℕ) → position + 2 ≤ length blob → Post Any (int16_at blob position)
  unfolding int16_at
  int16_at-Post position h = Post-bind (bytes_at-Post 2 position h) (λ bytes _. good tt)

  pub uint64_at-Post :
      (position : ℕ) → position + 8 ≤ length blob → Post Any (uint64_at blob position)
  unfolding uint64_at
  uint64_at-Post position h = Post-bind (bytes_at-Post 8 position h) (λ bytes _. good tt)

  pub uint64s_at-Post :
      (count position : ℕ)
      → position + 8 * count ≤ length blob
      → Post Any (uint64s_at blob count position)
  unfolding uint64s_at
  uint64s_at-Post count position h =
      Post-bind (bytes_at-Post (8 * count) position h) (λ bytes _. good tt)

  -- What a read that `need` let through may rely on.
  pub need-Post :
      (start : ℕ) (count : ℤ) (limit : Option ℕ)
      → Post
          (λ _. (start + pos_part count ≤ bound_of blob limit) × (pos 0 ≤ℤ count))
          (need blob start count limit)
  unfolding need
  need-Post start count limit =
      Post-if (ltb_ℤ count (pos 0) || ltb (bound_of blob limit) (start + pos_part count))
        (λ _. bad (crossed_fine limit)) (λ fine. good (ground arith))

module _ (utf8 : List ℕ → String) (blob : List ℕ) where
  -- The head of a pair ends in the buffer, at least a header's size on.
  abbrev pub IsHead : ℕ → Head → Type 0
  IsHead position head = (position + pair_header ≤ head.stop) × (head.stop ≤ length blob)

  pair_head_at-Post :
      (position : ℕ) (size : ℤ) → Post (IsHead position) (pair_head_at utf8 blob position size)
  unfolding pair_head_at
  pair_head_at-Post position size =
      Post-if (ltb_ℤ size (pos pair_header)) (λ _. bad refl)
        λ big. Post-bind (need-Post blob position size none) λ _ fits.
          Post-bind (int16_at-Post blob (position + 4) (ground arith)) λ name_size _.
            Post-bind (int32_at-Post blob (position + 8) (ground arith)) λ count _.
              Post-bind (int32_at-Post blob (position + 12) (ground arith)) λ kind _.
                Post-if
                  (ltb_ℤ name_size (pos 1)
                    || ltb (pos_part size) (pair_header + pos_part name_size))
                  (λ _. bad refl) (λ fine. good (ground arith))

  pub pair_head-Post :
      (position : ℕ) (size : ℤ) (pairs : ℕ)
      → Post
          (λ r. IsHead position r.0 × (r.1 ≡ pairs + 1) × (r.1 ≤ max_pairs))
          (pair_head utf8 blob position size pairs)
  unfolding pair_head
  pair_head-Post position size pairs =
      Post-if (ltb max_pairs (pairs + 1)) (λ _. bad refl)
        λ fine.
          Post-bind (pair_head_at-Post position size)
            λ head h. good (h, refl, ltb-false max_pairs (pairs + 1) fine)

  pub string_at-Post : (value stop : ℕ) → Post Any (string_at utf8 blob value stop)
  unfolding string_at
  string_at-Post value stop = found (find_zero (take (stop - value) (drop value blob)))
    where
      found : (o : Option ℕ) → Post Any (string_found utf8 blob value o)
      found none = bad refl
      found (some offset) = Post-if (ltb max_string_bytes offset) (λ _. bad refl) (λ _. good tt)

-- Where a list that starts at `start` with so many pairs counted may end.
abbrev pub Ends {ℓ} : {A : Type ℓ} → ℕ → ℕ → ℕ → ℕ → A × ℕ × ℕ → Type 0
Ends len least start pairs r =
    (start + least ≤ r.1) × (r.1 ≤ len) × (pairs ≤ r.2) × (r.2 ≤ max_pairs)

module _ (utf8 : List ℕ → String) (blob : List ℕ) where
  -- What the lists one level down promise from a position on.
  abbrev pub Nested : ℕ → (ℕ → ℕ → Listed) → Type 0
  Nested floor nested =
      (start pairs : ℕ)
      → floor ≤ start
      → start ≤ length blob
      → pairs ≤ max_pairs
      → Post (Ends (length blob) 4 start pairs) (nested start pairs)

  module _ (floor : ℕ) (nested : ℕ → ℕ → Listed) (fine : Nested floor nested) where
    pub members-Post :
        (count position pairs : ℕ)
        → floor ≤ position
        → position ≤ length blob
        → pairs ≤ max_pairs
        → Post (Ends (length blob) 0 position pairs) (members nested count position pairs)
    unfolding members
    members-Post zero position pairs low high few = good (omega arith)
    members-Post (suc count) position pairs low high few =
        Post-bind (fine position pairs low high few) λ (list, next, counted) h.
          Post-bind (members-Post count next counted (omega arith) h.1 h.3)
            λ (lists, last, total) k. good (omega arith)
