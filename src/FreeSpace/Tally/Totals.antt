-- ===== src/FreeSpace/Tally/Totals.antt =====
-- Whole walks of a `FreeExtentTally` of src/lsdsk/adapters/hw/decode/free_extents.py.
use lsdsk.Prelude.{
  ℕ, ◌+◌, ◌≤◌, ◌≡◌, ◌↔◌, List, [], ◌∷◌, arith, max, refl, if◌then◌else◌, ◌≢◌, sym, ◌∙◌,
}
use lsdsk.Prelude.Int.{ℤ, pos, leb_ℤ, pos_part}
use lsdsk.FreeSpace.Tally.{
  FreeExtentTally, Added, added, cap_error, total_error, uint64_max, add, add_all,
}
use lsdsk.FreeSpace.Tally.Sums.{IsSound, add-IsSound}

-- The extents of a walk that are not empty, their bytes, and the longest.
abbrev pub extents : List ℤ → ℕ
extents [] = 0
extents (n ∷ ns) = (if leb_ℤ n (pos 0) then 0 else 1) + extents ns

abbrev pub bytes : List ℤ → ℕ
bytes [] = 0
bytes (n ∷ ns) = pos_part n + bytes ns

abbrev pub longest_of : List ℤ → ℕ
longest_of [] = 0
longest_of (n ∷ ns) = max (pos_part n) (longest_of ns)

add_lem :
    (t t' : FreeExtentTally) (n : ℤ)
    → add t n ≡ added t'
    → (t'.cap ≡ t.cap)
      × (t'.count ≡ t.count + (if leb_ℤ n (pos 0) then 0 else 1))
      × (t'.total ≡ t.total + pos_part n)
      × (t'.largest ≡ max t.largest (pos_part n))
unfolding add
add_lem t t' n e = ground arith

added_or : (a : Added) → a ≢ cap_error → a ≢ total_error → (t : FreeExtentTally) × (a ≡ added t)
added_or (added t) c w = (t, refl)
added_or cap_error c w = absurd (c refl)
added_or total_error c w = absurd (w refl)

add_accepts :
    (t : FreeExtentTally) (n : ℤ)
    → t.count + (if leb_ℤ n (pos 0) then 0 else 1) ≤ t.cap
    → t.total + pos_part n ≤ uint64_max
    → (t' : FreeExtentTally) × (add t n ≡ added t')
unfolding add
add_accepts t n room word = added_or (add t n) (λ e. ground (arith, e)) (λ e. ground (arith, e))

add_all-cons :
    (t t' : FreeExtentTally) (n : ℤ) (ns : List ℤ)
    → add t n ≡ added t'
    → add_all t (n ∷ ns) ≡ add_all t' ns
unfolding add_all
add_all-cons t t' n ns e = rw (e, add_all) refl

-- The first extent of a walk that was accepted was accepted.
add_all_head :
    (t out : FreeExtentTally) (n : ℤ) (ns : List ℤ)
    → add_all t (n ∷ ns) ≡ added out
    → (t' : FreeExtentTally) × (add t n ≡ added t')
unfolding add_all
add_all_head t out n ns e =
    added_or (add t n) (λ c. ground (arith, e, c)) (λ c. ground (arith, e, c))

-- A walk that is accepted leaves the number of its extents that are not empty, their bytes and the
-- longest of them on top of what the tally held, and its cap as it was.
pub add_all_totals :
    (t out : FreeExtentTally) (ns : List ℤ)
    → add_all t ns ≡ added out
    → (out.cap ≡ t.cap)
      × (out.count ≡ t.count + extents ns)
      × (out.total ≡ t.total + bytes ns)
      × (out.largest ≡ max t.largest (longest_of ns))
unfolding add_all
add_all_totals t out [] e = ground arith
add_all_totals t out (n ∷ ns) e =
    let (t', first) = add_all_head t out n ns e in
    let rest = add_all_totals t' out ns (sym (add_all-cons t t' n ns first) ∙ e) in
    let step = add_lem t t' n first in (omega arith, omega arith, omega arith, omega arith)

-- Every accepted walk leaves a sound tally sound.
pub add_all-IsSound :
    (t out : FreeExtentTally) (ns : List ℤ) → IsSound t → add_all t ns ≡ added out → IsSound out
unfolding add_all
add_all-IsSound t out [] h e = ground (arith, h)
add_all-IsSound t out (n ∷ ns) h e =
    let (t', first) = add_all_head t out n ns e in
    add_all-IsSound t' out ns (add-IsSound t t' n h first) (sym (add_all-cons t t' n ns first) ∙ e)

-- A walk is accepted exactly where its extents that are not empty fit under the cap and its bytes
-- into what a capture records.
pub add_all_accepts :
    (t : FreeExtentTally) (ns : List ℤ)
    → IsSound t
    → ((out : FreeExtentTally) × (add_all t ns ≡ added out))
      ↔ ((t.count + extents ns ≤ t.cap) × (t.total + bytes ns ≤ uint64_max))
add_all_accepts t ns h = (
  (λ (out, e).
      let totals = add_all_totals t out ns e in
      let sound = add_all-IsSound t out ns h e in
      (omega (arith, sound.within_cap), omega (arith, sound.within_word))),
  (λ (room, word). accept t ns room word),
)
  where
    accept :
        (t : FreeExtentTally) (ns : List ℤ)
        → t.count + extents ns ≤ t.cap
        → t.total + bytes ns ≤ uint64_max
        → (out : FreeExtentTally) × (add_all t ns ≡ added out)
    accept t [] room word = (t, unfold add_all in refl)
    accept t (n ∷ ns) room word =
        let (t', first) = add_accepts t n (omega arith) (omega arith) in
        let step = add_lem t t' n first in
        let (out, rest) = accept t' ns (omega arith) (omega arith) in
        (out, add_all-cons t t' n ns first ∙ rest)
