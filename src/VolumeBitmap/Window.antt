-- ===== src/VolumeBitmap/Window.antt =====
-- `_window` of src/lsdsk/adapters/hw/windows/volume_layout.py: the clusters of a window.
use Prim.Native.Nat.{bit_or}
use lsdsk.Prelude.{
  ℕ, zero, suc, ◌+◌, ◌-◌, ◌*◌, ◌/◌, ◌%◌, ◌^◌, ◌<◌, ◌≡◌, refl, sym, ◌∙◌, ap, Bool, true, List, [],
  ◌∷◌, ◌++◌, length, take, drop, replicate, ◌==◌, arith, if◌then◌else◌, Bool-cases, inl, inr,
  length-append, length-drop, length-take,
}
use lsdsk.VolumeBitmap.{bits, or_at, padded, size_of, skipped, bounded, window_of}
use lsdsk.VolumeBitmap.Bytes.{
  bit_list, AreBytes, append_assoc, append_nil, length-replicate, length-bit_list,
}
use lsdsk.VolumeBitmap.Masks.{
  low_bits, high_bits, high_mask, take_all, drop_within, take_within, take-replicate,
}

-- The window whose first `whole` bytes and `part` digits of the next one are in use.
abbrev marked : ℕ → ℕ → List ℕ → List ℕ
marked whole part bytes =
    let filled = replicate whole 255 ++ drop whole bytes in
    if part == 0 then filled else or_at filled whole (2 ^ part - 1)

marked-suc :
    (whole part b : ℕ) (bytes : List ℕ)
    → marked (suc whole) part (b ∷ bytes) ≡ 255 ∷ marked whole part bytes
unfolding or_at
marked-suc whole part b bytes = elim (Bool-cases (part == 0)) [
  | inl t ↦ rw t refl
  | inr f ↦ rw f refl
]

marked_first :
    (part b : ℕ) (bytes : List ℕ)
    → part < 8
    → AreBytes (b ∷ bytes)
    → (bit_list (marked 0 part (b ∷ bytes))
        ≡ replicate part true ++ drop part (bit_list (b ∷ bytes)))
      × AreBytes (marked 0 part (b ∷ bytes))
      × (length (marked 0 part (b ∷ bytes)) ≡ suc (length bytes))
unfolding or_at
marked_first part b bytes p h = elim (Bool-cases (part == 0)) [
  | inl t ↦ let e : part ≡ 0 = ground (arith, t) in rw e (refl, h, refl)
  | inr f ↦
      let low = low_bits part b p h.0 in
      let tail = drop_within part (bits 8 b) (bit_list bytes) (omega arith) in
      rw (f, tail)
        (
          ap (λ first. first ++ bit_list bytes) low.0
              ∙ append_assoc (replicate part true) (drop part (bits 8 b)) (bit_list bytes),
          (low.1, h.1),
          refl,
        )
]

marked_lem :
    (whole part : ℕ) (bytes : List ℕ)
    → part < 8
    → whole < length bytes
    → AreBytes bytes
    → (bit_list (marked whole part bytes)
        ≡ replicate (whole * 8 + part) true ++ drop (whole * 8 + part) (bit_list bytes))
      × AreBytes (marked whole part bytes)
      × (length (marked whole part bytes) ≡ length bytes)
marked_lem whole part [] p w h = absurd (omega arith)
marked_lem zero part (b ∷ bytes) p w h =
    let e : zero * 8 + part ≡ part = omega arith in
    let first = marked_first part b bytes p h in rw e first
marked_lem (suc whole) part (b ∷ bytes) p w h =
    let e : suc whole * 8 + part
        ≡ suc (suc (suc (suc (suc (suc (suc (suc (whole * 8 + part)))))))) =
      omega arith in
    let (bs, are, long) = marked_lem whole part bytes p (omega arith) h.1 in
    rw (marked-suc whole part b bytes, e, bs) (refl, (omega arith, are), omega (arith, long))

ended :
    (k : ℕ) (bytes : List ℕ)
    → 0 < length bytes
    → k < 8
    → AreBytes bytes
    → (bit_list (or_at bytes (length bytes - 1) (high_mask k))
        ≡ take ((length bytes - 1) * 8 + k) (bit_list bytes) ++ replicate (8 - k) true)
      × AreBytes (or_at bytes (length bytes - 1) (high_mask k))
unfolding or_at
ended k [] h l are = absurd (omega arith)
ended k (b ∷ []) h l are =
    let high = high_bits k b l are.0 in
    let e : (suc zero - 1) * 8 + k ≡ k = omega arith in
    let short = take_within k (bits 8 b) [] (omega arith) in
    rw (e, short) (append_nil (bits 8 (bit_or b (high_mask k))) ∙ high.0, (high.1, tt))
ended k (b ∷ c ∷ bytes) h l are =
    let (bs, ok) = ended k (c ∷ bytes) (omega arith) l are.1 in
    let e : (suc (suc (length bytes)) - 1) * 8 + k
        ≡ suc (suc (suc (suc (suc (suc (suc (suc ((suc (length bytes) - 1) * 8 + k)))))))) =
      omega arith in
    let f : suc (suc (length bytes)) - 1 ≡ suc (suc (length bytes) - 1) = omega arith in
    rw (e, f, bs) (refl, (are.0, ok))

skipped_lem :
    (bytes : List ℕ) (skip : ℕ)
    → skip < length bytes * 8
    → AreBytes bytes
    → (bit_list (skipped bytes skip) ≡ replicate skip true ++ drop skip (bit_list bytes))
      × AreBytes (skipped bytes skip)
      × (length (skipped bytes skip) ≡ length bytes)
unfolding skipped
skipped_lem bytes skip h are =
    let e : skip / 8 * 8 + skip % 8 ≡ skip = omega arith in
    let (bs, ok, long) = marked_lem (skip / 8) (skip % 8) bytes (omega arith) (omega arith) are in
    (bs ∙ rw e refl, ok, long)

AreBytes-take : (n : ℕ) (bytes : List ℕ) → AreBytes bytes → AreBytes (take n bytes)
AreBytes-take zero bytes h = tt
AreBytes-take (suc n) [] h = tt
AreBytes-take (suc n) (b ∷ bytes) h = (h.0, AreBytes-take n bytes h.1)

AreBytes-pad : (bytes : List ℕ) (n : ℕ) → AreBytes bytes → AreBytes (bytes ++ replicate n 0)
AreBytes-pad [] zero h = tt
AreBytes-pad [] (suc n) h = (omega arith, AreBytes-pad [] n tt)
AreBytes-pad (b ∷ bytes) n h = (h.0, AreBytes-pad bytes n h.1)

length-padded : (chunk : List ℕ) (size : ℕ) → length (padded chunk size) ≡ size
length-padded chunk size = omega (
  arith,
  length-append (take size chunk) (replicate (size - length chunk) 0),
  length-take size chunk,
  length-replicate {A = ℕ} (size - length chunk) 0,
)

-- The clusters that a chunk brings: those from `skip` to `nbits`, where bytes that are missing hold
-- free ones.
abbrev pub clusters : List ℕ → ℕ → ℕ → List Bool
clusters chunk nbits skip =
    take (nbits - skip) (drop skip (bit_list (padded chunk (size_of nbits))))

pub length-clusters :
    (chunk : List ℕ) (nbits skip : ℕ) → length (clusters chunk nbits skip) ≡ nbits - skip
length-clusters chunk nbits skip =
    let all = bit_list (padded chunk (size_of nbits)) in
    omega (
      arith,
      length-take (nbits - skip) (drop skip all),
      length-drop skip all,
      length-bit_list (padded chunk (size_of nbits)),
      length-padded chunk (size_of nbits),
    )

-- What the end of a window is cut to.
bounded_lem :
    (bytes : List ℕ) (nbits skip : ℕ) (used : List Bool)
    → length bytes ≡ size_of nbits
    → skip < nbits
    → AreBytes bytes
    → length used ≡ length bytes * 8 - skip
    → bit_list bytes ≡ replicate skip true ++ used
    → (bit_list (bounded bytes nbits)
        ≡ replicate skip true
          ++ (take (nbits - skip) used ++ replicate (length bytes * 8 - nbits) true))
      × AreBytes (bounded bytes nbits)
unfolding bounded
bounded_lem bytes nbits skip used long h are room e = elim (Bool-cases (nbits % 8 == 0)) [
  | inl t ↦
      let exact : length bytes * 8 ≡ nbits = ground (arith, t, long) in
      let none_over : length bytes * 8 - nbits ≡ 0 = omega (arith, exact) in
      let all = take_all (nbits - skip) used (omega (arith, room, exact)) in
      rw (t, none_over, all)
        (e ∙ ap (λ later. replicate skip true ++ later) (sym (append_nil used)), are)
  | inr f ↦
      let k = nbits % 8 in
      let over : length bytes * 8 - nbits ≡ 8 - k = ground (arith, f, long) in
      let cut : (length bytes - 1) * 8 + k ≡ nbits = ground (arith, f, long) in
      let (bs, ok) = ended k bytes (omega (arith, long, h)) (omega arith) are in
      let front : take ((length bytes - 1) * 8 + k) (bit_list bytes)
          ≡ replicate skip true ++ take (nbits - skip) used =
        rw (cut, e) (take-replicate nbits skip true used (omega arith)) in
      rw (f, over)
        (
          bs
              ∙ ap (λ first. first ++ replicate (8 - k) true) front
              ∙ append_assoc (replicate skip true) (take (nbits - skip) used)
                  (replicate (8 - k) true),
          ok,
        )
]

-- A window holds the chunk's clusters, with used ones before and after them.
pub window_of_lem :
    (chunk : List ℕ) (nbits skip : ℕ)
    → skip < nbits
    → AreBytes chunk
    → (bit_list (window_of chunk nbits skip)
        ≡ replicate skip true
          ++ (clusters chunk nbits skip ++ replicate (size_of nbits * 8 - nbits) true))
      × AreBytes (window_of chunk nbits skip)
unfolding window_of
window_of_lem chunk nbits skip h are =
    let size = size_of nbits in
    let bytes = padded chunk size in
    let long = length-padded chunk size in
    let ok = AreBytes-pad (take size chunk) (size - length chunk) (AreBytes-take size chunk are) in
    let (bs, fine, same) = skipped_lem bytes skip (omega (arith, long, h)) ok in
    let room : length (drop skip (bit_list bytes)) ≡ length (skipped bytes skip) * 8 - skip =
      omega (arith, length-drop skip (bit_list bytes), length-bit_list bytes, same) in
    let sized : length (skipped bytes skip) ≡ size = omega (arith, same, long) in
    let (cut, last) =
      bounded_lem (skipped bytes skip) nbits skip (drop skip (bit_list bytes)) sized h fine room
        bs in
    (
      cut
          ∙ ap
              (λ n.
                replicate skip true
                ++ (clusters chunk nbits skip ++ replicate (n * 8 - nbits) true))
              sized,
      last,
    )
