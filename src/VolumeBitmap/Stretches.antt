-- ===== src/VolumeBitmap/Stretches.antt =====
-- `_free_runs` of src/lsdsk/adapters/hw/windows/volume_layout.py: leaving out the long stretches in use
-- changes no run.
use mathlib.Core.Path.{subst}
use lsdsk.Prelude.{
  ℕ, zero, suc, ◌+◌, ◌-◌, ◌*◌, ◌<◌, ◌≡◌, refl, sym, ◌∙◌, ap, Bool, true, not, none, some, List, [],
  ◌∷◌, ◌++◌, map, length, replicate, filter, ◌==◌, ==_iff, leb, arith, Bool-cases, inl, inr,
  length-append,
}
use lsdsk.VolumeBitmap.{ClusterSpan, runs, runs_between, used_stretches, runs_after, free_runs}
use lsdsk.VolumeBitmap.Runs.{runs-used, runs-split}
use lsdsk.VolumeBitmap.Bytes.{
  bit_list, AreBytes, append_assoc, append_nil, length-replicate, All-append, bit_list-append,
  length-bit_list, runs_between_lem,
}

abbrev full : ℕ → List ℕ
full n = replicate n 255

-- The spans name stretches of full bytes, in order, of the bytes from `at` on.
data Cuts : ℕ → List ℕ → List ClusterSpan → Type 0 where
  done : {at : ℕ} {bytes : List ℕ} → Cuts at bytes []
  cut :
      {at : ℕ} {bytes : List ℕ} {spans : List ClusterSpan} (piece : List ℕ) (n : ℕ) (rest : List ℕ)
      (s : ClusterSpan)
      → bytes ≡ piece ++ (full (suc n) ++ rest)
      → s.start ≡ at + length piece
      → s.past ≡ s.start + suc n
      → Cuts s.past rest spans
      → Cuts at bytes (s ∷ spans)

abbrev flags : List ℕ → List Bool
flags bytes = map (λ b. not (b == 255)) bytes

-- A stretch may be left uncut.
uncut :
    (at : ℕ) (before rest : List ℕ) (from : ℕ) (spans : List ClusterSpan)
    → from ≡ at + length before
    → Cuts from rest spans
    → Cuts at (before ++ rest) spans
uncut at before rest from [] e c = done
uncut at before rest from (s ∷ spans) e (cut piece n tail s' b f g c) =
    cut (before ++ piece) n tail s' (rw b (sym (append_assoc before piece (full (suc n) ++ tail))))
      (omega (arith, e, f, length-append before piece)) g c

filter-Cuts :
    (p : ClusterSpan → Bool) (at : ℕ) (bytes : List ℕ) (spans : List ClusterSpan)
    → Cuts at bytes spans
    → Cuts at bytes (filter p spans)
filter-Cuts p at bytes [] c = done
filter-Cuts p at bytes (s ∷ spans) (cut piece n rest s' b f g c) =
    let ih = filter-Cuts p s'.past rest spans c in
    elim (Bool-cases (p s')) [
      | inl t ↦ rw t (cut piece n rest s' b f g ih)
      | inr u ↦
          let e = append_assoc piece (full (suc n)) rest in
          rw (u, b, ← e)
            (uncut at (piece ++ full (suc n)) rest s'.past (filter p spans)
              (omega (
                arith,
                f,
                g,
                length-append piece (full (suc n)),
                length-replicate {A = ℕ} (suc n) 255,
              ))
              ih)
    ]

full-append : (n : ℕ) (rest : List ℕ) → full n ++ (255 ∷ rest) ≡ full (suc n) ++ rest
full-append zero rest = refl
full-append (suc n) rest = ap (◌∷◌ 255) (full-append n rest)

mutual
  unfolding runs

  flags-Cuts :
      (at : ℕ) (piece : List ℕ) (from : ℕ) (bytes : List ℕ)
      → from ≡ at + length piece
      → Cuts at (piece ++ bytes) (runs from none (flags bytes))
  flags-Cuts at piece from [] e = done
  flags-Cuts at piece from (b ∷ bytes) e = elim (Bool-cases (b == 255)) [
    | inl t ↦
        let f : b ≡ 255 = (==_iff b 255).0 t in
        rw (t, f) (stretch-Cuts at piece from 0 (from + 1) bytes e (omega arith))
    | inr u ↦
        let longer : from + 1 ≡ at + length (piece ++ (b ∷ [])) =
          omega (arith, e, length-append piece (b ∷ [])) in
        rw (u, ← append_assoc piece (b ∷ []) bytes)
          (flags-Cuts at (piece ++ (b ∷ [])) (from + 1) bytes longer)
  ]

  stretch-Cuts :
      (at : ℕ) (piece : List ℕ) (open_run n from : ℕ) (bytes : List ℕ)
      → open_run ≡ at + length piece
      → from ≡ open_run + suc n
      → Cuts at (piece ++ (full (suc n) ++ bytes)) (runs from (some open_run) (flags bytes))
  stretch-Cuts at piece o n from [] e f =
      cut piece n [] (record { start = o; past = from }) refl e f done
  stretch-Cuts at piece o n from (b ∷ bytes) e f = elim (Bool-cases (b == 255)) [
    | inl t ↦
        let g : b ≡ 255 = (==_iff b 255).0 t in
        rw (t, g, full-append (suc n) bytes)
          (stretch-Cuts at piece o (suc n) (from + 1) bytes e (omega (arith, f)))
    | inr u ↦ rw u (
        cut piece n (b ∷ bytes) (record { start = o; past = from }) refl e f
          (flags-Cuts from (b ∷ []) (from + 1) bytes (omega arith)))
  ]

-- A full byte holds used clusters alone.
bit_list-full : (n : ℕ) → bit_list (full n) ≡ replicate (n * 8) true
bit_list-full zero = refl
bit_list-full (suc n) =
    let e : suc n * 8 ≡ suc (suc (suc (suc (suc (suc (suc (suc (n * 8)))))))) = omega arith in
    rw (e, bit_list-full n) refl

-- A full stretch of bytes parts the runs.
runs-stretch :
    (at : ℕ) (piece rest : List ℕ) (n : ℕ)
    → runs at none (bit_list (piece ++ (full (suc n) ++ rest)))
      ≡ runs at none (bit_list piece)
        ++ runs (at + length piece * 8 + suc n * 8) none (bit_list rest)
runs-stretch at piece rest n =
    let eight : suc n * 8 ≡ suc (n * 8 + 7) = omega arith in
    let place : at + length (bit_list piece) + 1 + (n * 8 + 7) ≡ at + length piece * 8 + suc n * 8 =
      omega (arith, length-bit_list piece) in
    let clusters : bit_list (piece ++ (full (suc n) ++ rest))
        ≡ bit_list piece ++ (true ∷ (replicate (n * 8 + 7) true ++ bit_list rest)) =
      bit_list-append piece (full (suc n) ++ rest)
      ∙ ap (λ later. bit_list piece ++ later)
          (bit_list-append (full (suc n)) rest
            ∙ ap (λ used. used ++ bit_list rest)
                (bit_list-full (suc n) ∙ ap (λ k. replicate k true) eight)) in
    let later = runs-used (at + length (bit_list piece) + 1) (n * 8 + 7) (bit_list rest) in
    ap (runs at none) clusters
    ∙ runs-split at none (bit_list piece) (replicate (n * 8 + 7) true ++ bit_list rest)
    ∙ rw (later, place) refl

runs_after_lem :
    (before bytes : List ℕ) (at : ℕ) (spans : List ClusterSpan)
    → AreBytes bytes
    → at ≡ length before
    → Cuts at bytes spans
    → runs_after (before ++ bytes) at spans ≡ runs (at * 8) none (bit_list bytes)
unfolding runs_after
runs_after_lem before bytes at [] h e done =
    let all : length (before ++ bytes) ≡ length before + length bytes =
      length-append before bytes in
    let whole = runs_between_lem before bytes [] h in
    rw (e, all)
      (subst
        (λ b.
          runs_between (before ++ b) (length before) (length before + length bytes)
          ≡ runs (length before * 8) none (bit_list bytes))
        (append_nil bytes) whole)
runs_after_lem before bytes at (s ∷ spans) h e (cut piece n rest s' b f g c) =
    let are : AreBytes (piece ++ (full (suc n) ++ rest)) = subst AreBytes b h in
    let (first, others) = All-append (λ b. b < 256) piece (full (suc n) ++ rest) are in
    let (_, last) = All-append (λ b. b < 256) (full (suc n)) rest others in
    let front : s'.start ≡ length before + length piece = omega (arith, e, f) in
    let back : s'.past ≡ length (before ++ (piece ++ full (suc n))) = omega (
      arith,
      e,
      f,
      g,
      length-append before (piece ++ full (suc n)),
      length-append piece (full (suc n)),
      length-replicate {A = ℕ} (suc n) 255,
    ) in
    let ih = runs_after_lem (before ++ (piece ++ full (suc n))) rest s'.past spans last back c in
    let moved : (before ++ (piece ++ full (suc n))) ++ rest
        ≡ before ++ (piece ++ (full (suc n) ++ rest)) =
      append_assoc before (piece ++ full (suc n)) rest
      ∙ ap (λ tail. before ++ tail) (append_assoc piece (full (suc n)) rest) in
    let here = runs_between_lem before piece (full (suc n) ++ rest) first in
    let place : s'.past * 8 ≡ at * 8 + length piece * 8 + suc n * 8 = omega (arith, f, g) in
    parted before bytes piece rest n at s'.start s'.past spans b e front moved place here ih
  where
    parted :
        (before bytes piece rest : List ℕ) (n at start past : ℕ) (spans : List ClusterSpan)
        → bytes ≡ piece ++ (full (suc n) ++ rest)
        → at ≡ length before
        → start ≡ length before + length piece
        → (before ++ (piece ++ full (suc n))) ++ rest ≡ before ++ (piece ++ (full (suc n) ++ rest))
        → past * 8 ≡ at * 8 + length piece * 8 + suc n * 8
        → runs_between
            (before ++ (piece ++ (full (suc n) ++ rest)))
            (length before)
            (length before + length piece)
          ≡ runs (length before * 8) none (bit_list piece)
        → runs_after ((before ++ (piece ++ full (suc n))) ++ rest) past spans
          ≡ runs (past * 8) none (bit_list rest)
        → runs_between (before ++ bytes) at start ++ runs_after (before ++ bytes) past spans
          ≡ runs (at * 8) none (bit_list bytes)
    parted before bytes piece rest n at start past spans b e front moved place here ih =
        rw (b, front, runs-stretch (at * 8) piece rest n, ← place, ← ih, moved, e, here) refl

-- The runs of a window of bytes are those of all its clusters.
pub free_runs_lem :
    (window : List ℕ) → AreBytes window → free_runs window ≡ runs 0 none (bit_list window)
unfolding free_runs used_stretches
free_runs_lem window h = runs_after_lem [] window 0 (used_stretches window) h refl (
    filter-Cuts (λ (s : ClusterSpan). leb 64 (s.past - s.start)) 0 window
      (runs 0 none (flags window)) (flags-Cuts 0 [] 0 window refl))
