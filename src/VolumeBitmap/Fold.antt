-- ===== src/VolumeBitmap/Fold.antt =====
-- The loop of `FreeRunFolder.feed` of src/lsdsk/adapters/hw/windows/volume_layout.py: which lengths it
-- hands to the tally.
use lsdsk.Prelude.{
  ℕ, zero, suc, ◌+◌, ◌-◌, ◌*◌, ◌≤◌, ◌<◌, ◌≡◌, refl, sym, ◌∙◌, Bool, true, false, none, some, List,
  [], ◌∷◌, ◌++◌, length, ◌==◌, arith, if◌then◌else◌,
}
use lsdsk.Prelude.Int.{pos}
use lsdsk.FreeSpace.Tally.{FreeExtentTally, Added, add}
use lsdsk.VolumeBitmap.{runs, Fed, fed, fed_after, settle, fold_spans}
use lsdsk.VolumeBitmap.Runs.{closed, trailing, ending}

pub fed_after_cong :
    (a : Added) (f g : FreeExtentTally → Fed)
    → ((t : FreeExtentTally) → f t ≡ g t)
    → fed_after a f ≡ fed_after a g
fed_after_cong (Added.added t) f g h = h t
fed_after_cong Added.cap_error f g h = refl
fed_after_cong Added.total_error f g h = refl

-- Runs of the given lengths, handed to the tally one after the other.
abbrev pub emit : ℕ → FreeExtentTally → List ℕ → (FreeExtentTally → Fed) → Fed
emit cluster t [] next = next t
emit cluster t (n ∷ ns) next = fed_after (add t (pos (n * cluster))) (λ t'. emit cluster t' ns next)

pub emit_cong :
    (cluster : ℕ) (t : FreeExtentTally) (ns : List ℕ) (f g : FreeExtentTally → Fed)
    → ((t : FreeExtentTally) → f t ≡ g t)
    → emit cluster t ns f ≡ emit cluster t ns g
emit_cong cluster t [] f g h = h t
emit_cong cluster t (n ∷ ns) f g h =
    fed_after_cong (add t (pos (n * cluster))) _ _ (λ t'. emit_cong cluster t' ns f g h)

pub emit-append :
    (cluster : ℕ) (t : FreeExtentTally) (ms ns : List ℕ) (next : FreeExtentTally → Fed)
    → emit cluster t (ms ++ ns) next ≡ emit cluster t ms (λ t'. emit cluster t' ns next)
emit-append cluster t [] ns next = refl
emit-append cluster t (m ∷ ms) ns next =
    fed_after_cong (add t (pos (m * cluster))) _ _ (λ t'. emit-append cluster t' ms ns next)

pub settle_lem :
    (cluster : ℕ) (t : FreeExtentTally) (o c : ℕ)
    → settle cluster t o c
      ≡ emit cluster t
          (ending c)
          (λ t'. fed (record { cluster = cluster; tally = t'; open_run = o }))
unfolding settle
settle_lem cluster t o zero = refl
settle_lem cluster t o (suc c) = let e : (suc c == 0) ≡ false = ground arith in rw e refl

closed-used : (o : ℕ) (used : List Bool) → 0 < o → closed o (true ∷ used) ≡ o ∷ closed 0 used
closed-used zero used h = absurd (omega arith)
closed-used (suc o) used h = refl

-- The span that a walk stands in: its length so far with what it is joined to, and what is left over.
abbrev grown : ℕ → ℕ → ℕ → ℕ → ℕ
grown skip open_run at carried = (at - open_run) + (if open_run == skip then carried else 0)

abbrev left_over : ℕ → ℕ → ℕ → ℕ
left_over skip open_run carried = if open_run == skip then 0 else carried

module _ (cluster nbits skip : ℕ) where
  mutual
    unfolding fold_spans runs

    fold_outside :
        (at : ℕ) (used : List Bool) (t : FreeExtentTally) (c : ℕ)
        → skip < at
        → nbits ≡ at + length used
        → fold_spans cluster nbits skip (runs at none used) t 0 c
          ≡ emit cluster t (closed 0 used) (λ t'. settle cluster t' (trailing 0 used) c)
    fold_outside at [] t c a e = refl
    fold_outside at (true ∷ used) t c a e =
        fold_outside (at + 1) used t c (omega arith) (omega (arith, e))
    fold_outside at (false ∷ used) t c a e =
        let apart : (at == skip) ≡ false = ground (arith, a) in
        let one : (at + 1 - at) + 0 ≡ 1 = omega arith in
        let ih = fold_inside (at + 1) at used t c (omega arith) (omega arith) (omega (arith, e)) in
        ih ∙ rw (apart, one) refl

    fold_inside :
        (at open_run : ℕ) (used : List Bool) (t : FreeExtentTally) (c : ℕ)
        → skip ≤ open_run
        → open_run < at
        → nbits ≡ at + length used
        → fold_spans cluster nbits skip (runs at (some open_run) used) t 0 c
          ≡ emit cluster t (closed (grown skip open_run at c) used) (λ t'.
            settle cluster t'
              (trailing (grown skip open_run at c) used)
              (left_over skip open_run c))
    fold_inside at o [] t c a b e =
        let whole : (at == nbits) ≡ true = ground (arith, e) in rw whole refl
    fold_inside at o (false ∷ used) t c a b e =
        let more : grown skip o (at + 1) c ≡ suc (grown skip o at c) = omega (arith, b) in
        fold_inside (at + 1) o used t c a (omega arith) (omega (arith, e)) ∙ rw more refl
    fold_inside at o (true ∷ used) t c a b e =
        let inner : (at == nbits) ≡ false = ground (arith, e) in
        let long : 0 < grown skip o at c = omega (arith, b) in
        rw (inner, closed-used (grown skip o at c) used long)
          (fed_after_cong (add t (pos (grown skip o at c * cluster))) _ _ (λ t'.
            fold_outside (at + 1) used t' (left_over skip o c) (omega arith) (omega (arith, e))))

-- The order in which a chunk's closed runs reach the tally: a carried run that ends at the chunk's first
-- cluster comes last.
abbrev pub chunk_order : ℕ → List Bool → List ℕ
chunk_order c [] = []
chunk_order c (true ∷ used) = closed 0 used ++ ending c
chunk_order c (false ∷ used) = closed (suc c) used

pub chunk_fold :
    (cluster nbits skip c : ℕ) (used : List Bool) (t : FreeExtentTally)
    → 0 < length used
    → nbits ≡ skip + length used
    → fold_spans cluster nbits skip (runs skip none used) t 0 c
      ≡ emit cluster t
          (chunk_order c used)
          (λ t'. fed (record { cluster = cluster; tally = t'; open_run = trailing c used }))
unfolding runs
chunk_fold cluster nbits skip c [] t h e = absurd (omega (arith, h))
chunk_fold cluster nbits skip c (true ∷ used) t h e =
    fold_outside cluster nbits skip (skip + 1) used t c (omega arith) (omega (arith, e))
    ∙ emit_cong cluster t (closed 0 used) _ _ (λ t'. settle_lem cluster t' (trailing 0 used) c)
    ∙ sym (emit-append cluster t (closed 0 used) (ending c) _)
chunk_fold cluster nbits skip c (false ∷ used) t h e =
    let joined : grown skip skip (skip + 1) c ≡ suc c = ground arith in
    let none_left : left_over skip skip c ≡ 0 = ground arith in
    fold_inside cluster nbits skip (skip + 1) skip used t c (omega arith) (omega arith)
      (omega (arith, e))
    ∙ rw (joined, none_left)
        (emit_cong cluster t (closed (suc c) used) _ _
          (λ t'. settle_lem cluster t' (trailing (suc c) used) 0))
