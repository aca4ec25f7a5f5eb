-- ===== src/VolumeBitmap/Feed.antt =====
-- A bitmap that `FreeRunFolder` of src/lsdsk/adapters/hw/windows/volume_layout.py is fed chunk by chunk,
-- against the runs of the whole bitmap.
use mathlib.Core.List.{Permᴰ}
use mathlib.Core.List.Permᴰ
use lsdsk.Prelude.{
  ℕ, zero, suc, ◌+◌, ◌-◌, ◌*◌, ◌<◌, ◌≡◌, refl, sym, ◌∙◌, ap, Bool, true, false, none, List, [], ◌∷◌,
  ◌++◌, map, replicate, leb, arith, Bool-cases, inl, inr, All,
}
use lsdsk.Prelude.Int.{pos}
use lsdsk.FreeSpace.Tally.{FreeExtentTally, Added, add, add_all}
use lsdsk.VolumeBitmap.{
  runs, size_of, window_of, free_runs, FreeRunFolder, Fed, fed, cap_refused, total_refused,
  fed_after, feed, finish,
}
use lsdsk.VolumeBitmap.Runs.{
  closed, trailing, ending, run_lengths, closed-append, trailing-append, runs-used, runs-used_end,
}
use lsdsk.VolumeBitmap.Fold.{
  fed_after_cong, emit, emit_cong, emit-append, settle_lem, chunk_order, chunk_fold,
}
use lsdsk.VolumeBitmap.Bytes.{AreBytes, append_assoc}
use lsdsk.VolumeBitmap.Stretches.{free_runs_lem}
use lsdsk.VolumeBitmap.Window.{clusters, length-clusters, window_of_lem}

-- One call of `feed`.
pub record Chunk : Type 0 where
  pub bytes : List ℕ
  pub nbits : ℕ
  pub skip : ℕ

abbrev pub fed_then : Fed → (FreeRunFolder → Fed) → Fed
fed_then (fed folder) next = next folder
fed_then cap_refused next = cap_refused
fed_then total_refused next = total_refused

abbrev pub feed_all : FreeRunFolder → List Chunk → Fed
feed_all folder [] = fed folder
feed_all folder (c ∷ chunks) =
    fed_then (feed folder c.bytes c.nbits c.skip) (λ f. feed_all f chunks)

-- The whole of a volume: every chunk, and then `finish`.
abbrev pub fold_volume : FreeRunFolder → List Chunk → Fed
fold_volume folder chunks = fed_then (feed_all folder chunks) finish

abbrev pub all_clusters : List Chunk → List Bool
all_clusters [] = []
all_clusters (c ∷ chunks) = clusters c.bytes c.nbits c.skip ++ all_clusters chunks

-- The runs of a window are those of the clusters that the chunk brings.
window_runs :
    (chunk : List ℕ) (nbits skip : ℕ)
    → skip < nbits
    → AreBytes chunk
    → free_runs (window_of chunk nbits skip) ≡ runs skip none (clusters chunk nbits skip)
window_runs chunk nbits skip h are =
    let (bs, fine) = window_of_lem chunk nbits skip h are in
    let used = clusters chunk nbits skip in
    let tail = replicate (size_of nbits * 8 - nbits) true in
    let start : 0 + skip ≡ skip = omega arith in
    free_runs_lem (window_of chunk nbits skip) fine
    ∙ ap (runs 0 none) bs
    ∙ runs-used 0 skip (used ++ tail)
    ∙ ap (λ at. runs at none (used ++ tail)) start
    ∙ runs-used_end skip (size_of nbits * 8 - nbits) none used

feed_lem :
    (folder : FreeRunFolder) (chunk : List ℕ) (nbits skip : ℕ)
    → AreBytes chunk
    → feed folder chunk nbits skip
      ≡ emit folder.cluster folder.tally
          (chunk_order folder.open_run (clusters chunk nbits skip))
          (λ t. fed (record {
            cluster = folder.cluster;
            tally = t;
            open_run = trailing folder.open_run (clusters chunk nbits skip);
          }))
unfolding feed
feed_lem folder chunk nbits skip are = elim (Bool-cases (leb nbits skip)) [
  | inl t ↦ let e : nbits - skip ≡ 0 = ground (arith, t) in rw (t, e) refl
  | inr f ↦
      let h : skip < nbits = ground (arith, f) in
      rw (f, window_runs chunk nbits skip h are)
        (chunk_fold folder.cluster nbits skip folder.open_run (clusters chunk nbits skip)
          folder.tally (omega (arith, h, length-clusters chunk nbits skip))
          (omega (arith, h, length-clusters chunk nbits skip)))
]

fed_then-fed_after :
    (a : Added) (next : FreeExtentTally → Fed) (last : FreeRunFolder → Fed)
    → fed_then (fed_after a next) last ≡ fed_after a (λ t. fed_then (next t) last)
fed_then-fed_after (Added.added t) next last = refl
fed_then-fed_after Added.cap_error next last = refl
fed_then-fed_after Added.total_error next last = refl

fed_then-emit :
    (cluster : ℕ) (t : FreeExtentTally) (ns : List ℕ) (next : FreeExtentTally → Fed)
    (last : FreeRunFolder → Fed)
    → fed_then (emit cluster t ns next) last ≡ emit cluster t ns (λ t'. fed_then (next t') last)
fed_then-emit cluster t [] next last = refl
fed_then-emit cluster t (n ∷ ns) next last =
    fed_then-fed_after (add t (pos (n * cluster))) _ last
    ∙ fed_after_cong (add t (pos (n * cluster))) _ _ (λ t'. fed_then-emit cluster t' ns next last)

-- The order in which the runs of a volume reach the tally.
volume_order : ℕ → List Chunk → List ℕ
volume_order o [] = ending o
volume_order o (c ∷ chunks) =
    let used = clusters c.bytes c.nbits c.skip in
    chunk_order o used ++ volume_order (trailing o used) chunks

abbrev ChunksAreBytes : List Chunk → Type 0
ChunksAreBytes chunks = All (λ (c : Chunk). AreBytes c.bytes) chunks

abbrev finished : ℕ → FreeExtentTally → Fed
finished cluster t = fed (record { cluster = cluster; tally = t; open_run = 0 })

fold_volume-emit :
    (cluster o : ℕ) (t : FreeExtentTally) (chunks : List Chunk)
    → ChunksAreBytes chunks
    → fold_volume (record { cluster = cluster; tally = t; open_run = o }) chunks
      ≡ emit cluster t (volume_order o chunks) (finished cluster)
unfolding finish volume_order
fold_volume-emit cluster o t [] are = settle_lem cluster t 0 o
fold_volume-emit cluster o t (c ∷ chunks) are =
    let folder : FreeRunFolder = record { cluster = cluster; tally = t; open_run = o } in
    let used = clusters c.bytes c.nbits c.skip in
    let rest = λ (f : FreeRunFolder). feed_all f chunks in
    ap (λ fed_one. fed_then (fed_then fed_one rest) finish)
      (feed_lem folder c.bytes c.nbits c.skip are.0)
    ∙ ap (λ all. fed_then all finish) (fed_then-emit cluster t (chunk_order o used) _ rest)
    ∙ fed_then-emit cluster t (chunk_order o used) _ finish
    ∙ emit_cong cluster t (chunk_order o used) _ _
        (λ t'. fold_volume-emit cluster (trailing o used) t' chunks are.1)
    ∙ sym (
        emit-append cluster t (chunk_order o used) (volume_order (trailing o used) chunks)
          (finished cluster))

chunk_order-perm : (o : ℕ) (used : List Bool) → Permᴰ (chunk_order o used) (closed o used)
chunk_order-perm o [] = Permᴰ.refl []
chunk_order-perm o (false ∷ used) = Permᴰ.refl (closed (suc o) used)
chunk_order-perm zero (true ∷ used) = Permᴰ.append-nil (closed 0 used)
chunk_order-perm (suc o) (true ∷ used) = Permᴰ.append_comm (closed 0 used) (suc o ∷ [])

volume_order-perm :
    (o : ℕ) (chunks : List Chunk)
    → Permᴰ
        (volume_order o chunks)
        (closed o (all_clusters chunks) ++ ending (trailing o (all_clusters chunks)))
unfolding volume_order
volume_order-perm o [] = Permᴰ.refl (ending o)
volume_order-perm o (c ∷ chunks) =
    let used = clusters c.bytes c.nbits c.skip in
    let later = all_clusters chunks in
    let o' = trailing o used in
    rw
      (
        closed-append o used later,
        trailing-append o used later,
        append_assoc (closed o used) (closed o' later) (ending (trailing o' later)),
      )
      (Permᴰ.trans (Permᴰ.append_right (volume_order o' chunks) (chunk_order-perm o used))
        (Permᴰ.append_left (closed o used) (volume_order-perm o' chunks)))

-- What the tally makes of a list of extents, as the folder that is left.
abbrev pub to_fed : ℕ → Added → Fed
to_fed cluster (Added.added t) = fed (record { cluster = cluster; tally = t; open_run = 0 })
to_fed cluster Added.cap_error = cap_refused
to_fed cluster Added.total_error = total_refused

emit-add_all :
    (cluster : ℕ) (t : FreeExtentTally) (ns : List ℕ)
    → emit cluster t ns (finished cluster)
      ≡ to_fed cluster (add_all t (map (λ n. pos (n * cluster)) ns))
unfolding add_all
emit-add_all cluster t [] = refl
emit-add_all cluster t (n ∷ ns) =
    fed_after_cong (add t (pos (n * cluster))) _ _ (λ t'. emit-add_all cluster t' ns)
    ∙ joined (add t (pos (n * cluster)))
  where
    joined :
        (a : Added)
        → fed_after a (λ t'. to_fed cluster (add_all t' (map (λ n. pos (n * cluster)) ns)))
          ≡ to_fed cluster (elim a [
            | Added.added t' ↦ add_all t' (map (λ n. pos (n * cluster)) ns)
            | Added.cap_error ↦ Added.cap_error
            | Added.total_error ↦ Added.total_error
          ])
    joined (Added.added t') = refl
    joined Added.cap_error = refl
    joined Added.total_error = refl

-- However a bitmap of bytes is cut into chunks, feeding them and then finishing does to the tally what
-- adding the free runs of the whole bitmap does, in some order, each as long as its clusters: no run is
-- lost, split at the end of a chunk or made longer by a bit outside the clusters. An error is the
-- tally's.
pub fold_volume_lem :
    (cluster : ℕ) (t : FreeExtentTally) (chunks : List Chunk)
    → All (λ (c : Chunk). AreBytes c.bytes) chunks
    → (order : List ℕ) × Permᴰ order (run_lengths (all_clusters chunks))
      × (fold_volume (record { cluster = cluster; tally = t; open_run = 0 }) chunks
          ≡ to_fed cluster (add_all t (map (λ n. pos (n * cluster)) order)))
fold_volume_lem cluster t chunks are =
    let order = volume_order 0 chunks in
    (
      order,
      volume_order-perm 0 chunks,
      fold_volume-emit cluster 0 t chunks are ∙ emit-add_all cluster t order,
    )
