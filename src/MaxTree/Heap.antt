-- ===== src/MaxTree/Heap.antt =====
-- The array of the max tree of src/lsdsk/domain/diagnostics.py: what building it and taking a leaf out
-- leave in it.
use lsdsk.Prelude.{
  ℕ, zero, suc, ◌+◌, ◌*◌, ◌/◌, ◌≤◌, ◌<◌, ◌≡◌, ◌≢◌, refl, sym, ◌∙◌, inl, inr, ltb, ◌==◌, arith,
  Bool-cases,
}
use lsdsk.Thresholds.{Floats}
use lsdsk.MaxTree.{put, better, refit, refit_down, climb}

module _ {F : Type 0} where
  pub put-at : (best : ℕ → F) (at j : ℕ) (v : F) → j ≡ at → put best at v j ≡ v
  put-at best at j v e = ground (arith, e)

  pub put-other : (best : ℕ → F) (at j : ℕ) (v : F) → j ≢ at → put best at v j ≡ best j
  put-other best at j v n = ground (arith, n)

module _ {F : Type 0} (floats : Floats F) where
  -- A node is the better of its children.
  abbrev pub Fits : (ℕ → F) → ℕ → Type 0
  Fits best m = best m ≡ better floats (best (2 * m)) (best (2 * m + 1))

  refit-Fits : (best : ℕ → F) (m : ℕ) → 1 ≤ m → Fits (refit floats best m) m
  refit-Fits best m h =
      put-at best m m _ refl
      ∙ sym (
          rw
            (
              put-other best m (2 * m) (better floats (best (2 * m)) (best (2 * m + 1)))
                  (λ e. omega (arith, e)),
              put-other best m (2 * m + 1) (better floats (best (2 * m)) (best (2 * m + 1)))
                  (λ e. omega (arith, e)),
            )
            refl)

  -- Computing one node over leaves the others as they were, but for its own parent.
  refit-keeps :
      (best : ℕ → F) (k m : ℕ)
      → m ≢ k
      → 2 * m ≢ k
      → 2 * m + 1 ≢ k
      → Fits best m
      → Fits (refit floats best k) m
  refit-keeps best k m a b c h =
      put-other best k m _ a
      ∙ h
      ∙ sym (
          rw
            (
              put-other best k (2 * m) (better floats (best (2 * k)) (best (2 * k + 1))) b,
              put-other best k (2 * m + 1) (better floats (best (2 * k)) (best (2 * k + 1))) c,
            )
            refl)

  pub refit_down-above : (best : ℕ → F) (k j : ℕ) → k < j → refit_down floats best k j ≡ best j
  unfolding refit_down
  refit_down-above best zero j h = refl
  refit_down-above best (suc k) j h =
      refit_down-above (refit floats best (suc k)) k j (omega arith)
      ∙ put-other best (suc k) j _ (λ e. omega (arith, e, h))

  -- Computed from the last inner node down, every one of them fits.
  pub refit_down-Fits : (best : ℕ → F) (k m : ℕ) → 1 ≤ m → m ≤ k → Fits (refit_down floats best k) m
  unfolding refit_down
  refit_down-Fits best zero m h le = absurd (omega arith)
  refit_down-Fits best (suc k) m h le = elim (Bool-cases (m == suc k)) [
    | inr f ↦ refit_down-Fits (refit floats best (suc k)) k m h (ground arith)
    | inl t ↦
        let e : m ≡ suc k = ground arith in
        let above = refit_down-above (refit floats best (suc k)) k in
        rw
          (
            e,
            above (suc k) (omega arith),
            above (2 * suc k) (omega arith),
            above (2 * suc k + 1) (omega arith),
          )
          (refit-Fits best (suc k) (omega arith))
  ]

  -- The walk from a leaf to the root: with one parent to repair, none is left.
  pub climb-Fits :
      (fuel : ℕ) (best : ℕ → F) (node leaves m : ℕ)
      → node ≤ fuel
      → node < 2 * leaves
      → ((k : ℕ) → 1 ≤ k → k < leaves → k ≢ node / 2 → Fits best k)
      → 1 ≤ m
      → m < leaves
      → Fits (climb floats fuel best node) m
  unfolding climb
  climb-Fits zero best node leaves m enough inside others pos below =
      others m pos below (λ e. omega (arith, e))
  climb-Fits (suc fuel) best node leaves m enough inside others pos below =
      elim (Bool-cases (ltb 1 node)) [
        | inr f ↦ rw f (others m pos below (λ e. ground (arith, e, f)))
        | inl t ↦ rw t (
            climb-Fits fuel (refit floats best (node / 2)) (node / 2) leaves m (ground (arith, t))
              (omega arith)
              (λ k p b n. elim (Bool-cases (k == node / 2)) [
                | inl same ↦
                    let e : k ≡ node / 2 = ground (arith, same) in
                    rw e (refit-Fits best (node / 2) (ground (arith, t)))
                | inr other ↦
                    refit-keeps best (node / 2) k (λ e. ground (arith, e, other))
                      (λ e. n (omega (arith, e))) (λ e. n (omega (arith, e)))
                      (others k p b (λ e. ground (arith, e, other)))
              ])
              pos below)
      ]

  -- It writes no leaf.
  pub climb-leaf :
      (fuel : ℕ) (best : ℕ → F) (node leaves j : ℕ)
      → node < 2 * leaves
      → leaves ≤ j
      → climb floats fuel best node j ≡ best j
  unfolding climb
  climb-leaf zero best node leaves j inside h = refl
  climb-leaf (suc fuel) best node leaves j inside h = elim (Bool-cases (ltb 1 node)) [
    | inr f ↦ rw f refl
    | inl t ↦ rw t (
        climb-leaf fuel (refit floats best (node / 2)) (node / 2) leaves j (omega arith) h
        ∙ put-other best (node / 2) j _ (λ e. omega (arith, e, inside, h)))
  ]
