-- ===== src/VolumeBitmap/Runs.antt =====
-- The runs of a list of clusters, which `feed` of src/lsdsk/adapters/hw/windows/volume_layout.py folds.
use lsdsk.Prelude.{
  ℕ, zero, suc, ◌+◌, ◌≡◌, refl, ap, Bool, true, false, Option, none, some, List, [], ◌∷◌, ◌++◌,
  length, replicate, arith,
}
use lsdsk.VolumeBitmap.{runs}

-- The lengths of the runs of free clusters that end at a used one, the first of them longer by `o`
-- free clusters that stood before, and how many free clusters stand at the end.
abbrev pub closed : ℕ → List Bool → List ℕ
closed o [] = []
closed o (false ∷ used) = closed (suc o) used
closed zero (true ∷ used) = closed 0 used
closed (suc o) (true ∷ used) = suc o ∷ closed 0 used

abbrev pub trailing : ℕ → List Bool → ℕ
trailing o [] = o
trailing o (false ∷ used) = trailing (suc o) used
trailing o (true ∷ used) = trailing 0 used

abbrev pub ending : ℕ → List ℕ
ending zero = []
ending (suc n) = suc n ∷ []

-- The lengths of the free runs of a whole bitmap.
abbrev pub run_lengths : List Bool → List ℕ
run_lengths used = closed 0 used ++ ending (trailing 0 used)

pub closed-append :
    (o : ℕ) (us vs : List Bool) → closed o (us ++ vs) ≡ closed o us ++ closed (trailing o us) vs
closed-append o [] vs = refl
closed-append o (false ∷ us) vs = closed-append (suc o) us vs
closed-append zero (true ∷ us) vs = closed-append 0 us vs
closed-append (suc o) (true ∷ us) vs = ap (◌∷◌ (suc o)) (closed-append 0 us vs)

pub trailing-append :
    (o : ℕ) (us vs : List Bool) → trailing o (us ++ vs) ≡ trailing (trailing o us) vs
trailing-append o [] vs = refl
trailing-append o (false ∷ us) vs = trailing-append (suc o) us vs
trailing-append o (true ∷ us) vs = trailing-append 0 us vs

-- Used clusters before the first run move it up.
pub runs-used :
    (at k : ℕ) (used : List Bool)
    → runs at none (replicate k true ++ used) ≡ runs (at + k) none used
unfolding runs
runs-used at zero used = let e : at + 0 ≡ at = omega arith in rw e refl
runs-used at (suc k) used =
    let e : at + suc k ≡ at + 1 + k = omega arith in rw e (runs-used (at + 1) k used)

all_used : (at k : ℕ) → runs at none (replicate k true) ≡ []
unfolding runs
all_used at zero = refl
all_used at (suc k) = all_used (at + 1) k

-- Used clusters at the end change no run.
pub runs-used_end :
    (at k : ℕ) (o : Option ℕ) (used : List Bool)
    → runs at o (used ++ replicate k true) ≡ runs at o used
unfolding runs
runs-used_end at k none [] = all_used at k
runs-used_end at zero (some o) [] = refl
runs-used_end at (suc k) (some o) [] = rw (all_used (at + 1) k) refl
runs-used_end at k none (true ∷ used) = runs-used_end (at + 1) k none used
runs-used_end at k none (false ∷ used) = runs-used_end (at + 1) k (some at) used
runs-used_end at k (some o) (true ∷ used) = rw (runs-used_end (at + 1) k none used) refl
runs-used_end at k (some o) (false ∷ used) = runs-used_end (at + 1) k (some o) used

-- A used cluster parts the runs.
pub runs-split :
    (at : ℕ) (o : Option ℕ) (us vs : List Bool)
    → runs at o (us ++ (true ∷ vs)) ≡ runs at o us ++ runs (at + length us + 1) none vs
unfolding runs
runs-split at none [] vs = let e : at + 0 + 1 ≡ at + 1 = omega arith in rw e refl
runs-split at (some o) [] vs = let e : at + 0 + 1 ≡ at + 1 = omega arith in rw e refl
runs-split at none (true ∷ us) vs =
    let e : at + suc (length us) + 1 ≡ at + 1 + length us + 1 = omega arith in
    rw e (runs-split (at + 1) none us vs)
runs-split at none (false ∷ us) vs =
    let e : at + suc (length us) + 1 ≡ at + 1 + length us + 1 = omega arith in
    rw e (runs-split (at + 1) (some at) us vs)
runs-split at (some o) (true ∷ us) vs =
    let e : at + suc (length us) + 1 ≡ at + 1 + length us + 1 = omega arith in
    rw (e, runs-split (at + 1) none us vs) refl
runs-split at (some o) (false ∷ us) vs =
    let e : at + suc (length us) + 1 ≡ at + 1 + length us + 1 = omega arith in
    rw e (runs-split (at + 1) (some o) us vs)
