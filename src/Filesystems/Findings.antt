-- ===== src/Filesystems/Findings.antt =====
-- The findings of src/lsdsk/domain/filesystem_fill.py, and what the limits call for.
use lsdsk.Prelude.{
  ◌≡◌, ◌↔◌, ◌⊎◌, inl, inr, refl, sym, Bool, true, false, Option, none, some, List, [], ◌∷◌, ◌++◌,
  if◌then◌else◌, Elem, Elem-append, Elem-append_left, Elem-append_right, Bool-cases, arith,
}
use mathlib.Core.Path.{subst}
use mathlib.Core.Option.{some-injective}
use lsdsk.Prelude.Int.{ℤ, leb_ℤ, ◌≤ℤ◌, ◌<ℤ◌}
use lsdsk.Thresholds.{Thresholds}
use lsdsk.Filesystems.{Filesystem, used_percent, inodes_used_percent}
use lsdsk.Findings.{Severity, warning, hint, Finding}
use lsdsk.Filesystems.Fill.{
  FillText, severity_at, found, space_found, inodes_found, space_finding, inode_finding,
  diagnose_one, diagnose_all, diagnose_filesystems,
}

-- What a percentage earns between a hint limit and a warning limit, and at which limit.
pub data Earns (percent hint_limit warning_limit : ℤ) : Severity → ℤ → Type 0 where
  warned : warning_limit ≤ℤ percent → Earns percent hint_limit warning_limit warning warning_limit
  hinted :
      percent <ℤ warning_limit
      → hint_limit ≤ℤ percent
      → Earns percent hint_limit warning_limit hint hint_limit

-- A finding that a read percentage and its limits call for.
abbrev pub IsEarned :
    (ℤ → Severity → ℤ → Finding FillText) → Option ℤ → ℤ → ℤ → Finding FillText → Type 0
IsEarned make percent hint_limit warning_limit f =
    (p : ℤ) × (s : Severity) × (l : ℤ) × (percent ≡ some p)
    × Earns p hint_limit warning_limit s l
    × (f ≡ make p s l)

pub Earns→severity_at :
    (p h w : ℤ) (s : Severity) (l : ℤ) → Earns p h w s l → severity_at (some p) h w ≡ some (s, l)
unfolding severity_at
Earns→severity_at p h w _ _ (warned y) = ground (arith, y)
Earns→severity_at p h w _ _ (hinted n y) = ground (arith, n, y)

data Verdict (p h w : ℤ) : Option (Severity × ℤ) → Type 0 where
  earned : {s : Severity} {l : ℤ} → Earns p h w s l → Verdict p h w (some (s, l))
  missed : Verdict p h w none

severity_at-Verdict : (p h w : ℤ) → Verdict p h w (severity_at (some p) h w)
unfolding severity_at
severity_at-Verdict p h w = elim (Bool-cases (leb_ℤ w p)) [
  | inl y ↦ rw y (earned (warned (ground (arith, y))))
  | inr n ↦ rw n (elim (Bool-cases (leb_ℤ h p)) [
    | inl z ↦ rw z (earned (hinted (ground (arith, n)) (ground (arith, z))))
    | inr k ↦ rw k missed
  ])
]

module _ (make : ℤ → Severity → ℤ → Finding FillText) (h w : ℤ) where
  found_sound :
      (p : ℤ) (v : Option (Severity × ℤ)) (f : Finding FillText)
      → Verdict p h w v
      → Elem f (found make (some p) v)
      → IsEarned make (some p) h w f
  unfolding found
  found_sound p none f v m = elim m [ ]
  found_sound p (some (s, l)) f (earned e) (Elem.here i) = (p, s, l, refl, e, i)
  found_sound p (some (s, l)) f (earned e) (Elem.there m) = elim m [ ]

  found-none :
      (v : Option (Severity × ℤ)) (f : Finding FillText)
      → Elem f (found make none v)
      → IsEarned make none h w f
  unfolding found
  found-none v f m = elim m [ ]

  found_complete :
      (q p : ℤ) (s : Severity) (l : ℤ) (f : Finding FillText)
      → q ≡ p
      → Earns q h w s l
      → f ≡ make q s l
      → Elem f (found make (some p) (severity_at (some p) h w))
  unfolding found
  found_complete q p s l f e r i =
      subst (λ x. Elem f (found make (some x) (severity_at (some x) h w))) e
        (rw (Earns→severity_at q h w s l r) (Elem.here i))

  found_iff :
      (o : Option ℤ) (f : Finding FillText)
      → Elem f (found make o (severity_at o h w)) ↔ IsEarned make o h w f
  found_iff none f = (found-none (severity_at none h w) f, λ (p, s, l, e, r, i). cc)
  found_iff (some p) f = (
    found_sound p (severity_at (some p) h w) f (severity_at-Verdict p h w),
    λ (q, s, l, e, r, i). found_complete q p s l f (sym (some-injective p q e)) r i,
  )

-- What a filesystem that is not read-only calls for: a finding about its space or about its inodes.
abbrev pub IsCalledFor : {F : Type 0} → Thresholds F → Filesystem → Finding FillText → Type 0
IsCalledFor t fs f =
    (fs.read_only ≡ false)
    × (IsEarned (space_found fs) (used_percent fs) t.filesystem_full_hint_percent
          t.filesystem_full_warning_percent f
        ⊎ IsEarned (inodes_found fs) (inodes_used_percent fs) t.inodes_full_hint_percent
            t.inodes_full_warning_percent f)

module _ {F : Type 0} (t : Thresholds F) where
  space_iff :
      (fs : Filesystem) (f : Finding FillText)
      → Elem f (space_finding t fs)
        ↔ IsEarned
            (space_found fs)
            (used_percent fs)
            t.filesystem_full_hint_percent
            t.filesystem_full_warning_percent
            f
  unfolding space_finding
  space_iff fs f = found_iff (space_found fs) _ _ (used_percent fs) f

  inode_iff :
      (fs : Filesystem) (f : Finding FillText)
      → Elem f (inode_finding t fs)
        ↔ IsEarned
            (inodes_found fs)
            (inodes_used_percent fs)
            t.inodes_full_hint_percent
            t.inodes_full_warning_percent
            f
  unfolding inode_finding
  inode_iff fs f = found_iff (inodes_found fs) _ _ (inodes_used_percent fs) f

  guarded :
      (b : Bool) (xs : List (Finding FillText)) (f : Finding FillText)
      → Elem f (if b then [] else xs) ↔ ((b ≡ false) × Elem f xs)
  guarded true xs f = ((λ m. elim m [ ]), λ (e, m). cc)
  guarded false xs f = ((λ m. (refl, m)), λ (e, m). m)

  one_iff :
      (fs : Filesystem) (f : Finding FillText) → Elem f (diagnose_one t fs) ↔ IsCalledFor t fs f
  unfolding diagnose_one
  one_iff fs f =
      let g = guarded fs.read_only (space_finding t fs ++ inode_finding t fs) f in
      (
        (λ m.
            let (w, n) = g.0 m in
            (
              w,
              elim (Elem-append (space_finding t fs) n) [
                | inl a ↦ inl ((space_iff fs f).0 a)
                | inr b ↦ inr ((inode_iff fs f).0 b)
              ],
            )),
        λ (w, e). g.1 (
          w,
          elim e [
            | inl a ↦ Elem-append_left (inode_finding t fs) ((space_iff fs f).1 a)
            | inr b ↦ Elem-append_right (space_finding t fs) ((inode_iff fs f).1 b)
          ],
        ),
      )

  all_sound :
      (filesystems : List Filesystem) (f : Finding FillText)
      → Elem f (diagnose_all t filesystems)
      → (fs : Filesystem) × Elem fs filesystems × IsCalledFor t fs f
  unfolding diagnose_all
  all_sound [] f m = elim m [ ]
  all_sound (fs ∷ filesystems) f m = elim (Elem-append (diagnose_one t fs) m) [
    | inl a ↦ (fs, Elem.here refl, (one_iff fs f).0 a)
    | inr b ↦ let (x, n, c) = all_sound filesystems f b in (x, Elem.there n, c)
  ]

  all_complete :
      (filesystems : List Filesystem) (fs : Filesystem) (f : Finding FillText)
      → Elem fs filesystems
      → IsCalledFor t fs f
      → Elem f (diagnose_all t filesystems)
  unfolding diagnose_all
  all_complete [] fs f m c = elim m [ ]
  all_complete (x ∷ filesystems) fs f (Elem.here e) c =
      Elem-append_left (diagnose_all t filesystems)
        (subst (λ y. Elem f (diagnose_one t y)) e ((one_iff fs f).1 c))
  all_complete (x ∷ filesystems) fs f (Elem.there m) c =
      Elem-append_right (diagnose_one t x) (all_complete filesystems fs f m c)

  -- The findings are exactly those that the filesystems call for which are not read-only: one about the
  -- space, or about the inodes, where the percentage was read and is at the warning limit or above it,
  -- and then a warning, or else at the hint limit or above it, and then a hint, with the limit it met.
  pub diagnose_filesystems_iff :
      (filesystems : List Filesystem) (f : Finding FillText)
      → Elem f (diagnose_filesystems t (some filesystems))
        ↔ ((fs : Filesystem) × Elem fs filesystems × IsCalledFor t fs f)
  unfolding diagnose_filesystems
  diagnose_filesystems_iff filesystems f =
      (all_sound filesystems f, λ (fs, m, c). all_complete filesystems fs f m c)
