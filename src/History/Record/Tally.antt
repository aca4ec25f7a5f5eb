-- ===== src/History/Record/Tally.antt =====
-- For `record` of src/lsdsk/domain/history.py: how often an identity is carried within one reading, and the series last stored under one.
use lsdsk.Prelude.{
  ℕ, ◌+◌, ◌≡◌, refl, String, Bool, false, Option, none, some, List, [], ◌∷◌, arith, ltb,
  if◌then◌else◌, ap, ◌∙◌,
}
use lsdsk.Prelude.Dict.{lookup, insert, lookup-insert, text_key}
use text.Mathlib.Text.{◌==◌}
use text.Mathlib.TextEquality.{eq_iff}
use lsdsk.History.Types.{DiskSeries, Disk, identity_of}
use lsdsk.History.Record.{or_zero, count_one, tally, is_colliding, by_identity}

abbrev pub carries : Option String → String → Bool
carries none identity = false
carries (some j) identity = j == identity

-- How many drives carry the identity.
abbrev pub carriers : List Disk → String → ℕ
carriers [] identity = 0
carriers (disk ∷ disks) identity =
    (if carries (identity_of disk) identity then 1 else 0) + carriers disks identity

count_one_lem :
    (seen : List (String × ℕ)) (o : Option String) (i : String)
    → or_zero (lookup text_key i (count_one seen o))
      ≡ or_zero (lookup text_key i seen) + (if carries o i then 1 else 0)
unfolding count_one or_zero
count_one_lem seen none i = omega arith
count_one_lem seen (some j) i =
    ground
      (arith, lookup-insert text_key j i (or_zero (lookup text_key j seen) + 1) seen, eq_iff j i)

tally_lem :
    (seen : List (String × ℕ)) (disks : List Disk) (i : String)
    → or_zero (lookup text_key i (tally seen disks))
      ≡ or_zero (lookup text_key i seen) + carriers disks i
unfolding tally
tally_lem seen [] i = omega arith
tally_lem seen (disk ∷ disks) i = omega (
  arith,
  tally_lem (count_one seen (identity_of disk)) disks i,
  count_one_lem seen (identity_of disk) i,
)

-- An identity collides where two drives or more carry it.
pub is_colliding_lem :
    (disks : List Disk) (i : String) → is_colliding disks i ≡ ltb 1 (carriers disks i)
unfolding is_colliding lookup or_zero
is_colliding_lem disks i = ap (ltb 1) (tally_lem [] disks i ∙ omega arith)

abbrev pub prefer : Option DiskSeries → Option DiskSeries → Option DiskSeries
prefer none old = old
prefer (some new) old = some new

-- The last series under the identity.
abbrev pub last_under : List DiskSeries → String → Option DiskSeries
last_under [] identity = none
last_under (s ∷ series) identity =
    prefer (last_under series identity) (if s.identity == identity then some s else none)

pub by_identity_lem :
    (existing : List (String × DiskSeries)) (series : List DiskSeries) (i : String)
    → lookup text_key i (by_identity existing series)
      ≡ prefer (last_under series i) (lookup text_key i existing)
unfolding by_identity
by_identity_lem existing [] i = refl
by_identity_lem existing (s ∷ series) i = ground (
  arith,
  by_identity_lem (insert text_key s.identity s existing) series i,
  lookup-insert text_key s.identity i s existing,
)
