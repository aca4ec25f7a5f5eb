-- ===== src/Filesystems/Percent.antt =====
-- The percentages of src/lsdsk/domain/models.py against the rounding that they name.
use lsdsk.Prelude.{
  ℕ, zero, suc, ◌+◌, ◌*◌, ◌/◌, ◌-◌, ◌≤◌, ◌<◌, ◌≡◌, refl, some, ◌==◌, false, Bool-cases, inl, inr,
  arith,
}
use native.Mathlib.Nat.{div-mul-le_self, lt-div-mul-add, zero-div}
use lsdsk.Prelude.Int.{pos, negsuc, ◌-ℤ◌}
use lsdsk.Filesystems.{
  FilesystemKind, mount, pool, volume, Filesystem, floor_div, negate, hundredfold, ceil_percent,
  floor_percent, percent_for, used_of, used_percent, inode_table, fixed, inodes_of,
  inodes_used_percent,
}

-- A percentage of a part that is rounded up, or down.
abbrev pub IsCeiling : ℕ → ℕ → ℕ → Type 0
IsCeiling p part whole = (100 * part ≤ p * whole) × (p * whole < 100 * part + whole)

abbrev pub IsFloor : ℕ → ℕ → ℕ → Type 0
IsFloor p part whole = (p * whole ≤ 100 * part) × (100 * part < p * whole + whole)

not_zero : (n : ℕ) → 1 ≤ n → (n == 0) ≡ false
not_zero n h = ground arith

pub floor_percent_lem :
    (part whole : ℕ)
    → 1 ≤ whole
    → (p : ℕ) × (floor_percent (pos part) whole ≡ some (pos p)) × IsFloor p part whole
unfolding floor_percent floor_div hundredfold
floor_percent_lem part whole h =
    rw (not_zero whole h)
      (100 * part / whole, refl, (div-mul-le_self (100 * part) whole, lt-div-mul-add h))

negate_pos : (m : ℕ) → 1 ≤ m → negate (pos m) ≡ negsuc (m - 1)
unfolding negate
negate_pos zero h = ground (arith, h)
negate_pos (suc n) h = ground arith

ceil_percent_zero : (whole : ℕ) → some (negate (floor_div (negate (pos 0)) whole)) ≡ some (pos 0)
unfolding floor_div negate
ceil_percent_zero whole = rw (zero-div whole) refl

ceil_percent_pos :
    (m whole : ℕ) → 1 ≤ m → negate (floor_div (negate (pos m)) whole) ≡ pos (suc ((m - 1) / whole))
unfolding floor_div negate
ceil_percent_pos m whole h = rw (negate_pos m h) refl

pub ceil_percent_lem :
    (part whole : ℕ)
    → 1 ≤ whole
    → (p : ℕ) × (ceil_percent (pos part) whole ≡ some (pos p)) × IsCeiling p part whole
unfolding ceil_percent hundredfold
ceil_percent_lem part whole h = elim (Bool-cases (part == 0)) [
  | inl z ↦
      let e : part ≡ 0 = ground (arith, z) in
      rw (not_zero whole h, e) (0, ceil_percent_zero whole, omega arith)
  | inr n ↦
      let m = 100 * part - 1 in
      rw (not_zero whole h, ceil_percent_pos (100 * part) whole (ground (arith, n)))
        (
          suc (m / whole),
          refl,
          ground (arith, n, div-mul-le_self m whole, lt-div-mul-add {a = m} h),
        )
]

-- A pool's percentage is rounded down, a mount's and a volume's are rounded up.
abbrev pub IsRounded : FilesystemKind → ℕ → ℕ → ℕ → Type 0
IsRounded pool = IsFloor
IsRounded mount = IsCeiling
IsRounded volume = IsCeiling

at_most : (p part whole : ℕ) → part ≤ whole → p * whole < 100 * part + whole → p ≤ 100
at_most p part whole h k = grind arith

percent_for_lem :
    (kind : FilesystemKind) (used free : ℕ)
    → 1 ≤ used + free
    → (p : ℕ) × (percent_for kind (pos used) (used + free) ≡ some (pos p))
      × (p ≤ 100)
      × IsRounded kind p used (used + free)
unfolding percent_for
percent_for_lem mount used free h =
    let (p, e, r) = ceil_percent_lem used (used + free) h in
    (p, e, at_most p used (used + free) (omega arith) r.1, r)
percent_for_lem volume used free h =
    let (p, e, r) = ceil_percent_lem used (used + free) h in
    (p, e, at_most p used (used + free) (omega arith) r.1, r)
percent_for_lem pool used free h =
    let (p, e, r) = floor_percent_lem used (used + free) h in
    (p, e, at_most p used (used + free) (omega arith) (omega arith), r)

-- A filesystem whose used and free bytes were read, not both 0, has a percentage from 0 to 100: for a
-- mount or a volume the part used rounded up, for a pool rounded down.
pub used_percent_lem :
    (fs : Filesystem) (used free : ℕ)
    → fs.used_bytes ≡ some used
    → fs.free_bytes ≡ some free
    → 1 ≤ used + free
    → (p : ℕ) × (used_percent fs ≡ some (pos p))
      × (p ≤ 100)
      × IsRounded fs.kind p used (used + free)
unfolding used_percent used_of
used_percent_lem fs used free u f h = rw (u, f) (percent_for_lem fs.kind used free h)

pos-ℤ : (a b : ℕ) → b ≤ a → pos a -ℤ pos b ≡ pos (a - b)
unfolding ◌-ℤ◌
pos-ℤ a b h = ground (arith, h)

-- The inodes of a fixed table of one or more, no more of them free than there are, have a percentage
-- from 0 to 100, the part in use rounded up.
pub inodes_used_percent_lem :
    (fs : Filesystem) (total free : ℕ)
    → inode_table fs ≡ fixed
    → fs.inodes_total ≡ some total
    → fs.inodes_free ≡ some free
    → 1 ≤ total
    → free ≤ total
    → (p : ℕ) × (inodes_used_percent fs ≡ some (pos p))
      × (p ≤ 100)
      × IsCeiling p (total - free) total
unfolding inodes_used_percent inodes_of
inodes_used_percent_lem fs total free x t f h le =
    let (p, e, r) = ceil_percent_lem (total - free) total h in
    rw (x, t, f, pos-ℤ total free le) (p, e, at_most p (total - free) total (omega arith) r.1, r)
