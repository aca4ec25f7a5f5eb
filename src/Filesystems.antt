-- ===== src/Filesystems.antt =====
-- src/lsdsk/domain/models.py: a filesystem and the percentages computed from what was read of it.
pub mod Percent
pub mod Fill
pub mod Findings
pub mod Tests
use lsdsk.Prelude.{
  ℕ, zero, suc, ◌+◌, ◌*◌, ◌/◌, String, Bool, true, false, Option, none, some, List, [], ◌∷◌, any,
  ◌==◌, if◌then◌else◌,
}
use lsdsk.Prelude.Int.{ℤ, pos, negsuc, ◌-ℤ◌}
use text.Mathlib.Text.{◌==◌ as ◌==ₛ◌}

pub data FilesystemKind : Type 0 where
  mount pool volume : FilesystemKind

pub data InodeTable : Type 0 where
  fixed dynamic : InodeTable

-- The fields that the fill rule reads. A count of bytes or inodes is at least 0.
pub record Filesystem : Type 0 where
  pub kind : FilesystemKind
  pub name : String
  pub fs_type : String
  pub disks : List String
  pub size_bytes : Option ℕ
  pub used_bytes : Option ℕ
  pub free_bytes : Option ℕ
  pub inodes_total : Option ℕ
  pub inodes_free : Option ℕ
  pub read_only : Bool

-- `a // w` of an integer and a whole that is not 0.
unfoldable pub floor_div : ℤ → ℕ → ℤ
floor_div (pos a) w = pos (a / w)
floor_div (negsuc a) w = negsuc (a / w)

unfoldable pub negate : ℤ → ℤ
negate (pos zero) = pos 0
negate (pos (suc n)) = negsuc n
negate (negsuc n) = pos (suc n)

unfoldable pub hundredfold : ℤ → ℤ
hundredfold (pos n) = pos (100 * n)
hundredfold (negsuc n) = negsuc (100 * n + 99)

-- `-(-100 * part // whole)`; a whole of 0 has no percentage.
unfoldable pub ceil_percent : ℤ → ℕ → Option ℤ
ceil_percent part whole =
    if whole == 0 then none else some (negate (floor_div (negate (hundredfold part)) whole))

unfoldable pub floor_percent : ℤ → ℕ → Option ℤ
floor_percent part whole = if whole == 0 then none else some (floor_div (hundredfold part) whole)

abbrev pub fixed_inode_table_types : List String
fixed_inode_table_types = "ext2" ∷ "ext3" ∷ "ext4" ∷ []

unfoldable pub inode_table : Filesystem → InodeTable
inode_table fs =
    if any (λ t. t ==ₛ fs.fs_type) fixed_inode_table_types
    then InodeTable.fixed
    else InodeTable.dynamic

unfoldable pub percent_for : FilesystemKind → ℤ → ℕ → Option ℤ
percent_for FilesystemKind.pool used whole = floor_percent used whole
percent_for FilesystemKind.mount used whole = ceil_percent used whole
percent_for FilesystemKind.volume used whole = ceil_percent used whole

unfoldable pub used_of : FilesystemKind → Option ℕ → Option ℕ → Option ℤ
used_of kind none free = none
used_of kind (some used) none = none
used_of kind (some used) (some free) = percent_for kind (pos used) (used + free)

-- `Filesystem.used_percent`
unfoldable pub used_percent : Filesystem → Option ℤ
used_percent fs = used_of fs.kind fs.used_bytes fs.free_bytes

-- The total is that of a fixed table; more free inodes than there are give a negative part.
unfoldable pub inodes_of : InodeTable → Option ℕ → Option ℕ → Option ℤ
inodes_of InodeTable.dynamic total free = none
inodes_of InodeTable.fixed none free = none
inodes_of InodeTable.fixed (some total) none = none
inodes_of InodeTable.fixed (some total) (some free) = ceil_percent (pos total -ℤ pos free) total

-- `Filesystem.inodes_used_percent`
unfoldable pub inodes_used_percent : Filesystem → Option ℤ
inodes_used_percent fs = inodes_of (inode_table fs) fs.inodes_total fs.inodes_free
