-- ===== src/Filesystems/Fill.antt =====
-- src/lsdsk/domain/filesystem_fill.py: the findings about filesystems and inode tables that are full. A
-- title and a detail are the figures that the text is written from.
use lsdsk.Prelude.{ℕ, ◌+◌, String, Option, none, some, List, [], ◌∷◌, ◌++◌, if◌then◌else◌}
use lsdsk.Prelude.Int.{ℤ, pos, leb_ℤ, ◌-ℤ◌}
use lsdsk.Thresholds.{Thresholds}
use lsdsk.Findings.{Severity, warning, hint, Finding}
use lsdsk.Filesystems.{Filesystem, used_percent, inodes_used_percent}

-- A title: the name, the percentage, the limit and the severity. A detail: the space used, the size and
-- the space free, or the inodes used, in all and free; and the disks.
pub data FillText : Type 0 where
  space_title inodes_title : String → ℤ → ℤ → Severity → FillText
  space_detail : ℕ → ℕ → ℕ → List String → FillText
  inode_detail : ℤ → ℕ → ℕ → List String → FillText
  space_action inode_action : FillText

unfoldable pub severity_at : Option ℤ → ℤ → ℤ → Option (Severity × ℤ)
severity_at none hint_limit warning_limit = none
severity_at (some percent) hint_limit warning_limit =
    if leb_ℤ warning_limit percent
    then some (warning, warning_limit)
    else if leb_ℤ hint_limit percent
    then some (hint, hint_limit)
    else none

-- `value or 0`
abbrev pub or_none : Option ℕ → ℕ → ℕ
or_none none other = other
or_none (some n) other = n

unfoldable pub space_detail_of : Filesystem → FillText
space_detail_of fs =
    let used = or_none fs.used_bytes 0 in
    let free = or_none fs.free_bytes 0 in
    space_detail used (or_none fs.size_bytes (used + free)) free fs.disks

unfoldable pub inode_detail_of : Filesystem → FillText
inode_detail_of fs =
    let total = or_none fs.inodes_total 0 in
    let free = or_none fs.inodes_free 0 in inode_detail (pos total -ℤ pos free) total free fs.disks

unfoldable pub space_found : Filesystem → ℤ → Severity → ℤ → Finding FillText
space_found fs percent severity limit = record {
  severity = severity;
  subject = fs.name;
  title = space_title fs.name percent limit severity;
  detail = space_detail_of fs ∷ [];
  action = some space_action;
}

unfoldable pub inodes_found : Filesystem → ℤ → Severity → ℤ → Finding FillText
inodes_found fs percent severity limit = record {
  severity = severity;
  subject = fs.name;
  title = inodes_title fs.name percent limit severity;
  detail = inode_detail_of fs ∷ [];
  action = some inode_action;
}

-- The finding of a verdict on a percentage, where there are both.
unfoldable pub found :
    (ℤ → Severity → ℤ → Finding FillText)
    → Option ℤ
    → Option (Severity × ℤ)
    → List (Finding FillText)
found make none verdict = []
found make (some percent) none = []
found make (some percent) (some (severity, limit)) = make percent severity limit ∷ []

module _ {F : Type 0} (thresholds : Thresholds F) where
  unfoldable pub space_finding : Filesystem → List (Finding FillText)
  space_finding fs = found (space_found fs) (used_percent fs) (
      severity_at (used_percent fs) thresholds.filesystem_full_hint_percent
        thresholds.filesystem_full_warning_percent)

  unfoldable pub inode_finding : Filesystem → List (Finding FillText)
  inode_finding fs = found (inodes_found fs) (inodes_used_percent fs) (
      severity_at (inodes_used_percent fs) thresholds.inodes_full_hint_percent
        thresholds.inodes_full_warning_percent)

  -- One turn of the loop, which leaves a filesystem that is read-only out.
  unfoldable pub diagnose_one : Filesystem → List (Finding FillText)
  diagnose_one fs = if fs.read_only then [] else space_finding fs ++ inode_finding fs

  unfoldable pub diagnose_all : List Filesystem → List (Finding FillText)
  diagnose_all [] = []
  diagnose_all (fs ∷ filesystems) = diagnose_one fs ++ diagnose_all filesystems

  -- `diagnose_filesystems`, on the filesystems of the inventory, `none` where they were not read.
  unfoldable pub diagnose_filesystems : Option (List Filesystem) → List (Finding FillText)
  diagnose_filesystems none = []
  diagnose_filesystems (some filesystems) = diagnose_all filesystems
