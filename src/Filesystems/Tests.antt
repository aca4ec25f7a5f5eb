-- ===== src/Filesystems/Tests.antt =====
-- Runs of the percentages and of the fill rule, and each theorem at one where its hypotheses hold.
use lsdsk.Prelude.{ℕ, ◌≤◌, ◌≡◌, ◌↔◌, refl, true, false, none, some, [], ◌∷◌, Elem, arith}
use lsdsk.Prelude.Int.{pos, negsuc, ◌-ℤ◌}
use lsdsk.Thresholds.Examples.{defaults}
use lsdsk.Filesystems.{
  mount, pool, Filesystem, fixed, ceil_percent, floor_percent, floor_div, negate, hundredfold,
  used_percent, used_of, percent_for, inode_table, inodes_of, inodes_used_percent,
}
use lsdsk.Filesystems.Percent.{IsCeiling, IsRounded, used_percent_lem, inodes_used_percent_lem}
use lsdsk.Findings.{warning, hint}
use lsdsk.Filesystems.Fill.{
  space_title, inodes_title, space_detail, inode_detail, space_action, inode_action, severity_at,
  found, space_found, inodes_found, space_detail_of, inode_detail_of, space_finding, inode_finding,
  diagnose_one, diagnose_all, diagnose_filesystems,
}
use lsdsk.Filesystems.Findings.{IsCalledFor, diagnose_filesystems_iff}

-- Nine tenths of the inodes of an ext4 root are in use, and all but one byte of it.
abbrev root : Filesystem
root = record {
  kind = mount;
  name = "/";
  fs_type = "ext4";
  disks = "/dev/sda" ∷ [];
  size_bytes = some 200;
  used_bytes = some 199;
  free_bytes = some 1;
  inodes_total = some 200;
  inodes_free = some 21;
  read_only = false;
}

abbrev frozen : Filesystem
frozen = record root { name = "/snap"; read_only = true }

abbrev tank : Filesystem
tank = record root {
  name = "tank";
  kind = pool;
  fs_type = "zfs";
  used_bytes = some 1;
  free_bytes = some 199;
}

root_used : used_percent root ≡ some (pos 100)
unfolding used_percent used_of percent_for ceil_percent floor_div negate hundredfold
root_used = refl

tank_used : used_percent tank ≡ some (pos 0)
unfolding used_percent used_of percent_for floor_percent floor_div hundredfold
tank_used = refl

tank_inodes : inodes_used_percent tank ≡ none
unfolding inodes_used_percent inodes_of inode_table
tank_inodes = refl

-- More free inodes than there are.
overfree : ceil_percent (negsuc 0) 3 ≡ some (negsuc 32)
unfolding ceil_percent floor_div negate hundredfold
overfree = refl

three_findings :
    diagnose_filesystems defaults (some (root ∷ frozen ∷ tank ∷ []))
    ≡ record {
      severity = warning;
      subject = "/";
      title = space_title "/" (pos 100) (pos 95) warning;
      detail = space_detail 199 200 1 ("/dev/sda" ∷ []) ∷ [];
      action = some space_action;
    }
      ∷ record {
        severity = hint;
        subject = "/";
        title = inodes_title "/" (pos 90) (pos 85) hint;
        detail = inode_detail (pos 179) 200 21 ("/dev/sda" ∷ []) ∷ [];
        action = some inode_action;
      }
      ∷ []
unfolding diagnose_filesystems diagnose_all diagnose_one space_finding inode_finding found
    severity_at space_found inodes_found space_detail_of inode_detail_of used_percent used_of
    percent_for ceil_percent floor_percent floor_div negate hundredfold inodes_used_percent
    inodes_of inode_table ◌-ℤ◌
three_findings = refl

used_percent_lem_example :
    (p : ℕ) × (used_percent tank ≡ some (pos p)) × (p ≤ 100) × IsRounded pool p 1 200
used_percent_lem_example = used_percent_lem tank 1 199 refl refl (omega arith)

root_fixed : inode_table root ≡ fixed
unfolding inode_table
root_fixed = refl

inodes_used_percent_lem_example :
    (p : ℕ) × (inodes_used_percent root ≡ some (pos p)) × (p ≤ 100) × IsCeiling p 179 200
inodes_used_percent_lem_example =
    inodes_used_percent_lem root 200 21 root_fixed refl refl (omega arith) (omega arith)

diagnose_filesystems_iff_example :
    Elem
      (space_found root (pos 100) warning (pos 95))
      (diagnose_filesystems defaults (some (root ∷ frozen ∷ tank ∷ [])))
    ↔ ((fs : Filesystem) × Elem fs (root ∷ frozen ∷ tank ∷ [])
        × IsCalledFor defaults fs (space_found root (pos 100) warning (pos 95)))
diagnose_filesystems_iff_example =
    diagnose_filesystems_iff defaults (root ∷ frozen ∷ tank ∷ [])
      (space_found root (pos 100) warning (pos 95))
