-- ===== src/Toyfs/Namei.antt =====
-- Renaming, fs/toyfs/namei.c. A directory is found by its number, so both of a rename can be one
-- directory; the inode renamed is neither. The times it sets are left out.
pub mod Rename
mod Tests
use zufs_zus.Common.{
  ℕ, ◌-◌, Bool, not, Option, none, some, List, length, ◌==◌, if◌then◌else◌, update,
}
use zufs_zus.Toyfs.Errno.{Errno, einval, enoent, enotsup}
use zufs_zus.Toyfs.Trunc.{is_dir}
use zufs_zus.Toyfs.Pool.{Sbi, page_size}
use zufs_zus.Toyfs.Dir.{
  Dirent, DirInode, Child, lookup_dirent, on_page, reset_dirent, le32_add, std_remove_dentry,
  add_dentry,
}

-- `toyfs_lookup`: the inode number, 0 if there is none
unfoldable pub lookup : DirInode → List ℕ → Option ℕ
lookup dir str = elim (lookup_dirent dir str) [
  | none ↦ none
  | some r ↦ some (elim r [ none ↦ 0 | some (pagei, at, d) ↦ d.d_ino ])
]

-- `toyfs_remove_dirent` of the entry `d` at the slot `at` of the page `pagei`; none where
-- `_reset_dirent` stops the process, at an entry without a name.
unfoldable pub remove_dirent : DirInode → Child → ℕ → ℕ → Dirent → Option (DirInode × Child)
unfolding on_page reset_dirent std_remove_dentry
remove_dirent dir c pagei at d =
    if length d.d_name == 0
    then none
    else some (
        std_remove_dentry
          (record dir {
            i_size = dir.i_size - page_size;
            childs = on_page pagei (reset_dirent at d) dir.childs;
          })
          c)

-- What a rename changes: the file system, the directories by number and the inode renamed.
abbrev pub Result : Type 0
Result = Option Errno × Sbi × (ℕ → DirInode) × Child

-- The end of `_do_rename`, from the removal of the old entry on.
unfoldable pub unlink_old : Sbi → (ℕ → DirInode) → ℕ → Child → ℕ × ℕ × Dirent → Option Result
unfolding remove_dirent is_dir le32_add
unlink_old s dirs old c (pagei, at, d) = elim (remove_dirent (dirs old) c pagei at d) [
  | none ↦ none
  | some (dir, c') ↦ some (
    none,
    s,
    update dirs old dir,
    if is_dir c'.i_mode then record c' { i_nlink = le32_add c'.i_nlink 1 } else c',
  )
]

-- `_do_rename` once the old name is found.
unfoldable pub rename_found :
    Sbi → (ℕ → DirInode) → ℕ → ℕ → Child → List ℕ → ℕ × ℕ × Dirent → Option Result
unfolding unlink_old
rename_found s dirs old new c new_name place = elim (lookup_dirent (dirs new) new_name) [
  | none ↦ none
  | some q ↦ elim q [
    | some taken ↦ unlink_old s dirs old c place
    | none ↦ elim (add_dentry s (dirs new) c new_name) [
      | none ↦ none
      | some (err, t, dir, c') ↦ elim err [
        | some e ↦ some (some e, t, update dirs new dir, c')
        | none ↦ unlink_old t (update dirs new dir) old c' place
      ]
    ]
  ]
]

-- `_do_rename` of an inode that is there
unfoldable pub do_rename :
    Sbi → (ℕ → DirInode) → ℕ → ℕ → Child → List ℕ → List ℕ → ℕ → Option Result
unfolding rename_found
do_rename s dirs old new c old_name new_name flags =
    if not (flags == 0)
    then some (some enotsup, s, dirs, c)
    else elim (lookup_dirent (dirs old) old_name) [
      | none ↦ none
      | some r ↦ elim r [
        | none ↦ some (some enoent, s, dirs, c)
        | some place ↦ rename_found s dirs old new c new_name place
      ]
    ]

unfoldable pub rename :
    Sbi
    → (ℕ → DirInode)
    → ℕ
    → ℕ
    → Option Child
    → List ℕ
    → List ℕ
    → ℕ
    → Option (Option Errno × Sbi × (ℕ → DirInode) × Option Child)
unfolding do_rename
rename s dirs old new none old_name new_name flags = some (some einval, s, dirs, none)
rename s dirs old new (some c) old_name new_name flags =
    elim (do_rename s dirs old new c old_name new_name flags) [
      | none ↦ none
      | some (err, t, dirs', c') ↦ some (err, t, dirs', some c')
    ]
