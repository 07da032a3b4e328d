-- ===== src/Toyfs/Dir/Tests.antt =====
-- A directory of one page with one entry, and runs of fs/toyfs/dir.c on it.
use zufs_zus.Common.{ℕ, ◌≡◌, refl, Option, none, some, List, [], ◌∷◌, arith}
use zufs_zus.Toyfs.Errno.{Errno}
use zufs_zus.Toyfs.Pool.{Sbi}
use zufs_zus.Toyfs.Dir.{
  Dirent, DirInode, Child, lookup_dirent, add_dentry, same_name, namelen_to_nde, fill,
}
use zufs_zus.Toyfs.Dir.Slots.{Item, file, slots_of}
use zufs_zus.Toyfs.Dir.Room.{gaps}
use zufs_zus.Toyfs.Dir.Names.{Holds, LooksUp, lookup_dirent_lem, all_entries, find_entry}
use zufs_zus.Toyfs.Dir.Entry.{Adds, add_dentry_lem}
use zufs_zus.Toyfs.Dir.Lookup.{lookup_dirent-add_dentry}

abbrev disk : Sbi
disk = record {
  pages = 1 ∷ 2 ∷ [];
  free_dblkrefs = [];
  free_iblkrefs = [];
  bfree = 2;
  bavail = 2;
  dblk = λ d. record { refcnt = 0; bn = 0 };
  mem = λ p o. 0;
}

-- a name of 17 bytes takes two slots
abbrev long_name : List ℕ
long_name =
    97 ∷ 98 ∷ 99 ∷ 100 ∷ 101 ∷ 102 ∷ 103 ∷ 104 ∷ 105 ∷ 106 ∷ 107 ∷ 108 ∷ 109 ∷ 110 ∷ 111 ∷ 112 ∷ 113
    ∷ []

abbrev first : Dirent
first = record { d_off = 2; d_ino = 5; d_type = 8; d_name = long_name }

abbrev items : List Item
items = file first ∷ gaps 125 []

abbrev dir : DirInode
dir = record {
  i_size = 4096;
  i_blocks = 1;
  i_nlink = 1;
  childs = record { bn = 9; slots = slots_of items } ∷ [];
}

abbrev child : Child
child = record { i_ino = 7; i_mode = 33188; i_size = 0; i_nlink = 1 }

dir-Holds : Holds dir.childs (items ∷ [])
unfolding namelen_to_nde fill
dir-Holds = (refl, (omega arith, λ h. absurd (omega (arith, h)), tt), refl, tt)

-- Its name is found, with all of its bytes.
found : lookup_dirent dir long_name ≡ some (some (0, 0, first))
unfolding lookup_dirent namelen_to_nde fill same_name
found = refl

abbrev added : Option (Option Errno × Sbi × DirInode × Child)
added = add_dentry disk dir child (120 ∷ [])

lookup_dirent_lem_example : LooksUp (items ∷ []) 0 (120 ∷ []) (lookup_dirent dir (120 ∷ []))
lookup_dirent_lem_example = lookup_dirent_lem dir (items ∷ []) (120 ∷ []) (omega arith) dir-Holds

add_dentry_lem_example : Adds dir (items ∷ []) (120 ∷ []) child added
add_dentry_lem_example =
    add_dentry_lem disk dir child (120 ∷ []) (items ∷ []) dir-Holds
      (omega arith, λ h. absurd (omega (arith, h))) (omega arith)

abbrev second : Dirent
second = record { d_off = 4; d_ino = 7; d_type = 8; d_name = 120 ∷ [] }

abbrev dir_after : DirInode
dir_after = record {
  i_size = 8192;
  i_blocks = 1;
  i_nlink = 1;
  childs = record { bn = 9; slots = slots_of (file first ∷ file second ∷ gaps 124 []) } ∷ [];
}

abbrev child_after : Child
child_after = record { i_ino = 7; i_mode = 33188; i_size = 0; i_nlink = 2 }

added_eq : added ≡ some (none, disk, dir_after, child_after)
unfolding add_dentry namelen_to_nde fill
added_eq = refl

new_name : find_entry (all_entries (items ∷ [])) (120 ∷ []) ≡ none
unfolding same_name
new_name = refl

lookup_dirent-add_dentry_example :
    (n : ℕ) × (at : ℕ) × (d : Dirent) × (lookup_dirent dir_after (120 ∷ [])
      ≡ some (some (n, at, d)))
    × (d.d_name ≡ 120 ∷ [])
    × (d.d_ino ≡ 7)
lookup_dirent-add_dentry_example =
    lookup_dirent-add_dentry disk disk dir dir_after child child_after (120 ∷ []) (items ∷ [])
      dir-Holds (omega arith, λ h. absurd (omega (arith, h))) (omega arith) new_name added_eq
