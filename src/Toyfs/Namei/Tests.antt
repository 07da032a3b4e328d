-- ===== src/Toyfs/Namei/Tests.antt =====
-- A directory with one entry, and a clear one to move it to.
use zufs_zus.Common.{ℕ, ◌≡◌, ◌==◌, refl, some, List, [], ◌∷◌, if◌then◌else◌, arith}
use zufs_zus.Toyfs.Pool.{Sbi}
use zufs_zus.Toyfs.Dir.{Dirent, DirInode, Child, namelen_to_nde, fill, same_name, lookup_dirent}
use zufs_zus.Toyfs.Dir.Slots.{Item, file, slots_of}
use zufs_zus.Toyfs.Dir.Room.{gaps}
use zufs_zus.Toyfs.Dir.Names.{Holds}
use zufs_zus.Toyfs.Namei.{do_rename, lookup}
use zufs_zus.Toyfs.Namei.Rename.{Renames, do_rename_lem}

abbrev no_pages : Sbi
no_pages = record {
  pages = [];
  free_dblkrefs = [];
  free_iblkrefs = [];
  bfree = 0;
  bavail = 0;
  dblk = λ d. record { refcnt = 0; bn = 0 };
  mem = λ p o. 0;
}

abbrev moving : Dirent
moving = record { d_off = 2; d_ino = 7; d_type = 8; d_name = 97 ∷ [] }

abbrev from_items : List Item
from_items = file moving ∷ gaps 126 []

abbrev from_dir : DirInode
from_dir = record {
  i_size = 4096;
  i_blocks = 1;
  i_nlink = 1;
  childs = record { bn = 9; slots = slots_of from_items } ∷ [];
}

abbrev to_dir : DirInode
to_dir = record {
  i_size = 0;
  i_blocks = 1;
  i_nlink = 1;
  childs = record { bn = 10; slots = slots_of (gaps 127 []) } ∷ [];
}

abbrev dirs : ℕ → DirInode
dirs x = if x == 1 then from_dir else to_dir

abbrev renamed : Child
renamed = record { i_ino = 7; i_mode = 33188; i_size = 0; i_nlink = 1 }

from_dir-Holds : Holds from_dir.childs (from_items ∷ [])
unfolding namelen_to_nde fill
from_dir-Holds = (refl, (omega arith, λ h. absurd (omega (arith, h)), tt), refl, tt)

to_dir-Holds : Holds to_dir.childs (gaps 127 [] ∷ [])
to_dir-Holds = (refl, tt, refl, tt)

old_number : lookup from_dir (97 ∷ []) ≡ some 7
unfolding lookup lookup_dirent namelen_to_nde fill same_name
old_number = refl

do_rename_lem_example :
    Renames no_pages dirs 1 2
      (from_items ∷ [])
      (gaps 127 [] ∷ [])
      renamed
      (97 ∷ [])
      (98 ∷ [])
      (do_rename no_pages dirs 1 2 renamed (97 ∷ []) (98 ∷ []) 0)
do_rename_lem_example =
    do_rename_lem no_pages dirs 1 2 renamed (97 ∷ []) (98 ∷ []) (from_items ∷ []) (gaps 127 [] ∷ [])
      (omega arith) from_dir-Holds to_dir-Holds (λ h. absurd (omega (arith, h)))
      (omega arith, λ h. absurd (omega (arith, h))) (omega arith)
