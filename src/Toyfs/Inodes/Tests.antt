-- ===== src/Toyfs/Inodes/Tests.antt =====
-- A file system of three free pages, and one with an inode in use.
use zufs_zus.Common.{
  ◌≤◌, ◌+◌, ◌⊎◌, ℕ, ◌≡◌, refl, true, false, none, some, [], ◌∷◌, ◌==◌, if◌then◌else◌, update,
  Bool-cases, inl, inr,
}
use zufs_zus.Common.Int.{pos}
use zufs_zus.Toyfs.Pool.{Sbi, acquire_pmemb}
use zufs_zus.Toyfs.Itable.{
  i_track, itable_find, itable_insert, itable_slot_of, chain_find, chain_has, is_info,
  find_inode_ref_by_ino,
}
use zufs_zus.Toyfs.Itable.Lookup.{IsItable, KnownAs, i_track_lem}
use zufs_zus.Toyfs.InodePool.{Node, zero_node, Info, Fs, alloc_ii}
use zufs_zus.Toyfs.Inodes.{NewInode, is_lnk, init_node, new_inode, info_of, iget, evict}
use zufs_zus.Toyfs.Inodes.Link.{IsLink, release_symlink-init_node}
use zufs_zus.Toyfs.Inodes.Create.{Outcome, new_inode_lem}
use zufs_zus.Toyfs.Inodes.Evict.{evict-iget, evict-iget_null, evict_lem}

abbrev disk : Sbi
disk = record {
  pages = 1 ∷ 2 ∷ 3 ∷ [];
  free_dblkrefs = [];
  free_iblkrefs = [];
  bfree = 3;
  bavail = 3;
  dblk = λ d. record { bn = 0; refcnt = 0 };
  mem = λ p x. 0;
}

abbrev unused : Fs
unused = record {
  sbi = disk;
  bsize = 4096;
  frsize = 4096;
  namemax = 255;
  flag = 0;
  blocks = 4;
  files = 10;
  ffree = 10;
  favail = 10;
  free_inodes = [];
  top_ino = 2;
  itable = record { icount = 0; imap = λ slot. [] };
  node = λ n. zero_node;
  info = λ a. none;
}

-- a symbolic link to a name of 32 bytes
abbrev link_asked : NewInode
link_asked = record {
  zi = record zero_node { i_mode = 41471; i_nlink = 1; i_size = 32 };
  tmpfile = false;
  dir_ino = 1;
  app = λ i. 97 + i;
}

link_kind : is_lnk 41471 ≡ true
unfolding is_lnk
link_kind = refl

release_symlink-init_node_example :
    (((init_node unused link_asked 2).0 ≡ none) × (32 ≤ 32) × ((acquire_pmemb disk).0 ≡ none))
    ⊎ ((ti : Node) × (t : Fs) × (init_node unused link_asked 2 ≡ (some ti, t))
        × IsLink disk link_asked t.sbi ti)
release_symlink-init_node_example = release_symlink-init_node unused link_asked 2 link_kind

nothing : find_inode_ref_by_ino unused.itable 2 ≡ none
unfolding find_inode_ref_by_ino itable_find chain_find
nothing = refl

unused-IsItable : IsItable unused.itable
unused-IsItable = record { once = λ slot. tt }

new_inode_lem_example : Outcome unused (new_inode unused (some 100) link_asked)
new_inode_lem_example = new_inode_lem unused (some 100) link_asked unused-IsItable nothing

abbrev in_use : Info
in_use = record { ti = some 32; ino = 2; ref = pos 1; mapped = true }

abbrev one : Fs
one = record unused {
  itable = (i_track unused.itable (info_of 100 in_use)).0;
  info = update unused.info 100 (some in_use);
}

one-IsItable : IsItable one.itable
unfolding info_of itable_find find_inode_ref_by_ino
one-IsItable = (i_track_lem unused.itable (info_of 100 in_use) unused-IsItable nothing).0

has_one : chain_has 100 (one.itable.imap (itable_slot_of 2)) ≡ true
unfolding chain_has is_info itable_slot_of i_track itable_insert info_of
has_one = refl

known_one : KnownAs one.itable (info_of 100 in_use)
unfolding KnownAs i_track itable_insert itable_slot_of info_of
known_one slot = elim (Bool-cases (slot == 2)) [ inl e ↦ rw e (λ h. refl, tt) | inr e ↦ rw e tt ]

one_found : find_inode_ref_by_ino one.itable 2 ≡ some (record { tii = some 100; ti = 32; ino = 2 })
unfolding find_inode_ref_by_ino itable_find chain_find i_track itable_insert itable_slot_of info_of
one_found = refl

evict_lem_example :
    (t : Fs) × (evict one 100 ≡ some t)
    × (t.info 100 ≡ none)
    × (t.ffree ≡ 11)
    × IsItable t.itable
    × ((x : ℕ)
        → find_inode_ref_by_ino t.itable x
          ≡ (if x == 2 then none else find_inode_ref_by_ino one.itable x))
evict_lem_example = evict_lem one 100 32 in_use one-IsItable known_one has_one refl refl refl refl

evict-iget_example :
    (t : Fs) × (evict (iget one none 2).2 100 ≡ some t)
    × (t.itable ≡ one.itable)
    × (t.ffree ≡ one.ffree)
    × (t.info 100 ≡ some in_use)
evict-iget_example =
    evict-iget one none 2 100 0 (record { tii = some 100; ti = 32; ino = 2 }) in_use one_found refl
      refl refl

-- the same inode in the table, its inode info gone
abbrev lost : Fs
lost = record unused {
  itable = record {
    icount = 1;
    imap = update unused.itable.imap 2 (record { tii = none; ti = 32; ino = 2 } ∷ []);
  };
}

lost_found : find_inode_ref_by_ino lost.itable 2 ≡ some (record { tii = none; ti = 32; ino = 2 })
unfolding find_inode_ref_by_ino itable_find chain_find itable_slot_of
lost_found = refl

memory_left : (alloc_ii lost (some 100)).0 ≡ some 100
unfolding alloc_ii
memory_left = refl

evict-iget_null_example :
    ((iget lost (some 100) 2).1 ≡ some 100)
    × ((iget lost (some 100) 2).2.info 100
        ≡ some (record { ti = none; ino = 0; ref = pos 1; mapped = true }))
    × (evict (iget lost (some 100) 2).2 100 ≡ none)
evict-iget_null_example =
    evict-iget_null lost (some 100) 2 100 (record { tii = none; ti = 32; ino = 2 }) lost_found refl
      memory_left
