-- ===== src/Toyfs/InodePool.antt =====
-- Inodes and inode infos as fs/toyfs/super.c keeps them: the pool of free inodes and the counters.
-- An inode is named by its place in its page, of which 32 fit a page, and an inode info by its
-- address.
use zufs_zus.Common.{
  ℕ, ◌+◌, ◌-◌, ◌*◌, Bool, true, false, ◌||◌, Option, none, some, List, [], ◌∷◌, ◌++◌, ◌==◌,
  if◌then◌else◌, update, numbers,
}
use zufs_zus.Common.Int.{ℤ, pos}
use zufs_zus.Toyfs.Pool.{Sbi, pool_pop_pmemb}
use zufs_zus.Toyfs.Blocks.{Iblkref}
use zufs_zus.Toyfs.Dir.{Page}
use zufs_zus.Toyfs.Itable.{Itable}

-- `struct toyfs_inode`. Of its union, `i_symlink` holds a short symbolic link, `i_sym_dpp` the page
-- of a long one.
pub record Node : Type 0 where
  pub i_mode : ℕ
  pub i_nlink : ℕ
  pub i_size : ℕ
  pub i_blocks : ℕ
  pub i_ino : ℕ
  pub i_xattr : ℕ
  pub i_rdev : ℕ
  pub i_symlink : List ℕ
  pub i_sym_dpp : ℕ
  pub parent : ℕ
  pub iblkrefs : List Iblkref
  pub childs : List Page

abbrev pub zero_node : Node
zero_node = record {
  i_mode = 0;
  i_nlink = 0;
  i_size = 0;
  i_blocks = 0;
  i_ino = 0;
  i_xattr = 0;
  i_rdev = 0;
  i_symlink = [];
  i_sym_dpp = 0;
  parent = 0;
  iblkrefs = [];
  childs = [];
}

-- `struct toyfs_inode_info`; `ti` is the inode's name.
pub record Info : Type 0 where
  pub ti : Option ℕ
  pub ino : ℕ
  pub ref : ℤ
  pub mapped : Bool

-- `struct toyfs_sb_info`, with the inodes by name and the inode infos by address
pub record Fs : Type 0 where
  pub sbi : Sbi
  pub bsize : ℕ
  pub frsize : ℕ
  pub namemax : ℕ
  pub flag : ℕ
  pub blocks : ℕ
  pub files : ℕ
  pub ffree : ℕ
  pub favail : ℕ
  pub free_inodes : List ℕ
  pub top_ino : ℕ
  pub itable : Itable
  pub node : ℕ → Node
  pub info : ℕ → Option Info

-- `addr` is what `zus_malloc` returns.
unfoldable pub alloc_ii : Fs → Option ℕ → Option ℕ × Fs
alloc_ii s addr = if s.ffree == 0 || s.favail == 0 then (none, s) else elim addr [
  | none ↦ (none, s)
  | some a ↦ (
    some a,
    record s {
      ffree = s.ffree - 1;
      favail = s.favail - 1;
      info = update s.info a (some (record { ti = none; ino = 0; ref = pos 0; mapped = false }));
    },
  )
]

unfoldable pub tii_free : Fs → ℕ → Fs
tii_free s a = record s { ffree = s.ffree + 1; favail = s.favail + 1; info = update s.info a none }

-- `toyfs_list_add` links before the head, that is, at the end.
unfoldable pub pool_add_free_inodes : Fs → Bool × Fs
unfolding pool_pop_pmemb numbers
pool_add_free_inodes s =
    let (r, t) = pool_pop_pmemb s.sbi in
    elim r [
      | none ↦ (false, record s { sbi = t })
      | some p ↦ (true, record s { sbi = t; free_inodes = s.free_inodes ++ numbers (p * 32) 32 })
    ]

unfoldable pub pool_pop_free_inode : Fs → Option ℕ × Fs
pool_pop_free_inode s = elim s.free_inodes [
  | [] ↦ (none, s)
  | n ∷ rest ↦ (some n, record s { free_inodes = rest })
]

unfoldable pub acquire_inode : Fs → Option ℕ × Fs
unfolding pool_pop_free_inode pool_add_free_inodes
acquire_inode s =
    let (r, t) = pool_pop_free_inode s in
    elim r [
      | some n ↦ (some n, t)
      | none ↦
          let (grown, u) = pool_add_free_inodes t in
          if grown then pool_pop_free_inode u else (none, u)
    ]

unfoldable pub release_inode : Fs → ℕ → Fs
release_inode s n = record s {
  node = update s.node n zero_node;
  free_inodes = s.free_inodes ++ n ∷ [];
}

pub record Statfs : Type 0 where
  pub f_bsize : ℕ
  pub f_blocks : ℕ
  pub f_bfree : ℕ
  pub f_bavail : ℕ
  pub f_files : ℕ
  pub f_ffree : ℕ
  pub f_namelen : ℕ
  pub f_frsize : ℕ
  pub f_flags : ℕ

unfoldable pub statfs : Fs → Statfs
statfs s = record {
  f_bsize = s.bsize;
  f_blocks = s.blocks;
  f_bfree = s.sbi.bfree;
  f_bavail = s.sbi.bavail;
  f_files = s.files;
  f_ffree = s.ffree;
  f_namelen = s.namemax;
  f_frsize = s.frsize;
  f_flags = s.flag;
}
