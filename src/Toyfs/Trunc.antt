-- ===== src/Toyfs/Trunc.antt =====
-- Truncation in fs/toyfs/file.c: dropping the pages past the new end and clearing the rest of the
-- last one.
pub mod Clear
pub mod Truncate
pub mod Drop
pub mod Dropped
pub mod Unique
use zufs_zus.Common.{
  ℕ, zero, suc, ◌+◌, ◌-◌, ◌*◌, ◌/◌, ◌%◌, Bool, true, false, not, Option, none, some, List, [], ◌∷◌,
  ltb, leb, ◌==◌, if◌then◌else◌, update,
}
use zufs_zus.Toyfs.Errno.{Errno, einval, eisdir, enospc}
use zufs_zus.Toyfs.Pool.{Sbi, page_size}
use zufs_zus.Toyfs.Blocks.{
  Iblkref, Inode, off_in_page, assign_zeros, free_iblkref, fetch_iblkref, unique_pmemb,
}
use zufs_zus.Toyfs.Io.{next_page}

-- `toyfs_list_del` of the iblkref at an offset
unfoldable pub remove : ℕ → List Iblkref → List Iblkref
remove boff [] = []
remove boff (b ∷ l) = if b.off == boff then l else b ∷ remove boff l

unfoldable pub drop_iblkref : Sbi → Inode → Iblkref → Sbi × Inode
unfolding remove free_iblkref
drop_iblkref s f b = free_iblkref s (record f { iblkrefs = remove b.off f.iblkrefs }) b

-- `l` is what the iterator has still to visit.
unfoldable pub drop_loop : ℕ → List Iblkref → Sbi → Inode → Sbi × Inode
unfolding drop_iblkref
drop_loop pos [] s f = (s, f)
drop_loop pos (b ∷ l) s f =
    let (t, g) = if leb pos b.off then drop_iblkref s f b else (s, f) in drop_loop pos l t g

unfoldable pub drop_range : Sbi → Inode → ℕ → Sbi × Inode
unfolding drop_loop next_page
drop_range s f pos = drop_loop (if pos % page_size == 0 then pos else next_page pos) f.iblkrefs s f

unfoldable pub zero_after : Sbi → Inode → ℕ → Option Errno × Sbi × Inode
unfolding fetch_iblkref unique_pmemb off_in_page assign_zeros
zero_after s f pos = if pos % page_size == 0 then (none, s, f) else elim (fetch_iblkref f pos) [
  | none ↦ (none, s, f)
  | some b ↦
      let (r, t, g) = unique_pmemb s f b in
      elim r [
        | none ↦ (some enospc, t, g)
        | some p ↦ let poff = off_in_page pos in (none, assign_zeros t p poff (page_size - poff), g)
      ]
]

-- `S_ISDIR` and `S_ISREG`
unfoldable pub is_dir : ℕ → Bool
is_dir mode = mode / 4096 % 16 == 4

unfoldable pub is_reg : ℕ → Bool
is_reg mode = mode / 4096 % 16 == 8

unfoldable pub truncate : Sbi → Inode → ℕ → Option Errno × Sbi × Inode
unfolding is_dir is_reg drop_range zero_after
truncate s f size =
    if is_dir f.i_mode
    then (some eisdir, s, f)
    else if not (is_reg f.i_mode)
    then (some einval, s, f)
    else let (err, t, g) : Option Errno × Sbi × Inode =
        if ltb size f.i_size
        then (let (t, g) = drop_range s f size in zero_after t g size)
        else (none, s, f) in
      (err, t, record g { i_size = size })
