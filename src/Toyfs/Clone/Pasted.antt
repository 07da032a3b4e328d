-- ===== src/Toyfs/Clone/Pasted.antt =====
-- `_clone_range` of fs/toyfs/file.c on each branch, and what it means for a page to be cloned.
use Prim.Native.Nat.{max}
use zufs_zus.Common.{
  ℕ, ◌+◌, ◌-◌, ◌≤◌, ◌≡◌, ◌&&◌, Option, none, some, ltb, leb, if◌then◌else◌, arith,
}
use zufs_zus.Toyfs.Errno.{enospc}
use zufs_zus.Toyfs.Pool.{Sbi}
use zufs_zus.Toyfs.Pool.Inv.{Uses, Same}
use zufs_zus.Toyfs.Blocks.{
  Iblkref, Inode, fetch, fetch_iblkref, off_to_boff, off_in_page, require_iblkref, unique_pmemb,
  assign_zeros,
}
use zufs_zus.Toyfs.Blocks.Content.{uses, IsFile, byte_at}
use zufs_zus.Toyfs.Clone.{share_page, clone_range, clone_size}

-- The page at `dst` of the destination, taken from the one at `src` of the source.
abbrev pub pasted : Sbi → Inode → Inode → ℕ → ℕ → ℕ → ℕ → ℕ
pasted s f g src dst len x =
    if leb dst x && ltb x (dst + len)
    then byte_at s f.iblkrefs (src + (x - dst))
    else byte_at s g.iblkrefs x

pub record Cloned (s : Sbi) (f g : Inode) (ext : Uses) (src dst len : ℕ) (t : Sbi) (h : Inode)
    : Type 0 where
  pub file : IsFile t h (uses f.iblkrefs ext)
  pub same : Same (uses f.iblkrefs ext) s t
  pub mode : h.i_mode ≡ g.i_mode
  pub size_least : g.i_size ≤ h.i_size
  pub size_most : h.i_size ≤ max g.i_size (dst + len)
  pub content : (x : ℕ) → byte_at t h.iblkrefs x ≡ pasted s f g src dst len x

module _ (s : Sbi) (f g : Inode) (src_off dst_off len : ℕ) where
  abbrev required : Option Iblkref × Sbi × Inode
  required = require_iblkref s g dst_off

  module _ (src : Iblkref) (hit : fetch (off_to_boff src_off) f.iblkrefs ≡ some src) where
    pub clone_range_full :
        required.0 ≡ none
        → clone_range s f g src_off dst_off len ≡ (some enospc, required.1, required.2)
    unfolding clone_range fetch_iblkref
    clone_range_full e = ground arith

    pub clone_range_shared :
        (dst : Iblkref)
        → required.0 ≡ some dst
        → let (v, k) = share_page required.1 required.2 src dst in
          clone_range s f g src_off dst_off len ≡ (none, v, clone_size k (dst_off + len))
    unfolding clone_range fetch_iblkref
    clone_range_shared dst e = ground arith

  module _ (miss : fetch (off_to_boff src_off) f.iblkrefs ≡ none) where
    pub clone_range_holes :
        fetch (off_to_boff dst_off) g.iblkrefs ≡ none
        → clone_range s f g src_off dst_off len ≡ (none, s, g)
    unfolding clone_range fetch_iblkref
    clone_range_holes e = ground arith

    module _ (dst : Iblkref) (hit : fetch (off_to_boff dst_off) g.iblkrefs ≡ some dst) where
      pub clone_range_stuck :
          (unique_pmemb s g dst).0 ≡ none
          → clone_range s f g src_off dst_off len
            ≡ (some enospc, (unique_pmemb s g dst).1, (unique_pmemb s g dst).2)
      unfolding clone_range fetch_iblkref
      clone_range_stuck e = ground arith

      pub clone_range_cleared :
          (p : ℕ)
          → (unique_pmemb s g dst).0 ≡ some p
          → clone_range s f g src_off dst_off len ≡ (
            none,
            assign_zeros (unique_pmemb s g dst).1 p (off_in_page dst_off) len,
            clone_size (unique_pmemb s g dst).2 (dst_off + len),
          )
      unfolding clone_range fetch_iblkref
      clone_range_cleared p e = ground arith
