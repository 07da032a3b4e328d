-- ===== src/Toyfs/Trunc/Truncate.antt =====
-- `toyfs_truncate` of fs/toyfs/file.c as a whole.
use zufs_zus.Common.{ℕ, ◌*◌, ◌/◌, ◌≤◌, ◌<◌, ◌≡◌, ◌⊎◌, Option, none, some}
use zufs_zus.Toyfs.Errno.{Errno, enospc}
use zufs_zus.Toyfs.Pool.{Sbi}
use zufs_zus.Toyfs.Pool.Inv.{Uses, Same}
use zufs_zus.Toyfs.Blocks.{Inode}
use zufs_zus.Toyfs.Blocks.Content.{IsFile, byte_at}

-- `toyfs_truncate` on every branch.
pub record Truncated (s : Sbi) (f : Inode) (ext : Uses) (size : ℕ) (rc : Option Errno) (t : Sbi)
    (g : Inode) : Type 0 where
  pub file : IsFile t g ext
  pub others : Same ext s t
  pub size_set : g.i_size ≡ size
  pub mode : g.i_mode ≡ f.i_mode
  pub below : (x : ℕ) → x < size → byte_at t g.iblkrefs x ≡ byte_at s f.iblkrefs x
  pub grown :
      f.i_size ≤ size → (rc ≡ none) × ((x : ℕ) → byte_at t g.iblkrefs x ≡ byte_at s f.iblkrefs x)
  pub shrunk :
      size < f.i_size
      → ((rc ≡ none) × ((x : ℕ) → size ≤ x → byte_at t g.iblkrefs x ≡ 0))
        ⊎ ((rc ≡ some enospc) × ((x : ℕ) → size ≤ x / 4096 * 4096 → byte_at t g.iblkrefs x ≡ 0))
