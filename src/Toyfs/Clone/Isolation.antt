-- ===== src/Toyfs/Clone/Isolation.antt =====
-- A file of fs/toyfs/file.c and its clone, once the clone is written to.
use zufs_zus.Common.{ℕ, ◌+◌, ◌-◌, ◌≤◌, ◌<◌, ◌≡◌, ◌∙◌, ◌⊎◌, inl, inr, none, some, arith}
use zufs_zus.Toyfs.Errno.{enospc, fail}
use zufs_zus.Toyfs.Pool.{Sbi}
use zufs_zus.Toyfs.Pool.Inv.{Uses, Same-trans}
use zufs_zus.Toyfs.Blocks.{Inode}
use zufs_zus.Toyfs.Blocks.Content.{uses, IsFile, byte_at, byte_at-Same}
use zufs_zus.Toyfs.Io.{check_rw, write}
use zufs_zus.Toyfs.Io.Write.{write_lem}
use zufs_zus.Toyfs.Clone.{clone_entire_file_range}
use zufs_zus.Toyfs.Clone.Entire.{clone_entire_file_range_lem}

-- After a file has been cloned to another one and the clone has been written to, the source still
-- has every byte that it had before, whether or not the two calls succeed; and if the cloning
-- succeeded, the clone has the source's bytes outside the range written to, and, unless the write
-- fails with ENOSPC, the buffer's bytes inside.
pub write-clone_entire_file_range :
    (map_max : ℕ) {s : Sbi} {f g : Inode} (ext : Uses) (buf : ℕ → ℕ) (off len : ℕ)
    → IsFile s g (uses f.iblkrefs ext)
    → IsFile s f (uses g.iblkrefs ext)
    → check_rw map_max off len ≡ none
    → let (cloned, t, k) = clone_entire_file_range s f g in
      let (rc, v, h) = write map_max t k buf off len in
      ((x : ℕ) → byte_at v f.iblkrefs x ≡ byte_at s f.iblkrefs x)
      × (((x : ℕ) → (x < off) ⊎ (off + len ≤ x) → byte_at v h.iblkrefs x ≡ byte_at s f.iblkrefs x)
          ⊎ (cloned ≡ some enospc))
      × (((x : ℕ) → off ≤ x → x < off + len → byte_at v h.iblkrefs x ≡ buf (x - off))
          ⊎ (rc ≡ fail enospc))
write-clone_entire_file_range map_max {s} {f} {g} ext buf off len v source passed =
    let c = clone_entire_file_range_lem {f = f} {ext = ext} v source in
    let w = write_lem map_max buf off len c.file passed in
    (
      λ x. byte_at-Same f.iblkrefs x (λ d h. omega arith) (Same-trans c.others w.others),
      elim c.result [
        | inl (_, _, _, content) ↦ inl (λ x h. w.outside x h ∙ content x)
        | inr (e, _) ↦ inr e
      ],
      elim w.done [ inl (_, _, inside) ↦ inl inside | inr (e, _) ↦ inr e ],
    )
