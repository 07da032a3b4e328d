-- ===== src/Toyfs/Io/Write.antt =====
-- What `_write` of fs/toyfs/file.c does, on every branch.
use Prim.Native.Nat.{max}
use zufs_zus.Common.{
  ℕ, suc, ◌+◌, ◌-◌, ◌≤◌, ◌<◌, ◌≡◌, ◌≢◌, refl, sym, ◌∙◌, ap, ◌⊎◌, inl, inr, none, arith,
}
use zufs_zus.Toyfs.Errno.{Errno, enospc, Rc, ok, fail}
use zufs_zus.Toyfs.Pool.{Sbi}
use zufs_zus.Toyfs.Pool.Inv.{Uses, Same}
use zufs_zus.Toyfs.Blocks.{Inode}
use zufs_zus.Toyfs.Blocks.Content.{IsFile, byte_at}
use zufs_zus.Toyfs.Io.{check_rw, max_offset, write_loop, write_done, write}
use zufs_zus.Toyfs.Io.WriteLoop.{len, write_loop-Wrote}

-- `_write` on every branch.
pub record Written (s : Sbi) (f : Inode) (ext : Uses) (buf : ℕ → ℕ) (off len : ℕ) (rc : Rc)
    (t : Sbi) (g : Inode) : Type 0 where
  pub file : IsFile t g ext
  pub others : Same ext s t
  pub mode : g.i_mode ≡ f.i_mode
  pub outside :
      (x : ℕ) → (x < off) ⊎ (off + len ≤ x) → byte_at t g.iblkrefs x ≡ byte_at s f.iblkrefs x
  pub done :
      ((rc ≡ ok len)
        × (g.i_size ≡ max f.i_size (off + len))
        × ((x : ℕ) → off ≤ x → x < off + len → byte_at t g.iblkrefs x ≡ buf (x - off)))
      ⊎ ((rc ≡ fail enospc) × (g.i_size ≡ f.i_size))

module _ (map_max : ℕ) (s : Sbi) (f : Inode) (buf : ℕ → ℕ) (off len : ℕ)
    (passed : check_rw map_max off len ≡ none) where
  abbrev written : Rc × Sbi × Inode
  written = write_loop (suc len) s f buf 0 (off + len) off

  write_ok :
      (n : ℕ)
      → written.0 ≡ ok n
      → write map_max s f buf off len
        ≡ (ok n, written.1, record written.2 { i_size = max_offset off n written.2.i_size })
  unfolding write write_done
  write_ok n h = ground arith

  write_full :
      written.0 ≡ fail enospc → write map_max s f buf off len ≡ (fail enospc, written.1, written.2)
  unfolding write write_done
  write_full h = ground arith

max_offset_lem : (off len size : ℕ) → max_offset off len size ≡ max size (off + len)
unfolding max_offset
max_offset_lem off len size = ground arith

sized-IsFile :
    {s : Sbi} {f : Inode} {ext : Uses} (n : ℕ)
    → IsFile s f ext
    → IsFile s (record f { i_size = n }) ext
sized-IsFile n v = record { consistent = v.consistent; sorted = v.sorted; blocks = v.blocks }

ok-not_fail : {n : ℕ} {e : Errno} → ok n ≢ fail e
ok-not_fail h = cc

-- A write that passes the checks either stores exactly the buffer in its range, returns its length
-- and extends the size to the end of the range, or fails with ENOSPC and keeps the size; on both
-- branches the bytes outside the range and the pages of all other files stay as they were, and the
-- block map stays well formed.
pub write_lem :
    (map_max : ℕ) {s : Sbi} {f : Inode} {ext : Uses} (buf : ℕ → ℕ) (off len : ℕ)
    → IsFile s f ext
    → check_rw map_max off len ≡ none
    → let (rc, t, g) = write map_max s f buf off len in Written s f ext buf off len rc t g
write_lem map_max {s} {f} {ext} buf off len v passed =
    let w = write_loop-Wrote (suc len) v buf 0 (off + len) off (omega arith) in
    elim w.result [
      | inl e ↦
          let e' : (written map_max s f buf off len passed).0 ≡ ok len = e ∙ ap ok (omega arith) in
          rw (write_ok map_max s f buf off len passed len e') (record {
            file =
                sized-IsFile (max_offset off len (written map_max s f buf off len passed).2.i_size)
                  w.file;
            others = w.others;
            mode = w.mode;
            outside = w.outside;
            done = inl (
              refl,
              max_offset_lem off len (written map_max s f buf off len passed).2.i_size
                  ∙ ap (λ z. max z (off + len)) w.size,
              λ x lo hi. w.inside x (λ q. ok-not_fail (sym e' ∙ q)) lo hi,
            );
          })
      | inr e ↦ rw (write_full map_max s f buf off len passed e) (record {
        file = w.file;
        others = w.others;
        mode = w.mode;
        outside = w.outside;
        done = inr (refl, w.size);
      })
    ]
