-- ===== src/Toyfs/Blocks/Kept.antt =====
-- What an operation on the block map of a file of fs/toyfs keeps, and what it hands out.
use zufs_zus.Common.{ℕ, ◌+◌, ◌≡◌, refl, subst, some_eq, false, some, ltb, arith}
use zufs_zus.Toyfs.Pool.{Sbi}
use zufs_zus.Toyfs.Pool.Inv.{Uses, IsConsistent, Same, Same-refl}
use zufs_zus.Toyfs.Blocks.{Iblkref, Inode, fetch}
use zufs_zus.Toyfs.Blocks.Chain.{refs, refs-fetch}
use zufs_zus.Toyfs.Blocks.Content.{uses, IsFile, byte_at, byte_at-Same, Same-mono}

-- The same bytes in the file, and the same pages for all other files.
pub record Kept (s : Sbi) (f : Inode) (ext : Uses) (t : Sbi) (g : Inode) : Type 0 where
  pub file : IsFile t g ext
  pub content : (x : ℕ) → byte_at t g.iblkrefs x ≡ byte_at s f.iblkrefs x
  pub same : Same ext s t
  pub size : g.i_size ≡ f.i_size
  pub mode : g.i_mode ≡ f.i_mode

-- The file has the page at `boff` to itself.
pub record Owned (f : Inode) (ext : Uses) (boff : ℕ) (b : Iblkref) : Type 0 where
  pub found : fetch boff f.iblkrefs ≡ some b
  pub alone : refs b.dblkref f.iblkrefs + ext b.dblkref ≡ 1

module _ {s : Sbi} {f : Inode} {ext : Uses} (v : IsFile s f ext) (boff : ℕ) where
  -- A page that is not shared is the file's own.
  pub unshared-Owned :
      (b : Iblkref)
      → fetch boff f.iblkrefs ≡ some b
      → ltb 1 (s.dblk b.dblkref).refcnt ≡ false
      → Owned f ext boff b
  unshared-Owned b hit h = record {
    found = hit;
    alone = ground (arith, v.consistent.counted b.dblkref, refs-fetch boff f.iblkrefs b hit);
  }

  pub Kept-refl : Kept s f ext s f
  Kept-refl = record {
    file = v;
    content = λ x. refl;
    same = Same-refl ext s;
    size = refl;
    mode = refl;
  }

  -- An attempt that fails may still have cut a page into references.
  pub failed-Kept :
      {t : Sbi}
      → IsConsistent t (uses f.iblkrefs ext) × Same (uses f.iblkrefs ext) s t
      → Kept s f ext t f
  failed-Kept (w, q) = record {
    file = record { consistent = w; sorted = v.sorted; blocks = v.blocks };
    content = λ x. byte_at-Same f.iblkrefs x (λ d h. omega arith) q;
    same = Same-mono ext (λ d h. omega arith) q;
    size = refl;
    mode = refl;
  }

pub Owned-some :
    {f : Inode} {ext : Uses} {boff : ℕ} {b : Iblkref}
    → Owned f ext boff b
    → (c : Iblkref) → some b ≡ some c
    → Owned f ext boff c
Owned-some {f} {ext} {boff} o c q = subst (λ z. Owned f ext boff z) (some_eq q) o
