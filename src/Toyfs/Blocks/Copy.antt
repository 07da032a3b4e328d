-- ===== src/Toyfs/Blocks/Copy.antt =====
-- A shared page copied by `_require_iblkref` or `_unique_pmemb` of fs/toyfs/file.c.
use zufs_zus.Common.{
  ℕ, ◌+◌, ◌*◌, ◌/◌, ◌%◌, ◌<◌, ◌≡◌, refl, ◌∙◌, inl, inr, some, ◌==◌, arith, Bool-cases,
}
use zufs_zus.Toyfs.Pool.{Sbi}
use zufs_zus.Toyfs.Pool.Inv.{Uses, IsConsistent, Same}
use zufs_zus.Toyfs.Blocks.{Iblkref, Inode, fetch, repoint, copy_in}
use zufs_zus.Toyfs.Blocks.Chain.{
  refs, refs-fetch, length-repoint, fetch-repoint, refs-repoint, repoint-IsSortedFrom,
}
use zufs_zus.Toyfs.Blocks.Content.{
  uses, IsFile, byte_at, byte_at-some, byte_at-Same, byte_at_congr, IsConsistent-mono, Same-mono,
}
use zufs_zus.Toyfs.Blocks.Dblkrefs.{New}
use zufs_zus.Toyfs.Blocks.Kept.{Kept, Owned}

module _ {s : Sbi} {f : Inode} {ext : Uses} (v : IsFile s f ext) (boff : ℕ) where
  -- A copy of the shared page `b.dblkref` under the new name `d`.
  module _ {b : Iblkref} {d : ℕ} {t : Sbi} (n : New s (uses f.iblkrefs ext) d t)
      (hit : fetch boff f.iblkrefs ≡ some b) where
    abbrev pub copied : Sbi
    copied = copy_in t (t.dblk d).bn (t.mem (t.dblk b.dblkref).bn) 0 4096

    abbrev pub repointed : Inode
    repointed = record f { iblkrefs = repoint boff d f.iblkrefs }

    copied-Same : Same (uses f.iblkrefs ext) s copied
    unfolding copy_in
    copied-Same = record {
      bn = n.same.bn;
      bytes = λ e o h.
          ground (arith, n.same.bn e h, n.same.bytes e o h, n.consistent.distinct e d, n.unused);
    }

    copied-IsConsistent : IsConsistent copied (uses repointed.iblkrefs ext)
    unfolding copy_in
    copied-IsConsistent =
        let w =
          IsConsistent-mono (uses repointed.iblkrefs ext)
            (λ e. ground (arith, refs-repoint e boff d f.iblkrefs b hit)) n.consistent in
        record {
          counted = w.counted;
          distinct = w.distinct;
          page_used = w.page_used;
          ref_used = w.ref_used;
          pages_once = w.pages_once;
          refs_once = w.refs_once;
          cut = w.cut;
          apart = w.apart;
        }

    copied_bytes :
        (o : ℕ) → o < 4096 → copied.mem (copied.dblk d).bn o ≡ t.mem (t.dblk b.dblkref).bn o
    unfolding copy_in
    copied_bytes o h = ground arith

    content-copied : (x : ℕ) → byte_at copied (repoint boff d f.iblkrefs) x ≡ byte_at s f.iblkrefs x
    content-copied x =
        let y = x / 4096 * 4096 in
        let put = fetch-repoint y boff d f.iblkrefs b hit in
        elim (Bool-cases (boff == y)) [
          | inl here ↦
              let used : 0 < refs b.dblkref f.iblkrefs + ext b.dblkref =
                omega (arith, refs-fetch boff f.iblkrefs b hit) in
              let hit' : fetch y f.iblkrefs ≡ some b = ground arith in
              ground (
                arith,
                byte_at-some copied (repoint boff d f.iblkrefs) x (record b { dblkref = d }),
                byte_at-some s f.iblkrefs x b hit',
                copied_bytes (x % 4096),
                n.same.bn b.dblkref used,
                n.same.bytes b.dblkref (x % 4096) used,
              )
          | inr other ↦
              byte_at_congr copied f.iblkrefs (repoint boff d f.iblkrefs) x (rw other at put)
              ∙ byte_at-Same f.iblkrefs x (λ d h. omega arith) copied-Same
        ]

    pub copied-Kept : Kept s f ext copied repointed
    copied-Kept = record {
      file = record {
        consistent = copied-IsConsistent;
        sorted = repoint-IsSortedFrom boff d 0 f.iblkrefs v.sorted;
        blocks = omega (arith, v.blocks, length-repoint boff d f.iblkrefs);
      };
      content = content-copied;
      same = Same-mono ext (λ e h. omega arith) copied-Same;
      size = refl;
      mode = refl;
    }

    pub copied-Owned : Owned repointed ext boff (record b { dblkref = d })
    copied-Owned = record {
      found = ground (arith, fetch-repoint boff boff d f.iblkrefs b hit);
      alone = ground (
        arith,
        refs-repoint d boff d f.iblkrefs b hit,
        n.unused,
        refs-fetch boff f.iblkrefs b hit,
      );
    }
