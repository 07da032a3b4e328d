-- ===== src/Toyfs/Blocks/Insert.antt =====
-- A new page put into the block map by `_require_iblkref` of fs/toyfs/file.c.
use zufs_zus.Common.{ℕ, ◌+◌, ◌*◌, ◌/◌, ◌%◌, ◌≡◌, refl, ◌∙◌, inl, inr, none, ◌==◌, arith, Bool-cases}
use zufs_zus.Toyfs.Pool.{Sbi}
use zufs_zus.Toyfs.Pool.Inv.{Uses}
use zufs_zus.Toyfs.Blocks.{Iblkref, Inode, fetch, walk, insert}
use zufs_zus.Toyfs.Blocks.Chain.{
  walk-eq-fetch, fetch-insert, refs-insert, length-insert, insert-IsSortedFrom,
}
use zufs_zus.Toyfs.Blocks.Content.{
  uses, IsFile, byte_at, byte_at-none, byte_at-some, byte_at-Same, byte_at_congr, IsConsistent-mono,
  Same-mono,
}
use zufs_zus.Toyfs.Blocks.Iblkrefs.{NewIblkref}
use zufs_zus.Toyfs.Blocks.Kept.{Kept, Owned}

module _ {s : Sbi} {f : Inode} {ext : Uses} (v : IsFile s f ext) (boff : ℕ) where
  module _ {b : Iblkref} {t : Sbi} (n : NewIblkref s (uses f.iblkrefs ext) b t) (o : b.off ≡ boff)
      (miss : walk boff f.iblkrefs ≡ none) where
    content-insert : (x : ℕ) → byte_at t (insert b f.iblkrefs) x ≡ byte_at s f.iblkrefs x
    content-insert x =
        let y = x / 4096 * 4096 in
        let put = fetch-insert y b f.iblkrefs (rw o miss) in
        elim (Bool-cases (b.off == y)) [
          | inl here ↦
              let hole : fetch y f.iblkrefs ≡ none =
                ground (arith, walk-eq-fetch boff 0 f.iblkrefs v.sorted) in
              ground (
                arith,
                byte_at-some t (insert b f.iblkrefs) x b,
                byte_at-none s f.iblkrefs x hole,
                n.zeros (x % 4096),
              )
          | inr other ↦
              byte_at_congr t f.iblkrefs (insert b f.iblkrefs) x (rw other at put)
              ∙ byte_at-Same f.iblkrefs x (λ d h. omega arith) n.same
        ]

    abbrev pub inserted : Inode
    inserted = record f { i_blocks = f.i_blocks + 1; iblkrefs = insert b f.iblkrefs }

    pub insert-Kept : Kept s f ext t inserted
    insert-Kept = record {
      file = record {
        consistent =
            IsConsistent-mono _ (λ d. ground (arith, refs-insert d b f.iblkrefs)) n.consistent;
        sorted = insert-IsSortedFrom b 0 f.iblkrefs v.sorted (omega arith) (rw o miss);
        blocks = omega (arith, v.blocks, length-insert b f.iblkrefs);
      };
      content = content-insert;
      same = Same-mono ext (λ d h. omega arith) n.same;
      size = refl;
      mode = refl;
    }

    pub insert-Owned : Owned inserted ext boff b
    insert-Owned = record {
      found = ground (arith, fetch-insert boff b f.iblkrefs);
      alone = ground (arith, refs-insert b.dblkref b f.iblkrefs, n.unused);
    }
