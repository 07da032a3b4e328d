-- ===== src/Toyfs/Trunc/Dropped.antt =====
-- Dropping one block of a file, fs/toyfs/file.c.
use zufs_zus.Common.{
  ℕ, ◌+◌, ◌-◌, ◌*◌, ◌/◌, ◌≡◌, refl, ◌∙◌, inl, inr, Bool, none, some, List, [], ◌∷◌, length, ◌==◌,
  if◌then◌else◌, arith, Bool-cases,
}
use zufs_zus.Toyfs.Pool.{Sbi}
use zufs_zus.Toyfs.Pool.Inv.{Uses, add, IsConsistent, Same, Same-trans}
use zufs_zus.Toyfs.Pool.Acquire.{Quiet-Same}
use zufs_zus.Toyfs.Pool.Iblkrefs.{release_iblkref_lem}
use zufs_zus.Toyfs.Blocks.{Iblkref, Inode, free_iblkref, fetch}
use zufs_zus.Toyfs.Blocks.Chain.{refs, IsSortedFrom, IsSortedFrom-weaken, fetch-none}
use zufs_zus.Toyfs.Blocks.Content.{
  uses, IsFile, byte_at, byte_at-none, byte_at-Same, byte_at_congr, IsConsistent-mono, Same-mono,
}
use zufs_zus.Toyfs.Blocks.Dblkrefs.{decref_dblkref_lem}
use zufs_zus.Toyfs.Trunc.{remove, drop_iblkref}

remove-IsSortedFrom :
    (boff lo : ℕ) (l : List Iblkref) → IsSortedFrom lo l → IsSortedFrom lo (remove boff l)
unfolding remove
remove-IsSortedFrom boff lo [] s = tt
remove-IsSortedFrom boff lo (b ∷ l) s =
    ground
      (arith, remove-IsSortedFrom boff (b.off + 1) l, IsSortedFrom-weaken {lo = lo} (b.off + 1) l)

pub refs-remove :
    (d boff : ℕ) (l : List Iblkref) (b : Iblkref)
    → fetch boff l ≡ some b
    → (if d == b.dblkref then 1 else 0) + refs d (remove boff l) ≡ refs d l
unfolding fetch remove
refs-remove d boff [] b h = absurd (cc)
refs-remove d boff (c ∷ l) b h = ground (arith, refs-remove d boff l b)

length-remove :
    (boff : ℕ) (l : List Iblkref) (b : Iblkref)
    → fetch boff l ≡ some b
    → length (remove boff l) + 1 ≡ length l
unfolding fetch remove
length-remove boff [] b h = absurd (cc)
length-remove boff (c ∷ l) b h = ground (arith, length-remove boff l b)

pub fetch-remove :
    (x boff lo : ℕ) (l : List Iblkref)
    → IsSortedFrom lo l
    → fetch x (remove boff l) ≡ (if x == boff then none else fetch x l)
unfolding fetch remove
fetch-remove x boff lo [] s = ground arith
fetch-remove x boff lo (c ∷ l) s =
    ground (arith, fetch-remove x boff (c.off + 1) l, fetch-none x (c.off + 1) l)

-- Some pages are gone, those at the offsets `gone`; all else is as it was.
pub record Dropped (s : Sbi) (f : Inode) (ext : Uses) (gone : ℕ → Bool) (t : Sbi) (g : Inode)
    : Type 0 where
  pub file : IsFile t g ext
  pub same : Same ext s t
  pub size : g.i_size ≡ f.i_size
  pub mode : g.i_mode ≡ f.i_mode
  pub fetched : (y : ℕ) → fetch y g.iblkrefs ≡ (if gone y then none else fetch y f.iblkrefs)
  pub content :
      (x : ℕ)
      → byte_at t g.iblkrefs x ≡ (if gone (x / 4096 * 4096) then 0 else byte_at s f.iblkrefs x)

module _ {s : Sbi} {f : Inode} {ext : Uses} (v : IsFile s f ext) {b : Iblkref}
    (hit : fetch b.off f.iblkrefs ≡ some b) where
  abbrev pub rest : List Iblkref
  rest = remove b.off f.iblkrefs

  freed :
      IsConsistent (drop_iblkref s f b).0 (uses rest ext)
      × Same (uses rest ext) s (drop_iblkref s f b).0
  unfolding drop_iblkref free_iblkref
  freed =
      let w : IsConsistent s (add (uses rest ext) b.dblkref) =
        IsConsistent-mono (add (uses rest ext) b.dblkref)
          (λ d. omega (arith, refs-remove d b.off f.iblkrefs b hit)) v.consistent in
      let (w', q) = decref_dblkref_lem b.dblkref w in
      let (w'', q') = release_iblkref_lem w' b.node in (w'', Same-trans q (Quiet-Same q'))

  pub inode-drop_iblkref :
      (drop_iblkref s f b).1 ≡ record f { iblkrefs = rest; i_blocks = f.i_blocks - 1 }
  unfolding drop_iblkref free_iblkref
  inode-drop_iblkref = refl

  pub drop_iblkref-Dropped :
      let (t, g) = drop_iblkref s f b in Dropped s f ext (λ y. y == b.off) t g
  drop_iblkref-Dropped =
      let (w, q) = freed in
      let t : Sbi = (drop_iblkref s f b).0 in
      rw inode-drop_iblkref (record {
        file = record {
          consistent = w;
          sorted = remove-IsSortedFrom b.off 0 f.iblkrefs v.sorted;
          blocks = omega (arith, v.blocks, length-remove b.off f.iblkrefs b hit);
        };
        same = Same-mono ext (λ d h. omega arith) q;
        size = refl;
        mode = refl;
        fetched = λ y. fetch-remove y b.off 0 f.iblkrefs v.sorted;
        content = λ x.
            let found = fetch-remove (x / 4096 * 4096) b.off 0 f.iblkrefs v.sorted in
            elim (Bool-cases (x / 4096 * 4096 == b.off)) [
              | inl e ↦ byte_at-none t rest x (found ∙ rw e) ∙ rw e
              | inr e ↦
                  byte_at-Same rest x (λ d h. omega arith) q
                  ∙ byte_at_congr s f.iblkrefs rest x (found ∙ rw e)
                  ∙ rw e
            ];
      })
