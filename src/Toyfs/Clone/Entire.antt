-- ===== src/Toyfs/Clone/Entire.antt =====
-- `_clone_entire_file_range` of fs/toyfs/file.c: a file made a copy of another one, all of its pages
-- shared.
use zufs_zus.Common.{
  ℕ, suc, ◌≡◌, refl, sym, ap, ◌∙◌, ◌⊎◌, inl, inr, Option, none, some, List, [], ◌∷◌, ◌++◌, length,
  if◌then◌else◌, arith, Option-cases,
}
use zufs_zus.Toyfs.Errno.{Errno, enospc}
use zufs_zus.Toyfs.Pool.{Sbi}
use zufs_zus.Toyfs.Pool.Inv.{Uses, Same, Same-trans}
use zufs_zus.Toyfs.Blocks.{Iblkref, Inode, fetch}
use zufs_zus.Toyfs.Blocks.Chain.{IsSortedFrom}
use zufs_zus.Toyfs.Blocks.Content.{uses, IsFile, byte_at, byte_at-Same}
use zufs_zus.Toyfs.Trunc.{drop_loop, drop_range}
use zufs_zus.Toyfs.Trunc.Drop.{past, drop_loop-all-Dropped}
use zufs_zus.Toyfs.Clone.{clone_all, clone_entire_file_range}
use zufs_zus.Toyfs.Clone.Added.{Alike, byte_at-Alike, clone_all-Added}

fetch-empty : (l : List Iblkref) → ((y : ℕ) → fetch y l ≡ none) → l ≡ []
unfolding fetch
fetch-empty [] h = refl
fetch-empty (b ∷ l) h = let none_there = h b.off in absurd (ground arith)

past_all : (l : List Iblkref) (y : ℕ) → (if past 0 l y then none else fetch y l) ≡ none
past_all l y = elim (Option-cases (fetch y l)) [ inl e ↦ ground arith | inr (b, e) ↦ ground arith ]

drop_range-all :
    {s : Sbi} {g : Inode} {ext : Uses}
    → IsFile s g ext
    → let (t, h) = drop_range s g 0 in
      IsFile t h ext
      × Same ext s t
      × (h.iblkrefs ≡ [])
      × (h.i_size ≡ g.i_size)
      × (h.i_mode ≡ g.i_mode)
unfolding drop_range
drop_range-all {s} {g} v =
    let d = drop_loop-all-Dropped 0 v in
    (
      d.file,
      d.same,
      fetch-empty (drop_loop 0 g.iblkrefs s g).1.iblkrefs
          (λ y. d.fetched y ∙ past_all g.iblkrefs y),
      d.size,
      d.mode,
    )

pub record ClonedFile (s : Sbi) (f g : Inode) (ext : Uses) (rc : Option Errno) (t : Sbi) (k : Inode)
    : Type 0 where
  pub file : IsFile t k (uses f.iblkrefs ext)
  pub others : Same (uses f.iblkrefs ext) s t
  pub mode : k.i_mode ≡ g.i_mode
  pub result :
      ((rc ≡ none)
        × (k.i_size ≡ f.i_size)
        × (k.i_blocks ≡ f.i_blocks)
        × ((x : ℕ) → byte_at t k.iblkrefs x ≡ byte_at s f.iblkrefs x))
      ⊎ ((rc ≡ some enospc) × (k.i_size ≡ g.i_size))

module _ (s : Sbi) (f g : Inode) where
  abbrev emptied : Sbi × Inode
  emptied = drop_range s g 0

  abbrev added : Option Errno × Sbi × Inode
  added = clone_all emptied.0 f.iblkrefs emptied.1

  clone_entire_full :
      added.0 ≡ some enospc → clone_entire_file_range s f g ≡ (some enospc, added.1, added.2)
  unfolding clone_entire_file_range
  clone_entire_full e = ground arith

  clone_entire_done :
      added.0 ≡ none
      → clone_entire_file_range s f g ≡ (none, added.1, record added.2 { i_size = f.i_size })
  unfolding clone_entire_file_range
  clone_entire_done e = ground arith

length-Alike : (l m : List Iblkref) → Alike l m → length l ≡ length m
length-Alike [] [] h = refl
length-Alike [] (c ∷ m) h = absurd h
length-Alike (b ∷ l) [] h = absurd h
length-Alike (b ∷ l) (c ∷ m) h = ap suc (length-Alike l m h.2)

-- Cloning a whole file either succeeds, and then the destination has the source's size, its number
-- of blocks and every byte of it, or fails with ENOSPC and keeps its size; the source and all other
-- files keep their bytes, and the block map's invariant holds with the shared pages counted.
pub clone_entire_file_range_lem :
    {s : Sbi} {f g : Inode} {ext : Uses}
    → IsFile s g (uses f.iblkrefs ext)
    → IsFile s f (uses g.iblkrefs ext)
    → let (rc, t, k) = clone_entire_file_range s f g in ClonedFile s f g ext rc t k
clone_entire_file_range_lem {s} {f} {g} {ext} v source =
    let (file, same, empty, size, mode) = drop_range-all v in
    let first : IsSortedFrom 0 ((emptied s f g).1.iblkrefs ++ f.iblkrefs) =
      rw empty source.sorted in
    let w = clone_all-Added f.iblkrefs file (λ d. omega arith) first in
    let t : Sbi = (added s f g).1 in
    elim w.result [
      | inr e ↦ rw (clone_entire_full s f g e) (record {
        file = w.file;
        others = Same-trans same w.same;
        mode = w.mode ∙ mode;
        result = inr (refl, w.size ∙ size);
      })
      | inl (e, like) ↦
          let like' : Alike (added s f g).2.iblkrefs f.iblkrefs = rw empty at like in
          let n = length-Alike (added s f g).2.iblkrefs f.iblkrefs like' in
          rw (clone_entire_done s f g e) (record {
            file = record {
              consistent = w.file.consistent;
              sorted = w.file.sorted;
              blocks = w.file.blocks;
            };
            others = Same-trans same w.same;
            mode = w.mode ∙ mode;
            result = inl (
              refl,
              refl,
              w.file.blocks ∙ n ∙ sym source.blocks,
              λ x.
                  byte_at-Alike t (added s f g).2.iblkrefs f.iblkrefs x like'
                  ∙ byte_at-Same f.iblkrefs x (λ d p. omega arith) (Same-trans same w.same),
            );
          })
    ]
