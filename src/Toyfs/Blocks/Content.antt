-- ===== src/Toyfs/Blocks/Content.antt =====
-- What a file of fs/toyfs holds, byte by byte, and when its block map is well formed.
use zufs_zus.Common.{
  ℕ, ◌+◌, ◌*◌, ◌/◌, ◌%◌, ◌≤◌, ◌<◌, ◌≡◌, inl, inr, Option, none, some, List, length, arith,
  Option-cases,
}
use zufs_zus.Toyfs.Pool.{Sbi}
use zufs_zus.Toyfs.Pool.Inv.{Uses, IsConsistent, Same}
use zufs_zus.Toyfs.Blocks.{Iblkref, Inode, fetch}
use zufs_zus.Toyfs.Blocks.Chain.{refs, IsSortedFrom, refs-fetch}

-- The references of a file's own list and those of all other files.
abbrev pub uses : List Iblkref → Uses → Uses
uses l ext d = refs d l + ext d

pub record IsFile (s : Sbi) (f : Inode) (ext : Uses) : Type 0 where
  pub consistent : IsConsistent s (uses f.iblkrefs ext)
  pub sorted : IsSortedFrom 0 f.iblkrefs
  pub blocks : f.i_blocks ≡ length f.iblkrefs

byte_of : Sbi → Option Iblkref → ℕ → ℕ
byte_of s none o = 0
byte_of s (some b) o = s.mem (s.dblk b.dblkref).bn o

-- The byte at `x`: that of the page that the block map names, or zero in a hole.
pub byte_at : Sbi → List Iblkref → ℕ → ℕ
unfolding byte_of
byte_at s l x = byte_of s (fetch (x / 4096 * 4096) l) (x % 4096)

pub byte_at-none :
    (s : Sbi) (l : List Iblkref) (x : ℕ) → fetch (x / 4096 * 4096) l ≡ none → byte_at s l x ≡ 0
unfolding byte_at
byte_at-none s l x h = ground arith

pub byte_at-some :
    (s : Sbi) (l : List Iblkref) (x : ℕ) (b : Iblkref)
    → fetch (x / 4096 * 4096) l ≡ some b
    → byte_at s l x ≡ s.mem (s.dblk b.dblkref).bn (x % 4096)
unfolding byte_at
byte_at-some s l x b h = ground arith

-- A change that spares the pages in use keeps the bytes of every file that names them.
pub byte_at-Same :
    {u : Uses} {s t : Sbi} (l : List Iblkref) (x : ℕ)
    → ((d : ℕ) → 0 < refs d l → 0 < u d)
    → Same u s t
    → byte_at t l x ≡ byte_at s l x
byte_at-Same {s} {t} l x used q = elim (Option-cases (fetch (x / 4096 * 4096) l)) [
  | inl e ↦ rw (byte_at-none s l x e, byte_at-none t l x e)
  | inr (b, e) ↦
      let h = used b.dblkref (refs-fetch (x / 4096 * 4096) l b e) in
      ground (
        arith,
        byte_at-some s l x b e,
        byte_at-some t l x b e,
        q.bn b.dblkref h,
        q.bytes b.dblkref (x % 4096) h,
      )
]

pub IsConsistent-mono :
    {s : Sbi} {u : Uses} (w : Uses) → ((d : ℕ) → w d ≤ u d) → IsConsistent s u → IsConsistent s w
IsConsistent-mono w le v = record {
  counted = λ d. omega (arith, le d, v.counted d);
  distinct = λ d e h h'. ground (arith, le d, le e, v.distinct d e);
  page_used = λ d h. ground (arith, le d, v.page_used d);
  ref_used = λ d h. ground (arith, le d, v.ref_used d);
  pages_once = v.pages_once;
  refs_once = v.refs_once;
  cut = λ d h. ground (arith, le d, v.cut d);
  apart = λ d e h h' q. ground (arith, le d, le e, v.apart d e);
}

pub Same-mono :
    {s t : Sbi} {u : Uses} (w : Uses) → ((d : ℕ) → 0 < w d → 0 < u d) → Same u s t → Same w s t
Same-mono w le q = record { bn = λ d h. q.bn d (le d h); bytes = λ d o h. q.bytes d o (le d h) }

pub byte_at_congr :
    (s : Sbi) (l m : List Iblkref) (x : ℕ)
    → fetch (x / 4096 * 4096) m ≡ fetch (x / 4096 * 4096) l
    → byte_at s m x ≡ byte_at s l x
unfolding byte_at
byte_at_congr s l m x e = rw e
