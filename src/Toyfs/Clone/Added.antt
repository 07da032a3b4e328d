-- ===== src/Toyfs/Clone/Added.antt =====
-- `_clone_entire_file_range`, fs/toyfs/file.c: its loop over the iblkrefs of the source.
use zufs_zus.Common.{
  length-append, ℕ, ◌+◌, ◌*◌, ◌/◌, ◌≤◌, ◌≡◌, refl, sym, ◌∙◌, ◌⊎◌, inl, inr, Option, none, some,
  List, [], ◌∷◌, ◌++◌, length, ◌==◌, arith, Bool-cases, Option-cases,
}
use zufs_zus.Toyfs.Errno.{Errno, enospc}
use zufs_zus.Toyfs.Pool.{Sbi, acquire_iblkref}
use zufs_zus.Toyfs.Pool.Inv.{Uses, add, IsConsistent, Same, Same-refl, Same-trans}
use zufs_zus.Toyfs.Pool.Acquire.{Quiet-Same}
use zufs_zus.Toyfs.Pool.Iblkrefs.{acquire_iblkref_lem}
use zufs_zus.Toyfs.Blocks.{Iblkref, Inode, fetch}
use zufs_zus.Toyfs.Blocks.Chain.{refs, IsSortedFrom}
use zufs_zus.Toyfs.Blocks.Content.{
  uses, IsFile, byte_at, byte_at-none, byte_at-some, IsConsistent-mono, Same-mono,
}
use zufs_zus.Toyfs.Clone.{incref, clone_all}
use zufs_zus.Toyfs.Clone.Share.{incref_lem}

-- The same dblkrefs at the same offsets, under other names in the pool.
abbrev pub Alike : List Iblkref → List Iblkref → Type 0
Alike [] [] = Unit
Alike [] (c ∷ m) = ⊥
Alike (b ∷ l) [] = ⊥
Alike (b ∷ l) (c ∷ m) = (b.off ≡ c.off) × (b.dblkref ≡ c.dblkref) × Alike l m

Alike-append_nil : (l : List Iblkref) → Alike l (l ++ [])
Alike-append_nil [] = tt
Alike-append_nil (b ∷ l) = (refl, refl, Alike-append_nil l)

refs-append : (d : ℕ) (l m : List Iblkref) → refs d (l ++ m) ≡ refs d l + refs d m
refs-append d [] m = omega arith
refs-append d (b ∷ l) m = ground (arith, refs-append d l m)

-- the file's list once the copy `c` of `b` has been added to it
module _ (b c : Iblkref) (off : c.off ≡ b.off) (dblkref : c.dblkref ≡ b.dblkref) where
  IsSortedFrom-snoc :
      (lo : ℕ) (l m : List Iblkref)
      → IsSortedFrom lo (l ++ (b ∷ m))
      → IsSortedFrom lo ((l ++ (c ∷ [])) ++ m)
  IsSortedFrom-snoc lo [] m s = rw off s
  IsSortedFrom-snoc lo (a ∷ l) m s = (s.0, IsSortedFrom-snoc (a.off + 1) l m s.1)

  Alike-snoc : (k l m : List Iblkref) → Alike k ((l ++ (c ∷ [])) ++ m) → Alike k (l ++ (b ∷ m))
  Alike-snoc [] [] m h = absurd h
  Alike-snoc [] (a ∷ l) m h = absurd h
  Alike-snoc (e ∷ k) [] m h = (h.0 ∙ off, h.1 ∙ dblkref, h.2)
  Alike-snoc (e ∷ k) (a ∷ l) m h = (h.0, h.1, Alike-snoc k l m h.2)

IsSortedFrom-prefix : (lo : ℕ) (l m : List Iblkref) → IsSortedFrom lo (l ++ m) → IsSortedFrom lo l
IsSortedFrom-prefix lo [] m s = tt
IsSortedFrom-prefix lo (a ∷ l) m s = (s.0, IsSortedFrom-prefix (a.off + 1) l m s.1)

fetch-Alike :
    (y : ℕ) (l m : List Iblkref)
    → Alike l m
    → ((fetch y l ≡ none) × (fetch y m ≡ none))
      ⊎ ((b c : Iblkref) × (fetch y l ≡ some b) × (fetch y m ≡ some c) × (b.dblkref ≡ c.dblkref))
unfolding fetch
fetch-Alike y [] [] h = inl (refl, refl)
fetch-Alike y [] (c ∷ m) h = absurd h
fetch-Alike y (b ∷ l) [] h = absurd h
fetch-Alike y (b ∷ l) (c ∷ m) h = elim (Bool-cases (b.off == y)) [
  | inl e ↦ inr (b, c, ground arith, ground (arith, h.0), h.1)
  | inr e ↦ elim (fetch-Alike y l m h.2) [
    | inl (p, q) ↦ inl (ground arith, ground (arith, h.0))
    | inr (b', c', p, q, r) ↦ inr (b', c', ground arith, ground (arith, h.0), r)
  ]
]

pub byte_at-Alike :
    (s : Sbi) (l m : List Iblkref) (x : ℕ) → Alike l m → byte_at s l x ≡ byte_at s m x
byte_at-Alike s l m x h = elim (fetch-Alike (x / 4096 * 4096) l m h) [
  | inl (e, e') ↦ byte_at-none s l x e ∙ sym (byte_at-none s m x e')
  | inr (b, c, e, e', q) ↦ ground (arith, byte_at-some s l x b e, byte_at-some s m x c e')
]

-- After the iblkrefs `l` of the source have been added.
pub record Added (s : Sbi) (h : Inode) (ext : Uses) (l : List Iblkref) (rc : Option Errno) (t : Sbi)
    (k : Inode) : Type 0 where
  pub file : IsFile t k ext
  pub same : Same ext s t
  pub size : k.i_size ≡ h.i_size
  pub mode : k.i_mode ≡ h.i_mode
  pub result : ((rc ≡ none) × Alike k.iblkrefs (h.iblkrefs ++ l)) ⊎ (rc ≡ some enospc)

-- a copy of `b`, named `i`
abbrev named : ℕ → Iblkref → Iblkref
named i b = record { node = i; dblkref = b.dblkref; off = b.off }

-- the file with that copy
abbrev grown : Inode → ℕ → Iblkref → Inode
grown h i b = record h { iblkrefs = h.iblkrefs ++ (named i b ∷ []); i_blocks = h.i_blocks + 1 }

module _ (s : Sbi) (b : Iblkref) (l : List Iblkref) (h : Inode) where
  clone_all_full :
      (acquire_iblkref s).0 ≡ none → clone_all s (b ∷ l) h ≡ (some enospc, (acquire_iblkref s).1, h)
  unfolding clone_all
  clone_all_full e = ground arith

  clone_all_step :
      (i : ℕ)
      → (acquire_iblkref s).0 ≡ some i
      → clone_all s (b ∷ l) h ≡ clone_all (incref (acquire_iblkref s).1 b.dblkref) l (grown h i b)
  unfolding clone_all
  clone_all_step i e = ground arith

module _ (b : Iblkref) (l : List Iblkref) (h : Inode) (i : ℕ) {ext : Uses} where
  grown-IsFile :
      {t : Sbi}
      → h.i_blocks ≡ length h.iblkrefs
      → IsConsistent t (add (uses h.iblkrefs ext) b.dblkref)
      → IsSortedFrom 0 (h.iblkrefs ++ (b ∷ l))
      → IsFile t (grown h i b) ext
  grown-IsFile blocks w sorted = record {
    consistent =
        IsConsistent-mono (uses (grown h i b).iblkrefs ext)
          (λ d. ground (arith, refs-append d h.iblkrefs (named i b ∷ []))) w;
    sorted =
        IsSortedFrom-prefix 0 (grown h i b).iblkrefs l
          (IsSortedFrom-snoc b (named i b) refl refl 0 h.iblkrefs l sorted);
    blocks = omega (arith, blocks, length-append h.iblkrefs (named i b ∷ []));
  }

  grown-Added :
      {s t v : Sbi} {k : Inode} {rc : Option Errno}
      → Same ext s t
      → Added t (grown h i b) ext l rc v k
      → Added s h ext (b ∷ l) rc v k
  grown-Added {k = k} q w = record {
    file = w.file;
    same = Same-trans q w.same;
    size = w.size;
    mode = w.mode;
    result = elim w.result [
      | inr e ↦ inr e
      | inl (e, like) ↦ inl (e, Alike-snoc b (named i b) refl refl k.iblkrefs h.iblkrefs l like)
    ];
  }

pub clone_all-Added :
    (l : List Iblkref) {s : Sbi} {h : Inode} {ext : Uses}
    → IsFile s h ext
    → ((d : ℕ) → refs d l ≤ ext d)
    → IsSortedFrom 0 (h.iblkrefs ++ l)
    → let (rc, t, k) = clone_all s l h in Added s h ext l rc t k
unfolding clone_all
clone_all-Added [] {s} {h} {ext} v used sorted = record {
  file = v;
  same = Same-refl ext s;
  size = refl;
  mode = refl;
  result = inl (refl, Alike-append_nil h.iblkrefs);
}
clone_all-Added (b ∷ l) {s} {h} {ext} v used sorted = elim (Option-cases (acquire_iblkref s).0) [
  | inl full ↦
      let (w, q) = acquire_iblkref_lem v.consistent in
      rw (clone_all_full s b l h full) (record {
        file = record { consistent = w; sorted = v.sorted; blocks = v.blocks };
        same = Quiet-Same q;
        size = refl;
        mode = refl;
        result = inr refl;
      })
  | inr (i, got) ↦
      let (w, q) = acquire_iblkref_lem v.consistent in
      let (w', q') = incref_lem b.dblkref w (ground (arith, used b.dblkref)) in
      rw (clone_all_step s b l h i got) (
        grown-Added b l h i (Same-trans (Quiet-Same q) (Same-mono ext (λ d p. ground arith) q')) (
          clone_all-Added l (grown-IsFile b l h i v.blocks w' sorted) (λ d. ground (arith, used d))
            (IsSortedFrom-snoc b (named i b) refl refl 0 h.iblkrefs l sorted)))
]
