-- ===== src/Toyfs/Trunc/Unique.antt =====
-- `_unique_pmemb` of fs/toyfs/file.c: a page of a file made the file's own before it is changed in
-- place.
use zufs_zus.Common.{
  ℕ, ◌*◌, ◌/◌, ◌<◌, ◌≡◌, sym, ◌∙◌, inl, inr, true, false, Option, none, some, some_eq, List, ltb,
  arith, Bool-cases, Option-cases,
}
use zufs_zus.Toyfs.Pool.{Sbi}
use zufs_zus.Toyfs.Pool.Inv.{Uses}
use zufs_zus.Toyfs.Blocks.{
  Iblkref, Inode, new_dblkref, fetch, repoint, copy_in, copy_pmemb, unique_pmemb,
}
use zufs_zus.Toyfs.Blocks.Chain.{refs-fetch, refs-repoint}
use zufs_zus.Toyfs.Blocks.Content.{uses, IsFile, byte_at, byte_at-none, byte_at-some}
use zufs_zus.Toyfs.Blocks.Dblkrefs.{new_dblkref-New, new_dblkref-none, lowered}
use zufs_zus.Toyfs.Blocks.Kept.{Kept, Owned, Kept-refl, failed-Kept, unshared-Owned}
use zufs_zus.Toyfs.Blocks.Copy.{copied-Kept, copied-Owned}

module _ (s : Sbi) (f : Inode) (b : Iblkref) where
  unique_own :
      ltb 1 (s.dblk b.dblkref).refcnt ≡ false
      → unique_pmemb s f b ≡ (some (s.dblk b.dblkref).bn, s, f)
  unfolding unique_pmemb
  unique_own h = ground arith

  unique_full :
      ltb 1 (s.dblk b.dblkref).refcnt ≡ true
      → (new_dblkref s).0 ≡ none
      → unique_pmemb s f b ≡ (none, (new_dblkref s).1, f)
  unfolding unique_pmemb
  unique_full h e = ground arith

  unique_copied :
      (d : ℕ)
      → ltb 1 (s.dblk b.dblkref).refcnt ≡ true
      → (new_dblkref s).0 ≡ some d
      → let t : Sbi = (new_dblkref s).1 in
        unique_pmemb s f b ≡ (
          some (t.dblk d).bn,
          lowered (copy_in t (t.dblk d).bn (t.mem (s.dblk b.dblkref).bn) 0 4096) b.dblkref,
          record f { iblkrefs = repoint b.off d f.iblkrefs },
        )
  unfolding unique_pmemb copy_pmemb copy_in
  unique_copied d h e = ground arith

byte_at-lowered :
    (s : Sbi) (d : ℕ) (l : List Iblkref) (x : ℕ) → byte_at (lowered s d) l x ≡ byte_at s l x
byte_at-lowered s d l x = elim (Option-cases (fetch (x / 4096 * 4096) l)) [
  | inl e ↦ rw (byte_at-none s l x e, byte_at-none (lowered s d) l x e)
  | inr (b, e) ↦ ground (arith, byte_at-some s l x b e, byte_at-some (lowered s d) l x b e)
]

lowered-Kept :
    {s t : Sbi} {f g : Inode} {ext : Uses} (d : ℕ)
    → Kept s f ext t g
    → uses g.iblkrefs ext d < (t.dblk d).refcnt
    → Kept s f ext (lowered t d) g
lowered-Kept {s} {t} {f} {g} d k h =
    let w = k.file.consistent in
    record {
      file = record {
        consistent = record {
          counted = λ e. ground (arith, w.counted e);
          distinct = λ e e' p p'. ground (arith, w.distinct e e');
          page_used = λ e p. ground (arith, w.page_used e);
          ref_used = w.ref_used;
          pages_once = w.pages_once;
          refs_once = w.refs_once;
          cut = w.cut;
          apart = λ e e' p p'. ground (arith, w.apart e e');
        };
        sorted = k.file.sorted;
        blocks = k.file.blocks;
      };
      content = λ x. byte_at-lowered t d g.iblkrefs x ∙ k.content x;
      same = record {
        bn = λ e p. ground (arith, k.same.bn e);
        bytes = λ e o p. ground (arith, k.same.bytes e o);
      };
      size = k.size;
      mode = k.mode;
    }

-- The page that is handed out belongs to the file alone.
abbrev pub Uniqued : Sbi → Inode → Uses → ℕ → Option ℕ × Sbi × Inode → Type 0
Uniqued s f ext boff (r, t, g) =
    Kept s f ext t g
    × ((p : ℕ) → r ≡ some p → (c : Iblkref) × Owned g ext boff c × (p ≡ (t.dblk c.dblkref).bn))

module _ {s : Sbi} {f : Inode} {ext : Uses} (v : IsFile s f ext) (b : Iblkref)
    (hit : fetch b.off f.iblkrefs ≡ some b) where
  copied-Uniqued :
      (d : ℕ)
      → ltb 1 (s.dblk b.dblkref).refcnt ≡ true
      → (new_dblkref s).0 ≡ some d
      → Uniqued s f ext b.off (unique_pmemb s f b)
  unfolding copy_in
  copied-Uniqued d shared got =
      let n = new_dblkref-New v.consistent d got in
      let t : Sbi = (new_dblkref s).1 in
      let same : (s.dblk b.dblkref).bn ≡ (t.dblk b.dblkref).bn =
        sym (n.same.bn b.dblkref (ground (arith, refs-fetch b.off f.iblkrefs b hit))) in
      rw (unique_copied s f b d shared got, same)
        (
          lowered-Kept b.dblkref (copied-Kept v b.off n hit) (
              ground (
                arith,
                n.consistent.counted b.dblkref,
                refs-repoint b.dblkref b.off d f.iblkrefs b hit,
              )),
          λ p e. (record b { dblkref = d }, copied-Owned v b.off n hit, ground (arith, some_eq e)),
        )

  pub unique_pmemb-Uniqued : Uniqued s f ext b.off (unique_pmemb s f b)
  unique_pmemb-Uniqued = elim (Bool-cases (ltb 1 (s.dblk b.dblkref).refcnt)) [
    | inr own ↦
        rw (unique_own s f b own)
          (Kept-refl v b.off, λ p e. (b, unshared-Owned v b.off b hit own, sym (some_eq e)))
    | inl shared ↦ elim (Option-cases (new_dblkref s).0) [
      | inl full ↦
          rw (unique_full s f b shared full)
            (failed-Kept v b.off (new_dblkref-none v.consistent full), λ p e. absurd (cc))
      | inr (d, got) ↦ copied-Uniqued d shared got
    ]
  ]
