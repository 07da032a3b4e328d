-- ===== src/Toyfs/Clone/Page.antt =====
-- `_clone_range` of fs/toyfs/file.c: one whole page cloned.
use Prim.Native.Nat.{max}
use zufs_zus.Common.{
  ℕ, ◌+◌, ◌-◌, ◌*◌, ◌/◌, ◌%◌, ◌<◌, ◌≡◌, refl, sym, subst, ◌∙◌, ◌⊎◌, inl, inr, ◌&&◌, Option, none,
  some, ltb, leb, ◌==◌, arith, Bool-cases, Option-cases,
}
use zufs_zus.Toyfs.Errno.{Errno, enospc}
use zufs_zus.Toyfs.Pool.{Sbi}
use zufs_zus.Toyfs.Pool.Inv.{Uses, Same-refl, Same-trans}
use zufs_zus.Toyfs.Blocks.{
  Iblkref, Inode, fetch, off_to_boff, off_in_page, require_iblkref, unique_pmemb,
}
use zufs_zus.Toyfs.Blocks.Chain.{off-fetch, refs-fetch}
use zufs_zus.Toyfs.Blocks.Content.{uses, IsFile, byte_at, byte_at-none, byte_at-some}
use zufs_zus.Toyfs.Blocks.Kept.{Kept, Owned}
use zufs_zus.Toyfs.Blocks.Require.{require-Required}
use zufs_zus.Toyfs.Trunc.Unique.{unique_pmemb-Uniqued}
use zufs_zus.Toyfs.Trunc.Clear.{Cleared, Kept-Cleared, Cleared-trans, zeroed-Cleared}
use zufs_zus.Toyfs.Clone.{clone_range, clone_size}
use zufs_zus.Toyfs.Clone.Share.{Shared, share_page-Shared}
use zufs_zus.Toyfs.Clone.Pasted.{
  Cloned, clone_range_full, clone_range_shared, clone_range_holes, clone_range_stuck,
  clone_range_cleared,
}

sized-IsFile :
    {s : Sbi} {g : Inode} {ext : Uses} (n : ℕ) → IsFile s g ext → IsFile s (clone_size g n) ext
unfolding clone_size
sized-IsFile {g = g} n v = elim (Bool-cases (ltb g.i_size n)) [
  | inl e ↦ rw e (record { consistent = v.consistent; sorted = v.sorted; blocks = v.blocks })
  | inr e ↦ rw e v
]

inode-clone_size :
    (g : Inode) (n : ℕ)
    → ((clone_size g n).iblkrefs ≡ g.iblkrefs)
      × ((clone_size g n).i_mode ≡ g.i_mode)
      × ((clone_size g n).i_size ≡ max g.i_size n)
unfolding clone_size
inode-clone_size g n = (ground arith, ground arith, ground arith)

-- With the size set, or no space and nothing changed.
abbrev pub Ranged : Sbi → Inode → Inode → Uses → ℕ → ℕ → ℕ → Option Errno × Sbi × Inode → Type 0
Ranged s f g ext src dst len (r, t, h) =
    ((r ≡ none) × Cloned s f g ext src dst len t h)
    ⊎ ((r ≡ some enospc) × Kept s g (uses f.iblkrefs ext) t h)

module _ (s : Sbi) (f : Inode) (src dst : ℕ) (whole : (src % 4096 ≡ 0) × (dst % 4096 ≡ 0)) where
  -- the byte of a page of the source, by its place in the destination
  source_byte :
      (b : Iblkref) (x : ℕ)
      → fetch (src / 4096 * 4096) f.iblkrefs ≡ some b
      → x / 4096 * 4096 ≡ dst
      → byte_at s f.iblkrefs (src + (x - dst)) ≡ s.mem (s.dblk b.dblkref).bn (x % 4096)
  source_byte b x hit e =
      let page : (src + (x - dst)) / 4096 * 4096 ≡ src / 4096 * 4096 = omega (arith, e, whole) in
      let inside : (src + (x - dst)) % 4096 ≡ x % 4096 = omega (arith, e, whole) in
      byte_at-some s f.iblkrefs (src + (x - dst)) b (rw page hit) ∙ rw inside

  source_hole :
      (x : ℕ)
      → fetch (src / 4096 * 4096) f.iblkrefs ≡ none
      → x / 4096 * 4096 ≡ dst
      → byte_at s f.iblkrefs (src + (x - dst)) ≡ 0
  source_hole x miss e =
      let page : (src + (x - dst)) / 4096 * 4096 ≡ src / 4096 * 4096 = omega (arith, e, whole) in
      byte_at-none s f.iblkrefs (src + (x - dst)) (rw page miss)

  in_page : (x : ℕ) → (leb dst x && ltb x (dst + 4096)) ≡ (x / 4096 * 4096 == dst)
  in_page x = ground (arith, whole)

module _ {s : Sbi} {f g : Inode} {ext : Uses} (v : IsFile s g (uses f.iblkrefs ext)) (src dst : ℕ)
    (whole : (src % 4096 ≡ 0) × (dst % 4096 ≡ 0)) where
  data-Cloned :
      (b c : Iblkref) {t v' : Sbi} {h k : Inode}
      → fetch (src / 4096 * 4096) f.iblkrefs ≡ some b
      → c.off ≡ dst
      → Kept s g (uses f.iblkrefs ext) t h
      → Shared t h (uses f.iblkrefs ext) c.off (λ o. t.mem (t.dblk b.dblkref).bn o) v' k
      → Cloned s f g ext src dst 4096 v' (clone_size k (dst + 4096))
  data-Cloned b c {t} {v'} {h} {k} hit at q w =
      let (list, mode, size) = inode-clone_size k (dst + 4096) in
      let used : 0 < uses f.iblkrefs ext b.dblkref =
        omega (arith, refs-fetch (src / 4096 * 4096) f.iblkrefs b hit) in
      record {
        file = sized-IsFile (dst + 4096) w.file;
        same = Same-trans q.same w.same;
        mode = mode ∙ w.mode ∙ q.mode;
        size_least = omega (arith, size, w.size, q.size);
        size_most = omega (arith, size, w.size, q.size);
        content = λ x. rw list (
            ground (
              arith,
              w.content x,
              q.content x,
              in_page s f src dst whole x,
              source_byte s f src dst whole b x hit,
              q.same.bn b.dblkref used,
              q.same.bytes b.dblkref (x % 4096) used,
            ));
      }

  hole-Cloned :
      {t : Sbi} {h : Inode}
      → fetch (src / 4096 * 4096) f.iblkrefs ≡ none
      → Cleared s g (uses f.iblkrefs ext) (λ x. leb dst x && ltb x (dst + 4096)) t h
      → Cloned s f g ext src dst 4096 t (clone_size h (dst + 4096))
  hole-Cloned {t} {h} miss q =
      let (list, mode, size) = inode-clone_size h (dst + 4096) in
      record {
        file = sized-IsFile (dst + 4096) q.file;
        same = q.same;
        mode = mode ∙ q.mode;
        size_least = omega (arith, size, q.size);
        size_most = omega (arith, size, q.size);
        content = λ x. rw list (
            ground (
              arith,
              q.content x,
              in_page s f src dst whole x,
              source_hole s f src dst whole x miss,
            ));
      }

  holes-Cloned :
      fetch (src / 4096 * 4096) f.iblkrefs ≡ none
      → fetch (dst / 4096 * 4096) g.iblkrefs ≡ none
      → Cloned s f g ext src dst 4096 s g
  holes-Cloned miss miss' = record {
    file = v;
    same = Same-refl (uses f.iblkrefs ext) s;
    mode = refl;
    size_least = omega arith;
    size_most = omega arith;
    content = λ x. ground (
      arith,
      in_page s f src dst whole x,
      source_hole s f src dst whole x miss,
      byte_at-none s g.iblkrefs x,
      whole,
    );
  }

  data-Ranged :
      (b : Iblkref)
      → fetch (src / 4096 * 4096) f.iblkrefs ≡ some b
      → Ranged s f g ext src dst 4096 (clone_range s f g src dst 4096)
  unfolding off_to_boff
  data-Ranged b hit =
      let (k, own) = require-Required v dst in
      elim (Option-cases (require_iblkref s g dst).0) [
        | inl full ↦ rw (clone_range_full s f g src dst 4096 b hit full) (inr (refl, k))
        | inr (c, got) ↦
            let o = own c got in
            let at = off-fetch (dst / 4096 * 4096) (require_iblkref s g dst).2.iblkrefs c o.found in
            let used : 0 < uses f.iblkrefs ext b.dblkref =
              omega (arith, refs-fetch (src / 4096 * 4096) f.iblkrefs b hit) in
            rw (clone_range_shared s f g src dst 4096 b hit c got) (
              inl (
                refl,
                data-Cloned b c hit (at ∙ omega (arith, whole)) k
                    (share_page-Shared k.file b c (rw (sym at) at o.found) used),
              ))
      ]

  hole-Ranged :
      fetch (src / 4096 * 4096) f.iblkrefs ≡ none
      → Ranged s f g ext src dst 4096 (clone_range s f g src dst 4096)
  unfolding off_to_boff off_in_page
  hole-Ranged miss = elim (Option-cases (fetch (dst / 4096 * 4096) g.iblkrefs)) [
    | inl miss' ↦
        rw (clone_range_holes s f g src dst 4096 miss miss') (inl (refl, holes-Cloned miss miss'))
    | inr (c, hit) ↦
        let at = off-fetch (dst / 4096 * 4096) g.iblkrefs c hit in
        let (k, own) =
          unique_pmemb-Uniqued v c (subst (λ z. fetch z g.iblkrefs ≡ some c) (sym at) hit) in
        elim (Option-cases (unique_pmemb s g c).0) [
          | inl full ↦ rw (clone_range_stuck s f g src dst 4096 miss c hit full) (inr (refl, k))
          | inr (p, got) ↦
              let (c', o, page) = own p got in
              let o' = subst (λ z. Owned (unique_pmemb s g c).2 (uses f.iblkrefs ext) z c') at o in
              rw (clone_range_cleared s f g src dst 4096 miss c hit p got, page)
                (inl (
                  refl,
                  hole-Cloned miss (
                      Cleared-trans (Kept-Cleared k)
                        (zeroed-Cleared k.file dst 4096 o' (omega (arith, whole)))),
                ))
        ]
  ]

  -- Cloning one whole page succeeds as `Cloned` says or finds no space and changes no byte.
  pub clone_range-Ranged : Ranged s f g ext src dst 4096 (clone_range s f g src dst 4096)
  clone_range-Ranged = elim (Option-cases (fetch (src / 4096 * 4096) f.iblkrefs)) [
    | inl miss ↦ hole-Ranged miss
    | inr (b, hit) ↦ data-Ranged b hit
  ]
