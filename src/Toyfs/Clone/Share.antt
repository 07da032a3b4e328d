-- ===== src/Toyfs/Clone/Share.antt =====
-- `_share_page` and `_clone_range` of fs/toyfs/file.c: one page of a file shared with another.
use zufs_zus.Common.{
  ℕ, ◌+◌, ◌-◌, ◌*◌, ◌/◌, ◌%◌, ◌<◌, ◌≡◌, ◌≢◌, refl, sym, ◌∙◌, inl, inr, some, List, ◌==◌,
  if◌then◌else◌, arith, Option-cases,
}
use zufs_zus.Toyfs.Pool.{Sbi}
use zufs_zus.Toyfs.Pool.Inv.{Uses, add, IsConsistent, Same, Same-trans}
use zufs_zus.Toyfs.Blocks.{Iblkref, Inode, fetch, repoint, decref_dblkref}
use zufs_zus.Toyfs.Blocks.Chain.{
  refs, refs-fetch, refs-fetch_two, refs-repoint, fetch-repoint, length-repoint,
  repoint-IsSortedFrom,
}
use zufs_zus.Toyfs.Blocks.Content.{
  uses, IsFile, byte_at, byte_at-none, byte_at-some, IsConsistent-mono, Same-mono,
}
use zufs_zus.Toyfs.Blocks.Dblkrefs.{decref_dblkref_lem}
use zufs_zus.Toyfs.Clone.{incref, share_page}

-- A reference more, in the count and in the files.
pub incref_lem :
    {s : Sbi} {u : Uses} (d : ℕ)
    → IsConsistent s u
    → 0 < u d
    → IsConsistent (incref s d) (add u d) × Same (add u d) s (incref s d)
unfolding incref
incref_lem d v used = (
  record {
    counted = λ e. ground (arith, v.counted e);
    distinct = λ e k h h'. ground (arith, v.distinct e k);
    page_used = λ e h. ground (arith, v.page_used e);
    ref_used = λ e h. v.ref_used e (ground arith);
    pages_once = v.pages_once;
    refs_once = v.refs_once;
    cut = λ e h. v.cut e (ground arith);
    apart = λ e k h h'. ground (arith, v.apart e k);
  },
  record { bn = λ e h. ground arith; bytes = λ e o h. refl },
)

share_page_eq :
    (s : Sbi) (g : Inode) (src dst : Iblkref)
    → share_page s g src dst ≡ (
      incref (decref_dblkref s dst.dblkref) src.dblkref,
      record g { iblkrefs = repoint dst.off src.dblkref g.iblkrefs },
    )
unfolding share_page decref_dblkref
share_page_eq s g src dst = refl

-- The destination's page is the source's now; all other pages of the file are as they were.
pub record Shared (s : Sbi) (g : Inode) (ext : Uses) (boff : ℕ) (byte : ℕ → ℕ) (t : Sbi) (h : Inode)
    : Type 0 where
  pub file : IsFile t h ext
  pub same : Same ext s t
  pub size : h.i_size ≡ g.i_size
  pub mode : h.i_mode ≡ g.i_mode
  pub content :
      (x : ℕ)
      → byte_at t h.iblkrefs x
        ≡ (if x / 4096 * 4096 == boff then byte (x % 4096) else byte_at s g.iblkrefs x)

module _ {s : Sbi} {g : Inode} {ext : Uses} (v : IsFile s g ext) (src dst : Iblkref)
    (hit : fetch dst.off g.iblkrefs ≡ some dst) (used : 0 < ext src.dblkref) where
  abbrev list : List Iblkref
  list = repoint dst.off src.dblkref g.iblkrefs

  -- the references without the destination's to its old page
  abbrev less : Uses
  less d = refs d g.iblkrefs + ext d - (if d == dst.dblkref then 1 else 0)

  dropped :
      IsConsistent (decref_dblkref s dst.dblkref) less × Same less s (decref_dblkref s dst.dblkref)
  dropped = decref_dblkref_lem dst.dblkref (
      IsConsistent-mono (add less dst.dblkref)
        (λ d. ground (arith, refs-fetch dst.off g.iblkrefs dst hit)) v.consistent)

  shared_lem : let t = (share_page s g src dst).0 in IsConsistent t (uses list ext) × Same less s t
  shared_lem =
      let (w, q) = dropped in
      let at = refs-fetch dst.off g.iblkrefs dst hit in
      let (w', q') = incref_lem src.dblkref w (ground (arith, at, used)) in
      rw share_page_eq (
        IsConsistent-mono (uses list ext)
            (λ d. ground (arith, refs-repoint d dst.off src.dblkref g.iblkrefs dst hit, at)) w',
        Same-trans q (Same-mono less (λ d h. ground arith) q'),
      )

  module _ (t : Sbi) (q : Same less s t) (x : ℕ) where
    found : fetch (x / 4096 * 4096) list ≡ (
        if dst.off == x / 4096 * 4096
        then some (record dst { dblkref = src.dblkref })
        else fetch (x / 4096 * 4096) g.iblkrefs)
    found = fetch-repoint (x / 4096 * 4096) dst.off src.dblkref g.iblkrefs dst hit

    here : x / 4096 * 4096 ≡ dst.off → byte_at t list x ≡ s.mem (s.dblk src.dblkref).bn (x % 4096)
    here e =
        let pos : 0 < less src.dblkref =
          ground (arith, refs-fetch dst.off g.iblkrefs dst hit, used) in
        let got : fetch (x / 4096 * 4096) list ≡ some (record dst { dblkref = src.dblkref }) =
          ground (arith, found) in
        ground (
          arith,
          byte_at-some t list x (record dst { dblkref = src.dblkref }) got,
          q.bn src.dblkref pos,
          q.bytes src.dblkref (x % 4096) pos,
        )

    elsewhere : x / 4096 * 4096 ≢ dst.off → byte_at t list x ≡ byte_at s g.iblkrefs x
    elsewhere ne =
        let same : fetch (x / 4096 * 4096) list ≡ fetch (x / 4096 * 4096) g.iblkrefs =
          ground (arith, found) in
        elim (Option-cases (fetch (x / 4096 * 4096) g.iblkrefs)) [
          | inl miss ↦ byte_at-none t list x (same ∙ miss) ∙ sym (byte_at-none s g.iblkrefs x miss)
          | inr (c, e) ↦
              let pos : 0 < less c.dblkref = ground (
                arith,
                refs-fetch (x / 4096 * 4096) g.iblkrefs c e,
                refs-fetch_two (x / 4096 * 4096) dst.off g.iblkrefs c dst e hit,
              ) in
              ground (
                arith,
                byte_at-some t list x c (same ∙ e),
                byte_at-some s g.iblkrefs x c e,
                q.bn c.dblkref pos,
                q.bytes c.dblkref (x % 4096) pos,
              )
        ]

  pub share_page-Shared :
      let (t, h) = share_page s g src dst in
      Shared s g ext dst.off (λ o. s.mem (s.dblk src.dblkref).bn o) t h
  unfolding share_page repoint
  share_page-Shared =
      let (w, q) = shared_lem in
      let t : Sbi = (share_page s g src dst).0 in
      record {
        file = record {
          consistent = w;
          sorted = repoint-IsSortedFrom dst.off src.dblkref 0 g.iblkrefs v.sorted;
          blocks = omega (arith, v.blocks, length-repoint dst.off src.dblkref g.iblkrefs);
        };
        same = Same-mono ext (λ d h. ground (arith, refs-fetch dst.off g.iblkrefs dst hit, h)) q;
        size = refl;
        mode = refl;
        content = λ x. ground (arith, here t q x, elsewhere t q x);
      }
