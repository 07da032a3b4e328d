-- ===== src/Toyfs/Io/Page.antt =====
-- Bytes written to a page that a file has to itself.
use zufs_zus.Common.{
  ℕ, ◌+◌, ◌-◌, ◌*◌, ◌/◌, ◌%◌, ◌≤◌, ◌<◌, ◌≡◌, ◌≢◌, refl, inl, inr, ◌&&◌, some, ltb, leb, ◌==◌,
  if◌then◌else◌, arith, Bool-cases, Option-cases,
}
use zufs_zus.Toyfs.Pool.{Sbi}
use zufs_zus.Toyfs.Pool.Inv.{Uses, Same}
use zufs_zus.Toyfs.Blocks.{Iblkref, Inode, copy_in, fetch}
use zufs_zus.Toyfs.Blocks.Chain.{refs-fetch, refs-fetch_two}
use zufs_zus.Toyfs.Blocks.Content.{IsFile, byte_at, byte_at-none, byte_at-some}
use zufs_zus.Toyfs.Blocks.Kept.{Owned}

module _ {s : Sbi} {f : Inode} {ext : Uses} (v : IsFile s f ext) (off len : ℕ) (src : ℕ → ℕ)
    {b : Iblkref} (o : Owned f ext (off / 4096 * 4096) b) (fits : off % 4096 + len ≤ 4096) where
  abbrev pub filled : Sbi
  filled = copy_in s (s.dblk b.dblkref).bn src (off % 4096) len

  pub filled-IsFile : IsFile filled f ext
  unfolding copy_in
  filled-IsFile =
      let w = v.consistent in
      record {
        consistent = record {
          counted = w.counted;
          distinct = w.distinct;
          page_used = w.page_used;
          ref_used = w.ref_used;
          pages_once = w.pages_once;
          refs_once = w.refs_once;
          cut = w.cut;
          apart = w.apart;
        };
        sorted = v.sorted;
        blocks = v.blocks;
      }

  pub filled-Same : Same ext s filled
  unfolding copy_in
  filled-Same = record {
    bn = λ d h. refl;
    bytes = λ d i h. ground (
      arith,
      v.consistent.distinct d b.dblkref,
      o.alone,
      refs-fetch (off / 4096 * 4096) f.iblkrefs b o.found,
    );
  }

  -- another page of the file
  filled_other :
      (y i : ℕ) (c : Iblkref)
      → fetch y f.iblkrefs ≡ some c
      → y ≢ off / 4096 * 4096
      → filled.mem (filled.dblk c.dblkref).bn i ≡ s.mem (s.dblk c.dblkref).bn i
  unfolding copy_in
  filled_other y i c h ne = ground (
    arith,
    v.consistent.distinct c.dblkref b.dblkref,
    o.alone,
    refs-fetch y f.iblkrefs c h,
    refs-fetch (off / 4096 * 4096) f.iblkrefs b o.found,
    refs-fetch_two (off / 4096 * 4096) y f.iblkrefs b c o.found h,
  )

  filled_here :
      (i : ℕ)
      → filled.mem (filled.dblk b.dblkref).bn i ≡ (
          if leb (off % 4096) i && ltb i (off % 4096 + len)
          then src (i - off % 4096)
          else s.mem (s.dblk b.dblkref).bn i)
  unfolding copy_in
  filled_here i = ground arith

  pub byte_at-filled :
      (x : ℕ)
      → byte_at filled f.iblkrefs x
        ≡ (if leb off x && ltb x (off + len) then src (x - off) else byte_at s f.iblkrefs x)
  byte_at-filled x =
      let y = x / 4096 * 4096 in
      elim (Option-cases (fetch y f.iblkrefs)) [
        | inl e ↦ ground (
          arith,
          byte_at-none s f.iblkrefs x e,
          byte_at-none filled f.iblkrefs x e,
          o.found,
          same_page x,
        )
        | inr (c, e) ↦ elim (Bool-cases (y == off / 4096 * 4096)) [
          | inl here ↦
              let same : fetch y f.iblkrefs ≡ some b = ground (arith, o.found) in
              ground (
                arith,
                byte_at-some s f.iblkrefs x b same,
                byte_at-some filled f.iblkrefs x b same,
                filled_here (x % 4096),
              )
          | inr other ↦ ground (
            arith,
            byte_at-some s f.iblkrefs x c e,
            byte_at-some filled f.iblkrefs x c e,
            filled_other y (x % 4096) c e,
            same_page x,
          )
        ]
      ]
    where
      same_page : (x : ℕ) → off ≤ x → x < off + len → x / 4096 * 4096 ≡ off / 4096 * 4096
      same_page x h h' = omega arith
