-- ===== src/Toyfs/Blocks/Require.antt =====
-- `_require_iblkref` of fs/toyfs/file.c: the page at an offset, made if there is none and copied if
-- other files share it.
use zufs_zus.Common.{
  ℕ, ◌≡◌, inl, inr, true, false, Option, none, some, ltb, arith, Bool-cases, Option-cases,
}
use zufs_zus.Toyfs.Pool.{Sbi}
use zufs_zus.Toyfs.Pool.Inv.{Uses}
use zufs_zus.Toyfs.Blocks.{
  Iblkref, Inode, off_to_boff, new_dblkref, new_iblkref, fetch, walk, insert, repoint, clone_data,
  copy_pmemb, require_iblkref,
}
use zufs_zus.Toyfs.Blocks.Chain.{walk-eq-fetch}
use zufs_zus.Toyfs.Blocks.Content.{IsFile}
use zufs_zus.Toyfs.Blocks.Dblkrefs.{new_dblkref-New, new_dblkref-none}
use zufs_zus.Toyfs.Blocks.Iblkrefs.{new_iblkref-got, new_iblkref-NewIblkref, new_iblkref-none}
use zufs_zus.Toyfs.Blocks.Kept.{Kept, Owned, Owned-some, Kept-refl, failed-Kept, unshared-Owned}
use zufs_zus.Toyfs.Blocks.Insert.{insert-Kept, insert-Owned}
use zufs_zus.Toyfs.Blocks.Copy.{copied-Kept, copied-Owned}

-- The branches of `_require_iblkref`.
module _ (s : Sbi) (f : Inode) (off : ℕ) where
  abbrev new_at : Option Iblkref × Sbi × Inode
  new_at = new_iblkref s f (off_to_boff off)

  require_found :
      (b : Iblkref)
      → walk (off_to_boff off) f.iblkrefs ≡ some b
      → ltb 1 (s.dblk b.dblkref).refcnt ≡ false
      → require_iblkref s f off ≡ (some b, s, f)
  unfolding require_iblkref
  require_found b h h' = ground arith

  require_shared :
      (b : Iblkref) (d : ℕ)
      → walk (off_to_boff off) f.iblkrefs ≡ some b
      → ltb 1 (s.dblk b.dblkref).refcnt ≡ true
      → (new_dblkref s).0 ≡ some d
      → require_iblkref s f off ≡ (
        some (record b { dblkref = d }),
        clone_data (new_dblkref s).1 d b.dblkref,
        record f { iblkrefs = repoint (off_to_boff off) d f.iblkrefs },
      )
  unfolding require_iblkref
  require_shared b d h h' g = ground arith

  require_shared_full :
      (b : Iblkref)
      → walk (off_to_boff off) f.iblkrefs ≡ some b
      → ltb 1 (s.dblk b.dblkref).refcnt ≡ true
      → (new_dblkref s).0 ≡ none
      → require_iblkref s f off ≡ (none, (new_dblkref s).1, f)
  unfolding require_iblkref
  require_shared_full b h h' g = ground arith

  require_missing :
      (b : Iblkref)
      → walk (off_to_boff off) f.iblkrefs ≡ none
      → new_at.0 ≡ some b
      → require_iblkref s f off
        ≡ (some b, new_at.1, record new_at.2 { iblkrefs = insert b new_at.2.iblkrefs })
  unfolding require_iblkref
  require_missing b h g = ground arith

  require_missing_full :
      walk (off_to_boff off) f.iblkrefs ≡ none → new_at.0 ≡ none → require_iblkref s f off ≡ new_at
  unfolding require_iblkref
  require_missing_full h g = ground arith

-- The bytes of the file stay as they are, and a page that is handed out is the file's own.
abbrev pub Required : Sbi → Inode → Uses → ℕ → Option Iblkref × Sbi × Inode → Type 0
Required s f ext boff (r, t, g) =
    Kept s f ext t g × ((b : Iblkref) → r ≡ some b → Owned g ext boff b)

module _ {s : Sbi} {f : Inode} {ext : Uses} (v : IsFile s f ext) (off : ℕ) where
  missing-Required :
      walk (off_to_boff off) f.iblkrefs ≡ none
      → Required s f ext (off_to_boff off) (require_iblkref s f off)
  missing-Required miss =
      let boff = off_to_boff off in
      elim (Option-cases (new_at s f off).0) [
        | inr (b, got) ↦
            let (_, o, _, e) = new_iblkref-got s f boff b got in
            let n = new_iblkref-NewIblkref v.consistent f boff b got in
            rw (require_missing s f off b miss got, e)
              (insert-Kept v boff n o miss, Owned-some (insert-Owned v boff n o miss))
        | inl full ↦
            let (w, q, e) = new_iblkref-none v.consistent f boff full in
            rw (require_missing_full s f off miss full, full, e)
              (failed-Kept v boff (w, q), λ b q. absurd (cc))
      ]

  found-Required :
      (b : Iblkref)
      → walk (off_to_boff off) f.iblkrefs ≡ some b
      → Required s f ext (off_to_boff off) (require_iblkref s f off)
  unfolding clone_data copy_pmemb
  found-Required b at =
      let boff = off_to_boff off in
      let hit : fetch boff f.iblkrefs ≡ some b =
        rw (walk-eq-fetch boff 0 f.iblkrefs v.sorted) at at in
      elim (Bool-cases (ltb 1 (s.dblk b.dblkref).refcnt)) [
        | inr own ↦
            rw (require_found s f off b at own)
              (Kept-refl v boff, Owned-some (unshared-Owned v boff b hit own))
        | inl shared ↦ elim (Option-cases (new_dblkref s).0) [
          | inl full ↦
              rw (require_shared_full s f off b at shared full)
                (failed-Kept v boff (new_dblkref-none v.consistent full), λ c q. absurd (cc))
          | inr (d, got) ↦
              let n = new_dblkref-New v.consistent d got in
              rw (require_shared s f off b d at shared got)
                (copied-Kept v boff n hit, Owned-some (copied-Owned v boff n hit))
        ]
      ]

  pub require-Required : Required s f ext (off_to_boff off) (require_iblkref s f off)
  require-Required = elim (Option-cases (walk (off_to_boff off) f.iblkrefs)) [
    | inl miss ↦ missing-Required miss
    | inr (b, at) ↦ found-Required b at
  ]
