-- ===== src/Toyfs/Blocks/Iblkrefs.antt =====
-- Taking an iblkref with a new page: `_new_iblkref` of fs/toyfs/file.c.
use zufs_zus.Common.{ℕ, ◌+◌, ◌≡◌, ◌⊎◌, inl, inr, none, some, arith, Option-cases}
use zufs_zus.Toyfs.Pool.{Sbi, acquire_iblkref}
use zufs_zus.Toyfs.Pool.Inv.{Uses, add, IsConsistent, Same, Same-trans}
use zufs_zus.Toyfs.Pool.Acquire.{Quiet-Same}
use zufs_zus.Toyfs.Pool.Iblkrefs.{acquire_iblkref_lem}
use zufs_zus.Toyfs.Blocks.{Iblkref, Inode, new_dblkref, decref_dblkref, new_iblkref}
use zufs_zus.Toyfs.Blocks.Dblkrefs.{new_dblkref-New, new_dblkref-none, decref_dblkref_lem}

module _ (s : Sbi) (f : Inode) (off : ℕ) where
  pub new_iblkref-got :
      (b : Iblkref)
      → (new_iblkref s f off).0 ≡ some b
      → ((new_dblkref s).0 ≡ some b.dblkref)
        × (b.off ≡ off)
        × ((new_iblkref s f off).1 ≡ (acquire_iblkref (new_dblkref s).1).1)
        × ((new_iblkref s f off).2 ≡ record f { i_blocks = f.i_blocks + 1 })
  unfolding new_iblkref
  new_iblkref-got b h = (ground arith, ground arith, ground arith, ground arith)

  new_iblkref-failed :
      (new_iblkref s f off).0 ≡ none
      → ((new_iblkref s f off).2 ≡ f)
        × ((((new_dblkref s).0 ≡ none) × ((new_iblkref s f off).1 ≡ (new_dblkref s).1))
            ⊎ ((d : ℕ) × ((new_dblkref s).0 ≡ some d)
                × ((new_iblkref s f off).1
                    ≡ decref_dblkref (acquire_iblkref (new_dblkref s).1).1 d)))
  unfolding new_iblkref
  new_iblkref-failed h = elim (Option-cases (new_dblkref s).0) [
    | inl e ↦ (ground arith, inl (e, ground arith))
    | inr (d, e) ↦ (ground arith, inr (d, e, ground arith))
  ]

-- What `_new_iblkref` hands out, at a file whose references are `u`.
pub record NewIblkref (s : Sbi) (u : Uses) (b : Iblkref) (t : Sbi) : Type 0 where
  pub consistent : IsConsistent t (add u b.dblkref)
  pub unused : u b.dblkref ≡ 0
  pub zeros : (o : ℕ) → t.mem (t.dblk b.dblkref).bn o ≡ 0
  pub same : Same u s t

module _ {s : Sbi} {u : Uses} (v : IsConsistent s u) (f : Inode) (off : ℕ) where
  pub new_iblkref-NewIblkref :
      (b : Iblkref) → (new_iblkref s f off).0 ≡ some b → NewIblkref s u b (new_iblkref s f off).1
  new_iblkref-NewIblkref b h =
      let (got, o, e, e') = new_iblkref-got s f off b h in
      let n = new_dblkref-New v b.dblkref got in
      let (w, q) = acquire_iblkref_lem n.consistent in
      rw e (record {
        consistent = w;
        unused = n.unused;
        zeros = λ o. rw (q.mem, q.dblk) (n.zeros o);
        same = Same-trans n.same (Quiet-Same q);
      })

  pub new_iblkref-none :
      (new_iblkref s f off).0 ≡ none
      → IsConsistent (new_iblkref s f off).1 u
        × Same u s (new_iblkref s f off).1
        × ((new_iblkref s f off).2 ≡ f)
  new_iblkref-none h =
      let (same, c) = new_iblkref-failed s f off h in
      elim c [
        | inl (failed, e) ↦ let (w, q) = new_dblkref-none v failed in rw e (w, q, same)
        | inr (d, got, e) ↦
            let n = new_dblkref-New v d got in
            let (w, q) = acquire_iblkref_lem n.consistent in
            let (w', q') = decref_dblkref_lem d w in
            rw e (w', Same-trans (Same-trans n.same (Quiet-Same q)) q', same)
      ]
