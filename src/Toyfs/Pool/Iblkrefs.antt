-- ===== src/Toyfs/Pool/Iblkrefs.antt =====
-- The free list of iblkrefs of fs/toyfs/super.c: taking or giving back an iblkref leaves the
-- dblkrefs and the bytes alone.
use zufs_zus.Common.{ℕ, ◌≡◌, refl, ap, ◌⊎◌, inl, inr, List, ◌∷◌, count, arith, List-cases}
use zufs_zus.Toyfs.Pool.{
  Sbi, pool_pop_pmemb, pool_add_free_iblkrefs, pool_pop_free_iblkref, pool_pop_iblkref,
  acquire_iblkref, release_iblkref,
}
use zufs_zus.Toyfs.Pool.Inv.{Uses, IsConsistent, pop_page-IsConsistent}
use zufs_zus.Toyfs.Pool.Quiet.{Quiet}

-- Only the iblkref list and the first free page may have changed.
record Popped (s t : Sbi) : Type 0 where
  dblk : t.dblk ≡ s.dblk
  mem : t.mem ≡ s.mem
  refs : t.free_dblkrefs ≡ s.free_dblkrefs
  pages : (t.pages ≡ s.pages) ⊎ ((p : ℕ) × (s.pages ≡ p ∷ t.pages))

module _ (s : Sbi) where
  pages-acquire_iblkref :
      ((acquire_iblkref s).1.pages ≡ s.pages)
      ⊎ ((p : ℕ) × (s.pages ≡ p ∷ (acquire_iblkref s).1.pages))
  unfolding acquire_iblkref pool_pop_iblkref pool_add_free_iblkrefs pool_pop_free_iblkref
      pool_pop_pmemb
  pages-acquire_iblkref = elim (List-cases s.free_iblkrefs) [
    | inr (i, rest, e) ↦ inl (ground arith)
    | inl e ↦ elim (List-cases s.pages) [
      | inl e' ↦ inl (ground arith)
      | inr (p, next, e') ↦ inr (p, ground arith)
    ]
  ]

  acquire_iblkref-Popped : Popped s (acquire_iblkref s).1
  unfolding acquire_iblkref pool_pop_iblkref pool_add_free_iblkrefs pool_pop_free_iblkref
      pool_pop_pmemb
  acquire_iblkref-Popped = record {
    dblk = ground arith;
    mem = ground arith;
    refs = ground arith;
    pages = pages-acquire_iblkref;
  }

module _ {s : Sbi} {u : Uses} (v : IsConsistent s u) where
  Popped-IsConsistent : {t : Sbi} → Popped s t → IsConsistent t u
  Popped-IsConsistent {t} q = elim q.pages [
    | inl e ↦ transfer s.pages v e
    | inr (p, e) ↦ transfer t.pages (pop_page-IsConsistent p t.pages v e) refl
  ]
    where
      transfer :
          (l : List ℕ) → IsConsistent (record s { pages = l }) u → t.pages ≡ l → IsConsistent t u
      transfer l x e = record {
        counted = rw q.dblk x.counted;
        distinct = rw q.dblk x.distinct;
        page_used = rw (q.dblk, e) x.page_used;
        ref_used = rw q.refs x.ref_used;
        pages_once = rw e x.pages_once;
        refs_once = rw q.refs x.refs_once;
        cut = rw (q.refs, e) x.cut;
        apart = rw (q.refs, q.dblk) x.apart;
      }

  pub acquire_iblkref_lem : IsConsistent (acquire_iblkref s).1 u × Quiet s (acquire_iblkref s).1
  acquire_iblkref_lem =
      let q = acquire_iblkref-Popped s in
      (
        Popped-IsConsistent q,
        record {
          dblk = q.dblk;
          mem = q.mem;
          pages = λ p. elim q.pages [
            | inl e ↦ ground (arith, ap (count p) e)
            | inr (p', e) ↦ ground (arith, ap (count p) e)
          ];
          refs = λ k h. ground (arith, ap (count k) q.refs);
        },
      )

  pub release_iblkref_lem :
      (i : ℕ) → IsConsistent (release_iblkref s i) u × Quiet s (release_iblkref s i)
  unfolding release_iblkref
  release_iblkref_lem i = (
    record {
      counted = v.counted;
      distinct = v.distinct;
      page_used = v.page_used;
      ref_used = v.ref_used;
      pages_once = v.pages_once;
      refs_once = v.refs_once;
      cut = v.cut;
      apart = v.apart;
    },
    record { dblk = refl; mem = refl; pages = λ p. omega arith; refs = λ k h. omega arith },
  )
