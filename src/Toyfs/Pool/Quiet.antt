-- ===== src/Toyfs/Pool/Quiet.antt =====
-- What the free list of dblkrefs of fs/toyfs/super.c leaves alone.
use zufs_zus.Common.{
  ℕ, ◌+◌, ◌*◌, ◌/◌, ◌≤◌, ◌<◌, ◌≡◌, refl, ap, none, some, List, [], ◌∷◌, ◌++◌, count, count-append,
  numbers, count-numbers, arith,
}
use zufs_zus.Toyfs.Pool.{Sbi, pool_pop_pmemb, pool_add_free_dblkrefs, pool_pop_free_dblkref}
use zufs_zus.Toyfs.Pool.Inv.{Uses, IsConsistent, pop_page-IsConsistent}

-- What the dblkref pool leaves alone: the dblkrefs, the bytes, and which pages are taken.
pub record Quiet (s t : Sbi) : Type 0 where
  pub dblk : t.dblk ≡ s.dblk
  pub mem : t.mem ≡ s.mem
  pub pages : (p : ℕ) → count p t.pages ≤ count p s.pages
  pub refs :
      (k : ℕ) → 0 < count k t.free_dblkrefs → 0 < count k s.free_dblkrefs + count (k / 128) s.pages

-- Cutting the first free page keeps the invariant.
pub cut_page-IsConsistent :
    {s : Sbi} {u : Uses} (p : ℕ) (next : List ℕ)
    → IsConsistent s u
    → s.pages ≡ p ∷ next
    → IsConsistent
        (record s { pages = next; free_dblkrefs = s.free_dblkrefs ++ numbers (p * 128) 128 })
        u
cut_page-IsConsistent {s} {u} p next v e =
    let w = pop_page-IsConsistent p next v e in
    record {
      counted = v.counted;
      distinct = v.distinct;
      page_used = w.page_used;
      ref_used = λ d h. ground (
        arith,
        v.ref_used d h,
        v.cut d,
        ap (count (d / 128)) e,
        count-append d s.free_dblkrefs (numbers (p * 128) 128),
        count-numbers d (p * 128) 128,
      );
      pages_once = w.pages_once;
      refs_once = λ d. ground (
        arith,
        v.refs_once d,
        v.cut d,
        ap (count (d / 128)) e,
        count-append d s.free_dblkrefs (numbers (p * 128) 128),
        count-numbers d (p * 128) 128,
      );
      cut = λ d h. ground (
        arith,
        w.cut d,
        v.pages_once p,
        ap (count p) e,
        count-append d s.free_dblkrefs (numbers (p * 128) 128),
        count-numbers d (p * 128) 128,
      );
      apart = λ d k h h' q. ground (
        arith,
        v.apart d k h,
        v.page_used d h,
        ap (count (k / 128)) e,
        count-append k s.free_dblkrefs (numbers (p * 128) 128),
        count-numbers k (p * 128) 128,
      );
    }

pub Quiet-refl : (s : Sbi) → Quiet s s
Quiet-refl s = record {
  dblk = refl;
  mem = refl;
  pages = λ p. omega arith;
  refs = λ k h. omega arith;
}

pub Quiet-trans : {s t v : Sbi} → Quiet s t → Quiet t v → Quiet s v
Quiet-trans p q = record {
  dblk = cc (p.dblk, q.dblk);
  mem = cc (p.mem, q.mem);
  pages = λ k. omega (arith, p.pages k, q.pages k);
  refs = λ k h. ground (arith, p.pages (k / 128), q.pages (k / 128), p.refs k, q.refs k);
}

-- The pool operations at an empty and at a nonempty list.
module _ (s : Sbi) where
  pub add_dblkrefs-nil : s.pages ≡ [] → pool_add_free_dblkrefs s ≡ (none, s)
  unfolding pool_add_free_dblkrefs pool_pop_pmemb
  add_dblkrefs-nil e = ground arith

  pub add_dblkrefs-cons :
      (p : ℕ) (next : List ℕ)
      → s.pages ≡ p ∷ next
      → pool_add_free_dblkrefs s ≡ (
        some tt,
        record s { pages = next; free_dblkrefs = s.free_dblkrefs ++ numbers (p * 128) 128 },
      )
  unfolding pool_add_free_dblkrefs pool_pop_pmemb
  add_dblkrefs-cons p next e = ground arith

  pub pop_dblkref-nil : s.free_dblkrefs ≡ [] → pool_pop_free_dblkref s ≡ (none, s)
  unfolding pool_pop_free_dblkref
  pop_dblkref-nil e = ground arith

  pub pop_dblkref-cons :
      (d : ℕ) (rest : List ℕ)
      → s.free_dblkrefs ≡ d ∷ rest
      → pool_pop_free_dblkref s ≡ (some d, record s { free_dblkrefs = rest })
  unfolding pool_pop_free_dblkref
  pop_dblkref-cons d rest e = ground arith
