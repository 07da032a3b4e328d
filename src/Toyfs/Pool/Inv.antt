-- ===== src/Toyfs/Pool/Inv.antt =====
-- The invariant of the pool of fs/toyfs/super.c, relative to the references that files hold: `u d`
-- is the number of iblkrefs, over all files, that name the dblkref `d`.
use zufs_zus.Common.{
  ℕ, ◌+◌, ◌/◌, ◌≤◌, ◌<◌, ◌≡◌, ◌≢◌, refl, ap, none, some, List, ◌∷◌, ◌==◌, if◌then◌else◌, update,
  count, arith,
}
use zufs_zus.Toyfs.Pool.{Sbi, pool_push_pmemb, acquire_pmemb, release_pmemb}

abbrev pub Uses : Type 0
Uses = ℕ → ℕ

-- `u` with one more reference to `d`.
abbrev pub add : Uses → ℕ → Uses
add u d e = (if e == d then 1 else 0) + u e

pub record IsConsistent (s : Sbi) (u : Uses) : Type 0 where
  pub counted : (d : ℕ) → u d ≤ (s.dblk d).refcnt
  pub distinct : (d e : ℕ) → 0 < u d → 0 < u e → (s.dblk d).bn ≡ (s.dblk e).bn → d ≡ e
  pub page_used : (d : ℕ) → 0 < u d → count (s.dblk d).bn s.pages ≡ 0
  pub ref_used : (d : ℕ) → 0 < u d → count d s.free_dblkrefs ≡ 0
  pub pages_once : (p : ℕ) → count p s.pages ≤ 1
  pub refs_once : (d : ℕ) → count d s.free_dblkrefs ≤ 1
  -- no page is both free and cut into dblkrefs
  pub cut : (d : ℕ) → 0 < u d + count d s.free_dblkrefs → count (d / 128) s.pages ≡ 0
  -- no page holds both the bytes of a file and dblkrefs
  pub apart : (d e : ℕ) → 0 < u d → 0 < u e + count e s.free_dblkrefs → (s.dblk d).bn ≢ e / 128

-- Every dblkref in use keeps its page and the bytes of that page.
pub record Same (u : Uses) (s t : Sbi) : Type 0 where
  pub bn : (d : ℕ) → 0 < u d → (t.dblk d).bn ≡ (s.dblk d).bn
  pub bytes : (d : ℕ) (o : ℕ) → 0 < u d → t.mem (s.dblk d).bn o ≡ s.mem (s.dblk d).bn o

pub Same-refl : (u : Uses) (s : Sbi) → Same u s s
Same-refl u s = record { bn = λ d h. refl; bytes = λ d o h. refl }

pub Same-trans : {u : Uses} {s t v : Sbi} → Same u s t → Same u t v → Same u s v
Same-trans {u} {s} {t} {v} p q = record {
  bn = λ d h. ground (arith, p.bn d h, q.bn d h);
  bytes = λ d o h. ground (arith, p.bn d h, q.bn d h, p.bytes d o h, q.bytes d o h);
}

-- What `toyfs_acquire_pmemb` hands out.
pub record Fresh (s : Sbi) (u : Uses) (p : ℕ) (t : Sbi) : Type 0 where
  pub consistent : IsConsistent t u
  pub not_free : count p t.pages ≡ 0
  pub unused : (d : ℕ) → 0 < u d → (s.dblk d).bn ≢ p
  pub dblk : t.dblk ≡ s.dblk
  pub refs : t.free_dblkrefs ≡ s.free_dblkrefs
  pub zeros : (o : ℕ) → t.mem p o ≡ 0
  pub uncut : (d : ℕ) → d / 128 ≡ p → (u d ≡ 0) × (count d t.free_dblkrefs ≡ 0)
  pub same : Same u s t

-- taking the first page
pub pop_page-IsConsistent :
    {s : Sbi} {u : Uses} (p : ℕ) (next : List ℕ)
    → IsConsistent s u
    → s.pages ≡ p ∷ next
    → IsConsistent (record s { pages = next }) u
pop_page-IsConsistent {s} {u} p next v e = record {
  counted = v.counted;
  distinct = v.distinct;
  page_used = λ d h. ground (arith, v.page_used d h, ap (count (s.dblk d).bn) e);
  ref_used = v.ref_used;
  pages_once = λ q. ground (arith, v.pages_once q, ap (count q) e);
  refs_once = v.refs_once;
  cut = λ d h. ground (arith, v.cut d h, ap (count (d / 128)) e);
  apart = v.apart;
}

pub acquire_pmemb-none : (s : Sbi) → (acquire_pmemb s).0 ≡ none → (acquire_pmemb s).1 ≡ s
unfolding acquire_pmemb
acquire_pmemb-none s h = ground arith

pop-pages :
    (s : Sbi) (p : ℕ)
    → (acquire_pmemb s).0 ≡ some p
    → (next : List ℕ) × (s.pages ≡ p ∷ next)
      × ((acquire_pmemb s).1.pages ≡ next)
      × ((acquire_pmemb s).1.dblk ≡ s.dblk)
      × ((acquire_pmemb s).1.free_dblkrefs ≡ s.free_dblkrefs)
      × ((acquire_pmemb s).1.mem ≡ update s.mem p (λ o. 0))
unfolding acquire_pmemb
pop-pages s p h =
    ((acquire_pmemb s).1.pages, ground arith, refl, ground arith, ground arith, ground arith)

pub acquire_pmemb-Fresh :
    {s : Sbi} {u : Uses} (p : ℕ)
    → IsConsistent s u
    → (acquire_pmemb s).0 ≡ some p
    → Fresh s u p (acquire_pmemb s).1
acquire_pmemb-Fresh {s} {u} p v h =
    let (next, e, pages, dblk, refs, mem) = pop-pages s p h in
    let t : Sbi = (acquire_pmemb s).1 in
    record {
      consistent = record {
        counted = λ d. rw dblk (v.counted d);
        distinct = λ d e. rw dblk (v.distinct d e);
        page_used = λ d h. rw (dblk, pages) ((pop_page-IsConsistent p next v e).page_used d h);
        ref_used = λ d h. rw refs (v.ref_used d h);
        pages_once = λ q. rw pages ((pop_page-IsConsistent p next v e).pages_once q);
        refs_once = λ d. rw refs (v.refs_once d);
        cut = λ d. rw (refs, pages) ((pop_page-IsConsistent p next v e).cut d);
        apart = λ d k. rw (dblk, refs) (v.apart d k);
      };
      not_free = ground (arith, pages, ap (count p) e, v.pages_once p);
      unused = λ d h q. ground (arith, v.page_used d h, ap (count p) e);
      dblk = dblk;
      refs = refs;
      zeros = λ o. rw mem (ground arith);
      uncut = λ d q. ground (arith, v.cut d, ap (count p) e, refs);
      same = record {
        bn = λ d h. rw dblk;
        bytes = λ d o h. rw mem (ground (arith, v.page_used d h, ap (count p) e));
      };
    }

-- Giving back the page `p`, which nothing uses.
pub release_pmemb-IsConsistent :
    {s : Sbi} {u : Uses} (p : ℕ)
    → IsConsistent s u
    → count p s.pages ≡ 0
    → ((d : ℕ) → 0 < u d → (s.dblk d).bn ≢ p)
    → ((d : ℕ) → d / 128 ≡ p → (u d ≡ 0) × (count d s.free_dblkrefs ≡ 0))
    → IsConsistent (release_pmemb s p) u
unfolding release_pmemb pool_push_pmemb
release_pmemb-IsConsistent p v not_free unused uncut = record {
  counted = v.counted;
  distinct = v.distinct;
  page_used = λ d h. ground (arith, v.page_used d h, unused d h);
  ref_used = v.ref_used;
  pages_once = λ q. ground (arith, v.pages_once q);
  refs_once = v.refs_once;
  cut = λ d h. ground (arith, v.cut d h, uncut d);
  apart = v.apart;
}

pub release_pmemb-Same : {s t : Sbi} {u : Uses} (p : ℕ) → Same u s t → Same u s (release_pmemb t p)
unfolding release_pmemb pool_push_pmemb
release_pmemb-Same p q = record { bn = q.bn; bytes = q.bytes }
