-- ===== src/Pa/Grown.antt =====
-- The rounds of `pa_alloc_order` of pa.c that add pages to the pool, and the pages put back where
-- they could not be locked.
use zufs_zus.Common.{
  ℕ, zero, suc, ◌+◌, ◌≤◌, ◌<◌, ◌≡◌, refl, ◌∙◌, ◌⊎◌, inl, inr, arith, count, ◌∷◌, if◌then◌else◌, leb,
  ltb, Bool-cases, ◌&&◌,
}
use zufs_zus.Common.Int.{pos}
use zufs_zus.Pa.{Pa, unalloc_pages}
use zufs_zus.Pa.Inv.{IsPa, grown, count-grown}
use zufs_zus.Pa.Run.{Taken}

-- `w` is `pa` with more pages, all of them free; the pages of `pa` are as they were.
pub record Grown (pa w : Pa) : Type 0 where
  pub larger : pa.size ≤ w.size
  pub old_page : (q : ℕ) → q < pa.size → w.page q ≡ pa.page q
  pub old_free : (q : ℕ) → q < pa.size → count q w.head ≡ count q pa.head
  pub new_free : (q : ℕ) → pa.size ≤ q → q < w.size → count q w.head ≡ 1

pub Grown-refl : (pa : Pa) → Grown pa pa
Grown-refl pa = record {
  larger = omega arith;
  old_page = λ q lt. refl;
  old_free = λ q lt. refl;
  new_free = λ q lo hi. absurd (omega arith);
}

pub grown-Grown : {pa : Pa} → IsPa pa → Grown pa (grown pa)
unfolding grown
grown-Grown {pa} v = record {
  larger = omega arith;
  old_page = λ q lt. ground arith;
  old_free = λ q lt. ground (arith, count-grown v q);
  new_free = λ q lo hi. ground (arith, count-grown v q, v.known q);
}

pub Grown-trans : {pa t w : Pa} → Grown pa t → Grown t w → Grown pa w
Grown-trans {pa} {t} {w} p g = record {
  larger = omega (arith, p.larger, g.larger);
  old_page = λ q lt. g.old_page q (omega (arith, p.larger)) ∙ p.old_page q lt;
  old_free = λ q lt. g.old_free q (omega (arith, p.larger)) ∙ p.old_free q lt;
  new_free = λ q lo hi. elim (Bool-cases (ltb q t.size)) [
    | inl old ↦ g.old_free q (ground arith) ∙ p.new_free q lo (ground arith)
    | inr new ↦ g.new_free q (ground arith) hi
  ];
}

-- The run of `n` pages at `bn`, taken from `w`, is back on the free list, still counted.
pub record PutBack (w : Pa) (bn n : ℕ) (t : Pa) : Type 0 where
  pub counted : (q : ℕ) → bn ≤ q → q < bn + n → (t.page q).refcount ≡ pos 1
  pub back : (q : ℕ) → bn ≤ q → q < bn + n → count q t.head ≡ 1
  pub other_pages : (q : ℕ) → (q < bn) ⊎ (bn + n ≤ q) → t.page q ≡ w.page q
  pub other_free : (q : ℕ) → (q < bn) ⊎ (bn + n ≤ q) → count q t.head ≡ count q w.head

unalloc-page : (pa : Pa) (bn n : ℕ) → (unalloc_pages pa bn n).page ≡ pa.page
unfolding unalloc_pages
unalloc-page pa bn zero = refl
unalloc-page pa bn (suc n) = unalloc-page (record pa { head = bn ∷ pa.head }) (bn + 1) n

unalloc-count :
    (pa : Pa) (bn n q : ℕ)
    → count q (unalloc_pages pa bn n).head
      ≡ count q pa.head + (if leb bn q && ltb q (bn + n) then 1 else 0)
unfolding unalloc_pages
unalloc-count pa bn zero q = ground arith
unalloc-count pa bn (suc n) q =
    ground (arith, unalloc-count (record pa { head = bn ∷ pa.head }) (bn + 1) n q)

pub unalloc-PutBack :
    (w t : Pa) (bn n : ℕ) → IsPa w → Taken w bn n t → PutBack w bn n (unalloc_pages t bn n)
unalloc-PutBack w t bn n v k = record {
  counted = λ q lo hi. rw (unalloc-page t bn n) (k.counted q lo hi);
  back = λ q lo hi. ground (arith, unalloc-count t bn n q, k.off q lo hi (v.once q));
  other_pages = λ q out. rw (unalloc-page t bn n) (k.other_pages q out);
  other_free = λ q out. ground (arith, unalloc-count t bn n q, k.other_free q out, out);
}
