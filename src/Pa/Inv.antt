-- ===== src/Pa/Inv.antt =====
-- What the page allocator of pa.c keeps: the free pages are distinct and belong to nobody.
use zufs_zus.Common.{
  ℕ, ◌+◌, ◌≤◌, ◌<◌, ◌≡◌, refl, ◌&&◌, some, List, [], ◌∷◌, ◌++◌, leb, ltb, ◌==◌, if◌then◌else◌,
  count, count-append, numbers, count-numbers, arith,
}
use zufs_zus.Common.Int.{pos}
use zufs_zus.Pa.{Pa, pa_init, pages_at_a_time, del, init_page_of_pages, alloc_one_page}

pub record IsPa (pa : Pa) : Type 0 where
  pub once : (p : ℕ) → count p pa.head ≤ 1
  pub known : (p : ℕ) → 0 < count p pa.head → p < pa.size
  pub clear : (p : ℕ) → 0 < count p pa.head → (pa.page p).use_count ≡ pos 0
  pub fresh : (p : ℕ) → pa.size ≤ p → (pa.page p).use_count ≡ pos 0

pub count-del :
    (a x : ℕ) (l : List ℕ)
    → count a (del x l) + (if a == x then (if count x l == 0 then 0 else 1) else 0) ≡ count a l
unfolding del
count-del a x [] = ground arith
count-del a x (y ∷ l) = ground (arith, count-del a x l)

-- Of the pages that are on no free list, none changes but for its zone.
pub record Same (pa t : Pa) : Type 0 where
  pub size : pa.size ≤ t.size
  pub pages :
      (p : ℕ)
      → ((t.page p).use_count ≡ (pa.page p).use_count)
        × ((t.page p).slab_uc ≡ (pa.page p).slab_uc)
        × ((t.page p).slab_cpu ≡ (pa.page p).slab_cpu)
  pub free : (p : ℕ) → p < pa.size → count p t.head ≤ count p pa.head
  pub refcount :
      (p : ℕ) → p < pa.size → count p pa.head ≡ 0 → (t.page p).refcount ≡ (pa.page p).refcount

pub Same-refl : (pa : Pa) → Same pa pa
Same-refl pa = record {
  size = omega arith;
  pages = λ p. ground arith;
  free = λ p lt. omega arith;
  refcount = λ p lt h. refl;
}

pub Same-trans : {pa t w : Pa} → Same pa t → Same t w → Same pa w
Same-trans p q = record {
  size = omega (arith, p.size, q.size);
  pages = λ n. ground (arith, p.pages n, q.pages n);
  free = λ n lt. ground (arith, p.size, p.free n lt, q.free n);
  refcount = λ n lt h. ground (arith, p.size, p.free n lt, p.refcount n lt h, q.refcount n);
}

-- `pa` with the next 2 MB of pages
unfoldable pub grown : Pa → Pa
grown pa = record pa {
  size = pa.size + pages_at_a_time;
  head = pa.head ++ numbers pa.size pages_at_a_time;
  page = λ bn.
      if leb pa.size bn && ltb bn (pa.size + pages_at_a_time)
      then record (pa.page bn) { zone = 1 }
      else pa.page bn;
}

pub init_some : (pa t : Pa) → init_page_of_pages pa ≡ some t → t ≡ grown pa
unfolding init_page_of_pages grown
init_some pa t h = ground arith

module _ {pa : Pa} (v : IsPa pa) where
  pub count-grown :
      (p : ℕ)
      → count p (grown pa).head
        ≡ count p pa.head + (if leb pa.size p && ltb p (pa.size + pages_at_a_time) then 1 else 0)
  unfolding grown
  count-grown p = ground (
    arith,
    count-append p pa.head (numbers pa.size pages_at_a_time),
    count-numbers p pa.size pages_at_a_time,
  )

  pub grown-IsPa : IsPa (grown pa)
  unfolding grown
  grown-IsPa = record {
    once = λ p. ground (arith, count-grown p, v.once p, v.known p);
    known = λ p h. ground (arith, count-grown p, v.known p);
    clear = λ p h. ground (arith, count-grown p, v.clear p, v.fresh p);
    fresh = λ p h. ground (arith, v.fresh p);
  }

  pub grown-Same : Same pa (grown pa)
  unfolding grown
  grown-Same = record {
    size = omega arith;
    pages = λ p. ground arith;
    free = λ p lt. ground (arith, count-grown p);
    refcount = λ p lt h. ground arith;
  }

alloc_one_page-IsPa : {pa : Pa} (p : ℕ) → IsPa pa → IsPa (alloc_one_page pa p)
unfolding alloc_one_page
alloc_one_page-IsPa {pa} p v = record {
  once = λ q. ground (arith, count-del q p pa.head, v.once q);
  known = λ q h. ground (arith, count-del q p pa.head, v.known q);
  clear = λ q h. ground (arith, count-del q p pa.head, v.clear q);
  fresh = λ q h. ground (arith, v.fresh q);
}

-- What is handed out: the page `p`, which nobody had, with the count 1.
pub record Alloced (pa : Pa) (p : ℕ) (t : Pa) : Type 0 where
  pub valid : IsPa t
  pub same : Same pa t
  pub inside : p < t.size
  pub unused : (pa.page p).use_count ≡ pos 0
  pub taken : count p t.head ≡ 0
  pub counted : (t.page p).refcount ≡ pos 1

pub alloc_one_page-Alloced :
    {pa : Pa} (p : ℕ) → IsPa pa → 0 < count p pa.head → Alloced pa p (alloc_one_page pa p)
unfolding alloc_one_page
alloc_one_page-Alloced {pa} p v h = record {
  valid = alloc_one_page-IsPa p v;
  same = record {
    size = omega arith;
    pages = λ q. ground arith;
    free = λ q lt. ground (arith, count-del q p pa.head);
    refcount = λ q lt k. ground arith;
  };
  inside = v.known p h;
  unused = v.clear p h;
  taken = ground (arith, count-del p p pa.head, v.once p);
  counted = ground arith;
}

pub empty_pool : (pa_size : ℕ) → IsPa (pa_init pa_size)
unfolding pa_init
empty_pool pa_size = record {
  once = λ p. omega arith;
  known = λ p h. absurd (omega arith);
  clear = λ p h. refl;
  fresh = λ p h. refl;
}
