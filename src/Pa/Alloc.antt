-- ===== src/Pa/Alloc.antt =====
-- `pa_alloc` of pa.c: one page.
use zufs_zus.Common.{
  ℕ, suc, ◌+◌, ◌*◌, ◌<◌, ◌≡◌, refl, ap, ◌∙◌, ◌⊎◌, inl, inr, true, Option, none, some, List, [], ◌∷◌,
  if◌then◌else◌, count, arith, Bool, Bool-cases, Option-cases, List-cases, subst, ◌/◌, numbers,
  numbers-suc, some_eq,
}
use zufs_zus.Pa.{
  Pa, pages_at_a_time, init_page_of_pages, alloc_one_page, all_free, alloc_pages, find_run, rescan,
  unalloc_pages, rounds, lock_pages, pa_alloc_order, pa_alloc,
}
use zufs_zus.Pa.Inv.{
  Same-trans, Same-refl, IsPa, Same, Alloced, grown, grown-IsPa, grown-Same, init_some,
  alloc_one_page-Alloced,
}

rescan-first :
    (fuel : ℕ) (pa : Pa) (x : ℕ) (r : List ℕ)
    → x < pa.size
    → pa.head ≡ x ∷ r
    → rescan (suc fuel) pa 1 ≡ (some x, alloc_one_page pa x)
unfolding rescan find_run all_free alloc_pages
rescan-first fuel pa x r lt e = rw e (ground arith)

head-grown : (pa : Pa) → pa.head ≡ [] → (grown pa).head ≡ pa.size ∷ numbers (pa.size + 1) 32767
unfolding grown
head-grown pa e = rw e (numbers-suc pa.size 32767)

size-grown : (pa : Pa) → pa.size < (grown pa).size
unfolding grown
size-grown pa = omega arith

module _ (mlock_fails : ℕ → ℕ → Bool) where
  -- The result of `pa_alloc` on a pool that has the page `x` at its head.
  locked : Pa → ℕ → Option ℕ × Pa
  locked pa x =
      let t = alloc_one_page pa x in
      if mlock_fails x 1 then (none, record t { head = x ∷ t.head }) else (some x, t)

  lock-rescan :
      (fuel : ℕ) (pa : Pa) (x : ℕ) (r : List ℕ)
      → x < pa.size
      → pa.head ≡ x ∷ r
      → lock_pages mlock_fails 1 (rescan (suc fuel) pa 1) ≡ locked pa x
  unfolding lock_pages unalloc_pages locked
  lock-rescan fuel pa x r lt e = rw (rescan-first fuel pa x r lt e) refl

  pa_alloc-cons :
      (pa : Pa) (x : ℕ) (r : List ℕ)
      → x < pa.size
      → pa.head ≡ x ∷ r
      → pa_alloc mlock_fails pa ≡ locked pa x
  unfolding pa_alloc pa_alloc_order rounds
  pa_alloc-cons pa x r lt e = step ∙ lock-rescan (pa.pa_size / 134217728) pa x r lt e
    where
      step : pa_alloc mlock_fails pa ≡ lock_pages mlock_fails 1 (rescan (rounds pa) pa 1)
      step = ground arith

  pa_alloc-grown :
      (pa : Pa)
      → pa.head ≡ []
      → init_page_of_pages pa ≡ some (grown pa)
      → pa_alloc mlock_fails pa ≡ locked (grown pa) pa.size
  unfolding pa_alloc pa_alloc_order rounds
  pa_alloc-grown pa e h =
      step
      ∙ lock-rescan (pa.pa_size / 134217728) (grown pa) pa.size (numbers (pa.size + 1) 32767)
          (size-grown pa) (head-grown pa e)
    where
      step : pa_alloc mlock_fails pa ≡ lock_pages mlock_fails 1 (rescan (rounds pa) (grown pa) 1)
      step = ground arith

  pa_alloc-full :
      (pa : Pa) → pa.head ≡ [] → init_page_of_pages pa ≡ none → pa_alloc mlock_fails pa ≡ (none, pa)
  unfolding pa_alloc pa_alloc_order
  pa_alloc-full pa e h = ground arith

-- What `pa_alloc` returns: a page, or the free pages as they were but for new ones.
pub record Tried (mlock_fails : ℕ → ℕ → Bool) (pa : Pa) (r : Option ℕ) (t : Pa) : Type 0 where
  pub valid : IsPa t
  pub same : Same pa t
  pub got : (p : ℕ) → r ≡ some p → Alloced pa p t
  pub failed :
      r ≡ none
      → (pa.pa_size < (pa.size + pages_at_a_time) * 4096) ⊎ ((p : ℕ) × (mlock_fails p 1 ≡ true))

relocked-IsPa : {pa t : Pa} {x : ℕ} → Alloced pa x t → IsPa (record t { head = x ∷ t.head })
relocked-IsPa {pa} {t} {x} a = record {
  once = λ q. ground (arith, a.valid.once q, a.taken);
  known = λ q h. ground (arith, a.valid.known q, a.inside);
  clear = λ q h. ground (arith, a.valid.clear q, a.unused, a.same.pages x);
  fresh = λ q h. a.valid.fresh q h;
}

relocked-Same :
    {pa t : Pa} {x : ℕ}
    → Alloced pa x t
    → 0 < count x pa.head
    → Same pa (record t { head = x ∷ t.head })
relocked-Same {pa} {t} {x} a h = record {
  size = a.same.size;
  pages = a.same.pages;
  free = λ q lt. ground (arith, a.same.free q lt, a.taken);
  refcount = λ q lt k. a.same.refcount q lt k;
}

Alloced-after : {pa t w : Pa} {p : ℕ} → Same pa t → Alloced t p w → Alloced pa p w
Alloced-after {pa} {t} {w} {p} s a = record {
  valid = a.valid;
  same = Same-trans s a.same;
  inside = a.inside;
  unused = ground (arith, a.unused, s.pages p);
  taken = a.taken;
  counted = a.counted;
}

no_room : (pa : Pa) → init_page_of_pages pa ≡ none → pa.pa_size < (pa.size + pages_at_a_time) * 4096
unfolding init_page_of_pages
no_room pa h = ground arith

module _ (mlock_fails : ℕ → ℕ → Bool) where
  locked-Tried :
      {pa : Pa} (x : ℕ)
      → IsPa pa
      → 0 < count x pa.head
      → Tried mlock_fails pa (locked mlock_fails pa x).0 (locked mlock_fails pa x).1
  unfolding locked
  locked-Tried {pa} x v h =
      let a = alloc_one_page-Alloced x v h in
      elim (Bool-cases (mlock_fails x 1)) [
        | inl e ↦ rw e (record {
          valid = relocked-IsPa a;
          same = relocked-Same a h;
          got = λ p q. cc;
          failed = λ q. inr (x, e);
        })
        | inr e ↦ rw e (record {
          valid = a.valid;
          same = a.same;
          got = λ p q. subst (λ z. Alloced pa z (alloc_one_page pa x)) (some_eq q) a;
          failed = λ q. cc;
        })
      ]

  locked-none : (pa : Pa) (x : ℕ) → (locked mlock_fails pa x).0 ≡ none → mlock_fails x 1 ≡ true
  unfolding locked
  locked-none pa x h = ground arith

  Tried-grown :
      {pa : Pa}
      → IsPa pa
      → (r : Option ℕ) (w : Pa) → (r ≡ none → (p : ℕ) × (mlock_fails p 1 ≡ true))
      → Tried mlock_fails (grown pa) r w
      → Tried mlock_fails pa r w
  Tried-grown {pa} v r w f a = record {
    valid = a.valid;
    same = Same-trans (grown-Same v) a.same;
    got = λ p q. Alloced-after (grown-Same v) (a.got p q);
    failed = λ q. inr (f q);
  }

  -- `pa_alloc` hands out a page that was free and belongs to nobody, and counts it once; it fails
  -- only if the pages in use and 2 MB of page descriptors more do not fit, or a page cannot be
  -- locked.
  pub pa_alloc_lem :
      (pa : Pa)
      → IsPa pa
      → Tried mlock_fails pa (pa_alloc mlock_fails pa).0 (pa_alloc mlock_fails pa).1
  pa_alloc_lem pa v = elim (List-cases pa.head) [
    | inl e ↦ elim (Option-cases (init_page_of_pages pa)) [
      | inl h ↦ rw (pa_alloc-full mlock_fails pa e h) (record {
        valid = v;
        same = Same-refl pa;
        got = λ p q. cc;
        failed = λ q. inl (no_room pa h);
      })
      | inr (t, h) ↦
          let g : init_page_of_pages pa ≡ some (grown pa) = h ∙ ap some (init_some pa t h) in
          rw (pa_alloc-grown mlock_fails pa e g) (
            Tried-grown v (locked mlock_fails (grown pa) pa.size).0
              (locked mlock_fails (grown pa) pa.size).1
              (λ q. (pa.size, locked-none (grown pa) pa.size q))
              (locked-Tried pa.size (grown-IsPa v)
                (ground (arith, ap (count pa.size) (head-grown pa e)))))
    ]
    | inr (x, r, e) ↦
        let has : 0 < count x pa.head = ground (arith, ap (count x) e) in
        rw (pa_alloc-cons mlock_fails pa x r (v.known x has) e) (locked-Tried x v has)
  ]
