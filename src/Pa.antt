-- ===== src/Pa.antt =====
-- The page allocator, pa.c and the page functions of zus.h. A page is named by its block number, and
-- its address by the offset from `pa->data.ptr`. `pa->head` is the sequence of the free pages. The
-- list links of a page share a union with its `slab_uc` and `slab_cpu`; these are read only of pages
-- of a slab, which are on no list of the allocator. The spin lock makes each operation one step.
pub mod Alloc
pub mod Grown
pub mod Inv
pub mod Order
pub mod Rescan
pub mod Run
use zufs_zus.Common.{
  ℕ, zero, suc, ◌+◌, ◌-◌, ◌*◌, ◌/◌, ◌%◌, ◌^◌, Bool, true, false, ◌&&◌, not, Option, none, some,
  List, [], ◌∷◌, ◌++◌, ltb, leb, ◌==◌, if◌then◌else◌, update, numbers,
}
use zufs_zus.Common.Int.{ℤ, pos, negsuc, inc, dec, is_zero}

-- `struct pa_page`; `zone` is the part of `flags` that the allocator sets.
pub record Page : Type 0 where
  pub zone : ℕ
  pub use_count : ℤ
  pub refcount : ℤ
  pub slab_uc : ℤ
  pub slab_cpu : ℕ

-- `struct pa`, with `g_pa_size` and the pages of `pages`.
pub record Pa : Type 0 where
  pub pa_size : ℕ
  pub size : ℕ
  pub head : List ℕ
  pub page : ℕ → Page

-- PA_PAGES_AT_A_TIME: 2 MB of pages of 64 bytes each
abbrev pub pages_at_a_time : ℕ
pages_at_a_time = 32768

-- the offset of 2 MB aligned sizes
unfoldable pub setup_pa_size : ℕ → ℕ
setup_pa_size size = size - size % 2097152

-- `a_list_del_init`: off its list, if it stands on one.
unfoldable pub del : ℕ → List ℕ → List ℕ
del a [] = []
del a (x ∷ l) = if a == x then l else x ∷ del a l

-- The pages are those of a new temporary file, all zeros.
unfoldable pub pa_init : ℕ → Pa
pa_init pa_size = record {
  pa_size = pa_size;
  size = 0;
  head = [];
  page =
      λ bn. record { zone = 0; use_count = pos 0; refcount = pos 0; slab_uc = pos 0; slab_cpu = 0 };
}

-- `_init_one_page` for each page of the next 2 MB of pages
unfoldable pub init_page_of_pages : Pa → Option Pa
init_page_of_pages pa =
    if ltb pa.pa_size ((pa.size + pages_at_a_time) * 4096)
    then none
    else some (record pa {
      size = pa.size + pages_at_a_time;
      head = pa.head ++ numbers pa.size pages_at_a_time;
      page = λ bn.
          if leb pa.size bn && ltb bn (pa.size + pages_at_a_time)
          then record (pa.page bn) { zone = 1 }
          else pa.page bn;
    })

unfoldable pub alloc_one_page : Pa → ℕ → Pa
unfolding del
alloc_one_page pa bn = record pa {
  head = del bn pa.head;
  page = update pa.page bn (record (pa.page bn) { refcount = pos 1 });
}

unfoldable pub pa_is_free : Pa → ℕ → Bool
pa_is_free pa bn = is_zero (pa.page bn).refcount

-- The two loops of `pa_alloc_order` over `page + i`.
unfoldable pub all_free : Pa → ℕ → ℕ → Bool
unfolding pa_is_free
all_free pa bn zero = true
all_free pa bn (suc n) = pa_is_free pa bn && all_free pa (bn + 1) n

unfoldable pub alloc_pages : Pa → ℕ → ℕ → Pa
unfolding alloc_one_page
alloc_pages pa bn zero = pa
alloc_pages pa bn (suc n) = alloc_pages (alloc_one_page pa bn) (bn + 1) n

-- The walk over the free list: the first page at which `npages` can be taken.
unfoldable pub find_run : Pa → ℕ → List ℕ → Option ℕ
unfolding all_free
find_run pa npages [] = none
find_run pa npages (bn ∷ l) =
    if (bn % npages == 0)
      && not (ltb pa.size (bn + npages - 1))
      && all_free pa (bn + 1) (npages - 1)
    then some bn
    else find_run pa npages l

-- From `rescan` on, with fuel for the rounds.
unfoldable pub rescan : ℕ → Pa → ℕ → Option ℕ × Pa
unfolding find_run alloc_pages init_page_of_pages
rescan zero pa npages = (none, pa)
rescan (suc fuel) pa npages = elim (find_run pa npages pa.head) [
  | some bn ↦ (some bn, alloc_pages pa bn npages)
  | none ↦ elim (init_page_of_pages pa) [ none ↦ (none, pa) | some t ↦ rescan fuel t npages ]
]

-- The pages go back when they cannot be locked; their counts stay.
unfoldable pub unalloc_pages : Pa → ℕ → ℕ → Pa
unalloc_pages pa bn zero = pa
unalloc_pages pa bn (suc n) = unalloc_pages (record pa { head = bn ∷ pa.head }) (bn + 1) n

-- Enough rounds: each but the last adds `pages_at_a_time` pages below `pa_size`.
unfoldable pub rounds : Pa → ℕ
rounds pa = suc (pa.pa_size / 134217728)

-- `mlock_fails bn n` is whether the `n` pages at `bn` are to be locked and `mlock` fails.
module _ (mlock_fails : ℕ → ℕ → Bool) where
  -- The end of `pa_alloc_order`, after its lock is dropped.
  unfoldable pub lock_pages : ℕ → Option ℕ × Pa → Option ℕ × Pa
  unfolding unalloc_pages
  lock_pages npages (none, t) = (none, t)
  lock_pages npages (some bn, t) =
      if mlock_fails bn npages then (none, unalloc_pages t bn npages) else (some bn, t)

  unfoldable pub pa_alloc_order : Pa → ℕ → Option ℕ × Pa
  unfolding init_page_of_pages rescan lock_pages rounds
  pa_alloc_order pa order =
      let npages : ℕ = 2 ^ order in
      if ltb 5 order then (none, pa) else elim pa.head [
        | [] ↦ elim (init_page_of_pages pa) [
          | none ↦ (none, pa)
          | some t ↦ lock_pages npages (rescan (rounds pa) t npages)
        ]
        | _ ∷ _ ↦ lock_pages npages (rescan (rounds pa) pa npages)
      ]

  unfoldable pub pa_alloc : Pa → Option ℕ × Pa
  unfolding pa_alloc_order
  pa_alloc pa = pa_alloc_order pa 0

-- `__pa_free`: the page's bytes are punched out of the file and read as zeros from then on.
unfoldable pub pa_free_page : Pa → ℕ → Pa
pa_free_page pa bn = record pa { head = bn ∷ pa.head }

-- whether the count dropped to 0, and the page was freed
unfoldable pub pa_put_page : Pa → ℕ → Bool × Pa
unfolding pa_free_page
pa_put_page pa bn =
    let t : Pa = record pa {
      page = update pa.page bn (record (pa.page bn) { refcount = dec (pa.page bn).refcount });
    } in
    if is_zero (dec (pa.page bn).refcount) then (true, pa_free_page t bn) else (false, t)

-- `_zu_atomic_add_unless(&page->refcount, 1, 0)`
unfoldable pub pa_get_page : Pa → ℕ → ℤ × Pa
pa_get_page pa bn =
    let c = (pa.page bn).refcount in
    if is_zero c
    then (c, pa)
    else (c, record pa { page = update pa.page bn (record (pa.page bn) { refcount = inc c }) })
