-- ===== src/Slab.antt =====
-- The slab allocator, slab.c. An element is named by its address, the offset from the start of the
-- allocator's pages. Every spin lock makes an operation on a slab one step.
pub mod Elems
pub mod Grow
pub mod Cut
pub mod Free
pub mod Return
pub mod Index
pub mod Inv
pub mod Take
pub mod Taken
use zufs_zus.Common.{
  ℕ, zero, suc, ◌+◌, ◌-◌, ◌*◌, ◌/◌, ◌%◌, ◌^◌, Bool, true, false, ◌&&◌, ◌||◌, not, Option, none,
  some, List, [], ◌∷◌, ◌++◌, ltb, leb, ◌==◌, if◌then◌else◌, update,
}
use zufs_zus.Common.Int.{ℤ, pos, negsuc, inc, dec, is_zero, ltb_ℤ}
use zufs_zus.Pa.{Page, Pa, del, pa_alloc, pa_put_page}

-- `struct zus_slab_list`
pub record SlabList : Type 0 where
  pub head : List ℕ
  pub nused : ℤ
  pub nfree : ℤ
  pub nfree_want : ℤ

-- `struct zus_slab`; its `sbi` is the allocator's for every slab.
pub record Slab : Type 0 where
  pub list : ℕ → SlabList
  pub cpu : ℕ

-- `struct zus_global_slab_allocator` with the page pool of its `sbi`
pub record Gsa : Type 0 where
  pub pa : Pa
  pub nslabs : ℕ
  pub slab : ℕ → Slab

-- ZUS_SLAB_LISTS
abbrev pub slab_lists : ℕ
slab_lists = 8

-- ZUS_MAX_SLABS_PER_BLOCK >> slab_index
unfoldable pub slabs_count : ℕ → ℕ
slabs_count slab_index = 128 / 2 ^ slab_index

-- the bytes from one element to the next, `step` elements of 32 bytes
unfoldable pub elem_bytes : ℕ → ℕ
elem_bytes slab_index = 32 * 2 ^ slab_index

unfoldable pub with_page : Gsa → ℕ → Page → Gsa
with_page g bn page = record g { pa = record g.pa { page = update g.pa.page bn page } }

unfoldable pub with_list : Gsa → ℕ → ℕ → SlabList → Gsa
with_list g cpu i l = record g {
  slab = update g.slab cpu (record (g.slab cpu) { list = update (g.slab cpu).list i l });
}

unfoldable pub page_set_slab : Page → ℕ → ℕ → Page
page_set_slab p slab_index cpu = record p {
  use_count = pos (suc slab_index);
  slab_cpu = cpu;
  slab_uc = pos 0;
}

unfoldable pub page_clear_slab : Page → Page
page_clear_slab p = record p { use_count = pos 0; slab_cpu = 0; slab_uc = pos 0 }

-- `_page_slab_index` and `_slab_check_list_index`: the index if it is one of a list.
unfoldable pub check_list_index : ℤ → Option ℕ
check_list_index (negsuc n) = none
check_list_index (pos n) = if ltb n slab_lists then some n else none

unfoldable pub page_slab_index : Page → Option ℕ
unfolding check_list_index
page_slab_index p = check_list_index (dec p.use_count)

unfoldable pub slab_init : ℕ → Slab
slab_init cpu = record {
  list = λ i. record { head = []; nused = pos 0; nfree = pos 0; nfree_want = pos 1024 };
  cpu = cpu;
}

unfoldable pub slab_alloc_elem : SlabList → Option ℕ × SlabList
slab_alloc_elem l = elim l.head [
  | [] ↦ (none, l)
  | se ∷ rest ↦ (some se, record l { head = rest; nfree = dec l.nfree; nused = inc l.nused })
]

-- the loop of `_slab_page_init`
unfoldable pub add_elems : ℕ → ℕ → ℕ → SlabList → SlabList
add_elems zero step se l = l
add_elems (suc n) step se l =
    add_elems n step (se + step) (record l { head = l.head ++ se ∷ []; nfree = inc l.nfree })

unfoldable pub slab_page_init : Gsa → ℕ → ℕ → ℕ → Gsa
unfolding with_page with_list page_set_slab slabs_count elem_bytes add_elems
slab_page_init g cpu bn i =
    let h = with_page g bn (page_set_slab (g.pa.page bn) i (g.slab cpu).cpu) in
    with_list h cpu i (add_elems (slabs_count i) (elem_bytes i) (bn * 4096) ((h.slab cpu).list i))

-- the loop of `_slab_page_fini`
unfoldable pub del_elems : ℕ → ℕ → ℕ → SlabList → SlabList
unfolding del
del_elems zero step se l = l
del_elems (suc n) step se l =
    del_elems n step (se + step) (record l { head = del se l.head; nfree = dec l.nfree })

unfoldable pub slab_page_fini : Gsa → ℕ → ℕ → ℕ → Gsa
unfolding with_page with_list page_clear_slab slabs_count elem_bytes del_elems
slab_page_fini g cpu bn i =
    let l = del_elems (slabs_count i) (elem_bytes i) (bn * 4096) ((g.slab cpu).list i) in
    let h = with_list g cpu i l in with_page h bn (page_clear_slab (h.pa.page bn))

unfoldable pub slab_size_valid : ℕ → Bool
slab_size_valid size = ltb 0 size && leb size 4096

-- `32 - __builtin_clz(x)`: the bits that `x`, not 0 and of at most 32 bits, takes
unfoldable pub bits : ℕ → ℕ → ℕ
bits zero x = 0
bits (suc n) x = if x == 0 then 0 else suc (bits n (x / 2))

unfoldable pub slab_list_index : ℕ → ℕ
unfolding bits
slab_list_index size = if leb size 32 then 0 else bits 32 ((size - 1) / 32)

unfoldable pub slab_list_empty : Slab → ℕ → Bool
unfolding slab_list_index
slab_list_empty s size =
    let i = slab_list_index size in if ltb i slab_lists then is_zero (s.list i).nfree else true

unfoldable pub slab_iscold : Slab → ℕ → Bool
unfolding slab_list_index
slab_iscold s size =
    let i = slab_list_index size in
    if ltb i slab_lists then is_zero (s.list i).nfree && is_zero (s.list i).nused else false

-- The end of `_slab_alloc`: an element, and its page's count of them raised.
unfoldable pub slab_take : Gsa → ℕ → ℕ → Option ℕ × Gsa
unfolding slab_alloc_elem with_list with_page
slab_take g cpu i =
    let (r, l) = slab_alloc_elem ((g.slab cpu).list i) in
    elim r [
      | none ↦ (none, g)
      | some se ↦
          let p = g.pa.page (se / 4096) in
          (
            some se,
            with_page (with_list g cpu i l) (se / 4096) (record p { slab_uc = inc p.slab_uc }),
          )
    ]

-- `_slab_free_elem`
unfoldable pub slab_free_elem : SlabList → ℕ → SlabList
slab_free_elem l se = record l {
  head = l.head ++ se ∷ [];
  nfree = inc l.nfree;
  nused = dec l.nused;
}

-- `pa_put_page` of a slab's page
unfoldable pub put_page : Gsa → ℕ → Gsa
put_page g bn = record g { pa = (pa_put_page g.pa bn).1 }

-- `__slab_free`
unfoldable pub slab_free_at : Gsa → ℕ → ℕ → ℕ → Gsa
unfolding slab_free_elem with_list with_page slab_page_fini put_page
slab_free_at g cpu i addr =
    let bn = addr / 4096 in
    let l = slab_free_elem ((g.slab cpu).list i) addr in
    let uc = dec (g.pa.page bn).slab_uc in
    let h = with_page (with_list g cpu i l) bn (record (g.pa.page bn) { slab_uc = uc }) in
    if is_zero uc
    then if ltb_ℤ l.nfree l.nfree_want then h else put_page (slab_page_fini h cpu bn i) bn
    else h

-- `_slab_free`, of an address among the allocator's pages: whether it returned 0, not -EINVAL.
unfoldable pub slab_free : Gsa → ℕ → ℕ → Bool × Gsa
unfolding page_slab_index slab_free_at
slab_free g cpu addr = elim (page_slab_index (g.pa.page (addr / 4096))) [
  | none ↦ (false, g)
  | some i ↦ (true, slab_free_at g cpu i addr)
]

-- The inner loop of `_slab_fini`, which stops at a page with elements in use.
unfoldable pub fini_list : ℕ → Gsa → ℕ → ℕ → Gsa
unfolding slab_page_fini put_page
fini_list zero g cpu i = g
fini_list (suc fuel) g cpu i = elim ((g.slab cpu).list i).head [
  | [] ↦ g
  | se ∷ _ ↦
      let bn = se / 4096 in
      let rest = fini_list fuel (put_page (slab_page_fini g cpu bn i) bn) cpu i in
      if is_zero (g.pa.page bn).slab_uc then rest else g
]

module _ (mlock_fails : ℕ → ℕ → Bool) where
  -- whether `_slab_increase` returned 0
  unfoldable pub slab_increase : Gsa → ℕ → ℕ → Bool × Gsa
  unfolding slab_page_init
  slab_increase g cpu i =
      let (r, t) = pa_alloc mlock_fails g.pa in
      let h : Gsa = record g { pa = t } in
      elim r [ none ↦ (false, h) | some bn ↦ (true, slab_page_init h cpu bn i) ]

  unfoldable pub slab_alloc : Gsa → ℕ → ℕ → Option ℕ × Gsa
  unfolding slab_list_index slab_list_empty slab_increase slab_take
  slab_alloc g cpu size =
      let i = slab_list_index size in
      if slab_list_empty (g.slab cpu) size
      then (let (grown, h) = slab_increase g cpu i in
          if grown then slab_take h cpu i else (none, h))
      else slab_take g cpu i
