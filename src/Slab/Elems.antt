-- ===== src/Slab/Elems.antt =====
-- The elements of a page in slab.c: where they are, and the loops that put them on a list and take
-- them off.
use zufs_zus.Common.{
  inl, inr, ℕ, zero, suc, ◌+◌, ◌*◌, ◌/◌, ◌%◌, ◌≤◌, ◌<◌, ◌≡◌, List, [], ◌∷◌, ◌++◌, ◌==◌, length,
  count, count-append, arith, Bool-cases, length-append,
}
use zufs_zus.Common.Int.{pos, inc, dec}
use zufs_zus.Pa.{del}
use zufs_zus.Pa.Inv.{count-del}
use zufs_zus.Slab.{SlabList, slabs_count, elem_bytes, add_elems, del_elems}

-- `n` addresses from `se` on, `step` bytes apart.
unfoldable pub steps : ℕ → ℕ → ℕ → List ℕ
steps zero step se = []
steps (suc n) step se = se ∷ steps n step (se + step)

-- The elements of the page `p` of the list `i`.
unfoldable pub elems : ℕ → ℕ → List ℕ
unfolding steps
elems p i = steps (slabs_count i) (elem_bytes i) (p * 4096)

pub record IsCounted (l : SlabList) : Type 0 where
  pub nfree : l.nfree ≡ pos (length l.head)

pub count-add_elems :
    (a n step se : ℕ) (l : SlabList)
    → count a (add_elems n step se l).head ≡ count a l.head + count a (steps n step se)
unfolding add_elems steps
count-add_elems a zero step se l = omega arith
count-add_elems a (suc n) step se l =
    let m : SlabList = record l { head = l.head ++ se ∷ []; nfree = inc l.nfree } in
    ground (arith, count-add_elems a n step (se + step) m, count-append a l.head (se ∷ []))

pub add_elems-IsCounted :
    (n step se : ℕ) (l : SlabList) → IsCounted l → IsCounted (add_elems n step se l)
unfolding add_elems
add_elems-IsCounted zero step se l v = v
add_elems-IsCounted (suc n) step se l v =
    add_elems-IsCounted n step (se + step)
      (record l { head = l.head ++ se ∷ []; nfree = inc l.nfree })
      (record { nfree = ground (arith, v.nfree, length-append l.head (se ∷ [])) })

length-del : (x : ℕ) (l : List ℕ) → 0 < count x l → length l ≡ suc (length (del x l))
unfolding del
length-del x [] h = absurd (omega arith)
length-del x (y ∷ l) h = ground (arith, length-del x l)

pub count-del_elems :
    (a n step se : ℕ) (l : SlabList)
    → ((x : ℕ) → count x (steps n step se) ≤ count x l.head)
    → count a (del_elems n step se l).head + count a (steps n step se) ≡ count a l.head
unfolding del_elems steps
count-del_elems a zero step se l h = omega arith
count-del_elems a (suc n) step se l h =
    let m : SlabList = record l { head = del se l.head; nfree = dec l.nfree } in
    ground (
      arith,
      count-del_elems a n step (se + step) m
          (λ x. ground (arith, h x, h se, count-del x se l.head)),
      count-del a se l.head,
      h se,
    )

pub del_elems-IsCounted :
    (n step se : ℕ) (l : SlabList)
    → ((x : ℕ) → count x (steps n step se) ≤ count x l.head)
    → IsCounted l
    → IsCounted (del_elems n step se l)
unfolding del_elems steps
del_elems-IsCounted zero step se l h v = v
del_elems-IsCounted (suc n) step se l h v =
    del_elems-IsCounted n step (se + step) (record l { head = del se l.head; nfree = dec l.nfree })
      (λ x. ground (arith, h x, h se, count-del x se l.head))
      (record { nfree = ground (arith, v.nfree, length-del se l.head, h se) })

-- An address among `n` steps lies in their range, with `step` bytes of it.
steps_within :
    (a n step se : ℕ) → 0 < count a (steps n step se) → (se ≤ a) × (a + step ≤ se + n * step)
unfolding steps
steps_within a zero step se h = absurd (omega arith)
steps_within a (suc n) step se h = elim (Bool-cases (a == se)) [
  | inl e ↦ (ground arith, grind arith)
  | inr e ↦
      let (lo, hi) = steps_within a n step (se + step) (ground arith) in (omega arith, grind arith)
]

steps_apart :
    (a b n step se : ℕ)
    → 0 < count a (steps n step se)
    → 0 < count b (steps n step se)
    → a < b
    → a + step ≤ b
unfolding steps
steps_apart a b zero step se h k lt = absurd (omega arith)
steps_apart a b (suc n) step se h k lt = ground (
  arith,
  steps_apart a b n step (se + step),
  steps_within a n step (se + step),
  steps_within b n step (se + step),
)

steps_once : (a n step se : ℕ) → 0 < step → count a (steps n step se) ≤ 1
unfolding steps
steps_once a zero step se h = omega arith
steps_once a (suc n) step se h =
    ground (arith, steps_once a n step (se + step) h, steps_within a n step (se + step))

-- The elements fill the page.
pub elems_fill : (i : ℕ) → i < 8 → (slabs_count i * elem_bytes i ≡ 4096) × (0 < elem_bytes i)
unfolding slabs_count elem_bytes
elems_fill zero h = omega arith
elems_fill (suc zero) h = omega arith
elems_fill (suc (suc zero)) h = omega arith
elems_fill (suc (suc (suc zero))) h = omega arith
elems_fill (suc (suc (suc (suc zero)))) h = omega arith
elems_fill (suc (suc (suc (suc (suc zero))))) h = omega arith
elems_fill (suc (suc (suc (suc (suc (suc zero)))))) h = omega arith
elems_fill (suc (suc (suc (suc (suc (suc (suc zero))))))) h = omega arith
elems_fill (suc (suc (suc (suc (suc (suc (suc (suc n)))))))) h = absurd (omega arith)

-- Every element of a page lies in the page whole, and is one once.
pub elems_inside :
    (a p i : ℕ)
    → i < 8
    → 0 < count a (elems p i)
    → (a / 4096 ≡ p) × (p * 4096 ≤ a) × (a + elem_bytes i ≤ p * 4096 + 4096)
unfolding elems
elems_inside a p i lt h =
    let (fill, some_bytes) = elems_fill i lt in
    let (lo, hi) = steps_within a (slabs_count i) (elem_bytes i) (p * 4096) h in
    (omega arith, lo, omega arith)

pub elems_once : (a p i : ℕ) → i < 8 → count a (elems p i) ≤ 1
unfolding elems
elems_once a p i lt = steps_once a (slabs_count i) (elem_bytes i) (p * 4096) (elems_fill i lt).1

-- Two elements of a page do not overlap.
pub elems_apart :
    (a b p i : ℕ) → 0 < count a (elems p i) → 0 < count b (elems p i) → a < b → a + elem_bytes i ≤ b
unfolding elems
elems_apart a b p i = steps_apart a b (slabs_count i) (elem_bytes i) (p * 4096)

steps_first : (n step se : ℕ) → 0 < n → 0 < count se (steps n step se)
unfolding steps
steps_first zero step se h = h
steps_first (suc n) step se h = ground arith

pub elems_first : (p i : ℕ) → i < 8 → 0 < count (p * 4096) (elems p i)
unfolding elems
elems_first p i lt =
    steps_first (slabs_count i) (elem_bytes i) (p * 4096) (grind (arith, elems_fill i lt))

steps_aligned :
    (a n step se : ℕ) → se % 32 ≡ 0 → step % 32 ≡ 0 → 0 < count a (steps n step se) → a % 32 ≡ 0
unfolding steps
steps_aligned a zero step se h k lt = absurd (omega arith)
steps_aligned a (suc n) step se h k lt = elim (Bool-cases (a == se)) [
  | inl e ↦ ground arith
  | inr e ↦ steps_aligned a n step (se + step) (omega arith) k (ground arith)
]

pub elems_aligned : (a p i : ℕ) → 0 < count a (elems p i) → a % 32 ≡ 0
unfolding elems elem_bytes
elems_aligned a p i =
    steps_aligned a (slabs_count i) (elem_bytes i) (p * 4096) (omega arith) (omega arith)
