-- ===== src/Slab/Take.antt =====
-- `_slab_alloc` of slab.c: an element of a list, or of a new page.
use zufs_zus.Common.{
  sym, ℕ, ◌<◌, ◌≡◌, refl, ap, ◌∙◌, inl, inr, Bool, true, false, Option, none, some, List, ltb,
  if◌then◌else◌, length, count, arith, Bool-cases, List-cases, some_eq, subst,
}
use zufs_zus.Common.Int.{is_zero}
use zufs_zus.Slab.{
  SlabList, Gsa, slab_take, slab_increase, slab_list_index, slab_list_empty, slab_alloc,
}
use zufs_zus.Slab.Elems.{IsCounted}
use zufs_zus.Slab.Inv.{IsGsa, Kept}
use zufs_zus.Slab.Grow.{slab_increase_lem}
use zufs_zus.Slab.Taken.{Served, take-cons, taken-Served}

-- What a request for an element of the list `i` of the slab of `c` comes to.
pub record Answer (g : Gsa) (live : List ℕ) (c i : ℕ) (r : Option ℕ) (h : Gsa) : Type 0 where
  pub served : (a : ℕ) → r ≡ some a → Served g live c i a h
  pub refused : r ≡ none → IsGsa h live × Kept g live h × (h.nslabs ≡ g.nslabs)

Answer-some :
    {g h : Gsa} {live : List ℕ} {c i a : ℕ} → Served g live c i a h → Answer g live c i (some a) h
Answer-some {g} {h} {live} {c} {i} {a} s = record {
  served = λ b q. subst (λ z. Served g live c i z h) (some_eq q) s;
  refused = λ q. cc;
}

Served-after :
    {g t h : Gsa} {live : List ℕ} {c i a : ℕ}
    → Kept g live t
    → t.nslabs ≡ g.nslabs
    → Served t live c i a h
    → Served g live c i a h
Served-after k n s = record {
  valid = s.valid;
  kept = λ b d j h x. s.kept b d j h (k b d j h x);
  unused = s.unused;
  place = s.place;
  nslabs = s.nslabs ∙ n;
}

-- With an element on the list, one is served.
take_lem :
    {g t : Gsa} {live : List ℕ} (c i : ℕ)
    → IsGsa t live
    → Kept g live t
    → t.nslabs ≡ g.nslabs
    → (a : ℕ) → 0 < count a ((t.slab c).list i).head
    → Answer g live c i (slab_take t c i).0 (slab_take t c i).1
take_lem {g} {t} {live} c i v k n a h = elim (List-cases ((t.slab c).list i).head) [
  | inl e ↦ absurd (ground (arith, ap (count a) e))
  | inr (b, r, e) ↦
      rw (take-cons t c i b r e) (Answer-some (Served-after k n (taken-Served v c i b r e)))
]

not_empty : (l : SlabList) → IsCounted l → is_zero l.nfree ≡ false → (a : ℕ) × (0 < count a l.head)
not_empty l v z = elim (List-cases l.head) [
  | inl e ↦ absurd (ground (arith, v.nfree, ap length e))
  | inr (b, r, e) ↦ (b, ground (arith, ap (count b) e))
]

test-below : (i : ℕ) → i < 8 → (b : Bool) → (if ltb i 8 then b else true) ≡ b
test-below i lt b = ground arith

module _ (mlock_fails : ℕ → ℕ → Bool) (g : Gsa) (c size : ℕ) where
  alloc-listed :
      slab_list_empty (g.slab c) size ≡ false
      → slab_alloc mlock_fails g c size ≡ slab_take g c (slab_list_index size)
  unfolding slab_alloc
  alloc-listed h = rw h refl

  alloc-grown :
      slab_list_empty (g.slab c) size ≡ true
      → (slab_increase mlock_fails g c (slab_list_index size)).0 ≡ true
      → slab_alloc mlock_fails g c size
        ≡ slab_take
            (slab_increase mlock_fails g c (slab_list_index size)).1
            c
            (slab_list_index size)
  unfolding slab_alloc
  alloc-grown h k = rw h (rw k refl)

  alloc-stuck :
      slab_list_empty (g.slab c) size ≡ true
      → (slab_increase mlock_fails g c (slab_list_index size)).0 ≡ false
      → slab_alloc mlock_fails g c size
        ≡ (none, (slab_increase mlock_fails g c (slab_list_index size)).1)
  unfolding slab_alloc
  alloc-stuck h k = rw h (rw k refl)

  empty-nfree :
      slab_list_index size < 8
      → slab_list_empty (g.slab c) size ≡ is_zero ((g.slab c).list (slab_list_index size)).nfree
  unfolding slab_list_empty
  empty-nfree lt =
      test-below (slab_list_index size) lt (is_zero ((g.slab c).list (slab_list_index size)).nfree)

  -- `_slab_alloc` serves an element that nobody has, of the size of its list, or nothing; what is in
  -- use stays in use.
  pub slab_alloc_lem :
      {live : List ℕ}
      → IsGsa g live
      → c < g.nslabs
      → slab_list_index size < 8
      → Answer g live c
          (slab_list_index size)
          (slab_alloc mlock_fails g c size).0
          (slab_alloc mlock_fails g c size).1
  slab_alloc_lem {live} v known small =
      let i = slab_list_index size in
      let w = slab_increase_lem mlock_fails c i v known small in
      elim (Bool-cases (slab_list_empty (g.slab c) size)) [
        | inr h ↦
            let (a, k) =
              not_empty ((g.slab c).list i) (v.counted c i) (sym (empty-nfree small) ∙ h) in
            rw (alloc-listed h) (take_lem c i v (λ b d j u x. x) refl a k)
        | inl h ↦ elim (Bool-cases (slab_increase mlock_fails g c i).0) [
          | inl k ↦
              let (a, m) = w.listed k in
              rw (alloc-grown h k) (take_lem c i w.valid w.kept w.nslabs a m)
          | inr k ↦
              rw (alloc-stuck h k)
                (record { served = λ a q. cc; refused = λ q. (w.valid, w.kept, w.nslabs) })
        ]
      ]
