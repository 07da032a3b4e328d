-- ===== src/Slab/Grow.antt =====
-- `_slab_increase` of slab.c: a page is cut into elements.
use zufs_zus.Common.{
  ◌∙◌, ℕ, ◌*◌, ◌<◌, ◌≡◌, refl, inl, inr, Bool, true, false, none, some, List, count, arith,
  Option-cases,
}
use zufs_zus.Common.Int.{pos}
use zufs_zus.Pa.{pa_alloc}
use zufs_zus.Pa.Alloc.{pa_alloc_lem}
use zufs_zus.Slab.{Gsa, with_page, with_list, slab_page_init, slab_increase}
use zufs_zus.Slab.Elems.{elems_first}
use zufs_zus.Slab.Inv.{IsGsa, Kept}
use zufs_zus.Slab.Cut.{repooled-At, repooled-IsGsa, cut-kept, count-cut, cut-IsGsa, Increased}

cut_nslabs : (g : Gsa) (p c i : ℕ) → (slab_page_init g c p i).nslabs ≡ g.nslabs
unfolding slab_page_init with_page with_list
cut_nslabs g p c i = refl

increased :
    {g h : Gsa} {live : List ℕ}
    → IsGsa g live
    → IsGsa h live
    → Kept g live h
    → h.nslabs ≡ g.nslabs
    → (p c i : ℕ) → (h.pa.page p).use_count ≡ pos 0
    → (h.pa.page p).refcount ≡ pos 1
    → p < h.pa.size
    → count p h.pa.head ≡ 0
    → c < h.nslabs
    → i < 8
    → Increased g live c i true (slab_page_init h c p i)
increased {g} {h} {live} v k kept nslabs p c i clear one inside taken known small = record {
  valid = cut-IsGsa k p c i clear one inside taken known small;
  kept = λ a d j u x. cut-kept k p c i clear one inside taken known small (kept a d j u x);
  nslabs = cut_nslabs h p c i ∙ nslabs;
  listed = λ q. (
    p * 4096,
    ground (
      arith,
      count-cut k p c i clear one inside taken known small c i (p * 4096),
      elems_first p i small,
    ),
  );
}

module _ (mlock_fails : ℕ → ℕ → Bool) where
  increase-none :
      (g : Gsa) (c i : ℕ)
      → (pa_alloc mlock_fails g.pa).0 ≡ none
      → slab_increase mlock_fails g c i ≡ (false, record g { pa = (pa_alloc mlock_fails g.pa).1 })
  unfolding slab_increase
  increase-none g c i e = rw (e, slab_increase) refl

  increase-some :
      (g : Gsa) (c i p : ℕ)
      → (pa_alloc mlock_fails g.pa).0 ≡ some p
      → slab_increase mlock_fails g c i
        ≡ (true, slab_page_init (record g { pa = (pa_alloc mlock_fails g.pa).1 }) c p i)
  unfolding slab_increase
  increase-some g c i p e = rw (e, slab_increase) refl

  pub slab_increase_lem :
      {g : Gsa} {live : List ℕ} (c i : ℕ)
      → IsGsa g live
      → c < g.nslabs
      → i < 8
      → Increased g live c i (slab_increase mlock_fails g c i).0 (slab_increase mlock_fails g c i).1
  slab_increase_lem {g} {live} c i v known small =
      let w = pa_alloc_lem mlock_fails g.pa v.pages in
      let k = repooled-IsGsa v w.valid w.same in
      elim (Option-cases (pa_alloc mlock_fails g.pa).0) [
        | inl e ↦ rw (increase-none g c i e) (record {
          valid = k;
          kept = λ a d j h x. repooled-At v.pages w.same x;
          nslabs = refl;
          listed = λ q. cc;
        })
        | inr (p, e) ↦
            let h : Gsa = record g { pa = (pa_alloc mlock_fails g.pa).1 } in
            let a = w.got p e in
            let clear : (h.pa.page p).use_count ≡ pos 0 =
              ground (arith, a.unused, a.same.pages p) in
            rw (increase-some g c i p e) (
              increased v k (λ b d j u x. repooled-At v.pages w.same x) refl p c i clear a.counted
                a.inside a.taken known small)
      ]
