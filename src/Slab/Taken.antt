-- ===== src/Slab/Taken.antt =====
-- The first element of a list of slab.c taken.
use zufs_zus.Common.{
  ℕ, ◌+◌, ◌/◌, ◌<◌, ◌≡◌, refl, ap, inl, inr, none, some, List, [], ◌∷◌, ◌==◌, if◌then◌else◌, length,
  count, arith, Bool-cases, subst,
}
use zufs_zus.Common.Int.{inc, dec}
use zufs_zus.Slab.{Gsa, with_page, with_list, slab_alloc_elem, slab_take}
use zufs_zus.Slab.Elems.{elems, elems_once}
use zufs_zus.Slab.Inv.{At, IsGsa, Kept}

-- The element that a user gets, and what is left.
pub record Served (g : Gsa) (live : List ℕ) (c i : ℕ) (a : ℕ) (h : Gsa) : Type 0 where
  pub valid : IsGsa h (a ∷ live)
  pub kept : Kept g live h
  pub unused : count a live ≡ 0
  pub place : At h (a / 4096) c i
  pub nslabs : h.nslabs ≡ g.nslabs

take-nil : (g : Gsa) (c i : ℕ) → ((g.slab c).list i).head ≡ [] → slab_take g c i ≡ (none, g)
unfolding slab_take slab_alloc_elem
take-nil g c i e = ground arith

-- `a` off the list, and counted in its page
abbrev taken : Gsa → ℕ → ℕ → ℕ → List ℕ → Gsa
taken g c i a r =
    let l = (g.slab c).list i in
    let p = g.pa.page (a / 4096) in
    with_page (with_list g c i (record l { head = r; nfree = dec l.nfree; nused = inc l.nused }))
      (a / 4096) (record p { slab_uc = inc p.slab_uc })

pub take-cons :
    (g : Gsa) (c i a : ℕ) (r : List ℕ)
    → ((g.slab c).list i).head ≡ a ∷ r
    → slab_take g c i ≡ (some a, taken g c i a r)
unfolding slab_take slab_alloc_elem
take-cons g c i a r e = ground arith

module _ {g : Gsa} {live : List ℕ} (v : IsGsa g live) (c i a : ℕ) (r : List ℕ)
    (e : ((g.slab c).list i).head ≡ a ∷ r) where
  taken-to : {q d j : ℕ} → At g q d j → At (taken g c i a r) q d j
  unfolding with_page with_list
  taken-to x = record {
    meta = ground (arith, x.meta);
    cpu = ground (arith, x.cpu);
    small = x.small;
    known = x.known;
    inside = x.inside;
    one = ground (arith, x.one);
  }

  taken-from : {q d j : ℕ} → At (taken g c i a r) q d j → At g q d j
  unfolding with_page with_list
  taken-from x = record {
    meta = ground (arith, x.meta);
    cpu = ground (arith, x.cpu);
    small = x.small;
    known = x.known;
    inside = x.inside;
    one = ground (arith, x.one);
  }

  place : At g (a / 4096) c i
  place = v.listed c i a (ground (arith, ap (count a) e))

  count-taken :
      (d j b : ℕ)
      → count b ((g.slab d).list j).head
        ≡ count b (((taken g c i a r).slab d).list j).head
          + (if d == c then (if j == i then (if b == a then 1 else 0) else 0) else 0)
  unfolding with_page with_list
  count-taken d j b = ground (arith, ap (count b) e)

  unused_before : count a live ≡ 0
  unused_before =
      ground (arith, v.split a c i place, elems_once a (a / 4096) i place.small, ap (count a) e)

  At-unique : {p d j d' j' : ℕ} → At g p d j → At g p d' j' → (d ≡ d') × (j ≡ j')
  At-unique x y = (ground (arith, x.cpu, y.cpu), ground (arith, x.meta, y.meta))

  taken-split :
      (b d j : ℕ)
      → At (taken g c i a r) (b / 4096) d j
      → count b (((taken g c i a r).slab d).list j).head + count b (a ∷ live)
        ≡ count b (elems (b / 4096) j)
  taken-split b d j x =
      let y = taken-from x in
      elim (Bool-cases (b == a)) [
        | inl q ↦
            let f : b ≡ a = ground arith in
            let (ed, ej) = At-unique (subst (λ z. At g (z / 4096) d j) f y) place in
            ground (arith, count-taken d j b, v.split b d j y, ed, ej)
        | inr q ↦ ground (arith, count-taken d j b, v.split b d j y)
      ]

  taken-used :
      (b : ℕ) → 0 < count b (a ∷ live) → (d : ℕ) × (j : ℕ) × At (taken g c i a r) (b / 4096) d j
  taken-used b h = elim (Bool-cases (b == a)) [
    | inl q ↦
        let f : a ≡ b = ground arith in
        (c, i, subst (λ z. At (taken g c i a r) (z / 4096) c i) f (taken-to place))
    | inr q ↦ let (d, j, x) = v.used b (ground arith) in (d, j, taken-to x)
  ]

  taken-IsGsa : IsGsa (taken g c i a r) (a ∷ live)
  unfolding with_page with_list
  taken-IsGsa = record {
    pages = record {
      once = v.pages.once;
      known = v.pages.known;
      clear = λ q h. ground (arith, v.pages.clear q h);
      fresh = λ q h. ground (arith, v.pages.fresh q h);
    };
    cpus = λ d lt. ground (arith, v.cpus d lt);
    counted = λ d j. record { nfree = ground (arith, (v.counted d j).nfree, ap length e) };
    listed = λ d j b h. taken-to (v.listed d j b (ground (arith, count-taken d j b)));
    used = taken-used;
    split = taken-split;
    uc = λ p d j x. ground (arith, v.uc p d j (taken-from x));
  }

  pub taken-Served : Served g live c i a (taken g c i a r)
  unfolding with_page with_list
  taken-Served = record {
    valid = taken-IsGsa;
    kept = λ b d j h x. taken-to x;
    unused = unused_before;
    place = taken-to place;
    nslabs = refl;
  }
