-- ===== src/Slab/Return.antt =====
-- An element of slab.c put back on its list.
use zufs_zus.Common.{
  ℕ, ◌+◌, ◌/◌, ◌<◌, ◌≡◌, inl, inr, List, [], ◌∷◌, ◌==◌, if◌then◌else◌, length-append, count,
  count-append, arith, Bool-cases, subst,
}
use zufs_zus.Common.Int.{pos, dec}
use zufs_zus.Pa.{del}
use zufs_zus.Pa.Inv.{count-del}
use zufs_zus.Slab.{Gsa, with_page, with_list, slab_free_elem}
use zufs_zus.Slab.Elems.{elems}
use zufs_zus.Slab.Inv.{in_page, in_page-del, At, IsGsa}

-- `a` on the list again, and no longer counted in its page
abbrev pub returned : Gsa → ℕ → ℕ → ℕ → Gsa
returned g c i a =
    let p = g.pa.page (a / 4096) in
    with_page (with_list g c i (slab_free_elem ((g.slab c).list i) a)) (a / 4096)
      (record p { slab_uc = dec p.slab_uc })

module _ {g : Gsa} {live : List ℕ} (v : IsGsa g live) (c i a : ℕ) (held : 0 < count a live)
    (place : At g (a / 4096) c i) where
  pub returned-to : {q d j : ℕ} → At g q d j → At (returned g c i a) q d j
  unfolding with_page with_list
  returned-to x = record {
    meta = ground (arith, x.meta);
    cpu = ground (arith, x.cpu);
    small = x.small;
    known = x.known;
    inside = x.inside;
    one = ground (arith, x.one);
  }

  returned-from : {q d j : ℕ} → At (returned g c i a) q d j → At g q d j
  unfolding with_page with_list
  returned-from x = record {
    meta = ground (arith, x.meta);
    cpu = ground (arith, x.cpu);
    small = x.small;
    known = x.known;
    inside = x.inside;
    one = ground (arith, x.one);
  }

  count-returned :
      (d j b : ℕ)
      → count b (((returned g c i a).slab d).list j).head
        ≡ count b ((g.slab d).list j).head
          + (if d == c then (if j == i then (if b == a then 1 else 0) else 0) else 0)
  unfolding with_page with_list slab_free_elem
  count-returned d j b = ground (arith, count-append b ((g.slab c).list i).head (a ∷ []))

  At-unique : {p d j d' j' : ℕ} → At g p d j → At g p d' j' → (d ≡ d') × (j ≡ j')
  At-unique x y = (ground (arith, x.cpu, y.cpu), ground (arith, x.meta, y.meta))

  returned-split :
      (b d j : ℕ)
      → At (returned g c i a) (b / 4096) d j
      → count b (((returned g c i a).slab d).list j).head + count b (del a live)
        ≡ count b (elems (b / 4096) j)
  returned-split b d j x =
      let y = returned-from x in
      elim (Bool-cases (b == a)) [
        | inl q ↦
            let f : b ≡ a = ground arith in
            let (ed, ej) = At-unique (subst (λ z. At g (z / 4096) d j) f y) place in
            ground (arith, count-returned d j b, v.split b d j y, count-del b a live, ed, ej)
        | inr q ↦ ground (arith, count-returned d j b, v.split b d j y, count-del b a live)
      ]

  returned-listed :
      (d j b : ℕ)
      → 0 < count b (((returned g c i a).slab d).list j).head
      → At (returned g c i a) (b / 4096) d j
  returned-listed d j b h = elim (Bool-cases (count b ((g.slab d).list j).head == 0)) [
    | inr old ↦ returned-to (v.listed d j b (ground arith))
    | inl new ↦
        let ed : d ≡ c = ground (arith, count-returned d j b) in
        let ej : j ≡ i = ground (arith, count-returned d j b) in
        let eb : b ≡ a = ground (arith, count-returned d j b) in rw (ed, ej, eb) (returned-to place)
  ]

  returned-uc :
      (p d j : ℕ)
      → At (returned g c i a) p d j
      → ((returned g c i a).pa.page p).slab_uc ≡ pos (in_page p (del a live))
  unfolding with_page with_list
  returned-uc p d j x = ground (arith, v.uc p d j (returned-from x), in_page-del p a live held)

  pub returned-IsGsa : IsGsa (returned g c i a) (del a live)
  unfolding with_page with_list slab_free_elem
  returned-IsGsa = record {
    pages = record {
      once = v.pages.once;
      known = v.pages.known;
      clear = λ q h. ground (arith, v.pages.clear q h);
      fresh = λ q h. ground (arith, v.pages.fresh q h);
    };
    cpus = λ d lt. ground (arith, v.cpus d lt);
    counted = λ d j. record {
      nfree =
          ground (arith, (v.counted d j).nfree, length-append ((g.slab c).list i).head (a ∷ []));
    };
    listed = returned-listed;
    used = λ b h.
        let (d, j, x) = v.used b (ground (arith, count-del b a live)) in (d, j, returned-to x);
    split = returned-split;
    uc = returned-uc;
  }
