-- ===== src/Slab/Free.antt =====
-- `_slab_free` of slab.c: an element put back, and the page with its last one given up.
use zufs_zus.Common.{
  ℕ, ◌+◌, ◌*◌, ◌/◌, ◌≤◌, ◌<◌, ◌≡◌, ◌≢◌, refl, ◌∙◌, inl, inr, Bool, true, false, ◌&&◌, not, some,
  List, ◌==◌, if◌then◌else◌, count, arith, Bool-cases, subst,
}
use zufs_zus.Common.Int.{pos, dec, is_zero, ltb_ℤ}
use zufs_zus.Pa.{del, pa_put_page, pa_free_page}
use zufs_zus.Pa.Inv.{IsPa}
use zufs_zus.Slab.{
  Gsa, with_page, with_list, slab_free_elem, slab_free_at, slab_page_fini, put_page,
  page_clear_slab, page_slab_index, check_list_index, slab_free, slabs_count, elem_bytes,
}
use zufs_zus.Slab.Elems.{elems, IsCounted, elems_inside, count-del_elems, del_elems-IsCounted}
use zufs_zus.Slab.Inv.{in_page, count-le-in_page, At, IsGsa, Kept}
use zufs_zus.Slab.Return.{returned, returned-to, returned-IsGsa}

-- The page `p`, of which nothing is in use, given up.
module _ {g : Gsa} {live : List ℕ} (v : IsGsa g live) (c i p : ℕ) (place : At g p c i)
    (none_used : in_page p live ≡ 0) where
  abbrev gone : Gsa
  gone = put_page (slab_page_fini g c p i) p

  all_listed : (a : ℕ) → count a (elems p i) ≤ count a ((g.slab c).list i).head
  all_listed a = elim (Bool-cases (a / 4096 == p)) [
    | inl e ↦
        let f : p ≡ a / 4096 = ground arith in
        let x = subst (λ q. At g q c i) f place in
        ground (arith, v.split a c i x, count-le-in_page a live)
    | inr e ↦ ground (arith, elems_inside a p i place.small)
  ]

  count-gone :
      (d j a : ℕ)
      → count a ((gone.slab d).list j).head
          + (if d == c then (if j == i then count a (elems p i) else 0) else 0)
        ≡ count a ((g.slab d).list j).head
  unfolding put_page pa_put_page slab_page_fini with_page with_list elems
  count-gone d j a = ground (
    arith,
    count-del_elems a (slabs_count i) (elem_bytes i) (p * 4096) ((g.slab c).list i) all_listed,
  )

  gone-to : {q d j : ℕ} → q ≢ p → At g q d j → At gone q d j
  unfolding put_page pa_put_page pa_free_page slab_page_fini with_page with_list page_clear_slab
  gone-to ne x = record {
    meta = ground (arith, x.meta);
    cpu = ground (arith, x.cpu);
    small = x.small;
    known = x.known;
    inside = ground (arith, x.inside);
    one = ground (arith, x.one);
  }

  gone-from : {q d j : ℕ} → At gone q d j → (q ≢ p) × At g q d j
  unfolding put_page pa_put_page pa_free_page slab_page_fini with_page with_list page_clear_slab
  gone-from {q} x =
      let ne : (q == p) ≡ false = ground (arith, x.meta) in
      (
        ground arith,
        record {
          meta = ground (arith, x.meta);
          cpu = ground (arith, x.cpu);
          small = x.small;
          known = x.known;
          inside = ground (arith, x.inside);
          one = ground (arith, x.one);
        },
      )

  gone-IsPa : IsPa gone.pa
  unfolding put_page pa_put_page pa_free_page slab_page_fini with_page with_list page_clear_slab
  gone-IsPa = record {
    once = λ q. ground (arith, place.one, place.meta, v.pages.once q, v.pages.clear q);
    known = λ q h. ground (arith, place.one, place.inside, v.pages.known q);
    clear = λ q h. ground (arith, place.one, v.pages.clear q);
    fresh = λ q h. ground (arith, place.one, v.pages.fresh q);
  }

  gone-IsCounted : (d j : ℕ) → IsCounted ((gone.slab d).list j)
  unfolding put_page pa_put_page slab_page_fini with_page with_list elems
  gone-IsCounted d j = record {
    nfree = ground (
      arith,
      (v.counted d j).nfree,
      (del_elems-IsCounted (slabs_count i) (elem_bytes i) (p * 4096) ((g.slab c).list i) all_listed
          (v.counted c i)).nfree,
    );
  }

  -- nothing of the page is left on a list
  off_page : (d j a : ℕ) → 0 < count a ((gone.slab d).list j).head → a / 4096 ≢ p
  off_page d j a h e =
      let before : 0 < count a ((g.slab d).list j).head = ground (arith, count-gone d j a) in
      let x = v.listed d j a before in
      let y = subst (λ q. At g q d j) e x in
      ground (
        arith,
        count-gone d j a,
        v.split a d j x,
        y.cpu,
        y.meta,
        place.cpu,
        place.meta,
        count-le-in_page a live,
      )

  still_used : (a : ℕ) → 0 < count a live → a / 4096 ≢ p
  still_used a h e = ground (arith, count-le-in_page a live)

  gone-split :
      (a d j : ℕ)
      → At gone (a / 4096) d j
      → count a ((gone.slab d).list j).head + count a live ≡ count a (elems (a / 4096) j)
  gone-split a d j x =
      let (ne, y) = gone-from x in
      ground (arith, count-gone d j a, v.split a d j y, elems_inside a p i place.small)

  gone-uc : (q d j : ℕ) → At gone q d j → (gone.pa.page q).slab_uc ≡ pos (in_page q live)
  unfolding put_page pa_put_page pa_free_page slab_page_fini with_page with_list page_clear_slab
  gone-uc q d j x = let (ne, y) = gone-from x in ground (arith, v.uc q d j y)

  gone-cpus : (d : ℕ) → d < gone.nslabs → (gone.slab d).cpu ≡ d
  unfolding put_page pa_put_page slab_page_fini with_page with_list
  gone-cpus d lt = ground (arith, v.cpus d lt)

  gone_nslabs : gone.nslabs ≡ g.nslabs
  unfolding put_page pa_put_page slab_page_fini with_page with_list
  gone_nslabs = refl

  gone-IsGsa : IsGsa gone live
  gone-IsGsa = record {
    pages = gone-IsPa;
    cpus = gone-cpus;
    counted = gone-IsCounted;
    listed =
        λ d j a h. gone-to (off_page d j a h) (v.listed d j a (ground (arith, count-gone d j a)));
    used = λ a h. let (d, j, x) = v.used a h in (d, j, gone-to (still_used a h) x);
    split = gone-split;
    uc = gone-uc;
  }

returned_nslabs : (g : Gsa) (c i a : ℕ) → (returned g c i a).nslabs ≡ g.nslabs
unfolding with_page with_list
returned_nslabs g c i a = refl

-- What is left when the element `a` has been put back.
pub record Freed (g : Gsa) (live : List ℕ) (a : ℕ) (h : Gsa) : Type 0 where
  pub valid : IsGsa h (del a live)
  pub kept : Kept g (del a live) h
  pub nslabs : h.nslabs ≡ g.nslabs

module _ {g : Gsa} {live : List ℕ} (v : IsGsa g live) (c i a : ℕ) (held : 0 < count a live)
    (place : At g (a / 4096) c i) where
  abbrev last : Bool
  last =
      let l = slab_free_elem ((g.slab c).list i) a in
      is_zero (dec (g.pa.page (a / 4096)).slab_uc) && not (ltb_ℤ l.nfree l.nfree_want)

  free_at-stays : last ≡ false → slab_free_at g c i a ≡ returned g c i a
  unfolding slab_free_at
  free_at-stays h = ground arith

  free_at-goes :
      last ≡ true
      → slab_free_at g c i a
        ≡ put_page (slab_page_fini (returned g c i a) c (a / 4096) i) (a / 4096)
  unfolding slab_free_at
  free_at-goes h = ground arith

  last-in_page : last ≡ true → in_page (a / 4096) (del a live) ≡ 0
  unfolding with_page with_list
  last-in_page h = ground (
    arith,
    (returned-IsGsa v c i a held place).uc (a / 4096) c i (returned-to v c i a held place place),
  )

  slab_free_at_lem : Freed g live a (slab_free_at g c i a)
  slab_free_at_lem =
      let w = returned-IsGsa v c i a held place in
      let to = returned-to v c i a held place place in
      elim (Bool-cases last) [
        | inr h ↦ rw (free_at-stays h) (record {
          valid = w;
          kept = λ b d j u x. returned-to v c i a held place x;
          nslabs = returned_nslabs g c i a;
        })
        | inl h ↦
            let none_left = last-in_page h in
            rw (free_at-goes h) (record {
              valid = gone-IsGsa w c i (a / 4096) to none_left;
              kept = λ b d j u x.
                  gone-to w c i (a / 4096) to none_left
                    (still_used w c i (a / 4096) to none_left b u)
                    (returned-to v c i a held place x);
              nslabs = gone_nslabs w c i (a / 4096) to none_left ∙ returned_nslabs g c i a;
            })
      ]

pub index-At : {g : Gsa} {p c i : ℕ} → At g p c i → page_slab_index (g.pa.page p) ≡ some i
unfolding page_slab_index check_list_index
index-At {g} {p} {c} {i} x = ground (arith, x.meta, x.small)

slab_free-some :
    (g : Gsa) (c i a : ℕ)
    → page_slab_index (g.pa.page (a / 4096)) ≡ some i
    → slab_free g c a ≡ (true, slab_free_at g c i a)
unfolding slab_free
slab_free-some g c i a h = ground arith

-- `_slab_free` of an element in use puts it back on its slab and succeeds; the rest stays in use.
pub slab_free_lem :
    {g : Gsa} {live : List ℕ} (c i a : ℕ)
    → IsGsa g live
    → 0 < count a live
    → At g (a / 4096) c i
    → ((slab_free g c a).0 ≡ true) × Freed g live a (slab_free g c a).1
slab_free_lem {g} c i a v held place =
    rw (slab_free-some g c i a (index-At place)) (refl, slab_free_at_lem v c i a held place)
