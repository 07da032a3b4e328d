-- ===== src/Slab/Cut.antt =====
-- `_slab_page_init` of slab.c: a page of the pool cut into elements.
use zufs_zus.Common.{
  ℕ, ◌+◌, ◌*◌, ◌/◌, ◌<◌, ◌≡◌, ◌≢◌, refl, ◌⊎◌, inl, inr, Bool, true, List, [], ◌∷◌, ◌==◌,
  if◌then◌else◌, count, arith, Bool-cases,
}
use zufs_zus.Common.Int.{pos}
use zufs_zus.Pa.{Pa}
use zufs_zus.Pa.Inv.{IsPa, Same}
use zufs_zus.Slab.{
  Gsa, with_page, with_list, page_set_slab, slabs_count, elem_bytes, slab_page_init,
}
use zufs_zus.Slab.Elems.{elems, IsCounted, count-add_elems, add_elems-IsCounted, elems_inside}
use zufs_zus.Slab.Inv.{in_page, At, IsGsa, Kept}

-- A pool whose pages in use did not change keeps the invariant.
pub repooled-At :
    {g : Gsa} {t : Pa} {p c i : ℕ}
    → IsPa g.pa
    → Same g.pa t
    → At g p c i
    → At (record g { pa = t }) p c i
repooled-At {g} {t} {p} v s a = record {
  meta = ground (arith, s.pages p, a.meta);
  cpu = ground (arith, s.pages p, a.cpu);
  small = a.small;
  known = a.known;
  inside = omega (arith, s.size, a.inside);
  one = ground (arith, s.refcount p a.inside, a.one, v.clear p, a.meta);
}

pub unpooled-At :
    {g : Gsa} {t : Pa} {p c i : ℕ}
    → IsPa g.pa
    → Same g.pa t
    → At (record g { pa = t }) p c i
    → At g p c i
unpooled-At {g} {t} {p} v s a =
    let inside : p < g.pa.size = ground (arith, s.pages p, a.meta, v.fresh p) in
    record {
      meta = ground (arith, s.pages p, a.meta);
      cpu = ground (arith, s.pages p, a.cpu);
      small = a.small;
      known = a.known;
      inside = inside;
      one = ground (arith, s.refcount p inside, a.one, v.clear p, a.meta, s.pages p);
    }

pub repooled-IsGsa :
    {g : Gsa} {t : Pa} {live : List ℕ}
    → IsGsa g live
    → IsPa t
    → Same g.pa t
    → IsGsa (record g { pa = t }) live
repooled-IsGsa {g} {t} {live} v w s = record {
  pages = w;
  cpus = v.cpus;
  counted = v.counted;
  listed = λ c i a h. repooled-At v.pages s (v.listed c i a h);
  used = λ a h. let (c, i, x) = v.used a h in (c, i, repooled-At v.pages s x);
  split = λ a c i x. v.split a c i (unpooled-At v.pages s x);
  uc = λ p c i x. ground (arith, s.pages p, v.uc p c i (unpooled-At v.pages s x));
}

-- The page `p`, which belongs to nobody, becomes one of the slab of `c`.
module _ {g : Gsa} {live : List ℕ} (v : IsGsa g live) (p : ℕ) (c i : ℕ)
    (unused : (g.pa.page p).use_count ≡ pos 0) (one : (g.pa.page p).refcount ≡ pos 1)
    (inside : p < g.pa.size) (taken : count p g.pa.head ≡ 0) (known : c < g.nslabs)
    (small : i < 8) where
  abbrev cut : Gsa
  cut = slab_page_init g c p i

  cut-At : At cut p c i
  unfolding slab_page_init with_page with_list page_set_slab
  cut-At = record {
    meta = ground arith;
    cpu = ground (arith, v.cpus c known);
    small = small;
    known = known;
    inside = inside;
    one = ground (arith, one);
  }

  pub cut-kept : {q d j : ℕ} → At g q d j → At cut q d j
  unfolding slab_page_init with_page with_list page_set_slab
  cut-kept {q} {d} {j} a = record {
    meta = ground (arith, a.meta, unused);
    cpu = ground (arith, a.cpu, a.meta, unused);
    small = a.small;
    known = a.known;
    inside = a.inside;
    one = ground (arith, a.one);
  }

  cut-cases : {q d j : ℕ} → At cut q d j → ((q ≡ p) × (d ≡ c) × (j ≡ i)) ⊎ ((q ≢ p) × At g q d j)
  unfolding slab_page_init with_page with_list page_set_slab
  cut-cases {q} {d} {j} a = elim (Bool-cases (q == p)) [
    | inl e ↦ inl (ground arith, ground (arith, a.cpu, v.cpus c known), ground (arith, a.meta))
    | inr e ↦ inr (
      ground arith,
      record {
        meta = ground (arith, a.meta);
        cpu = ground (arith, a.cpu);
        small = a.small;
        known = a.known;
        inside = a.inside;
        one = ground (arith, a.one);
      },
    )
  ]

  pub count-cut :
      (d j a : ℕ)
      → count a ((cut.slab d).list j).head
        ≡ count a ((g.slab d).list j).head
          + (if d == c then (if j == i then count a (elems p i) else 0) else 0)
  unfolding slab_page_init with_page with_list elems
  count-cut d j a =
      ground
        (arith, count-add_elems a (slabs_count i) (elem_bytes i) (p * 4096) ((g.slab c).list i))

  cut-IsCounted : (d j : ℕ) → IsCounted ((cut.slab d).list j)
  unfolding slab_page_init with_page with_list
  cut-IsCounted d j = record {
    nfree = ground (
      arith,
      (v.counted d j).nfree,
      (add_elems-IsCounted (slabs_count i) (elem_bytes i) (p * 4096) ((g.slab c).list i)
          (v.counted c i)).nfree,
    );
  }

  -- nothing of a page that belongs to nobody is listed, or in use
  none_listed : (d j a : ℕ) → a / 4096 ≡ p → count a ((g.slab d).list j).head ≡ 0
  none_listed d j a e = elim (Bool-cases (count a ((g.slab d).list j).head == 0)) [
    | inl z ↦ ground arith
    | inr z ↦ let x = v.listed d j a (ground arith) in absurd (ground (arith, x.meta, unused))
  ]

  none_used : (a : ℕ) → a / 4096 ≡ p → count a live ≡ 0
  none_used a e = elim (Bool-cases (count a live == 0)) [
    | inl z ↦ ground arith
    | inr z ↦ let (d, j, x) = v.used a (ground arith) in absurd (ground (arith, x.meta, unused))
  ]

  none_in_page : (l : List ℕ) → ((a : ℕ) → a / 4096 ≡ p → count a l ≡ 0) → in_page p l ≡ 0
  none_in_page [] h = refl
  none_in_page (a ∷ l) h = ground (arith, h a, none_in_page l (λ b e. ground (arith, h b e)))

  cut-split :
      (a d j : ℕ)
      → At cut (a / 4096) d j
      → count a ((cut.slab d).list j).head + count a live ≡ count a (elems (a / 4096) j)
  cut-split a d j x = elim (cut-cases x) [
    | inl (e, ed, ej) ↦
        rw (ed, ej, e) (ground (arith, count-cut c i a, none_listed c i a e, none_used a e))
    | inr (ne, y) ↦ ground (arith, count-cut d j a, v.split a d j y, elems_inside a p i small)
  ]

  cut-listed : (d j a : ℕ) → 0 < count a ((cut.slab d).list j).head → At cut (a / 4096) d j
  cut-listed d j a h = elim (Bool-cases (count a ((g.slab d).list j).head == 0)) [
    | inr old ↦ cut-kept (v.listed d j a (ground arith))
    | inl new ↦
        let ed : d ≡ c = ground (arith, count-cut d j a) in
        let ej : j ≡ i = ground (arith, count-cut d j a) in
        let (e, _, _) = elems_inside a p i small (ground (arith, count-cut d j a)) in
        rw (ed, ej, e) cut-At
  ]

  cut-uc : (q d j : ℕ) → At cut q d j → (cut.pa.page q).slab_uc ≡ pos (in_page q live)
  unfolding slab_page_init with_page with_list page_set_slab
  cut-uc q d j x = elim (cut-cases x) [
    | inl (e, _, _) ↦ ground (arith, none_in_page live none_used)
    | inr (ne, y) ↦ ground (arith, v.uc q d j y)
  ]

  pub cut-IsGsa : IsGsa cut live
  unfolding slab_page_init with_page with_list page_set_slab
  cut-IsGsa = record {
    pages = record {
      once = v.pages.once;
      known = v.pages.known;
      clear = λ q h. ground (arith, v.pages.clear q h, taken);
      fresh = λ q h. ground (arith, v.pages.fresh q h);
    };
    cpus = λ d lt. ground (arith, v.cpus d lt);
    counted = cut-IsCounted;
    listed = cut-listed;
    used = λ a h. let (d, j, x) = v.used a h in (d, j, cut-kept x);
    split = cut-split;
    uc = cut-uc;
  }

-- What `_slab_increase` leaves: the users' elements as they were, and on success an element to take.
pub record Increased (g : Gsa) (live : List ℕ) (c i : ℕ) (r : Bool) (h : Gsa) : Type 0 where
  pub valid : IsGsa h live
  pub kept : Kept g live h
  pub nslabs : h.nslabs ≡ g.nslabs
  pub listed : r ≡ true → (a : ℕ) × (0 < count a ((h.slab c).list i).head)
