-- ===== src/Toyfs/Pool/Refs.antt =====
-- The free list of dblkrefs of fs/toyfs/super.c keeps the invariant and hands out unused names.
use zufs_zus.Common.{
  ℕ, ◌+◌, ◌*◌, ◌/◌, ◌<◌, ◌≡◌, ◌≢◌, refl, ap, none, some, List, ◌∷◌, count, ◌⊎◌, inl, inr,
  List-cases, Option-cases, count-append, numbers, count-numbers, arith,
}
use zufs_zus.Toyfs.Pool.{Sbi, pool_add_free_dblkrefs, pool_pop_free_dblkref, pool_pop_dblkref}
use zufs_zus.Toyfs.Pool.Inv.{Uses, IsConsistent}
use zufs_zus.Toyfs.Pool.Quiet.{
  Quiet, cut_page-IsConsistent, Quiet-refl, Quiet-trans, add_dblkrefs-nil, add_dblkrefs-cons,
  pop_dblkref-nil, pop_dblkref-cons,
}

-- What the dblkref pool hands out: a name that nothing uses.
pub record FreshRef (s : Sbi) (u : Uses) (d : ℕ) (t : Sbi) : Type 0 where
  pub consistent : IsConsistent t u
  pub quiet : Quiet s t
  pub source : 0 < count d s.free_dblkrefs + count (d / 128) s.pages
  pub unused : u d ≡ 0
  pub not_free : count d t.free_dblkrefs ≡ 0
  pub uncut : count (d / 128) t.pages ≡ 0
  pub apart : (e : ℕ) → 0 < u e → (t.dblk e).bn ≢ d / 128

module _ {s : Sbi} {u : Uses} (v : IsConsistent s u) where
  add_free_dblkrefs-IsConsistent :
      IsConsistent (pool_add_free_dblkrefs s).1 u × Quiet s (pool_add_free_dblkrefs s).1
  add_free_dblkrefs-IsConsistent = elim (List-cases s.pages) [
    | inl e ↦ rw (add_dblkrefs-nil s e) (v, Quiet-refl s)
    | inr (p, next, e) ↦ rw (add_dblkrefs-cons s p next e) (
      cut_page-IsConsistent p next v e,
      record {
        dblk = refl;
        mem = refl;
        pages = λ q. ground (arith, ap (count q) e);
        refs = λ k h. ground (
          arith,
          ap (count (k / 128)) e,
          count-append k s.free_dblkrefs (numbers (p * 128) 128),
          count-numbers k (p * 128) 128,
        );
      },
    )
  ]

  pop_rest-FreshRef :
      (d : ℕ) (rest : List ℕ)
      → s.free_dblkrefs ≡ d ∷ rest
      → FreshRef s u d (record s { free_dblkrefs = rest })
  pop_rest-FreshRef d rest e = record {
    consistent = record {
      counted = v.counted;
      distinct = v.distinct;
      page_used = v.page_used;
      ref_used = λ k h. ground (arith, v.ref_used k h, ap (count k) e);
      pages_once = v.pages_once;
      refs_once = λ k. ground (arith, v.refs_once k, ap (count k) e);
      cut = λ k h. ground (arith, v.cut k, ap (count k) e);
      apart = λ k j h h'. ground (arith, v.apart k j h, ap (count j) e);
    };
    quiet = record {
      dblk = refl;
      mem = refl;
      pages = λ q. omega arith;
      refs = λ k h. ground (arith, ap (count k) e);
    };
    source = ground (arith, ap (count d) e);
    unused = ground (arith, v.ref_used d, ap (count d) e);
    not_free = ground (arith, v.refs_once d, ap (count d) e);
    uncut = ground (arith, v.cut d, ap (count d) e);
    apart = λ k h. v.apart k d h (ground (arith, ap (count d) e));
  }

  pop_free_dblkref-FreshRef :
      (d : ℕ) → (pool_pop_free_dblkref s).0 ≡ some d → FreshRef s u d (pool_pop_free_dblkref s).1
  pop_free_dblkref-FreshRef d h = elim (List-cases s.free_dblkrefs) [
    | inl e ↦ absurd (cc (pop_dblkref-nil s e))
    | inr (k, rest, e) ↦
        let q : k ≡ d = cc (pop_dblkref-cons s k rest e) in
        rw (pop_dblkref-cons s k rest e) (pop_rest-FreshRef d rest (rw (← q) e))
  ]

  pop_free_dblkref-none : (pool_pop_free_dblkref s).0 ≡ none → (pool_pop_free_dblkref s).1 ≡ s
  unfolding pool_pop_free_dblkref
  pop_free_dblkref-none h = ground arith

module _ (s : Sbi) where
  pop_dblkref_hit :
      (d : ℕ) → (pool_pop_free_dblkref s).0 ≡ some d → pool_pop_dblkref s ≡ pool_pop_free_dblkref s
  unfolding pool_pop_dblkref
  pop_dblkref_hit d h = ground arith

  pop_dblkref_miss :
      (pool_pop_free_dblkref s).0 ≡ none
      → (pool_pop_dblkref s ≡ (none, (pool_add_free_dblkrefs (pool_pop_free_dblkref s).1).1))
        ⊎ (pool_pop_dblkref s
            ≡ pool_pop_free_dblkref (pool_add_free_dblkrefs (pool_pop_free_dblkref s).1).1)
  unfolding pool_pop_dblkref
  pop_dblkref_miss h = ground arith

FreshRef-after : {s t v : Sbi} {u : Uses} {d : ℕ} → Quiet s t → FreshRef t u d v → FreshRef s u d v
FreshRef-after {d} q f = record {
  source = ground (arith, f.source, q.refs d, q.pages (d / 128));
  consistent = f.consistent;
  quiet = Quiet-trans q f.quiet;
  unused = f.unused;
  not_free = f.not_free;
  uncut = f.uncut;
  apart = f.apart;
}

module _ {s : Sbi} {u : Uses} (v : IsConsistent s u) where
  pub pop_dblkref-FreshRef :
      (d : ℕ) → (pool_pop_dblkref s).0 ≡ some d → FreshRef s u d (pool_pop_dblkref s).1
  pop_dblkref-FreshRef d h = elim (Option-cases (pool_pop_free_dblkref s).0) [
    | inr (k, e) ↦
        rw (pop_dblkref_hit s k e) (pop_free_dblkref-FreshRef v d (rw (pop_dblkref_hit s k e) at h))
    | inl e ↦
        let (w, q) = add_free_dblkrefs-IsConsistent v in
        let same : (pool_pop_free_dblkref s).1 ≡ s = pop_free_dblkref-none v e in
        elim (pop_dblkref_miss s e) [
          | inl none_left ↦ absurd (cc)
          | inr again ↦
              let again' : pool_pop_dblkref s ≡ pool_pop_free_dblkref (pool_add_free_dblkrefs s).1 =
                rw same at again in
              rw again' (FreshRef-after q (pop_free_dblkref-FreshRef w d (rw again' at h)))
        ]
  ]

  pub pop_dblkref-none :
      (pool_pop_dblkref s).0 ≡ none
      → IsConsistent (pool_pop_dblkref s).1 u × Quiet s (pool_pop_dblkref s).1
  pop_dblkref-none h = elim (Option-cases (pool_pop_free_dblkref s).0) [
    | inr (k, e) ↦ absurd (cc (pop_dblkref_hit s k e))
    | inl e ↦
        let (w, q) = add_free_dblkrefs-IsConsistent v in
        let same : (pool_pop_free_dblkref s).1 ≡ s = pop_free_dblkref-none v e in
        elim (pop_dblkref_miss s e) [
          | inl none_left ↦
              let left : pool_pop_dblkref s ≡ (none, (pool_add_free_dblkrefs s).1) =
                rw same at none_left in
              rw left (w, q)
          | inr again ↦
              let again' : pool_pop_dblkref s ≡ pool_pop_free_dblkref (pool_add_free_dblkrefs s).1 =
                rw same at again in
              rw (again', pop_free_dblkref-none w (rw again' at h)) (w, q)
        ]
  ]
