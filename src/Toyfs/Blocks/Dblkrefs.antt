-- ===== src/Toyfs/Blocks/Dblkrefs.antt =====
-- Taking and dropping a reference to a page: `_new_dblkref`, `_free_dblkref` and `_decref_dblkref`
-- of fs/toyfs/file.c.
use zufs_zus.Common.{
  [], ◌∷◌, count-append, ℕ, ◌-◌, ◌<◌, ◌≡◌, ◌≢◌, refl, ap, ◌⊎◌, inl, inr, none, some, ◌==◌, update,
  arith, Bool-cases, Option-cases,
}
use zufs_zus.Toyfs.Pool.{
  Dblkref, Sbi, acquire_pmemb, release_pmemb, acquire_dblkref, release_dblkref, pool_push_dblkref,
}
use zufs_zus.Toyfs.Pool.Inv.{
  Uses, add, IsConsistent, Same, Same-refl, Same-trans, Fresh, acquire_pmemb-none,
  acquire_pmemb-Fresh, release_pmemb-IsConsistent, release_pmemb-Same,
}
use zufs_zus.Toyfs.Pool.Acquire.{
  Quiet-Same, Acquired, acquire_dblkref-Acquired, acquire_dblkref-none,
  release_dblkref-IsConsistent,
}
use zufs_zus.Toyfs.Blocks.{new_dblkref, free_dblkref, decref_dblkref}

-- What `_new_dblkref` hands out: a dblkref with one reference to a page of zeros.
pub record New (s : Sbi) (u : Uses) (d : ℕ) (t : Sbi) : Type 0 where
  pub consistent : IsConsistent t (add u d)
  pub unused : u d ≡ 0
  pub one : (t.dblk d).refcnt ≡ 1
  pub zeros : (o : ℕ) → t.mem (t.dblk d).bn o ≡ 0
  pub dblk : (e : ℕ) → e ≢ d → t.dblk e ≡ s.dblk e
  pub same : Same u s t

module _ {s t v : Sbi} {u : Uses} {p d : ℕ} (f : Fresh s u p t) (a : Acquired t u d v) where
  join-New : New s u d (record v { dblk = update v.dblk d (record { refcnt = 1; bn = p }) })
  join-New =
      let w = a.consistent in
      record {
        consistent = record {
          counted = λ e. ground (arith, w.counted e, a.unused);
          distinct = λ e k h h' q.
              ground (
                arith,
                w.distinct e k,
                a.unused,
                a.dblk e,
                a.dblk k,
                f.unused e,
                f.unused k,
                f.dblk,
              );
          page_used = λ e h. ground (arith, w.page_used e, a.unused, a.pages p, f.not_free);
          ref_used = λ e h. ground (arith, w.ref_used e, a.not_free);
          pages_once = w.pages_once;
          refs_once = w.refs_once;
          cut = λ e h. ground (arith, w.cut e, a.uncut);
          apart = λ e k h h' q. ground (
            arith,
            w.apart e k,
            a.apart e,
            a.unused,
            f.uncut k,
            f.uncut d,
            a.refs k,
            a.source,
            f.not_free,
          );
        };
        unused = a.unused;
        one = ground arith;
        zeros = λ o. ground (arith, f.zeros o, ap (λ (m : ℕ → ℕ → ℕ). m p o) a.mem);
        dblk = λ e h. ground (arith, a.dblk e h, ap (λ (g : ℕ → Dblkref). g e) f.dblk);
        same = record {
          bn = λ e h. ground (arith, a.unused, a.dblk e, ap (λ (g : ℕ → Dblkref). g e) f.dblk);
          bytes = λ e o h.
              ground (arith, f.same.bytes e o, ap (λ (m : ℕ → ℕ → ℕ). m (s.dblk e).bn o) a.mem);
        };
      }

module _ (s : Sbi) where
  new_dblkref-got :
      (d : ℕ)
      → (new_dblkref s).0 ≡ some d
      → (p : ℕ) × ((acquire_pmemb s).0 ≡ some p)
        × ((acquire_dblkref (acquire_pmemb s).1).0 ≡ some d)
        × ((new_dblkref s).1 ≡ record (acquire_dblkref (acquire_pmemb s).1).1 {
          dblk =
              update (acquire_dblkref (acquire_pmemb s).1).1.dblk d (record { refcnt = 1; bn = p });
        })
  unfolding new_dblkref
  new_dblkref-got d h = elim (Option-cases (acquire_pmemb s).0) [
    | inl e ↦ absurd (ground arith)
    | inr (p, e) ↦ (p, e, ground arith, ground arith)
  ]

  new_dblkref-failed :
      (new_dblkref s).0 ≡ none
      → ((new_dblkref s).1 ≡ s)
        ⊎ ((p : ℕ) × ((acquire_pmemb s).0 ≡ some p)
            × ((acquire_dblkref (acquire_pmemb s).1).0 ≡ none)
            × ((new_dblkref s).1 ≡ release_pmemb (acquire_dblkref (acquire_pmemb s).1).1 p))
  unfolding new_dblkref
  new_dblkref-failed h = elim (Option-cases (acquire_pmemb s).0) [
    | inl e ↦ inl (ground (arith, acquire_pmemb-none s e))
    | inr (p, e) ↦ inr (p, e, ground arith, ground arith)
  ]

module _ {s : Sbi} {u : Uses} (v : IsConsistent s u) where
  pub new_dblkref-New : (d : ℕ) → (new_dblkref s).0 ≡ some d → New s u d (new_dblkref s).1
  new_dblkref-New d h =
      let (p, got, got', e) = new_dblkref-got s d h in
      let f = acquire_pmemb-Fresh p v got in
      rw e (join-New f (acquire_dblkref-Acquired f.consistent d got'))

  pub new_dblkref-none :
      (new_dblkref s).0 ≡ none → IsConsistent (new_dblkref s).1 u × Same u s (new_dblkref s).1
  new_dblkref-none h = elim (new_dblkref-failed s h) [
    | inl e ↦ rw e (v, Same-refl u s)
    | inr (p, got, failed, e) ↦
        let f = acquire_pmemb-Fresh p v got in
        let (w, q) = acquire_dblkref-none f.consistent failed in
        rw e (
          release_pmemb-IsConsistent p w (ground (arith, q.pages p, f.not_free))
              (λ k j. ground (
                arith,
                f.unused k j,
                ap (λ (g : ℕ → Dblkref). g k) q.dblk,
                ap (λ (g : ℕ → Dblkref). g k) f.dblk,
              ))
              (λ k j. ground (arith, f.uncut k j, q.refs k, f.not_free)),
          release_pmemb-Same p (Same-trans f.same (Quiet-Same q)),
        )
  ]

  -- The assertion of `_decref_dblkref` holds for a dblkref in use.
  pub refcnt-pos : (d : ℕ) → 0 < u d → 0 < (s.dblk d).refcnt
  refcnt-pos d h = omega (arith, v.counted d)

-- `dblkref->refcnt--`
abbrev pub lowered : Sbi → ℕ → Sbi
lowered s d = record s {
  dblk = update s.dblk d (record (s.dblk d) { refcnt = (s.dblk d).refcnt - 1 });
}

free_lowered :
    (s : Sbi) (d : ℕ)
    → free_dblkref (lowered s d) d ≡ release_pmemb (release_dblkref (lowered s d) d) (s.dblk d).bn
unfolding free_dblkref
free_lowered s d = ground arith

module _ {s : Sbi} {u : Uses} (d : ℕ) (v : IsConsistent s (add u d)) where
  -- One reference less, in the count and in the files.
  lowered-IsConsistent : IsConsistent (lowered s d) u
  lowered-IsConsistent = record {
    counted = λ e. ground (arith, v.counted e);
    distinct = λ e k h h'. ground (arith, v.distinct e k);
    page_used = λ e h. ground (arith, v.page_used e);
    ref_used = λ e h. v.ref_used e (ground arith);
    pages_once = v.pages_once;
    refs_once = v.refs_once;
    cut = λ e h. v.cut e (ground arith);
    apart = λ e k h h'. ground (arith, v.apart e k);
  }

  lowered-Same : Same u s (lowered s d)
  lowered-Same = record { bn = λ e h. ground arith; bytes = λ e o h. refl }

  free_lowered-IsConsistent : u d ≡ 0 → IsConsistent (free_dblkref (lowered s d) d) u
  unfolding release_dblkref pool_push_dblkref
  free_lowered-IsConsistent z = rw free_lowered (
      release_pmemb-IsConsistent (s.dblk d).bn
        (release_dblkref-IsConsistent lowered-IsConsistent d z (v.ref_used d (ground arith))
          (v.cut d (ground arith)) (λ e h. ground (arith, v.apart e d)))
        (v.page_used d (ground arith)) (λ k h. ground (arith, v.distinct k d))
        (λ k h. ground (arith, v.apart d k, count-append k s.free_dblkrefs (d ∷ []))))

  free_lowered-Same : u d ≡ 0 → Same u s (free_dblkref (lowered s d) d)
  unfolding release_dblkref pool_push_dblkref
  free_lowered-Same z = rw free_lowered (
      release_pmemb-Same (s.dblk d).bn (record { bn = λ e h. ground arith; bytes = λ e o h. refl }))

  -- Dropping one reference keeps the invariant, and every page that is still in use.
  pub decref_dblkref_lem : IsConsistent (decref_dblkref s d) u × Same u s (decref_dblkref s d)
  unfolding decref_dblkref
  decref_dblkref_lem = elim (Bool-cases ((s.dblk d).refcnt - 1 == 0)) [
    | inl e ↦
        let z : u d ≡ 0 = ground (arith, v.counted d) in
        rw e (free_lowered-IsConsistent z, free_lowered-Same z)
    | inr e ↦ rw e (lowered-IsConsistent, lowered-Same)
  ]
