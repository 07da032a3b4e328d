-- ===== src/Toyfs/Pool/Acquire.antt =====
-- `toyfs_acquire_dblkref` and `toyfs_release_dblkref` of fs/toyfs/super.c against the invariant.
use zufs_zus.Common.{
  ℕ, ◌+◌, ◌/◌, ◌≤◌, ◌<◌, ◌≡◌, ◌≢◌, ap, none, some, [], ◌∷◌, update, count, count-append, arith,
}
use zufs_zus.Toyfs.Pool.{
  Dblkref, Sbi, pool_pop_dblkref, pool_push_dblkref, acquire_dblkref, release_dblkref,
}
use zufs_zus.Toyfs.Pool.Inv.{Uses, IsConsistent, Same}
use zufs_zus.Toyfs.Pool.Refs.{FreshRef, pop_dblkref-FreshRef, pop_dblkref-none}
use zufs_zus.Toyfs.Pool.Quiet.{Quiet}

-- What `toyfs_acquire_dblkref` hands out: an unused name whose fields are cleared.
pub record Acquired (s : Sbi) (u : Uses) (d : ℕ) (t : Sbi) : Type 0 where
  pub consistent : IsConsistent t u
  pub unused : u d ≡ 0
  pub not_free : count d t.free_dblkrefs ≡ 0
  pub uncut : count (d / 128) t.pages ≡ 0
  pub apart : (e : ℕ) → 0 < u e → (t.dblk e).bn ≢ d / 128
  pub dblk : (e : ℕ) → e ≢ d → t.dblk e ≡ s.dblk e
  pub mem : t.mem ≡ s.mem
  pub pages : (p : ℕ) → count p t.pages ≤ count p s.pages
  pub refs :
      (k : ℕ) → 0 < count k t.free_dblkrefs → 0 < count k s.free_dblkrefs + count (k / 128) s.pages
  pub source : 0 < count d s.free_dblkrefs + count (d / 128) s.pages

acquire_dblkref-got :
    (s : Sbi) (d : ℕ)
    → (acquire_dblkref s).0 ≡ some d
    → ((pool_pop_dblkref s).0 ≡ some d)
      × ((acquire_dblkref s).1 ≡ record (pool_pop_dblkref s).1 {
        dblk = update (pool_pop_dblkref s).1.dblk d (record { refcnt = 0; bn = 0 });
      })
unfolding acquire_dblkref
acquire_dblkref-got s d h = ground arith

acquire_dblkref-failed :
    (s : Sbi)
    → (acquire_dblkref s).0 ≡ none
    → ((pool_pop_dblkref s).0 ≡ none) × ((acquire_dblkref s).1 ≡ (pool_pop_dblkref s).1)
unfolding acquire_dblkref
acquire_dblkref-failed s h = ground arith

-- Clearing the fields of an unused dblkref.
module _ {s : Sbi} {u : Uses} {d : ℕ} {t : Sbi} (f : FreshRef s u d t) where
  clear-Acquired :
      Acquired s u d (record t { dblk = update t.dblk d (record { refcnt = 0; bn = 0 }) })
  clear-Acquired =
      let v = f.consistent in
      record {
        consistent = record {
          counted = λ e. ground (arith, v.counted e, f.unused);
          distinct = λ e k h h'. ground (arith, v.distinct e k, f.unused);
          page_used = λ e h. ground (arith, v.page_used e, f.unused);
          ref_used = v.ref_used;
          pages_once = v.pages_once;
          refs_once = v.refs_once;
          cut = v.cut;
          apart = λ e k h h'. ground (arith, v.apart e k h h', f.unused);
        };
        unused = f.unused;
        not_free = f.not_free;
        uncut = f.uncut;
        apart = λ e h. ground (arith, f.apart e h, f.unused);
        dblk = λ e h. ground (arith, ap (λ (g : ℕ → Dblkref). g e) f.quiet.dblk);
        mem = f.quiet.mem;
        pages = f.quiet.pages;
        refs = f.quiet.refs;
        source = f.source;
      }

module _ {s : Sbi} {u : Uses} (v : IsConsistent s u) where
  pub acquire_dblkref-Acquired :
      (d : ℕ) → (acquire_dblkref s).0 ≡ some d → Acquired s u d (acquire_dblkref s).1
  acquire_dblkref-Acquired d h =
      let (got, e) = acquire_dblkref-got s d h in
      rw e (clear-Acquired (pop_dblkref-FreshRef v d got))

  pub acquire_dblkref-none :
      (acquire_dblkref s).0 ≡ none
      → IsConsistent (acquire_dblkref s).1 u × Quiet s (acquire_dblkref s).1
  acquire_dblkref-none h =
      let (failed, e) = acquire_dblkref-failed s h in rw e (pop_dblkref-none v failed)

  -- Giving back the name `d`, which nothing uses.
  pub release_dblkref-IsConsistent :
      (d : ℕ)
      → u d ≡ 0
      → count d s.free_dblkrefs ≡ 0
      → count (d / 128) s.pages ≡ 0
      → ((e : ℕ) → 0 < u e → (s.dblk e).bn ≢ d / 128)
      → IsConsistent (release_dblkref s d) u
  unfolding release_dblkref pool_push_dblkref
  release_dblkref-IsConsistent d unused not_free uncut apart = record {
    counted = λ e. ground (arith, v.counted e);
    distinct = λ e k h h'. ground (arith, v.distinct e k);
    page_used = λ e h. ground (arith, v.page_used e);
    ref_used = λ e h. ground (arith, v.ref_used e, count-append e s.free_dblkrefs (d ∷ []));
    pages_once = v.pages_once;
    refs_once = λ e. ground (arith, v.refs_once e, count-append e s.free_dblkrefs (d ∷ []));
    cut = λ e h. ground (arith, v.cut e, count-append e s.free_dblkrefs (d ∷ []));
    apart = λ e k h h'.
        ground (arith, v.apart e k h, apart e h, count-append k s.free_dblkrefs (d ∷ []));
  }

pub Quiet-Same : {s t : Sbi} {u : Uses} → Quiet s t → Same u s t
Quiet-Same {s} q = record {
  bn = λ d h. ap (λ (g : ℕ → Dblkref). (g d).bn) q.dblk;
  bytes = λ d o h. ap (λ (m : ℕ → ℕ → ℕ). m (s.dblk d).bn o) q.mem;
}
