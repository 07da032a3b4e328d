-- ===== src/Malloc/Serve.antt =====
-- What `zus_malloc` and `zus_free` of slab.c do to the blocks in use.
use zufs_zus.Common.{
  ℕ, zero, suc, ◌+◌, ◌/◌, ◌%◌, ◌≤◌, ◌<◌, ◌≡◌, ◌≢◌, refl, ap, ◌⊎◌, inl, inr, true, false, Option,
  none, some, List, ◌∷◌, ◌==◌, if◌then◌else◌, count, arith, Bool-cases, Option-cases, some_eq,
  subst,
}
use zufs_zus.Pa.{del}
use zufs_zus.Slab.{
  Gsa, elem_bytes, slab_list_index, slab_alloc, slab_size_valid, slab_iscold, slab_free,
}
use zufs_zus.Slab.Elems.{elems_aligned}
use zufs_zus.Slab.Index.{slab_list_index_lem}
use zufs_zus.Slab.Inv.{IsGsa, Kept}
use zufs_zus.Slab.Take.{Answer, slab_alloc_lem}
use zufs_zus.Slab.Taken.{Served}
use zufs_zus.Slab.Free.{slab_free_lem}
use zufs_zus.Malloc.{
  Ptr, pool, host, Host, gsa_cpu_of, gsa_sslab_at, find_slab, gsa_malloc, from_host, zus_malloc,
  zus_free,
}
use zufs_zus.Malloc.Blocks.{Block, in_elems}

find_slab_known :
    (w : Host) (g : Gsa) (cpu size n i s : ℕ)
    → 0 < g.nslabs
    → find_slab w g cpu size n i ≡ some s
    → s < g.nslabs
unfolding find_slab gsa_sslab_at
find_slab_known w g cpu size zero i s h e = cc
find_slab_known w g cpu size (suc n) i s h e =
    grind (arith, find_slab_known w g cpu size n (i + 1) s h)

module _ (w : Host) (g : Gsa) (cpu size : ℕ) where
  gsa_malloc-cases :
      cpu < g.nslabs
      → (c : ℕ) × (c < g.nslabs) × (gsa_malloc w g cpu size ≡ slab_alloc w.mlock_fails g c size)
  unfolding gsa_malloc gsa_sslab_at
  gsa_malloc-cases known = elim (Bool-cases (slab_iscold (g.slab cpu) size)) [
    | inl h ↦ (cpu, known, rw h refl)
    | inr h ↦ elim (Option-cases (find_slab w g cpu size g.nslabs 0)) [
      | inl e ↦ ((cpu + g.nslabs) % g.nslabs, grind arith, rw h (rw (e, gsa_malloc) refl))
      | inr (s, e) ↦ (
        s,
        find_slab_known w g cpu size g.nslabs 0 s (omega arith) e,
        rw h (rw (e, gsa_malloc) refl),
      )
    ]
  ]

  malloc-pool :
      (a : ℕ)
      → slab_size_valid size ≡ true
      → (gsa_malloc w g cpu size).0 ≡ some a
      → zus_malloc w g cpu size ≡ (some (pool a), (gsa_malloc w g cpu size).1)
  unfolding zus_malloc slab_size_valid
  malloc-pool a h e = ground arith

  malloc-memalign :
      slab_size_valid size ≡ true
      → (gsa_malloc w g cpu size).0 ≡ none
      → zus_malloc w g cpu size ≡ (from_host (w.memalign size), (gsa_malloc w g cpu size).1)
  unfolding zus_malloc slab_size_valid
  malloc-memalign h e = ground arith

  malloc-other :
      slab_size_valid size ≡ false
      → (zus_malloc w g cpu size).1 ≡ g
        × ((zus_malloc w g cpu size).0 ≡ (if size == 0 then none else from_host (w.malloc size)))
  unfolding zus_malloc slab_size_valid
  malloc-other h = (ground arith, ground arith)

-- A block of at least `size` bytes, which nobody had.
pub record NewBlock (g : Gsa) (live : List ℕ) (size a : ℕ) (h : Gsa) : Type 0 where
  pub valid : IsGsa h (a ∷ live)
  pub unused : count a live ≡ 0
  pub bytes : ℕ
  pub block : Block h (a ∷ live) a bytes
  pub enough : size ≤ bytes

-- The blocks in use stay in use, as large as they were.
abbrev pub BlocksKept : Gsa → List ℕ → Gsa → List ℕ → Type 0
BlocksKept g live h next = (b n : ℕ) → 0 < count b next → Block g live b n → Block h next b n

pub record Malloced (w : Host) (g : Gsa) (live : List ℕ) (size : ℕ) (r : Option Ptr) (h : Gsa)
    : Type 0 where
  pub nslabs : h.nslabs ≡ g.nslabs
  pub kept : BlocksKept g live h live
  pub served : (a : ℕ) → r ≡ some (pool a) → NewBlock g live size a h
  -- the C library serves what the pool does not
  pub other : (a : ℕ) → r ≡ some (host a) → IsGsa h live
  pub refused :
      r ≡ none → IsGsa h live × ((size ≡ 0) ⊎ (w.malloc size ≡ none) ⊎ (w.memalign size ≡ none))

Kept-BlocksKept : {g h : Gsa} {live : List ℕ} → Kept g live h → BlocksKept g live h live
Kept-BlocksKept k b n u x = record {
  cpu = x.cpu;
  index = x.index;
  held = u;
  place = k b x.cpu x.index u x.place;
  bytes = x.bytes;
}

new_block :
    {g h : Gsa} {live : List ℕ} {c size a : ℕ}
    → size ≤ elem_bytes (slab_list_index size)
    → Served g live c (slab_list_index size) a h
    → NewBlock g live size a h
new_block {c = c} {size = size} enough s = record {
  valid = s.valid;
  unused = s.unused;
  bytes = elem_bytes (slab_list_index size);
  block = record {
    cpu = c;
    index = slab_list_index size;
    held = ground arith;
    place = s.place;
    bytes = refl;
  };
  enough = enough;
}

pool_eq : {a b : ℕ} → pool a ≡ pool b → a ≡ b
pool_eq h = cc

from_host-some : (o : Option ℕ) (a : ℕ) → from_host o ≢ some (pool a)
unfolding from_host
from_host-some none a h = cc
from_host-some (some b) a h = cc

from_host-none : (o : Option ℕ) → from_host o ≡ none → o ≡ none
unfolding from_host
from_host-none none h = refl
from_host-none (some b) h = cc

valid_bounds : (size : ℕ) → slab_size_valid size ≡ true → (0 < size) × (size ≤ 4096)
unfolding slab_size_valid
valid_bounds size h = (ground arith, ground arith)

module _ (w : Host) {g : Gsa} {live : List ℕ} (v : IsGsa g live) (cpu size : ℕ) where
  malloc-large :
      slab_size_valid size ≡ false
      → Malloced w g live size (if size == 0 then none else from_host (w.malloc size)) g
  malloc-large h = elim (Bool-cases (size == 0)) [
    | inl e ↦ rw e (record {
      nslabs = refl;
      kept = λ b n u x. x;
      served = λ a q. cc;
      other = λ a q. v;
      refused = λ q. (v, inl (ground arith));
    })
    | inr e ↦ rw e (record {
      nslabs = refl;
      kept = λ b n u x. x;
      served = λ a q. absurd (from_host-some (w.malloc size) a q);
      other = λ a q. v;
      refused = λ q. (v, inr (inl (from_host-none (w.malloc size) q)));
    })
  ]

  Answer-Malloced :
      (r : Option ℕ) (h : Gsa) (c : ℕ)
      → size ≤ elem_bytes (slab_list_index size)
      → (gsa_malloc w g cpu size ≡ (r, h))
      → slab_size_valid size ≡ true
      → Answer g live c (slab_list_index size) r h
      → Malloced w g live size (zus_malloc w g cpu size).0 (zus_malloc w g cpu size).1
  Answer-Malloced none h c enough e valid x =
      let (keep, kept, nslabs) = x.refused refl in
      rw (malloc-memalign w g cpu size valid (ap (λ p. p.0) e), e)
        (record {
          nslabs = nslabs;
          kept = Kept-BlocksKept kept;
          served = λ a q. absurd (from_host-some (w.memalign size) a q);
          other = λ a q. keep;
          refused = λ q. (keep, inr (inr (from_host-none (w.memalign size) q)));
        })
  Answer-Malloced (some a) h c enough e valid x =
      let s = x.served a refl in
      rw (malloc-pool w g cpu size a valid (ap (λ p. p.0) e), e)
        (record {
          nslabs = s.nslabs;
          kept = Kept-BlocksKept s.kept;
          served = λ b q.
              subst (λ z. NewBlock g live size z h) (pool_eq (some_eq q)) (new_block enough s);
          other = λ b q. cc;
          refused = λ q. cc;
        })

  -- `zus_malloc` serves a block of at least `size` bytes that overlaps none in use, from the C
  -- library or from the pool; it fails only for no bytes, or where the C library does.
  pub zus_malloc_lem :
      cpu < g.nslabs
      → Malloced w g live size (zus_malloc w g cpu size).0 (zus_malloc w g cpu size).1
  zus_malloc_lem known = elim (Bool-cases (slab_size_valid size)) [
    | inr h ↦
        let (state, result) = malloc-other w g cpu size h in rw (state, result) (malloc-large h)
    | inl h ↦
        let (c, below, e) = gsa_malloc-cases w g cpu size known in
        let (lo, hi) = valid_bounds size h in
        let (small, enough, _) = slab_list_index_lem size lo hi in
        Answer-Malloced (slab_alloc w.mlock_fails g c size).0 (slab_alloc w.mlock_fails g c size).1
          c enough e h (slab_alloc_lem w.mlock_fails g c size v below small)
  ]

-- `zus_free` of a block in use ends that use and no other.
pub record Released (g : Gsa) (live : List ℕ) (a : ℕ) (h : Gsa) : Type 0 where
  pub valid : IsGsa h (del a live)
  pub kept : BlocksKept g live h (del a live)
  pub nslabs : h.nslabs ≡ g.nslabs

pub cpu_of-Block :
    {g : Gsa} {live : List ℕ} {a n : ℕ}
    → IsGsa g live
    → (b : Block g live a n) → gsa_cpu_of g (pool a) ≡ some b.cpu
unfolding gsa_cpu_of
cpu_of-Block {g} {live} {a} v b =
    ground (arith, elems_aligned a (a / 4096) b.index (in_elems v b), b.place.inside, b.place.cpu)

free-eq :
    (g : Gsa) (c a : ℕ)
    → gsa_cpu_of g (pool a) ≡ some c
    → c < g.nslabs
    → zus_free g (pool a) ≡ (slab_free g c a).1
unfolding zus_free
free-eq g c a h lt = rw (h, zus_free) (ground arith)

pub zus_free_lem :
    {g : Gsa} {live : List ℕ} {n : ℕ} (a : ℕ)
    → IsGsa g live
    → Block g live a n
    → Released g live a (zus_free g (pool a))
zus_free_lem {g} {live} a v b =
    let (_, f) = slab_free_lem b.cpu b.index a v b.held b.place in
    rw (free-eq g b.cpu a (cpu_of-Block v b) b.place.known) (record {
      valid = f.valid;
      kept = λ x m u y. record {
        cpu = y.cpu;
        index = y.index;
        held = u;
        place = f.kept x y.cpu y.index u y.place;
        bytes = y.bytes;
      };
      nslabs = f.nslabs;
    })
