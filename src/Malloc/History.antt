-- ===== src/Malloc/History.antt =====
-- Runs of the allocator of slab.c: any sequence of `zus_malloc` and `zus_free`, on any processors.
use zufs_zus.Common.{ℕ, ◌+◌, ◌*◌, ◌≤◌, ◌<◌, refl, Option, none, some, List, [], ◌∷◌, count, arith}
use zufs_zus.Pa.{del, pa_init}
use zufs_zus.Slab.{Gsa, slab_init, elem_bytes}
use zufs_zus.Slab.Inv.{IsGsa}
use zufs_zus.Malloc.{Ptr, pool, host, Host, zus_malloc, zus_free, zus_slab_init}
use zufs_zus.Malloc.Blocks.{Block, blocks_apart}
use zufs_zus.Malloc.Serve.{Malloced, zus_malloc_lem, zus_free_lem}

-- The allocator, and the addresses of its elements that callers have.
pub record State : Type 0 where
  pub gsa : Gsa
  pub live : List ℕ

-- The callers' addresses after a `zus_malloc` that returned `r`.
unfoldable pub held_after : Option Ptr → List ℕ → List ℕ
held_after none live = live
held_after (some (host a)) live = live
held_after (some (pool a)) live = a ∷ live

-- A call on the processor `cpu`, with any choice `w` of the environment. Callers free what they have,
-- and once.
pub data Step (s : State) : State → Type 0 where
  malloc :
      (w : Host) (cpu size : ℕ)
      → cpu < s.gsa.nslabs
      → Step s (record {
        gsa = (zus_malloc w s.gsa cpu size).1;
        live = held_after (zus_malloc w s.gsa cpu size).0 s.live;
      })
  free :
      (a : ℕ)
      → 0 < count a s.live
      → Step s (record { gsa = zus_free s.gsa (pool a); live = del a s.live })

pub data Reach (nprocs pa_size : ℕ) : State → Type 0 where
  start : Reach nprocs pa_size (record { gsa = zus_slab_init nprocs pa_size; live = [] })
  later : {s t : State} → Reach nprocs pa_size s → Step s t → Reach nprocs pa_size t

pub start-IsGsa : (nprocs pa_size : ℕ) → IsGsa (zus_slab_init nprocs pa_size) []
unfolding zus_slab_init pa_init slab_init
start-IsGsa nprocs pa_size = record {
  pages = record {
    once = λ p. omega arith;
    known = λ p h. absurd (omega arith);
    clear = λ p h. refl;
    fresh = λ p h. refl;
  };
  cpus = λ c h. refl;
  counted = λ c i. record { nfree = refl };
  listed = λ c i a h. absurd (omega arith);
  used = λ a h. absurd (omega arith);
  split = λ a c i x. absurd (ground (arith, x.meta));
  uc = λ p c i x. refl;
}

Malloced-IsGsa :
    {w : Host} {g h : Gsa} {live : List ℕ} {size : ℕ} (r : Option Ptr)
    → Malloced w g live size r h
    → IsGsa h (held_after r live)
unfolding held_after
Malloced-IsGsa none m = (m.refused refl).0
Malloced-IsGsa (some (host a)) m = m.other a refl
Malloced-IsGsa (some (pool a)) m = (m.served a refl).valid

live-Block :
    {g : Gsa} {live : List ℕ} (a : ℕ) → IsGsa g live → 0 < count a live → (n : ℕ) × Block g live a n
live-Block a v h =
    let (c, i, x) = v.used a h in
    (elem_bytes i, record { cpu = c; index = i; held = h; place = x; bytes = refl })

Step-IsGsa : {s t : State} → Step s t → IsGsa s.gsa s.live → IsGsa t.gsa t.live
Step-IsGsa {s} (malloc w cpu size known) v =
    Malloced-IsGsa (zus_malloc w s.gsa cpu size).0 (zus_malloc_lem w v cpu size known)
Step-IsGsa (free a h) v = let (n, b) = live-Block a v h in (zus_free_lem a v b).valid

Reach-IsGsa : {nprocs pa_size : ℕ} {s : State} → Reach nprocs pa_size s → IsGsa s.gsa s.live
Reach-IsGsa {nprocs} {pa_size} start = start-IsGsa nprocs pa_size
Reach-IsGsa (later r st) = Step-IsGsa st (Reach-IsGsa r)

-- In every run, whatever calls are made where, the blocks that callers have do not overlap, and lie
-- in the pool's pages.
pub Reach-blocks_apart :
    {nprocs pa_size : ℕ} {s : State}
    → Reach nprocs pa_size s
    → (a b : ℕ) → 0 < count a s.live
    → 0 < count b s.live
    → a < b
    → (m : ℕ) × (n : ℕ) × Block s.gsa s.live a m
      × Block s.gsa s.live b n
      × (a + m ≤ b)
      × (b + n ≤ s.gsa.pa.size * 4096)
Reach-blocks_apart r a b ha hb lt =
    let v = Reach-IsGsa r in
    let (m, x) = live-Block a v ha in
    let (n, y) = live-Block b v hb in
    let (apart, inside) = blocks_apart v x y lt in (m, n, x, y, apart, inside)
