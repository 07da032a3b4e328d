-- ===== src/Malloc.antt =====
-- The allocator that the server calls, the second half of slab.c: `zus_malloc` and `zus_free` over
-- one slab for every processor, with the C library's allocator behind them.
pub mod Blocks
pub mod Serve
mod Tests
pub mod History
pub mod Copy
use zufs_zus.Common.{
  ℕ, zero, suc, ◌+◌, ◌-◌, ◌*◌, ◌/◌, ◌%◌, ◌^◌, Bool, true, false, ◌&&◌, ◌||◌, not, Option, none,
  some, ltb, leb, ◌==◌, if◌then◌else◌,
}
use zufs_zus.Slab.{
  Slab, Gsa, slab_size_valid, slab_list_empty, slab_iscold, slab_alloc, slab_free, slab_init,
  page_slab_index,
}
use zufs_zus.Pa.{Pa, pa_init}

-- A pointer into the allocator's pages, by its offset, or one of the C library.
pub data Ptr : Type 0 where
  pool : ℕ → Ptr
  host : ℕ → Ptr

-- `_zus_gsa_cpu_of`: `none` is -1.
unfoldable pub gsa_cpu_of : Gsa → Ptr → Option ℕ
gsa_cpu_of g (host a) = none
gsa_cpu_of g (pool a) =
    if a % 32 == 0
    then (if ltb a (g.pa.size * 4096) then some (g.pa.page (a / 4096)).slab_cpu else none)
    else none

-- `_zus_gsa_sslab_at`, the number of the slab
unfoldable pub gsa_sslab_at : Gsa → ℕ → ℕ → ℕ
gsa_sslab_at g cpu index = (cpu + index) % g.nslabs

-- What the environment decides: which spin locks are taken at the time of a try, where `malloc` finds
-- memory, and whether pages can be locked in memory.
pub record Host : Type 0 where
  pub trylock : ℕ → Bool
  pub malloc : ℕ → Option ℕ
  pub memalign : ℕ → Option ℕ
  pub mlock_fails : ℕ → ℕ → Bool

-- The loop of `_zus_gsa_malloc`: the first slab, from that of `cpu` on, that is not locked and has an
-- element. Round `i` of `n + i`.
unfoldable pub find_slab : Host → Gsa → ℕ → ℕ → ℕ → ℕ → Option ℕ
unfolding slab_list_empty gsa_sslab_at
find_slab w g cpu size zero i = none
find_slab w g cpu size (suc n) i =
    let s = gsa_sslab_at g cpu i in
    if w.trylock s && not (slab_list_empty (g.slab s) size)
    then some s
    else find_slab w g cpu size n (i + 1)

unfoldable pub gsa_malloc : Host → Gsa → ℕ → ℕ → Option ℕ × Gsa
unfolding slab_iscold find_slab gsa_sslab_at
gsa_malloc w g cpu size =
    if slab_iscold (g.slab cpu) size
    then slab_alloc w.mlock_fails g cpu size
    else elim (find_slab w g cpu size g.nslabs 0) [
      | some s ↦ slab_alloc w.mlock_fails g s size
      -- After the last round `slab` is the one at `cpu` again.
      | none ↦ slab_alloc w.mlock_fails g (gsa_sslab_at g cpu g.nslabs) size
    ]

-- the block of the C library that a request falls back to
unfoldable pub from_host : Option ℕ → Option Ptr
from_host none = none
from_host (some a) = some (host a)

unfoldable pub zus_malloc : Host → Gsa → ℕ → ℕ → Option Ptr × Gsa
unfolding slab_size_valid gsa_malloc from_host
zus_malloc w g cpu size =
    if size == 0
    then (none, g)
    else if not (slab_size_valid size)
    then (from_host (w.malloc size), g)
    else (let (r, h) = gsa_malloc w g cpu size in
        elim r [ some a ↦ (some (pool a), h) | none ↦ (from_host (w.memalign size), h) ])

-- The slab of a page that does not belong to a slab of a processor is NULL; the code does not test
-- it.
unfoldable pub zus_free : Gsa → Ptr → Gsa
unfolding gsa_cpu_of slab_free
zus_free g (host a) = g
zus_free g (pool a) = elim (gsa_cpu_of g (pool a)) [
  | none ↦ g
  | some cpu ↦ if ltb cpu g.nslabs then (slab_free g cpu a).1 else g
]

-- `zus_slab_init` where its calls of the system succeed, for the processors of the machine and the
-- pool's size.
unfoldable pub zus_slab_init : ℕ → ℕ → Gsa
unfolding pa_init slab_init
zus_slab_init nprocs pa_size = record {
  pa = pa_init pa_size;
  nslabs = nprocs;
  slab = λ cpu. slab_init cpu;
}
