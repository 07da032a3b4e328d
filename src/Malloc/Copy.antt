-- ===== src/Malloc/Copy.antt =====
-- `zus_calloc` and `zus_realloc` of slab.c, which fill the blocks that they return. The list links
-- that the allocator keeps in elements that nobody uses are not bytes of this memory.
pub mod Laws
use zufs_zus.Common.{
  ℕ, ◌+◌, ◌-◌, ◌*◌, ◌%◌, ◌/◌, ◌^◌, Bool, true, false, ◌&&◌, not, Option, none, some, ltb, leb, ◌==◌,
  if◌then◌else◌,
}
use zufs_zus.Pa.{Page}
use zufs_zus.Slab.{Gsa, slab_size_valid, page_slab_index, elem_bytes}
use zufs_zus.Malloc.{Ptr, pool, host, Host, gsa_cpu_of, from_host, zus_malloc, zus_free}

-- The bytes of the pool by their offset, and those of the C library by their address.
pub record Memory : Type 0 where
  pub pooled : ℕ → ℕ
  pub hosted : ℕ → ℕ

unfoldable pub byte : Memory → Ptr → ℕ → ℕ
byte m (pool a) o = m.pooled (a + o)
byte m (host a) o = m.hosted (a + o)

-- `f` with the `n` values from `a` on taken from `g`
unfoldable pub overlay : (ℕ → ℕ) → ℕ → ℕ → (ℕ → ℕ) → ℕ → ℕ
overlay f a n g x = if leb a x && ltb x (a + n) then g (x - a) else f x

-- `memcpy` and `memset` to `p`: the `n` bytes of `g`
unfoldable pub store : Memory → Ptr → ℕ → (ℕ → ℕ) → Memory
unfolding overlay
store m (pool a) n g = record m { pooled = overlay m.pooled a n g }
store m (host a) n g = record m { hosted = overlay m.hosted a n g }

-- The rest of the C library's allocator: `calloc` returns zeros, `realloc` keeps what it holds.
pub record Libc : Type 0 where
  pub calloc : ℕ → ℕ → Memory → Option ℕ × Memory
  pub realloc : ℕ → ℕ → Memory → Option ℕ × Memory

unfoldable pub zus_calloc : Host → Libc → Gsa → Memory → ℕ → ℕ → ℕ → Option Ptr × Gsa × Memory
unfolding slab_size_valid from_host
zus_calloc w c g m cpu nmemb elemsz =
    let size = nmemb * elemsz % 2 ^ 64 in
    if not (slab_size_valid size)
    then (let (r, k) = c.calloc nmemb elemsz m in (from_host r, g, k))
    else (let (r, h) = zus_malloc w g cpu size in
        elim r [ none ↦ (none, h, m) | some p ↦ (some p, h, store m p size (λ o. 0)) ])

-- What a call may do instead of returning: read through a NULL page.
pub data Outcome {ℓ} (A : Type ℓ) : Type ℓ where
  returns : A → Outcome A
  faults : Outcome A

-- `pa_virt_to_page`: none is NULL, for an address outside the pool.
unfoldable pub virt_to_page : Gsa → Ptr → Option Page
virt_to_page g (host a) = none
virt_to_page g (pool a) = if ltb a (g.pa.size * 4096) then some (g.pa.page (a / 4096)) else none

-- `__elem_size`, which reads through the page. An index of no list gives -EINVAL as a `size_t`.
unfoldable pub elem_size : Gsa → Ptr → Outcome ℕ
unfolding virt_to_page page_slab_index elem_bytes
elem_size g p = elim (virt_to_page g p) [
  | none ↦ faults
  | some page ↦ returns (elim (page_slab_index page) [ some i ↦ elem_bytes i | none ↦ 2 ^ 64 - 22 ])
]

-- From `newptr = zus_malloc(size)` on.
unfoldable pub realloc_moved :
    Host → Gsa → Memory → ℕ → Ptr → ℕ → Outcome (Option Ptr × Gsa × Memory)
unfolding zus_malloc elem_size store byte zus_free
realloc_moved w g m cpu p size =
    let (r, h) = zus_malloc w g cpu size in
    elim r [
      | none ↦ returns (none, h, m)
      | some q ↦ elim (elem_size h p) [
        | faults ↦ faults
        | returns n ↦ returns (some q, zus_free h p, store m q n (λ o. byte m p o))
      ]
    ]

-- the address that the C library is given
unfoldable pub address : Ptr → ℕ
address (pool a) = a
address (host a) = a

-- The result of the C library's `realloc`
unfoldable pub realloc_host : Gsa → Option ℕ × Memory → Outcome (Option Ptr × Gsa × Memory)
unfolding from_host
realloc_host g (r, k) = returns (from_host r, g, k)

unfoldable pub zus_realloc :
    Host → Libc → Gsa → Memory → ℕ → Ptr → ℕ → Outcome (Option Ptr × Gsa × Memory)
unfolding gsa_cpu_of slab_size_valid realloc_moved realloc_host elem_size address
zus_realloc w c g m cpu p size =
    if size == 0 then returns (none, zus_free g p, m) else elim (gsa_cpu_of g p) [
      | none ↦
          if not (slab_size_valid size)
          then realloc_host g (c.realloc (address p) size m)
          else realloc_moved w g m cpu p size
      | some _ ↦ elim (elem_size g p) [
        | faults ↦ faults
        | returns n ↦ if leb size n then returns (some p, g, m) else realloc_moved w g m cpu p size
      ]
    ]
