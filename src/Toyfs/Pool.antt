-- ===== src/Toyfs/Pool.antt =====
-- The page pool of fs/toyfs/super.c with its free lists of block references, and the counters of
-- `s_statvfs` that guard it. A page is named by its block number (`toyfs_addr2bn` and
-- `toyfs_bn2pmemb` are inverse to each other on the pool), and a `toyfs_dblkref` or
-- `toyfs_iblkref` by its place among those of all pages: 128 of them fit a page, so the one at
-- index `i` of page `p` is `p * 128 + i`. The mutexes make each function below one step.
pub mod Iblkrefs
pub mod Inv
pub mod Refs
pub mod Quiet
pub mod Acquire
use zufs_zus.Common.{
  ℕ, zero, suc, ◌+◌, ◌-◌, ◌*◌, Option, none, some, List, [], ◌∷◌, ◌++◌, ◌==◌, if◌then◌else◌, update,
  numbers, ◌/◌,
}

-- `struct toyfs_dblkref`; its list link is the place in `free_dblkrefs`.
pub record Dblkref : Type 0 where
  pub refcnt : ℕ
  pub bn : ℕ

-- The part of `struct toyfs_sb_info` that files work on: the pool, the free counters, the
-- dblkrefs by name and the bytes of the pages.
pub record Sbi : Type 0 where
  pub pages : List ℕ
  pub free_dblkrefs : List ℕ
  pub free_iblkrefs : List ℕ
  pub bfree : ℕ
  pub bavail : ℕ
  pub dblk : ℕ → Dblkref
  pub mem : ℕ → ℕ → ℕ

abbrev pub page_size : ℕ
page_size = 4096

abbrev pub refs_per_page : ℕ
refs_per_page = 128

-- `_pool_setup`: each page is put in front of those before it.
pages_from : ℕ → ℕ → List ℕ → List ℕ
pages_from pagei zero next = next
pages_from pagei (suc k) next = pages_from (pagei + 1) k (pagei ∷ next)

unfoldable pub pool_setup : ℕ → ℕ → List ℕ
unfolding pages_from
pool_setup mem msz = pages_from mem (msz / page_size) []

unfoldable pub pool_pop_pmemb : Sbi → Option ℕ × Sbi
pool_pop_pmemb s = elim s.pages [ [] ↦ (none, s) | p ∷ next ↦ (some p, record s { pages = next }) ]

unfoldable pub pool_push_pmemb : Sbi → ℕ → Sbi
pool_push_pmemb s p = record s { pages = p ∷ s.pages }

unfoldable pub acquire_pmemb : Sbi → Option ℕ × Sbi
unfolding pool_pop_pmemb
acquire_pmemb s =
    if s.bfree == 0
    then (none, s)
    else if s.bavail == 0
    then (none, s)
    else let (r, t) = pool_pop_pmemb s in
      elim r [
        | none ↦ (none, t)
        | some p ↦ (
          some p,
          record t { mem = update t.mem p (λ o. 0); bfree = t.bfree - 1; bavail = t.bavail - 1 },
        )
      ]

unfoldable pub release_pmemb : Sbi → ℕ → Sbi
unfolding pool_push_pmemb
release_pmemb s p =
    let t = pool_push_pmemb s p in record t { bfree = t.bfree + 1; bavail = t.bavail + 1 }

-- A whole page of new dblkrefs goes to the end of the free list; the counters are left alone.
unfoldable pub pool_add_free_dblkrefs : Sbi → Option (Unit {0}) × Sbi
unfolding pool_pop_pmemb numbers
pool_add_free_dblkrefs s =
    let (r, t) = pool_pop_pmemb s in
    elim r [
      | none ↦ (none, t)
      | some p ↦ (
        some tt,
        record t { free_dblkrefs = t.free_dblkrefs ++ numbers (p * refs_per_page) refs_per_page },
      )
    ]

unfoldable pub pool_pop_free_dblkref : Sbi → Option ℕ × Sbi
pool_pop_free_dblkref s = elim s.free_dblkrefs [
  | [] ↦ (none, s)
  | d ∷ rest ↦ (some d, record s { free_dblkrefs = rest })
]

unfoldable pub pool_pop_dblkref : Sbi → Option ℕ × Sbi
unfolding pool_pop_free_dblkref pool_add_free_dblkrefs
pool_pop_dblkref s =
    let (r, t) = pool_pop_free_dblkref s in
    elim r [
      | some d ↦ (some d, t)
      | none ↦
          let (e, u) = pool_add_free_dblkrefs t in
          elim e [ none ↦ (none, u) | some _ ↦ pool_pop_free_dblkref u ]
    ]

-- `toyfs_list_add` links before the head, that is, at the end.
unfoldable pub pool_push_dblkref : Sbi → ℕ → Sbi
pool_push_dblkref s d = record s { free_dblkrefs = s.free_dblkrefs ++ d ∷ [] }

unfoldable pub acquire_dblkref : Sbi → Option ℕ × Sbi
unfolding pool_pop_dblkref
acquire_dblkref s =
    let (r, t) = pool_pop_dblkref s in
    elim r [
      | none ↦ (none, t)
      | some d ↦ (some d, record t { dblk = update t.dblk d (record { refcnt = 0; bn = 0 }) })
    ]

unfoldable pub release_dblkref : Sbi → ℕ → Sbi
unfolding pool_push_dblkref
release_dblkref s d =
    pool_push_dblkref (record s { dblk = update s.dblk d (record (s.dblk d) { bn = 0 }) }) d

unfoldable pub pool_add_free_iblkrefs : Sbi → Option (Unit {0}) × Sbi
unfolding pool_pop_pmemb numbers
pool_add_free_iblkrefs s =
    let (r, t) = pool_pop_pmemb s in
    elim r [
      | none ↦ (none, t)
      | some p ↦ (
        some tt,
        record t { free_iblkrefs = t.free_iblkrefs ++ numbers (p * refs_per_page) refs_per_page },
      )
    ]

unfoldable pub pool_pop_free_iblkref : Sbi → Option ℕ × Sbi
pool_pop_free_iblkref s = elim s.free_iblkrefs [
  | [] ↦ (none, s)
  | i ∷ rest ↦ (some i, record s { free_iblkrefs = rest })
]

unfoldable pub pool_pop_iblkref : Sbi → Option ℕ × Sbi
unfolding pool_pop_free_iblkref pool_add_free_iblkrefs
pool_pop_iblkref s =
    let (r, t) = pool_pop_free_iblkref s in
    elim r [
      | some i ↦ (some i, t)
      | none ↦
          let (e, u) = pool_add_free_iblkrefs t in
          elim e [ none ↦ (none, u) | some _ ↦ pool_pop_free_iblkref u ]
    ]

-- The fields that `toyfs_acquire_iblkref` and `toyfs_release_iblkref` clear are those of
-- `Blocks.Iblkref`, which has no value outside a file's list.
unfoldable pub acquire_iblkref : Sbi → Option ℕ × Sbi
unfolding pool_pop_iblkref
acquire_iblkref s = pool_pop_iblkref s

unfoldable pub release_iblkref : Sbi → ℕ → Sbi
release_iblkref s i = record s { free_iblkrefs = s.free_iblkrefs ++ i ∷ [] }
