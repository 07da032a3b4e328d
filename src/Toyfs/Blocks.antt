-- ===== src/Toyfs/Blocks.antt =====
-- The block map of a regular file, from fs/toyfs/file.c: an inode's iblkrefs, sorted by offset,
-- each naming a dblkref that other files may share. The proofs are in the modules below.
pub mod Chain
pub mod Content
pub mod Copy
pub mod Dblkrefs
pub mod Iblkrefs
pub mod Insert
pub mod Kept
pub mod Require
use zufs_zus.Common.{
  ℕ, ◌+◌, ◌-◌, ◌*◌, ◌/◌, ◌%◌, Bool, ◌&&◌, Option, none, some, List, [], ◌∷◌, ltb, leb, ◌==◌,
  if◌then◌else◌, update,
}
use zufs_zus.Toyfs.Pool.{
  Dblkref, Sbi, page_size, acquire_pmemb, release_pmemb, acquire_dblkref, release_dblkref,
  acquire_iblkref, release_iblkref,
}

-- `struct toyfs_iblkref`: its name in the pool, the dblkref it points to, and its offset. Its
-- list link is the place in `Inode.iblkrefs`.
pub record Iblkref : Type 0 where
  pub node : ℕ
  pub dblkref : ℕ
  pub off : ℕ

-- What `struct toyfs_inode` keeps for a regular file.
pub record Inode : Type 0 where
  pub i_mode : ℕ
  pub i_size : ℕ
  pub i_blocks : ℕ
  pub iblkrefs : List Iblkref

unfoldable pub off_to_boff : ℕ → ℕ
off_to_boff off = off / page_size * page_size

unfoldable pub off_in_page : ℕ → ℕ
off_in_page off = off % page_size

-- `pmem_memmove_persist(&pmemb->dat[off], src, len)`
unfoldable pub copy_in : Sbi → ℕ → (ℕ → ℕ) → ℕ → ℕ → Sbi
copy_in s p src off len = record s {
  mem = update s.mem p (λ o. if leb off o && ltb o (off + len) then src (o - off) else s.mem p o);
}

unfoldable pub copy_pmemb : Sbi → ℕ → ℕ → Sbi
unfolding copy_in
copy_pmemb s pmemb other = copy_in s pmemb (s.mem other) 0 page_size

unfoldable pub assign_zeros : Sbi → ℕ → ℕ → ℕ → Sbi
unfolding copy_in
assign_zeros s p off len = copy_in s p (λ o. 0) off len

unfoldable pub new_dblkref : Sbi → Option ℕ × Sbi
new_dblkref s =
    let (r, t) = acquire_pmemb s in
    elim r [
      | none ↦ (none, t)
      | some p ↦
          let (q, v) = acquire_dblkref t in
          elim q [
            | none ↦ (none, release_pmemb v p)
            | some d ↦ (some d, record v { dblk = update v.dblk d (record { refcnt = 1; bn = p }) })
          ]
    ]

unfoldable pub free_dblkref : Sbi → ℕ → Sbi
free_dblkref s d = let bn = (s.dblk d).bn in release_pmemb (release_dblkref s d) bn

-- `toyfs_assert(dblkref->refcnt > 0)` is a theorem, `Dblkrefs.refcnt-pos`.
unfoldable pub decref_dblkref : Sbi → ℕ → Sbi
unfolding free_dblkref
decref_dblkref s d =
    let refcnt = (s.dblk d).refcnt - 1 in
    let t : Sbi = record s { dblk = update s.dblk d (record (s.dblk d) { refcnt = refcnt }) } in
    if refcnt == 0 then free_dblkref t d else t

unfoldable pub new_iblkref : Sbi → Inode → ℕ → Option Iblkref × Sbi × Inode
unfolding new_dblkref decref_dblkref
new_iblkref s f off =
    let (r, t) = new_dblkref s in
    elim r [
      | none ↦ (none, t, f)
      | some d ↦
          let (q, v) = acquire_iblkref t in
          elim q [
            | none ↦ (none, decref_dblkref v d, f)
            | some i ↦ (
              some (record { node = i; dblkref = d; off = off }),
              v,
              record f { i_blocks = f.i_blocks + 1 },
            )
          ]
    ]

-- `toyfs_assert(zi->i_blocks)` is a theorem of the callers.
unfoldable pub free_iblkref : Sbi → Inode → Iblkref → Sbi × Inode
unfolding decref_dblkref
free_iblkref s f b =
    (release_iblkref (decref_dblkref s b.dblkref) b.node, record f { i_blocks = f.i_blocks - 1 })

unfoldable pub fetch : ℕ → List Iblkref → Option Iblkref
fetch boff [] = none
fetch boff (b ∷ l) = if b.off == boff then some b else fetch boff l

unfoldable pub fetch_iblkref : Inode → ℕ → Option Iblkref
unfolding off_to_boff
fetch_iblkref f off = fetch (off_to_boff off) f.iblkrefs

unfoldable pub fetch_from : ℕ → List Iblkref → List Iblkref
fetch_from boff [] = []
fetch_from boff (b ∷ l) = if leb boff b.off then b ∷ l else fetch_from boff l

-- The list from the found iblkref on; it is empty where the code returns NULL.
unfoldable pub fetch_iblkref_from : Inode → ℕ → List Iblkref
unfolding off_to_boff fetch_from
fetch_iblkref_from f off = fetch_from (off_to_boff off) f.iblkrefs

-- The walk of `_require_iblkref`: it stops at the offset, or before the first one past it.
unfoldable pub walk : ℕ → List Iblkref → Option Iblkref
walk boff [] = none
walk boff (b ∷ l) = if b.off == boff then some b else if ltb boff b.off then none else walk boff l

-- `toyfs_list_add_before` at the place where the walk stopped.
unfoldable pub insert : Iblkref → List Iblkref → List Iblkref
insert a [] = a ∷ []
insert a (b ∷ l) = if ltb a.off b.off then a ∷ b ∷ l else b ∷ insert a l

-- `iblkref->dblkref = dblkref`, of the iblkref that the walk found
unfoldable pub repoint : ℕ → ℕ → List Iblkref → List Iblkref
repoint boff d [] = []
repoint boff d (b ∷ l) =
    if b.off == boff then record b { dblkref = d } ∷ l else b ∷ repoint boff d l

unfoldable pub clone_data : Sbi → ℕ → ℕ → Sbi
unfolding copy_pmemb
clone_data s dst src = copy_pmemb s (s.dblk dst).bn (s.dblk src).bn

unfoldable pub require_iblkref : Sbi → Inode → ℕ → Option Iblkref × Sbi × Inode
unfolding off_to_boff walk insert repoint new_iblkref new_dblkref clone_data
require_iblkref s f off =
    let boff = off_to_boff off in
    elim (walk boff f.iblkrefs) [
      | none ↦
          let (r, t, g) = new_iblkref s f boff in
          elim r [
            | none ↦ (none, t, g)
            | some b ↦ (some b, t, record g { iblkrefs = insert b g.iblkrefs })
          ]
      | some b ↦
          if ltb 1 (s.dblk b.dblkref).refcnt
          then (let (r, t) = new_dblkref s in
              elim r [
                | none ↦ (none, t, f)
                | some d ↦ (
                  some (record b { dblkref = d }),
                  clone_data t d b.dblkref,
                  record f { iblkrefs = repoint boff d f.iblkrefs },
                )
              ])
          else (some b, s, f)
    ]

-- Of an iblkref of `f`. It returns the page's block number.
unfoldable pub unique_pmemb : Sbi → Inode → Iblkref → Option ℕ × Sbi × Inode
unfolding new_dblkref copy_pmemb repoint
unique_pmemb s f b =
    let bn = (s.dblk b.dblkref).bn in
    if ltb 1 (s.dblk b.dblkref).refcnt
    then (let (r, t) = new_dblkref s in
        elim r [
          | none ↦ (none, t, f)
          | some d ↦
              let new_bn = (t.dblk d).bn in
              let v : Sbi = copy_pmemb t new_bn bn in
              let old = v.dblk b.dblkref in
              (
                some new_bn,
                record v {
                  dblk = update v.dblk b.dblkref (record old { refcnt = old.refcnt - 1 });
                },
                record f { iblkrefs = repoint b.off d f.iblkrefs },
              )
        ])
    else (some bn, s, f)
