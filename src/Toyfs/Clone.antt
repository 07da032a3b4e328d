-- ===== src/Toyfs/Clone.antt =====
-- Cloning in fs/toyfs/file.c: pages of one file shared with another one. The source's inode is only
-- read; the destination's changes.
pub mod Entire
pub mod Added
pub mod Isolation
pub mod Page
pub mod Pasted
pub mod Range
pub mod Share
use zufs_zus.Common.{
  ℕ, zero, suc, ◌+◌, ◌-◌, ◌%◌, Bool, true, false, not, ◌&&◌, ◌||◌, Option, none, some, List, [],
  ◌∷◌, ◌++◌, ltb, ◌==◌, if◌then◌else◌, update,
}
use zufs_zus.Toyfs.Errno.{Errno, enospc, enotsup, Rc, ok, fail, out_of_fuel}
use zufs_zus.Toyfs.Pool.{Sbi, page_size, acquire_iblkref}
use zufs_zus.Toyfs.Blocks.{
  Iblkref, Inode, off_in_page, assign_zeros, free_dblkref, fetch_iblkref, repoint, require_iblkref,
  unique_pmemb,
}
use zufs_zus.Toyfs.Io.{next_page, nbytes_in_range, range_end}
use zufs_zus.Toyfs.Trunc.{drop_range, is_reg}

-- `dblkref->refcnt++`
unfoldable pub incref : Sbi → ℕ → Sbi
incref s d = record s {
  dblk = update s.dblk d (record (s.dblk d) { refcnt = (s.dblk d).refcnt + 1 });
}

-- An iblkref that `_require_iblkref` has returned has a dblkref, so the test for NULL holds.
unfoldable pub share_page : Sbi → Inode → Iblkref → Iblkref → Sbi × Inode
unfolding free_dblkref repoint incref
share_page s g src dst =
    let refcnt = (s.dblk dst.dblkref).refcnt - 1 in
    let t : Sbi = record s {
      dblk = update s.dblk dst.dblkref (record (s.dblk dst.dblkref) { refcnt = refcnt });
    } in
    let v = if refcnt == 0 then free_dblkref t dst.dblkref else t in
    (incref v src.dblkref, record g { iblkrefs = repoint dst.off src.dblkref g.iblkrefs })

unfoldable clone_size : Inode → ℕ → Inode
clone_size g size = if ltb g.i_size size then record g { i_size = size } else g

-- Where both have a hole, it returns before the size is set.
unfoldable pub clone_range : Sbi → Inode → Inode → ℕ → ℕ → ℕ → Option Errno × Sbi × Inode
unfolding fetch_iblkref require_iblkref share_page unique_pmemb off_in_page assign_zeros clone_size
clone_range s f g src_off dst_off len = elim (fetch_iblkref f src_off) [
  | some src ↦
      let (r, t, h) = require_iblkref s g dst_off in
      elim r [
        | none ↦ (some enospc, t, h)
        | some dst ↦ let (v, k) = share_page t h src dst in (none, v, clone_size k (dst_off + len))
      ]
  | none ↦ elim (fetch_iblkref g dst_off) [
    | none ↦ (none, s, g)
    | some dst ↦
        let (r, t, h) = unique_pmemb s g dst in
        elim r [
          | none ↦ (some enospc, t, h)
          | some p ↦
              (none, assign_zeros t p (off_in_page dst_off) len, clone_size h (dst_off + len))
        ]
  ]
]

unfoldable clone_len : ℕ → ℕ → ℕ → ℕ → ℕ
unfolding nbytes_in_range next_page
clone_len src_off src_end dst_off dst_end =
    let src_len = nbytes_in_range src_off (next_page src_off) src_end in
    let dst_len = nbytes_in_range dst_off (next_page dst_off) dst_end in
    if ltb src_len dst_len then src_len else dst_len

unfoldable pub clone_loop :
    ℕ → Sbi → Inode → Inode → (src_off src_end dst_off dst_end : ℕ) → Rc × Sbi × Inode
unfolding clone_len clone_range
clone_loop zero s f g src_off src_end dst_off dst_end = (out_of_fuel, s, g)
clone_loop (suc n) s f g src_off src_end dst_off dst_end =
    elim (ltb src_off src_end && ltb dst_off dst_end) [
      | false ↦ (ok 0, s, g)
      | true ↦
          let len = clone_len src_off src_end dst_off dst_end in
          let (r, t, h) = clone_range s f g src_off dst_off len in
          elim r [
            | some err ↦ (fail err, t, h)
            | none ↦ clone_loop n t f h (src_off + len) src_end (dst_off + len) dst_end
          ]
    ]

unfoldable pub clone_sub_file_range : Sbi → Inode → Inode → ℕ → ℕ → ℕ → Rc × Sbi × Inode
unfolding clone_loop range_end
clone_sub_file_range s f g src_pos dst_pos nbytes =
    clone_loop (suc nbytes) s f g src_pos (range_end src_pos nbytes) dst_pos
      (range_end dst_pos nbytes)

-- `l` is what the iterator over the source has still to visit.
unfoldable pub clone_all : Sbi → List Iblkref → Inode → Option Errno × Sbi × Inode
unfolding incref
clone_all s [] g = (none, s, g)
clone_all s (b ∷ l) g =
    let (r, t) = acquire_iblkref s in
    elim r [
      | none ↦ (some enospc, t, g)
      | some i ↦ clone_all (incref t b.dblkref) l (record g {
        iblkrefs = g.iblkrefs ++ (record { node = i; dblkref = b.dblkref; off = b.off } ∷ []);
        i_blocks = g.i_blocks + 1;
      })
    ]

unfoldable pub clone_entire_file_range : Sbi → Inode → Inode → Option Errno × Sbi × Inode
unfolding drop_range clone_all
clone_entire_file_range s f g =
    let (t, h) = drop_range s g 0 in
    let (r, v, k) = clone_all t f.iblkrefs h in
    elim r [ some err ↦ (some err, v, k) | none ↦ (none, v, record k { i_size = f.i_size }) ]

unfoldable pub ispagealigned : ℕ → ℕ → Bool
ispagealigned off len = (off % page_size == 0) && (len % page_size == 0)

unfoldable to_rc : Option Errno × Sbi × Inode → Rc × Sbi × Inode
to_rc (none, s, g) = (ok 0, s, g)
to_rc (some err, s, g) = (fail err, s, g)

-- `same_inode` is the test `src_tii == dst_tii`.
unfoldable pub clone : Sbi → Bool → Inode → Inode → ℕ → ℕ → ℕ → Rc × Sbi × Inode
unfolding is_reg clone_entire_file_range to_rc ispagealigned clone_sub_file_range
clone s same_inode f g src_pos dst_pos len =
    if not (is_reg f.i_mode) || not (is_reg g.i_mode)
    then (fail enotsup, s, g)
    else if same_inode
    then (ok 0, s, g)
    else if (src_pos == 0) && (len == 0) && (dst_pos == 0)
    then to_rc (clone_entire_file_range s f g)
    else if not (ispagealigned src_pos 0)
        || not (ispagealigned src_pos len)
        || not (ispagealigned dst_pos 0)
        || not (ispagealigned dst_pos len)
    then (fail enotsup, s, g)
    else clone_sub_file_range s f g src_pos dst_pos len
