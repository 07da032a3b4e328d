-- ===== src/Toyfs/Falloc.antt =====
-- `_fallocate` of fs/toyfs/file.c with its four modes, and `toyfs_seek`.
pub mod Grow
pub mod Punch
pub mod Seek
use zufs_zus.Common.{
  ℕ, zero, suc, ◌+◌, ◌-◌, ◌*◌, ◌/◌, ◌%◌, ◌^◌, Bool, true, false, ◌&&◌, ◌||◌, not, Option, none,
  some, List, [], ◌∷◌, ltb, leb, ◌==◌, if◌then◌else◌,
}
use zufs_zus.Common.Int.{ℤ, pos, negsuc}
use zufs_zus.Toyfs.Errno.{Errno, einval, efbig, enospc, enotsup, Rc, ok, fail, out_of_fuel}
use zufs_zus.Toyfs.Pool.{Sbi, page_size}
use zufs_zus.Toyfs.Blocks.{
  Iblkref, Inode, off_to_boff, off_in_page, assign_zeros, fetch_iblkref, fetch_iblkref_from,
  require_iblkref,
}
use zufs_zus.Toyfs.Io.{next_page, nbytes_in_range, check_io, max_offset, range_end}
use zufs_zus.Toyfs.Trunc.{drop_iblkref}
use zufs_zus.Toyfs.Clone.{ispagealigned}

-- `mode & bit`, of the bit `2 ^ i`
unfoldable pub has_bit : ℕ → ℕ → Bool
has_bit mode i = mode / 2 ^ i % 2 == 1

-- FALLOC_FL_KEEP_SIZE is bit 0, PUNCH_HOLE 1, NO_HIDE_STALE 2, COLLAPSE_RANGE 3, ZERO_RANGE 4,
-- INSERT_RANGE 5, UNSHARE_RANGE 6.
unfoldable pub check_falloc : ℕ → ℕ → ℕ → Option Errno
unfolding has_bit ispagealigned
check_falloc flags off len =
    if has_bit flags 2
    then some enotsup
    else if has_bit flags 5
    then some enotsup
    else if has_bit flags 6
    then some enotsup
    else if has_bit flags 1 && not (has_bit flags 0)
    then some enotsup
    else if has_bit flags 3 && not (flags == 8)
    then some enotsup
    else if has_bit flags 3 && not (ispagealigned off len)
    then some enotsup
    else none

unfoldable pub zero_range_at : Sbi → Iblkref → ℕ → ℕ → Sbi
unfolding off_in_page next_page nbytes_in_range assign_zeros
zero_range_at s b off len =
    let poff = off_in_page off in
    let plen = nbytes_in_range poff (next_page poff) (poff + len) in
    assign_zeros s (s.dblk b.dblkref).bn poff plen

unfoldable pub punch_hole_at : Sbi → Inode → Iblkref → ℕ → ℕ → Sbi × Inode
unfolding zero_range_at drop_iblkref
punch_hole_at s f b off len =
    if ltb len page_size then (zero_range_at s b off len, f) else drop_iblkref s f b

unfoldable pub punch_loop : ℕ → Sbi → Inode → (end off : ℕ) → Rc × Sbi × Inode
unfolding fetch_iblkref next_page nbytes_in_range punch_hole_at
punch_loop zero s f end off = (out_of_fuel, s, f)
punch_loop (suc k) s f end off = elim (ltb off end) [
  | false ↦ (ok 0, s, f)
  | true ↦
      let nxt = next_page off in
      let len = nbytes_in_range off nxt end in
      let (t, g) : Sbi × Inode = elim (fetch_iblkref f off) [
        | none ↦ (s, f)
        | some b ↦ punch_hole_at s f b off len
      ] in
      punch_loop k t g end nxt
]

unfoldable pub punch_hole : Sbi → Inode → ℕ → ℕ → Rc × Sbi × Inode
unfolding punch_loop range_end
punch_hole s f from nbytes = punch_loop (suc nbytes) s f (range_end from nbytes) from

-- The rounds after the first one; each starts at the iblkref's own offset.
unfoldable pub zero_rest : List Iblkref → Sbi → (end : ℕ) → Sbi
unfolding next_page nbytes_in_range zero_range_at
zero_rest [] s end = s
zero_rest (b ∷ l) s end = elim (ltb b.off end) [
  | false ↦ s
  | true ↦ zero_rest l (zero_range_at s b b.off (nbytes_in_range b.off (next_page b.off) end)) end
]

-- The first round starts at the range's start, also where the first iblkref lies past it.
unfoldable pub zero_range : Sbi → Inode → ℕ → ℕ → Rc × Sbi × Inode
unfolding fetch_iblkref_from next_page nbytes_in_range zero_range_at zero_rest range_end
zero_range s f from nbytes =
    let end = range_end from nbytes in
    let t : Sbi = elim (fetch_iblkref_from f from) [
      | [] ↦ s
      | b ∷ l ↦ elim (ltb b.off end) [
        | false ↦ s
        | true ↦
            zero_rest l (zero_range_at s b from (nbytes_in_range from (next_page b.off) end)) end
      ]
    ] in
    (ok 0, t, f)

-- `iblkref->off -= nbytes` of the iblkrefs from `boff` on
unfoldable pub shift_from : ℕ → ℕ → List Iblkref → List Iblkref
shift_from boff nbytes [] = []
shift_from boff nbytes (b ∷ l) =
    let rest = shift_from boff nbytes l in
    if leb boff b.off then record b { off = b.off - nbytes } ∷ rest else b ∷ rest

unfoldable pub collapse_range : Sbi → Inode → ℕ → ℕ → Rc × Sbi × Inode
unfolding punch_hole off_to_boff shift_from
collapse_range s f from nbytes =
    let (rc, t, g) = punch_hole s f from nbytes in
    elim rc [
      | ok _ ↦ (
        ok 0,
        t,
        record g {
          i_size = if leb nbytes g.i_size then g.i_size - nbytes else g.i_size;
          iblkrefs = shift_from (off_to_boff from) nbytes g.iblkrefs;
        },
      )
      | fail err ↦ (fail err, t, g)
      | out_of_fuel ↦ (out_of_fuel, t, g)
    ]

unfoldable pub falloc_loop : ℕ → Sbi → Inode → (cnt end off : ℕ) → Rc × Sbi × Inode
unfolding require_iblkref next_page nbytes_in_range
falloc_loop zero s f cnt end off = (out_of_fuel, s, f)
falloc_loop (suc k) s f cnt end off = elim (ltb off end) [
  | false ↦ (ok cnt, s, f)
  | true ↦
      let (r, t, g) = require_iblkref s f off in
      elim r [
        | none ↦ (fail enospc, t, g)
        | some b ↦
            let nxt = next_page off in falloc_loop k t g (cnt + nbytes_in_range off nxt end) end nxt
      ]
]

unfoldable pub falloc_done : ℕ → Rc × Sbi × Inode → Rc × Sbi × Inode
unfolding max_offset
falloc_done from (ok cnt, s, f) = (ok 0, s, record f { i_size = max_offset from cnt f.i_size })
falloc_done from (fail e, s, f) = (fail e, s, f)
falloc_done from (out_of_fuel, s, f) = (out_of_fuel, s, f)

unfoldable pub falloc_range : Sbi → Inode → ℕ → ℕ → Rc × Sbi × Inode
unfolding falloc_loop falloc_done range_end
falloc_range s f from nbytes =
    falloc_done from (falloc_loop (suc nbytes) s f 0 (range_end from nbytes) from)

unfoldable pub fallocate : Sbi → Inode → (mode off len : ℕ) → Rc × Sbi × Inode
unfolding check_io check_falloc has_bit punch_hole zero_range collapse_range falloc_range
fallocate s f mode off len = elim (check_io off len) [
  | some err ↦ (fail err, s, f)
  | none ↦ elim (check_falloc mode off len) [
    | some err ↦ (fail err, s, f)
    | none ↦
        if has_bit mode 1
        then punch_hole s f off len
        else if has_bit mode 4
        then zero_range s f off len
        else if has_bit mode 3
        then collapse_range s f off len
        else falloc_range s f off len
  ]
]

-- The offset returned; none is the -1 that `toyfs_seek` starts with.
unfoldable pub found_off : Option ℕ → ℤ
found_off none = negsuc 0
found_off (some off) = pos off

-- `_seek_block` from an offset that is not negative
unfoldable pub seek_block : ℕ → Inode → (from : ℕ) → Bool → Option ℕ
unfolding fetch_iblkref next_page
seek_block zero f off seek_exist = none
seek_block (suc k) f off seek_exist =
    let rest = seek_block k f (next_page off) seek_exist in
    let pmemb : Bool = elim (fetch_iblkref f off) [ none ↦ false | some b ↦ true ] in
    if ltb off f.i_size
    then (if (pmemb && seek_exist) || (not pmemb && not seek_exist) then some off else rest)
    else none

-- `_seek_block` from the offset `-n` on: of the pages below 0 the first one is, by the division of
-- the code, the page 0, and the others are not mapped. Each round but the last comes a page closer to
-- 0, from where `seek_block` goes on.
unfoldable pub seek_below : ℕ → Inode → (n : ℕ) → Bool → ℤ
unfolding fetch_iblkref seek_block found_off
seek_below zero f n seek_exist = negsuc 0
seek_below (suc k) f n seek_exist =
    let next = seek_below k f ((n - page_size) / page_size * page_size) seek_exist in
    let rest =
      if ltb n (2 * page_size)
      then found_off (seek_block (suc f.i_size) f 0 seek_exist)
      else next in
    let first : Bool = elim (fetch_iblkref f 0) [ none ↦ false | some b ↦ true ] in
    let pmemb = ltb n page_size && first in
    if (pmemb && seek_exist) || (not pmemb && not seek_exist) then negsuc (n - 1) else rest

-- `_seek_data` and `_seek_hole` from the offset in 64 bits, with the -1 of `toyfs_seek` for none
unfoldable pub seek_from : Inode → ℕ → Bool → ℤ
unfolding seek_below seek_block found_off
seek_from f off_in seek_exist =
    if ltb off_in (2 ^ 63)
    then found_off (seek_block (suc f.i_size) f off_in seek_exist)
    else seek_below (2 ^ 64 - off_in) f (2 ^ 64 - off_in) seek_exist

-- `toyfs_seek`, of SEEK_DATA (3) and SEEK_HOLE (4)
unfoldable pub seek : Inode → (off_in whence : ℕ) → Option Errno × ℤ
unfolding seek_from
seek f off_in whence =
    if whence == 3
    then (none, seek_from f off_in true)
    else if whence == 4
    then (none, seek_from f off_in false)
    else (some enotsup, negsuc 0)
