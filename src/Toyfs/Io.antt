-- ===== src/Toyfs/Io.antt =====
-- Reading and writing of fs/toyfs/file.c. Positions and lengths that passed `_check_io` are far
-- from the ends of `loff_t`, so they are plain numbers; the checks themselves read 64-bit patterns.
pub mod Check
pub mod Page
pub mod Read
pub mod Write
pub mod WriteLoop
use zufs_zus.Common.{
  ℕ, ◌≡◌, ◌<◌, zero, suc, ◌+◌, ◌-◌, ◌*◌, ◌/◌, ◌%◌, ◌^◌, Bool, true, false, ◌&&◌, Option, none, some,
  ltb, leb, ◌==◌, if◌then◌else◌, arith,
}
use zufs_zus.Toyfs.Errno.{Errno, einval, efbig, enospc, Rc, ok, fail, out_of_fuel}
use zufs_zus.Toyfs.Pool.{Sbi, page_size}
use zufs_zus.Toyfs.Blocks.{Iblkref, Inode, off_in_page, copy_in, fetch_iblkref, require_iblkref}

unfoldable pub next_page : ℕ → ℕ
next_page off = (off + page_size) / page_size * page_size

-- Called with `off` below `next` and `end`, so that neither difference wraps.
unfoldable pub nbytes_in_range : ℕ → ℕ → ℕ → ℕ
nbytes_in_range off next end = if ltb next end then next - off else end - off

abbrev pub isize_max : ℕ
isize_max = 2 ^ 50

-- `off` is the pattern of a `loff_t`: the negative ones start at 2 ^ 63. The sum wraps.
unfoldable pub check_io : ℕ → ℕ → Option Errno
check_io off len =
    if leb (2 ^ 63) off
    then some einval
    else if len == 0
    then some einval
    else if ltb isize_max off
    then some efbig
    else if ltb isize_max ((off + len) % 2 ^ 64)
    then some efbig
    else none

-- `map_max` is ZUS_API_MAP_MAX_SIZE, which a header outside this repository defines.
unfoldable pub check_rw : ℕ → ℕ → ℕ → Option Errno
unfolding check_io
check_rw map_max off len = if ltb map_max len then some einval else check_io off len

-- `off + (loff_t)len` of the loops over a range, for an offset that is not negative: a sum that is
-- negative as a `loff_t` is given as 0, as neither is above any such offset.
unfoldable pub range_end : ℕ → ℕ → ℕ
range_end off len = let sum = (off + len) % 2 ^ 64 in if ltb sum (2 ^ 63) then sum else 0

-- Where the sum does not leave the positive numbers.
pub range_end_lem : (off len : ℕ) → off + len < 2 ^ 63 → range_end off len ≡ off + len
unfolding range_end
range_end_lem off len h = ground arith

-- `_max_offset` and `_tin_offset`; sizes are below 2^63, where their cast to `loff_t` keeps them.
unfoldable pub max_offset : ℕ → ℕ → ℕ → ℕ
max_offset off len isize = let end = off + len in if ltb isize end then end else isize

unfoldable pub tin_offset : ℕ → ℕ → ℕ → ℕ
tin_offset off len isize = let end = off + len in if ltb end isize then end else isize

-- `tgt + at` is where the buffer pointer stands.
unfoldable pub copy_out : (ℕ → ℕ) → ℕ → (ℕ → ℕ) → ℕ → ℕ → ℕ → ℕ
copy_out tgt at dat off len =
    λ i. if leb at i && ltb i (at + len) then dat (off + (i - at)) else tgt i

unfoldable pub fill_zeros : (ℕ → ℕ) → ℕ → ℕ → ℕ → ℕ
fill_zeros tgt at len = λ i. if leb at i && ltb i (at + len) then 0 else tgt i

-- `buf` has advanced by `cnt`.
unfoldable pub read_loop : ℕ → Sbi → Inode → (ℕ → ℕ) → (cnt end off : ℕ) → Rc × (ℕ → ℕ)
unfolding fetch_iblkref next_page nbytes_in_range copy_out fill_zeros off_in_page
read_loop zero s f buf cnt end off = (out_of_fuel, buf)
read_loop (suc k) s f buf cnt end off = elim (ltb off end) [
  | false ↦ (ok cnt, buf)
  | true ↦
      let nxt = next_page off in
      let len = nbytes_in_range off nxt end in
      read_loop k s f
        (elim (fetch_iblkref f off) [
          | some b ↦ copy_out buf cnt (s.mem (s.dblk b.dblkref).bn) (off_in_page off) len
          | none ↦ fill_zeros buf cnt len
        ])
        (cnt + len) end nxt
]

-- `_read`, which `toyfs_read` and `toyfs_pre_read` call.
unfoldable pub read : ℕ → Sbi → Inode → (ℕ → ℕ) → ℕ → ℕ → Rc × (ℕ → ℕ)
unfolding check_rw tin_offset read_loop
read map_max s f buf off len = elim (check_rw map_max off len) [
  | some err ↦ (fail err, buf)
  | none ↦ read_loop (suc len) s f buf 0 (tin_offset off len f.i_size) off
]

-- `_advance` of the buffer pointer
unfoldable pub advance : (ℕ → ℕ) → ℕ → ℕ → ℕ
advance buf len = λ i. buf (len + i)

unfoldable pub write_loop : ℕ → Sbi → Inode → (ℕ → ℕ) → (cnt end off : ℕ) → Rc × Sbi × Inode
unfolding require_iblkref next_page nbytes_in_range copy_in off_in_page advance
write_loop zero s f buf cnt end off = (out_of_fuel, s, f)
write_loop (suc k) s f buf cnt end off = elim (ltb off end) [
  | false ↦ (ok cnt, s, f)
  | true ↦
      let (r, t, g) = require_iblkref s f off in
      elim r [
        | none ↦ (fail enospc, t, g)
        | some b ↦
            let nxt = next_page off in
            let len = nbytes_in_range off nxt end in
            write_loop k (copy_in t (t.dblk b.dblkref).bn buf (off_in_page off) len) g
              (advance buf len) (cnt + len) end nxt
      ]
]

-- On a failure the size stays as it was.
unfoldable write_done : ℕ → Rc × Sbi × Inode → Rc × Sbi × Inode
unfolding max_offset
write_done from (ok cnt, s, f) = (ok cnt, s, record f { i_size = max_offset from cnt f.i_size })
write_done from (fail e, s, f) = (fail e, s, f)
write_done from (out_of_fuel, s, f) = (out_of_fuel, s, f)

-- `_write`, which `toyfs_write` calls.
unfoldable pub write : ℕ → Sbi → Inode → (ℕ → ℕ) → ℕ → ℕ → Rc × Sbi × Inode
unfolding check_rw write_loop write_done
write map_max s f buf off len = elim (check_rw map_max off len) [
  | some err ↦ (fail err, s, f)
  | none ↦ write_done off (write_loop (suc len) s f buf 0 (off + len) off)
]
