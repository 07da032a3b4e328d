-- ===== src/Toyfs/Io/Read.antt =====
-- What `_read` of fs/toyfs/file.c returns, and reading back what `_write` stored.
use Prim.Native.Nat.{min}
use zufs_zus.Common.{
  ℕ, zero, suc, ◌+◌, ◌-◌, ◌*◌, ◌/◌, ◌%◌, ◌≤◌, ◌<◌, ◌≡◌, ◌≢◌, ◌∙◌, ap, ◌⊎◌, inl, inr, true, false,
  ◌&&◌, none, some, ltb, leb, if◌then◌else◌, arith, Bool-cases, Option-cases,
}
use zufs_zus.Toyfs.Errno.{enospc, ok, fail}
use zufs_zus.Toyfs.Pool.{Sbi}
use zufs_zus.Toyfs.Pool.Inv.{Uses}
use zufs_zus.Toyfs.Blocks.{Inode, fetch, off_to_boff, off_in_page, fetch_iblkref}
use zufs_zus.Toyfs.Blocks.Content.{IsFile, byte_at, byte_at-none, byte_at-some}
use zufs_zus.Toyfs.Io.{
  next_page, nbytes_in_range, check_rw, tin_offset, copy_out, fill_zeros, read_loop, read, write,
}
use zufs_zus.Toyfs.Io.Write.{write_lem}
use zufs_zus.Toyfs.Io.WriteLoop.{len_bounds}

-- `buf` with the bytes of the file from `off` to `end` put at `cnt`.
abbrev pub loaded : Sbi → Inode → (ℕ → ℕ) → ℕ → ℕ → ℕ → ℕ → ℕ
loaded s f buf cnt end off i =
    if leb cnt i && ltb i (cnt + (end - off)) then byte_at s f.iblkrefs (off + (i - cnt)) else buf i

-- One round of the loop: the bytes of the page's part of the range.
page_read : Sbi → Inode → (ℕ → ℕ) → ℕ → ℕ → ℕ → ℕ → ℕ
unfolding fetch_iblkref copy_out fill_zeros off_in_page
page_read s f buf cnt off len = elim (fetch_iblkref f off) [
  | some b ↦ copy_out buf cnt (s.mem (s.dblk b.dblkref).bn) (off_in_page off) len
  | none ↦ fill_zeros buf cnt len
]

module _ (s : Sbi) (f : Inode) (buf : ℕ → ℕ) (cnt end off : ℕ) where
  read_loop_end :
      (k : ℕ) → ltb off end ≡ false → read_loop (suc k) s f buf cnt end off ≡ (ok cnt, buf)
  unfolding read_loop
  read_loop_end k h = ground arith

  read_loop_step :
      (k : ℕ)
      → ltb off end ≡ true
      → read_loop (suc k) s f buf cnt end off
        ≡ read_loop k s f
            (page_read s f buf cnt off (nbytes_in_range off (next_page off) end))
            (cnt + nbytes_in_range off (next_page off) end)
            end
            (next_page off)
  unfolding read_loop page_read
  read_loop_step k h = ground arith

  page_read_lem :
      (len i : ℕ)
      → off % 4096 + len ≤ 4096
      → page_read s f buf cnt off len i
        ≡ (if leb cnt i && ltb i (cnt + len) then byte_at s f.iblkrefs (off + (i - cnt)) else buf i)
  unfolding page_read fetch_iblkref off_to_boff off_in_page copy_out fill_zeros
  page_read_lem len i fits = elim (Option-cases (fetch (off / 4096 * 4096) f.iblkrefs)) [
    | inl e ↦ ground (arith, byte_at-none s f.iblkrefs (off + (i - cnt)), here)
    | inr (b, e) ↦ ground (arith, byte_at-some s f.iblkrefs (off + (i - cnt)) b, here)
  ]
    where
      here : cnt ≤ i → i < cnt + len → (off + (i - cnt)) / 4096 * 4096 ≡ off / 4096 * 4096
      here h h' = omega arith

loaded_step :
    (s : Sbi) (f : Inode) (buf page : ℕ → ℕ) (cnt n end off next i : ℕ)
    → page i
      ≡ (if leb cnt i && ltb i (cnt + n) then byte_at s f.iblkrefs (off + (i - cnt)) else buf i)
    → (0 < n) × (off + n ≤ end)
    → (next ≡ off + n) ⊎ ((end ≤ next) × (off + n ≡ end))
    → loaded s f page (cnt + n) end next i ≡ loaded s f buf cnt end off i
loaded_step s f buf page cnt n end off next i e bound step = elim (Bool-cases (ltb i (cnt + n))) [
  | inl before ↦ ground (arith, e)
  | inr past ↦ elim (Bool-cases (ltb i (cnt + (end - off)))) [
    | inr outside ↦ ground (arith, e)
    | inl more ↦
        let same : next + (i - (cnt + n)) ≡ off + (i - cnt) = ground arith in
        rw same ground (arith, e)
  ]
]

-- The loop ends and has put the file's bytes into the buffer.
read_loop_lem :
    (k : ℕ) (s : Sbi) (f : Inode) (buf : ℕ → ℕ) (cnt end off : ℕ)
    → end - off < k
    → ((read_loop k s f buf cnt end off).0 ≡ ok (cnt + (end - off)))
      × ((i : ℕ) → (read_loop k s f buf cnt end off).1 i ≡ loaded s f buf cnt end off i)
read_loop_lem zero s f buf cnt end off h = absurd (omega arith)
read_loop_lem (suc k) s f buf cnt end off h = elim (Bool-cases (ltb off end)) [
  | inr done ↦
      rw (read_loop_end s f buf cnt end off k done) (ap ok (ground arith), λ i. ground arith)
  | inl more ↦
      let n = nbytes_in_range off (next_page off) end in
      let (pos, fits, bound, step) = len_bounds off end (ground arith) in
      let page = page_read s f buf cnt off n in
      let (rc, bytes) =
        read_loop_lem k s f page (cnt + n) end (next_page off) (omega (arith, step, pos)) in
      rw (read_loop_step s f buf cnt end off k more) (
        rc ∙ ap ok (omega (arith, step, bound)),
        λ i.
            bytes i
            ∙ loaded_step s f buf page cnt n end off (next_page off) i
                (page_read_lem s f buf cnt end off n i fits) (pos, bound) step,
      )
]

tin_offset_lem : (off len size : ℕ) → tin_offset off len size ≡ min (off + len) size
unfolding tin_offset
tin_offset_lem off len size = ground arith

read_passed :
    (map_max : ℕ) (s : Sbi) (f : Inode) (buf : ℕ → ℕ) (off len : ℕ)
    → check_rw map_max off len ≡ none
    → read map_max s f buf off len ≡ read_loop (suc len) s f buf 0 (min (off + len) f.i_size) off
unfolding read
read_passed map_max s f buf off len h = let e = tin_offset_lem off len f.i_size in ground (arith, e)

-- A read that passes the checks returns how much of its range lies below the file's size, puts
-- exactly those bytes of the file at the start of the buffer (zeros where the file has a hole) and
-- leaves the rest of the buffer alone; it never runs out of rounds.
pub read_lem :
    (map_max : ℕ) (s : Sbi) (f : Inode) (buf : ℕ → ℕ) (off len : ℕ)
    → check_rw map_max off len ≡ none
    → let (rc, bytes) = read map_max s f buf off len in
      (rc ≡ ok (min (off + len) f.i_size - off))
      × ((i : ℕ)
          → bytes i ≡ (
              if ltb i (min (off + len) f.i_size - off)
              then byte_at s f.iblkrefs (off + i)
              else buf i))
read_lem map_max s f buf off len passed =
    let end = min (off + len) f.i_size in
    let (rc, bytes) = read_loop_lem (suc len) s f buf 0 end off (omega arith) in
    rw (read_passed map_max s f buf off len passed)
      (rc ∙ ap ok (omega arith), λ i. bytes i ∙ ground arith)

-- A read of the range that a write has just stored returns the buffer that was written, whole.
pub read-write :
    (map_max : ℕ) {s : Sbi} {f : Inode} {ext : Uses} (src buf : ℕ → ℕ) (off len : ℕ)
    → IsFile s f ext
    → check_rw map_max off len ≡ none
    → (write map_max s f src off len).0 ≢ fail enospc
    → let (_, t, g) = write map_max s f src off len in
      let (rc, bytes) = read map_max t g buf off len in
      (rc ≡ ok len) × ((i : ℕ) → i < len → bytes i ≡ src i)
read-write map_max {s} {f} src buf off len v passed ne =
    let w = write_lem map_max src off len v passed in
    let (_, t, g) = write map_max s f src off len in
    let (rc', bytes) = read_lem map_max t g buf off len passed in
    elim w.done [
      | inr (e, _) ↦ absurd (ne e)
      | inl (_, size, stored) ↦ (
        rc' ∙ ap ok (omega (arith, size)),
        λ i lt. bytes i ∙ ground (arith, size, stored (off + i)),
      )
    ]
