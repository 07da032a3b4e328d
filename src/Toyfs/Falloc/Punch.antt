-- ===== src/Toyfs/Falloc/Punch.antt =====
-- Punching holes in fs/toyfs/file.c: `_punch_hole` of a file that shares no page with another one.
use zufs_zus.Common.{
  ℕ, ◌^◌, zero, suc, ◌+◌, ◌-◌, ◌*◌, ◌/◌, ◌%◌, ◌≤◌, ◌<◌, ◌≡◌, refl, sym, subst, ◌⊎◌, inl, inr, Bool,
  true, false, ◌&&◌, none, some, ltb, leb, arith, Bool-cases, Option-cases,
}
use zufs_zus.Toyfs.Errno.{ok}
use zufs_zus.Toyfs.Pool.{Sbi}
use zufs_zus.Toyfs.Pool.Inv.{Uses}
use zufs_zus.Toyfs.Blocks.{
  Iblkref, Inode, fetch, fetch_iblkref, off_to_boff, off_in_page, assign_zeros,
}
use zufs_zus.Toyfs.Blocks.Chain.{refs, refs-fetch, off-fetch}
use zufs_zus.Toyfs.Blocks.Content.{IsFile, byte_at, byte_at-none}
use zufs_zus.Toyfs.Blocks.Kept.{Kept-refl}
use zufs_zus.Toyfs.Io.{next_page, nbytes_in_range, range_end_lem}
use zufs_zus.Toyfs.Io.WriteLoop.{len_bounds}
use zufs_zus.Toyfs.Trunc.{remove, drop_iblkref}
use zufs_zus.Toyfs.Trunc.Dropped.{
  fetch-remove, refs-remove, inode-drop_iblkref, drop_iblkref-Dropped,
}
use zufs_zus.Toyfs.Trunc.Clear.{Cleared, Kept-Cleared, Cleared-congr, Cleared-trans, zeroed-Cleared}
use zufs_zus.Toyfs.Falloc.{zero_range_at, punch_hole_at, punch_loop, punch_hole}

-- No other file, and no other place in this one, names a page of the file.
abbrev pub IsPrivate : Inode → Uses → Type 0
IsPrivate f ext =
    (y : ℕ) (b : Iblkref)
    → fetch y f.iblkrefs ≡ some b
    → refs b.dblkref f.iblkrefs + ext b.dblkref ≡ 1

-- `_zero_range_at` clears its part of the page.
zero_range_at_eq :
    (s : Sbi) (b : Iblkref) (off len : ℕ)
    → off % 4096 + len ≤ 4096
    → zero_range_at s b off len ≡ assign_zeros s (s.dblk b.dblkref).bn (off % 4096) len
unfolding zero_range_at off_in_page
zero_range_at_eq s b off len fits = rw (plen off len fits) refl
  where
    plen :
        (off len : ℕ)
        → off % 4096 + len ≤ 4096
        → nbytes_in_range (off % 4096) (next_page (off % 4096)) (off % 4096 + len) ≡ len
    plen off len fits = ground arith

-- One page of the range.
abbrev part : ℕ → ℕ → ℕ → Bool
part off len x = leb off x && ltb x (off + len)

abbrev Punched : Sbi → Inode → Uses → ℕ → ℕ → Sbi × Inode → Type 0
Punched s f ext off len (t, g) = Cleared s f ext (part off len) t g × IsPrivate g ext

module _ {s : Sbi} {f : Inode} {ext : Uses} (v : IsFile s f ext) (own : IsPrivate f ext)
    (off len : ℕ) (fits : off % 4096 + len ≤ 4096) (b : Iblkref)
    (hit : fetch (off / 4096 * 4096) f.iblkrefs ≡ some b) where
  zeroed-Punched : Punched s f ext off len (zero_range_at s b off len, f)
  zeroed-Punched = rw (zero_range_at_eq s b off len fits) (
    zeroed-Cleared v off len (record { found = hit; alone = own (off / 4096 * 4096) b hit }) fits,
    own,
  )

  drop_iblkref-IsPrivate : fetch b.off f.iblkrefs ≡ some b → IsPrivate (drop_iblkref s f b).1 ext
  drop_iblkref-IsPrivate hit' = rw (inode-drop_iblkref v hit') (λ y c h.
      let kept : fetch y f.iblkrefs ≡ some c =
        ground (arith, fetch-remove y b.off 0 f.iblkrefs v.sorted, h) in
      ground (
        arith,
        own y c kept,
        refs-remove c.dblkref b.off f.iblkrefs b hit',
        refs-fetch y (remove b.off f.iblkrefs) c h,
      ))

  dropped-Punched : len ≡ 4096 → Punched s f ext off len (drop_iblkref s f b)
  dropped-Punched whole =
      let at = off-fetch (off / 4096 * 4096) f.iblkrefs b hit in
      let hit' : fetch b.off f.iblkrefs ≡ some b =
        subst (λ z. fetch z f.iblkrefs ≡ some b) (sym at) hit in
      let d = drop_iblkref-Dropped v hit' in
      (
        Cleared-congr (part off len) (λ x. inl ground (arith, at, whole, fits))
            (record {
              file = d.file;
              same = d.same;
              size = d.size;
              mode = d.mode;
              content = d.content;
            }),
        drop_iblkref-IsPrivate hit',
      )

module _ (k : ℕ) (s : Sbi) (f : Inode) (end off : ℕ) where
  abbrev len : ℕ
  len = nbytes_in_range off (next_page off) end

  punch_loop_end : ltb off end ≡ false → punch_loop (suc k) s f end off ≡ (ok 0, s, f)
  unfolding punch_loop
  punch_loop_end h = ground arith

  module _ (more : ltb off end ≡ true) where
    punch_loop_hole :
        fetch (off / 4096 * 4096) f.iblkrefs ≡ none
        → punch_loop (suc k) s f end off ≡ punch_loop k s f end (next_page off)
    unfolding punch_loop fetch_iblkref off_to_boff
    punch_loop_hole h = ground arith

    module _ (b : Iblkref) (hit : fetch (off / 4096 * 4096) f.iblkrefs ≡ some b) where
      punch_loop_zero :
          ltb len 4096 ≡ true
          → punch_loop (suc k) s f end off
            ≡ punch_loop k (zero_range_at s b off len) f end (next_page off)
      unfolding punch_loop fetch_iblkref off_to_boff punch_hole_at
      punch_loop_zero h = ground arith

      punch_loop_drop :
          ltb len 4096 ≡ false
          → punch_loop (suc k) s f end off
            ≡ punch_loop k (drop_iblkref s f b).0 (drop_iblkref s f b).1 end (next_page off)
      unfolding punch_loop fetch_iblkref off_to_boff punch_hole_at
      punch_loop_drop h = ground arith

hole-Cleared :
    {s : Sbi} {f : Inode} {ext : Uses} (v : IsFile s f ext) (off len : ℕ)
    → off % 4096 + len ≤ 4096
    → fetch (off / 4096 * 4096) f.iblkrefs ≡ none
    → Cleared s f ext (part off len) s f
hole-Cleared {s} {f} v off len fits miss =
    Cleared-congr (part off len) (λ x. no_page x) (Kept-Cleared (Kept-refl v 0))
  where
    no_page : (x : ℕ) → (false ≡ part off len x) ⊎ (byte_at s f.iblkrefs x ≡ 0)
    no_page x = elim (Bool-cases (part off len x)) [
      | inr e ↦ inl (sym e)
      | inl e ↦
          let page : x / 4096 * 4096 ≡ off / 4096 * 4096 = ground (arith, fits) in
          inr (byte_at-none s f.iblkrefs x (rw page miss))
    ]

-- One page, and then the rest.
next-Cleared :
    {s t v : Sbi} {f g h : Inode} {ext : Uses} (off len end next : ℕ)
    → off + len ≤ end
    → (next ≡ off + len) ⊎ ((end ≤ next) × (off + len ≡ end))
    → Cleared s f ext (part off len) t g
    → Cleared t g ext (λ x. leb next x && ltb x end) v h
    → Cleared s f ext (λ x. leb off x && ltb x end) v h
next-Cleared off len end next bound step p q =
    Cleared-congr (λ x. leb off x && ltb x end) (λ x. inl (ground (arith, bound, step)))
      (Cleared-trans p q)

punch_loop-Cleared :
    (k : ℕ) {s : Sbi} {f : Inode} {ext : Uses} (end off : ℕ)
    → IsFile s f ext
    → IsPrivate f ext
    → end - off < k
    → let (rc, t, g) = punch_loop k s f end off in
      (rc ≡ ok 0) × Cleared s f ext (λ x. leb off x && ltb x end) t g
punch_loop-Cleared zero end off v own h = absurd (omega arith)
punch_loop-Cleared (suc k) {s} {f} {ext} end off v own h = elim (Bool-cases (ltb off end)) [
  | inr done ↦ rw (punch_loop_end k s f end off done) (
    refl,
    Cleared-congr (λ x. leb off x && ltb x end) (λ x. inl (ground arith))
        (Kept-Cleared (Kept-refl v 0)),
  )
  | inl more ↦
      let (pos, fits, bound, step) = len_bounds off end (ground arith) in
      let next = next_page off in
      let n = nbytes_in_range off next end in
      let less : end - next < k = omega (arith, step, pos) in
      elim (Option-cases (fetch (off / 4096 * 4096) f.iblkrefs)) [
        | inl miss ↦
            let (rc, w) = punch_loop-Cleared k end next v own less in
            rw (punch_loop_hole k s f end off more miss)
              (rc, next-Cleared off n end next bound step (hole-Cleared v off n fits miss) w)
        | inr (b, hit) ↦ elim (Bool-cases (ltb n 4096)) [
          | inl little ↦
              let (c, own') = zeroed-Punched v own off n fits b hit in
              let (rc, w) = punch_loop-Cleared k end next c.file own' less in
              rw (punch_loop_zero k s f end off more b hit little)
                (rc, next-Cleared off n end next bound step c w)
          | inr whole ↦
              let (c, own') = dropped-Punched v own off n fits b hit (ground (arith, fits)) in
              let (rc, w) = punch_loop-Cleared k end next c.file own' less in
              rw (punch_loop_drop k s f end off more b hit whole)
                (rc, next-Cleared off n end next bound step c w)
        ]
      ]
]

-- Punching a hole, of a range that ends below 2^63, into a file that shares no page succeeds: it
-- makes exactly the bytes of the range read as zero, keeps the size and all other files, and the
-- block map stays well formed.
pub punch_hole_lem :
    {s : Sbi} {f : Inode} {ext : Uses} (from nbytes : ℕ)
    → IsFile s f ext
    → IsPrivate f ext
    → from + nbytes < 2 ^ 63
    → let (rc, t, g) = punch_hole s f from nbytes in
      (rc ≡ ok 0) × Cleared s f ext (λ x. leb from x && ltb x (from + nbytes)) t g
unfolding punch_hole
punch_hole_lem from nbytes v own le =
    rw (range_end_lem from nbytes le)
      (punch_loop-Cleared (suc nbytes) (from + nbytes) from v own (omega arith))
