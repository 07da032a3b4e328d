-- ===== src/Toyfs/Falloc/Grow.antt =====
-- `_falloc_range` of fs/toyfs/file.c, and what `_zero_range_at` does to a page that files share.
use Prim.Native.Nat.{max}
use zufs_zus.Common.{
  ℕ, zero, suc, ◌+◌, ◌-◌, ◌*◌, ◌/◌, ◌%◌, ◌^◌, ◌≤◌, ◌<◌, ◌≡◌, refl, ap, ◌∙◌, ◌⊎◌, inl, inr, true,
  false, none, some, List, ltb, arith, Bool-cases, Option-cases,
}
use zufs_zus.Toyfs.Errno.{enospc, Rc, ok, fail}
use zufs_zus.Toyfs.Pool.{Sbi}
use zufs_zus.Toyfs.Pool.Inv.{Uses, Same, Same-trans}
use zufs_zus.Toyfs.Blocks.{
  Iblkref, Inode, fetch, require_iblkref, off_in_page, assign_zeros, copy_in,
}
use zufs_zus.Toyfs.Blocks.Content.{IsFile, byte_at, byte_at-some}
use zufs_zus.Toyfs.Blocks.Kept.{Kept, Kept-refl}
use zufs_zus.Toyfs.Blocks.Require.{require-Required}
use zufs_zus.Toyfs.Io.{next_page, nbytes_in_range, max_offset, range_end_lem}
use zufs_zus.Toyfs.Io.WriteLoop.{len_bounds}
use zufs_zus.Toyfs.Falloc.{falloc_loop, falloc_done, falloc_range, zero_range_at}

Kept-trans :
    {s t v : Sbi} {f g h : Inode} {ext : Uses}
    → Kept s f ext t g
    → Kept t g ext v h
    → Kept s f ext v h
Kept-trans p q = record {
  file = q.file;
  content = λ x. q.content x ∙ p.content x;
  same = Same-trans p.same q.same;
  size = q.size ∙ p.size;
  mode = q.mode ∙ p.mode;
}

module _ (k : ℕ) (s : Sbi) (f : Inode) (cnt end off : ℕ) where
  falloc_loop_end : ltb off end ≡ false → falloc_loop (suc k) s f cnt end off ≡ (ok cnt, s, f)
  unfolding falloc_loop
  falloc_loop_end h = ground arith

  falloc_loop_full :
      ltb off end ≡ true
      → (require_iblkref s f off).0 ≡ none
      → falloc_loop (suc k) s f cnt end off
        ≡ (fail enospc, (require_iblkref s f off).1, (require_iblkref s f off).2)
  unfolding falloc_loop
  falloc_loop_full h e = ground arith

  falloc_loop_step :
      (b : Iblkref)
      → ltb off end ≡ true
      → (require_iblkref s f off).0 ≡ some b
      → falloc_loop (suc k) s f cnt end off
        ≡ falloc_loop k
            (require_iblkref s f off).1
            (require_iblkref s f off).2
            (cnt + nbytes_in_range off (next_page off) end)
            end
            (next_page off)
  unfolding falloc_loop
  falloc_loop_step b h e = ground arith

falloc_loop-Kept :
    (k : ℕ) {s : Sbi} {f : Inode} {ext : Uses} (cnt end off : ℕ)
    → IsFile s f ext
    → end - off < k
    → let (rc, t, g) = falloc_loop k s f cnt end off in
      Kept s f ext t g × ((rc ≡ ok (cnt + (end - off))) ⊎ (rc ≡ fail enospc))
falloc_loop-Kept zero cnt end off v h = absurd (omega arith)
falloc_loop-Kept (suc k) {s} {f} cnt end off v h = elim (Bool-cases (ltb off end)) [
  | inr done ↦
      rw (falloc_loop_end k s f cnt end off done) (Kept-refl v 0, inl (ap ok (ground arith)))
  | inl more ↦
      let (q, _) = require-Required v off in
      elim (Option-cases (require_iblkref s f off).0) [
        | inl full ↦ rw (falloc_loop_full k s f cnt end off more full) (q, inr refl)
        | inr (b, got) ↦
            let (pos, fits, bound, step) = len_bounds off end (ground arith) in
            let (w, r) =
              falloc_loop-Kept k (cnt + nbytes_in_range off (next_page off) end) end (next_page off)
                q.file (omega (arith, step, pos)) in
            rw (falloc_loop_step k s f cnt end off b more got) (
              Kept-trans q w,
              elim r [ inl e ↦ inl (e ∙ ap ok (omega (arith, step, bound))) | inr e ↦ inr e ],
            )
      ]
]

module _ (s : Sbi) (f : Inode) (from nbytes : ℕ) (le : from + nbytes < 2 ^ 63) where
  abbrev looped : Rc × Sbi × Inode
  looped = falloc_loop (suc nbytes) s f 0 (from + nbytes) from

  falloc_range_ok :
      looped.0 ≡ ok nbytes
      → falloc_range s f from nbytes
        ≡ (ok 0, looped.1, record looped.2 { i_size = max looped.2.i_size (from + nbytes) })
  unfolding falloc_range falloc_done max_offset
  falloc_range_ok e = ground (arith, range_end_lem from nbytes le)

  falloc_range_full :
      looped.0 ≡ fail enospc → falloc_range s f from nbytes ≡ (fail enospc, looped.1, looped.2)
  unfolding falloc_range falloc_done
  falloc_range_full e = ground (arith, range_end_lem from nbytes le)

-- Allocating a range that ends below 2^63 changes no byte of the file or of any other one; it
-- either succeeds and extends the size to the end of the range, or fails with ENOSPC and keeps the
-- size.
pub falloc_range_lem :
    {s : Sbi} {f : Inode} {ext : Uses} (from nbytes : ℕ)
    → IsFile s f ext
    → from + nbytes < 2 ^ 63
    → let (rc, t, g) = falloc_range s f from nbytes in
      IsFile t g ext
      × Same ext s t
      × ((x : ℕ) → byte_at t g.iblkrefs x ≡ byte_at s f.iblkrefs x)
      × (((rc ≡ ok 0) × (g.i_size ≡ max f.i_size (from + nbytes)))
          ⊎ ((rc ≡ fail enospc) × (g.i_size ≡ f.i_size)))
falloc_range_lem {s} {f} from nbytes v le =
    let (q, r) = falloc_loop-Kept (suc nbytes) 0 (from + nbytes) from v (omega arith) in
    elim r [
      | inl e ↦ rw (falloc_range_ok s f from nbytes le (e ∙ ap ok (omega arith))) (
        record { consistent = q.file.consistent; sorted = q.file.sorted; blocks = q.file.blocks },
        q.same,
        q.content,
        inl (refl, ap (λ z. max z (from + nbytes)) q.size),
      )
      | inr e ↦
          rw (falloc_range_full s f from nbytes le e)
            (q.file, q.same, q.content, inr (refl, q.size))
    ]

-- Clearing a part of a page clears it in every file that names the page: whatever list names the
-- page's block at an offset reads zeros there afterwards.
pub zero_range_at-byte_at :
    (s : Sbi) (b c : Iblkref) (off len : ℕ) (other : List Iblkref) (x : ℕ)
    → fetch (x / 4096 * 4096) other ≡ some c
    → c.dblkref ≡ b.dblkref
    → off % 4096 ≤ x % 4096
    → x % 4096 < off % 4096 + len
    → byte_at (zero_range_at s b off len) other x ≡ 0
unfolding zero_range_at assign_zeros copy_in off_in_page nbytes_in_range next_page
zero_range_at-byte_at s b c off len other x hit same lo hi =
    ground (arith, byte_at-some (zero_range_at s b off len) other x c hit)
