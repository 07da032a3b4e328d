-- ===== src/Toyfs/Clone/Range.antt =====
-- `_clone_sub_file_range` of fs/toyfs/file.c: a range of whole pages cloned.
use zufs_zus.Common.{
  ℕ, ◌^◌, zero, suc, ◌+◌, ◌-◌, ◌%◌, ◌≤◌, ◌<◌, ◌≡◌, refl, ap, ◌∙◌, ◌⊎◌, inl, inr, true, false, ◌&&◌,
  none, some, ltb, arith, Bool-cases,
}
use zufs_zus.Toyfs.Errno.{Errno, enospc, Rc, ok, fail}
use zufs_zus.Toyfs.Pool.{Sbi}
use zufs_zus.Toyfs.Pool.Inv.{Uses, Same, Same-refl, Same-trans}
use zufs_zus.Toyfs.Blocks.{Inode}
use zufs_zus.Toyfs.Blocks.Content.{uses, IsFile, byte_at, byte_at-Same}
use zufs_zus.Toyfs.Io.{next_page, nbytes_in_range}
use zufs_zus.Toyfs.Io.{range_end_lem}
use zufs_zus.Toyfs.Clone.{clone_range, clone_len, clone_loop, clone_sub_file_range}
use zufs_zus.Toyfs.Clone.Page.{clone_range-Ranged}
use zufs_zus.Toyfs.Clone.Pasted.{Cloned}

-- Whole pages of `src` from `src_off` on stand at `dst_off`; the result tells if all of them do.
pub record ClonedRange (s : Sbi) (f g : Inode) (ext : Uses) (src dst len : ℕ) (rc : Rc) (t : Sbi)
    (h : Inode) : Type 0 where
  pub file : IsFile t h (uses f.iblkrefs ext)
  pub others : Same (uses f.iblkrefs ext) s t
  pub mode : h.i_mode ≡ g.i_mode
  pub outside :
      (x : ℕ) → (x < dst) ⊎ (dst + len ≤ x) → byte_at t h.iblkrefs x ≡ byte_at s g.iblkrefs x
  pub result :
      ((rc ≡ ok 0)
        × ((x : ℕ)
            → dst ≤ x
            → x < dst + len
            → byte_at t h.iblkrefs x ≡ byte_at s f.iblkrefs (src + (x - dst))))
      ⊎ (rc ≡ fail enospc)

module _ (k : ℕ) (s : Sbi) (f g : Inode) (src src_end dst dst_end : ℕ) where
  clone_loop_end :
      (ltb src src_end && ltb dst dst_end) ≡ false
      → clone_loop (suc k) s f g src src_end dst dst_end ≡ (ok 0, s, g)
  unfolding clone_loop
  clone_loop_end h = ground arith

  module _ (more : (ltb src src_end && ltb dst dst_end) ≡ true)
      (len : clone_len src src_end dst dst_end ≡ 4096) where
    clone_loop_failed :
        (err : Errno)
        → (clone_range s f g src dst 4096).0 ≡ some err
        → clone_loop (suc k) s f g src src_end dst dst_end
          ≡ (fail err, (clone_range s f g src dst 4096).1, (clone_range s f g src dst 4096).2)
    unfolding clone_loop
    clone_loop_failed err e = ground arith

    clone_loop_step :
        (clone_range s f g src dst 4096).0 ≡ none
        → clone_loop (suc k) s f g src src_end dst dst_end
          ≡ clone_loop k
              (clone_range s f g src dst 4096).1
              f
              (clone_range s f g src dst 4096).2
              (src + 4096)
              src_end
              (dst + 4096)
              dst_end
    unfolding clone_loop
    clone_loop_step e = ground arith

clone_len_whole :
    (src n dst : ℕ)
    → src % 4096 ≡ 0
    → dst % 4096 ≡ 0
    → n % 4096 ≡ 0
    → 0 < n
    → clone_len src (src + n) dst (dst + n) ≡ 4096
unfolding clone_len nbytes_in_range next_page
clone_len_whole src n dst h h' h'' pos = ground arith

-- One page, and then the rest.
next-ClonedRange :
    {s t v : Sbi} {f g h k : Inode} {ext : Uses} (src dst n : ℕ) {rc : Rc}
    → 4096 ≤ n
    → Cloned s f g ext src dst 4096 t h
    → ClonedRange t f h ext (src + 4096) (dst + 4096) (n - 4096) rc v k
    → ClonedRange s f g ext src dst n rc v k
next-ClonedRange {s} {t} {v} {f} {g} {h} {k} {ext} src dst n le c w =
    let source = λ (x : ℕ). byte_at-Same f.iblkrefs x (λ d p. omega arith) c.same in
    record {
      file = w.file;
      others = Same-trans c.same w.others;
      mode = w.mode ∙ c.mode;
      outside = λ x p. ground (arith, w.outside x, c.content x);
      result = elim w.result [
        | inr e ↦ inr e
        | inl (e, inside) ↦ inl (
          e,
          λ x lo hi. elim (Bool-cases (ltb x (dst + 4096))) [
            | inl here ↦ ground (arith, w.outside x, c.content x)
            | inr later ↦
                let place : src + 4096 + (x - (dst + 4096)) ≡ src + (x - dst) = ground arith in
                inside x (ground arith) (ground arith)
                ∙ source (src + 4096 + (x - (dst + 4096)))
                ∙ ap (byte_at s f.iblkrefs) place
          ],
        )
      ];
    }

-- Where `n` bytes are left.
clone_loop-ClonedRange :
    (k : ℕ) {s : Sbi} {f g : Inode} {ext : Uses} (src dst n : ℕ)
    → IsFile s g (uses f.iblkrefs ext)
    → (src % 4096 ≡ 0) × (dst % 4096 ≡ 0)
    → n % 4096 ≡ 0
    → n < k
    → let (rc, t, h) = clone_loop k s f g src (src + n) dst (dst + n) in
      ClonedRange s f g ext src dst n rc t h
clone_loop-ClonedRange zero src dst n v whole h lt = absurd (omega arith)
clone_loop-ClonedRange (suc k) {s} {f} {g} {ext} src dst n v whole h lt =
    elim (Bool-cases (ltb 0 n)) [
      | inr done ↦ rw (clone_loop_end k s f g src (src + n) dst (dst + n) (ground arith)) (record {
        file = v;
        others = Same-refl (uses f.iblkrefs ext) s;
        mode = refl;
        outside = λ x _. refl;
        result = inl (refl, λ x lo hi. absurd (ground arith));
      })
      | inl more ↦
          let len = clone_len_whole src n dst whole.0 whole.1 h (ground arith) in
          let go : (ltb src (src + n) && ltb dst (dst + n)) ≡ true = ground arith in
          elim (clone_range-Ranged {f = f} {ext = ext} v src dst whole) [
            | inr (e, q) ↦
                rw (clone_loop_failed k s f g src (src + n) dst (dst + n) go len enospc e) (record {
                  file = q.file;
                  others = q.same;
                  mode = q.mode;
                  outside = λ x _. q.content x;
                  result = inr refl;
                })
            | inl (e, q) ↦
                let le : 4096 ≤ n = ground (arith, h) in
                let src_end : src + n ≡ src + 4096 + (n - 4096) = omega (arith, le) in
                let dst_end : dst + n ≡ dst + 4096 + (n - 4096) = omega (arith, le) in
                let w =
                  clone_loop-ClonedRange k {f = f} {ext = ext} (src + 4096) (dst + 4096) (n - 4096)
                    q.file (omega (arith, whole), omega (arith, whole)) (omega (arith, h, le))
                    (omega (arith, lt, le)) in
                rw (clone_loop_step k s f g src (src + n) dst (dst + n) go len e, src_end, dst_end)
                  (next-ClonedRange src dst n le q w)
          ]
    ]

-- Cloning a range of whole pages, of which neither end reaches 2^63, leaves the source, all other
-- files and the destination's bytes outside the range as they were and keeps the block map's
-- invariant; it either succeeds, and then the range reads as the source's range did, or fails with
-- ENOSPC.
pub clone_sub_file_range_lem :
    {s : Sbi} {f g : Inode} {ext : Uses} (src dst n : ℕ)
    → IsFile s g (uses f.iblkrefs ext)
    → (src % 4096 ≡ 0) × (dst % 4096 ≡ 0)
    → n % 4096 ≡ 0
    → src + n < 2 ^ 63
    → dst + n < 2 ^ 63
    → let (rc, t, h) = clone_sub_file_range s f g src dst n in
      ClonedRange s f g ext src dst n rc t h
unfolding clone_sub_file_range
clone_sub_file_range_lem src dst n v whole h le le' =
    rw (range_end_lem src n le, range_end_lem dst n le')
      (clone_loop-ClonedRange (suc n) src dst n v whole h (omega arith))
