-- ===== src/Toyfs/Io/WriteLoop.antt =====
-- The loop of `_write`, fs/toyfs/file.c.
use zufs_zus.Common.{
  ℕ, zero, suc, ◌+◌, ◌-◌, ◌*◌, ◌/◌, ◌%◌, ◌≤◌, ◌<◌, ◌≡◌, ◌≢◌, refl, ◌∙◌, ap, ◌⊎◌, inl, inr, true,
  false, Option, none, some, ltb, arith, Bool-cases, Option-cases,
}
use zufs_zus.Toyfs.Errno.{enospc, Rc, ok, fail}
use zufs_zus.Toyfs.Pool.{Sbi}
use zufs_zus.Toyfs.Pool.Inv.{Uses, Same, Same-refl, Same-trans}
use zufs_zus.Toyfs.Blocks.{Iblkref, Inode, copy_in, off_to_boff, off_in_page, require_iblkref}
use zufs_zus.Toyfs.Blocks.Content.{IsFile, byte_at}
use zufs_zus.Toyfs.Blocks.Kept.{Kept, Owned}
use zufs_zus.Toyfs.Blocks.Require.{require-Required}
use zufs_zus.Toyfs.Io.{next_page, nbytes_in_range, advance, write_loop}
use zufs_zus.Toyfs.Io.Page.{filled, filled-IsFile, filled-Same, byte_at-filled}

-- After the loop that writes `buf` to `[off, end)`.
pub record Wrote (s : Sbi) (f : Inode) (ext : Uses) (buf : ℕ → ℕ) (cnt end off : ℕ) (rc : Rc)
    (t : Sbi) (g : Inode) : Type 0 where
  pub file : IsFile t g ext
  pub others : Same ext s t
  pub size : g.i_size ≡ f.i_size
  pub mode : g.i_mode ≡ f.i_mode
  pub outside : (x : ℕ) → (x < off) ⊎ (end ≤ x) → byte_at t g.iblkrefs x ≡ byte_at s f.iblkrefs x
  pub inside :
      (x : ℕ) → rc ≢ fail enospc → off ≤ x → x < end → byte_at t g.iblkrefs x ≡ buf (x - off)
  pub result : (rc ≡ ok (cnt + (end - off))) ⊎ (rc ≡ fail enospc)

write_loop_end :
    (k : ℕ) (s : Sbi) (f : Inode) (buf : ℕ → ℕ) (cnt end off : ℕ)
    → ltb off end ≡ false
    → write_loop (suc k) s f buf cnt end off ≡ (ok cnt, s, f)
unfolding write_loop
write_loop_end k s f buf cnt end off h = ground arith

module _ (k : ℕ) (s : Sbi) (f : Inode) (buf : ℕ → ℕ) (cnt end off : ℕ)
    (more : ltb off end ≡ true) where
  abbrev required : Option Iblkref × Sbi × Inode
  required = require_iblkref s f off

  abbrev pub len : ℕ
  len = nbytes_in_range off (next_page off) end

  write_loop_full :
      required.0 ≡ none
      → write_loop (suc k) s f buf cnt end off ≡ (fail enospc, required.1, required.2)
  unfolding write_loop
  write_loop_full h = ground arith

  write_loop_step :
      (b : Iblkref)
      → required.0 ≡ some b
      → write_loop (suc k) s f buf cnt end off
        ≡ write_loop k
            (copy_in required.1 (required.1.dblk b.dblkref).bn buf (off_in_page off) len)
            required.2
            (advance buf len)
            (cnt + len)
            end
            (next_page off)
  unfolding write_loop
  write_loop_step b h = ground arith

pub len_bounds :
    (off end : ℕ)
    → off < end
    → (0 < nbytes_in_range off (next_page off) end)
      × (off % 4096 + nbytes_in_range off (next_page off) end ≤ 4096)
      × (off + nbytes_in_range off (next_page off) end ≤ end)
      × ((next_page off ≡ off + nbytes_in_range off (next_page off) end)
          ⊎ ((end ≤ next_page off) × (off + nbytes_in_range off (next_page off) end ≡ end)))
unfolding next_page nbytes_in_range
len_bounds off end h = ground arith

-- One round: a page is made the file's own and takes its part of the buffer.
module _ {s : Sbi} {f : Inode} {ext : Uses} (v : IsFile s f ext) (buf : ℕ → ℕ) (cnt end off : ℕ)
    (more : off < end) where
  round_none :
      {t : Sbi} {g : Inode} → Kept s f ext t g → Wrote s f ext buf cnt end off (fail enospc) t g
  round_none k = record {
    file = k.file;
    others = k.same;
    size = k.size;
    mode = k.mode;
    outside = λ x h. k.content x;
    inside = λ x ne. absurd (ne refl);
    result = inr refl;
  }

  round_some :
      {t : Sbi} {g : Inode} {b : Iblkref} (k : Kept s f ext t g)
      (o : Owned g ext (off / 4096 * 4096) b) (len : ℕ)
      → 0 < len
      → (fits : off % 4096 + len ≤ 4096) → (next : ℕ)
      → ((next ≡ off + len) × (next ≤ end)) ⊎ ((end ≤ next) × (off + len ≡ end))
      → {rc : Rc} {t' : Sbi} {g' : Inode}
      → Wrote
          (filled k.file off len buf o fits)
          g
          ext
          (advance buf len)
          (cnt + len)
          end
          next
          rc
          t'
          g'
      → Wrote s f ext buf cnt end off rc t' g'
  unfolding advance
  round_some k o len pos fits next step {rc} w =
      let fill = byte_at-filled k.file off len buf o fits in
      record {
        file = w.file;
        others = Same-trans (Same-trans k.same (filled-Same k.file off len buf o fits)) w.others;
        size = w.size ∙ k.size;
        mode = w.mode ∙ k.mode;
        outside = λ x h. ground (arith, w.outside x, fill x, k.content x);
        inside = λ x ne lo hi. elim (Bool-cases (ltb x next)) [
          | inl here ↦ ground (arith, w.outside x, fill x)
          | inr there ↦ w.inside x ne (ground arith) hi ∙ ap buf (ground arith)
        ];
        result = elim w.result [ inl e ↦ inl (e ∙ ap ok (omega arith)) | inr e ↦ inr e ];
      }

-- From any file the loop ends, and has written the range or run out of space.
pub write_loop-Wrote :
    (k : ℕ) {s : Sbi} {f : Inode} {ext : Uses} (v : IsFile s f ext) (buf : ℕ → ℕ) (cnt end off : ℕ)
    → end - off < k
    → let (rc, t, g) = write_loop k s f buf cnt end off in Wrote s f ext buf cnt end off rc t g
unfolding off_to_boff off_in_page
write_loop-Wrote zero v buf cnt end off h = absurd (omega arith)
write_loop-Wrote (suc k) {s} {f} {ext} v buf cnt end off h = elim (Bool-cases (ltb off end)) [
  | inr done ↦ rw (write_loop_end k s f buf cnt end off done) (record {
    file = v;
    others = Same-refl ext s;
    size = refl;
    mode = refl;
    outside = λ x _. refl;
    inside = λ x ne lo hi. absurd (ground arith);
    result = inl (ap ok (ground arith));
  })
  | inl more ↦
      let (kept, owned) = require-Required v off in
      let lt : off < end = ground arith in
      elim (Option-cases (require_iblkref s f off).0) [
        | inl full ↦
            rw (write_loop_full k s f buf cnt end off more full)
              (round_none v buf cnt end off lt kept)
        | inr (b, some_b) ↦
            let (pos, fits, bound, step) = len_bounds off end lt in
            let o = owned b some_b in
            let n = nbytes_in_range off (next_page off) end in
            rw (write_loop_step k s f buf cnt end off more b some_b) (
              round_some v buf cnt end off lt kept o n pos fits (next_page off)
                (elim step [ inl e ↦ inl (e, omega (arith, bound)) | inr e ↦ inr e ])
                (write_loop-Wrote k (filled-IsFile kept.file off n buf o fits) (advance buf n)
                  (cnt + n) end (next_page off) (omega (arith, step, pos))))
      ]
]
