-- ===== src/Toyfs/Trunc/Clear.antt =====
-- What `_drop_range` and the clearing of the last page of fs/toyfs/file.c do to a file.
use zufs_zus.Common.{
  ◌||◌, ℕ, ◌+◌, ◌-◌, ◌*◌, ◌/◌, ◌%◌, ◌≤◌, ◌≡◌, refl, sym, subst, ◌∙◌, ◌⊎◌, inl, inr, Bool, true,
  false, ◌&&◌, Option, none, some, ltb, leb, ◌==◌, if◌then◌else◌, arith, Bool-cases, Option-cases,
}
use zufs_zus.Toyfs.Errno.{Errno, enospc}
use zufs_zus.Toyfs.Pool.{Sbi, page_size}
use zufs_zus.Toyfs.Pool.Inv.{Uses, Same, Same-trans}
use zufs_zus.Toyfs.Blocks.{
  Iblkref, Inode, fetch, fetch_iblkref, off_to_boff, off_in_page, assign_zeros, unique_pmemb,
}
use zufs_zus.Toyfs.Blocks.Chain.{off-fetch}
use zufs_zus.Toyfs.Blocks.Content.{IsFile, byte_at, byte_at-none}
use zufs_zus.Toyfs.Blocks.Kept.{Kept, Owned, Kept-refl}
use zufs_zus.Toyfs.Io.{next_page}
use zufs_zus.Toyfs.Io.Page.{filled-IsFile, filled-Same, byte_at-filled}
use zufs_zus.Toyfs.Trunc.{drop_range, zero_after}
use zufs_zus.Toyfs.Trunc.Drop.{past, drop_loop-all-Dropped}
use zufs_zus.Toyfs.Trunc.Unique.{unique_pmemb-Uniqued}

-- After an operation that leaves the bytes for which `zero` holds zero, and all others alone.
pub record Cleared (s : Sbi) (f : Inode) (ext : Uses) (zero : ℕ → Bool) (t : Sbi) (g : Inode)
    : Type 0 where
  pub file : IsFile t g ext
  pub same : Same ext s t
  pub size : g.i_size ≡ f.i_size
  pub mode : g.i_mode ≡ f.i_mode
  pub content : (x : ℕ) → byte_at t g.iblkrefs x ≡ (if zero x then 0 else byte_at s f.iblkrefs x)

pub Kept-Cleared :
    {s t : Sbi} {f g : Inode} {ext : Uses} → Kept s f ext t g → Cleared s f ext (λ x. false) t g
Kept-Cleared k = record {
  file = k.file;
  same = k.same;
  size = k.size;
  mode = k.mode;
  content = k.content;
}

pub Cleared-congr :
    {s t : Sbi} {f g : Inode} {ext : Uses} {zero : ℕ → Bool} (zero' : ℕ → Bool)
    → ((x : ℕ) → (zero x ≡ zero' x) ⊎ (byte_at s f.iblkrefs x ≡ 0))
    → Cleared s f ext zero t g
    → Cleared s f ext zero' t g
Cleared-congr zero' h q = record {
  file = q.file;
  same = q.same;
  size = q.size;
  mode = q.mode;
  content = λ x. ground (arith, q.content x, h x);
}

pub Cleared-trans :
    {s t v : Sbi} {f g h : Inode} {ext : Uses} {zero zero' : ℕ → Bool}
    → Cleared s f ext zero t g
    → Cleared t g ext zero' v h
    → Cleared s f ext (λ x. zero x || zero' x) v h
Cleared-trans p q = record {
  file = q.file;
  same = Same-trans p.same q.same;
  size = q.size ∙ p.size;
  mode = q.mode ∙ p.mode;
  content = λ x. ground (arith, q.content x, p.content x);
}

-- A part of a page that is the file's own, set to zero.
pub zeroed-Cleared :
    {s : Sbi} {f : Inode} {ext : Uses} (v : IsFile s f ext) (off len : ℕ) {b : Iblkref}
    → Owned f ext (off / 4096 * 4096) b
    → off % 4096 + len ≤ 4096
    → Cleared s f ext
        (λ x. leb off x && ltb x (off + len))
        (assign_zeros s (s.dblk b.dblkref).bn (off % 4096) len)
        f
unfolding assign_zeros
zeroed-Cleared v off len o fits = record {
  file = filled-IsFile v off len (λ i. 0) o fits;
  same = filled-Same v off len (λ i. 0) o fits;
  size = refl;
  mode = refl;
  content = byte_at-filled v off len (λ i. 0) o fits;
}

module _ {s : Sbi} {f : Inode} {ext : Uses} (v : IsFile s f ext) (pos : ℕ) where
  past_cleared :
      (from x : ℕ)
      → leb from (x / 4096 * 4096) ≡ leb pos (x / 4096 * 4096)
      → (past from f.iblkrefs (x / 4096 * 4096) ≡ leb pos (x / 4096 * 4096))
        ⊎ (byte_at s f.iblkrefs x ≡ 0)
  past_cleared from x e = elim (Option-cases (fetch (x / 4096 * 4096) f.iblkrefs)) [
    | inl miss ↦ inr (byte_at-none s f.iblkrefs x miss)
    | inr (b, hit) ↦ inl (ground (arith, hit, e))
  ]

  round :
      (x : ℕ)
      → leb (if pos % 4096 == 0 then pos else (pos + 4096) / 4096 * 4096) (x / 4096 * 4096)
        ≡ leb pos (x / 4096 * 4096)
  round x = ground arith

  pub drop_range-Cleared :
      let (t, g) = drop_range s f pos in Cleared s f ext (λ x. leb pos (x / 4096 * 4096)) t g
  unfolding drop_range next_page
  drop_range-Cleared =
      let from = if pos % page_size == 0 then pos else (pos + page_size) / page_size * page_size in
      let d = drop_loop-all-Dropped from v in
      Cleared-congr (λ x. leb pos (x / 4096 * 4096)) (λ x. past_cleared from x (round x))
        (record { file = d.file; same = d.same; size = d.size; mode = d.mode; content = d.content })

-- the bytes of the page that holds `pos`, from there on
abbrev pub tail : ℕ → ℕ → Bool
tail pos x = leb pos x && ltb (x / 4096 * 4096) pos

module _ (s : Sbi) (f : Inode) (pos : ℕ) where
  zero_after_aligned : (pos % 4096 == 0) ≡ true → zero_after s f pos ≡ (none, s, f)
  unfolding zero_after
  zero_after_aligned h = ground arith

  zero_after_hole :
      (pos % 4096 == 0) ≡ false
      → fetch (pos / 4096 * 4096) f.iblkrefs ≡ none
      → zero_after s f pos ≡ (none, s, f)
  unfolding zero_after fetch_iblkref off_to_boff
  zero_after_hole h e = ground arith

  module _ (b : Iblkref) (h : (pos % 4096 == 0) ≡ false)
      (hit : fetch (pos / 4096 * 4096) f.iblkrefs ≡ some b) where
    zero_after_full :
        (unique_pmemb s f b).0 ≡ none
        → zero_after s f pos ≡ (some enospc, (unique_pmemb s f b).1, (unique_pmemb s f b).2)
    unfolding zero_after fetch_iblkref off_to_boff
    zero_after_full e = ground arith

    zero_after_page :
        (p : ℕ)
        → (unique_pmemb s f b).0 ≡ some p
        → zero_after s f pos ≡ (
          none,
          assign_zeros (unique_pmemb s f b).1 p (pos % 4096) (4096 - pos % 4096),
          (unique_pmemb s f b).2,
        )
    unfolding zero_after fetch_iblkref off_to_boff off_in_page
    zero_after_page p e = ground arith

-- Either the bytes for which `zero` holds are zero now, or there was no space and none changed.
abbrev pub Ended : Sbi → Inode → Uses → (ℕ → Bool) → Option Errno × Sbi × Inode → Type 0
Ended s f ext zero (r, t, g) =
    ((r ≡ none) × Cleared s f ext zero t g) ⊎ ((r ≡ some enospc) × Cleared s f ext (λ x. false) t g)

module _ {s : Sbi} {f : Inode} {ext : Uses} (v : IsFile s f ext) (pos : ℕ) where
  zero_after-page-Ended :
      (b : Iblkref)
      → (pos % 4096 == 0) ≡ false
      → fetch (pos / 4096 * 4096) f.iblkrefs ≡ some b
      → Ended s f ext (tail pos) (zero_after s f pos)
  zero_after-page-Ended b h hit =
      let at = off-fetch (pos / 4096 * 4096) f.iblkrefs b hit in
      let (k, own) =
        unique_pmemb-Uniqued v b (subst (λ z. fetch z f.iblkrefs ≡ some b) (sym at) hit) in
      elim (Option-cases (unique_pmemb s f b).0) [
        | inl full ↦ rw (zero_after_full s f pos b h hit full) (inr (refl, Kept-Cleared k))
        | inr (p, got) ↦
            let (c, o, page) = own p got in
            let o' = subst (λ z. Owned (unique_pmemb s f b).2 ext z c) at o in
            rw (zero_after_page s f pos b h hit p got, page)
              (inl (
                refl,
                Cleared-congr (tail pos) (λ x. inl (ground arith))
                    (Cleared-trans (Kept-Cleared k)
                      (zeroed-Cleared k.file pos (4096 - pos % 4096) o' (omega arith))),
              ))
      ]

  pub zero_after-Ended : Ended s f ext (tail pos) (zero_after s f pos)
  zero_after-Ended = elim (Bool-cases (pos % 4096 == 0)) [
    | inl h ↦ rw (zero_after_aligned s f pos h) (
        inl
          (refl, Cleared-congr (tail pos) (λ x. inl (ground arith)) (Kept-Cleared (Kept-refl v 0))))
    | inr h ↦ elim (Option-cases (fetch (pos / 4096 * 4096) f.iblkrefs)) [
      | inr (b, hit) ↦ zero_after-page-Ended b h hit
      | inl hole ↦ rw (zero_after_hole s f pos h hole) (
          inl (refl, Cleared-congr (tail pos) (λ x. no_page x hole) (Kept-Cleared (Kept-refl v 0))))
    ]
  ]
    where
      no_page :
          (x : ℕ)
          → fetch (pos / 4096 * 4096) f.iblkrefs ≡ none
          → (false ≡ tail pos x) ⊎ (byte_at s f.iblkrefs x ≡ 0)
      no_page x hole = ground (arith, byte_at-none s f.iblkrefs x)
