-- ===== src/Toyfs/Trunc/Drop.antt =====
-- What dropping pages does to a file: `_drop_iblkref` and `_drop_range` of fs/toyfs/file.c.
use zufs_zus.Common.{
  ℕ, ◌+◌, ◌*◌, ◌/◌, ◌≡◌, ◌≢◌, refl, ◌∙◌, inl, inr, Bool, true, false, ◌&&◌, ◌||◌, none, some, List,
  [], ◌∷◌, leb, ◌==◌, if◌then◌else◌, arith, Bool-cases,
}
use zufs_zus.Toyfs.Pool.{Sbi}
use zufs_zus.Toyfs.Pool.Inv.{Uses, Same-refl, Same-trans}
use zufs_zus.Toyfs.Blocks.{Iblkref, Inode, fetch}
use zufs_zus.Toyfs.Blocks.Chain.{IsSortedFrom, fetch-none}
use zufs_zus.Toyfs.Blocks.Content.{IsFile}
use zufs_zus.Toyfs.Trunc.{drop_iblkref, drop_loop}
use zufs_zus.Toyfs.Trunc.Dropped.{Dropped, drop_iblkref-Dropped}

-- the offsets in `l` from `pos` on
abbrev pub past : ℕ → List Iblkref → ℕ → Bool
past pos l y = leb pos y && elim (fetch y l) [ none ↦ false | some b ↦ true ]

-- The entries that the iterator has still to visit are the file's.
abbrev Pending : Inode → List Iblkref → Type 0
Pending f l = (b : Iblkref) → fetch b.off l ≡ some b → fetch b.off f.iblkrefs ≡ some b

module _ (b : Iblkref) (l : List Iblkref) (lo : ℕ) (sorted : IsSortedFrom lo (b ∷ l)) where
  fetch-head : fetch b.off (b ∷ l) ≡ some b
  unfolding fetch
  fetch-head = ground arith

  fetch-tail : (y : ℕ) → fetch y (b ∷ l) ≡ (if b.off == y then some b else fetch y l)
  unfolding fetch
  fetch-tail y = refl

  fetch-after : (c : Iblkref) → fetch c.off l ≡ some c → b.off ≢ c.off
  fetch-after c h e = ground (arith, fetch-none c.off (b.off + 1) l sorted.1)

  fetch_later : (c : Iblkref) → fetch c.off l ≡ some c → fetch c.off (b ∷ l) ≡ some c
  fetch_later c h = ground (arith, fetch-tail c.off, fetch-after c h)

  module _ (pos y : ℕ) where
    past_keep : leb pos b.off ≡ false → past pos l y ≡ past pos (b ∷ l) y
    past_keep h = ground (arith, fetch-tail y, fetch-none y (b.off + 1) l sorted.1)

    past_drop : leb pos b.off ≡ true → (y == b.off) || past pos l y ≡ past pos (b ∷ l) y
    past_drop h = ground (arith, fetch-tail y, fetch-none y (b.off + 1) l sorted.1)

past_nil : (pos y : ℕ) → past pos [] y ≡ false
unfolding fetch
past_nil pos y = ground arith

drop_loop_nil : (pos : ℕ) (s : Sbi) (f : Inode) → drop_loop pos [] s f ≡ (s, f)
unfolding drop_loop
drop_loop_nil pos s f = refl

Dropped-none :
    {s : Sbi} {f : Inode} {ext : Uses} (gone : ℕ → Bool)
    → IsFile s f ext
    → ((y : ℕ) → gone y ≡ false)
    → Dropped s f ext gone s f
Dropped-none {s} {f} {ext} gone v h = record {
  file = v;
  same = Same-refl ext s;
  size = refl;
  mode = refl;
  fetched = λ y. rw (h y);
  content = λ x. rw (h (x / 4096 * 4096));
}

Dropped-congr :
    {s t : Sbi} {f g : Inode} {ext : Uses} {gone : ℕ → Bool} (gone' : ℕ → Bool)
    → ((y : ℕ) → gone y ≡ gone' y)
    → Dropped s f ext gone t g
    → Dropped s f ext gone' t g
Dropped-congr gone' h q = record {
  file = q.file;
  same = q.same;
  size = q.size;
  mode = q.mode;
  fetched = λ y. ground (arith, q.fetched y, h y);
  content = λ x. ground (arith, q.content x, h (x / 4096 * 4096));
}

Dropped-trans :
    {s t v : Sbi} {f g h : Inode} {ext : Uses} {gone gone' : ℕ → Bool}
    → Dropped s f ext gone t g
    → Dropped t g ext gone' v h
    → Dropped s f ext (λ y. gone y || gone' y) v h
Dropped-trans p q = record {
  file = q.file;
  same = Same-trans p.same q.same;
  size = q.size ∙ p.size;
  mode = q.mode ∙ p.mode;
  fetched = λ y. ground (arith, q.fetched y, p.fetched y);
  content = λ x. ground (arith, q.content x, p.content x);
}

drop_loop_step :
    (pos : ℕ) (b : Iblkref) (l : List Iblkref) (s : Sbi) (f : Inode)
    → drop_loop pos (b ∷ l) s f ≡ (
        if leb pos b.off
        then drop_loop pos l (drop_iblkref s f b).0 (drop_iblkref s f b).1
        else drop_loop pos l s f)
unfolding drop_loop
drop_loop_step pos b l s f = ground arith

drop_loop-Dropped :
    (pos : ℕ) (l : List Iblkref) {s : Sbi} {f : Inode} {ext : Uses} (lo : ℕ)
    → IsFile s f ext
    → IsSortedFrom lo l
    → Pending f l
    → let (t, g) = drop_loop pos l s f in Dropped s f ext (past pos l) t g
drop_loop-Dropped pos [] lo v sorted pending =
    rw drop_loop_nil (Dropped-none (past pos []) v (λ y. past_nil pos y))
drop_loop-Dropped pos (b ∷ l) {s} {f} lo v sorted pending = elim (Bool-cases (leb pos b.off)) [
  | inr keep ↦
      rw (drop_loop_step pos b l s f, keep)
        (Dropped-congr (past pos (b ∷ l)) (λ y. past_keep b l lo sorted pos y keep)
          (drop_loop-Dropped pos l (b.off + 1) v sorted.1
            (λ c h. pending c (fetch_later b l lo sorted c h))))
  | inl drop ↦
      let hit = pending b (fetch-head b l lo sorted) in
      let d = drop_iblkref-Dropped v hit in
      rw (drop_loop_step pos b l s f, drop)
        (Dropped-congr (past pos (b ∷ l)) (λ y. past_drop b l lo sorted pos y drop)
          (Dropped-trans d (
            drop_loop-Dropped pos l (b.off + 1) d.file sorted.1 (λ c h. ground (
              arith,
              d.fetched c.off,
              pending c (fetch_later b l lo sorted c h),
              fetch-after b l lo sorted c h,
            )))))
]

pub drop_loop-all-Dropped :
    (pos : ℕ) {s : Sbi} {f : Inode} {ext : Uses}
    → IsFile s f ext
    → let (t, g) = drop_loop pos f.iblkrefs s f in Dropped s f ext (past pos f.iblkrefs) t g
drop_loop-all-Dropped pos {s} {f} v = drop_loop-Dropped pos f.iblkrefs 0 v v.sorted (λ b h. h)
