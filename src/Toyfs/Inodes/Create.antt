-- ===== src/Toyfs/Inodes/Create.antt =====
-- A new inode: `toyfs_new_inode` of fs/toyfs/inode.c with the counters of free inodes, the table of
-- inodes in use and the inode's number.
use zufs_zus.Common.{
  ℕ, ◌+◌, ◌≡◌, refl, sym, ap, subst, ◌∙◌, ◌⊎◌, inl, inr, true, false, ◌||◌, Option, none, some, leb,
  ◌==◌, if◌then◌else◌, arith, Bool-cases, Option-cases,
}
use zufs_zus.Common.Int.{pos}
use zufs_zus.Toyfs.Itable.{find_inode_ref_by_ino, i_track}
use zufs_zus.Toyfs.Itable.Lookup.{IsItable, i_track_lem}
use zufs_zus.Toyfs.InodePool.{
  Node, Fs, alloc_ii, tii_free, pool_add_free_inodes, pool_pop_free_inode, acquire_inode,
  release_inode,
}
use zufs_zus.Toyfs.Inodes.{
  NewInode, is_supported, next_ino, init_node, info_of, start_inode, fill_inode, new_inode,
}

-- What the pools of pages and of inodes leave alone.
record Same (s t : Fs) : Type 0 where
  pub ffree_same : t.ffree ≡ s.ffree
  pub favail_same : t.favail ≡ s.favail
  pub itable_same : t.itable ≡ s.itable
  pub top_same : t.top_ino ≡ s.top_ino

pop-Same : (s : Fs) → Same s (pool_pop_free_inode s).1
unfolding pool_pop_free_inode
pop-Same s = record {
  ffree_same = ground arith;
  favail_same = ground arith;
  itable_same = ground arith;
  top_same = ground arith;
}

grow-Same : (s : Fs) → Same s (pool_add_free_inodes s).1
unfolding pool_add_free_inodes
grow-Same s = record {
  ffree_same = ground arith;
  favail_same = ground arith;
  itable_same = ground arith;
  top_same = ground arith;
}

Same-trans : {s t u : Fs} → Same s t → Same t u → Same s u
Same-trans h k = record {
  ffree_same = k.ffree_same ∙ h.ffree_same;
  favail_same = k.favail_same ∙ h.favail_same;
  itable_same = k.itable_same ∙ h.itable_same;
  top_same = k.top_same ∙ h.top_same;
}

acquire_inode-Same : (s : Fs) → Same s (acquire_inode s).1
unfolding acquire_inode
acquire_inode-Same s = elim (Option-cases (pool_pop_free_inode s).0) [
  | inr (n, got) ↦ subst (λ t. Same s t) (sym (popped n got)) (pop-Same s)
  | inl empty ↦ elim (Bool-cases (pool_add_free_inodes (pool_pop_free_inode s).1).0) [
    | inl grew ↦
        subst (λ t. Same s t) (sym (again empty grew))
          (Same-trans (pop-Same s) (
            Same-trans (grow-Same (pool_pop_free_inode s).1)
              (pop-Same (pool_add_free_inodes (pool_pop_free_inode s).1).1)))
    | inr full ↦
        subst (λ t. Same s t) (sym (refused empty full))
          (Same-trans (pop-Same s) (grow-Same (pool_pop_free_inode s).1))
  ]
]
  where
    popped :
        (n : ℕ)
        → (pool_pop_free_inode s).0 ≡ some n
        → (acquire_inode s).1 ≡ (pool_pop_free_inode s).1
    popped n got = rw (got, acquire_inode) refl

    again :
        (pool_pop_free_inode s).0 ≡ none
        → (pool_add_free_inodes (pool_pop_free_inode s).1).0 ≡ true
        → (acquire_inode s).1
          ≡ (pool_pop_free_inode (pool_add_free_inodes (pool_pop_free_inode s).1).1).1
    again empty grew = rw (empty, grew, acquire_inode) refl

    refused :
        (pool_pop_free_inode s).0 ≡ none
        → (pool_add_free_inodes (pool_pop_free_inode s).1).0 ≡ false
        → (acquire_inode s).1 ≡ (pool_add_free_inodes (pool_pop_free_inode s).1).1
    refused empty full = rw (empty, full, acquire_inode) refl

init_node-Same : (s : Fs) (q : NewInode) (ino : ℕ) → Same s (init_node s q ino).1
unfolding init_node
init_node-Same s q ino = record {
  ffree_same = ground arith;
  favail_same = ground arith;
  itable_same = ground arith;
  top_same = ground arith;
}

-- No inode was made: the counters and the table are as they were.
pub record IsRefused (s t : Fs) : Type 0 where
  pub ffree_kept : t.ffree ≡ s.ffree
  pub favail_kept : t.favail ≡ s.favail
  pub itable_kept : t.itable ≡ s.itable

-- The inode info at `a` is new, in use once, tracked, and has the inode `n` with the next number.
pub record IsCreated (s t : Fs) (a : ℕ) : Type 0 where
  pub n : ℕ
  pub number : (t.node n).i_ino ≡ s.top_ino
  pub info_new :
      t.info a ≡ some (record { ti = some n; ino = s.top_ino; ref = pos 1; mapped = true })
  pub top : t.top_ino ≡ s.top_ino + 1
  pub ffree_less : t.ffree + 1 ≡ s.ffree
  pub favail_less : t.favail + 1 ≡ s.favail
  pub table : IsItable t.itable
  pub count : t.itable.icount ≡ s.itable.icount + 1
  pub found :
      (x : ℕ)
      → find_inode_ref_by_ino t.itable x ≡ (
          if x == s.top_ino
          then some (record { tii = some a; ti = n; ino = s.top_ino })
          else find_inode_ref_by_ino s.itable x)

abbrev pub Outcome : Fs → (Option ℕ) × Fs → Type 0
Outcome s (none, t) = IsRefused s t
Outcome s (some a, t) = IsCreated s t a

-- `alloc_ii` where it succeeds.
record IsTaken (s t : Fs) : Type 0 where
  pub ffree_taken : t.ffree + 1 ≡ s.ffree
  pub favail_taken : t.favail + 1 ≡ s.favail
  pub itable_taken : t.itable ≡ s.itable
  pub top_taken : t.top_ino ≡ s.top_ino

taken :
    (s : Fs) (a : ℕ) → (s.ffree == 0 || s.favail == 0) ≡ false → IsTaken s (alloc_ii s (some a)).1
unfolding alloc_ii
taken s a h = record {
  ffree_taken = ground arith;
  favail_taken = ground arith;
  itable_taken = ground arith;
  top_taken = ground arith;
}

alloc-cases :
    (s : Fs) (addr : Option ℕ)
    → (((alloc_ii s addr).0 ≡ none) × ((alloc_ii s addr).1 ≡ s))
      ⊎ ((a : ℕ) × ((alloc_ii s addr).0 ≡ some a) × IsTaken s (alloc_ii s addr).1)
unfolding alloc_ii
alloc-cases s none = inl (ground arith, ground arith)
alloc-cases s (some a) = elim (Bool-cases (s.ffree == 0 || s.favail == 0)) [
  | inl full ↦ inl (rw full refl, rw full refl)
  | inr free ↦ inr (a, rw free refl, taken s a free)
]

freed :
    (s t u : Fs) (a : ℕ)
    → IsTaken s t
    → u.ffree ≡ t.ffree
    → u.favail ≡ t.favail
    → u.itable ≡ t.itable
    → IsRefused s (tii_free u a)
unfolding tii_free
freed s t u a h f v i = record {
  ffree_kept = ap (λ x. x + 1) f ∙ h.ffree_taken;
  favail_kept = ap (λ x. x + 1) v ∙ h.favail_taken;
  itable_kept = i ∙ h.itable_taken;
}

init_node-ino :
    (s : Fs) (q : NewInode) (ino : ℕ) (ti : Node) → (init_node s q ino).0 ≡ some ti → ti.i_ino ≡ ino
unfolding init_node
init_node-ino s q ino ti h = ground arith

start-info :
    (w : Fs) (a n ino : ℕ) (ti : Node)
    → (start_inode w a n ino ti).info a
      ≡ some (record { ti = some n; ino = ino; ref = pos 1; mapped = true })
unfolding start_inode info_of i_track
start-info w a n ino ti = ground arith

start-IsCreated :
    (s t w : Fs) (a n : ℕ) (ti : Node)
    → IsTaken s t
    → IsItable s.itable
    → find_inode_ref_by_ino s.itable s.top_ino ≡ none
    → w.ffree ≡ t.ffree
    → w.favail ≡ t.favail
    → w.itable ≡ t.itable
    → w.top_ino ≡ s.top_ino + 1
    → ti.i_ino ≡ s.top_ino
    → IsCreated s (start_inode w a n s.top_ino ti) a
unfolding start_inode info_of find_inode_ref_by_ino
start-IsCreated s t w a n ti h v new f va i top ino =
    let table_eq : w.itable ≡ s.itable = i ∙ h.itable_taken in
    let (table, count, j, found) =
      i_track_lem s.itable (record { addr = a; ti = n; ino = s.top_ino; mapped = false }) v new in
    record {
      n = n;
      number = ground arith;
      info_new = start-info w a n s.top_ino ti;
      top = top;
      ffree_less = ap (λ x. x + 1) f ∙ h.ffree_taken;
      favail_less = ap (λ x. x + 1) va ∙ h.favail_taken;
      table = rw table_eq table;
      count = rw table_eq count;
      found = rw table_eq found;
    }

-- `fill_inode` after it has acquired the inode `n`
abbrev numbered : Fs → Fs
numbered t = record (acquire_inode t).1 { top_ino = (acquire_inode t).1.top_ino + 1 }

fill_inode_lem :
    (s t : Fs) (a : ℕ) (q : NewInode)
    → IsTaken s t
    → IsItable s.itable
    → find_inode_ref_by_ino s.itable s.top_ino ≡ none
    → Outcome s (fill_inode t a q)
unfolding fill_inode next_ino release_inode
fill_inode_lem s t a q h v new = elim (Option-cases (acquire_inode t).0) [
  | inl empty ↦
      subst (λ r. Outcome s r) (sym (no_inode empty))
        (freed s t (acquire_inode t).1 a h k.ffree_same k.favail_same k.itable_same)
  | inr (n, got) ↦ elim (Option-cases (init_node u q ino).0) [
    | inl full ↦
        subst (λ r. Outcome s r) (sym (no_page n got full))
          (freed s t (release_inode w n) a h (m.ffree_same ∙ k.ffree_same)
            (m.favail_same ∙ k.favail_same) (m.itable_same ∙ k.itable_same))
    | inr (ti, done) ↦
        subst (λ r. Outcome s r) (sym (made n ti got done))
          (start-IsCreated s t w a n ti h v new (m.ffree_same ∙ k.ffree_same)
            (m.favail_same ∙ k.favail_same) (m.itable_same ∙ k.itable_same)
            (m.top_same ∙ ap (λ x. x + 1) next) (init_node-ino u q ino ti done ∙ next))
  ]
]
  where
    k : Same t (acquire_inode t).1
    k = acquire_inode-Same t

    u : Fs
    u = numbered t

    ino : ℕ
    ino = (acquire_inode t).1.top_ino

    w : Fs
    w = (init_node u q ino).1

    m : Same u w
    m = init_node-Same u q ino

    next : ino ≡ s.top_ino
    next = k.top_same ∙ h.top_taken

    no_inode :
        (acquire_inode t).0 ≡ none → fill_inode t a q ≡ (none, tii_free (acquire_inode t).1 a)
    no_inode empty = rw (empty, fill_inode) refl

    no_page :
        (n : ℕ)
        → (acquire_inode t).0 ≡ some n
        → (init_node u q ino).0 ≡ none
        → fill_inode t a q ≡ (none, tii_free (release_inode w n) a)
    no_page n got full = rw (got, full, fill_inode) refl

    made :
        (n : ℕ) (ti : Node)
        → (acquire_inode t).0 ≡ some n
        → (init_node u q ino).0 ≡ some ti
        → fill_inode t a q ≡ (some a, start_inode w a n s.top_ino ti)
    made n ti got done =
        let opened : fill_inode t a q ≡ (some a, start_inode w a n ino ti) =
          rw (got, done, fill_inode) refl in
        opened ∙ ap (λ x. (some a, start_inode w a n x ti)) next

-- If the table of inodes in use is well formed and the next inode number is not in it, a new inode
-- is either refused, and then the counters of free inodes and the table are as they were, whichever
-- step refuses it (no free inode, no memory, an unsupported kind, a size of a page or more, no
-- page); or it has the next number and the inode info that was allocated, in use once; it is
-- found in the table under its number and no other number changes, the next number is one more
-- and the counters are one less.
pub new_inode_lem :
    (s : Fs) (addr : Option ℕ) (q : NewInode)
    → IsItable s.itable
    → find_inode_ref_by_ino s.itable s.top_ino ≡ none
    → Outcome s (new_inode s addr q)
unfolding new_inode
new_inode_lem s addr q v new = elim (alloc-cases s addr) [
  | inl refused ↦ subst (λ r. Outcome s r) (sym (none_left refused)) unchanged
  | inr (a, got, h) ↦ elim (Bool-cases (is_supported q.zi.i_mode)) [
    | inr other ↦
        subst (λ r. Outcome s r) (sym (unsupported a got other)) (freed s t t a h refl refl refl)
    | inl known ↦ elim (Bool-cases (leb 4096 q.zi.i_size)) [
      | inl long ↦
          subst (λ r. Outcome s r) (sym (too_long a got known long))
            (freed s t t a h refl refl refl)
      | inr short ↦
          subst (λ r. Outcome s r) (sym (filled a got known short)) (fill_inode_lem s t a q h v new)
    ]
  ]
]
  where
    t : Fs
    t = (alloc_ii s addr).1

    unchanged : IsRefused s s
    unchanged = record { ffree_kept = refl; favail_kept = refl; itable_kept = refl }

    none_left :
        ((alloc_ii s addr).0 ≡ none) × ((alloc_ii s addr).1 ≡ s) → new_inode s addr q ≡ (none, s)
    none_left refused = rw (refused.0, new_inode) (ap (λ t. (none, t)) refused.1)

    unsupported :
        (a : ℕ)
        → (alloc_ii s addr).0 ≡ some a
        → is_supported q.zi.i_mode ≡ false
        → new_inode s addr q ≡ (none, tii_free t a)
    unsupported a got other = rw (got, other, new_inode) refl

    too_long :
        (a : ℕ)
        → (alloc_ii s addr).0 ≡ some a
        → is_supported q.zi.i_mode ≡ true
        → leb 4096 q.zi.i_size ≡ true
        → new_inode s addr q ≡ (none, tii_free t a)
    too_long a got known long = rw (got, known, long, new_inode) refl

    filled :
        (a : ℕ)
        → (alloc_ii s addr).0 ≡ some a
        → is_supported q.zi.i_mode ≡ true
        → leb 4096 q.zi.i_size ≡ false
        → new_inode s addr q ≡ fill_inode t a q
    filled a got known short = rw (got, known, short, new_inode) refl
