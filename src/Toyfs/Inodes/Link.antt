-- ===== src/Toyfs/Inodes/Link.antt =====
-- Symbolic links: made by `toyfs_new_inode` of fs/toyfs/inode.c, read and released by
-- fs/toyfs/symlink.c.
use zufs_zus.Common.{
  ℕ, zero, suc, ◌+◌, ◌≤◌, ◌≡◌, refl, ap, subst, ◌∙◌, ◌⊎◌, inl, inr, Bool, true, false, none, some,
  List, ◌∷◌, ltb, leb, ◌==◌, if◌then◌else◌, update, length, arith, Bool-cases, Option-cases,
}
use zufs_zus.Toyfs.Pool.{Sbi, acquire_pmemb, pool_pop_pmemb, release_pmemb, pool_push_pmemb}
use zufs_zus.Toyfs.Trunc.{is_dir, is_reg}
use zufs_zus.Toyfs.Xattr.Memory.{Bytes, put_bytes, get_bytes, get_bytes-put_bytes}
use zufs_zus.Toyfs.InodePool.{Node, Fs}
use zufs_zus.Toyfs.Inodes.{
  NewInode, Symlink, inline_name, in_page, is_lnk, init_node, get_symlink, release_symlink,
}

link-kind : (mode : ℕ) → is_lnk mode ≡ true → (is_dir mode ≡ false) × (is_reg mode ≡ false)
unfolding is_lnk is_dir is_reg
link-kind mode h = (ground arith, ground arith)

-- The name of `size` bytes that `_get_symlink` points to.
abbrev pub link_name : Sbi → Symlink → ℕ → List ℕ
link_name s (inline_name l) size = l
link_name s (in_page p) size = get_bytes (s.mem p) 0 size

-- The name that a new symbolic link is asked to have.
abbrev pub asked_name : NewInode → List ℕ
asked_name q = if ltb q.zi.i_size 32 then q.zi.i_symlink else get_bytes q.app 0 q.zi.i_size

-- The pool after a link is released that was made with the pool `s`; `lost` if its page is not back.
abbrev pub ReleasedLink : Sbi → Bool → Sbi → Type 0
ReleasedLink s false u = (u.pages ≡ s.pages) × (u.bfree ≡ s.bfree) × (u.bavail ≡ s.bavail)
ReleasedLink s true u = (length u.pages + 1 ≡ length s.pages) × (u.bfree + 1 ≡ s.bfree)

-- What `_get_symlink` and `toyfs_release_symlink` do with the link `ti`, made with the pool `s`.
abbrev pub IsLink : Sbi → NewInode → Sbi → Node → Type 0
IsLink s q t ti =
    ((x : Symlink) × (get_symlink ti ≡ some x) × (link_name t x q.zi.i_size ≡ asked_name q))
    × ReleasedLink s (q.zi.i_size == 32) (release_symlink t ti).0

length-get_bytes : (m : Bytes) (x n : ℕ) → length (get_bytes m x n) ≡ n
unfolding get_bytes
length-get_bytes m x zero = refl
length-get_bytes m x (suc n) = ground (arith, length-get_bytes m (x + 1) n)

acquired :
    (s : Sbi) (p : ℕ)
    → (acquire_pmemb s).0 ≡ some p
    → let t = (acquire_pmemb s).1 in
      (s.pages ≡ p ∷ t.pages) × (t.bfree + 1 ≡ s.bfree) × (t.bavail + 1 ≡ s.bavail)
unfolding acquire_pmemb pool_pop_pmemb
acquired s p h = (ground arith, ground arith, ground arith)

module _ (s : Fs) (q : NewInode) (ino : ℕ) (link : is_lnk q.zi.i_mode ≡ true) where
  init_short :
      leb 32 q.zi.i_size ≡ false → init_node s q ino ≡ (some (record q.zi { i_ino = ino }), s)
  unfolding init_node
  init_short short =
      let (dir, reg) = link-kind q.zi.i_mode link in rw (dir, reg, link, short, init_node) refl

  init_full :
      leb 32 q.zi.i_size ≡ true → (acquire_pmemb s.sbi).0 ≡ none → (init_node s q ino).0 ≡ none
  unfolding init_node
  init_full long full =
      let (dir, reg) = link-kind q.zi.i_mode link in
      rw (dir, reg, link, long, init_node) (rw (full, init_node) refl)

  module _ (p : ℕ) (long : leb 32 q.zi.i_size ≡ true) (got : (acquire_pmemb s.sbi).0 ≡ some p) where
    abbrev node : Node
    node = record q.zi { i_ino = ino; i_sym_dpp = p }

    abbrev pool : Sbi
    pool =
        let t = (acquire_pmemb s.sbi).1 in
        record t { mem = update t.mem p (put_bytes (t.mem p) 0 (get_bytes q.app 0 q.zi.i_size)) }

    init_long : init_node s q ino ≡ (some node, record s { sbi = pool })
    unfolding init_node
    init_long =
        let (dir, reg) = link-kind q.zi.i_mode link in
        rw (dir, reg, link, long) (rw (got, init_node) refl)

    long_name : get_bytes (pool.mem p) 0 q.zi.i_size ≡ get_bytes q.app 0 q.zi.i_size
    long_name =
        let name = get_bytes q.app 0 q.zi.i_size in
        let at_page : pool.mem p ≡ put_bytes ((acquire_pmemb s.sbi).1.mem p) 0 name =
          ground arith in
        let back = get_bytes-put_bytes ((acquire_pmemb s.sbi).1.mem p) 0 name in
        ap (λ m. get_bytes m 0 q.zi.i_size) at_page
        ∙ subst (λ n. get_bytes (put_bytes ((acquire_pmemb s.sbi).1.mem p) 0 name) 0 n ≡ name)
            (length-get_bytes q.app 0 q.zi.i_size) back

    asked : get_bytes q.app 0 q.zi.i_size ≡ asked_name q
    asked = let e : ltb q.zi.i_size 32 ≡ false = ground arith in rw e refl

    released : ReleasedLink s.sbi (q.zi.i_size == 32) (release_symlink pool node).0
    unfolding release_symlink release_pmemb pool_push_pmemb
    released =
        let (pages, bfree, bavail) = acquired s.sbi p got in
        elim (Bool-cases (q.zi.i_size == 32)) [
          | inl e ↦ rw e (ground (arith, pages, bfree), ground (arith, bfree))
          | inr e ↦ rw e (ground (arith, pages), ground (arith, bfree), ground (arith, bavail))
        ]

    long-IsLink : IsLink s.sbi q pool node
    unfolding get_symlink
    long-IsLink =
        let (pages, bfree, bavail) = acquired s.sbi p got in
        ((in_page p, rw link (ground arith), long_name ∙ asked), released)

  short-IsLink : leb 32 q.zi.i_size ≡ false → IsLink s.sbi q s.sbi (record q.zi { i_ino = ino })
  unfolding get_symlink release_symlink
  short-IsLink short =
      let e : ltb q.zi.i_size 32 ≡ true = ground arith in
      let no : (q.zi.i_size == 32) ≡ false = ground arith in
      let kept : ltb 32 q.zi.i_size ≡ false = ground arith in
      ((inline_name q.zi.i_symlink, rw (link, e) refl, rw e refl), rw (no, kept) (refl, refl, refl))

  -- A new symbolic link is refused only where its name has 32 bytes or more and the pool has no page.
  -- Else the name that is got back is the one asked for: the bytes in the inode, or the bytes at the
  -- pointer as many as its size. Making and releasing it leaves the pool's pages and counters as they
  -- were, but not for a name of 32 bytes: then a page is lost.
  pub release_symlink-init_node :
      (((init_node s q ino).0 ≡ none) × (32 ≤ q.zi.i_size) × ((acquire_pmemb s.sbi).0 ≡ none))
      ⊎ ((ti : Node) × (t : Fs) × (init_node s q ino ≡ (some ti, t)) × IsLink s.sbi q t.sbi ti)
  release_symlink-init_node = elim (Bool-cases (leb 32 q.zi.i_size)) [
    | inr short ↦
        let done = short-IsLink short in
        inr (record q.zi { i_ino = ino }, s, init_short short, done)
    | inl long ↦ elim (Option-cases (acquire_pmemb s.sbi).0) [
      | inl full ↦ inl (init_full long full, ground arith, full)
      | inr (p, got) ↦
          let done = long-IsLink p long got in
          inr (node p long got, record s { sbi = pool p long got }, init_long p long got, done)
    ]
  ]
