-- ===== src/Toyfs/Inodes.antt =====
-- The life of an inode: fs/toyfs/inode.c and fs/toyfs/symlink.c. The locks make each operation one
-- step.
pub mod Link
pub mod Create
pub mod Evict
mod Tests
use zufs_zus.Common.{
  ℕ, zero, suc, ◌+◌, ◌-◌, ◌*◌, ◌/◌, ◌%◌, Bool, true, false, ◌&&◌, ◌||◌, not, Option, none, some,
  List, [], ◌∷◌, ◌++◌, ltb, leb, ◌==◌, if◌then◌else◌, update, numbers, length,
}
use zufs_zus.Common.Int.{ℤ, pos, negsuc, inc, dec, is_zero}
use zufs_zus.Toyfs.Errno.{Errno, einval, enomem, enoent}
use zufs_zus.Toyfs.Pool.{Sbi, pool_pop_pmemb, acquire_pmemb, release_pmemb}
use zufs_zus.Toyfs.Blocks.{Iblkref, Inode}
use zufs_zus.Toyfs.Trunc.{truncate, is_dir, is_reg}
use zufs_zus.Toyfs.Dir.{Page, DirInode, release_dir}
use zufs_zus.Toyfs.Xattr.{XattrInode, drop_xattr}
use zufs_zus.Toyfs.Xattr.Memory.{Bytes, put_bytes, get_bytes}
use zufs_zus.Toyfs.InodePool.{
  Node, zero_node, Info, Fs, alloc_ii, tii_free, acquire_inode, release_inode,
}
use zufs_zus.Toyfs.Itable.{Itable, InodeInfo, InodeRef, i_track, i_untrack, find_inode_ref_by_ino}

-- S_ISLNK
unfoldable pub is_lnk : ℕ → Bool
is_lnk mode = mode / 4096 % 16 == 10

-- `_get_symlink`: the name of a short link in the inode, or the page of a long one.
pub data Symlink : Type 0 where
  inline_name : List ℕ → Symlink
  in_page : ℕ → Symlink

unfoldable pub get_symlink : Node → Option Symlink
unfolding is_lnk
get_symlink ti =
    if not (is_lnk ti.i_mode)
    then none
    else some (if ltb ti.i_size 32 then inline_name ti.i_symlink else in_page ti.i_sym_dpp)

unfoldable pub release_symlink : Sbi → Node → Sbi × Node
release_symlink s ti =
    let t = if ltb 32 ti.i_size then release_pmemb s ti.i_sym_dpp else s in
    (t, record ti { i_size = 0; i_sym_dpp = 0 })

-- `issupported`: a directory, regular file, symbolic link, device, pipe or socket.
unfoldable pub is_supported : ℕ → Bool
unfolding is_dir is_reg is_lnk
is_supported mode =
    let kind = mode / 4096 % 16 in
    is_dir mode || is_reg mode || is_lnk mode || kind == 2 || kind == 6 || kind == 1 || kind == 12

unfoldable pub next_ino : Fs → ℕ × Fs
next_ino s = (s.top_ino, record s { top_ino = s.top_ino + 1 })

-- What `toyfs_new_inode` is asked for: the inode `zi`, the flag ZI_TMPFILE, the inode number of the
-- directory and the bytes from `app_ptr` on.
pub record NewInode : Type 0 where
  pub zi : Node
  pub tmpfile : Bool
  pub dir_ino : ℕ
  pub app : Bytes

-- The part for each kind of inode: the inode, or none where there is no page for a symbolic link.
unfoldable pub init_node : Fs → NewInode → ℕ → Option Node × Fs
init_node s q ino =
    let ti : Node = record q.zi { i_ino = ino } in
    if is_dir q.zi.i_mode
    then (some (record ti { i_size = 0; parent = q.dir_ino; i_nlink = 1; childs = [] }), s)
    else if is_reg q.zi.i_mode
    then (some (record ti { i_nlink = if q.tmpfile then 1 else ti.i_nlink; iblkrefs = [] }), s)
    else if is_lnk q.zi.i_mode
    then (if leb 32 ti.i_size
        then (let (r, t) = acquire_pmemb s.sbi in
            elim r [
              | none ↦ (none, record s { sbi = t })
              | some p ↦ (
                some (record ti { i_sym_dpp = p }),
                record s {
                  sbi = record t {
                    mem = update t.mem p (put_bytes (t.mem p) 0 (get_bytes q.app 0 ti.i_size));
                  };
                },
              )
            ])
        else (some ti, s))
    else (some ti, s)

-- What the table of inodes keeps of an inode info.
unfoldable pub info_of : ℕ → Info → InodeInfo
info_of a i = record {
  addr = a;
  ti = elim i.ti [ none ↦ 0 | some n ↦ n ];
  ino = i.ino;
  mapped = i.mapped;
}

-- The end of `toyfs_new_inode`: the inode info `a` set up for the inode `n`, and tracked.
unfoldable pub start_inode : Fs → ℕ → ℕ → ℕ → Node → Fs
start_inode s a n ino ti =
    let i : Info = record { ti = some n; ino = ino; ref = pos 0; mapped = false } in
    let (table, tracked) = i_track s.itable (info_of a i) in
    record s {
      node = update s.node n ti;
      itable = table;
      info = update s.info a (some (record i { ref = inc i.ref; mapped = tracked.mapped }));
    }

-- From `toyfs_acquire_inode` on, with the inode info `a`.
unfoldable pub fill_inode : Fs → ℕ → NewInode → Option ℕ × Fs
unfolding next_ino release_inode tii_free
fill_inode s a q =
    let (r, t) = acquire_inode s in
    elim r [
      | none ↦ (none, tii_free t a)
      | some n ↦
          let (ino, u) = next_ino t in
          let (ti, w) = init_node u q ino in
          elim ti [
            | none ↦ (none, tii_free (release_inode w n) a)
            | some node ↦ (some a, start_inode w a n ino node)
          ]
    ]

unfoldable pub new_inode : Fs → Option ℕ → NewInode → Option ℕ × Fs
unfolding tii_free
new_inode s addr q =
    let (r, t) = alloc_ii s addr in
    elim r [
      | none ↦ (none, t)
      | some a ↦
          if not (is_supported q.zi.i_mode)
          then (none, tii_free t a)
          else if leb 4096 q.zi.i_size
          then (none, tii_free t a)
          else fill_inode t a q
    ]

-- `toyfs_drop_xattr` and `toyfs_release_inode`, at the end of `toyfs_free_inode`
unfoldable pub drop_inode : Fs → Sbi → ℕ → Node → Fs
unfolding drop_xattr release_inode
drop_inode s t n ti =
    let (u, x) = drop_xattr t (record { i_xattr = ti.i_xattr }) in
    release_inode (record s { sbi = u; node = update s.node n (record ti { i_xattr = x.i_xattr }) })
      n

unfoldable pub free_inode : Fs → ℕ → Fs
unfolding is_dir is_lnk is_reg release_dir release_symlink truncate drop_inode
free_inode s n =
    let ti = s.node n in
    if is_dir ti.i_mode
    then (if ti.i_size == 0
        then (let d : DirInode = record {
          i_size = ti.i_size;
          i_blocks = ti.i_blocks;
          i_nlink = ti.i_nlink;
          childs = ti.childs;
        } in
            let (t, e) = release_dir s.sbi d in
            drop_inode s t n (record ti { i_blocks = e.i_blocks; childs = e.childs; parent = 0 }))
        else s)
    else if is_lnk ti.i_mode
    then (let (t, tj) = release_symlink s.sbi ti in drop_inode s t n tj)
    else if is_reg ti.i_mode
    then (let f : Inode = record {
      i_mode = ti.i_mode;
      i_size = ti.i_size;
      i_blocks = ti.i_blocks;
      iblkrefs = ti.iblkrefs;
    } in
        let (_, t, g) = truncate s.sbi f 0 in
        drop_inode s t n
          (record ti { i_size = g.i_size; i_blocks = g.i_blocks; iblkrefs = g.iblkrefs }))
    else drop_inode s s.sbi n (record ti { i_rdev = 0 })

unfoldable pub chain_set : ℕ → ℕ → List InodeRef → List InodeRef
chain_set ino a [] = []
chain_set ino a (r ∷ l) =
    let rest = chain_set ino a l in if r.ino == ino then record r { tii = some a } ∷ l else r ∷ rest

-- `++tii->ref` of the inode info at `a`
unfoldable pub take_ref : Fs → ℕ → Fs
take_ref s a = elim (s.info a) [
  | none ↦ s
  | some i ↦ record s { info = update s.info a (some (record i { ref = inc i.ref })) }
]

-- The two cases of `toyfs_iget` where the table has the inode.
unfoldable pub iget_new : Fs → Option ℕ → InodeRef → Option ℕ × Fs
unfolding chain_set take_ref
iget_new s addr tir =
    let (r, t) = alloc_ii s addr in
    elim r [
      | none ↦ (none, t)
      | some a ↦
          let slot = tir.ino % 33377 in
          let u : Fs = record t {
            itable = record t.itable {
              imap = update t.itable.imap slot (chain_set tir.ino a (t.itable.imap slot));
            };
            info =
                update t.info a (some (record { ti = none; ino = 0; ref = pos 0; mapped = true }));
          } in
          (some a, take_ref u a)
    ]

unfoldable pub iget : Fs → Option ℕ → ℕ → (Option Errno) × Option ℕ × Fs
iget s addr ino = elim (find_inode_ref_by_ino s.itable ino) [
  | none ↦ (some enoent, none, s)
  | some tir ↦ elim tir.tii [
    | some a ↦ (none, some a, take_ref s a)
    | none ↦
        let (r, t) = iget_new s addr tir in
        elim r [ none ↦ (some enomem, none, t) | some a ↦ (none, some a, t) ]
  ]
]

-- the rest of `toyfs_evict` when the last reference of the inode info `a` of the inode `n` is gone
unfoldable pub evict_last : Fs → ℕ → Info → ℕ → Fs
unfolding tii_free
evict_last s a i n =
    let gone = (s.node n).i_nlink == 0 in
    let t = if gone then free_inode s n else s in
    let table = if i.mapped then (i_untrack t.itable (info_of a i) gone).0 else t.itable in
    tii_free (record t { itable = table }) a

-- An inode info that `toyfs_iget` made has no inode, and the code reads its links through NULL.
unfoldable pub evict : Fs → ℕ → Option Fs
evict s a = elim (s.info a) [
  | none ↦ none
  | some i ↦
      let j : Info = record i { ref = dec i.ref } in
      let t : Fs = record s { info = update s.info a (some j) } in
      if is_zero j.ref
      then elim i.ti [ none ↦ none | some n ↦ some (evict_last t a j n) ]
      else some t
]
