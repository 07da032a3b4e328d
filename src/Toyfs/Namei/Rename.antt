-- ===== src/Toyfs/Namei/Rename.antt =====
-- `toyfs_rename` of fs/toyfs/namei.c on the entries of two directories.
use zufs_zus.Common.{
  ℕ, ◌+◌, ◌-◌, if◌then◌else◌, ◌≤◌, ◌<◌, ◌≡◌, ◌≢◌, refl, sym, subst, ap, ◌∙◌, ◌⊎◌, inl, inr, Option,
  none, some, List, length, update, arith, Bool-cases,
}
use zufs_zus.Toyfs.Errno.{enoent, enospc}
use zufs_zus.Toyfs.Trunc.{is_dir}
use zufs_zus.Toyfs.Pool.{Sbi}
use zufs_zus.Toyfs.Dir.{
  Dirent, DirInode, Child, lookup_dirent, on_page, reset_dirent, std_remove_dentry, add_dentry,
  le32_add,
}
use zufs_zus.Toyfs.Dir.Slots.{Item}
use zufs_zus.Toyfs.Dir.Names.{all_entries, Holds, find_entry, Located, lookup_dirent_lem}
use zufs_zus.Toyfs.Dir.Remove.{Without, reset-Holds, place_name}
use zufs_zus.Toyfs.Dir.Entry.{add_dentry_lem}
use zufs_zus.Toyfs.Namei.{Result, remove_dirent, unlink_old, rename_found, do_rename}

-- The directory and the inode after the removal of a named entry.
abbrev removed : DirInode → Child → ℕ → ℕ → Dirent → DirInode × Child
removed dir c n at d =
    std_remove_dentry
      (record dir { i_size = dir.i_size - 4096; childs = on_page n (reset_dirent at d) dir.childs })
      c

childs-removed :
    (dir : DirInode) (c : Child) (n at : ℕ) (d : Dirent)
    → (removed dir c n at d).0.childs ≡ on_page n (reset_dirent at d) dir.childs
unfolding std_remove_dentry
childs-removed dir c n at d = elim (Bool-cases (is_dir c.i_mode)) [
  | inl e ↦ rw e refl
  | inr e ↦ rw e refl
]

remove_named :
    (dir : DirInode) (c : Child) (n at : ℕ) (d : Dirent)
    → 0 < length d.d_name
    → remove_dirent dir c n at d ≡ some (removed dir c n at d)
unfolding remove_dirent
remove_named dir c n at d h = ground arith

unlink_named :
    (s : Sbi) (dirs : ℕ → DirInode) (old : ℕ) (c : Child) (n at : ℕ) (d : Dirent)
    → 0 < length d.d_name
    → let (dir, c') = removed (dirs old) c n at d in
      unlink_old s dirs old c (n, at, d)
      ≡ some (
        none,
        s,
        update dirs old dir,
        if is_dir c'.i_mode then record c' { i_nlink = le32_add c'.i_nlink 1 } else c',
      )
unfolding unlink_old
unlink_named s dirs old c n at d h = rw (remove_named (dirs old) c n at d h, unlink_old) refl

-- The entry `d` is gone from the directory `old`, and no other directory changes.
abbrev pub Unlinks : (ℕ → DirInode) → ℕ → List (List Item) → Dirent → (ℕ → DirInode) → Type 0
Unlinks dirs old its d dirs' =
    ((its' : List (List Item)) × Holds (dirs' old).childs its'
      × Without (all_entries its) d (all_entries its'))
    × ((x : ℕ) → x ≢ old → dirs' x ≡ dirs x)

unlink_old-Unlinks :
    (s : Sbi) (dirs : ℕ → DirInode) (old : ℕ) (c : Child) (its : List (List Item)) (n at : ℕ)
    (d : Dirent)
    → Holds (dirs old).childs its
    → Located its n at d
    → (dirs' : ℕ → DirInode) × (c' : Child) × (unlink_old s dirs old c (n, at, d)
        ≡ some (none, s, dirs', c'))
      × Unlinks dirs old its d dirs'
unlink_old-Unlinks s dirs old c its n at d h place =
    let (its', holds, without) = reset-Holds (dirs old).childs its n at d h place in
    let (dir, c') = removed (dirs old) c n at d in
    (
      update dirs old dir,
      if is_dir c'.i_mode then record c' { i_nlink = le32_add c'.i_nlink 1 } else c',
      unlink_named s dirs old c n at d (place_name (dirs old).childs its n at d h place),
      (
        (
          its',
          subst (λ z. Holds z its')
              (sym (ap (λ z. z.childs) (here dir) ∙ childs-removed (dirs old) c n at d)) holds,
          without,
        ),
        λ x ne. other dir x ne,
      ),
    )
  where
    here : (dir : DirInode) → update dirs old dir old ≡ dir
    here dir = ground arith

    other : (dir : DirInode) (x : ℕ) → x ≢ old → update dirs old dir x ≡ dirs x
    other dir x ne = ground arith

-- What a rename of `old_name` in `old` to `new_name` in another directory does.
abbrev pub Renames :
    Sbi
    → (ℕ → DirInode)
    → ℕ
    → ℕ
    → List (List Item)
    → List (List Item)
    → Child
    → List ℕ
    → List ℕ
    → Option Result
    → Type 0
Renames s dirs old new its_old its_new c old_name new_name r =
    ((find_entry (all_entries its_old) old_name ≡ none) × (r ≡ some (some enoent, s, dirs, c)))
    ⊎ ((d : Dirent) × (t : Sbi) × (dirs' : ℕ → DirInode) × (c' : Child) × (find_entry
            (all_entries its_old) old_name
          ≡ some d)
        × (((find_entry (all_entries its_new) new_name ≢ none)
              × (r ≡ some (none, t, dirs', c'))
              × Unlinks dirs old its_old d dirs')
            ⊎ ((find_entry (all_entries its_new) new_name ≡ none)
                × (((r ≡ some (some enospc, t, dirs', c')) × ((x : ℕ) → dirs' x ≡ dirs x))
                    ⊎ ((r ≡ some (none, t, dirs', c'))
                        × ((its' : List (List Item)) × Holds (dirs' old).childs its'
                            × Without (all_entries its_old) d (all_entries its'))
                        × ((e : Dirent) × (its' : List (List Item)) × (e.d_name ≡ new_name)
                            × (e.d_ino ≡ c.i_ino)
                            × Holds (dirs' new).childs its'
                            × Without (all_entries its') e (all_entries its_new))
                        × ((x : ℕ) → x ≢ old → x ≢ new → dirs' x ≡ dirs x))))))

-- The steps of the code on each branch.
module _ (s : Sbi) (dirs : ℕ → DirInode) (old new : ℕ) (c : Child)
    (old_name new_name : List ℕ) where
  rename_absent :
      lookup_dirent (dirs old) old_name ≡ some none
      → do_rename s dirs old new c old_name new_name 0 ≡ some (some enoent, s, dirs, c)
  unfolding do_rename
  rename_absent h = rw (h, do_rename) refl

  rename_place :
      (place : ℕ × ℕ × Dirent)
      → lookup_dirent (dirs old) old_name ≡ some (some place)
      → do_rename s dirs old new c old_name new_name 0
        ≡ rename_found s dirs old new c new_name place
  unfolding do_rename
  rename_place place h = rw (h, do_rename) refl

  found_taken :
      (place taken : ℕ × ℕ × Dirent)
      → lookup_dirent (dirs new) new_name ≡ some (some taken)
      → rename_found s dirs old new c new_name place ≡ unlink_old s dirs old c place
  unfolding rename_found
  found_taken place taken h = rw (h, rename_found) refl

  found_full :
      (place : ℕ × ℕ × Dirent) (t : Sbi)
      → lookup_dirent (dirs new) new_name ≡ some none
      → add_dentry s (dirs new) c new_name ≡ some (some enospc, t, dirs new, c)
      → rename_found s dirs old new c new_name place
        ≡ some (some enospc, t, update dirs new (dirs new), c)
  unfolding rename_found
  found_full place t h e = rw (h, e, rename_found) refl

  found_added :
      (place : ℕ × ℕ × Dirent) (t : Sbi) (dir : DirInode) (c' : Child)
      → lookup_dirent (dirs new) new_name ≡ some none
      → add_dentry s (dirs new) c new_name ≡ some (none, t, dir, c')
      → rename_found s dirs old new c new_name place
        ≡ unlink_old t (update dirs new dir) old c' place
  unfolding rename_found
  found_added place t dir c' h e = rw (h, e, rename_found) refl

  -- If both directories have well formed pages and are not the same one, the old name is not empty,
  -- and the new name has 1 to 255 bytes and the inode's number is not 0, a rename without flags
  -- fails with ENOENT exactly if no entry of the old directory has the old name, changing nothing.
  -- If the new name is not taken, either it fails with ENOSPC and no directory changes, or the
  -- first entry of the old name is gone from the old directory and one with the new name and the
  -- inode's number is among the entries of the new one, which stand as they did. If the new name is
  -- taken, the old entry goes, and the new directory stays as it was, with the entry of the inode
  -- to be replaced. No other directory changes.
  pub do_rename_lem :
      (its_old its_new : List (List Item))
      → 0 < length old_name
      → Holds (dirs old).childs its_old
      → Holds (dirs new).childs its_new
      → old ≢ new
      → (0 < length new_name) × (c.i_ino ≢ 0)
      → length new_name ≤ 255
      → Renames s dirs old new its_old its_new c old_name new_name
          (do_rename s dirs old new c old_name new_name 0)
  do_rename_lem its_old its_new some_old h k ne ok short =
      elim (lookup_dirent_lem (dirs old) its_old old_name some_old h) [
        | inl (q, absent) ↦ inl (absent, rename_absent q)
        | inr (n, at, d, q, found, place) ↦
            let there : lookup_dirent (dirs old) old_name ≡ some (some (n, at, d)) =
              q ∙ ap (λ z. some (some (z, at, d))) (omega arith) in
            elim (lookup_dirent_lem (dirs new) its_new new_name ok.0 k) [
              | inr (n', at', d', q', found', _) ↦
                  let (dirs', c', e, u) = unlink_old-Unlinks s dirs old c its_old n at d h place in
                  inr (
                    d,
                    s,
                    dirs',
                    c',
                    found,
                    inl (
                      λ z. absurd (cc),
                      rename_place (n, at, d) there
                          ∙ found_taken (n, at, d) (0 + n', at', d') q'
                          ∙ e,
                      u,
                    ),
                  )
              | inl (q', free) ↦ elim (add_dentry_lem s (dirs new) c new_name its_new k ok short) [
                | inl (t, e) ↦ inr (
                  d,
                  t,
                  update dirs new (dirs new),
                  c,
                  found,
                  inr (
                    free,
                    inl (rename_place (n, at, d) there ∙ found_full (n, at, d) t q' e, same),
                  ),
                )
                | inr (t, dir, c', e, its', made, name, ino, size, holds, more) ↦
                    let (dirs', c'', e', u) =
                      unlink_old-Unlinks t (update dirs new dir) old c' its_old n at d
                        (subst (λ z. Holds z.childs its_old) (sym (old_kept dir ne)) h) place in
                    inr (
                      d,
                      t,
                      dirs',
                      c'',
                      found,
                      inr (
                        free,
                        inr (
                          rename_place (n, at, d) there
                              ∙ found_added (n, at, d) t dir c' q' made
                              ∙ e',
                          u.0,
                          (
                            e,
                            its',
                            name,
                            ino,
                            subst (λ z. Holds z.childs its')
                                (sym (u.1 new (λ z. ne (sym z)) ∙ new_put dir)) holds,
                            more,
                          ),
                          λ x no_old no_new. u.1 x no_old ∙ other_kept dir x no_new,
                        ),
                      ),
                    )
              ]
            ]
      ]
    where
      same : (x : ℕ) → update dirs new (dirs new) x ≡ dirs x
      same x = ground arith

      old_kept : (dir : DirInode) → old ≢ new → update dirs new dir old ≡ dirs old
      old_kept dir differ = ground arith

      new_put : (dir : DirInode) → update dirs new dir new ≡ dir
      new_put dir = ground arith

      other_kept : (dir : DirInode) (x : ℕ) → x ≢ new → update dirs new dir x ≡ dirs x
      other_kept dir x differ = ground arith
