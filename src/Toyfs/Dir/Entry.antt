-- ===== src/Toyfs/Dir/Entry.antt =====
-- `toyfs_add_dentry` of fs/toyfs/dir.c as a whole.
use zufs_zus.Common.{
  ℕ, ◌+◌, ◌-◌, ◌*◌, ◌/◌, ◌%◌, ◌≤◌, ◌<◌, ◌≡◌, ◌≢◌, refl, sym, subst, ap, ◌∙◌, ◌⊎◌, inl, inr, Option,
  none, some, List, [], ◌∷◌, ◌++◌, length, arith, Bool-cases, Option-cases,
}
use zufs_zus.Toyfs.Errno.{Errno, enospc}
use zufs_zus.Toyfs.Trunc.{is_dir}
use zufs_zus.Toyfs.Pool.{Sbi, acquire_pmemb}
use zufs_zus.Toyfs.Dir.{
  Dirent, clear, fill, namelen_to_nde, Page, DirInode, Child, room_from, on_page, set_dirent,
  acquire_dirent, std_add_dentry, add_dentry,
}
use zufs_zus.Toyfs.Dir.Slots.{Item, nde-pos}
use zufs_zus.Toyfs.Dir.Room.{gaps, gaps_part, slots-gaps, length-gaps}
use zufs_zus.Toyfs.Dir.Names.{entries, all_entries, Holds}
use zufs_zus.Toyfs.Dir.Remove.{Without, IsActive-gaps, entries-gaps}
use zufs_zus.Toyfs.Dir.Add.{Roomy, set-Holds, room_from-Rooms}

-- A page of clear slots behind the others.
abbrev fresh : List (List Item) → List (List Item)
fresh its = its ++ (gaps 127 [] ∷ [])

fresh-Holds :
    (ps : List Page) (its : List (List Item)) (p : ℕ)
    → Holds ps its
    → Holds (ps ++ (record { bn = p; slots = fill 127 clear [] } ∷ [])) (fresh its)
fresh-Holds [] [] p h = (sym (slots-gaps 127 []), IsActive-gaps 127 [] tt, length-gaps 127 [], tt)
fresh-Holds [] (l ∷ m) p h = absurd h
fresh-Holds (q ∷ ps) [] p h = absurd h
fresh-Holds (q ∷ ps) (l ∷ m) p (slots, active, len, rest) =
    (slots, active, len, fresh-Holds ps m p rest)

entries-fresh : (its : List (List Item)) → all_entries (fresh its) ≡ all_entries its
entries-fresh [] = ap (λ r. r ++ []) (entries-gaps 127 [])
entries-fresh (l ∷ m) = ap (λ r. entries l ++ r) (entries-fresh m)

fresh-Roomy :
    (ps : List Page) (its : List (List Item)) (required : ℕ)
    → Holds ps its
    → required ≤ 127
    → Roomy (fresh its) (length ps) 0 required
fresh-Roomy [] [] required h le = ([], gaps (127 - required) [], gaps_part required 127 [] le, refl)
fresh-Roomy [] (l ∷ m) required h le = absurd h
fresh-Roomy (q ∷ ps) [] required h le = absurd h
fresh-Roomy (q ∷ ps) (l ∷ m) required (slots, active, len, rest) le =
    fresh-Roomy ps m required rest le

module _ (s : Sbi) (dir : DirInode) (nlen : ℕ) where
  abbrev room : Option (Option (ℕ × ℕ × ℕ))
  room = room_from dir.childs 0 2 (namelen_to_nde nlen)

  acquire_old :
      (place : ℕ × ℕ × ℕ)
      → room ≡ some (some place)
      → acquire_dirent s dir nlen ≡ some (some place, s, dir)
  unfolding acquire_dirent
  acquire_old place h = rw (acquire_dirent, h) refl

  acquire_full :
      room ≡ some none
      → (acquire_pmemb s).0 ≡ none
      → acquire_dirent s dir nlen ≡ some (none, (acquire_pmemb s).1, dir)
  unfolding acquire_dirent
  acquire_full h e = rw (acquire_dirent, h, e) refl

  acquire_new :
      (p : ℕ)
      → room ≡ some none
      → (acquire_pmemb s).0 ≡ some p
      → acquire_dirent s dir nlen
        ≡ some (
          some (length dir.childs, 0, 2 + 127 * length dir.childs),
          (acquire_pmemb s).1,
          record dir {
            i_blocks = dir.i_blocks + 1;
            childs = dir.childs ++ (record { bn = p; slots = fill 127 clear [] } ∷ []);
          },
        )
  unfolding acquire_dirent
  acquire_new p h e = rw (acquire_dirent, h, e) refl

module _ (s t : Sbi) (dir dir' : DirInode) (c : Child) (str : List ℕ) where
  add_full :
      acquire_dirent s dir (length str) ≡ some (none, t, dir')
      → add_dentry s dir c str ≡ some (some enospc, t, dir', c)
  unfolding add_dentry
  add_full h = rw (add_dentry, h) refl

  -- the entry of `c` under the name
  abbrev named : ℕ → Dirent
  named off = record { d_off = off; d_ino = c.i_ino; d_type = c.i_mode / 4096 % 16; d_name = str }

  abbrev added : ℕ → ℕ → ℕ → DirInode × Child
  added n at off =
      std_add_dentry
        (record dir' {
          i_size = dir'.i_size + 4096;
          childs = on_page n (set_dirent at (named off)) dir'.childs;
        })
        c

  add_done :
      (n at off : ℕ)
      → acquire_dirent s dir (length str) ≡ some (some (n, at, off), t, dir')
      → add_dentry s dir c str ≡ some (none, t, (added n at off).0, (added n at off).1)
  unfolding add_dentry
  add_done n at off h = rw (add_dentry, h) refl

  childs-added :
      (n at off : ℕ) → (added n at off).0.childs ≡ on_page n (set_dirent at (named off)) dir'.childs
  unfolding std_add_dentry
  childs-added n at off = elim (Bool-cases (is_dir c.i_mode)) [
    | inl e ↦ rw e refl
    | inr e ↦ rw e refl
  ]

  size-added : (n at off : ℕ) → (added n at off).0.i_size ≡ dir'.i_size + 4096
  unfolding std_add_dentry
  size-added n at off = elim (Bool-cases (is_dir c.i_mode)) [
    | inl e ↦ rw e refl
    | inr e ↦ rw e refl
  ]

-- What adding the name `str` for the inode `c` says of the entries.
abbrev pub Adds :
    DirInode
    → List (List Item)
    → List ℕ
    → Child
    → Option (Option Errno × Sbi × DirInode × Child)
    → Type 0
Adds dir its str c r =
    ((t : Sbi) × (r ≡ some (some enospc, t, dir, c)))
    ⊎ ((t : Sbi) × (dir' : DirInode) × (c' : Child) × (d : Dirent) × (its' : List (List Item)) × (r
          ≡ some (none, t, dir', c'))
        × (d.d_name ≡ str)
        × (d.d_ino ≡ c.i_ino)
        × (dir'.i_size ≡ dir.i_size + 4096)
        × Holds dir'.childs its'
        × Without (all_entries its') d (all_entries its))

-- an entry written where there is room for it
placed-Adds :
    (s t : Sbi) (dir dir' : DirInode) (c : Child) (str : List ℕ) (its its₁ : List (List Item))
    (n at off : ℕ)
    → (0 < length str) × (c.i_ino ≢ 0)
    → acquire_dirent s dir (length str) ≡ some (some (n, at, off), t, dir')
    → Holds dir'.childs its₁
    → all_entries its₁ ≡ all_entries its
    → Roomy its₁ n at (namelen_to_nde (length str))
    → dir'.i_size ≡ dir.i_size
    → Adds dir its str c (add_dentry s dir c str)
placed-Adds s t dir dir' c str its its₁ n at off ok got holds same room size =
    let d = named s t dir dir' c str off in
    let (its', h, w) = set-Holds dir'.childs its₁ n at d ok holds room in
    let new = added s t dir dir' c str n at off in
    inr (
      t,
      new.0,
      new.1,
      d,
      its',
      add_done s t dir dir' c str n at off got,
      refl,
      refl,
      size-added s t dir dir' c str n at off ∙ ap (λ z. z + 4096) size,
      subst (λ z. Holds z its') (sym (childs-added s t dir dir' c str n at off)) h,
      subst (λ z. Without (all_entries its') d z) same w,
    )

short_name : (n : ℕ) → n ≤ 255 → namelen_to_nde n ≤ 127
unfolding namelen_to_nde
short_name n h = ground arith

-- Adding a name of 1 to 255 bytes for an inode to a directory whose pages are well formed either
-- fails with ENOSPC and leaves the directory alone, or puts one entry with that name and inode number
-- among the others, which all stand as they did, keeps the pages well formed and lets the size grow
-- by a page.
pub add_dentry_lem :
    (s : Sbi) (dir : DirInode) (c : Child) (str : List ℕ) (its : List (List Item))
    → Holds dir.childs its
    → (0 < length str) × (c.i_ino ≢ 0)
    → length str ≤ 255
    → Adds dir its str c (add_dentry s dir c str)
add_dentry_lem s dir c str its h ok short =
    let required = namelen_to_nde (length str) in
    let pos : 0 < required = nde-pos (named s s dir dir c str 0) in
    elim (room_from-Rooms dir.childs its 0 2 required pos h) [
      | inr (n, at, off, q, room) ↦
          let there = q ∙ ap (λ z. some (some (z, at, off))) (omega arith) in
          placed-Adds s s dir dir c str its its n at off ok
            (acquire_old s dir (length str) (n, at, off) there) h refl room refl
      | inl q ↦ elim (Option-cases (acquire_pmemb s).0) [
        | inl e ↦ inl (
          (acquire_pmemb s).1,
          add_full s (acquire_pmemb s).1 dir dir c str (acquire_full s dir (length str) q e),
        )
        | inr (p, e) ↦
            placed-Adds s (acquire_pmemb s).1 dir
              (record dir {
                i_blocks = dir.i_blocks + 1;
                childs = dir.childs ++ (record { bn = p; slots = fill 127 clear [] } ∷ []);
              })
              c str its (fresh its) (length dir.childs) 0 (2 + 127 * length dir.childs) ok
              (acquire_new s dir (length str) p q e) (fresh-Holds dir.childs its p h)
              (entries-fresh its)
              (fresh-Roomy dir.childs its required h (short_name (length str) short)) refl
      ]
    ]
