-- ===== src/Toyfs/Dir/Remove.antt =====
-- Removing an entry of a directory, `toyfs_remove_dentry` of fs/toyfs/dir.c.
use mathlib.Core.List.{append_assoc}
use zufs_zus.Common.{
  ℕ, zero, suc, ◌-◌, ◌<◌, ◌≡◌, refl, sym, subst, ap, ◌∙◌, ◌⊎◌, true, not, ◌&&◌, Option, none, some,
  List, [], ◌∷◌, ◌++◌, length, ◌==◌, if◌then◌else◌, arith,
}
use zufs_zus.Toyfs.Errno.{Errno, enoent, enotempty}
use zufs_zus.Toyfs.Trunc.{is_dir}
use zufs_zus.Toyfs.Dir.{
  Dirent, more, Page, DirInode, Child, lookup_dirent, on_page, reset_dirent, std_remove_dentry,
}
use zufs_zus.Toyfs.Dir.Slots.{Item, gap, file, slots_of, nde, nde-pos, length-fill, IsActive}
use zufs_zus.Toyfs.Dir.Room.{gaps, length-gaps, reset_dirent-slots}
use zufs_zus.Toyfs.Dir.Names.{entries, all_entries, Holds, find_entry, Located}

pub entries-append : (l m : List Item) → entries (l ++ m) ≡ entries l ++ entries m
entries-append [] m = refl
entries-append (gap ∷ l) m = entries-append l m
entries-append (file d ∷ l) m = ap (λ r. d ∷ r) (entries-append l m)

pub entries-gaps : (n : ℕ) (l : List Item) → entries (gaps n l) ≡ entries l
entries-gaps zero l = refl
entries-gaps (suc n) l = entries-gaps n l

-- Two tails of one length after the same items.
pub length-slots :
    (pre l m : List Item)
    → length (slots_of l) ≡ length (slots_of m)
    → length (slots_of (pre ++ l)) ≡ length (slots_of (pre ++ m))
length-slots [] l m h = h
length-slots (gap ∷ pre) l m h = ap suc (length-slots pre l m h)
length-slots (file d ∷ pre) l m h = ground (
  arith,
  length-fill (nde d - 1) more (slots_of (pre ++ l)),
  length-fill (nde d - 1) more (slots_of (pre ++ m)),
  length-slots pre l m h,
)

pub length-file :
    (d : Dirent) (l : List Item)
    → length (slots_of (file d ∷ l)) ≡ length (slots_of (gaps (nde d) l))
length-file d l =
    ground (arith, length-fill (nde d - 1) more (slots_of l), length-gaps (nde d) l, nde-pos d)

-- A tail replaced by an active one.
pub IsActive-append :
    (pre l m : List Item) → IsActive (pre ++ l) → (IsActive l → IsActive m) → IsActive (pre ++ m)
IsActive-append [] l m h f = f h
IsActive-append (gap ∷ pre) l m h f = IsActive-append pre l m h f
IsActive-append (file d ∷ pre) l m h f = (h.0, h.1, IsActive-append pre l m h.2 f)

pub IsActive-gaps : (n : ℕ) (l : List Item) → IsActive l → IsActive (gaps n l)
IsActive-gaps zero l h = h
IsActive-gaps (suc n) l h = IsActive-gaps n l h

-- The same entries without one, `d`.
abbrev pub Without : List Dirent → Dirent → List Dirent → Type 0
Without l d l' = (a : List Dirent) × (b : List Dirent) × (l ≡ a ++ (d ∷ b)) × (l' ≡ a ++ b)

pub Without-here :
    (pre post : List Item) (d : Dirent) (m : List Dirent)
    → Without (entries (pre ++ (file d ∷ post)) ++ m) d (entries (pre ++ gaps (nde d) post) ++ m)
Without-here pre post d m = (
  entries pre,
  entries post ++ m,
  ap (λ r. r ++ m) (entries-append pre (file d ∷ post))
      ∙ append_assoc (entries pre) (d ∷ entries post) m,
  ap (λ r. r ++ m)
        (entries-append pre (gaps (nde d) post)
          ∙ ap (λ r. entries pre ++ r) (entries-gaps (nde d) post))
      ∙ append_assoc (entries pre) (entries post) m,
)

pub Without-there :
    (l : List Dirent) (m m' : List Dirent) (d : Dirent)
    → Without m d m'
    → Without (l ++ m) d (l ++ m')
Without-there l m m' d (a, b, e, e') = (
  l ++ a,
  b,
  ap (λ r. l ++ r) e ∙ sym (append_assoc l a (d ∷ b)),
  ap (λ r. l ++ r) e' ∙ sym (append_assoc l a b),
)

pub reset-Holds :
    (ps : List Page) (its : List (List Item)) (n at : ℕ) (d : Dirent)
    → Holds ps its
    → Located its n at d
    → (its' : List (List Item)) × Holds (on_page n (reset_dirent at d) ps) its'
      × Without (all_entries its) d (all_entries its')
unfolding on_page
reset-Holds [] [] n at d h place = absurd place
reset-Holds [] (l ∷ m) n at d h place = absurd h
reset-Holds (p ∷ ps) [] n at d h place = absurd place
reset-Holds (p ∷ ps) (l ∷ m) zero at d (slots, active, len, rest) (pre, post, split, start) =
    let l' = pre ++ gaps (nde d) post in
    (
      l' ∷ m,
      (
        ap (reset_dirent at d) (slots ∙ ap slots_of split)
            ∙ ap (λ z. reset_dirent z d (slots_of (pre ++ (file d ∷ post)))) start
            ∙ reset_dirent-slots pre post d,
        IsActive-append pre (file d ∷ post) (gaps (nde d) post) (subst IsActive split active)
            (λ h. IsActive-gaps (nde d) post h.2),
        length-slots pre (gaps (nde d) post) (file d ∷ post) (sym (length-file d post))
            ∙ ap (λ r. length (slots_of r)) (sym split)
            ∙ len,
        rest,
      ),
      subst (λ r. Without (entries r ++ all_entries m) d (entries l' ++ all_entries m)) (sym split)
          (Without-here pre post d (all_entries m)),
    )
reset-Holds (p ∷ ps) (l ∷ m) (suc n) at d (slots, active, len, rest) place =
    let (m', h, w) = reset-Holds ps m n at d rest place in
    (
      l ∷ m',
      (slots, active, len, h),
      Without-there (entries l) (all_entries m) (all_entries m') d w,
    )

active_name :
    (pre post : List Item) (d : Dirent) → IsActive (pre ++ (file d ∷ post)) → 0 < length d.d_name
active_name [] post d h = h.0
active_name (gap ∷ pre) post d h = active_name pre post d h
active_name (file e ∷ pre) post d h = active_name pre post d h.2

-- Every entry of a well formed page has a name.
pub place_name :
    (ps : List Page) (its : List (List Item)) (n at : ℕ) (d : Dirent)
    → Holds ps its
    → Located its n at d
    → 0 < length d.d_name
place_name [] [] n at d h place = absurd place
place_name [] (l ∷ m) n at d h place = absurd h
place_name (p ∷ ps) [] n at d h place = absurd place
place_name (p ∷ ps) (l ∷ m) zero at d (slots, active, len, rest) (pre, post, split, start) =
    active_name pre post d (subst IsActive split active)
place_name (p ∷ ps) (l ∷ m) (suc n) at d (slots, active, len, rest) place =
    place_name ps m n at d rest place

module _ (dir : DirInode) (c : Child) (str : List ℕ) where
  module _ (n at : ℕ) (d : Dirent) (found : lookup_dirent dir str ≡ some (some (n, at, d))) where
    abbrev removed : DirInode × Child
    removed =
        std_remove_dentry
          (record dir {
            i_size = dir.i_size - 4096;
            childs = on_page n (reset_dirent at d) dir.childs;
          })
          c

    -- the inode, freed at once if it is an empty directory with one link left
    abbrev unlinked : Child
    unlinked =
        if is_dir removed.1.i_mode && (removed.1.i_nlink == 1) && (removed.1.i_size == 0)
        then record removed.1 { i_nlink = 0 }
        else removed.1

-- What removing the name `str` says of the entries.
abbrev pub Removes :
    DirInode → List (List Item) → List ℕ → Child → Option (Option Errno × DirInode × Child) → Type 0
Removes dir its str c r =
    ((find_entry (all_entries its) str ≡ none) × (r ≡ some (some enoent, dir, c)))
    ⊎ ((d : Dirent) × (find_entry (all_entries its) str ≡ some d)
        × (((is_dir c.i_mode && not (c.i_size == 0)) ≡ true) × (r ≡ some (some enotempty, dir, c))
            ⊎ ((dir' : DirInode) × (c' : Child) × (r ≡ some (none, dir', c'))
                × (dir'.i_size ≡ dir.i_size - 4096)
                × ((its' : List (List Item)) × Holds dir'.childs its'
                    × Without (all_entries its) d (all_entries its')))))
