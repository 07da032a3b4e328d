-- ===== src/Toyfs/Dir/Lookup.antt =====
-- Looking up in a directory of fs/toyfs/dir.c the name that was just added.
use zufs_zus.Common.{
  ℕ, ◌+◌, ◌≤◌, ◌<◌, ◌≡◌, ◌≢◌, refl, sym, subst, ap, ◌∙◌, inl, inr, true, Option, none, some,
  some_eq, List, [], ◌∷◌, ◌++◌, length, arith, Bool-cases,
}
use zufs_zus.Toyfs.Errno.{Errno, enospc}
use zufs_zus.Toyfs.Pool.{Sbi}
use zufs_zus.Toyfs.Dir.{Dirent, DirInode, Child, same_bytes, same_name, lookup_dirent, add_dentry}
use zufs_zus.Toyfs.Dir.Slots.{Item}
use zufs_zus.Toyfs.Dir.Names.{all_entries, Holds, find_entry, lookup_dirent_lem}
use zufs_zus.Toyfs.Dir.Entry.{add_dentry_lem}

same_bytes_refl : (l : List ℕ) → same_bytes l l ≡ true
unfolding same_bytes
same_bytes_refl [] = refl
same_bytes_refl (a ∷ l) = ground (arith, same_bytes_refl l)

same_name_refl : (l : List ℕ) → same_name l l ≡ true
unfolding same_name
same_name_refl l = ground (arith, same_bytes_refl l)

-- In a list without the name, an entry put in is the one that is found.
find_entry-insert :
    (a b : List Dirent) (d : Dirent) (str : List ℕ)
    → find_entry (a ++ b) str ≡ none
    → d.d_name ≡ str
    → find_entry (a ++ (d ∷ b)) str ≡ some d
find_entry-insert [] b d str h e =
    let same : same_name d.d_name str ≡ true = rw e (same_name_refl str) in rw same refl
find_entry-insert (c ∷ a) b d str h e = elim (Bool-cases (same_name c.d_name str)) [
  | inl here ↦ absurd (ground arith)
  | inr there ↦ rw there (find_entry-insert a b d str (rw there at h) e)
]

-- If no entry of a directory with well formed pages has a name, and adding it for an inode succeeds,
-- then a lookup of the name finds an entry with that inode's number.
pub lookup_dirent-add_dentry :
    (s t : Sbi) (dir dir' : DirInode) (c c' : Child) (str : List ℕ) (its : List (List Item))
    → Holds dir.childs its
    → (0 < length str) × (c.i_ino ≢ 0)
    → length str ≤ 255
    → find_entry (all_entries its) str ≡ none
    → add_dentry s dir c str ≡ some (none, t, dir', c')
    → (n : ℕ) × (at : ℕ) × (d : Dirent) × (lookup_dirent dir' str ≡ some (some (n, at, d)))
      × (d.d_name ≡ str)
      × (d.d_ino ≡ c.i_ino)
lookup_dirent-add_dentry s t dir dir' c c' str its h ok short absent done =
    elim (add_dentry_lem s dir c str its h ok short) [
      | inl (t', e) ↦
          let code : some enospc ≡ none =
            ap (λ (r : Option Errno × Sbi × DirInode × Child). r.0) (some_eq (sym e ∙ done)) in
          absurd (cc)
      | inr (t', dir'', c'', d, its', e, name, ino, size, holds, (a, b, all', all)) ↦
          let same : dir'' ≡ dir' =
            ap (λ (r : Option Errno × Sbi × DirInode × Child). r.2) (some_eq (sym e ∙ done)) in
          let there : find_entry (all_entries its') str ≡ some d =
            rw all' (find_entry-insert a b d str (rw all at absent) name) in
          elim (lookup_dirent_lem dir' its' str ok.0
            (subst (λ z. Holds z.childs its') same holds)) [
              | inl (_, none_there) ↦ absurd (cc)
              | inr (n, at, d', q, found, place) ↦
                  let eq : d' ≡ d = some_eq (sym found ∙ there) in
                  (0 + n, at, d', q, ap (λ z. z.d_name) eq ∙ name, ap (λ z. z.d_ino) eq ∙ ino)
            ]
    ]
