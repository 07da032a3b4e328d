-- ===== src/Toyfs/Dir/Slots.antt =====
-- The slots of a directory's page, fs/toyfs/dir.c, against the list of its entries.
use zufs_zus.Common.{
  ℕ, zero, suc, ◌+◌, ◌-◌, ◌<◌, ◌≡◌, ◌≢◌, refl, inl, inr, true, false, ◌&&◌, not, Option, none, some,
  List, [], ◌∷◌, length, ltb, ◌==◌, if◌then◌else◌, arith, Bool-cases,
}
use zufs_zus.Toyfs.Dir.{
  Dirent, Slot, clear, entry, more, same_name, namelen_to_nde, skip, fill, find_dirent,
}

-- A page as the sequence of what stands in it: a clear slot or an entry with the slots of its name.
pub data Item : Type 0 where
  gap : Item
  file : Dirent → Item

-- The slots of a sequence.
abbrev pub slots_of : List Item → List Slot
slots_of [] = []
slots_of (gap ∷ l) = clear ∷ slots_of l
slots_of (file d ∷ l) = entry d ∷ fill (namelen_to_nde (length d.d_name) - 1) more (slots_of l)

abbrev pub nde : Dirent → ℕ
nde d = namelen_to_nde (length d.d_name)

pub nde-pos : (d : Dirent) → 0 < nde d
unfolding namelen_to_nde
nde-pos d = ground arith

pub skip-fill : (n : ℕ) (x : Slot) (l : List Slot) → skip n (fill n x l) ≡ l
unfolding skip fill
skip-fill zero x l = refl
skip-fill (suc n) x l = skip-fill n x l

-- Behind the slots of an entry.
pub skip-entry :
    (d : Dirent) (l : List Slot) (n : ℕ) → 0 < n → skip n (entry d ∷ fill (n - 1) more l) ≡ l
unfolding skip
skip-entry d l zero h = absurd (omega arith)
skip-entry d l (suc n) h = let e : suc n - 1 ≡ n = omega arith in rw e (skip-fill n more l)

pub length-fill : (n : ℕ) (x : Slot) (l : List Slot) → length (fill n x l) ≡ n + length l
unfolding fill
length-fill zero x l = omega arith
length-fill (suc n) x l = ground (arith, length-fill n x l)

-- Every entry has a name and an inode number.
abbrev pub IsActive : List Item → Type 0
IsActive [] = Unit
IsActive (gap ∷ l) = IsActive l
IsActive (file d ∷ l) = (0 < length d.d_name) × (d.d_ino ≢ 0) × IsActive l

-- The first entry with the name, with its slot number.
abbrev pub find_item : List Item → ℕ → List ℕ → Option (ℕ × Dirent)
find_item [] at str = none
find_item (gap ∷ l) at str = find_item l (at + 1) str
find_item (file d ∷ l) at str =
    let rest = find_item l (at + nde d) str in if same_name d.d_name str then some (at, d) else rest

nonempty : (str : List ℕ) → 0 < length str → same_name [] str ≡ false
unfolding same_name
nonempty str h = ground arith

pub find_dirent_lem :
    (k : ℕ) (l : List Item) (at : ℕ) (str : List ℕ)
    → 0 < length str
    → IsActive l
    → length (slots_of l) < k
    → find_dirent k (slots_of l) at str ≡ some (find_item l at str)
unfolding find_dirent
find_dirent_lem zero l at str pos v h = absurd (omega arith)
find_dirent_lem (suc k) [] at str pos v h = refl
find_dirent_lem (suc k) (gap ∷ l) at str pos v h =
    let named : same_name [] str ≡ false = nonempty str pos in
    rw (named, find_dirent) (find_dirent_lem k l (at + 1) str pos v (ground arith))
find_dirent_lem (suc k) (file d ∷ l) at str pos v h =
    let step : (ltb 0 (length d.d_name) && not (d.d_ino == 0)) ≡ true = ground arith in
    let behind = skip-entry d (slots_of l) (nde d) (nde-pos d) in
    let rest =
      find_dirent_lem k l (at + nde d) str pos v.2
        (omega (arith, h, length-fill (nde d - 1) more (slots_of l))) in
    elim (Bool-cases (same_name d.d_name str)) [
      | inl e ↦ rw e refl
      | inr e ↦ rw (e, step, behind) rest
    ]
