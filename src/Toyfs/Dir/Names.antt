-- ===== src/Toyfs/Dir/Names.antt =====
-- A directory of fs/toyfs/dir.c against the list of its entries, over all of its pages.
use zufs_zus.Common.{
  ℕ, zero, suc, ◌+◌, ◌-◌, ◌<◌, ◌≡◌, refl, ap, ◌∙◌, ◌⊎◌, inl, inr, Option, none, some, List, [], ◌∷◌,
  ◌++◌, length, if◌then◌else◌, arith, Bool-cases,
}
use zufs_zus.Toyfs.Dir.{
  Dirent, more, Page, DirInode, same_name, find_dirent, lookup_from, lookup_dirent,
}
use zufs_zus.Toyfs.Dir.Slots.{
  Item, gap, file, slots_of, nde, nde-pos, length-fill, IsActive, find_item, find_dirent_lem,
}

-- The entries of a page, and those of all pages.
abbrev pub entries : List Item → List Dirent
entries [] = []
entries (gap ∷ l) = entries l
entries (file d ∷ l) = d ∷ entries l

abbrev pub all_entries : List (List Item) → List Dirent
all_entries [] = []
all_entries (l ∷ m) = entries l ++ all_entries m

-- The pages hold these sequences, 127 slots each.
abbrev pub Holds : List Page → List (List Item) → Type 0
Holds [] [] = Unit
Holds [] (l ∷ m) = ⊥
Holds (p ∷ ps) [] = ⊥
Holds (p ∷ ps) (l ∷ m) =
    (p.slots ≡ slots_of l) × IsActive l × (length (slots_of l) ≡ 127) × Holds ps m

-- The first entry of a name.
abbrev pub find_entry : List Dirent → List ℕ → Option Dirent
find_entry [] str = none
find_entry (d ∷ l) str =
    let rest = find_entry l str in if same_name d.d_name str then some d else rest

-- The entry `d` starts at the slot `at` of the page `n`.
abbrev pub Located : List (List Item) → ℕ → ℕ → Dirent → Type 0
Located [] n at d = ⊥
Located (l ∷ m) zero at d =
    (pre : List Item) × (post : List Item) × (l ≡ pre ++ (file d ∷ post))
    × (at ≡ length (slots_of pre))
Located (l ∷ m) (suc n) at d = Located m n at d

-- what a search of one page says of its entries
item_entry :
    (l : List Item) (at : ℕ) (str : List ℕ)
    → ((find_item l at str ≡ none) × (find_entry (entries l) str ≡ none))
      ⊎ ((i : ℕ) × (d : Dirent) × (find_item l at str ≡ some (i, d))
          × (find_entry (entries l) str ≡ some d)
          × ((pre : List Item) × (post : List Item) × (l ≡ pre ++ (file d ∷ post))
              × (i ≡ at + length (slots_of pre))))
item_entry [] at str = inl (refl, refl)
item_entry (gap ∷ l) at str = elim (item_entry l (at + 1) str) [
  | inl h ↦ inl h
  | inr (i, d, e, e', (pre, post, split, place)) ↦
      inr (i, d, e, e', (gap ∷ pre, post, ap (λ m. gap ∷ m) split, ground (arith, place)))
]
item_entry (file d ∷ l) at str = elim (Bool-cases (same_name d.d_name str)) [
  | inl here ↦ inr (at, d, rw here refl, rw here refl, ([], l, refl, omega arith))
  | inr there ↦ elim (item_entry l (at + nde d) str) [
    | inl (e, e') ↦ inl (rw there e, rw there e')
    | inr (i, c, e, e', (pre, post, split, place)) ↦ inr (
      i,
      c,
      rw there e,
      rw there e',
      (
        file d ∷ pre,
        post,
        ap (λ m. file d ∷ m) split,
        ground (arith, place, length-fill (nde d - 1) more (slots_of pre), nde-pos d),
      ),
    )
  ]
]

find_entry-append_none :
    (l m : List Dirent) (str : List ℕ)
    → find_entry l str ≡ none
    → find_entry (l ++ m) str ≡ find_entry m str
find_entry-append_none [] m str h = refl
find_entry-append_none (d ∷ l) m str h = elim (Bool-cases (same_name d.d_name str)) [
  | inl here ↦ absurd (ground arith)
  | inr there ↦ rw there (find_entry-append_none l m str (rw there at h))
]

find_entry-append_some :
    (l m : List Dirent) (str : List ℕ) (d : Dirent)
    → find_entry l str ≡ some d
    → find_entry (l ++ m) str ≡ some d
find_entry-append_some [] m str d h = absurd (cc)
find_entry-append_some (c ∷ l) m str d h = elim (Bool-cases (same_name c.d_name str)) [
  | inl here ↦ rw here (rw here at h)
  | inr there ↦ rw there (find_entry-append_some l m str d (rw there at h))
]

-- What a lookup over pages from the number `pagei` on says of the entries.
abbrev pub LooksUp : List (List Item) → ℕ → List ℕ → Option (Option (ℕ × ℕ × Dirent)) → Type 0
LooksUp its pagei str r =
    ((r ≡ some none) × (find_entry (all_entries its) str ≡ none))
    ⊎ ((n : ℕ) × (at : ℕ) × (d : Dirent) × (r ≡ some (some (pagei + n, at, d)))
        × (find_entry (all_entries its) str ≡ some d)
        × Located its n at d)

module _ (p : Page) (ps : List Page) (pagei : ℕ) (str : List ℕ) where
  lookup_next :
      find_dirent 128 p.slots 0 str ≡ some none
      → lookup_from (p ∷ ps) pagei str ≡ lookup_from ps (pagei + 1) str
  unfolding lookup_from
  lookup_next h = ground arith

  lookup_here :
      (at : ℕ) (d : Dirent)
      → find_dirent 128 p.slots 0 str ≡ some (some (at, d))
      → lookup_from (p ∷ ps) pagei str ≡ some (some (pagei, at, d))
  unfolding lookup_from
  lookup_here at d h = ground arith

lookup_from-LooksUp :
    (ps : List Page) (its : List (List Item)) (pagei : ℕ) (str : List ℕ)
    → 0 < length str
    → Holds ps its
    → LooksUp its pagei str (lookup_from ps pagei str)
unfolding lookup_from
lookup_from-LooksUp [] [] pagei str pos h = inl (refl, refl)
lookup_from-LooksUp [] (l ∷ m) pagei str pos h = absurd h
lookup_from-LooksUp (p ∷ ps) [] pagei str pos h = absurd h
lookup_from-LooksUp (p ∷ ps) (l ∷ m) pagei str pos (slots, active, len, rest) =
    let found : find_dirent 128 p.slots 0 str ≡ some (find_item l 0 str) =
      rw slots (find_dirent_lem 128 l 0 str pos active (omega (arith, len))) in
    elim (item_entry l 0 str) [
      | inl (e, e') ↦
          let skip = find_entry-append_none (entries l) (all_entries m) str e' in
          rw (lookup_next p ps pagei str (rw e at found))
            (elim (lookup_from-LooksUp ps m (pagei + 1) str pos rest) [
              | inl (q, q') ↦ inl (q, skip ∙ q')
              | inr (n, at, d, q, q', place) ↦ inr (
                suc n,
                at,
                d,
                q ∙ ap (λ z. some (some (z, at, d))) (omega arith),
                skip ∙ q',
                place,
              )
            ])
      | inr (i, d, e, e', (pre, post, split, place)) ↦
          rw (lookup_here p ps pagei str i d (rw e at found)) (
            inr (
              0,
              i,
              d,
              ap (λ z. some (some (z, i, d))) (omega arith),
              find_entry-append_some (entries l) (all_entries m) str d e',
              (pre, post, split, omega (arith, place)),
            ))
    ]

-- Looking a name of a byte or more up in a directory whose pages are well formed finds the first of
-- all of its entries with that name and where it stands, or finds nothing exactly if no entry has
-- that name; it never takes a part of a name for an entry.
pub lookup_dirent_lem :
    (dir : DirInode) (its : List (List Item)) (str : List ℕ)
    → 0 < length str
    → Holds dir.childs its
    → LooksUp its 0 str (lookup_dirent dir str)
unfolding lookup_dirent
lookup_dirent_lem dir its str pos h = lookup_from-LooksUp dir.childs its 0 str pos h
