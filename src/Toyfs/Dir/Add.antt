-- ===== src/Toyfs/Dir/Add.antt =====
-- Adding an entry to a directory, `toyfs_add_dentry` of fs/toyfs/dir.c.
use zufs_zus.Common.{
  ℕ, zero, suc, ◌+◌, ◌<◌, ◌≡◌, ◌≢◌, refl, sym, subst, ap, ◌∙◌, ◌⊎◌, inl, inr, Option, none, some,
  List, [], ◌∷◌, ◌++◌, length, arith,
}
use zufs_zus.Toyfs.Dir.{Dirent, Page, search_free, room_from, on_page, set_dirent}
use zufs_zus.Toyfs.Dir.Slots.{Item, gap, file, slots_of, nde, IsActive}
use zufs_zus.Toyfs.Dir.Room.{gaps, Found, search_free_lem, set_dirent-slots}
use zufs_zus.Toyfs.Dir.Names.{entries, all_entries, Holds}
use zufs_zus.Toyfs.Dir.Remove.{
  Without, Without-here, Without-there, length-slots, length-file, IsActive-append,
}

-- Room for `required` slots: clear ones from the slot `at` of the page `n` on.
abbrev pub Roomy : List (List Item) → (n at required : ℕ) → Type 0
Roomy [] n at required = ⊥
Roomy (l ∷ m) zero at required =
    (pre : List Item) × (post : List Item) × (l ≡ pre ++ gaps required post)
    × (at ≡ length (slots_of pre))
Roomy (l ∷ m) (suc n) at required = Roomy m n at required

IsActive-behind :
    (pre : List Item) (n : ℕ) (l : List Item) → IsActive (pre ++ gaps n l) → IsActive l
IsActive-behind [] zero l h = h
IsActive-behind [] (suc n) l h = IsActive-behind [] n l h
IsActive-behind (gap ∷ pre) n l h = IsActive-behind pre n l h
IsActive-behind (file d ∷ pre) n l h = IsActive-behind pre n l h.2

-- The entry `d` is written in the room for it.
pub set-Holds :
    (ps : List Page) (its : List (List Item)) (n at : ℕ) (d : Dirent)
    → (0 < length d.d_name) × (d.d_ino ≢ 0)
    → Holds ps its
    → Roomy its n at (nde d)
    → (its' : List (List Item)) × Holds (on_page n (set_dirent at d) ps) its'
      × Without (all_entries its') d (all_entries its)
unfolding on_page
set-Holds [] [] n at d ok h room = absurd room
set-Holds [] (l ∷ m) n at d ok h room = absurd h
set-Holds (p ∷ ps) [] n at d ok h room = absurd room
set-Holds (p ∷ ps) (l ∷ m) zero at d ok (slots, active, len, rest) (pre, post, split, start) =
    let l' = pre ++ (file d ∷ post) in
    let active' = subst IsActive split active in
    (
      l' ∷ m,
      (
        ap (set_dirent at d) (slots ∙ ap slots_of split)
            ∙ ap (λ z. set_dirent z d (slots_of (pre ++ gaps (nde d) post))) start
            ∙ set_dirent-slots pre post d,
        IsActive-append pre (gaps (nde d) post) (file d ∷ post) active'
            (λ h. (ok.0, ok.1, IsActive-behind [] (nde d) post h)),
        length-slots pre (file d ∷ post) (gaps (nde d) post) (length-file d post)
            ∙ ap (λ r. length (slots_of r)) (sym split)
            ∙ len,
        rest,
      ),
      subst (λ r. Without (entries l' ++ all_entries m) d (entries r ++ all_entries m)) (sym split)
          (Without-here pre post d (all_entries m)),
    )
set-Holds (p ∷ ps) (l ∷ m) (suc n) at d ok (slots, active, len, rest) room =
    let (m', h, w) = set-Holds ps m n at d ok rest room in
    (
      l ∷ m',
      (slots, active, len, h),
      Without-there (entries l) (all_entries m') (all_entries m) d w,
    )

module _ (p : Page) (ps : List Page) (pagei d_off required : ℕ) where
  room_next :
      search_free 128 p.slots 0 required ≡ some none
      → room_from (p ∷ ps) pagei d_off required ≡ room_from ps (pagei + 1) (d_off + 127) required
  unfolding room_from
  room_next h = ground arith

  room_here :
      (at : ℕ)
      → search_free 128 p.slots 0 required ≡ some (some at)
      → room_from (p ∷ ps) pagei d_off required ≡ some (some (pagei, at, d_off + at))
  unfolding room_from
  room_here at h = ground arith

-- What the search for room says of the pages.
abbrev pub Rooms : List (List Item) → (pagei required : ℕ) → Option (Option (ℕ × ℕ × ℕ)) → Type 0
Rooms its pagei required r =
    (r ≡ some none)
    ⊎ ((n : ℕ) × (at : ℕ) × (off : ℕ) × (r ≡ some (some (pagei + n, at, off)))
        × Roomy its n at required)

pub room_from-Rooms :
    (ps : List Page) (its : List (List Item)) (pagei d_off required : ℕ)
    → 0 < required
    → Holds ps its
    → Rooms its pagei required (room_from ps pagei d_off required)
unfolding room_from Found
room_from-Rooms [] [] pagei d_off required pos h = inl refl
room_from-Rooms [] (l ∷ m) pagei d_off required pos h = absurd h
room_from-Rooms (p ∷ ps) [] pagei d_off required pos h = absurd h
room_from-Rooms (p ∷ ps) (l ∷ m) pagei d_off required pos (slots, active, len, rest) =
    elim (search_free_lem 128 l 0 required active pos (omega (arith, len))) [
      | inl e ↦
          rw (room_next p ps pagei d_off required (rw slots e))
            (elim (room_from-Rooms ps m (pagei + 1) (d_off + 127) required pos rest) [
              | inl q ↦ inl q
              | inr (n, at, off, q, room) ↦
                  inr (suc n, at, off, q ∙ ap (λ z. some (some (z, at, off))) (omega arith), room)
            ])
      | inr (at, e, (pre, post, split, start)) ↦
          rw (room_here p ps pagei d_off required at (rw slots e)) (
            inr (
              0,
              at,
              d_off + at,
              ap (λ z. some (some (z, at, d_off + at))) (omega arith),
              (pre, post, split, omega (arith, start)),
            ))
    ]
