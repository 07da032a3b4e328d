-- ===== src/Toyfs/Itable/Tests.antt =====
-- A table with two inodes in one chain.
use zufs_zus.Common.{
  ℕ, ◌+◌, ◌-◌, ◌≡◌, ◌≢◌, refl, true, false, none, some, [], ◌==◌, if◌then◌else◌, Bool-cases, inl,
  inr,
}
use zufs_zus.Toyfs.Itable.{
  InodeInfo, Itable, itable_find, itable_insert, itable_slot_of, chain_find, is_info, chain_has,
  i_track, i_untrack, find_inode_ref_by_ino,
}
use zufs_zus.Toyfs.Itable.Lookup.{IsItable, KnownAs, forgotten, i_track_lem, i_untrack_lem}

abbrev first : InodeInfo
first = record { addr = 100; ti = 200; ino = 5; mapped = false }

-- in the same chain
abbrev second : InodeInfo
second = record { addr = 101; ti = 201; ino = 33382; mapped = false }

abbrev empty : Itable
empty = record { icount = 0; imap = λ slot. [] }

empty-IsItable : IsItable empty
empty-IsItable = record { once = λ slot. tt }

abbrev one : Itable
one = (i_track empty first).0

absent : itable_find empty 5 ≡ none
unfolding itable_find chain_find
absent = refl

one-IsItable : IsItable one
one-IsItable = (i_track_lem empty first empty-IsItable absent).0

second_absent : itable_find one 33382 ≡ none
unfolding itable_find chain_find i_track
second_absent = refl

abbrev two : Itable
two = (i_track one second).0

two-IsItable : IsItable two
two-IsItable = (i_track_lem one second one-IsItable second_absent).0

tracked : chain_has 100 (two.imap (itable_slot_of 5)) ≡ true
unfolding i_track chain_has
tracked = refl

other_info : is_info 100 (some 101) ≢ true
unfolding is_info
other_info h = cc

known : KnownAs two first
unfolding KnownAs i_track itable_insert itable_slot_of chain_has
known slot = elim (Bool-cases (slot == 5)) [
  | inl e ↦ rw e (λ h. absurd (other_info h), (λ h. refl, tt))
  | inr e ↦ rw e tt
]

i_track_lem_example :
    let (t', j) = i_track one second in
    IsItable t'
    × (t'.icount ≡ one.icount + 1)
    × (j ≡ record second { mapped = true })
    × ((x : ℕ)
        → find_inode_ref_by_ino t' x ≡ (
            if x == 33382
            then some (record { tii = some 101; ti = 201; ino = 33382 })
            else find_inode_ref_by_ino one x))
i_track_lem_example = i_track_lem one second one-IsItable second_absent

i_untrack_lem_example :
    (let (t', j) = i_untrack two first true in
      IsItable t'
      × (t'.icount ≡ two.icount - 1)
      × (j.mapped ≡ false)
      × ((x : ℕ)
          → find_inode_ref_by_ino t' x ≡ (if x == 5 then none else find_inode_ref_by_ino two x)))
    × (let (t', j) = i_untrack two first false in
        IsItable t'
        × (t'.icount ≡ two.icount)
        × (j.mapped ≡ false)
        × ((x : ℕ) → find_inode_ref_by_ino t' x ≡ forgotten 5 x (find_inode_ref_by_ino two x)))
i_untrack_lem_example = i_untrack_lem two first two-IsItable known tracked
