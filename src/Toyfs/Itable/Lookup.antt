-- ===== src/Toyfs/Itable/Lookup.antt =====
-- What the table of inodes in fs/toyfs/super.c finds after each of its operations.
use zufs_zus.Common.{
  ℕ, ◌+◌, ◌-◌, ◌%◌, ◌≡◌, ◌≢◌, refl, inl, inr, true, false, ◌&&◌, Option, none, some, List, [], ◌∷◌,
  ◌==◌, if◌then◌else◌, arith, Bool-cases,
}
use zufs_zus.Toyfs.Itable.{
  InodeRef, InodeInfo, Itable, itable_slot_of, chain_find, itable_find, itable_insert, is_info,
  chain_has, chain_unlink, itable_remove, chain_forget, i_track, i_untrack, find_inode_ref_by_ino,
}

-- Every inode number stands at most once in a chain.
abbrev pub IsOnce : List InodeRef → Type 0
IsOnce [] = Unit
IsOnce (r ∷ l) = (chain_find r.ino l ≡ none) × IsOnce l

-- The reference that names the inode info `addr` has the number `ino`.
abbrev pub Names : ℕ → ℕ → List InodeRef → Type 0
Names addr ino [] = Unit
Names addr ino (r ∷ l) = (is_info addr r.tii ≡ true → r.ino ≡ ino) × Names addr ino l

pub record IsItable (t : Itable) : Type 0 where
  pub once : (slot : ℕ) → IsOnce (t.imap slot)

-- An inode info with the same address as `i` has the same number.
unfoldable pub KnownAs : Itable → InodeInfo → Type 0
KnownAs t i = (slot : ℕ) → Names i.addr i.ino (t.imap slot)

found-chain_has :
    (addr ino : ℕ) (l : List InodeRef)
    → Names addr ino l
    → chain_has addr l ≡ true
    → chain_find ino l ≢ none
unfolding chain_find chain_has
found-chain_has addr ino [] names h = absurd (ground arith)
found-chain_has addr ino (r ∷ l) names h = elim (Bool-cases (is_info addr r.tii)) [
  | inl here ↦ ground (arith, names.0 here)
  | inr there ↦ ground (arith, found-chain_has addr ino l names.1)
]

chain_find-chain_unlink :
    (addr ino : ℕ) (l : List InodeRef)
    → IsOnce l
    → Names addr ino l
    → (x : ℕ)
    → chain_find x (chain_unlink addr l)
      ≡ (if (x == ino) && chain_has addr l then none else chain_find x l)
unfolding chain_find chain_unlink chain_has
chain_find-chain_unlink addr ino [] once names x = ground arith
chain_find-chain_unlink addr ino (r ∷ l) once names x = elim (Bool-cases (is_info addr r.tii)) [
  | inl here ↦ ground (arith, once.0, names.0 here)
  | inr there ↦ ground (
    arith,
    chain_find-chain_unlink addr ino l once.1 names.1 x,
    once.0,
    found-chain_has addr ino l names.1,
  )
]

find-itable_insert :
    (t : Itable) (i : InodeInfo) (x : ℕ)
    → itable_find (itable_insert t i) x ≡ (
        if x == i.ino
        then some (record { tii = some i.addr; ti = i.ti; ino = i.ino })
        else itable_find t x)
unfolding itable_find itable_insert itable_slot_of chain_find
find-itable_insert t i x = ground arith

find-itable_remove :
    (t : Itable) (i : InodeInfo) (x : ℕ)
    → IsItable t
    → KnownAs t i
    → chain_has i.addr (t.imap (itable_slot_of i.ino)) ≡ true
    → itable_find (itable_remove t i) x ≡ (if x == i.ino then none else itable_find t x)
unfolding itable_find itable_remove itable_slot_of KnownAs
find-itable_remove t i x v known has = ground (
  arith,
  chain_find-chain_unlink i.addr i.ino (t.imap (i.ino % 33377)) (v.once (i.ino % 33377))
      (known (i.ino % 33377)) x,
)

-- what is found under `x` once `ino` has lost its address
abbrev pub forgotten : ℕ → ℕ → Option InodeRef → Option InodeRef
forgotten ino x none = none
forgotten ino x (some r) = some (if x == ino then record r { tii = none } else r)

find-chain_forget :
    (ino x : ℕ) (l : List InodeRef)
    → chain_find x (chain_forget ino l) ≡ forgotten ino x (chain_find x l)
unfolding chain_find chain_forget
find-chain_forget ino x [] = refl
find-chain_forget ino x (r ∷ l) = ground (arith, find-chain_forget ino x l)

other_forgotten : (ino x : ℕ) (o : Option InodeRef) → (x == ino) ≡ false → o ≡ forgotten ino x o
other_forgotten ino x none h = refl
other_forgotten ino x (some r) h = rw h refl

unlink-none :
    (addr x : ℕ) (l : List InodeRef)
    → chain_find x l ≡ none
    → chain_find x (chain_unlink addr l) ≡ none
unfolding chain_find chain_unlink
unlink-none addr x [] h = refl
unlink-none addr x (r ∷ l) h = ground (arith, unlink-none addr x l)

unlink-IsOnce : (addr : ℕ) (l : List InodeRef) → IsOnce l → IsOnce (chain_unlink addr l)
unfolding chain_unlink
unlink-IsOnce addr [] once = tt
unlink-IsOnce addr (r ∷ l) once = elim (Bool-cases (is_info addr r.tii)) [
  | inl here ↦ rw here once.1
  | inr there ↦ rw there (unlink-none addr r.ino l once.0, unlink-IsOnce addr l once.1)
]

forget-IsOnce : (ino : ℕ) (l : List InodeRef) → IsOnce l → IsOnce (chain_forget ino l)
unfolding chain_forget
forget-IsOnce ino [] once = tt
forget-IsOnce ino (r ∷ l) once = elim (Bool-cases (r.ino == ino)) [
  | inl here ↦ rw here (once.0, once.1)
  | inr there ↦
      rw there (ground (arith, find-chain_forget ino r.ino l, once.0), forget-IsOnce ino l once.1)
]

-- Tracking an inode whose number is not in the table puts it there, with its address and its inode,
-- counts it, and leaves what is found under every other number alone; the numbers stay unique.
pub i_track_lem :
    (t : Itable) (i : InodeInfo)
    → IsItable t
    → itable_find t i.ino ≡ none
    → let (t', j) = i_track t i in
      IsItable t'
      × (t'.icount ≡ t.icount + 1)
      × (j ≡ record i { mapped = true })
      × ((x : ℕ)
          → find_inode_ref_by_ino t' x ≡ (
              if x == i.ino
              then some (record { tii = some i.addr; ti = i.ti; ino = i.ino })
              else find_inode_ref_by_ino t x))
unfolding i_track find_inode_ref_by_ino itable_find itable_insert itable_slot_of chain_find
i_track_lem t i v new = (
  record {
    once = λ slot. elim (Bool-cases (slot == i.ino % 33377)) [
      | inl here ↦ rw here (new, v.once (i.ino % 33377))
      | inr there ↦ rw there (v.once slot)
    ];
  },
  refl,
  refl,
  λ x. find-itable_insert t i x,
)

find-forget :
    (t : Itable) (i : InodeInfo) (x : ℕ)
    → itable_find (i_untrack t i false).0 x ≡ forgotten i.ino x (itable_find t x)
unfolding itable_find i_untrack itable_slot_of
find-forget t i x = elim (Bool-cases (x % 33377 == i.ino % 33377)) [
  | inl here ↦
      let e : x % 33377 ≡ i.ino % 33377 = ground arith in
      rw (here, e) (find-chain_forget i.ino x (t.imap (i.ino % 33377)))
  | inr there ↦
      rw there (other_forgotten i.ino x (chain_find x (t.imap (x % 33377))) (ground arith))
]

removed-IsOnce :
    (t : Itable) (i : InodeInfo) → IsItable t → (slot : ℕ) → IsOnce ((itable_remove t i).imap slot)
unfolding itable_remove itable_slot_of
removed-IsOnce t i v slot = elim (Bool-cases (chain_has i.addr (t.imap (i.ino % 33377)))) [
  | inr absent ↦ rw absent (v.once slot)
  | inl has ↦ elim (Bool-cases (slot == i.ino % 33377)) [
    | inl here ↦
        rw (has, here) (unlink-IsOnce i.addr (t.imap (i.ino % 33377)) (v.once (i.ino % 33377)))
    | inr there ↦ rw (has, there) (v.once slot)
  ]
]

-- Untracking a tracked inode for good removes exactly its number from the table and counts it off;
-- untracking it while its inode stays known leaves its number in the table without an address. What
-- is found under every other number stays as it was, and the numbers stay unique.
pub i_untrack_lem :
    (t : Itable) (i : InodeInfo)
    → IsItable t
    → KnownAs t i
    → chain_has i.addr (t.imap (itable_slot_of i.ino)) ≡ true
    → (let (t', j) = i_untrack t i true in
        IsItable t'
        × (t'.icount ≡ t.icount - 1)
        × (j.mapped ≡ false)
        × ((x : ℕ)
            → find_inode_ref_by_ino t' x
              ≡ (if x == i.ino then none else find_inode_ref_by_ino t x)))
      × (let (t', j) = i_untrack t i false in
          IsItable t'
          × (t'.icount ≡ t.icount)
          × (j.mapped ≡ false)
          × ((x : ℕ) → find_inode_ref_by_ino t' x ≡ forgotten i.ino x (find_inode_ref_by_ino t x)))
unfolding i_untrack find_inode_ref_by_ino itable_find itable_remove itable_slot_of
i_untrack_lem t i v known has = (
  (
    record { once = removed-IsOnce t i v },
    ground (arith, has),
    refl,
    λ x. find-itable_remove t i x v known has,
  ),
  (
    record {
      once = λ slot. elim (Bool-cases (slot == i.ino % 33377)) [
        | inl here ↦ rw here (forget-IsOnce i.ino (t.imap (i.ino % 33377)) (v.once (i.ino % 33377)))
        | inr there ↦ rw there (v.once slot)
      ];
    },
    refl,
    refl,
    λ x. find-forget t i x,
  ),
)
