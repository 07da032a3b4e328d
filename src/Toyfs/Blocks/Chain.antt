-- ===== src/Toyfs/Blocks/Chain.antt =====
-- The iblkref list of a file: looking up, inserting, repointing and removing by offset, and how
-- often a dblkref is named.
use zufs_zus.Common.{
  ℕ, ◌+◌, ◌≤◌, ◌<◌, ◌≡◌, ◌≢◌, refl, length, none, some, List, [], ◌∷◌, ◌==◌, if◌then◌else◌, arith,
}
use zufs_zus.Toyfs.Blocks.{Iblkref, fetch, walk, insert, repoint}

-- The number of iblkrefs that name `d`.
abbrev pub refs : ℕ → List Iblkref → ℕ
refs d [] = 0
refs d (b ∷ l) = (if d == b.dblkref then 1 else 0) + refs d l

-- Offsets at least `lo`, each greater than the one before.
abbrev pub IsSortedFrom : ℕ → List Iblkref → Type 0
IsSortedFrom lo [] = Unit
IsSortedFrom lo (b ∷ l) = (lo ≤ b.off) × IsSortedFrom (b.off + 1) l

pub IsSortedFrom-weaken :
    {lo : ℕ} (hi : ℕ) (l : List Iblkref) → lo ≤ hi → IsSortedFrom hi l → IsSortedFrom lo l
IsSortedFrom-weaken hi [] h s = tt
IsSortedFrom-weaken hi (b ∷ l) h s = (omega arith, s.1)

-- Below the least offset there is nothing.
pub fetch-none : (x lo : ℕ) (l : List Iblkref) → IsSortedFrom lo l → x < lo → fetch x l ≡ none
unfolding fetch
fetch-none x lo [] s h = refl
fetch-none x lo (b ∷ l) s h = ground (arith, fetch-none x (b.off + 1) l)

-- On a sorted list the walk finds what the search finds.
pub walk-eq-fetch : (x lo : ℕ) (l : List Iblkref) → IsSortedFrom lo l → walk x l ≡ fetch x l
unfolding walk fetch
walk-eq-fetch x lo [] s = refl
walk-eq-fetch x lo (b ∷ l) s =
    ground (arith, walk-eq-fetch x (b.off + 1) l, fetch-none x (b.off + 1) l)

pub off-fetch : (x : ℕ) (l : List Iblkref) (b : Iblkref) → fetch x l ≡ some b → b.off ≡ x
unfolding fetch
off-fetch x [] b h = absurd (cc)
off-fetch x (c ∷ l) b h = ground (arith, off-fetch x l b)

pub refs-fetch :
    (x : ℕ) (l : List Iblkref) (b : Iblkref) → fetch x l ≡ some b → 0 < refs b.dblkref l
unfolding fetch
refs-fetch x [] b h = absurd (cc)
refs-fetch x (c ∷ l) b h = ground (arith, refs-fetch x l b)

-- Two entries with one dblkref count twice.
pub refs-fetch_two :
    (x y : ℕ) (l : List Iblkref) (b c : Iblkref)
    → fetch x l ≡ some b
    → fetch y l ≡ some c
    → x ≢ y
    → b.dblkref ≡ c.dblkref
    → 1 < refs b.dblkref l
unfolding fetch
refs-fetch_two x y [] b c h h' ne e = absurd (cc)
refs-fetch_two x y (a ∷ l) b c h h' ne e =
    ground (arith, refs-fetch_two x y l b c, refs-fetch x l b, refs-fetch y l c)

pub fetch-insert :
    (x : ℕ) (a : Iblkref) (l : List Iblkref)
    → walk a.off l ≡ none
    → fetch x (insert a l) ≡ (if a.off == x then some a else fetch x l)
unfolding fetch insert walk
fetch-insert x a [] h = refl
fetch-insert x a (b ∷ l) h = ground (arith, fetch-insert x a l)

pub refs-insert :
    (d : ℕ) (a : Iblkref) (l : List Iblkref)
    → refs d (insert a l) ≡ (if d == a.dblkref then 1 else 0) + refs d l
unfolding insert
refs-insert d a [] = refl
refs-insert d a (b ∷ l) = ground (arith, refs-insert d a l)

pub insert-IsSortedFrom :
    (a : Iblkref) (lo : ℕ) (l : List Iblkref)
    → IsSortedFrom lo l
    → lo ≤ a.off
    → walk a.off l ≡ none
    → IsSortedFrom lo (insert a l)
unfolding insert walk
insert-IsSortedFrom a lo [] s h w = (h, tt)
insert-IsSortedFrom a lo (b ∷ l) s h w = ground (arith, insert-IsSortedFrom a (b.off + 1) l)

pub fetch-repoint :
    (x boff d : ℕ) (l : List Iblkref) (b : Iblkref)
    → fetch boff l ≡ some b
    → fetch x (repoint boff d l)
      ≡ (if boff == x then some (record b { dblkref = d }) else fetch x l)
unfolding fetch repoint
fetch-repoint x boff d [] b h = absurd (cc)
fetch-repoint x boff d (c ∷ l) b h = ground (arith, fetch-repoint x boff d l b)

pub refs-repoint :
    (e boff d : ℕ) (l : List Iblkref) (b : Iblkref)
    → fetch boff l ≡ some b
    → refs e (repoint boff d l) + (if e == b.dblkref then 1 else 0)
      ≡ (if e == d then 1 else 0) + refs e l
unfolding fetch repoint
refs-repoint e boff d [] b h = absurd (cc)
refs-repoint e boff d (c ∷ l) b h = ground (arith, refs-repoint e boff d l b)

pub repoint-IsSortedFrom :
    (boff d lo : ℕ) (l : List Iblkref) → IsSortedFrom lo l → IsSortedFrom lo (repoint boff d l)
unfolding repoint
repoint-IsSortedFrom boff d lo [] s = tt
repoint-IsSortedFrom boff d lo (b ∷ l) s = ground (arith, repoint-IsSortedFrom boff d (b.off + 1) l)

pub length-insert : (a : Iblkref) (l : List Iblkref) → length (insert a l) ≡ length l + 1
unfolding insert
length-insert a [] = omega arith
length-insert a (b ∷ l) = ground (arith, length-insert a l)

pub length-repoint : (boff d : ℕ) (l : List Iblkref) → length (repoint boff d l) ≡ length l
unfolding repoint
length-repoint boff d [] = refl
length-repoint boff d (b ∷ l) = ground (arith, length-repoint boff d l)
