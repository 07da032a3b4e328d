-- ===== src/Toyfs/Dir.antt =====
-- Directories, fs/toyfs/dir.c: pages of 127 slots. An entry whose name is longer than the 14 bytes of
-- `d_name` goes on in the slots behind its own, which then hold bytes of the name only.
pub mod Add
pub mod Entry
pub mod Lookup
pub mod Names
pub mod Remove
pub mod Room
pub mod Slots
mod Tests
use zufs_zus.Common.{
  ℕ, zero, suc, ◌+◌, ◌-◌, ◌*◌, ◌/◌, ◌%◌, ◌^◌, Bool, true, false, ◌&&◌, ◌||◌, not, Option, none,
  some, List, [], ◌∷◌, ◌++◌, length, ltb, leb, ◌==◌, if◌then◌else◌,
}
use zufs_zus.Toyfs.Errno.{Errno, enospc, enoent, enotempty}
use zufs_zus.Toyfs.Trunc.{is_dir}
use zufs_zus.Toyfs.Pool.{Sbi, page_size, acquire_pmemb, release_pmemb}

-- `struct toyfs_dirent` with the name that starts in it.
pub record Dirent : Type 0 where
  pub d_off : ℕ
  pub d_ino : ℕ
  pub d_type : ℕ
  pub d_name : List ℕ

-- what a clear slot holds
abbrev pub no_dirent : Dirent
no_dirent = record { d_off = 0; d_ino = 0; d_type = 0; d_name = [] }

-- A slot of `struct toyfs_dentries` is clear, starts an entry, or holds more of a name.
pub data Slot : Type 0 where
  clear : Slot
  entry : Dirent → Slot
  more : Slot

abbrev pub slots_per_page : ℕ
slots_per_page = 127

-- whether `strncmp` of names of one length is 0; it does not look past a byte 0
unfoldable pub same_bytes : List ℕ → List ℕ → Bool
same_bytes [] m = true
same_bytes (a ∷ l) [] = false
same_bytes (a ∷ l) (b ∷ m) = (a == b) && ((a == 0) || same_bytes l m)

-- `_hasname`
unfoldable pub same_name : List ℕ → List ℕ → Bool
unfolding same_bytes
same_name l m = (length l == length m) && same_bytes l m

-- `sizeof(de->d_name)` is 14 and `sizeof(*de)` 32.
unfoldable pub namelen_to_nde : ℕ → ℕ
namelen_to_nde nlen = if ltb 14 nlen then 1 + (nlen - 14 + 32 - 1) / 32 else 1

unfoldable pub skip : ℕ → List Slot → List Slot
skip zero l = l
skip (suc n) [] = []
skip (suc n) (x ∷ l) = skip n l

unfoldable pub fill : ℕ → Slot → List Slot → List Slot
fill zero x l = l
fill (suc n) x l = x ∷ fill n x l

-- `_count_free_de`
unfoldable pub count_free_de : List Slot → ℕ
count_free_de [] = 0
count_free_de (clear ∷ l) = suc (count_free_de l)
count_free_de (entry d ∷ l) = 0
count_free_de (more ∷ l) = 0

-- `_search_free`, from the slot number `at` on; none where a byte of a name would be read as an
-- entry (which the invariant excludes), some none where there is no room.
unfoldable pub search_free : ℕ → List Slot → (at required : ℕ) → Option (Option ℕ)
unfolding count_free_de skip namelen_to_nde
search_free zero l at required = none
search_free (suc k) [] at required = some none
search_free (suc k) (clear ∷ l) at required =
    let count = count_free_de (clear ∷ l) in
    let rest = search_free k (skip count (clear ∷ l)) (at + count) required in
    if leb required count then some (some at) else rest
search_free (suc k) (entry d ∷ l) at required =
    let nde = namelen_to_nde (length d.d_name) in
    let rest = search_free k (skip nde (entry d ∷ l)) (at + nde) required in
    if required == 0 then some (some at) else rest
search_free (suc k) (more ∷ l) at required = none

-- `_find_dirent`: the slot number and the entry of a name. `_next_dirent` steps over the slots of
-- an active entry (one with a name and an inode number) and by one slot otherwise. A clear slot is
-- the entry of an empty name.
unfoldable pub find_dirent : ℕ → List Slot → (at : ℕ) → List ℕ → Option (Option (ℕ × Dirent))
unfolding skip namelen_to_nde same_name
find_dirent zero l at str = none
find_dirent (suc k) [] at str = some none
find_dirent (suc k) (clear ∷ l) at str =
    let rest = find_dirent k l (at + 1) str in
    if same_name no_dirent.d_name str then some (some (at, no_dirent)) else rest
find_dirent (suc k) (more ∷ l) at str = none
find_dirent (suc k) (entry d ∷ l) at str =
    let nlen = length d.d_name in
    let step = if ltb 0 nlen && not (d.d_ino == 0) then namelen_to_nde nlen else 1 in
    let rest = find_dirent k (skip step (entry d ∷ l)) (at + step) str in
    if same_name d.d_name str then some (some (at, d)) else rest

-- `_set_dirent` at the slot number `at`, and `_reset_dirent` of an entry there
unfoldable pub put : ℕ → ℕ → (ℕ → List Slot → List Slot) → List Slot → List Slot
put zero n f l = f n l
put (suc at) n f [] = []
put (suc at) n f (x ∷ l) = x ∷ put at n f l

unfoldable pub set_dirent : ℕ → Dirent → List Slot → List Slot
unfolding put fill skip namelen_to_nde
set_dirent at d l =
    put at (namelen_to_nde (length d.d_name)) (λ n rest. entry d ∷ fill (n - 1) more (skip n rest))
      l

unfoldable pub reset_dirent : ℕ → Dirent → List Slot → List Slot
unfolding put fill skip namelen_to_nde
reset_dirent at d l =
    put at (namelen_to_nde (length d.d_name)) (λ n rest. fill n clear (skip n rest)) l

-- A page of a directory, by its block number.
pub record Page : Type 0 where
  pub bn : ℕ
  pub slots : List Slot

-- What the operations read and change of the inode of a directory, and of an inode that it names.
pub record DirInode : Type 0 where
  pub i_size : ℕ
  pub i_blocks : ℕ
  pub i_nlink : ℕ
  pub childs : List Page

pub record Child : Type 0 where
  pub i_ino : ℕ
  pub i_mode : ℕ
  pub i_size : ℕ
  pub i_nlink : ℕ

-- `toyfs_lookup_dirent`: the number of the page in the list, the slot number and the entry.
unfoldable pub lookup_from : List Page → (pagei : ℕ) → List ℕ → Option (Option (ℕ × ℕ × Dirent))
unfolding find_dirent
lookup_from [] pagei str = some none
lookup_from (p ∷ l) pagei str =
    let rest = lookup_from l (pagei + 1) str in
    elim (find_dirent (suc slots_per_page) p.slots 0 str) [
      | none ↦ none
      | some r ↦ elim r [ none ↦ rest | some (at, d) ↦ some (some (pagei, at, d)) ]
    ]

unfoldable pub lookup_dirent : DirInode → List ℕ → Option (Option (ℕ × ℕ × Dirent))
unfolding lookup_from
lookup_dirent dir str = lookup_from dir.childs 0 str

-- The loop of `_acquire_dirent`: the page, the slot number and `d_off` of the room that is found.
unfoldable pub room_from : List Page → (pagei d_off required : ℕ) → Option (Option (ℕ × ℕ × ℕ))
unfolding search_free
room_from [] pagei d_off required = some none
room_from (p ∷ l) pagei d_off required =
    let rest = room_from l (pagei + 1) (d_off + slots_per_page) required in
    elim (search_free (suc slots_per_page) p.slots 0 required) [
      | none ↦ none
      | some r ↦ elim r [ none ↦ rest | some at ↦ some (some (pagei, at, d_off + at)) ]
    ]

-- one page of the list changed
unfoldable pub on_page : ℕ → (List Slot → List Slot) → List Page → List Page
on_page pagei f [] = []
on_page zero f (p ∷ l) = record p { slots = f p.slots } ∷ l
on_page (suc n) f (p ∷ l) = p ∷ on_page n f l

-- A page from the pool is all zeros, so its slots are clear.
unfoldable pub acquire_dirent :
    Sbi → DirInode → (nlen : ℕ) → Option (Option (ℕ × ℕ × ℕ) × Sbi × DirInode)
unfolding room_from namelen_to_nde acquire_pmemb fill
acquire_dirent s dir nlen = elim (room_from dir.childs 0 2 (namelen_to_nde nlen)) [
  | none ↦ none
  | some r ↦ elim r [
    | some place ↦ some (some place, s, dir)
    | none ↦
        let (q, t) = acquire_pmemb s in
        elim q [
          | none ↦ some (none, t, dir)
          | some p ↦ some (
            some (length dir.childs, 0, 2 + slots_per_page * length dir.childs),
            t,
            record dir {
              i_blocks = dir.i_blocks + 1;
              childs = dir.childs ++ (record { bn = p; slots = fill slots_per_page clear [] } ∷ []);
            },
          )
        ]
  ]
]

-- `le32_add` of zus.h; a negative addend -n is 2 ^ 32 - n.
unfoldable pub le32_add : ℕ → ℕ → ℕ
le32_add a b = (a + b) % 2 ^ 32

unfoldable pub std_add_dentry : DirInode → Child → DirInode × Child
unfolding is_dir le32_add
std_add_dentry dir c =
    let c' : Child = record c { i_nlink = le32_add c.i_nlink 1 } in
    (if is_dir c.i_mode then record dir { i_nlink = le32_add dir.i_nlink 1 } else dir, c')

-- Adding -1 is adding 2 ^ 32 - 1.
unfoldable pub std_remove_dentry : DirInode → Child → DirInode × Child
unfolding is_dir le32_add
std_remove_dentry dir c =
    let minus_one = 2 ^ 32 - 1 in
    if is_dir c.i_mode
    then (
      record dir { i_nlink = le32_add dir.i_nlink minus_one },
      record c { i_nlink = le32_add (le32_add c.i_nlink minus_one) minus_one },
    )
    else (dir, record c { i_nlink = le32_add c.i_nlink minus_one })

-- `toyfs_add_dentry`; `IFTODT` of the mode is its type, above the 12 bits of the permissions.
unfoldable pub add_dentry :
    Sbi → DirInode → Child → List ℕ → Option (Option Errno × Sbi × DirInode × Child)
unfolding acquire_dirent on_page set_dirent std_add_dentry
add_dentry s dir c str = elim (acquire_dirent s dir (length str)) [
  | none ↦ none
  | some (r, t, dir') ↦ elim r [
    | none ↦ some (some enospc, t, dir', c)
    | some (pagei, at, d_off) ↦
        let d : Dirent = record {
          d_off = d_off;
          d_ino = c.i_ino;
          d_type = c.i_mode / 4096 % 16;
          d_name = str;
        } in
        let (dir'', c') =
          std_add_dentry
            (record dir' {
              i_size = dir'.i_size + page_size;
              childs = on_page pagei (set_dirent at d) dir'.childs;
            })
            c in
        some (none, t, dir'', c')
  ]
]

-- `toyfs_remove_dentry`; none also where `_reset_dirent` stops the process, at an entry without a
-- name.
unfoldable pub remove_dentry : DirInode → Child → List ℕ → Option (Option Errno × DirInode × Child)
unfolding lookup_dirent is_dir on_page reset_dirent std_remove_dentry
remove_dentry dir c str = elim (lookup_dirent dir str) [
  | none ↦ none
  | some r ↦ elim r [
    | none ↦ some (some enoent, dir, c)
    | some (pagei, at, d) ↦
        if is_dir c.i_mode && not (c.i_size == 0)
        then some (some enotempty, dir, c)
        else if length d.d_name == 0
        then none
        else (let (dir', c') : DirInode × Child =
              std_remove_dentry
                (record dir {
                  i_size = dir.i_size - page_size;
                  childs = on_page pagei (reset_dirent at d) dir.childs;
                })
                c in
            some (
              none,
              dir',
              (if is_dir c'.i_mode && (c'.i_nlink == 1) && (c'.i_size == 0)
                  then record c' { i_nlink = 0 }
                  else c'),
            ))
  ]
]

-- `toyfs_release_dir`
unfoldable pub release_pages : Sbi → List Page → Sbi
unfolding release_pmemb
release_pages s [] = s
release_pages s (p ∷ l) = release_pages (release_pmemb s p.bn) l

unfoldable pub release_dir : Sbi → DirInode → Sbi × DirInode
unfolding release_pages
release_dir s dir = (
  release_pages s dir.childs,
  record dir { i_blocks = dir.i_blocks - length dir.childs; childs = [] },
)
