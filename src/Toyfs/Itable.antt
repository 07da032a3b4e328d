-- ===== src/Toyfs/Itable.antt =====
-- The table of inodes in use, `struct toyfs_itable` of fs/toyfs/super.c: an array of chains, hashed
-- by inode number. Its mutex makes each operation one step.
pub mod Lookup
mod Tests
use zufs_zus.Common.{
  ℕ, zero, suc, ◌+◌, ◌-◌, ◌%◌, Bool, true, false, Option, none, some, List, [], ◌∷◌, ◌==◌,
  if◌then◌else◌, update,
}

-- `struct toyfs_inode_ref`; its `next` is the place in the chain. `tii` and `ti` are addresses.
pub record InodeRef : Type 0 where
  pub tii : Option ℕ
  pub ti : ℕ
  pub ino : ℕ

-- What the table reads of a `struct toyfs_inode_info`, and its own address.
pub record InodeInfo : Type 0 where
  pub addr : ℕ
  pub ti : ℕ
  pub ino : ℕ
  pub mapped : Bool

pub record Itable : Type 0 where
  pub icount : ℕ
  pub imap : ℕ → List InodeRef

unfoldable pub itable_init : Itable
itable_init = record { icount = 0; imap = λ slot. [] }

unfoldable pub itable_slot_of : ℕ → ℕ
itable_slot_of ino = ino % 33377

unfoldable pub chain_find : ℕ → List InodeRef → Option InodeRef
chain_find ino [] = none
chain_find ino (r ∷ l) = if r.ino == ino then some r else chain_find ino l

unfoldable pub itable_find : Itable → ℕ → Option InodeRef
unfolding itable_slot_of chain_find
itable_find t ino = chain_find ino (t.imap (itable_slot_of ino))

-- `_itable_insert`, where `zus_calloc` succeeds; else the code stops.
unfoldable pub itable_insert : Itable → InodeInfo → Itable
unfolding itable_slot_of
itable_insert t i =
    let tir : InodeRef = record { tii = some i.addr; ti = i.ti; ino = i.ino } in
    let slot = itable_slot_of i.ino in
    record { icount = t.icount + 1; imap = update t.imap slot (tir ∷ t.imap slot) }

-- `tir->tii == tii`
unfoldable pub is_info : ℕ → Option ℕ → Bool
is_info addr none = false
is_info addr (some a) = a == addr

-- Whether the walk of `_itable_remove` finds a reference to unlink.
unfoldable pub chain_has : ℕ → List InodeRef → Bool
unfolding is_info
chain_has addr [] = false
chain_has addr (r ∷ l) = if is_info addr r.tii then true else chain_has addr l

unfoldable pub chain_unlink : ℕ → List InodeRef → List InodeRef
unfolding is_info
chain_unlink addr [] = []
chain_unlink addr (r ∷ l) =
    let rest = chain_unlink addr l in if is_info addr r.tii then l else r ∷ rest

unfoldable pub itable_remove : Itable → InodeInfo → Itable
unfolding itable_slot_of chain_has chain_unlink
itable_remove t i =
    let slot = itable_slot_of i.ino in
    if chain_has i.addr (t.imap slot)
    then record {
      icount = t.icount - 1;
      imap = update t.imap slot (chain_unlink i.addr (t.imap slot));
    }
    else t

-- `tir->tii = NULL` of the reference that `_itable_find` returns
unfoldable pub chain_forget : ℕ → List InodeRef → List InodeRef
chain_forget ino [] = []
chain_forget ino (r ∷ l) =
    let rest = chain_forget ino l in if r.ino == ino then record r { tii = none } ∷ l else r ∷ rest

unfoldable pub i_track : Itable → InodeInfo → Itable × InodeInfo
unfolding itable_insert
i_track t i = (itable_insert t i, record i { mapped = true })

unfoldable pub i_untrack : Itable → InodeInfo → Bool → Itable × InodeInfo
unfolding itable_remove itable_slot_of chain_forget
i_untrack t i remove =
    let j : InodeInfo = record i { mapped = false } in
    if remove then (itable_remove t i, j) else (
      record t {
        imap =
            update t.imap (itable_slot_of i.ino)
              (chain_forget i.ino (t.imap (itable_slot_of i.ino)));
      },
      j,
    )

unfoldable pub find_inode_ref_by_ino : Itable → ℕ → Option InodeRef
unfolding itable_find
find_inode_ref_by_ino t ino = itable_find t ino
