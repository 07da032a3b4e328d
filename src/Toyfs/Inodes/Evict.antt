-- ===== src/Toyfs/Inodes/Evict.antt =====
-- The end of an inode info: `toyfs_iget` and `toyfs_evict` of fs/toyfs/inode.c.
use zufs_zus.Common.{
  ℕ, zero, suc, ◌+◌, ◌≡◌, refl, sym, ap, ◌∙◌, inl, inr, true, false, Option, none, some, ◌==◌,
  if◌then◌else◌, update, arith, Bool-cases, subst,
}
use zufs_zus.Common.Int.{ℤ, pos, negsuc, inc, dec, is_zero}
use zufs_zus.Toyfs.Itable.{InodeRef, find_inode_ref_by_ino, itable_slot_of, chain_has, i_untrack}
use zufs_zus.Toyfs.Itable.Lookup.{IsItable, KnownAs, forgotten, i_untrack_lem}
use zufs_zus.Toyfs.InodePool.{Info, Fs, alloc_ii, tii_free}
use zufs_zus.Toyfs.Inodes.{
  info_of, take_ref, iget_new, iget, drop_inode, free_inode, evict_last, evict,
}

-- An inode info at `a` with its references counted.
abbrev with_info : Fs → ℕ → Info → Fs
with_info s a i = record s { info = update s.info a (some i) }

take_ref-info :
    (s : Fs) (a : ℕ) (i : Info)
    → s.info a ≡ some i
    → take_ref s a ≡ with_info s a (record i { ref = inc i.ref })
unfolding take_ref
take_ref-info s a i at = rw (at, take_ref) refl

iget-known :
    (s : Fs) (addr : Option ℕ) (ino a : ℕ) (r : InodeRef)
    → find_inode_ref_by_ino s.itable ino ≡ some r
    → r.tii ≡ some a
    → iget s addr ino ≡ (none, some a, take_ref s a)
unfolding iget
iget-known s addr ino a r found known = rw (found, known, iget) refl

evict-shared :
    (s : Fs) (a : ℕ) (i : Info)
    → s.info a ≡ some i
    → is_zero (dec i.ref) ≡ false
    → evict s a ≡ some (with_info s a (record i { ref = dec i.ref }))
unfolding evict
evict-shared s a i at more = rw (at, more, evict) refl

dec-inc : (x : ℤ) → dec (inc x) ≡ x
dec-inc (pos n) = refl
dec-inc (negsuc zero) = refl
dec-inc (negsuc (suc n)) = refl

-- `toyfs_iget` of an inode that is in use takes a reference of its inode info, and `toyfs_evict`
-- gives it back: it is not the last one, so the state is the one from before.
pub evict-iget :
    (s : Fs) (addr : Option ℕ) (ino a k : ℕ) (r : InodeRef) (i : Info)
    → find_inode_ref_by_ino s.itable ino ≡ some r
    → r.tii ≡ some a
    → s.info a ≡ some i
    → i.ref ≡ pos (suc k)
    → (t : Fs) × (evict (iget s addr ino).2 a ≡ some t)
      × (t.itable ≡ s.itable)
      × (t.ffree ≡ s.ffree)
      × (t.info a ≡ some i)
evict-iget s addr ino a k r i found known at ref = (
  with_info taken a (record j { ref = dec j.ref }),
  ap (λ x. evict x.2 a) (iget-known s addr ino a r found known)
      ∙ ap (λ x. evict x a) (take_ref-info s a i at)
      ∙ evict-shared taken a j (ground arith) (rw ref refl),
  refl,
  refl,
  info_back,
)
  where
    j : Info
    j = record i { ref = inc i.ref }

    taken : Fs
    taken = with_info s a j

    stored :
        (with_info taken a (record j { ref = dec j.ref })).info a
        ≡ some (record i { ref = dec (inc i.ref) })
    stored = ground arith

    info_back : (with_info taken a (record j { ref = dec j.ref })).info a ≡ some i
    info_back = stored ∙ ap (λ x. some (record i { ref = x })) (dec-inc i.ref)

iget_new-info :
    (s : Fs) (addr : Option ℕ) (a : ℕ) (r : InodeRef)
    → (alloc_ii s addr).0 ≡ some a
    → ((iget_new s addr r).0 ≡ some a)
      × ((iget_new s addr r).1.info a
          ≡ some (record { ti = none; ino = 0; ref = pos 1; mapped = true }))
unfolding iget_new take_ref
iget_new-info s addr a r got = (rw (got, iget_new) refl, rw (got, iget_new) (ground arith))

iget-new :
    (s : Fs) (addr : Option ℕ) (ino a : ℕ) (r : InodeRef)
    → find_inode_ref_by_ino s.itable ino ≡ some r
    → r.tii ≡ none
    → (iget_new s addr r).0 ≡ some a
    → iget s addr ino ≡ (none, some a, (iget_new s addr r).1)
unfolding iget iget_new
iget-new s addr ino a r found new got = rw (found, new, got, iget) refl

-- An inode that the table has without an inode info gets one from `toyfs_iget`, but one without the
-- inode and its number: `toyfs_evict` of it reads the links through a null pointer.
pub evict-iget_null :
    (s : Fs) (addr : Option ℕ) (ino a : ℕ) (r : InodeRef)
    → find_inode_ref_by_ino s.itable ino ≡ some r
    → r.tii ≡ none
    → (alloc_ii s addr).0 ≡ some a
    → ((iget s addr ino).1 ≡ some a)
      × ((iget s addr ino).2.info a
          ≡ some (record { ti = none; ino = 0; ref = pos 1; mapped = true }))
      × (evict (iget s addr ino).2 a ≡ none)
unfolding evict
evict-iget_null s addr ino a r found new got =
    let (given, at) = iget_new-info s addr a r got in
    subst
      (λ x.
        (x.1 ≡ some a)
        × (x.2.info a ≡ some (record { ti = none; ino = 0; ref = pos 1; mapped = true }))
        × (evict x.2 a ≡ none))
      (sym (iget-new s addr ino a r found new given)) (refl, at, rw (at, evict) refl)

evict-zero :
    (s : Fs) (a n : ℕ) (i : Info)
    → s.info a ≡ some i
    → i.ti ≡ some n
    → is_zero (dec i.ref) ≡ true
    → evict s a
      ≡ some (
          evict_last
            (with_info s a (record i { ref = dec i.ref }))
            a
            (record i { ref = dec i.ref })
            n)
unfolding evict
evict-zero s a n i at ti gone = simp (at, gone, ti, evict)

-- What releasing an inode leaves alone.
record Same (s t : Fs) : Type 0 where
  pub ffree_same : t.ffree ≡ s.ffree
  pub itable_same : t.itable ≡ s.itable

free_inode-Same : (s : Fs) (n : ℕ) → Same s (free_inode s n)
unfolding free_inode drop_inode
free_inode-Same s n = record { ffree_same = ground arith; itable_same = ground arith }

abbrev Evicted : Fs → ℕ → ℕ → Info → Fs → Type 0
Evicted u a n i t =
    (t.info a ≡ none)
    × (t.ffree ≡ u.ffree + 1)
    × IsItable t.itable
    × ((x : ℕ)
        → find_inode_ref_by_ino t.itable x ≡ (
            if (u.node n).i_nlink == 0
            then (if x == i.ino then none else find_inode_ref_by_ino u.itable x)
            else forgotten i.ino x (find_inode_ref_by_ino u.itable x)))

-- `evict_last` of an inode that is gone, and of one that is not
module _ (u : Fs) (a n : ℕ) (i : Info) (v : IsItable u.itable)
    (known : KnownAs u.itable (info_of a i))
    (has : chain_has a (u.itable.imap (itable_slot_of i.ino)) ≡ true)
    (mapped : i.mapped ≡ true) where
  last_gone : ((u.node n).i_nlink == 0) ≡ true → Evicted u a n i (evict_last u a i n)
  unfolding evict_last tii_free info_of i_untrack
  last_gone gone =
      let k = free_inode-Same u n in
      let (table, count, off, found) = (i_untrack_lem u.itable (info_of a i) v known has).0 in
      rw (gone, mapped, k.itable_same) (ground arith, ap (λ x. x + 1) k.ffree_same, table, found)

  last_kept : ((u.node n).i_nlink == 0) ≡ false → Evicted u a n i (evict_last u a i n)
  unfolding evict_last tii_free info_of i_untrack
  last_kept kept =
      let (table, count, off, found) = (i_untrack_lem u.itable (info_of a i) v known has).1 in
      rw (kept, mapped) (ground arith, refl, table, found)

-- When the last reference of a tracked inode info goes, in a well formed table that knows it, the
-- info is freed and the count of free inodes is one more. With no links left, the inode is no longer
-- in the table; with links, it is there without an inode info. Nothing else in the table changes.
pub evict_lem :
    (s : Fs) (a n : ℕ) (i : Info)
    → IsItable s.itable
    → KnownAs s.itable (info_of a i)
    → chain_has a (s.itable.imap (itable_slot_of i.ino)) ≡ true
    → s.info a ≡ some i
    → i.ti ≡ some n
    → i.ref ≡ pos 1
    → i.mapped ≡ true
    → (t : Fs) × (evict s a ≡ some t)
      × (t.info a ≡ none)
      × (t.ffree ≡ s.ffree + 1)
      × IsItable t.itable
      × ((x : ℕ)
          → find_inode_ref_by_ino t.itable x ≡ (
              if (s.node n).i_nlink == 0
              then (if x == i.ino then none else find_inode_ref_by_ino s.itable x)
              else forgotten i.ino x (find_inode_ref_by_ino s.itable x)))
unfolding info_of
evict_lem s a n i v known has at ti ref mapped =
    let (gone, free, table, found) = done in (evict_last u a j n, run, gone, free, table, found)
  where
    j : Info
    j = record i { ref = dec i.ref }

    u : Fs
    u = with_info s a j

    run : evict s a ≡ some (evict_last u a j n)
    run = evict-zero s a n i at ti (rw ref refl)

    done : Evicted u a n j (evict_last u a j n)
    done = elim (Bool-cases ((s.node n).i_nlink == 0)) [
      | inl gone ↦ last_gone u a n j v known has mapped gone
      | inr kept ↦ last_kept u a n j v known has mapped kept
    ]
