-- ===== src/Toyfs/FileTests.antt =====
-- A small disk and runs of the file operations of fs/toyfs/file.c on it.
use Prim.Native.Nat.{min, max}
use mathlib.Core.Logic.{◌↔◌}
use zufs_zus.Common.{
  ◌*◌, ◌/◌, ◌⊎◌, ◌-◌, ◌^◌, ℕ, ◌+◌, ◌≤◌, ◌<◌, ◌≡◌, ◌≢◌, refl, none, some, ◌&&◌, leb, [], ◌∷◌, ltb,
  if◌then◌else◌, arith,
}
use zufs_zus.Common.Int.{negsuc}
use zufs_zus.Toyfs.Errno.{enospc, Rc, ok, fail}
use zufs_zus.Toyfs.Pool.{Sbi, acquire_pmemb, acquire_dblkref, acquire_iblkref}
use zufs_zus.Toyfs.Pool.Inv.{Uses, Same}
use zufs_zus.Toyfs.Blocks.{Iblkref, Inode, fetch}
use zufs_zus.Toyfs.Blocks.Chain.{refs}
use zufs_zus.Toyfs.Blocks.Content.{uses, IsFile, byte_at, IsConsistent-mono}
use zufs_zus.Toyfs.Io.{check_io, check_rw, read, write}
use zufs_zus.Toyfs.Io.Check.{check_rw_iff}
use zufs_zus.Toyfs.Io.Read.{read_lem, read-write}
use zufs_zus.Toyfs.Io.Write.{Written, write_lem}
use zufs_zus.Toyfs.Falloc.{zero_range_at, punch_hole, falloc_range, seek}
use zufs_zus.Toyfs.Falloc.Grow.{falloc_range_lem, zero_range_at-byte_at}
use zufs_zus.Toyfs.Falloc.Punch.{IsPrivate, punch_hole_lem}
use zufs_zus.Toyfs.Trunc.Clear.{Cleared}
use zufs_zus.Toyfs.Clone.{clone_entire_file_range, clone_sub_file_range}
use zufs_zus.Toyfs.Clone.Entire.{ClonedFile, clone_entire_file_range_lem}
use zufs_zus.Toyfs.Clone.Isolation.{write-clone_entire_file_range}
use zufs_zus.Toyfs.Clone.Range.{ClonedRange, clone_sub_file_range_lem}

abbrev disk : Sbi
disk = record {
  pages = 1 ∷ 2 ∷ 3 ∷ 4 ∷ 5 ∷ 6 ∷ [];
  free_dblkrefs = [];
  free_iblkrefs = [];
  bfree = 6;
  bavail = 6;
  dblk = λ d. record { refcnt = 0; bn = 0 };
  mem = λ p o. 0;
}

abbrev blank : Inode
blank = record { i_mode = 33188; i_size = 0; i_blocks = 0; iblkrefs = [] }

abbrev nobody : Uses
nobody d = 0

blank-IsFile : IsFile disk blank nobody
blank-IsFile = record {
  consistent = record {
    counted = λ d. omega arith;
    distinct = λ d e h. absurd (omega arith);
    page_used = λ d h. absurd (omega arith);
    ref_used = λ d h. absurd (omega arith);
    pages_once = λ p. ground arith;
    refs_once = λ d. omega arith;
    cut = λ d h. absurd (omega arith);
    apart = λ d e h. absurd (omega arith);
  };
  sorted = tt;
  blocks = refl;
}

abbrev text : ℕ → ℕ
text i = 65 + i

passed : check_rw 8192 4000 200 ≡ none
unfolding check_rw check_io
passed = refl

-- 200 bytes over the end of the first page
abbrev stored : Rc × Sbi × Inode
stored = write 8192 disk blank text 4000 200

stored-Written : Written disk blank nobody text 4000 200 stored.0 stored.1 stored.2
stored-Written = write_lem 8192 text 4000 200 blank-IsFile passed

written_ok : stored.0 ≡ ok 200
unfolding write acquire_pmemb acquire_dblkref acquire_iblkref
written_ok = refl

stored-IsFile : IsFile stored.1 stored.2 nobody
stored-IsFile = stored-Written.file

-- the part in the second page read back
byte_97 : (read 8192 stored.1 stored.2 (λ i. 7) 4000 200).1 97 ≡ 162
unfolding read write fetch acquire_pmemb acquire_dblkref acquire_iblkref
byte_97 = refl

blank_beside : IsFile stored.1 blank (uses stored.2.iblkrefs nobody)
blank_beside = record {
  consistent =
      IsConsistent-mono (uses blank.iblkrefs (uses stored.2.iblkrefs nobody)) (λ d. omega arith)
        stored-IsFile.consistent;
  sorted = tt;
  blocks = refl;
}

written_beside : IsFile stored.1 stored.2 (uses blank.iblkrefs nobody)
written_beside = record {
  consistent =
      IsConsistent-mono (uses stored.2.iblkrefs (uses blank.iblkrefs nobody)) (λ d. omega arith)
        stored-IsFile.consistent;
  sorted = stored-IsFile.sorted;
  blocks = stored-IsFile.blocks;
}

ok_not_fail : stored.0 ≢ fail enospc
ok_not_fail h = let e = written_ok in cc

check_rw_iff_example :
    (check_rw 8192 4000 200 ≡ none) ↔ ((0 < 200) × (200 ≤ 8192) × (4000 + 200 ≤ 2 ^ 50))
check_rw_iff_example = check_rw_iff 8192 4000 200 (omega arith)

write_lem_example : Written disk blank nobody text 4000 200 stored.0 stored.1 stored.2
write_lem_example = write_lem 8192 text 4000 200 blank-IsFile passed

read_lem_example :
    let (rc, bytes) = read 8192 stored.1 stored.2 (λ i. 7) 4000 200 in
    (rc ≡ ok (min (4000 + 200) stored.2.i_size - 4000))
    × ((i : ℕ)
        → bytes i ≡ (
            if ltb i (min (4000 + 200) stored.2.i_size - 4000)
            then byte_at stored.1 stored.2.iblkrefs (4000 + i)
            else 7))
read_lem_example = read_lem 8192 stored.1 stored.2 (λ i. 7) 4000 200 passed

read-write_example :
    let (rc, bytes) = read 8192 stored.1 stored.2 (λ i. 7) 4000 200 in
    (rc ≡ ok 200) × ((i : ℕ) → i < 200 → bytes i ≡ text i)
read-write_example = read-write 8192 text (λ i. 7) 4000 200 blank-IsFile passed ok_not_fail

clone_entire_file_range_lem_example :
    let (rc, t, g) = clone_entire_file_range stored.1 stored.2 blank in
    ClonedFile stored.1 stored.2 blank nobody rc t g
clone_entire_file_range_lem_example =
    clone_entire_file_range_lem {f = stored.2} {ext = nobody} blank_beside written_beside

clone_sub_file_range_lem_example :
    let (rc, t, g) = clone_sub_file_range stored.1 stored.2 blank 4096 0 4096 in
    ClonedRange stored.1 stored.2 blank nobody 4096 0 4096 rc t g
clone_sub_file_range_lem_example =
    clone_sub_file_range_lem {f = stored.2} {ext = nobody} 4096 0 4096 blank_beside (refl, refl)
      refl (omega arith) (omega arith)

abbrev page : Iblkref
page = record { node = 256; dblkref = 128; off = 0 }

page_found : fetch (5 / 4096 * 4096) (page ∷ []) ≡ some page
unfolding fetch
page_found = refl

abbrev next_page_ref : Iblkref
next_page_ref = record { node = 385; dblkref = 257; off = 4096 }

abbrev first_page_ref : Iblkref
first_page_ref = record { node = 384; dblkref = 256; off = 0 }

stored_list : stored.2.iblkrefs ≡ first_page_ref ∷ next_page_ref ∷ []
unfolding write acquire_pmemb acquire_dblkref acquire_iblkref
stored_list = refl

two_pages :
    (y : ℕ) (b : Iblkref)
    → fetch y (first_page_ref ∷ next_page_ref ∷ []) ≡ some b
    → refs b.dblkref (first_page_ref ∷ next_page_ref ∷ []) + nobody b.dblkref ≡ 1
unfolding fetch
two_pages y b h = ground arith

-- the two pages of the file have one name each
stored-IsPrivate : IsPrivate stored.2 nobody
unfolding fetch
stored-IsPrivate y b h = rw stored_list (two_pages y b (rw stored_list at h))

punch_hole_lem_example :
    let (rc, t, g) = punch_hole stored.1 stored.2 4050 100 in
    (rc ≡ ok 0) × Cleared stored.1 stored.2 nobody (λ x. leb 4050 x && ltb x (4050 + 100)) t g
punch_hole_lem_example = punch_hole_lem 4050 100 stored-IsFile stored-IsPrivate (omega arith)

falloc_range_lem_example :
    let (rc, t, g) = falloc_range stored.1 stored.2 0 9000 in
    IsFile t g nobody
    × Same nobody stored.1 t
    × ((x : ℕ) → byte_at t g.iblkrefs x ≡ byte_at stored.1 stored.2.iblkrefs x)
    × (((rc ≡ ok 0) × (g.i_size ≡ max stored.2.i_size (0 + 9000)))
        ⊎ ((rc ≡ fail enospc) × (g.i_size ≡ stored.2.i_size)))
falloc_range_lem_example = falloc_range_lem 0 9000 stored-IsFile (omega arith)

-- From -5 on, SEEK_DATA ends at once, as the page 0 is mapped, and SEEK_HOLE goes on from 0.
seek_negative : seek stored.2 (2 ^ 64 - 5) 3 ≡ (none, negsuc 4)
unfolding seek write acquire_pmemb acquire_dblkref acquire_iblkref fetch
seek_negative = refl

seek_far_below : seek stored.2 (2 ^ 64 - 9000) 4 ≡ (none, negsuc 8999)
unfolding seek write acquire_pmemb acquire_dblkref acquire_iblkref fetch
seek_far_below = refl

-- A disk full of nines.
abbrev nines : Sbi
nines = record disk { mem = λ p o. 9 }

-- A page of nines that this file and another one name: its first ten bytes cleared.
zero_range_at-byte_at_example : byte_at (zero_range_at nines page 0 10) (page ∷ []) 5 ≡ 0
zero_range_at-byte_at_example =
    zero_range_at-byte_at nines page page 0 10 (page ∷ []) 5 page_found refl (omega arith)
      (omega arith)

clone_passed : check_rw 8192 4090 20 ≡ none
unfolding check_rw check_io
clone_passed = refl

-- The clone is then written to over the end of its first page.
write-clone_entire_file_range_example :
    let (cloned, t, k) = clone_entire_file_range stored.1 stored.2 blank in
    let (rc, v, h) = write 8192 t k (λ i. 33) 4090 20 in
    ((x : ℕ) → byte_at v stored.2.iblkrefs x ≡ byte_at stored.1 stored.2.iblkrefs x)
    × (((x : ℕ)
          → (x < 4090) ⊎ (4090 + 20 ≤ x)
          → byte_at v h.iblkrefs x ≡ byte_at stored.1 stored.2.iblkrefs x)
        ⊎ (cloned ≡ some enospc))
    × (((x : ℕ) → 4090 ≤ x → x < 4090 + 20 → byte_at v h.iblkrefs x ≡ 33) ⊎ (rc ≡ fail enospc))
write-clone_entire_file_range_example =
    write-clone_entire_file_range 8192 {f = stored.2} nobody (λ i. 33) 4090 20 blank_beside
      written_beside clone_passed
