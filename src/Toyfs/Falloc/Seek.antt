-- ===== src/Toyfs/Falloc/Seek.antt =====
-- What `toyfs_seek` of fs/toyfs/file.c finds.
use zufs_zus.Common.{
  ℕ, suc, ◌+◌, ◌-◌, ◌*◌, ◌/◌, ◌≤◌, ◌<◌, ◌≡◌, ◌≢◌, ◌⊎◌, Bool, true, false, not, ◌&&◌, ◌^◌,
  if◌then◌else◌, Option, none, some, ltb,
}
use zufs_zus.Toyfs.Errno.{Errno}
use zufs_zus.Toyfs.Blocks.{Inode, fetch}
use zufs_zus.Common.Int.{ℤ, negsuc}
use zufs_zus.Toyfs.Falloc.{found_off, seek_block}

-- whether the page that holds `x` is mapped
abbrev pub is_mapped : Inode → ℕ → Bool
is_mapped f x = elim (fetch (x / 4096 * 4096) f.iblkrefs) [ none ↦ false | some b ↦ true ]

-- The least offset from `off` on, below the size, whose page is mapped (or not, for a hole).
pub IsFirst : Inode → ℕ → Bool → Option ℕ → Type 0
IsFirst f off mapped none = (x : ℕ) → off ≤ x → x < f.i_size → is_mapped f x ≢ mapped
IsFirst f off mapped (some y) =
    (off ≤ y)
    × (y < f.i_size)
    × (is_mapped f y ≡ mapped)
    × ((x : ℕ) → off ≤ x → x < y → is_mapped f x ≢ mapped)

-- Whether a walk for `mapped` ends at the offset `-n` at once: by the division of the code, which
-- rounds towards 0, that is in the page 0 or in no page at all.
abbrev pub below : Inode → ℕ → Bool → Bool
below f n mapped = if ltb n 4096 && is_mapped f 0 then mapped else not mapped

-- What a walk from the offset `-n` on finds.
abbrev pub found_below : Inode → ℕ → Bool → ℤ
found_below f n mapped =
    if below f n mapped then negsuc (n - 1) else found_off (seek_block (suc f.i_size) f 0 mapped)

-- What `toyfs_seek` answers for the offset `off` in 64 bits: from an offset that is not negative the
-- first one with `mapped`, or -1; from a negative one, `-n`, that offset itself if it is in the page
-- 0 or in no page and this is what is looked for, else what is found from 0 on.
abbrev pub Seeks : Inode → ℕ → Bool → Option Errno × ℤ → Type 0
Seeks f off mapped r =
    ((x : Option ℕ) × (off < 2 ^ 63) × (r ≡ (none, found_off x)) × IsFirst f off mapped x)
    ⊎ ((n : ℕ) × (x : Option ℕ) × (off + n ≡ 2 ^ 64)
        × (0 < n)
        × (n ≤ 2 ^ 63)
        × (r ≡ (none, if below f n mapped then negsuc (n - 1) else found_off x))
        × IsFirst f 0 mapped x)
