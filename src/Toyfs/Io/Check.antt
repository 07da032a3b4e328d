-- ===== src/Toyfs/Io/Check.antt =====
-- Which ranges `_check_io` and `_check_rw` of fs/toyfs/file.c let pass.
use mathlib.Core.Logic.{◌↔◌}
use zufs_zus.Common.{ℕ, ◌+◌, ◌-◌, ◌^◌, ◌≤◌, ◌<◌, ◌≡◌, none, arith}
use zufs_zus.Toyfs.Io.{check_io, check_rw}

-- If the longest mapping is no longer than the largest file, `_check_rw` lets exactly those ranges
-- pass that are not empty, not longer than a mapping, and that end at or before the largest size:
-- the wrap of its sum is never met.
pub check_rw_iff :
    (map_max off len : ℕ)
    → map_max ≤ 2 ^ 50
    → (check_rw map_max off len ≡ none) ↔ ((0 < len) × (len ≤ map_max) × (off + len ≤ 2 ^ 50))
unfolding check_rw check_io
check_rw_iff map_max off len h = ground arith

-- `_check_io` alone lets a range pass that starts in the file and whose length, read as a signed
-- number, is negative: `n` bytes below the start for any `n` up to it.
pub check_io_negative :
    (off n : ℕ) → 0 < n → n ≤ off → off ≤ 2 ^ 50 → check_io off (2 ^ 64 - n) ≡ none
unfolding check_io
check_io_negative off n pos le h = ground arith
