-- ===== src/Toyfs/Errno.antt =====
-- The error numbers that fs/toyfs returns, and the results that carry them.
use zufs_zus.Common.{ℕ}

pub data Errno : Type 0 where
  einval efbig enospc enotsup eisdir enomem enoent enotempty : Errno

-- A C function's `int` result, with the end of the fuel of a loop kept apart.
pub data Rc : Type 0 where
  ok : ℕ → Rc
  fail : Errno → Rc
  out_of_fuel : Rc
