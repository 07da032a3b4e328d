-- ===== src/Toyfs.antt =====
-- fs/toyfs
pub mod Errno
pub mod Pool
pub mod Xattr
pub mod Blocks
pub mod Io
mod FileTests
pub mod Trunc
pub mod Clone
pub mod Dir
pub mod Falloc
pub mod Itable
pub mod InodePool
pub mod Inodes
pub mod Namei
