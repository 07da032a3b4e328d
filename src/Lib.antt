-- ===== src/Lib.antt =====
-- zufs-zus is the user space server of ZUFS: file systems in user space whose data is in persistent
-- memory. This library models toyfs, its reference file system (fs/toyfs), with files, directories,
-- attributes and inodes, and of the server its allocators, its table of devices and its encoder of
-- I/O maps. It proves what they do to the bytes of files, the entries of directories and the blocks
-- of memory.
--
-- Toyfs/Pool.antt is the page pool of fs/toyfs/super.c: `_pool_*` and `toyfs_acquire_*` /
-- `toyfs_release_*` for pages, dblkrefs (a page with its reference count) and iblkrefs (a file's
-- link to a dblkref). Toyfs/Pool/Inv.antt has the invariant of the pool, relative to the number of
-- references that files hold: no page is at once free, in use twice, or cut into references.
--
-- Toyfs/Blocks.antt is the block map of a regular file, fs/toyfs/file.c: `_fetch_iblkref`,
-- `_require_iblkref`, `_unique_pmemb` and what they call. Toyfs/Blocks/Content.antt has its
-- abstract view, `byte_at`, the byte of a file at each offset, and `IsFile`, when a block map is
-- well formed beside all other files. The other files of Toyfs/Blocks show what each operation
-- keeps.
--
-- Toyfs/Io.antt models `_read`, `_write` and their checks, Toyfs/Trunc.antt `toyfs_truncate`, and
-- Toyfs/Clone.antt `_clone`, which shares pages between two files: all of fs/toyfs/file.c. They
-- work on the state `Sbi` (pool, counters, bytes of all pages) and one `Inode`, passed from call to
-- call; the mutexes of the code make each a step. A page is named by its block number and a
-- reference by its place in its page.
--
-- Numbers: positions that passed the checks are plain numbers; the checks read 64-bit patterns and
-- wrap, and so do the ends of the ranges that fallocate and clone loop over (`range_end`), and an
-- offset of `toyfs_seek` may be negative. Sizes of files are below 2^63. PAGE_SIZE is 4096 bytes,
-- the value at which the assertions of `_check_typesizes` in fs/toyfs/super.c hold.
-- ZUS_API_MAP_MAX_SIZE, from a header outside the repository, is a parameter. The loops over a
-- range run on fuel, one more than its length; each round advances by at least one byte, and the
-- theorems show that no loop runs out.
--
-- Toyfs/Falloc.antt models `_fallocate` with its four modes and `toyfs_seek`, Toyfs/Itable.antt the
-- table of inodes in use of fs/toyfs/super.c (`toyfs_i_track`, `toyfs_i_untrack`).
--
-- Toyfs/Dir.antt models directories, fs/toyfs/dir.c: pages of slots in which a long name takes
-- several. Toyfs/Dir/Slots.antt and Toyfs/Dir/Names.antt have the abstract view, the sequence of
-- what stands in a page and the list of the entries of all pages; the files beside them follow the
-- operations.
--
-- Toyfs/Namei.antt models `toyfs_lookup` and `toyfs_rename` of fs/toyfs/namei.c on top of them.
--
-- Iom.antt models the encoder of I/O maps, iom_enc.h, an entry of which is a type with values; the
-- sizes of the entries' structures, of a header outside the repository, are parameters.
--
-- Md.antt models md_zus.c, the table of devices: `_gcd`, `_map_setup`, `md_init_from_pmem_info` and
-- `md_mdt_check`; Md/Crc.antt its checksum. The page shift and the accessors of `struct md_dev_id`
-- come from a header outside the repository and are parameters.
--
-- Pa.antt models the page allocator, pa.c and the page functions of zus.h, Slab.antt the slabs of
-- slab.c, and Malloc.antt what the server calls, `zus_malloc` and `zus_free`, with Malloc/Copy.antt
-- for `zus_calloc` and `zus_realloc`, which may read through a NULL page. Slab/Inv.antt has the
-- invariant, relative to the elements that callers have; Malloc/History.antt the runs of the
-- allocator as a step relation. An address is its offset from the start of the pool. The C
-- library's allocator, the outcome of tries for spin locks and of mlock are parameters. The search
-- for a run of pages takes fuel for as many additions of pages as the pool's size allows.
--
-- Toyfs/Xattr.antt models extended attributes, fs/toyfs/xattr.c, as the bytes of the inode's page;
-- its walks over the attributes take a step of a byte or more, so the 4097 rounds given are enough.
-- Toyfs/InodePool.antt models the pool of inodes of fs/toyfs/super.c, Toyfs/Inodes.antt
-- `toyfs_new_inode`, `toyfs_iget`, `toyfs_free_inode` and `toyfs_evict` of fs/toyfs/inode.c on top
-- of the table, the block map, the directories and the attributes, and fs/toyfs/symlink.c.
--
-- Not modelled: of toyfs, mounting and formatting (the rest of super.c, mkfs.c), reading a
-- directory, fiemap and mmap.c, which go through functions of headers outside the repository, and
-- the list helpers of common.c, which the models take as sequences; the dispatch of operations
-- (zus-vfs.c); threads, ioctls and memory maps (zus-core.c, main.c, fs-loader.c), logging
-- (printz.c), vector moves (movnt.h, nvml_movnt.c), the example fs/foofs.
pub mod Common
pub mod Iom
pub mod Malloc
pub mod Md
pub mod Pa
pub mod Slab
pub mod Toyfs
