-- ===== src/Lib.antt =====
-- FerrisFileSystem: a file system over a device of blocks of 256 bytes.
--
-- The program. A device (src/device/) reads and writes blocks; a cache can stand in front of another
-- device. The format (src/formats/v1/) keeps on it a superblock, two bitmaps (for inodes and for data
-- blocks), a table of inodes, and the data blocks. A bitmap is handed out by an allocator
-- (bitmap_allocator.rs); an inode names its data blocks directly, through an indirect block and through
-- a double indirect block (inode.rs, inode_handler.rs); the data blocks of a directory hold entries of
-- variable length (directory.rs, directory_handler.rs). Errors are values of one type (fs_error.rs).
--
-- The files.
--   Prelude: names of the libraries, lists over the native numbers, tests, bits of a byte, u64, u32
--     and u16.
--   FsError: the errors. FsError/Codes: their codes. FsError/Code: the laws of these.
--   Effect: results with a state; Effect/Returns: postconditions of runs that must end in `Ok`; Keeps and
--     Leaves: invariants of all ways to end; Ends: runs without a panic; Agrees: runs
--     with a given answer; Unless: runs that succeed exactly if nothing is short.
--   Device: `trait BlockDevice` as a record of operations, and its laws `IsLawful`, which the other
--     parts take as a parameter. Device/Memory: memory_device.rs, which meets them.
--   CachedDevice: cached_device.rs. Entries, Links, Misses: the hash map and the links; Coherence: the
--     store that cache and device stand for; Access: reads and writes; Flush: the write-back.
--   Codec: `write_field!` and `read_field!`; Codec/Slices, Codec/Bytes and
--     Codec/Fields: their laws.
--   File: file.rs. Superblock: superblock.rs. Inode: inode.rs. RoundTrip below them: their laws.
--   Bitmap: bitmap_allocator.rs. View: the bits as a function of the index; Modify: allocate, deallocate,
--     is_allocated; ScanBits, Scan, Find, Free: find_free; FirstOpen, First: find_allocate; CountBytes,
--     Counting: count_allocated.
--   InodeTable: inode_handler.rs. Rows: the table as an array; Blocks, Entries, Append: the blocks of an inode;
--     Growth, Pool, Required: what adding blocks takes from the pool.
--   Directory: directory.rs; RoundTrip, FreeRegion: the bytes of an entry and of a free region.
--   DirectoryHandler: directory_handler.rs. Layouts: its iteration; Search: find_entry; Regions, Insertion:
--     add_entry_here and add_entry_grow; Resolving: the resolution of paths; Walking, Walking/Resolution:
--     what it promises, and that it does it.
--   Path: what the code uses of std::path and str on Linux; a path is a list of bytes.
--   OpenFiles: formats/v1/file.rs, the metadata of open files and the table of them.
--   Format: the state of format.rs, the allocation, mounting and the access to inodes. Running: calls of
--     the device; Allocation: `allocate`; Mounting: `mount`.
--   Format/Files: the operations on open files. Contents: a file as an array of bytes; ReadLoop, Reading:
--     `read` and `seek`; Separation, WriteRound, WriteLoop, Writing: `write`; Handles, Frame, Sessions,
--     Opening, Stale: the handles; Ending: that `read` ends.
--   Format/Children: the operations of format.rs on the children of a directory; Format/Paths: those on
--     paths, and the listing of common.rs; Untouched below them: what they leave of the open files.
--     Format/Formatting: `format`; Placement: where it puts the parts;
--     RootDirectory: the root; Formatted: the device behind it, and `mount`.
--   IntegrityChecker: integrity_checker_errors.rs. Format/Integrity: `check_integrity` of format.rs;
--     ReadOnly: that it only reads.
--   Tests: concrete runs.
--
-- How the code is modelled. `&mut` arguments are states that a function takes and returns. A call ends in
-- `ok`, in `err`, or in `panic`, which stands for a panic and for a loop without an end. Integers are
-- native numbers; where the code adds, subtracts or multiplies u32 or u16 the wrap-around of release
-- builds is written out (add32, sub16), and a cast is `%`. A block is a list of 256 bytes. Loops over a
-- range count down the rounds that are left. `iterate` gets 256 rounds for a block, which are enough since
-- every round that goes on has moved the offset by one at least; the search of `free_region` gets as many
-- rounds as its offset, since a loop that is still running then has seen an offset twice.
--
-- The clock is an argument, `now`. An i64 is the 64 bits of its two's complement. The rounds of `read`
-- and `write` get the length of the buffer as fuel, since every round moves a byte at least.
--
-- The recursion of `_resolve` through symlinks gets 40 levels, its maximum depth, at which no symlink is
-- followed. The theorem on it is about trees without symlinks.
--
-- The recursion of `check_integrity_recursive` has no bound in the code. Here it stops with `panic` at a depth
-- that is an argument of `check_integrity`.
--
-- Not modelled: the front end (ffs.rs), fuse, and the device over a file, which calls the operating
-- system; printing and the texts of the errors.
pub mod Bitmap
pub mod CachedDevice
pub mod Codec
pub mod Device
pub mod Directory
pub mod DirectoryHandler
pub mod Effect
pub mod File
pub mod Format
pub mod FsError
pub mod Inode
pub mod InodeTable
pub mod IntegrityChecker
pub mod OpenFiles
pub mod Path
pub mod Prelude
pub mod Superblock
pub mod Tests
