-- ===== src/Format/Formatting.antt =====
-- `format` of src/formats/v1/format.rs.
pub mod Placement
pub mod RootDirectory
pub mod Formatted
use ferris_file_system.Prelude.{
  ℕ, zero, suc, ◌+◌, ◌-◌, ◌*◌, ◌/◌, [], set, add32, sub32, mul32, u16_mod,
}
use ferris_file_system.Effect.{Op, pure, ◌>>=◌, ◌>>◌}
use ferris_file_system.Device.{Block, zero_block, block_size, magic_number, BlockDevice}
use ferris_file_system.File.{directory}
use ferris_file_system.Superblock.{Superblock}
use ferris_file_system.Superblock
use ferris_file_system.Inode.{Inode, inodes_per_block}
use ferris_file_system.Inode
use ferris_file_system.InodeTable.{InodeTableHandler, add_block, write_inode}
use ferris_file_system.Directory.{new_directory}
use ferris_file_system.DirectoryHandler.{DirectoryHandler, write_directory_with_inode}

abbrev pub inode_density : ℕ
inode_density = 1024

-- `u32::div_ceil`, which does not overflow.
abbrev pub div_ceil : ℕ → ℕ → ℕ
div_ceil a b = (a + b - 1) / b

-- The superblock of a device of so many blocks.
unfoldable pub layout_for : ℕ → Superblock
layout_for blocks =
    let bits_per_block = 8 * block_size in
    let inode_count = div_ceil (mul32 block_size blocks) inode_density in
    let inode_table_blocks = div_ceil inode_count inodes_per_block in
    let inode_bitmap_blocks = div_ceil inode_table_blocks bits_per_block in
    let block_bitmap_blocks = div_ceil blocks bits_per_block in
    Superblock.new magic_number 1 block_size blocks inode_bitmap_blocks block_bitmap_blocks
      inode_table_blocks 0

-- The first bit of a bitmap set: `buf[0] = 1`.
unfoldable pub first_bit : Block
first_bit = set zero_block 0 1

module _ {D : Type 0} (dev : BlockDevice D) where
  open dev use {write_block, block_count}

  -- `for i in start..(start + count)`
  unfoldable pub zero_from : ℕ → ℕ → Op D (Unit {0})
  unfolding zero_block
  zero_from i zero = pure tt
  zero_from i (suc rounds) = do write_block i zero_block; zero_from (i + 1) rounds

  -- The superblock is serialized over the block that was written to the bitmaps, whose first byte it
  -- replaces.
  unfoldable pub format_with : Superblock → ℕ → Op D (Unit {0})
  unfolding first_bit zero_from
  format_with s now =
      let h : InodeTableHandler = record {
        inode_table_start = s.inode_table_start;
        inode_table_blocks = s.inode_table_blocks;
        data_start = s.data_start;
      } in
      let directory_handler : DirectoryHandler = record {
        data_start = s.data_start;
        root_inode_ind = s.root_inode;
      } in
      let formatted = record s {
        free_data = sub32 s.free_data 1;
        free_inodes = sub32 s.free_inodes 1;
      } in
      do
        added ← add_block dev h (Inode.empty directory (u16_mod - 1) now) 0 []
        let root_inode = record added { size = block_size * added.blocks }
        zero_from (add32 s.inode_bitmap_start 1) s.inode_bitmap_blocks
        zero_from (add32 s.block_bitmap_start 1) s.block_bitmap_blocks
        write_block s.inode_bitmap_start first_bit
        write_block s.block_bitmap_start first_bit
        write_inode dev h 0 root_inode
        write_directory_with_inode dev h directory_handler (new_directory 0 0) root_inode
        write_block 0 (Superblock.serialize formatted first_bit)

  unfoldable pub format : ℕ → Op D (Unit {0})
  unfolding layout_for format_with
  format now d = format_with (layout_for (block_count d)) now d
