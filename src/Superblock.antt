-- ===== src/Superblock.antt =====
-- src/formats/v1/superblock.rs: the layout of a formatted device, kept in its first block.
pub mod RoundTrip
use ferris_file_system.Prelude.{ℕ, ◌+◌, ◌-◌, ◌*◌, List, [], ◌∷◌, add32, sub32, mul32}
use ferris_file_system.Device.{Block}
use ferris_file_system.Codec.{Field, write_fields, read_field}
use ferris_file_system.Inode.{inodes_per_block}

pub record Superblock : Type 0 where
  pub magic : ℕ
  pub version : ℕ
  pub block_size : ℕ
  pub total_blocks : ℕ
  pub inode_bitmap_start : ℕ
  pub inode_bitmap_blocks : ℕ
  pub block_bitmap_start : ℕ
  pub block_bitmap_blocks : ℕ
  pub inode_table_start : ℕ
  pub inode_table_blocks : ℕ
  pub data_start : ℕ
  pub root_inode : ℕ
  pub free_inodes : ℕ
  pub free_data : ℕ

unfoldable pub new :
    (magic version block_size total_blocks inode_bitmap_blocks block_bitmap_blocks
      inode_table_blocks root_inode : ℕ)
    → Superblock
new magic version block_size total_blocks inode_bitmap_blocks block_bitmap_blocks inode_table_blocks
      root_inode =
    let inode_bitmap_start : ℕ = 1 in
    let block_bitmap_start = add32 inode_bitmap_start inode_bitmap_blocks in
    let inode_table_start = add32 block_bitmap_start block_bitmap_blocks in
    let data_start = add32 inode_table_start inode_table_blocks in
    record {
      magic = magic;
      version = version;
      block_size = block_size;
      total_blocks = total_blocks;
      inode_bitmap_start = inode_bitmap_start;
      inode_bitmap_blocks = inode_bitmap_blocks;
      block_bitmap_start = block_bitmap_start;
      block_bitmap_blocks = block_bitmap_blocks;
      inode_table_start = inode_table_start;
      inode_table_blocks = inode_table_blocks;
      data_start = data_start;
      root_inode = root_inode;
      free_inodes = mul32 inode_table_blocks inodes_per_block;
      free_data = sub32 total_blocks data_start;
    }

-- The order of the `write_field!` calls of `serialize`.
abbrev pub fields : Superblock → List Field
fields s =
    (8, s.magic)
    ∷ (4, s.version)
    ∷ (4, s.block_size)
    ∷ (4, s.total_blocks)
    ∷ (4, s.inode_bitmap_start)
    ∷ (4, s.inode_bitmap_blocks)
    ∷ (4, s.block_bitmap_start)
    ∷ (4, s.block_bitmap_blocks)
    ∷ (4, s.inode_table_start)
    ∷ (4, s.inode_table_blocks)
    ∷ (4, s.data_start)
    ∷ (4, s.root_inode)
    ∷ (4, s.free_inodes)
    ∷ (4, s.free_data)
    ∷ []

unfoldable pub serialize : Superblock → Block → Block
serialize s buf = write_fields buf 0 (fields s)

-- Each field at the offset that the `read_field!` calls before it leave.
unfoldable pub deserialize : Block → Superblock
deserialize buf = record {
  magic = read_field 8 buf 0;
  version = read_field 4 buf 8;
  block_size = read_field 4 buf 12;
  total_blocks = read_field 4 buf 16;
  inode_bitmap_start = read_field 4 buf 20;
  inode_bitmap_blocks = read_field 4 buf 24;
  block_bitmap_start = read_field 4 buf 28;
  block_bitmap_blocks = read_field 4 buf 32;
  inode_table_start = read_field 4 buf 36;
  inode_table_blocks = read_field 4 buf 40;
  data_start = read_field 4 buf 44;
  root_inode = read_field 4 buf 48;
  free_inodes = read_field 4 buf 52;
  free_data = read_field 4 buf 56;
}
