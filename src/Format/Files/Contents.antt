-- ===== src/Format/Files/Contents.antt =====
-- What a file holds: the bytes of its data blocks, in order.
use ferris_file_system.Prelude.{ℕ, ◌+◌, ◌*◌, ◌/◌, ◌%◌, ◌<◌, ◌≤◌, ◌≡◌, get_or, u64_mod, add64}
use ferris_file_system.Device.{Store, block_size}
use ferris_file_system.Inode.{Inode, max_blocks}
use ferris_file_system.InodeTable.Blocks.{OnDevice, block_at}
use ferris_file_system.OpenFiles.{FileMetadata, insert}
use ferris_file_system.Format.{FormatV1, Volume}

-- Byte `i` of the blocks of an inode.
unfoldable pub byte_at : FormatV1 → Store → Inode → ℕ → ℕ
byte_at m f inode i =
    let h = m.inode_handler in
    get_or (f (h.data_start + block_at h f inode (i / block_size))) (i % block_size) 0

-- The size of the file fits its blocks, and they and the blocks of their addresses lie on a device
-- of `n` blocks, and in the bitmap.
pub record IsFile (m : FormatV1) (n : ℕ) (f : Store) (inode : Inode) : Type 0 where
  pub start_lem : m.superblock.data_start ≡ m.inode_handler.data_start
  pub size_lem : inode.size ≤ inode.blocks * block_size
  pub size_small : inode.size < u64_mod
  pub blocks_lem : inode.blocks ≤ max_blocks
  pub addresses : (i : ℕ) → i < inode.blocks → OnDevice m.inode_handler n f inode i
  pub placed :
      (i : ℕ)
      → i < inode.blocks
      → m.inode_handler.data_start + block_at m.inode_handler f inode i < n
  pub known :
      (i : ℕ) → i < inode.blocks → block_at m.inode_handler f inode i ≤ m.block_allocator.max_index

-- The metadata of a handle after a round, and the state with them and another device.
abbrev pub moved : FileMetadata → ℕ → FileMetadata
moved md t = record md { offset = add64 md.offset t }

abbrev pub after : {D : Type 0} → ℕ → Volume D → D → FileMetadata → Volume D
after id v d md = record {
  device = d;
  format = record v.format { open_files = insert id md v.format.open_files };
}
