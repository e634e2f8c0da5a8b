-- ===== src/Format.antt =====
-- src/formats/v1/format.rs: the file system on a device. Here are its state, the allocation,
-- mounting, the access to inodes and the counts; the operations on open files and on the children
-- of a directory are in modules of their own.
pub mod Allocation
pub mod Mounting
pub mod Running
pub mod Files
pub mod Children
pub mod Paths
pub mod Formatting
pub mod Integrity
use ferris_file_system.Prelude.{
  ◌/◌, suc, zero, ℕ, ◌+◌, ◌-◌, ◌*◌, ◌%◌, Bool, true, false, not, List, [], ◌∷◌, length, ltb, leb,
  ◌==◌, if◌then◌else◌, add32, sub32, mul32, u32_mod,
}
use ferris_file_system.FsError.{
  FsError, PathText, StorageFullKind, storage_full, inode_table_full, data_region_full,
  invalid_magic, does_not_exist,
}
use ferris_file_system.Effect.{Run, ok, err, panic, Op, pure, fail, and_then, ◌>>=◌, ◌>>◌}
use ferris_file_system.Device.{Block, zero_block, block_size, magic_number, BlockDevice}
use ferris_file_system.Bitmap.{BitmapAllocator, find_free, is_allocated}
use ferris_file_system.Bitmap
use ferris_file_system.Superblock.{Superblock}
use ferris_file_system.Superblock
use ferris_file_system.Inode.{Inode, inodes_per_block}
use ferris_file_system.InodeTable.{InodeTableHandler}
use ferris_file_system.InodeTable
use ferris_file_system.DirectoryHandler.{DirectoryHandler}
use ferris_file_system.OpenFiles

pub record FormatV1 : Type 0 where
  pub superblock : Superblock
  pub inode_allocator : BitmapAllocator
  pub block_allocator : BitmapAllocator
  pub inode_handler : InodeTableHandler
  pub directory_handler : DirectoryHandler
  pub next_file_id : ℕ
  pub open_files : OpenFiles.Table

-- `&mut self` and `device: &mut D`
pub record Volume (D : Type 0) : Type 0 where
  pub device : D
  pub format : FormatV1

unfoldable pub free_inodes_count : FormatV1 → ℕ
free_inodes_count m = m.superblock.free_inodes

unfoldable pub free_data_blocks_count : FormatV1 → ℕ
free_data_blocks_count m = m.superblock.free_data

unfoldable pub used_inodes_count : FormatV1 → ℕ
used_inodes_count m =
    sub32 (mul32 m.superblock.inode_table_blocks inodes_per_block) m.superblock.free_inodes

unfoldable pub used_data_blocks_count : FormatV1 → ℕ
used_data_blocks_count m =
    sub32 (sub32 m.superblock.total_blocks m.superblock.data_start) m.superblock.free_data

unfoldable pub free_space : FormatV1 → ℕ
unfolding free_data_blocks_count
free_space m = free_data_blocks_count m * block_size

unfoldable pub on_device : {D A : Type 0} → Op D A → Op (Volume D) A
on_device op v = elim (op v.device) [
  | ok a d ↦ ok a (record v { device = d })
  | err e d ↦ err e (record v { device = d })
  | panic ↦ panic
]

-- `u32::to_string`, of at most ten digits.
unfoldable pub digits : ℕ → ℕ → List ℕ → PathText
digits zero n text = text
digits (suc fuel) n text =
    let longer = digits fuel (n / 10) ((0x30 + n % 10) ∷ text) in
    if ltb n 10 then (0x30 + n) ∷ text else longer

abbrev pub to_string : ℕ → PathText
to_string n = digits 10 n []

unfoldable pub set_format : {D : Type 0} → FormatV1 → Op (Volume D) (Unit {0})
set_format m v = ok tt (record v { format = m })

module _ {D : Type 0} (dev : BlockDevice D) where
  open dev use {read_block, write_block}

  -- The last part of `allocate`: the indices are free and as many as asked for.
  unfoldable pub take_free : ℕ → ℕ → List ℕ → List ℕ → Op (Volume D) (List ℕ × List ℕ)
  unfolding on_device set_format zero_block
  take_free inodes blocks inode_inds data_inds v =
      let m = v.format in
      (do
        inode_allocator ← on_device (Bitmap.allocate dev m.inode_allocator inode_inds)
        let m1 = record m { inode_allocator = inode_allocator }
        set_format m1
        block_allocator ← on_device (Bitmap.allocate dev m.block_allocator data_inds)
        let superblock = record m.superblock {
          free_data = sub32 m.superblock.free_data blocks;
          free_inodes = sub32 m.superblock.free_inodes inodes;
        }
        set_format (record m1 { block_allocator = block_allocator; superblock = superblock })
        on_device (write_block 0 (Superblock.serialize superblock zero_block))
        pure (inode_inds, data_inds))
        v

  -- The counts of the superblock are tested first, so that a full bitmap is not searched.
  unfoldable pub allocate : ℕ → ℕ → Op (Volume D) (List ℕ × List ℕ)
  unfolding on_device take_free
  allocate inodes blocks v =
      let m = v.format in
      let s = m.superblock in
      if ltb s.free_inodes inodes
      then err (storage_full inode_table_full inodes s.free_inodes) v
      else if ltb s.free_data blocks
      then err (storage_full data_region_full blocks s.free_data) v
      else (do
        inode_inds ← on_device (find_free dev m.inode_allocator inodes)
        data_inds ← on_device (find_free dev m.block_allocator blocks)
        if ltb (length inode_inds) inodes
            then (λ w.
                err (storage_full inode_table_full inodes (length inode_inds % u32_mod)) (record w {
                  format = record m {
                    superblock = record s { free_inodes = length inode_inds % u32_mod };
                  };
                }))
            else if ltb (length data_inds) blocks
            then (λ w.
                err (storage_full data_region_full blocks (length data_inds % u32_mod)) (record w {
                  format = record m {
                    superblock = record s { free_data = length data_inds % u32_mod };
                  };
                }))
            else take_free inodes blocks inode_inds data_inds)
          v

  unfoldable pub get_inode : FormatV1 → ℕ → Op D Inode
  get_inode m inode_ind = do
    allocated ← is_allocated dev m.inode_allocator inode_ind
    if not allocated
        then fail (does_not_exist (to_string inode_ind))
        else InodeTable.read_inode dev m.inode_handler inode_ind

  unfoldable pub write_inode : FormatV1 → ℕ → Inode → Op D (Unit {0})
  write_inode m inode_ind inode = do
    allocated ← is_allocated dev m.inode_allocator inode_ind
    if not allocated
        then fail (does_not_exist (to_string inode_ind))
        else InodeTable.write_inode dev m.inode_handler inode_ind inode

  unfoldable pub mount : Op D FormatV1
  mount = do
    buf ← read_block 0
    let s = Superblock.deserialize buf
    let data_blocks =
        sub32
          (sub32 (sub32 (sub32 s.total_blocks s.inode_bitmap_blocks) s.inode_table_blocks)
            s.block_bitmap_blocks)
          1
    if not (s.magic == magic_number)
        then fail (invalid_magic magic_number s.magic)
        else pure (record {
          superblock = s;
          inode_allocator =
              Bitmap.new s.inode_bitmap_start s.inode_bitmap_blocks
                (mul32 s.inode_table_blocks inodes_per_block);
          block_allocator = Bitmap.new s.block_bitmap_start s.block_bitmap_blocks data_blocks;
          inode_handler = record {
            inode_table_start = s.inode_table_start;
            inode_table_blocks = s.inode_table_blocks;
            data_start = s.data_start;
          };
          directory_handler = record { data_start = s.data_start; root_inode_ind = s.root_inode };
          next_file_id = 0;
          open_files = OpenFiles.empty;
        })

  unfoldable pub flush : Op (Volume D) (Unit {0})
  unfolding on_device
  flush v = on_device dev.flush v
