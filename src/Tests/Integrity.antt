-- ===== src/Tests/Integrity.antt =====
-- `check_integrity` of src/formats/v1/format.rs at a root with the file `abc`.
use ferris_file_system.Prelude.{ℕ, ◌≡◌, refl, [], ◌∷◌, replicate, leb, by_cases}
use ferris_file_system.Prelude.Bits.{test_bit, set_bit}
use ferris_file_system.Effect.{ok}
use ferris_file_system.Effect.Keeps.{Keeps, kept, kept_err}
use ferris_file_system.Device.{zero_block}
use ferris_file_system.Device.Memory.{MemoryDevice, memory_device, read_block, block_count}
use ferris_file_system.Codec.{write_at, slice, read_field, read_array, from_le_bytes}
use ferris_file_system.Inode
use ferris_file_system.InodeTable.{get_block, read_inode}
use ferris_file_system.Bitmap.{is_allocated, count_allocated}
use ferris_file_system.Bitmap
use ferris_file_system.Directory.{deserialize}
use ferris_file_system.IntegrityChecker.{visit, visited}
use ferris_file_system.IntegrityChecker
use ferris_file_system.OpenFiles.{empty}
use ferris_file_system.Format.{FormatV1}
use ferris_file_system.Format.Integrity.{
  check_structure, check_entry, visit_unchecked, or_crash, iterate_block_unchecked,
  check_entries_in_block, check_inode_allocation, check_block_address, visit_data,
  check_inode_blocks, check_inode, check_directory_blocks, check_others, check_dir_type, check_each,
  check_recursive, check_reached, check_counts, check_bitmaps, check_integrity,
}
use ferris_file_system.Format.Integrity.ReadOnly.{check_integrity-Keeps}
use ferris_file_system.Tests.Trees.{table_block, root_block}

-- The bitmaps of two inodes and of a block, in front of the table and the root's block.
abbrev disk : MemoryDevice
disk = record {
  blocks = (3 ∷ replicate 255 0) ∷ (1 ∷ replicate 255 0) ∷ table_block ∷ root_block ∷ [];
}

abbrev format : FormatV1
format = record {
  superblock = record {
    magic = 0x2E2E616E616E6162;
    version = 1;
    block_size = 256;
    total_blocks = 4;
    inode_bitmap_start = 0;
    inode_bitmap_blocks = 1;
    block_bitmap_start = 1;
    block_bitmap_blocks = 1;
    inode_table_start = 2;
    inode_table_blocks = 1;
    data_start = 3;
    root_inode = 0;
    free_inodes = 0;
    free_data = 0;
  };
  inode_allocator = record { start = 0; size = 1; max_index = 2; last_alloc = 0 };
  block_allocator = record { start = 1; size = 1; max_index = 1; last_alloc = 0 };
  inode_handler = record { inode_table_start = 2; inode_table_blocks = 1; data_start = 3 };
  directory_handler = record { data_start = 3; root_inode_ind = 0 };
  next_file_id = 0;
  open_files = empty;
}

-- Nothing is found.
sound_lem : check_integrity memory_device format 1 disk ≡ ok [] disk
unfolding check_integrity check_bitmaps check_counts check_reached check_recursive check_each
    check_dir_type check_others check_directory_blocks check_inode check_inode_blocks visit_data
    check_block_address check_inode_allocation check_entries_in_block iterate_block_unchecked
    or_crash visit_unchecked check_entry check_structure visit visited IntegrityChecker.new
    deserialize get_block read_inode is_allocated count_allocated Bitmap.count_blocks
    Bitmap.count_bytes Bitmap.count_bits Bitmap.unpack_index test_bit set_bit Inode.deserialize
    write_at slice read_field read_array from_le_bytes read_block block_count zero_block
sound_lem = refl

reads_keep :
    (i : ℕ) (d : MemoryDevice) → d ≡ disk → Keeps (λ d'. d' ≡ disk) (memory_device.read_block i d)
unfolding read_block
reads_keep i d e =
    by_cases (leb (block_count d) i) (λ out. rw out (kept_err e)) λ inside. rw inside (kept e)

check_integrity-Keeps_example :
    Keeps (λ d'. d' ≡ disk) (check_integrity memory_device format 7 disk)
check_integrity-Keeps_example =
    check_integrity-Keeps memory_device (λ d'. d' ≡ disk) reads_keep format 7 disk refl
