-- ===== src/Tests/Formats.antt =====
-- The theorems on src/formats/v1/format.rs at a device of three blocks, the superblock and two
-- bitmaps, and at one of a single block.
use ferris_file_system.Prelude.{◌≡◌, refl, [], ◌∷◌, arith}
use ferris_file_system.Effect.Returns.{Returns}
use ferris_file_system.Device.{Block, IsBlock, zero_block}
use ferris_file_system.Device.Memory.{MemoryDevice, memory_device}
use ferris_file_system.Device.Memory.Laws.{Holds, memory-IsLawful, zero_block-IsBlock}
use ferris_file_system.Codec.Fields.{write_fields-IsBlock}
use ferris_file_system.Superblock.{Superblock}
use ferris_file_system.Superblock
use ferris_file_system.Superblock.RoundTrip.{InRange}
use ferris_file_system.OpenFiles.{empty}
use ferris_file_system.Format.{FormatV1, allocate, mount, digits, to_string}
use ferris_file_system.Format.Allocation.{IsVolume, Outcome, allocate-Outcome}
use ferris_file_system.Format.Mounting.{mount-serialize}
use ferris_file_system.Tests.{disk, disk_store, disk-Holds, store_of, of_blocks-Holds}

abbrev superblock : Superblock
superblock = record {
  magic = 0x2E2E616E616E6162;
  version = 1;
  block_size = 256;
  total_blocks = 45;
  inode_bitmap_start = 1;
  inode_bitmap_blocks = 1;
  block_bitmap_start = 2;
  block_bitmap_blocks = 1;
  inode_table_start = 3;
  inode_table_blocks = 2;
  data_start = 5;
  root_inode = 0;
  free_inodes = 4;
  free_data = 40;
}

abbrev pub format : FormatV1
format = record {
  superblock = superblock;
  inode_allocator = record { start = 1; size = 1; max_index = 4; last_alloc = 0 };
  block_allocator = record { start = 2; size = 1; max_index = 41; last_alloc = 0 };
  inode_handler = record { inode_table_start = 3; inode_table_blocks = 2; data_start = 5 };
  directory_handler = record { data_start = 5; root_inode_ind = 0 };
  next_file_id = 0;
  open_files = empty;
}

format-IsVolume : IsVolume format 3
format-IsVolume = record {
  inodes_placed = record { fits = omega arith; small = omega arith };
  blocks_placed = record { fits = omega arith; small = omega arith };
  behind = omega arith;
  apart = omega arith;
  inodes_last = omega arith;
  blocks_last = omega arith;
  inodes_wide = omega arith;
  blocks_wide = omega arith;
}

allocate-Outcome_example :
    Outcome memory-IsLawful 3 format format-IsVolume disk_store 2 5
      (allocate memory_device 2 5 (record { device = disk; format = format }))
allocate-Outcome_example =
    allocate-Outcome memory-IsLawful 3 format format-IsVolume disk_store 2 5 disk disk-Holds

number_lem : to_string 305 ≡ 51 ∷ 48 ∷ 53 ∷ []
unfolding digits
number_lem = refl

superblock-InRange : InRange superblock
superblock-InRange = (
  omega arith,
  (
    omega arith,
    (
      omega arith,
      (
        omega arith,
        (
          omega arith,
          (
            omega arith,
            (
              omega arith,
              (
                omega arith,
                (
                  omega arith,
                  (omega arith, (omega arith, (omega arith, (omega arith, (omega arith, tt))))),
                ),
              ),
            ),
          ),
        ),
      ),
    ),
  ),
)

abbrev first_block : Block
first_block = Superblock.serialize superblock zero_block

first_block-IsBlock : IsBlock first_block
unfolding Superblock.serialize
first_block-IsBlock =
    write_fields-IsBlock (Superblock.fields superblock) zero_block 0 zero_block-IsBlock

abbrev formatted : MemoryDevice
formatted = record { blocks = first_block ∷ [] }

formatted-Holds : Holds formatted (store_of (first_block ∷ [])) 1
formatted-Holds = of_blocks-Holds (first_block ∷ []) (first_block-IsBlock, tt) (omega arith)

mount-serialize_example :
    Returns
      (λ m d'. (m.superblock ≡ superblock) × Holds d' (store_of (first_block ∷ [])) 1)
      (mount memory_device formatted)
mount-serialize_example =
    mount-serialize memory-IsLawful 1 (store_of (first_block ∷ [])) superblock superblock-InRange
      formatted formatted-Holds (omega arith) refl refl
