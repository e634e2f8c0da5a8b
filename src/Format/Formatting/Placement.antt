-- ===== src/Format/Formatting/Placement.antt =====
-- The superblock that `format` of src/formats/v1/format.rs computes: where the parts of a device lie.
use ferris_file_system.Prelude.{ℕ, ◌+◌, ◌-◌, ◌*◌, ◌<◌, ◌≤◌, ◌≡◌, refl, arith}
use ferris_file_system.Superblock.{Superblock}
use ferris_file_system.Superblock
use ferris_file_system.Superblock.RoundTrip.{InRange}
use ferris_file_system.Format.Formatting.{layout_for}

-- The bitmaps and the table follow the first block, one behind the other and none of them empty, and the
-- data blocks are behind these.
pub record Placed (n : ℕ) (s : Superblock) : Type 0 where
  pub inode_bitmap : s.inode_bitmap_start ≡ 1
  pub inode_bitmap_positive : 1 ≤ s.inode_bitmap_blocks
  pub block_bitmap : s.block_bitmap_start ≡ 1 + s.inode_bitmap_blocks
  pub block_bitmap_positive : 1 ≤ s.block_bitmap_blocks
  pub table : s.inode_table_start ≡ s.block_bitmap_start + s.block_bitmap_blocks
  pub table_positive : 1 ≤ s.inode_table_blocks
  pub data_region : s.data_start ≡ s.inode_table_start + s.inode_table_blocks
  pub data_inside : s.data_start < n
  pub free_data : (s.free_data + s.data_start ≡ n)
  pub free_inodes : (s.free_inodes ≡ 2 * s.inode_table_blocks)

pub layout_for-Placed : (n : ℕ) → 5 ≤ n → n < 16777216 → Placed n (layout_for n)
unfolding layout_for Superblock.new
layout_for-Placed n enough small = record {
  inode_bitmap = refl;
  inode_bitmap_positive = omega (arith, enough, small);
  block_bitmap = omega (arith, enough, small);
  block_bitmap_positive = omega (arith, enough, small);
  table = omega (arith, enough, small);
  table_positive = omega (arith, enough, small);
  data_region = omega (arith, enough, small);
  data_inside = omega (arith, enough, small);
  free_data = omega (arith, enough, small);
  free_inodes = omega (arith, enough, small);
}

-- What `format` writes to the first block: the root takes an inode and a block.
abbrev pub formatted : Superblock → Superblock
formatted s = record s { free_data = s.free_data - 1; free_inodes = s.free_inodes - 1 }

pub formatted-InRange : (n : ℕ) → 5 ≤ n → n < 16777216 → InRange (formatted (layout_for n))
unfolding layout_for Superblock.new
formatted-InRange n enough small = (
  omega arith,
  (
    omega arith,
    (
      omega arith,
      (
        omega arith,
        (
          omega arith,
          (
            omega arith,
            (
              omega arith,
              (
                omega arith,
                (
                  omega arith,
                  (omega arith, (omega arith, (omega arith, (omega arith, (omega arith, tt))))),
                ),
              ),
            ),
          ),
        ),
      ),
    ),
  ),
)
