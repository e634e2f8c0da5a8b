-- ===== src/Superblock/RoundTrip.antt =====
-- A superblock survives the way to the disk and back.
use ferris_file_system.Prelude.{ℕ, ◌+◌, ◌^◌, ◌<◌, ◌≡◌, refl, arith, some, get_elem?, take, All}
use ferris_file_system.Device.{Block, IsBlock}
use ferris_file_system.Codec.{Field, read_field, total}
use ferris_file_system.Codec.Fields.{read_field-write_fields}
use ferris_file_system.Superblock.{Superblock, fields, serialize, deserialize}

-- Every field has the range of its Rust type: `magic` is a `u64`, the others are `u32`.
abbrev pub InRange : Superblock → Type 0
InRange s = All (λ (f : Field). f.1 < 256 ^ f.0) (fields s)

module _ (s : Superblock) (buf : Block) (ib : IsBlock buf) (r : InRange s) where
  -- The `i`-th field is read back.
  field_lem :
      (i : ℕ) {k x : ℕ}
      → get_elem? (fields s) i ≡ some (k, x)
      → x < 256 ^ k
      → read_field k (serialize s buf) (0 + total (take i (fields s))) ≡ x
  unfolding serialize
  field_lem i e lt = read_field-write_fields (fields s) i buf 0 e (omega (arith, ib.size)) lt

  -- What `serialize` writes over a block, `deserialize` reads back, whatever the block held, if every
  -- field has the range of its type.
  pub superblock_round_trip : deserialize (serialize s buf) ≡ s
  unfolding deserialize
  superblock_round_trip = λ i. record {
    magic = field_lem 0 refl r.0 i;
    version = field_lem 1 refl r.1.0 i;
    block_size = field_lem 2 refl r.1.1.0 i;
    total_blocks = field_lem 3 refl r.1.1.1.0 i;
    inode_bitmap_start = field_lem 4 refl r.1.1.1.1.0 i;
    inode_bitmap_blocks = field_lem 5 refl r.1.1.1.1.1.0 i;
    block_bitmap_start = field_lem 6 refl r.1.1.1.1.1.1.0 i;
    block_bitmap_blocks = field_lem 7 refl r.1.1.1.1.1.1.1.0 i;
    inode_table_start = field_lem 8 refl r.1.1.1.1.1.1.1.1.0 i;
    inode_table_blocks = field_lem 9 refl r.1.1.1.1.1.1.1.1.1.0 i;
    data_start = field_lem 10 refl r.1.1.1.1.1.1.1.1.1.1.0 i;
    root_inode = field_lem 11 refl r.1.1.1.1.1.1.1.1.1.1.1.0 i;
    free_inodes = field_lem 12 refl r.1.1.1.1.1.1.1.1.1.1.1.1.0 i;
    free_data = field_lem 13 refl r.1.1.1.1.1.1.1.1.1.1.1.1.1.0 i;
  }
