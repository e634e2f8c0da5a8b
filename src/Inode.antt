-- ===== src/Inode.antt =====
-- src/formats/v1/inode.rs: the metadata of a file, and its bytes on the disk.
pub mod RoundTrip
use ferris_file_system.Prelude.{ℕ, ◌+◌, ◌*◌, ◌/◌, List, [], ◌∷◌, ◌++◌, replicate}
use ferris_file_system.Device.{Block, block_size, invalid_address}
use ferris_file_system.File.{FileType, to_byte, from_byte}
use ferris_file_system.Codec.{Field, write_fields, read_field, read_array, array_fields}

abbrev pub direct_count : ℕ
direct_count = 12

abbrev pub indirect_count : ℕ
indirect_count = block_size / 4

abbrev pub double_count : ℕ
double_count = indirect_count * indirect_count

abbrev pub max_blocks : ℕ
max_blocks = direct_count + indirect_count + double_count

abbrev pub max_size : ℕ
max_size = max_blocks * block_size

abbrev pub on_disk_size : ℕ
on_disk_size = 96

abbrev pub inodes_per_block : ℕ
inodes_per_block = block_size / on_disk_size

pub record Inode : Type 0 where
  pub size : ℕ
  pub file_type : FileType
  pub permissions : ℕ
  pub direct : List ℕ
  pub indirect : ℕ
  pub double : ℕ
  pub created : ℕ
  pub modified : ℕ
  pub links : ℕ
  pub blocks : ℕ

unfoldable pub empty : FileType → ℕ → ℕ → Inode
empty file_type permissions created = record {
  size = 0;
  file_type = file_type;
  permissions = permissions;
  direct = replicate direct_count invalid_address;
  indirect = invalid_address;
  double = invalid_address;
  created = created;
  modified = created;
  links = 1;
  blocks = 0;
}

-- The order of the `write_field!` calls of `serialize`: before the direct addresses, and behind them.
abbrev pub head_fields : Inode → List Field
head_fields i =
    (8, i.size)
    ∷ (1, to_byte i.file_type)
    ∷ (1, 0)
    ∷ (2, i.permissions)
    ∷ (2, i.links)
    ∷ (2, 0)
    ∷ (4, i.blocks)
    ∷ []

abbrev pub tail_fields : Inode → List Field
tail_fields i = (4, i.indirect) ∷ (4, i.double) ∷ (8, i.created) ∷ (8, i.modified) ∷ []

unfoldable pub serialize : Inode → Block → Block
serialize i buf = write_fields buf 0 (head_fields i ++ (array_fields 4 i.direct ++ tail_fields i))

-- Each field at the offset that the `read_field!` calls before it leave.
unfoldable pub deserialize : Block → Inode
deserialize buf = record {
  size = read_field 8 buf 0;
  file_type = from_byte (read_field 1 buf 8);
  permissions = read_field 2 buf 10;
  direct = read_array 12 4 buf 20;
  indirect = read_field 4 buf 68;
  double = read_field 4 buf 72;
  created = read_field 8 buf 76;
  modified = read_field 8 buf 84;
  links = read_field 2 buf 12;
  blocks = read_field 4 buf 16;
}
