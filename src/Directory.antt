-- ===== src/Directory.antt =====
-- src/formats/v1/directory.rs: the entries of a directory, and their bytes in a data block.
pub mod RoundTrip
pub mod FreeRegion
use ferris_file_system.Prelude.{
  ℕ, ◌+◌, ◌-◌, ◌*◌, ◌/◌, ◌%◌, min, max, Bool, Option, none, some, List, [], ◌∷◌, length, take,
  replicate, ltb, ◌==◌, if◌then◌else◌, add16, sub16, u16_mod,
}
use ferris_file_system.Device.{Block, block_size, invalid_address}
use ferris_file_system.File.{FileType, file, directory, to_byte, from_byte}
use ferris_file_system.Codec.{write_at, slice, Field, write_fields, read_field}

abbrev pub max_name : ℕ
max_name = 64

pub record DirEntry : Type 0 where
  pub inode : ℕ
  pub file_type : FileType
  pub record_len : ℕ
  pub name_len : ℕ
  pub name : List ℕ

abbrev pub min_record_len : ℕ → ℕ
min_record_len name_len = (name_len + 9 + 3) % u16_mod / 4 * 4

abbrev pub min_free_size : ℕ
min_free_size = (4 + 2 + 3) / 4 * 4

-- The name is cut off at 64 bytes, and padded with zeros.
unfoldable pub new : ℕ → FileType → List ℕ → DirEntry
new inode file_type name =
    let name_len = min (length name) max_name in
    record {
      inode = inode;
      file_type = file_type;
      record_len = min_record_len name_len;
      name_len = name_len;
      name = write_at (replicate max_name 0) 0 (take name_len name);
    }

unfoldable pub free : ℕ → DirEntry
free size = record {
  inode = invalid_address;
  file_type = file;
  record_len = max size min_free_size;
  name_len = 0;
  name = replicate max_name 0;
}

abbrev pub is_free : DirEntry → Bool
is_free e = e.inode == invalid_address

-- The fields of an entry: those of a free region, and the ones that follow in any other entry.
abbrev pub free_fields : DirEntry → List Field
free_fields e = (4, e.inode) ∷ (2, e.record_len) ∷ []

abbrev pub entry_fields : DirEntry → List Field
entry_fields e = (4, e.inode) ∷ (2, e.record_len) ∷ (2, e.name_len) ∷ (1, to_byte e.file_type) ∷ []

-- The `assert!`, and the zeros up to the end of the record, which panic outside the block.
unfoldable pub fill : DirEntry → ℕ → Block → ℕ → Option Block
fill e init_offset buf offset =
    let last = init_offset + e.record_len in
    if ltb last offset
    then none
    else if ltb block_size last
    then none
    else some (write_at buf offset (replicate (last - offset) 0))

-- `none` is a panic. A write outside the block panics in the code; here the checks of `fill` are
-- the ones that fail, since the fields end before the record does.
unfoldable pub serialize : DirEntry → Block → ℕ → Option Block
unfolding fill
serialize e buf init_offset =
    if is_free e
    then fill e init_offset (write_fields buf init_offset (free_fields e)) (init_offset + 6)
    else if ltb max_name e.name_len
    then none
    else fill e init_offset
        (write_at (write_fields buf init_offset (entry_fields e)) (init_offset + 9)
          (take e.name_len e.name))
        (init_offset + 9 + e.name_len)

-- `none` is the panic of a read behind the block.
unfoldable pub deserialize : Block → ℕ → Option DirEntry
deserialize buf init_offset =
    let name_len = read_field 2 buf (init_offset + 6) in
    let offset = init_offset + 9 in
    let len = min (min name_len (block_size - offset)) max_name in
    if ltb block_size offset
    then none
    else some (record {
      inode = read_field 4 buf init_offset;
      record_len = read_field 2 buf (init_offset + 4);
      name_len = name_len;
      file_type = from_byte (read_field 1 buf (init_offset + 8));
      name = write_at (replicate max_name 0) 0 (slice buf offset len);
    })

pub record Directory : Type 0 where
  pub inode : ℕ
  pub entries : List DirEntry

-- `b'.'`
abbrev pub dot : ℕ
dot = 0x2E

unfoldable pub new_directory : ℕ → ℕ → Directory
unfolding new free
new_directory inode parent =
    let self_entry = new inode directory (dot ∷ []) in
    let parent_entry = new parent directory (dot ∷ dot ∷ []) in
    let free_entry =
      free (sub16 (sub16 block_size self_entry.record_len) parent_entry.record_len) in
    record { inode = inode; entries = self_entry ∷ parent_entry ∷ free_entry ∷ [] }
