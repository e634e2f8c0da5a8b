-- ===== src/Format/Formatting/RootDirectory.antt =====
-- The root's inode and its block, as `format` of src/formats/v1/format.rs writes them.
use ferris_file_system.Prelude.{ℕ, ◌≡◌, refl, arith, List, [], ◌∷◌, ◌++◌, replicate, add32}
use ferris_file_system.Effect.{ok, pure, ◌>>◌}
use ferris_file_system.Device.{Block, IsBlock, zero_block, invalid_address, BlockDevice}
use ferris_file_system.File.{directory}
use ferris_file_system.Codec.Bytes.{all_bytes_lem}
use ferris_file_system.Codec.{write_at, slice, read_field, write_fields, from_le_bytes, to_le_bytes}
use ferris_file_system.Inode.{Inode}
use ferris_file_system.Inode
use ferris_file_system.InodeTable.{InodeTableHandler, get_block, push_block, add_block}
use ferris_file_system.Directory.{DirEntry, fill, serialize, deserialize, new, free, new_directory}
use ferris_file_system.DirectoryHandler.{
  DirectoryHandler, or_crash, validate, write_entries, write_directory_with_inode,
}
use ferris_file_system.DirectoryHandler.Layouts.{Layout, whole, more}

-- The root has one block, the first of the data blocks.
abbrev pub root_inode : ℕ → Inode
root_inode now = record {
  size = 256;
  file_type = directory;
  permissions = 65535;
  direct = 0 ∷ replicate 11 invalid_address;
  indirect = invalid_address;
  double = invalid_address;
  created = now;
  modified = now;
  links = 1;
  blocks = 1;
}

-- `.` and `..`, which are both the root, and a free region.
abbrev pub root_entries : List (DirEntry × ℕ)
root_entries =
    (new 0 directory (46 ∷ []), 0) ∷ (new 0 directory (46 ∷ 46 ∷ []), 12) ∷ (free 232, 24) ∷ []

abbrev root_bytes : List ℕ
root_bytes =
    0 ∷ 0 ∷ 0 ∷ 0 ∷ 12 ∷ 0 ∷ 1 ∷ 0 ∷ 1 ∷ 46 ∷ 0 ∷ 0 ∷ 0 ∷ 0 ∷ 0 ∷ 0 ∷ 12 ∷ 0 ∷ 2 ∷ 0 ∷ 1 ∷ 46 ∷ 46
    ∷ 0 ∷ 255 ∷ 255 ∷ 255 ∷ 255 ∷ 232 ∷ 0 ∷ []

abbrev pub root_block : Block
root_block = root_bytes ++ replicate 226 0

pub root_block-IsBlock : IsBlock root_block
root_block-IsBlock = record { size = refl; byte = all_bytes_lem root_block refl }

pub root_block-Layout : Layout root_block 0 root_entries
unfolding deserialize new free write_at read_field from_le_bytes slice
root_block-Layout =
    more refl (λ e. omega arith) (omega arith)
      (more refl (λ e. omega arith) (omega arith)
        (more refl (λ e. omega arith) (omega arith) whole))

module _ {D : Type 0} (dev : BlockDevice D) (t : InodeTableHandler) (h : DirectoryHandler) where
  open dev use {write_block}

  pub add_first_block :
      (now : ℕ) (d : D)
      → add_block dev t (Inode.empty directory 65535 now) 0 [] d
        ≡ ok (record (root_inode now) { size = 0 }) d
  unfolding add_block push_block Inode.empty
  add_first_block now d = refl

  pub write_root_directory :
      (now : ℕ) (d : D)
      → add32 h.data_start 0 ≡ h.data_start
      → write_directory_with_inode dev t h (new_directory 0 0) (root_inode now) d
        ≡ (write_block h.data_start root_block >> pure tt) d
  unfolding write_directory_with_inode validate write_entries or_crash get_block new_directory new
      free serialize fill write_fields write_at to_le_bytes zero_block
  write_root_directory now d at = rw at refl
