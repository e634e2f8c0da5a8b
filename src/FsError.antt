-- ===== src/FsError.antt =====
-- The errors of src/fs_error.rs.
pub mod Codes
pub mod Code
use ferris_file_system.Prelude.{ℕ, List}

-- `StorageFullKind`
pub data StorageFullKind : Type 0 where
  none inode_table_full data_region_full : StorageFullKind

-- `InvalidDirEntryKind`
pub data InvalidDirEntryKind : Type 0 where
  none zero_length is_free invalid_inode inode_oob invalid_file_type : InvalidDirEntryKind

-- `InvalidDirKind`
pub data InvalidDirKind : Type 0 where
  none entries_overfill_block : InvalidDirKind

-- `InvalidINodeKind`
pub data InvalidInodeKind : Type 0 where
  none size_greater_than_allocated_region : InvalidInodeKind
  invalid_direct : (ind address : ℕ) → InvalidInodeKind
  direct_oob : (ind address max : ℕ) → InvalidInodeKind

-- `InvalidInputKind`
pub data InvalidInputKind : Type 0 where
  none : InvalidInputKind
  dir_entries_overfill_block : (block offset record_len : ℕ) → InvalidInputKind
  dir_entries_underfill_block : (block filled : ℕ) → InvalidInputKind
  offset_not_at_dir_entry_start : (block offset : ℕ) → InvalidInputKind
  inode_index_oob block_index_oob index_oob inode_block_index_oob :
      (index max : ℕ) → InvalidInputKind
  unknown_file_type : InvalidInputKind
  not_enough_allocated_blocks : (required provided : ℕ) → InvalidInputKind
  file_is_self_or_parent : InvalidInputKind

-- The bytes of a path in an error message.
abbrev pub PathText : Type 0
PathText = List ℕ

-- `FSError`. What an `std::io::Error` says is not modelled.
pub data FsError : Type 0 where
  file_does_not_exist directory_does_not_exist does_not_exist already_exists : PathText → FsError
  is_a_directory not_a_directory is_a_file not_a_file is_a_symlink not_a_symlink :
      PathText → FsError
  directory_not_empty : PathText → FsError
  file_not_open : (file_id : ℕ) → FsError
  dir_free_region_too_small : (block offset available required : ℕ) → FsError
  dir_entry_not_free : (block offset : ℕ) → FsError
  storage_full : StorageFullKind → (requested available : ℕ) → FsError
  max_inode_size : (requested_blocks max_blocks : ℕ) → FsError
  empty_symlink : PathText → FsError
  maximum_symlink_depth_reached : PathText → (max_depth : ℕ) → FsError
  deleting_root : PathText → FsError
  invalid_dir_entry : InvalidDirEntryKind → (block offset : ℕ) → FsError
  invalid_dir : InvalidDirKind → (block offset : ℕ) → FsError
  invalid_inode : InvalidInodeKind → (size blocks : ℕ) → FsError
  invalid_input : InvalidInputKind → FsError
  invalid_magic : (expected actual : ℕ) → FsError
  io : FsError
