-- ===== src/FsError/Code.antt =====
-- The codes of src/fs_error.rs: which category an error's code has.
use ferris_file_system.Prelude.{◌≡◌, refl, some}
use ferris_file_system.FsError.{
  FsError, StorageFullKind, InvalidDirEntryKind, InvalidDirKind, InvalidInodeKind, InvalidInputKind,
}
use ferris_file_system.FsError.Codes.{
  FsErrorCategory, generic, corruption, category_number, error_code, value, category_of, category,
  code,
}

-- Which errors tell of a corrupted device.
unfoldable pub kind_of_error : FsError → FsErrorCategory
kind_of_error (FsError.file_does_not_exist _) = generic
kind_of_error (FsError.directory_does_not_exist _) = generic
kind_of_error (FsError.does_not_exist _) = generic
kind_of_error (FsError.already_exists _) = generic
kind_of_error (FsError.is_a_directory _) = generic
kind_of_error (FsError.not_a_directory _) = generic
kind_of_error (FsError.is_a_file _) = generic
kind_of_error (FsError.not_a_file _) = generic
kind_of_error (FsError.is_a_symlink _) = generic
kind_of_error (FsError.not_a_symlink _) = generic
kind_of_error (FsError.directory_not_empty _) = generic
kind_of_error (FsError.file_not_open _) = generic
kind_of_error (FsError.dir_free_region_too_small _ _ _ _) = generic
kind_of_error (FsError.dir_entry_not_free _ _) = generic
kind_of_error (FsError.storage_full _ _ _) = generic
kind_of_error (FsError.max_inode_size _ _) = generic
kind_of_error (FsError.empty_symlink _) = generic
kind_of_error (FsError.maximum_symlink_depth_reached _ _) = generic
kind_of_error (FsError.deleting_root _) = generic
kind_of_error (FsError.invalid_dir_entry _ _ _) = corruption
kind_of_error (FsError.invalid_dir _ _ _) = corruption
kind_of_error (FsError.invalid_inode _ _ _) = corruption
kind_of_error (FsError.invalid_input _) = generic
kind_of_error (FsError.invalid_magic _ _) = corruption
kind_of_error FsError.io = generic

-- The category of every error's code is the one of the error: the number is never that of no category.
pub category-code : (e : FsError) → category (code e) ≡ some (kind_of_error e)
unfolding code category value error_code category_number category_of kind_of_error
category-code (FsError.file_does_not_exist _) = refl
category-code (FsError.directory_does_not_exist _) = refl
category-code (FsError.does_not_exist _) = refl
category-code (FsError.already_exists _) = refl
category-code (FsError.is_a_directory _) = refl
category-code (FsError.not_a_directory _) = refl
category-code (FsError.is_a_file _) = refl
category-code (FsError.not_a_file _) = refl
category-code (FsError.is_a_symlink _) = refl
category-code (FsError.not_a_symlink _) = refl
category-code (FsError.directory_not_empty _) = refl
category-code (FsError.file_not_open _) = refl
category-code (FsError.dir_free_region_too_small _ _ _ _) = refl
category-code (FsError.dir_entry_not_free _ _) = refl
category-code (FsError.storage_full StorageFullKind.none _ _) = refl
category-code (FsError.storage_full StorageFullKind.inode_table_full _ _) = refl
category-code (FsError.storage_full StorageFullKind.data_region_full _ _) = refl
category-code (FsError.max_inode_size _ _) = refl
category-code (FsError.empty_symlink _) = refl
category-code (FsError.maximum_symlink_depth_reached _ _) = refl
category-code (FsError.deleting_root _) = refl
category-code (FsError.invalid_dir_entry InvalidDirEntryKind.none _ _) = refl
category-code (FsError.invalid_dir_entry InvalidDirEntryKind.zero_length _ _) = refl
category-code (FsError.invalid_dir_entry InvalidDirEntryKind.is_free _ _) = refl
category-code (FsError.invalid_dir_entry InvalidDirEntryKind.invalid_inode _ _) = refl
category-code (FsError.invalid_dir_entry InvalidDirEntryKind.inode_oob _ _) = refl
category-code (FsError.invalid_dir_entry InvalidDirEntryKind.invalid_file_type _ _) = refl
category-code (FsError.invalid_dir InvalidDirKind.none _ _) = refl
category-code (FsError.invalid_dir InvalidDirKind.entries_overfill_block _ _) = refl
category-code (FsError.invalid_inode InvalidInodeKind.none _ _) = refl
category-code (FsError.invalid_inode InvalidInodeKind.size_greater_than_allocated_region _ _) = refl
category-code (FsError.invalid_inode (InvalidInodeKind.invalid_direct _ _) _ _) = refl
category-code (FsError.invalid_inode (InvalidInodeKind.direct_oob _ _ _) _ _) = refl
category-code (FsError.invalid_input InvalidInputKind.none) = refl
category-code (FsError.invalid_input (InvalidInputKind.dir_entries_overfill_block _ _ _)) = refl
category-code (FsError.invalid_input (InvalidInputKind.dir_entries_underfill_block _ _)) = refl
category-code (FsError.invalid_input (InvalidInputKind.offset_not_at_dir_entry_start _ _)) = refl
category-code (FsError.invalid_input (InvalidInputKind.inode_index_oob _ _)) = refl
category-code (FsError.invalid_input (InvalidInputKind.block_index_oob _ _)) = refl
category-code (FsError.invalid_input (InvalidInputKind.index_oob _ _)) = refl
category-code (FsError.invalid_input (InvalidInputKind.inode_block_index_oob _ _)) = refl
category-code (FsError.invalid_input InvalidInputKind.unknown_file_type) = refl
category-code (FsError.invalid_input (InvalidInputKind.not_enough_allocated_blocks _ _)) = refl
category-code (FsError.invalid_input InvalidInputKind.file_is_self_or_parent) = refl
category-code (FsError.invalid_magic _ _) = refl
category-code FsError.io = refl
