-- ===== src/FsError/Codes.antt =====
-- The codes of src/fs_error.rs: `FSErrorCode`, with the numbers of its `repr(u16)`, and `FSError::code`.
use ferris_file_system.Prelude.{
  ℕ, zero, suc, ◌*◌, ◌/◌, ◌-◌, ◌^◌, Option, none, some, bit_and, bit_or,
}
use ferris_file_system.FsError.{
  FsError, StorageFullKind, InvalidDirEntryKind, InvalidDirKind, InvalidInodeKind, InvalidInputKind,
}

-- `FSErrorCategory`
pub data FsErrorCategory : Type 0 where
  generic corruption : FsErrorCategory

-- `FSErrorCode`
pub data FsErrorCode : Type 0 where
  file_does_not_exist directory_does_not_exist does_not_exist already_exists is_a_directory
        not_a_directory is_a_file not_a_file is_a_symlink not_a_symlink directory_not_empty
        file_not_open dir_free_region_too_small dir_entry_not_free storage_full inode_table_full
        data_region_full max_inode_size invalid_input input_dir_entries_overfill_block
        input_dir_entries_underfill_block input_offset_not_at_dir_entry_start input_inode_index_oob
        input_block_index_oob input_index_oob input_inode_block_index_oob input_unknown_file_type
        input_not_enough_allocated_blocks input_file_is_self_or_parent empty_symlink
        maximum_symlink_depth_reached deleting_root io invalid_dir_entry zero_length_dir_entry
        dir_entry_is_free dir_entry_invalid_inode dir_entry_inode_oob dir_entry_invalid_file_type
        invalid_dir dir_entries_overfill_block invalid_inode
        inode_size_greater_than_allocated_region inode_invalid_direct inode_direct_oob
        invalid_magic :
      FsErrorCode

unfoldable pub category_number : FsErrorCategory → ℕ
category_number generic = 0
category_number corruption = 1

-- `(category << CATEGORY_SHIFT) | error`
unfoldable pub error_code : FsErrorCategory → ℕ → ℕ
unfolding category_number
error_code c error = bit_or (category_number c * 2 ^ 8) error

-- `*self as u16`
unfoldable pub value : FsErrorCode → ℕ
unfolding error_code
value file_does_not_exist = error_code generic 1
value directory_does_not_exist = error_code generic 2
value does_not_exist = error_code generic 3
value already_exists = error_code generic 4
value is_a_directory = error_code generic 5
value not_a_directory = error_code generic 6
value is_a_file = error_code generic 7
value not_a_file = error_code generic 8
value is_a_symlink = error_code generic 9
value not_a_symlink = error_code generic 10
value directory_not_empty = error_code generic 11
value file_not_open = error_code generic 12
value dir_free_region_too_small = error_code generic 13
value dir_entry_not_free = error_code generic 14
value storage_full = error_code generic 15
value inode_table_full = error_code generic 16
value data_region_full = error_code generic 17
value max_inode_size = error_code generic 18
value invalid_input = error_code generic 19
value input_dir_entries_overfill_block = error_code generic 20
value input_dir_entries_underfill_block = error_code generic 21
value input_offset_not_at_dir_entry_start = error_code generic 22
value input_inode_index_oob = error_code generic 23
value input_block_index_oob = error_code generic 24
value input_index_oob = error_code generic 25
value input_inode_block_index_oob = error_code generic 26
value input_unknown_file_type = error_code generic 27
value input_not_enough_allocated_blocks = error_code generic 28
value input_file_is_self_or_parent = error_code generic 29
value empty_symlink = error_code generic 30
value maximum_symlink_depth_reached = error_code generic 31
value deleting_root = error_code generic 32
value io = error_code generic 33
value invalid_dir_entry = error_code corruption 1
value zero_length_dir_entry = error_code corruption 2
value dir_entry_is_free = error_code corruption 3
value dir_entry_invalid_inode = error_code corruption 4
value dir_entry_inode_oob = error_code corruption 5
value dir_entry_invalid_file_type = error_code corruption 6
value invalid_dir = error_code corruption 7
value dir_entries_overfill_block = error_code corruption 8
value invalid_inode = error_code corruption 9
value inode_size_greater_than_allocated_region = error_code corruption 10
value inode_invalid_direct = error_code corruption 11
value inode_direct_oob = error_code corruption 12
value invalid_magic = error_code corruption 13

-- `transmute` of a number that is no category is undefined behaviour, here `none`.
unfoldable pub category_of : ℕ → Option FsErrorCategory
category_of zero = some generic
category_of (suc zero) = some corruption
category_of (suc (suc n)) = none

-- `((*self as u16) & CATEGORY_MASK) >> CATEGORY_SHIFT`
unfoldable pub category : FsErrorCode → Option FsErrorCategory
unfolding value category_of
category c = category_of (bit_and (value c) (2 ^ 16 - 2 ^ 8) / 2 ^ 8)

unfoldable pub code : FsError → FsErrorCode
code (FsError.file_does_not_exist _) = file_does_not_exist
code (FsError.directory_does_not_exist _) = directory_does_not_exist
code (FsError.does_not_exist _) = does_not_exist
code (FsError.already_exists _) = already_exists
code (FsError.is_a_directory _) = is_a_directory
code (FsError.not_a_directory _) = not_a_directory
code (FsError.is_a_file _) = is_a_file
code (FsError.not_a_file _) = not_a_file
code (FsError.is_a_symlink _) = is_a_symlink
code (FsError.not_a_symlink _) = not_a_symlink
code (FsError.directory_not_empty _) = directory_not_empty
code (FsError.file_not_open _) = file_not_open
code (FsError.dir_free_region_too_small _ _ _ _) = dir_free_region_too_small
code (FsError.dir_entry_not_free _ _) = dir_entry_not_free
code (FsError.storage_full StorageFullKind.none _ _) = storage_full
code (FsError.storage_full StorageFullKind.inode_table_full _ _) = inode_table_full
code (FsError.storage_full StorageFullKind.data_region_full _ _) = data_region_full
code (FsError.max_inode_size _ _) = max_inode_size
code (FsError.empty_symlink _) = empty_symlink
code (FsError.maximum_symlink_depth_reached _ _) = maximum_symlink_depth_reached
code (FsError.deleting_root _) = deleting_root
code (FsError.invalid_dir_entry InvalidDirEntryKind.none _ _) = invalid_dir_entry
code (FsError.invalid_dir_entry InvalidDirEntryKind.zero_length _ _) = zero_length_dir_entry
code (FsError.invalid_dir_entry InvalidDirEntryKind.is_free _ _) = dir_entry_is_free
code (FsError.invalid_dir_entry InvalidDirEntryKind.invalid_inode _ _) = dir_entry_invalid_inode
code (FsError.invalid_dir_entry InvalidDirEntryKind.inode_oob _ _) = dir_entry_inode_oob
code (FsError.invalid_dir_entry InvalidDirEntryKind.invalid_file_type _ _) =
    dir_entry_invalid_file_type
code (FsError.invalid_dir InvalidDirKind.none _ _) = invalid_dir
code (FsError.invalid_dir InvalidDirKind.entries_overfill_block _ _) = dir_entries_overfill_block
code (FsError.invalid_inode InvalidInodeKind.none _ _) = invalid_inode
code (FsError.invalid_inode InvalidInodeKind.size_greater_than_allocated_region _ _) =
    inode_size_greater_than_allocated_region
code (FsError.invalid_inode (InvalidInodeKind.invalid_direct _ _) _ _) = inode_invalid_direct
code (FsError.invalid_inode (InvalidInodeKind.direct_oob _ _ _) _ _) = inode_direct_oob
code (FsError.invalid_input InvalidInputKind.none) = invalid_input
code (FsError.invalid_input (InvalidInputKind.dir_entries_overfill_block _ _ _)) =
    input_dir_entries_overfill_block
code (FsError.invalid_input (InvalidInputKind.dir_entries_underfill_block _ _)) =
    input_dir_entries_underfill_block
code (FsError.invalid_input (InvalidInputKind.offset_not_at_dir_entry_start _ _)) =
    input_offset_not_at_dir_entry_start
code (FsError.invalid_input (InvalidInputKind.inode_index_oob _ _)) = input_inode_index_oob
code (FsError.invalid_input (InvalidInputKind.block_index_oob _ _)) = input_block_index_oob
code (FsError.invalid_input (InvalidInputKind.index_oob _ _)) = input_index_oob
code (FsError.invalid_input (InvalidInputKind.inode_block_index_oob _ _)) =
    input_inode_block_index_oob
code (FsError.invalid_input InvalidInputKind.unknown_file_type) = input_unknown_file_type
code (FsError.invalid_input (InvalidInputKind.not_enough_allocated_blocks _ _)) =
    input_not_enough_allocated_blocks
code (FsError.invalid_input InvalidInputKind.file_is_self_or_parent) = input_file_is_self_or_parent
code (FsError.invalid_magic _ _) = invalid_magic
code FsError.io = io
