-- ===== src/Tests/Scenarios.antt =====
-- Sessions of src/formats/v1/format.rs on devices of empty blocks: `format`, `mount`, `check_integrity`,
-- and a file in a directory.
use ferris_file_system.Prelude.{◌≡◌, refl, List, [], ◌∷◌}
use ferris_file_system.Prelude.Bits.{test_bit, set_bit}
use ferris_file_system.Effect.{Op, Run, ok, err, panic, ◌>>=◌, ◌>>◌}
use ferris_file_system.Device.{zero_block}
use ferris_file_system.Device.Memory.{
  MemoryDevice, memory_device, read_block, write_block, block_count,
}
use ferris_file_system.Codec.{
  write_at, slice, read_field, read_array, from_le_bytes, to_le_bytes, write_fields,
}
use ferris_file_system.Superblock
use ferris_file_system.Inode
use ferris_file_system.InodeTable.{get_block, read_inode, write_inode, push_block, add_block}
use ferris_file_system.Bitmap.{is_allocated, count_allocated}
use ferris_file_system.Bitmap
use ferris_file_system.Directory.{deserialize, serialize, fill, new, free, new_directory}
use ferris_file_system.DirectoryHandler.{validate, write_entries, write_directory_with_inode}
use ferris_file_system.DirectoryHandler
use ferris_file_system.IntegrityChecker.{IntegrityError, visit, visited}
use ferris_file_system.IntegrityChecker
use ferris_file_system.Format.{mount}
use ferris_file_system.Format.Formatting.{format, format_with, layout_for, first_bit, zero_from}
use ferris_file_system.Format.Integrity.{
  check_structure, check_entry, visit_unchecked, or_crash, iterate_block_unchecked,
  check_entries_in_block, check_inode_allocation, check_block_address, visit_data,
  check_inode_blocks, check_inode, check_directory_blocks, check_others, check_dir_type, check_each,
  check_recursive, check_reached, check_counts, check_bitmaps, check_integrity,
}
use ferris_file_system.Tests.Formatted.{empty_disk}
use ferris_file_system.Prelude.{ℕ, replicate, Option, some, none, ◌⊎◌, inl, inr}
use ferris_file_system.FsError.{FsError}
use ferris_file_system.File.{file, directory}
use ferris_file_system.Effect.{pure}
use ferris_file_system.Format.{FormatV1, Volume, on_device}
use ferris_file_system.Format.Files.{write, read, seek, start, get_format}
use ferris_file_system.Format.Paths.{
  ContentEntry, create_directory, create_file, open_file, get_directory_content,
}

-- The findings, if the check ends with some.
findings : Run MemoryDevice (List IntegrityError) → List IntegrityError
findings (ok errors d) = errors
findings (err e d) = IntegrityChecker.ok ∷ []
findings panic = IntegrityChecker.ok ∷ []

run : Op MemoryDevice (List IntegrityError)
run = do format memory_device 5; m ← mount memory_device; check_integrity memory_device m 1

-- A device that was formatted has none.
none_found : findings (run empty_disk) ≡ []
unfolding findings run format format_with layout_for first_bit zero_from mount Superblock.new
    Superblock.serialize Superblock.deserialize Inode.serialize Inode.empty write_inode push_block
    add_block serialize fill new free new_directory validate write_entries
    write_directory_with_inode DirectoryHandler.or_crash write_block to_le_bytes write_fields
    Bitmap.new check_integrity check_bitmaps check_counts check_reached check_recursive check_each
    check_dir_type check_others check_directory_blocks check_inode check_inode_blocks visit_data
    check_block_address check_inode_allocation check_entries_in_block iterate_block_unchecked
    or_crash visit_unchecked check_entry check_structure visit visited IntegrityChecker.new
    deserialize get_block read_inode is_allocated count_allocated Bitmap.count_blocks
    Bitmap.count_bytes Bitmap.count_bits Bitmap.unpack_index test_bit set_bit Inode.deserialize
    write_at slice read_field read_array from_le_bytes read_block block_count zero_block
none_found = refl

-- Fourteen empty blocks.
abbrev empty_device : MemoryDevice
empty_device = record { blocks = replicate 14 zero_block }

-- `mkdir /a`, then a file `/a/b` that is created, opened, written, and read from its start; the listing of
-- `/a`, and the findings.
session : Op (Volume MemoryDevice) (List IntegrityError × List ContentEntry × ℕ × List ℕ)
session = do
  create_directory memory_device 6 (47 ∷ 97 ∷ [])
  create_file memory_device 7 (47 ∷ 97 ∷ 47 ∷ 98 ∷ [])
  id ← open_file memory_device (47 ∷ 97 ∷ 47 ∷ 98 ∷ [])
  n ← write memory_device 8 id (104 ∷ 105 ∷ [])
  _ ← seek memory_device id (start 0)
  x ← read memory_device id (0 ∷ 0 ∷ 0 ∷ [])
  es ← get_directory_content memory_device (47 ∷ 97 ∷ [])
  m ← get_format
  errors ← on_device (check_integrity memory_device m 3)
  pure (errors, es, x.0, x.1)

result_of : {A B : Type 0} → Run (Volume A) B → Option (FsError ⊎ B)
result_of (ok b v) = some (inr b)
result_of (err e v) = some (inl e)
result_of panic = none

mounted :
    Run MemoryDevice FormatV1
    → Option (FsError ⊎ (List IntegrityError × List ContentEntry × ℕ × List ℕ))
mounted (ok m d) = result_of (session (record { device = d; format = m }))
mounted (err e d) = none
mounted panic = none

out : Option (FsError ⊎ (List IntegrityError × List ContentEntry × ℕ × List ℕ))
out = mounted ((format memory_device 5 >> mount memory_device) empty_device)

-- No findings, the three entries, and the two bytes that were written.
session_lem :
    out
    ≡ some (
        inr (
          [],
          record { filename = 46 ∷ []; file_type = directory }
              ∷ record { filename = 46 ∷ 46 ∷ []; file_type = directory }
              ∷ record { filename = 98 ∷ []; file_type = file }
              ∷ [],
          2,
          104 ∷ 105 ∷ 0 ∷ [],
        ))
unfolding out mounted result_of session format format_with layout_for first_bit zero_from mount
    Superblock.new Superblock.serialize Superblock.deserialize Inode.serialize Inode.empty
    write_inode push_block add_block serialize fill new free new_directory validate write_entries
    write_directory_with_inode DirectoryHandler.or_crash write_block to_le_bytes write_fields
    Bitmap.new check_integrity check_bitmaps check_counts check_reached check_recursive check_each
    check_dir_type check_others check_directory_blocks check_inode check_inode_blocks visit_data
    check_block_address check_inode_allocation check_entries_in_block iterate_block_unchecked
    or_crash visit_unchecked check_entry check_structure visit visited IntegrityChecker.new
    deserialize get_block read_inode is_allocated count_allocated Bitmap.count_blocks
    Bitmap.count_bytes Bitmap.count_bits Bitmap.unpack_index test_bit set_bit Inode.deserialize
    write_at slice read_field read_array from_le_bytes read_block block_count zero_block
    create_directory ferris_file_system.Path.parent ferris_file_system.Path.components
    ferris_file_system.Path.file_name ferris_file_system.DirectoryHandler.Resolving.resolve
    DirectoryHandler.find_entry DirectoryHandler.visit_block DirectoryHandler.can_fit
    ferris_file_system.Format.allocate Bitmap.find_free Bitmap.scan_bytes Bitmap.allocate
    DirectoryHandler.add_entry_here create_file open_file write ferris_file_system.OpenFiles.insert
    ferris_file_system.InodeTable.add_blocks ferris_file_system.InodeTable.add_blocks_loop seek read
    get_directory_content DirectoryHandler.get_entries ferris_file_system.Path.utf8_from
session_lem = refl
