-- ===== src/IntegrityChecker.antt =====
-- src/formats/v1/integrity_checker_errors.rs: the findings of the integrity check, and the bitmap of
-- what it has visited.

use ferris_file_system.Prelude.{
  ℕ, ◌+◌, ◌-◌, ◌/◌, ◌%◌, Bool, true, false, Option, none, some, List, replicate, get_elem?, set,
  if◌then◌else◌, add32,
}
use ferris_file_system.Prelude.Bits.{test_bit, set_bit}
use ferris_file_system.File.{FileType}

pub data UnallocatedData : Type 0 where
  inode : (ind : ℕ) → UnallocatedData
  data_ : (ind inode : ℕ) → UnallocatedData

pub data InvalidDirectoryEntry : Type 0 where
  file_type_unknown overflow : (dir_inode entry_inode block offset : ℕ) → InvalidDirectoryEntry
  name_overflow : (dir_inode entry_inode block offset name_len : ℕ) → InvalidDirectoryEntry
  adjacent_free : (dir_inode block first_offset first_size second_size : ℕ) → InvalidDirectoryEntry
  invalid_address out_of_bounds_address : InvalidDirectoryEntry

pub data InvalidDirectoryStructure : Type 0 where
  missing_self missing_parent : InvalidDirectoryStructure

pub data UnreachableData : Type 0 where
  inode data_ : (ind : ℕ) → UnreachableData

pub data InconsistentMetadata : Type 0 where
  free_inodes free_data : (actual expected : ℕ) → InconsistentMetadata

pub data InvalidInode : Type 0 where
  file_type_unknown : (inode : ℕ) → InvalidInode
  invalid_address out_of_bounds_address : (inode direct_ind : ℕ) → InvalidInode

pub data IntegrityError : Type 0 where
  ok : IntegrityError
  unallocated_data : UnallocatedData → IntegrityError
  double_reference : (block : ℕ) → IntegrityError
  invalid_directory_entry : InvalidDirectoryEntry → IntegrityError
  invalid_directory_structure : InvalidDirectoryStructure → IntegrityError
  unreachable_data : UnreachableData → IntegrityError
  inconsistent_metadata : InconsistentMetadata → IntegrityError
  invalid_inode : InvalidInode → IntegrityError
  mismatched_file_type : (actual expected : FileType) → (inode : ℕ) → IntegrityError

pub record IntegrityCheckerBitmap : Type 0 where
  pub bitmap : List ℕ
  pub count : ℕ

unfoldable pub new : ℕ → IntegrityCheckerBitmap
new bits = record { bitmap = replicate ((bits + 8 - 1) / 8) 0; count = 0 }

-- `none` is the panic of an index behind the bitmap.
unfoldable pub visited : IntegrityCheckerBitmap → ℕ → Option Bool
visited b bit = elim (get_elem? b.bitmap (bit / 8)) [
  | none ↦ none
  | some byte ↦ some (test_bit byte (bit % 8))
]

-- Was it already visited?
unfoldable pub visit : IntegrityCheckerBitmap → ℕ → Option (IntegrityCheckerBitmap × Bool)
visit b bit = elim (get_elem? b.bitmap (bit / 8)) [
  | none ↦ none
  | some byte ↦
      if test_bit byte (bit % 8)
      then some (b, true)
      else some (
        record {
          bitmap = set b.bitmap (bit / 8) (set_bit byte (bit % 8));
          count = add32 b.count 1;
        },
        false,
      )
]

unfoldable is_ok : IntegrityError → Bool
is_ok ok = true
is_ok (unallocated_data d) = false
is_ok (double_reference b) = false
is_ok (invalid_directory_entry d) = false
is_ok (invalid_directory_structure d) = false
is_ok (unreachable_data d) = false
is_ok (inconsistent_metadata d) = false
is_ok (invalid_inode d) = false
is_ok (mismatched_file_type a e i) = false

unfoldable is_recoverable : IntegrityError → Bool
is_recoverable e = true
