-- ===== src/Format/Integrity.antt =====
-- `check_integrity` of src/formats/v1/format.rs, and `iterate_block_unchecked` of
-- src/formats/v1/directory_handler.rs, which is for it alone.
pub mod ReadOnly
use ferris_file_system.Prelude.{
  ℕ, zero, suc, ◌+◌, ◌%◌, Bool, true, false, not, ◌&&◌, ◌||◌, Option, none, some, List, [], ◌∷◌,
  ◌++◌, get_or, ltb, leb, ◌==◌, if◌then◌else◌, add32, sub32, mul32, u16_mod,
}
use ferris_file_system.Effect.{Op, pure, fail, crash, ◌>>=◌, ◌>>◌}
use ferris_file_system.Device.{Block, block_size, invalid_address, BlockDevice}
use ferris_file_system.File.{FileType, file, directory, unknown}
use ferris_file_system.File
use ferris_file_system.Bitmap.{is_allocated, count_allocated}
use ferris_file_system.Inode.{Inode, inodes_per_block}
use ferris_file_system.InodeTable.{get_block, read_inode}
use ferris_file_system.Directory.{DirEntry, is_free, deserialize, min_record_len, max_name, dot}
use ferris_file_system.IntegrityChecker.{
  IntegrityError, IntegrityCheckerBitmap, unallocated_data, double_reference,
  invalid_directory_entry, invalid_directory_structure, missing_self, missing_parent,
  unreachable_data, inconsistent_metadata, free_inodes, free_data, invalid_inode,
  mismatched_file_type, visited, visit,
}
use ferris_file_system.IntegrityChecker
use ferris_file_system.Format.{FormatV1}

-- What the callback of `check_integrity_entries_in_block` keeps from entry to entry.
pub record Seen : Type 0 where
  pub last_entry_size : ℕ
  pub last_entry_offset : ℕ
  pub last_entry_free : Bool
  pub count : ℕ
  pub result : List IntegrityError
  pub child_dirs : List ℕ
  pub child_others : List ℕ

abbrev report : Bool → IntegrityError → List IntegrityError
report wrong error = if wrong then error ∷ [] else []

-- The first two entries of a directory are `.` and `..`.
unfoldable pub check_structure : Bool → ℕ → DirEntry → List IntegrityError
check_structure first count entry =
    if not first
    then []
    else if count == 0
    then report (not (entry.name_len == 1) || not (get_or entry.name 0 0 == dot))
        (invalid_directory_structure missing_self)
    else report
        (count == 1
          && (not (entry.name_len == 2)
              || not (get_or entry.name 0 0 == dot)
              || not (get_or entry.name 1 0 == dot)))
        (invalid_directory_structure missing_parent)

-- The callback. The invalid address is the test for a free entry, so an entry in use does not have it.
unfoldable pub check_entry :
    (m : FormatV1) (first : Bool) (dir_inode : ℕ) → DirEntry → ℕ → ℕ → Seen → Seen × Bool
unfolding check_structure
check_entry m first dir_inode entry block offset s =
    let off = offset % u16_mod in
    let used = not (is_free entry) in
    let out_of_bounds = ltb m.inode_allocator.max_index entry.inode in
    let overflows = ltb block_size (entry.record_len + offset) in
    let wrong_size = not (entry.record_len == min_record_len entry.name_len) in
    let name_overflow =
      IntegrityChecker.name_overflow dir_inode entry.inode block off entry.name_len in
    let valid = used && not (entry.inode == invalid_address) && not out_of_bounds in
    let is_dir = File.is entry.file_type directory in
    let is_link = first && (s.count == 0 || s.count == 1) in
    (
      record {
        last_entry_size = entry.record_len;
        last_entry_offset = offset;
        last_entry_free = is_free entry;
        count = s.count + 1;
        result =
            s.result
            ++ report (File.is entry.file_type unknown) (
                invalid_directory_entry (
                  IntegrityChecker.InvalidDirectoryEntry.file_type_unknown dir_inode entry.inode
                    block off))
            ++ check_structure first s.count entry
            ++ report (used && entry.inode == invalid_address)
                (invalid_directory_entry IntegrityChecker.InvalidDirectoryEntry.invalid_address)
            ++ report (used && not (entry.inode == invalid_address) && out_of_bounds) (
                invalid_directory_entry
                  IntegrityChecker.InvalidDirectoryEntry.out_of_bounds_address)
            ++ report overflows (
                invalid_directory_entry (IntegrityChecker.overflow dir_inode entry.inode block off))
            ++ report (used && wrong_size) (invalid_directory_entry name_overflow)
            ++ report (not used && s.last_entry_free) (
                invalid_directory_entry (
                  IntegrityChecker.adjacent_free dir_inode block (s.last_entry_offset % u16_mod)
                    (s.last_entry_size % u16_mod) entry.record_len))
            ++ report (ltb max_name entry.name_len) (invalid_directory_entry name_overflow);
        child_dirs =
            if valid && is_dir && not is_link
            then s.child_dirs ++ entry.inode ∷ []
            else s.child_dirs;
        child_others =
            if valid && not is_dir then s.child_others ++ entry.inode ∷ [] else s.child_others;
      },
      overflows || (used && wrong_size),
    )

-- `while offset < BLOCK_SIZE` of `iterate_block_unchecked`. Whether an entry stops the loop depends on
-- the entry and the offset alone, so a loop that is still running after 256 rounds has met an empty
-- record and never ends.
unfoldable pub visit_unchecked :
    {S : Type 0} → (DirEntry → ℕ → ℕ → S → S × Bool) → ℕ → Block → ℕ → ℕ → S → Option S
visit_unchecked callback zero buf block offset s = if ltb offset block_size then none else some s
visit_unchecked callback (suc fuel) buf block offset s =
    if leb block_size offset then some s else elim (deserialize buf offset) [
      | none ↦ none
      | some parsed ↦
          let step = callback parsed block offset s in
          let rest = visit_unchecked callback fuel buf block (offset + parsed.record_len) step.0 in
          if step.1 then some step.0 else rest
    ]

-- What the check of a tree keeps: the findings and what was visited.
pub record Checked : Type 0 where
  pub result : List IntegrityError
  pub visited_inodes : IntegrityCheckerBitmap
  pub visited_blocks : IntegrityCheckerBitmap

abbrev add_error : IntegrityError → Checked → Checked
add_error e c = record c { result = c.result ++ e ∷ [] }

module _ {D : Type 0} (dev : BlockDevice D) (m : FormatV1) where
  open dev use {read_block}

  unfoldable pub or_crash : {A : Type 0} → Option A → Op D A
  or_crash none = crash
  or_crash (some a) = pure a

  unfoldable pub iterate_block_unchecked :
      {S : Type 0} → (DirEntry → ℕ → ℕ → S → S × Bool) → ℕ → S → Op D S
  unfolding or_crash visit_unchecked
  iterate_block_unchecked callback block_ind s = do
    buf ← read_block (add32 block_ind m.directory_handler.data_start)
    or_crash (visit_unchecked callback block_size buf block_ind 0 s)

  unfoldable pub check_entries_in_block :
      (block_ind : ℕ) (first : Bool) (dir_inode : ℕ) (child_dirs child_others : List ℕ) → Op D Seen
  unfolding iterate_block_unchecked check_entry
  check_entries_in_block block_ind first dir_inode child_dirs child_others =
      iterate_block_unchecked (check_entry m first dir_inode) block_ind (record {
        last_entry_size = block_size;
        last_entry_offset = 0;
        last_entry_free = false;
        count = 0;
        result = [];
        child_dirs = child_dirs;
        child_others = child_others;
      })

  -- Only allocated inodes are marked as visited.
  unfoldable pub check_inode_allocation : ℕ → Checked → Op D Checked
  unfolding or_crash visit
  check_inode_allocation inode_ind c = do
    allocated ← is_allocated dev m.inode_allocator inode_ind
    if not allocated
        then pure
            (add_error (unallocated_data (IntegrityChecker.UnallocatedData.inode inode_ind)) c)
        else (do
          (inodes, _) ← or_crash (visit c.visited_inodes inode_ind)
          pure (record c { visited_inodes = inodes }))

  -- The address of a block of an inode.
  unfoldable pub check_block_address : ℕ → ℕ → ℕ → Checked → Checked
  check_block_address inode_ind i block_ind c =
      if block_ind == invalid_address
      then add_error
          (invalid_inode (IntegrityChecker.InvalidInode.invalid_address inode_ind (i % u16_mod))) c
      else if ltb m.block_allocator.max_index block_ind
      then add_error
          (invalid_inode
            (IntegrityChecker.InvalidInode.out_of_bounds_address inode_ind (i % u16_mod)))
          c
      else c

  -- No two inodes have the same block.
  unfoldable pub visit_data : ℕ → Checked → Op D Checked
  unfolding or_crash visit
  visit_data block_ind c = do
    (blocks, again) ← or_crash (visit c.visited_blocks block_ind)
    let c' : Checked = record c { visited_blocks = blocks }
    pure (if again then add_error (double_reference block_ind) c' else c')

  -- `for i in 0..inode.blocks`
  unfoldable pub check_inode_blocks : Inode → ℕ → ℕ → ℕ → Checked → Op D Checked
  unfolding check_block_address visit_data
  check_inode_blocks inode inode_ind i zero c = pure c
  check_inode_blocks inode inode_ind i (suc rounds) c = do
    block_ind ← get_block dev m.inode_handler inode i
    let c1 = check_block_address inode_ind i block_ind c
    allocated ← is_allocated dev m.block_allocator block_ind
    c2 ← visit_data block_ind (
        if allocated
        then c1
        else add_error
            (unallocated_data (IntegrityChecker.UnallocatedData.data_ block_ind inode_ind)) c1)
    check_inode_blocks inode inode_ind (i + 1) rounds c2

  unfoldable pub check_inode : ℕ → FileType → Checked → Op D Checked
  unfolding check_inode_blocks
  check_inode inode_ind expected_type c = do
    inode ← read_inode dev m.inode_handler inode_ind
    let c1 : Checked =
        if File.is inode.file_type unknown
        then add_error (invalid_inode (IntegrityChecker.InvalidInode.file_type_unknown inode_ind)) c
        else c
    let c2 : Checked =
        if File.is inode.file_type expected_type
        then c1
        else add_error (mismatched_file_type inode.file_type directory inode_ind) c1
    check_inode_blocks inode inode_ind 0 inode.blocks c2

  -- The blocks of a directory. Blocks that are not allocated are not parsed.
  unfoldable pub check_directory_blocks :
      Inode → ℕ → ℕ → ℕ → List ℕ → List ℕ → Checked → Op D (Checked × List ℕ × List ℕ)
  unfolding check_block_address visit_data check_entries_in_block
  check_directory_blocks inode inode_ind i zero child_dirs child_others c =
      pure (c, child_dirs, child_others)
  check_directory_blocks inode inode_ind i (suc rounds) child_dirs child_others c = do
    block_ind ← get_block dev m.inode_handler inode i
    let c1 = check_block_address inode_ind i block_ind c
    allocated ← is_allocated dev m.block_allocator block_ind
    if not allocated
        then check_directory_blocks inode inode_ind (i + 1) rounds child_dirs child_others (
            add_error
              (unallocated_data (IntegrityChecker.UnallocatedData.data_ block_ind inode_ind)) c1)
        else (do
          c2 ← visit_data block_ind c1
          seen ← check_entries_in_block block_ind (i == 0) inode_ind child_dirs child_others
          check_directory_blocks inode inode_ind (i + 1) rounds seen.child_dirs seen.child_others
              (record c2 { result = c2.result ++ seen.result }))

  -- `for inode_ind in child_others`
  unfoldable pub check_others : List ℕ → Checked → Op D Checked
  unfolding check_inode_allocation check_inode
  check_others [] c = pure c
  check_others (inode_ind ∷ inodes) c = do
    c1 ← check_inode_allocation inode_ind c
    c2 ← check_inode inode_ind file c1
    check_others inodes c2

  unfoldable pub check_dir_type : Inode → ℕ → Checked → Checked
  check_dir_type inode inode_ind c =
      if File.is inode.file_type unknown
      then add_error (invalid_inode (IntegrityChecker.InvalidInode.file_type_unknown inode_ind)) c
      else if File.is inode.file_type directory
      then c
      else add_error (mismatched_file_type inode.file_type directory inode_ind) c

  -- `for inode_ind in child_dirs`, with the check of one directory.
  unfoldable pub check_each : (ℕ → Checked → Op D Checked) → List ℕ → Checked → Op D Checked
  check_each check [] c = pure c
  check_each check (inode_ind ∷ inodes) c = do c1 ← check inode_ind c; check_each check inodes c1

  -- `check_integrity_recursive` down to a depth. The code has no bound, so a directory that contains
  -- itself makes it run for ever.
  unfoldable pub check_recursive : ℕ → ℕ → Checked → Op D Checked
  unfolding check_inode_allocation check_dir_type check_directory_blocks check_others check_each
  check_recursive zero dir_inode_ind c = crash
  check_recursive (suc depth) dir_inode_ind c = do
    c1 ← check_inode_allocation dir_inode_ind c
    dir_inode ← read_inode dev m.inode_handler dir_inode_ind
    (c2, child_dirs, child_others) ←
        check_directory_blocks dir_inode dir_inode_ind 0 dir_inode.blocks [] []
          (check_dir_type dir_inode dir_inode_ind c1)
    c3 ← check_others child_others c2
    check_each (check_recursive depth) child_dirs c3

  -- The allocated bits that were not visited.
  unfoldable pub check_reached :
      (ℕ → Op D Bool)
      → IntegrityCheckerBitmap
      → (ℕ → IntegrityError)
      → ℕ
      → ℕ
      → List IntegrityError
      → Op D (List IntegrityError)
  unfolding or_crash visited
  check_reached allocated_at b error i zero errors = pure errors
  check_reached allocated_at b error i (suc rounds) errors = do
    allocated ← allocated_at i
    if not allocated then check_reached allocated_at b error (i + 1) rounds errors else (do
      reached ← or_crash (visited b i)
      check_reached allocated_at b error (i + 1) rounds
          (if reached then errors else errors ++ error i ∷ []))

  unfoldable pub check_counts : ℕ → ℕ → List IntegrityError
  check_counts allocated_inodes allocated_blocks =
      let s = m.superblock in
      let inodes = sub32 (mul32 s.inode_table_blocks inodes_per_block) allocated_inodes in
      let blocks = sub32 (sub32 s.total_blocks s.data_start) allocated_blocks in
      report (not (s.free_inodes == inodes))
        (inconsistent_metadata (free_inodes s.free_inodes inodes))
      ++ report (not (s.free_data == blocks)) (inconsistent_metadata (free_data s.free_data blocks))

  -- The bitmaps against what was visited.
  unfoldable pub check_bitmaps :
      (allocated_inodes allocated_blocks : ℕ) → Checked → Op D (List IntegrityError)
  unfolding check_reached
  check_bitmaps allocated_inodes allocated_blocks c = do
    let s = m.superblock
    errors ←
        (if ltb c.visited_inodes.count allocated_inodes
          then check_reached (is_allocated dev m.inode_allocator) c.visited_inodes
              (λ i. unreachable_data (IntegrityChecker.UnreachableData.inode i)) 0
              (mul32 s.inode_table_blocks inodes_per_block) c.result
          else pure c.result)
    if not (allocated_blocks == c.visited_blocks.count)
        then check_reached (is_allocated dev m.block_allocator) c.visited_blocks
            (λ i. unreachable_data (IntegrityChecker.UnreachableData.data_ i)) 0
            (sub32 s.total_blocks s.data_start) errors
        else pure errors

  abbrev pub start_check : (allocated_inodes allocated_blocks : ℕ) → Checked
  start_check allocated_inodes allocated_blocks = record {
    result = check_counts allocated_inodes allocated_blocks;
    visited_inodes = IntegrityChecker.new m.inode_allocator.max_index;
    visited_blocks = IntegrityChecker.new m.block_allocator.max_index;
  }

  unfoldable pub check_integrity : ℕ → Op D (List IntegrityError)
  unfolding check_recursive check_bitmaps check_counts IntegrityChecker.new
  check_integrity depth = do
    allocated_inodes ← count_allocated dev m.inode_allocator
    allocated_blocks ← count_allocated dev m.block_allocator
    c ←
        check_recursive depth m.superblock.root_inode
          (start_check allocated_inodes allocated_blocks)
    check_bitmaps allocated_inodes allocated_blocks c
