-- ===== src/DirectoryHandler.antt =====
-- src/formats/v1/directory_handler.rs: the entries of a directory in its data blocks. The
-- resolution of paths is in Resolving.
pub mod Layouts
pub mod Search
pub mod Resolving
pub mod Regions
pub mod Insertion
pub mod Walking
use ferris_file_system.Prelude.{
  ℕ, zero, suc, ◌+◌, ◌%◌, Bool, true, false, not, ◌&&◌, ◌||◌, Option, none, some, List, [], ◌∷◌,
  ◌++◌, take, ltb, leb, ◌==◌, if◌then◌else◌, add16, sub16, add32, u32_mod, u16_mod,
}
use ferris_file_system.FsError.{
  FsError, invalid_dir, invalid_dir_entry, invalid_input, entries_overfill_block, zero_length,
  dir_entries_overfill_block, dir_entries_underfill_block, offset_not_at_dir_entry_start,
  dir_entry_not_free, dir_free_region_too_small,
}
use ferris_file_system.Effect.{Op, pure, fail, crash, ◌>>=◌, ◌>>◌}
use ferris_file_system.Device.{Block, zero_block, block_size, BlockDevice}
use ferris_file_system.Inode.{Inode}
use ferris_file_system.InodeTable.{InodeTableHandler, get_block}
use ferris_file_system.Directory.{
  DirEntry, Directory, is_free, free, serialize, deserialize, min_free_size, max_name,
}

-- What a visit of the entries of one block ends with.
pub data Visit (S : Type 0) : Type 0 where
  all_seen stopped : S → Visit S
  failed : FsError → Visit S
  panicked : Visit S

-- A callback gets the entry, the block and the offset. It says whether to stop, or panics.
abbrev pub Callback : Type 0 → Type 0
Callback S = DirEntry → ℕ → ℕ → S → Option (S × Bool)

-- Equality of byte strings.
abbrev pub same_bytes : List ℕ → List ℕ → Bool
same_bytes [] [] = true
same_bytes [] (y ∷ ys) = false
same_bytes (x ∷ xs) [] = false
same_bytes (x ∷ xs) (y ∷ ys) = (x == y) && same_bytes xs ys

-- `entry.name[0..entry.name_len]`, which panics if the length is more than the array's.
abbrev pub name_of : DirEntry → Option (List ℕ)
name_of e = if ltb max_name e.name_len then none else some (take e.name_len e.name)

module _ {S : Type 0} (callback : Callback S) where
  -- `while offset < BLOCK_SIZE` of `iterate`. Every round moves the offset by one at least, so 256
  -- rounds are enough.
  unfoldable pub visit_block : ℕ → Block → ℕ → ℕ → S → Visit S
  visit_block zero buf rel_block offset s = if ltb offset block_size then panicked else all_seen s
  visit_block (suc fuel) buf rel_block offset s =
      if leb block_size offset then all_seen s else elim (deserialize buf offset) [
        | none ↦ panicked
        | some parsed ↦ elim (callback parsed rel_block offset s) [
          | none ↦ panicked
          | some step ↦
              let rest = visit_block fuel buf rel_block (offset + parsed.record_len) step.0 in
              if ltb block_size (offset + parsed.record_len)
              then failed (invalid_dir entries_overfill_block rel_block offset)
              else if parsed.record_len == 0
              then failed (invalid_dir_entry zero_length rel_block offset)
              else if step.1
              then stopped step.0
              else rest
        ]
      ]

-- The callback of `find_entry`.
unfoldable pub match_name : List ℕ → Callback (Option (DirEntry × ℕ × ℕ))
match_name name entry block offset res =
    if is_free entry then some (res, false) else elim (name_of entry) [
      | none ↦ none
      | some bytes ↦
          if same_bytes bytes name
          then some (some (entry, block, offset), true)
          else some (res, false)
    ]

-- The callback of `can_fit`.
unfoldable pub match_free : DirEntry → Callback (Option (ℕ × ℕ))
match_free to_insert entry block offset res =
    if is_free entry
      && (leb (add16 to_insert.record_len min_free_size) entry.record_len
          || entry.record_len == to_insert.record_len)
    then some (some (block, offset % u16_mod), true)
    else some (res, false)

-- The callbacks of `get_entries`.
unfoldable pub collect : Bool → Callback (List DirEntry)
collect include_free entry block offset entries =
    if not include_free && is_free entry
    then some (entries, false)
    else some (entries ++ entry ∷ [], false)

-- Where the loop of `free_region` that looks for the entry before an offset ends. `crashed` is a
-- panic, or a loop without an end.
pub data Previous : Type 0 where
  found : DirEntry → ℕ → Previous
  absent inside crashed : Previous

-- A round changes `prev_offset` alone, which stays below `offset`, so a loop that has not ended
-- after `offset` rounds never ends.
unfoldable pub find_previous : ℕ → Block → ℕ → ℕ → Previous
find_previous zero buf offset prev_offset = if ltb prev_offset offset then crashed else absent
find_previous (suc fuel) buf offset prev_offset =
    if leb offset prev_offset then absent else elim (deserialize buf prev_offset) [
      | none ↦ crashed
      | some parsed ↦
          let next = add16 prev_offset parsed.record_len in
          let rest = find_previous fuel buf offset next in
          if ltb offset next
          then inside
          else if next == offset
          then found parsed prev_offset
          else rest
    ]

-- Does a free entry stand at an offset inside the block? `none` is the panic of `deserialize`.
unfoldable pub free_size_at : Block → ℕ → Option ℕ
free_size_at buf offset = if leb block_size offset then some 0 else elim (deserialize buf offset) [
  | none ↦ none
  | some e ↦ some (if is_free e then e.record_len else 0)
]

pub record DirectoryHandler : Type 0 where
  pub data_start : ℕ
  pub root_inode_ind : ℕ

module _ {D : Type 0} (dev : BlockDevice D) (t : InodeTableHandler) (h : DirectoryHandler) where
  open dev use {read_block, write_block}
  open h use {data_start}

  -- The blocks from `block` on, of which `rounds` are left.
  unfoldable pub iterate_blocks : {S : Type 0} → Callback S → Inode → ℕ → ℕ → S → Op D S
  iterate_blocks callback dir_inode zero block s = pure s
  iterate_blocks callback dir_inode (suc rounds) block s = do
    rel_block ← get_block dev t dir_inode block
    buf ← read_block (add32 rel_block data_start)
    elim (visit_block callback block_size buf rel_block 0 s) [
      | all_seen s' ↦ iterate_blocks callback dir_inode rounds (block + 1) s'
      | stopped s' ↦ pure s'
      | failed e ↦ fail e
      | panicked ↦ crash
    ]

  unfoldable pub iterate : {S : Type 0} → Callback S → Inode → S → Op D S
  unfolding iterate_blocks
  iterate callback dir_inode s = iterate_blocks callback dir_inode dir_inode.blocks 0 s

  unfoldable pub find_entry : Inode → List ℕ → Op D (Option (DirEntry × ℕ × ℕ))
  unfolding iterate match_name
  find_entry dir_inode name = iterate (match_name name) dir_inode none

  unfoldable pub can_fit : Inode → DirEntry → Op D (Option (ℕ × ℕ))
  unfolding iterate match_free
  can_fit dir to_insert = iterate (match_free to_insert) dir none

  unfoldable pub get_entries : Inode → Bool → Op D (List DirEntry)
  unfolding iterate collect
  get_entries dir include_free = iterate (collect include_free) dir []

  unfoldable pub or_crash : {A : Type 0} → Option A → Op D A
  or_crash none = crash
  or_crash (some a) = pure a

  -- The first pass of `write_directory_with_inode`: the number of blocks that are filled.
  unfoldable pub validate : List DirEntry → ℕ → ℕ → Op D ℕ
  validate [] offset block =
      if offset == 0
      then pure block
      else fail (invalid_input (dir_entries_underfill_block (block % u32_mod) offset))
  validate (e ∷ entries) offset block =
      if ltb block_size (offset + e.record_len)
      then fail (invalid_input (dir_entries_overfill_block (block % u32_mod) offset e.record_len))
      else if offset + e.record_len == block_size
      then validate entries 0 (block + 1)
      else validate entries (offset + e.record_len) block

  -- The second pass.
  unfoldable pub write_entries : Inode → List DirEntry → Block → ℕ → ℕ → Op D (Unit {0})
  unfolding or_crash
  write_entries inode [] buf offset block = pure tt
  write_entries inode (e ∷ entries) buf offset block = do
    buf' ← or_crash (serialize e buf offset)
    if offset + e.record_len == block_size
        then (do
          rel_block ← get_block dev t inode block
          write_block (add32 data_start rel_block) buf'
          write_entries inode entries zero_block 0 (add32 block 1))
        else write_entries inode entries buf' (offset + e.record_len) block

  -- More than 12 blocks are a `todo!()`.
  unfoldable pub write_directory_with_inode : Directory → Inode → Op D (Unit {0})
  unfolding validate write_entries zero_block
  write_directory_with_inode directory inode = do
    blocks ← validate directory.entries 0 0
    if ltb 12 blocks then crash else write_entries inode directory.entries zero_block 0 0

  unfoldable pub add_entry_here : DirEntry → ℕ → ℕ → Op D (Unit {0})
  unfolding or_crash
  add_entry_here entry block free_region_offset = do
    buf ← read_block (add32 data_start block)
    free_region ← or_crash (deserialize buf free_region_offset)
    let required = add16 entry.record_len min_free_size
    let rest = sub16 free_region.record_len entry.record_len
    if not (is_free free_region)
        then fail (dir_entry_not_free block free_region_offset)
        else if not (free_region.record_len == entry.record_len)
            && ltb free_region.record_len required
        then fail
            (dir_free_region_too_small block free_region_offset free_region.record_len required)
        else (do
          buf' ← or_crash (
              if ltb min_free_size rest
              then serialize (record free_region { record_len = rest }) buf
                  (add16 free_region_offset entry.record_len)
              else some buf)
          buf'' ← or_crash (serialize entry buf' free_region_offset)
          write_block (add32 data_start block) buf'')

  unfoldable pub add_entry_grow : DirEntry → ℕ → Op D (Unit {0})
  unfolding or_crash
  add_entry_grow entry block =
      let remainder = sub16 block_size entry.record_len in
      if not (remainder == 0) && ltb remainder min_free_size
      then fail (dir_free_region_too_small block 0 remainder min_free_size)
      else do
        buf ← or_crash (serialize entry zero_block 0)
        buf' ←
            or_crash (
              if ltb 0 remainder then serialize (free remainder) buf entry.record_len else some buf)
        write_block (add32 data_start block) buf'

  -- The length of the freed entry. The sizes of free neighbours are added to that of the new region.
  unfoldable pub free_region : ℕ → ℕ → Op D ℕ
  unfolding or_crash find_previous free_size_at
  free_region block offset = do
    buf ← read_block (add32 data_start block)
    (before, start) ← elim (find_previous offset buf offset 0) [
      | found e prev_offset ↦ pure (if is_free e then (e.record_len, prev_offset) else (0, offset))
      | absent ↦ pure (0, offset)
      | inside ↦ fail (invalid_input (offset_not_at_dir_entry_start block offset))
      | crashed ↦ crash
    ]
    to_free ← or_crash (deserialize buf offset)
    after ← or_crash (free_size_at buf (offset + to_free.record_len))
    let size = add16 (add16 before to_free.record_len) after
    buf' ← or_crash (serialize (free size) buf start)
    write_block (add32 data_start block) buf'
    pure to_free.record_len
