-- ===== src/Format/Children.antt =====
-- The children of a directory, in src/formats/v1/format.rs: the parts that the operations on inodes and
-- those on paths share, and the operations that take the inode of the directory.
pub mod Untouched
use ferris_file_system.Prelude.{
  ℕ, zero, suc, ◌+◌, ◌-◌, ◌*◌, ◌%◌, Bool, true, false, not, ◌&&◌, ◌||◌, Option, none, some, List,
  [], ◌∷◌, length, get_or, take, ltb, ◌==◌, if◌then◌else◌, add32, sub16, add16, add64, u16_mod,
  u32_mod,
}
use ferris_file_system.FsError.{
  FsError, PathText, invalid_input, file_is_self_or_parent, unknown_file_type, already_exists,
  does_not_exist, directory_does_not_exist, directory_not_empty, not_a_directory, not_a_file,
  not_a_symlink,
}
use ferris_file_system.Effect.{Op, err, pure, fail, crash, ◌>>=◌, ◌>>◌}
use ferris_file_system.Device.{Block, zero_block, block_size, invalid_address, BlockDevice}
use ferris_file_system.Codec.{write_at}
use ferris_file_system.File.{FileType, file, directory, symlink, unknown}
use ferris_file_system.File
use ferris_file_system.Bitmap.{deallocate, is_allocated}
use ferris_file_system.Superblock.{serialize}
use ferris_file_system.Inode.{Inode}
use ferris_file_system.Inode
use ferris_file_system.InodeTable.{
  read_inode, write_inode, get_block, add_block, blocks_necessary_to_grow,
}
use ferris_file_system.Directory.{DirEntry, Directory, is_free, dot, new_directory}
use ferris_file_system.Directory
use ferris_file_system.DirectoryHandler.{
  Callback, same_bytes, iterate, find_entry, can_fit, get_entries, write_directory_with_inode,
  add_entry_here, add_entry_grow, free_region,
}
use ferris_file_system.Format.{FormatV1, Volume, on_device, set_format, allocate, to_string}

-- The data blocks of a new file. An unknown type panics.
unfoldable pub file_blocks : {S : Type 0} → FileType → Op S ℕ
file_blocks directory = pure 1
file_blocks file = pure 0
file_blocks symlink = pure 1
file_blocks unknown = crash

-- `allocated[index]; index += 1`: the first of the addresses that are left, and the others.
unfoldable pub next_address : {S : Type 0} → List ℕ → Op S (ℕ × List ℕ)
next_address [] = crash
next_address (a ∷ addresses) = pure (a, addresses)

-- The loop that fills `pool`.
unfoldable pub next_addresses : {S : Type 0} → ℕ → List ℕ → Op S (List ℕ)
next_addresses count addresses =
    if ltb (length addresses) count then crash else pure (take count addresses)

-- The callback that looks for an entry other than `.` and `..`. The state says whether there is none.
unfoldable pub match_child : Callback Bool
match_child entry block offset empty =
    if is_free entry
    then some (empty, false)
    else if ltb 2 entry.name_len
        || not (get_or entry.name 0 0 == dot)
        || (entry.name_len == 2 && not (get_or entry.name 1 0 == dot))
    then some (false, true)
    else some (empty, false)

module _ {D : Type 0} (dev : BlockDevice D) where
  open dev use {read_block, write_block}

  -- WRITE DIRECTORY ENTRY: in a free region, or in a new block. The inode of the directory is returned.
  unfoldable pub place_entry :
      FormatV1 → Inode → DirEntry → Option (ℕ × ℕ) → List ℕ → Op (Volume D) Inode
  unfolding on_device next_address next_addresses
  place_entry m parent entry none addresses = do
    (entry_block, addresses1) ← next_address addresses
    pool ← next_addresses (blocks_necessary_to_grow parent) addresses1
    parent' ← on_device (add_block dev m.inode_handler parent entry_block pool)
    on_device (add_entry_grow dev m.inode_handler m.directory_handler entry entry_block)
    pure (record parent' { size = add64 parent'.size block_size })
  place_entry m parent entry (some (entry_block, entry_offset)) addresses = do
    on_device
        (add_entry_here dev m.inode_handler m.directory_handler entry entry_block entry_offset)
    pure parent

  -- CREATE INODE: a directory and a symlink have one block.
  unfoldable pub first_block : FormatV1 → FileType → Inode → List ℕ → Op (Volume D) (Inode × List ℕ)
  unfolding on_device next_address
  first_block m file inode addresses = pure (inode, addresses)
  first_block m unknown inode addresses = pure (inode, addresses)
  first_block m directory inode addresses = do
    (address, addresses1) ← next_address addresses
    inode' ← on_device (add_block dev m.inode_handler inode address [])
    pure (record inode' { size = block_size * inode'.blocks }, addresses1)
  first_block m symlink inode addresses = do
    (address, addresses1) ← next_address addresses
    inode' ← on_device (add_block dev m.inode_handler inode address [])
    pure (inode', addresses1)

  -- The contents of a new directory.
  unfoldable pub first_entries : FormatV1 → FileType → Inode → ℕ → ℕ → Op (Volume D) (Unit {0})
  unfolding on_device
  first_entries m file inode inode_ind parent_ind = pure tt
  first_entries m unknown inode inode_ind parent_ind = pure tt
  first_entries m symlink inode inode_ind parent_ind = pure tt
  first_entries m directory inode inode_ind parent_ind = on_device (
      write_directory_with_inode dev m.inode_handler m.directory_handler
        (new_directory inode_ind parent_ind) inode)

  -- `create` and `create_child` behind the search for the parent directory.
  unfoldable pub create_in :
      ℕ → FileType → List ℕ → ℕ → Inode → (DirEntry → FsError) → Op (Volume D) (Inode × ℕ)
  unfolding on_device file_blocks next_address first_block first_entries place_entry
  create_in now file_type filename parent_ind parent exists_error v =
      let m = v.format in
      let h = m.inode_handler in
      let d = m.directory_handler in
      let entry = Directory.new invalid_address file_type filename in
      let count = blocks_necessary_to_grow parent in
      (do
        exists ← on_device (find_entry dev h d parent entry.name)
        elim exists [
          | some found ↦ fail (exists_error found.0)
          | none ↦ do
            blocks ← file_blocks file_type
            fit_result ← on_device (can_fit dev h d parent entry)
            let data_to_alloc : ℕ = elim fit_result [
              | some _ ↦ blocks
              | none ↦ add32 (add32 blocks 1) count
            ]
            (allocated_inodes, allocated_data) ← allocate dev 1 data_to_alloc
            (inode_index, _) ← next_address allocated_inodes
            (inode, addresses) ←
                first_block m file_type (Inode.empty file_type (u16_mod - 1) now) allocated_data
            on_device (write_inode dev h inode_index inode)
            first_entries m file_type inode inode_index parent_ind
            parent' ←
                place_entry m parent (record entry { inode = inode_index }) fit_result addresses
            on_device (write_inode dev h parent_ind (record parent' { modified = now }))
            pure (inode, inode_index)
        ])
        v

  -- The directory behind an index, or the error of its absence.
  unfoldable pub find_parent : ℕ → Op (Volume D) Inode
  unfolding on_device
  find_parent parent_ind v =
      let m = v.format in
      (do
        allocated ← on_device (is_allocated dev m.inode_allocator parent_ind)
        if not allocated then fail (directory_does_not_exist (to_string parent_ind)) else do
          parent ← on_device (read_inode dev m.inode_handler parent_ind)
          if not (File.is parent.file_type directory)
              then fail (not_a_directory (to_string parent_ind))
              else pure parent)
        v

  unfoldable pub create_child : ℕ → FileType → List ℕ → ℕ → Op (Volume D) (Inode × ℕ)
  unfolding find_parent create_in
  create_child now file_type filename parent_ind = do
    parent ← find_parent parent_ind
    create_in now file_type filename parent_ind parent
        (λ found. already_exists (to_string found.inode))

  -- `for i in 0..file_inode.blocks`: the addresses of the blocks from `i` on, of which `rounds` are left.
  unfoldable pub collect_blocks : FormatV1 → Inode → ℕ → ℕ → Op (Volume D) (List ℕ)
  unfolding on_device
  collect_blocks m inode zero i = pure []
  collect_blocks m inode (suc rounds) i = do
    block ← on_device (get_block dev m.inode_handler inode i)
    blocks ← collect_blocks m inode rounds (i + 1)
    pure (block ∷ blocks)

  -- DELETE: the link is taken away, or the blocks and the inode are.
  unfoldable pub unlink : ℕ → Inode → Op (Volume D) (Unit {0})
  unfolding on_device set_format collect_blocks zero_block
  unlink inode_ind inode v =
      let m = v.format in
      if ltb 1 inode.links
      then on_device
          (write_inode dev m.inode_handler inode_ind (record inode { links = sub16 inode.links 1 }))
          v
      else (do
        data_to_dealloc ← collect_blocks m inode inode.blocks 0
        on_device (deallocate dev m.block_allocator data_to_dealloc)
        on_device (deallocate dev m.inode_allocator (inode_ind ∷ []))
        let superblock = record m.superblock {
          free_data = add32 m.superblock.free_data (length data_to_dealloc % u32_mod);
          free_inodes = add32 m.superblock.free_inodes 1;
        }
        set_format (record m { superblock = superblock })
        on_device (write_block 0 (serialize superblock zero_block)))
          v

  -- A directory is deleted only without children.
  unfoldable pub check_no_children : FormatV1 → Inode → FsError → Op (Volume D) (Unit {0})
  unfolding on_device match_child
  check_no_children m inode error =
      if File.is inode.file_type directory
      then (do
        empty ← on_device (iterate dev m.inode_handler m.directory_handler match_child inode true)
        if not empty then fail error else pure tt)
      else pure tt

  -- `delete` and `delete_child` behind the search for the entry, which is in `parent`.
  unfoldable pub delete_in : ℕ → ℕ → Inode → ℕ → Inode → ℕ → ℕ → FsError → Op (Volume D) (Unit {0})
  unfolding on_device unlink check_no_children
  delete_in now file_ind file_inode parent_ind parent entry_block entry_offset error v =
      let m = v.format in
      (do
        check_no_children m file_inode error
        unlink file_ind file_inode
        freed ← on_device (
            free_region dev m.inode_handler m.directory_handler entry_block
              (entry_offset % u16_mod))
        on_device (write_inode dev m.inode_handler parent_ind (record parent { modified = now })))
        v

  -- The error for an inode of another type than the one that is asked for.
  unfoldable pub check_type : FileType → FileType → PathText → Op (Volume D) (Unit {0})
  check_type wanted actual text =
      if File.is wanted actual
      then pure tt
      else fail (elim wanted [
        | directory ↦ not_a_directory text
        | file ↦ not_a_file text
        | symlink ↦ not_a_symlink text
        | unknown ↦ invalid_input unknown_file_type
      ])

  unfoldable pub delete_child : ℕ → List ℕ → ℕ → Option FileType → Op (Volume D) (Unit {0})
  unfolding on_device find_parent check_type delete_in
  delete_child now filename parent_ind file_type v =
      let m = v.format in
      let text = to_string parent_ind in
      if same_bytes filename (dot ∷ []) || same_bytes filename (dot ∷ dot ∷ [])
      then err (invalid_input file_is_self_or_parent) v
      else (do
        parent ← find_parent parent_ind
        exists ← on_device (find_entry dev m.inode_handler m.directory_handler parent filename)
        elim exists [
          | none ↦ fail (does_not_exist text)
          | some found ↦ do
            let file_ind = found.0.inode
            file_inode ← on_device (read_inode dev m.inode_handler file_ind)
            elim file_type [
              | none ↦ pure tt
              | some wanted ↦ check_type wanted file_inode.file_type text
            ]
            delete_in now file_ind file_inode parent_ind parent found.1 found.2
                (directory_not_empty text)
        ])
          v

  -- `create_hardlink` and `create_child_hardlink` behind the search for the two inodes: the file with
  -- one link more, and the directory.
  unfoldable pub link_in :
      ℕ → Inode → ℕ → List ℕ → Inode → ℕ → FsError → Op (Volume D) (Inode × Inode)
  unfolding on_device place_entry
  link_in now inode inode_ind filename parent parent_ind error v =
      let m = v.format in
      let h = m.inode_handler in
      let d = m.directory_handler in
      let entry = Directory.new inode_ind file filename in
      let count = blocks_necessary_to_grow parent in
      (do
        exists ← on_device (find_entry dev h d parent entry.name)
        elim exists [
          | some _ ↦ fail error
          | none ↦ do
            fit_result ← on_device (can_fit dev h d parent entry)
            let data_to_alloc : ℕ = elim fit_result [ some _ ↦ 0 | none ↦ add32 1 count ]
            (_, allocated_data) ← allocate dev 0 data_to_alloc
            parent1 ← place_entry m parent entry fit_result allocated_data
            let inode' = record inode { links = add16 inode.links 1 }
            on_device (write_inode dev h inode_ind inode')
            let parent' = record parent1 { modified = now }
            on_device (write_inode dev h parent_ind parent')
            pure (inode', parent')
        ])
        v

  -- What the caller's `&mut buf` is after `copy_from_slice`: a text longer than a block panics.
  unfoldable pub write_symlink : ℕ → Inode → ℕ → List ℕ → Op (Volume D) Inode
  unfolding on_device zero_block
  write_symlink now inode index path_tgt v =
      let m = v.format in
      let data_block = add32 m.superblock.data_start (get_or inode.direct 0 0) in
      let inode' = record inode { modified = now; size = length path_tgt } in
      (do
        if ltb block_size (length path_tgt)
            then crash
            else on_device (write_block data_block (write_at zero_block 0 path_tgt))
        on_device (write_inode dev m.inode_handler index inode')
        pure inode')
        v

  -- The size, and the caller's buffer, which is left alone if the symlink is empty.
  unfoldable pub read_symlink : ℕ → Block → Op (Volume D) (ℕ × Block)
  unfolding on_device
  read_symlink inode_ind buf v =
      let m = v.format in
      (do
        allocated ← on_device (is_allocated dev m.inode_allocator inode_ind)
        if not allocated then fail (does_not_exist (to_string inode_ind)) else do
          inode ← on_device (read_inode dev m.inode_handler inode_ind)
          if not (File.is inode.file_type symlink)
              then fail (not_a_symlink (to_string inode_ind))
              else if inode.size == 0
              then pure (0, buf)
              else do
                buf' ← on_device (read_block (get_or inode.direct 0 0))
                pure (inode.size, buf'))
        v

  unfoldable pub get_directory_from_inode : Inode → ℕ → Op (Volume D) Directory
  unfolding on_device
  get_directory_from_inode inode inode_ind v =
      let m = v.format in
      if not (File.is inode.file_type directory)
      then err (not_a_directory (117 ∷ 110 ∷ 107 ∷ 110 ∷ 111 ∷ 119 ∷ 110 ∷ [])) v
      else (do
        entries ← on_device (get_entries dev m.inode_handler m.directory_handler inode false)
        pure (record { inode = inode_ind; entries = entries }))
          v

  unfoldable pub get_dir_entry_inode : ℕ → List ℕ → Op (Volume D) (Option ℕ)
  unfolding on_device
  get_dir_entry_inode dir_inode_ind name v =
      let m = v.format in
      (do
        allocated ← on_device (is_allocated dev m.inode_allocator dir_inode_ind)
        if not allocated then fail (does_not_exist (to_string dir_inode_ind)) else do
          dir_inode ← on_device (read_inode dev m.inode_handler dir_inode_ind)
          entry ← on_device (find_entry dev m.inode_handler m.directory_handler dir_inode name)
          pure (elim entry [ none ↦ none | some found ↦ some found.0.inode ]))
        v
