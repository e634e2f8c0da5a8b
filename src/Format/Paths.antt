-- ===== src/Format/Paths.antt =====
-- The operations of src/formats/v1/format.rs that take paths, given as their bytes. What is printed
-- with debug assertions is left out.
pub mod Untouched
use ferris_file_system.Prelude.{
  ℕ, Bool, true, false, not, Option, none, some, List, [], ◌∷◌, ◌==◌, if◌then◌else◌,
}
use ferris_file_system.FsError.{
  invalid_input, unknown_file_type, already_exists, does_not_exist, not_a_directory, not_a_file,
  not_a_symlink, directory_not_empty, deleting_root,
}
use ferris_file_system.Effect.{Op, ok, err, panic, pure, fail, crash, ◌>>=◌}
use ferris_file_system.Device.{BlockDevice}
use ferris_file_system.File.{FileType, file, directory, symlink, unknown}
use ferris_file_system.File
use ferris_file_system.Inode.{Inode}
use ferris_file_system.InodeTable.{read_inode}
use ferris_file_system.Directory.{DirEntry, Directory}
use ferris_file_system.DirectoryHandler.{get_entries, name_of}
use ferris_file_system.DirectoryHandler.Resolving.{ResolutionResult, resolve}
use ferris_file_system.Path.{Component, components, parent, file_name, is_utf8}
use ferris_file_system.Format.{Volume, on_device}
use ferris_file_system.Format.Children.{create_in, delete_in, link_in, write_symlink}
use ferris_file_system.Format.Files.{create_handle}

-- `DirectoryContentEntry`
pub record ContentEntry : Type 0 where
  pub filename : List ℕ
  pub file_type : FileType

-- `String::from_utf8` of the names. Another name is a `todo!()`.
unfoldable pub content_of : {S : Type 0} → List DirEntry → Op S (List ContentEntry)
content_of [] = pure []
content_of (e ∷ entries) = elim (name_of e) [
  | none ↦ crash
  | some name ↦ if not (is_utf8 name) then crash else do
    rest ← content_of entries
    pure (record { filename = name; file_type = e.file_type } ∷ rest)
]

-- `unwrap`, which panics.
unfoldable pub unwrap : {S A : Type 0} → Option A → Op S A
unwrap none = crash
unwrap (some a) = pure a

module _ {D : Type 0} (dev : BlockDevice D) where
  -- `directory_handler.resolve` from the root.
  unfoldable pub resolve_path : List Component → Bool → Op (Volume D) ResolutionResult
  unfolding on_device
  resolve_path path resolve_final v =
      let m = v.format in
      on_device
        (resolve dev m.inode_handler m.directory_handler path m.superblock.root_inode resolve_final)
        v

  unfoldable pub create : ℕ → List ℕ → FileType → Op (Volume D) (Inode × ℕ)
  unfolding resolve_path unwrap create_in
  create now path_str file_type =
      if File.is file_type unknown then fail (invalid_input unknown_file_type) else do
        let path = components path_str
        parent_path ← unwrap (parent path)
        filename ← unwrap (file_name path)
        resolved ← resolve_path parent_path true
        create_in dev now file_type filename resolved.target_inode_index resolved.target_inode
            (λ _. already_exists path_str)

  unfoldable pub create_directory : ℕ → List ℕ → Op (Volume D) (Unit {0})
  unfolding create
  create_directory now path = do _ ← create now path directory; pure tt

  unfoldable pub create_file : ℕ → List ℕ → Op (Volume D) (Unit {0})
  unfolding create
  create_file now path = do _ ← create now path file; pure tt

  -- The two times are those of `create` and of `write_symlink`.
  unfoldable pub create_symlink : ℕ → ℕ → List ℕ → List ℕ → Op (Volume D) (Unit {0})
  unfolding create write_symlink
  create_symlink now now' path path_tgt = do
    (inode, index) ← create now path symlink
    _ ← write_symlink dev now' inode index path_tgt
    pure tt

  unfoldable pub create_hardlink : ℕ → List ℕ → List ℕ → Op (Volume D) (Unit {0})
  unfolding resolve_path unwrap link_in
  create_hardlink now src dst = do
    source ← resolve_path (components src) true
    if not (File.is source.target_inode.file_type file) then fail (not_a_file src) else do
      parent_path ← unwrap (parent (components dst))
      filename ← unwrap (file_name (components dst))
      destination ← resolve_path parent_path true
      _ ←
          link_in dev now source.target_inode source.target_inode_index filename
            destination.target_inode destination.target_inode_index (already_exists dst)
      pure tt

  -- `create_child_hardlink`, where the caller has both inodes, which are returned.
  unfoldable pub create_child_hardlink :
      ℕ → Inode → ℕ → List ℕ → Inode → ℕ → Op (Volume D) (Inode × Inode)
  unfolding unwrap link_in
  create_child_hardlink now inode inode_ind dst parent_inode parent_ind = do
    _ ← unwrap (parent (components dst))
    filename ← unwrap (file_name (components dst))
    link_in dev now inode inode_ind filename parent_inode parent_ind (already_exists dst)

  unfoldable pub delete : ℕ → List ℕ → Op (Volume D) (Unit {0})
  unfolding resolve_path on_device delete_in
  delete now path_str v =
      let m = v.format in
      (do
        resolved ← resolve_path (components path_str) false
        if resolved.target_inode_index == m.superblock.root_inode
            then fail (deleting_root path_str)
            else do
              parent_inode ← on_device (read_inode dev m.inode_handler resolved.parent_inode_index)
              delete_in dev now resolved.target_inode_index resolved.target_inode
                  resolved.parent_inode_index parent_inode resolved.dir_entry_block_index
                  resolved.dir_entry_offset (directory_not_empty path_str))
        v

  -- The state is that after the search, whether the file was found or not.
  unfoldable pub file_exists : List ℕ → Op (Volume D) (Bool × Option FileType)
  unfolding resolve_path
  file_exists path_str v = elim (resolve_path (components path_str) true v) [
    | ok resolved w ↦ ok (true, some resolved.target_inode.file_type) w
    | err e w ↦ elim e [ does_not_exist text ↦ ok (false, none) w | other ↦ err other w ]
    | panic ↦ panic
  ]

  unfoldable pub open_file : List ℕ → Op (Volume D) ℕ
  unfolding resolve_path create_handle
  open_file path_str = do
    resolved ← resolve_path (components path_str) true
    if not (File.is resolved.target_inode.file_type file)
        then fail (not_a_file path_str)
        else create_handle resolved.target_inode_index

  unfoldable pub edit_symlink : ℕ → List ℕ → List ℕ → Op (Volume D) (Unit {0})
  unfolding resolve_path write_symlink
  edit_symlink now path_str path_tgt = do
    resolved ← resolve_path (components path_str) false
    if not (File.is resolved.target_inode.file_type symlink)
        then fail (not_a_symlink path_str)
        else do
          _ ← write_symlink dev now resolved.target_inode resolved.target_inode_index path_tgt
          pure tt

  unfoldable pub get_directory : List ℕ → Bool → Op (Volume D) Directory
  unfolding resolve_path on_device
  get_directory path_str include_free v =
      let m = v.format in
      (do
        resolved ← resolve_path (components path_str) true
        if not (File.is resolved.target_inode.file_type directory)
            then fail (not_a_directory path_str)
            else do
              entries ← on_device (
                  get_entries dev m.inode_handler m.directory_handler resolved.target_inode
                    include_free)
              pure (record { inode = resolved.target_inode_index; entries = entries }))
        v

  unfoldable pub get_directory_content : List ℕ → Op (Volume D) (List ContentEntry)
  unfolding get_directory content_of
  get_directory_content path = do dir ← get_directory path false; content_of dir.entries
