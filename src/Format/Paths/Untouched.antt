-- ===== src/Format/Paths/Untouched.antt =====
-- Open files, under the operations of src/formats/v1/format.rs that make and take away names.
use ferris_file_system.Prelude.{
  Bool, true, false, ℕ, ◌≡◌, refl, ◌==◌, Option, none, some, List, by_cases,
}
use ferris_file_system.FsError.{already_exists, directory_not_empty}
use ferris_file_system.Effect.Keeps.{Keeps, kept, kept_err, kept_panic, bind}
use ferris_file_system.Device.{BlockDevice}
use ferris_file_system.File.{FileType, file, symlink, unknown}
use ferris_file_system.File
use ferris_file_system.Inode.{Inode}
use ferris_file_system.InodeTable.{read_inode}
use ferris_file_system.OpenFiles.{Table}
use ferris_file_system.DirectoryHandler.Resolving.{resolve}
use ferris_file_system.Path.{Component, components, parent, file_name}
use ferris_file_system.Format.{Volume}
use ferris_file_system.Format.Files.Handles.{Held, on_device_keeps}
use ferris_file_system.Format.Children.{create_child, delete_child}
use ferris_file_system.Format.Children.Untouched.{
  create_in_keeps, create_child_keeps, delete_in_keeps, delete_child_keeps, link_in_keeps,
  write_symlink_keeps,
}
use ferris_file_system.Format.Paths.{
  unwrap, resolve_path, create, create_symlink, create_hardlink, create_child_hardlink, delete,
  edit_symlink,
}

module _ {D : Type 0} (dev : BlockDevice D) (K : ℕ → Table → Type 0) where
  abbrev IsHeld : Volume D → Type 0
  IsHeld = Held K

  unwrap_keeps : {A : Type 0} (o : Option A) (v : Volume D) → IsHeld v → Keeps IsHeld (unwrap o v)
  unfolding unwrap
  unwrap_keeps none v i = kept_panic
  unwrap_keeps (some a) v i = kept i

  resolve_path_keeps :
      (path : List Component) (final : Bool) (v : Volume D)
      → IsHeld v
      → Keeps IsHeld (resolve_path dev path final v)
  unfolding resolve_path
  resolve_path_keeps path final v i = on_device_keeps K (resolve dev _ _ _ _ _) v i

  create_keeps :
      (now : ℕ) (path : List ℕ) (t : FileType) (v : Volume D)
      → IsHeld v
      → Keeps IsHeld (create dev now path t v)
  unfolding create
  create_keeps now path t v i =
      by_cases (File.is t unknown) (λ e. rw e (kept_err i))
        λ e. rw e (
          bind (unwrap_keeps (parent (components path)) v i) λ parent_path v1 i1.
            bind (unwrap_keeps (file_name (components path)) v1 i1) λ filename v2 i2.
              bind (resolve_path_keeps parent_path true v2 i2) λ resolved v3 i3.
                create_in_keeps dev K now t filename resolved.target_inode_index
                  resolved.target_inode (λ _. already_exists path) v3 i3)

  create_symlink_keeps :
      (now now' : ℕ) (path target : List ℕ) (v : Volume D)
      → IsHeld v
      → Keeps IsHeld (create_symlink dev now now' path target v)
  unfolding create_symlink
  create_symlink_keeps now now' path target v i =
      bind (create_keeps now path symlink v i) λ out v1 i1.
        bind (write_symlink_keeps dev K now' out.0 out.1 target v1 i1) λ _ v2 i2. kept i2

  create_child_hardlink_keeps :
      (now : ℕ) (inode : Inode) (inode_ind : ℕ) (dst : List ℕ) (parent_inode : Inode)
      (parent_ind : ℕ) (v : Volume D)
      → IsHeld v
      → Keeps IsHeld (create_child_hardlink dev now inode inode_ind dst parent_inode parent_ind v)
  unfolding create_child_hardlink
  create_child_hardlink_keeps now inode inode_ind dst parent_inode parent_ind v i =
      bind (unwrap_keeps (parent (components dst)) v i) λ _ v1 i1.
        bind (unwrap_keeps (file_name (components dst)) v1 i1) λ filename v2 i2.
          link_in_keeps dev K now inode inode_ind filename parent_inode parent_ind
            (already_exists dst) v2 i2

  create_hardlink_keeps :
      (now : ℕ) (src dst : List ℕ) (v : Volume D)
      → IsHeld v
      → Keeps IsHeld (create_hardlink dev now src dst v)
  unfolding create_hardlink
  create_hardlink_keeps now src dst v i =
      bind (resolve_path_keeps (components src) true v i) λ source v1 i1.
        by_cases (File.is source.target_inode.file_type file)
          (λ e. rw e (
            bind (unwrap_keeps (parent (components dst)) v1 i1) λ parent_path v2 i2.
              bind (unwrap_keeps (file_name (components dst)) v2 i2) λ filename v3 i3.
                bind (resolve_path_keeps parent_path true v3 i3) λ destination v4 i4.
                  bind
                    (link_in_keeps dev K now source.target_inode source.target_inode_index filename
                      destination.target_inode destination.target_inode_index (already_exists dst)
                      v4 i4)
                    λ _ v5 i5. kept i5))
          λ e. rw e (kept_err i1)

  delete_keeps :
      (now : ℕ) (path : List ℕ) (v : Volume D) → IsHeld v → Keeps IsHeld (delete dev now path v)
  unfolding delete
  delete_keeps now path v i =
      bind (resolve_path_keeps (components path) false v i) λ resolved v1 i1.
        by_cases (resolved.target_inode_index == v.format.superblock.root_inode)
          (λ e. rw e (kept_err i1))
          λ e. rw e (
            bind (on_device_keeps K (read_inode dev _ _) v1 i1) λ parent_inode v2 i2.
              delete_in_keeps dev K now resolved.target_inode_index resolved.target_inode
                resolved.parent_inode_index parent_inode resolved.dir_entry_block_index
                resolved.dir_entry_offset (directory_not_empty path) v2 i2)

  edit_symlink_keeps :
      (now : ℕ) (path target : List ℕ) (v : Volume D)
      → IsHeld v
      → Keeps IsHeld (edit_symlink dev now path target v)
  unfolding edit_symlink
  edit_symlink_keeps now path target v i =
      bind (resolve_path_keeps (components path) false v i) λ resolved v1 i1.
        by_cases (File.is resolved.target_inode.file_type symlink)
          (λ e. rw e (
            bind
              (write_symlink_keeps dev K now resolved.target_inode resolved.target_inode_index
                target v1 i1)
              λ _ v2 i2. kept i2))
          λ e. rw e (kept_err i1)

-- The handles that are open, and the next one, are those of `v`.
abbrev pub SameHandles : {D : Type 0} → Volume D → Volume D → Type 0
SameHandles v v' =
    (v'.format.next_file_id ≡ v.format.next_file_id) × (v'.format.open_files ≡ v.format.open_files)

module _ {D : Type 0} (dev : BlockDevice D) where
  -- The operations that make, take away and link names, by path or by the inode of the directory, leave
  -- every open file and the next handle as they are, whether they succeed or fail, over any device: a
  -- file that is deleted while it is open stays open.
  pub names_keep_handles :
      (v : Volume D) (now now' : ℕ) (path target : List ℕ) (t : FileType) (wanted : Option FileType)
      (inode parent_inode : Inode) (inode_ind parent_ind : ℕ)
      → Keeps (SameHandles v) (create dev now path t v)
        × Keeps (SameHandles v) (create_symlink dev now now' path target v)
        × Keeps (SameHandles v) (create_hardlink dev now target path v)
        × Keeps (SameHandles v) (edit_symlink dev now path target v)
        × Keeps (SameHandles v) (delete dev now path v)
        × Keeps (SameHandles v) (create_child dev now t path parent_ind v)
        × Keeps
            (SameHandles v)
            (create_child_hardlink dev now inode inode_ind path parent_inode parent_ind v)
        × Keeps (SameHandles v) (delete_child dev now path parent_ind wanted v)
  names_keep_handles v now now' path target t wanted inode parent_inode inode_ind parent_ind =
      let K : ℕ → Table → Type 0 =
        λ next table. (next ≡ v.format.next_file_id) × (table ≡ v.format.open_files) in
      let i : Held K v = (refl, refl) in
      (
        create_keeps dev K now path t v i,
        create_symlink_keeps dev K now now' path target v i,
        create_hardlink_keeps dev K now target path v i,
        edit_symlink_keeps dev K now path target v i,
        delete_keeps dev K now path v i,
        create_child_keeps dev K now t path parent_ind v i,
        create_child_hardlink_keeps dev K now inode inode_ind path parent_inode parent_ind v i,
        delete_child_keeps dev K now path parent_ind wanted v i,
      )
