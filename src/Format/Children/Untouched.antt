-- ===== src/Format/Children/Untouched.antt =====
-- The table of open files, under the operations of src/formats/v1/format.rs on the children of a
-- directory.
use ferris_file_system.Prelude.{
  ℕ, zero, suc, ◌+◌, true, ◌||◌, Option, none, some, List, [], ◌∷◌, length, ltb, by_cases,
}
use ferris_file_system.FsError.{FsError, PathText}
use ferris_file_system.Effect.{Op}
use ferris_file_system.Effect.Keeps.{Keeps, kept, kept_err, kept_panic, bind}
use ferris_file_system.Device.{BlockDevice, block_size}
use ferris_file_system.File.{FileType, file, directory, symlink, unknown}
use ferris_file_system.File
use ferris_file_system.Bitmap
use ferris_file_system.Bitmap.{find_free, deallocate, is_allocated}
use ferris_file_system.InodeTable.{read_inode, write_inode, get_block, add_block}
use ferris_file_system.Inode.{Inode}
use ferris_file_system.Directory.{DirEntry, dot}
use ferris_file_system.DirectoryHandler.{
  same_bytes, iterate, find_entry, can_fit, write_directory_with_inode, add_entry_here,
  add_entry_grow, free_region,
}
use ferris_file_system.OpenFiles.{Table}
use ferris_file_system.Format.{FormatV1, Volume, on_device, set_format, take_free, allocate}
use ferris_file_system.Format.Files.Handles.{Held, on_device_keeps}
use ferris_file_system.Format.Children.{
  file_blocks, next_address, next_addresses, place_entry, first_block, first_entries, create_in,
  find_parent, create_child, collect_blocks, unlink, check_no_children, delete_in, check_type,
  delete_child, link_in, write_symlink, match_child,
}

module _ {D : Type 0} (dev : BlockDevice D) (K : ℕ → Table → Type 0) where
  abbrev IsHeld : Volume D → Type 0
  IsHeld = Held K

  on : {A : Type 0} (op : Op D A) (v : Volume D) → IsHeld v → Keeps IsHeld (on_device op v)
  on op v i = on_device_keeps K op v i

  -- A match on an option.
  option_keeps :
      {A B : Type 0} (o : Option A) (absent : Op (Volume D) B) (present : A → Op (Volume D) B)
      (v : Volume D)
      → Keeps IsHeld (absent v)
      → ((a : A) → Keeps IsHeld (present a v))
      → Keeps IsHeld ((elim o as (λ x. Op (Volume D) B) [ none ↦ absent | some a ↦ present a ]) v)
  option_keeps none absent present v k k' = k
  option_keeps (some a) absent present v k k' = k' a

  take_free_keeps :
      (inodes blocks : ℕ) (is ds : List ℕ) (v : Volume D)
      → IsHeld v
      → Keeps IsHeld (take_free dev inodes blocks is ds v)
  unfolding take_free set_format
  take_free_keeps inodes blocks is ds v i = bind (on (Bitmap.allocate dev _ _) v i) λ a v1 i1.
      bind (on (Bitmap.allocate dev _ _) _ i)
        λ b v2 i2. bind (on (dev.write_block _ _) _ i) λ _ v3 i3. kept i3

  allocate_keeps :
      (inodes blocks : ℕ) (v : Volume D) → IsHeld v → Keeps IsHeld (allocate dev inodes blocks v)
  unfolding allocate
  allocate_keeps inodes blocks v i =
      by_cases (ltb v.format.superblock.free_inodes inodes) (λ e. rw e (kept_err i))
        λ e.
          by_cases (ltb v.format.superblock.free_data blocks) (λ e'. rw (e, e') (kept_err i))
            λ e'.
              rw (e, e')
                (bind (on (find_free dev _ _) v i) λ is v1 i1.
                  bind (on (find_free dev _ _) v1 i1) λ ds v2 i2.
                    by_cases (ltb (length is) inodes) (λ c. rw c (kept_err i))
                      λ c.
                        by_cases (ltb (length ds) blocks) (λ c'. rw (c, c') (kept_err i))
                          λ c'. rw (c, c') (take_free_keeps inodes blocks is ds v2 i2))

  next_address_keeps :
      (addresses : List ℕ) (v : Volume D) → IsHeld v → Keeps IsHeld (next_address addresses v)
  unfolding next_address
  next_address_keeps [] v i = kept_panic
  next_address_keeps (a ∷ addresses) v i = kept i

  next_addresses_keeps :
      (count : ℕ) (addresses : List ℕ) (v : Volume D)
      → IsHeld v
      → Keeps IsHeld (next_addresses count addresses v)
  unfolding next_addresses
  next_addresses_keeps count addresses v i =
      by_cases (ltb (length addresses) count) (λ e. rw e kept_panic) λ e. rw e (kept i)

  place_entry_keeps :
      (m : FormatV1) (parent : Inode) (entry : DirEntry) (fit : Option (ℕ × ℕ)) (addresses : List ℕ)
      (v : Volume D)
      → IsHeld v
      → Keeps IsHeld (place_entry dev m parent entry fit addresses v)
  unfolding place_entry
  place_entry_keeps m parent entry none addresses v i =
      bind (next_address_keeps addresses v i) λ out v1 i1.
        bind (next_addresses_keeps _ out.1 v1 i1) λ pool v2 i2.
          bind (on (add_block dev _ _ _ _) v2 i2)
            λ parent' v3 i3. bind (on (add_entry_grow dev _ _ _ _) v3 i3) λ _ v4 i4. kept i4
  place_entry_keeps m parent entry (some at) addresses v i =
      bind (on (add_entry_here dev _ _ _ _ _) v i) λ _ v1 i1. kept i1

  first_block_keeps :
      (m : FormatV1) (t : FileType) (inode : Inode) (addresses : List ℕ) (v : Volume D)
      → IsHeld v
      → Keeps IsHeld (first_block dev m t inode addresses v)
  unfolding first_block
  first_block_keeps m file inode addresses v i = kept i
  first_block_keeps m unknown inode addresses v i = kept i
  first_block_keeps m directory inode addresses v i =
      bind (next_address_keeps addresses v i)
        λ out v1 i1. bind (on (add_block dev _ _ _ _) v1 i1) λ _ v2 i2. kept i2
  first_block_keeps m symlink inode addresses v i =
      bind (next_address_keeps addresses v i)
        λ out v1 i1. bind (on (add_block dev _ _ _ _) v1 i1) λ _ v2 i2. kept i2

  first_entries_keeps :
      (m : FormatV1) (t : FileType) (inode : Inode) (index parent_ind : ℕ) (v : Volume D)
      → IsHeld v
      → Keeps IsHeld (first_entries dev m t inode index parent_ind v)
  unfolding first_entries
  first_entries_keeps m file inode index parent_ind v i = kept i
  first_entries_keeps m unknown inode index parent_ind v i = kept i
  first_entries_keeps m symlink inode index parent_ind v i = kept i
  first_entries_keeps m directory inode index parent_ind v i =
      on (write_directory_with_inode dev _ _ _ _) v i

  file_blocks_keeps : (t : FileType) (v : Volume D) → IsHeld v → Keeps IsHeld (file_blocks t v)
  unfolding file_blocks
  file_blocks_keeps directory v i = kept i
  file_blocks_keeps file v i = kept i
  file_blocks_keeps symlink v i = kept i
  file_blocks_keeps unknown v i = kept_panic

  pub create_in_keeps :
      (now : ℕ) (t : FileType) (filename : List ℕ) (parent_ind : ℕ) (parent : Inode)
      (exists_error : DirEntry → FsError) (v : Volume D)
      → IsHeld v
      → Keeps IsHeld (create_in dev now t filename parent_ind parent exists_error v)
  unfolding create_in
  create_in_keeps now t filename parent_ind parent exists_error v i =
      bind (on (find_entry dev _ _ _ _) v i) λ exists v1 i1.
        option_keeps exists _ _ v1
          (bind (file_blocks_keeps t v1 i1) λ blocks v2 i2.
            bind (on (can_fit dev _ _ _ _) v2 i2) λ fit v3 i3.
              bind (allocate_keeps 1 _ v3 i3) λ out v4 i4.
                bind (next_address_keeps out.0 v4 i4) λ index v5 i5.
                  bind (first_block_keeps v.format t _ out.1 v5 i5) λ first v6 i6.
                    bind (on (write_inode dev _ _ _) v6 i6) λ _ v7 i7.
                      bind (first_entries_keeps v.format t first.0 index.0 parent_ind v7 i7)
                        λ _ v8 i8.
                          bind (place_entry_keeps v.format parent _ fit first.1 v8 i8)
                            λ parent' v9 i9.
                              bind (on (write_inode dev _ _ _) v9 i9) λ _ v10 i10. kept i10)
          λ found. kept_err i1

  find_parent_keeps :
      (parent_ind : ℕ) (v : Volume D) → IsHeld v → Keeps IsHeld (find_parent dev parent_ind v)
  unfolding find_parent
  find_parent_keeps parent_ind v i = bind (on (is_allocated dev _ _) v i) λ allocated v1 i1.
      by_cases allocated
        (λ e. rw e (
          bind (on (read_inode dev _ _) v1 i1) λ parent v2 i2.
            by_cases (File.is parent.file_type directory) (λ e'. rw e' (kept i2))
              λ e'. rw e' (kept_err i2)))
        λ e. rw e (kept_err i1)

  pub create_child_keeps :
      (now : ℕ) (t : FileType) (filename : List ℕ) (parent_ind : ℕ) (v : Volume D)
      → IsHeld v
      → Keeps IsHeld (create_child dev now t filename parent_ind v)
  unfolding create_child
  create_child_keeps now t filename parent_ind v i =
      bind (find_parent_keeps parent_ind v i)
        λ parent v1 i1. create_in_keeps now t filename parent_ind parent _ v1 i1

  collect_blocks_keeps :
      (m : FormatV1) (inode : Inode) (rounds block : ℕ) (v : Volume D)
      → IsHeld v
      → Keeps IsHeld (collect_blocks dev m inode rounds block v)
  unfolding collect_blocks
  collect_blocks_keeps m inode zero block v i = kept i
  collect_blocks_keeps m inode (suc rounds) block v i =
      bind (on (get_block dev _ _ _) v i)
        λ _ v1 i1. bind (collect_blocks_keeps m inode rounds (block + 1) v1 i1) λ _ v2 i2. kept i2

  unlink_keeps :
      (inode_ind : ℕ) (inode : Inode) (v : Volume D)
      → IsHeld v
      → Keeps IsHeld (unlink dev inode_ind inode v)
  unfolding unlink set_format
  unlink_keeps inode_ind inode v i =
      by_cases (ltb 1 inode.links) (λ e. rw e (on (write_inode dev _ _ _) v i))
        λ e. rw e (
          bind (collect_blocks_keeps v.format inode inode.blocks 0 v i) λ _ v1 i1.
            bind (on (deallocate dev _ _) v1 i1) λ _ v2 i2.
              bind (on (deallocate dev _ _) v2 i2) λ _ v3 i3. on (dev.write_block _ _) _ i)

  check_no_children_keeps :
      (m : FormatV1) (inode : Inode) (error : FsError) (v : Volume D)
      → IsHeld v
      → Keeps IsHeld (check_no_children dev m inode error v)
  unfolding check_no_children
  check_no_children_keeps m inode error v i =
      by_cases (File.is inode.file_type directory)
        (λ e. rw e (
          bind (on (iterate dev _ _ match_child inode true) v i)
            λ empty v1 i1. by_cases empty (λ e'. rw e' (kept i1)) λ e'. rw e' (kept_err i1)))
        λ e. rw e (kept i)

  pub delete_in_keeps :
      (now file_ind : ℕ) (file_inode : Inode) (parent_ind : ℕ) (parent : Inode) (block offset : ℕ)
      (error : FsError) (v : Volume D)
      → IsHeld v
      → Keeps IsHeld (delete_in dev now file_ind file_inode parent_ind parent block offset error v)
  unfolding delete_in
  delete_in_keeps now file_ind file_inode parent_ind parent block offset error v i =
      bind (check_no_children_keeps v.format file_inode error v i) λ _ v1 i1.
        bind (unlink_keeps file_ind file_inode v1 i1) λ _ v2 i2.
          bind (on (free_region dev _ _ _ _) v2 i2) λ _ v3 i3. on (write_inode dev _ _ _) v3 i3

  check_type_keeps :
      (wanted actual : FileType) (text : PathText) (v : Volume D)
      → IsHeld v
      → Keeps IsHeld (check_type dev wanted actual text v)
  unfolding check_type
  check_type_keeps wanted actual text v i =
      by_cases (File.is wanted actual) (λ e. rw e (kept i)) λ e. rw e (kept_err i)

  pub delete_child_keeps :
      (now : ℕ) (filename : List ℕ) (parent_ind : ℕ) (t : Option FileType) (v : Volume D)
      → IsHeld v
      → Keeps IsHeld (delete_child dev now filename parent_ind t v)
  unfolding delete_child
  delete_child_keeps now filename parent_ind t v i =
      by_cases (same_bytes filename (dot ∷ []) || same_bytes filename (dot ∷ dot ∷ []))
        (λ e. rw e (kept_err i))
        λ e. rw e (
          bind (find_parent_keeps parent_ind v i) λ parent v1 i1.
            bind (on (find_entry dev _ _ _ _) v1 i1) λ exists v2 i2.
              option_keeps exists _ _ v2 (kept_err i2) λ found.
                bind (on (read_inode dev _ _) v2 i2) λ inode v3 i3.
                  bind
                    (option_keeps t _ _ v3 (kept i3)
                      λ wanted. check_type_keeps wanted inode.file_type _ v3 i3)
                    λ _ v4 i4. delete_in_keeps now _ inode parent_ind parent _ _ _ v4 i4)

  pub link_in_keeps :
      (now : ℕ) (inode : Inode) (inode_ind : ℕ) (filename : List ℕ) (parent : Inode)
      (parent_ind : ℕ) (error : FsError) (v : Volume D)
      → IsHeld v
      → Keeps IsHeld (link_in dev now inode inode_ind filename parent parent_ind error v)
  unfolding link_in
  link_in_keeps now inode inode_ind filename parent parent_ind error v i =
      bind (on (find_entry dev _ _ _ _) v i) λ exists v1 i1.
        option_keeps exists _ _ v1
          (bind (on (can_fit dev _ _ _ _) v1 i1) λ fit v2 i2.
            bind (allocate_keeps 0 _ v2 i2) λ out v3 i3.
              bind (place_entry_keeps v.format parent _ fit out.1 v3 i3) λ parent1 v4 i4.
                bind (on (write_inode dev _ _ _) v4 i4)
                  λ _ v5 i5. bind (on (write_inode dev _ _ _) v5 i5) λ _ v6 i6. kept i6)
          λ found. kept_err i1

  pub write_symlink_keeps :
      (now : ℕ) (inode : Inode) (index : ℕ) (target : List ℕ) (v : Volume D)
      → IsHeld v
      → Keeps IsHeld (write_symlink dev now inode index target v)
  unfolding write_symlink
  write_symlink_keeps now inode index target v i =
      by_cases (ltb block_size (length target)) (λ e. rw e kept_panic)
        λ e. rw e (
          bind (on (dev.write_block _ _) v i)
            λ _ v1 i1. bind (on (write_inode dev _ _ _) v1 i1) λ _ v2 i2. kept i2)
