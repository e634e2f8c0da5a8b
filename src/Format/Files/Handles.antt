-- ===== src/Format/Files/Handles.antt =====
-- The table of open files, under every operation on them.
use ferris_file_system.Prelude.{
  ℕ, min, zero, suc, ◌-◌, ◌*◌, ◌/◌, ◌%◌, Bool, true, false, ◌&&◌, ◌||◌, ◌+◌, Option, none, some,
  List, [], ◌∷◌, length, ltb, leb, ◌==◌, by_cases, add32, sub32, add64, sub64, u32_mod,
}
use ferris_file_system.FsError.{file_not_open}
use ferris_file_system.Effect.{Run, ok, err, panic, Op}
use ferris_file_system.Effect.Keeps.{Keeps, kept, kept_err, kept_panic, bind}
use ferris_file_system.Device.{Block, zero_block, BlockDevice, block_size, invalid_address}
use ferris_file_system.Bitmap.{find_free, allocate, deallocate}
use ferris_file_system.Inode.{Inode}
use ferris_file_system.InodeTable.{
  blocks_necessary_to_grow_n, get_block, read_inode, write_inode, add_blocks,
}
use ferris_file_system.OpenFiles.{FileMetadata, Table, insert}
use ferris_file_system.Format.{FormatV1, Volume, on_device, set_format}
use ferris_file_system.Format.Files.{
  SeekFrom, start, end, current, get_format, set_metadata, opened, check_address, copy_from_slice,
  read_loop, read, zero_blocks, grow, write_loop, finish_write, write, seek, truncate,
}

-- A property of the table and the next handle, which the device cannot change.
module _ {D : Type 0} (K : ℕ → Table → Type 0) where
  abbrev pub Held : Volume D → Type 0
  Held v = K v.format.next_file_id v.format.open_files

  pub on_device_keeps :
      {A : Type 0} (op : Op D A) (v : Volume D) → Held v → Keeps Held (on_device op v)
  unfolding on_device
  on_device_keeps {A = A} op v i = passed (op v.device)
    where
      passed :
          (r : Run D A)
          → Keeps Held (elim r [
            | ok a d ↦ ok a (record v { device = d })
            | err e d ↦ err e (record v { device = d })
            | panic ↦ panic
          ])
      passed (ok a d) = kept i
      passed (err e d) = kept_err i
      passed panic = kept_panic

-- It is one that a move of the handle `id` keeps.
module _ {D : Type 0} (dev : BlockDevice D) (K : ℕ → Table → Type 0) (id : ℕ)
    (moves : (next : ℕ) (t : Table) (md : FileMetadata) → K next t → K next (insert id md t)) where
  abbrev IsHeld : Volume D → Type 0
  IsHeld = Held K

  opened_keeps : (v : Volume D) → IsHeld v → Keeps IsHeld (opened id v)
  unfolding opened
  opened_keeps v i = looked_up (v.format.open_files id)
    where
      looked_up :
          (o : Option FileMetadata)
          → Keeps IsHeld (elim o [ none ↦ err (file_not_open id) v | some md ↦ ok md v ])
      looked_up none = kept_err i
      looked_up (some md) = kept i

  check_address_keeps :
      (m : FormatV1) (inode : Inode) (block address : ℕ) (v : Volume D)
      → IsHeld v
      → Keeps IsHeld (check_address m inode block address v)
  unfolding check_address
  check_address_keeps m inode block address v i =
      by_cases (address == invalid_address) (λ e. rw e (kept_err i))
        λ e.
          by_cases (ltb m.block_allocator.max_index address) (λ e'. rw (e, e') (kept_err i))
            λ e'. rw (e, e') (kept i)

  copy_keeps :
      (buf : List ℕ) (o : ℕ) (source : List ℕ) (p n : ℕ) (v : Volume D)
      → IsHeld v
      → Keeps IsHeld (copy_from_slice buf o source p n v)
  unfolding copy_from_slice
  copy_keeps buf o source p n v i =
      by_cases (ltb (length buf) (o + n) || ltb (length source) (p + n)) (λ e. rw e kept_panic)
        λ e. rw e (kept i)

  read_loop_keeps :
      (fuel : ℕ) (m : FormatV1) (inode : Inode) (md : FileMetadata) (buf : List ℕ)
      (done block in_block : ℕ) (v : Volume D)
      → IsHeld v
      → Keeps IsHeld (read_loop dev m id inode fuel md buf done block in_block v)
  unfolding read_loop set_metadata
  read_loop_keeps zero m inode md buf done block in_block v i =
      by_cases (ltb done (length buf) && ltb md.offset inode.size) (λ e. rw e kept_panic)
        λ e. rw e (kept i)
  read_loop_keeps (suc fuel) m inode md buf done block in_block v i =
      by_cases (ltb done (length buf) && ltb md.offset inode.size)
        (λ e. rw e (
          bind (on_device_keeps K (get_block dev m.inode_handler inode block) v i)
            λ block_ind v1 i1. bind (check_address_keeps m inode block block_ind v1 i1) λ _ v2 i2.
              bind
                (on_device_keeps K (dev.read_block (add32 m.superblock.data_start block_ind)) v2 i2)
                λ b v3 i3.
                  bind (copy_keeps buf done b in_block _ v3 i3)
                    λ buf' v4 i4. read_loop_keeps fuel m inode _ _ _ _ _ _ (moves _ _ _ i4)))
        λ e. rw e (kept i)

  pub read_keeps : (buf : List ℕ) (v : Volume D) → IsHeld v → Keeps IsHeld (read dev id buf v)
  unfolding read
  read_keeps buf v i = bind (opened_keeps v i) λ md v1 i1.
      by_cases (length buf == 0) (λ e. rw e (kept i1))
        λ e. rw e (
          bind (on_device_keeps K (read_inode dev v.format.inode_handler md.inode) v1 i1)
            λ inode v2 i2.
              by_cases (ltb (inode.blocks * block_size) inode.size) (λ e'. rw e' (kept_err i2))
                λ e'. rw e' (read_loop_keeps (length buf) v.format inode md buf _ _ _ v2 i2))

  pub seek_keeps : (pos : SeekFrom) (v : Volume D) → IsHeld v → Keeps IsHeld (seek dev id pos v)
  unfolding seek set_metadata
  seek_keeps (start o) v i = bind (opened_keeps v i) λ md v1 i1. kept (moves _ _ _ i1)
  seek_keeps (current bits) v i = bind (opened_keeps v i) λ md v1 i1. kept (moves _ _ _ i1)
  seek_keeps (end bits) v i = bind (opened_keeps v i) λ md v1 i1.
      bind
        (bind (on_device_keeps K (read_inode dev v.format.inode_handler md.inode) v1 i1)
          λ inode v2 i2. kept i2)
        λ offset v3 i3. kept (moves _ _ _ i3)

  pub truncate_keeps :
      (now size : ℕ) (v : Volume D) → IsHeld v → Keeps IsHeld (truncate dev now id size v)
  unfolding truncate
  truncate_keeps now size v i = bind (opened_keeps v i) λ md v1 i1.
      bind (on_device_keeps K (read_inode dev v.format.inode_handler md.inode) v1 i1) λ inode v2 i2.
        by_cases (ltb size inode.size) (λ e. rw e (on_device_keeps K (write_inode dev _ _ _) v2 i2))
          λ e. rw e (kept i2)

  zero_blocks_keeps :
      (m : FormatV1) (is : List ℕ) (v : Volume D) → IsHeld v → Keeps IsHeld (zero_blocks dev m is v)
  unfolding zero_blocks
  zero_blocks_keeps m [] v i = kept i
  zero_blocks_keeps m (x ∷ xs) v i =
      bind (on_device_keeps K (dev.write_block (add32 m.superblock.data_start x) zero_block) v i)
        λ _ v1 i1. zero_blocks_keeps m xs v1 i1

  grow_keeps : (inode : Inode) (n : ℕ) (v : Volume D) → IsHeld v → Keeps IsHeld (grow dev inode n v)
  unfolding grow set_format
  grow_keeps inode n v i =
      let k = blocks_necessary_to_grow_n inode n in
      bind (on_device_keeps K (find_free dev v.format.block_allocator k) v i) λ metadata_inds v1 i1.
        by_cases (ltb (length metadata_inds) k) (λ e. rw e (kept_err i1))
          λ e. rw e (
            bind (on_device_keeps K (allocate dev v.format.block_allocator metadata_inds) v1 i1)
              λ allocator1 v2 i2.
                bind (on_device_keeps K (find_free dev allocator1 n) _ i) λ data_inds v3 i3.
                  by_cases (length data_inds == 0)
                    (λ e'. rw e' (
                      bind (on_device_keeps K (deallocate dev allocator1 metadata_inds) v3 i3)
                        λ _ v4 i4. kept_err i4))
                    λ e'. rw e' (
                      bind (on_device_keeps K (allocate dev allocator1 data_inds) v3 i3)
                        λ allocator2 v4 i4.
                          bind
                            (zero_blocks_keeps (record v.format { block_allocator = allocator2 })
                              data_inds
                              (record {
                                device = v4.device;
                                format = record v.format { block_allocator = allocator2 };
                              })
                              i)
                            λ _ v5 i5.
                              bind
                                (on_device_keeps K
                                  (add_blocks dev v.format.inode_handler inode data_inds
                                    metadata_inds)
                                  v5 i5)
                                λ inode' v6 i6. kept i))

  write_loop_keeps :
      (fuel : ℕ) (m : FormatV1) (inode : Inode) (buf : List ℕ) (md : FileMetadata) (b : Block)
      (wrote block in_block : ℕ) (v : Volume D)
      → IsHeld v
      → Keeps IsHeld (write_loop dev m id inode buf fuel md b wrote block in_block v)
  unfolding write_loop set_metadata
  write_loop_keeps zero m inode buf md b wrote block in_block v i =
      by_cases (ltb wrote (length buf) && ltb block inode.blocks) (λ e. rw e kept_panic)
        λ e. rw e (kept i)
  write_loop_keeps (suc fuel) m inode buf md b wrote block in_block v i =
      let to_write = min (block_size - in_block) (length buf - wrote) in
      by_cases (ltb wrote (length buf) && ltb block inode.blocks)
        (λ e. rw e (
          bind (on_device_keeps K (get_block dev m.inode_handler inode block) v i)
            λ block_ind v1 i1.
              let address = add32 m.superblock.data_start block_ind in
              bind (check_address_keeps m inode block block_ind v1 i1) λ _ v2 i2.
                by_cases (ltb to_write block_size)
                  (λ e'. rw e' (
                    bind (on_device_keeps K (dev.read_block address) v2 i2) λ old_buf v3 i3.
                      bind (copy_keeps old_buf in_block buf wrote to_write v3 i3) λ new_buf v4 i4.
                        bind (on_device_keeps K (dev.write_block address new_buf) v4 i4) λ _ v5 i5.
                          write_loop_keeps fuel m inode buf _ _ _ _ _ _ (moves _ _ _ i5)))
                  λ e'. rw e' (
                    bind (copy_keeps b in_block buf wrote to_write v2 i2) λ new_buf v4 i4.
                      bind (on_device_keeps K (dev.write_block address new_buf) v4 i4)
                        λ _ v5 i5. write_loop_keeps fuel m inode buf _ _ _ _ _ _ (moves _ _ _ i5))))
        λ e. rw e (kept i)

  finish_write_keeps :
      (now : ℕ) (allocated : Bool) (inode : Inode) (out : ℕ × FileMetadata) (v : Volume D)
      → IsHeld v
      → Keeps IsHeld (finish_write dev now allocated inode out v)
  unfolding finish_write
  finish_write_keeps now true inode (wrote, md) v i =
      bind (on_device_keeps K (write_inode dev v.format.inode_handler md.inode _) v i)
        λ _ v1 i1. bind (on_device_keeps K (dev.write_block 0 _) v1 i1) λ _ v2 i2. kept i2
  finish_write_keeps now false inode (wrote, md) v i =
      bind (on_device_keeps K (write_inode dev v.format.inode_handler md.inode _) v i)
        λ _ v1 i1. kept i1

  pub write_keeps :
      (now : ℕ) (buf : List ℕ) (v : Volume D) → IsHeld v → Keeps IsHeld (write dev now id buf v)
  unfolding write get_format
  write_keeps now buf v i = bind (opened_keeps v i) λ md v1 i1.
      by_cases (length buf == 0) (λ e. rw e (kept i1))
        λ e. rw e (
          bind (on_device_keeps K (read_inode dev v.format.inode_handler md.inode) v1 i1)
            λ inode v2 i2.
              let last = sub64 (add64 md.offset (length buf)) 1 / block_size % u32_mod in
              let more = add32 (sub32 last inode.blocks) 1 in
              by_cases (leb inode.blocks last)
                (λ e'. rw e' (
                  bind (grow_keeps inode more v2 i2) λ inode' v3 i3.
                    bind
                      (write_loop_keeps (length buf) v3.format inode' buf md zero_block 0 _ _ v3 i3)
                      λ out v4 i4. finish_write_keeps now true inode' out v4 i4))
                λ e'. rw e' (
                  bind (write_loop_keeps (length buf) v2.format inode buf md zero_block 0 _ _ v2 i2)
                    λ out v4 i4. finish_write_keeps now false inode out v4 i4))
