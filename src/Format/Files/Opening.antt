-- ===== src/Format/Files/Opening.antt =====
-- `open_file_from_inode`.
use ferris_file_system.Prelude.{
  ℕ, ◌<◌, ◌≤◌, ◌≡◌, ◌≢◌, refl, true, false, none, some, arith, ltb, ◌==◌,
}
use ferris_file_system.Effect.Returns
use ferris_file_system.Effect.Returns.{Returns, returns}
use ferris_file_system.Device.{Store, IsLawful, BlockDevice}
use ferris_file_system.File.{file}
use ferris_file_system.Bitmap.{is_allocated}
use ferris_file_system.Bitmap.View.{bit_of}
use ferris_file_system.Bitmap.Modify.{IsPlaced, InMap, is_allocated-bit_of}
use ferris_file_system.InodeTable.{max_inode_index, read_inode}
use ferris_file_system.InodeTable.Rows.{IsTable, row, read_inode-row}
use ferris_file_system.OpenFiles.{insert, insert_self, new, read_write}
use ferris_file_system.Format.{Volume}
use ferris_file_system.Format.Running.{on_device_lem}
use ferris_file_system.Format.Files.{create_handle, open_file_from_inode}
use ferris_file_system.Format.Files.Sessions.{Below}

module _ {D : Type 0} {dev : BlockDevice D} (l : IsLawful dev) (n : ℕ) (v : Volume D) (f : Store)
    (table : IsTable v.format.inode_handler n) (placed : IsPlaced v.format.inode_allocator n)
    (r : l.Represents v.device f n) where
  -- A handle that was not in use, at the start of the file.
  pub record Opened (inode_ind : ℕ) (id : ℕ) (v' : Volume D) : Type 0 where
    pub unused : v.format.open_files id ≡ none
    pub handle : v'.format.open_files id ≡ some (new inode_ind read_write)
    pub others : (j : ℕ) → id ≢ j → v'.format.open_files j ≡ v.format.open_files j
    pub holds : l.Represents v'.device f n

  -- `open_file_from_inode` of an allocated inode of a file succeeds, if no handle from the next one on is
  -- in use. The handle returned was not in use and now stands at the start of that inode, the other
  -- handles are as they were, and so are the contents of the device.
  pub open_file-Opened :
      (inode_ind : ℕ)
      → Below v.format.next_file_id v.format.open_files
      → InMap v.format.inode_allocator inode_ind
      → inode_ind ≤ v.format.inode_allocator.max_index
      → bit_of f v.format.inode_allocator.start inode_ind ≡ true
      → inode_ind < max_inode_index v.format.inode_handler
      → (row v.format.inode_handler f inode_ind).file_type ≡ file
      → Returns (Opened inode_ind) (open_file_from_inode dev inode_ind v)
  unfolding open_file_from_inode create_handle insert
  open_file-Opened inode_ind below in_map in_max set lt is_file =
      let within : ltb v.format.inode_allocator.max_index inode_ind ≡ false =
        ground (arith, in_max) in
      Returns.bind
        (on_device_lem (is_allocated dev v.format.inode_allocator inode_ind) v
          (is_allocated-bit_of l v.format.inode_allocator n placed inode_ind v.device f r in_map))
        λ allocated v1 (d1, e1, (r1, got)).
          rw (e1, got, within, set)
            (Returns.bind
              (on_device_lem (read_inode dev v.format.inode_handler inode_ind) _
                (read_inode-row l v.format.inode_handler n table d1 f inode_ind r1 lt))
              λ inode v2 (d2, e2, (got2, r2)).
                rw (e2, got2, is_file)
                  (returns (record {
                    unused = below v.format.next_file_id (omega arith);
                    handle =
                        insert_self v.format.next_file_id (new inode_ind read_write)
                          v.format.open_files;
                    others = λ j ne.
                        let other : (v.format.next_file_id == j) ≡ false = ground (arith, ne) in
                        rw other refl;
                    holds = r2;
                  })))
