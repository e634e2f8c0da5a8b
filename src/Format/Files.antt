-- ===== src/Format/Files.antt =====
-- The operations on open files of src/formats/v1/format.rs. The time of `SystemTime::now` is an
-- argument.
pub mod Contents
pub mod Separation
pub mod WriteRound
pub mod WriteLoop
pub mod Writing
pub mod ReadLoop
pub mod Reading
pub mod Ending
pub mod Handles
pub mod Frame
pub mod Sessions
pub mod Stale
pub mod Opening
use ferris_file_system.Prelude.{
  ℕ, zero, suc, ◌+◌, ◌-◌, ◌*◌, ◌/◌, ◌%◌, ◌^◌, min, max, Bool, true, false, not, ◌&&◌, ◌||◌, Option,
  none, some, List, [], ◌∷◌, length, ltb, leb, ◌==◌, if◌then◌else◌, add32, sub32, add64, sub64,
  u32_mod, u16_mod, u64_mod,
}
use ferris_file_system.FsError.{
  file_not_open, invalid_inode, size_greater_than_allocated_region, invalid_direct, direct_oob,
  storage_full, data_region_full, does_not_exist, not_a_file,
}
use ferris_file_system.Effect.{Op, ok, err, pure, fail, crash, and_then, ◌>>=◌, ◌>>◌}
use ferris_file_system.Device.{Block, zero_block, block_size, invalid_address, BlockDevice}
use ferris_file_system.Codec.{write_at, slice}
use ferris_file_system.File.{file}
use ferris_file_system.File
use ferris_file_system.Bitmap.{find_free, allocate, deallocate, is_allocated}
use ferris_file_system.Superblock.{serialize}
use ferris_file_system.Inode.{Inode}
use ferris_file_system.InodeTable.{
  read_inode, write_inode, get_block, add_blocks, blocks_necessary_to_grow_n,
}
use ferris_file_system.OpenFiles.{FileMetadata, OpenFileMode, read_write, new, insert, remove}
use ferris_file_system.Format.{FormatV1, Volume, on_device, set_format, to_string}

-- `std::io::SeekFrom`. An `i64` is the 64 bits of its two's complement.
pub data SeekFrom : Type 0 where
  start end current : ℕ → SeekFrom

-- `(a as i64 + b).max(0) as u64`
unfoldable pub add_signed : ℕ → ℕ → ℕ
add_signed a b = let sum = add64 a b in if leb (2 ^ 63) sum then 0 else sum

module _ {D : Type 0} where
  unfoldable pub get_format : Op (Volume D) FormatV1
  get_format v = ok v.format v

  -- The metadata of an open file, behind the `&mut` that the code holds.
  unfoldable pub set_metadata : ℕ → FileMetadata → Op (Volume D) (Unit {0})
  set_metadata id metadata v = ok tt (record v {
    format = record v.format { open_files = insert id metadata v.format.open_files };
  })

  -- `if !self.open_files.contains_key(&file.id)`, and the metadata otherwise.
  unfoldable pub opened : ℕ → Op (Volume D) FileMetadata
  opened id v = elim (v.format.open_files id) [
    | none ↦ err (file_not_open id) v
    | some metadata ↦ ok metadata v
  ]

  unfoldable pub close_file : ℕ → Op (Volume D) (Unit {0})
  close_file id v =
      ok tt (record v { format = record v.format { open_files = remove id v.format.open_files } })

  -- `check that the address is acceptable`
  unfoldable pub check_address : FormatV1 → Inode → ℕ → ℕ → Op (Volume D) (Unit {0})
  check_address m inode block block_ind =
      let last = m.block_allocator.max_index in
      if block_ind == invalid_address
      then fail (invalid_inode (invalid_direct (block % u16_mod) block_ind) inode.size inode.blocks)
      else if ltb last block_ind
      then fail
          (invalid_inode (direct_oob (block % u16_mod) block_ind last) inode.size inode.blocks)
      else pure tt

  unfoldable pub create_handle : ℕ → Op (Volume D) ℕ
  create_handle inode v =
      let id = v.format.next_file_id in
      ok id (record v {
        format = record v.format {
          next_file_id = add32 id 1;
          open_files = insert id (new inode read_write) v.format.open_files;
        };
      })

-- `buf[o..o + n].copy_from_slice(&source[p..p + n])`, which panics if a range ends behind its buffer.
unfoldable pub copy_from_slice : {S : Type 0} → List ℕ → ℕ → List ℕ → ℕ → ℕ → Op S (List ℕ)
copy_from_slice buf o source p n =
    if ltb (length buf) (o + n) || ltb (length source) (p + n)
    then crash
    else pure (write_at buf o (slice source p n))

module _ {D : Type 0} (dev : BlockDevice D) where
  open dev use {read_block, write_block}

  unfoldable pub open_file_from_inode : ℕ → Op (Volume D) ℕ
  unfolding on_device create_handle
  open_file_from_inode inode_ind v =
      let m = v.format in
      (do
        allocated ← on_device (is_allocated dev m.inode_allocator inode_ind)
        if not allocated then fail (does_not_exist (to_string inode_ind)) else do
          inode ← on_device (read_inode dev m.inode_handler inode_ind)
          if not (File.is inode.file_type file)
              then fail (not_a_file (to_string inode_ind))
              else create_handle inode_ind)
        v

  -- The rounds of `read`: how much is read, and the caller's buffer. A round reads a byte at least,
  -- so the length of the buffer is enough fuel. After an error the buffer is not given back.
  unfoldable pub read_loop :
      FormatV1 → ℕ → Inode → ℕ → FileMetadata → List ℕ → ℕ → ℕ → ℕ → Op (Volume D) (ℕ × List ℕ)
  unfolding on_device set_metadata check_address copy_from_slice
  read_loop m id inode zero metadata buf done block in_block =
      if ltb done (length buf) && ltb metadata.offset inode.size then crash else pure (done, buf)
  read_loop m id inode (suc fuel) metadata buf done block in_block =
      if not (ltb done (length buf) && ltb metadata.offset inode.size) then pure (done, buf) else do
        block_ind ← on_device (get_block dev m.inode_handler inode block)
        check_address m inode block block_ind
        device_buf ← on_device (read_block (add32 m.superblock.data_start block_ind))
        let to_read =
            min (min (block_size - in_block) (length buf - done)) (inode.size - metadata.offset)
        buf' ← copy_from_slice buf done device_buf in_block to_read
        let metadata' = record metadata { offset = add64 metadata.offset to_read }
        set_metadata id metadata'
        read_loop m id inode fuel metadata' buf' (done + to_read) (add32 block 1) 0

  unfoldable pub read : ℕ → List ℕ → Op (Volume D) (ℕ × List ℕ)
  unfolding on_device opened read_loop
  read id buf v =
      let m = v.format in
      (do
        metadata ← opened id
        if length buf == 0 then pure (0, buf) else (do
          inode ← on_device (read_inode dev m.inode_handler metadata.inode)
          if ltb (inode.blocks * block_size) inode.size
              then fail (invalid_inode size_greater_than_allocated_region inode.size inode.blocks)
              else read_loop m id inode (length buf) metadata buf 0
                  (metadata.offset / block_size % u32_mod) (metadata.offset % block_size)))
        v

  -- `zero all new blocks`
  unfoldable pub zero_blocks : FormatV1 → List ℕ → Op (Volume D) (Unit {0})
  unfolding on_device zero_block
  zero_blocks m [] = pure tt
  zero_blocks m (i ∷ is) = do
    on_device (write_block (add32 m.superblock.data_start i) zero_block)
    zero_blocks m is

  -- The part of `write` that allocates blocks behind the end of a file.
  unfoldable pub grow : Inode → ℕ → Op (Volume D) Inode
  unfolding on_device set_format zero_blocks blocks_necessary_to_grow_n
  grow inode to_alloc_data v =
      let m = v.format in
      let to_alloc_metadata = blocks_necessary_to_grow_n inode to_alloc_data in
      (do
        metadata_inds ← on_device (find_free dev m.block_allocator to_alloc_metadata)
        if ltb (length metadata_inds) to_alloc_metadata
            then fail
                (storage_full data_region_full to_alloc_metadata (length metadata_inds % u32_mod))
            else (do
              allocator1 ← on_device (allocate dev m.block_allocator metadata_inds)
              set_format (record m { block_allocator = allocator1 })
              data_inds ← on_device (find_free dev allocator1 to_alloc_data)
              if length data_inds == 0
                  then (do
                    on_device (deallocate dev allocator1 metadata_inds)
                    fail (storage_full data_region_full to_alloc_data 0))
                  else (do
                    allocator2 ← on_device (allocate dev allocator1 data_inds)
                    let m2 = record m { block_allocator = allocator2 }
                    set_format m2
                    zero_blocks m2 data_inds
                    inode' ←
                        on_device (add_blocks dev m.inode_handler inode data_inds metadata_inds)
                    let taken = add32 (length data_inds % u32_mod) to_alloc_metadata
                    let superblock = record m.superblock {
                      free_data = sub32 m.superblock.free_data taken;
                    }
                    set_format (record m2 { superblock = superblock })
                    pure inode')))
        v

  -- The rounds of `write`: how much is written, and the metadata. A round writes a byte at least.
  unfoldable pub write_loop :
      FormatV1
      → ℕ
      → Inode
      → List ℕ
      → ℕ
      → FileMetadata
      → Block
      → ℕ
      → ℕ
      → ℕ
      → Op (Volume D) (ℕ × FileMetadata)
  unfolding on_device set_metadata check_address copy_from_slice
  write_loop m id inode buf zero metadata device_buf wrote block in_block =
      if ltb wrote (length buf) && ltb block inode.blocks then crash else pure (wrote, metadata)
  write_loop m id inode buf (suc fuel) metadata device_buf wrote block in_block =
      if not (ltb wrote (length buf) && ltb block inode.blocks) then pure (wrote, metadata) else do
        block_ind ← on_device (get_block dev m.inode_handler inode block)
        check_address m inode block block_ind
        let block_address = add32 m.superblock.data_start block_ind
        let to_write = min (block_size - in_block) (length buf - wrote)
        old_buf ←
            if ltb to_write block_size
            then on_device (read_block block_address)
            else pure device_buf
        new_buf ← copy_from_slice old_buf in_block buf wrote to_write
        on_device (write_block block_address new_buf)
        let metadata' = record metadata { offset = add64 metadata.offset to_write }
        set_metadata id metadata'
        write_loop m id inode buf fuel metadata' new_buf (wrote + to_write) (add32 block 1) 0

  -- `update the inode`, and the superblock if blocks were allocated.
  unfoldable pub finish_write : ℕ → Bool → Inode → ℕ × FileMetadata → Op (Volume D) ℕ
  unfolding on_device zero_block
  finish_write now allocated inode (wrote, metadata) v =
      let m = v.format in
      (do
        on_device (
            write_inode dev m.inode_handler metadata.inode
              (record inode { size = max inode.size metadata.offset; modified = now }))
        if allocated then on_device (write_block 0 (serialize m.superblock zero_block)) else pure tt
        pure wrote)
        v

  unfoldable pub write : ℕ → ℕ → List ℕ → Op (Volume D) ℕ
  unfolding on_device opened grow get_format write_loop finish_write zero_block
  write now id buf v =
      let h = v.format.inode_handler in
      (do
        metadata ← opened id
        if length buf == 0 then pure 0 else (do
          inode ← on_device (read_inode dev h metadata.inode)
          let final_block = sub64 (add64 metadata.offset (length buf)) 1 / block_size % u32_mod
          let allocated = leb inode.blocks final_block
          inode' ←
              if allocated
              then grow inode (add32 (sub32 final_block inode.blocks) 1)
              else pure inode
          m ← get_format
          written ←
              write_loop m id inode' buf (length buf) metadata zero_block 0
                (metadata.offset / block_size % u32_mod) (metadata.offset % block_size)
          finish_write now allocated inode' written))
        v

  unfoldable pub seek : ℕ → SeekFrom → Op (Volume D) ℕ
  unfolding on_device opened set_metadata add_signed
  seek id pos v =
      let m = v.format in
      (do
        metadata ← opened id
        offset ← elim pos [
          | start offset ↦ pure offset
          | end offset ↦ do
            inode ← on_device (read_inode dev m.inode_handler metadata.inode)
            pure (add_signed inode.size offset)
          | current offset ↦ pure (add_signed metadata.offset offset)
        ]
        set_metadata id (record metadata { offset = offset })
        pure offset)
        v

  unfoldable pub truncate : ℕ → ℕ → ℕ → Op (Volume D) (Unit {0})
  unfolding on_device opened
  truncate now id size v =
      let m = v.format in
      (do
        metadata ← opened id
        inode ← on_device (read_inode dev m.inode_handler metadata.inode)
        if ltb size inode.size
            then on_device (
                write_inode dev m.inode_handler metadata.inode
                  (record inode { modified = now; size = size }))
            else pure tt)
        v
