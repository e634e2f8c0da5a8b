-- ===== src/Format/Files/WriteLoop.antt =====
-- The rounds of `write`: bytes in the data blocks that a file has.
use ferris_file_system.Prelude.{
  ℕ, zero, suc, ◌+◌, ◌-◌, ◌*◌, ◌/◌, ◌%◌, ◌<◌, ◌≤◌, ◌≡◌, refl, true, false, some, List, arith,
  length, get_or, ltb, if◌then◌else◌, min, by_cases, add32, add64, u32_mod,
}
use ferris_file_system.Effect.{pure}
use ferris_file_system.Effect.Returns
use ferris_file_system.Effect.Returns.{Returns, returns}
use ferris_file_system.Device.{Block, Store, IsBlock, IsLawful, BlockDevice, block_size, update}
use ferris_file_system.Codec.{write_at, slice}
use ferris_file_system.Inode.{Inode}
use ferris_file_system.InodeTable.{get_block}
use ferris_file_system.InodeTable.Blocks.{block_at, get_block-block_at}
use ferris_file_system.OpenFiles.{FileMetadata, insert_self}
use ferris_file_system.Format.{FormatV1, Volume, on_device}
use ferris_file_system.Format.Running.{on_device_lem}
use ferris_file_system.Format.Files.{set_metadata, write_loop}
use ferris_file_system.Format.Files.Contents.{IsFile, moved, after}
use ferris_file_system.Format.Files.Separation.{
  IsSeparate, SameElsewhere, place, update_same, block_at_same, OnDevice-same,
}
use ferris_file_system.Format.Files.ReadLoop.{check_address_lem, ranges_lem}
use ferris_file_system.Format.Files.WriteRound.{
  WriteFrom, IsNew, write_nothing, write_more, IsNew-write_at,
}

module _ {D : Type 0} {dev : BlockDevice D} (l : IsLawful dev) (n : ℕ) (small : n < u32_mod)
    (m : FormatV1) (f : Store) (inode : Inode) (is : IsFile m n f inode)
    (sep : IsSeparate m f inode) (id : ℕ) (buf : List ℕ)
    (bytes : (i : ℕ) → get_or buf i 0 < 256) where
  -- One round, when the block is read or when it is not.
  module _ (md : FileMetadata) (wrote : ℕ) (g : Store) (v : Volume D) (more : wrote < length buf)
      (fits : md.offset + (length buf - wrote) ≤ inode.blocks * block_size)
      (same : SameElsewhere m f inode g) where
    abbrev amount : ℕ
    amount = min (block_size - md.offset % block_size) (length buf - wrote)

    abbrev here : ℕ
    here = place m f inode (md.offset / block_size)

    abbrev filled : Block → Block
    filled old = write_at old (md.offset % block_size) (slice buf wrote amount)

    store_lem :
        (old : Block) (d : D)
        → l.Represents d g n
        → IsNew l n small m f inode is sep id buf bytes g
            (md.offset / block_size)
            (md.offset % block_size)
            amount
            wrote
            (filled old)
        → Returns
            (λ _ v'.
              (d' : D) × (v' ≡ record { device = d'; format = v.format })
              × l.Represents d' (update g here (filled old)) n)
            (on_device
              (dev.write_block here (filled old))
              (record { device = d; format = v.format }))
    store_lem old d r new =
        on_device_lem (dev.write_block here (filled old)) _ (
          l.write_lem d g n here (filled old) r (is.placed _ (omega (arith, fits, more))) new.block)

    -- The old contents are read unless the whole block is written.
    old_lem :
        (device_buf : Block) (d : D)
        → l.Represents d g n
        → IsBlock device_buf
        → Returns
            (λ old v'.
              (d' : D) × (v' ≡ record { device = d'; format = v.format })
              × (l.Represents d' g n × (IsBlock old × (amount < block_size → old ≡ g here))))
            ((if ltb amount block_size then on_device (dev.read_block here) else pure device_buf)
              (record { device = d; format = v.format }))
    old_lem device_buf d r ib =
        by_cases (ltb amount block_size)
          (λ e. rw e (
            Returns.mono
              (on_device_lem (dev.read_block here) _
                (l.read_lem d g n here r (is.placed _ (omega (arith, fits, more)))))
              λ old v' (d', e', (got, r')).
                (d', e', (r', (rw got (l.block_lem d' g n r' _), λ lt. got)))))
          λ e. rw e (returns (d, refl, (r, (ib, λ lt. absurd (ground (arith, e, lt))))))

  pub write_loop_lem :
      (fuel : ℕ) (md : FileMetadata) (device_buf : Block) (wrote block in_block : ℕ) (g : Store)
      (v : Volume D)
      → l.Represents v.device g n
      → SameElsewhere m f inode g
      → v.format.open_files id ≡ some md
      → length buf ≤ wrote + fuel
      → wrote ≤ length buf
      → md.offset + (length buf - wrote) ≤ inode.blocks * block_size
      → IsBlock device_buf
      → (wrote < length buf
          → (block ≡ md.offset / block_size) × (in_block ≡ md.offset % block_size))
      → Returns
          (WriteFrom l n small m f inode is sep id buf bytes md wrote g v.format)
          (write_loop dev m id inode buf fuel md device_buf wrote block in_block v)
  unfolding write_loop set_metadata
  write_loop_lem zero md device_buf wrote block in_block g v r same known enough le fits ib
        aligned =
      let full : ltb wrote (length buf) ≡ false = ground (arith, enough) in
      rw full (
        returns (
          write_nothing l n small m f inode is sep id buf bytes md wrote g v r same known
            (omega (arith, enough, le))))
  write_loop_lem (suc fuel) md device_buf wrote block in_block g v r same known enough le fits ib
        aligned =
      by_cases (ltb wrote (length buf))
        (λ room.
          let h = m.inode_handler in
          let k = md.offset / block_size in
          let a = block_at h f inode k in
          let more : wrote < length buf = ground (arith, room) in
          let (block_eq, in_block_eq) = aligned more in
          let inside : k < inode.blocks = omega (arith, fits, more) in
          let has_block : ltb k inode.blocks ≡ true = ground (arith, inside) in
          let on = is.placed k inside in
          let at : add32 m.superblock.data_start a ≡ h.data_start + a =
            omega (arith, is.start_lem, on, small) in
          rw (room, block_eq, in_block_eq, has_block)
            (Returns.bind
              (on_device_lem (get_block dev h inode k) v (
                get_block-block_at l h n small v.device g inode k r inside
                  (omega (arith, inside, is.blocks_lem))
                  (OnDevice-same m f inode sep g same n k inside (is.addresses k inside))))
              λ block_ind v1 (d1, e1, (got, r1)).
                rw (e1, got, block_at_same m f inode sep g same k inside)
                  (Returns.bind
                    (check_address_lem m inode k a _ (omega (arith, on, small)) (is.known k inside))
                    λ _ v2 e2.
                      rw (e2, at)
                        (Returns.bind (old_lem md wrote g v more fits same device_buf d1 r1 ib)
                          λ old v3 (d3, e3, (r3, (ib3, old_eq))).
                            let t = amount md wrote g v more fits same in
                            let at_t : add64 md.offset t ≡ md.offset + t =
                              omega (arith, fits, more, is.blocks_lem) in
                            let new =
                              IsNew-write_at l n small m f inode is sep id buf bytes g k
                                (md.offset % block_size) t wrote old ib3 (omega arith)
                                (omega (arith, more)) old_eq in
                            let copied =
                              ranges_lem old (md.offset % block_size) buf wrote t
                                (omega (arith, ib3.size)) (omega (arith, more)) in
                            rw (e3, copied)
                              (Returns.bind (store_lem md wrote g v more fits same old d3 r3 new)
                                λ _ v4 (d4, e4, r4). rw e4 (
                                  Returns.mono
                                    (write_loop_lem fuel (moved md t)
                                      (filled md wrote g v more fits same old) (wrote + t)
                                      (add32 k 1) 0
                                      (update g (place m f inode k)
                                        (filled md wrote g v more fits same old))
                                      (after id v d4 (moved md t)) r4
                                      (update_same m f inode sep g k inside _ same)
                                      (insert_self id (moved md t) v.format.open_files)
                                      (omega (arith, enough, more)) (omega (arith, more))
                                      (omega (arith, at_t, fits, more)) new.block
                                      λ lt. (
                                        omega (arith, at_t, lt, inside, is.blocks_lem),
                                        omega (arith, at_t, lt),
                                      ))
                                    (write_more l n small m f inode is sep id buf bytes md wrote t
                                      (filled md wrote g v more fits same old) g v d4
                                      (omega (arith, more)) fits (omega arith) more new)))))))
        λ full. rw full (
          returns (
            write_nothing l n small m f inode is sep id buf bytes md wrote g v r same known
              (ground (arith, full, le))))
