-- ===== src/Format/Files/Ending.antt =====
-- `read` ends, whatever the device holds.
use ferris_file_system.Prelude.{
  ℕ, zero, suc, ◌+◌, ◌-◌, ◌*◌, ◌/◌, ◌%◌, ◌<◌, ◌≤◌, ◌≡◌, false, Option, none, some, List, arith,
  length, ltb, leb, ◌==◌, min, by_cases, add32,
}
use ferris_file_system.FsError.{file_not_open}
use ferris_file_system.Effect.{Run, ok, err, panic, Op}
use ferris_file_system.Effect.Ends.{Ends, ends_ok, ends_err, bind}
use ferris_file_system.Format.Files.ReadLoop.{ranges_lem}
use ferris_file_system.Device.{Block, BlockDevice, block_size, invalid_address}
use ferris_file_system.Codec.{write_at, slice}
use ferris_file_system.Codec.Slices.{length-write_at}
use ferris_file_system.Inode.{Inode, direct_count, indirect_count, double_count, max_blocks}
use ferris_file_system.InodeTable.{
  InodeTableHandler, max_inode_index, get_block, resolve_indirect, read_inode,
}
use ferris_file_system.OpenFiles.{FileMetadata}
use ferris_file_system.Format.{FormatV1, Volume, on_device}
use ferris_file_system.Format.Files.{set_metadata, opened, check_address, read_loop, read}

-- A device on which a read ends with 256 bytes or with an error, as long as `I` holds, and keeps `I`.
module _ {D : Type 0} (dev : BlockDevice D) (I : D → Type 0)
    (reads_end : (i : ℕ) (d : D)
      → I d
      → Ends (λ (b : Block) d'. (length b ≡ block_size) × I d') (dev.read_block i d)) where
  abbrev On : {A : Type 0} → A → Volume D → Type 0
  On a v = I v.device

  on_device-Ends :
      {A : Type 0} {P : A → D → Type 0} (op : Op D A) (v : Volume D)
      → Ends P (op v.device)
      → Ends (λ a v'. P a v'.device) (on_device op v)
  unfolding on_device
  on_device-Ends {A = A} {P = P} op v ends = passed ends
    where
      passed :
          {run : Run D A}
          → Ends P run
          → Ends
              (λ a (v' : Volume D). P a v'.device)
              (elim run [
                | ok a d ↦ ok a (record v { device = d })
                | err e d ↦ err e (record v { device = d })
                | panic ↦ panic
              ])
      passed (ends_ok p) = ends_ok p
      passed ends_err = ends_err

  resolve_indirect-Ends :
      (h : InodeTableHandler) (a i : ℕ) (d : D)
      → I d
      → Ends (λ _ d'. I d') (resolve_indirect dev h a i d)
  unfolding resolve_indirect
  resolve_indirect-Ends h a i d held = bind (reads_end _ d held) λ b d1 (_, held1). ends_ok held1

  get_block-Ends :
      (h : InodeTableHandler) (inode : Inode) (i : ℕ) (d : D)
      → I d
      → Ends (λ _ d'. I d') (get_block dev h inode i d)
  unfolding get_block
  get_block-Ends h inode i d held =
      let i1 = i - direct_count in
      let i2 = i1 - indirect_count in
      by_cases (leb max_blocks i) (λ e. rw e ends_err)
        λ e1.
          by_cases (leb inode.blocks i) (λ e. rw (e1, e) ends_err)
            λ e2.
              by_cases (ltb i direct_count) (λ e. rw (e1, e2, e) (ends_ok held))
                λ e3.
                  by_cases (ltb i1 indirect_count)
                    (λ e. rw (e1, e2, e3, e) (resolve_indirect-Ends h inode.indirect i1 d held))
                    λ e4.
                      by_cases (ltb i2 double_count)
                        (λ e.
                          rw (e1, e2, e3, e4, e)
                            (bind
                              (resolve_indirect-Ends h inode.double (i2 / indirect_count) d held)
                              λ a d1 held1.
                                resolve_indirect-Ends h a (i2 % indirect_count) d1 held1))
                        λ e. rw (e1, e2, e3, e4, e) ends_err

  read_inode-Ends :
      (h : InodeTableHandler) (i : ℕ) (d : D) → I d → Ends (λ _ d'. I d') (read_inode dev h i d)
  unfolding read_inode
  read_inode-Ends h i d held =
      by_cases (leb (max_inode_index h) i) (λ e. rw e ends_err)
        λ e. rw e (bind (reads_end _ d held) λ b d1 (_, held1). ends_ok held1)

  check_address-Ends :
      (m : FormatV1) (inode : Inode) (block address : ℕ) (v : Volume D)
      → I v.device
      → Ends On (check_address m inode block address v)
  unfolding check_address
  check_address-Ends m inode block address v held =
      by_cases (address == invalid_address) (λ e. rw e ends_err)
        λ e.
          by_cases (ltb m.block_allocator.max_index address) (λ e'. rw (e, e') ends_err)
            λ e'. rw (e, e') (ends_ok held)

  read_loop-Ends :
      (fuel : ℕ) (m : FormatV1) (id : ℕ) (inode : Inode) (md : FileMetadata) (buf : List ℕ)
      (done block in_block : ℕ) (v : Volume D)
      → I v.device
      → length buf ≤ done + fuel
      → in_block < block_size
      → Ends On (read_loop dev m id inode fuel md buf done block in_block v)
  unfolding read_loop set_metadata
  read_loop-Ends zero m id inode md buf done block in_block v held enough inside =
      let full : ltb done (length buf) ≡ false = ground (arith, enough) in rw full (ends_ok held)
  read_loop-Ends (suc fuel) m id inode md buf done block in_block v held enough inside =
      by_cases (ltb done (length buf))
        (λ room.
          by_cases (ltb md.offset inode.size)
            (λ more.
              rw (room, more)
                (bind
                  (on_device-Ends (get_block dev m.inode_handler inode block) v
                    (get_block-Ends _ _ _ _ held))
                  λ block_ind v1 held1.
                    bind (check_address-Ends m inode block block_ind v1 held1) λ _ v2 held2.
                      bind
                        (on_device-Ends (dev.read_block (add32 m.superblock.data_start block_ind))
                          v2 (reads_end _ _ held2))
                        λ b v3 (size, held3).
                          let t =
                            min (min (block_size - in_block) (length buf - done))
                              (inode.size - md.offset) in
                          let positive : 1 ≤ t = ground (arith, room, more, inside) in
                          let ranges =
                            ranges_lem buf done b in_block t (ground (arith, room))
                              (omega (arith, size, inside)) in
                          let len = length-write_at buf done (slice b in_block t) in
                          rw ranges (
                            read_loop-Ends fuel m id inode _
                              (write_at buf done (slice b in_block t)) (done + t) (add32 block 1) 0
                              _ held3 (omega (arith, len, enough, positive)) (omega arith))))
            λ ended. rw (room, ended) (ends_ok held))
        λ full. rw full (ends_ok held)

  opened-Ends : (id : ℕ) (v : Volume D) → I v.device → Ends On (opened id v)
  unfolding opened
  opened-Ends id v held = looked_up (v.format.open_files id)
    where
      looked_up :
          (o : Option FileMetadata)
          → Ends On (elim o [ none ↦ err (file_not_open id) v | some md ↦ ok md v ])
      looked_up none = ends_err
      looked_up (some md) = ends_ok held

  -- `read` ends without a panic, whatever the device holds and whatever the handle and the inode say, if
  -- reading a block of the device ends without one and gives 256 bytes: its rounds come to an end, and no
  -- range that it copies leaves the buffer or the block.
  pub read-Ends :
      (id : ℕ) (buf : List ℕ) (v : Volume D)
      → I v.device
      → Ends (λ _ v'. I v'.device) (read dev id buf v)
  unfolding read
  read-Ends id buf v held = bind (opened-Ends id v held) λ md v1 held1.
      by_cases (length buf == 0) (λ e. rw e (ends_ok held1))
        λ e. rw e (
          bind
            (on_device-Ends (read_inode dev v.format.inode_handler md.inode) v1
              (read_inode-Ends _ _ _ held1))
            λ inode v2 held2.
              by_cases (ltb (inode.blocks * block_size) inode.size) (λ e'. rw e' ends_err)
                λ e'. rw e' (
                  read_loop-Ends (length buf) v.format id inode md buf 0 _ _ v2 held2 (omega arith)
                    (omega arith)))
