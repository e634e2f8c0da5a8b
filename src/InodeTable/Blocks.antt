-- ===== src/InodeTable/Blocks.antt =====
-- `get_block` of src/formats/v1/inode_handler.rs: the blocks of an inode as a sequence.
use ferris_file_system.Prelude.{
  ℕ, ◌+◌, ◌-◌, ◌*◌, ◌/◌, ◌%◌, ◌<◌, ◌≤◌, ◌≡◌, refl, inl, inr, true, false, arith, get_or, ltb, leb,
  if◌then◌else◌, Bool-cases, u32_mod, add32,
}
use ferris_file_system.Effect.Returns
use ferris_file_system.Effect.Returns.{Returns, returns}
use ferris_file_system.Device.{Store, IsLawful, BlockDevice}
use ferris_file_system.Inode.{Inode, direct_count, indirect_count, double_count, max_blocks}
use ferris_file_system.InodeTable.{InodeTableHandler, read_address, resolve_indirect, get_block}

-- Entry `i` of the block of addresses at a relative address.
unfoldable pub entry_at : InodeTableHandler → Store → ℕ → ℕ → ℕ
entry_at h f address i = read_address (f (h.data_start + address)) (i * 4)

-- The relative address of block `index` of an inode.
unfoldable pub block_at : InodeTableHandler → Store → Inode → ℕ → ℕ
unfolding entry_at
block_at h f inode index =
    let index1 = index - direct_count in
    let index2 = index1 - indirect_count in
    if ltb index direct_count
    then get_or inode.direct index 0
    else if ltb index1 indirect_count
    then entry_at h f inode.indirect index1
    else entry_at h f (entry_at h f inode.double (index2 / indirect_count))
        (index2 % indirect_count)

module _ (h : InodeTableHandler) (n : ℕ) where
  -- The metadata blocks on the way to block `index` lie on the device.
  pub record OnDevice (f : Store) (inode : Inode) (index : ℕ) : Type 0 where
    pub indirect :
        direct_count ≤ index
        → index < direct_count + indirect_count
        → h.data_start + inode.indirect < n
    pub double : direct_count + indirect_count ≤ index → h.data_start + inode.double < n
    pub second :
        direct_count + indirect_count ≤ index
        → h.data_start
            + entry_at h f inode.double ((index - direct_count - indirect_count) / indirect_count)
          < n

module _ {D : Type 0} {dev : BlockDevice D} (l : IsLawful dev) (h : InodeTableHandler) (n : ℕ)
    (small : n < u32_mod) where
  resolve_indirect_lem :
      (d : D) (f : Store) (address i : ℕ)
      → l.Represents d f n
      → h.data_start + address < n
      → Returns
          (λ b d'. (b ≡ entry_at h f address i) × l.Represents d' f n)
          (resolve_indirect dev h address i d)
  unfolding resolve_indirect entry_at
  resolve_indirect_lem d f address i r lt =
      let at : add32 h.data_start address ≡ h.data_start + address = omega (arith, small) in
      rw at (Returns.bind (l.read_lem d f n _ r lt) λ b d' (got, r'). rw got (returns (refl, r')))

  -- `get_block` of an index below the inode's number of blocks and the maximum succeeds with the
  -- address that the inode and its metadata blocks hold for it, and leaves the device's contents as
  -- they are. The metadata blocks on the way are on the device.
  pub get_block-block_at :
      (d : D) (f : Store) (inode : Inode) (index : ℕ)
      → l.Represents d f n
      → index < inode.blocks
      → index < max_blocks
      → OnDevice h n f inode index
      → Returns
          (λ b d'. (b ≡ block_at h f inode index) × l.Represents d' f n)
          (get_block dev h inode index d)
  unfolding get_block block_at
  get_block-block_at d f inode index r lt max on =
      let in_max : leb max_blocks index ≡ false = ground (arith, max) in
      let in_blocks : leb inode.blocks index ≡ false = ground (arith, lt) in
      let index1 = index - direct_count in
      let index2 = index1 - indirect_count in
      rw (in_max, in_blocks)
        (elim (Bool-cases (ltb index direct_count)) [
          | inl direct ↦ rw direct (returns (refl, r))
          | inr far ↦ elim (Bool-cases (ltb index1 indirect_count)) [
            | inl single ↦
                rw (far, single)
                  (resolve_indirect_lem d f inode.indirect index1 r
                    (on.indirect (ground (arith, far)) (ground (arith, far, single))))
            | inr farther ↦
                let past : direct_count + indirect_count ≤ index = ground (arith, far, farther) in
                let in_double : ltb index2 double_count ≡ true = ground (arith, past, max) in
                rw (far, farther, in_double)
                  (Returns.bind
                    (resolve_indirect_lem d f inode.double (index2 / indirect_count) r
                      (on.double past))
                    λ b d' (got, r').
                      rw got
                        (resolve_indirect_lem d' f _ (index2 % indirect_count) r' (on.second past)))
          ]
        ])
