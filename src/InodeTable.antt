-- ===== src/InodeTable.antt =====
-- src/formats/v1/inode_handler.rs: the table of inodes, and the data blocks that an inode owns.
-- Block addresses are relative to `data_start`.
pub mod Rows
pub mod Blocks
pub mod Entries
pub mod Append
pub mod Growth
pub mod Pool
pub mod Required
use ferris_file_system.Prelude.{
  ℕ, zero, suc, ◌+◌, ◌-◌, ◌*◌, ◌/◌, ◌%◌, ◌^◌, Bool, true, false, Option, none, some, List, [], ◌∷◌,
  length, get_elem?, get_or, set, ltb, leb, ◌==◌, if◌then◌else◌, add32, mul32, u32_mod,
}
use ferris_file_system.FsError.{
  FsError, invalid_input, inode_index_oob, index_oob, inode_block_index_oob, max_inode_size,
  not_enough_allocated_blocks,
}
use ferris_file_system.Effect.{Run, ok, err, Op, pure, fail, crash, and_then, ◌>>=◌, ◌>>◌}
use ferris_file_system.Device.{Block, zero_block, block_size, BlockDevice}
use ferris_file_system.Codec.{to_le_bytes, write_at, slice, read_field}
use ferris_file_system.Inode.{
  Inode, direct_count, indirect_count, double_count, max_blocks, on_disk_size, inodes_per_block,
  serialize, deserialize,
}

pub record InodeTableHandler : Type 0 where
  pub inode_table_start : ℕ
  pub inode_table_blocks : ℕ
  pub data_start : ℕ

abbrev pub max_inode_index : InodeTableHandler → ℕ
max_inode_index h = mul32 h.inode_table_blocks inodes_per_block

-- The number of metadata blocks of an inode with so many data blocks.
unfoldable pub metadata_blocks : ℕ → ℕ
metadata_blocks blocks =
    if leb blocks direct_count
    then 0
    else if leb blocks (direct_count + indirect_count)
    then 1
    else 1 + 1 + (blocks - direct_count - indirect_count + indirect_count - 1) / indirect_count

unfoldable pub blocks_necessary_to_grow_n : Inode → ℕ → ℕ
unfolding metadata_blocks
blocks_necessary_to_grow_n inode n =
    (metadata_blocks (inode.blocks + n) - metadata_blocks inode.blocks) % u32_mod

unfoldable pub blocks_necessary_to_grow : Inode → ℕ
unfolding blocks_necessary_to_grow_n
blocks_necessary_to_grow inode = blocks_necessary_to_grow_n inode 1

-- `u32::from_le_bytes(buf[offset..offset + 4])`, and the copy of an address to there.
abbrev pub read_address : Block → ℕ → ℕ
read_address buf offset = read_field 4 buf offset

abbrev pub write_address : Block → ℕ → ℕ → Block
write_address buf offset address = write_at buf offset (to_le_bytes 4 address)

module _ {D : Type 0} (dev : BlockDevice D) (h : InodeTableHandler) where
  open dev use {read_block, write_block}
  open h use {inode_table_start, data_start}

  unfoldable pub write_inode : ℕ → Inode → Op D (Unit {0})
  write_inode index inode =
      if leb (max_inode_index h) index
      then fail (invalid_input (inode_index_oob index (max_inode_index h)))
      else do
        let inode_block = add32 inode_table_start (index / inodes_per_block)
        let buf = serialize inode zero_block
        block ← read_block inode_block
        let start = index % inodes_per_block * on_disk_size
        write_block inode_block (write_at block start (slice buf 0 on_disk_size))

  unfoldable pub read_inode : ℕ → Op D Inode
  read_inode index =
      if leb (max_inode_index h) index
      then fail (invalid_input (inode_index_oob index (max_inode_index h)))
      else do
        block ← read_block (add32 inode_table_start (index / inodes_per_block))
        let start = index % inodes_per_block * on_disk_size
        pure (deserialize (write_at zero_block 0 (slice block start on_disk_size)))

  -- `pool[*pool_index]`, which panics behind the end.
  unfoldable pub take_pool : List ℕ → ℕ → Op D ℕ
  take_pool pool pool_index = elim (get_elem? pool pool_index) [
    | some address ↦ pure address
    | none ↦ crash
  ]

  -- A new block from the pool, if this is the first use of the address, and the pool's next index.
  unfoldable pub fresh_or : Bool → ℕ → ℕ → List ℕ → ℕ → Op D (ℕ × ℕ)
  fresh_or true required old pool pool_index =
      if ltb (length pool) required
      then fail (invalid_input (not_enough_allocated_blocks required (length pool % u32_mod)))
      else do address ← take_pool pool pool_index; pure (address, pool_index + 1)
  fresh_or false required old pool pool_index = pure (old, pool_index)

  unfoldable pub write_indirect : Inode → ℕ → List ℕ → ℕ → ℕ → Op D (Inode × ℕ)
  write_indirect inode block pool pool_index index = do
    (indirect, pool_index') ← fresh_or (index == 0) 1 inode.indirect pool pool_index
    buf ← read_block (add32 indirect data_start)
    write_block (add32 indirect data_start) (write_address buf (index * 4) block)
    pure (record inode { indirect = indirect }, pool_index')

  -- The entry of a new indirect block is written after the block itself.
  unfoldable pub link_indirect : Bool → ℕ → ℕ → ℕ → Op D (Unit {0})
  link_indirect true double indirect indirect_offset = do
    buf ← read_block (add32 double data_start)
    write_block (add32 double data_start) (write_address buf indirect_offset indirect)
  link_indirect false double indirect indirect_offset = pure tt

  unfoldable pub write_double_indirect : Inode → ℕ → List ℕ → ℕ → ℕ → Op D (Inode × ℕ)
  write_double_indirect inode block pool pool_index index = do
    let indirect_offset = index / indirect_count * 4
    let direct_offset = index % indirect_count * 4
    (double, pool_index1) ← fresh_or (index == 0) 2 inode.double pool pool_index
    buf ← read_block (add32 double data_start)
    (indirect, pool_index2) ←
        fresh_or (direct_offset == 0) 1 (read_address buf indirect_offset) pool pool_index1
    buf ← read_block (add32 indirect data_start)
    write_block (add32 indirect data_start) (write_address buf direct_offset block)
    link_indirect (direct_offset == 0) double indirect indirect_offset
    pure (record inode { double = double }, pool_index2)

  -- One round of `add_blocks`, and the body of `add_block`.
  unfoldable pub push_block : Inode → ℕ → List ℕ → ℕ → Op D (Inode × ℕ)
  push_block inode block pool pool_index = do
    let index = inode.blocks
    (inode', pool_index') ←
        if ltb index direct_count
        then pure (record inode { direct = set inode.direct index block }, pool_index)
        else if ltb index (direct_count + indirect_count)
        then write_indirect inode block pool pool_index (index - direct_count)
        else if ltb index (direct_count + indirect_count + double_count)
        then write_double_indirect inode block pool pool_index
            (index - direct_count - indirect_count)
        else fail (max_inode_size ((index + 1) % u32_mod) max_blocks)
    pure (record inode' { blocks = add32 inode'.blocks 1 }, pool_index')

  unfoldable pub add_blocks_loop : Inode → List ℕ → List ℕ → ℕ → Op D Inode
  add_blocks_loop inode [] pool pool_index = pure inode
  add_blocks_loop inode (block ∷ blocks) pool pool_index = do
    (inode', pool_index') ← push_block inode block pool pool_index
    add_blocks_loop inode' blocks pool pool_index'

  -- The inode that the caller's `&mut inode` ends with; on an error the caller drops it.
  unfoldable pub add_blocks : Inode → List ℕ → List ℕ → Op D Inode
  add_blocks inode [] pool = pure inode
  add_blocks inode (block ∷ blocks) pool =
      let new_count = inode.blocks + length (block ∷ blocks) in
      let required = blocks_necessary_to_grow_n inode (length (block ∷ blocks) % u32_mod) in
      if ltb max_blocks new_count
      then fail (max_inode_size (new_count % u32_mod) max_blocks)
      else if ltb (length pool) required
      then fail (invalid_input (not_enough_allocated_blocks required (length pool % u32_mod)))
      else add_blocks_loop inode (block ∷ blocks) pool 0

  unfoldable pub add_block : Inode → ℕ → List ℕ → Op D Inode
  add_block inode block pool =
      if leb max_blocks inode.blocks
      then fail (max_inode_size ((inode.blocks + 1) % u32_mod) max_blocks)
      else do (inode', _) ← push_block inode block pool 0; pure inode'

  -- `resolve_indirect` and `resolve_double` are the same code.
  unfoldable pub resolve_indirect : ℕ → ℕ → Op D ℕ
  resolve_indirect indirect index = do
    buf ← read_block (add32 data_start indirect)
    pure (read_address buf (index * 4))

  unfoldable pub get_block : Inode → ℕ → Op D ℕ
  get_block inode index =
      let index1 = index - direct_count in
      let index2 = index1 - indirect_count in
      if leb max_blocks index
      then fail (invalid_input (inode_block_index_oob index max_blocks))
      else if leb inode.blocks index
      then fail (invalid_input (index_oob index inode.blocks))
      else if ltb index direct_count
      then pure (get_or inode.direct index 0)
      else if ltb index1 indirect_count
      then resolve_indirect inode.indirect index1
      else if ltb index2 double_count
      then (do
        indirect ← resolve_indirect inode.double (index2 / indirect_count)
        resolve_indirect indirect (index2 % indirect_count))
      else fail (invalid_input (inode_block_index_oob index2 max_blocks))
