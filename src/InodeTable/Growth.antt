-- ===== src/InodeTable/Growth.antt =====
-- `blocks_necessary_to_grow_n` of src/formats/v1/inode_handler.rs against the blocks that the calls
-- of `add_block` take from the pool one by one.
use ferris_file_system.Prelude.{
  ℕ, zero, suc, ◌+◌, ◌-◌, ◌%◌, ◌<◌, ◌≤◌, ◌≡◌, arith, ltb, ◌&&◌, ◌==◌, if◌then◌else◌, u32_mod,
}
use ferris_file_system.Inode.{Inode, direct_count, indirect_count}
use ferris_file_system.InodeTable.{metadata_blocks, blocks_necessary_to_grow_n}

-- The pool blocks that are taken when block `index` is added: the indirect block, the double block
-- and its first entry, or a further entry of the double block.
unfoldable pub taken_at : ℕ → ℕ
taken_at index =
    if index == direct_count
    then 1
    else if index == direct_count + indirect_count
    then 2
    else if ltb (direct_count + indirect_count) index
        && (index - direct_count - indirect_count) % indirect_count == 0
    then 1
    else 0

unfoldable pub taken_from : ℕ → ℕ → ℕ
unfolding taken_at
taken_from index zero = 0
taken_from index (suc n) = taken_at index + taken_from (index + 1) n

metadata_blocks_suc : (b : ℕ) → metadata_blocks (b + 1) ≡ metadata_blocks b + taken_at b
unfolding metadata_blocks taken_at
metadata_blocks_suc b = ground arith

metadata_blocks_add : (n b : ℕ) → metadata_blocks (b + n) ≡ metadata_blocks b + taken_from b n
unfolding taken_from
metadata_blocks_add zero b = let z : b + 0 ≡ b = omega arith in rw z (omega arith)
metadata_blocks_add (suc n) b =
    let s : b + suc n ≡ b + 1 + n = omega arith in
    rw s (omega (arith, metadata_blocks_add n (b + 1), metadata_blocks_suc b))

taken_from_le : (n b : ℕ) → taken_from b n ≤ n + n
unfolding taken_from taken_at
taken_from_le zero b = omega arith
taken_from_le (suc n) b = ground (arith, taken_from_le n (b + 1))

-- The pool that `add_blocks` asks for is exactly as large as the blocks that adding `n` blocks one
-- after the other takes from it.
pub blocks_necessary-taken_from :
    (inode : Inode) (n : ℕ)
    → n + n < u32_mod
    → blocks_necessary_to_grow_n inode n ≡ taken_from inode.blocks n
unfolding blocks_necessary_to_grow_n
blocks_necessary-taken_from inode n lt =
    omega (arith, metadata_blocks_add n inode.blocks, taken_from_le n inode.blocks)
