-- ===== src/Device/Memory.antt =====
-- src/device/memory_device.rs: the blocks in a vector. Saving to and loading from a file is left out.
pub mod Laws
use ferris_file_system.Prelude.{
  ℕ, zero, suc, ◌%◌, ◌++◌, List, length, get_or, set, replicate, take, ltb, leb, if◌then◌else◌,
  u32_mod, ◌-◌, ◌+◌,
}
use ferris_file_system.FsError.{invalid_input, block_index_oob}
use ferris_file_system.Effect.{ok, err, Op}
use ferris_file_system.Device.{Block, zero_block, BlockDevice}

pub record MemoryDevice : Type 0 where
  pub blocks : List Block

unfoldable pub block_count : MemoryDevice → ℕ
block_count d = length d.blocks % u32_mod

unfoldable pub read_block : ℕ → Op MemoryDevice Block
unfolding block_count
read_block block d =
    if leb (block_count d) block
    then err (invalid_input (block_index_oob block (block_count d))) d
    else ok (get_or d.blocks block zero_block) d

unfoldable pub write_block : ℕ → Block → Op MemoryDevice (Unit {0})
unfolding block_count
write_block block buf d =
    if leb (block_count d) block
    then err (invalid_input (block_index_oob block (block_count d))) d
    else ok tt (record { blocks = set d.blocks block buf })

-- `Vec::resize`: cut off, or filled up.
unfoldable pub resize_blocks : List Block → ℕ → List Block
resize_blocks blocks n = take n blocks ++ replicate (n - length blocks) zero_block

unfoldable pub resize : ℕ → Op MemoryDevice (Unit {0})
unfolding resize_blocks
resize blocks d = ok tt (record { blocks = resize_blocks d.blocks blocks })

unfoldable pub flush : Op MemoryDevice (Unit {0})
flush d = ok tt d

unfoldable pub empty : ℕ → MemoryDevice
empty blocks = record { blocks = replicate blocks zero_block }

abbrev pub memory_device : BlockDevice MemoryDevice
memory_device = record {
  read_block = read_block;
  write_block = write_block;
  block_count = block_count;
  resize = resize;
  flush = flush;
}
