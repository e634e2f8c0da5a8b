-- ===== src/Device.antt =====
-- src/fs_utils.rs and src/device/block_device.rs: blocks, and the operations of a block device.
pub mod Memory
use ferris_file_system.Prelude.{
  ℕ, ◌-◌, ◌^◌, ◌<◌, ◌≡◌, List, arith, length, replicate, ◌==◌, if◌then◌else◌, get_or,
}
use ferris_file_system.Effect.{Run, Op}
use ferris_file_system.Effect.Returns.{Returns}

abbrev pub magic_number : ℕ
magic_number = 0x2E2E616E616E6162

abbrev pub block_size : ℕ
block_size = 256

abbrev pub invalid_address : ℕ
invalid_address = 2 ^ 32 - 1

-- `[u8; BLOCK_SIZE]`
abbrev pub Block : Type 0
Block = List ℕ

-- `[0u8; BLOCK_SIZE]`
unfoldable pub zero_block : Block
zero_block = replicate block_size 0

-- `trait BlockDevice`. A read returns the buffer that the code fills.
pub record BlockDevice (D : Type 0) : Type 0 where
  pub read_block : ℕ → Op D Block
  pub write_block : ℕ → Block → Op D (Unit {0})
  pub block_count : D → ℕ
  pub resize : ℕ → Op D (Unit {0})
  pub flush : Op D (Unit {0})

-- A block as it must be: 256 bytes.
pub record IsBlock (b : Block) : Type 0 where
  pub size : length b ≡ block_size
  pub byte : (i : ℕ) → get_or b i 0 < 256

-- The contents of a device, by block.
abbrev pub Store : Type 0
Store = ℕ → Block

unfoldable pub update : Store → ℕ → Block → Store
update f i b j = if i == j then b else f j

-- What the rest of the file system relies on: the device stands for a store of `n` blocks, a read
-- below `n` returns the block, and a write below `n` replaces that block alone.
pub record IsLawful {D : Type 0} (dev : BlockDevice D) : Type 1 where
  pub Represents : D → Store → ℕ → Type 0
  pub block_lem : (d : D) (f : Store) (n : ℕ) → Represents d f n → (i : ℕ) → IsBlock (f i)
  pub count_lem : (d : D) (f : Store) (n : ℕ) → Represents d f n → dev.block_count d ≡ n
  pub read_lem :
      (d : D) (f : Store) (n i : ℕ)
      → Represents d f n
      → i < n
      → Returns (λ b d'. (b ≡ f i) × Represents d' f n) (dev.read_block i d)
  pub write_lem :
      (d : D) (f : Store) (n i : ℕ) (b : Block)
      → Represents d f n
      → i < n
      → IsBlock b
      → Returns (λ _ d'. Represents d' (update f i b) n) (dev.write_block i b d)
