-- ===== src/Tests.antt =====
-- Concrete devices for the tests and the witnesses in the child modules.
mod Bitmaps
mod Records
mod Errors
mod Caches
mod Directories
mod Inodes
mod Formats
mod Formatted
mod Trees
mod Integrity
mod Scenarios
mod Files
mod Names
use ferris_file_system.Prelude.{
  ℕ, zero, suc, ◌+◌, ◌<◌, ◌≡◌, refl, List, [], ◌∷◌, ◌++◌, arith, length, get_or, replicate,
  get_or-replicate, u32_mod, All,
}
use ferris_file_system.Device.{Block, Store, IsBlock, zero_block}
use ferris_file_system.Device.Memory.{MemoryDevice}
use ferris_file_system.Device.Memory.Laws.{Holds, zero_block-IsBlock}

-- What a list of blocks stands for.
abbrev pub store_of : List Block → Store
store_of blocks i = get_or blocks i zero_block

All-IsBlock : (bs : List Block) → All IsBlock bs → (i : ℕ) → IsBlock (store_of bs i)
All-IsBlock [] all i = zero_block-IsBlock
All-IsBlock (b ∷ bs) all zero = all.0
All-IsBlock (b ∷ bs) all (suc i) = All-IsBlock bs all.1 i

pub of_blocks-Holds :
    (bs : List Block)
    → All IsBlock bs
    → length bs < u32_mod
    → Holds (record { blocks = bs }) (store_of bs) (length bs)
of_blocks-Holds bs all small = record {
  count = refl;
  small = small;
  same = λ i. refl;
  block = All-IsBlock bs all;
}

-- A block whose first byte is full, and that is empty otherwise.
abbrev pub first_byte_full : Block
first_byte_full = 255 ∷ replicate 255 0

pub first_byte_full-IsBlock : IsBlock first_byte_full
first_byte_full-IsBlock = record { size = refl; byte = byte }
  where
    byte : (i : ℕ) → get_or first_byte_full i 0 < 256
    byte zero = omega arith
    byte (suc i) = rw (get_or-replicate {A = ℕ} 255 i 0) (omega arith)

-- Three blocks, the first of them with its first byte full.
abbrev pub disk : MemoryDevice
disk = record { blocks = first_byte_full ∷ zero_block ∷ zero_block ∷ [] }

abbrev pub disk_store : Store
disk_store = store_of (first_byte_full ∷ zero_block ∷ zero_block ∷ [])

pub disk-Holds : Holds disk disk_store 3
disk-Holds =
    of_blocks-Holds (first_byte_full ∷ zero_block ∷ zero_block ∷ [])
      (first_byte_full-IsBlock, (zero_block-IsBlock, (zero_block-IsBlock, tt))) (omega arith)

zeros-byte : (k i : ℕ) → get_or (replicate k 0) i 0 < 256
zeros-byte k i = rw (get_or-replicate {A = ℕ} k i 0) (omega arith)

bytes_lem : (xs : List ℕ) (k i : ℕ) → All (λ x. x < 256) xs → get_or (xs ++ replicate k 0) i 0 < 256
bytes_lem [] k i all = zeros-byte k i
bytes_lem (x ∷ xs) k zero all = all.0
bytes_lem (x ∷ xs) k (suc i) all = bytes_lem xs k i all.1

-- Some bytes, and zeros up to the end of the block.
pub padded-IsBlock :
    (xs : List ℕ) (k : ℕ)
    → All (λ x. x < 256) xs
    → length (xs ++ replicate k 0) ≡ 256
    → IsBlock (xs ++ replicate k 0)
padded-IsBlock xs k all size = record { size = size; byte = λ i. bytes_lem xs k i all }
