-- ===== src/Device/Memory/Laws.antt =====
-- The vector of src/device/memory_device.rs is a lawful device.
use ferris_file_system.Prelude.{
  ℕ, ◌%◌, ◌<◌, ◌≡◌, refl, inl, inr, false, arith, length, get_or, leb, ◌==◌, u32_mod, length-set,
  length-replicate, Bool-cases, get_or-replicate, get_or-set,
}
use ferris_file_system.Effect.Returns.{Returns, returns}
use ferris_file_system.Device.{Block, Store, zero_block, IsBlock, IsLawful, update}
use ferris_file_system.Device.Memory.{
  MemoryDevice, block_count, read_block, write_block, memory_device, empty,
}

-- The vector holds the store, block by block, and its length fits a `u32`.
pub record Holds (d : MemoryDevice) (f : Store) (n : ℕ) : Type 0 where
  pub count : length d.blocks ≡ n
  pub small : n < u32_mod
  pub same : (i : ℕ) → get_or d.blocks i zero_block ≡ f i
  pub block : (i : ℕ) → IsBlock (f i)

pub zero_block-IsBlock : IsBlock zero_block
unfolding zero_block
zero_block-IsBlock = record {
  size = refl;
  byte = λ i. rw (get_or-replicate {A = ℕ} 256 i 0) (omega arith);
}

-- A new device is all zeros.
pub empty-Holds : (n : ℕ) → n < u32_mod → Holds (empty n) (λ i. zero_block) n
unfolding empty
empty-Holds n h = record {
  count = length-replicate n zero_block;
  small = h;
  same = λ i. get_or-replicate n i zero_block;
  block = λ i. zero_block-IsBlock;
}

-- A read below the end returns the block, and changes nothing.
pub read-Holds :
    (d : MemoryDevice) (f : Store) (n i : ℕ)
    → Holds d f n
    → i < n
    → Returns (λ b d'. (b ≡ f i) × Holds d' f n) (read_block i d)
unfolding read_block
read-Holds d f n i h lt =
    let in_range : leb (length d.blocks % u32_mod) i ≡ false = ground (arith, h.count, h.small) in
    rw in_range (returns (h.same i, h))

-- A write below the end replaces that block alone.
pub write-Holds :
    (d : MemoryDevice) (f : Store) (n i : ℕ) (b : Block)
    → Holds d f n
    → i < n
    → IsBlock b
    → Returns (λ _ d'. Holds d' (update f i b) n) (write_block i b d)
unfolding write_block update
write-Holds d f n i b h lt ib =
    let in_range : leb (length d.blocks % u32_mod) i ≡ false = ground (arith, h.count, h.small) in
    let fits : i < length d.blocks = omega (arith, h.count) in
    rw in_range (
      returns (record {
        count = omega (arith, length-set d.blocks i b, h.count);
        small = h.small;
        same = λ j. rw (get_or-set d.blocks i j b zero_block fits, h.same j) refl;
        block = λ j. elim (Bool-cases (i == j)) [ inl e ↦ rw e ib | inr e ↦ rw e (h.block j) ];
      }))

pub count-Holds : (d : MemoryDevice) (f : Store) (n : ℕ) → Holds d f n → block_count d ≡ n
unfolding block_count
count-Holds d f n h = ground (arith, h.count, h.small)

-- The vector is a lawful device.
abbrev pub memory-IsLawful : IsLawful memory_device
memory-IsLawful = record {
  Represents = Holds;
  block_lem = λ d f n h i. h.block i;
  count_lem = count-Holds;
  read_lem = read-Holds;
  write_lem = write-Holds;
}
