-- ===== src/Tests/Caches.antt =====
-- The theorems on src/device/cached_device.rs at a cache of two blocks over a device of three.
use ferris_file_system.Prelude.{
  ℕ, zero, suc, ◌<◌, ◌==◌, ◌≡◌, refl, inl, inr, true, false, none, some, [], ◌∷◌, arith,
}
use ferris_file_system.Effect.Returns.{Returns}
use ferris_file_system.Device.{Store, zero_block, update}
use ferris_file_system.Device.Memory.{MemoryDevice, memory_device}
use ferris_file_system.Device.Memory.Laws.{Holds, memory-IsLawful, zero_block-IsBlock}
use ferris_file_system.CachedDevice.{CachedDevice, find, read_block, write_block, flush}
use ferris_file_system.CachedDevice.Links.{Cached, get}
use ferris_file_system.CachedDevice.Coherence.{Holding, clean, absent, modified, Coherent}
use ferris_file_system.CachedDevice.Misses.{Ready, hit, miss}
use ferris_file_system.CachedDevice.Access.{read_block-Coherent, write_block-Coherent}
use ferris_file_system.CachedDevice.Flush.{flush-Represents}
use ferris_file_system.Tests.{
  disk, disk_store, disk-Holds, first_byte_full, first_byte_full-IsBlock,
}

-- Block 1 was written, then block 0 read: the cache is full.
abbrev cache : CachedDevice MemoryDevice
cache = record {
  device = disk;
  size = 2;
  cache =
      (
        0,
        record {
          data_ = first_byte_full;
          dirty = false;
          more_recent = 4294967295;
          less_recent = 1;
        },
      )
      ∷ (
        1,
        record { data_ = first_byte_full; dirty = true; more_recent = 0; less_recent = 4294967295 },
      )
      ∷ [];
  cached_count = 2;
  lru = 1;
  mru = 0;
}

-- What the cache and the disk stand for.
abbrev contents : Store
contents = update disk_store 1 first_byte_full

others : (k : ℕ) → get cache (suc (suc k)) ≡ none
unfolding find
others k =
    let no_0 : (0 == suc (suc k)) ≡ false = ground arith in
    let no_1 : (1 == suc (suc k)) ≡ false = ground arith in rw (no_0, no_1) refl

holding : (k : ℕ) → Holding (get cache k) (disk_store k) (contents k)
unfolding find update
holding zero = clean
holding (suc zero) = modified first_byte_full-IsBlock
holding (suc (suc k)) =
    let no_1 : (1 == suc (suc k)) ≡ false = ground arith in rw (others k, no_1) absent

inside : (k : ℕ) → Cached cache k → k < 3
unfolding find
inside zero p = omega arith
inside (suc zero) p = omega arith
inside (suc (suc k)) p = let gone : none ≡ some p.entry = rw (others k) at p.here in absurd cc

cache-Coherent : Coherent memory-IsLawful 3 cache contents
cache-Coherent = record {
  store = disk_store;
  holds = disk-Holds;
  entries = holding;
  inside = inside;
}

block_0 : Cached cache 0
unfolding find
block_0 = record { entry = (first_byte_full, false); here = refl }

-- Block 2 is not in the cache: block 1 is written back and leaves.
miss_of_2 : Ready cache 2 (find 2 cache.cache)
unfolding find
miss_of_2 = miss (record {
  newest = inr block_0;
  full = λ full. record {
    oldest = record { entry = _; here = refl; newer = block_0 };
    known = λ e. omega arith;
    apart = λ e. omega arith;
  };
})

hit_of_1 : Ready cache 1 (find 1 cache.cache)
unfolding find
hit_of_1 = hit (record { more = inr block_0; less = inl refl; mru = block_0 })

read_block-Coherent_example :
    Returns
      (λ b c'. (b ≡ contents 2) × Coherent memory-IsLawful 3 c' contents)
      (read_block memory_device 2 cache)
read_block-Coherent_example =
    read_block-Coherent memory-IsLawful 3 cache contents 2 cache-Coherent miss_of_2 (omega arith)

write_block-Coherent_example :
    Returns
      (λ _ c'. Coherent memory-IsLawful 3 c' (update contents 1 zero_block))
      (write_block memory_device 1 zero_block cache)
write_block-Coherent_example =
    write_block-Coherent memory-IsLawful 3 cache contents 1 zero_block cache-Coherent hit_of_1
      (omega arith) zero_block-IsBlock

flush-Represents_example :
    Returns
      (λ _ c'. Holds c'.device contents 3 × Coherent memory-IsLawful 3 c' contents)
      (flush memory_device cache)
flush-Represents_example = flush-Represents memory-IsLawful 3 cache contents cache-Coherent
