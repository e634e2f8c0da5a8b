-- ===== src/CachedDevice.antt =====
-- src/device/cached_device.rs: a write-back cache over a device. The hash map is a list of pairs;
-- its order stands for the one in which `flush` visits the map.
pub mod Entries
pub mod Links
pub mod Coherence
pub mod Misses
pub mod Access
pub mod Flush
use ferris_file_system.Prelude.{
  ℕ, ◌+◌, ◌-◌, max, Bool, true, false, not, ◌&&◌, Option, none, some, List, [], ◌∷◌, map, leb, ◌==◌,
  if◌then◌else◌,
}
use ferris_file_system.Effect.{Run, ok, err, panic, Op, pure, crash, and_then, ◌>>=◌, ◌>>◌}
use ferris_file_system.Device.{Block, BlockDevice, invalid_address}

-- `pinned` is never read.
pub record CachedBlock : Type 0 where
  pub data_ : Block
  pub dirty : Bool
  pub more_recent : ℕ
  pub less_recent : ℕ

abbrev pub Entries : Type 0
Entries = List (ℕ × CachedBlock)

-- The operations of the hash map: `get`, `get_mut` with an update, `remove` and `insert`.
unfoldable pub find : ℕ → Entries → Option CachedBlock
find k [] = none
find k ((j, e) ∷ entries) = if j == k then some e else find k entries

unfoldable pub change_at : ℕ → (CachedBlock → CachedBlock) → Entries → Entries
change_at k f [] = []
change_at k f ((j, e) ∷ entries) =
    let rest = change_at k f entries in if j == k then (j, f e) ∷ rest else (j, e) ∷ rest

unfoldable pub remove : ℕ → Entries → Entries
remove k [] = []
remove k ((j, e) ∷ entries) = let rest = remove k entries in if j == k then rest else (j, e) ∷ rest

pub record CachedDevice (D : Type 0) : Type 0 where
  pub device : D
  pub size : ℕ
  pub cache : Entries
  pub cached_count : ℕ
  pub lru : ℕ
  pub mru : ℕ

unfoldable pub new : {D : Type 0} → D → ℕ → CachedDevice D
new device size = record {
  device = device;
  size = max size 2;
  cache = [];
  cached_count = 0;
  lru = invalid_address;
  mru = invalid_address;
}

module _ {D : Type 0} where
  -- `self.cache.get_mut(&k).unwrap()` and an update of the entry.
  unfoldable pub change : ℕ → (CachedBlock → CachedBlock) → Op (CachedDevice D) (Unit {0})
  change k f c = elim (find k c.cache) [
    | none ↦ panic
    | some e ↦ ok tt (record c { cache = change_at k f c.cache })
  ]

  -- A hit: the entry becomes the most recently used one. The reads and the writes have this code in
  -- common.
  unfoldable pub touch : ℕ → CachedBlock → Op (CachedDevice D) (Unit {0})
  touch block entry = do
    if entry.more_recent == invalid_address then pure tt else do
      change entry.more_recent (λ b. record b { less_recent = entry.less_recent })
      if entry.less_recent == invalid_address
          then pure tt
          else change entry.less_recent (λ b. record b { more_recent = entry.more_recent })
    λ c. ok tt (
        if (c.lru == block) && not (entry.more_recent == invalid_address)
        then record c { lru = entry.more_recent }
        else c)
    λ c. change c.mru (λ b. record b { more_recent = block }) c
    λ c. change block (λ b. record b { more_recent = invalid_address; less_recent = c.mru }) c
    λ c. ok tt (record c { mru = block })

  unfoldable pub miss_update : ℕ → Op (CachedDevice D) (Unit {0})
  miss_update block = do
    λ c.
        if c.mru == invalid_address
        then ok tt (record c { lru = block })
        else change c.mru (λ b. record b { more_recent = block }) c
    λ c. ok tt (record c { mru = block })

  -- A call of the device below.
  unfoldable pub below : {A : Type 0} → Op D A → Op (CachedDevice D) A
  below op c = elim (op c.device) [
    | ok a d ↦ ok a (record c { device = d })
    | err e d ↦ err e (record c { device = d })
    | panic ↦ panic
  ]

module _ {D : Type 0} (dev : BlockDevice D) where
  unfoldable pub write_dirty : ℕ → CachedBlock → Op (CachedDevice D) (Unit {0})
  unfolding below
  write_dirty k e = if e.dirty then below (dev.write_block k e.data_) else pure tt

  -- The first half of `insert`: the least recently used block leaves a full cache.
  unfoldable pub evict : Op (CachedDevice D) (Unit {0})
  unfolding change write_dirty find
  evict c =
      let to_remove = c.lru in
      elim (find to_remove c.cache) [
        | none ↦ panic
        | some e ↦ and_then (write_dirty to_remove e c) λ _. (do
          λ c'. ok tt (record c' { lru = e.more_recent })
          λ c'. change c'.lru (λ b. record b { less_recent = invalid_address }) c'
          λ c'.
              ok tt (record c' {
                cache = remove to_remove c'.cache;
                cached_count = c'.cached_count - 1;
              }))
      ]

  unfoldable pub insert : ℕ → CachedBlock → Op (CachedDevice D) (Unit {0})
  unfolding evict
  insert block entry = do
    λ c. if leb c.size c.cached_count then evict c else ok tt c
    λ c. ok tt (record c {
      cached_count = c.cached_count + 1;
      cache = (block, entry) ∷ remove block c.cache;
    })

  unfoldable pub read_block : ℕ → Op (CachedDevice D) Block
  unfolding touch below miss_update insert
  read_block block c = elim (find block c.cache) [
    | some entry ↦ (do touch block entry; pure entry.data_) c
    | none ↦
        (do
          buf ← below (dev.read_block block)
          miss_update block
          insert block (record {
            data_ = buf;
            dirty = false;
            more_recent = invalid_address;
            less_recent = c.mru;
          })
          pure buf)
          c
  ]

  unfoldable pub write_block : ℕ → Block → Op (CachedDevice D) (Unit {0})
  unfolding touch change miss_update insert
  write_block block buf c = elim (find block c.cache) [
    | some entry ↦
        (do touch block entry; change block (λ b. record b { dirty = true; data_ = buf })) c
    | none ↦
        (do
          miss_update block
          insert block (record {
            data_ = buf;
            dirty = true;
            more_recent = invalid_address;
            less_recent = c.mru;
          }))
          c
  ]

  unfoldable pub block_count : CachedDevice D → ℕ
  block_count c = dev.block_count c.device

  unfoldable pub resize : ℕ → Op (CachedDevice D) (Unit {0})
  unfolding below
  resize blocks = below (dev.resize blocks)

  -- The blocks still to visit.
  unfoldable pub flush_loop : List ℕ → Op (CachedDevice D) (Unit {0})
  unfolding below change find
  flush_loop [] = pure tt
  flush_loop (k ∷ keys) = do
    λ c. elim (find k c.cache) [
      | none ↦ ok tt c
      | some e ↦
          (if e.dirty
              then (do
                below (dev.write_block k e.data_)
                change k (λ b. record b { dirty = false }))
              else pure tt)
            c
    ]
    flush_loop keys

  unfoldable pub flush : Op (CachedDevice D) (Unit {0})
  unfolding flush_loop
  flush c = flush_loop (map (λ p. p.0) c.cache) c
