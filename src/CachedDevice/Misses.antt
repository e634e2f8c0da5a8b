-- ===== src/CachedDevice/Misses.antt =====
-- `miss_update` of src/device/cached_device.rs, and the blocks whose links an access updates.
use ferris_file_system.Prelude.{
  ℕ, ◌≤◌, ◌≡◌, ◌≢◌, refl, inl, inr, false, Option, none, some, arith, ◌==◌, Bool-cases,
}
use ferris_file_system.Effect.Returns.{Returns, returns}
use ferris_file_system.Device.{invalid_address}
use ferris_file_system.CachedDevice.{
  CachedBlock, CachedDevice, find, change_at, change, miss_update,
}
use ferris_file_system.CachedDevice.Entries.{find-change_at}
use ferris_file_system.CachedDevice.Links.{
  Agrees, Cached, entry_of, move, LinkOk, Linked, changed-SameLinks,
}

module _ {D : Type 0} where
  -- The least recently used block can leave: it is cached, and so is the next one.
  pub record Oldest (c : CachedDevice D) : Type 0 where
    pub entry : CachedBlock
    pub here : find c.lru c.cache ≡ some entry
    pub newer : Cached c entry.more_recent

  -- The same before `miss_update`, which writes to the most recently used block.
  pub record Evictable (c : CachedDevice D) : Type 0 where
    pub oldest : Oldest c
    pub known : c.mru ≢ invalid_address
    pub apart : c.lru ≢ c.mru

  -- The blocks that a miss updates are in the cache.
  pub record HasRoom (c : CachedDevice D) : Type 0 where
    pub newest : LinkOk c c.mru
    pub full : c.size ≤ c.cached_count → Evictable c

  new_device : (c : CachedDevice D) (d : D) → CachedDevice D
  new_device c d = record c { device = d }

  same_entries : (c : CachedDevice D) (d : D) (k : ℕ) → Cached c k → Cached (new_device c d) k
  unfolding new_device
  same_entries c d k p = record { entry = p.entry; here = p.here }

  pub HasRoom-new_device :
      (c : CachedDevice D) (d : D) → HasRoom c → HasRoom (record c { device = d })
  unfolding new_device
  HasRoom-new_device c d room = record {
    newest = elim room.newest [ inl e ↦ inl e | inr p ↦ inr (same_entries c d c.mru p) ];
    full = λ full.
        let ev = room.full full in
        record {
          oldest = record {
            entry = ev.oldest.entry;
            here = ev.oldest.here;
            newer = same_entries c d ev.oldest.entry.more_recent ev.oldest.newer;
          };
          known = ev.known;
          apart = ev.apart;
        };
  }

  -- The blocks that an access updates are in the cache: the neighbours of a hit, or those of a miss.
  pub data Ready (c : CachedDevice D) (block : ℕ) : Option CachedBlock → Type 0 where
    hit : {e : CachedBlock} → Linked c e → Ready c block (some e)
    miss : HasRoom c → Ready c block none

  pub neighbours :
      {c : CachedDevice D} {block : ℕ} {e : CachedBlock} → Ready c block (some e) → Linked c e
  neighbours (hit linked) = linked

  pub room_of : {c : CachedDevice D} {block : ℕ} → Ready c block none → HasRoom c
  room_of (miss room) = room

  -- What `miss_update` leaves.
  pub record Missed (c c' : CachedDevice D) : Type 0 where
    pub agrees : Agrees c c'
    pub oldest : c'.size ≤ c'.cached_count → Oldest c'

  pub miss_update_lem :
      (block : ℕ) (c : CachedDevice D)
      → HasRoom c
      → Returns (λ _ c'. Missed c c') (miss_update block c)
  unfolding miss_update change
  miss_update_lem block c room = elim (Bool-cases (c.mru == invalid_address)) [
    | inl first ↦ rw first (
        returns {s = record c { lru = block; mru = block }} (record {
          agrees = record { device = refl; same = λ k. refl };
          oldest = λ full. absurd ((room.full full).known (ground (arith, first)));
        }))
    | inr later ↦
        let f : CachedBlock → CachedBlock = λ b. record b { more_recent = block } in
        let mru : Cached c c.mru = known room.newest (ground (arith, later)) in
        let (e, at) = entry_of mru in
        let s = changed-SameLinks c.mru f c (λ b. (refl, refl)) in
        rw (later, change, at)
          (returns {s = record c { cache = change_at c.mru f c.cache; mru = block }} (record {
            agrees = record { device = refl; same = s.agrees.same };
            oldest = λ full.
                let ev = room.full full in
                let other : (c.lru == c.mru) ≡ false = ground (arith, ev.apart) in
                record {
                  entry = ev.oldest.entry;
                  here = rw (find-change_at c.lru c.mru f c.cache, other) ev.oldest.here;
                  newer =
                      let p = move s.agrees ev.oldest.newer in
                      record { entry = p.entry; here = p.here };
                };
          }))
  ]
    where
      known : LinkOk c c.mru → c.mru ≢ invalid_address → Cached c c.mru
      known (inl e) ne = absurd (ne e)
      known (inr p) ne = p
