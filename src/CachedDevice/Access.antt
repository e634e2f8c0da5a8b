-- ===== src/CachedDevice/Access.antt =====
-- `read_block` and `write_block` of src/device/cached_device.rs against the contents that the cache
-- stands for.
use ferris_file_system.Prelude.{
  ℕ, ◌<◌, ◌≤◌, ◌≡◌, ◌≢◌, refl, ap, ◌∙◌, inl, inr, true, false, none, some, arith, leb, ◌==◌,
  if◌then◌else◌, Bool-cases, Option-cases,
}
use ferris_file_system.Effect.{ok, ◌>>◌}
use ferris_file_system.Effect.Returns
use ferris_file_system.Effect.Returns.{Returns, returns}
use ferris_file_system.Device.{
  Block, Store, IsBlock, IsLawful, BlockDevice, update, invalid_address,
}
use ferris_file_system.CachedDevice.{
  CachedBlock, CachedDevice, find, change_at, change, miss_update, evict, insert, read_block,
  write_block,
}
use ferris_file_system.CachedDevice.Entries.{find-change_at, find-remove}
use ferris_file_system.CachedDevice.Links.{
  contents, get, Cached, entry_of, move, change_links, touch_lem,
}
use ferris_file_system.CachedDevice.Coherence.{
  Holding, absent, clean, modified, Holding-data, Holding-none, Coherent, move-Coherent,
  WrittenBack, below_lem, write_dirty_lem,
}
use ferris_file_system.CachedDevice.Misses.{
  Oldest, HasRoom, HasRoom-new_device, Ready, neighbours, room_of, miss_update_lem,
}

module _ {D : Type 0} {dev : BlockDevice D} (l : IsLawful dev) (n : ℕ) where
  -- After `insert` has made room.
  pub record Roomy (c : CachedDevice D) (g : Store) (c' : CachedDevice D) : Type 0 where
    pub coherent : Coherent l n c' g
    pub still : (k : ℕ) → get c k ≡ none → get c' k ≡ none

  removed-Coherent :
      (c : CachedDevice D) (g : Store) (r : ℕ) (c1 c2 : CachedDevice D)
      → Coherent l n c g
      → WrittenBack l n c g r c1
      → c2.device ≡ c1.device
      → ((k : ℕ) → get c2 k ≡ (if k == r then none else get c k))
      → Roomy c g c2
  removed-Coherent c g r c1 c2 h w same_device left = record {
    coherent = record {
      store = w.store;
      holds = rw (same_device, ap (λ x. x.device) w.state) w.holds;
      entries = λ k. elim (Bool-cases (k == r)) [
        | inl e ↦ let here : k ≡ r = ground (arith, e) in rw (left k, e, here, w.here) absent
        | inr ne ↦ rw (left k, ne) (w.others k (ground (arith, ne)))
      ];
      inside = λ k p. elim (Bool-cases (k == r)) [
        | inl e ↦ let gone : none ≡ some p.entry = rw (left k, e) at p.here in absurd cc
        | inr ne ↦ h.inside k (record { entry = p.entry; here = rw (left k, ne) at p.here })
      ];
    };
    still = λ k no_entry. elim (Bool-cases (k == r)) [
      | inl e ↦ rw (left k, e) refl
      | inr ne ↦ rw (left k, ne) no_entry
    ];
  }

  evict_lem :
      (c : CachedDevice D) (g : Store)
      → Coherent l n c g
      → Oldest c
      → Returns (λ _ c'. Roomy c g c') (evict dev c)
  unfolding evict
  evict_lem c g h o =
      rw (evict, o.here)
        (Returns.bind (write_dirty_lem l n c g c.lru o.entry h o.here) λ _ c1 w.
          let cache1 : c1.cache ≡ c.cache = ap (λ x. x.cache) w.state in
          let next : Cached (record c1 { lru = o.entry.more_recent }) o.entry.more_recent = record {
            entry = o.newer.entry;
            here = rw cache1 o.newer.here;
          } in
          Returns.bind
            (change_links o.entry.more_recent (λ b. record b { less_recent = invalid_address })
              (record c1 { lru = o.entry.more_recent }) (λ b. (refl, refl)) next)
            λ _ c2 s. returns (
              removed-Coherent c g c.lru c1 _ h w s.agrees.device λ k.
                elim (Bool-cases (k == c.lru)) [
                  | inl e ↦ rw (find-remove k c.lru c2.cache, e) refl
                  | inr ne ↦
                      rw (find-remove k c.lru c2.cache, ne)
                        (s.agrees.same k ∙ ap (λ x. contents (find k x)) cache1)
                ]))

  -- `insert` puts the entry over the contents, and changes no other block of them.
  insert_lem :
      (c : CachedDevice D) (g g' : Store) (block : ℕ) (e : CachedBlock)
      → Coherent l n c g
      → (c.size ≤ c.cached_count → Oldest c)
      → get c block ≡ none
      → block < n
      → Holding (some (e.data_, e.dirty)) (g block) (g' block)
      → ((k : ℕ) → k ≢ block → g' k ≡ g k)
      → Returns (λ _ c'. Coherent l n c' g') (insert dev block e c)
  unfolding insert find
  insert_lem c g g' block e h oldest no_entry lt held others = Returns.bind room λ _ c1 r.
      let below_same : r.coherent.store block ≡ g block =
        Holding-none (rw (r.still block no_entry) at (r.coherent.entries block)) in
      returns (record {
        store = r.coherent.store;
        holds = r.coherent.holds;
        entries = λ k. elim (Bool-cases (block == k)) [
          | inl same ↦
              let here : k ≡ block = ground (arith, same) in rw (same, here, below_same) held
          | inr other ↦
              let ne : k ≢ block = ground (arith, other) in
              let no : (k == block) ≡ false = ground (arith, other) in
              rw (other, find-remove k block c1.cache, no, others k ne) (r.coherent.entries k)
        ];
        inside = λ k p. elim (Bool-cases (block == k)) [
          | inl same ↦ let here : k ≡ block = ground (arith, same) in rw here lt
          | inr other ↦
              let no : (k == block) ≡ false = ground (arith, other) in
              r.coherent.inside k (record {
                entry = p.entry;
                here = rw (other, find-remove k block c1.cache, no) at p.here;
              })
        ];
      })
    where
      room :
          Returns
            (λ _ c1. Roomy c g c1)
            (if leb c.size c.cached_count then evict dev c else ok tt c)
      room = elim (Bool-cases (leb c.size c.cached_count)) [
        | inl full ↦ rw full (evict_lem c g h (oldest (ground (arith, full))))
        | inr free ↦ rw free (returns (record { coherent = h; still = λ k e. e }))
      ]

  -- A miss: the links are updated and the entry is inserted.
  miss_lem :
      (c : CachedDevice D) (g g' : Store) (block : ℕ) (e : CachedBlock)
      → Coherent l n c g
      → HasRoom c
      → get c block ≡ none
      → block < n
      → Holding (some (e.data_, e.dirty)) (g block) (g' block)
      → ((k : ℕ) → k ≢ block → g' k ≡ g k)
      → Returns (λ _ c'. Coherent l n c' g') ((miss_update block >> insert dev block e) c)
  miss_lem c g g' block e h room no_entry lt held others =
      Returns.bind (miss_update_lem block c room) λ _ c1 m.
        insert_lem c1 g g' block e (move-Coherent l n m.agrees h) m.oldest
          (m.agrees.same block ∙ no_entry) lt held others

  -- A hit of a write.
  overwritten :
      (c : CachedDevice D) (g : Store) (block : ℕ) (buf : Block) (e : CachedBlock)
      → Coherent l n c g
      → find block c.cache ≡ some e
      → block < n
      → IsBlock buf
      → Coherent l n
          (record c {
            cache = change_at block (λ b. record b { dirty = true; data_ = buf }) c.cache;
          })
          (update g block buf)
  unfolding update
  overwritten c g block buf e h at lt ib =
      let f : CachedBlock → CachedBlock = λ b. record b { dirty = true; data_ = buf } in
      record {
        store = h.store;
        holds = h.holds;
        entries = λ k. elim (Bool-cases (k == block)) [
          | inl same ↦
              let here : k ≡ block = ground (arith, same) in
              let back : (block == k) ≡ true = ground (arith, same) in
              rw (find-change_at k block f c.cache, same, here, at)
                (let self : (block == block) ≡ true = ground arith in rw self (modified ib))
          | inr other ↦
              let back : (block == k) ≡ false = ground (arith, other) in
              rw (find-change_at k block f c.cache, other, back) (h.entries k)
        ];
        inside = λ k p. elim (Bool-cases (k == block)) [
          | inl same ↦ let here : k ≡ block = ground (arith, same) in rw here lt
          | inr other ↦ h.inside k (record {
            entry = p.entry;
            here = rw (find-change_at k block f c.cache, other) at p.here;
          })
        ];
      }

  -- A block below the device's end is read, in the cache or not: the read returns the block that the
  -- cache and the device stand for, and leaves what they stand for as it was. The condition is that
  -- the blocks whose links it updates are in the cache.
  pub read_block-Coherent :
      (c : CachedDevice D) (g : Store) (block : ℕ)
      → Coherent l n c g
      → Ready c block (find block c.cache)
      → block < n
      → Returns (λ b c'. (b ≡ g block) × Coherent l n c' g) (read_block dev block c)
  unfolding read_block
  read_block-Coherent c g block h ready lt = elim (Option-cases (find block c.cache)) [
    | inl gone ↦
        let no_entry : get c block ≡ none = ap contents gone in
        let same : h.store block ≡ g block = Holding-none (rw no_entry at (h.entries block)) in
        let room = room_of (rw gone at ready) in
        rw (read_block, gone)
          (Returns.bind
            (below_lem l n (dev.read_block block) c
              (l.read_lem c.device h.store n block h.holds lt))
            λ buf c1 (d', state, (got, r)).
              let h1 : Coherent l n (record c { device = d' }) g = record {
                store = h.store;
                holds = r;
                entries = h.entries;
                inside = λ k p. h.inside k (record { entry = p.entry; here = p.here });
              } in
              rw (state, got)
                (Returns.bind
                  (miss_update_lem block (record c { device = d' }) (HasRoom-new_device c d' room))
                  λ _ c2 m.
                    Returns.bind
                      (insert_lem c2 g g block
                        (record {
                          data_ = h.store block;
                          dirty = false;
                          more_recent = invalid_address;
                          less_recent = c.mru;
                        })
                        (move-Coherent l n m.agrees h1) m.oldest (m.agrees.same block ∙ no_entry) lt
                        (rw same clean) (λ k ne. refl))
                      λ _ c3 h3. returns (same, h3)))
    | inr (e, at) ↦
        let here : get c block ≡ some (e.data_, e.dirty) = ap contents at in
        rw (read_block, at)
          (Returns.bind
            (touch_lem block e c (record { entry = (e.data_, e.dirty); here = here })
              (neighbours (rw at at ready)))
            λ _ c1 a. returns (Holding-data (rw here at (h.entries block)), move-Coherent l n a h))
  ]

  -- A block below the device's end is written, in the cache or not: afterwards the cache and the
  -- device stand for the store with this block replaced. The condition is that of `read_block`.
  pub write_block-Coherent :
      (c : CachedDevice D) (g : Store) (block : ℕ) (buf : Block)
      → Coherent l n c g
      → Ready c block (find block c.cache)
      → block < n
      → IsBlock buf
      → Returns (λ _ c'. Coherent l n c' (update g block buf)) (write_block dev block buf c)
  unfolding write_block update change
  write_block-Coherent c g block buf h ready lt ib =
      let self : (block == block) ≡ true = ground arith in
      let others : (k : ℕ) → k ≢ block → update g block buf k ≡ g k =
        λ k ne. let no : (block == k) ≡ false = ground (arith, ne) in rw no refl in
      elim (Option-cases (find block c.cache)) [
        | inl gone ↦
            rw (write_block, gone)
              (miss_lem c g (update g block buf) block _ h (room_of (rw gone at ready))
                (ap contents gone) lt (rw self (modified ib)) others)
        | inr (e, at) ↦
            let here : get c block ≡ some (e.data_, e.dirty) = ap contents at in
            let p : Cached c block = record { entry = (e.data_, e.dirty); here = here } in
            rw (write_block, at)
              (Returns.bind (touch_lem block e c p (neighbours (rw at at ready))) λ _ c1 a.
                let h1 = move-Coherent l n a h in
                let (e1, at1) = entry_of (move a p) in
                rw (change, at1) (returns (overwritten c1 g block buf e1 h1 at1 lt ib)))
      ]
