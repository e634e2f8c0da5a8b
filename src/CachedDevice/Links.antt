-- ===== src/CachedDevice/Links.antt =====
-- What the updates of the links in src/device/cached_device.rs leave alone: the cached data.
use ferris_file_system.Prelude.{
  ℕ, ◌≡◌, ◌≢◌, refl, sym, ◌∙◌, ◌⊎◌, inl, inr, Bool, true, false, not, ◌&&◌, Option, none, some,
  arith, ◌==◌, if◌then◌else◌, Bool-cases, Option-cases,
}
use ferris_file_system.Effect.{◌>>◌, pure}
use ferris_file_system.Effect.Returns
use ferris_file_system.Effect.Returns.{Returns, returns}
use ferris_file_system.Device.{Block, invalid_address}
use ferris_file_system.CachedDevice.{CachedBlock, CachedDevice, find, change_at, change, touch}
use ferris_file_system.CachedDevice.Entries.{on_some, find-change_at}

-- The data and the dirty flag of an entry.
abbrev pub contents : Option CachedBlock → Option (Block × Bool)
contents none = none
contents (some e) = some (e.data_, e.dirty)

pub contents-on_some :
    (f : CachedBlock → CachedBlock) (o : Option CachedBlock)
    → ((e : CachedBlock) → ((f e).data_ ≡ e.data_) × ((f e).dirty ≡ e.dirty))
    → contents (on_some f o) ≡ contents o
contents-on_some f none keeps = refl
contents-on_some f (some e) keeps = λ i. some ((keeps e).0 i, (keeps e).1 i)

module _ {D : Type 0} where
  abbrev pub get : CachedDevice D → ℕ → Option (Block × Bool)
  get c k = contents (find k c.cache)

  -- Only links differ.
  pub record Agrees (c c' : CachedDevice D) : Type 0 where
    pub device : c'.device ≡ c.device
    pub same : (k : ℕ) → get c' k ≡ get c k

  pub Agrees-trans : {a b c : CachedDevice D} → Agrees a b → Agrees b c → Agrees a c
  Agrees-trans p q = record { device = q.device ∙ p.device; same = λ k. q.same k ∙ p.same k }

  -- The block is in the cache.
  pub record Cached (c : CachedDevice D) (k : ℕ) : Type 0 where
    pub entry : Block × Bool
    pub here : get c k ≡ some entry

  pub move : {c c' : CachedDevice D} {k : ℕ} → Agrees c c' → Cached c k → Cached c' k
  move {k = k} a p = record { entry = p.entry; here = a.same k ∙ p.here }

  pub entry_of :
      {c : CachedDevice D} {k : ℕ} → Cached c k → (e : CachedBlock) × (find k c.cache ≡ some e)
  entry_of {c} {k} p = elim (Option-cases (find k c.cache)) [
    | inl gone ↦ let h : none ≡ some p.entry = rw gone at p.here in absurd (cc)
    | inr there ↦ there
  ]

  pub record SameLinks (c c' : CachedDevice D) : Type 0 where
    pub agrees : Agrees c c'
    pub lru : c'.lru ≡ c.lru
    pub mru : c'.mru ≡ c.mru

  pub changed-SameLinks :
      (k : ℕ) (f : CachedBlock → CachedBlock) (c : CachedDevice D)
      → ((e : CachedBlock) → ((f e).data_ ≡ e.data_) × ((f e).dirty ≡ e.dirty))
      → SameLinks c (record c { cache = change_at k f c.cache })
  changed-SameLinks k f c keeps = record {
    agrees = record {
      device = refl;
      same = λ j. elim (Bool-cases (j == k)) [
        | inl same ↦
            rw (find-change_at j k f c.cache, same) (contents-on_some f (find j c.cache) keeps)
        | inr other ↦ rw (find-change_at j k f c.cache, other) refl
      ];
    };
    lru = refl;
    mru = refl;
  }

  pub change_links :
      (k : ℕ) (f : CachedBlock → CachedBlock) (c : CachedDevice D)
      → ((e : CachedBlock) → ((f e).data_ ≡ e.data_) × ((f e).dirty ≡ e.dirty))
      → Cached c k
      → Returns (λ _ c'. SameLinks c c') (change k f c)
  unfolding change
  change_links k f c keeps p =
      let (e, at) = entry_of p in rw (change, at) (returns (changed-SameLinks k f c keeps))

  -- An address in a link is none, or that of a cached block.
  abbrev pub LinkOk : CachedDevice D → ℕ → Type 0
  LinkOk c k = (k ≡ invalid_address) ⊎ Cached c k

  -- The blocks that a hit updates are in the cache.
  pub record Linked (c : CachedDevice D) (e : CachedBlock) : Type 0 where
    pub more : LinkOk c e.more_recent
    pub less : LinkOk c e.less_recent
    pub mru : Cached c c.mru

  same_links : (c : CachedDevice D) → SameLinks c c
  same_links c = record {
    agrees = record { device = refl; same = λ j. refl };
    lru = refl;
    mru = refl;
  }

  change_if :
      (k : ℕ) (f : CachedBlock → CachedBlock) (c : CachedDevice D)
      → ((e : CachedBlock) → ((f e).data_ ≡ e.data_) × ((f e).dirty ≡ e.dirty))
      → LinkOk c k
      → Returns (λ _ c'. SameLinks c c') ((if k == invalid_address then pure tt else change k f) c)
  change_if k f c keeps (inl none_there) =
      let yes_none : (k == invalid_address) ≡ true = ground (arith, none_there) in
      rw yes_none (returns (same_links c))
  change_if k f c keeps (inr there) = elim (Bool-cases (k == invalid_address)) [
    | inl same ↦ rw same (returns (same_links c))
    | inr other ↦ rw other (change_links k f c keeps there)
  ]

  move_link : {c c' : CachedDevice D} {k : ℕ} → Agrees c c' → LinkOk c k → LinkOk c' k
  move_link a (inl e) = inl e
  move_link a (inr p) = inr (move a p)

  -- The neighbours of the entry are linked to each other.
  unlink_lem :
      (e : CachedBlock) (c : CachedDevice D)
      → Linked c e
      → Returns
          (λ _ c'. SameLinks c c')
          ((if e.more_recent == invalid_address then pure tt else do
            change e.more_recent (λ b. record b { less_recent = e.less_recent })
            if e.less_recent == invalid_address
                then pure tt
                else change e.less_recent (λ b. record b { more_recent = e.more_recent }))
            c)
  unlink_lem e c linked = elim (Bool-cases (e.more_recent == invalid_address)) [
    | inl newest ↦ rw newest (returns (same_links c))
    | inr older ↦
        let more : Cached c e.more_recent = known linked.more (ground (arith, older)) in
        rw older (
          Returns.bind
            (change_links e.more_recent (λ b. record b { less_recent = e.less_recent }) c
              (λ b. (refl, refl)) more)
            λ _ c1 s1.
              Returns.mono
                (change_if e.less_recent (λ b. record b { more_recent = e.more_recent }) c1
                  (λ b. (refl, refl)) (move_link s1.agrees linked.less))
                λ _ c2 s2. record {
                  agrees = Agrees-trans s1.agrees s2.agrees;
                  lru = s2.lru ∙ s1.lru;
                  mru = s2.mru ∙ s1.mru;
                })
  ]
    where
      known : LinkOk c e.more_recent → e.more_recent ≢ invalid_address → Cached c e.more_recent
      known (inl eq) ne = absurd (ne eq)
      known (inr p) ne = p

  set_lru : CachedDevice D → ℕ → Bool → CachedDevice D
  set_lru c k b = if b then record c { lru = k } else c

  set_lru_lem :
      (c : CachedDevice D) (k : ℕ) (b : Bool)
      → Agrees c (set_lru c k b) × ((set_lru c k b).mru ≡ c.mru)
  unfolding set_lru
  set_lru_lem c k true = (record { device = refl; same = λ j. refl }, refl)
  set_lru_lem c k false = (record { device = refl; same = λ j. refl }, refl)

  -- A hit moves links alone, if the blocks that it updates are cached.
  pub touch_lem :
      (block : ℕ) (e : CachedBlock) (c : CachedDevice D)
      → Cached c block
      → Linked c e
      → Returns (λ _ c'. Agrees c c') (touch block e c)
  unfolding touch set_lru
  touch_lem block e c here linked = Returns.bind (unlink_lem e c linked) λ _ c1 s1.
      let (a2, m2) =
        set_lru_lem c1 e.more_recent
          ((c1.lru == block) && not (e.more_recent == invalid_address)) in
      let a12 = Agrees-trans s1.agrees a2 in
      let mru_here : Cached _ c.mru = move a12 linked.mru in
      Returns.bind
        (change_links _ (λ b. record b { more_recent = block }) _ (λ b. (refl, refl))
          (rw (sym (m2 ∙ s1.mru)) at mru_here))
        λ _ c3 s3.
          let a123 = Agrees-trans a12 s3.agrees in
          Returns.bind
            (change_links block
              (λ b. record b { more_recent = invalid_address; less_recent = c3.mru }) c3
              (λ b. (refl, refl)) (move a123 here))
            λ _ c4 s4.
              let a = Agrees-trans a123 s4.agrees in
              returns (record { device = a.device; same = a.same })
