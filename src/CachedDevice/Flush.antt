-- ===== src/CachedDevice/Flush.antt =====
-- `flush` of src/device/cached_device.rs brings the contents to the device below.
use ferris_file_system.Prelude.{
  ℕ, ◌<◌, ◌≡◌, ◌≢◌, refl, sym, ap, fun_ext, ◌⊎◌, inl, inr, Bool, true, false, Option, none, some,
  List, [], ◌∷◌, map, arith, has, ◌==◌, if◌then◌else◌, Bool-cases, Option-cases,
}
use ferris_file_system.Effect.{ok, pure, ◌>>◌}
use ferris_file_system.Effect.Returns
use ferris_file_system.Effect.Returns.{Returns, returns}
use ferris_file_system.Device.{Block, Store, IsLawful, BlockDevice}
use ferris_file_system.CachedDevice.{
  CachedBlock, CachedDevice, Entries, find, change_at, change, below, flush_loop, flush,
}
use ferris_file_system.CachedDevice.Entries.{find-change_at}
use ferris_file_system.CachedDevice.Links.{contents, get}
use ferris_file_system.CachedDevice.Coherence.{
  Holding, absent, clean, modified, Holding-data, Holding-IsBlock, Coherent, WrittenBack, write_lem,
}

-- A key that is found is one of the keys.
found-has : (k : ℕ) (xs : Entries) → (has k (map (λ p. p.0) xs) ≡ true) ⊎ (find k xs ≡ none)
unfolding find has
found-has k [] = inr refl
found-has k ((j, e) ∷ xs) = elim (Bool-cases (j == k)) [
  | inl same ↦ inl (rw same refl)
  | inr other ↦ elim (found-has k xs) [
    | inl later ↦ inl (rw other later)
    | inr gone ↦ inr (rw other gone)
  ]
]

module _ {D : Type 0} {dev : BlockDevice D} (l : IsLawful dev) (n : ℕ) where
  Settled : CachedDevice D → ℕ → Type 0
  Settled c k = (b : Block) → get c k ≢ some (b, true)

  -- The state after the write-back of a dirty entry.
  settle-Coherent :
      (c : CachedDevice D) (g : Store) (k : ℕ) (e : CachedBlock) (c1 : CachedDevice D)
      → Coherent l n c g
      → find k c.cache ≡ some e
      → WrittenBack l n c g k c1
      → Coherent l n
          (record c1 { cache = change_at k (λ b. record b { dirty = false }) c1.cache })
          g
        × ((j : ℕ)
            → Settled c j ⊎ (j ≡ k)
            → Settled
                (record c1 { cache = change_at k (λ b. record b { dirty = false }) c1.cache })
                j)
  unfolding Settled
  settle-Coherent c g k e c1 h at w =
      let f : CachedBlock → CachedBlock = λ b. record b { dirty = false } in
      let same_cache : c1.cache ≡ c.cache = ap (λ x. x.cache) w.state in
      let here : get c k ≡ some (e.data_, e.dirty) = ap contents at in
      let data_same : e.data_ ≡ g k = Holding-data (rw here at (h.entries k)) in
      let left : (j : ℕ)
          → contents (find j (change_at k f c1.cache))
            ≡ (if j == k then some (e.data_, false) else get c j) =
        λ j. elim (Bool-cases (j == k)) [
          | inl same ↦
              let eq : j ≡ k = ground (arith, same) in
              rw (find-change_at j k f c1.cache, same, same_cache, eq, at) refl
          | inr other ↦ rw (find-change_at j k f c1.cache, other, same_cache) refl
        ] in
      (
        record {
          store = w.store;
          holds = rw (ap (λ x. x.device) w.state) w.holds;
          entries = λ j. elim (Bool-cases (j == k)) [
            | inl same ↦
                let eq : j ≡ k = ground (arith, same) in
                rw (left j, same, eq, w.here, data_same) clean
            | inr other ↦ rw (left j, other) (w.others j (ground (arith, other)))
          ];
          inside = λ j p. elim (Bool-cases (j == k)) [
            | inl same ↦
                let eq : j ≡ k = ground (arith, same) in
                rw eq (h.inside k (record { entry = (e.data_, e.dirty); here = here }))
            | inr other ↦
                h.inside j (record { entry = p.entry; here = rw (left j, other) at p.here })
          ];
        },
        λ j was b eq. elim (Bool-cases (j == k)) [
          | inl same ↦ let q = rw (left j, same) at eq in absurd cc
          | inr other ↦ elim was [
            | inl settled ↦ settled b (rw (left j, other) at eq)
            | inr eq_k ↦ absurd (ground (arith, other, eq_k))
          ]
        ],
      )

  settle_step :
      (k : ℕ) (c : CachedDevice D) (g : Store)
      → Coherent l n c g
      → Returns
          (λ _ c'. Coherent l n c' g × ((j : ℕ) → Settled c j ⊎ (j ≡ k) → Settled c' j))
          (elim (find k c.cache) [
            | none ↦ ok tt c
            | some e ↦
                (if e.dirty
                    then (do
                      below (dev.write_block k e.data_)
                      change k (λ b. record b { dirty = false }))
                    else pure tt)
                  c
          ])
  unfolding Settled change
  settle_step k c g h = elim (Option-cases (find k c.cache)) [
    | inl gone ↦
        let no_entry : get c k ≡ none = ap contents gone in
        rw gone (
          returns (
            h,
            λ j was b eq. elim was [
              | inl settled ↦ settled b eq
              | inr here ↦ let q = rw (here, no_entry) at eq in absurd cc
            ],
          ))
    | inr (e, at) ↦
        let here : get c k ≡ some (e.data_, e.dirty) = ap contents at in
        let held : Holding (some (e.data_, e.dirty)) (h.store k) (g k) = rw here at (h.entries k) in
        let lt : k < n = h.inside k (record { entry = (e.data_, e.dirty); here = here }) in
        elim (Bool-cases e.dirty) [
          | inl dirty ↦
              rw (at, dirty)
                (Returns.bind
                  (write_lem l n c g k e.data_ h lt (Holding-IsBlock (rw dirty at held))
                    (Holding-data held))
                  λ _ c1 w.
                    let at1 : find k c1.cache ≡ some e = rw (ap (λ x. x.cache) w.state) at in
                    rw (change, at1) (returns (settle-Coherent c g k e c1 h at w)))
          | inr kept ↦
              rw (at, kept)
                (returns (
                  h,
                  λ j was b eq. elim was [
                    | inl settled ↦ settled b eq
                    | inr same ↦ let q = rw (same, here, kept) at eq in absurd cc
                  ],
                ))
        ]
  ]

  flush_loop_lem :
      (keys : List ℕ) (c : CachedDevice D) (g : Store)
      → Coherent l n c g
      → ((j : ℕ) → (has j keys ≡ true) ⊎ Settled c j)
      → Returns (λ _ c'. Coherent l n c' g × ((j : ℕ) → Settled c' j)) (flush_loop dev keys c)
  unfolding flush_loop has
  flush_loop_lem [] c g h was =
      returns (h, λ j. elim (was j) [ inl no_key ↦ absurd cc | inr s ↦ s ])
  flush_loop_lem (k ∷ keys) c g h was = Returns.bind (settle_step k c g h) λ _ c1 (h1, settled).
      flush_loop_lem keys c1 g h1 λ j. elim (Bool-cases (k == j)) [
        | inl same ↦ inr (settled j (inr (ground (arith, same))))
        | inr other ↦ elim (was j) [
          | inl there ↦ inl (rw other at there)
          | inr s ↦ inr (settled j (inl s))
        ]
      ]

  -- `flush` succeeds, and afterwards the device below holds, alone, the store that it and the cache
  -- stood for before; the cache stands for the same store.
  pub flush-Represents :
      (c : CachedDevice D) (g : Store)
      → Coherent l n c g
      → Returns (λ _ c'. l.Represents c'.device g n × Coherent l n c' g) (flush dev c)
  unfolding flush Settled
  flush-Represents c g h =
      Returns.mono
        (flush_loop_lem (map (λ p. p.0) c.cache) c g h λ j. elim (found-has j c.cache) [
          | inl key ↦ inl key
          | inr gone ↦ inr (λ b eq. let q = rw (ap contents gone) at eq in absurd cc)
        ])
        λ _ c1 (h1, settled).
          let same : h1.store ≡ g = fun_ext λ j. alone c1 g j h1 (settled j) in
          (rw (sym same) h1.holds, h1)
    where
      of_held :
          (o : Option (Block × Bool)) {old new : Block}
          → Holding o old new
          → ((b : Block) → o ≢ some (b, true))
          → old ≡ new
      of_held _ absent no_dirty = refl
      of_held _ clean no_dirty = refl
      of_held _ (modified ib) no_dirty = absurd (no_dirty _ refl)

      alone :
          (c1 : CachedDevice D) (g : Store) (j : ℕ) (h1 : Coherent l n c1 g)
          → ((b : Block) → get c1 j ≢ some (b, true))
          → h1.store j ≡ g j
      alone c1 g j h1 settled = of_held _ (h1.entries j) settled
