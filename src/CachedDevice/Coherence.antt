-- ===== src/CachedDevice/Coherence.antt =====
-- The contents that a cache of src/device/cached_device.rs stands for: those of the device below,
-- with the blocks in the cache put over them.
use ferris_file_system.Prelude.{
  ℕ, ◌<◌, ◌≡◌, ◌≢◌, refl, sym, ap, ◌∙◌, inl, inr, Bool, true, false, Option, none, some, arith,
  ◌==◌, Bool-cases,
}
use ferris_file_system.Effect.{ok, err, panic, Op}
use ferris_file_system.Effect.Returns
use ferris_file_system.Effect.Returns.{Returns, returns}
use ferris_file_system.Device.{Block, Store, IsBlock, IsLawful, BlockDevice, update}
use ferris_file_system.CachedDevice.{CachedBlock, CachedDevice, new, find, below, write_dirty}
use ferris_file_system.CachedDevice.Links.{contents, get, Agrees, Cached}

-- What the cache holds of a block, what the device below holds, and what the two stand for.
pub data Holding : Option (Block × Bool) → Block → Block → Type 0 where
  absent : {b : Block} → Holding none b b
  clean : {b : Block} → Holding (some (b, false)) b b
  modified : {old b : Block} → IsBlock b → Holding (some (b, true)) old b

pub Holding-data : {b old new : Block} {d : Bool} → Holding (some (b, d)) old new → b ≡ new
Holding-data clean = refl
Holding-data (modified ib) = refl

pub Holding-none : {old new : Block} → Holding none old new → old ≡ new
Holding-none absent = refl

pub Holding-clean : {b old new : Block} → Holding (some (b, false)) old new → old ≡ new
Holding-clean clean = refl

pub Holding-IsBlock : {b old new : Block} → Holding (some (b, true)) old new → IsBlock b
Holding-IsBlock (modified ib) = ib

module _ {D : Type 0} {dev : BlockDevice D} (l : IsLawful dev) (n : ℕ) where
  -- The cache and the device below stand for the store `g` of `n` blocks.
  pub record Coherent (c : CachedDevice D) (g : Store) : Type 0 where
    pub store : Store
    pub holds : l.Represents c.device store n
    pub entries : (k : ℕ) → Holding (get c k) (store k) (g k)
    pub inside : (k : ℕ) → Cached c k → k < n

  pub move-Coherent :
      {c c' : CachedDevice D} {g : Store} → Agrees c c' → Coherent c g → Coherent c' g
  move-Coherent {c} {c'} {g} a h = record {
    store = h.store;
    holds = rw a.device h.holds;
    entries = λ k. rw (a.same k) (h.entries k);
    inside = λ k p. h.inside k (record { entry = p.entry; here = sym (a.same k) ∙ p.here });
  }

  -- The device after the write-back of an entry: its block is now the one that it stands for.
  pub record WrittenBack (c : CachedDevice D) (g : Store) (r : ℕ) (c' : CachedDevice D)
      : Type 0 where
    pub device : D
    pub store : Store
    pub state : c' ≡ record c { device = device }
    pub holds : l.Represents device store n
    pub here : store r ≡ g r
    pub others : (k : ℕ) → k ≢ r → Holding (get c k) (store k) (g k)

  pub below_lem :
      {A : Type 0} {P : A → D → Type 0} (op : Op D A) (c : CachedDevice D)
      → Returns P (op c.device)
      → Returns (λ a c'. (d : D) × (c' ≡ record c { device = d }) × P a d) (below op c)
  unfolding below
  below_lem {P = P} op c p = passed p
    where
      passed :
          {run : _}
          → Returns P run
          → Returns
              (λ a c'. (d : D) × (c' ≡ record c { device = d }) × P a d)
              (elim run [
                | ok a d ↦ ok a (record c { device = d })
                | err e d ↦ err e (record c { device = d })
                | panic ↦ panic
              ])
      passed (returns p) = returns (_, refl, p)

  pub write_lem :
      (c : CachedDevice D) (g : Store) (r : ℕ) (b : Block)
      → (h : Coherent c g) → r < n
      → IsBlock b
      → b ≡ g r
      → Returns (λ _ c'. WrittenBack c g r c') (below (dev.write_block r b) c)
  unfolding update
  write_lem c g r b h lt ib e =
      Returns.mono
        (below_lem (dev.write_block r b) c (l.write_lem c.device h.store n r b h.holds lt ib))
        λ _ c' (d', same, p). record {
          device = d';
          store = update h.store r b;
          state = same;
          holds = p;
          here = let self : (r == r) ≡ true = ground arith in rw self e;
          others = λ k ne. let no : (r == k) ≡ false = ground (arith, ne) in rw no (h.entries k);
        }

  -- The write-back of an entry that may be clean.
  pub write_dirty_lem :
      (c : CachedDevice D) (g : Store) (r : ℕ) (e : CachedBlock)
      → Coherent c g
      → find r c.cache ≡ some e
      → Returns (λ _ c'. WrittenBack c g r c') (write_dirty dev r e c)
  unfolding write_dirty
  write_dirty_lem c g r e h at =
      let here : get c r ≡ some (e.data_, e.dirty) = ap contents at in
      let held : Holding (some (e.data_, e.dirty)) (h.store r) (g r) = rw here at (h.entries r) in
      let lt : r < n = h.inside r (record { entry = (e.data_, e.dirty); here = here }) in
      elim (Bool-cases e.dirty) [
        | inl dirty ↦
            rw dirty (
              write_lem c g r e.data_ h lt (Holding-IsBlock (rw dirty at held)) (Holding-data held))
        | inr kept ↦ rw kept (
            returns (record {
              device = c.device;
              store = h.store;
              state = refl;
              holds = h.holds;
              here = Holding-clean (rw kept at held);
              others = λ k ne. h.entries k;
            }))
      ]

  -- A new cache is empty, so it stands for what the device below holds.
  pub new-Coherent : (d : D) (f : Store) (size : ℕ) → l.Represents d f n → Coherent (new d size) f
  unfolding new find
  new-Coherent d f size r = record {
    store = f;
    holds = r;
    entries = λ k. absent;
    inside = λ k p. let gone : none ≡ some p.entry = p.here in absurd cc;
  }
