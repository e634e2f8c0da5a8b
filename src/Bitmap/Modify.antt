-- ===== src/Bitmap/Modify.antt =====
-- `modify`, `allocate`, `deallocate` and `is_allocated` of src/formats/v1/bitmap_allocator.rs against
-- the view of the bitmap. The loop writes a block only when it leaves it.
use ferris_file_system.Prelude.{
  ℕ, ◌+◌, ◌/◌, ◌%◌, ◌<◌, ◌≤◌, ◌≡◌, refl, sym, fun_ext, ◌⊎◌, inl, inr, Bool, true, false, List, [],
  ◌∷◌, arith, get_or, set, ltb, ◌==◌, if◌then◌else◌, Bool-cases, All, has, u32_mod, add32,
}
use ferris_file_system.Effect.Returns
use ferris_file_system.Effect.Returns.{Returns, returns}
use ferris_file_system.Device.{
  Block, Store, IsBlock, IsLawful, BlockDevice, update, zero_block, invalid_address,
}
use ferris_file_system.Bitmap.{
  BitmapAllocator, unpack_index, write_back, modify_loop, modify, last_of, allocate, deallocate,
  is_allocated,
}
use ferris_file_system.Bitmap.View.{
  bit_of, Assigns, set_bit-Assigns, clear_bit-Assigns, assign, assign_all, set-IsBlock,
  bit_of-assign_all, assign_all_outside,
}

-- The bitmap lies inside a device of `n` blocks, which a `u32` counts.
pub record IsPlaced (a : BitmapAllocator) (n : ℕ) : Type 0 where
  pub fits : a.start + a.size ≤ n
  pub small : n < u32_mod

-- The index has a bit in one of the bitmap's blocks.
abbrev pub InMap : BitmapAllocator → ℕ → Type 0
InMap a b = b / 8 / 256 < a.size

-- The store with the block that the loop holds back.
pending : ℕ → Store → ℕ → Block → Store
pending start f cached buf = if cached == invalid_address then f else update f (start + cached) buf

update-update : (f : Store) (i : ℕ) (b c : Block) → update (update f i b) i c ≡ update f i c
unfolding update
update-update f i b c = fun_ext λ j. ground arith

update_self : (f : Store) (i : ℕ) (b : Block) → update f i b i ≡ b
unfolding update
update_self f i b = ground arith

module _ {D : Type 0} {dev : BlockDevice D} (l : IsLawful dev) (a : BitmapAllocator) (n : ℕ)
    (placed : IsPlaced a n) where
  open a use {start, size}

  -- What the loop holds: nothing yet, or a block of the bitmap.
  Held : ℕ → Block → Type 0
  Held cached buf = (cached ≡ invalid_address) ⊎ ((cached < size) × IsBlock buf)

  write_back_lem :
      (d : D) (f : Store) (cached : ℕ) (buf : Block)
      → l.Represents d f n
      → Held cached buf
      → Returns
          (λ _ d'. l.Represents d' (pending start f cached buf) n)
          (write_back dev cached start buf d)
  unfolding write_back pending Held
  write_back_lem d f cached buf r (inl e) = rw e (returns r)
  write_back_lem d f cached buf r (inr (lt, ib)) =
      let no_mark : (cached == invalid_address) ≡ false =
        ground (arith, placed.fits, placed.small) in
      let addr : add32 cached start ≡ start + cached = omega (arith, placed.fits, placed.small) in
      rw (no_mark, addr) (l.write_lem d f n (start + cached) buf r (omega (arith, placed.fits)) ib)

  Held-IsBlock :
      (f : Store) (cached : ℕ) (buf : Block)
      → ((i : ℕ) → IsBlock (f i))
      → Held cached buf
      → (i : ℕ) → IsBlock (pending start f cached buf i)
  unfolding pending Held update
  Held-IsBlock f cached buf ib (inl e) i = rw e (ib i)
  Held-IsBlock f cached buf ib (inr (lt, is)) i = elim (Bool-cases (cached == invalid_address)) [
    | inl e ↦ rw e (ib i)
    | inr e ↦
        rw e (elim (Bool-cases (start + cached == i)) [ inl at ↦ rw at is | inr at ↦ rw at (ib i) ])
  ]

  block_number_lem :
      (cached : ℕ) (buf : Block)
      → Held cached buf
      → (b : ℕ) → InMap a b
      → b / 8 / 256 ≡ cached
      → IsBlock buf
  unfolding Held
  block_number_lem cached buf (inl e) b h eq = absurd (omega (arith, placed.fits, placed.small))
  block_number_lem cached buf (inr (_, is)) b h eq = is

  module _ {op : ℕ → ℕ → ℕ} {v : Bool} (o : Assigns op v) where
    -- The byte of `b` is changed in a buffer that holds its block.
    changed : ℕ → Block → Block
    changed b buf = set buf (b / 8 % 256) (op (get_or buf (b / 8 % 256) 0) (b % 8))

    changed-IsBlock : (b : ℕ) (buf : Block) → IsBlock buf → IsBlock (changed b buf)
    unfolding changed
    changed-IsBlock b buf is =
        set-IsBlock _ _ _ (omega arith) (o.range _ _ (is.byte _) (omega arith)) is

    -- A change in the buffer is the change in the store that the buffer stands for.
    pending-changed :
        (f : Store) (b : ℕ) (buf : Block)
        → InMap a b
        → f (start + b / 8 / 256) ≡ buf
        → pending start f (b / 8 / 256) (changed b buf) ≡ assign op start f b
    unfolding pending changed assign
    pending-changed f b buf h e =
        let no_mark : (b / 8 / 256 == invalid_address) ≡ false =
          ground (arith, placed.fits, placed.small) in
        rw (no_mark, e) refl

    pending-pending :
        (f : Store) (b : ℕ) (buf : Block)
        → InMap a b
        → pending start f (b / 8 / 256) (changed b buf)
          ≡ assign op start (pending start f (b / 8 / 256) buf) b
    unfolding pending changed assign
    pending-pending f b buf h =
        let no_mark : (b / 8 / 256 == invalid_address) ≡ false =
          ground (arith, placed.fits, placed.small) in
        rw no_mark (rw (update_self, update-update) refl)

    modify_loop_lem :
        (bs : List ℕ) (d : D) (f : Store) (cached : ℕ) (buf : Block)
        → l.Represents d f n
        → Held cached buf
        → All (InMap a) bs
        → Returns
            (λ _ d'. l.Represents d' (assign_all op start (pending start f cached buf) bs) n)
            (modify_loop dev op start bs cached buf d)
    unfolding modify_loop assign_all unpack_index changed Held
    modify_loop_lem [] d f cached buf r held h = write_back_lem d f cached buf r held
    modify_loop_lem (b ∷ bs) d f cached buf r held h = elim (Bool-cases (b / 8 / 256 == cached)) [
      | inl e ↦
          let eq : b / 8 / 256 ≡ cached = ground arith in
          rw e (
            rw (← eq) (
              rw (← pending-pending f b buf h.0) (
                modify_loop_lem bs d f (b / 8 / 256) (changed b buf) r
                  (inr (h.0, changed-IsBlock b buf (block_number_lem cached buf held b h.0 eq)))
                  h.1)))
      | inr e ↦
          let g = pending start f cached buf in
          let i = start + b / 8 / 256 in
          let addr : add32 (b / 8 / 256) start ≡ i = omega (arith, placed.fits, placed.small) in
          rw e (
            Returns.bind (write_back_lem d f cached buf r held) λ _ d1 r1. rw addr (
              Returns.bind (l.read_lem d1 g n i r1 (omega (arith, placed.fits)))
                λ buf' d2 (got, r2). rw (← pending-changed g b buf' h.0 (sym got)) (
                  modify_loop_lem bs d2 g (b / 8 / 256) (changed b buf') r2
                    (inr (h.0, changed-IsBlock b buf' (rw got (l.block_lem d2 g n r2 i)))) h.1)))
    ]

    -- `modify` is the bit operation at one index after the other.
    modify_lem :
        (bs : List ℕ) (d : D) (f : Store)
        → l.Represents d f n
        → All (InMap a) bs
        → Returns (λ _ d'. l.Represents d' (assign_all op start f bs) n) (modify dev a bs op d)
    unfolding modify pending Held assign_all
    modify_lem [] d f r h = returns r
    modify_lem (b ∷ bs) d f r h =
        modify_loop_lem (b ∷ bs) d f invalid_address zero_block r (inl refl) h

  -- How the bitmap of `g` follows from that of `f`: the indices of `bs` are set to `v`, every other
  -- bit stays, and no block outside the bitmap changes.
  pub record Marked (v : Bool) (bs : List ℕ) (f g : Store) : Type 0 where
    pub bits : (i : ℕ) → bit_of g start i ≡ (if has i bs then v else bit_of f start i)
    pub outside : (j : ℕ) → (j < start) ⊎ (start + size ≤ j) → g j ≡ f j

  pub Marked-assign_all :
      {op : ℕ → ℕ → ℕ} {v : Bool} (o : Assigns op v) (bs : List ℕ) (f : Store)
      → ((i : ℕ) → IsBlock (f i))
      → All (InMap a) bs
      → Marked v bs f (assign_all op start f bs)
  Marked-assign_all o bs f ib h = record {
    bits = bit_of-assign_all o start bs f ib;
    outside = λ j out. assign_all_outside o start bs f size j h out;
  }

  -- The allocator that `allocate` leaves: only `last_alloc` moves, to the last index of the list.
  abbrev pub Advanced : List ℕ → BitmapAllocator → Type 0
  Advanced [] a' = a' ≡ a
  Advanced (b ∷ bs) a' = a' ≡ record a { last_alloc = last_of b bs }

  -- `allocate` succeeds on a list of indices of the bitmap. Exactly these bits become 1 beside those
  -- that were, no other block of the device changes, and `last_alloc` is the last index given.
  pub allocate-Marked :
      (bs : List ℕ) (d : D) (f : Store)
      → l.Represents d f n
      → All (InMap a) bs
      → Returns
          (λ a' d'. (g : Store) × l.Represents d' g n × Marked true bs f g × Advanced bs a')
          (allocate dev a bs d)
  unfolding allocate assign_all
  allocate-Marked [] d f r h =
      returns (f, r, Marked-assign_all set_bit-Assigns [] f (l.block_lem d f n r) h, refl)
  allocate-Marked (b ∷ bs) d f r h =
      Returns.bind (modify_lem set_bit-Assigns (b ∷ bs) d f r h) λ _ d' r'.
        returns (_, r', Marked-assign_all set_bit-Assigns (b ∷ bs) f (l.block_lem d f n r) h, refl)

  -- `deallocate` succeeds on a list of indices of the bitmap. Exactly these bits become 0, every
  -- other bit stays, and no other block of the device changes.
  pub deallocate-Marked :
      (bs : List ℕ) (d : D) (f : Store)
      → l.Represents d f n
      → All (InMap a) bs
      → Returns
          (λ _ d'. (g : Store) × l.Represents d' g n × Marked false bs f g)
          (deallocate dev a bs d)
  unfolding deallocate
  deallocate-Marked bs d f r h =
      Returns.mono (modify_lem clear_bit-Assigns bs d f r h)
        λ _ d' r'. (_, r', Marked-assign_all clear_bit-Assigns bs f (l.block_lem d f n r) h)

  -- `is_allocated` reads the bit of an index of the bitmap up to and including `max_index`, says no
  -- above it, and leaves the device's contents alone.
  pub is_allocated-bit_of :
      (i : ℕ) (d : D) (f : Store)
      → l.Represents d f n
      → InMap a i
      → Returns
          (λ yes_no d'.
            l.Represents d' f n
            × (yes_no ≡ (if ltb a.max_index i then false else bit_of f start i)))
          (is_allocated dev a i d)
  unfolding is_allocated bit_of unpack_index
  is_allocated-bit_of i d f r h = elim (Bool-cases (ltb a.max_index i)) [
    | inl e ↦ rw e (returns (r, refl))
    | inr e ↦
        let addr : add32 start (i / 8 / 256) ≡ start + i / 8 / 256 =
          omega (arith, placed.fits, placed.small) in
        rw (e, addr)
          (Returns.bind (l.read_lem d f n (start + i / 8 / 256) r (omega (arith, placed.fits)))
            λ buf d' (got, r'). rw got (returns (r', refl)))
  ]
