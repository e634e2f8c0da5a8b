-- ===== src/InodeTable/Append.antt =====
-- `add_block` of src/formats/v1/inode_handler.rs: one more block at the end of an inode's sequence.
use ferris_file_system.Prelude.{
  ℕ, ◌+◌, ◌-◌, ◌*◌, ◌^◌, ◌<◌, ◌≤◌, ◌≡◌, ◌≢◌, ◌⊎◌, refl, ap, ◌∙◌, inl, inr, Bool, true, false, List,
  [], ◌∷◌, arith, length, get_or, set, ltb, leb, ◌==◌, if◌then◌else◌, Bool-cases, u32_mod, add32,
  get_or-set,
}
use ferris_file_system.Effect.{ok}
use ferris_file_system.Effect.Returns
use ferris_file_system.Effect.Returns.{Returns, returns}
use ferris_file_system.Device.{Store, IsBlock, IsLawful, BlockDevice, update}
use ferris_file_system.Codec.Fields.{write_address-IsBlock}
use ferris_file_system.Inode.{Inode, direct_count, indirect_count, max_blocks}
use ferris_file_system.InodeTable.{
  InodeTableHandler, take_pool, fresh_or, write_indirect, push_block, add_block,
}
use ferris_file_system.InodeTable.Entries.{
  with_entry, entry_at-with_entry, entry_at-with_entry_before,
}
use ferris_file_system.InodeTable.Blocks.{entry_at, block_at}

-- The address of the single indirect block when a block is added behind the direct ones.
abbrev pub next_indirect : Inode → List ℕ → ℕ
next_indirect inode pool = if inode.blocks == direct_count then get_or pool 0 0 else inode.indirect

-- The inode and the store after a block was added: the sequence of blocks is longer by one. Nothing
-- else of the inode changes, and no block but the indirect one.
pub record Appended (h : InodeTableHandler) (f : Store) (inode : Inode) (block : ℕ) (pool : List ℕ)
    (g : Store) (inode' : Inode) : Type 0 where
  pub count : inode'.blocks ≡ inode.blocks + 1
  pub last : block_at h g inode' inode.blocks ≡ block
  pub earlier : (j : ℕ) → j < inode.blocks → block_at h g inode' j ≡ block_at h f inode j
  pub indirect_lem : inode'.indirect ≡ next_indirect inode pool
  pub same :
      inode'
      ≡ record inode { direct = inode'.direct; indirect = inode'.indirect; blocks = inode'.blocks }
  pub outside :
      (i : ℕ)
      → (inode.blocks < direct_count) ⊎ (i ≢ h.data_start + next_indirect inode pool)
      → g i ≡ f i

-- The inode has room in its direct and single indirect region, and the pool has the block for the
-- indirect addresses, if this is their first use.
pub record CanGrow (h : InodeTableHandler) (n : ℕ) (inode : Inode) (pool : List ℕ) : Type 0 where
  pub direct_size : length inode.direct ≡ direct_count
  pub room : inode.blocks < direct_count + indirect_count
  pub pool_enough : inode.blocks ≡ direct_count → 1 ≤ length pool
  pub on_device : direct_count ≤ inode.blocks → h.data_start + next_indirect inode pool < n

module _ {D : Type 0} (dev : BlockDevice D) (h : InodeTableHandler) where
  -- The first block of a pool that is large enough, or the old address.
  fresh_or_first :
      (b : Bool) (old : ℕ) (pool : List ℕ) (d : D)
      → (b ≡ true → 1 ≤ length pool)
      → fresh_or dev h b 1 old pool 0 d
        ≡ ok (if b then get_or pool 0 0 else old, if b then 1 else 0) d
  unfolding fresh_or take_pool
  fresh_or_first true old [] d enough = absurd (let e = enough refl in omega arith)
  fresh_or_first true old (a ∷ pool) d enough =
      let large : ltb (length (a ∷ pool)) 1 ≡ false = ground arith in rw large refl
  fresh_or_first false old pool d enough = refl

module _ {D : Type 0} {dev : BlockDevice D} (l : IsLawful dev) (h : InodeTableHandler) (n : ℕ)
    (small : n < u32_mod) (inode : Inode) (block : ℕ) (pool : List ℕ)
    (grow : CanGrow h n inode pool) (address : block < 256 ^ 4) where
  next : ℕ
  next = add32 inode.blocks 1

  direct_inode : Inode
  unfolding next
  direct_inode = record inode { direct = set inode.direct inode.blocks block; blocks = next }

  single_inode : Inode
  unfolding next
  single_inode = record inode { indirect = next_indirect inode pool; blocks = next }

  direct-Appended :
      (f : Store) → inode.blocks < direct_count → Appended h f inode block pool f direct_inode
  unfolding direct_inode next block_at
  direct-Appended f lt =
      let here : ltb inode.blocks direct_count ≡ true = ground (arith, lt) in
      let fits : inode.blocks < length inode.direct = omega (arith, lt, grow.direct_size) in
      let self : (inode.blocks == inode.blocks) ≡ true = ground arith in
      record {
        count = omega (arith, lt);
        last = rw (here, get_or-set inode.direct inode.blocks inode.blocks block 0 fits, self) refl;
        earlier = λ j below.
            let before : ltb j direct_count ≡ true = ground (arith, lt, below) in
            let other : (inode.blocks == j) ≡ false = ground (arith, below) in
            rw (before, get_or-set inode.direct inode.blocks j block 0 fits, other) refl;
        indirect_lem =
            let unused : (inode.blocks == direct_count) ≡ false = ground (arith, lt) in
            rw unused refl;
        same = refl;
        outside = λ i away. refl;
      }

  single-Appended :
      (f : Store)
      → ((i : ℕ) → IsBlock (f i))
      → direct_count ≤ inode.blocks
      → Appended h f inode block pool
          (with_entry h f (next_indirect inode pool) (inode.blocks - direct_count) block)
          single_inode
  unfolding single_inode next block_at with_entry update
  single-Appended f ib ge =
      let a = next_indirect inode pool in
      let i = inode.blocks - direct_count in
      let far : ltb inode.blocks direct_count ≡ false = ground (arith, ge) in
      let near : ltb i indirect_count ≡ true = ground (arith, grow.room, ge) in
      record {
        count = omega (arith, grow.room);
        last =
            rw (far, near)
              (entry_at-with_entry h f ib a i block (omega (arith, grow.room, ge)) address);
        earlier = λ j below. elim (Bool-cases (ltb j direct_count)) [
          | inl direct ↦ rw direct refl
          | inr later ↦
              let before : ltb (j - direct_count) indirect_count ≡ true =
                ground (arith, later, below, grow.room) in
              let used : (inode.blocks == direct_count) ≡ false = ground (arith, later, below) in
              let lt : j - direct_count < i = ground (arith, later, below) in
              let kept : a ≡ inode.indirect = rw used refl in
              rw (later, before)
                (entry_at-with_entry_before h f ib a i (j - direct_count) block lt
                  ∙ ap (λ x. entry_at h f x (j - direct_count)) kept)
        ];
        indirect_lem = refl;
        same = refl;
        outside = λ j away. elim away [
          | inl lt ↦ absurd (omega (arith, lt, ge))
          | inr ne ↦
              let other : (h.data_start + a == j) ≡ false = ground (arith, ne) in rw other refl
        ];
      }

  write_indirect_lem :
      (d : D) (f : Store)
      → l.Represents d f n
      → direct_count ≤ inode.blocks
      → Returns
          (λ out d'.
            (out.0 ≡ record inode { indirect = next_indirect inode pool })
            × l.Represents d'
                (with_entry h f (next_indirect inode pool) (inode.blocks - direct_count) block)
                n)
          (write_indirect dev h inode block pool 0 (inode.blocks - direct_count) d)
  unfolding write_indirect with_entry
  write_indirect_lem d f r ge =
      let a = next_indirect inode pool in
      let i = inode.blocks - direct_count in
      let first : (i == 0) ≡ (inode.blocks == direct_count) = ground (arith, ge) in
      let at : add32 a h.data_start ≡ h.data_start + a = omega (arith, grow.on_device ge, small) in
      let fresh =
        fresh_or_first dev h (inode.blocks == direct_count) inode.indirect pool d
          (λ e. grow.pool_enough (ground (arith, e))) in
      rw (first, fresh, at)
        (Returns.bind (l.read_lem d f n _ r (grow.on_device ge)) λ buf d1 (got, r1). rw got (
          Returns.bind
            (l.write_lem d1 f n _ _ r1 (grow.on_device ge) (
              write_address-IsBlock (f (h.data_start + a)) (i * 4) 4 block (l.block_lem d f n r _)))
            λ _ d2 r2. returns (refl, r2)))

  push_block_single :
      (d : D) (f : Store)
      → l.Represents d f n
      → direct_count ≤ inode.blocks
      → Returns
          (λ out d'.
            (out.0 ≡ single_inode)
            × l.Represents d'
                (with_entry h f (next_indirect inode pool) (inode.blocks - direct_count) block)
                n)
          (push_block dev h inode block pool 0 d)
  unfolding push_block single_inode next
  push_block_single d f r ge =
      let far : ltb inode.blocks direct_count ≡ false = ground (arith, ge) in
      let single : ltb inode.blocks (direct_count + indirect_count) ≡ true =
        ground (arith, grow.room) in
      rw (far, single)
        (Returns.bind (write_indirect_lem d f r ge) λ out d1 (e, r1).
          returns (ap (λ (x : Inode). record x { blocks = add32 x.blocks 1 }) e, r1))

  -- `add_block` on an inode with room in its direct and single indirect region succeeds. The
  -- sequence of the inode's blocks is longer by the new block, and every earlier one stays. The
  -- indirect block is the first of the pool when the direct ones are used up, and the old one
  -- otherwise; nothing else of the inode changes but its direct addresses and its count, and no
  -- block of the device but the indirect one, or none while there are direct ones left.
  pub add_block-Appended :
      (d : D) (f : Store)
      → l.Represents d f n
      → Returns
          (λ inode' d'. (g : Store) × l.Represents d' g n × Appended h f inode block pool g inode')
          (add_block dev h inode block pool d)
  unfolding add_block push_block direct_inode next
  add_block-Appended d f r =
      let room : leb max_blocks inode.blocks ≡ false = ground (arith, grow.room) in
      rw (add_block, room)
        (elim (Bool-cases (ltb inode.blocks direct_count)) [
          | inl direct ↦
              rw (push_block, direct) (returns (f, r, direct-Appended f (ground (arith, direct))))
          | inr far ↦
              let ge : direct_count ≤ inode.blocks = ground (arith, far) in
              Returns.bind (push_block_single d f r ge)
                λ out d2 (e, r2). rw e (returns (_, r2, single-Appended f (l.block_lem d f n r) ge))
        ])
