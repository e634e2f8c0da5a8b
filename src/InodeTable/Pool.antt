-- ===== src/InodeTable/Pool.antt =====
-- How many blocks of the pool the writes of `add_blocks` take, src/formats/v1/inode_handler.rs.
use ferris_file_system.Prelude.{
  ℕ, zero, suc, ◌+◌, ◌-◌, ◌*◌, ◌%◌, ◌<◌, ◌≤◌, ◌≡◌, refl, inl, inr, Bool, true, false, List, [], ◌∷◌,
  arith, length, ltb, ◌==◌, if◌then◌else◌, Bool-cases, u32_mod,
}
use ferris_file_system.Effect.Returns.{Returns}
use ferris_file_system.Effect.Unless
use ferris_file_system.Effect.Unless.{Unless, returned, failed, panicked, Returns-Unless}
use ferris_file_system.Device.{Block, BlockDevice}
use ferris_file_system.Inode.{Inode, direct_count, indirect_count}
use ferris_file_system.InodeTable.{
  InodeTableHandler, take_pool, fresh_or, write_indirect, link_indirect, write_double_indirect,
}
use ferris_file_system.InodeTable.Growth.{taken_at}

-- A device on which the reads and writes at the addresses of 32 bits succeed, in the states of `I`.
pub record Answers {D : Type 0} (dev : BlockDevice D) (I : D → Type 0) : Type 0 where
  pub reads :
      (i : ℕ) (d : D) → i < u32_mod → I d → Returns (λ (_ : Block) d'. I d') (dev.read_block i d)
  pub writes :
      (i : ℕ) (b : Block) (d : D)
      → i < u32_mod
      → I d
      → Returns (λ _ d'. I d') (dev.write_block i b d)

abbrev pub tick : Bool → ℕ
tick b = if b then 1 else 0

pub taken_at_direct : (b : ℕ) → ltb b direct_count ≡ true → taken_at b ≡ 0
unfolding taken_at
taken_at_direct b e = ground (arith, e)

pub taken_at_single :
    (b : ℕ)
    → ltb b direct_count ≡ false
    → ltb b (direct_count + indirect_count) ≡ true
    → taken_at b ≡ tick (b - direct_count == 0)
unfolding taken_at
taken_at_single b e e' = ground (arith, e, e')

-- The blocks of the double region: the double block with its first entry, or another entry.
abbrev pub double_ticks : ℕ → ℕ
double_ticks index = tick (index == 0) + tick (index % indirect_count * 4 == 0)

pub taken_at_double :
    (b : ℕ)
    → ltb b (direct_count + indirect_count) ≡ false
    → taken_at b ≡ double_ticks (b - direct_count - indirect_count)
unfolding taken_at
taken_at_double b e = ground (arith, e)

module _ {D : Type 0} {dev : BlockDevice D} {I : D → Type 0} (answers : Answers dev I)
    (h : InodeTableHandler) where
  take_pool_lem :
      {F : Type 0} (pool : List ℕ) (k : ℕ) (d : D)
      → (length pool ≤ k → F)
      → I d
      → Unless F (λ _ d'. I d' × (k < length pool)) (take_pool dev h pool k d)
  unfolding take_pool
  take_pool_lem [] k d short i = panicked (short (omega arith))
  take_pool_lem (a ∷ pool) zero d short i = returned (i, omega arith)
  take_pool_lem (a ∷ pool) (suc k) d short i =
      Unless.mono (take_pool_lem pool k d (λ le. short (omega (arith, le))) i)
        λ _ d' (i', lt). (i', omega (arith, lt))

  -- A first use of an address takes one block, and fails only if the pool is short.
  fresh_or_lem :
      (b : Bool) (required old : ℕ) (pool : List ℕ) (k need : ℕ) (d : D)
      → (b ≡ true → required ≤ need)
      → k + tick b ≤ need
      → k ≤ length pool
      → I d
      → Unless
          (length pool < need)
          (λ out d'. I d' × (out.1 ≡ k + tick b) × (k + tick b ≤ length pool))
          (fresh_or dev h b required old pool k d)
  unfolding fresh_or
  fresh_or_lem true required old pool k need d enough le within i =
      elim (Bool-cases (ltb (length pool) required)) [
        | inl short ↦ rw short (failed (ground (arith, short, enough refl)))
        | inr large ↦ rw large (
            Unless.bind (take_pool_lem pool k d (λ past. omega (arith, past, le)) i)
              λ _ d' (i', lt). returned (i', refl, omega (arith, lt)))
      ]
  fresh_or_lem false required old pool k need d enough le within i =
      returned (i, omega arith, omega (arith, within))

  -- What a write of the new block leaves: the pool's next index, and the inode's old count.
  abbrev pub Took : Inode → List ℕ → ℕ → Inode × ℕ → D → Type 0
  Took inode pool next out d =
      I d × (out.1 ≡ next) × (next ≤ length pool) × (out.0.blocks ≡ inode.blocks)

  pub write_indirect_takes :
      (inode : Inode) (block : ℕ) (pool : List ℕ) (k index need : ℕ) (d : D)
      → k + tick (index == 0) ≤ need
      → k ≤ length pool
      → I d
      → Unless
          (length pool < need)
          (Took inode pool (k + tick (index == 0)))
          (write_indirect dev h inode block pool k index d)
  unfolding write_indirect
  write_indirect_takes inode block pool k index need d le within i =
      Unless.bind
        (fresh_or_lem (index == 0) 1 inode.indirect pool k need d
          (λ e. let one : tick (index == 0) ≡ 1 = rw e refl in omega (arith, one, le)) le within i)
        λ out d1 (i1, at, in_pool).
          Unless.bind (Returns-Unless (answers.reads _ d1 (omega arith) i1)) λ buf d2 i2.
            Unless.bind (Returns-Unless (answers.writes _ _ d2 (omega arith) i2))
              λ _ d3 i3. returned (i3, at, in_pool, refl)

  link_indirect_lem :
      {F : Type 0} (b : Bool) (double indirect offset : ℕ) (d : D)
      → I d
      → Unless F (λ _ d'. I d') (link_indirect dev h b double indirect offset d)
  unfolding link_indirect
  link_indirect_lem true double indirect offset d i =
      Unless.bind (Returns-Unless (answers.reads _ d (omega arith) i))
        λ buf d1 i1. Returns-Unless (answers.writes _ _ d1 (omega arith) i1)
  link_indirect_lem false double indirect offset d i = returned i

  pub write_double_indirect_takes :
      (inode : Inode) (block : ℕ) (pool : List ℕ) (k index need : ℕ) (d : D)
      → k + double_ticks index ≤ need
      → k ≤ length pool
      → I d
      → Unless
          (length pool < need)
          (Took inode pool (k + double_ticks index))
          (write_double_indirect dev h inode block pool k index d)
  unfolding write_double_indirect
  write_double_indirect_takes inode block pool k index need d le within i =
      let new = index % indirect_count * 4 == 0 in
      let le1 : k + tick (index == 0) ≤ need = omega (arith, le) in
      Unless.bind
        (fresh_or_lem (index == 0) 2 inode.double pool k need d
          (λ e. let two : double_ticks index ≡ 2 = ground (arith, e) in omega (arith, two, le)) le1
          within i)
        λ out d1 (i1, at1, in1).
          Unless.bind (Returns-Unless (answers.reads _ d1 (omega arith) i1)) λ buf d2 i2.
            Unless.bind
              (fresh_or_lem new 1 _ pool out.1 need d2
                (λ e. let one : tick new ≡ 1 = rw e refl in omega (arith, one, le))
                (omega (arith, at1, le)) (omega (arith, at1, in1)) i2)
              λ out' d3 (i3, at2, in2).
                Unless.bind (Returns-Unless (answers.reads _ d3 (omega arith) i3)) λ buf' d4 i4.
                  Unless.bind (Returns-Unless (answers.writes _ _ d4 (omega arith) i4)) λ _ d5 i5.
                    Unless.bind (link_indirect_lem new out.0 out'.0 _ d5 i5) λ _ d6 i6.
                      returned (i6, omega (arith, at1, at2), omega (arith, at1, in2), refl)
