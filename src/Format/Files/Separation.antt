-- ===== src/Format/Files/Separation.antt =====
-- A write of data blocks leaves the addresses of an inode alone.
use ferris_file_system.Prelude.{
  ℕ, ◌+◌, ◌-◌, ◌*◌, ◌/◌, ◌%◌, ◌<◌, ◌≤◌, ◌≡◌, ◌≢◌, refl, sym, ap, inl, inr, true, false, arith, ltb,
  ◌==◌, Bool-cases, get_or,
}
use ferris_file_system.Device.{Block, Store, block_size, update}
use ferris_file_system.Inode.{Inode, direct_count, indirect_count}
use ferris_file_system.InodeTable.{read_address}
use ferris_file_system.InodeTable.Blocks.{OnDevice, block_at, entry_at}
use ferris_file_system.Format.{FormatV1}
use ferris_file_system.Format.Files.Contents.{byte_at}

module _ (m : FormatV1) (f : Store) (inode : Inode) where
  abbrev data_start : ℕ
  data_start = m.inode_handler.data_start

  -- Where data block `i` is on the device.
  abbrev pub place : ℕ → ℕ
  place i = m.inode_handler.data_start + block_at m.inode_handler f inode i

  -- The data blocks of a file are different blocks, none of them holds addresses of the file, and
  -- they lie behind the table of inodes.
  pub record IsSeparate : Type 0 where
    pub distinct : (i j : ℕ) → i < inode.blocks → j < inode.blocks → i ≢ j → place i ≢ place j
    pub not_indirect :
        (i : ℕ)
        → i < inode.blocks
        → direct_count < inode.blocks
        → place i ≢ data_start + inode.indirect
    pub not_double :
        (i : ℕ)
        → i < inode.blocks
        → direct_count + indirect_count < inode.blocks
        → place i ≢ data_start + inode.double
    pub not_second :
        (i j : ℕ)
        → i < inode.blocks
        → j < inode.blocks
        → direct_count + indirect_count ≤ j
        → place i
          ≢ data_start
            + entry_at m.inode_handler f inode.double
                ((j - direct_count - indirect_count) / indirect_count)
    pub behind_table :
        m.inode_handler.inode_table_start + m.inode_handler.inode_table_blocks ≤ data_start

  -- A store that differs in data blocks alone.
  abbrev pub SameElsewhere : Store → Type 0
  SameElsewhere g = (j : ℕ) → ((i : ℕ) → i < inode.blocks → place i ≢ j) → g j ≡ f j

  module _ (sep : IsSeparate) (g : Store) (same : SameElsewhere g) where
    indirect_same :
        direct_count < inode.blocks
        → g (data_start + inode.indirect) ≡ f (data_start + inode.indirect)
    indirect_same lt = same _ λ i below. sep.not_indirect i below lt

    entry_same :
        (k : ℕ)
        → direct_count + indirect_count < inode.blocks
        → entry_at m.inode_handler g inode.double k ≡ entry_at m.inode_handler f inode.double k
    unfolding entry_at
    entry_same k lt = ap (λ b. read_address b (k * 4)) (same _ λ i below. sep.not_double i below lt)

    pub block_at_same :
        (j : ℕ)
        → j < inode.blocks
        → block_at m.inode_handler g inode j ≡ block_at m.inode_handler f inode j
    unfolding block_at entry_at
    block_at_same j lt = elim (Bool-cases (ltb j direct_count)) [
      | inl e ↦ rw e refl
      | inr e ↦ elim (Bool-cases (ltb (j - direct_count) indirect_count)) [
        | inl e' ↦
            rw (e, e')
              (ap (λ b. read_address b ((j - direct_count) * 4))
                (indirect_same (ground (arith, e, lt))))
        | inr e' ↦
            let past : direct_count + indirect_count ≤ j = ground (arith, e, e') in
            let k = (j - direct_count - indirect_count) / indirect_count in
            rw (e, e', entry_same k (omega (arith, past, lt)))
              (ap (λ b. read_address b ((j - direct_count - indirect_count) % indirect_count * 4))
                (same _ λ i below. sep.not_second i j below lt past))
      ]
    ]

    pub OnDevice-same :
        (n j : ℕ)
        → j < inode.blocks
        → OnDevice m.inode_handler n f inode j
        → OnDevice m.inode_handler n g inode j
    OnDevice-same n j lt on = record {
      indirect = on.indirect;
      double = on.double;
      second = λ past. rw (entry_same _ (omega (arith, past, lt))) (on.second past);
    }

  -- A byte of the file, at the addresses that `f` holds.
  unfoldable pub cell : Store → ℕ → ℕ
  cell g y = get_or (g (place (y / block_size))) (y % block_size) 0

  pub byte_at-cell :
      IsSeparate
      → (g : Store) → SameElsewhere g
      → (y : ℕ) → y < inode.blocks * block_size
      → byte_at m g inode y ≡ cell g y
  unfolding byte_at cell
  byte_at-cell sep g same y lt =
      rw (block_at_same sep g same (y / block_size) (omega (arith, lt))) refl

  module _ (sep : IsSeparate) (g : Store) (k : ℕ) (inside : k < inode.blocks) (b : Block) where
    pub update_same : SameElsewhere g → SameElsewhere (update g (place k) b)
    unfolding update
    update_same same j away =
        let other : (place k == j) ≡ false = ground (arith, away k inside) in rw other (same j away)

    pub cell_here :
        (y : ℕ) → y / block_size ≡ k → cell (update g (place k) b) y ≡ get_or b (y % block_size) 0
    unfolding cell update
    cell_here y e = let self : (place k == place k) ≡ true = ground arith in rw (e, self) refl

    pub cell_there :
        (y : ℕ)
        → y < inode.blocks * block_size
        → y / block_size ≢ k
        → cell (update g (place k) b) y ≡ cell g y
    unfolding cell update
    cell_there y lt ne =
        let apart = sep.distinct k (y / block_size) inside (omega (arith, lt)) (λ e. ne (sym e)) in
        let other : (place k == place (y / block_size)) ≡ false = ground (arith, apart) in
        rw other refl
