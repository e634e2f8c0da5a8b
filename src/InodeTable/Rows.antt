-- ===== src/InodeTable/Rows.antt =====
-- `read_inode` and `write_inode` of src/formats/v1/inode_handler.rs: the table is an array of inodes.
use ferris_file_system.Prelude.{
  ℕ, ◌+◌, ◌*◌, ◌/◌, ◌%◌, ◌<◌, ◌≤◌, ◌≡◌, ◌≢◌, ◌⊎◌, refl, ap, ◌∙◌, inl, inr, List, true, false, arith,
  length, leb, ◌==◌, if◌then◌else◌, Bool-cases, u32_mod, add32,
}
use ferris_file_system.Effect.{◌>>◌}
use ferris_file_system.Effect.Returns
use ferris_file_system.Effect.Returns.{Returns, returns}
use ferris_file_system.Device.{Block, Store, IsBlock, IsLawful, BlockDevice, update, zero_block}
use ferris_file_system.Device.Memory.Laws.{zero_block-IsBlock}
use ferris_file_system.Codec.{write_at, slice}
use ferris_file_system.Codec.Slices.{
  slice-write_at_before, slice-write_at_behind, slice-write_at_inside, slice-slice, length-slice,
  slice-byte, write_at-IsBlock,
}
use ferris_file_system.Inode.{Inode, inodes_per_block, on_disk_size, serialize, deserialize}
use ferris_file_system.Inode.RoundTrip.{
  InRange, serialize-IsBlock, deserialize-slice, inode_round_trip,
}
use ferris_file_system.InodeTable.{InodeTableHandler, max_inode_index, read_inode, write_inode}

-- The table lies inside a device of `n` blocks, and a `u32` counts its inodes.
pub record IsTable (h : InodeTableHandler) (n : ℕ) : Type 0 where
  pub fits : h.inode_table_start + h.inode_table_blocks ≤ n
  pub small : n < u32_mod
  pub countable : h.inode_table_blocks * inodes_per_block < u32_mod

-- The inode that a store holds at an index.
unfoldable pub row : InodeTableHandler → Store → ℕ → Inode
row h f index = deserialize (
    slice (f (h.inode_table_start + index / inodes_per_block))
      (index % inodes_per_block * on_disk_size) on_disk_size)

deserialize_padded :
    (xs : List ℕ) → length xs ≡ 96 → deserialize (write_at zero_block 0 xs) ≡ deserialize xs
deserialize_padded xs len = deserialize-slice _ xs λ p k le.
    slice-write_at_inside zero_block 0 xs p p k (omega arith) (omega (arith, len))
      (omega (arith, len, zero_block-IsBlock.size))

module _ (b : Block) (ib : IsBlock b) (inode : Inode) (s : ℕ) (fits : s + 96 ≤ 256) where
  serialized : IsBlock (serialize inode zero_block)
  serialized = serialize-IsBlock inode zero_block zero_block-IsBlock

  -- What `write_inode` copies into the block.
  image : List ℕ
  image = slice (serialize inode zero_block) 0 on_disk_size

  length-image : length image ≡ 96
  unfolding image
  length-image = length-slice (serialize inode zero_block) 0 96 (omega (arith, serialized.size))

  write_image-IsBlock : IsBlock (write_at b s image)
  unfolding image
  write_image-IsBlock =
      write_at-IsBlock b s image ib (slice-byte (serialize inode zero_block) 0 96 serialized.byte)

  here : InRange inode → deserialize (slice (write_at b s image) s 96) ≡ inode
  unfolding image
  here ranges =
      deserialize-slice _ (serialize inode zero_block) (λ p k le.
        slice-slice (write_at b s image) s 96 p (s + p) k refl le
        ∙ slice-write_at_inside b s image (s + p) p k refl (omega (arith, length-image))
            (omega (arith, length-image, ib.size))
        ∙ slice-slice (serialize inode zero_block) 0 96 p p k (omega arith) le)
      ∙ inode_round_trip inode zero_block zero_block-IsBlock ranges

  there : (t : ℕ) → (t + 96 ≤ s) ⊎ (s + 96 ≤ t) → slice (write_at b s image) t 96 ≡ slice b t 96
  there t (inl le) = slice-write_at_before b s image t 96 le
  there t (inr le) = slice-write_at_behind b s image t 96 (omega (arith, length-image))

-- The store after `write_inode`: one inode is replaced, and so is nothing else.
pub record Stored (h : InodeTableHandler) (f : Store) (index : ℕ) (inode : Inode) (g : Store)
    : Type 0 where
  pub written : row h g index ≡ inode
  pub others : (j : ℕ) → j ≢ index → row h g j ≡ row h f j
  pub outside :
      (i : ℕ)
      → (i < h.inode_table_start) ⊎ (h.inode_table_start + h.inode_table_blocks ≤ i)
      → g i ≡ f i

module _ {D : Type 0} {dev : BlockDevice D} (l : IsLawful dev) (h : InodeTableHandler) (n : ℕ)
    (placed : IsTable h n) where
  open h use {inode_table_start}

  block_lt :
      (index : ℕ) → index < max_inode_index h → inode_table_start + index / inodes_per_block < n
  block_lt index lt = omega (arith, placed.fits, placed.small, placed.countable)

  address :
      (index : ℕ)
      → index < max_inode_index h
      → add32 inode_table_start (index / inodes_per_block)
        ≡ inode_table_start + index / inodes_per_block
  address index lt = omega (arith, block_lt index lt, placed.small)

  pub read_inode-row :
      (d : D) (f : Store) (index : ℕ)
      → l.Represents d f n
      → index < max_inode_index h
      → Returns (λ i d'. (i ≡ row h f index) × l.Represents d' f n) (read_inode dev h index d)
  unfolding read_inode row
  read_inode-row d f index r lt =
      let in_range : leb (max_inode_index h) index ≡ false = ground arith in
      rw (in_range, address index lt)
        (Returns.bind (l.read_lem d f n _ r (block_lt index lt)) λ b d' (got, r'). rw got (
          returns (
            deserialize_padded _
                (length-slice (f _) _ 96 (omega (arith, (l.block_lem d f n r _).size))),
            r',
          )))

  update-Stored :
      (f : Store) (index : ℕ) (inode : Inode)
      → ((i : ℕ) → IsBlock (f i))
      → index < max_inode_index h
      → InRange inode
      → Stored h f index inode (
          update f (inode_table_start + index / inodes_per_block) (
            write_at
              (f (inode_table_start + index / inodes_per_block))
              (index % inodes_per_block * on_disk_size)
              (slice (serialize inode zero_block) 0 on_disk_size)))
  unfolding update row image
  update-Stored f index inode blocks lt ranges =
      let b = inode_table_start + index / inodes_per_block in
      let s = index % inodes_per_block * on_disk_size in
      let self : (b == b) ≡ true = ground arith in
      record {
        written = rw self (here (f b) (blocks b) inode s (omega arith) ranges);
        others = λ j ne. elim (Bool-cases (b == inode_table_start + j / inodes_per_block)) [
          | inl e ↦
              let same : inode_table_start + j / inodes_per_block ≡ b = ground (arith, e) in
              rw (same, self)
                (ap deserialize (
                  there (f b) (blocks b) inode s (omega arith) (j % inodes_per_block * on_disk_size)
                    (ground (arith, same, ne))))
          | inr e ↦ rw e refl
        ];
        outside = λ i out.
            let no : (b == i) ≡ false = ground (arith, out, placed.countable) in rw no refl;
      }

  -- `write_inode` replaces the inode at its index, and every other inode of the table and every
  -- block outside the table stay as they were.
  pub write_inode-Stored :
      (d : D) (f : Store) (index : ℕ) (inode : Inode)
      → l.Represents d f n
      → index < max_inode_index h
      → InRange inode
      → Returns
          (λ _ d'. (g : Store) × Stored h f index inode g × l.Represents d' g n)
          (write_inode dev h index inode d)
  unfolding write_inode image
  write_inode-Stored d f index inode r lt ranges =
      let in_range : leb (max_inode_index h) index ≡ false = ground arith in
      let at = block_lt index lt in
      let s = index % inodes_per_block * on_disk_size in
      rw (in_range, address index lt)
        (Returns.bind (l.read_lem d f n _ r at) λ b d' (got, r'). rw got (
          Returns.mono
            (l.write_lem d' f n _ _ r' at
              (write_image-IsBlock (f _) (l.block_lem d f n r _) inode s (omega arith)))
            λ _ d'' r''. (_, update-Stored f index inode (l.block_lem d f n r) lt ranges, r'')))

  -- Reading the table after a write: the inode written, or the one that stood there before.
  pub read_inode-write_inode :
      (d : D) (f : Store) (index j : ℕ) (inode : Inode)
      → l.Represents d f n
      → index < max_inode_index h
      → j < max_inode_index h
      → InRange inode
      → Returns
          (λ i d'. i ≡ (if j == index then inode else row h f j))
          ((write_inode dev h index inode >> read_inode dev h j) d)
  read_inode-write_inode d f index j inode r lt jlt ranges =
      Returns.bind (write_inode-Stored d f index inode r lt ranges) λ _ d' (g, stored, r').
        Returns.mono (read_inode-row d' g j r' jlt) λ i d'' (got, _).
          elim (Bool-cases (j == index)) [
            | inl e ↦
                let same : j ≡ index = ground (arith, e) in
                rw (e) (got ∙ ap (row h g) same ∙ stored.written)
            | inr e ↦ rw e (got ∙ stored.others j (ground (arith, e)))
          ]
