-- ===== src/Format/Formatting/Formatted.antt =====
-- `format` and then `mount` of src/formats/v1/format.rs.
use ferris_file_system.Prelude.{
  ℕ, zero, suc, ◌+◌, ◌-◌, ◌*◌, ◌/◌, ◌%◌, ◌<◌, ◌≤◌, ◌≡◌, ◌≢◌, ◌⊎◌, refl, ap, ◌∙◌, inl, inr, true,
  arith, ◌==◌, by_cases, u64_mod, add32, sub32,
}
use ferris_file_system.Effect.{◌>>◌}
use ferris_file_system.Effect.Returns
use ferris_file_system.Effect.Returns.{Returns, returns}
use ferris_file_system.Device.{
  Block, Store, IsBlock, IsLawful, BlockDevice, update, zero_block, magic_number,
}
use ferris_file_system.Device.Memory.Laws.{zero_block-IsBlock}
use ferris_file_system.Bitmap.View.{set-IsBlock}
use ferris_file_system.Superblock.{Superblock}
use ferris_file_system.Superblock
use ferris_file_system.Superblock.RoundTrip.{InRange, superblock_round_trip}
use ferris_file_system.Codec.Fields.{write_fields-IsBlock}
use ferris_file_system.Inode.{Inode, inodes_per_block, on_disk_size}
use ferris_file_system.Inode
use ferris_file_system.Codec.{slice}
use ferris_file_system.Inode.RoundTrip
use ferris_file_system.InodeTable.{InodeTableHandler, max_inode_index}
use ferris_file_system.InodeTable.Rows.{IsTable, row, Stored, write_inode-Stored}
use ferris_file_system.DirectoryHandler.{DirectoryHandler}
use ferris_file_system.DirectoryHandler.Layouts.{Layout}
use ferris_file_system.Format.{mount}
use ferris_file_system.Format.Formatting.{layout_for, first_bit, zero_from, format_with, format}
use ferris_file_system.Format.Formatting.Placement.{
  Placed, layout_for-Placed, formatted, formatted-InRange,
}
use ferris_file_system.Format.Formatting.RootDirectory.{
  root_inode, root_entries, root_block, root_block-IsBlock, root_block-Layout, add_first_block,
  write_root_directory,
}

pub first_bit-IsBlock : IsBlock first_bit
unfolding first_bit
first_bit-IsBlock = set-IsBlock zero_block 0 1 (omega arith) (omega arith) zero_block-IsBlock

-- The blocks from `i` on, `count` of them, are zero, and the others as before.
record Zeroed (f : Store) (i count : ℕ) (g : Store) : Type 0 where
  pub zeros : (j : ℕ) → i ≤ j → j < i + count → g j ≡ zero_block
  pub others : (j : ℕ) → (j < i) ⊎ (i + count ≤ j) → g j ≡ f j

update_self : (f : Store) (i : ℕ) (b : Block) → update f i b i ≡ b
unfolding update
update_self f i b = ground arith

update_other : (f : Store) (i j : ℕ) (b : Block) → i ≢ j → update f i b j ≡ f j
unfolding update
update_other f i j b ne = ground (arith, ne)

module _ {D : Type 0} {dev : BlockDevice D} (l : IsLawful dev) (n : ℕ) where
  zero_from-Zeroed :
      (count i : ℕ) (d : D) (f : Store)
      → l.Represents d f n
      → i + count ≤ n
      → Returns
          (λ _ d'. (g : Store) × Zeroed f i count g × l.Represents d' g n)
          (zero_from dev i count d)
  unfolding zero_from
  zero_from-Zeroed zero i d f r le =
      returns (f, record { zeros = λ j a b. absurd (omega (arith, a, b)); others = λ j o. refl }, r)
  zero_from-Zeroed (suc count) i d f r le =
      Returns.bind (l.write_lem d f n i zero_block r (omega (arith, le)) zero_block-IsBlock)
        λ _ d1 r1.
          Returns.mono
            (zero_from-Zeroed count (i + 1) d1 (update f i zero_block) r1 (omega (arith, le)))
            λ _ d2 (g, zeroed, r2). (
              g,
              record {
                zeros = λ j a b.
                    by_cases (i == j)
                      (λ e.
                        zeroed.others j (inl (ground (arith, e)))
                        ∙ ap (update f i zero_block) (ground (arith, e))
                        ∙ update_self f i zero_block)
                      λ e. zeroed.zeros j (ground (arith, e, a)) (omega (arith, b));
                others = λ j o.
                    zeroed.others j (elim o [
                      | inl lt ↦ inl (omega (arith, lt))
                      | inr ge ↦ inr (omega (arith, ge))
                    ])
                    ∙ update_other f i j zero_block (λ e.
                      absurd
                        (elim o [ inl lt ↦ omega (arith, e, lt) | inr ge ↦ omega (arith, e, ge) ]));
              },
              r2,
            )

abbrev pub table_for : Superblock → InodeTableHandler
table_for s = record {
  inode_table_start = s.inode_table_start;
  inode_table_blocks = s.inode_table_blocks;
  data_start = s.data_start;
}

abbrev directory_for : Superblock → DirectoryHandler
directory_for s = record { data_start = s.data_start; root_inode_ind = s.root_inode }

-- A formatted device: the superblock, the bitmaps with the first bit alone, and the root
-- with its entries.
pub record Formatted (s : Superblock) (now : ℕ) (g : Store) : Type 0 where
  pub superblock : Superblock.deserialize (g 0) ≡ formatted s
  pub inode_bit : g s.inode_bitmap_start ≡ first_bit
  pub inode_zeros : (i : ℕ) → s.inode_bitmap_start < i → i < s.block_bitmap_start → g i ≡ zero_block
  pub block_bit : g s.block_bitmap_start ≡ first_bit
  pub block_zeros : (i : ℕ) → s.block_bitmap_start < i → i < s.inode_table_start → g i ≡ zero_block
  pub root : row (table_for s) g 0 ≡ root_inode now
  pub entries : Layout (g s.data_start) 0 root_entries

module _ (n now : ℕ) (s : Superblock) (p : Placed n s) (ranges : InRange (formatted s))
    (f g1 g2 g5 : Store) where
  open s use {
    inode_bitmap_start, inode_bitmap_blocks, block_bitmap_start, block_bitmap_blocks,
    inode_table_start, data_start,
  }

  with_bits : Store
  with_bits = update (update g2 inode_bitmap_start first_bit) block_bitmap_start first_bit

  last : Store
  last = update (update g5 data_start root_block) 0 (Superblock.serialize (formatted s) first_bit)

  starts :
      (inode_bitmap_start ≡ 1)
      × ((inode_bitmap_start + inode_bitmap_blocks ≡ block_bitmap_start)
          × ((inode_bitmap_start < block_bitmap_start)
              × ((block_bitmap_start + block_bitmap_blocks ≡ inode_table_start)
                  × ((block_bitmap_start < inode_table_start) × (inode_table_start < data_start)))))
  starts = (
    p.inode_bitmap,
    (
      omega (arith, p.inode_bitmap, p.block_bitmap),
      (
        omega (arith, p.inode_bitmap, p.block_bitmap, p.inode_bitmap_positive),
        (
          omega (arith, p.table),
          (
            omega (arith, p.table, p.block_bitmap_positive),
            omega (arith, p.data_region, p.table_positive),
          ),
        ),
      ),
    ),
  )

  below_table :
      Stored (table_for s) with_bits 0 (root_inode now) g5
      → (i : ℕ) → 0 < i
      → i < inode_table_start
      → last i ≡ with_bits i
  unfolding last
  below_table stored i pos lt =
      update_other _ 0 i _ (λ e. absurd (omega (arith, e, pos)))
      ∙ update_other g5 data_start i root_block (λ e. absurd (omega (arith, e, lt, p.data_region)))
      ∙ stored.outside i (inl lt)

  last-Formatted :
      Zeroed f (inode_bitmap_start + 1) inode_bitmap_blocks g1
      → Zeroed g1 (block_bitmap_start + 1) block_bitmap_blocks g2
      → Stored (table_for s) with_bits 0 (root_inode now) g5
      → Formatted s now last
  unfolding last with_bits row
  last-Formatted inodes blocks stored =
      let below = below_table stored in
      let at = inode_table_start + 0 / inodes_per_block in
      record {
        superblock =
            ap Superblock.deserialize (update_self _ 0 _)
            ∙ superblock_round_trip (formatted s) first_bit first_bit-IsBlock ranges;
        inode_bit =
            below inode_bitmap_start (omega (arith, starts)) (omega (arith, starts))
            ∙ update_other _ block_bitmap_start inode_bitmap_start first_bit
                (λ e. omega (arith, starts, e))
            ∙ update_self g2 inode_bitmap_start first_bit;
        inode_zeros = λ i lo hi.
            below i (omega (arith, starts)) (omega (arith, starts))
            ∙ update_other _ block_bitmap_start i first_bit (λ e. omega (arith, starts, e))
            ∙ update_other g2 inode_bitmap_start i first_bit (λ e. omega (arith, starts, e))
            ∙ blocks.others i (inl (omega (arith, starts)))
            ∙ inodes.zeros i (omega (arith, starts)) (omega (arith, starts));
        block_bit =
            below block_bitmap_start (omega (arith, starts)) (omega (arith, starts))
            ∙ update_self _ block_bitmap_start first_bit;
        block_zeros = λ i lo hi.
            below i (omega (arith, starts)) (omega (arith, starts))
            ∙ update_other _ block_bitmap_start i first_bit (λ e. omega (arith, starts, e))
            ∙ update_other g2 inode_bitmap_start i first_bit (λ e. omega (arith, starts, e))
            ∙ blocks.zeros i (omega (arith, starts)) (omega (arith, starts));
        root =
            ap (λ b. Inode.deserialize (slice b (0 % inodes_per_block * on_disk_size) on_disk_size))
              (update_other _ 0 at _ (λ e. omega (arith, starts, e))
                ∙ update_other g5 data_start at root_block (λ e. omega (arith, starts, e)))
            ∙ stored.written;
        entries =
            rw
              (
                update_other _ 0 data_start (Superblock.serialize (formatted s) first_bit)
                    (λ e. omega (arith, starts, e)),
                update_self g5 data_start root_block,
              )
              root_block-Layout;
      }

root_inode-InRange : (now : ℕ) → now < u64_mod → Inode.RoundTrip.InRange (root_inode now)
root_inode-InRange now lt = record {
  head = (
    omega arith,
    (omega arith, (omega arith, (omega arith, (omega arith, (omega arith, (omega arith, tt)))))),
  );
  direct_length = refl;
  direct = (
    omega arith,
    (
      omega arith,
      (
        omega arith,
        (
          omega arith,
          (
            omega arith,
            (
              omega arith,
              (
                omega arith,
                (omega arith, (omega arith, (omega arith, (omega arith, (omega arith, tt))))),
              ),
            ),
          ),
        ),
      ),
    ),
  );
  tail = (omega arith, (omega arith, (omega (arith, lt), (omega (arith, lt), tt))));
}

table_for-IsTable : (n : ℕ) (s : Superblock) → Placed n s → n < 16777216 → IsTable (table_for s) n
table_for-IsTable n s p small = record {
  fits = omega (arith, p.data_region, p.data_inside);
  small = omega (arith, small);
  countable = omega (arith, p.data_region, p.data_inside, small);
}

module _ {D : Type 0} {dev : BlockDevice D} (l : IsLawful dev) (n : ℕ) (small : n < 16777216)
    (s : Superblock) (p : Placed n s) (ranges : InRange (formatted s)) (now : ℕ)
    (in_range : now < u64_mod) where
  format_with-Formatted :
      (d : D) (f : Store)
      → l.Represents d f n
      → Returns
          (λ _ d'. (g : Store) × Formatted s now g × l.Represents d' g n)
          (format_with dev s now d)
  unfolding format_with with_bits last Superblock.serialize
  format_with-Formatted d f r =
      let t = table_for s in
      let h = directory_for s in
      let o = starts n now s p ranges f f f f in
      let inode_bits : add32 s.inode_bitmap_start 1 ≡ s.inode_bitmap_start + 1 =
        omega (arith, o, p.data_inside, small) in
      let block_bits : add32 s.block_bitmap_start 1 ≡ s.block_bitmap_start + 1 =
        omega (arith, o, p.data_inside, small) in
      let data_left : sub32 s.free_data 1 ≡ s.free_data - 1 =
        omega (arith, p.free_data, p.data_inside, small) in
      let inodes_left : sub32 s.free_inodes 1 ≡ s.free_inodes - 1 =
        omega (arith, p.free_inodes, p.table_positive, p.data_region, p.data_inside, small) in
      let root_block_at : add32 h.data_start 0 ≡ h.data_start =
        omega (arith, p.data_inside, small) in
      let an_inode : 0 < max_inode_index t =
        omega (arith, p.table_positive, p.data_region, p.data_inside, small) in
      rw (add_first_block dev t h now d, inode_bits, block_bits, data_left, inodes_left)
        (Returns.bind
          (zero_from-Zeroed l n s.inode_bitmap_blocks (s.inode_bitmap_start + 1) d f r
            (omega (arith, o, p.data_inside)))
          λ _ d1 (g1, inodes, r1).
            Returns.bind
              (zero_from-Zeroed l n s.block_bitmap_blocks (s.block_bitmap_start + 1) d1 g1 r1
                (omega (arith, o, p.data_inside)))
              λ _ d2 (g2, blocks, r2).
                Returns.bind
                  (l.write_lem d2 g2 n s.inode_bitmap_start first_bit r2
                    (omega (arith, o, p.data_inside)) first_bit-IsBlock)
                  λ _ d3 r3.
                    Returns.bind
                      (l.write_lem d3 _ n s.block_bitmap_start first_bit r3
                        (omega (arith, o, p.data_inside)) first_bit-IsBlock)
                      λ _ d4 r4.
                        Returns.bind
                          (write_inode-Stored l t n (table_for-IsTable n s p small) d4
                            (with_bits n now s p ranges f g1 g2 g2) 0 (root_inode now) r4 an_inode
                            (root_inode-InRange now in_range))
                          λ _ d5 (g5, stored, r5).
                            Returns.bind
                              (rw (write_root_directory dev t h now d5 root_block_at) (
                                Returns.bind
                                  (l.write_lem d5 g5 n s.data_start root_block r5 p.data_inside
                                    root_block-IsBlock)
                                  λ _ d6 r6. returns r6))
                              λ _ d6 r6.
                                Returns.mono
                                  (l.write_lem d6 _ n 0 _ r6 (omega (arith, p.data_inside))
                                    (write_fields-IsBlock _ first_bit 0 first_bit-IsBlock))
                                  λ _ d7 r7. (
                                    last n now s p ranges f g1 g2 g5,
                                    last-Formatted n now s p ranges f g1 g2 g5 inodes blocks stored,
                                    r7,
                                  ))

  mount-formatted :
      (d : D) (g : Store)
      → l.Represents d g n
      → s.magic ≡ magic_number
      → Formatted s now g
      → Returns
          (λ m d'.
            (m.superblock ≡ formatted s) × ((g : Store) × Formatted s now g × l.Represents d' g n))
          (mount dev d)
  unfolding mount
  mount-formatted d g r magic is =
      let same : (s.magic == magic_number) ≡ true = ground (arith, magic) in
      Returns.bind (l.read_lem d g n 0 r (omega (arith, p.data_inside)))
        λ buf d1 (got, r1). rw (got, is.superblock, same) (returns (refl, (g, is, r1)))

magic_lem : (n : ℕ) → (layout_for n).magic ≡ magic_number
unfolding layout_for Superblock.new
magic_lem n = refl

module _ {D : Type 0} {dev : BlockDevice D} (l : IsLawful dev) (n : ℕ) (enough : 5 ≤ n)
    (small : n < 16777216) (now : ℕ) (in_range : now < u64_mod) where
  -- On a lawful device of 5 up to 2^24 blocks, `format` and then `mount` succeed with the
  -- superblock that `format` computes, less an inode and a block for the root. The device holds
  -- that superblock, two bitmaps with the first bit alone, the root at inode 0, and a root
  -- directory of `.`, `..` and a free region, which fill its block. The clock is below 2^64.
  pub mount-format :
      (d : D) (f : Store)
      → l.Represents d f n
      → Returns
          (λ m d'.
            (m.superblock ≡ formatted (layout_for n))
            × ((g : Store) × Formatted (layout_for n) now g × l.Represents d' g n))
          ((format dev now >> mount dev) d)
  unfolding format
  mount-format d f r =
      let s = layout_for n in
      let p = layout_for-Placed n enough small in
      let ranges = formatted-InRange n enough small in
      let count : dev.block_count d ≡ n = l.count_lem d f n r in
      rw count (
        Returns.bind (format_with-Formatted l n small s p ranges now in_range d f r)
          λ _ d' (g, is, r').
            mount-formatted l n small s p ranges now in_range d' g r' (magic_lem n) is)
