-- ===== src/Format/Allocation.antt =====
-- `allocate` of src/formats/v1/format.rs: inodes and data blocks from the two bitmaps.
use ferris_file_system.Prelude.{
  ℕ, ◌+◌, ◌*◌, ◌/◌, ◌%◌, ◌^◌, ◌<◌, ◌≤◌, ◌≡◌, refl, ap, ◌∙◌, inl, inr, true, false, List, [], ◌∷◌,
  arith, length, ltb, ◌==◌, if◌then◌else◌, Bool-cases, All, has, count, sub32, u32_mod,
}
use ferris_file_system.FsError.{StorageFullKind, storage_full, inode_table_full, data_region_full}
use ferris_file_system.Effect.{Run, ok, err, Op, and_then}
use ferris_file_system.Effect.Returns
use ferris_file_system.Effect.Returns.{Returns, returns}
use ferris_file_system.Device.{Block, Store, IsBlock, IsLawful, BlockDevice, update, zero_block}
use ferris_file_system.Device.Memory.Laws.{zero_block-IsBlock}
use ferris_file_system.Codec.Fields.{write_fields-IsBlock}
use ferris_file_system.Superblock.{Superblock}
use ferris_file_system.Superblock
use ferris_file_system.Bitmap.{BitmapAllocator, find_free}
use ferris_file_system.Bitmap
use ferris_file_system.Bitmap.View.{bit_of}
use ferris_file_system.Bitmap.Modify.{IsPlaced, InMap, Marked, allocate-Marked}
use ferris_file_system.Bitmap.Free.{Chosen, find_free-Chosen}
use ferris_file_system.Format.{FormatV1, Volume, set_format, take_free, allocate}
use ferris_file_system.Format.Running.{on_device_lem}

All-count : (P : ℕ → Type 0) (xs : List ℕ) → ((i : ℕ) → 0 < count i xs → P i) → All P xs
unfolding count
All-count P [] h = tt
All-count P (x ∷ xs) h =
    let self : (x == x) ≡ true = ground arith in
    (
      h x (rw self (omega arith)),
      All-count P xs λ i lt. h i (elim (Bool-cases (x == i)) [
        | inl e ↦ rw e (omega arith)
        | inr e ↦ rw e (omega (arith, lt))
      ]),
    )

bit_of_same :
    (f g : Store) (start i : ℕ)
    → g (start + i / 8 / 256) ≡ f (start + i / 8 / 256)
    → bit_of g start i ≡ bit_of f start i
unfolding bit_of
bit_of_same f g start i e = rw e refl

-- Both bitmaps lie on the device behind the superblock, the one of the inodes first, and the last
-- allocated index of each lies in it.
pub record IsVolume (m : FormatV1) (n : ℕ) : Type 0 where
  pub inodes_placed : IsPlaced m.inode_allocator n
  pub blocks_placed : IsPlaced m.block_allocator n
  pub behind : 1 ≤ m.inode_allocator.start
  pub apart : m.inode_allocator.start + m.inode_allocator.size ≤ m.block_allocator.start
  pub inodes_last : m.inode_allocator.last_alloc / 8 / 256 < m.inode_allocator.size
  pub blocks_last : m.block_allocator.last_alloc / 8 / 256 < m.block_allocator.size
  pub inodes_wide : m.inode_allocator.size * 2048 ≤ 2 ^ 32
  pub blocks_wide : m.block_allocator.size * 2048 ≤ 2 ^ 32

module _ {D : Type 0} {dev : BlockDevice D} (l : IsLawful dev) (n : ℕ) where
  module _ (m : FormatV1) (is : IsVolume m n) (f : Store) (inodes blocks : ℕ) where
    -- What a successful allocation leaves.
    pub record Allocated (out : List ℕ × List ℕ) (v : Volume D) : Type 0 where
      pub store : Store
      pub holds : l.Represents v.device store n
      pub inode_bits :
          (i : ℕ)
          → InMap m.inode_allocator i
          → bit_of store m.inode_allocator.start i
            ≡ (if has i out.0 then true else bit_of f m.inode_allocator.start i)
      pub block_bits :
          (i : ℕ)
          → InMap m.block_allocator i
          → bit_of store m.block_allocator.start i
            ≡ (if has i out.1 then true else bit_of f m.block_allocator.start i)
      pub counts : v.format.superblock ≡ record m.superblock {
        free_data = sub32 m.superblock.free_data blocks;
        free_inodes = sub32 m.superblock.free_inodes inodes;
      }
      pub stored : store 0 ≡ Superblock.serialize v.format.superblock zero_block

    -- The store after both allocations and the write of block 0.
    store_after :
        (inode_inds data_inds : List ℕ) (g1 g2 : Store) (b : Block) (v : Volume D)
        → Marked l m.inode_allocator n is.inodes_placed true inode_inds f g1
        → Marked l m.block_allocator n is.blocks_placed true data_inds g1 g2
        → l.Represents v.device (update g2 0 b) n
        → v.format.superblock ≡ record m.superblock {
          free_data = sub32 m.superblock.free_data blocks;
          free_inodes = sub32 m.superblock.free_inodes inodes;
        }
        → b ≡ Superblock.serialize v.format.superblock zero_block
        → Allocated (inode_inds, data_inds) v
    unfolding update
    store_after inode_inds data_inds g1 g2 b v marked1 marked2 r counted written =
        let is1 = m.inode_allocator.start in
        let bs = m.block_allocator.start in
        let kept : (j : ℕ) → 1 ≤ j → update g2 0 b j ≡ g2 j =
          λ j le. let no : (0 == j) ≡ false = ground (arith, le) in rw no refl in
        record {
          store = update g2 0 b;
          holds = r;
          inode_bits = λ i inside.
              bit_of_same g1 (update g2 0 b) is1 i (
                kept (is1 + i / 8 / 256) (omega (arith, is.behind))
                ∙ marked2.outside (is1 + i / 8 / 256) (inl (omega (arith, is.apart, inside))))
              ∙ marked1.bits i;
          block_bits = λ i inside.
              let at : 1 ≤ bs + i / 8 / 256 = omega (arith, is.behind, is.apart) in
              let before =
                bit_of_same f g1 bs i
                  (marked1.outside (bs + i / 8 / 256) (inr (omega (arith, is.apart)))) in
              bit_of_same g2 (update g2 0 b) bs i (kept (bs + i / 8 / 256) at)
              ∙ marked2.bits i
              ∙ ap (λ x. if has i data_inds then true else x) before;
          counts = counted;
          stored = written;
        }

    serialize-IsBlock : (s : Superblock) → IsBlock (Superblock.serialize s zero_block)
    unfolding Superblock.serialize
    serialize-IsBlock s = write_fields-IsBlock (Superblock.fields s) zero_block 0 zero_block-IsBlock

    take_free_lem :
        (inode_inds data_inds : List ℕ) (d : D)
        → l.Represents d f n
        → All (InMap m.inode_allocator) inode_inds
        → All (InMap m.block_allocator) data_inds
        → Returns
            (λ out v. Allocated out v × (out ≡ (inode_inds, data_inds)))
            (take_free dev inodes blocks inode_inds data_inds (record { device = d; format = m }))
    unfolding take_free set_format
    take_free_lem inode_inds data_inds d r in_inodes in_blocks =
        let ip = is.inodes_placed in
        let bp = is.blocks_placed in
        Returns.bind
          (on_device_lem (Bitmap.allocate dev m.inode_allocator inode_inds) _
            (allocate-Marked l m.inode_allocator n ip inode_inds d f r in_inodes))
          λ a1 v1 (d1, e1, (g1, r1, marked1, adv1)). rw e1 (
            Returns.bind
              (on_device_lem (Bitmap.allocate dev m.block_allocator data_inds) _
                (allocate-Marked l m.block_allocator n bp data_inds d1 g1 r1 in_blocks))
              λ a2 v2 (d2, e2, (g2, r2, marked2, adv2)).
                let s = record m.superblock {
                  free_data = sub32 m.superblock.free_data blocks;
                  free_inodes = sub32 m.superblock.free_inodes inodes;
                } in
                rw e2 (
                  Returns.bind
                    (on_device_lem (dev.write_block 0 (Superblock.serialize s zero_block)) _ (
                      l.write_lem d2 g2 n 0 _ r2 (omega (arith, is.behind, ip.fits, is.inodes_last))
                        (serialize-IsBlock s)))
                    λ _ v3 (d3, e3, r3). rw e3 (
                      returns (
                        store_after inode_inds data_inds g1 g2 _ _ marked1 marked2 r3 refl refl,
                        refl,
                      ))))

    -- Where the lists come from: free indices, each once.
    abbrev pub FreeInodes : List ℕ → Type 0
    FreeInodes xs = (i : ℕ) → 0 < count i xs → Chosen l m.inode_allocator n is.inodes_placed f i xs

    abbrev pub FreeBlocks : List ℕ → Type 0
    FreeBlocks xs = (i : ℕ) → 0 < count i xs → Chosen l m.block_allocator n is.blocks_placed f i xs

    -- How `allocate` ends: all is allocated, or the storage is full and the device is as it was.
    pub data Outcome : Run (Volume D) (List ℕ × List ℕ) → Type 0 where
      done :
          {out : List ℕ × List ℕ} {v : Volume D}
          → Allocated out v
          → length out.0 ≡ inodes
          → length out.1 ≡ blocks
          → FreeInodes out.0
          → FreeBlocks out.1
          → Outcome (ok out v)
      full :
          {kind : StorageFullKind} {requested available : ℕ} {v : Volume D}
          → l.Represents v.device f n
          → available < requested
          → Outcome (err (storage_full kind requested available) v)

    and_then-Outcome :
        {A : Type 0} {P : A → Volume D → Type 0} {r : Run (Volume D) A}
        {k : A → Op (Volume D) (List ℕ × List ℕ)}
        → Returns P r
        → ((a : A) (v : Volume D) → P a v → Outcome (k a v))
        → Outcome (and_then r k)
    and_then-Outcome (returns p) next = next _ _ p

    finish_lem :
        (inode_inds data_inds : List ℕ) {r : Run (Volume D) (List ℕ × List ℕ)}
        → Returns (λ out v. Allocated out v × (out ≡ (inode_inds, data_inds))) r
        → length inode_inds ≡ inodes
        → length data_inds ≡ blocks
        → FreeInodes inode_inds
        → FreeBlocks data_inds
        → Outcome r
    finish_lem inode_inds data_inds (returns (p, e)) ni nd fi fd =
        done p (rw e ni) (rw e nd) (rw e fi) (rw e fd)

    -- After both searches.
    enough_found :
        (xs ys : List ℕ) (d : D)
        → l.Represents d f n
        → length xs ≤ inodes
        → length ys ≤ blocks
        → FreeInodes xs
        → FreeBlocks ys
        → Outcome (
            (if ltb (length xs) inodes
                then (λ w.
                    err (storage_full inode_table_full inodes (length xs % u32_mod)) (record w {
                      format = record m {
                        superblock = record m.superblock { free_inodes = length xs % u32_mod };
                      };
                    }))
                else if ltb (length ys) blocks
                then (λ w.
                    err (storage_full data_region_full blocks (length ys % u32_mod)) (record w {
                      format = record m {
                        superblock = record m.superblock { free_data = length ys % u32_mod };
                      };
                    }))
                else take_free dev inodes blocks xs ys)
              (record { device = d; format = m }))
    enough_found xs ys d r le1 le2 free1 free2 = elim (Bool-cases (ltb (length xs) inodes)) [
      | inl few ↦ rw few (full r (ground (arith, few)))
      | inr all_inodes ↦ elim (Bool-cases (ltb (length ys) blocks)) [
        | inl few ↦ rw (all_inodes, few) (full r (ground (arith, few)))
        | inr all_blocks ↦
            rw (all_inodes, all_blocks)
              (finish_lem xs ys
                (take_free_lem xs ys d r
                  (All-count (InMap m.inode_allocator) xs
                    λ i lt. let c = (free1 i lt).inside_map in omega arith)
                  (All-count (InMap m.block_allocator) ys
                    λ i lt. let c = (free2 i lt).inside_map in omega arith))
                (ground (arith, all_inodes, le1)) (ground (arith, all_blocks, le2)) free1 free2)
      ]
    ]

    -- `allocate` never panics. Either it returns as many inodes and data blocks as it was asked for,
    -- free before and each listed once, their bits and no others of the two bitmaps are now set, and
    -- the reduced counts are in the superblock on the device; or it fails with `StorageFull`, with
    -- fewer available than requested, and the contents of the device are as they were.
    pub allocate-Outcome :
        (d : D)
        → l.Represents d f n
        → Outcome (allocate dev inodes blocks (record { device = d; format = m }))
    unfolding allocate
    allocate-Outcome d r =
        let s = m.superblock in
        elim (Bool-cases (ltb s.free_inodes inodes)) [
          | inl few ↦ rw few (full r (ground (arith, few)))
          | inr enough ↦ elim (Bool-cases (ltb s.free_data blocks)) [
            | inl few ↦ rw (enough, few) (full r (ground (arith, few)))
            | inr enough_data ↦
                rw (enough, enough_data)
                  (and_then-Outcome
                    (on_device_lem (find_free dev m.inode_allocator inodes) _ (
                      find_free-Chosen l m.inode_allocator n is.inodes_placed f inodes d r
                        is.inodes_last is.inodes_wide))
                    λ xs v1 (d1, e1, (r1, len1, free1)). rw e1 (
                      and_then-Outcome
                        (on_device_lem (find_free dev m.block_allocator blocks) _ (
                          find_free-Chosen l m.block_allocator n is.blocks_placed f blocks d1 r1
                            is.blocks_last is.blocks_wide))
                        λ ys v2 (d2, e2, (r2, len2, free2)).
                          rw e2 (enough_found xs ys d2 r2 len1 len2 free1 free2)))
          ]
        ]
