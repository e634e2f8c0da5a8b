-- ===== src/Format/Integrity/ReadOnly.antt =====
-- `check_integrity` of src/formats/v1/format.rs only reads.
use ferris_file_system.Prelude.{
  ℕ, zero, suc, ◌+◌, ◌-◌, Bool, true, false, not, Option, none, some, List, [], ◌∷◌, ltb, leb, ◌==◌,
  if◌then◌else◌, by_cases,
}
use ferris_file_system.Effect.{Op, pure}
use ferris_file_system.Effect.Keeps
use ferris_file_system.Effect.Keeps.{Keeps, kept, kept_err, kept_panic}
use ferris_file_system.Device.{BlockDevice, block_size}
use ferris_file_system.File.{FileType, file}
use ferris_file_system.Bitmap.{
  BitmapAllocator, Count, go_on, stop, count_bytes, is_allocated, count_blocks, count_allocated,
}
use ferris_file_system.Inode.{Inode, direct_count, indirect_count, double_count, max_blocks}
use ferris_file_system.InodeTable.{
  InodeTableHandler, max_inode_index, read_inode, resolve_indirect, get_block,
}
use ferris_file_system.IntegrityChecker.{IntegrityError, IntegrityCheckerBitmap, visit, visited}
use ferris_file_system.Format.{FormatV1}
use ferris_file_system.Format.Integrity.{
  Checked, or_crash, iterate_block_unchecked, check_entries_in_block, check_inode_allocation,
  visit_data, check_inode_blocks, check_inode, check_directory_blocks, check_others, check_each,
  check_recursive, check_reached, check_bitmaps, check_integrity,
}

-- Any property of the device that reading a block keeps.
module _ {D : Type 0} (dev : BlockDevice D) (I : D → Type 0)
    (reads : (i : ℕ) (d : D) → I d → Keeps I (dev.read_block i d)) where
  is_allocated_keeps :
      (a : BitmapAllocator) (i : ℕ) (d : D) → I d → Keeps I (is_allocated dev a i d)
  unfolding is_allocated
  is_allocated_keeps a i d held =
      by_cases (ltb a.max_index i) (λ e. rw e (kept held))
        λ e. rw e (Keeps.bind (reads _ d held) λ buf d1 held1. kept held1)

  counted_keeps :
      (c : Count) (next : ℕ → Op D ℕ)
      → ((count : ℕ) (d : D) → I d → Keeps I (next count d))
      → (d : D) → I d
      → let op : Op D ℕ = elim c [ go_on count ↦ next count | stop count ↦ pure count ] in
        Keeps I (op d)
  counted_keeps (go_on count) next keeps d held = keeps count d held
  counted_keeps (stop count) next keeps d held = kept held

  count_blocks_keeps :
      (a : BitmapAllocator) (rounds i count : ℕ) (d : D)
      → I d
      → Keeps I (count_blocks dev a rounds i count d)
  unfolding count_blocks
  count_blocks_keeps a zero i count d held = kept held
  count_blocks_keeps a (suc rounds) i count d held = Keeps.bind (reads _ d held) λ buf d1 held1.
      counted_keeps (count_bytes a.max_index i block_size 0 buf count)
        (count_blocks dev a rounds (i + 1)) (count_blocks_keeps a rounds (i + 1)) d1 held1

  if_keeps :
      {A : Type 0} (b : Bool) (x y : Op D A) (d : D)
      → Keeps I (x d)
      → Keeps I (y d)
      → Keeps I ((if b then x else y) d)
  if_keeps true x y d p q = p
  if_keeps false x y d p q = q

  read_inode_keeps : (t : InodeTableHandler) (i : ℕ) (d : D) → I d → Keeps I (read_inode dev t i d)
  unfolding read_inode
  read_inode_keeps t i d held =
      by_cases (leb (max_inode_index t) i) (λ e. rw e (kept_err held))
        λ e. rw e (Keeps.bind (reads _ d held) λ buf d1 held1. kept held1)

  resolve_indirect_keeps :
      (t : InodeTableHandler) (indirect i : ℕ) (d : D)
      → I d
      → Keeps I (resolve_indirect dev t indirect i d)
  unfolding resolve_indirect
  resolve_indirect_keeps t indirect i d held =
      Keeps.bind (reads _ d held) λ buf d1 held1. kept held1

  get_block_keeps :
      (t : InodeTableHandler) (inode : Inode) (i : ℕ) (d : D)
      → I d
      → Keeps I (get_block dev t inode i d)
  unfolding get_block
  get_block_keeps t inode i d held =
      by_cases (leb max_blocks i) (λ e. rw e (kept_err held))
        λ e1.
          by_cases (leb inode.blocks i) (λ e. rw (e1, e) (kept_err held))
            λ e2.
              by_cases (ltb i direct_count) (λ e. rw (e1, e2, e) (kept held))
                λ e3.
                  by_cases (ltb (i - direct_count) indirect_count)
                    (λ e. rw (e1, e2, e3, e) (resolve_indirect_keeps t inode.indirect _ d held))
                    λ e4.
                      by_cases (ltb (i - direct_count - indirect_count) double_count)
                        (λ e.
                          rw (e1, e2, e3, e4, e)
                            (Keeps.bind (resolve_indirect_keeps t inode.double _ d held)
                              λ indirect d1 held1. resolve_indirect_keeps t indirect _ d1 held1))
                        λ e. rw (e1, e2, e3, e4, e) (kept_err held)

  or_crash_keeps :
      (m : FormatV1) {A : Type 0} (o : Option A) (d : D) → I d → Keeps I (or_crash dev m o d)
  unfolding or_crash
  or_crash_keeps m none d held = kept_panic
  or_crash_keeps m (some a) d held = kept held

  module _ (m : FormatV1) where
    check_entries_keeps :
        (block : ℕ) (first : Bool) (inode : ℕ) (dirs others : List ℕ) (d : D)
        → I d
        → Keeps I (check_entries_in_block dev m block first inode dirs others d)
    unfolding check_entries_in_block iterate_block_unchecked
    check_entries_keeps block first inode dirs others d held =
        Keeps.bind (reads _ d held) λ buf d1 held1. or_crash_keeps m _ d1 held1

    check_inode_allocation_keeps :
        (i : ℕ) (c : Checked) (d : D) → I d → Keeps I (check_inode_allocation dev m i c d)
    unfolding check_inode_allocation
    check_inode_allocation_keeps i c d held =
        Keeps.bind (is_allocated_keeps m.inode_allocator i d held) λ allocated d1 held1.
          by_cases allocated
            (λ e. rw e (
              Keeps.bind (or_crash_keeps m (visit c.visited_inodes i) d1 held1)
                λ b d2 held2. kept held2))
            λ e. rw e (kept held1)

    visit_data_keeps : (b : ℕ) (c : Checked) (d : D) → I d → Keeps I (visit_data dev m b c d)
    unfolding visit_data
    visit_data_keeps b c d held =
        Keeps.bind (or_crash_keeps m (visit c.visited_blocks b) d held) λ x d1 held1. kept held1

    check_inode_blocks_keeps :
        (inode : Inode) (ind i rounds : ℕ) (c : Checked) (d : D)
        → I d
        → Keeps I (check_inode_blocks dev m inode ind i rounds c d)
    unfolding check_inode_blocks
    check_inode_blocks_keeps inode ind i zero c d held = kept held
    check_inode_blocks_keeps inode ind i (suc rounds) c d held =
        Keeps.bind (get_block_keeps m.inode_handler inode i d held) λ b d1 held1.
          Keeps.bind (is_allocated_keeps m.block_allocator b d1 held1) λ allocated d2 held2.
            Keeps.bind (visit_data_keeps b _ d2 held2)
              λ c' d3 held3. check_inode_blocks_keeps inode ind (i + 1) rounds c' d3 held3

    check_inode_keeps :
        (i : ℕ) (type_ : FileType) (c : Checked) (d : D)
        → I d
        → Keeps I (check_inode dev m i type_ c d)
    unfolding check_inode
    check_inode_keeps i type_ c d held =
        Keeps.bind (read_inode_keeps m.inode_handler i d held)
          λ inode d1 held1. check_inode_blocks_keeps inode i 0 inode.blocks _ d1 held1

    check_directory_blocks_keeps :
        (inode : Inode) (ind i rounds : ℕ) (dirs others : List ℕ) (c : Checked) (d : D)
        → I d
        → Keeps I (check_directory_blocks dev m inode ind i rounds dirs others c d)
    unfolding check_directory_blocks
    check_directory_blocks_keeps inode ind i zero dirs others c d held = kept held
    check_directory_blocks_keeps inode ind i (suc rounds) dirs others c d held =
        Keeps.bind (get_block_keeps m.inode_handler inode i d held) λ b d1 held1.
          Keeps.bind (is_allocated_keeps m.block_allocator b d1 held1) λ allocated d2 held2.
            by_cases allocated
              (λ e. rw e (
                Keeps.bind (visit_data_keeps b _ d2 held2) λ c' d3 held3.
                  Keeps.bind (check_entries_keeps b (i == 0) ind dirs others d3 held3)
                    λ seen d4 held4.
                      check_directory_blocks_keeps inode ind (i + 1) rounds _ _ _ d4 held4))
              λ e.
                rw e (check_directory_blocks_keeps inode ind (i + 1) rounds dirs others _ d2 held2)

    check_others_keeps :
        (is : List ℕ) (c : Checked) (d : D) → I d → Keeps I (check_others dev m is c d)
    unfolding check_others
    check_others_keeps [] c d held = kept held
    check_others_keeps (i ∷ is) c d held =
        Keeps.bind (check_inode_allocation_keeps i c d held) λ c1 d1 held1.
          Keeps.bind (check_inode_keeps i file c1 d1 held1)
            λ c2 d2 held2. check_others_keeps is c2 d2 held2

    check_each_keeps :
        (check : ℕ → Checked → Op D Checked)
        → ((i : ℕ) (c : Checked) (d : D) → I d → Keeps I (check i c d))
        → (is : List ℕ) (c : Checked) (d : D) → I d
        → Keeps I (check_each dev m check is c d)
    unfolding check_each
    check_each_keeps check keeps [] c d held = kept held
    check_each_keeps check keeps (i ∷ is) c d held =
        Keeps.bind (keeps i c d held) λ c1 d1 held1. check_each_keeps check keeps is c1 d1 held1

    check_recursive_keeps :
        (depth i : ℕ) (c : Checked) (d : D) → I d → Keeps I (check_recursive dev m depth i c d)
    unfolding check_recursive
    check_recursive_keeps zero i c d held = kept_panic
    check_recursive_keeps (suc depth) i c d held =
        Keeps.bind (check_inode_allocation_keeps i c d held) λ c1 d1 held1.
          Keeps.bind (read_inode_keeps m.inode_handler i d1 held1) λ inode d2 held2.
            Keeps.bind (check_directory_blocks_keeps inode i 0 inode.blocks [] [] _ d2 held2)
              λ x d3 held3. Keeps.bind (check_others_keeps x.2 x.0 d3 held3) λ c3 d4 held4.
                check_each_keeps (check_recursive dev m depth) (check_recursive_keeps depth) x.1 c3
                  d4 held4

    check_reached_keeps :
        (a : BitmapAllocator) (b : IntegrityCheckerBitmap) (error : ℕ → IntegrityError)
        (i rounds : ℕ) (errors : List IntegrityError) (d : D)
        → I d
        → Keeps I (check_reached dev m (is_allocated dev a) b error i rounds errors d)
    unfolding check_reached
    check_reached_keeps a b error i zero errors d held = kept held
    check_reached_keeps a b error i (suc rounds) errors d held =
        Keeps.bind (is_allocated_keeps a i d held) λ allocated d1 held1.
          by_cases allocated
            (λ e. rw e (
              Keeps.bind (or_crash_keeps m (visited b i) d1 held1)
                λ reached d2 held2. check_reached_keeps a b error (i + 1) rounds _ d2 held2))
            λ e. rw e (check_reached_keeps a b error (i + 1) rounds errors d1 held1)

    -- `check_integrity` never changes what it checks: whatever the device holds, and however the
    -- check ends, the device keeps every property that reading a block keeps.
    pub check_integrity-Keeps : (depth : ℕ) (d : D) → I d → Keeps I (check_integrity dev m depth d)
    unfolding check_integrity check_bitmaps count_allocated
    check_integrity-Keeps depth d held =
        Keeps.bind (count_blocks_keeps m.inode_allocator m.inode_allocator.size 0 0 d held)
          λ inodes d1 held1.
            Keeps.bind (count_blocks_keeps m.block_allocator m.block_allocator.size 0 0 d1 held1)
              λ blocks d2 held2. Keeps.bind (check_recursive_keeps depth _ _ d2 held2) λ c d3 held3.
                Keeps.bind
                  (if_keeps (ltb c.visited_inodes.count inodes) _ _ d3
                    (check_reached_keeps m.inode_allocator c.visited_inodes _ 0 _ c.result d3 held3)
                    (kept held3))
                  λ errors d4 held4.
                    if_keeps (not (blocks == c.visited_blocks.count)) _ _ d4
                      (check_reached_keeps m.block_allocator c.visited_blocks _ 0 _ errors d4 held4)
                      (kept held4)
