-- ===== src/Bitmap/Counting.antt =====
-- `count_allocated` of src/formats/v1/bitmap_allocator.rs counts the set bits below `max_index`.
use ferris_file_system.Prelude.{ℕ, zero, suc, ◌+◌, ◌*◌, ◌^◌, ◌<◌, ◌≤◌, ◌≡◌, refl, arith, add32}
use ferris_file_system.Effect.{Op, pure}
use ferris_file_system.Effect.Returns
use ferris_file_system.Effect.Returns.{Returns, returns}
use ferris_file_system.Device.{Store, IsLawful, BlockDevice}
use ferris_file_system.Bitmap.{BitmapAllocator, Count, go_on, stop, count_blocks, count_allocated}
use ferris_file_system.Bitmap.Modify.{IsPlaced}
use ferris_file_system.Bitmap.CountBytes.{
  tally, tally-nil, tally-le, tally-add, tally-zero, Counted, went_on, stopped, used_in, unused,
  count_bytes_lem,
}

module _ {D : Type 0} {dev : BlockDevice D} (l : IsLawful dev) (a : BitmapAllocator) (n : ℕ)
    (placed : IsPlaced a n) (f : Store) where
  open a use {start, size, max_index}

  -- What `count_blocks` does behind one block.
  counted_on : Count → (ℕ → Op D ℕ) → Op D ℕ
  counted_on c on = elim c [ go_on c' ↦ on c' | stop c' ↦ pure c' ]

  -- The set bits below `max_index` among `k` indices from `lo` on.
  abbrev pub allocated : ℕ → ℕ → ℕ
  allocated = tally (used_in max_index f start)

  counted_on_lem :
      (before lo k mid m hi : ℕ) (c : Count) (on : ℕ → Op D ℕ) (d : D)
      → lo + k ≡ mid
      → mid ≤ hi
      → l.Represents d f n
      → Counted max_index before (allocated lo k) mid c
      → Returns
          (λ r d'. l.Represents d' f n × (r ≡ before + allocated lo k + allocated mid m))
          (on (before + allocated lo k) d)
      → Returns
          (λ r d'. l.Represents d' f n × (r ≡ before + allocated lo (k + m)))
          (counted_on c on d)
  unfolding counted_on
  counted_on_lem before lo k mid m hi c on d e le r (went_on eq) second = rw eq (
      Returns.mono second
        λ x d' (r', v). (r', omega (arith, v, tally-add (used_in max_index f start) k m lo mid e)))
  counted_on_lem before lo k mid m hi c on d e le r (stopped eq past) second =
      let none_left : allocated mid m ≡ 0 =
        tally-zero (used_in max_index f start) m mid
          (λ i a b. unused max_index start f i (omega arith)) in
      rw eq
        (returns (r, omega (arith, none_left, tally-add (used_in max_index f start) k m lo mid e)))

  count_blocks_lem :
      (rounds i before : ℕ) (d : D)
      → l.Represents d f n
      → i + rounds ≡ size
      → size * 2048 < 2 ^ 32
      → before + rounds * 2048 < 2 ^ 32
      → Returns
          (λ r d'. l.Represents d' f n × (r ≡ before + allocated (i * 2048) (rounds * 2048)))
          (count_blocks dev a rounds i before d)
  unfolding count_blocks counted_on
  count_blocks_lem zero i before d r e wide small =
      returns (r, omega (arith, tally-nil (used_in max_index f start) (i * 2048)))
  count_blocks_lem (suc rounds) i before d r e wide small =
      let addr : add32 i start ≡ start + i = omega (arith, placed.fits, placed.small) in
      let lo : i * 2048 ≡ (0 + i * 256) * 8 = omega arith in
      let count : suc rounds * 2048 ≡ 256 * 8 + rounds * 2048 = omega arith in
      let here = tally-le (used_in max_index f start) (256 * 8) ((0 + i * 256) * 8) in
      rw (addr, lo, count)
        (Returns.bind (l.read_lem d f n (start + i) r (omega (arith, placed.fits)))
          λ buf d' (got, r'). rw got (
            counted_on_lem before ((0 + i * 256) * 8) (256 * 8) ((i + 1) * 2048) (rounds * 2048)
              ((i + 1) * 2048) _ (count_blocks dev a rounds (i + 1)) d' (omega arith) (omega arith)
              r'
              (count_bytes_lem max_index start f (l.block_lem d' f n r') i (omega arith) 256 0
                before refl (omega arith))
              (count_blocks_lem rounds (i + 1) _ d' r' (omega arith) wide (omega (arith, here)))))

  -- `count_allocated` succeeds, leaves the device's contents alone, and returns the number of
  -- indices of the bitmap below `max_index` whose bit is set.
  pub count_allocated-tally :
      (d : D)
      → l.Represents d f n
      → size * 2048 < 2 ^ 32
      → Returns
          (λ r d'. l.Represents d' f n × (r ≡ allocated 0 (size * 2048)))
          (count_allocated dev a d)
  unfolding count_allocated
  count_allocated-tally d r wide =
      Returns.mono (count_blocks_lem size 0 0 d r (omega arith) wide (omega arith))
        λ c d' (r', v). (r', omega (arith, v))
