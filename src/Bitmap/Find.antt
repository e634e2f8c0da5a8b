-- ===== src/Bitmap/Find.antt =====
-- `find_free` of src/formats/v1/bitmap_allocator.rs: which indices it returns, in which order, and
-- which it never looks at.
use mathlib.Core.List.{append-nil}
use ferris_file_system.Prelude.{
  ℕ, zero, suc, ◌+◌, ◌-◌, ◌*◌, ◌/◌, ◌%◌, ◌^◌, ◌<◌, ◌≤◌, ◌≡◌, refl, sym, ◌⊎◌, inl, inr, Bool, true,
  false, List, [], ◌++◌, arith, length, take, ◌==◌, Bool-cases, take_of_length-le,
  take-append_of_le, add32,
}
use ferris_file_system.Effect.{Op, ◌>>=◌, pure}
use ferris_file_system.Effect.Returns
use ferris_file_system.Effect.Returns.{Returns, returns}
use ferris_file_system.Device.{Store, IsLawful, BlockDevice}
use ferris_file_system.Bitmap.{
  BitmapAllocator, Flow, next, brk, ret, scan_bytes, scan_blocks, unpack_index, find_free,
}
use ferris_file_system.Bitmap.Modify.{IsPlaced}
use ferris_file_system.Bitmap.ScanBits.{
  frees, Scanned, went_on, broke_off, returned, Scanned-next, Scanned-brk, Scanned-ret, taken_in,
}
use ferris_file_system.Bitmap.Scan.{above, scan_bytes_lem}

module _ {D : Type 0} {dev : BlockDevice D} (l : IsLawful dev) (a : BitmapAllocator) (n : ℕ)
    (placed : IsPlaced a n) (f : Store) where
  open a use {start, size, max_index}

  -- An index is past the end, or its bit is set.
  abbrev pub taken : ℕ → Bool
  taken = taken_in max_index f start

  after_bytes : Flow → (List ℕ → Op D Flow) → Op D Flow
  after_bytes flow k = elim flow [
    | next res ↦ k res
    | brk res ↦ pure (brk res)
    | ret res ↦ pure (ret res)
  ]

  after_bytes_lem :
      (num : ℕ) (acc : List ℕ) (lo k mid m hi : ℕ)
      → lo + k ≡ mid
      → mid ≤ hi
      → (flow : Flow) (on : List ℕ → Op D Flow) (d : D) → l.Represents d f n
      → Scanned num max_index acc (frees taken lo k) mid flow
      → ((acc' : List ℕ)
          → length acc' < num
          → Returns
              (λ fl d'. l.Represents d' f n × Scanned num max_index acc' (frees taken mid m) hi fl)
              (on acc' d))
      → Returns
          (λ fl d'. l.Represents d' f n × Scanned num max_index acc (frees taken lo (k + m)) hi fl)
          (after_bytes flow on d)
  unfolding after_bytes
  after_bytes_lem num acc lo k mid m hi e le flow on d r (went_on eq lt) second = rw eq (
      Returns.mono (second _ lt) λ fl d' (r', s).
        (r', Scanned-next num max_index taken (above max_index start f) acc lo k mid m hi e fl s))
  after_bytes_lem num acc lo k mid m hi e le flow on d r (broke_off eq lt past) second = rw eq (
      returns (
        r,
        Scanned-brk num max_index taken (above max_index start f) acc lo k mid m hi e le lt past,
      ))
  after_bytes_lem num acc lo k mid m hi e le flow on d r (returned eq full) second = rw eq (
      returns
        (r, Scanned-ret num max_index taken (above max_index start f) acc lo k mid m hi e full))

  -- One block, read from the byte `j` on, and then the blocks behind it.
  block_lem :
      (num i j rounds : ℕ) (acc : List ℕ) (d : D) (on : List ℕ → Op D Flow)
      → l.Represents d f n
      → j ≤ 256
      → i + suc rounds ≤ size
      → length acc < num
      → size * 2048 ≤ 2 ^ 32
      → ((acc' : List ℕ) (d' : D)
          → l.Represents d' f n
          → length acc' < num
          → Returns
              (λ fl d'.
                l.Represents d' f n
                × Scanned num max_index acc'
                    (frees taken ((i + 1) * 2048) (rounds * 2048))
                    ((i + suc rounds) * 2048)
                    fl)
              (on acc' d'))
      → Returns
          (λ fl d'.
            l.Represents d' f n
            × Scanned num max_index acc
                (frees taken ((j + i * 256) * 8) ((256 - j) * 8 + rounds * 2048))
                ((i + suc rounds) * 2048)
                fl)
          (after_bytes (scan_bytes max_index num i (256 - j) j (f (start + i)) acc) on d)
  block_lem num i j rounds acc d on r hj le lt wide more =
      after_bytes_lem num acc ((j + i * 256) * 8) ((256 - j) * 8) ((i + 1) * 2048) (rounds * 2048)
        ((i + suc rounds) * 2048) (omega arith) (omega arith) _ on d r
        (scan_bytes_lem num max_index start f (l.block_lem d f n r) i (omega arith) (256 - j) j acc
          (omega arith) lt)
        (λ acc' lt'. more acc' d r lt')

  -- The rest of a loop over the blocks, none of which is entered in its middle.
  scan_blocks_lem :
      (num first start_byte rounds i : ℕ) (acc : List ℕ) (d : D)
      → l.Represents d f n
      → (first < i) ⊎ (i + rounds ≤ first)
      → i + rounds ≤ size
      → length acc < num
      → size * 2048 ≤ 2 ^ 32
      → Returns
          (λ fl d'.
            l.Represents d' f n
            × Scanned num max_index acc
                (frees taken (i * 2048) (rounds * 2048))
                ((i + rounds) * 2048)
                fl)
          (scan_blocks dev a num first start_byte rounds i acc d)
  unfolding scan_blocks after_bytes frees
  scan_blocks_lem num first start_byte zero i acc d r away le lt wide =
      returns (r, went_on (rw append-nil) (rw append-nil lt))
  scan_blocks_lem num first start_byte (suc rounds) i acc d r away le lt wide =
      let other : (i == first) ≡ false = ground arith in
      let addr : add32 i start ≡ start + i = omega (arith, placed.fits, placed.small) in
      let lo : i * 2048 ≡ (0 + i * 256) * 8 = omega arith in
      let count : suc rounds * 2048 ≡ (256 - 0) * 8 + rounds * 2048 = omega arith in
      rw (addr, other, lo, count)
        (Returns.bind (l.read_lem d f n (start + i) r (omega (arith, placed.fits)))
          λ buf d' (got, r'). rw got (
            block_lem num i 0 rounds acc d' _ r' (omega arith) le lt wide λ acc' d2 r2 lt2.
              let end : (i + suc rounds) * 2048 ≡ (i + 1 + rounds) * 2048 = omega arith in
              rw end (
                scan_blocks_lem num first start_byte rounds (i + 1) acc' d2 r2 (ground arith)
                  (omega arith) lt2 wide)))

  -- A loop whose first block is entered at `start_byte`.
  scan_blocks_first :
      (num start_byte rounds i : ℕ) (acc : List ℕ) (d : D)
      → l.Represents d f n
      → start_byte ≤ 256
      → i + suc rounds ≤ size
      → length acc < num
      → size * 2048 ≤ 2 ^ 32
      → Returns
          (λ fl d'.
            l.Represents d' f n
            × Scanned num max_index acc
                (frees taken ((start_byte + i * 256) * 8) ((256 - start_byte) * 8 + rounds * 2048))
                ((i + suc rounds) * 2048)
                fl)
          (scan_blocks dev a num i start_byte (suc rounds) i acc d)
  unfolding scan_blocks after_bytes
  scan_blocks_first num start_byte rounds i acc d r hb le lt wide =
      let same : (i == i) ≡ true = ground arith in
      let addr : add32 i start ≡ start + i = omega (arith, placed.fits, placed.small) in
      rw (addr, same)
        (Returns.bind (l.read_lem d f n (start + i) r (omega (arith, placed.fits)))
          λ buf d' (got, r'). rw got (
            block_lem num i start_byte rounds acc d' _ r' hb le lt wide λ acc' d2 r2 lt2.
              let end : (i + suc rounds) * 2048 ≡ (i + 1 + rounds) * 2048 = omega arith in
              rw end (
                scan_blocks_lem num i start_byte rounds (i + 1) acc' d2 r2 (ground arith)
                  (omega arith) lt2 wide)))

  -- The free indices in the order in which `find_free` looks: from the byte of `last_alloc` to the
  -- end of the bitmap, then those of the blocks before the block of `last_alloc`.
  unfoldable pub candidates : List ℕ
  candidates =
      frees taken (a.last_alloc / 8 * 8) (size * 2048 - a.last_alloc / 8 * 8)
      ++ frees taken 0 (a.last_alloc / 8 / 256 * 2048)

  -- The second pass, and what is left of the list that is asked for.
  second_pass : ℕ → ℕ → List ℕ → Op D (List ℕ)
  second_pass num start_block res = do
    second ← scan_blocks dev a num start_block 0 start_block 0 res
    elim second [ next r ↦ pure r | brk r ↦ pure r | ret r ↦ pure r ]

  -- The list that a finished scan holds.
  list_of : Flow → List ℕ
  list_of (next r) = r
  list_of (brk r) = r
  list_of (ret r) = r

  returned_lem :
      (num : ℕ) (acc fr : List ℕ) (hi : ℕ) (fl : Flow)
      → Scanned num max_index acc fr hi fl
      → list_of fl ≡ take num (acc ++ fr)
  unfolding list_of
  returned_lem num acc fr hi fl (went_on e lt) =
      rw e (sym (take_of_length-le num (acc ++ fr) (omega arith)))
  returned_lem num acc fr hi fl (broke_off e lt past) =
      rw e (sym (take_of_length-le num (acc ++ fr) (omega arith)))
  returned_lem num acc fr hi fl (returned e full) = rw e

  finish_lem :
      (num : ℕ) (all : List ℕ) (fl : Flow) (d : D)
      → l.Represents d f n
      → list_of fl ≡ take num all
      → Returns
          (λ res d'. l.Represents d' f n × (res ≡ take num all))
          ((elim fl as (λ x. Op D (List ℕ)) [ next r ↦ pure r | brk r ↦ pure r | ret r ↦ pure r ])
            d)
  unfolding list_of
  finish_lem num all (next res) d r e = returns (r, e)
  finish_lem num all (brk res) d r e = returns (r, e)
  finish_lem num all (ret res) d r e = returns (r, e)

  second_pass_lem :
      (num start_block : ℕ) (acc : List ℕ) (d : D)
      → l.Represents d f n
      → start_block ≤ size
      → length acc < num
      → size * 2048 ≤ 2 ^ 32
      → Returns
          (λ res d'.
            l.Represents d' f n × (res ≡ take num (acc ++ frees taken 0 (start_block * 2048))))
          (second_pass num start_block acc d)
  unfolding second_pass
  second_pass_lem num start_block acc d r le lt wide =
      Returns.bind
        (scan_blocks_lem num start_block 0 start_block 0 acc d r (inr (omega arith)) (omega arith)
          lt wide)
        λ fl d' (r', s).
          finish_lem num (acc ++ frees taken 0 (start_block * 2048)) fl d' r'
            (returned_lem num acc _ _ fl s)

  first_pass_lem :
      (num start_block lo k hi : ℕ) (fl : Flow) (d : D)
      → l.Represents d f n
      → start_block ≤ size
      → size * 2048 ≤ 2 ^ 32
      → Scanned num max_index [] (frees taken lo k) hi fl
      → Returns
          (λ res d'.
            l.Represents d' f n
            × (res ≡ take num (frees taken lo k ++ frees taken 0 (start_block * 2048))))
          ((elim fl as (λ x. Op D (List ℕ)) [
            | next r ↦ second_pass num start_block r
            | brk r ↦ second_pass num start_block r
            | ret r ↦ pure r
          ])
            d)
  first_pass_lem num start_block lo k hi fl d r le wide (went_on e lt) =
      rw e (second_pass_lem num start_block (frees taken lo k) d r le lt wide)
  first_pass_lem num start_block lo k hi fl d r le wide (broke_off e lt past) =
      rw e (second_pass_lem num start_block (frees taken lo k) d r le lt wide)
  first_pass_lem num start_block lo k hi fl d r le wide (returned e full) =
      rw e (returns (r, sym (take-append_of_le num (frees taken lo k) _ full)))

  -- `find_free` succeeds and leaves the device's contents alone. It returns the first `num` of the
  -- candidates, all of them if there are fewer.
  pub find_free-candidates :
      (num : ℕ) (d : D)
      → l.Represents d f n
      → a.last_alloc / 8 / 256 < size
      → size * 2048 ≤ 2 ^ 32
      → Returns
          (λ res d'. l.Represents d' f n × (res ≡ take num candidates))
          (find_free dev a num d)
  unfolding find_free unpack_index candidates second_pass
  find_free-candidates num d r inside wide = elim (Bool-cases (num == 0)) [
    | inl none_asked ↦ let z : num ≡ 0 = ground arith in rw z (returns (r, refl))
    | inr asked ↦
        let i = a.last_alloc / 8 / 256 in
        let j = a.last_alloc / 8 % 256 in
        let rounds : size - i ≡ suc (size - i - 1) = omega arith in
        let lo : (j + i * 256) * 8 ≡ a.last_alloc / 8 * 8 = omega arith in
        let count : (256 - j) * 8 + (size - i - 1) * 2048 ≡ size * 2048 - a.last_alloc / 8 * 8 =
          omega arith in
        let scan =
          scan_blocks_first num j (size - i - 1) i [] d r (omega arith) (omega arith) (ground arith)
            wide in
        rw (asked, rounds)
          (Returns.bind scan λ fl d' (r', s).
            first_pass_lem num i _ _ _ fl d' r' (omega arith) wide (rw (lo, count) at s))
  ]
