-- ===== src/Bitmap/First.antt =====
-- `find_allocate` of src/formats/v1/bitmap_allocator.rs: the lowest free index, or a full bitmap.
use ferris_file_system.Prelude.{
  ℕ, zero, suc, ◌+◌, ◌*◌, ◌/◌, ◌%◌, ◌^◌, ◌<◌, ◌≤◌, ◌≡◌, ◌≢◌, refl, inl, inr, true, false, [], ◌∷◌,
  arith, get_or, set, ltb, leb, ◌==◌, Bool-cases, add32, mul32,
}
use ferris_file_system.Prelude.Bits.{set_bit, trailing_ones, trailing_ones-first, bits_range}
use ferris_file_system.FsError.{StorageFullKind, storage_full}
use ferris_file_system.Effect.Returns
use ferris_file_system.Effect.Returns.{Returns, returns, Fails, fails, bind-Fails}
use ferris_file_system.Device.{Store, IsLawful, BlockDevice, update}
use ferris_file_system.Bitmap.{BitmapAllocator, first_open, find_allocate_loop, find_allocate}
use ferris_file_system.Bitmap.View.{bit_of, set_bit-Assigns, assign, assign_all, set-IsBlock}
use ferris_file_system.Bitmap.Modify.{IsPlaced, Marked, Marked-assign_all}
use ferris_file_system.Bitmap.FirstOpen.{
  contradiction, first_open_lem, opened, found, found-clear, found-least,
}

module _ {D : Type 0} {dev : BlockDevice D} (l : IsLawful dev) (a : BitmapAllocator) (n : ℕ)
    (placed : IsPlaced a n) where
  open a use {start, size, max_index}

  -- What `find_allocate` does when it takes the index `t`.
  pub record Taken (f : Store) (t : ℕ) (out : ℕ × BitmapAllocator) (d' : D) : Type 0 where
    pub index : out.0 ≡ t
    pub allocator : out.1 ≡ record a { last_alloc = t }
    pub store : (g : Store) × l.Represents d' g n × Marked l a n placed true (t ∷ []) f g

  -- Where the loop stops.
  record StopsAt (f : Store) (i t : ℕ) : Type 0 where
    byte_lt : first_open 256 0 (f (start + i)) < 256
    bit_lt : trailing_ones (get_or (f (start + i)) (first_open 256 0 (f (start + i))) 0) < 8
    whole :
        (first_open 256 0 (f (start + i)) + i * 256) * 8
          + trailing_ones (get_or (f (start + i)) (first_open 256 0 (f (start + i))) 0)
        ≡ t

  later :
      {d : D} (f : Store)
      → l.Represents d f n
      → (i t : ℕ) → i * 2048 ≤ t
      → bit_of f start t ≡ false
      → first_open 256 0 (f (start + i)) ≡ 256
      → (i + 1) * 2048 ≤ t
  unfolding opened
  later {d} f r i t lo clear e = elim (Bool-cases (t / 8 / 256 == i)) [
    | inl here ↦
        absurd
          (omega (arith, (found-least f (l.block_lem d f n r) start i t (ground arith) clear).0))
    | inr other ↦ ground arith
  ]

  found-at :
      {d : D} (f : Store)
      → l.Represents d f n
      → (i t : ℕ) → i * 2048 ≤ t
      → bit_of f start t ≡ false
      → ((j : ℕ) → j < t → bit_of f start j ≡ true)
      → first_open 256 0 (f (start + i)) ≢ 256
      → StopsAt f i t
  unfolding opened found
  found-at {d} f r i t lo clear before ne =
      let ib = l.block_lem d f n r in
      let is = first_open_lem 256 0 (f (start + i)) in
      let lt : first_open 256 0 (f (start + i)) < 256 = omega (arith, is.hi) in
      let byte = get_or (f (start + i)) (first_open 256 0 (f (start + i))) 0 in
      let first = trailing_ones-first byte ((ib (start + i)).byte _) (is.at lt) in
      let stop = found-clear f ib start i lt in
      let ge : t ≤ found f ib start i = elim (Bool-cases (ltb (found f ib start i) t)) [
        | inl early ↦ absurd (contradiction _ (before (found f ib start i) (ground arith)) stop.0)
        | inr fine ↦ ground arith
      ] in
      let least = found-least f ib start i t (omega (arith, stop.1, first.0)) clear in
      record { byte_lt = lt; bit_lt = first.0; whole = omega (arith, least.1) }

  stored :
      (f : Store) (i t : ℕ)
      → StopsAt f i t
      → update f (start + i) (
          set (f (start + i)) (first_open 256 0 (f (start + i))) (
            set_bit
              (get_or (f (start + i)) (first_open 256 0 (f (start + i))) 0)
              (trailing_ones (get_or (f (start + i)) (first_open 256 0 (f (start + i))) 0))))
        ≡ assign set_bit start f t
  unfolding assign
  stored f i t at =
      let j = first_open 256 0 (f (start + i)) in
      let pos = trailing_ones (get_or (f (start + i)) j 0) in
      let block : t / 8 / 256 ≡ i = omega (arith, at.whole, at.byte_lt, at.bit_lt) in
      let byte : t / 8 % 256 ≡ j = omega (arith, at.whole, at.byte_lt, at.bit_lt) in
      let bit : t % 8 ≡ pos = omega (arith, at.whole, at.byte_lt, at.bit_lt) in
      rw (block, byte, bit) refl

  find_allocate_loop_lem :
      (rounds i t : ℕ) (d : D) (f : Store)
      → l.Represents d f n
      → i + rounds ≡ size
      → size * 2048 ≤ 2 ^ 32
      → i * 2048 ≤ t
      → t < size * 2048
      → t < max_index
      → bit_of f start t ≡ false
      → ((j : ℕ) → j < t → bit_of f start j ≡ true)
      → Returns (Taken f t) (find_allocate_loop dev a rounds i d)
  unfolding find_allocate_loop assign_all
  find_allocate_loop_lem zero i t d f r e wide lo hi max clear before = absurd (omega arith)
  find_allocate_loop_lem (suc rounds) i t d f r e wide lo hi max clear before =
      let addr : add32 i start ≡ start + i = omega (arith, placed.fits, placed.small) in
      rw addr (
        Returns.bind (l.read_lem d f n (start + i) r (omega (arith, placed.fits)))
          λ buf d' (got, r'). rw got (elim (Bool-cases (first_open 256 0 (f (start + i)) == 256)) [
            | inl all_full ↦ rw all_full (
                find_allocate_loop_lem rounds (i + 1) t d' f r' (omega arith) wide
                  (later f r' i t lo clear (ground arith)) hi max clear before)
            | inr here ↦
                let at = found-at f r' i t lo clear before (ground arith) in
                let ix : add32 (mul32 (add32 (first_open 256 0 (f (start + i))) (mul32 i 256)) 8)
                      (trailing_ones (get_or (f (start + i)) (first_open 256 0 (f (start + i))) 0))
                    ≡ t =
                  omega (arith, at.whole, at.byte_lt, at.bit_lt) in
                let inside : leb max_index t ≡ false = ground arith in
                rw (here, ix, inside)
                  (Returns.bind
                    (l.write_lem d' f n (start + i) _ r' (omega (arith, placed.fits)) (
                      set-IsBlock _ _ _ at.byte_lt
                        (bits_range _ _ ((l.block_lem d' f n r' (start + i)).byte _) at.bit_lt).0
                        (l.block_lem d' f n r' (start + i))))
                    λ _ d2 r2. returns (record {
                      index = refl;
                      allocator = refl;
                      store = (
                        assign set_bit start f t,
                        rw (← stored f i t at) r2,
                        Marked-assign_all l a n placed set_bit-Assigns (t ∷ []) f
                            (l.block_lem d' f n r') (omega arith, tt),
                      );
                    }))
          ]))

  -- The first zero bit of a bitmap that is full lies past `max_index`.
  found_past :
      {d : D} (f : Store)
      → l.Represents d f n
      → (i : ℕ) → i < size
      → size * 2048 ≤ 2 ^ 32
      → ((j : ℕ) → j < size * 2048 → j < max_index → bit_of f start j ≡ true)
      → first_open 256 0 (f (start + i)) ≢ 256
      → leb max_index (
          add32
            (mul32 (add32 (first_open 256 0 (f (start + i))) (mul32 i 256)) 8)
            (trailing_ones (get_or (f (start + i)) (first_open 256 0 (f (start + i))) 0)))
        ≡ true
  unfolding opened found
  found_past {d} f r i le wide all ne =
      let ib = l.block_lem d f n r in
      let is = first_open_lem 256 0 (f (start + i)) in
      let j = first_open 256 0 (f (start + i)) in
      let lt : j < 256 = omega (arith, is.hi) in
      let byte = get_or (f (start + i)) j 0 in
      let first = trailing_ones-first byte ((ib (start + i)).byte _) (is.at lt) in
      let stop = found-clear f ib start i lt in
      let x = (j + i * 256) * 8 + trailing_ones byte in
      let ix : add32 (mul32 (add32 j (mul32 i 256)) 8) (trailing_ones byte) ≡ x =
        omega (arith, first.0) in
      let small : x < size * 2048 = omega (arith, first.0) in
      rw ix (elim (Bool-cases (leb max_index x)) [
        | inl past ↦ past
        | inr below ↦ absurd (contradiction _ (all x small (ground arith)) stop.0)
      ])

  find_allocate_loop_full :
      (rounds i : ℕ) (d : D) (f : Store)
      → l.Represents d f n
      → i + rounds ≡ size
      → size * 2048 ≤ 2 ^ 32
      → ((j : ℕ) → j < size * 2048 → j < max_index → bit_of f start j ≡ true)
      → Fails
          (storage_full StorageFullKind.none 1 0)
          (λ d'. l.Represents d' f n)
          (find_allocate_loop dev a rounds i d)
  unfolding find_allocate_loop
  find_allocate_loop_full zero i d f r e wide all = fails r
  find_allocate_loop_full (suc rounds) i d f r e wide all =
      let addr : add32 i start ≡ start + i = omega (arith, placed.fits, placed.small) in
      rw addr (
        bind-Fails (l.read_lem d f n (start + i) r (omega (arith, placed.fits))) λ buf d' (got, r').
          rw got (elim (Bool-cases (first_open 256 0 (f (start + i)) == 256)) [
            | inl all_full ↦
                rw all_full (find_allocate_loop_full rounds (i + 1) d' f r' (omega arith) wide all)
            | inr here ↦
                let past = found_past f r' i (omega arith) wide all (ground arith) in
                rw (here, past) (fails r')
          ]))

  -- `find_allocate` takes the lowest free index, if that is inside the bitmap and below `max_index`,
  -- whatever `last_alloc` is: it returns the index, sets exactly its bit on the device, and makes it
  -- `last_alloc`.
  pub find_allocate-Taken :
      (t : ℕ) (d : D) (f : Store)
      → l.Represents d f n
      → size * 2048 ≤ 2 ^ 32
      → t < size * 2048
      → t < max_index
      → bit_of f start t ≡ false
      → ((j : ℕ) → j < t → bit_of f start j ≡ true)
      → Returns (Taken f t) (find_allocate dev a d)
  unfolding find_allocate
  find_allocate-Taken t d f r wide hi max clear before =
      find_allocate_loop_lem size 0 t d f r (omega arith) wide (omega arith) hi max clear before

  -- When every index of the bitmap below `max_index` is allocated, `find_allocate` fails with
  -- `StorageFull` and changes nothing.
  pub find_allocate_full :
      (d : D) (f : Store)
      → l.Represents d f n
      → size * 2048 ≤ 2 ^ 32
      → ((j : ℕ) → j < size * 2048 → j < max_index → bit_of f start j ≡ true)
      → Fails
          (storage_full StorageFullKind.none 1 0)
          (λ d'. l.Represents d' f n)
          (find_allocate dev a d)
  unfolding find_allocate
  find_allocate_full d f r wide all = find_allocate_loop_full size 0 d f r (omega arith) wide all
