-- ===== src/Bitmap.antt =====
-- src/formats/v1/bitmap_allocator.rs: an allocator over a bitmap that lies in blocks of a device.
pub mod View
pub mod Modify
pub mod ScanBits
pub mod Scan
pub mod Find
pub mod Free
pub mod FirstOpen
pub mod First
pub mod CountBytes
pub mod Counting
use ferris_file_system.Prelude.{
  ℕ, zero, suc, ◌+◌, ◌-◌, ◌*◌, ◌/◌, ◌%◌, ◌≡◌, ◌≢◌, refl, Bool, true, false, not, ◌&&◌, List, [],
  ◌∷◌, ◌++◌, length, get_or, set, ltb, leb, ◌==◌, if◌then◌else◌, add32, mul32, bit_and,
}
use ferris_file_system.Prelude.Bits.{test_bit, set_bit, clear_bit, trailing_ones}
use ferris_file_system.FsError.{FsError, StorageFullKind, storage_full}
use ferris_file_system.Effect.{Run, ok, err, panic, Op, pure, fail, and_then, ◌>>=◌, ◌>>◌}
use ferris_file_system.Device.{Block, zero_block, block_size, invalid_address, BlockDevice}

pub record BitmapAllocator : Type 0 where
  pub start : ℕ
  pub size : ℕ
  pub max_index : ℕ
  pub last_alloc : ℕ

unfoldable pub new : ℕ → ℕ → ℕ → BitmapAllocator
new start size max_index = record {
  start = start;
  size = size;
  max_index = max_index;
  last_alloc = 0;
}

unfoldable pub get_index : ℕ → ℕ → ℕ → ℕ
get_index bitmap_block byte_in_block bit_in_byte =
    add32 (mul32 (add32 byte_in_block (mul32 bitmap_block block_size)) 8) bit_in_byte

unfoldable pub unpack_index : ℕ → ℕ × ℕ × ℕ
unpack_index index = (index / 8 / block_size, index / 8 % block_size, index % 8)

-- What a scan does next: go on, `break 'outer`, or `return`.
pub data Flow : Type 0 where
  next brk ret : List ℕ → Flow

abbrev pub then_scan : Flow → (List ℕ → Flow) → Flow
then_scan (next res) k = k res
then_scan (brk res) k = brk res
then_scan (ret res) k = ret res

-- `for pos in 0..8` of `find_free`: `rounds` are left, and `el` is shifted once a round. `offset` is
-- a multiple of 8 below 2^32, so `offset + pos` does not wrap.
unfoldable pub scan_bits : ℕ → ℕ → ℕ → ℕ → ℕ → List ℕ → Flow
scan_bits max num zero index el res = next res
scan_bits max num (suc rounds) index el res =
    let on = λ (r : List ℕ). scan_bits max num rounds (index + 1) (el / 2) r in
    let found = res ++ index ∷ [] in
    if leb max index
    then brk res
    else (if bit_and el 1 == 0
        then (if length found == num then ret found else on found)
        else on res)

-- `for j in start..BLOCK_SIZE` of `find_free`, over the bytes from `j` on.
unfoldable pub scan_bytes : ℕ → ℕ → ℕ → ℕ → ℕ → Block → List ℕ → Flow
unfolding get_index scan_bits
scan_bytes max num i zero j buf res = next res
scan_bytes max num i (suc rounds) j buf res =
    let el = get_or buf j 0 in
    let flow = if el == 255 then next res else scan_bits max num 8 (get_index i j 0) el res in
    then_scan flow (scan_bytes max num i rounds (j + 1) buf)

-- What the count does next: go on, or `break 'outer`.
pub data Count : Type 0 where
  go_on stop : ℕ → Count

-- The bits that are set in one byte, up to `max_index`.
unfoldable pub count_bits : ℕ → ℕ → ℕ → ℕ → ℕ → Count
count_bits max zero index el count = go_on count
count_bits max (suc rounds) index el count =
    let rest =
      count_bits max rounds (index + 1) (el / 2)
        (if bit_and el 1 == 0 then count else add32 count 1) in
    if leb max index then stop count else rest

unfoldable pub count_bytes : ℕ → ℕ → ℕ → ℕ → Block → ℕ → Count
unfolding get_index count_bits
count_bytes max i zero j buf count = go_on count
count_bytes max i (suc rounds) j buf count =
    let el = get_or buf j 0 in
    let seen = if el == 0 then go_on count else count_bits max 8 (get_index i j 0) el count in
    elim seen [ go_on c ↦ count_bytes max i rounds (j + 1) buf c | stop c ↦ stop c ]

-- `blocks[blocks.len() - 1]`
abbrev pub last_of : ℕ → List ℕ → ℕ
last_of b [] = b
last_of b (c ∷ blocks) = last_of c blocks

-- The first byte other than `u8::MAX` from `j` on.
unfoldable pub first_open : ℕ → ℕ → Block → ℕ
first_open zero j buf = j
first_open (suc rounds) j buf =
    let rest = first_open rounds (j + 1) buf in if get_or buf j 0 == 255 then rest else j

module _ {D : Type 0} (dev : BlockDevice D) where
  open dev use {read_block, write_block}

  unfoldable pub is_allocated : BitmapAllocator → ℕ → Op D Bool
  unfolding unpack_index test_bit
  is_allocated a block = if ltb a.max_index block then pure false else do
    let (bitmap_block, byte, bit) = unpack_index block
    buf ← read_block (add32 a.start bitmap_block)
    pure (test_bit (get_or buf byte 0) bit)

  -- `if cached_block != INVALID_ADDRESS { write }`
  unfoldable pub write_back : ℕ → ℕ → Block → Op D (Unit {0})
  write_back cached_block start buf =
      if cached_block == invalid_address
      then pure tt
      else write_block (add32 cached_block start) buf

  -- The loop of `modify`: the block at `cached_block` is in `buf`, changed and not yet written.
  unfoldable pub modify_loop : (ℕ → ℕ → ℕ) → ℕ → List ℕ → ℕ → Block → Op D (Unit {0})
  unfolding unpack_index write_back
  modify_loop op start [] cached_block buf = write_back cached_block start buf
  modify_loop op start (b ∷ blocks) cached_block buf =
      let (bitmap_block, byte_in_block, bit_in_byte) = unpack_index b in
      let on = λ (buf' : Block).
        modify_loop op start blocks bitmap_block
          (set buf' byte_in_block (op (get_or buf' byte_in_block 0) bit_in_byte)) in
      if bitmap_block == cached_block then on buf else do
        write_back cached_block start buf
        buf' ← read_block (add32 bitmap_block start)
        on buf'

  unfoldable pub modify : BitmapAllocator → List ℕ → (ℕ → ℕ → ℕ) → Op D (Unit {0})
  unfolding modify_loop zero_block
  modify a [] op = pure tt
  modify a (b ∷ blocks) op = modify_loop op a.start (b ∷ blocks) invalid_address zero_block

  unfoldable pub allocate : BitmapAllocator → List ℕ → Op D BitmapAllocator
  unfolding modify set_bit
  allocate a [] = pure a
  allocate a (b ∷ blocks) = do
    modify a (b ∷ blocks) set_bit
    pure (record a { last_alloc = last_of b blocks })

  unfoldable pub deallocate : BitmapAllocator → List ℕ → Op D (Unit {0})
  unfolding modify clear_bit
  deallocate a blocks = modify a blocks clear_bit

  -- A loop of `find_free` over the bitmap blocks from `i` on; `first` is the block that is entered
  -- at the byte `start_byte`.
  unfoldable pub scan_blocks : BitmapAllocator → ℕ → ℕ → ℕ → ℕ → ℕ → List ℕ → Op D Flow
  scan_blocks a num first start_byte zero i res = pure (next res)
  scan_blocks a num first start_byte (suc rounds) i res = do
    buf ← read_block (add32 i a.start)
    let j = if i == first then start_byte else 0
    elim (scan_bytes a.max_index num i (block_size - j) j buf res) [
      | next res' ↦ scan_blocks a num first start_byte rounds (i + 1) res'
      | brk res' ↦ pure (brk res')
      | ret res' ↦ pure (ret res')
    ]

  -- The second loop runs over `0..start_block`, where its test `i == start_block` never holds: each
  -- of these blocks is read from its first byte to its last.
  unfoldable pub find_free : BitmapAllocator → ℕ → Op D (List ℕ)
  unfolding unpack_index scan_blocks
  find_free a num = if num == 0 then pure [] else do
    let (start_block, start_byte, _) = unpack_index a.last_alloc
    first ← scan_blocks a num start_block start_byte (a.size - start_block) start_block []
    let again = λ (res : List ℕ). do
      second ← scan_blocks a num start_block 0 start_block 0 res
      elim second [ next r ↦ pure r | brk r ↦ pure r | ret r ↦ pure r ]
    elim first [ next res ↦ again res | brk res ↦ again res | ret res ↦ pure res ]

  unfoldable pub find_allocate_loop : BitmapAllocator → ℕ → ℕ → Op D (ℕ × BitmapAllocator)
  find_allocate_loop a zero i = fail (storage_full StorageFullKind.none 1 0)
  find_allocate_loop a (suc rounds) i = do
    buf ← read_block (add32 i a.start)
    let j = first_open block_size 0 buf
    let pos = trailing_ones (get_or buf j 0)
    let index = add32 (mul32 (add32 j (mul32 i block_size)) 8) pos
    let on = find_allocate_loop a rounds (i + 1)
    if j == block_size
        then on
        else (if leb a.max_index index then fail (storage_full StorageFullKind.none 1 0) else do
          write_block (add32 i a.start) (set buf j (set_bit (get_or buf j 0) pos))
          pure (index, record a { last_alloc = index }))

  unfoldable pub find_allocate : BitmapAllocator → Op D (ℕ × BitmapAllocator)
  unfolding find_allocate_loop
  find_allocate a = find_allocate_loop a a.size 0

  unfoldable pub count_blocks : BitmapAllocator → ℕ → ℕ → ℕ → Op D ℕ
  count_blocks a zero i count = pure count
  count_blocks a (suc rounds) i count = do
    buf ← read_block (add32 i a.start)
    elim (count_bytes a.max_index i block_size 0 buf count) [
      | go_on c ↦ count_blocks a rounds (i + 1) c
      | stop c ↦ pure c
    ]

  unfoldable pub count_allocated : BitmapAllocator → Op D ℕ
  unfolding count_blocks
  count_allocated a = count_blocks a a.size 0 0
