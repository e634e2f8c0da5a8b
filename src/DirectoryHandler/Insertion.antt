-- ===== src/DirectoryHandler/Insertion.antt =====
-- `add_entry_here` and `add_entry_grow` of src/formats/v1/directory_handler.rs: a block stays full of
-- entries.
use ferris_file_system.Prelude.{
  ℕ, ◌+◌, ◌-◌, ◌<◌, ◌≤◌, ◌≡◌, ◌≢◌, refl, sym, ap, ◌∙◌, ◌⊎◌, inl, inr, true, false, some, List, [],
  ◌∷◌, ◌++◌, arith, get_or, ltb, ◌==◌, if◌then◌else◌, All, add32, add16, sub16, u32_mod,
}
use ferris_file_system.Effect.Returns
use ferris_file_system.Effect.Returns.{Returns, returns}
use ferris_file_system.Device.{
  Block, Store, IsBlock, IsLawful, BlockDevice, zero_block, block_size, update,
}
use ferris_file_system.Device.Memory.Laws.{zero_block-IsBlock}
use ferris_file_system.InodeTable.{InodeTableHandler}
use ferris_file_system.Directory.{DirEntry, is_free, free, serialize, deserialize, min_free_size}
use ferris_file_system.Directory.RoundTrip.{IsEntry, serialize-Written}
use ferris_file_system.Directory.FreeRegion.{serialize-free-Written}
use ferris_file_system.DirectoryHandler.{DirectoryHandler, or_crash, add_entry_here, add_entry_grow}
use ferris_file_system.DirectoryHandler.Layouts.{Layout, whole, more}
use ferris_file_system.DirectoryHandler.Regions.{
  IsTight, deserialize_prefix, deserialize_suffix, Layout-suffix, middle-First, Layout-replace,
  serialize-IsBlock,
}

-- The free region that is left of one of `size` bytes behind an entry.
abbrev pub left_over : ℕ → DirEntry → ℕ → List (DirEntry × ℕ)
left_over size entry offset =
    if size == entry.record_len
    then []
    else (free (size - entry.record_len), offset + entry.record_len) ∷ []

free_is_free : (size : ℕ) → is_free (free size) ≡ true
unfolding free
free_is_free size = refl

free_len : (size : ℕ) → 9 ≤ size → (free size).record_len ≡ size
unfolding free
free_len size le = omega (arith, le)

-- An entry, a free region behind it, and the entries after these.
entry_and_rest :
    (image : Block) (offset rest : ℕ) (entry : DirEntry) (after : List (DirEntry × ℕ))
    → deserialize image offset ≡ some entry
    → entry.record_len ≢ 0
    → deserialize image (offset + entry.record_len) ≡ some (free rest)
    → 9 ≤ rest
    → offset + entry.record_len + rest ≤ 256
    → Layout image (offset + entry.record_len + rest) after
    → Layout image offset ((entry, offset) ∷ (free rest, offset + entry.record_len) ∷ after)
entry_and_rest image offset rest entry after got pos got_rest le fits layout =
    let len = free_len rest le in
    more got pos (omega (arith, fits)) (
      more got_rest (λ e. absurd (omega (arith, e, len, le))) (omega (arith, fits, len))
        (rw len layout))

module _ {D : Type 0} {dev : BlockDevice D} (l : IsLawful dev) (n : ℕ) (small : n < u32_mod)
    (t : InodeTableHandler) (h : DirectoryHandler) (entry : DirEntry)
    (bytes : (i : ℕ) → get_or entry.name i 0 < 256) where
  -- `add_entry_grow` of an entry that leaves 9 bytes of a block or more succeeds, and the entry
  -- and a free region behind it fill the block. No other block changes.
  pub add_entry_grow-Layout :
      (block : ℕ) (d : D) (f : Store)
      → l.Represents d f n
      → h.data_start + block < n
      → IsEntry entry 0
      → entry.record_len + 9 ≤ block_size
      → Returns
          (λ _ d'.
            (image : Block) × Layout image 0 ((entry, 0) ∷ left_over block_size entry 0)
            × l.Represents d' (update f (h.data_start + block) image) n)
          (add_entry_grow dev t h entry block d)
  unfolding add_entry_grow or_crash
  add_entry_grow-Layout block d f r on is fits =
      let rest = block_size - entry.record_len in
      let remainder : sub16 block_size entry.record_len ≡ rest = omega (arith, fits) in
      let some_left : (rest == 0) ≡ false = ground (arith, fits) in
      let enough : ltb rest min_free_size ≡ false = ground (arith, fits) in
      let positive : ltb 0 rest ≡ true = ground (arith, fits) in
      let at : add32 h.data_start block ≡ h.data_start + block = omega (arith, on, small) in
      let (image, stored, written) = serialize-Written entry 0 zero_block zero_block-IsBlock is in
      let ib = serialize-IsBlock entry zero_block 0 image zero_block-IsBlock bytes stored in
      let (image', stored', (read_back, (outside, ib'))) =
        serialize-free-Written (free rest) rest entry.record_len image ib (free_is_free rest)
          (free_len rest (omega (arith, fits))) (omega (arith, fits)) (omega (arith, fits)) in
      rw (remainder, some_left, enough, stored, positive, stored', at)
        (Returns.mono (l.write_lem d f n _ image' r on ib') λ _ d' r'.
          let used : (block_size == entry.record_len) ≡ false = ground (arith, fits) in
          let start : 0 + entry.record_len ≡ entry.record_len = omega arith in
          let end : 0 + entry.record_len + rest ≡ 256 = omega (arith, fits) in
          (
            image',
            rw used (
                entry_and_rest image' 0 rest entry []
                  (deserialize_prefix image image' 0 entry written.read_back is.long_enough
                    λ p k le. outside p k (inl (omega (arith, le))))
                  (λ e. absurd (omega (arith, e, is.long_enough)))
                  (ap (deserialize image') start ∙ read_back) (omega (arith, fits))
                  (omega (arith, end)) (rw end whole)),
            r',
          ))

-- The image of a block in which an entry takes the place of a free region.
Inserted : DirEntry → Block → ℕ → List (DirEntry × ℕ) → Type 0
Inserted entry buf offset entries =
    (image : Block) × (serialize entry buf offset ≡ some image)
    × (Layout image 0 entries × IsBlock image)

module _ (buf : Block) (ib : IsBlock buf) (entry : DirEntry)
    (bytes : (i : ℕ) → get_or entry.name i 0 < 256) (offset : ℕ) (is : IsEntry entry offset)
    (before after : List (DirEntry × ℕ)) (region : DirEntry) (tight : All IsTight before)
    (layout : Layout buf 0 (before ++ (region, offset) ∷ after)) where
  insert_exact :
      entry.record_len ≡ region.record_len
      → Inserted entry buf offset (before ++ (entry, offset) ∷ after)
  unfolding Inserted
  insert_exact same =
      let first = middle-First buf 0 offset before after region layout in
      let (image, stored, written) = serialize-Written entry offset buf ib is in
      let len : offset + region.record_len ≡ offset + entry.record_len = omega (arith, same) in
      let next : Layout image (offset + region.record_len) after =
        Layout-suffix buf image (offset + region.record_len) after first.next
          λ p k le. written.outside p k (inr (omega (arith, len, le))) in
      (
        image,
        stored,
        (
          Layout-replace buf image 0 offset before after ((entry, offset) ∷ after) region layout
              tight (λ p k le. written.outside p k (inl le))
              (more written.read_back (λ e. first.positive (sym same ∙ e))
                (omega (arith, len, first.fits)) (rw len at next)),
          serialize-IsBlock entry buf offset image ib bytes stored,
        ),
      )

  insert_split :
      (rest : ℕ) (left : DirEntry)
      → is_free left ≡ true
      → left.record_len ≡ rest
      → 9 ≤ rest
      → entry.record_len + rest ≡ region.record_len
      → (buf' : Block) × (serialize left buf (offset + entry.record_len) ≡ some buf')
        × Inserted entry buf' offset
            (before ++ (entry, offset) ∷ (free rest, offset + entry.record_len) ∷ after)
  unfolding Inserted
  insert_split rest left is_region left_len enough sum =
      let first = middle-First buf 0 offset before after region layout in
      let at = offset + entry.record_len in
      let end : offset + region.record_len ≡ at + rest = omega (arith, sum) in
      let (buf', stored', (read_back', (outside', ib'))) =
        serialize-free-Written left rest at buf ib is_region left_len enough
          (omega (arith, end, first.fits)) in
      let (image, stored, written) = serialize-Written entry offset buf' ib' is in
      let next : Layout image (offset + region.record_len) after =
        Layout-suffix buf image (offset + region.record_len) after first.next λ p k le.
          written.outside p k (inr (omega (arith, end, le)))
          ∙ outside' p k (inr (omega (arith, end, le))) in
      (
        buf',
        stored',
        (
          image,
          stored,
          (
            Layout-replace buf image 0 offset before after
                ((entry, offset) ∷ (free rest, at) ∷ after) region layout tight
                (λ p k le. written.outside p k (inl le) ∙ outside' p k (inl (omega (arith, le))))
                (entry_and_rest image offset rest entry after written.read_back
                  (λ e. absurd (omega (arith, e, is.long_enough)))
                  (deserialize_suffix buf' image at (λ p k le. written.outside p k (inr le))
                    ∙ read_back')
                  enough (omega (arith, end, first.fits)) (rw end at next)),
            serialize-IsBlock entry buf' offset image ib' bytes stored,
          ),
        ),
      )

-- `before` is what stands in front of the free region, `after` what stands behind it.
module _ {D : Type 0} {dev : BlockDevice D} (l : IsLawful dev) (n : ℕ) (small : n < u32_mod)
    (t : InodeTableHandler) (h : DirectoryHandler) (entry : DirEntry)
    (bytes : (i : ℕ) → get_or entry.name i 0 < 256) (before after : List (DirEntry × ℕ))
    (region : DirEntry) (tight : All IsTight before) where
  -- `add_entry_here` of an entry that takes all of a free region, or leaves 9 bytes of it or more,
  -- succeeds and keeps the block full of entries: the entry and the free region that is left stand
  -- in place of the region, the entries before and behind it are as they were, and no other block
  -- changes. The names of the entries before it fit their records.
  pub add_entry_here-Layout :
      (block offset : ℕ) (d : D) (f : Store)
      → l.Represents d f n
      → h.data_start + block < n
      → IsBlock (f (h.data_start + block))
      → Layout (f (h.data_start + block)) 0 (before ++ (region, offset) ∷ after)
      → is_free region ≡ true
      → IsEntry entry offset
      → (region.record_len ≡ entry.record_len) ⊎ (entry.record_len + 9 ≤ region.record_len)
      → Returns
          (λ _ d'.
            (image : Block) × Layout image 0
              (before ++ (entry, offset) ∷ (left_over region.record_len entry offset ++ after))
            × l.Represents d' (update f (h.data_start + block) image) n)
          (add_entry_here dev t h entry block offset d)
  unfolding add_entry_here or_crash Inserted
  add_entry_here-Layout block offset d f r on ib layout is_region is room =
      let buf = f (h.data_start + block) in
      let first = middle-First buf 0 offset before after region layout in
      let at : add32 h.data_start block ≡ h.data_start + block = omega (arith, on, small) in
      rw at (
        Returns.bind (l.read_lem d f n _ r on) λ b d1 (got, r1).
          rw (got, first.got, is_region)
            (elim room [
              | inl same ↦
                  let (image, stored, (layout', ib')) =
                    insert_exact buf ib entry bytes offset is before after region tight layout
                      (sym same) in
                  let exact : (region.record_len == entry.record_len) ≡ true =
                    ground (arith, same) in
                  let none_left : ltb 8 (sub16 region.record_len entry.record_len) ≡ false =
                    ground (arith, same, first.fits) in
                  rw (exact, none_left, stored)
                    (Returns.mono (l.write_lem d1 f n _ image r1 on ib')
                      λ _ d' r'. (image, layout', r'))
              | inr le ↦
                  let rest = region.record_len - entry.record_len in
                  let (buf', stored', (image, stored, (layout', ib'))) =
                    insert_split buf ib entry bytes offset is before after region tight layout rest
                      (record region { record_len = rest }) is_region refl (omega (arith, le))
                      (omega (arith, le)) in
                  let more_room : (region.record_len == entry.record_len) ≡ false =
                    ground (arith, le) in
                  let remaining : sub16 region.record_len entry.record_len ≡ rest =
                    omega (arith, le, first.fits) in
                  let enough : ltb region.record_len (add16 entry.record_len 8) ≡ false =
                    ground (arith, le, first.fits) in
                  let left : ltb 8 rest ≡ true = ground (arith, le) in
                  let place : add16 offset entry.record_len ≡ offset + entry.record_len =
                    omega (arith, le, first.fits) in
                  rw (more_room, enough, remaining, left, place, stored', stored)
                    (Returns.mono (l.write_lem d1 f n _ image r1 on ib')
                      λ _ d' r'. (image, layout', r'))
            ]))
