-- ===== src/Format/Files/ReadLoop.antt =====
-- The rounds of `read`: the bytes of a file from the offset of its handle on.
use ferris_file_system.Prelude.{
  ℕ, zero, suc, ◌+◌, ◌-◌, ◌/◌, ◌%◌, ◌<◌, ◌≤◌, ◌≡◌, refl, sym, ap, ◌∙◌, ◌⊎◌, inl, inr, false, some,
  List, arith, ◌||◌, length, get_or, ltb, ◌==◌, min, Bool-cases, add32, add64, u32_mod,
}
use ferris_file_system.Effect.Returns
use ferris_file_system.Effect.Returns.{Returns, returns}
use ferris_file_system.Device.{
  Block, Store, IsBlock, IsLawful, BlockDevice, block_size, invalid_address,
}
use ferris_file_system.Codec.{write_at, slice}
use ferris_file_system.Codec.Slices.{length-write_at, length-slice}
use ferris_file_system.Codec.Bytes.{get_or-write_at_inside, get_or-write_at_outside, get_or-slice}
use ferris_file_system.Inode.{Inode}
use ferris_file_system.InodeTable.{get_block}
use ferris_file_system.InodeTable.Blocks.{block_at, get_block-block_at}
use ferris_file_system.OpenFiles.{FileMetadata, insert, insert_self, insert-insert, insert_known}
use ferris_file_system.Format.{FormatV1, Volume}
use ferris_file_system.Format.Running.{on_device_lem}
use ferris_file_system.Format.Files.{set_metadata, check_address, read_loop}
use ferris_file_system.Format.Files.Contents.{byte_at, IsFile, moved, after}

-- An address on the device, and in the bitmap, passes the check.
pub check_address_lem :
    {D : Type 0} (m : FormatV1) (inode : Inode) (block address : ℕ) (v : Volume D)
    → address < invalid_address
    → address ≤ m.block_allocator.max_index
    → Returns (λ _ v'. v' ≡ v) (check_address m inode block address v)
unfolding check_address
check_address_lem m inode block address v valid known =
    let no : (address == invalid_address) ≡ false = ground (arith, valid) in
    let within : ltb m.block_allocator.max_index address ≡ false = ground (arith, known) in
    rw (no, within) (returns refl)

-- Two ranges inside their buffers.
pub ranges_lem :
    (buf : List ℕ) (o : ℕ) (source : List ℕ) (p n : ℕ)
    → o + n ≤ length buf
    → p + n ≤ length source
    → (ltb (length buf) (o + n) || ltb (length source) (p + n)) ≡ false
ranges_lem buf o source p n fits fits' =
    let inside : ltb (length buf) (o + n) ≡ false = ground (arith, fits) in
    let inside' : ltb (length source) (p + n) ≡ false = ground (arith, fits') in
    rw (inside, inside') refl

module _ {D : Type 0} {dev : BlockDevice D} (l : IsLawful dev) (n : ℕ) (small : n < u32_mod)
    (m : FormatV1) (f : Store) (inode : Inode) (is : IsFile m n f inode) (id : ℕ) where
  -- What the rounds from `done` on leave: `out.0` bytes are read in all.
  pub record ReadFrom (md : FileMetadata) (buf : List ℕ) (done : ℕ) (w : FormatV1)
      (out : ℕ × List ℕ) (v' : Volume D) : Type 0 where
    pub count : out.0 ≡ done + min (length buf - done) (inode.size - md.offset)
    pub size : length out.1 ≡ length buf
    pub bytes :
        (j : ℕ) → done + j < out.0 → get_or out.1 (done + j) 0 ≡ byte_at m f inode (md.offset + j)
    pub others : (i : ℕ) → (i < done) ⊎ (out.0 ≤ i) → get_or out.1 i 0 ≡ get_or buf i 0
    pub holds : l.Represents v'.device f n
    pub format : v'.format ≡ record w {
      open_files = insert id (record md { offset = md.offset + (out.0 - done) }) w.open_files;
    }

  -- Nothing is left to read.
  pub read_nothing :
      (md : FileMetadata) (buf : List ℕ) (done : ℕ) (v : Volume D)
      → l.Represents v.device f n
      → v.format.open_files id ≡ some md
      → (length buf ≤ done) ⊎ (inode.size ≤ md.offset)
      → ReadFrom md buf done v.format (done, buf) v
  read_nothing md buf done v r known end =
      let none_left : done - done ≡ 0 = omega arith in
      let same : md.offset + (done - done) ≡ md.offset = omega arith in
      record {
        count = ground (arith, end);
        size = refl;
        bytes = λ j lt. absurd (omega (arith, lt));
        others = λ i out. refl;
        holds = r;
        format =
            rw same
              (ap (λ t. record v.format { open_files = t }) (sym (insert_known id md _ known)));
      }

  -- One round, of `t` bytes from a block's position `p`, and the rounds after it.
  read_more :
      (md : FileMetadata) (buf : List ℕ) (done t p : ℕ) (b : Block) (v : Volume D) (d : D)
      → IsBlock b
      → done + t ≤ length buf
      → md.offset + t ≤ inode.size
      → p + t ≤ block_size
      → ((j : ℕ) → j < t → get_or b (p + j) 0 ≡ byte_at m f inode (md.offset + j))
      → (out : ℕ × List ℕ) (v' : Volume D)
      → ReadFrom
          (moved md t)
          (write_at buf done (slice b p t))
          (done + t)
          (after id v d (moved md t)).format
          out
          v'
      → ReadFrom md buf done v.format out v'
  read_more md buf done t p b v d ib fits_buf fits_file fits_block same out v' rest =
      let at : add64 md.offset t ≡ md.offset + t = omega (arith, fits_file, is.size_small) in
      let len : length (slice b p t) ≡ t =
        length-slice b p t (omega (arith, fits_block, ib.size)) in
      let size : length (write_at buf done (slice b p t)) ≡ length buf =
        length-write_at buf done (slice b p t) in
      let counted = rest.count in
      let total : out.0 ≡ done + min (length buf - done) (inode.size - md.offset) =
        omega (arith, counted, at, size, fits_buf, fits_file) in
      record {
        count = total;
        size = rest.size ∙ size;
        bytes = λ j lt. elim (Bool-cases (ltb j t)) [
          | inl early ↦
              rest.others (done + j) (inl (ground (arith, early)))
              ∙ get_or-write_at_inside buf done (slice b p t) (done + j) j refl
                  (omega (arith, len, fits_buf)) (ground (arith, early, len))
              ∙ get_or-slice b p t (p + j) j refl (ground (arith, early))
              ∙ same j (ground (arith, early))
          | inr late ↦
              let i : done + j ≡ done + t + (j - t) = ground (arith, late) in
              let o : add64 md.offset t + (j - t) ≡ md.offset + j = ground (arith, late, at) in
              ap (λ k. get_or out.1 k 0) i
              ∙ rest.bytes (j - t) (omega (arith, i, lt))
              ∙ ap (byte_at m f inode) o
        ];
        others = λ i away.
            rest.others i (ground (arith, away))
            ∙ get_or-write_at_outside buf done (slice b p t) i
                (ground (arith, away, len, total, fits_buf, fits_file));
        holds = rest.holds;
        format =
            let o : add64 md.offset t + (out.0 - (done + t)) ≡ md.offset + (out.0 - done) =
              omega (arith, at, total, fits_buf, fits_file) in
            rest.format
            ∙ ap (λ s. record v.format { open_files = s })
                (insert-insert id _ _ v.format.open_files
                  ∙ ap (λ o. insert id (record md { offset = o }) v.format.open_files) o);
      }

  -- A byte of the block that an offset is in.
  same_byte :
      (o j : ℕ)
      → o % block_size + j < block_size
      → get_or
          (f (m.inode_handler.data_start + block_at m.inode_handler f inode (o / block_size)))
          (o % block_size + j)
          0
        ≡ byte_at m f inode (o + j)
  unfolding byte_at
  same_byte o j lt =
      let block : (o + j) / block_size ≡ o / block_size = omega (arith, lt) in
      let rest : (o + j) % block_size ≡ o % block_size + j = omega (arith, lt) in
      rw (block, rest) refl

  pub read_loop_lem :
      (fuel : ℕ) (md : FileMetadata) (buf : List ℕ) (done block in_block : ℕ) (v : Volume D)
      → l.Represents v.device f n
      → v.format.open_files id ≡ some md
      → length buf ≤ done + fuel
      → (done < length buf
          → md.offset < inode.size
          → (block ≡ md.offset / block_size) × (in_block ≡ md.offset % block_size))
      → Returns
          (ReadFrom md buf done v.format)
          (read_loop dev m id inode fuel md buf done block in_block v)
  unfolding read_loop set_metadata byte_at
  read_loop_lem zero md buf done block in_block v r known enough aligned =
      let full : ltb done (length buf) ≡ false = ground (arith, enough) in
      rw full (returns (read_nothing md buf done v r known (inl (omega (arith, enough)))))
  read_loop_lem (suc fuel) md buf done block in_block v r known enough aligned =
      elim (Bool-cases (ltb done (length buf))) [
        | inr full ↦
            rw full (returns (read_nothing md buf done v r known (inl (ground (arith, full)))))
        | inl room ↦ elim (Bool-cases (ltb md.offset inode.size)) [
          | inr ended ↦
              rw (room, ended)
                (returns (read_nothing md buf done v r known (inr (ground (arith, ended)))))
          | inl more ↦
              let h = m.inode_handler in
              let k = md.offset / block_size in
              let lt1 : done < length buf = ground (arith, room) in
              let lt2 : md.offset < inode.size = ground (arith, more) in
              let (block_eq, in_block_eq) = aligned lt1 lt2 in
              let inside : k < inode.blocks = omega (arith, lt2, is.size_lem) in
              let a = block_at h f inode k in
              let on = is.placed k inside in
              let at : add32 m.superblock.data_start a ≡ h.data_start + a =
                omega (arith, is.start_lem, on, small) in
              rw (room, more, block_eq, in_block_eq)
                (Returns.bind
                  (on_device_lem (get_block dev h inode k) v (
                    get_block-block_at l h n small v.device f inode k r inside
                      (omega (arith, inside, is.blocks_lem)) (is.addresses k inside)))
                  λ block_ind v1 (d1, e1, (got, r1)).
                    rw (e1, got)
                      (Returns.bind
                        (check_address_lem m inode k a _ (omega (arith, on, small))
                          (is.known k inside))
                        λ _ v2 e2.
                          rw (e2, at)
                            (Returns.bind
                              (on_device_lem (dev.read_block (h.data_start + a)) _
                                (l.read_lem d1 f n _ r1 on))
                              λ b v3 (d3, e3, (got3, r3)).
                                let t =
                                  min
                                    (min (block_size - md.offset % block_size) (length buf - done))
                                    (inode.size - md.offset) in
                                let size =
                                  length-write_at buf done
                                    (slice (f (h.data_start + a)) (md.offset % block_size) t) in
                                let copied =
                                  ranges_lem buf done (f (h.data_start + a))
                                    (md.offset % block_size) t (omega (arith, lt1))
                                    (omega
                                      (arith, (l.block_lem d3 f n r3 (h.data_start + a)).size)) in
                                rw (e3, got3, copied)
                                  (Returns.mono
                                    (read_loop_lem fuel (moved md t)
                                      (write_at buf done
                                        (slice (f (h.data_start + a)) (md.offset % block_size) t))
                                      (done + t) (add32 k 1) 0 (after id v d3 (moved md t)) r3
                                      (insert_self id (moved md t) v.format.open_files)
                                      (omega (arith, size, enough, lt1, lt2))
                                      λ lt lt'. (
                                        omega (
                                          arith, size, lt, lt', inside, is.blocks_lem,
                                          is.size_small,
                                        ),
                                        omega (arith, size, lt, lt', is.size_small),
                                      ))
                                    (read_more md buf done t (md.offset % block_size)
                                      (f (h.data_start + a)) v d3 (l.block_lem d3 f n r3 _)
                                      (omega arith) (omega (arith, lt2)) (omega arith)
                                      (λ j lt. same_byte md.offset j (omega (arith, lt))))))))
        ]
      ]
