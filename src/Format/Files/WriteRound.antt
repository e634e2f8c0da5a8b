-- ===== src/Format/Files/WriteRound.antt =====
-- One round of `write`: the bytes of one data block.
use ferris_file_system.Prelude.{
  ℕ, ◌+◌, ◌-◌, ◌*◌, ◌/◌, ◌%◌, ◌<◌, ◌≤◌, ◌≡◌, refl, sym, ap, ◌∙◌, ◌⊎◌, inl, some, List, arith,
  length, get_or, ltb, ◌==◌, by_cases, add64, u32_mod,
}
use ferris_file_system.Device.{Block, Store, IsBlock, IsLawful, BlockDevice, block_size, update}
use ferris_file_system.Codec.{write_at, slice}
use ferris_file_system.Codec.Slices.{length-slice, slice-byte, write_at-IsBlock}
use ferris_file_system.Codec.Bytes.{get_or-write_at_inside, get_or-write_at_outside, get_or-slice}
use ferris_file_system.Inode.{Inode}
use ferris_file_system.OpenFiles.{FileMetadata, insert, insert-insert, insert_known}
use ferris_file_system.Format.{FormatV1, Volume}
use ferris_file_system.Format.Files.Contents.{IsFile, moved, after}
use ferris_file_system.Format.Files.Separation.{
  IsSeparate, SameElsewhere, place, cell, cell_here, cell_there,
}

module _ {D : Type 0} {dev : BlockDevice D} (l : IsLawful dev) (n : ℕ) (small : n < u32_mod)
    (m : FormatV1) (f : Store) (inode : Inode) (is : IsFile m n f inode)
    (sep : IsSeparate m f inode) (id : ℕ) (buf : List ℕ)
    (bytes : (i : ℕ) → get_or buf i 0 < 256) where
  -- What the rounds from `wrote` on leave, from the contents `g`.
  pub record WriteFrom (md : FileMetadata) (wrote : ℕ) (g : Store) (w : FormatV1)
      (out : ℕ × FileMetadata) (v' : Volume D) : Type 0 where
    pub store : Store
    pub holds : l.Represents v'.device store n
    pub same : SameElsewhere m f inode store
    pub written :
        (j : ℕ)
        → wrote + j < length buf
        → cell m f inode store (md.offset + j) ≡ get_or buf (wrote + j) 0
    pub others :
        (y : ℕ)
        → y < inode.blocks * block_size
        → (y < md.offset) ⊎ (md.offset + (length buf - wrote) ≤ y)
        → cell m f inode store y ≡ cell m f inode g y
    pub count : out.0 ≡ length buf
    pub offset : out.1 ≡ record md { offset = md.offset + (length buf - wrote) }
    pub format : v'.format ≡ record w { open_files = insert id out.1 w.open_files }

  pub write_nothing :
      (md : FileMetadata) (wrote : ℕ) (g : Store) (v : Volume D)
      → l.Represents v.device g n
      → SameElsewhere m f inode g
      → v.format.open_files id ≡ some md
      → wrote ≡ length buf
      → WriteFrom md wrote g v.format (wrote, md) v
  write_nothing md wrote g v r same known end =
      let stays : md.offset + (length buf - wrote) ≡ md.offset = omega (arith, end) in
      record {
        store = g;
        holds = r;
        same = same;
        written = λ j lt. absurd (omega (arith, lt, end));
        others = λ y lt away. refl;
        count = end;
        offset = rw stays refl;
        format = ap (λ t. record v.format { open_files = t }) (sym (insert_known id md _ known));
      }

  -- The bytes of a block after a round.
  pub record IsNew (g : Store) (k p t wrote : ℕ) (b : Block) : Type 0 where
    pub block : IsBlock b
    pub inside : (j : ℕ) → j < t → get_or b (p + j) 0 ≡ get_or buf (wrote + j) 0
    pub outside :
        (q : ℕ)
        → q < block_size
        → (q < p) ⊎ (p + t ≤ q)
        → get_or b q 0 ≡ get_or (g (place m f inode k)) q 0

  pub write_more :
      (md : FileMetadata) (wrote t : ℕ) (b : Block) (g : Store) (v : Volume D) (d : D)
      → wrote + t ≤ length buf
      → md.offset + (length buf - wrote) ≤ inode.blocks * block_size
      → md.offset % block_size + t ≤ block_size
      → wrote < length buf
      → IsNew g (md.offset / block_size) (md.offset % block_size) t wrote b
      → (out : ℕ × FileMetadata) (v' : Volume D)
      → WriteFrom
          (moved md t)
          (wrote + t)
          (update g (place m f inode (md.offset / block_size)) b)
          (after id v d (moved md t)).format
          out
          v'
      → WriteFrom md wrote g v.format out v'
  unfolding cell
  write_more md wrote t b g v d fits_buf fits_file fits_block more new out v' rest =
      let o = md.offset in
      let k = o / block_size in
      let k_in : k < inode.blocks = omega (arith, fits_file, more) in
      let at : add64 o t ≡ o + t = omega (arith, fits_buf, fits_file, more, is.blocks_lem) in
      let total : add64 o t + (length buf - (wrote + t)) ≡ o + (length buf - wrote) =
        omega (arith, at, fits_buf) in
      record {
        store = rest.store;
        holds = rest.holds;
        same = rest.same;
        written = λ j lt.
            by_cases (ltb j t)
              (λ early.
                let y : o + j < inode.blocks * block_size =
                  ground (arith, early, fits_buf, fits_file) in
                let in_k : (o + j) / block_size ≡ k = ground (arith, early, fits_block) in
                let at_p : (o + j) % block_size ≡ o % block_size + j =
                  ground (arith, early, fits_block) in
                rest.others (o + j) y (inl (ground (arith, early, at)))
                ∙ cell_here m f inode sep g k k_in b (o + j) in_k
                ∙ ap (λ q. get_or b q 0) at_p
                ∙ new.inside j (ground (arith, early)))
              λ late.
                let y : add64 o t + (j - t) ≡ o + j = ground (arith, late, at) in
                let i : wrote + t + (j - t) ≡ wrote + j = ground (arith, late) in
                ap (cell m f inode rest.store) (sym y)
                ∙ rest.written (j - t) (omega (arith, i, lt))
                ∙ ap (λ q. get_or buf q 0) i;
        others = λ y lt away.
            rest.others y lt (ground (arith, away, total, at))
            ∙ by_cases (y / block_size == k)
                (λ e.
                  let in_k : y / block_size ≡ k = ground (arith, e) in
                  cell_here m f inode sep g k k_in b y in_k
                  ∙ new.outside (y % block_size) (omega arith)
                      (ground (arith, away, in_k, fits_buf, fits_block, more))
                  ∙ rw in_k refl)
                λ e. cell_there m f inode sep g k k_in b y lt (ground (arith, e));
        count = rest.count;
        offset = rest.offset ∙ ap (λ x. record md { offset = x }) total;
        format =
            rest.format
            ∙ ap (λ s. record v.format { open_files = s })
                (insert-insert id out.1 (moved md t) v.format.open_files);
      }

  -- The block that a round writes, over the old contents or over the last buffer.
  pub IsNew-write_at :
      (g : Store) (k p t wrote : ℕ) (old : Block)
      → IsBlock old
      → p + t ≤ block_size
      → wrote + t ≤ length buf
      → (t < block_size → old ≡ g (place m f inode k))
      → IsNew g k p t wrote (write_at old p (slice buf wrote t))
  IsNew-write_at g k p t wrote old ib fits_block fits_buf here =
      let len : length (slice buf wrote t) ≡ t = length-slice buf wrote t fits_buf in
      record {
        block = write_at-IsBlock old p (slice buf wrote t) ib (slice-byte buf wrote t bytes);
        inside = λ j lt.
            get_or-write_at_inside old p (slice buf wrote t) (p + j) j refl
              (omega (arith, len, ib.size, fits_block)) (omega (arith, len, lt))
            ∙ get_or-slice buf wrote t (wrote + j) j refl lt;
        outside = λ q lt away.
            get_or-write_at_outside old p (slice buf wrote t) q (ground (arith, away, len))
            ∙ ap (λ b. get_or b q 0) (here (ground (arith, away, lt)));
      }
