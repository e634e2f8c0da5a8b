-- ===== src/Directory/RoundTrip.antt =====
-- A directory entry survives the way to its block and back, and the rest of the block stays.
use ferris_file_system.Prelude.{
  ℕ, ◌+◌, ◌-◌, ◌^◌, ◌<◌, ◌≤◌, ◌≡◌, refl, sym, ap, ◌∙◌, ◌⊎◌, inl, inr, min, false, some, List, arith,
  length, get_elem?, take, replicate, ltb, All, length-take, length-replicate,
}
use ferris_file_system.Device.{Block, IsBlock}
use ferris_file_system.File.{from_byte, from_byte-to_byte}
use ferris_file_system.Codec.{Field, write_at, slice, write_fields, read_field, total}
use ferris_file_system.Codec.Slices.{slice-write_at_before, slice-write_at_behind, length-write_at}
use ferris_file_system.Codec.Slices.{slice-write_at_self}
use ferris_file_system.Codec.Fields.{
  slice-write_fields_before, slice-write_fields_behind, read_field-write_fields,
  length-write_fields,
}
use ferris_file_system.Directory.{
  DirEntry, is_free, max_name, entry_fields, fill, serialize, deserialize,
}

-- An entry in use that fits its record, and whose record fits the block at an offset.
pub record IsEntry (e : DirEntry) (offset : ℕ) : Type 0 where
  pub used : is_free e ≡ false
  pub ranges : All (λ (f : Field). f.1 < 256 ^ f.0) (entry_fields e)
  pub name_size : length e.name ≡ max_name
  pub name_fits : e.name_len ≤ max_name
  pub padded : write_at (replicate max_name 0) 0 (take e.name_len e.name) ≡ e.name
  pub long_enough : 9 + e.name_len ≤ e.record_len
  pub inside : offset + e.record_len ≤ 256

-- The block after `serialize`: the entry is read back, and every byte outside its record stays.
pub record Written (e : DirEntry) (offset : ℕ) (buf image : Block) : Type 0 where
  pub read_back : deserialize image offset ≡ some e
  pub outside :
      (p k : ℕ) → (p + k ≤ offset) ⊎ (offset + e.record_len ≤ p) → slice image p k ≡ slice buf p k
  pub size : length image ≡ length buf

module _ (e : DirEntry) (offset : ℕ) (buf : Block) (ib : IsBlock buf) (is : IsEntry e offset) where
  name_bytes : List ℕ
  name_bytes = take e.name_len e.name

  with_fields : Block
  with_fields = write_fields buf offset (entry_fields e)

  with_name : Block
  unfolding with_fields name_bytes
  with_name = write_at with_fields (offset + 9) name_bytes

  image : Block
  unfolding with_name
  image =
      write_at with_name (offset + 9 + e.name_len)
        (replicate (offset + e.record_len - (offset + 9 + e.name_len)) 0)

  length-name_bytes : length name_bytes ≡ e.name_len
  unfolding name_bytes
  length-name_bytes = omega (arith, length-take e.name_len e.name, is.name_size, is.name_fits)

  length-with_fields : length with_fields ≡ 256
  unfolding with_fields
  length-with_fields = length-write_fields (entry_fields e) buf offset ∙ ib.size

  length-with_name : length with_name ≡ 256
  unfolding with_name
  length-with_name = length-write_at with_fields (offset + 9) name_bytes ∙ length-with_fields

  serialize-image : serialize e buf offset ≡ some image
  unfolding serialize fill image with_name with_fields name_bytes
  serialize-image =
      let short : ltb 64 e.name_len ≡ false = ground (arith, is.name_fits) in
      let enough : ltb (offset + e.record_len) (offset + 9 + e.name_len) ≡ false =
        ground (arith, is.long_enough) in
      let fits : ltb 256 (offset + e.record_len) ≡ false = ground (arith, is.inside) in
      rw (is.used, short, enough, fits) refl

  field_lem :
      (i : ℕ) {k x : ℕ}
      → get_elem? (entry_fields e) i ≡ some (k, x)
      → x < 256 ^ k
      → total (take i (entry_fields e)) + k ≤ 9
      → read_field k image (offset + total (take i (entry_fields e))) ≡ x
  unfolding read_field image with_name with_fields
  field_lem i {k} got lt le =
      let p = offset + total (take i (entry_fields e)) in
      let long = is.long_enough in
      rw
        (
          slice-write_at_before with_name (offset + 9 + e.name_len)
              (replicate (offset + e.record_len - (offset + 9 + e.name_len)) 0) p k (omega arith),
          slice-write_at_before with_fields (offset + 9) name_bytes p k (omega arith),
        )
        (read_field-write_fields (entry_fields e) i buf offset got
          (omega (arith, ib.size, is.inside, is.long_enough)) lt)

  name_lem : slice image (offset + 9) e.name_len ≡ name_bytes
  unfolding image with_name
  name_lem =
      slice-write_at_before with_name (offset + 9 + e.name_len) _ (offset + 9) e.name_len
        (omega arith)
      ∙ ap (slice with_name (offset + 9)) (sym length-name_bytes)
      ∙ slice-write_at_self with_fields (offset + 9) name_bytes
          (omega (arith, length-name_bytes, length-with_fields, is.inside, is.long_enough))

  deserialize-image : deserialize image offset ≡ some e
  unfolding deserialize name_bytes
  deserialize-image =
      let fits : ltb 256 (offset + 9) ≡ false = ground (arith, is.inside, is.long_enough) in
      let at : offset + 0 ≡ offset = omega arith in
      let inode_lem : read_field 4 image offset ≡ e.inode =
        rw at at (field_lem 0 refl is.ranges.0 (omega arith)) in
      let len_lem : read_field 2 image (offset + 6) ≡ e.name_len =
        field_lem 2 refl is.ranges.1.1.0 (omega arith) in
      let len : min (min e.name_len (256 - (offset + 9))) 64 ≡ e.name_len =
        omega (arith, is.inside, is.long_enough, is.name_fits) in
      rw (fits, len_lem, len, name_lem, is.padded)
        (ap some λ j. record {
          inode = inode_lem j;
          file_type =
              (ap from_byte (field_lem 3 refl is.ranges.1.1.1.0 (omega arith))
                  ∙ from_byte-to_byte e.file_type)
                j;
          record_len = field_lem 1 refl is.ranges.1.0 (omega arith) j;
          name_len = e.name_len;
          name = e.name;
        })

  outside_lem :
      (p k : ℕ) → (p + k ≤ offset) ⊎ (offset + e.record_len ≤ p) → slice image p k ≡ slice buf p k
  unfolding image with_name with_fields
  outside_lem p k (inl le) =
      slice-write_at_before with_name (offset + 9 + e.name_len) _ p k (omega arith)
      ∙ slice-write_at_before with_fields (offset + 9) name_bytes p k (omega arith)
      ∙ slice-write_fields_before (entry_fields e) buf offset p k le
  outside_lem p k (inr le) =
      let long = is.long_enough in
      slice-write_at_behind with_name (offset + 9 + e.name_len)
        (replicate (offset + e.record_len - (offset + 9 + e.name_len)) 0) p k
        (omega
          (arith, length-replicate {A = ℕ} (offset + e.record_len - (offset + 9 + e.name_len)) 0))
      ∙ slice-write_at_behind with_fields (offset + 9) name_bytes p k
          (omega (arith, length-name_bytes))
      ∙ slice-write_fields_behind (entry_fields e) buf offset p k (omega arith)

  -- `serialize` of an entry in use succeeds. `deserialize` reads the entry back from the same offset,
  -- and every byte outside its record stays as it was.
  pub serialize-Written :
      (image : Block) × (serialize e buf offset ≡ some image) × Written e offset buf image
  unfolding image
  serialize-Written = (
    image,
    serialize-image,
    record {
      read_back = deserialize-image;
      outside = outside_lem;
      size = length-write_at with_name _ _ ∙ length-with_name ∙ sym ib.size;
    },
  )
