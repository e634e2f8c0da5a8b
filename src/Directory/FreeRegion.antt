-- ===== src/Directory/FreeRegion.antt =====
-- A free region survives the way to its block and back, if it has room for the fields of an entry.
use ferris_file_system.Prelude.{
  ℕ, zero, suc, ◌+◌, ◌-◌, ◌^◌, ◌<◌, ◌≤◌, ◌≡◌, refl, ap, ◌∙◌, ◌⊎◌, inl, inr, min, max, true, false,
  some, arith, length, take, replicate, ltb, length-replicate, get_or, get_or-replicate, get_elem?,
}
use ferris_file_system.Device.{Block, IsBlock, invalid_address}
use ferris_file_system.Codec.{total, write_at, slice, write_fields, read_field, from_le_bytes}
use ferris_file_system.Codec.Slices.{
  slice-write_at_before, slice-write_at_behind, slice-write_at_inside, write_at-IsBlock,
}
use ferris_file_system.Codec.Fields.{
  slice-write_fields_before, slice-write_fields_behind, read_field-write_fields,
  length-write_fields, write_fields-IsBlock,
}
use ferris_file_system.Directory.{
  DirEntry, is_free, free, free_fields, fill, serialize, deserialize,
}

zeros_lem : (k p n : ℕ) → p + k ≤ n → from_le_bytes (slice (replicate n 0) p k) ≡ 0
unfolding from_le_bytes slice
zeros_lem zero zero n le = refl
zeros_lem (suc k) zero zero le = absurd (omega arith)
zeros_lem (suc k) zero (suc n) le = omega (arith, zeros_lem k zero n (omega arith))
zeros_lem k (suc p) zero le = absurd (omega arith)
zeros_lem k (suc p) (suc n) le = zeros_lem k p n (omega arith)

zeros-byte : (n i : ℕ) → get_or (replicate n 0) i 0 < 256
zeros-byte n i = rw (get_or-replicate {A = ℕ} n i 0) (omega arith)

module _ (e : DirEntry) (size offset : ℕ) (buf : Block) (ib : IsBlock buf)
    (is_region : is_free e ≡ true) (len : e.record_len ≡ size) (enough : 9 ≤ size)
    (inside : offset + size ≤ 256) where
  with_fields : Block
  with_fields = write_fields buf offset (free_fields e)

  image : Block
  unfolding with_fields
  image = write_at with_fields (offset + 6) (replicate (offset + size - (offset + 6)) 0)

  serialize-image : serialize e buf offset ≡ some image
  unfolding serialize fill image with_fields
  serialize-image =
      let first : ltb (offset + size) (offset + 6) ≡ false = ground (arith, enough) in
      let last : ltb 256 (offset + size) ≡ false = ground (arith, inside) in
      rw (is_region, len, first, last) refl

  length-with_fields : length with_fields ≡ 256
  unfolding with_fields
  length-with_fields = length-write_fields (free_fields e) buf offset ∙ ib.size

  -- The zeros behind the two fields.
  zero_field : (k p : ℕ) → 6 ≤ p → p + k ≤ size → read_field k image (offset + p) ≡ 0
  unfolding image read_field
  zero_field k p le fits =
      let n = offset + size - (offset + 6) in
      let room = length-replicate {A = ℕ} n 0 in
      ap from_le_bytes (
        slice-write_at_inside with_fields (offset + 6) (replicate n 0) (offset + p) (p - 6) k
          (omega (arith, le)) (omega (arith, room, le, fits))
          (omega (arith, room, length-with_fields, inside, enough)))
      ∙ zeros_lem k (p - 6) n (omega (arith, le, fits))

  field_lem :
      (i : ℕ) {k x : ℕ}
      → get_elem? (free_fields e) i ≡ some (k, x)
      → x < 256 ^ k
      → total (take i (free_fields e)) + k ≤ 6
      → read_field k image (offset + total (take i (free_fields e))) ≡ x
  unfolding read_field image with_fields
  field_lem i {k} got lt le =
      rw
        (slice-write_at_before with_fields (offset + 6) (replicate (offset + size - (offset + 6)) 0)
          (offset + total (take i (free_fields e))) k (omega arith))
        (read_field-write_fields (free_fields e) i buf offset got
          (omega (arith, ib.size, inside, enough)) lt)

  deserialize-image : deserialize image offset ≡ some (free size)
  unfolding deserialize free slice write_at
  deserialize-image =
      let fits : ltb 256 (offset + 9) ≡ false = ground (arith, inside, enough) in
      let at : offset + 0 ≡ offset = omega arith in
      let free_inode : e.inode ≡ invalid_address = ground (arith, is_region) in
      let inode_lem : read_field 4 image offset ≡ invalid_address =
        rw at at (field_lem 0 refl (omega (arith, free_inode)) (omega arith)) ∙ free_inode in
      let len_lem : read_field 2 image (offset + 4) ≡ max size 8 =
        field_lem 1 refl (omega (arith, len, inside)) (omega arith) ∙ omega (arith, len, enough) in
      let name_lem = zero_field 2 6 (omega arith) (omega (arith, enough)) in
      let type_lem = zero_field 1 8 (omega arith) (omega (arith, enough)) in
      let none_left : min (min 0 (256 - (offset + 9))) 64 ≡ 0 = omega arith in
      rw (fits, inode_lem, len_lem, name_lem, type_lem, none_left) refl

  -- `serialize` of a free region of nine bytes or more succeeds, it is read back as a free region of that
  -- size, and every byte outside it stays.
  pub serialize-free-Written :
      (image : Block) × (serialize e buf offset ≡ some image)
      × ((deserialize image offset ≡ some (free size))
          × (((p k : ℕ) → (p + k ≤ offset) ⊎ (offset + size ≤ p) → slice image p k ≡ slice buf p k)
              × IsBlock image))
  unfolding image with_fields
  serialize-free-Written =
      let n = offset + size - (offset + 6) in
      (
        image,
        serialize-image,
        (
          deserialize-image,
          (
            λ p k away. elim away [
              | inl le ↦
                  slice-write_at_before with_fields (offset + 6) (replicate n 0) p k
                    (omega (arith, le))
                  ∙ slice-write_fields_before (free_fields e) buf offset p k le
              | inr le ↦
                  slice-write_at_behind with_fields (offset + 6) (replicate n 0) p k
                    (omega (arith, length-replicate {A = ℕ} n 0, le, enough))
                  ∙ slice-write_fields_behind (free_fields e) buf offset p k
                      (omega (arith, le, enough))
            ],
            write_at-IsBlock with_fields (offset + 6) (replicate n 0)
                (write_fields-IsBlock (free_fields e) buf offset ib) (zeros-byte n),
          ),
        ),
      )
