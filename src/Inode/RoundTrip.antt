-- ===== src/Inode/RoundTrip.antt =====
-- An inode survives the way to the disk and back, also when only its 96 bytes are copied.
use ferris_file_system.Prelude.{
  ℕ, zero, suc, ◌+◌, ◌*◌, ◌^◌, ◌<◌, ◌≤◌, ◌≡◌, refl, ap, ◌∙◌, some, ◌++◌, arith, length, get_elem?,
  take, All,
}
use ferris_file_system.Device.{Block, IsBlock}
use ferris_file_system.File.{from_byte, from_byte-to_byte}
use ferris_file_system.Codec.{
  Field, slice, write_fields, read_field, read_array, total, array_fields,
}
use ferris_file_system.Codec.Fields.{
  write_fields-append, read_field-write_fields, read_field-write_fields_before,
  read_array-write_fields, read_array-write_fields_before, length-write_fields,
  write_fields-IsBlock, total-array_fields,
}
use ferris_file_system.Inode.{Inode, head_fields, tail_fields, serialize, deserialize}

-- Every field has the range of its Rust type.
pub record InRange (i : Inode) : Type 0 where
  pub head : All (λ (f : Field). f.1 < 256 ^ f.0) (head_fields i)
  pub direct_length : length i.direct ≡ 12
  pub direct : All (λ x. x < 256 ^ 4) i.direct
  pub tail : All (λ (f : Field). f.1 < 256 ^ f.0) (tail_fields i)

pub serialize-IsBlock : (i : Inode) (buf : Block) → IsBlock buf → IsBlock (serialize i buf)
unfolding serialize
serialize-IsBlock i buf ib = write_fields-IsBlock _ buf 0 ib

module _ (i : Inode) (buf : Block) (ib : IsBlock buf) (r : InRange i) where
  after_head : Block
  after_head = write_fields buf 0 (head_fields i)

  after_direct : Block
  after_direct = write_fields after_head 20 (array_fields 4 i.direct)

  serialize_parts : serialize i buf ≡ write_fields after_direct 68 (tail_fields i)
  unfolding serialize after_head after_direct
  serialize_parts =
      let middle : 20 + total (array_fields 4 i.direct) ≡ 68 =
        omega (arith, total-array_fields 4 i.direct, r.direct_length) in
      write_fields-append (head_fields i) (array_fields 4 i.direct ++ tail_fields i) buf 0
      ∙ write_fields-append (array_fields 4 i.direct) (tail_fields i)
          (write_fields buf 0 (head_fields i)) 20
      ∙ ap
          (λ o.
            write_fields
              (write_fields (write_fields buf 0 (head_fields i)) 20 (array_fields 4 i.direct)) o
              (tail_fields i))
          middle

  head_lem :
      (n : ℕ) {k x : ℕ}
      → get_elem? (head_fields i) n ≡ some (k, x)
      → x < 256 ^ k
      → 0 + total (take n (head_fields i)) + k ≤ 20
      → read_field k (serialize i buf) (0 + total (take n (head_fields i))) ≡ x
  unfolding after_head after_direct
  head_lem n {k} e lt fits =
      let p = 0 + total (take n (head_fields i)) in
      rw serialize_parts (
        read_field-write_fields_before (tail_fields i) _ 68 p k (omega arith)
        ∙ read_field-write_fields_before (array_fields 4 i.direct) _ 20 p k fits
        ∙ read_field-write_fields (head_fields i) n buf 0 e (omega (arith, ib.size)) lt)

  direct_lem : read_array 12 4 (serialize i buf) 20 ≡ i.direct
  unfolding after_head after_direct
  direct_lem =
      rw (serialize_parts, ← r.direct_length)
        (read_array-write_fields_before (length i.direct) (tail_fields i) _ 68 20 4
            (omega (arith, r.direct_length))
          ∙ read_array-write_fields i.direct 4 _ 20 r.direct
              (omega (arith, r.direct_length, ib.size, length-write_fields (head_fields i) buf 0)))

  tail_lem :
      (n : ℕ) {k x : ℕ}
      → get_elem? (tail_fields i) n ≡ some (k, x)
      → x < 256 ^ k
      → read_field k (serialize i buf) (68 + total (take n (tail_fields i))) ≡ x
  unfolding after_head after_direct
  tail_lem n e lt = rw serialize_parts (
      read_field-write_fields (tail_fields i) n _ 68 e
        (omega (
          arith,
          ib.size,
          length-write_fields (head_fields i) buf 0,
          length-write_fields (array_fields 4 i.direct) after_head 20,
        ))
        lt)

  -- What `serialize` writes over a block, `deserialize` reads back, whatever the block held, if every
  -- field has the range of its type.
  pub inode_round_trip : deserialize (serialize i buf) ≡ i
  unfolding deserialize
  inode_round_trip = λ j. record {
    size = head_lem 0 refl r.head.0 (omega arith) j;
    file_type =
        (ap from_byte (head_lem 1 refl r.head.1.0 (omega arith)) ∙ from_byte-to_byte i.file_type) j;
    permissions = head_lem 3 refl r.head.1.1.1.0 (omega arith) j;
    direct = direct_lem j;
    indirect = tail_lem 0 refl r.tail.0 j;
    double = tail_lem 1 refl r.tail.1.0 j;
    created = tail_lem 2 refl r.tail.1.1.0 j;
    modified = tail_lem 3 refl r.tail.1.1.1.0 j;
    links = head_lem 4 refl r.head.1.1.1.1.0 (omega arith) j;
    blocks = head_lem 6 refl r.head.1.1.1.1.1.1.0 (omega arith) j;
  }

-- `deserialize` reads the first 92 bytes alone.
read_array-slice :
    (n : ℕ) (a b : Block) (p k : ℕ)
    → ((q j : ℕ) → q + j ≤ p + n * k → slice a q j ≡ slice b q j)
    → read_array n k a p ≡ read_array n k b p
unfolding read_array read_field
read_array-slice zero a b p k h = refl
read_array-slice (suc n) a b p k h =
    let m : suc n * k ≡ k + n * k = grind arith in
    rw (
      h p k (omega (arith, m)),
      read_array-slice n a b (p + k) k (λ q j le. h q j (omega (arith, m))),
    )

pub deserialize-slice :
    (a b : Block)
    → ((p k : ℕ) → p + k ≤ 96 → slice a p k ≡ slice b p k)
    → deserialize a ≡ deserialize b
unfolding deserialize read_field
deserialize-slice a b h = rw (
  h 0 8 (omega arith),
  h 8 1 (omega arith),
  h 10 2 (omega arith),
  h 12 2 (omega arith),
  h 16 4 (omega arith),
  h 68 4 (omega arith),
  h 72 4 (omega arith),
  h 76 8 (omega arith),
  h 84 8 (omega arith),
  read_array-slice 12 a b 20 4 (λ q j le. h q j (omega arith)),
)
