-- ===== src/Codec.antt =====
-- The little-endian fields of src/formats/v1: `to_le_bytes`, `from_le_bytes`, and the macros
-- `write_field!` and `read_field!`, which copy one field and move an offset past it.
pub mod Slices
pub mod Bytes
pub mod Fields
use ferris_file_system.Prelude.{
  ℕ, zero, suc, ◌+◌, ◌*◌, ◌/◌, ◌%◌, ◌^◌, List, [], ◌∷◌, length, take, drop, map,
}

-- `x.to_le_bytes()` of an integer of `k` bytes.
unfoldable pub to_le_bytes : ℕ → ℕ → List ℕ
to_le_bytes zero x = []
to_le_bytes (suc k) x = (x % 256) ∷ to_le_bytes k (x / 256)

unfoldable pub from_le_bytes : List ℕ → ℕ
from_le_bytes [] = 0
from_le_bytes (b ∷ bs) = b + 256 * from_le_bytes bs

-- `buf[offset..offset + bytes.len()].copy_from_slice(&bytes)`, for a range inside the buffer. Where a
-- range is not inside for every argument, the caller tests it, and panics.
unfoldable pub write_at : List ℕ → ℕ → List ℕ → List ℕ
write_at buf zero [] = buf
write_at [] zero (x ∷ xs) = []
write_at (b ∷ buf) zero (x ∷ xs) = x ∷ write_at buf zero xs
write_at [] (suc offset) xs = []
write_at (b ∷ buf) (suc offset) xs = b ∷ write_at buf offset xs

-- `buf[offset..offset + size]`, for a range inside the buffer.
unfoldable pub slice : List ℕ → ℕ → ℕ → List ℕ
slice buf offset size = take size (drop offset buf)

-- A field of a record on the disk: its size in bytes and its value.
abbrev pub Field : Type 0
Field = ℕ × ℕ

-- A sequence of `write_field!`.
unfoldable pub write_fields : List ℕ → ℕ → List Field → List ℕ
write_fields buf offset [] = buf
write_fields buf offset ((k, x) ∷ fs) =
    write_fields (write_at buf offset (to_le_bytes k x)) (offset + k) fs

-- `read_field!` at an offset.
unfoldable pub read_field : ℕ → List ℕ → ℕ → ℕ
read_field k buf offset = from_le_bytes (slice buf offset k)

-- `for i in 0..n { a[i] = read_field!(..) }`
unfoldable pub read_array : ℕ → ℕ → List ℕ → ℕ → List ℕ
read_array zero k buf offset = []
read_array (suc n) k buf offset = read_field k buf offset ∷ read_array n k buf (offset + k)

abbrev pub total : List Field → ℕ
total [] = 0
total ((k, _) ∷ fs) = k + total fs

-- The fields of an array whose elements take `k` bytes each.
abbrev pub array_fields : ℕ → List ℕ → List Field
array_fields k = map (λ x. (k, x))
