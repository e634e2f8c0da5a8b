-- ===== src/Bitmap/Scan.antt =====
-- The scans inside `find_free` of src/formats/v1/bitmap_allocator.rs, against the plain list of the
-- free indices of a range.
use mathlib.Core.List.{append-nil}
use ferris_file_system.Prelude.{
  ℕ, zero, suc, ◌+◌, ◌-◌, ◌*◌, ◌/◌, ◌%◌, ◌^◌, ◌<◌, ◌≤◌, ◌≡◌, refl, inl, inr, true, List, [], arith,
  length, get_or, ◌==◌, if◌then◌else◌, Bool-cases,
}
use ferris_file_system.Prelude.Bits.{test_bit, test_bit_of_full}
use ferris_file_system.Device.{Store, IsBlock}
use ferris_file_system.Bitmap.{Flow, next, scan_bits, scan_bytes, get_index}
use ferris_file_system.Bitmap.View.{bit_of}
use ferris_file_system.Bitmap.ScanBits.{
  Scanned-then, frees, frees-nil, Scanned, went_on, scan_bits_lem, taken_in,
}

pub above : (max start : ℕ) (f : Store) (i : ℕ) → max ≤ i → taken_in max f start i ≡ true
above max start f i h = ground arith

module _ (num max start : ℕ) (f : Store) (ib : (i : ℕ) → IsBlock (f i)) where
  bit_of-byte :
      (i j b : ℕ)
      → j < 256
      → b < 8
      → bit_of f start ((j + i * 256) * 8 + b) ≡ test_bit (get_or (f (start + i)) j 0) b
  unfolding bit_of
  bit_of-byte i j b hj hb =
      let block : ((j + i * 256) * 8 + b) / 8 / 256 ≡ i = omega arith in
      let byte : ((j + i * 256) * 8 + b) / 8 % 256 ≡ j = omega arith in
      let bit : ((j + i * 256) * 8 + b) % 8 ≡ b = omega arith in rw (block, byte, bit)

  all_set :
      (i j : ℕ)
      → j < 256
      → get_or (f (start + i)) j 0 < 256
      → get_or (f (start + i)) j 0 ≡ 255
      → (k : ℕ) → (j + i * 256) * 8 ≤ k
      → k < (j + i * 256) * 8 + 8
      → taken_in max f start k ≡ true
  all_set i j hj range e k lo hi =
      let b = k - (j + i * 256) * 8 in
      let at : (j + i * 256) * 8 + b ≡ k = omega arith in
      let set = test_bit_of_full (get_or (f (start + i)) j 0) b range (omega arith) e in
      rw (← at) (rw (bit_of-byte i j b hj (omega arith), set) (ground arith))

  offset_lem : (i j : ℕ) → (j + i * 256) * 8 < 2 ^ 32 → get_index i j 0 ≡ (j + i * 256) * 8
  unfolding get_index
  offset_lem i j h = omega arith

  next_base : (j i : ℕ) → (j + i * 256) * 8 + 8 ≡ (j + 1 + i * 256) * 8
  next_base j i = omega arith

  one_byte : ℕ → ℕ → List ℕ → Flow
  one_byte i j acc =
      let el = get_or (f (start + i)) j 0 in
      if el == 255 then next acc else scan_bits max num 8 (get_index i j 0) el acc

  one_byte_lem :
      (i j : ℕ) (acc : List ℕ)
      → j < 256
      → (j + i * 256) * 8 < 2 ^ 32
      → length acc < num
      → Scanned num max acc
          (frees (taken_in max f start) ((j + i * 256) * 8) 8)
          ((j + i * 256) * 8 + 8)
          (one_byte i j acc)
  unfolding one_byte
  one_byte_lem i j acc hj fits lt =
      let el = get_or (f (start + i)) j 0 in
      let base = (j + i * 256) * 8 in
      let range : el < 256 = (ib (start + i)).byte j in
      elim (Bool-cases (el == 255)) [
        | inl full ↦
            let e : el ≡ 255 = ground arith in
            let nothing : frees (taken_in max f start) base 8 ≡ [] =
              frees-nil (taken_in max f start) 8 base (all_set i j hj range e) in
            rw (full, nothing) (went_on (rw append-nil) (rw append-nil lt))
        | inr open_byte ↦
            rw (open_byte, offset_lem i j fits)
              (scan_bits_lem num max (taken_in max f start) (above max start f) el base range
                (λ b hb. rw (bit_of-byte i j b hj hb) refl) 8 0 base el acc refl (omega arith)
                (omega arith) lt)
      ]

  -- The bytes of one block, from the one at `j` on.
  pub scan_bytes_lem :
      (i : ℕ)
      → (i + 1) * 2048 ≤ 2 ^ 32
      → (rounds j : ℕ) (acc : List ℕ) → j + rounds ≡ 256
      → length acc < num
      → Scanned num max acc
          (frees (taken_in max f start) ((j + i * 256) * 8) (rounds * 8))
          ((i + 1) * 2048)
          (scan_bytes max num i rounds j (f (start + i)) acc)
  unfolding scan_bytes frees one_byte
  scan_bytes_lem i fits zero j acc e lt = went_on (rw append-nil) (rw append-nil lt)
  scan_bytes_lem i fits (suc rounds) j acc e lt =
      let byte = get_or (f (start + i)) j 0 in
      let base = (j + i * 256) * 8 in
      let off : get_index i j 0 ≡ base = offset_lem i j (omega arith) in
      let count : suc rounds * 8 ≡ 8 + rounds * 8 = omega arith in
      rw count (
        Scanned-then num max (taken_in max f start) (above max start f) acc base 8 (base + 8)
          (rounds * 8) ((i + 1) * 2048) refl _ (scan_bytes max num i rounds (j + 1) (f (start + i)))
          (omega arith) (one_byte_lem i j acc (omega arith) (omega arith) lt)
          λ acc' lt'.
            rw (next_base j i) (scan_bytes_lem i fits rounds (j + 1) acc' (omega arith) lt'))
