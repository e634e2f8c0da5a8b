-- ===== src/Bitmap/FirstOpen.antt =====
-- The byte and the bit that `find_allocate` of src/formats/v1/bitmap_allocator.rs finds in a block.
use ferris_file_system.Prelude.{
  ℕ, zero, suc, ◌+◌, ◌*◌, ◌/◌, ◌%◌, ◌<◌, ◌≤◌, ◌≡◌, ◌≢◌, inl, inr, Bool, true, false, arith, get_or,
  ltb, ◌==◌, Bool-cases,
}
use ferris_file_system.Prelude.Bits.{
  test_bit, trailing_ones, trailing_ones-first, trailing_ones-below, test_bit_of_full,
}
use ferris_file_system.Device.{Block, Store, IsBlock}
use ferris_file_system.Bitmap.{first_open}
use ferris_file_system.Bitmap.View.{bit_of}

pub contradiction : (b : Bool) → b ≡ true → b ≡ false → ⊥
contradiction b p q = ground arith

-- What the loop over the bytes of a block finds.
pub record Opened (rounds j : ℕ) (buf : Block) (r : ℕ) : Type 0 where
  pub lo : j ≤ r
  pub hi : r ≤ j + rounds
  pub before : (k : ℕ) → j ≤ k → k < r → get_or buf k 0 ≡ 255
  pub at : r < j + rounds → get_or buf r 0 ≢ 255

pub first_open_lem : (rounds j : ℕ) (buf : Block) → Opened rounds j buf (first_open rounds j buf)
unfolding first_open
first_open_lem zero j buf = record {
  lo = omega arith;
  hi = omega arith;
  before = λ k a b. absurd (omega arith);
  at = λ lt. absurd (omega arith);
}
first_open_lem (suc rounds) j buf =
    let ih = first_open_lem rounds (j + 1) buf in
    elim (Bool-cases (get_or buf j 0 == 255)) [
      | inl full ↦ rw full (record {
        lo = omega (arith, ih.lo);
        hi = omega (arith, ih.hi);
        before = λ k a b. step (first_open rounds (j + 1) buf) ih (ground arith) k a b;
        at = λ lt. ih.at (omega arith);
      })
      | inr open_byte ↦ rw open_byte (record {
        lo = omega arith;
        hi = omega arith;
        before = λ k a b. absurd (omega arith);
        at = λ lt e. ground arith;
      })
    ]
  where
    step :
        (r : ℕ)
        → Opened rounds (j + 1) buf r
        → get_or buf j 0 ≡ 255
        → (k : ℕ) → j ≤ k
        → k < r
        → get_or buf k 0 ≡ 255
    step r ih e k a b = elim (Bool-cases (j == k)) [
      | inl same ↦ let s : j ≡ k = ground arith in rw s at e
      | inr other ↦ ih.before k (ground arith) b
    ]

module _ (f : Store) (ib : (i : ℕ) → IsBlock (f i)) (start i : ℕ) where
  unfoldable pub opened : ℕ
  opened = first_open 256 0 (f (start + i))

  -- The index of the first zero bit of the first byte that has one.
  unfoldable pub found : ℕ
  unfolding opened
  found = (opened + i * 256) * 8 + trailing_ones (get_or (f (start + i)) opened 0)

  pub found-clear : opened < 256 → (bit_of f start found ≡ false) × (found / 8 / 256 ≡ i)
  unfolding found bit_of
  found-clear lt =
      let is = first_open_lem 256 0 (f (start + i)) in
      let byte = get_or (f (start + i)) opened 0 in
      let first = trailing_ones-first byte ((ib (start + i)).byte opened) (is.at lt) in
      let block : ((opened + i * 256) * 8 + trailing_ones byte) / 8 / 256 ≡ i =
        omega (arith, first.0) in
      let at : ((opened + i * 256) * 8 + trailing_ones byte) / 8 % 256 ≡ opened =
        omega (arith, first.0) in
      let bit : ((opened + i * 256) * 8 + trailing_ones byte) % 8 ≡ trailing_ones byte =
        omega (arith, first.0) in
      (rw (block, at, bit) first.1, block)

  -- Every bit of the block that precedes it is set.
  pub found-least :
      (t : ℕ) → t / 8 / 256 ≡ i → bit_of f start t ≡ false → (opened < 256) × (found ≤ t)
  unfolding found bit_of
  found-least t here clear =
      let is = first_open_lem 256 0 (f (start + i)) in
      let buf = f (start + i) in
      let tb = t / 8 % 256 in
      let bit_clear : test_bit (get_or buf tb 0) (t % 8) ≡ false = rw here at clear in
      let not_full : get_or buf tb 0 ≢ 255 = λ e. ground (
        arith,
        test_bit_of_full (get_or buf tb 0) (t % 8) ((ib (start + i)).byte tb) (omega arith) e,
      ) in
      let le : opened ≤ tb = elim (Bool-cases (ltb tb opened)) [
        | inl past ↦ absurd (not_full (is.before tb (omega arith) (ground arith)))
        | inr ok_so_far ↦ ground arith
      ] in
      let byte = get_or buf opened 0 in
      let range : byte < 256 = (ib (start + i)).byte opened in
      let open_byte : byte ≢ 255 = is.at (omega arith) in
      let first = trailing_ones-first byte range open_byte in
      (
        omega arith,
        elim (Bool-cases (opened == tb)) [
          | inl e ↦
              let e' : opened ≡ tb = ground arith in
              let clear' : test_bit byte (t % 8) ≡ false = rw (← e') at bit_clear in
              elim (Bool-cases (ltb (t % 8) (trailing_ones byte))) [
                | inl past ↦
                    let set = trailing_ones-below byte (t % 8) range open_byte (ground arith) in
                    absurd (ground arith)
                | inr low ↦ ground arith
              ]
          | inr e ↦ ground arith
        ],
      )
