-- ===== src/Bitmap/CountBytes.antt =====
-- The loops of `count_allocated` of src/formats/v1/bitmap_allocator.rs over the bytes of a block.
use ferris_file_system.Prelude.{
  ℕ, zero, suc, ◌+◌, ◌-◌, ◌*◌, ◌/◌, ◌%◌, ◌^◌, ◌<◌, ◌≤◌, ◌≡◌, refl, ap, ◌∙◌, inl, inr, Bool, true,
  false, not, ◌&&◌, arith, get_or, ltb, leb, ◌==◌, if◌then◌else◌, Bool-cases, add32, mul32, bit_and,
}
use ferris_file_system.Prelude.Bits.{test_bit, shifted_bit, shift_once, test_bit_of_zero}
use ferris_file_system.Device.{Store, IsBlock}
use ferris_file_system.Bitmap.{Count, go_on, stop, count_bits, count_bytes, get_index}
use ferris_file_system.Bitmap.View.{bit_of}

-- How many indices of `lo .. lo + k` a test holds of.
unfoldable pub tally : (ℕ → Bool) → ℕ → ℕ → ℕ
tally p lo zero = 0
tally p lo (suc k) = (if p lo then 1 else 0) + tally p (lo + 1) k

pub tally-nil : (p : ℕ → Bool) (lo : ℕ) → tally p lo 0 ≡ 0
unfolding tally
tally-nil p lo = refl

pub tally-le : (p : ℕ → Bool) (k lo : ℕ) → tally p lo k ≤ k
unfolding tally
tally-le p zero lo = omega arith
tally-le p (suc k) lo = ground (arith, tally-le p k (lo + 1))

pub tally-add :
    (p : ℕ → Bool) (k m lo mid : ℕ)
    → lo + k ≡ mid
    → tally p lo (k + m) ≡ tally p lo k + tally p mid m
unfolding tally
tally-add p zero m lo mid e =
    let e' : lo ≡ mid = omega arith in let z : 0 + m ≡ m = omega arith in rw (z, e') (omega arith)
tally-add p (suc k) m lo mid e =
    let z : suc k + m ≡ suc (k + m) = omega arith in
    rw z (omega (arith, tally-add p k m (lo + 1) mid (omega arith)))

pub tally-zero :
    (p : ℕ → Bool) (k lo : ℕ) → ((i : ℕ) → lo ≤ i → i < lo + k → p i ≡ false) → tally p lo k ≡ 0
unfolding tally
tally-zero p zero lo h = refl
tally-zero p (suc k) lo h =
    rw
      (
        h lo (omega arith) (omega arith),
        tally-zero p k (lo + 1) (λ i a b. h i (omega arith) (omega arith)),
      )
      (omega arith)

-- A count that began with `before` and saw `new` more up to `hi`; it may stop past `max`.
pub data Counted (max before new hi : ℕ) (c : Count) : Type 0 where
  went_on : c ≡ go_on (before + new) → Counted max before new hi c
  stopped : c ≡ stop (before + new) → max ≤ hi → Counted max before new hi c

-- Only the sum of the two counts matters.
Counted-regroup :
    {max before new before' new' hi : ℕ} {c : Count}
    → before + new ≡ before' + new'
    → Counted max before new hi c
    → Counted max before' new' hi c
Counted-regroup e (went_on eq) = went_on (eq ∙ ap go_on e)
Counted-regroup e (stopped eq past) = stopped (eq ∙ ap stop e) past

-- An index below the end whose bit is set.
abbrev pub used_in : ℕ → Store → ℕ → ℕ → Bool
used_in max f start i = ltb i max && bit_of f start i

pub unused : (max start : ℕ) (f : Store) (i : ℕ) → max ≤ i → used_in max f start i ≡ false
unused max start f i h = ground arith

module _ (max start : ℕ) (f : Store) (ib : (i : ℕ) → IsBlock (f i)) where
  abbrev used : ℕ → Bool
  used = used_in max f start

  count_bits_lem :
      (byte base : ℕ)
      → byte < 256
      → ((b : ℕ) → b < 8 → bit_of f start (base + b) ≡ test_bit byte b)
      → (rounds pos index el before : ℕ) → pos + rounds ≡ 8
      → index ≡ base + pos
      → el ≡ byte / 2 ^ pos
      → before + rounds < 2 ^ 32
      → Counted max before
          (tally used index rounds)
          (base + 8)
          (count_bits max rounds index el before)
  unfolding count_bits tally
  count_bits_lem byte base hb bits zero pos index el before e1 e2 e3 small = went_on (ground arith)
  count_bits_lem byte base hb bits (suc rounds) pos index el before e1 e2 e3 small =
      let half : el / 2 ≡ byte / 2 ^ (pos + 1) = rw e3 (shift_once byte pos hb (omega arith)) in
      let bit : bit_of f start index ≡ test_bit byte pos = rw e2 (bits pos (omega arith)) in
      let el_bit : (bit_and el 1 == 0) ≡ not (test_bit byte pos) =
        rw e3 (shifted_bit byte pos hb (omega arith)) in
      elim (Bool-cases (leb max index)) [
        | inl past ↦
            let none_here : used index ≡ false = unused max start f index (ground arith) in
            let none_left : tally used (index + 1) rounds ≡ 0 =
              tally-zero used rounds (index + 1) (λ i a b. unused max start f i (ground arith)) in
            rw (past, none_here, none_left) (stopped (ap stop (omega arith)) (ground arith))
        | inr inside ↦ elim (Bool-cases (test_bit byte pos)) [
          | inl set ↦
              let here : used index ≡ true = rw (bit, set) (ground arith) in
              let el_set : (bit_and el 1 == 0) ≡ false = rw (el_bit, set) in
              let sum : add32 before 1 ≡ before + 1 = omega arith in
              rw (inside, here, el_set, sum)
                (Counted-regroup (omega arith) (
                  count_bits_lem byte base hb bits rounds (pos + 1) (index + 1) (el / 2)
                    (before + 1) (omega arith) (omega arith) half (omega arith)))
          | inr clear ↦
              let here : used index ≡ false = rw (bit, clear) (ground arith) in
              let el_clear : (bit_and el 1 == 0) ≡ true = rw (el_bit, clear) in
              rw (inside, here, el_clear)
                (Counted-regroup (omega arith) (
                  count_bits_lem byte base hb bits rounds (pos + 1) (index + 1) (el / 2) before
                    (omega arith) (omega arith) half (omega arith)))
        ]
      ]

  -- A part of a count, and what follows it unless it stopped.
  Counted-then :
      (before lo k mid m hi : ℕ) (c : Count) (on : ℕ → Count)
      → lo + k ≡ mid
      → mid ≤ hi
      → Counted max before (tally used lo k) mid c
      → Counted max (before + tally used lo k) (tally used mid m) hi (on (before + tally used lo k))
      → Counted max before
          (tally used lo (k + m))
          hi
          (elim c as (λ x. Count) [ go_on c' ↦ on c' | stop c' ↦ stop c' ])
  Counted-then before lo k mid m hi c on e le (went_on eq) second =
      rw eq (Counted-regroup (omega (arith, tally-add used k m lo mid e)) second)
  Counted-then before lo k mid m hi c on e le (stopped eq past) second =
      let none_left : tally used mid m ≡ 0 =
        tally-zero used m mid (λ i a b. unused max start f i (omega arith)) in
      rw eq
        (stopped (ap stop (omega (arith, tally-add used k m lo mid e, none_left))) (omega arith))

  bit_of-byte :
      (i j b : ℕ)
      → j < 256
      → b < 8
      → bit_of f start ((j + i * 256) * 8 + b) ≡ test_bit (get_or (f (start + i)) j 0) b
  unfolding bit_of
  bit_of-byte i j b hj hb =
      let block : ((j + i * 256) * 8 + b) / 8 / 256 ≡ i = omega arith in
      let byte : ((j + i * 256) * 8 + b) / 8 % 256 ≡ j = omega arith in
      let bit : ((j + i * 256) * 8 + b) % 8 ≡ b = omega arith in rw (block, byte, bit)

  clear_byte :
      (i j : ℕ)
      → j < 256
      → get_or (f (start + i)) j 0 < 256
      → get_or (f (start + i)) j 0 ≡ 0
      → (k : ℕ) → (j + i * 256) * 8 ≤ k
      → k < (j + i * 256) * 8 + 8
      → used k ≡ false
  clear_byte i j hj range e k lo hi =
      let b = k - (j + i * 256) * 8 in
      let at : (j + i * 256) * 8 + b ≡ k = omega arith in
      let clear = test_bit_of_zero (get_or (f (start + i)) j 0) b range (omega arith) e in
      rw (← at) (rw (bit_of-byte i j b hj (omega arith), clear) (ground arith))

  count_byte : ℕ → ℕ → ℕ → Count
  count_byte i j before =
      let el = get_or (f (start + i)) j 0 in
      if el == 0 then go_on before else count_bits max 8 (get_index i j 0) el before

  count_byte_lem :
      (i j before : ℕ)
      → j < 256
      → (j + i * 256) * 8 < 2 ^ 32
      → before + 8 < 2 ^ 32
      → Counted max before
          (tally used ((j + i * 256) * 8) 8)
          ((j + i * 256) * 8 + 8)
          (count_byte i j before)
  unfolding count_byte get_index
  count_byte_lem i j before hj fits small =
      let el = get_or (f (start + i)) j 0 in
      let base = (j + i * 256) * 8 in
      let range : el < 256 = (ib (start + i)).byte j in
      let off : add32 (mul32 (add32 j (mul32 i 256)) 8) 0 ≡ base = omega arith in
      elim (Bool-cases (el == 0)) [
        | inl nothing ↦
            let none_here : tally used base 8 ≡ 0 =
              tally-zero used 8 base (clear_byte i j hj range (ground arith)) in
            rw (nothing, none_here) (went_on (ap go_on (omega arith)))
        | inr something ↦
            rw (something, off)
              (count_bits_lem el base range (λ b hb. bit_of-byte i j b hj hb) 8 0 base el before
                refl (omega arith) (omega arith) small)
      ]

  pub count_bytes_lem :
      (i : ℕ)
      → (i + 1) * 2048 ≤ 2 ^ 32
      → (rounds j before : ℕ) → j + rounds ≡ 256
      → before + rounds * 8 < 2 ^ 32
      → Counted max before
          (tally used ((j + i * 256) * 8) (rounds * 8))
          ((i + 1) * 2048)
          (count_bytes max i rounds j (f (start + i)) before)
  unfolding count_bytes tally count_byte
  count_bytes_lem i fits zero j before e small = went_on (ap go_on (omega arith))
  count_bytes_lem i fits (suc rounds) j before e small =
      let base = (j + i * 256) * 8 in
      let count : suc rounds * 8 ≡ 8 + rounds * 8 = omega arith in
      let next_base : base + 8 ≡ (j + 1 + i * 256) * 8 = omega arith in
      rw count (
        Counted-then before base 8 (base + 8) (rounds * 8) ((i + 1) * 2048) _
          (count_bytes max i rounds (j + 1) (f (start + i))) refl (omega arith)
          (count_byte_lem i j before (omega arith) (omega arith) (omega arith))
          (rw next_base (
            count_bytes_lem i fits rounds (j + 1) _ (omega arith)
              (omega (arith, tally-le used 8 base)))))
