-- ===== src/Prelude/Bits.antt =====
-- The bits of one byte: the tests and updates of the bitmaps, with their laws by evaluation.
use Prim.Native.Nat.{ℕ, zero, suc, ◌+◌, ◌-◌, ◌/◌, ◌%◌, ◌^◌, ◌<◌, ◌≤◌, bit_and, bit_or}
use mathlib.Core.Path.{◌≡◌, refl, sym, ap, ◌∙◌}
use mathlib.Core.Logic.{◌≢◌, inl, inr}
use mathlib.Core.Bool.{Bool, true, false, not, ◌&&◌, ◌||◌}
use native.Mathlib.Omega.{arith}
use ferris_file_system.Prelude.Tests.{ltb, ◌==◌, if◌then◌else◌, Bool-cases}

-- `byte & (1 << bit) != 0`
unfoldable pub test_bit : ℕ → ℕ → Bool
test_bit byte bit = not (bit_and byte (2 ^ bit) == 0)

-- `byte |= 1 << bit`
unfoldable pub set_bit : ℕ → ℕ → ℕ
set_bit byte bit = bit_or byte (2 ^ bit)

-- `byte &= !(1 << bit)`, on a `u8`
unfoldable pub clear_bit : ℕ → ℕ → ℕ
clear_bit byte bit = bit_and byte (255 - 2 ^ bit)

-- Does a test hold of the `k` numbers from `lo` on?
every : (ℕ → Bool) → ℕ → ℕ → Bool
every p lo zero = true
every p lo (suc k) = p lo && every p (lo + 1) k

every_at : (p : ℕ → Bool) (k lo x : ℕ) → every p lo k ≡ true → lo ≤ x → x < lo + k → p x ≡ true
unfolding every
every_at p zero lo x h le lt = absurd (omega arith)
every_at p (suc k) lo x h le lt = elim (Bool-cases (lo == x)) [
  | inl e ↦ let here : lo ≡ x = ground (arith, e) in ap p (sym here) ∙ ground arith
  | inr e ↦ every_at p k (lo + 1) x (ground arith) (ground (arith, e)) (omega arith)
]

-- One value of a byte, or one value of a byte and two bit positions, by evaluation.
module _ (p : ℕ → ℕ → ℕ → Bool) where
  table : Bool
  unfolding every
  table = every (λ x. every (λ b. every (λ c. p x b c) 0 8) 0 8) 0 256

  table_sound : table ≡ true → (x b c : ℕ) → x < 256 → b < 8 → c < 8 → p x b c ≡ true
  unfolding table
  table_sound h x b c hx hb hc =
      let row =
        every_at (λ x. every (λ b. every (λ c. p x b c) 0 8) 0 8) 256 0 x h (omega arith) hx in
      let cell = every_at (λ b. every (λ c. p x b c) 0 8) 8 0 b row (omega arith) hb in
      every_at (λ c. p x b c) 8 0 c cell (omega arith) hc

infix 50 ◌=?◌
abbrev ◌=?◌ : Bool → Bool → Bool
true =? b = b
false =? b = not b

eq_of_test : (a b : Bool) → (a =? b) ≡ true → a ≡ b
eq_of_test true true h = refl
eq_of_test false false h = refl
eq_of_test true false h = ground arith
eq_of_test false true h = ground arith

set_table : table (λ x b c. test_bit (set_bit x b) c =? ((c == b) || test_bit x c)) ≡ true
unfolding table test_bit set_bit
set_table = refl

clear_table : table (λ x b c. test_bit (clear_bit x b) c =? (not (c == b) && test_bit x c)) ≡ true
unfolding table test_bit clear_bit
clear_table = refl

range_table : table (λ x b c. ltb (set_bit x b) 256 && ltb (clear_bit x b) 256) ≡ true
unfolding table set_bit clear_bit
range_table = refl

shift_table : table (λ x b c. (bit_and (x / 2 ^ b) 1 == 0) =? not (test_bit x b)) ≡ true
unfolding table test_bit
shift_table = refl

pub test_bit-set_bit :
    (x b c : ℕ) → x < 256 → b < 8 → c < 8 → test_bit (set_bit x b) c ≡ ((c == b) || test_bit x c)
test_bit-set_bit x b c hx hb hc = eq_of_test _ _ (table_sound _ set_table x b c hx hb hc)

pub test_bit-clear_bit :
    (x b c : ℕ)
    → x < 256
    → b < 8
    → c < 8
    → test_bit (clear_bit x b) c ≡ (not (c == b) && test_bit x c)
test_bit-clear_bit x b c hx hb hc = eq_of_test _ _ (table_sound _ clear_table x b c hx hb hc)

pub bits_range : (x b : ℕ) → x < 256 → b < 8 → (set_bit x b < 256) × (clear_bit x b < 256)
bits_range x b hx hb = ground (arith, table_sound _ range_table x b 0 hx hb (omega arith))

pub shifted_bit : (x b : ℕ) → x < 256 → b < 8 → (bit_and (x / 2 ^ b) 1 == 0) ≡ not (test_bit x b)
shifted_bit x b hx hb = eq_of_test _ _ (table_sound _ shift_table x b 0 hx hb (omega arith))

trailing_ones_loop : ℕ → ℕ → ℕ
trailing_ones_loop zero byte = 0
trailing_ones_loop (suc k) byte =
    let rest = trailing_ones_loop k (byte / 2) in if byte % 2 == 0 then 0 else 1 + rest

-- `u8::trailing_ones`
unfoldable pub trailing_ones : ℕ → ℕ
unfolding trailing_ones_loop
trailing_ones byte = trailing_ones_loop 8 byte

-- What the first zero bit of a byte other than `u8::MAX` is; the full byte has none.
ones_table :
    table (λ x b c.
      (x == 255)
      || (ltb (trailing_ones x) 8
          && not (test_bit x (trailing_ones x))
          && (not (ltb b (trailing_ones x)) || test_bit x b)))
    ≡ true
unfolding table test_bit trailing_ones
ones_table = refl

full_table : table (λ x b c. not (x == 255) || test_bit x b) ≡ true
unfolding table test_bit
full_table = refl

empty_table : table (λ x b c. not (x == 0) || not (test_bit x b)) ≡ true
unfolding table test_bit
empty_table = refl

pub test_bit_of_full : (x b : ℕ) → x < 256 → b < 8 → x ≡ 255 → test_bit x b ≡ true
test_bit_of_full x b hx hb e = ground (arith, table_sound _ full_table x b 0 hx hb (omega arith))

pub test_bit_of_zero : (x b : ℕ) → x < 256 → b < 8 → x ≡ 0 → test_bit x b ≡ false
test_bit_of_zero x b hx hb e = ground (arith, table_sound _ empty_table x b 0 hx hb (omega arith))

pub trailing_ones-first :
    (x : ℕ) → x < 256 → x ≢ 255 → (trailing_ones x < 8) × (test_bit x (trailing_ones x) ≡ false)
trailing_ones-first x hx ne =
    ground (arith, table_sound _ ones_table x 0 0 hx (omega arith) (omega arith))

pub trailing_ones-below : (x b : ℕ) → x < 256 → x ≢ 255 → b < trailing_ones x → test_bit x b ≡ true
trailing_ones-below x b hx ne lt =
    let first = trailing_ones-first x hx ne in
    ground (arith, table_sound _ ones_table x b 0 hx (omega arith) (omega arith))

half_table : table (λ x b c. x / 2 ^ b / 2 == x / 2 ^ (b + 1)) ≡ true
unfolding table
half_table = refl

pub shift_once : (x b : ℕ) → x < 256 → b < 8 → x / 2 ^ b / 2 ≡ x / 2 ^ (b + 1)
shift_once x b hx hb = ground (arith, table_sound _ half_table x b 0 hx hb (omega arith))
