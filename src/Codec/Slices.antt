-- ===== src/Codec/Slices.antt =====
-- Ranges of a buffer that is written: `copy_from_slice` and `to_le_bytes`, which the records of the disk are written with.
use native.Mathlib.Nat.{pow-suc}
use ferris_file_system.Prelude.{
  ℕ, zero, suc, ◌+◌, ◌*◌, ◌/◌, ◌^◌, ◌<◌, ◌≤◌, ◌≡◌, refl, ap, ◌∙◌, List, [], ◌∷◌, arith, length,
  get_or,
}
use ferris_file_system.Device.{Block, IsBlock}
use ferris_file_system.Codec.{to_le_bytes, from_le_bytes, write_at, slice}

pub length-to_le_bytes : (k x : ℕ) → length (to_le_bytes k x) ≡ k
unfolding to_le_bytes
length-to_le_bytes zero x = refl
length-to_le_bytes (suc k) x = ap suc (length-to_le_bytes k (x / 256))

pub from_le_bytes-to_le_bytes : (k x : ℕ) → x < 256 ^ k → from_le_bytes (to_le_bytes k x) ≡ x
unfolding to_le_bytes from_le_bytes
from_le_bytes-to_le_bytes zero x h = omega arith
from_le_bytes-to_le_bytes (suc k) x h =
    let p : 256 ^ suc k ≡ 256 * 256 ^ k = omega (arith, pow-suc 256 k) in
    omega (arith, from_le_bytes-to_le_bytes k (x / 256) (omega (arith, p)))

pub to_le_bytes-byte : (k x i : ℕ) → get_or (to_le_bytes k x) i 0 < 256
unfolding to_le_bytes
to_le_bytes-byte zero x i = omega arith
to_le_bytes-byte (suc k) x zero = omega arith
to_le_bytes-byte (suc k) x (suc i) = to_le_bytes-byte k (x / 256) i

pub length-write_at : (buf : List ℕ) (o : ℕ) (xs : List ℕ) → length (write_at buf o xs) ≡ length buf
unfolding write_at
length-write_at buf zero [] = refl
length-write_at [] zero (x ∷ xs) = refl
length-write_at (b ∷ buf) zero (x ∷ xs) = ap suc (length-write_at buf zero xs)
length-write_at [] (suc o) xs = refl
length-write_at (b ∷ buf) (suc o) xs = ap suc (length-write_at buf o xs)

pub write_at-byte :
    (buf : List ℕ) (o : ℕ) (xs : List ℕ)
    → ((i : ℕ) → get_or buf i 0 < 256)
    → ((i : ℕ) → get_or xs i 0 < 256)
    → (i : ℕ) → get_or (write_at buf o xs) i 0 < 256
unfolding write_at
write_at-byte buf zero [] h k i = h i
write_at-byte [] zero (x ∷ xs) h k i = omega arith
write_at-byte (b ∷ buf) zero (x ∷ xs) h k zero = k 0
write_at-byte (b ∷ buf) zero (x ∷ xs) h k (suc i) =
    write_at-byte buf zero xs (λ j. h (suc j)) (λ j. k (suc j)) i
write_at-byte [] (suc o) xs h k i = omega arith
write_at-byte (b ∷ buf) (suc o) xs h k zero = h 0
write_at-byte (b ∷ buf) (suc o) xs h k (suc i) = write_at-byte buf o xs (λ j. h (suc j)) k i

pub slice-write_at_self :
    (buf : List ℕ) (o : ℕ) (xs : List ℕ)
    → o + length xs ≤ length buf
    → slice (write_at buf o xs) o (length xs) ≡ xs
unfolding write_at slice
slice-write_at_self buf zero [] h = refl
slice-write_at_self [] zero (x ∷ xs) h = absurd (omega arith)
slice-write_at_self (b ∷ buf) zero (x ∷ xs) h =
    ap (◌∷◌ x) (slice-write_at_self buf zero xs (omega arith))
slice-write_at_self [] (suc o) [] h = refl
slice-write_at_self [] (suc o) (x ∷ xs) h = absurd (omega arith)
slice-write_at_self (b ∷ buf) (suc o) xs h = slice-write_at_self buf o xs (omega arith)

-- A range before what is written.
pub slice-write_at_before :
    (buf : List ℕ) (o : ℕ) (xs : List ℕ) (p k : ℕ)
    → p + k ≤ o
    → slice (write_at buf o xs) p k ≡ slice buf p k
unfolding write_at slice
slice-write_at_before buf zero xs zero zero h = refl
slice-write_at_before buf zero xs zero (suc k) h = absurd (omega arith)
slice-write_at_before buf zero xs (suc p) k h = absurd (omega arith)
slice-write_at_before [] (suc o) xs p k h = refl
slice-write_at_before (b ∷ buf) (suc o) xs zero zero h = refl
slice-write_at_before (b ∷ buf) (suc o) xs zero (suc k) h =
    ap (◌∷◌ b) (slice-write_at_before buf o xs zero k (omega arith))
slice-write_at_before (b ∷ buf) (suc o) xs (suc p) k h =
    slice-write_at_before buf o xs p k (omega arith)

-- A range behind what is written.
pub slice-write_at_behind :
    (buf : List ℕ) (o : ℕ) (xs : List ℕ) (p k : ℕ)
    → o + length xs ≤ p
    → slice (write_at buf o xs) p k ≡ slice buf p k
unfolding write_at slice
slice-write_at_behind buf zero [] p k h = refl
slice-write_at_behind [] zero (x ∷ xs) p k h = refl
slice-write_at_behind (b ∷ buf) zero (x ∷ xs) zero k h = absurd (omega arith)
slice-write_at_behind (b ∷ buf) zero (x ∷ xs) (suc p) k h =
    slice-write_at_behind buf zero xs p k (omega arith)
slice-write_at_behind [] (suc o) xs p k h = refl
slice-write_at_behind (b ∷ buf) (suc o) xs zero k h = absurd (omega arith)
slice-write_at_behind (b ∷ buf) (suc o) xs (suc p) k h =
    slice-write_at_behind buf o xs p k (omega arith)

slice_nil : (s m : ℕ) → slice [] s m ≡ []
unfolding slice
slice_nil zero zero = refl
slice_nil zero (suc m) = refl
slice_nil (suc s) zero = refl
slice_nil (suc s) (suc m) = refl

slice-slice_nil : (s m p q k : ℕ) → slice (slice [] s m) p k ≡ slice [] q k
slice-slice_nil s m p q k = rw (slice_nil s m, slice_nil p k, slice_nil q k) refl

slice_nil-byte : (s m i : ℕ) → get_or (slice [] s m) i 0 < 256
slice_nil-byte s m i = rw (slice_nil s m) (omega arith)

-- A range inside what is written.
pub slice-write_at_inside :
    (buf : List ℕ) (o : ℕ) (xs : List ℕ) (p q k : ℕ)
    → p ≡ o + q
    → q + k ≤ length xs
    → o + length xs ≤ length buf
    → slice (write_at buf o xs) p k ≡ slice xs q k
unfolding write_at slice
slice-write_at_inside buf zero [] p q k e h fits = let ek : k ≡ 0 = omega (arith, h) in rw ek refl
slice-write_at_inside [] zero (x ∷ xs) p q k e h fits = absurd (omega arith)
slice-write_at_inside (b ∷ buf) zero (x ∷ xs) zero zero zero e h fits = refl
slice-write_at_inside (b ∷ buf) zero (x ∷ xs) zero zero (suc k) e h fits =
    ap (◌∷◌ x) (slice-write_at_inside buf zero xs zero zero k refl (omega arith) (omega arith))
slice-write_at_inside (b ∷ buf) zero (x ∷ xs) zero (suc q) k e h fits = absurd (omega arith)
slice-write_at_inside (b ∷ buf) zero (x ∷ xs) (suc p) zero k e h fits = absurd (omega arith)
slice-write_at_inside (b ∷ buf) zero (x ∷ xs) (suc p) (suc q) k e h fits =
    slice-write_at_inside buf zero xs p q k (omega arith) (omega arith) (omega arith)
slice-write_at_inside buf (suc o) xs zero q k e h fits = absurd (omega arith)
slice-write_at_inside [] (suc o) xs (suc p) q k e h fits = absurd (omega arith)
slice-write_at_inside (b ∷ buf) (suc o) xs (suc p) q k e h fits =
    slice-write_at_inside buf o xs p q k (omega arith) (omega arith) (omega arith)

-- A range of a range.
pub slice-slice :
    (xs : List ℕ) (s m p q k : ℕ) → q ≡ s + p → p + k ≤ m → slice (slice xs s m) p k ≡ slice xs q k
unfolding slice
slice-slice [] s m p q k e h = slice-slice_nil s m p q k
slice-slice (x ∷ xs) zero m zero zero zero e h = refl
slice-slice (x ∷ xs) zero zero zero zero (suc k) e h = absurd (omega arith)
slice-slice (x ∷ xs) zero (suc m) zero zero (suc k) e h =
    ap (◌∷◌ x) (slice-slice xs zero m zero zero k refl (omega arith))
slice-slice (x ∷ xs) zero m zero (suc q) k e h = absurd (omega arith)
slice-slice (x ∷ xs) zero m (suc p) zero k e h = absurd (omega arith)
slice-slice (x ∷ xs) zero zero (suc p) (suc q) k e h = absurd (omega arith)
slice-slice (x ∷ xs) zero (suc m) (suc p) (suc q) k e h =
    slice-slice xs zero m p q k (omega arith) (omega arith)
slice-slice (x ∷ xs) (suc s) m p zero k e h = absurd (omega arith)
slice-slice (x ∷ xs) (suc s) m p (suc q) k e h = slice-slice xs s m p q k (omega arith) h

pub length-slice : (xs : List ℕ) (s m : ℕ) → s + m ≤ length xs → length (slice xs s m) ≡ m
unfolding slice
length-slice xs zero zero h = refl
length-slice [] zero (suc m) h = absurd (omega arith)
length-slice (x ∷ xs) zero (suc m) h = ap suc (length-slice xs zero m (omega arith))
length-slice [] (suc s) m h = absurd (omega arith)
length-slice (x ∷ xs) (suc s) m h = length-slice xs s m (omega arith)

pub slice-byte :
    (xs : List ℕ) (s m : ℕ)
    → ((i : ℕ) → get_or xs i 0 < 256)
    → (i : ℕ) → get_or (slice xs s m) i 0 < 256
unfolding slice
slice-byte [] s m h i = slice_nil-byte s m i
slice-byte (x ∷ xs) zero zero h i = omega arith
slice-byte (x ∷ xs) zero (suc m) h zero = h 0
slice-byte (x ∷ xs) zero (suc m) h (suc i) = slice-byte xs zero m (λ j. h (suc j)) i
slice-byte (x ∷ xs) (suc s) m h i = slice-byte xs s m (λ j. h (suc j)) i

pub write_at-IsBlock :
    (buf : Block) (o : ℕ) (xs : List ℕ)
    → IsBlock buf
    → ((i : ℕ) → get_or xs i 0 < 256)
    → IsBlock (write_at buf o xs)
write_at-IsBlock buf o xs ib k = record {
  size = length-write_at buf o xs ∙ ib.size;
  byte = write_at-byte buf o xs ib.byte k;
}
