-- ===== src/Codec/Bytes.antt =====
-- The single bytes of a buffer that is written, and of a range.
use ferris_file_system.Prelude.{
  ℕ, zero, suc, ◌+◌, ◌<◌, ◌≤◌, ◌≡◌, refl, ◌⊎◌, inl, inr, List, [], ◌∷◌, arith, length, get_or, Bool,
  true, false, ltb, if◌then◌else◌,
}
use ferris_file_system.Codec.{write_at, slice}

pub get_or-write_at_inside :
    (buf : List ℕ) (o : ℕ) (xs : List ℕ) (i j : ℕ)
    → i ≡ o + j
    → o + length xs ≤ length buf
    → j < length xs
    → get_or (write_at buf o xs) i 0 ≡ get_or xs j 0
unfolding write_at
get_or-write_at_inside buf zero [] i j e fits lt = absurd (omega arith)
get_or-write_at_inside [] zero (x ∷ xs) i j e fits lt = absurd (omega arith)
get_or-write_at_inside (b ∷ buf) zero (x ∷ xs) zero zero e fits lt = refl
get_or-write_at_inside (b ∷ buf) zero (x ∷ xs) zero (suc j) e fits lt = absurd (omega arith)
get_or-write_at_inside (b ∷ buf) zero (x ∷ xs) (suc i) zero e fits lt = absurd (omega arith)
get_or-write_at_inside (b ∷ buf) zero (x ∷ xs) (suc i) (suc j) e fits lt =
    get_or-write_at_inside buf zero xs i j (omega arith) (omega arith) (omega arith)
get_or-write_at_inside [] (suc o) xs i j e fits lt = absurd (omega arith)
get_or-write_at_inside (b ∷ buf) (suc o) xs zero j e fits lt = absurd (omega arith)
get_or-write_at_inside (b ∷ buf) (suc o) xs (suc i) j e fits lt =
    get_or-write_at_inside buf o xs i j (omega arith) (omega arith) lt

pub get_or-write_at_outside :
    (buf : List ℕ) (o : ℕ) (xs : List ℕ) (i : ℕ)
    → (i < o) ⊎ (o + length xs ≤ i)
    → get_or (write_at buf o xs) i 0 ≡ get_or buf i 0
unfolding write_at
get_or-write_at_outside buf zero [] i out = refl
get_or-write_at_outside [] zero (x ∷ xs) i out = refl
get_or-write_at_outside (b ∷ buf) zero (x ∷ xs) zero out = absurd (ground (arith, out))
get_or-write_at_outside (b ∷ buf) zero (x ∷ xs) (suc i) out =
    get_or-write_at_outside buf zero xs i (inr (ground (arith, out)))
get_or-write_at_outside [] (suc o) xs i out = refl
get_or-write_at_outside (b ∷ buf) (suc o) xs zero out = refl
get_or-write_at_outside (b ∷ buf) (suc o) xs (suc i) out =
    get_or-write_at_outside buf o xs i
      (elim out [ inl lt ↦ inl (omega (arith, lt)) | inr le ↦ inr (omega (arith, le)) ])

pub get_or-slice :
    (xs : List ℕ) (o k i j : ℕ) → i ≡ o + j → j < k → get_or (slice xs o k) j 0 ≡ get_or xs i 0
unfolding slice
get_or-slice [] zero k i j e lt = nil_lem k j
  where
    nil_lem : (k j : ℕ) → get_or (slice [] 0 k) j 0 ≡ 0
    nil_lem zero j = refl
    nil_lem (suc k) j = refl
get_or-slice [] (suc o) zero i j e lt = refl
get_or-slice [] (suc o) (suc k) i j e lt = refl
get_or-slice (x ∷ xs) zero zero i j e lt = absurd (omega arith)
get_or-slice (x ∷ xs) zero (suc k) zero zero e lt = refl
get_or-slice (x ∷ xs) zero (suc k) zero (suc j) e lt = absurd (omega arith)
get_or-slice (x ∷ xs) zero (suc k) (suc i) zero e lt = absurd (omega arith)
get_or-slice (x ∷ xs) zero (suc k) (suc i) (suc j) e lt =
    get_or-slice xs zero k i j (omega arith) (omega arith)
get_or-slice (x ∷ xs) (suc o) k zero j e lt = absurd (omega arith)
get_or-slice (x ∷ xs) (suc o) k (suc i) j e lt = get_or-slice xs o k i j (omega arith) lt

-- Are all elements bytes?
abbrev pub all_bytes : List ℕ → Bool
all_bytes [] = true
all_bytes (x ∷ xs) = let rest = all_bytes xs in if ltb x 256 then rest else false

pub all_bytes_lem : (xs : List ℕ) → all_bytes xs ≡ true → (i : ℕ) → get_or xs i 0 < 256
all_bytes_lem [] all i = omega arith
all_bytes_lem (x ∷ xs) all zero = ground (arith, all)
all_bytes_lem (x ∷ xs) all (suc i) = all_bytes_lem xs (ground (arith, all)) i
