-- ===== src/Codec/Fields.antt =====
-- What was written by a sequence of `write_field!` is read back by `read_field!`.
use ferris_file_system.Prelude.{
  ℕ, zero, suc, ◌+◌, ◌*◌, ◌^◌, ◌<◌, ◌≤◌, ◌≡◌, refl, ap, ◌∙◌, some, List, [], ◌∷◌, ◌++◌, arith,
  length, get_elem?, take, All,
}
use ferris_file_system.Device.{Block, IsBlock}
use ferris_file_system.Codec.{
  to_le_bytes, write_at, slice, Field, write_fields, read_field, read_array, total, array_fields,
}
use ferris_file_system.Codec.Slices.{
  length-to_le_bytes, from_le_bytes-to_le_bytes, to_le_bytes-byte, length-write_at,
  slice-write_at_self, slice-write_at_before, slice-write_at_behind, write_at-IsBlock,
}

pub write_fields-IsBlock :
    (fs : List Field) (buf : Block) (o : ℕ) → IsBlock buf → IsBlock (write_fields buf o fs)
unfolding write_fields
write_fields-IsBlock [] buf o ib = ib
write_fields-IsBlock ((k, x) ∷ fs) buf o ib =
    write_fields-IsBlock fs _ (o + k)
      (write_at-IsBlock buf o (to_le_bytes k x) ib (to_le_bytes-byte k x))

pub length-write_fields :
    (fs : List Field) (buf : List ℕ) (o : ℕ) → length (write_fields buf o fs) ≡ length buf
unfolding write_fields
length-write_fields [] buf o = refl
length-write_fields ((k, x) ∷ fs) buf o =
    length-write_fields fs _ (o + k) ∙ length-write_at buf o (to_le_bytes k x)

-- What lies before the fields stays.
pub slice-write_fields_before :
    (fs : List Field) (buf : List ℕ) (o p k : ℕ)
    → p + k ≤ o
    → slice (write_fields buf o fs) p k ≡ slice buf p k
unfolding write_fields
slice-write_fields_before [] buf o p k h = refl
slice-write_fields_before ((j, x) ∷ fs) buf o p k h =
    slice-write_fields_before fs _ (o + j) p k (omega arith)
    ∙ slice-write_at_before buf o (to_le_bytes j x) p k h

pub read_field-write_fields_before :
    (fs : List Field) (buf : List ℕ) (o p k : ℕ)
    → p + k ≤ o
    → read_field k (write_fields buf o fs) p ≡ read_field k buf p
unfolding read_field
read_field-write_fields_before fs buf o p k h = rw (slice-write_fields_before fs buf o p k h)

pub read_field-write_at :
    (buf : List ℕ) (o k x : ℕ)
    → o + k ≤ length buf
    → x < 256 ^ k
    → read_field k (write_at buf o (to_le_bytes k x)) o ≡ x
unfolding read_field
read_field-write_at buf o k x fits lt =
    let self =
      slice-write_at_self buf o (to_le_bytes k x) (omega (arith, length-to_le_bytes k x)) in
    let self' : slice (write_at buf o (to_le_bytes k x)) o k ≡ to_le_bytes k x =
      rw (length-to_le_bytes k x) at self in
    rw self' (from_le_bytes-to_le_bytes k x lt)

pub read_field-write_at_before :
    (buf : List ℕ) (o : ℕ) (xs : List ℕ) (p k : ℕ)
    → p + k ≤ o
    → read_field k (write_at buf o xs) p ≡ read_field k buf p
unfolding read_field
read_field-write_at_before buf o xs p k le = rw (slice-write_at_before buf o xs p k le) refl

pub write_address-IsBlock :
    (buf : Block) (o k x : ℕ) → IsBlock buf → IsBlock (write_at buf o (to_le_bytes k x))
write_address-IsBlock buf o k x ib = write_at-IsBlock buf o _ ib (to_le_bytes-byte k x)

-- The `i`-th field, at the sum of the sizes before it.
pub read_field-write_fields :
    (fs : List Field) (i : ℕ) (buf : List ℕ) (o : ℕ) {k x : ℕ}
    → get_elem? fs i ≡ some (k, x)
    → o + total fs ≤ length buf
    → x < 256 ^ k
    → read_field k (write_fields buf o fs) (o + total (take i fs)) ≡ x
unfolding write_fields
read_field-write_fields [] i buf o e fits lt = cc
read_field-write_fields ((j, y) ∷ fs) zero buf o {k} {x} e fits lt =
    let ek : j ≡ k = cc in
    let ex : y ≡ x = cc in
    let at : o + 0 ≡ o = omega arith in
    rw (ek, ex, at)
      (read_field-write_fields_before fs _ (o + k) o k (omega arith)
        ∙ read_field-write_at buf o k x (omega (arith, ek)) lt)
read_field-write_fields ((j, y) ∷ fs) (suc i) buf o {k} {x} e fits lt =
    let at : o + (j + total (take i fs)) ≡ o + j + total (take i fs) = omega arith in
    rw at (
      read_field-write_fields fs i (write_at buf o (to_le_bytes j y)) (o + j) e
        (omega (arith, length-write_at buf o (to_le_bytes j y))) lt)

pub slice-write_fields_behind :
    (fs : List Field) (buf : List ℕ) (o p k : ℕ)
    → o + total fs ≤ p
    → slice (write_fields buf o fs) p k ≡ slice buf p k
unfolding write_fields
slice-write_fields_behind [] buf o p k h = refl
slice-write_fields_behind ((j, x) ∷ fs) buf o p k h =
    slice-write_fields_behind fs _ (o + j) p k (omega arith)
    ∙ slice-write_at_behind buf o (to_le_bytes j x) p k (omega (arith, length-to_le_bytes j x))

pub write_fields-append :
    (fs gs : List Field) (buf : List ℕ) (o : ℕ)
    → write_fields buf o (fs ++ gs) ≡ write_fields (write_fields buf o fs) (o + total fs) gs
unfolding write_fields
write_fields-append [] gs buf o = let z : o + 0 ≡ o = omega arith in rw z
write_fields-append ((k, x) ∷ fs) gs buf o =
    let at : o + (k + total fs) ≡ o + k + total fs = omega arith in
    rw at (write_fields-append fs gs _ (o + k))

pub total-array_fields : (k : ℕ) (xs : List ℕ) → total (array_fields k xs) ≡ length xs * k
total-array_fields k [] = omega arith
total-array_fields k (x ∷ xs) =
    let m : suc (length xs) * k ≡ k + length xs * k = grind arith in
    rw m (ap (λ t. k + t) (total-array_fields k xs))

pub read_array-write_fields_before :
    (n : ℕ) (fs : List Field) (buf : List ℕ) (o p k : ℕ)
    → p + n * k ≤ o
    → read_array n k (write_fields buf o fs) p ≡ read_array n k buf p
unfolding read_array
read_array-write_fields_before zero fs buf o p k h = refl
read_array-write_fields_before (suc n) fs buf o p k h =
    let m : suc n * k ≡ k + n * k = grind arith in
    rw (
      read_field-write_fields_before fs buf o p k (omega (arith, m)),
      read_array-write_fields_before n fs buf o (p + k) k (omega (arith, m)),
    )

pub read_array-write_fields :
    (xs : List ℕ) (k : ℕ) (buf : List ℕ) (o : ℕ)
    → All (λ x. x < 256 ^ k) xs
    → o + length xs * k ≤ length buf
    → read_array (length xs) k (write_fields buf o (array_fields k xs)) o ≡ xs
unfolding read_array write_fields
read_array-write_fields [] k buf o h fits = refl
read_array-write_fields (x ∷ xs) k buf o h fits =
    let m : suc (length xs) * k ≡ k + length xs * k = grind arith in
    let here =
      read_field-write_fields_before (array_fields k xs) (write_at buf o (to_le_bytes k x)) (o + k)
        o k (omega arith)
      ∙ read_field-write_at buf o k x (omega (arith, m)) h.0 in
    rw here (
      ap (◌∷◌ x) (
        read_array-write_fields xs k (write_at buf o (to_le_bytes k x)) (o + k) h.1
          (omega (arith, m, length-write_at buf o (to_le_bytes k x)))))
