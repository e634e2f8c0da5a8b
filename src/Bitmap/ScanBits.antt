-- ===== src/Bitmap/ScanBits.antt =====
-- The loop of `find_free` of src/formats/v1/bitmap_allocator.rs over the bits of a byte.
use mathlib.Core.List.{append-nil, append_assoc}
use ferris_file_system.Prelude.{
  ℕ, zero, suc, ◌+◌, ◌/◌, ◌^◌, ◌<◌, ◌≤◌, ◌≡◌, refl, sym, ap, ◌∙◌, inl, inr, Bool, true, false, ◌||◌,
  List, [], ◌∷◌, ◌++◌, arith, length, take, leb, ◌==◌, if◌then◌else◌, Bool-cases, length-append,
  take_of_length-le, take-append_of_le, bit_and,
}
use ferris_file_system.Prelude.Bits.{test_bit, shifted_bit, shift_once}
use ferris_file_system.Device.{Store}
use ferris_file_system.Bitmap.{Flow, next, brk, ret, then_scan, scan_bits}
use ferris_file_system.Bitmap.View.{bit_of}

-- The indices of `lo .. lo + k` that are not taken, in order.
unfoldable pub frees : (ℕ → Bool) → ℕ → ℕ → List ℕ
frees taken lo zero = []
frees taken lo (suc k) = if taken lo then frees taken (lo + 1) k else lo ∷ frees taken (lo + 1) k

pub frees-append :
    (taken : ℕ → Bool) (k m lo mid : ℕ)
    → lo + k ≡ mid
    → frees taken lo (k + m) ≡ frees taken lo k ++ frees taken mid m
unfolding frees
frees-append taken zero m lo mid e =
    let e' : lo ≡ mid = omega arith in let z : 0 + m ≡ m = omega arith in rw (z, e')
frees-append taken (suc k) m lo mid e =
    let z : suc k + m ≡ suc (k + m) = omega arith in
    rw z (elim (Bool-cases (taken lo)) [
      | inl t ↦ rw t (frees-append taken k m (lo + 1) mid (omega arith))
      | inr t ↦ rw t (ap (◌∷◌ lo) (frees-append taken k m (lo + 1) mid (omega arith)))
    ])

pub frees-nil :
    (taken : ℕ → Bool) (k lo : ℕ)
    → ((i : ℕ) → lo ≤ i → i < lo + k → taken i ≡ true)
    → frees taken lo k ≡ []
unfolding frees
frees-nil taken zero lo h = refl
frees-nil taken (suc k) lo h =
    rw (h lo (omega arith) (omega arith))
      (frees-nil taken k (lo + 1) (λ i a b. h i (omega arith) (omega arith)))

-- The result of a scan that began with `acc` and saw the free indices `fr` of a range up to `hi`:
-- all of them, or the first `num` in total. It may stop early where the rest is past `max`.
pub data Scanned (num max : ℕ) (acc fr : List ℕ) (hi : ℕ) (flow : Flow) : Type 0 where
  went_on : flow ≡ next (acc ++ fr) → length (acc ++ fr) < num → Scanned num max acc fr hi flow
  broke_off :
      flow ≡ brk (acc ++ fr) → length (acc ++ fr) < num → max ≤ hi → Scanned num max acc fr hi flow
  returned :
      flow ≡ ret (take num (acc ++ fr)) → num ≤ length (acc ++ fr) → Scanned num max acc fr hi flow

Scanned-regroup :
    (num max : ℕ) (acc xs ys : List ℕ) (hi : ℕ) {flow : Flow}
    → Scanned num max (acc ++ xs) ys hi flow
    → Scanned num max acc (xs ++ ys) hi flow
Scanned-regroup num max acc xs ys hi (went_on e lt) =
    let a = append_assoc acc xs ys in went_on (rw a at e) (rw a at lt)
Scanned-regroup num max acc xs ys hi (broke_off e lt past) =
    let a = append_assoc acc xs ys in broke_off (rw a at e) (rw a at lt) past
Scanned-regroup num max acc xs ys hi (returned e full) =
    let a = append_assoc acc xs ys in returned (rw a at e) (rw a at full)

module _ (num max : ℕ) (taken : ℕ → Bool) (above : (i : ℕ) → max ≤ i → taken i ≡ true) where
  -- Two scans of adjacent ranges, by how the first one ended.
  module _ (acc : List ℕ) (lo k mid m hi : ℕ) (e : lo + k ≡ mid) where
    pub Scanned-next :
        (flow : Flow)
        → Scanned num max (acc ++ frees taken lo k) (frees taken mid m) hi flow
        → Scanned num max acc (frees taken lo (k + m)) hi flow
    Scanned-next flow second =
        rw (frees-append taken k m lo mid e)
          (Scanned-regroup num max acc (frees taken lo k) (frees taken mid m) hi second)

    pub Scanned-brk :
        mid ≤ hi
        → length (acc ++ frees taken lo k) < num
        → max ≤ mid
        → Scanned num max acc (frees taken lo (k + m)) hi (brk (acc ++ frees taken lo k))
    Scanned-brk le lt past =
        let nothing : frees taken mid m ≡ [] =
          frees-nil taken m mid (λ i a b. above i (omega arith)) in
        rw (frees-append taken k m lo mid e, nothing, append-nil) (broke_off refl lt (omega arith))

    pub Scanned-ret :
        num ≤ length (acc ++ frees taken lo k)
        → Scanned num max acc (frees taken lo (k + m)) hi (ret (take num (acc ++ frees taken lo k)))
    Scanned-ret full =
        let cut = take-append_of_le num (acc ++ frees taken lo k) (frees taken mid m) full in
        let a = append_assoc acc (frees taken lo k) (frees taken mid m) in
        rw (frees-append taken k m lo mid e) (
          returned (ap ret (sym cut ∙ ap (take num) a)) (
            omega
              (arith, length-append (acc ++ frees taken lo k) (frees taken mid m), ap length a)))

    pub Scanned-then :
        (flow : Flow) (rest : List ℕ → Flow)
        → mid ≤ hi
        → Scanned num max acc (frees taken lo k) mid flow
        → ((acc' : List ℕ)
            → length acc' < num
            → Scanned num max acc' (frees taken mid m) hi (rest acc'))
        → Scanned num max acc (frees taken lo (k + m)) hi (then_scan flow rest)
    Scanned-then flow rest le (went_on eq lt) second = rw eq (Scanned-next _ (second _ lt))
    Scanned-then flow rest le (broke_off eq lt past) second = rw eq (Scanned-brk le lt past)
    Scanned-then flow rest le (returned eq full) second = rw eq (Scanned-ret full)

  -- A free index is found: the scan returns if that was the last one asked for.
  found_lem :
      (index : ℕ) (acc rest : List ℕ) (hi : ℕ) (on : Flow)
      → length acc < num
      → (length (acc ++ index ∷ []) < num → Scanned num max (acc ++ index ∷ []) rest hi on)
      → Scanned num max acc
          (index ∷ rest)
          hi
          (if length (acc ++ index ∷ []) == num then ret (acc ++ index ∷ []) else on)
  found_lem index acc rest hi on lt more =
      let found = acc ++ index ∷ [] in
      let size : length found ≡ length acc + 1 = omega (arith, length-append acc (index ∷ [])) in
      let a = append_assoc acc (index ∷ []) rest in
      elim (Bool-cases (length found == num)) [
        | inl full ↦
            let all : length found ≡ num = ground arith in
            let kept : take num (found ++ rest) ≡ found =
              take-append_of_le num found rest (omega arith)
              ∙ take_of_length-le num found (omega arith) in
            rw full (
              returned (ap ret (sym kept ∙ ap (take num) a))
                (omega (arith, length-append found rest, ap length a)))
        | inr room ↦
            rw room (Scanned-regroup num max acc (index ∷ []) rest hi (more (ground arith)))
      ]

  -- The bits of one byte, from the one at `pos` on.
  pub scan_bits_lem :
      (byte base : ℕ)
      → byte < 256
      → ((b : ℕ) → b < 8 → taken (base + b) ≡ (leb max (base + b) || test_bit byte b))
      → (rounds pos index el : ℕ) (acc : List ℕ) → pos + rounds ≡ 8
      → index ≡ base + pos
      → el ≡ byte / 2 ^ pos
      → length acc < num
      → Scanned num max acc
          (frees taken index rounds)
          (base + 8)
          (scan_bits max num rounds index el acc)
  unfolding scan_bits frees
  scan_bits_lem byte base hb bits zero pos index el acc e1 e2 e3 lt =
      went_on (rw append-nil) (rw append-nil lt)
  scan_bits_lem byte base hb bits (suc rounds) pos index el acc e1 e2 e3 lt =
      elim (Bool-cases (leb max index)) [
        | inl past ↦
            let here : taken index ≡ true = above index (ground arith) in
            let nothing : frees taken (index + 1) rounds ≡ [] =
              frees-nil taken rounds (index + 1) (λ i a b. above i (ground arith)) in
            rw (past, here, nothing) (broke_off (rw append-nil) (rw append-nil lt) (ground arith))
        | inr inside ↦ elim (Bool-cases (test_bit byte pos)) [
          | inl set ↦
              let here : taken index ≡ true =
                rw e2 (rw (bits pos (omega arith), set) (ground arith)) in
              let one : (bit_and el 1 == 0) ≡ false =
                rw (e3, shifted_bit byte pos hb (omega arith), set) in
              rw (inside, here, one)
                (scan_bits_lem byte base hb bits rounds (pos + 1) (index + 1) (el / 2) acc
                  (omega arith) (omega arith) (halved pos el e3 (omega arith)) lt)
          | inr clear ↦
              let here : taken index ≡ false =
                rw e2 (rw (bits pos (omega arith), clear) (rw (← e2) (rw inside))) in
              let zero_bit : (bit_and el 1 == 0) ≡ true =
                rw (e3, shifted_bit byte pos hb (omega arith), clear) in
              rw (inside, here, zero_bit)
                (found_lem index acc (frees taken (index + 1) rounds) (base + 8) _ lt (
                  scan_bits_lem byte base hb bits rounds (pos + 1) (index + 1) (el / 2)
                    (acc ++ index ∷ []) (omega arith) (omega arith)
                    (halved pos el e3 (omega arith))))
        ]
      ]
    where
      halved : (pos el : ℕ) → el ≡ byte / 2 ^ pos → pos < 8 → el / 2 ≡ byte / 2 ^ (pos + 1)
      halved pos el e lt = rw e (shift_once byte pos hb lt)

-- An index is taken if it is past the end or its bit is set.
abbrev pub taken_in : ℕ → Store → ℕ → ℕ → Bool
taken_in max f start i = leb max i || bit_of f start i
