-- ===== src/Bitmap/Free.antt =====
-- What the callers of `find_free` rely on: every index is free, inside the bitmap and listed once.
-- What they do not get: the free indices between the start of the block of `last_alloc` and its byte.
use ferris_file_system.Prelude.{
  ℕ, zero, suc, ◌+◌, ◌-◌, ◌*◌, ◌/◌, ◌^◌, ◌<◌, ◌≤◌, ◌≡◌, ap, inl, inr, Bool, false, not, ◌&&◌, List,
  arith, length, take, ltb, leb, if◌then◌else◌, Bool-cases, count, count-append, count-take-le,
  take_of_length-le, length-take,
}
use ferris_file_system.Effect.Returns
use ferris_file_system.Effect.Returns.{Returns}
use ferris_file_system.Device.{Store, IsLawful, BlockDevice}
use ferris_file_system.Bitmap.View.{bit_of}
use ferris_file_system.Bitmap.{BitmapAllocator, find_free}
use ferris_file_system.Bitmap.Modify.{IsPlaced}
use ferris_file_system.Bitmap.ScanBits.{frees, taken_in}
use ferris_file_system.Bitmap.Find.{candidates, find_free-candidates}

abbrev in_range : ℕ → ℕ → ℕ → Bool
in_range lo k i = leb lo i && ltb i (lo + k)

count-frees :
    (taken : ℕ → Bool) (k lo i : ℕ)
    → count i (frees taken lo k) ≡ (if in_range lo k i && not (taken i) then 1 else 0)
unfolding count frees
count-frees taken zero lo i = ground arith
count-frees taken (suc k) lo i = elim (Bool-cases (taken lo)) [
  | inl t ↦ rw t (ground (arith, count-frees taken k (lo + 1) i))
  | inr t ↦ rw t (ground (arith, count-frees taken k (lo + 1) i))
]

module _ {D : Type 0} {dev : BlockDevice D} (l : IsLawful dev) (a : BitmapAllocator) (n : ℕ)
    (placed : IsPlaced a n) (f : Store) where
  open a use {start, size, max_index, last_alloc}

  -- The bytes of the block of `last_alloc` that precede its own byte.
  abbrev pub in_gap : ℕ → Bool
  in_gap i = leb (last_alloc / 8 / 256 * 2048) i && ltb i (last_alloc / 8 * 8)

  count-candidates :
      (i : ℕ)
      → last_alloc / 8 / 256 < size
      → count i (candidates l a n placed f) ≡ (
          if ltb i (size * 2048) && not (in_gap i) && not (taken_in max_index f start i)
          then 1
          else 0)
  unfolding candidates
  count-candidates i inside =
      let lo = last_alloc / 8 * 8 in
      let k = size * 2048 - lo in
      let m = last_alloc / 8 / 256 * 2048 in
      let t = taken_in max_index f start in
      elim (Bool-cases (t i)) [
        | inl yes_taken ↦ simp (count-append, count-frees, yes_taken) (ground arith)
        | inr free ↦ simp (count-append, count-frees, free) (ground arith)
      ]

  -- What one index that was returned is.
  pub record Chosen (i : ℕ) (res : List ℕ) : Type 0 where
    pub below_max : i < max_index
    pub inside_map : i < size * 2048
    pub is_free : bit_of f start i ≡ false
    pub once : count i res ≡ 1

  chosen_lem :
      (num i : ℕ)
      → last_alloc / 8 / 256 < size
      → 0 < count i (take num (candidates l a n placed f))
      → Chosen i (take num (candidates l a n placed f))
  chosen_lem num i inside pos =
      let c = candidates l a n placed f in
      let all = count-candidates i inside in
      let some_of = count-take-le i num c in
      record {
        below_max = ground arith;
        inside_map = ground arith;
        is_free = ground arith;
        once = ground arith;
      }

  -- `find_free` returns at most `num` indices. Each of them is free, below `max_index`, inside the
  -- bitmap and listed once, and the device's contents stay as they are.
  pub find_free-Chosen :
      (num : ℕ) (d : D)
      → l.Represents d f n
      → last_alloc / 8 / 256 < size
      → size * 2048 ≤ 2 ^ 32
      → Returns
          (λ res d'.
            l.Represents d' f n × (length res ≤ num) × ((i : ℕ) → 0 < count i res → Chosen i res))
          (find_free dev a num d)
  find_free-Chosen num d r inside wide =
      Returns.mono (find_free-candidates l a n placed f num d r inside wide) λ res d' (r', e). (
        r',
        rw e (omega (arith, length-take num (candidates l a n placed f))),
        λ i. rw e (chosen_lem num i inside),
      )

  -- When `find_free` returns fewer indices than it is asked for, it has returned exactly the free
  -- indices outside the gap: those from the start of the block of `last_alloc` up to the byte of
  -- `last_alloc` are never returned, though they may be free.
  pub find_free_gap :
      (num : ℕ) (d : D)
      → l.Represents d f n
      → last_alloc / 8 / 256 < size
      → size * 2048 ≤ 2 ^ 32
      → Returns
          (λ res d'.
            length res < num
            → (i : ℕ)
            → count i res ≡ (
                if ltb i (size * 2048) && not (in_gap i) && not (taken_in max_index f start i)
                then 1
                else 0))
          (find_free dev a num d)
  find_free_gap num d r inside wide =
      Returns.mono (find_free-candidates l a n placed f num d r inside wide) λ res d' (r', e) few i.
        let c = candidates l a n placed f in
        let short : length c ≤ num = omega (arith, length-take num c, ap length e) in
        rw (e, take_of_length-le num c short) (count-candidates i inside)
