-- ===== src/Bitmap/View.antt =====
-- The bitmap of src/formats/v1/bitmap_allocator.rs as a function from indices to bits.
use ferris_file_system.Prelude.{
  ℕ, ◌+◌, ◌/◌, ◌%◌, ◌<◌, ◌≤◌, ◌≡◌, ◌≢◌, refl, ◌⊎◌, inl, inr, Bool, true, false, List, [], ◌∷◌,
  arith, get_or, set, ◌==◌, if◌then◌else◌, Bool-cases, get_or-set, length-set, All, has, ◌∙◌,
}
use ferris_file_system.Prelude.Bits.{
  test_bit, set_bit, clear_bit, test_bit-set_bit, test_bit-clear_bit, bits_range,
}
use ferris_file_system.Device.{Block, Store, IsBlock, update}

-- The bit of `index` in the bitmap that starts at block `start`.
unfoldable pub bit_of : Store → ℕ → ℕ → Bool
bit_of f start index =
    test_bit (get_or (f (start + index / 8 / 256)) (index / 8 % 256) 0) (index % 8)

-- One bit of a byte is assigned the value `v`, and the others stay.
pub record Assigns (op : ℕ → ℕ → ℕ) (v : Bool) : Type 0 where
  pub range : (x b : ℕ) → x < 256 → b < 8 → op x b < 256
  pub law :
      (x b c : ℕ)
      → x < 256
      → b < 8
      → c < 8
      → test_bit (op x b) c ≡ (if c == b then v else test_bit x c)

pub set_bit-Assigns : Assigns set_bit true
set_bit-Assigns = record {
  range = λ x b hx hb. (bits_range x b hx hb).0;
  law = λ x b c hx hb hc. ground (arith, test_bit-set_bit x b c hx hb hc);
}

pub clear_bit-Assigns : Assigns clear_bit false
clear_bit-Assigns = record {
  range = λ x b hx hb. (bits_range x b hx hb).1;
  law = λ x b c hx hb hc. ground (arith, test_bit-clear_bit x b c hx hb hc);
}

-- The store after the bit operation at one index.
unfoldable pub assign : (ℕ → ℕ → ℕ) → ℕ → Store → ℕ → Store
assign op start f b =
    let block = f (start + b / 8 / 256) in
    update f (start + b / 8 / 256)
      (set block (b / 8 % 256) (op (get_or block (b / 8 % 256) 0) (b % 8)))

unfoldable pub assign_all : (ℕ → ℕ → ℕ) → ℕ → Store → List ℕ → Store
unfolding assign
assign_all op start f [] = f
assign_all op start f (b ∷ bs) = assign_all op start (assign op start f b) bs

pub set-IsBlock : (b : Block) (i v : ℕ) → i < 256 → v < 256 → IsBlock b → IsBlock (set b i v)
set-IsBlock b i v hi hv ib = record {
  size = omega (arith, length-set b i v, ib.size);
  byte = λ j. ground (arith, get_or-set b i j v 0, ib.size, ib.byte j);
}

module _ {op : ℕ → ℕ → ℕ} {v : Bool} (o : Assigns op v) (start : ℕ) where
  pub assign-IsBlock :
      (f : Store) (b : ℕ) → ((i : ℕ) → IsBlock (f i)) → (i : ℕ) → IsBlock (assign op start f b i)
  unfolding assign update
  assign-IsBlock f b ib i = elim (Bool-cases (start + b / 8 / 256 == i)) [
    | inl e ↦ rw e (
        set-IsBlock _ _ _ (omega arith)
          (o.range _ _ ((ib (start + b / 8 / 256)).byte (b / 8 % 256)) (omega arith))
          (ib (start + b / 8 / 256)))
    | inr e ↦ rw e (ib i)
  ]

  pub bit_of-assign :
      (f : Store) (b : ℕ)
      → ((i : ℕ) → IsBlock (f i))
      → (i : ℕ) → bit_of (assign op start f b) start i ≡ (if b == i then v else bit_of f start i)
  unfolding assign update bit_of
  bit_of-assign f b ib i =
      let block = f (start + b / 8 / 256) in
      let old = get_or block (b / 8 % 256) 0 in
      let is = ib (start + b / 8 / 256) in
      ground (
        arith,
        get_or-set block (b / 8 % 256) (i / 8 % 256) (op old (b % 8)) 0,
        is.size,
        is.byte (b / 8 % 256),
        o.law old (b % 8) (i % 8),
      )

  -- Blocks that do not hold the index stay.
  pub assign_ne : (f : Store) (b j : ℕ) → start + b / 8 / 256 ≢ j → assign op start f b j ≡ f j
  unfolding assign update
  assign_ne f b j ne = ground arith

  pub assign_All-IsBlock :
      (bs : List ℕ) (f : Store)
      → ((i : ℕ) → IsBlock (f i))
      → (i : ℕ) → IsBlock (assign_all op start f bs i)
  unfolding assign_all
  assign_All-IsBlock [] f ib = ib
  assign_All-IsBlock (b ∷ bs) f ib = assign_All-IsBlock bs _ (assign-IsBlock f b ib)

  pub bit_of-assign_all :
      (bs : List ℕ) (f : Store)
      → ((i : ℕ) → IsBlock (f i))
      → (i : ℕ)
      → bit_of (assign_all op start f bs) start i ≡ (if has i bs then v else bit_of f start i)
  unfolding assign_all has
  bit_of-assign_all [] f ib i = refl
  bit_of-assign_all (b ∷ bs) f ib i = ground (
    arith,
    bit_of-assign_all bs (assign op start f b) (assign-IsBlock f b ib) i,
    bit_of-assign f b ib i,
  )

  -- What lies outside the bitmap's blocks stays.
  pub assign_all_outside :
      (bs : List ℕ) (f : Store) (size j : ℕ)
      → All (λ b. b / 8 / 256 < size) bs
      → (j < start) ⊎ (start + size ≤ j)
      → assign_all op start f bs j ≡ f j
  unfolding assign_all
  assign_all_outside [] f size j h out = refl
  assign_all_outside (b ∷ bs) f size j h out =
      assign_all_outside bs (assign op start f b) size j h.1 out ∙ assign_ne f b j (omega arith)
