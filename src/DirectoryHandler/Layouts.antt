-- ===== src/DirectoryHandler/Layouts.antt =====
-- `iterate` of src/formats/v1/directory_handler.rs visits the entries of a directory in order.
use ferris_file_system.Prelude.{
  ℕ, zero, suc, ◌+◌, ◌<◌, ◌≤◌, ◌≡◌, ◌≢◌, refl, sym, ap, ◌∙◌, inl, inr, Bool, false, not, ◌&&◌, none,
  some, List, [], ◌∷◌, ◌++◌, arith, ltb, leb, ◌==◌, if◌then◌else◌, Bool-cases, Option-cases, add32,
  u32_mod,
}
use ferris_file_system.Effect.Returns
use ferris_file_system.Effect.Returns.{Returns, returns}
use ferris_file_system.Device.{Block, Store, IsLawful, BlockDevice}
use ferris_file_system.Inode.{Inode, max_blocks}
use ferris_file_system.InodeTable.{InodeTableHandler}
use ferris_file_system.InodeTable.Blocks.{block_at, OnDevice, get_block-block_at}
use ferris_file_system.Directory.{DirEntry, is_free, deserialize}
use ferris_file_system.DirectoryHandler.{
  Visit, all_seen, stopped, panicked, Callback, visit_block, collect, DirectoryHandler,
  iterate_blocks, iterate, get_entries,
}

-- The entries that fill a block from an offset on, each with its offset.
pub data Layout (buf : Block) : ℕ → List (DirEntry × ℕ) → Type 0 where
  whole : Layout buf 256 []
  more :
      {offset : ℕ} {e : DirEntry} {rest : List (DirEntry × ℕ)}
      → deserialize buf offset ≡ some e
      → e.record_len ≢ 0
      → offset + e.record_len ≤ 256
      → Layout buf (offset + e.record_len) rest
      → Layout buf offset ((e, offset) ∷ rest)

module _ {S : Type 0} (callback : Callback S) where
  -- The callback on a list of entries.
  unfoldable pub over : ℕ → List (DirEntry × ℕ) → S → Visit S
  over rel_block [] s = all_seen s
  over rel_block ((e, offset) ∷ rest) s = elim (callback e rel_block offset s) [
    | none ↦ panicked
    | some step ↦ let later = over rel_block rest step.0 in if step.1 then stopped step.0 else later
  ]

  -- 256 rounds visit the entries of a block one after the other, and no offset twice.
  pub visit_block-over :
      (fuel offset rel_block : ℕ) (buf : Block) (entries : List (DirEntry × ℕ)) (s : S)
      → Layout buf offset entries
      → 256 ≤ offset + fuel
      → visit_block callback fuel buf rel_block offset s ≡ over rel_block entries s
  unfolding visit_block over
  visit_block-over zero _ rel_block buf [] s whole enough = refl
  visit_block-over (suc fuel) _ rel_block buf [] s whole enough = refl
  visit_block-over zero offset rel_block buf ((e, _) ∷ rest) s (more at pos fits next) enough =
      absurd (omega arith)
  visit_block-over (suc fuel) offset rel_block buf ((e, _) ∷ rest) s (more at pos fits next)
        enough =
      let inside : leb 256 offset ≡ false = ground (arith, fits, pos) in
      let fit : ltb 256 (offset + e.record_len) ≡ false = ground (arith, fits) in
      let positive : (e.record_len == 0) ≡ false = ground (arith, pos) in
      rw (inside, at)
        (elim (Option-cases (callback e rel_block offset s)) [
          | inl gone ↦ rw (over, gone) refl
          | inr (step, eq) ↦
              rw
                (
                  over,
                  eq,
                  fit,
                  positive,
                  visit_block-over fuel (offset + e.record_len) rel_block buf rest step.0 next
                      (omega (arith, pos)),
                )
                refl
        ])

-- The kept entries of a list.
unfoldable pub kept : Bool → List (DirEntry × ℕ) → List DirEntry
kept include_free [] = []
kept include_free ((e, offset) ∷ rest) =
    let later = kept include_free rest in if not include_free && is_free e then later else e ∷ later

append_assoc : (xs ys zs : List DirEntry) → (xs ++ ys) ++ zs ≡ xs ++ (ys ++ zs)
append_assoc [] ys zs = refl
append_assoc (x ∷ xs) ys zs = ap (◌∷◌ x) (append_assoc xs ys zs)

append_nil : (xs : List DirEntry) → xs ++ [] ≡ xs
append_nil [] = refl
append_nil (x ∷ xs) = ap (◌∷◌ x) (append_nil xs)

over-collect :
    (include_free : Bool) (rel_block : ℕ) (entries : List (DirEntry × ℕ)) (s : List DirEntry)
    → over (collect include_free) rel_block entries s ≡ all_seen (s ++ kept include_free entries)
unfolding over collect kept
over-collect include_free rel_block [] s = ap all_seen (sym (append_nil s))
over-collect include_free rel_block ((e, offset) ∷ rest) s =
    elim (Bool-cases (not include_free && is_free e)) [
      | inl skip ↦ rw (over, collect, skip) (over-collect include_free rel_block rest s)
      | inr keep ↦
          rw (over, collect, keep)
            (over-collect include_free rel_block rest (s ++ e ∷ [])
              ∙ ap all_seen (append_assoc s (e ∷ []) (kept include_free rest)))
    ]

-- The entries of a directory, block by block, in a store of `n` blocks.
pub record IsDirectory (t : InodeTableHandler) (h : DirectoryHandler) (n : ℕ) (f : Store)
    (dir : Inode) (entries : ℕ → List (DirEntry × ℕ)) : Type 0 where
  pub small : n < u32_mod
  pub bounded : dir.blocks ≤ max_blocks
  pub reachable : (b : ℕ) → b < dir.blocks → OnDevice t n f dir b
  pub on_device : (b : ℕ) → b < dir.blocks → h.data_start + block_at t f dir b < n
  pub layout :
      (b : ℕ) → b < dir.blocks → Layout (f (h.data_start + block_at t f dir b)) 0 (entries b)

unfoldable pub kept_from : Bool → (ℕ → List (DirEntry × ℕ)) → ℕ → ℕ → List DirEntry
unfolding kept
kept_from include_free entries zero block = []
kept_from include_free entries (suc rounds) block =
    kept include_free (entries block) ++ kept_from include_free entries rounds (block + 1)

module _ {D : Type 0} {dev : BlockDevice D} (l : IsLawful dev) (t : InodeTableHandler)
    (h : DirectoryHandler) (n : ℕ) (f : Store) (dir : Inode) (entries : ℕ → List (DirEntry × ℕ))
    (is : IsDirectory t h n f dir entries) where
  iterate_blocks-collect :
      (include_free : Bool) (rounds block : ℕ) (s : List DirEntry) (d : D)
      → l.Represents d f n
      → block + rounds ≤ dir.blocks
      → Returns
          (λ out d'. (out ≡ s ++ kept_from include_free entries rounds block) × l.Represents d' f n)
          (iterate_blocks dev t h (collect include_free) dir rounds block s d)
  unfolding iterate_blocks kept_from
  iterate_blocks-collect include_free zero block s d r le = returns (sym (append_nil s), r)
  iterate_blocks-collect include_free (suc rounds) block s d r le =
      let lt : block < dir.blocks = omega arith in
      let rel = block_at t f dir block in
      let at : add32 rel h.data_start ≡ h.data_start + rel =
        omega (arith, is.on_device block lt, is.small) in
      Returns.bind
        (get_block-block_at l t n is.small d f dir block r lt (omega (arith, is.bounded))
          (is.reachable block lt))
        λ rel_block d1 (got, r1).
          rw (got, at)
            (Returns.bind (l.read_lem d1 f n _ r1 (is.on_device block lt)) λ buf d2 (got2, r2).
              rw
                (
                  got2,
                  visit_block-over (collect include_free) 256 0 rel (f (h.data_start + rel))
                      (entries block) s (is.layout block lt) (omega arith),
                  over-collect include_free rel (entries block) s,
                )
                (Returns.mono
                  (iterate_blocks-collect include_free rounds (block + 1)
                    (s ++ kept include_free (entries block)) d2 r2 (omega arith))
                  λ out d3 (e, r3). (e ∙ append_assoc s (kept include_free (entries block)) _, r3)))

  -- `get_entries` of a directory whose entries fill its blocks succeeds with all its entries in the
  -- order of the blocks and of the offsets, the free regions among them if these are asked for, and
  -- leaves the device's contents as they are.
  pub get_entries-kept_from :
      (include_free : Bool) (d : D)
      → l.Represents d f n
      → Returns
          (λ out d'. (out ≡ kept_from include_free entries dir.blocks 0) × l.Represents d' f n)
          (get_entries dev t h dir include_free d)
  unfolding get_entries iterate
  get_entries-kept_from include_free d r =
      iterate_blocks-collect include_free dir.blocks 0 [] d r (omega arith)
