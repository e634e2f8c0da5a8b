-- ===== src/DirectoryHandler/Search.antt =====
-- `find_entry` of src/formats/v1/directory_handler.rs finds the first entry with a name.
use ferris_file_system.Prelude.{
  ℕ, zero, suc, ◌+◌, ◌<◌, ◌≤◌, ◌≡◌, refl, inl, inr, false, not, ◌&&◌, Option, none, some, List, [],
  ◌∷◌, take, arith, ltb, if◌then◌else◌, Bool-cases, Option-cases, All, add32,
}
use ferris_file_system.Effect.Returns
use ferris_file_system.Effect.Returns.{Returns, returns}
use ferris_file_system.Device.{Store, IsLawful, BlockDevice}
use ferris_file_system.Inode.{Inode}
use ferris_file_system.InodeTable.{InodeTableHandler}
use ferris_file_system.InodeTable.Blocks.{block_at, get_block-block_at}
use ferris_file_system.Directory.{DirEntry, is_free, max_name}
use ferris_file_system.DirectoryHandler.{
  Visit, all_seen, stopped, same_bytes, match_name, DirectoryHandler, iterate_blocks, iterate,
  find_entry,
}
use ferris_file_system.DirectoryHandler.Layouts.{over, visit_block-over, IsDirectory}

-- The first entry in use that has the name, with its block and offset.
unfoldable pub first_match : List ℕ → ℕ → List (DirEntry × ℕ) → Option (DirEntry × ℕ × ℕ)
first_match name rel_block [] = none
first_match name rel_block ((e, offset) ∷ rest) =
    let later = first_match name rel_block rest in
    if not (is_free e) && same_bytes (take e.name_len e.name) name
    then some (e, rel_block, offset)
    else later

-- The names of the entries fit their arrays.
abbrev pub NamesFit : List (DirEntry × ℕ) → Type 0
NamesFit = All (λ (p : DirEntry × ℕ). p.0.name_len ≤ max_name)

ending : Option (DirEntry × ℕ × ℕ) → Visit (Option (DirEntry × ℕ × ℕ))
ending none = all_seen none
ending (some found) = stopped (some found)

over-match_name :
    (name : List ℕ) (rel_block : ℕ) (entries : List (DirEntry × ℕ))
    → NamesFit entries
    → over (match_name name) rel_block entries none ≡ ending (first_match name rel_block entries)
unfolding over match_name first_match ending
over-match_name name rel_block [] fit = refl
over-match_name name rel_block ((e, offset) ∷ rest) fit =
    let short : ltb max_name e.name_len ≡ false = ground (arith, fit.0) in
    elim (Bool-cases (is_free e)) [
      | inl free ↦ rw (over, match_name, free) (over-match_name name rel_block rest fit.1)
      | inr used ↦ elim (Bool-cases (same_bytes (take e.name_len e.name) name)) [
        | inl same ↦ rw (over, match_name, used, short, same) refl
        | inr other ↦
            rw (over, match_name, used, short, other) (over-match_name name rel_block rest fit.1)
      ]
    ]

-- The first match in the blocks from `block` on.
unfoldable pub first_match_from :
    List ℕ → (ℕ → ℕ) → (ℕ → List (DirEntry × ℕ)) → ℕ → ℕ → Option (DirEntry × ℕ × ℕ)
unfolding first_match
first_match_from name rel entries zero block = none
first_match_from name rel entries (suc rounds) block =
    let later = first_match_from name rel entries rounds (block + 1) in
    elim (first_match name (rel block) (entries block)) [ none ↦ later | some found ↦ some found ]

module _ {D : Type 0} {dev : BlockDevice D} (l : IsLawful dev) (t : InodeTableHandler)
    (h : DirectoryHandler) (n : ℕ) (f : Store) (dir : Inode) (entries : ℕ → List (DirEntry × ℕ))
    (is : IsDirectory t h n f dir entries)
    (fit : (b : ℕ) → b < dir.blocks → NamesFit (entries b)) where
  iterate_blocks-match_name :
      (name : List ℕ) (rounds block : ℕ) (d : D)
      → l.Represents d f n
      → block + rounds ≤ dir.blocks
      → Returns
          (λ out d'.
            (out ≡ first_match_from name (block_at t f dir) entries rounds block)
            × l.Represents d' f n)
          (iterate_blocks dev t h (match_name name) dir rounds block none d)
  unfolding iterate_blocks first_match_from ending
  iterate_blocks-match_name name zero block d r le = returns (refl, r)
  iterate_blocks-match_name name (suc rounds) block d r le =
      let lt : block < dir.blocks = omega arith in
      let rel = block_at t f dir block in
      let at : add32 rel h.data_start ≡ h.data_start + rel =
        omega (arith, is.on_device block lt, is.small) in
      Returns.bind
        (get_block-block_at l t n is.small d f dir block r lt (omega (arith, is.bounded))
          (is.reachable block lt))
        λ rel_block d1 (got, r1).
          rw (got, at)
            (Returns.bind (l.read_lem d1 f n _ r1 (is.on_device block lt)) λ buf d2 (got2, r2).
              rw
                (
                  got2,
                  visit_block-over (match_name name) 256 0 rel (f (h.data_start + rel))
                      (entries block) none (is.layout block lt) (omega arith),
                  over-match_name name rel (entries block) (fit block lt),
                )
                (elim (Option-cases (first_match name rel (entries block))) [
                  | inl nowhere ↦
                      rw (first_match_from, nowhere)
                        (iterate_blocks-match_name name rounds (block + 1) d2 r2 (omega arith))
                  | inr (found, here) ↦ rw (first_match_from, here) (returns (refl, r2))
                ]))

  -- `find_entry` on a directory whose entries fill its blocks, with names that fit their arrays,
  -- succeeds with the first entry in use that has the name, in the order of the blocks and of the
  -- offsets, and with its place, or with none if no entry has it. The device's contents stay.
  pub find_entry-first_match_from :
      (name : List ℕ) (d : D)
      → l.Represents d f n
      → Returns
          (λ out d'.
            (out ≡ first_match_from name (block_at t f dir) entries dir.blocks 0)
            × l.Represents d' f n)
          (find_entry dev t h dir name d)
  unfolding find_entry iterate
  find_entry-first_match_from name d r =
      iterate_blocks-match_name name dir.blocks 0 d r (omega arith)
