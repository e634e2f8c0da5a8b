-- ===== src/DirectoryHandler/Walking/Resolution.antt =====
-- `resolve` of src/formats/v1/directory_handler.rs does the walk.
use ferris_file_system.Prelude.{
  ℕ, zero, suc, ◌+◌, ◌<◌, ◌≡◌, refl, ◌⊎◌, inl, inr, Bool, true, false, not, ◌&&◌, Option, none,
  some, List, [], ◌∷◌, take, arith, by_cases, All, Option-cases,
}
use ferris_file_system.FsError.{PathText}
use ferris_file_system.Effect.{Op}
use ferris_file_system.Device.{Store, IsLawful, BlockDevice}
use ferris_file_system.File.{directory, symlink}
use ferris_file_system.File
use ferris_file_system.Inode.{Inode}
use ferris_file_system.InodeTable.{InodeTableHandler, max_inode_index}
use ferris_file_system.InodeTable.Blocks.{block_at}
use ferris_file_system.InodeTable.Rows.{row, read_inode-row}
use ferris_file_system.Directory.{DirEntry, is_free}
use ferris_file_system.Path.{Component, root_dir, cur_dir, parent_dir, normal, name_bytes, join}
use ferris_file_system.DirectoryHandler.{DirectoryHandler, same_bytes}
use ferris_file_system.DirectoryHandler.Layouts.{IsDirectory}
use ferris_file_system.DirectoryHandler.Search.{
  first_match, first_match_from, find_entry-first_match_from,
}
use ferris_file_system.DirectoryHandler.Resolving.{
  ResolutionResult, is_empty, is_root, is_nil, visit_component, visit_components, resolve_with,
  resolve_symlink, resolve_depth, resolve,
}
use ferris_file_system.Effect.Agrees.{Answer, Agrees, agreed, refused, Agrees-bind, Returns-Agrees}
use ferris_file_system.DirectoryHandler.Walking.{IsKnown, child, step, walk, resolved, IsTree}

-- An entry that was found is in use, and names an inode of the table.
abbrev IsSound : InodeTableHandler → Option (DirEntry × ℕ × ℕ) → Type 0
IsSound t none = Unit {0}
IsSound t (some (e, block, offset)) = (is_free e ≡ false) × (e.inode < max_inode_index t)

first_match-IsSound :
    (t : InodeTableHandler) (name : List ℕ) (rel_block : ℕ) (entries : List (DirEntry × ℕ))
    → All (IsKnown t) entries
    → IsSound t (first_match name rel_block entries)
unfolding first_match
first_match-IsSound t name rel_block [] known = tt
first_match-IsSound t name rel_block ((e, offset) ∷ rest) known =
    by_cases (is_free e)
      (λ gone. rw (first_match, gone) (first_match-IsSound t name rel_block rest known.1))
      λ used.
        by_cases (same_bytes (take e.name_len e.name) name)
          (λ same.
            rw (first_match, used, same)
              (used, elim known.0 [ inl gone ↦ absurd (ground (arith, gone, used)) | inr lt ↦ lt ]))
          λ other. rw (first_match, used, other) (first_match-IsSound t name rel_block rest known.1)

first_match_from-IsSound :
    (t : InodeTableHandler) (name : List ℕ) (rel : ℕ → ℕ) (entries : ℕ → List (DirEntry × ℕ))
    (rounds block : ℕ)
    → ((b : ℕ) → All (IsKnown t) (entries b))
    → IsSound t (first_match_from name rel entries rounds block)
unfolding first_match_from
first_match_from-IsSound t name rel entries zero block known = tt
first_match_from-IsSound t name rel entries (suc rounds) block known =
    let sound = first_match-IsSound t name (rel block) (entries block) (known block) in
    elim (Option-cases (first_match name (rel block) (entries block))) [
      | inl nowhere ↦
          rw (first_match_from, nowhere)
            (first_match_from-IsSound t name rel entries rounds (block + 1) known)
      | inr (place, here) ↦ rw (first_match_from, here) (rw here at sound)
    ]

-- The walk stands at an inode of the table.
record IsAt (t : InodeTableHandler) (f : Store) (cur : ResolutionResult) : Type 0 where
  pub known : cur.target_inode_index < max_inode_index t
  pub inode : cur.target_inode ≡ row t f cur.target_inode_index

-- The walk may go on with a path: there is none left, or it stands at a directory.
abbrev IsReady : InodeTableHandler → Store → Bool → Answer ResolutionResult → Type 0
IsReady t f is_final (inl e) = Unit {0}
IsReady t f is_final (inr cur) =
    IsAt t f cur × ((is_final ≡ true) ⊎ (File.is cur.target_inode.file_type directory ≡ true))

at_directory :
    {t : InodeTableHandler} {f : Store} (cur : ResolutionResult)
    → IsReady t f false (inr cur)
    → File.is cur.target_inode.file_type directory ≡ true
at_directory cur (is, inl e) = absurd (ground (arith, e))
at_directory cur (is, inr e) = e

go_on :
    {t : InodeTableHandler} {f : Store} (path : List Component) (cur : ResolutionResult)
    → IsReady t f false (inr cur)
    → IsReady t f (is_nil path) (inr cur)
go_on path cur (is, inl e) = absurd (ground (arith, e))
go_on path cur (is, inr e) = (is, inr e)

step-IsReady :
    (t : InodeTableHandler) (h : DirectoryHandler) (n : ℕ) (f : Store)
    (entries : ℕ → ℕ → List (DirEntry × ℕ))
    → IsTree t h n f entries
    → (progress : PathText) (name : List ℕ) (is_final : Bool) (cur : ResolutionResult)
    → IsReady t f is_final (step t f entries progress name is_final cur)
unfolding step
step-IsReady t h n f entries tree progress name is_final cur =
    let sound =
      first_match_from-IsSound t name (block_at t f cur.target_inode)
        (entries cur.target_inode_index) cur.target_inode.blocks 0
        (tree.known cur.target_inode_index) in
    elim (Option-cases (child t f entries name cur)) [
      | inl nowhere ↦ rw (step, nowhere) tt
      | inr ((e, block, offset), here) ↦
          let (used, lt) : IsSound t (some (e, block, offset)) = rw here at sound in
          by_cases (File.is (row t f e.inode).file_type directory)
            (λ yes. rw (step, here, yes) (record { known = lt; inode = refl }, inr yes))
            λ no.
              by_cases is_final
                (λ last. rw (step, here, no, last) (record { known = lt; inode = refl }, inl refl))
                λ inner. rw (step, here, no, inner) tt
    ]

module _ {D : Type 0} {dev : BlockDevice D} (l : IsLawful dev) (t : InodeTableHandler)
    (h : DirectoryHandler) (n : ℕ) (f : Store) (entries : ℕ → ℕ → List (DirEntry × ℕ))
    (tree : IsTree t h n f entries) (follow : Inode → ℕ → Op D ResolutionResult) (it : ℕ)
    (resolve_final : Bool) where
  visit_component-step :
      (progress : PathText) (name : List ℕ) (is_final : Bool) (cur : ResolutionResult) (d : D)
      → l.Represents d f n
      → IsAt t f cur
      → File.is cur.target_inode.file_type directory ≡ true
      → Agrees
          (λ d'. l.Represents d' f n)
          (step t f entries progress name is_final cur)
          (visit_component dev t h follow it resolve_final is_final progress name cur d)
  unfolding visit_component step
  visit_component-step progress name is_final cur d r is is_dir =
      let index = cur.target_inode_index in
      let is_dir' : File.is (row t f index).file_type directory ≡ true = rw is.inode at is_dir in
      let dir : IsDirectory t h n f cur.target_inode (entries index) =
        rw is.inode (tree.directories index is.known is_dir') in
      let sound =
        first_match_from-IsSound t name (block_at t f cur.target_inode) (entries index)
          cur.target_inode.blocks 0 (tree.known index) in
      Returns-Agrees
        (find_entry-first_match_from l t h n f cur.target_inode (entries index) dir
          (λ b lt. tree.names index b) name d r)
        λ out d1 (got, r1). rw got (elim (Option-cases (child t f entries name cur)) [
          | inl nowhere ↦ rw (step, nowhere) (refused r1)
          | inr ((e, block, offset), here) ↦
              let (used, lt) : IsSound t (some (e, block, offset)) = rw here at sound in
              rw (step, here, used)
                (Returns-Agrees (read_inode-row l t n tree.placed d1 f e.inode r1 lt)
                  λ inode d2 (got', r2).
                    rw (got', tree.no_symlinks e.inode lt)
                      (by_cases
                        (not (File.is (row t f e.inode).file_type directory) && not is_final)
                        (λ no. rw (no) (refused r2)) λ yes. rw yes (agreed r2)))
        ])

  visit_components-walk :
      (progress : PathText) (path : List Component) (cur : ResolutionResult) (d : D)
      → l.Represents d f n
      → IsReady t f (is_nil path) (inr cur)
      → Agrees
          (λ d'. l.Represents d' f n)
          (walk t f entries progress path cur)
          (visit_components dev t h follow it resolve_final progress path cur d)
  unfolding visit_components walk
  visit_components-walk progress [] cur d r ready = agreed r
  visit_components-walk progress (root_dir ∷ path) cur d r ready =
      visit_components-walk progress path cur d r (go_on path cur ready)
  visit_components-walk progress (cur_dir ∷ path) cur d r ready =
      visit_components-walk progress path cur d r (go_on path cur ready)
  visit_components-walk progress (parent_dir ∷ path) cur d r ready =
      let progress' = join progress (name_bytes parent_dir) in
      Agrees-bind
        (visit_component-step progress' (name_bytes parent_dir) (is_nil path) cur d r ready.0
          (at_directory cur ready))
        λ next d1 e r1. visit_components-walk progress' path next d1 r1 (
          rw e at
            (step-IsReady t h n f entries tree progress' (name_bytes parent_dir) (is_nil path) cur))
  visit_components-walk progress (normal name ∷ path) cur d r ready =
      let progress' = join progress name in
      Agrees-bind
        (visit_component-step progress' name (is_nil path) cur d r ready.0 (at_directory cur ready))
        λ next d1 e r1.
          visit_components-walk progress' path next d1 r1
            (rw e at (step-IsReady t h n f entries tree progress' name (is_nil path) cur))

  resolve_with-resolved :
      (path : List Component) (src : ℕ) (d : D)
      → l.Represents d f n
      → src < max_inode_index t
      → File.is (row t f src).file_type directory ≡ true
      → Agrees
          (λ d'. l.Represents d' f n)
          (resolved t f entries h.root_inode_ind path src)
          (resolve_with dev t h follow it path src resolve_final d)
  unfolding resolve_with resolved
  resolve_with-resolved path src d r lt is_dir =
      Returns-Agrees (read_inode-row l t n tree.placed d f src r lt) λ inode d1 (got, r1). rw got (
        by_cases (is_empty path) (λ e. rw e (agreed r1))
          λ e.
            by_cases (is_root path)
              (λ e'.
                rw (e, e')
                  (Returns-Agrees (read_inode-row l t n tree.placed d1 f _ r1 tree.root)
                    λ root d2 (got', r2). rw got' (agreed r2)))
              λ e'.
                rw (e, e')
                  (visit_components-walk [] path _ d1 r1
                    (record { known = lt; inode = refl }, inr is_dir)))

module _ {D : Type 0} {dev : BlockDevice D} (l : IsLawful dev) (t : InodeTableHandler)
    (h : DirectoryHandler) (n : ℕ) (f : Store) (entries : ℕ → ℕ → List (DirEntry × ℕ))
    (tree : IsTree t h n f entries) where
  -- `resolve` from a directory, on a tree without symlinks, ends without a panic with the answer
  -- of a walk on the stored inodes and entries: the empty path is the start, `/` the root, and any
  -- other path goes down by the first entry in use with each name, `..` among them. A missing
  -- entry gives `DoesNotExist` and an inner component that is no directory `NotADirectory`, each
  -- with the path walked so far. The device's contents stay.
  pub resolve-resolved :
      (path : List Component) (src : ℕ) (resolve_final : Bool) (d : D)
      → l.Represents d f n
      → src < max_inode_index t
      → File.is (row t f src).file_type directory ≡ true
      → Agrees
          (λ d'. l.Represents d' f n)
          (resolved t f entries h.root_inode_ind path src)
          (resolve dev t h path src resolve_final d)
  unfolding resolve resolve_depth
  resolve-resolved path src resolve_final d r lt is_dir =
      resolve_with-resolved l t h n f entries tree
        (resolve_symlink dev t h λ target from. resolve_depth dev t h 39 target from true) 0
        resolve_final path src d r lt is_dir
