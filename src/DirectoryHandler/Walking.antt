-- ===== src/DirectoryHandler/Walking.antt =====
-- What `resolve` of src/formats/v1/directory_handler.rs promises: a walk on a tree of directories without
-- symlinks.
pub mod Resolution
use ferris_file_system.Prelude.{
  ℕ, zero, suc, ◌+◌, ◌<◌, ◌≡◌, refl, ◌⊎◌, inl, inr, Bool, true, false, not, ◌&&◌, Option, none,
  some, List, [], ◌∷◌, take, arith, if◌then◌else◌, by_cases, All, Option-cases,
}
use ferris_file_system.FsError.{FsError, PathText, does_not_exist, not_a_directory}
use ferris_file_system.Effect.{Op, Run, ok, err, and_then}
use ferris_file_system.Effect.Returns
use ferris_file_system.Effect.Returns.{Returns, returns}
use ferris_file_system.Device.{Store, IsLawful, BlockDevice}
use ferris_file_system.File.{directory, symlink}
use ferris_file_system.File
use ferris_file_system.Inode.{Inode}
use ferris_file_system.InodeTable.{InodeTableHandler, max_inode_index}
use ferris_file_system.InodeTable.Blocks.{block_at}
use ferris_file_system.InodeTable.Rows.{IsTable, row, read_inode-row}
use ferris_file_system.Directory.{DirEntry, is_free, free}
use ferris_file_system.Path.{Component, root_dir, cur_dir, parent_dir, normal, name_bytes, join}
use ferris_file_system.DirectoryHandler.{DirectoryHandler, same_bytes}
use ferris_file_system.DirectoryHandler.Layouts.{IsDirectory}
use ferris_file_system.DirectoryHandler.Search.{
  first_match, first_match_from, NamesFit, find_entry-first_match_from,
}
use ferris_file_system.DirectoryHandler.Resolving.{
  ResolutionResult, is_empty, is_root, is_nil, visit_component, visit_components, resolve_with,
  resolve_symlink, resolve_depth, resolve,
}
use ferris_file_system.Effect.Agrees.{
  Answer, Agrees, agreed, refused, answer_then, Agrees-bind, Returns-Agrees,
}

-- An entry in use names an inode of the table.
abbrev pub IsKnown : InodeTableHandler → DirEntry × ℕ → Type 0
IsKnown t (e, offset) = (is_free e ≡ true) ⊎ (e.inode < max_inode_index t)

-- What the walk down a path means, on the inodes and entries that a store holds.
module _ (t : InodeTableHandler) (f : Store) (entries : ℕ → ℕ → List (DirEntry × ℕ)) where
  abbrev pub child : List ℕ → ResolutionResult → Option (DirEntry × ℕ × ℕ)
  child name cur =
      first_match_from name (block_at t f cur.target_inode) (entries cur.target_inode_index)
        cur.target_inode.blocks 0

  abbrev pub found : ResolutionResult → DirEntry × ℕ × ℕ → ResolutionResult
  found cur (entry, block, offset) = record {
    target_inode = row t f entry.inode;
    target_inode_index = entry.inode;
    parent_inode_index = cur.target_inode_index;
    dir_entry = entry;
    dir_entry_block_index = block;
    dir_entry_offset = offset;
  }

  -- The child with a name. Only the last component may be something else than a directory.
  unfoldable pub step : PathText → List ℕ → Bool → ResolutionResult → Answer ResolutionResult
  step progress name is_final cur = elim (child name cur) [
    | none ↦ inl (does_not_exist progress)
    | some place ↦
        if not (File.is (found cur place).target_inode.file_type directory) && not is_final
        then inl (not_a_directory progress)
        else inr (found cur place)
  ]

  unfoldable pub walk : PathText → List Component → ResolutionResult → Answer ResolutionResult
  unfolding step
  walk progress [] cur = inr cur
  walk progress (root_dir ∷ path) cur = walk progress path cur
  walk progress (cur_dir ∷ path) cur = walk progress path cur
  walk progress (parent_dir ∷ path) cur =
      let progress' = join progress (name_bytes parent_dir) in
      answer_then (step progress' (name_bytes parent_dir) (is_nil path) cur) (walk progress' path)
  walk progress (normal name ∷ path) cur =
      let progress' = join progress name in
      answer_then (step progress' name (is_nil path) cur) (walk progress' path)

  -- Where the walk starts: at an inode.
  abbrev pub start_at : ℕ → ResolutionResult
  start_at src = record {
    target_inode = row t f src;
    target_inode_index = src;
    parent_inode_index = src;
    dir_entry = free 0;
    dir_entry_block_index = 0;
    dir_entry_offset = 0;
  }

  -- The empty path is the start, `/` the root, and any other path a walk from the start.
  unfoldable pub resolved : ℕ → List Component → ℕ → Answer ResolutionResult
  unfolding walk
  resolved root path src =
      if is_empty path
      then inr (start_at src)
      else if is_root path
      then inr (start_at root)
      else walk [] path (start_at src)

-- A tree of directories in a store: the entries fill the blocks of each directory, those in use name
-- inodes of the table, and no inode is a symlink.
pub record IsTree (t : InodeTableHandler) (h : DirectoryHandler) (n : ℕ) (f : Store)
    (entries : ℕ → ℕ → List (DirEntry × ℕ)) : Type 0 where
  pub placed : IsTable t n
  pub root : h.root_inode_ind < max_inode_index t
  pub directories :
      (i : ℕ)
      → i < max_inode_index t
      → File.is (row t f i).file_type directory ≡ true
      → IsDirectory t h n f (row t f i) (entries i)
  pub names : (i b : ℕ) → NamesFit (entries i b)
  pub known : (i b : ℕ) → All (IsKnown t) (entries i b)
  pub no_symlinks : (i : ℕ) → i < max_inode_index t → File.is (row t f i).file_type symlink ≡ false
