-- ===== src/DirectoryHandler/Resolving.antt =====
-- The resolution of paths in src/formats/v1/directory_handler.rs.
use ferris_file_system.Prelude.{
  ℕ, zero, suc, ◌-◌, Bool, true, false, not, ◌&&◌, ◌||◌, none, some, List, [], ◌∷◌, take, get_or,
  ltb, leb, ◌==◌, if◌then◌else◌, add32,
}
use ferris_file_system.FsError.{
  PathText, does_not_exist, not_a_directory, invalid_dir_entry, invalid_inode, empty_symlink,
  maximum_symlink_depth_reached,
}
use ferris_file_system.Effect.{Op, pure, fail, crash, ◌>>=◌}
use ferris_file_system.Device.{block_size, invalid_address, BlockDevice}
use ferris_file_system.File.{directory, symlink}
use ferris_file_system.File
use ferris_file_system.Inode.{Inode}
use ferris_file_system.InodeTable.{InodeTableHandler, read_inode}
use ferris_file_system.Directory.{DirEntry, free}
use ferris_file_system.Path.{
  Component, root_dir, cur_dir, parent_dir, normal, components, name_bytes, join, is_utf8,
}
use ferris_file_system.DirectoryHandler.{DirectoryHandler, find_entry}

pub record ResolutionResult : Type 0 where
  pub target_inode : Inode
  pub target_inode_index : ℕ
  pub parent_inode_index : ℕ
  pub dir_entry : DirEntry
  pub dir_entry_block_index : ℕ
  pub dir_entry_offset : ℕ

abbrev max_depth : ℕ
max_depth = 40

-- `path == Path::new("")` and `path == Path::new(".")`
unfoldable pub is_empty : List Component → Bool
is_empty [] = true
is_empty (cur_dir ∷ []) = true
is_empty (cur_dir ∷ c ∷ path) = false
is_empty (root_dir ∷ path) = false
is_empty (parent_dir ∷ path) = false
is_empty (normal name ∷ path) = false

-- `path == Path::new("/")`
unfoldable pub is_root : List Component → Bool
is_root [] = false
is_root (root_dir ∷ []) = true
is_root (root_dir ∷ c ∷ path) = false
is_root (cur_dir ∷ path) = false
is_root (parent_dir ∷ path) = false
is_root (normal name ∷ path) = false

abbrev pub is_nil : List Component → Bool
is_nil [] = true
is_nil (c ∷ path) = false

module _ {D : Type 0} (dev : BlockDevice D) (t : InodeTableHandler) (h : DirectoryHandler) where
  open dev use {read_block}
  open h use {data_start, root_inode_ind}

  -- The branch of a round for a symlink that is to be followed: `follow` reads it.
  unfoldable pub follow_link :
      (Inode → ℕ → Op D ResolutionResult)
      → ℕ
      → Bool
      → PathText
      → ResolutionResult
      → DirEntry
      → Inode
      → Op D ResolutionResult
  follow_link follow it is_final progress cur entry inode =
      if leb max_depth it
      then fail (maximum_symlink_depth_reached progress max_depth)
      else if inode.size == 0 || inode.blocks == 0
      then fail (empty_symlink progress)
      else do
        res ← follow inode cur.target_inode_index
        if not (File.is res.target_inode.file_type directory) && not is_final
            then fail (not_a_directory progress)
            else pure (record res { dir_entry = entry })

  -- One round of `_resolve`. The state is what the function returns at the end.
  unfoldable pub visit_component :
      (Inode → ℕ → Op D ResolutionResult)
      → ℕ
      → Bool
      → Bool
      → PathText
      → List ℕ
      → ResolutionResult
      → Op D ResolutionResult
  unfolding follow_link
  visit_component follow it resolve_final is_final progress comp_name cur = do
    entry_opt ← find_entry dev t h cur.target_inode comp_name
    elim entry_opt [
      | none ↦ fail (does_not_exist progress)
      | some (entry, entry_block, entry_offset) ↦
          if entry.inode == invalid_address
          then fail (invalid_dir_entry invalid_inode entry_block entry_offset)
          else do
            inode ← read_inode dev t entry.inode
            let next : ResolutionResult = record {
              target_inode = inode;
              target_inode_index = entry.inode;
              parent_inode_index = cur.target_inode_index;
              dir_entry = entry;
              dir_entry_block_index = entry_block;
              dir_entry_offset = entry_offset;
            }
            if File.is inode.file_type symlink && (not is_final || resolve_final)
                then follow_link follow it is_final progress cur entry inode
                else if not (File.is inode.file_type directory) && not is_final
                then fail (not_a_directory progress)
                else pure next
    ]

  -- `while let Some(comp) = components.next()`
  unfoldable pub visit_components :
      (Inode → ℕ → Op D ResolutionResult)
      → ℕ
      → Bool
      → PathText
      → List Component
      → ResolutionResult
      → Op D ResolutionResult
  unfolding visit_component
  visit_components follow it resolve_final progress [] cur = pure cur
  visit_components follow it resolve_final progress (root_dir ∷ path) cur =
      visit_components follow it resolve_final progress path cur
  visit_components follow it resolve_final progress (cur_dir ∷ path) cur =
      visit_components follow it resolve_final progress path cur
  visit_components follow it resolve_final progress (parent_dir ∷ path) cur = do
    let progress' = join progress (name_bytes parent_dir)
    cur' ←
        visit_component follow it resolve_final (is_nil path) progress' (name_bytes parent_dir) cur
    visit_components follow it resolve_final progress' path cur'
  visit_components follow it resolve_final progress (normal name ∷ path) cur = do
    let progress' = join progress name
    cur' ← visit_component follow it resolve_final (is_nil path) progress' name cur
    visit_components follow it resolve_final progress' path cur'

  -- `_resolve`, without what it does to follow a symlink.
  unfoldable pub resolve_with :
      (Inode → ℕ → Op D ResolutionResult) → ℕ → List Component → ℕ → Bool → Op D ResolutionResult
  unfolding visit_components is_empty is_root
  resolve_with follow it path src resolve_final = do
    cur_inode ← read_inode dev t src
    let start : ResolutionResult = record {
      target_inode = cur_inode;
      target_inode_index = src;
      parent_inode_index = src;
      dir_entry = free 0;
      dir_entry_block_index = 0;
      dir_entry_offset = 0;
    }
    if is_empty path
        then pure start
        else if is_root path
        then (do
          root_inode ← read_inode dev t root_inode_ind
          pure (record start {
            target_inode = root_inode;
            target_inode_index = root_inode_ind;
            parent_inode_index = root_inode_ind;
          }))
        else visit_components follow it resolve_final [] path start

  -- `_resolve_symlink`: the path in the block of a symlink, from the root or from the directory that
  -- the symlink is in. `resolve_path` resolves it.
  unfoldable pub resolve_symlink :
      (List Component → ℕ → Op D ResolutionResult) → Inode → ℕ → Op D ResolutionResult
  resolve_symlink resolve_path inode parent_inode_ind = do
    buf ← read_block (add32 data_start (get_or inode.direct 0 0))
    if ltb block_size inode.size || not (is_utf8 (take inode.size buf))
        then crash
        else if get_or buf 0 0 == 0x2F
        then resolve_path (components (take inode.size buf)) root_inode_ind
        else resolve_path (components (take inode.size buf)) parent_inode_ind

  -- `_resolve` at depth `max_depth - fuel`. No symlink is followed at `max_depth`, so the fuel does not
  -- run out.
  unfoldable pub resolve_depth : ℕ → List Component → ℕ → Bool → Op D ResolutionResult
  unfolding resolve_with resolve_symlink
  resolve_depth zero path src resolve_final =
      resolve_with (λ inode parent_ind. crash) max_depth path src resolve_final
  resolve_depth (suc fuel) path src resolve_final =
      resolve_with (resolve_symlink (λ target from. resolve_depth fuel target from true))
        (max_depth - suc fuel) path src resolve_final

  unfoldable pub resolve : List Component → ℕ → Bool → Op D ResolutionResult
  unfolding resolve_depth
  resolve path src resolve_final = resolve_depth max_depth path src resolve_final
