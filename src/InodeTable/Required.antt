-- ===== src/InodeTable/Required.antt =====
-- `add_blocks` of src/formats/v1/inode_handler.rs: how many blocks it takes from the pool.
use ferris_file_system.Prelude.{ℕ, ◌+◌, ◌<◌, ◌≤◌, ◌≡◌, List, length}
use ferris_file_system.Effect.{Run}
use ferris_file_system.Effect.Unless
use ferris_file_system.Effect.Unless.{Unless, panicked, Returns-Unless}
use ferris_file_system.Inode.{Inode}
use ferris_file_system.InodeTable.{blocks_necessary_to_grow_n}

-- The run ends in `Ok`, with the new count, if the pool has `blocks_necessary_to_grow_n` blocks, and
-- in an error or a panic if it has fewer.
abbrev pub GrowsByPool : {D : Type 0} → Inode → List ℕ → List ℕ → Run D Inode → Type 0
GrowsByPool inode blocks pool =
    Unless (length pool < blocks_necessary_to_grow_n inode (length blocks)) λ inode' d'.
      (blocks_necessary_to_grow_n inode (length blocks) ≤ length pool)
      × (inode'.blocks ≡ inode.blocks + length blocks)
