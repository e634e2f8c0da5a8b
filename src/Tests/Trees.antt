-- ===== src/Tests/Trees.antt =====
-- The theorem on `resolve` of src/formats/v1/directory_handler.rs at a root with the file `abc`.
use ferris_file_system.Prelude.{
  ℕ, suc, zero, ◌<◌, ◌≡◌, ◌++◌, refl, inl, inr, false, true, List, [], ◌∷◌, arith, replicate, All,
}
use ferris_file_system.Effect.Agrees.{Agrees}
use ferris_file_system.Device.{Block, Store, IsBlock}
use ferris_file_system.Device.Memory.{MemoryDevice, memory_device}
use ferris_file_system.Device.Memory.Laws.{Holds, memory-IsLawful}
use ferris_file_system.File.{file, directory, symlink}
use ferris_file_system.File
use ferris_file_system.Codec.{write_at, slice, read_field, read_array, from_le_bytes}
use ferris_file_system.Codec.Bytes.{all_bytes_lem}
use ferris_file_system.Inode.{Inode}
use ferris_file_system.Inode
use ferris_file_system.InodeTable.{InodeTableHandler}
use ferris_file_system.InodeTable.Blocks.{block_at}
use ferris_file_system.InodeTable.Rows.{row}
use ferris_file_system.Directory.{DirEntry, new, free, deserialize}
use ferris_file_system.Path.{parent_dir, normal}
use ferris_file_system.DirectoryHandler.{DirectoryHandler}
use ferris_file_system.DirectoryHandler.Layouts.{Layout, whole, more, IsDirectory}
use ferris_file_system.DirectoryHandler.Search.{NamesFit}
use ferris_file_system.DirectoryHandler.Resolving.{resolve}
use ferris_file_system.DirectoryHandler.Walking.{IsKnown, IsTree, resolved}
use ferris_file_system.DirectoryHandler.Walking.Resolution.{resolve-resolved}
use ferris_file_system.Format.Formatting.RootDirectory.{root_inode}
use ferris_file_system.Tests.{store_of, of_blocks-Holds}

-- The table: the root, and an empty file.
abbrev pub table_block : Block
table_block =
    0
      ∷ 1
      ∷ 0
      ∷ 0
      ∷ 0
      ∷ 0
      ∷ 0
      ∷ 0
      ∷ 1
      ∷ 0
      ∷ 255
      ∷ 255
      ∷ 1
      ∷ 0
      ∷ 0
      ∷ 0
      ∷ 1
      ∷ 0
      ∷ 0
      ∷ 0
      ∷ 0
      ∷ 0
      ∷ 0
      ∷ 0
      ∷ replicate 52 255
    ++ (5 ∷ 0 ∷ 0 ∷ 0 ∷ 0 ∷ 0 ∷ 0 ∷ 0 ∷ 5 ∷ replicate 171 0)

abbrev pub root_block : Block
root_block =
    0
    ∷ 0
    ∷ 0
    ∷ 0
    ∷ 12
    ∷ 0
    ∷ 1
    ∷ 0
    ∷ 1
    ∷ 46
    ∷ 0
    ∷ 0
    ∷ 0
    ∷ 0
    ∷ 0
    ∷ 0
    ∷ 12
    ∷ 0
    ∷ 2
    ∷ 0
    ∷ 1
    ∷ 46
    ∷ 46
    ∷ 0
    ∷ 1
    ∷ 0
    ∷ 0
    ∷ 0
    ∷ 12
    ∷ 0
    ∷ 3
    ∷ 0
    ∷ 0
    ∷ 97
    ∷ 98
    ∷ 99
    ∷ 255
    ∷ 255
    ∷ 255
    ∷ 255
    ∷ 220
    ∷ replicate 215 0

table_block-IsBlock : IsBlock table_block
table_block-IsBlock = record { size = refl; byte = all_bytes_lem table_block refl }

root_block-IsBlock : IsBlock root_block
root_block-IsBlock = record { size = refl; byte = all_bytes_lem root_block refl }

abbrev tree_store : Store
tree_store = store_of (table_block ∷ root_block ∷ [])

abbrev tree_disk : MemoryDevice
tree_disk = record { blocks = table_block ∷ root_block ∷ [] }

tree_disk-Holds : Holds tree_disk tree_store 2
tree_disk-Holds =
    of_blocks-Holds (table_block ∷ root_block ∷ []) (table_block-IsBlock, (root_block-IsBlock, tt))
      (omega arith)

abbrev table : InodeTableHandler
table = record { inode_table_start = 0; inode_table_blocks = 1; data_start = 1 }

abbrev handler : DirectoryHandler
handler = record { data_start = 1; root_inode_ind = 0 }

abbrev entries : ℕ → ℕ → List (DirEntry × ℕ)
entries i b =
    (new 0 directory (46 ∷ []), 0)
    ∷ (new 0 directory (46 ∷ 46 ∷ []), 12)
    ∷ (new 1 file (97 ∷ 98 ∷ 99 ∷ []), 24)
    ∷ (free 220, 36)
    ∷ []

root_block-Layout : Layout root_block 0 (entries 0 0)
unfolding deserialize new free write_at read_field from_le_bytes slice
root_block-Layout =
    more refl (λ e. omega arith) (omega arith)
      (more refl (λ e. omega arith) (omega arith)
        (more refl (λ e. omega arith) (omega arith)
          (more refl (λ e. omega arith) (omega arith) whole)))

root_lem : row table tree_store 0 ≡ root_inode 5
unfolding row Inode.deserialize read_field read_array from_le_bytes slice
root_lem = refl

file_lem : (row table tree_store 1).file_type ≡ file
unfolding row Inode.deserialize read_field read_array from_le_bytes slice
file_lem = refl

root-IsDirectory : IsDirectory table handler 2 tree_store (root_inode 5) (entries 0)
unfolding block_at
root-IsDirectory = record {
  small = omega arith;
  bounded = omega arith;
  reachable = λ b lt. record {
    indirect = λ le _. absurd (omega arith);
    double = λ le. absurd (omega arith);
    second = λ le. absurd (omega arith);
  };
  on_device = λ b lt. let z : b ≡ 0 = omega arith in rw z (omega arith);
  layout = λ b lt. let z : b ≡ 0 = omega arith in rw z root_block-Layout;
}

known : (i b : ℕ) → All (IsKnown table) (entries i b)
unfolding new free
known i b = (inr (omega arith), (inr (omega arith), (inr (omega arith), (inl refl, tt))))

names_fit : (i b : ℕ) → NamesFit (entries i b)
unfolding new free
names_fit i b = (omega arith, (omega arith, (omega arith, (omega arith, tt))))

directories :
    (i : ℕ)
    → i < 2
    → File.is (row table tree_store i).file_type directory ≡ true
    → IsDirectory table handler 2 tree_store (row table tree_store i) (entries i)
directories zero lt is = rw root_lem root-IsDirectory
directories (suc zero) lt is =
    let no : false ≡ true = rw file_lem at is in absurd (ground (arith, no))
directories (suc (suc i)) lt is = absurd (omega (arith, lt))

no_symlinks : (i : ℕ) → i < 2 → File.is (row table tree_store i).file_type symlink ≡ false
no_symlinks zero lt = rw root_lem refl
no_symlinks (suc zero) lt = rw file_lem refl
no_symlinks (suc (suc i)) lt = absurd (omega (arith, lt))

abc-IsTree : IsTree table handler 2 tree_store entries
abc-IsTree = record {
  placed = record { fits = omega arith; small = omega arith; countable = omega arith };
  root = omega arith;
  directories = directories;
  names = names_fit;
  known = known;
  no_symlinks = no_symlinks;
}

-- `../abc`
resolve-resolved_example :
    Agrees
      (λ d'. Holds d' tree_store 2)
      (resolved table tree_store entries 0 (parent_dir ∷ normal (97 ∷ 98 ∷ 99 ∷ []) ∷ []) 0)
      (resolve memory_device table handler
        (parent_dir ∷ normal (97 ∷ 98 ∷ 99 ∷ []) ∷ [])
        0
        true
        tree_disk)
resolve-resolved_example =
    resolve-resolved memory-IsLawful table handler 2 tree_store entries abc-IsTree
      (parent_dir ∷ normal (97 ∷ 98 ∷ 99 ∷ []) ∷ []) 0 true tree_disk tree_disk-Holds (omega arith)
      (rw root_lem refl)
