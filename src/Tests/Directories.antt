-- ===== src/Tests/Directories.antt =====
-- The theorems on the entries of directories at concrete entries.
use ferris_file_system.Prelude.{
  ◌<◌, ℕ, ◌≡◌, ◌++◌, refl, false, some, List, [], ◌∷◌, arith, replicate, inr, All, get_or,
}
use ferris_file_system.Effect.Returns.{Returns}
use ferris_file_system.Device.{Block, Store, IsBlock, zero_block, update}
use ferris_file_system.Device.Memory.{MemoryDevice, memory_device}
use ferris_file_system.Device.Memory.Laws.{Holds, memory-IsLawful, zero_block-IsBlock}
use ferris_file_system.File.{file, directory}
use ferris_file_system.Codec.{write_at, slice, read_field, from_le_bytes}
use ferris_file_system.Codec.Bytes.{all_bytes_lem}
use ferris_file_system.Inode.{Inode}
use ferris_file_system.InodeTable.{InodeTableHandler}
use ferris_file_system.InodeTable.Blocks.{block_at}
use ferris_file_system.Directory.{DirEntry, new, free, serialize, deserialize}
use ferris_file_system.Directory.RoundTrip.{IsEntry, Written, serialize-Written}
use ferris_file_system.DirectoryHandler.{
  DirectoryHandler, get_entries, find_entry, add_entry_here, add_entry_grow,
}
use ferris_file_system.DirectoryHandler.Regions.{IsTight}
use ferris_file_system.DirectoryHandler.Insertion.{
  left_over, add_entry_here-Layout, add_entry_grow-Layout,
}
use ferris_file_system.DirectoryHandler.Search.{
  NamesFit, first_match_from, find_entry-first_match_from,
}
use ferris_file_system.DirectoryHandler.Layouts.{
  Layout, whole, more, IsDirectory, kept_from, get_entries-kept_from,
}
use ferris_file_system.Tests.{first_byte_full, first_byte_full-IsBlock, store_of, of_blocks-Holds}

-- The file `abc` with inode 7.
abbrev entry : DirEntry
entry = record {
  inode = 7;
  file_type = file;
  record_len = 12;
  name_len = 3;
  name = write_at (replicate 64 0) 0 (97 ∷ 98 ∷ 99 ∷ []);
}

entry_lem : entry ≡ new 7 file (97 ∷ 98 ∷ 99 ∷ [])
unfolding new write_at
entry_lem = refl

entry-IsEntry : IsEntry entry 24
unfolding write_at
entry-IsEntry = record {
  used = refl;
  ranges = (omega arith, (omega arith, (omega arith, (omega arith, tt))));
  name_size = refl;
  name_fits = omega arith;
  padded = refl;
  long_enough = omega arith;
  inside = omega arith;
}

serialize-Written_example :
    (image : Block) × (serialize entry first_byte_full 24 ≡ some image)
    × Written entry 24 first_byte_full image
serialize-Written_example =
    serialize-Written entry 24 first_byte_full first_byte_full-IsBlock entry-IsEntry

-- The first block of a directory: `.`, `..` and a free region.
abbrev dir_bytes : List ℕ
dir_bytes =
    7 ∷ 0 ∷ 0 ∷ 0 ∷ 12 ∷ 0 ∷ 1 ∷ 0 ∷ 1 ∷ 46 ∷ 0 ∷ 0 ∷ 9 ∷ 0 ∷ 0 ∷ 0 ∷ 12 ∷ 0 ∷ 2 ∷ 0 ∷ 1 ∷ 46 ∷ 46
    ∷ 0 ∷ 255 ∷ 255 ∷ 255 ∷ 255 ∷ 232 ∷ 0 ∷ []

abbrev dir_block : Block
dir_block = dir_bytes ++ replicate 226 0

dir_block-IsBlock : IsBlock dir_block
dir_block-IsBlock = record { size = refl; byte = all_bytes_lem dir_block refl }

abbrev dir_disk : MemoryDevice
dir_disk = record { blocks = zero_block ∷ dir_block ∷ [] }

abbrev dir_store : Store
dir_store = store_of (zero_block ∷ dir_block ∷ [])

dir_disk-Holds : Holds dir_disk dir_store 2
dir_disk-Holds =
    of_blocks-Holds (zero_block ∷ dir_block ∷ []) (zero_block-IsBlock, (dir_block-IsBlock, tt))
      (omega arith)

abbrev dir_inode : Inode
dir_inode = record {
  size = 256;
  file_type = directory;
  permissions = 493;
  direct = replicate 12 0;
  indirect = 4294967295;
  double = 4294967295;
  created = 0;
  modified = 0;
  links = 2;
  blocks = 1;
}

abbrev table : InodeTableHandler
table = record { inode_table_start = 0; inode_table_blocks = 1; data_start = 1 }

abbrev handler : DirectoryHandler
handler = record { data_start = 1; root_inode_ind = 0 }

abbrev entries : ℕ → List (DirEntry × ℕ)
entries b =
    (new 7 directory (46 ∷ []), 0) ∷ (new 9 directory (46 ∷ 46 ∷ []), 12) ∷ (free 232, 24) ∷ []

dir_block-Layout : Layout dir_block 0 (entries 0)
unfolding deserialize new free write_at read_field from_le_bytes slice
dir_block-Layout =
    more refl (λ e. omega arith) (omega arith)
      (more refl (λ e. omega arith) (omega arith)
        (more refl (λ e. omega arith) (omega arith) whole))

dir-IsDirectory : IsDirectory table handler 2 dir_store dir_inode entries
unfolding block_at
dir-IsDirectory = record {
  small = omega arith;
  bounded = omega arith;
  reachable = λ b lt. record {
    indirect = λ le _. absurd (omega arith);
    double = λ le. absurd (omega arith);
    second = λ le. absurd (omega arith);
  };
  on_device = λ b lt. let z : b ≡ 0 = omega arith in rw z (omega arith);
  layout = λ b lt. let z : b ≡ 0 = omega arith in rw z dir_block-Layout;
}

get_entries-kept_from_example :
    Returns
      (λ out d'. (out ≡ kept_from false entries 1 0) × Holds d' dir_store 2)
      (get_entries memory_device table handler dir_inode false dir_disk)
get_entries-kept_from_example =
    get_entries-kept_from memory-IsLawful table handler 2 dir_store dir_inode entries
      dir-IsDirectory false dir_disk dir_disk-Holds

names_fit : (b : ℕ) → b < 1 → NamesFit (entries b)
unfolding new free
names_fit b lt = (omega arith, (omega arith, (omega arith, tt)))

-- The entry `..`.
find_entry-first_match_from_example :
    Returns
      (λ out d'.
        (out ≡ first_match_from (46 ∷ 46 ∷ []) (block_at table dir_store dir_inode) entries 1 0)
        × Holds d' dir_store 2)
      (find_entry memory_device table handler dir_inode (46 ∷ 46 ∷ []) dir_disk)
find_entry-first_match_from_example =
    find_entry-first_match_from memory-IsLawful table handler 2 dir_store dir_inode entries
      dir-IsDirectory names_fit (46 ∷ 46 ∷ []) dir_disk dir_disk-Holds

name_byte : (i : ℕ) → get_or entry.name i 0 < 256
unfolding write_at
name_byte = all_bytes_lem entry.name refl

-- `.` and `..`, in front of the free region.
abbrev dots : List (DirEntry × ℕ)
dots = (new 7 directory (46 ∷ []), 0) ∷ (new 9 directory (46 ∷ 46 ∷ []), 12) ∷ []

dots-IsTight : All IsTight dots
unfolding new
dots-IsTight = (omega arith, (omega arith, tt))

add_entry_here-Layout_example :
    Returns
      (λ _ d'.
        (image : Block) × Layout image 0
          (dots ++ (entry, 24) ∷ (left_over (free 232).record_len entry 24 ++ []))
        × Holds d' (update dir_store 1 image) 2)
      (add_entry_here memory_device table handler entry 0 24 dir_disk)
unfolding free
add_entry_here-Layout_example =
    add_entry_here-Layout memory-IsLawful 2 (omega arith) table handler entry name_byte dots []
      (free 232) dots-IsTight 0 24 dir_disk dir_store dir_disk-Holds (omega arith) dir_block-IsBlock
      dir_block-Layout refl entry-IsEntry (inr (omega arith))

entry_first-IsEntry : IsEntry entry 0
unfolding write_at
entry_first-IsEntry = record {
  used = refl;
  ranges = (omega arith, (omega arith, (omega arith, (omega arith, tt))));
  name_size = refl;
  name_fits = omega arith;
  padded = refl;
  long_enough = omega arith;
  inside = omega arith;
}

add_entry_grow-Layout_example :
    Returns
      (λ _ d'.
        (image : Block) × Layout image 0 ((entry, 0) ∷ left_over 256 entry 0)
        × Holds d' (update dir_store 1 image) 2)
      (add_entry_grow memory_device table handler entry 0 dir_disk)
add_entry_grow-Layout_example =
    add_entry_grow-Layout memory-IsLawful 2 (omega arith) table handler entry name_byte 0 dir_disk
      dir_store dir_disk-Holds (omega arith) entry_first-IsEntry (omega arith)
