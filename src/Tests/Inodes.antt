-- ===== src/Tests/Inodes.antt =====
-- The theorems on the blocks of an inode at a device of three blocks, whose data start at block 1.
use ferris_file_system.Prelude.{◌^◌, ◌≡◌, refl, [], ◌∷◌, arith, replicate}
use ferris_file_system.Effect.{ok}
use ferris_file_system.Effect.Returns.{Returns}
use ferris_file_system.Device.{BlockDevice, Store, update}
use ferris_file_system.Device.Memory.{memory_device}
use ferris_file_system.Device.Memory.Laws.{Holds, memory-IsLawful}
use ferris_file_system.File.{file}
use ferris_file_system.Inode.{Inode}
use ferris_file_system.InodeTable.{InodeTableHandler, get_block, add_block}
use ferris_file_system.InodeTable.Blocks.{block_at, OnDevice, get_block-block_at}
use ferris_file_system.InodeTable.Append.{Appended, CanGrow, add_block-Appended}
use ferris_file_system.Tests.{disk, disk_store, disk-Holds}

abbrev handler : InodeTableHandler
handler = record { inode_table_start = 0; inode_table_blocks = 1; data_start = 1 }

-- Its direct addresses are used up, and it has no indirect block.
abbrev twelve : Inode
twelve = record {
  size = 3072;
  file_type = file;
  permissions = 420;
  direct = replicate 12 0;
  indirect = 4294967295;
  double = 4294967295;
  created = 0;
  modified = 0;
  links = 1;
  blocks = 12;
}

abbrev thirteen : Inode
thirteen = record twelve { indirect = 1; blocks = 13 }

twelve-CanGrow : CanGrow handler 3 twelve (1 ∷ [])
twelve-CanGrow = record {
  direct_size = refl;
  room = omega arith;
  pool_enough = λ e. omega arith;
  on_device = λ le. omega arith;
}

add_block-Appended_example :
    Returns
      (λ inode' d'.
        (g : Store) × Holds d' g 3 × Appended handler disk_store twelve 5 (1 ∷ []) g inode')
      (add_block memory_device handler twelve 5 (1 ∷ []) disk)
add_block-Appended_example =
    add_block-Appended memory-IsLawful handler 3 (omega arith) twelve 5 (1 ∷ []) twelve-CanGrow
      (omega arith) disk disk_store disk-Holds

thirteen-OnDevice : OnDevice handler 3 disk_store thirteen 12
thirteen-OnDevice = record {
  indirect = λ _ _. omega arith;
  double = λ le. absurd (omega arith);
  second = λ le. absurd (omega arith);
}

get_block-block_at_example :
    Returns
      (λ b d'. (b ≡ block_at handler disk_store thirteen 12) × Holds d' disk_store 3)
      (get_block memory_device handler thirteen 12 disk)
get_block-block_at_example =
    get_block-block_at memory-IsLawful handler 3 (omega arith) disk disk_store thirteen 12
      disk-Holds (omega arith) (omega arith) thirteen-OnDevice

-- A device with a block for every address.
abbrev store_device : BlockDevice Store
store_device = record {
  read_block = λ i f. ok (f i) f;
  write_block = λ i b f. ok tt (update f i b);
  block_count = λ f. 2 ^ 32;
  resize = λ n f. ok tt f;
  flush = λ f. ok tt f;
}
