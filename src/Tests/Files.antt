-- ===== src/Tests/Files.antt =====
-- The theorems on open files at a device of six blocks, with one file of two blocks.
use ferris_file_system.Prelude.{length, ap, ◌∙◌}
use ferris_file_system.Prelude.{
  by_cases, leb, ℕ, zero, suc, ◌+◌, ◌<◌, ◌≤◌, ◌≡◌, ◌^◌, ◌-◌, refl, some, List, [], ◌∷◌, arith,
  replicate, get_or, All, ◌==◌, false,
}
use ferris_file_system.Effect.{err}
use ferris_file_system.Effect.Returns.{Returns}
use ferris_file_system.Effect.Keeps.{Keeps}
use ferris_file_system.Effect.Ends.{Ends, ends_ok, ends_err}
use ferris_file_system.Effect.Leaves.{with_result}
use ferris_file_system.Device.{Block, Store, zero_block}
use ferris_file_system.Device.Memory.{MemoryDevice, memory_device, read_block, block_count}
use ferris_file_system.Device.Memory.Laws.{Holds, memory-IsLawful, zero_block-IsBlock}
use ferris_file_system.Codec.{
  write_fields, write_at, to_le_bytes, slice, read_field, read_array, from_le_bytes,
}
use ferris_file_system.File.{file}
use ferris_file_system.Inode.{Inode, serialize, deserialize}
use ferris_file_system.Inode.RoundTrip.{InRange, serialize-IsBlock}
use ferris_file_system.InodeTable.{InodeTableHandler}
use ferris_file_system.InodeTable.Blocks.{OnDevice, block_at}
use ferris_file_system.InodeTable.Rows.{IsTable, row}
use ferris_file_system.OpenFiles.{FileMetadata, empty, insert, remove, new, read_write}
use ferris_file_system.Format.{Volume}
use ferris_file_system.Format.Files.{
  start, end, read, write, seek, truncate, open_file_from_inode, close_file, opened, set_metadata,
}
use ferris_file_system.Format.Files.Ending.{read-Ends}
use ferris_file_system.Format.Files.Stale.{stale_handle}
use ferris_file_system.Bitmap.{is_allocated, unpack_index}
use ferris_file_system.InodeTable.{read_inode}
use ferris_file_system.Format.{on_device}
use ferris_file_system.Format.Files.{create_handle}
use ferris_file_system.Format.Files.Contents.{IsFile}
use ferris_file_system.Format.Files.Separation.{IsSeparate, place}
use ferris_file_system.Format.Files.ReadLoop.{ReadFrom}
use ferris_file_system.Format.Files.Reading.{from_end, back, Moved, read-ReadFrom, seek-Target}
use ferris_file_system.Format.Files.Writing.{Written, write-Written}
use ferris_file_system.Prelude.Bits.{test_bit}
use ferris_file_system.FsError.{file_not_open}
use ferris_file_system.Bitmap.View.{bit_of}
use ferris_file_system.Bitmap.Modify.{IsPlaced}
use ferris_file_system.Format.Files.Opening.{Opened, open_file-Opened}
use ferris_file_system.Format.Files.Handles.{Held}
use ferris_file_system.Format.Files.Frame.{OthersKept, other_handles}
use ferris_file_system.Format.Files.Sessions.{
  FileSteps, step, stop, opening, closing, seeking, HandlesBelow, steps-HandlesBelow,
}
use ferris_file_system.Tests.{first_byte_full, first_byte_full-IsBlock, store_of, of_blocks-Holds}
use ferris_file_system.Tests.Formats.{format}

abbrev pub two_blocks : Inode
two_blocks = record {
  size = 300;
  file_type = file;
  permissions = 420;
  direct = 0 ∷ 1 ∷ replicate 10 4294967295;
  indirect = 4294967295;
  double = 4294967295;
  created = 0;
  modified = 0;
  links = 1;
  blocks = 2;
}

abbrev volume_blocks : List Block
volume_blocks =
    zero_block
    ∷ first_byte_full
    ∷ first_byte_full
    ∷ serialize two_blocks zero_block
    ∷ first_byte_full
    ∷ zero_block
    ∷ []

abbrev volume_store : Store
volume_store = store_of volume_blocks

abbrev table : InodeTableHandler
table = record { inode_table_start = 3; inode_table_blocks = 1; data_start = 4 }

-- Handle 0 is at byte 250 of the file.
abbrev handle : FileMetadata
handle = record (new 0 read_write) { offset = 250 }

abbrev pub volume : Volume MemoryDevice
volume = record {
  device = record { blocks = volume_blocks };
  format = record format {
    superblock = record format.superblock { data_start = 4 };
    inode_handler = table;
    next_file_id = 1;
    open_files = insert 0 handle empty;
  };
}

volume-Holds : Holds volume.device volume_store 6
volume-Holds =
    of_blocks-Holds volume_blocks
      (
        zero_block-IsBlock,
        (
          first_byte_full-IsBlock,
          (
            first_byte_full-IsBlock,
            (
              serialize-IsBlock two_blocks zero_block zero_block-IsBlock,
              (first_byte_full-IsBlock, (zero_block-IsBlock, tt)),
            ),
          ),
        ),
      )
      (omega arith)

table-IsTable : IsTable table 6
table-IsTable = record { fits = omega arith; small = omega arith; countable = omega arith }

row_lem : row table volume_store 0 ≡ two_blocks
unfolding row serialize deserialize write_fields write_at to_le_bytes slice read_field read_array
    from_le_bytes zero_block
row_lem = refl

-- A property of both blocks.
both : (P : ℕ → Type 0) → P 0 → P 1 → (i : ℕ) → i < 2 → P i
both P p q zero lt = p
both P p q (suc zero) lt = q
both P p q (suc (suc i)) lt = absurd (omega arith)

place_lem : (i : ℕ) → i < 2 → place volume.format volume_store two_blocks i ≡ 4 + i
unfolding block_at
place_lem = both (λ i. place volume.format volume_store two_blocks i ≡ 4 + i) refl refl

two_blocks-OnDevice : (i : ℕ) → i < 2 → OnDevice table 6 volume_store two_blocks i
two_blocks-OnDevice i lt = record {
  indirect = λ le. absurd (omega (arith, le, lt));
  double = λ le. absurd (omega (arith, le, lt));
  second = λ le. absurd (omega (arith, le, lt));
}

two_blocks-IsFile : IsFile volume.format 6 volume_store two_blocks
unfolding block_at
two_blocks-IsFile = record {
  start_lem = refl;
  size_lem = omega arith;
  size_small = omega arith;
  blocks_lem = omega arith;
  addresses = two_blocks-OnDevice;
  placed =
      both (λ i. place volume.format volume_store two_blocks i < 6) (omega arith) (omega arith);
  known = both (λ i. block_at table volume_store two_blocks i ≤ 41) (omega arith) (omega arith);
}

two_blocks-IsSeparate : IsSeparate volume.format volume_store two_blocks
unfolding block_at
two_blocks-IsSeparate = record {
  distinct = λ i j lt jlt ne e. absurd (ne (omega (arith, e, place_lem i lt, place_lem j jlt)));
  not_indirect = λ i lt more. absurd (omega (arith, more));
  not_double = λ i lt more. absurd (omega (arith, more));
  not_second = λ i j lt jlt le. absurd (omega (arith, jlt, le));
  behind_table = omega arith;
}

replicate-All : (P : ℕ → Type 0) (k a : ℕ) → P a → All P (replicate k a)
replicate-All P zero a p = tt
replicate-All P (suc k) a p = (p, replicate-All P k a p)

two_blocks-InRange : InRange two_blocks
two_blocks-InRange = record {
  head = (
    omega arith,
    (omega arith, (omega arith, (omega arith, (omega arith, (omega arith, (omega arith, tt)))))),
  );
  direct_length = refl;
  direct =
      (omega arith, (omega arith, replicate-All (λ x. x < 256 ^ 4) 10 4294967295 (omega arith)));
  tail = (omega arith, (omega arith, (omega arith, (omega arith, tt))));
}

read-ReadFrom_example :
    Returns
      (ReadFrom memory-IsLawful 6 table-IsTable.small volume.format volume_store
        (row table volume_store 0)
        (rw row_lem two_blocks-IsFile)
        0
        handle
        (replicate 100 0)
        0
        volume.format)
      (read memory_device 0 (replicate 100 0) volume)
unfolding insert
read-ReadFrom_example =
    read-ReadFrom memory-IsLawful 6 volume volume_store table-IsTable volume-Holds 0 handle refl
      (replicate 100 0) (omega arith) (rw row_lem two_blocks-IsFile)

All-byte : (xs : List ℕ) → All (λ x. x < 256) xs → (i : ℕ) → get_or xs i 0 < 256
All-byte [] all i = omega arith
All-byte (x ∷ xs) all zero = all.0
All-byte (x ∷ xs) all (suc i) = All-byte xs all.1 i

handle_lem : volume.format.open_files 0 ≡ some handle
unfolding insert
handle_lem = refl

-- Ten bytes back from the end.
seek-Target_example :
    Returns
      (Moved memory-IsLawful 6 volume volume_store table-IsTable volume-Holds 0 handle handle_lem
        290)
      (seek memory_device 0 (end (2 ^ 64 - 10)) volume)
seek-Target_example =
    seek-Target memory-IsLawful 6 volume volume_store table-IsTable volume-Holds 0 handle handle_lem
      (end (2 ^ 64 - 10)) 290 (omega arith)
      (rw row_lem (from_end (back 10 (omega arith) (omega arith) refl) (omega arith) (omega arith)))

write-Written_example :
    Returns
      (Written memory-IsLawful 6 volume volume_store table-IsTable volume-Holds 0 handle handle_lem
        (omega arith)
        99
        (replicate 10 7))
      (write memory_device 99 0 (replicate 10 7) volume)
write-Written_example =
    write-Written memory-IsLawful 6 volume volume_store table-IsTable volume-Holds 0 handle
      handle_lem (omega arith) 99 (replicate 10 7) (rw row_lem two_blocks-IsFile)
      (rw row_lem two_blocks-IsSeparate)
      (All-byte (replicate 10 7) (replicate-All (λ x. x < 256) 10 7 (omega arith)))
      (rw row_lem (omega arith)) (rw row_lem two_blocks-InRange) (omega arith) (omega arith)

volume-HandlesBelow : HandlesBelow memory_device volume
unfolding insert
volume-HandlesBelow zero le = absurd (omega (arith, le))
volume-HandlesBelow (suc id) le = let other : (0 == suc id) ≡ false = ground arith in rw other refl

-- The handle is moved, and then closed.
after_close : Volume MemoryDevice
after_close = record volume {
  format = record volume.format {
    open_files = remove 0 (insert 0 (record handle { offset = 7 }) volume.format.open_files);
  };
}

session : FileSteps memory_device volume after_close
unfolding seek opened set_metadata insert close_file after_close
session = step (seeking 0 (start 7) with_result) (step (closing 0 with_result) stop)

steps-HandlesBelow_example : HandlesBelow memory_device after_close
steps-HandlesBelow_example = steps-HandlesBelow memory_device session volume-HandlesBelow

volume_allocator : IsPlaced volume.format.inode_allocator 6
volume_allocator = record { fits = omega arith; small = omega arith }

open_file-Opened_example :
    Returns
      (Opened memory-IsLawful 6 volume volume_store table-IsTable volume_allocator volume-Holds 0)
      (open_file_from_inode memory_device 0 volume)
unfolding bit_of test_bit
open_file-Opened_example =
    open_file-Opened memory-IsLawful 6 volume volume_store table-IsTable volume_allocator
      volume-Holds 0 volume-HandlesBelow (omega arith) (omega arith) refl (omega arith)
      (rw row_lem refl)

-- The handle is closed, and its file is opened again, with a new handle.
reopened : Volume MemoryDevice
reopened = record volume {
  format = record volume.format {
    next_file_id = 2;
    open_files = insert 1 (new 0 read_write) (remove 0 volume.format.open_files);
  };
}

reopening :
    FileSteps memory_device
      (record volume {
        format = record volume.format { open_files = remove 0 volume.format.open_files };
      })
      reopened
unfolding open_file_from_inode create_handle on_device is_allocated unpack_index test_bit read_block
    block_count read_inode deserialize read_field read_array from_le_bytes slice write_at reopened
    serialize write_fields to_le_bytes zero_block
reopening = step (opening 0 (omega arith) with_result) stop

stale_handle_example :
    (read memory_device 0 [] reopened ≡ err (file_not_open 0) reopened)
    × ((write memory_device 99 0 [] reopened ≡ err (file_not_open 0) reopened)
        × ((seek memory_device 0 (start 7) reopened ≡ err (file_not_open 0) reopened)
            × (truncate memory_device 99 0 0 reopened ≡ err (file_not_open 0) reopened)))
unfolding close_file
stale_handle_example =
    stale_handle memory_device 0 volume (omega arith) with_result reopening 99 0 [] (start 7)

other_handles_example :
    Keeps (Held (OthersKept memory_device 0 volume)) (read memory_device 0 (7 ∷ []) volume)
    × (Keeps (Held (OthersKept memory_device 0 volume)) (write memory_device 99 0 (7 ∷ []) volume)
        × (Keeps (Held (OthersKept memory_device 0 volume)) (seek memory_device 0 (start 7) volume)
            × Keeps
                (Held (OthersKept memory_device 0 volume))
                (truncate memory_device 99 0 5 volume)))
other_handles_example = other_handles memory_device 0 volume 99 5 (7 ∷ []) (start 7)

reads_end :
    (i : ℕ) (d : MemoryDevice)
    → Holds d volume_store 6
    → Ends
        (λ (b : Block) d'. (length b ≡ 256) × Holds d' volume_store 6)
        (memory_device.read_block i d)
unfolding read_block
reads_end i d h =
    by_cases (leb (block_count d) i) (λ e. rw e ends_err)
      λ e. rw e (ends_ok (ap length (h.same i) ∙ (h.block i).size, h))

read-Ends_example :
    Ends (λ _ v'. Holds v'.device volume_store 6) (read memory_device 0 (replicate 1000 0) volume)
read-Ends_example =
    read-Ends memory_device (λ d. Holds d volume_store 6) reads_end 0 (replicate 1000 0) volume
      volume-Holds
