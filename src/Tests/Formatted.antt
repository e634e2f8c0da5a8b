-- ===== src/Tests/Formatted.antt =====
-- The theorem on `format` of src/formats/v1/format.rs at a device of six empty blocks.
use ferris_file_system.Prelude.{◌≡◌, [], ◌∷◌, List, arith}
use ferris_file_system.Effect.{◌>>◌}
use ferris_file_system.Effect.Returns.{Returns}
use ferris_file_system.Device.{Block, Store, zero_block}
use ferris_file_system.Device.Memory.{MemoryDevice, memory_device}
use ferris_file_system.Device.Memory.Laws.{Holds, memory-IsLawful, zero_block-IsBlock}
use ferris_file_system.Format.{mount}
use ferris_file_system.Format.Formatting.{layout_for, format}
use ferris_file_system.Format.Formatting.Placement.{formatted}
use ferris_file_system.Format.Formatting.Formatted.{Formatted, mount-format}
use ferris_file_system.Tests.{store_of, of_blocks-Holds}

abbrev six_blocks : List Block
six_blocks = zero_block ∷ zero_block ∷ zero_block ∷ zero_block ∷ zero_block ∷ zero_block ∷ []

abbrev pub empty_disk : MemoryDevice
empty_disk = record { blocks = six_blocks }

empty_disk-Holds : Holds empty_disk (store_of six_blocks) 6
empty_disk-Holds =
    let z = zero_block-IsBlock in
    of_blocks-Holds six_blocks (z, (z, (z, (z, (z, (z, tt)))))) (omega arith)

mount-format_example :
    Returns
      (λ m d'.
        (m.superblock ≡ formatted (layout_for 6))
        × ((g : Store) × Formatted (layout_for 6) 1700000000 g × Holds d' g 6))
      ((format memory_device 1700000000 >> mount memory_device) empty_disk)
mount-format_example =
    mount-format memory-IsLawful 6 (omega arith) (omega arith) 1700000000 (omega arith) empty_disk
      (store_of six_blocks) empty_disk-Holds
