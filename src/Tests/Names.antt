-- ===== src/Tests/Names.antt =====
-- The theorem on the operations on names at a device of six blocks with an open file.
use ferris_file_system.Prelude.{none, [], ◌∷◌}
use ferris_file_system.Effect.Keeps.{Keeps}
use ferris_file_system.Device.Memory.{memory_device}
use ferris_file_system.File.{file}
use ferris_file_system.Format.Children.{create_child, delete_child}
use ferris_file_system.Format.Paths.{
  create, create_symlink, create_hardlink, edit_symlink, delete, create_child_hardlink,
}
use ferris_file_system.Format.Paths.Untouched.{SameHandles, names_keep_handles}
use ferris_file_system.Tests.Files.{volume, two_blocks}

-- `/a` and `/b`, from the root at inode 0.
names_keep_handles_example :
    Keeps (SameHandles volume) (create memory_device 5 (47 ∷ 97 ∷ []) file volume)
    × Keeps
        (SameHandles volume)
        (create_symlink memory_device 5 6 (47 ∷ 97 ∷ []) (47 ∷ 98 ∷ []) volume)
    × Keeps
        (SameHandles volume)
        (create_hardlink memory_device 5 (47 ∷ 98 ∷ []) (47 ∷ 97 ∷ []) volume)
    × Keeps (SameHandles volume) (edit_symlink memory_device 5 (47 ∷ 97 ∷ []) (47 ∷ 98 ∷ []) volume)
    × Keeps (SameHandles volume) (delete memory_device 5 (47 ∷ 97 ∷ []) volume)
    × Keeps (SameHandles volume) (create_child memory_device 5 file (47 ∷ 97 ∷ []) 0 volume)
    × Keeps
        (SameHandles volume)
        (create_child_hardlink memory_device 5 two_blocks 0 (47 ∷ 97 ∷ []) two_blocks 0 volume)
    × Keeps (SameHandles volume) (delete_child memory_device 5 (47 ∷ 97 ∷ []) 0 none volume)
names_keep_handles_example =
    names_keep_handles memory_device volume 5 6 (47 ∷ 97 ∷ []) (47 ∷ 98 ∷ []) file none two_blocks
      two_blocks 0 0
