-- ===== src/Format/Mounting.antt =====
-- `mount` of src/formats/v1/format.rs.
use ferris_file_system.Prelude.{ℕ, ◌<◌, ◌≡◌, ◌≢◌, refl, ap, ◌∙◌, true, false, arith, ◌==◌}
use ferris_file_system.FsError.{invalid_magic}
use ferris_file_system.Effect.Returns
use ferris_file_system.Effect.Returns.{Returns, Fails, returns, fails, bind-Fails}
use ferris_file_system.Device.{Store, IsLawful, BlockDevice, zero_block, magic_number}
use ferris_file_system.Device.Memory.Laws.{zero_block-IsBlock}
use ferris_file_system.Superblock.{Superblock}
use ferris_file_system.Superblock
use ferris_file_system.Superblock.RoundTrip.{InRange, superblock_round_trip}
use ferris_file_system.Format.{mount}

module _ {D : Type 0} {dev : BlockDevice D} (l : IsLawful dev) (n : ℕ) (f : Store) (s : Superblock)
    (ranges : InRange s) (d : D) (r : l.Represents d f n) (some_block : 0 < n)
    (written : f 0 ≡ Superblock.serialize s zero_block) where
  read_back : Superblock.deserialize (f 0) ≡ s
  read_back =
      ap Superblock.deserialize written
      ∙ superblock_round_trip s zero_block zero_block-IsBlock ranges

  -- Mounting a device whose first block is a superblock as `serialize` writes it, with the magic
  -- number and every field in the range of its type, succeeds with that superblock, and leaves the
  -- device's contents as they are.
  pub mount-serialize :
      s.magic ≡ magic_number
      → Returns (λ m d'. (m.superblock ≡ s) × l.Represents d' f n) (mount dev d)
  unfolding mount
  mount-serialize magic =
      let same : (s.magic == magic_number) ≡ true = ground (arith, magic) in
      Returns.bind (l.read_lem d f n 0 r some_block)
        λ buf d1 (got, r1). rw (got, read_back, same) (returns (refl, r1))

  -- With another magic number it fails with that number.
  mount_bad_magic :
      s.magic ≢ magic_number
      → Fails (invalid_magic magic_number s.magic) (λ d'. l.Represents d' f n) (mount dev d)
  unfolding mount
  mount_bad_magic magic =
      let other : (s.magic == magic_number) ≡ false = ground (arith, magic) in
      bind-Fails (l.read_lem d f n 0 r some_block)
        λ buf d1 (got, r1). rw (got, read_back, other) (fails r1)
