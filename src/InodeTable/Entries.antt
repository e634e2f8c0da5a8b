-- ===== src/InodeTable/Entries.antt =====
-- A block of addresses of src/formats/v1/inode_handler.rs after one entry is written.
use ferris_file_system.Prelude.{ℕ, ◌+◌, ◌*◌, ◌^◌, ◌<◌, ◌≡◌, true, arith, ◌==◌}
use ferris_file_system.Device.{Store, IsBlock, update}
use ferris_file_system.Codec.Fields.{read_field-write_at, read_field-write_at_before}
use ferris_file_system.Inode.{indirect_count}
use ferris_file_system.InodeTable.{InodeTableHandler, write_address}
use ferris_file_system.InodeTable.Blocks.{entry_at}

-- The store with the entry written.
unfoldable pub with_entry : InodeTableHandler → Store → ℕ → ℕ → ℕ → Store
with_entry h f address i block =
    update f (h.data_start + address) (write_address (f (h.data_start + address)) (i * 4) block)

module _ (h : InodeTableHandler) (f : Store) (ib : (i : ℕ) → IsBlock (f i)) where
  pub entry_at-with_entry :
      (address i block : ℕ)
      → i < indirect_count
      → block < 256 ^ 4
      → entry_at h (with_entry h f address i block) address i ≡ block
  unfolding entry_at with_entry update
  entry_at-with_entry address i block lt small =
      let self : (h.data_start + address == h.data_start + address) ≡ true = ground arith in
      rw self (
        read_field-write_at (f (h.data_start + address)) (i * 4) 4 block
          (omega (arith, (ib (h.data_start + address)).size)) small)

  -- The entries before it stay.
  pub entry_at-with_entry_before :
      (address i j block : ℕ)
      → j < i
      → entry_at h (with_entry h f address i block) address j ≡ entry_at h f address j
  unfolding entry_at with_entry update
  entry_at-with_entry_before address i j block lt =
      let self : (h.data_start + address == h.data_start + address) ≡ true = ground arith in
      rw self
        (read_field-write_at_before (f (h.data_start + address)) (i * 4) _ (j * 4) 4 (omega arith))
