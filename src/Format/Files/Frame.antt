-- ===== src/Format/Files/Frame.antt =====
-- The handles that an operation is not about.
use ferris_file_system.Prelude.{ℕ, ◌≡◌, ◌≢◌, refl, false, List, arith, ◌==◌}
use ferris_file_system.Effect.Keeps.{Keeps}
use ferris_file_system.Device.{BlockDevice}
use ferris_file_system.OpenFiles.{FileMetadata, Table, insert}
use ferris_file_system.Format.{Volume}
use ferris_file_system.Format.Files.{SeekFrom, read, write, seek, truncate}
use ferris_file_system.Format.Files.Handles.{
  Held, read_keeps, write_keeps, seek_keeps, truncate_keeps,
}

module _ {D : Type 0} (dev : BlockDevice D) (id : ℕ) (v : Volume D) where
  abbrev pub OthersKept : ℕ → Table → Type 0
  OthersKept next t =
      (next ≡ v.format.next_file_id) × ((j : ℕ) → id ≢ j → t j ≡ v.format.open_files j)

  moves_kept :
      (next : ℕ) (t : Table) (md : FileMetadata)
      → OthersKept next t
      → OthersKept next (insert id md t)
  unfolding insert
  moves_kept next t md (same, others) =
      (same, λ j ne. let other : (id == j) ≡ false = ground (arith, ne) in rw other (others j ne))

  -- `read`, `write`, `seek` and `truncate` on one handle leave the metadata of every other handle as
  -- they are, and the next handle too, whether they succeed or fail.
  pub other_handles :
      (now size : ℕ) (buf : List ℕ) (pos : SeekFrom)
      → Keeps (Held OthersKept) (read dev id buf v)
        × (Keeps (Held OthersKept) (write dev now id buf v)
            × (Keeps (Held OthersKept) (seek dev id pos v)
                × Keeps (Held OthersKept) (truncate dev now id size v)))
  other_handles now size buf pos =
      let k : OthersKept v.format.next_file_id v.format.open_files = (refl, λ j ne. refl) in
      (
        read_keeps dev OthersKept id moves_kept buf v k,
        (
          write_keeps dev OthersKept id moves_kept now buf v k,
          (
            seek_keeps dev OthersKept id moves_kept pos v k,
            truncate_keeps dev OthersKept id moves_kept now size v k,
          ),
        ),
      )
