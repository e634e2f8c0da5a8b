-- ===== src/Format/Files/Reading.antt =====
-- `read`, `seek` and the handles of open files.
use ferris_file_system.Prelude.{
  ℕ, ◌+◌, ◌-◌, ◌*◌, ◌<◌, ◌≤◌, ◌≡◌, refl, ◌^◌, inl, inr, true, false, some, List, arith, length, ltb,
  leb, ◌==◌, Bool-cases, add64,
}
use ferris_file_system.Effect.{ok, pure, ◌>>=◌}
use ferris_file_system.Effect.Returns
use ferris_file_system.Effect.Returns.{Returns, returns}
use ferris_file_system.Device.{Store, IsLawful, BlockDevice, block_size}
use ferris_file_system.InodeTable.{max_inode_index, read_inode}
use ferris_file_system.InodeTable.Rows.{IsTable, row, read_inode-row}
use ferris_file_system.OpenFiles.{FileMetadata, insert}
use ferris_file_system.Format.{Volume, on_device}
use ferris_file_system.Format.Running.{on_device_lem}
use ferris_file_system.Format.Files.{
  SeekFrom, start, end, current, add_signed, set_metadata, opened, read, seek,
}
use ferris_file_system.Format.Files.Contents.{IsFile}
use ferris_file_system.Format.Files.ReadLoop.{ReadFrom, read_loop_lem, read_nothing}

-- What the bits of an `i64` add to an offset. The result stops at 0.
pub data IsMove (bits : ℕ) : (ℕ → ℕ) → Type 0 where
  ahead : bits < 2 ^ 63 → IsMove bits (λ a. a + bits)
  back : (k : ℕ) → 0 < k → k ≤ 2 ^ 63 → bits ≡ 2 ^ 64 - k → IsMove bits (λ a. a - k)

add_signed-IsMove :
    (a bits : ℕ) (g : ℕ → ℕ) → IsMove bits g → a < 2 ^ 63 → g a < 2 ^ 63 → add_signed a bits ≡ g a
unfolding add_signed
add_signed-IsMove a bits g (ahead lt) small fits =
    let no_wrap : add64 a bits ≡ a + bits = omega (arith, lt, small) in
    let positive : leb (2 ^ 63) (a + bits) ≡ false = ground (arith, fits) in
    rw (no_wrap, positive) refl
add_signed-IsMove a bits g (back k pos le e) small fits = elim (Bool-cases (ltb a k)) [
  | inl less ↦
      let sum : add64 a bits ≡ a + (2 ^ 64 - k) = ground (arith, e, less, pos, le) in
      let negative : leb (2 ^ 63) (a + (2 ^ 64 - k)) ≡ true = ground (arith, le) in
      let stop : a - k ≡ 0 = ground (arith, less) in rw (sum, negative, stop) refl
  | inr more ↦
      let sum : add64 a bits ≡ a - k = ground (arith, e, more, pos, le, small) in
      let positive : leb (2 ^ 63) (a - k) ≡ false = ground (arith, small) in rw (sum, positive) refl
]

-- Where a seek leads to, in a file of some size whose handle has some offset.
pub data Target (size offset : ℕ) : SeekFrom → ℕ → Type 0 where
  from_start : (o : ℕ) → Target size offset (start o) o
  from_end :
      {bits : ℕ} {g : ℕ → ℕ}
      → IsMove bits g
      → size < 2 ^ 63
      → g size < 2 ^ 63
      → Target size offset (end bits) (g size)
  from_current :
      {bits : ℕ} {g : ℕ → ℕ}
      → IsMove bits g
      → offset < 2 ^ 63
      → g offset < 2 ^ 63
      → Target size offset (current bits) (g offset)

module _ {D : Type 0} {dev : BlockDevice D} (l : IsLawful dev) (n : ℕ) (v : Volume D) (f : Store)
    (table : IsTable v.format.inode_handler n) (r : l.Represents v.device f n) (id : ℕ)
    (md : FileMetadata) (known : v.format.open_files id ≡ some md) where
  pub opened_lem : opened id v ≡ ok md v
  unfolding opened
  opened_lem = rw (opened, known) refl

  -- `read` through an open handle, of a file whose size fits its blocks and whose blocks and addresses
  -- lie on the device, succeeds. It reads as many bytes as the buffer holds or as are left behind the
  -- handle's offset, whichever is less: these bytes of the file stand at the front of the buffer, the
  -- rest of the buffer is as it was, the handle's offset has moved by as much, and nothing else has
  -- changed.
  pub read-ReadFrom :
      (buf : List ℕ)
      → md.inode < max_inode_index v.format.inode_handler
      → (is : IsFile v.format n f (row v.format.inode_handler f md.inode))
      → Returns
          (ReadFrom l n table.small v.format f
            (row v.format.inode_handler f md.inode)
            is
            id
            md
            buf
            0
            v.format)
          (read dev id buf v)
  unfolding read
  read-ReadFrom buf lt is = elim (Bool-cases (length buf == 0)) [
    | inl e ↦
        rw (opened_lem, e)
          (returns (
            read_nothing l n table.small v.format f _ is id md buf 0 v r known
              (inl (ground (arith, e)))))
    | inr e ↦
        let i = row v.format.inode_handler f md.inode in
        let fits : ltb (i.blocks * block_size) i.size ≡ false = ground (arith, is.size_lem) in
        rw (opened_lem, e)
          (Returns.bind
            (on_device_lem (read_inode dev v.format.inode_handler md.inode) v
              (read_inode-row l v.format.inode_handler n table v.device f md.inode r lt))
            λ inode v1 (d1, e1, (got, r1)).
              rw (e1, got, fits)
                (read_loop_lem l n table.small v.format f i is id (length buf) md buf 0 _ _
                  (record { device = d1; format = v.format }) r1 known (omega arith)
                  λ lt1 lt2. (omega (arith, lt2, is.size_lem, is.blocks_lem), refl)))
  ]

  -- The handle's offset alone is changed.
  pub record Moved (to : ℕ) (result : ℕ) (v' : Volume D) : Type 0 where
    pub result_lem : result ≡ to
    pub holds : l.Represents v'.device f n
    pub format :
        v'.format
        ≡ record v.format { open_files = insert id (record md { offset = to }) v.format.open_files }

  -- The part of `seek` that reads the size.
  size_lem :
      (bits : ℕ) (g : ℕ → ℕ)
      → md.inode < max_inode_index v.format.inode_handler
      → IsMove bits g
      → (row v.format.inode_handler f md.inode).size < 2 ^ 63
      → g (row v.format.inode_handler f md.inode).size < 2 ^ 63
      → Returns
          (λ o v'.
            (d : D) × (v' ≡ record v { device = d })
            × ((o ≡ g (row v.format.inode_handler f md.inode).size) × l.Represents d f n))
          ((on_device (read_inode dev v.format.inode_handler md.inode) >>= λ inode.
              pure (add_signed inode.size bits))
            v)
  size_lem bits g lt move small fits =
      Returns.bind
        (on_device_lem (read_inode dev v.format.inode_handler md.inode) v
          (read_inode-row l v.format.inode_handler n table v.device f md.inode r lt))
        λ inode v1 (d1, e1, (got, r1)).
          rw (e1, got) (returns (d1, refl, (add_signed-IsMove _ bits g move small fits, r1)))

  -- `seek` through an open handle succeeds and returns the new offset: the one given, or that many bytes
  -- from the end of the file or from the present offset, forward or back, where going back stops at 0.
  -- The sizes and offsets are below `2^63`. The handle's offset alone is changed.
  pub seek-Target :
      (pos : SeekFrom) (to : ℕ)
      → md.inode < max_inode_index v.format.inode_handler
      → Target (row v.format.inode_handler f md.inode).size md.offset pos to
      → Returns (Moved to) (seek dev id pos v)
  unfolding seek set_metadata
  seek-Target (start to) _ lt (from_start _) =
      rw opened_lem (returns (record { result_lem = refl; holds = r; format = refl }))
  seek-Target (current bits) _ lt (from_current {g = g} move small fits) =
      rw (opened_lem, add_signed-IsMove md.offset bits g move small fits)
        (returns (record { result_lem = refl; holds = r; format = refl }))
  seek-Target (end bits) _ lt (from_end {g = g} move small fits) = rw opened_lem (
      Returns.bind (size_lem bits g lt move small fits) λ o v1 (d1, e1, (got, r1)).
        rw (e1, got) (returns (record { result_lem = refl; holds = r1; format = refl })))
