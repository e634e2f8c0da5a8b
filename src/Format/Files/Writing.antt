-- ===== src/Format/Files/Writing.antt =====
-- `write` into the blocks that a file has.
use ferris_file_system.Prelude.{
  ℕ, ◌+◌, ◌-◌, ◌*◌, ◌/◌, ◌%◌, ◌<◌, ◌≤◌, ◌≡◌, ◌≢◌, refl, sym, ap, ◌∙◌, fun_ext, ◌⊎◌, inr, false,
  some, List, arith, length, get_or, ltb, leb, ◌==◌, if◌then◌else◌, max, add64, sub64, u32_mod,
  u64_mod,
}
use ferris_file_system.Effect.Returns
use ferris_file_system.Effect.Returns.{Returns, returns}
use ferris_file_system.Device.{Block, Store, IsLawful, BlockDevice, block_size, zero_block}
use ferris_file_system.Device.Memory.Laws.{zero_block-IsBlock}
use ferris_file_system.Inode.{Inode, inodes_per_block, indirect_count, direct_count}
use ferris_file_system.Inode.RoundTrip.{InRange}
use ferris_file_system.InodeTable.{max_inode_index, read_inode, write_inode, read_address}
use ferris_file_system.InodeTable.Rows.{IsTable, Stored, row, read_inode-row, write_inode-Stored}
use ferris_file_system.InodeTable.Blocks.{block_at, entry_at}
use ferris_file_system.OpenFiles.{FileMetadata, insert}
use ferris_file_system.Format.{FormatV1, Volume}
use ferris_file_system.Format.Running.{on_device_lem}
use ferris_file_system.Format.Files.{get_format, finish_write, write}
use ferris_file_system.Format.Files.Contents.{byte_at, IsFile}
use ferris_file_system.Format.Files.Separation.{IsSeparate, byte_at-cell}
use ferris_file_system.Format.Files.WriteRound.{WriteFrom}
use ferris_file_system.Format.Files.WriteLoop.{write_loop_lem}
use ferris_file_system.Format.Files.Reading.{opened_lem}

-- The contents of a file depend on the blocks from `data_start` on alone.
byte_at_behind :
    (m : FormatV1) (f g : Store) (inode : Inode) (y : ℕ)
    → ((x : ℕ) → g (m.inode_handler.data_start + x) ≡ f (m.inode_handler.data_start + x))
    → byte_at m g inode y ≡ byte_at m f inode y
unfolding byte_at block_at entry_at
byte_at_behind m f g inode y same = ap by_blocks (fun_ext same)
  where
    by_blocks : (ℕ → Block) → ℕ
    by_blocks blocks =
        let index = y / block_size in
        let index1 = index - direct_count in
        let index2 = index1 - indirect_count in
        get_or
          (blocks (
            if ltb index direct_count
            then get_or inode.direct index 0
            else if ltb index1 indirect_count
            then read_address (blocks inode.indirect) (index1 * 4)
            else read_address
                (blocks (read_address (blocks inode.double) (index2 / indirect_count * 4)))
                (index2 % indirect_count * 4)))
          (y % block_size) 0

row_same :
    (m : FormatV1) (f g : Store) (n j : ℕ)
    → IsTable m.inode_handler n
    → j < max_inode_index m.inode_handler
    → ((i : ℕ)
        → i < m.inode_handler.inode_table_start + m.inode_handler.inode_table_blocks
        → g i ≡ f i)
    → row m.inode_handler g j ≡ row m.inode_handler f j
unfolding row
row_same m f g n j table lt same =
    let h = m.inode_handler in
    let below : h.inode_table_start + j / inodes_per_block
        < h.inode_table_start + h.inode_table_blocks =
      omega (arith, table.countable, lt) in
    rw (same (h.inode_table_start + j / inodes_per_block) below) refl

-- The inode that `write` stores.
abbrev pub written_inode : Inode → ℕ → ℕ → Inode
written_inode inode offset now = record inode { size = max inode.size offset; modified = now }

same_contents :
    (m : FormatV1) (g : Store) (inode : Inode) (offset now y : ℕ)
    → byte_at m g (written_inode inode offset now) y ≡ byte_at m g inode y
unfolding byte_at block_at
same_contents m g inode offset now y = refl

written_inode-InRange :
    (inode : Inode) (offset now : ℕ)
    → InRange inode
    → offset < u64_mod
    → now < u64_mod
    → InRange (written_inode inode offset now)
written_inode-InRange inode offset now ranges small_offset small_now = record {
  head = (omega (arith, ranges.head.0, small_offset), ranges.head.1);
  direct_length = ranges.direct_length;
  direct = ranges.direct;
  tail = (ranges.tail.0, (ranges.tail.1.0, (ranges.tail.1.1.0, (small_now, tt))));
}

module _ {D : Type 0} {dev : BlockDevice D} (l : IsLawful dev) (n : ℕ) (v : Volume D) (f : Store)
    (table : IsTable v.format.inode_handler n) (r : l.Represents v.device f n) (id : ℕ)
    (md : FileMetadata) (known : v.format.open_files id ≡ some md)
    (lt : md.inode < max_inode_index v.format.inode_handler) (now : ℕ) (buf : List ℕ) where
  abbrev old_inode : Inode
  old_inode = row v.format.inode_handler f md.inode

  abbrev final_offset : ℕ
  final_offset = md.offset + length buf

  -- What a file holds after a write.
  pub record Written (result : ℕ) (v' : Volume D) : Type 0 where
    pub count : result ≡ length buf
    pub store : Store
    pub holds : l.Represents v'.device store n
    pub inode_lem :
        row v.format.inode_handler store md.inode ≡ written_inode old_inode final_offset now
    pub other_inodes :
        (j : ℕ)
        → j < max_inode_index v.format.inode_handler
        → j ≢ md.inode
        → row v.format.inode_handler store j ≡ row v.format.inode_handler f j
    pub written :
        (j : ℕ)
        → j < length buf
        → byte_at v.format store (row v.format.inode_handler store md.inode) (md.offset + j)
          ≡ get_or buf j 0
    pub others :
        (y : ℕ)
        → y < old_inode.blocks * block_size
        → (y < md.offset) ⊎ (final_offset ≤ y)
        → byte_at v.format store (row v.format.inode_handler store md.inode) y
          ≡ byte_at v.format f old_inode y
    pub format : v'.format ≡ record v.format {
      open_files = insert id (record md { offset = final_offset }) v.format.open_files;
    }

  module _ (is : IsFile v.format n f old_inode) (sep : IsSeparate v.format f old_inode)
      (bytes : (i : ℕ) → get_or buf i 0 < 256) (fits : final_offset ≤ old_inode.blocks * block_size)
      (ranges : InRange old_inode) (small_now : now < u64_mod) where
    abbrev Rounds : ℕ × FileMetadata → Volume D → Type 0
    Rounds = WriteFrom l n table.small v.format f old_inode is sep id buf bytes md 0 f v.format

    Rounds-Written :
        (out : ℕ × FileMetadata) (v1 v2 : Volume D) (g : Store)
        → (rounds : Rounds out v1)
        → Stored v.format.inode_handler rounds.store md.inode
            (written_inode old_inode final_offset now)
            g
        → l.Represents v2.device g n
        → v2.format ≡ v1.format
        → Written out.0 v2
    Rounds-Written out v1 v2 g rounds stored r2 e =
        let h = v.format.inode_handler in
        let behind : (x : ℕ) → g (h.data_start + x) ≡ rounds.store (h.data_start + x) =
          λ x. stored.outside (h.data_start + x) (inr (omega (arith, sep.behind_table))) in
        let new = written_inode old_inode final_offset now in
        let total : md.offset + (length buf - 0) ≡ final_offset = omega arith in
        record {
          count = rounds.count;
          store = g;
          holds = r2;
          inode_lem = stored.written;
          other_inodes = λ j jlt ne.
              stored.others j ne
              ∙ row_same v.format f rounds.store n j table jlt
                  λ i below. rounds.same i λ k klt e'. omega (arith, e', below, sep.behind_table);
          written = λ j jlt.
              let zero_more : 0 + j ≡ j = omega arith in
              let y : md.offset + j < old_inode.blocks * block_size = omega (arith, jlt, fits) in
              ap (λ i. byte_at v.format g i (md.offset + j)) stored.written
              ∙ byte_at_behind v.format rounds.store g new (md.offset + j) behind
              ∙ same_contents v.format rounds.store old_inode final_offset now (md.offset + j)
              ∙ byte_at-cell v.format f old_inode sep rounds.store rounds.same (md.offset + j) y
              ∙ rounds.written j (omega (arith, jlt))
              ∙ ap (λ i. get_or buf i 0) zero_more;
          others = λ y ylt away.
              ap (λ i. byte_at v.format g i y) stored.written
              ∙ byte_at_behind v.format rounds.store g new y behind
              ∙ same_contents v.format rounds.store old_inode final_offset now y
              ∙ byte_at-cell v.format f old_inode sep rounds.store rounds.same y ylt
              ∙ rounds.others y ylt (ground (arith, away))
              ∙ sym (byte_at-cell v.format f old_inode sep f (λ j _. refl) y ylt);
          format =
              e
              ∙ rounds.format
              ∙ ap (λ x. record v.format { open_files = insert id x v.format.open_files })
                  (rounds.offset ∙ ap (λ o. record md { offset = o }) total);
        }

    finish_lem :
        (out : ℕ × FileMetadata) (v1 : Volume D)
        → Rounds out v1
        → Returns Written (finish_write dev now false old_inode out v1)
    unfolding finish_write
    finish_lem out v1 rounds =
        let handler : v1.format.inode_handler ≡ v.format.inode_handler =
          ap (λ (w : FormatV1). w.inode_handler) rounds.format in
        let total : md.offset + (length buf - 0) ≡ final_offset = omega arith in
        let small : final_offset < u64_mod = omega (arith, fits, is.blocks_lem) in
        let new = written_inode old_inode final_offset now in
        let stores : Returns
            (λ _ d'.
              (g : Store) × Stored v.format.inode_handler rounds.store md.inode new g
              × l.Represents d' g n)
            (write_inode dev v1.format.inode_handler md.inode new v1.device) =
          rw handler (
            write_inode-Stored l v.format.inode_handler n table v1.device rounds.store md.inode new
              rounds.holds lt
              (written_inode-InRange old_inode final_offset now ranges small small_now)) in
        rw (rounds.offset, total)
          (Returns.bind
            (on_device_lem (write_inode dev v1.format.inode_handler md.inode new) v1 stores)
            λ _ v2 (d2, e2, (g, stored, r2)).
              rw e2 (returns (Rounds-Written out v1 _ g rounds stored r2 refl)))

    -- `write` of at least one byte through an open handle, inside the blocks that the file has,
    -- succeeds with the length of the buffer. Afterwards the file holds the buffer's bytes from the
    -- handle's offset on and its old bytes elsewhere, its size has grown to the end of what was
    -- written if that lies behind the old size, its time of modification is the present one, every
    -- other inode is as it was, and the handle's offset is behind what was written. The blocks of the
    -- file are on the device, different from each other and from those of its addresses, and behind
    -- the table of inodes.
    pub write-Written : 0 < length buf → Returns Written (write dev now id buf v)
    unfolding write get_format
    write-Written some_byte =
        let full : (length buf == 0) ≡ false = ground (arith, some_byte) in
        let last = sub64 (add64 md.offset (length buf)) 1 / block_size % u32_mod in
        let enough : leb old_inode.blocks last ≡ false =
          ground (arith, some_byte, fits, is.blocks_lem) in
        rw (opened_lem l n v f table r id md known, full)
          (Returns.bind
            (on_device_lem (read_inode dev v.format.inode_handler md.inode) v
              (read_inode-row l v.format.inode_handler n table v.device f md.inode r lt))
            λ inode v1 (d1, e1, (got, r1)).
              rw (e1, got, enough)
                (Returns.bind
                  (write_loop_lem l n table.small v.format f old_inode is sep id buf bytes
                    (length buf) md zero_block 0 _ _ f (record { device = d1; format = v.format })
                    r1 (λ j _. refl) known (omega arith) (omega arith) (omega (arith, fits))
                    zero_block-IsBlock λ _. (omega (arith, fits, is.blocks_lem, some_byte), refl))
                  λ out v2 rounds. finish_lem out v2 rounds))
