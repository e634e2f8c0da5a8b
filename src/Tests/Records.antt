-- ===== src/Tests/Records.antt =====
-- The theorems on the records of the disk and on the table of inodes, at concrete values.
use ferris_file_system.Prelude.{◌≡◌, refl, ◌==◌, if◌then◌else◌, ◌∷◌, arith, replicate}
use ferris_file_system.Effect.{◌>>◌}
use ferris_file_system.Effect.Returns.{Returns}
use ferris_file_system.Device.{Store}
use ferris_file_system.Device.Memory.{memory_device}
use ferris_file_system.Device.Memory.Laws.{Holds, memory-IsLawful}
use ferris_file_system.File.{file}
use ferris_file_system.Inode.{Inode}
use ferris_file_system.Inode.RoundTrip.{InRange}
use ferris_file_system.InodeTable.{InodeTableHandler, read_inode, write_inode}
use ferris_file_system.InodeTable.Rows.{
  IsTable, row, Stored, write_inode-Stored, read_inode-write_inode,
}
use ferris_file_system.Tests.{disk, disk_store, disk-Holds}

abbrev inode : Inode
inode = record {
  size = 700;
  file_type = file;
  permissions = 420;
  direct = 3 ∷ 4 ∷ 5 ∷ replicate 9 4294967295;
  indirect = 4294967295;
  double = 4294967295;
  created = 1700000000;
  modified = 1700000001;
  links = 1;
  blocks = 3;
}

inode-InRange : InRange inode
inode-InRange = record {
  head = (
    omega arith,
    (omega arith, (omega arith, (omega arith, (omega arith, (omega arith, (omega arith, tt)))))),
  );
  direct_length = refl;
  direct = (
    omega arith,
    (
      omega arith,
      (
        omega arith,
        (
          omega arith,
          (
            omega arith,
            (
              omega arith,
              (
                omega arith,
                (omega arith, (omega arith, (omega arith, (omega arith, (omega arith, tt))))),
              ),
            ),
          ),
        ),
      ),
    ),
  );
  tail = (omega arith, (omega arith, (omega arith, (omega arith, tt))));
}

abbrev table : InodeTableHandler
table = record { inode_table_start = 1; inode_table_blocks = 2; data_start = 3 }

table-IsTable : IsTable table 3
table-IsTable = record { fits = omega arith; small = omega arith; countable = omega arith }

write_inode-Stored_example :
    Returns
      (λ _ d'. (g : Store) × Stored table disk_store 3 inode g × Holds d' g 3)
      (write_inode memory_device table 3 inode disk)
write_inode-Stored_example =
    write_inode-Stored memory-IsLawful table 3 table-IsTable disk disk_store 3 inode disk-Holds
      (omega arith) inode-InRange

read_inode-write_inode_example :
    Returns
      (λ i d'. i ≡ (if 2 == 3 then inode else row table disk_store 2))
      ((write_inode memory_device table 3 inode >> read_inode memory_device table 2) disk)
read_inode-write_inode_example =
    read_inode-write_inode memory-IsLawful table 3 table-IsTable disk disk_store 3 2 inode
      disk-Holds (omega arith) (omega arith) inode-InRange
