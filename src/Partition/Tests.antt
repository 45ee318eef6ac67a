-- ===== src/Partition/Tests.antt =====
-- The formats and the create commands on a drive whose sectors are a function of the LBA.
use ety_os.Base.{
  ℕ, ◌+◌, ◌-◌, ◌*◌, ◌/◌, ◌≤◌, ◌≡◌, inl, arith, refl, ◌==◌, if◌then◌else◌, true, some, subst, ap,
  ◌^◌, some_inj, eq→==, ne→==,
}
use ety_os.Bytes.{Buffer, IsSector, sector_bytes, get32}
use ety_os.Bytes.Fields.{sector_bytes-IsSector, sector_bytes_self}
use ety_os.Allocator.{null, memory_allocator_init, allocate}
use ety_os.Allocator.Chain.{node}
use ety_os.Disk.{Disk, State, done, read, write}
use ety_os.Disk.Laws.{Laws, sector, Leaves}
use ety_os.Partition.Mbr.{find_slot}
use ety_os.Partition.Mbr.Entries.{Slot, find_slot-Slot}
use ety_os.Partition.Ext4.{init_superblock, group_first_block, bitmap_sector, format_ext4}
use ety_os.Partition.Ext4.Superblock.{IsSuperblock, init_superblock-IsSuperblock}
use ety_os.Partition.Ext4.Groups.{bitmap_sector_wraps}
use ety_os.Partition.Ext4.Overrun.{format_ext4-Overrun}
use ety_os.Partition.Ext4.Within.{format_ext4-Leaves}
use ety_os.Partition.Fat32.{sectors_per_fat, first_fat_sector, format_fat32}
use ety_os.Partition.Fat32.Writes.{
  IsBootSector, sectors_per_fat_lem, format_fat32-Leaves, format_fat32-done,
}
use ety_os.Partition.Create.{
  created, no_slot, take_slot, create_partition, create_fat32_partition, create_ext4_partition,
  ext4_partition_type, fat32_partition_type,
}
use ety_os.Partition.Create.Endings.{Ended}
use ety_os.Partition.Create.Slots.{create_fat32_partition-Ended, create_ext4_partition-Ended}

abbrev pub ram : Disk
ram = record {
  Drives = ℕ → Buffer;
  read_sector = λ c d l s. (some (sector_bytes (s l)), s);
  write_sector = λ c d l b s. (true, λ k. if k == l then b else s k);
}

pub ram-Laws : Laws ram (2 ^ 32)
ram-Laws = record {
  after_read = λ c d l k s. refl;
  read_bytes = λ c d l s b e. subst IsSector (some_inj e) (sector_bytes-IsSector (s l));
  after_write = λ c d l b s is e. rw (eq→== l l refl) (ap some (sector_bytes_self is));
  other_write = λ c d l k b s hl hk ne. rw (ne→== k l ne) refl;
}

abbrev pub blank : Buffer
blank i = 0

abbrev pub boot : State (ℕ → Buffer)
boot = record { drives = λ l. blank; heap = memory_allocator_init 1000 (λ a. node 0 0 0) }

-- Every slot is in use.
abbrev full : State (ℕ → Buffer)
full = record boot { drives = λ l i. 1 }

find_slot-Slot_example : Slot 0 4 blank (find_slot 4 0 blank)
find_slot-Slot_example = find_slot-Slot 4 0 4 blank refl

init_superblock-IsSuperblock_example : IsSuperblock 20480 (init_superblock 20480 blank)
init_superblock-IsSuperblock_example =
    init_superblock-IsSuperblock 20480 blank (omega arith) (omega arith)

bitmap_sector_wraps_example :
    bitmap_sector 2048 (group_first_block 0 (3 + 32)) ≡ bitmap_sector 2048 (group_first_block 0 3)
bitmap_sector_wraps_example = bitmap_sector_wraps 2048 3

format_ext4-Overrun_example :
    let after = (format_ext4 ram 0 0 1000 5 2048 20480 boot).1.heap in
    allocate 1000 5 513 after ≡ some (null, after)
format_ext4-Overrun_example =
    format_ext4-Overrun ram 1000 2 0 0 2048 20480 boot (λ a. node 0 0 0) 513 (omega arith)
      (omega arith) refl refl (omega arith)

format_ext4-Leaves_example : Leaves ram 0 0 0 (format_ext4 ram 0 0 1000 5 2048 20480)
format_ext4-Leaves_example =
    format_ext4-Leaves ram 0 0 1000 5 2048 20480 0 ram-Laws (omega arith) (omega arith)
      (omega arith) (inl (omega arith))

sectors_per_fat_lem_example :
    let fat = sectors_per_fat 20480 in
    (1 ≤ fat) × (32 + 2 * fat ≤ 20480) × ((20480 - 32 - 2 * fat) / 8 + 2 ≤ 128 * fat)
sectors_per_fat_lem_example = sectors_per_fat_lem 20480 (omega arith) (omega arith)

format_fat32-Leaves_example : Leaves ram 0 0 0 (format_fat32 ram 0 0 2048 20480)
format_fat32-Leaves_example =
    format_fat32-Leaves ram 0 0 2048 20480 0 ram-Laws (omega arith) (omega arith) (omega arith)
      (omega arith) (inl (omega arith))

fat32_returns : (format_fat32 ram 0 0 2048 20480 boot).0 ≡ done tt
unfolding format_fat32 write
fat32_returns = refl

format_fat32-done_example :
    let after = (format_fat32 ram 0 0 2048 20480 boot).1.drives in
    (b : Buffer) × (sector ram 0 0 2048 after ≡ some b)
    × IsBootSector 2048 20480 b
    × (sector ram 0 0 2080 after ≡ some first_fat_sector)
    × (sector ram 0 0 (2080 + get32 b 36) after ≡ some first_fat_sector)
format_fat32-done_example =
    format_fat32-done ram 0 0 2048 20480 boot ram-Laws (omega arith) (omega arith) (omega arith)
      fat32_returns

fat32_created : (create_fat32_partition ram 0 0 2048 20480 boot).0 ≡ done created
unfolding create_fat32_partition create_partition take_slot find_slot format_fat32 read write
fat32_created = refl

create_fat32_partition-Ended_example :
    Ended ram 0 0 fat32_partition_type 2048 20480
      (format_fat32 ram 0 0 2048 20480)
      (sector ram 0 0 0 boot.drives)
      created
      (sector ram 0 0 0 (create_fat32_partition ram 0 0 2048 20480 boot).1.drives)
create_fat32_partition-Ended_example =
    create_fat32_partition-Ended ram 0 0 2048 20480 boot created ram-Laws (omega arith)
      (omega arith) (omega arith) (omega arith) fat32_created

ext4_no_slot : (create_ext4_partition ram 0 0 1000 5 2048 20480 full).0 ≡ done no_slot
unfolding create_ext4_partition create_partition find_slot read
ext4_no_slot = refl

create_ext4_partition-Ended_example :
    Ended ram 0 0 ext4_partition_type 2048 20480
      (format_ext4 ram 0 0 1000 5 2048 20480)
      (sector ram 0 0 0 full.drives)
      no_slot
      (sector ram 0 0 0 (create_ext4_partition ram 0 0 1000 5 2048 20480 full).1.drives)
create_ext4_partition-Ended_example =
    create_ext4_partition-Ended ram 0 0 1000 5 2048 20480 full no_slot ram-Laws (omega arith)
      (omega arith) (omega arith) ext4_no_slot
