-- ===== src/Disktool/Tests.antt =====
-- The disk tool with one disk of 100 megabytes.
use ety_os.Base.{ℕ, ◌≡◌, arith, refl, ◌==◌, ◌&&◌, if◌then◌else◌, Option, none, some, pos}
use ety_os.Memory.{store}
use ety_os.Bytes.{Buffer}
use ety_os.Disk.{State, done, read, write}
use ety_os.Partition.Mbr.{find_slot, clear_entry}
use ety_os.Partition.Fat32.{format_fat32}
use ety_os.Partition.Create.{created, take_slot, create_partition, create_fat32_partition}
use ety_os.Partition.Tests.{ram, ram-Laws, boot, blank}
use ety_os.Disktool.{
  DiskInfo, Tool, made, deleted, fs_fat32, add_disk, probe, init_disktool, make_partition,
  create_partition_mb, delete_entry, delete_partition,
}
use ety_os.Disktool.Sizes.{IsTool, create_partition_mb-IsTool}
use ety_os.Disktool.Delete.{Deletion, delete_partition-Deletion}

abbrev info : DiskInfo
info = record { controller = 0; drive = 0; size_mb = 100; model = blank }

abbrev pub tool : Tool
tool = record { available_disks = λ i. info; num_disks = 1; current_disk = some 0 }

-- The primary master is the only drive.
abbrev pub identify : ℕ → ℕ → (ℕ → Buffer) → Option (ℕ → ℕ) × (ℕ → Buffer)
identify c d s = (if (c == 0) && (d == 0) then some (λ i. if i == 61 then 3 else 8192) else none, s)

tool-IsTool : IsTool tool
tool-IsTool i = omega arith

abbrev rescanned : Tool
rescanned = (init_disktool ram identify tool (λ l. blank)).0

ten_megabytes :
    (create_partition_mb ram identify 1000 5 tool 10 fs_fat32 boot).0
    ≡ done (made created, rescanned)
unfolding create_partition_mb make_partition create_fat32_partition create_partition take_slot
    find_slot format_fat32 read write init_disktool probe add_disk
ten_megabytes = refl

create_partition_mb-IsTool_example : IsTool rescanned × IsTool rescanned
create_partition_mb-IsTool_example =
    create_partition_mb-IsTool ram identify 1000 5 tool 10 fs_fat32 boot (made created) rescanned
      tool-IsTool ten_megabytes

-- Slot 0 is in use.
abbrev pub one_partition : State (ℕ → Buffer)
one_partition = record boot { drives = λ l. store blank 450 0x83 }

pub one_deleted : (delete_partition ram tool (pos 0) one_partition).0 ≡ done deleted
unfolding delete_partition delete_entry clear_entry read write
one_deleted = refl

delete_partition-Deletion_example :
    Deletion ram tool
      (pos 0)
      one_partition.drives
      (delete_partition ram tool (pos 0) one_partition).1.drives
delete_partition-Deletion_example =
    delete_partition-Deletion ram tool (pos 0) one_partition ram-Laws one_deleted
