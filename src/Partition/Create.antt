-- ===== src/Partition/Create.antt =====
-- `create_ext4_partition` and `create_fat32_partition` of partition.c.
--
-- The message that a call ends with is its result. `failed` does not occur: the functions return
-- no error to their caller.
pub mod Endings
pub mod Slots
use ety_os.Base.{ℕ, Option, none, some}
use ety_os.Memory.{Ptr}
use ety_os.Bytes.{Buffer}
use ety_os.Disk.{Disk, Cmd, ◌>>=◌, ◌>>◌, pure, attempt, read, write}
use ety_os.Partition.Mbr.{find_slot, set_entry}
use ety_os.Partition.Ext4.{format_ext4}
use ety_os.Partition.Fat32.{format_fat32}

abbrev pub ext4_partition_type : ℕ
ext4_partition_type = 0x83

abbrev pub fat32_partition_type : ℕ
fat32_partition_type = 0x0C

pub data Ending : Type 0 where
  mbr_unreadable : Ending
  no_slot : Ending
  mbr_unwritable : Ending
  unformatted : Ending
  created : Ending

module _ (disk : Disk) (controller drive : ℕ) where
  open disk use {Drives}

  -- What both functions share: the MBR, the first empty slot, the write of the MBR and then
  -- the format.
  unfoldable pub take_slot : ℕ → ℕ → ℕ → Cmd Drives (Unit {0}) → ℕ → Buffer → Cmd Drives Ending
  take_slot kind start_lba sector_count format i mbr = do
    written ← attempt (write disk controller drive 0 (set_entry i kind start_lba sector_count mbr))
    elim written [
      | none ↦ pure mbr_unwritable
      | some _ ↦ do
        formatted ← attempt format
        pure (elim formatted [ none ↦ unformatted | some _ ↦ created ])
    ]

  unfoldable pub create_partition : ℕ → ℕ → ℕ → Cmd Drives (Unit {0}) → Cmd Drives Ending
  create_partition kind start_lba sector_count format = do
    loaded ← attempt (read disk controller drive 0)
    elim loaded [
      | none ↦ pure mbr_unreadable
      | some mbr ↦ elim (find_slot 4 0 mbr) [
        | none ↦ pure no_slot
        | some i ↦ take_slot kind start_lba sector_count format i mbr
      ]
    ]

  unfoldable pub create_ext4_partition : Ptr → ℕ → ℕ → ℕ → Cmd Drives Ending
  create_ext4_partition free_list fuel start_lba sector_count =
      create_partition ext4_partition_type start_lba sector_count
        (format_ext4 disk controller drive free_list fuel start_lba sector_count)

  unfoldable pub create_fat32_partition : ℕ → ℕ → Cmd Drives Ending
  create_fat32_partition start_lba sector_count =
      create_partition fat32_partition_type start_lba sector_count
        (format_fat32 disk controller drive start_lba sector_count)
