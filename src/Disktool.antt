-- ===== src/Disktool.antt =====
-- source/implementation/x86_64/disktool.c, and `read_string_from_identify` of filesystem.c.
--
-- `available_disks`, `num_disks` and `current_disk` are a record; -1 in `current_disk` is `none`.
-- The message that a call ends with is its reply. `identify` is a parameter: one
-- IDENTIFY command, with `none` where the status is 0 and the 256 words read otherwise, as
-- Ata/Identify has it.
pub mod Tests
pub mod Sizes
pub mod Delete
use ety_os.Base.{
  ℕ, zero, suc, ◌+◌, ◌-◌, ◌*◌, ◌/◌, ◌%◌, ◌^◌, Bool, true, false, Option, none, some, ◌==◌, ltb, leb,
  if◌then◌else◌, ℤ, pos, negsuc,
}
use ety_os.Memory.{Ptr, store}
use ety_os.Bytes.{Buffer}
use ety_os.Disk.{Disk, State, Cmd, Outcome, done, ◌>>=◌, ◌>>◌, pure, attempt, read, write}
use ety_os.Partition.Mbr.{sector_size, entry_type, entry_lba_first, entry_sector_count, clear_entry}
use ety_os.Partition.Ext4.{add32, sub32, mul32, format_ext4}
use ety_os.Partition.Fat32.{format_fat32}
use ety_os.Partition.Create.{Ending, create_ext4_partition, create_fat32_partition}

pub record DiskInfo : Type 0 where
  pub controller : ℕ
  pub drive : ℕ
  pub size_mb : ℕ
  pub model : Buffer

pub record Tool : Type 0 where
  pub available_disks : ℕ → DiskInfo
  pub num_disks : ℕ
  pub current_disk : Option ℕ

pub data FileSystemType : Type 0 where
  fs_fat32 : FileSystemType
  fs_ext4 : FileSystemType

pub data Reply : Type 0 where
  no_disk_selected : Reply
  invalid_disk_index : Reply
  selected : Reply
  exceeds_capacity : Reply
  too_small : Reply
  made : Ending → Reply
  invalid_partition_index : Reply
  error_reading_mbr : Reply
  no_such_partition : Reply
  error_writing_mbr : Reply
  deleted : Reply
  format_failed : Reply
  formatted : Reply

-- `MB_TO_SECTORS`, of a `uint32_t`.
abbrev pub mb_to_sectors : ℕ → ℕ
mb_to_sectors mb = mul32 mb (1024 * 1024) / sector_size

read_string_loop : ℕ → ℕ → ℕ → (ℕ → ℕ) → Buffer → Buffer
read_string_loop zero i j identify_buffer output = store output j 0
read_string_loop (suc left) i j identify_buffer output =
    read_string_loop left (i + 1) (j + 2) identify_buffer
      (store (store output j (identify_buffer i / 256 % 256)) (j + 1) (identify_buffer i % 256))

unfoldable pub read_string_from_identify : (ℕ → ℕ) → ℕ → ℕ → Buffer → Buffer
unfolding read_string_loop
read_string_from_identify identify_buffer start end output =
    read_string_loop (end + 1 - start) start 0 identify_buffer output

-- `total_sectors * SECTOR_SIZE` is a product of 32 bits.
unfoldable pub identified_size : (ℕ → ℕ) → ℕ
identified_size identify_buffer =
    let total_sectors = (identify_buffer 60 + 65536 * identify_buffer 61) % 2 ^ 32 in
    mul32 total_sectors sector_size / (1024 * 1024)

unfoldable pub add_disk : ℕ → ℕ → (ℕ → ℕ) → Tool → Tool
add_disk controller drive identify_buffer t =
    let n = t.num_disks in
    let disk : DiskInfo = record {
      controller = controller;
      drive = drive;
      size_mb = identified_size identify_buffer;
      model = read_string_from_identify identify_buffer 27 46 (t.available_disks n).model;
    } in
    record t {
      available_disks = λ i. if i == n then disk else t.available_disks i;
      num_disks = n + 1;
    }

unfoldable pub select_disk : ℤ → Tool → Reply × Tool
select_disk (negsuc n) t = (invalid_disk_index, t)
select_disk (pos n) t =
    if leb t.num_disks n
    then (invalid_disk_index, t)
    else (selected, record t { current_disk = some n })

module _ (disk : Disk) where
  open disk use {Drives}

  module _ (free_list : Ptr) (fuel : ℕ) where
    -- What `create_partition_mb` and `format_disk` both call.
    unfoldable pub make_partition : FileSystemType → DiskInfo → ℕ → Cmd Drives Ending
    make_partition fs_fat32 info sector_count =
        create_fat32_partition disk info.controller info.drive 2048 sector_count
    make_partition fs_ext4 info sector_count =
        create_ext4_partition disk info.controller info.drive free_list fuel 2048 sector_count

    unfoldable pub format_disk : Tool → FileSystemType → Cmd Drives Reply
    format_disk t fs_type = elim t.current_disk [
      | none ↦ pure no_disk_selected
      | some current ↦
          let info = t.available_disks current in
          let total_size_mb = info.size_mb % 2 ^ 32 in
          let sector_count = sub32 (mb_to_sectors total_size_mb) 2048 in
          if ltb total_size_mb 32
          then pure too_small
          else (do ending ← make_partition fs_type info sector_count; pure (made ending))
    ]

    -- `partition_index` is not checked.
    unfoldable pub format_partition : Tool → ℕ → FileSystemType → Cmd Drives Reply
    format_partition t i fs_type = elim t.current_disk [
      | none ↦ pure no_disk_selected
      | some current ↦ do
        let info = t.available_disks current
        loaded ← attempt (read disk info.controller info.drive 0)
        elim loaded [
          | none ↦ pure error_reading_mbr
          | some mbr ↦ if entry_type mbr i == 0 then pure no_such_partition else (do
            result ← attempt (format_entry info mbr i fs_type)
            pure (elim result [ none ↦ format_failed | some _ ↦ formatted ]))
        ]
    ]
      where
        format_entry : DiskInfo → Buffer → ℕ → FileSystemType → Cmd Drives (Unit {0})
        format_entry info mbr i' fs_fat32 =
            format_fat32 disk info.controller info.drive (entry_lba_first mbr i')
              (entry_sector_count mbr i')
        format_entry info mbr i' fs_ext4 =
            format_ext4 disk info.controller info.drive free_list fuel (entry_lba_first mbr i')
              (entry_sector_count mbr i')

  unfoldable pub delete_entry : DiskInfo → ℕ → Cmd Drives Reply
  delete_entry info i = do
    loaded ← attempt (read disk info.controller info.drive 0)
    elim loaded [
      | none ↦ pure error_reading_mbr
      | some mbr ↦ if entry_type mbr i == 0 then pure no_such_partition else (do
        written ← attempt (write disk info.controller info.drive 0 (clear_entry 16 0 i mbr))
        pure (elim written [ none ↦ error_writing_mbr | some _ ↦ deleted ]))
    ]

  unfoldable pub delete_partition : Tool → ℤ → Cmd Drives Reply
  delete_partition t index = elim t.current_disk [
    | none ↦ pure no_disk_selected
    | some current ↦ elim index [
      | negsuc n ↦ pure invalid_partition_index
      | pos i ↦
          if leb 4 i
          then pure invalid_partition_index
          else delete_entry (t.available_disks current) i
    ]
  ]

  module _ (identify : ℕ → ℕ → Drives → Option (ℕ → ℕ) × Drives) where
    unfoldable pub probe : ℕ → ℕ → Tool × Drives → Tool × Drives
    probe controller drive (t, d) =
        let (words, d') = identify controller drive d in
        (elim words [ none ↦ t | some buffer ↦ add_disk controller drive buffer t ], d')

    -- The two loops over the controllers and their drives.
    unfoldable pub init_disktool : Tool → Drives → Tool × Drives
    init_disktool t d =
        probe 1 1 (probe 1 0 (probe 0 1 (probe 0 0 (record t { num_disks = 0 }, d))))

    -- The disks are scanned again at the end.
    unfoldable pub create_partition_mb :
        Ptr → ℕ → Tool → ℕ → FileSystemType → Cmd Drives (Reply × Tool)
    create_partition_mb free_list fuel t size_mb fs_type = elim t.current_disk [
      | none ↦ pure (no_disk_selected, t)
      | some current ↦
          let info = t.available_disks current in
          if ltb info.size_mb size_mb then pure (exceeds_capacity, t) else (do
            ending ← make_partition free_list fuel fs_type info (mb_to_sectors size_mb)
            λ s.
                let (t', d) = init_disktool t s.drives in
                (done (made ending, t'), record s { drives = d }))
    ]
