-- ===== src/Partition/Fat32.antt =====
-- `format_fat32` of partition.c, over the bytes of the packed `FAT32BootSector`.
pub mod Sectors
pub mod Writes
use ety_os.Base.{ℕ, ◌+◌, ◌-◌, ◌*◌, ◌/◌, ◌%◌, ◌^◌, List, [], ◌∷◌}
use ety_os.Memory.{store}
use ety_os.Bytes.{Buffer, put16, put32, get32}
use ety_os.Disk.{Disk, Cmd, ◌>>=◌, ◌>>◌, write}
use ety_os.Partition.Mbr.{sector_size}
use ety_os.Partition.Ext4.{add32, sub32, mul32}

abbrev pub sectors_per_cluster : ℕ
sectors_per_cluster = 8

abbrev pub reserved_sectors : ℕ
reserved_sectors = 32

abbrev pub num_fats : ℕ
num_fats = 2

-- `SECTORS_PER_FAT`, of a `uint32_t`.
abbrev pub sectors_per_fat : ℕ → ℕ
sectors_per_fat total_sectors =
    mul32 (sub32 total_sectors reserved_sectors / (sectors_per_cluster * 128 + 2)) 2

unfoldable zeros : Buffer
zeros i = 0

-- `memory_copy` from a string literal.
unfoldable put_bytes : Buffer → ℕ → List ℕ → Buffer
put_bytes b i [] = b
put_bytes b i (c ∷ cs) = put_bytes (store b i c) (i + 1) cs

-- The assignments to `boot_sector`, in their order, from the zeroed struct on.
unfoldable pub fat32_boot_sector : ℕ → ℕ → Buffer
unfolding put_bytes zeros
fat32_boot_sector start_lba total_sectors =
    let b = store (store (store zeros 0 0xEB) 1 0x58) 2 0x90 in
    let b = put_bytes b 3 (b'M' ∷ b'S' ∷ b'W' ∷ b'I' ∷ b'N' ∷ b'4' ∷ b'.' ∷ b'1' ∷ []) in
    let b = put16 b 11 sector_size in
    let b = store b 13 sectors_per_cluster in
    let b = put16 b 14 reserved_sectors in
    let b = store b 16 num_fats in
    let b = put16 b 17 0 in
    let b = put16 b 19 0 in
    let b = store b 21 0xF8 in
    let b = put16 b 22 0 in
    let b = put16 b 24 63 in
    let b = put16 b 26 255 in
    let b = put32 b 28 start_lba in
    let b = put32 b 32 total_sectors in
    let b = put32 b 36 (sectors_per_fat total_sectors) in
    let b = put16 b 40 0 in
    let b = put16 b 42 0 in
    let b = put32 b 44 2 in
    let b = put16 b 48 1 in
    let b = put16 b 50 6 in
    let b = store b 64 0x80 in
    let b = store b 66 0x29 in
    let b = put32 b 67 0x12345678 in
    let b =
      put_bytes b 71
        (b'N' ∷ b'O' ∷ b' ' ∷ b'N' ∷ b'A' ∷ b'M' ∷ b'E' ∷ b' ' ∷ b' ' ∷ b' ' ∷ b' ' ∷ []) in
    let b = put_bytes b 82 (b'F' ∷ b'A' ∷ b'T' ∷ b'3' ∷ b'2' ∷ b' ' ∷ b' ' ∷ b' ' ∷ []) in
    put16 b 510 0xAA55

-- `fat_sector`.
unfoldable pub first_fat_sector : Buffer
unfolding zeros
first_fat_sector = put32 (put32 (put32 zeros 0 0x0FFFFFF8) 4 0x0FFFFFFF) 8 0x0FFFFFFF

-- `done` is the return value 0, and `failed` is -1.
unfoldable pub format_fat32 : (disk : Disk) → ℕ → ℕ → ℕ → ℕ → Cmd disk.Drives (Unit {0})
format_fat32 disk controller drive start_lba total_sectors =
    let boot_sector = fat32_boot_sector start_lba total_sectors in
    let fat1_start = add32 start_lba reserved_sectors in
    let fat2_start = add32 fat1_start (get32 boot_sector 36) in
    do
      write disk controller drive start_lba boot_sector
      write disk controller drive fat1_start first_fat_sector
      write disk controller drive fat2_start first_fat_sector
