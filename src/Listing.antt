-- ===== src/Listing.antt =====
-- What is shown of the drives: `display_partitions` and `select_partition` of
-- source/implementation/x86_64/partition.c, `list_disks` and `display_partition_info` of
-- source/implementation/x86_64/disktool.c, and `check_filesystem` of
-- source/implementation/x86_64/filesystem.c.
--
-- They run on the console and the drives. `ata_read_sector` reads the master of the primary channel.
-- Where the source prints an array that no NUL closes, or reads behind the end of one, what stands
-- behind it on the stack is a parameter.
mod Tests
pub mod Types
pub mod Text
pub mod Lines
pub mod Safety
pub mod Reads
pub mod Filesystem
pub mod Startup
use ety_os.Base.{
  ℕ, zero, suc, ◌+◌, ◌-◌, ◌*◌, ◌/◌, ◌%◌, ◌^◌, Bool, true, false, not, ◌&&◌, Option, none, some,
  List, [], ◌∷◌, ◌++◌, ◌==◌, ltb, leb, if◌then◌else◌, get_or, codes, ℤ, pos, negsuc,
}
use ety_os.Bytes.{Buffer, get16}
use ety_os.Disk.{Disk}
use ety_os.Console.{Console, print_str, print_char, print_newline, print_int, text_at}
use ety_os.Partition.Mbr.{
  entry_status, entry_type, entry_lba_first, entry_sector_count, sector_size,
}
use ety_os.Partition.Ext4.{add32, mul32}
use ety_os.Disktool.{Tool, DiskInfo, read_string_from_identify, identified_size}

-- `hex_chars[nibble]`
abbrev pub hex_char : ℕ → ℕ
hex_char nibble = get_or (codes "0123456789ABCDEF") nibble 0

-- The cases of the `switch` with a fixed name, less 0x83.
unfoldable pub type_name : ℕ → Option (List ℕ)
type_name kind =
    if kind == 0x82
    then some (codes "Linux swap")
    else if kind == 0x07
    then some (codes "NTFS")
    else if kind == 0x0C
    then some (codes "FAT32 LBA")
    else if kind == 0x0B
    then some (codes "FAT32")
    else if kind == 0x0F
    then some (codes "Extended")
    else if kind == 0x05
    then some (codes "Extended")
    else if kind == 0x04
    then some (codes "FAT16")
    else if kind == 0x06
    then some (codes "FAT16B")
    else if kind == 0x0E
    then some (codes "FAT16B LBA")
    else none

-- `hex_str` has no NUL: `behind` is printed too.
unfoldable pub print_type : ℕ → List ℕ → Console → Console
print_type kind behind c = elim (type_name kind) [
  | some name ↦ print_str name c
  | none ↦
      print_str (hex_char (kind / 16 % 16) ∷ hex_char (kind % 16) ∷ b')' ∷ behind)
        (print_str (codes "Unknown (0x") c)
]

-- `sb->s_s_volume_name[j]`
abbrev pub s_volume_name : Buffer → ℕ → ℕ
s_volume_name sb j = sb (120 + j)

unfoldable pub has_name : ℕ → ℕ → Buffer → Bool
has_name zero j sb = false
has_name (suc left) j sb =
    let rest = has_name left (j + 1) sb in if not (s_volume_name sb j == 0) then true else rest

-- A `char` from 128 on is negative, and not printed.
abbrev pub printable : ℕ → Bool
printable c = leb 32 c && leb c 126

unfoldable pub print_name : ℕ → ℕ → Buffer → Console → Console
print_name zero j sb c = c
print_name (suc left) j sb c =
    let ch = s_volume_name sb j in
    let rest = print_name left (j + 1) sb (if printable ch then print_char ch c else c) in
    if ch == 0 then c else rest

unfoldable pub print_volume : Buffer → Console → Console
print_volume sb c =
    if (get16 sb 56 == 0xEF53) && has_name 16 0 sb
    then print_str (codes "]") (print_name 16 0 sb (print_str (codes " [Volume: ") c))
    else c

abbrev pub size_in_mb : ℕ → ℕ
size_in_mb sector_count = mul32 sector_count sector_size / (1024 * 1024)

-- What is printed of an entry before its type.
unfoldable pub print_extent : ℕ → Buffer → Console → Console
print_extent i mbr c =
    let c = print_int i (print_str (codes "Partition ") c) in
    let c = print_str (codes " Start LBA: ") (print_str (codes ":") c) in
    let c = print_str (codes ", Size: ") (print_int (entry_lba_first mbr i) c) in
    let c = print_int (size_in_mb (entry_sector_count mbr i)) c in
    print_str (codes ", Type: ") (print_str (codes " MB") c)

-- `partition_table[i].status & 0x80`
abbrev pub bootable : Buffer → ℕ → Bool
bootable mbr i = entry_status mbr i / 128 % 2 == 1

unfoldable pub print_end : ℕ → Buffer → Console → Console
print_end i mbr c = print_newline (if bootable mbr i then print_str (codes " [Bootable]") c else c)

-- A disk's model and size, as both lists show them.
unfoldable pub print_info : DiskInfo → Console → Console
print_info info c =
    let c = print_str (codes " (") (print_str (text_at 41 info.model 0) c) in
    print_newline (print_str (codes " MB)") (print_int (info.size_mb % 2 ^ 32) c))

module _ (disk : Disk) where
  open disk use {Drives}

  -- `ata_read_sector(lba, buffer)`, with the message of its error.
  unfoldable pub read_primary : ℕ → Console → Drives → Option Buffer × Console × Drives
  read_primary lba c d =
      let (b, d') = disk.read_sector 0 0 lba d in
      (b, elim b [ none ↦ print_str (codes "Error reading from disk.") c | some _ ↦ c ], d')

  unfoldable pub print_ext4 : ℕ → Console → Drives → Console × Drives
  print_ext4 lba_first c d =
      let (b, c', d') = read_primary (add32 lba_first 2) (print_str (codes "EXT4") c) d in
      (elim b [ none ↦ c' | some sb ↦ print_volume sb c' ], d')

  module _ (behind : List ℕ) where
    unfoldable pub print_kind : ℕ → Buffer → Console → Drives → Console × Drives
    print_kind i mbr c d =
        let ext4 = print_ext4 (entry_lba_first mbr i) c d in
        if entry_type mbr i == 0x83 then ext4 else (print_type (entry_type mbr i) behind c, d)

    unfoldable pub print_entry : ℕ → Buffer → Console → Drives → Console × Drives
    print_entry i mbr c d =
        let (c', d') = print_kind i mbr (print_extent i mbr c) d in
        if entry_type mbr i == 0 then (c, d) else (print_end i mbr c', d')

    unfoldable pub print_entries : ℕ → ℕ → Buffer → Console → Drives → Console × Drives
    print_entries zero i mbr c d = (c, d)
    print_entries (suc left) i mbr c d =
        let (c', d') = print_entry i mbr c d in print_entries left (i + 1) mbr c' d'

    unfoldable pub display_partitions : Console → Drives → Console × Drives
    display_partitions c d =
        let (b, c', d') = read_primary 0 c d in
        elim b [
          | none ↦ (print_str (codes "Error: Unable to read MBR.") c', d')
          | some mbr ↦
              print_entries 4 0 mbr (print_newline (print_str (codes "Partition Table:") c')) d'
        ]

    unfoldable pub display_partition_info : Tool → Console → Drives → Console × Drives
    display_partition_info t c d = elim t.current_disk [
      | none ↦ (print_newline (print_str (codes "No disk selected") c), d)
      | some current ↦
          display_partitions (print_info (t.available_disks current) (print_str (codes "Disk: ") c))
            d
    ]

  -- A negative number is no partition.
  unfoldable pub select_partition : ℤ → Console → Drives → Console × Drives
  select_partition partition_number c d =
      let (b, c', d') = read_primary 0 c d in
      let invalid = print_str (codes "Invalid or empty partition.") c' in
      elim b [
        | none ↦ (print_str (codes "Error: Unable to read MBR.") c', d')
        | some mbr ↦ (
          elim partition_number [
            | negsuc n ↦ invalid
            | pos n ↦
                if leb 4 n
                then invalid
                else if entry_type mbr n == 0
                then invalid
                else print_newline (print_int n (print_str (codes "Selected partition: ") c'))
          ],
          d',
        )
      ]

unfoldable pub list_loop : ℕ → ℕ → Tool → Console → Console
list_loop zero i t c = c
list_loop (suc left) i t c =
    let c = print_str (codes "] ") (print_int i (print_str (codes "[") c)) in
    list_loop left (i + 1) t (print_info (t.available_disks i) c)

unfoldable pub list_disks : Tool → Console → Console
list_disks t c =
    list_loop t.num_disks 0 t (print_newline (print_str (codes "Available Disks:\n") c))

-- The message of one drive that answers to IDENTIFY, with the 41 bytes of `model`.
unfoldable pub print_drive : ℕ → ℕ → (ℕ → ℕ) → Buffer → Console → Console
print_drive controller drive words stack c =
    let model = read_string_from_identify words 27 46 stack in
    let c =
      if model 0 == 0 then print_str (codes "(Unknown)") c else print_str (text_at 41 model 0) c in
    let c = print_int (identified_size words) (print_str (codes "  ") c) in
    let kind =
      (if controller == 0 then b'P' else b'S') ∷ (if drive == 0 then b'M' else b'S') ∷ [] in
    print_newline (print_str kind (print_str (codes " MB ") c))

module _ {D : Type 0} (identify : ℕ → ℕ → D → Option (ℕ → ℕ) × D) (stack : Buffer) where
  -- One round of the two loops: `drive_count`, the console and the drives.
  unfoldable pub show_drive : ℕ → ℕ → ℕ × Console × D → ℕ × Console × D
  show_drive controller drive (n, c, d) =
      let (words, d') = identify controller drive d in
      elim words [
        | none ↦ (n, c, d')
        | some w ↦ (n + 1, print_drive controller drive w stack c, d')
      ]

  unfoldable pub display_available_disks : Console → D → Console × D
  display_available_disks c d =
      let c = print_newline (print_str (codes "Model / Size / Type") c) in
      let (n, c', d') =
        show_drive 1 1 (show_drive 1 0 (show_drive 0 1 (show_drive 0 0 (0, c, d)))) in
      (if n == 0 then print_newline (print_str (codes "No drives found.") c') else c', d')

-- The bytes that `check_filesystem` compares, from `at` on.
unfoldable pub has_bytes : Buffer → ℕ → List ℕ → Bool
has_bytes buffer at [] = true
has_bytes buffer at (c ∷ cs) = (buffer at == c) && has_bytes buffer (at + 1) cs

unfoldable pub hex_loop : ℕ → ℕ → Buffer → Console → Console
hex_loop zero i buffer c = c
hex_loop (suc left) i buffer c =
    let hex = hex_char (buffer i / 16) ∷ hex_char (buffer i % 16) ∷ [] in
    hex_loop left (i + 1) buffer (print_str (codes " ") (print_str hex c))

-- What is found in the bytes of the boot sector, and behind them.
unfoldable pub report_filesystem : Buffer → Console → Console
report_filesystem buffer c =
    if has_bytes buffer 0x52 (codes "FAT32")
    then print_str (codes "Filesystem detected: FAT32") c
    else if has_bytes buffer 0x36 (codes "FAT16")
    then print_str (codes "Filesystem detected: FAT16") c
    else if has_bytes buffer 0x8001 (codes "CD001")
    then print_str (codes "Filesystem detected: ISO9660 (CD-ROM)") c
    else (let c = print_str (codes "Filesystem type: Unknown or unsupported.") c in
        print_newline (hex_loop 64 0 buffer (print_str (codes "Boot Sector Data: ") c)))

-- A failed read leaves the bytes of the stack, `stack`, which also stand behind the buffer's 512.
unfoldable pub check_filesystem :
    (disk : Disk) → Buffer → Console → disk.Drives → Console × disk.Drives
check_filesystem disk stack c d =
    let (b, c', d') =
      read_primary disk 0 (print_newline (print_str (codes "Checking filesystem...") c)) d in
    (
      print_newline (elim b [
        | none ↦ report_filesystem stack (print_str (codes "Error: Unable to read boot sector.") c')
        | some bytes ↦ report_filesystem (λ i. if ltb i sector_size then bytes i else stack i) c'
      ]),
      d',
    )
