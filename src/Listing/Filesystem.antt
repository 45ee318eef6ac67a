-- ===== src/Listing/Filesystem.antt =====
-- `check_filesystem` on a drive that `format_fat32` has formatted from its first sector on.
use ety_os.Base.{
  ℕ, ◌<◌, ◌≤◌, ◌^◌, ◌≡◌, refl, ◌∙◌, ap, Option, none, some, codes, ltb, if◌then◌else◌, arith,
}
use ety_os.Bytes.{Buffer}
use ety_os.Disk.{Disk, State, done}
use ety_os.Disk.Laws.{Laws, sector}
use ety_os.Console.{Console, print_str, print_char, print_newline}
use ety_os.Partition.Fat32.{fat32_boot_sector, format_fat32}
use ety_os.Partition.Fat32.Sectors.{fat32_boot_sector-name}
use ety_os.Partition.Fat32.Writes.{format_fat32-sectors}
use ety_os.Listing.{read_primary, has_bytes, report_filesystem, check_filesystem}

report_boot_sector :
    (start total : ℕ) (stack : Buffer) (c : Console)
    → report_filesystem (λ i. if ltb i 512 then fat32_boot_sector start total i else stack i) c
      ≡ print_str (codes "Filesystem detected: FAT32") c
unfolding report_filesystem has_bytes
report_boot_sector start total stack c =
    let (f, a, t, three, two) = fat32_boot_sector-name start total in rw (f, a, t, three, two) refl

check_boot_sector :
    (disk : Disk) (start total : ℕ) (stack : Buffer) (c : Console) (d : disk.Drives)
    → sector disk 0 0 0 d ≡ some (fat32_boot_sector start total)
    → (check_filesystem disk stack c d).0
      ≡ print_str (codes "Checking filesystem...\nFilesystem detected: FAT32\n") c
unfolding check_filesystem read_primary print_str print_char
check_boot_sector disk start total stack c d e =
    let head = print_newline (print_str (codes "Checking filesystem...") c) in
    ap
      (λ (b : Option Buffer).
        let c' = elim b as (λ _. Console) [
          | none ↦ print_str (codes "Error reading from disk.") head
          | some _ ↦ head
        ] in
        print_newline (elim b as (λ _. Console) [
          | none ↦
              report_filesystem stack (print_str (codes "Error: Unable to read boot sector.") c')
          | some bytes ↦ report_filesystem (λ i. if ltb i 512 then bytes i else stack i) c'
        ]))
      e
    ∙ ap print_newline (report_boot_sector start total stack head)

-- On a drive of `Laws`: when `format_fat32` of the whole of the primary master, of at least 2084
-- sectors and below its limit, returns 0, `check_filesystem` detects FAT32, whatever stands behind
-- its buffer.
pub check_filesystem-format_fat32 :
    (disk : Disk) (total : ℕ) (s : State disk.Drives) (stack : Buffer) (c : Console)
    → {limit : ℕ} → Laws disk limit
    → 2084 ≤ total
    → total < 2 ^ 32
    → total ≤ limit
    → (format_fat32 disk 0 0 0 total s).0 ≡ done tt
    → (check_filesystem disk stack c (format_fat32 disk 0 0 0 total s).1.drives).0
      ≡ print_str (codes "Checking filesystem...\nFilesystem detected: FAT32\n") c
check_filesystem-format_fat32 disk total s stack c laws lo hi fits ok =
    check_boot_sector disk 0 total stack c _
      (format_fat32-sectors disk 0 0 0 total s laws lo (omega arith) (omega arith) ok).0
