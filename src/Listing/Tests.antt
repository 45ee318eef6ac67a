-- ===== src/Listing/Tests.antt =====
-- What is shown of the drives on two ATA channels, and of a drive in memory.
use ety_os.Base.{◌≡◌, ◌==◌, if◌then◌else◌, arith, refl, codes, ◌++◌, some}
use ety_os.Bytes.{Buffer, sector_bytes}
use ety_os.Disk.{done, write}
use ety_os.Console.{Console, print_str}
use ety_os.Partition.Fat32.{format_fat32}
use ety_os.Partition.Tests.{ram, ram-Laws, boot}
use ety_os.Listing.{display_partitions, check_filesystem}
use ety_os.Listing.Text.{listing}
use ety_os.Listing.Lines.{display_partitions-listing}
use ety_os.Listing.Filesystem.{check_filesystem-format_fat32}

abbrev screen_start : Console
screen_start = record { mem = λ a. 0; col = 0; row = 0; color = 7 }

-- The first slot holds an ext4 partition that can be booted.
abbrev table : Buffer
table i = if i == 446 then 0x80 else if i == 450 then 0x83 else if i == 454 then 4 else 0

display_partitions-listing_example :
    (display_partitions ram (codes "?") screen_start (λ l. table)).0
    ≡ print_str
        (codes "Partition Table:\n"
          ++ listing 4 0 (sector_bytes table) (codes "?") (λ k. some (sector_bytes table)))
        screen_start
display_partitions-listing_example =
    display_partitions-listing ram ram-Laws (codes "?") (sector_bytes table) screen_start
      (λ l. table) refl

formatted_whole : (format_fat32 ram 0 0 0 20480 boot).0 ≡ done tt
unfolding format_fat32 write
formatted_whole = refl

check_filesystem-format_fat32_example :
    (check_filesystem ram (λ i. 1) screen_start (format_fat32 ram 0 0 0 20480 boot).1.drives).0
    ≡ print_str (codes "Checking filesystem...\nFilesystem detected: FAT32\n") screen_start
check_filesystem-format_fat32_example =
    check_filesystem-format_fat32 ram 20480 boot (λ i. 1) screen_start ram-Laws (omega arith)
      (omega arith) (omega arith) formatted_whole
