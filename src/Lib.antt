-- ===== src/Lib.antt =====
-- etyOS2: the kernel's C code.
--
-- The kernel boots into `kernel_main`, which reads commands from the keyboard and prints to VGA
-- text memory. Its disk tool scans the ATA drives, keeps a partition table in the master boot
-- record and formats partitions as ext4 or FAT32; the ext4 formatter takes its sector buffer from
-- a first-fit allocator over a static pool. Below all of these stand the routines of memory.c and
-- string.c.
--
-- Parts, with paths from the repository's root:
-- Base: names and lemmas that the parts share; Base/Text the codes of a string literal.
-- Memory: source/implementation/x86_64/memory.c over a flat memory of bytes, `memory_set` to
--   `memory_swap`.
-- CStr: source/implementation/x86_64/string.c, `strcmp` to `strncmp`, over the same memory.
-- Allocator: source/implementation/x86_64/memory_allocator.c. The heap is a function from addresses
--   to `MemoryBlock` headers; `free_list` is the pool's address. Blocks is the abstract view, a
--   list of blocks, which Chain relates to the headers.
-- Console: source/implementation/x86_64/print.c up to `print_int`, over the memory of Memory.
-- Keyboard: `get_char` and `read_input` of source/implementation/x86_64/print.c, over the sequence
--   of scan codes that the keyboard's ports give.
-- Bytes: little-endian fields of the packed structs.
-- Ata: the transfers and IDENTIFY of source/implementation/x86_64/filesystem.c, over the parameter
--   `Ports`, the accesses of source/interface/port.h. Ata/Channel is a machine with two drives to
--   run them on.
-- Disk: the interface of `ata_read_sector_disk` and `ata_write_sector_disk`, with the commands that
--   partition.c builds from them. Disk/Laws states what a drive is relied on for below a limit of
--   sectors; Ata/Drives shows it of the driver, with the limit 2 ^ 28.
-- Partition: source/implementation/x86_64/partition.c and source/interface/partition.h. Mbr is the
--   partition table, Ext4 `init_superblock` and `format_ext4`, Fat32 `format_fat32`, Create the two
--   functions that take a slot and format it, Layout the packed structs, member by
--   member, with the offsets that the others use.
-- Disktool: source/implementation/x86_64/disktool.c, its state and the commands that change it.
-- Listing: the functions that read and print: `display_partitions` and `display_available_disks` of
--   source/implementation/x86_64/partition.c, `check_filesystem` of filesystem.c, `list_disks` and
--   `display_partition_info` of disktool.c. They take the console and the drives.
--   Listing/Startup has the functions of filesystem.c that nothing calls.
-- Shell: source/implementation/kernel/main.c with commands/disktool_cmd.c and commands/help_cmd.c.
--   Shell itself is the two ladders that tell which command a line is; Shell/Session and Shell/Run
--   are what the commands do and the rounds of the two loops, over a `Machine` of console, disk
--   tool, drives, heap and keyboard.
--
-- Numbers: a `uint32_t` or `uint64_t` result is taken modulo 2 ^ 32 or 2 ^ 64 where the code can
-- exceed it. Pointers are addresses, and objects do not wrap round the address space.
--
-- Fuel: a loop with no bound of its own runs on fuel, and `none` (or `stuck` in a command) is a
-- loop that used it up. A text of n characters needs n + 1 rounds; the allocator needs one round
-- more than there are blocks, and a pool of 104857600 bytes has fewer than 104857600 / 24 of them;
-- a number of 32 bits has at most 10 digits; a line needs a round for each scan code and one more,
-- and what it holds is at most 255 characters; a poll of a drive needs one round more than the drive
-- stays busy. The two loops of the kernel do not end by themselves: a round of each is a definition.
--
-- Not modelled: the boot code in assembly and the linker script; the instructions of
-- source/interface/port.h, which are the parameter `Ports`; the progress messages of the create and format
-- functions, and the messages of the driver before its error returns. The message that a command of
-- the disk tool ends with is its reply.
pub mod Base
pub mod Memory
pub mod CStr
pub mod Allocator
pub mod Console
pub mod Bytes
pub mod Disk
pub mod Partition
pub mod Disktool
pub mod Keyboard
pub mod Ata
pub mod Listing
pub mod Shell
